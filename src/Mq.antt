-- ===== src/Mq.antt =====
-- skynet-src/skynet_mq.c: the message queue of one service, a ring that grows, and the global queue
-- of the services that have messages. This file has the ring; `Global` has the linked list.
pub mod Slots
pub mod Ring
pub mod Push
pub mod Global
pub mod Memory
pub mod Drop
pub mod Owners
mod Tests
use jump.Base.{
  ℕ, zero, suc, ◌+◌, ◌-◌, ◌*◌, ◌%◌, Bool, true, false, List, [], ◌∷◌, ◌++◌, Option, none, some,
  get_or, set, replicate, ltb, leb, ◌==◌, if◌then◌else◌,
}

-- `struct skynet_message`; `body` is the pointer `data`, which the queue only moves.
pub record Message : Type 0 where
  pub source : ℕ
  pub session : ℕ
  pub body : ℕ
  pub sz : ℕ

-- What a slot that was never written reads as.
abbrev pub blank : Message
blank = record { source = 0; session = 0; body = 0; sz = 0 }

abbrev pub default_queue_size : ℕ
default_queue_size = 64

abbrev pub mq_overload : ℕ
mq_overload = 1024

-- `struct message_queue` without `lock` and `next`.
pub record MessageQueue : Type 0 where
  pub handle : ℕ
  pub cap : ℕ
  pub head : ℕ
  pub tail : ℕ
  pub release : ℕ
  pub in_global : ℕ
  pub overload : ℕ
  pub overload_threshold : ℕ
  pub queue : List Message

-- `skynet_mq_create`
unfoldable pub create : ℕ → MessageQueue
create handle = record {
  handle = handle;
  cap = default_queue_size;
  head = 0;
  tail = 0;
  release = 0;
  in_global = 1;
  overload = 0;
  overload_threshold = mq_overload;
  queue = replicate default_queue_size blank;
}

-- `skynet_mq_length`
unfoldable pub mq_length : MessageQueue → ℕ
mq_length q = if leb q.head q.tail then q.tail - q.head else q.tail + q.cap - q.head

-- `skynet_mq_overload`: the reading is reset.
unfoldable pub overload : MessageQueue → ℕ × MessageQueue
overload q = if q.overload == 0 then (0, q) else (q.overload, record q { overload = 0 })

-- `while (length > threshold) { overload = length; threshold *= 2; }`, on fuel: the result is the
-- threshold and the overload.
pub raise_threshold : ℕ → ℕ → ℕ → ℕ → ℕ × ℕ
raise_threshold zero len threshold over = (threshold, over)
raise_threshold (suc fuel) len threshold over =
    let again = raise_threshold fuel len (threshold * 2) len in
    if ltb threshold len then again else (threshold, over)

-- The head after `head++` and the wrap-around.
pub next_head : MessageQueue → ℕ
next_head q = if leb q.cap (q.head + 1) then 0 else q.head + 1

-- `length = tail - head; if (length < 0) length += cap`
pub length_after : MessageQueue → ℕ
length_after q =
    let head = next_head q in if ltb q.tail head then q.tail + q.cap - head else q.tail - head

-- The branch of `skynet_mq_pop` that takes a message.
pub take_head : MessageQueue → MessageQueue
take_head q =
    let len = length_after q in
    let (threshold, over) = raise_threshold len len q.overload_threshold q.overload in
    record q { head = next_head q; overload_threshold = threshold; overload = over }

-- `skynet_mq_pop`; `none` is the return value 1.
pub pop : MessageQueue → Option Message × MessageQueue
pop q =
    if q.head == q.tail
    then (none, record q { overload_threshold = mq_overload; in_global = 0 })
    else (some (get_or q.queue q.head blank), take_head q)

-- The slots `(head + i) % cap` for `n` values of `i`.
pub slots : List Message → ℕ → ℕ → ℕ → ℕ → List Message
slots buf cap head i zero = []
slots buf cap head i (suc n) = get_or buf ((head + i) % cap) blank ∷ slots buf cap head (i + 1) n

-- `expand_queue`
pub expand_queue : MessageQueue → MessageQueue
expand_queue q = record q {
  cap = q.cap * 2;
  head = 0;
  tail = q.cap;
  queue = slots q.queue q.cap q.head 0 q.cap ++ replicate q.cap blank;
}

-- The message is written and `tail` moves.
pub write_tail : MessageQueue → Message → MessageQueue
write_tail q m = record q {
  queue = set q.queue q.tail m;
  tail = if leb q.cap (q.tail + 1) then 0 else q.tail + 1;
}

pub expand_if_full : MessageQueue → MessageQueue
expand_if_full q = if q.head == q.tail then expand_queue q else q

-- `skynet_mq_push` on the ring; the flag is true if the queue is to go to the global queue.
pub push : MessageQueue → Message → MessageQueue × Bool
push q m =
    let r = expand_if_full (write_tail q m) in
    if q.in_global == 0 then (record r { in_global = 1 }, true) else (r, false)
