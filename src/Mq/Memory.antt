-- ===== src/Mq/Memory.antt =====
-- skynet_mq.c on a memory of message queues that pointers name: the calls that reach the global
-- queue. `none` as a result is a failed `assert`. A call's lock makes it one step.
use mathlib.Core.Option
use jump.Base.{ℕ, zero, suc, List, [], ◌∷◌, Option, none, some, ◌==◌, if◌then◌else◌, update}
use jump.Mq.{Message, MessageQueue, push, pop}
use jump.Mq.Global.{Global}
use jump.Mq.Global

pub record Memory : Type 0 where
  pub ring : ℕ → MessageQueue
  pub global : Global

abbrev pub store : Memory → ℕ → MessageQueue → Memory
store mem p q = record mem { ring = update mem.ring p q }

-- `skynet_globalmq_push` of a queue of the memory
unfoldable pub enqueue : Memory → ℕ → Option Memory
enqueue mem p = Option.map (λ g. record mem { global = g }) (Global.push mem.global p)

-- `skynet_mq_push`: a queue that was not in the global queue goes there.
unfoldable pub mq_push : Memory → ℕ → Message → Option Memory
mq_push mem p m =
    let (q, signal) = push (mem.ring p) m in
    if signal then enqueue (store mem p q) p else some (store mem p q)

-- `skynet_mq_mark_release`: `in_global` stays as it was.
unfoldable pub mark_release : Memory → ℕ → Option Memory
mark_release mem p =
    let q = mem.ring p in
    let marked = store mem p (record q { release = 1 }) in
    if q.release == 0 then (if q.in_global == 1 then some marked else enqueue marked p) else none

-- The loop of `_drop_queue`: the messages that `drop_func` is called with, in order, and the queue
-- that is left. The fuel bounds the calls of `skynet_mq_pop`.
unfoldable pub drop_queue : ℕ → MessageQueue → List Message × MessageQueue
drop_queue zero q = ([], q)
drop_queue (suc fuel) q =
    let (o, r) = pop q in
    elim o [ none ↦ ([], r) | some m ↦ let (ms, s) = drop_queue fuel r in (m ∷ ms, s) ]

-- `_drop_queue`, with the assertion of `_release` that the queue is not linked
unfoldable pub drop_and_free : Memory → ℕ → Option (List Message)
drop_and_free mem p =
    let q = mem.ring p in
    elim (mem.global.next p) [ none ↦ some (drop_queue q.cap q).0 | some r ↦ none ]

-- What `skynet_mq_release` does: the queue is dropped with its messages, or goes back.
pub data Release : Type 0 where
  dropped : List Message → Release
  kept : Memory → Release

-- `skynet_mq_release`
unfoldable pub mq_release : Memory → ℕ → Option Release
mq_release mem p =
    let q = mem.ring p in
    if q.release == 0
    then Option.map kept (enqueue mem p)
    else Option.map dropped (drop_and_free mem p)
