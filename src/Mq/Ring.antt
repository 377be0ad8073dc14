-- ===== src/Mq/Ring.antt =====
-- The ring of skynet_mq.c: its invariant, and the FIFO that it implements.
use jump.Base.{
  ℕ, zero, suc, ◌+◌, ◌*◌, ◌%◌, ◌<◌, ◌≤◌, ◌≡◌, ◌≢◌, ap, ap₂, List, [], ◌∷◌, Option, none, some,
  arith, length, get_or, ◌==◌, Bool-cases, length-replicate, inl, inr, max,
}
use native.Mathlib.Nat.{mod-eq_of_lt}
use jump.Mq.{
  Message, MessageQueue, blank, create, mq_length, next_head, length_after, take_head, pop, slots,
  raise_threshold, default_queue_size, mq_overload,
}
use jump.Mq.Slots.{mod_wrap, slot, slots_ext}

-- The threshold after the loop, with fuel for as many rounds as there are messages.
pub raise_threshold_bounds :
    (fuel len threshold over : ℕ)
    → 0 < threshold
    → len ≤ threshold + fuel
    → (len ≤ (raise_threshold fuel len threshold over).0)
      × (threshold ≤ (raise_threshold fuel len threshold over).0)
      × ((raise_threshold fuel len threshold over).0 ≤ max threshold (len * 2))
unfolding raise_threshold
raise_threshold_bounds zero len threshold over p h = omega arith
raise_threshold_bounds (suc fuel) len threshold over p h =
    ground (arith, raise_threshold_bounds fuel len (threshold * 2) len)

pub record IsValid (q : MessageQueue) : Type 0 where
  pub size : length q.queue ≡ q.cap
  pub head_in : q.head < q.cap
  pub tail_in : q.tail < q.cap
  pub threshold_pos : 0 < q.overload_threshold

-- The messages in the queue, the oldest first.
abbrev pub contents : MessageQueue → List Message
contents q = slots q.queue q.cap q.head 0 (mq_length q)

pub create-IsValid : (handle : ℕ) → IsValid (create handle)
unfolding create
create-IsValid handle = record {
  size = length-replicate default_queue_size blank;
  head_in = omega arith;
  tail_in = omega arith;
  threshold_pos = omega arith;
}

pub mq_length-lt-cap : {q : MessageQueue} → IsValid q → mq_length q < q.cap
unfolding mq_length
mq_length-lt-cap v = ground arith

-- Where `tail` stands, seen from the head.
pub slot_of_tail : {q : MessageQueue} → IsValid q → (q.head + mq_length q) % q.cap ≡ q.tail
unfolding mq_length
slot_of_tail {q} v = ground (
  arith,
  mod_wrap (q.head + mq_length q) q.cap,
  mod-eq_of_lt {n = q.head + mq_length q} {m = q.cap},
)

pub pop-IsValid : {q : MessageQueue} → IsValid q → IsValid (pop q).1
unfolding pop take_head next_head
pop-IsValid {q} v = ground (
  arith,
  raise_threshold_bounds (length_after q) (length_after q) q.overload_threshold q.overload,
)

-- The specification: a queue without a bound, oldest first.
abbrev pub pop_front : List Message → Option Message × List Message
pop_front [] = (none, [])
pop_front (m ∷ ms) = (some m, ms)

mq_length-take_head :
    {q : MessageQueue} → IsValid q → q.head ≢ q.tail → mq_length q ≡ suc (mq_length (take_head q))
unfolding mq_length take_head next_head
mq_length-take_head {q} v ne = ground arith

mq_length-eq-zero : {q : MessageQueue} → IsValid q → q.head ≡ q.tail → mq_length q ≡ 0
unfolding mq_length
mq_length-eq-zero {q} v e = ground arith

slot-next_head :
    {q : MessageQueue} (k : ℕ)
    → IsValid q
    → suc k < q.cap
    → slot q.queue q.cap q.head (1 + k) ≡ slot q.queue q.cap (next_head q) (0 + k)
unfolding next_head
slot-next_head {q} k v h =
    ap (λ i. get_or q.queue i blank)
      (ground (
        arith,
        mod_wrap (q.head + (1 + k)) q.cap,
        mod-eq_of_lt {n = q.head + (1 + k)} {m = q.cap},
        mod-eq_of_lt {n = next_head q + (0 + k)} {m = q.cap},
      ))

pub contents-nil : {q : MessageQueue} → IsValid q → q.head ≡ q.tail → contents q ≡ []
unfolding slots
contents-nil v e = rw (mq_length-eq-zero v e)

contents-take_head :
    {q : MessageQueue}
    → IsValid q
    → q.head ≢ q.tail
    → contents q ≡ get_or q.queue q.head blank ∷ contents (take_head q)
unfolding slots take_head
contents-take_head {q} v ne = rw (mq_length-take_head v ne) (
    ap₂ ◌∷◌
      (ap (λ i. get_or q.queue i blank) (ground (arith, mod-eq_of_lt {n = q.head + 0} {m = q.cap})))
      (slots_ext q.queue q.queue q.cap q.cap q.head (next_head q) 1 0 (mq_length (take_head q))
        λ k l. slot-next_head k v (omega (arith, mq_length-lt-cap v, mq_length-take_head v ne))))

contents-pop :
    {q : MessageQueue} → IsValid q → let (m, r) = pop q in (m, contents r) ≡ pop_front (contents q)
unfolding pop
contents-pop {q} v = elim (Bool-cases (q.head == q.tail)) [
  | inl e ↦
      let h : q.head ≡ q.tail = ground arith in
      rw (e, contents-nil v h)
        (ground
          (arith, contents-nil {q = record q { overload_threshold = mq_overload; in_global = 0 }}))
  | inr e ↦ rw (contents-take_head v (ground arith), e)
]

-- On a well-formed ring `skynet_mq_pop` hands out the oldest message and keeps the others in order; on
-- an empty one it fails and changes no message. It keeps the ring well formed.
pub pop_refines :
    {q : MessageQueue}
    → IsValid q
    → let (m, r) = pop q in ((m, contents r) ≡ pop_front (contents q)) × IsValid r
pop_refines v = (contents-pop v, pop-IsValid v)
