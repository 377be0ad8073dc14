-- ===== src/Mq/Drop.antt =====
-- `_drop_queue` and the overload reading: what a run of `skynet_mq_pop` does.
use jump.Base.{
  ℕ, zero, suc, ◌+◌, ◌*◌, ◌≤◌, ◌<◌, ◌≡◌, ◌≢◌, refl, ap, List, [], ◌∷◌, arith, length, ◌==◌,
  Bool-cases, inl, inr,
}
use jump.Mq.{Message, MessageQueue, pop, mq_length, length_after, take_head, raise_threshold}
use jump.Mq.Slots.{length-slots}
use jump.Mq.Ring.{IsValid, contents, pop_front, pop_refines, pop-IsValid, mq_length-lt-cap}
use jump.Mq.Memory.{drop_queue}

pub length-contents : (q : MessageQueue) → length (contents q) ≡ mq_length q
length-contents q = length-slots q.queue q.cap q.head 0 (mq_length q)

-- The length that `skynet_mq_pop` computes is the number of messages left.
mq_length-take_head : (q : MessageQueue) → mq_length (take_head q) ≡ length_after q
unfolding mq_length take_head length_after
mq_length-take_head q = ground arith

drop_from :
    (fuel : ℕ) (q : MessageQueue) (ms : List Message)
    → IsValid q
    → contents q ≡ ms
    → length ms < fuel
    → ((drop_queue fuel q).0 ≡ ms) × (contents (drop_queue fuel q).1 ≡ [])
unfolding drop_queue
drop_from zero q ms v e h = elim h [ ]
drop_from (suc fuel) q [] v e h = ground (arith, (pop_refines v).0, ap pop_front e)
drop_from (suc fuel) q (m ∷ ms) v e h =
    ground (arith, (pop_refines v).0, ap pop_front e, drop_from fuel (pop q).1 ms (pop-IsValid v))

-- Dropping a well-formed queue hands every message that is in it to `drop_func`, in order and once,
-- within as many rounds as the ring has slots, and leaves it empty.
pub drop_queue_lem :
    {q : MessageQueue}
    → IsValid q
    → ((drop_queue q.cap q).0 ≡ contents q) × (contents (drop_queue q.cap q).1 ≡ [])
drop_queue_lem {q} v =
    drop_from q.cap q (contents q) v refl (omega (arith, length-contents q, mq_length-lt-cap v))

-- With fuel enough, the loop ends by its test; it writes `over` if it runs at all.
raise_threshold_lem :
    (fuel len threshold over : ℕ)
    → 0 < threshold
    → len ≤ threshold + fuel
    → (len ≤ (raise_threshold fuel len threshold over).0)
      × (len ≤ threshold → raise_threshold fuel len threshold over ≡ (threshold, over))
      × (threshold < len
          → ((raise_threshold fuel len threshold over).1 ≡ len)
            × ((raise_threshold fuel len threshold over).0 < len * 2))
unfolding raise_threshold
raise_threshold_lem zero len threshold over p h = ground arith
raise_threshold_lem (suc fuel) len threshold over p h =
    ground (arith, raise_threshold_lem fuel len (threshold * 2) len)

take_head_overload :
    {q : MessageQueue}
    → IsValid q
    → let r = take_head q in
      (mq_length r ≤ r.overload_threshold)
      × (mq_length r ≤ q.overload_threshold
          → (r.overload ≡ q.overload) × (r.overload_threshold ≡ q.overload_threshold))
      × (q.overload_threshold < mq_length r
          → (r.overload ≡ mq_length r) × (r.overload_threshold < mq_length r * 2))
unfolding take_head
take_head_overload {q} v = rw (mq_length-take_head q) (
    ground (
      arith,
      raise_threshold_lem (length_after q) (length_after q) q.overload_threshold q.overload,
    ))

-- After a message is taken from a well-formed queue that then holds `n` others, the threshold is at least `n`. If it was so
-- before, threshold and overload stay; else the overload is `n` and the threshold below twice `n`.
pub pop_overload :
    {q : MessageQueue}
    → IsValid q
    → q.head ≢ q.tail
    → let r = (pop q).1 in
      (mq_length r ≤ r.overload_threshold)
      × (mq_length r ≤ q.overload_threshold
          → (r.overload ≡ q.overload) × (r.overload_threshold ≡ q.overload_threshold))
      × (q.overload_threshold < mq_length r
          → (r.overload ≡ mq_length r) × (r.overload_threshold < mq_length r * 2))
unfolding pop
pop_overload {q} v ne = elim (Bool-cases (q.head == q.tail)) [
  | inl e ↦ absurd (ne (ground arith))
  | inr e ↦ rw (e, pop) (take_head_overload v)
]
