-- ===== src/Mq/Push.antt =====
-- skynet_mq_push: the message goes to the end, also where the ring is full and grows.
use native.Mathlib.Nat.{mod-eq_of_lt}
use jump.Base.{
  ℕ, suc, ◌+◌, ◌*◌, ◌%◌, ◌<◌, ◌≡◌, ◌≢◌, refl, ap, ap₂, ◌∙◌, sym, [], ◌∷◌, ◌++◌, arith, get_or, set,
  replicate, ◌==◌, Bool-cases, length-append, length-replicate, length-set, get_or-set_self,
  get_or-set_ne, inl, inr,
}
use jump.Mq.{
  Message, MessageQueue, blank, mq_length, slots, expand_queue, write_tail, expand_if_full, push,
}
use jump.Mq.Slots.{mod_wrap, slot, length-slots, get_or-slots, slots_ext, slots_snoc}
use jump.Mq.Ring.{IsValid, contents, slot_of_tail}

-- Before the tail the write is not seen.
slot-ne-tail :
    {q : MessageQueue} (k : ℕ) → IsValid q → k < mq_length q → (q.head + k) % q.cap ≢ q.tail
unfolding mq_length
slot-ne-tail {q} k v h =
    ground (arith, mod_wrap (q.head + k) q.cap, mod-eq_of_lt {n = q.head + k} {m = q.cap})

-- The messages of the queue and the new one, read from the array after the write.
slots-set_tail :
    {q : MessageQueue} (m : Message)
    → IsValid q
    → slots (set q.queue q.tail m) q.cap q.head 0 (suc (mq_length q)) ≡ contents q ++ m ∷ []
slots-set_tail {q} m v =
    slots_snoc (set q.queue q.tail m) q.cap q.head 0 (mq_length q)
    ∙ ap₂ (λ xs x. xs ++ x ∷ [])
        (slots_ext (set q.queue q.tail m) q.queue q.cap q.cap q.head q.head 0 0 (mq_length q) λ k l.
          get_or-set_ne q.queue q.tail ((q.head + (0 + k)) % q.cap) m blank
            (λ e. slot-ne-tail k v l (ap (λ j. (q.head + j) % q.cap) (omega arith) ∙ sym e)))
        (ap (slot (set q.queue q.tail m) q.cap q.head) start
          ∙ ap (λ j. get_or (set q.queue q.tail m) j blank) (slot_of_tail v)
          ∙ get_or-set_self q.queue q.tail m blank (omega arith))
  where
    start : 0 + mq_length q ≡ mq_length q
    start = omega arith

write_tail-IsValid : {q : MessageQueue} (m : Message) → IsValid q → IsValid (write_tail q m)
unfolding write_tail
write_tail-IsValid {q} m v = ground (arith, length-set q.queue q.tail m)

expand_queue-IsValid : {q : MessageQueue} → IsValid q → IsValid (expand_queue q)
unfolding expand_queue
expand_queue-IsValid {q} v = ground (
  arith,
  length-append (slots q.queue q.cap q.head 0 q.cap) (replicate q.cap blank),
  length-slots q.queue q.cap q.head 0 q.cap,
  length-replicate q.cap blank,
)

-- Room for the message after the write, or exactly none.
mq_length-write_tail :
    {q : MessageQueue} (m : Message)
    → IsValid q
    → q.head ≢ (write_tail q m).tail
    → mq_length (write_tail q m) ≡ suc (mq_length q)
unfolding mq_length write_tail
mq_length-write_tail {q} m v ne = ground arith

mq_length-full :
    {q : MessageQueue} (m : Message)
    → IsValid q
    → q.head ≡ (write_tail q m).tail
    → suc (mq_length q) ≡ q.cap
unfolding mq_length write_tail
mq_length-full {q} m v e = ground arith

mq_length-expand_queue : (q : MessageQueue) → mq_length (expand_queue q) ≡ q.cap
unfolding mq_length expand_queue
mq_length-expand_queue q = ground arith

-- Growing keeps the slots, for a ring whose `cap` slots are all taken.
contents-expand_queue :
    {q : MessageQueue} → IsValid q → contents (expand_queue q) ≡ slots q.queue q.cap q.head 0 q.cap
unfolding expand_queue
contents-expand_queue {q} v = rw (mq_length-expand_queue q) (
    slots_ext (expand_queue q).queue q.queue (q.cap * 2) q.cap 0 q.head 0 0 q.cap λ k l.
      ap (λ j. get_or (expand_queue q).queue j blank) (small k l)
      ∙ get_or-slots q.queue (replicate q.cap blank) q.cap q.head 0 q.cap k l)
  where
    small : (k : ℕ) → k < q.cap → (0 + (0 + k)) % (q.cap * 2) ≡ k
    small k l =
        let start : 0 + (0 + k) ≡ k = omega arith in
        ap (λ j. j % (q.cap * 2)) start ∙ mod-eq_of_lt (omega arith)

contents-write_tail :
    {q : MessageQueue} (m : Message)
    → IsValid q
    → q.head ≢ (write_tail q m).tail
    → contents (write_tail q m) ≡ contents q ++ m ∷ []
unfolding write_tail
contents-write_tail {q} m v ne = rw (mq_length-write_tail m v ne) (slots-set_tail m v)

contents-grown :
    {q : MessageQueue} (m : Message)
    → IsValid q
    → q.head ≡ (write_tail q m).tail
    → contents (expand_queue (write_tail q m)) ≡ contents q ++ m ∷ []
unfolding write_tail
contents-grown {q} m v e =
    contents-expand_queue (write_tail-IsValid m v)
    ∙ ap (slots (set q.queue q.tail m) q.cap q.head 0) (sym (mq_length-full m v e))
    ∙ slots-set_tail m v

expand_if_full-IsValid : {q : MessageQueue} → IsValid q → IsValid (expand_if_full q)
unfolding expand_if_full write_tail
expand_if_full-IsValid {q} v = ground (arith, expand_queue-IsValid v)

contents-in_global : (q : MessageQueue) (n : ℕ) → contents (record q { in_global = n }) ≡ contents q
unfolding mq_length
contents-in_global q n = refl

contents-expand_if_full :
    {q : MessageQueue} (m : Message)
    → IsValid q
    → contents (expand_if_full (write_tail q m)) ≡ contents q ++ m ∷ []
unfolding expand_if_full write_tail
contents-expand_if_full {q} m v = elim (Bool-cases (q.head == (write_tail q m).tail)) [
  | inl e ↦ rw e (contents-grown m v (ground arith))
  | inr e ↦ rw e (contents-write_tail m v (ground arith))
]

pub push-IsValid : {q : MessageQueue} (m : Message) → IsValid q → IsValid (push q m).0
unfolding push
push-IsValid {q} m v = ground (arith, expand_if_full-IsValid (write_tail-IsValid m v))

-- On a well-formed ring `skynet_mq_push` puts the message behind all others, whether or not the ring grows for it, and
-- keeps the ring well formed.
pub push_refines :
    {q : MessageQueue} (m : Message)
    → IsValid q
    → (contents (push q m).0 ≡ contents q ++ m ∷ []) × IsValid (push q m).0
unfolding push
push_refines {q} m v = (
  elim (Bool-cases (q.in_global == 0)) [
    | inl e ↦ rw e (contents-in_global _ 1 ∙ contents-expand_if_full m v)
    | inr e ↦ rw e (contents-expand_if_full m v)
  ],
  push-IsValid m v,
)
