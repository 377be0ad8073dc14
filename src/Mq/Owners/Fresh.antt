-- ===== src/Mq/Owners/Fresh.antt =====
-- Queues in use: allocated, and not retired. Which steps keep them so.
use mathlib.Core.Option
use jump.Base.{
  ℕ, ◌≡◌, ◌≢◌, refl, sym, ap, subst, ◌∙◌, true, false, Option, none, some, List, arith, update,
  update_self, update_ne, ◌==◌, ==_iff, ℕ_discrete, some-eq, Bool-cases, inl, inr,
}
use jump.Mq.{Message, MessageQueue, push, pop, take_head, write_tail, expand_if_full, expand_queue}
use jump.Mq.Global.{Global}
use jump.Mq.Global
use jump.Mq.Memory.{
  Memory, dropped, kept, store, enqueue, mq_push, mark_release, mq_release, drop_and_free,
}
use jump.Mq.Owners.{World, Step, make, send, take, give, next, drained, retire, discard, keep}

abbrev pub Fresh : World → ℕ → Type 0
Fresh w q = (w.live q ≡ true) × ((w.mem.ring q).release ≡ 0)

-- The steps that a worker takes by itself
abbrev pub IsWorker : {w u : World} → Step w u → Type 0
IsWorker (make w p h e) = ⊥
IsWorker (send w p m a b c) = ⊥
IsWorker (retire w p a b) = ⊥
IsWorker _ = Unit {0}

enqueue_ring : (mem : Memory) (p : ℕ) {m : Memory} → enqueue mem p ≡ some m → m.ring ≡ mem.ring
unfolding enqueue
enqueue_ring mem p e = go (Global.push mem.global p) e
  where
    go :
        {m : Memory} (o : Option Global)
        → Option.map (λ g. record { ring = mem.ring; global = g }) o ≡ some m
        → m.ring ≡ mem.ring
    go none e = cc
    go (some g) e = sym (ap (λ (x : Memory). x.ring) (some-eq e))

release-pop : (q : MessageQueue) → (pop q).1.release ≡ q.release
unfolding pop take_head
release-pop q = ground arith

release-push : (q : MessageQueue) (m : Message) → (push q m).0.release ≡ q.release
unfolding push write_tail expand_if_full expand_queue
release-push q m = ground arith

-- A queue that is stored with its mark as it was
store-release :
    (mem : Memory) (p q : ℕ) (r : MessageQueue)
    → r.release ≡ (mem.ring p).release
    → (mem.ring q).release ≡ 0
    → ((store mem p r).ring q).release ≡ 0
store-release mem p q r same z = elim (ℕ_discrete p q) [
  | yes e ↦
      ap (λ (x : MessageQueue). x.release)
        (subst (λ x. update mem.ring p r x ≡ r) e (update_self mem.ring p r))
      ∙ same
      ∙ ap (λ x. (mem.ring x).release) e
      ∙ z
  | no ne ↦ ap (λ (x : MessageQueue). x.release) (update_ne mem.ring p q r ne) ∙ z
]

dropped_marked :
    (mem : Memory) (p : ℕ) {ms : List Message}
    → mq_release mem p ≡ some (dropped ms)
    → (mem.ring p).release ≢ 0
unfolding mq_release
dropped_marked mem p {ms} e z =
    go (enqueue mem p) (sym (rw ((==_iff (mem.ring p).release 0).1 z, mq_release) refl) ∙ e)
  where
    go : (o : Option Memory) → Option.map kept o ≡ some (dropped ms) → ⊥
    go none f = cc
    go (some m) f = cc

kept-enqueue :
    (mem : Memory) (p : ℕ) {m : Memory} → mq_release mem p ≡ some (kept m) → enqueue mem p ≡ some m
unfolding mq_release
kept-enqueue mem p e = ground (arith, drop_and_free mem p)

-- What workers do leaves the queues in use that were.
pub worker-Fresh : {w u : World} (s : Step w u) → IsWorker s → (q : ℕ) → Fresh w q → Fresh u q
worker-Fresh (make w p h e) i q f = elim i [ ]
worker-Fresh (send w p m a b c) i q f = elim i [ ]
worker-Fresh (retire w p a b) i q f = elim i [ ]
worker-Fresh (take w e) i q f = f
worker-Fresh (give w p h e) i q (l, z) = (l, ap (λ r. (r q).release) (enqueue_ring w.mem p e) ∙ z)
worker-Fresh (next w p {q = r} h y e) i q (l, z) = (
  l,
  store-release w.mem p q r
      (ap (λ (x : Option Message × MessageQueue). x.1.release) (sym e) ∙ release-pop (w.mem.ring p))
      z,
)
worker-Fresh (drained w p {q = r} h y e) i q (l, z) = (
  l,
  store-release w.mem p q r
      (ap (λ (x : Option Message × MessageQueue). x.1.release) (sym e) ∙ release-pop (w.mem.ring p))
      z,
)
worker-Fresh (discard w p h e) i q (l, z) =
    let ne : p ≢ q = λ s. dropped_marked w.mem p e (ap (λ x. (w.mem.ring x).release) s ∙ z) in
    (update_ne w.live p q false ne ∙ l, z)
worker-Fresh (keep w p h e) i q (l, z) =
    (l, ap (λ r. (r q).release) (enqueue_ring w.mem p (kept-enqueue w.mem p e)) ∙ z)

-- A push changes the ring of its queue.
pub mq_push_ring :
    (mem : Memory) (p : ℕ) (m : Message) {k : Memory}
    → mq_push mem p m ≡ some k
    → k.ring ≡ update mem.ring p (push (mem.ring p) m).0
unfolding mq_push
mq_push_ring mem p m {k} e =
    let r = (push (mem.ring p) m).0 in
    elim (Bool-cases (push (mem.ring p) m).1) [
      | inl b ↦
          let f : enqueue (store mem p r) p ≡ some k = sym (rw (b, mq_push) refl) ∙ e in
          enqueue_ring (store mem p r) p f
      | inr b ↦
          let f : some (store mem p r) ≡ some k = sym (rw (b, mq_push) refl) ∙ e in
          sym (ap (λ (x : Memory). x.ring) (some-eq f))
    ]

-- So does a push to any queue.
pub mq_push-Fresh :
    (w : World) (p q : ℕ) (m : Message) {mem : Memory}
    → mq_push w.mem p m ≡ some mem
    → Fresh w q
    → Fresh (record w { mem = mem }) q
mq_push-Fresh w p q m e (l, z) = (
  l,
  ap (λ r. (r q).release) (mq_push_ring w.mem p m e)
      ∙ store-release w.mem p q (push (w.mem.ring p) m).0 (release-push (w.mem.ring p) m) z,
)

marked_ring :
    (mem : Memory) (p : ℕ) {m : Memory}
    → mark_release mem p ≡ some m
    → m.ring ≡ update mem.ring p (record (mem.ring p) { release = 1 })
unfolding mark_release
marked_ring mem p {m} e =
    let q = record (mem.ring p) { release = 1 } in
    elim (Bool-cases ((mem.ring p).release == 0)) [
      | inr b ↦ let f : none ≡ some m = sym (rw (b, mark_release) refl) ∙ e in absurd (cc)
      | inl b ↦ elim (Bool-cases ((mem.ring p).in_global == 1)) [
        | inl c ↦
            let f : some (store mem p q) ≡ some m = sym (rw (b, c, mark_release) refl) ∙ e in
            sym (ap (λ (x : Memory). x.ring) (some-eq f))
        | inr c ↦
            let f : enqueue (store mem p q) p ≡ some m = sym (rw (b, c, mark_release) refl) ∙ e in
            enqueue_ring (store mem p q) p f
      ]
    ]

-- And the retirement of another queue.
pub mark_release-Fresh :
    (w : World) (p q : ℕ) {mem : Memory}
    → p ≢ q
    → mark_release w.mem p ≡ some mem
    → Fresh w q
    → Fresh (record w { mem = mem }) q
mark_release-Fresh w p q ne e (l, z) = (
  l,
  ap (λ x. (x q).release) (marked_ring w.mem p e)
      ∙ ap (λ (x : MessageQueue). x.release)
          (update_ne w.mem.ring p q (record (w.mem.ring p) { release = 1 }) ne)
      ∙ z,
)
