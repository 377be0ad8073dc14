-- ===== src/Mq/Owners/Safety.antt =====
-- What holds in every history of the message queues.
use jump.Base.{
  ℕ, ◌+◌, ◌≤◌, ◌≡◌, ◌≢◌, ◌⊎◌, refl, ap, subst, sym, ◌∙◌, Bool, true, not, Option, none, some, List,
  [], ◌∷◌, arith, ◌==◌, some-eq, some-ne-none, Bool-cases, inl, inr, count, remove, ℕ_discrete,
}
use jump.Mq.{Message, MessageQueue, push}
use jump.Mq.Ring.{contents}
use jump.Mq.Global
use jump.Mq.Global.{Global, IsList, pop_lem, first, init_lem}
use jump.Mq.Memory.{
  Memory, Release, dropped, kept, store, enqueue, mq_push, mark_release, mq_release, drop_queue,
  drop_and_free,
}
use jump.Mq.Owners.{
  World, Step, make, send, take, give, next, drained, retire, discard, keep, Reach, here, step,
  Owned, Inv, empty,
}
use jump.Mq.Owners.Rings.{push-Owned, pop_some-Owned, pop_none-Owned, mark_release-Owned}
use jump.Mq.Owners.Steps.{
  Keeps, publish, publish_lem, give_lem, held_lem, make_lem, discard_lem, stay_lem, at_most_one,
  recast,
}

-- A push to a service that is not retired passes every assertion.
pub send_lem :
    {w : World} {xs : List ℕ} (p : ℕ) (m : Message)
    → Inv w xs
    → w.live p ≡ true
    → (w.mem.ring p).release ≡ 0
    → (mem : Memory) × (mq_push w.mem p m ≡ some mem) × Keeps (record w { mem = mem })
unfolding mq_push publish
send_lem {w} p m v live fresh =
    let (o, z) = push-Owned m (recast (sym live) refl refl (v.owned p)) fresh in
    publish_lem p (push (w.mem.ring p) m).0 (push (w.mem.ring p) m).1 v (recast live refl refl o) z

mark_release-publish :
    (mem : Memory) (p : ℕ)
    → (mem.ring p).release ≡ 0
    → mark_release mem p
      ≡ publish
          (store mem p (record (mem.ring p) { release = 1 }))
          p
          (not ((mem.ring p).in_global == 1))
unfolding mark_release publish
mark_release-publish mem p h = ground arith

-- So does the retirement of a service, once.
pub retire_lem :
    {w : World} {xs : List ℕ} (p : ℕ)
    → Inv w xs
    → w.live p ≡ true
    → (w.mem.ring p).release ≡ 0
    → (mem : Memory) × (mark_release w.mem p ≡ some mem) × Keeps (record w { mem = mem })
retire_lem {w} p v live fresh =
    let (o, z) = mark_release-Owned (recast (sym live) refl refl (v.owned p)) fresh in
    rw (mark_release-publish w.mem p fresh) (
      publish_lem p (record (w.mem.ring p) { release = 1 }) (not ((w.mem.ring p).in_global == 1)) v
        (recast live refl refl o) z)

-- The first queue of the list is held instead.
taken :
    {w : World} {x : ℕ} {xs : List ℕ}
    → Inv w (x ∷ xs)
    → (r : ℕ) → Owned (w.live r) (w.mem.ring r) (count r xs + count r (x ∷ w.held))
taken {w} {x} {xs} v r =
    recast {k = count r (x ∷ xs) + count r w.held} refl refl (unfold count in ground arith)
      (v.owned r)

-- Taking a queue off the global queue passes its assertion.
take_lem :
    {w : World} (xs : List ℕ)
    → Inv w xs
    → (g : Global) × (Global.pop w.mem.global ≡ some (first xs, g))
      × ((p : ℕ)
          → first xs ≡ some p
          → Keeps (record w { mem = record { ring = w.mem.ring; global = g }; held = p ∷ w.held }))
take_lem {w} [] v = let (g, e, l) = pop_lem [] v.list in (g, e, λ p c. cc)
take_lem {w} (x ∷ xs) v =
    let (g, e, l) = pop_lem (x ∷ xs) v.list in
    (
      g,
      e,
      λ p c.
          subst
            (λ p.
              Keeps
                (record w { mem = record { ring = w.mem.ring; global = g }; held = p ∷ w.held }))
            (some-eq c) (xs, record { list = l; owned = taken v }),
    )

-- A holder's queue is freed if it is retired; else it goes back and no assertion fails.
release_lem :
    {w : World} {xs : List ℕ} (p : ℕ)
    → Inv w xs
    → 1 ≤ count p w.held
    → (r : Release) × (mq_release w.mem p ≡ some r)
unfolding mq_release drop_and_free
release_lem {w} p v h =
    let (mem, e, _) = give_lem p v h in
    elim (Bool-cases ((w.mem.ring p).release == 0)) [
      | inl z ↦ (kept mem, rw (z, mq_release, e))
      | inr z ↦
          let alone : w.mem.global.next p ≡ none = v.list.idle p (omega (arith, at_most_one v p)) in
          (
            dropped (drop_queue (w.mem.ring p).cap (w.mem.ring p)).0,
            rw (z, mq_release) (rw (alone, drop_and_free) refl),
          )
    ]

mark_release-fresh :
    (mem : Memory) (p : ℕ) {m : Memory} → mark_release mem p ≡ some m → (mem.ring p).release ≡ 0
unfolding mark_release
mark_release-fresh mem p e = ground arith

kept-enqueue :
    (mem : Memory) (p : ℕ) {m : Memory} → mq_release mem p ≡ some (kept m) → enqueue mem p ≡ some m
unfolding mq_release
kept-enqueue mem p e = ground (arith, drop_and_free mem p)

took :
    (w : World) (xs : List ℕ) {p : ℕ} {h : Global}
    → (g : Global) × (Global.pop w.mem.global ≡ some (first xs, g))
      × ((p : ℕ)
          → first xs ≡ some p
          → Keeps (record w { mem = record { ring = w.mem.ring; global = g }; held = p ∷ w.held }))
    → Global.pop w.mem.global ≡ some (some p, h)
    → Keeps (record w { mem = record { ring = w.mem.ring; global = h }; held = p ∷ w.held })
took w xs {p = p} (g, f, k) e =
    let same = some-eq (sym f ∙ e) in
    subst
      (λ x. Keeps (record w { mem = record { ring = w.mem.ring; global = x }; held = p ∷ w.held }))
      (ap (λ (t : Option ℕ × Global). t.1) same) (k p (ap (λ (t : Option ℕ × Global). t.0) same))

-- Every step keeps the invariant.
pub Step-Inv : {w u : World} {xs : List ℕ} → Step w u → Inv w xs → Keeps u
Step-Inv (make w p h dead) v = make_lem p h v dead
Step-Inv (send w p m live fresh e) v =
    let (mem, f, k) = send_lem p m v live fresh in
    subst (λ x. Keeps (record w { mem = x })) (some-eq (sym f ∙ e)) k
Step-Inv {xs = xs} (take w e) v = took w xs (take_lem xs v) e
Step-Inv (give w p h e) v =
    let (mem, f, k) = give_lem p v h in
    subst (λ x. Keeps (record w { mem = x; held = remove p w.held })) (some-eq (sym f ∙ e)) k
Step-Inv {xs = xs} (next w p {q = q} h fresh e) v =
    stay_lem p q v (pop_some-Owned (v.owned p) (omega arith) fresh e)
Step-Inv {xs = xs} (drained w p {q = q} h fresh e) v =
    held_lem p q v h (pop_none-Owned (v.owned p) (omega arith) fresh e)
Step-Inv (retire w p live e) v =
    let (mem, f, k) = retire_lem p v live (mark_release-fresh w.mem p e) in
    subst (λ x. Keeps (record w { mem = x })) (some-eq (sym f ∙ e)) k
Step-Inv (discard w p h e) v = discard_lem p v h
Step-Inv (keep w p h e) v =
    let (mem, f, k) = give_lem p v h in
    subst (λ x. Keeps (record w { mem = x; held = remove p w.held }))
      (some-eq (sym f ∙ kept-enqueue w.mem p e)) k

pub empty-Inv : (q : MessageQueue) → Inv (empty q) []
empty-Inv q = record {
  list = init_lem;
  owned = λ p. record {
    times = unfold count in omega arith;
    flag = λ t. cc;
    ring = λ t. cc;
    quiet = λ t. cc;
  };
}

Reach-Inv : {w u : World} {xs : List ℕ} → Inv w xs → Reach w u → Keeps u
Reach-Inv {xs = xs} v here = (xs, v)
Reach-Inv v (step r s) = let (ys, k) = Reach-Inv v r in Step-Inv s k

-- In every history that starts with no queue, the global queue is a list in which each message queue
-- stands at most once; no queue is held by two threads, and none is held while it is in the list.
pub single_owner :
    {w : World} (q : MessageQueue)
    → Reach (empty q) w
    → (xs : List ℕ) × IsList w.mem.global xs × ((p : ℕ) → count p xs + count p w.held ≤ 1)
single_owner q r = let (xs, v) = Reach-Inv (empty-Inv q) r in (xs, v.list, at_most_one v)

-- In every history that starts with no queue, an allocated queue that has messages, or is retired, is
-- in the global queue or held by a thread.
pub no_lost_queue :
    {w : World} (q : MessageQueue) (p : ℕ)
    → Reach (empty q) w
    → w.live p ≡ true
    → (contents (w.mem.ring p) ≢ []) ⊎ ((w.mem.ring p).release ≢ 0)
    → (xs : List ℕ) × IsList w.mem.global xs × (1 ≤ count p xs + count p w.held)
no_lost_queue {w} q p r live why =
    let (xs, v) = Reach-Inv (empty-Inv q) r in (xs, v.list, owner (w.live p) (v.owned p) live why)
  where
    owner :
        {m : MessageQueue} {n : ℕ} (l : Bool)
        → Owned l m n
        → l ≡ true
        → (contents m ≢ []) ⊎ (m.release ≢ 0)
        → 1 ≤ n
    owner {m} l o t (inl ne) = elim (ℕ_discrete m.in_global 0) [
      | yes z ↦ absurd (ne (o.quiet t z))
      | no nz ↦ ground (arith, o.times, o.flag t)
    ]
    owner {m} l o t (inr ne) = ground (arith, o.times)

-- In every history that starts with no queue, the assertions of these calls hold: a push to an
-- allocated queue that is not retired, and its retirement; giving back a queue that the thread holds,
-- and `skynet_mq_release` of it; and `skynet_globalmq_pop`.
pub no_assertion_fails :
    {w : World} (q : MessageQueue) (p : ℕ)
    → Reach (empty q) w
    → (w.live p ≡ true
        → (w.mem.ring p).release ≡ 0
        → (((m : Message) → mq_push w.mem p m ≢ none) × (mark_release w.mem p ≢ none)))
      × (1 ≤ count p w.held → (enqueue w.mem p ≢ none) × (mq_release w.mem p ≢ none))
      × (Global.pop w.mem.global ≢ none)
no_assertion_fails {w} q p r =
    let (xs, v) = Reach-Inv (empty-Inv q) r in
    (
      λ live fresh. (
        λ m n. some-ne-none (send_lem p m v live fresh).1 n,
        λ n. some-ne-none (retire_lem p v live fresh).1 n,
      ),
      λ held.
          (λ n. some-ne-none (give_lem p v held).1 n, λ n. some-ne-none (release_lem p v held).1 n),
      λ n. some-ne-none (take_lem xs v).1 n,
    )
