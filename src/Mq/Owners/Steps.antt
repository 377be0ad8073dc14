-- ===== src/Mq/Owners/Steps.antt =====
-- Every step keeps the ownership of every queue.
use mathlib.Core.Option
use mathlib.Core.Option.{some-injective}
use jump.Base.{
  count-cons_self, count-cons_ne, ℕ, suc, ◌+◌, ◌-◌, ◌≤◌, ◌≡◌, ◌≢◌, refl, ap, sym, Bool, true, false,
  Option, some, List, [], ◌∷◌, ◌++◌, arith, if◌then◌else◌, count, remove, update, count-append,
  count-remove_self, count-remove_ne, update_self, update_ne,
}
use jump.Mq.{MessageQueue, create}
use jump.Mq.Global.{Global, IsList, push_lem}
use jump.Mq.Memory.{Memory, store, enqueue}
use jump.Mq.Owners.{World, Owned, Inv, Owned-frame}
use jump.Mq.Owners.Rings.{create-Owned, free-Owned, wanted-le-one}

pub enqueue_lem :
    (mem : Memory) (p : ℕ) (xs : List ℕ)
    → IsList mem.global xs
    → count p xs ≡ 0
    → (g : Global) × (enqueue mem p ≡ some (record mem { global = g })) × IsList g (xs ++ p ∷ [])
unfolding enqueue
enqueue_lem mem p xs v c =
    let (g, e, w) = push_lem p v c in (g, ap (Option.map (λ g. record mem { global = g })) e, w)

pub count-snoc_self : (p : ℕ) (xs : List ℕ) → count p (xs ++ p ∷ []) ≡ suc (count p xs)
unfolding count
count-snoc_self p xs = ground (arith, count-append p xs (p ∷ []))

pub count-snoc_ne : (p r : ℕ) (xs : List ℕ) → p ≢ r → count r (xs ++ p ∷ []) ≡ count r xs
unfolding count
count-snoc_ne p r xs h = ground (arith, count-append r xs (p ∷ []))

-- A new owner state of the queue `p` of a world, for new allocations, list and holders.
pub rebuild :
    {w : World} {xs : List ℕ} (p : ℕ) (live : ℕ → Bool) (ring : ℕ → MessageQueue) (ys held : List ℕ)
    → Inv w xs
    → ((r : ℕ) → p ≢ r → live r ≡ w.live r)
    → ((r : ℕ) → p ≢ r → ring r ≡ w.mem.ring r)
    → ((r : ℕ) → p ≢ r → count r ys + count r held ≡ count r xs + count r w.held)
    → Owned (live p) (ring p) (count p ys + count p held)
    → (r : ℕ) → Owned (live r) (ring r) (count r ys + count r held)
rebuild {w} {xs} p live ring ys held v a b c new =
    Owned-frame p w.live live w.mem.ring ring (λ r. count r xs + count r w.held)
      (λ r. count r ys + count r held) (λ r ne. (a r ne, b r ne, c r ne)) v.owned new

pub recast :
    {l m : Bool} {q r : MessageQueue} {n k : ℕ} → l ≡ m → q ≡ r → n ≡ k → Owned m r k → Owned l q n
recast e f g o = rw (e, f, g) o

-- An owner state that follows from the invariant: a queue is not both held and in the list.
pub at_most_one : {w : World} {xs : List ℕ} → Inv w xs → (p : ℕ) → count p xs + count p w.held ≤ 1
at_most_one {w} {xs} v p =
    let o = v.owned p in omega (arith, o.times, wanted-le-one (w.live p) (w.mem.ring p))

abbrev pub Keeps : World → Type 0
Keeps u = (ys : List ℕ) × Inv u ys

-- The ring of a queue changes where it stands.
pub stay_lem :
    {w : World} {xs : List ℕ} (p : ℕ) (q : MessageQueue)
    → Inv w xs
    → Owned (w.live p) q (count p xs + count p w.held)
    → Keeps (record w { mem = store w.mem p q })
stay_lem {w} {xs} p q v o = (
  xs,
  record {
    list = v.list;
    owned =
        rebuild p w.live (update w.mem.ring p q) xs w.held v (λ r ne. refl)
          (λ r ne. update_ne w.mem.ring p r q ne) (λ r ne. refl)
          (recast refl (update_self w.mem.ring p q) refl o);
  },
)

-- `skynet_mq_push` and `skynet_mq_mark_release` end alike: the queue goes to the global queue if the
-- flag says so.
unfoldable pub publish : Memory → ℕ → Bool → Option Memory
publish mem p flag = if flag then enqueue mem p else some mem

pub publish_lem :
    {w : World} {xs : List ℕ} (p : ℕ) (q : MessageQueue) (flag : Bool)
    → Inv w xs
    → let n = count p xs + count p w.held in
      Owned (w.live p) q (if flag then suc n else n)
      → (flag ≡ true → n ≡ 0)
      → (mem : Memory) × (publish (store w.mem p q) p flag ≡ some mem)
        × Keeps (record w { mem = mem })
unfolding publish
publish_lem {w} {xs} p q false v o z = (store w.mem p q, refl, stay_lem p q v o)
publish_lem {w} {xs} p q true v o z =
    let (g, e, l) = enqueue_lem (store w.mem p q) p xs v.list (omega (arith, z refl)) in
    (
      record { ring = update w.mem.ring p q; global = g },
      e,
      (
        xs ++ p ∷ [],
        record {
          list = l;
          owned =
              rebuild p w.live (update w.mem.ring p q) (xs ++ p ∷ []) w.held v (λ r ne. refl)
                (λ r ne. update_ne w.mem.ring p r q ne)
                (λ r ne. omega (arith, count-snoc_ne p r xs ne))
                (recast refl (update_self w.mem.ring p q) (omega (arith, count-snoc_self p xs)) o);
        },
      ),
    )

-- The holder's queue goes back to the list.
pub give_lem :
    {w : World} {xs : List ℕ} (p : ℕ)
    → Inv w xs
    → 1 ≤ count p w.held
    → (mem : Memory) × (enqueue w.mem p ≡ some mem)
      × Keeps (record w { mem = mem; held = remove p w.held })
give_lem {w} {xs} p v h =
    let (g, e, l) = enqueue_lem w.mem p xs v.list (omega (arith, at_most_one v p)) in
    (
      record { ring = w.mem.ring; global = g },
      e,
      (
        xs ++ p ∷ [],
        record {
          list = l;
          owned =
              rebuild p w.live w.mem.ring (xs ++ p ∷ []) (remove p w.held) v (λ r ne. refl)
                (λ r ne. refl)
                (λ r ne. omega (arith, count-snoc_ne p r xs ne, count-remove_ne p r w.held ne))
                (recast refl refl (omega (arith, count-snoc_self p xs, count-remove_self p w.held))
                  (v.owned p));
        },
      ),
    )

-- A queue leaves the hands of its holder, or stays there, with a new ring.
pub held_lem :
    {w : World} {xs : List ℕ} (p : ℕ) (q : MessageQueue)
    → Inv w xs
    → 1 ≤ count p w.held
    → Owned (w.live p) q (count p xs + count p w.held - 1)
    → Keeps (record w { mem = store w.mem p q; held = remove p w.held })
held_lem {w} {xs} p q v h o = (
  xs,
  record {
    list = v.list;
    owned =
        rebuild p w.live (update w.mem.ring p q) xs (remove p w.held) v (λ r ne. refl)
          (λ r ne. update_ne w.mem.ring p r q ne)
          (λ r ne. omega (arith, count-remove_ne p r w.held ne))
          (recast refl (update_self w.mem.ring p q) (omega (arith, count-remove_self p w.held)) o);
  },
)

pub make_lem :
    {w : World} {xs : List ℕ} (p h : ℕ)
    → Inv w xs
    → w.live p ≡ false
    → Keeps
        (record { mem = store w.mem p (create h); live = update w.live p true; held = p ∷ w.held })
make_lem {w} {xs} p h v dead = (
  xs,
  record {
    list = v.list;
    owned =
        rebuild p (update w.live p true) (update w.mem.ring p (create h)) xs (p ∷ w.held) v
          (λ r ne. update_ne w.live p r true ne) (λ r ne. update_ne w.mem.ring p r (create h) ne)
          (λ r ne. omega (arith, count-cons_ne p r w.held ne))
          (recast (update_self w.live p true) (update_self w.mem.ring p (create h))
            (omega (arith, count-cons_self p w.held))
            (create-Owned (w.mem.ring p) h (count p xs + count p w.held)
              (recast (sym dead) refl refl (v.owned p))));
  },
)

pub discard_lem :
    {w : World} {xs : List ℕ} (p : ℕ)
    → Inv w xs
    → 1 ≤ count p w.held
    → Keeps (record w { live = update w.live p false; held = remove p w.held })
discard_lem {w} {xs} p v h = (
  xs,
  record {
    list = v.list;
    owned =
        rebuild p (update w.live p false) w.mem.ring xs (remove p w.held) v
          (λ r ne. update_ne w.live p r false ne) (λ r ne. refl)
          (λ r ne. omega (arith, count-remove_ne p r w.held ne))
          (recast (update_self w.live p false) refl (omega (arith, count-remove_self p w.held))
            (free-Owned (v.owned p) (omega arith)));
  },
)
