-- ===== src/Mq/Global.antt =====
-- The global queue of skynet_mq.c: a linked list through the `next` fields of the message queues,
-- which pointers (numbers) name. `none` as a result is a failed `assert`.
use jump.Base.{
  ℕ, ◌+◌, ◌≤◌, ◌≡◌, ◌≢◌, refl, ap, sym, ◌∙◌, List, [], ◌∷◌, ◌++◌, Option, none, some, arith, ◌==◌,
  if◌then◌else◌, count, count-append, update, update_ne,
}

-- `struct global_queue`, with the `next` field of each message queue.
pub record Global : Type 0 where
  pub next : ℕ → Option ℕ
  pub head : Option ℕ
  pub tail : Option ℕ

-- `skynet_mq_init`
unfoldable pub init : Global
init = record { next = λ p. none; head = none; tail = none }

link_at : Global → ℕ → Option ℕ → Global
link_at g p none = record g { head = some p; tail = some p }
link_at g p (some t) = record g { next = update g.next t (some p); tail = some p }

-- `skynet_globalmq_push`
unfoldable pub push : Global → ℕ → Option Global
unfolding link_at
push g p = elim (g.next p) [ some q ↦ none | none ↦ some (link_at g p g.tail) ]

-- `assert(mq == q->tail)`
is_pointer : Option ℕ → ℕ → Option (Unit {0})
is_pointer none p = none
is_pointer (some t) p = if t == p then some tt else none

-- `q->head = mq->next`, and the tail falls with it.
unlink : Global → ℕ → Option ℕ → Option Global
unlink g p (some q) = some (record g { head = some q; next = update g.next p none })
unlink g p none = elim (is_pointer g.tail p) [
  | none ↦ none
  | some _ ↦ some (record g { head = none; tail = none; next = update g.next p none })
]

pop_from : Global → Option ℕ → Option (Option ℕ × Global)
pop_from g none = some (none, g)
pop_from g (some p) = elim (unlink g p (g.next p)) [ none ↦ none | some h ↦ some (some p, h) ]

-- `skynet_globalmq_pop`
unfoldable pub pop : Global → Option (Option ℕ × Global)
unfolding pop_from unlink is_pointer
pop g = pop_from g g.head

-- The pointers of the list, from the head.
abbrev Links : (ℕ → Option ℕ) → List ℕ → Type 0
Links next [] = Unit {0}
Links next (p ∷ []) = next p ≡ none
Links next (p ∷ q ∷ xs) = (next p ≡ some q) × Links next (q ∷ xs)

abbrev pub first : List ℕ → Option ℕ
first [] = none
first (x ∷ xs) = some x

abbrev pub rest : List ℕ → List ℕ
rest [] = []
rest (x ∷ xs) = xs

abbrev last : List ℕ → Option ℕ
last [] = none
last (x ∷ []) = some x
last (x ∷ y ∷ xs) = last (y ∷ xs)

-- The global queue holds these message queues, in this order and each once; no other is linked.
pub record IsList (g : Global) (xs : List ℕ) : Type 0 where
  head_is : g.head ≡ first xs
  tail_is : g.tail ≡ last xs
  links : Links g.next xs
  pub idle : (p : ℕ) → count p xs ≡ 0 → g.next p ≡ none
  pub distinct : (p : ℕ) → count p xs ≤ 1

-- Writing the `next` of a pointer that is not in the list changes no link.
Links-update_ne :
    (next : ℕ → Option ℕ) (p : ℕ) (a : Option ℕ) (xs : List ℕ)
    → count p xs ≡ 0
    → Links next xs
    → Links (update next p a) xs
unfolding count update
Links-update_ne next p a [] c l = tt
Links-update_ne next p a (x ∷ []) c l = ground arith
Links-update_ne next p a (x ∷ y ∷ xs) c l = ground (arith, Links-update_ne next p a (y ∷ xs))

count-last : (t : ℕ) (xs : List ℕ) → last xs ≡ some t → 1 ≤ count t xs
unfolding count
count-last t [] e = cc
count-last t (x ∷ []) e = ground arith
count-last t (x ∷ y ∷ xs) e = ground (arith, count-last t (y ∷ xs))

last-append : (p : ℕ) (xs : List ℕ) → last (xs ++ p ∷ []) ≡ some p
last-append p [] = refl
last-append p (x ∷ []) = refl
last-append p (x ∷ y ∷ xs) = last-append p (y ∷ xs)

-- Linking a new pointer behind the last one.
Links-append :
    (next : ℕ → Option ℕ) (p t : ℕ) (xs : List ℕ)
    → last xs ≡ some t
    → next p ≡ none
    → count p xs ≡ 0
    → ((r : ℕ) → count r xs ≤ 1)
    → Links next xs
    → Links (update next t (some p)) (xs ++ p ∷ [])
unfolding count update
Links-append next p t [] e n c d l = cc
Links-append next p t (x ∷ []) e n c d l = ground arith
Links-append next p t (x ∷ y ∷ xs) e n c d l = ground (
  arith,
  d t,
  count-last t (y ∷ xs),
  Links-append next p t (y ∷ xs) e n (ground arith) (λ r. ground (arith, d r)) l.1,
)

count-snoc :
    (q p : ℕ) (xs : List ℕ) → count q (xs ++ p ∷ []) ≡ count q xs + (if p == q then 1 else 0)
unfolding count
count-snoc q p xs = ground (arith, count-append q xs (p ∷ []))

last-ne-none : (x : ℕ) (xs : List ℕ) → last (x ∷ xs) ≢ none
last-ne-none x [] = cc
last-ne-none x (y ∷ xs) = last-ne-none y xs

first-append : (t p : ℕ) (xs : List ℕ) → last xs ≡ some t → first (xs ++ p ∷ []) ≡ first xs
first-append t p [] e = cc
first-append t p (x ∷ xs) e = refl

link_at-IsList :
    (g : Global) (p : ℕ) (xs : List ℕ) (o : Option ℕ)
    → o ≡ last xs
    → IsList g xs
    → count p xs ≡ 0
    → IsList (link_at g p o) (xs ++ p ∷ [])
unfolding link_at
link_at-IsList g p [] none e v c = record {
  head_is = refl;
  tail_is = refl;
  links = v.idle p c;
  idle = λ q h. v.idle q (unfold count in refl);
  distinct = λ q. unfold count in ground arith;
}
link_at-IsList g p (x ∷ xs) none e v c = absurd (last-ne-none x xs (sym e))
link_at-IsList g p xs (some t) e v c = record {
  head_is = v.head_is ∙ sym (first-append t p xs (sym e));
  tail_is = sym (last-append p xs);
  links = Links-append g.next p t xs (sym e) (v.idle p c) c v.distinct v.links;
  idle = λ q h.
      ground (
        arith,
        count-snoc q p xs,
        v.idle q,
        count-last t xs (sym e),
        update_ne g.next t q (some p),
      );
  distinct = λ q. ground (arith, count-snoc q p xs, v.distinct q);
}

-- On a well-formed list `skynet_globalmq_push` passes its assertion for a queue that is not in it, and
-- puts that queue at the end.
pub push_lem :
    {g : Global} {xs : List ℕ} (p : ℕ)
    → IsList g xs
    → count p xs ≡ 0
    → (h : Global) × (push g p ≡ some h) × IsList h (xs ++ p ∷ [])
unfolding push
push_lem {g} {xs} p v c =
    (link_at g p g.tail, rw (v.idle p c, push), link_at-IsList g p xs g.tail v.tail_is v c)

unlink_cons : Global → ℕ → Option ℕ → Global
unlink_cons g p (some q) = record g { head = some q; next = update g.next p none }
unlink_cons g p none = record g { head = none; tail = none; next = update g.next p none }

count-head : (p : ℕ) (xs : List ℕ) → ((q : ℕ) → count q (p ∷ xs) ≤ 1) → count p xs ≡ 0
unfolding count
count-head p xs d = ground (arith, d p)

count-tail-le : (p q : ℕ) (xs : List ℕ) {n : ℕ} → count q (p ∷ xs) ≤ n → count q xs ≤ n
unfolding count
count-tail-le p q xs h = ground arith

unlinked-idle :
    (g : Global) (p : ℕ) (xs : List ℕ)
    → IsList g (p ∷ xs)
    → (q : ℕ) → count q xs ≡ 0
    → update g.next p none q ≡ none
unfolding count update
unlinked-idle g p xs v q c = ground (arith, v.idle q)

next-head : (g : Global) (p : ℕ) (xs : List ℕ) → IsList g (p ∷ xs) → g.next p ≡ first xs
next-head g p [] v = v.links
next-head g p (x ∷ xs) v = v.links.0

unlink_lem :
    (g : Global) (p : ℕ) (xs : List ℕ)
    → IsList g (p ∷ xs)
    → (unlink g p (first xs) ≡ some (unlink_cons g p (first xs)))
      × IsList (unlink_cons g p (first xs)) xs
unfolding unlink unlink_cons is_pointer
unlink_lem g p [] v = (
  rw (v.tail_is, unlink, is_pointer) (ground arith),
  record {
    head_is = refl;
    tail_is = refl;
    links = tt;
    idle = unlinked-idle g p [] v;
    distinct = λ q. unfold count in omega arith;
  },
)
unlink_lem g p (x ∷ xs) v = (
  refl,
  record {
    head_is = refl;
    tail_is = v.tail_is;
    links = Links-update_ne g.next p none (x ∷ xs) (count-head p (x ∷ xs) v.distinct) v.links.1;
    idle = unlinked-idle g p (x ∷ xs) v;
    distinct = λ q. count-tail-le p q (x ∷ xs) (v.distinct q);
  },
)

-- On a well-formed list `skynet_globalmq_pop` takes the first queue off, and none off the empty list; its
-- assertion holds.
pub pop_lem :
    {g : Global} (xs : List ℕ)
    → IsList g xs
    → (h : Global) × (pop g ≡ some (first xs, h)) × IsList h (rest xs)
unfolding pop pop_from
pop_lem {g} [] v = (g, ap (pop_from g) v.head_is, v)
pop_lem {g} (p ∷ xs) v =
    let (e, w) = unlink_lem g p xs v in
    (
      unlink_cons g p (first xs),
      ap (pop_from g) v.head_is ∙ rw (next-head g p xs v, pop_from) (rw (e, pop_from)),
      w,
    )

pub init_lem : IsList init []
unfolding init
init_lem = record {
  head_is = refl;
  tail_is = refl;
  links = tt;
  idle = λ p c. refl;
  distinct = λ p. unfold count in omega arith;
}
