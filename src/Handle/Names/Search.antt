-- ===== src/Handle/Names/Search.antt =====
-- The search in halves finds what a search from the front finds, and an insertion keeps the order.
use Prim.Native.Nat.{Ordering}
use jump.Base.{
  ℕ, zero, suc, ◌+◌, ◌-◌, ◌/◌, ◌<◌, ◌≤◌, ◌≡◌, ◌≢◌, ◌⊎◌, inl, inr, refl, ap, sym, ◌∙◌, arith, List,
  [], ◌∷◌, get_or, length, ltb, ℕ_discrete, dec_lt, Bool-cases,
}
use jump.Handle.Names.{
  Name, strcmp, Entry, no_entry, Names, Found, hit, miss, search_loop, search_name, findname,
}
use jump.Handle.Names.Order.{
  strcmp_refl, strcmp-eq, strcmp-flip, strcmp_trans, All, Before, Sorted, All-at, All-drop,
  Sorted-at,
}

-- What the search says of the name.
abbrev pub Finds : List Entry → Name → Found → Type 0
Finds es name (hit h) =
    (k : ℕ) × (k < length es)
    × ((get_or es k no_entry).name ≡ name)
    × ((get_or es k no_entry).handle ≡ h)
Finds es name (miss i) =
    (i ≤ length es)
    × ((k : ℕ) → k < i → k < length es → strcmp (get_or es k no_entry).name name ≡ Ordering.lt)
    × ((k : ℕ) → i ≤ k → k < length es → strcmp name (get_or es k no_entry).name ≡ Ordering.lt)

Ordering-cases : (o : Ordering) → (o ≡ Ordering.lt) ⊎ ((o ≡ Ordering.eq) ⊎ (o ≡ Ordering.gt))
Ordering-cases Ordering.lt = inl refl
Ordering-cases Ordering.eq = inr (inl refl)
Ordering-cases Ordering.gt = inr (inr refl)

-- What stands up to a place whose name is less than the one searched.
below :
    (es : List Entry) (name : Name) (mid k : ℕ)
    → Sorted es
    → mid < length es
    → strcmp (get_or es mid no_entry).name name ≡ Ordering.lt
    → k ≤ mid
    → strcmp (get_or es k no_entry).name name ≡ Ordering.lt
below es name mid k s l c h = elim (ℕ_discrete k mid) [
  | yes e ↦ rw e c
  | no e ↦ strcmp_trans _ _ name (Sorted-at es k mid s (omega arith) l) c
]

above :
    (es : List Entry) (name : Name) (mid k : ℕ)
    → Sorted es
    → mid ≤ k
    → strcmp (get_or es mid no_entry).name name ≡ Ordering.gt
    → k < length es
    → strcmp name (get_or es k no_entry).name ≡ Ordering.lt
above es name mid k s h c l =
    let here = (strcmp-flip _ name).0 c in
    elim (ℕ_discrete k mid) [
      | yes e ↦ rw e here
      | no e ↦ strcmp_trans name _ _ here (Sorted-at es mid k s (omega arith) l)
    ]

search_loop_lem :
    (fuel : ℕ) (es : List Entry) (name : Name) (begin stop : ℕ)
    → Sorted es
    → stop < fuel + begin
    → begin ≤ stop
    → stop ≤ length es
    → ((k : ℕ) → k < begin → k < length es → strcmp (get_or es k no_entry).name name ≡ Ordering.lt)
    → ((k : ℕ) → stop ≤ k → k < length es → strcmp name (get_or es k no_entry).name ≡ Ordering.lt)
    → Finds es name (search_loop fuel es name begin stop)
unfolding search_loop
search_loop_lem zero es name begin stop s f b l lo hi = absurd (omega arith)
search_loop_lem (suc fuel) es name begin stop s f b l lo hi = elim (Bool-cases (ltb begin stop)) [
  | inr e ↦
      let past : stop ≤ begin = ground arith in rw e (omega arith, lo, λ k g. hi k (omega arith))
  | inl e ↦
      let mid = (begin + (stop - 1)) / 2 in
      let lt : begin < stop = ground arith in
      let n = get_or es mid no_entry in
      elim (Ordering-cases (strcmp n.name name)) [
        | inl c ↦
            rw (e, c)
              (search_loop_lem fuel es name (mid + 1) stop s (omega arith) (omega arith) l
                (λ k g h. below es name mid k s (omega arith) c (omega arith)) hi)
        | inr (inl c) ↦ rw (e, c) (mid, omega arith, strcmp-eq n.name name c, refl)
        | inr (inr c) ↦
            rw (e, c)
              (search_loop_lem fuel es name begin mid s (omega arith) (omega arith) (omega arith) lo
                (λ k g h. above es name mid k s g c h))
      ]
]

pub search_name_lem :
    (es : List Entry) (name : Name) → Sorted es → Finds es name (search_name es name)
unfolding search_name
search_name_lem es name s =
    search_loop_lem (length es + 1) es name 0 (length es) s (omega arith) (omega arith)
      (omega arith) (λ k h l. absurd (omega arith)) (λ k h l. absurd (omega arith))

-- The search from the front.
unfoldable pub lookup : Name → List Entry → ℕ
lookup name [] = 0
lookup name (e ∷ es) = elim (strcmp e.name name) [ Ordering.eq ↦ e.handle | _ ↦ lookup name es ]

pub lookup_absent :
    (name : Name) (es : List Entry)
    → All (λ e. strcmp e.name name ≢ Ordering.eq) es
    → lookup name es ≡ 0
unfolding lookup
lookup_absent name [] a = refl
lookup_absent name (e ∷ es) a = ground (arith, lookup_absent name es a.1)

pub lookup_at :
    (name : Name) (es : List Entry) (k : ℕ)
    → Sorted es
    → k < length es
    → (get_or es k no_entry).name ≡ name
    → lookup name es ≡ (get_or es k no_entry).handle
unfolding lookup
lookup_at name [] k s l e = elim l [ ]
lookup_at name (x ∷ es) zero s l e =
    let same : strcmp x.name name ≡ Ordering.eq = ap (λ m. strcmp m name) e ∙ strcmp_refl name in
    rw (same, lookup)
lookup_at name (x ∷ es) (suc k) s l e =
    let before : strcmp x.name name ≡ Ordering.lt =
      ap (strcmp x.name) (sym e) ∙ All-at (Before x.name) es k s.0 (omega arith) in
    rw (before, lookup) (lookup_at name es k s.1 (omega arith) e)

lt-ne-eq : {o : Ordering} → o ≡ Ordering.lt → o ≢ Ordering.eq
lt-ne-eq e f = cc

gt-ne-eq : {o : Ordering} → o ≡ Ordering.gt → o ≢ Ordering.eq
gt-ne-eq e f = cc

-- A name that the search misses is not there.
pub miss_absent :
    (es : List Entry) (name : Name) (i : ℕ)
    → Finds es name (miss i)
    → All (λ e. strcmp e.name name ≢ Ordering.eq) es
miss_absent es name i f =
    All-drop (λ e. strcmp e.name name ≢ Ordering.eq) es 0
      λ k h l. elim (dec_lt k i) [
        | yes p ↦ lt-ne-eq (f.1 k p l)
        | no p ↦ gt-ne-eq ((strcmp-flip _ name).1 (f.2 k (omega arith) l))
      ]

-- `skynet_handle_findname` gives what a search from the front of the sorted names gives.
pub findname_lem :
    (s : Names) (name : Name) → Sorted s.entries → findname s name ≡ lookup name s.entries
unfolding findname
findname_lem s name v = go (search_name s.entries name) (search_name_lem s.entries name v)
  where
    go :
        (r : Found)
        → Finds s.entries name r
        → elim r as (λ _. ℕ) [ hit h ↦ h | miss i ↦ 0 ] ≡ lookup name s.entries
    go (hit h) (k, l, e, q) = sym q ∙ sym (lookup_at name s.entries k v l e)
    go (miss i) f = sym (lookup_absent name s.entries (miss_absent s.entries name i f))
