-- ===== src/HashId/Chains.antt =====
-- The chains of the table, and what a lookup finds in them.
use jump.Base.{
  ℕ, zero, suc, ◌+◌, ◌%◌, ◌≤◌, ◌<◌, ◌≡◌, ◌≢◌, ◌⊎◌, inl, inr, refl, sym, ap, ◌∙◌, List, [], ◌∷◌,
  Option, none, some, arith, length, count, pigeonhole, option_ext, ◌↔◌, update, update_ne, ◌==◌,
  if◌then◌else◌, true, false, ==_iff, ==_no, some-eq, some-ne-none, ℕ_discrete,
}
use jump.HashId.{HashidNode, Hashid, bucket, has_id, lookup_loop, lookup}

-- The nodes `xs` in this order, from the pointer on
abbrev pub Chain : (ℕ → HashidNode) → Option ℕ → List ℕ → Type 0
Chain nodes o [] = o ≡ none
Chain nodes o (p ∷ xs) = (o ≡ some p) × Chain nodes (nodes p).next xs

-- How often a node of this id is to be in the chain `h`
abbrev pub wanted : ℕ → ℕ → Option ℕ → ℕ
wanted size h none = 0
wanted size h (some v) = if v % size == h then 1 else 0

abbrev tally : Option ℕ → ℕ → ℕ
tally none k = k
tally (some v) k = suc k

-- How many of the first `n` nodes have an id
unfoldable pub used : (ℕ → HashidNode) → ℕ → ℕ
used nodes zero = 0
used nodes (suc n) = tally (nodes n).id (used nodes n)

pub record IsValid (hi : Hashid) (xs : ℕ → List ℕ) : Type 0 where
  pub chains : (h : ℕ) → Chain hi.nodes (hi.hash h) (xs h)
  pub stands : (h p : ℕ) → count p (xs h) ≡ wanted (hi.hashmod + 1) h (hi.nodes p).id
  pub idle : (p : ℕ) → (hi.nodes p).id ≡ none → (hi.nodes p).next ≡ none
  pub distinct : (p q v : ℕ) → (hi.nodes p).id ≡ some v → (hi.nodes q).id ≡ some v → p ≡ q
  pub inside : (p v : ℕ) → (hi.nodes p).id ≡ some v → p < hi.cap
  pub counted : hi.count ≡ used hi.nodes hi.cap

-- A node that is not in the chain may change.
pub Chain-update :
    (nodes : ℕ → HashidNode) (c : ℕ) (n : HashidNode) (o : Option ℕ) (xs : List ℕ)
    → count c xs ≡ 0
    → Chain nodes o xs
    → Chain (update nodes c n) o xs
unfolding count
Chain-update nodes c n o [] k e = e
Chain-update nodes c n o (x ∷ xs) k (e, d) = elim (ℕ_discrete c x) [
  | yes q ↦ absurd (ground arith)
  | no nq ↦ (
    e,
    rw (update_ne nodes c x n nq) (Chain-update nodes c n (nodes x).next xs (ground (arith, k)) d),
  )
]

tally-suc : (o : Option ℕ) (k : ℕ) → tally o (suc k) ≡ suc (tally o k)
tally-suc none k = refl
tally-suc (some v) k = refl

-- The number of nodes with an id reads the ids only.
pub used_same :
    (f g : ℕ → HashidNode) (n : ℕ) → ((p : ℕ) → p < n → (f p).id ≡ (g p).id) → used f n ≡ used g n
unfolding used
used_same f g zero h = refl
used_same f g (suc n) h =
    ap (λ o. tally o (used f n)) (h n (omega arith))
    ∙ ap (tally (g n).id) (used_same f g n λ p l. h p (omega arith))

-- One node has an id more.
pub used_more :
    (f g : ℕ → HashidNode) (c id n : ℕ)
    → ((p : ℕ) → p ≢ c → (f p).id ≡ (g p).id)
    → (f c).id ≡ none
    → (g c).id ≡ some id
    → c < n
    → used g n ≡ suc (used f n)
unfolding used
used_more f g c id zero same e h l = absurd (omega arith)
used_more f g c id (suc n) same e h l = elim (ℕ_discrete c n) [
  | yes q ↦
      ap (λ o. tally o (used g n)) (ap (λ x. (g x).id) (sym q) ∙ h)
      ∙ ap suc (
          sym (used_same f g n λ p k. same p (omega arith))
          ∙ sym (ap (λ o. tally o (used f n)) (ap (λ x. (f x).id) (sym q) ∙ e)))
  | no nq ↦
      ap (λ o. tally o (used g n)) (sym (same n λ q. nq (sym q)))
      ∙ ap (tally (f n).id) (used_more f g c id n same e h (omega arith))
      ∙ tally-suc (f n).id (used f n)
]

pub wanted_le : (size h : ℕ) (o : Option ℕ) → wanted size h o ≤ 1
wanted_le size h none = omega arith
wanted_le size h (some v) = ground arith

pub wanted_own :
    (hi : Hashid) (id p : ℕ)
    → (hi.nodes p).id ≡ some id
    → wanted (hi.hashmod + 1) (bucket hi id) (hi.nodes p).id ≡ 1
wanted_own hi id p e = rw e (rw ((==_iff (bucket hi id) (bucket hi id)).1 refl) refl)

not_wanted : (size h : ℕ) (o : Option ℕ) → ((i : ℕ) → o ≡ some i → ⊥) → wanted size h o ≡ 0
not_wanted size h none n = refl
not_wanted size h (some i) n = absurd (n i refl)

pub length-chain :
    {hi : Hashid} {xs : ℕ → List ℕ} → IsValid hi xs → (h : ℕ) → length (xs h) ≤ hi.cap
length-chain {hi} {xs} v h =
    pigeonhole hi.cap (xs h)
      (λ p. omega (arith, v.stands h p, wanted_le (hi.hashmod + 1) h (hi.nodes p).id))
      λ p l. omega (
        arith,
        v.stands h p,
        not_wanted (hi.hashmod + 1) h (hi.nodes p).id λ i e. omega (arith, v.inside p i e),
      )

pub has_id_cases :
    (hi : Hashid) (c id : ℕ)
    → ((has_id hi c id ≡ true) × ((hi.nodes c).id ≡ some id))
      ⊎ ((has_id hi c id ≡ false) × ((hi.nodes c).id ≢ some id))
unfolding has_id
has_id_cases hi c id = go (hi.nodes c).id refl
  where
    go :
        (o : Option ℕ)
        → (hi.nodes c).id ≡ o
        → ((has_id hi c id ≡ true) × ((hi.nodes c).id ≡ some id))
          ⊎ ((has_id hi c id ≡ false) × ((hi.nodes c).id ≢ some id))
    go none e = inr (rw (e, has_id) refl, λ q. some-ne-none q e)
    go (some v) e = elim (ℕ_discrete v id) [
      | yes s ↦ inl (rw (e, has_id) ((==_iff v id).1 s), e ∙ ap some s)
      | no ns ↦ inr (rw (e, has_id) (==_no v id ns), λ q. ns (some-eq (sym e ∙ q)))
    ]

-- What the loop finds is a node of the chain that has the id; if it finds none, no node has.
pub lookup_loop_lem :
    (fuel : ℕ) (hi : Hashid) (o : Option ℕ) (id : ℕ) (xs : List ℕ)
    → Chain hi.nodes o xs
    → length xs < fuel
    → ((p : ℕ) × (lookup_loop fuel hi o id ≡ some p)
        × (1 ≤ count p xs)
        × ((hi.nodes p).id ≡ some id))
      ⊎ ((lookup_loop fuel hi o id ≡ none) × ((p : ℕ) → 1 ≤ count p xs → (hi.nodes p).id ≢ some id))
unfolding lookup_loop has_id count
lookup_loop_lem zero hi o id xs c l = absurd (omega arith)
lookup_loop_lem (suc fuel) hi o id [] c l = rw c (inr (refl, λ p k. absurd (omega arith)))
lookup_loop_lem (suc fuel) hi o id (x ∷ xs) (c, d) l =
    let r = lookup_loop_lem fuel hi (hi.nodes x).next id xs d (omega arith) in
    elim (has_id_cases hi x id) [
      | inl (t, e) ↦ rw (c, t) (inl (x, refl, ground arith, e))
      | inr (t, ne) ↦ elim r [
        | inl (p, run, m, e) ↦ rw (c, t) (inl (p, run, ground arith, e))
        | inr (run, no_one) ↦
            rw (c, t)
              (inr (
                run,
                λ p k. elim (ℕ_discrete x p) [
                  | yes q ↦ λ i. ne (ap (λ y. (hi.nodes y).id) q ∙ i)
                  | no nq ↦ no_one p (ground (arith, k))
                ],
              ))
      ]
    ]

-- `hashid_lookup` finds the place of the node that has the id, and finds none if there is none.
pub lookup_iff :
    {hi : Hashid} {xs : ℕ → List ℕ} (id p : ℕ)
    → IsValid hi xs
    → (lookup hi id ≡ some p → (hi.nodes p).id ≡ some id)
      × ((hi.nodes p).id ≡ some id → lookup hi id ≡ some p)
unfolding lookup
lookup_iff {hi} {xs} id p v =
    let h = bucket hi id in
    elim (lookup_loop_lem (hi.cap + 1) hi (hi.hash h) id (xs h) (v.chains h)
      (omega (arith, length-chain v h))) [
        | inl (q, run, m, e) ↦ (
          λ l. ap (λ x. (hi.nodes x).id) (some-eq (sym l ∙ run)) ∙ e,
          λ i. run ∙ ap some (v.distinct q p id e i),
        )
        | inr (run, no_one) ↦ (
          λ l. absurd (some-ne-none l run),
          λ i. absurd (no_one p (omega (arith, v.stands h p, wanted_own hi id p i)) i),
        )
      ]

-- Tables whose nodes have an id at the same places find it at the same place.
pub same_lookup :
    {hi hj : Hashid} {xs ys : ℕ → List ℕ} (j : ℕ)
    → IsValid hi xs
    → IsValid hj ys
    → ((p : ℕ) → ((hi.nodes p).id ≡ some j) ↔ ((hj.nodes p).id ≡ some j))
    → lookup hi j ≡ lookup hj j
same_lookup j v w same =
    option_ext (λ p e. (lookup_iff j p w).1 ((same p).0 ((lookup_iff j p v).0 e)))
      (λ p e. (lookup_iff j p v).1 ((same p).1 ((lookup_iff j p w).0 e)))
