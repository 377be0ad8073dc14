-- ===== src/HashId/Init.antt =====
-- The empty table, and the size of its array of chains.
use jump.Base.{
  ℕ, zero, suc, ◌+◌, ◌*◌, ◌%◌, ◌^◌, ◌≤◌, ◌<◌, ◌≡◌, refl, sym, [], none, arith, Bool-cases, inl, inr,
  count, some-ne-none, Option-cases,
}
use native.Mathlib.Nat.{pow-suc}
use jump.HashId.{int_lt, free_node, init, raise_hashcap, lookup}
use jump.HashId.Chains.{used, IsValid, lookup_iff}

-- The loop ends by its test, at a power of two.
raise_hashcap_lem :
    (fuel hashcap max k : ℕ)
    → hashcap ≡ 2 ^ k
    → 0 < hashcap
    → hashcap < 2 ^ 31
    → max ≤ 2 ^ 30
    → max ≤ hashcap + fuel
    → (j : ℕ) × (raise_hashcap fuel hashcap max ≡ 2 ^ j)
      × (max ≤ raise_hashcap fuel hashcap max)
      × (0 < raise_hashcap fuel hashcap max)
unfolding raise_hashcap
raise_hashcap_lem zero hashcap max k e p s m h = (k, e, omega arith, p)
raise_hashcap_lem (suc fuel) hashcap max k e p s m h = elim (Bool-cases (int_lt hashcap max)) [
  | inl l ↦
      let small : hashcap < max = ground (arith, l) in
      rw l (
        raise_hashcap_lem fuel (hashcap * 2 % 2 ^ 32) max (suc k) (omega (arith, e, pow-suc 2 k))
          (omega arith) (omega arith) m (omega arith))
  | inr l ↦ rw l (k, e, ground arith, p)
]

none_used : (n : ℕ) → used (λ _. free_node) n ≡ 0
unfolding used
none_used zero = refl
none_used (suc n) = none_used n

pub init-IsValid : (max : ℕ) → IsValid (init max) (λ _. [])
unfolding init count
init-IsValid max = record {
  chains = λ h. refl;
  stands = λ h p. refl;
  idle = λ p e. refl;
  distinct = λ p q v e f. absurd (some-ne-none e refl);
  inside = λ p v e. absurd (some-ne-none e refl);
  counted = sym (none_used max);
}

pub cap-init : (max : ℕ) → (init max).cap ≡ max
unfolding init
cap-init max = refl

pub nothing_found : (max id : ℕ) → lookup (init max) id ≡ none
unfolding init
nothing_found max id = elim (Option-cases (lookup (init max) id)) [
  | inl e ↦ e
  | inr (p, e) ↦ absurd (some-ne-none ((lookup_iff id p (init-IsValid max)).0 e) refl)
]

-- For at most 2^30 nodes, `hashid_init` makes a table in order that has no id and is as large as asked.
-- Its array of chains has a power of two of places, as the mask needs, and no fewer than there are nodes.
pub init_lem :
    (max : ℕ)
    → max ≤ 2 ^ 30
    → IsValid (init max) (λ _. [])
      × ((id : ℕ) → lookup (init max) id ≡ none)
      × ((init max).cap ≡ max)
      × ((j : ℕ) × ((init max).hashmod + 1 ≡ 2 ^ j))
      × (max ≤ (init max).hashmod + 1)
unfolding init
init_lem max few =
    let (j, e, big, pos) =
      raise_hashcap_lem max 16 max 4 refl (omega arith) (omega arith) few (omega arith) in
    (init-IsValid max, nothing_found max, refl, (j, omega (arith, e)), omega arith)
