-- ===== src/HashId/Tests.antt =====
-- Runs of the table, and the theorems at concrete tables.
use jump.Base.{
  ℕ, ◌+◌, ◌^◌, ◌<◌, ◌≤◌, ◌≡◌, ◌≢◌, ◌⊎◌, refl, List, [], ◌∷◌, none, some, arith, count, update,
}
use jump.HashId.{Hashid, free_node, init, lookup, lookup_loop, insert, remove, has_id}
use jump.HashId.Chains.{IsValid, used}
use jump.HashId.Insert.{insert_lem}
use jump.HashId.Init.{init_lem, init-IsValid, nothing_found}
use jump.HashId.Remove.{remove_lem}

-- Two places, with 5 in the chain of its remainder.
abbrev one : Hashid
one = record {
  hashmod = 15;
  cap = 2;
  count = 1;
  nodes = update (λ _. free_node) 1 (record { id = some 5; next = none });
  hash = update (λ _. none) 5 (some 1);
}

-- The ids 5 and 21 have one chain.
found : lookup one 5 ≡ some 1
unfolding lookup lookup_loop has_id update
found = refl

insert_lem_example :
    (c : ℕ) × (t : Hashid) × (ys : ℕ → List ℕ) × (insert (init 2) 5 ≡ some (c, t))
    × IsValid t ys
    × (((init 2).nodes c).id ≡ none)
    × (c < 2)
    × (t.count ≡ 1)
    × (lookup t 5 ≡ some c)
    × ((j : ℕ) → j ≢ 5 → lookup t j ≡ lookup (init 2) j)
unfolding init
insert_lem_example = insert_lem 5 (init-IsValid 2) refl (nothing_found 2 5) (omega arith)

abbrev chains : ℕ → List ℕ
chains = update (λ _. []) 5 (1 ∷ [])

one-IsValid : IsValid one chains
unfolding update count used
one-IsValid = record {
  chains = λ h. ground arith;
  stands = λ h p. ground arith;
  idle = λ p e. ground arith;
  distinct = λ p q v e f. ground arith;
  inside = λ p v e. ground arith;
  counted = refl;
}

remove_lem_example :
    let (o, u) = remove one 5 in
    (o ≡ lookup one 5)
    × ((ys : ℕ → List ℕ) × IsValid u ys)
    × ((o ≡ none) ⊎ (u.count + 1 ≡ 1))
    × (o ≡ none → u.count ≡ 1)
    × (lookup u 5 ≡ none)
    × ((j : ℕ) → j ≢ 5 → lookup u j ≡ lookup one j)
remove_lem_example = remove_lem 5 one-IsValid

init_lem_example :
    IsValid (init 100) (λ _. [])
    × ((id : ℕ) → lookup (init 100) id ≡ none)
    × ((init 100).cap ≡ 100)
    × ((j : ℕ) × ((init 100).hashmod + 1 ≡ 2 ^ j))
    × (100 ≤ (init 100).hashmod + 1)
init_lem_example = init_lem 100 (omega arith)
