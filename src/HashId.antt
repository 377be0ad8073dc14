-- ===== src/HashId.antt =====
-- service-src/hashid.h: a hash table from the ids of connections to the places of an array. A pointer
-- to a node is its place in the array `id`; the arrays are functions, since every index is masked or
-- taken modulo `cap`. An id is the non-negative `int` that a socket has; a node without one, whose
-- `id` is -1, has `none`.
pub mod Chains
pub mod Unlink
pub mod Remove
pub mod Insert
pub mod Init
mod Tests
use jump.Base.{
  ℕ, zero, suc, ◌+◌, ◌-◌, ◌*◌, ◌%◌, ◌^◌, Bool, true, false, Option, none, some, ltb, ◌==◌,
  if◌then◌else◌, update,
}

-- `struct hashid_node`
pub record HashidNode : Type 0 where
  pub id : Option ℕ
  pub next : Option ℕ

-- `struct hashid`; its `id` is `nodes` here.
pub record Hashid : Type 0 where
  pub hashmod : ℕ
  pub cap : ℕ
  pub count : ℕ
  pub nodes : ℕ → HashidNode
  pub hash : ℕ → Option ℕ

abbrev pub free_node : HashidNode
free_node = record { id = none; next = none }

-- `<` on `int`s as 32-bit patterns
abbrev pub int_lt : ℕ → ℕ → Bool
int_lt a b = ltb ((a + 2 ^ 31) % 2 ^ 32) ((b + 2 ^ 31) % 2 ^ 32)

-- `while (hashcap < max) hashcap *= 2`, on fuel; the product is a 32-bit pattern.
pub raise_hashcap : ℕ → ℕ → ℕ → ℕ
raise_hashcap zero hashcap max = hashcap
raise_hashcap (suc fuel) hashcap max =
    let again = raise_hashcap fuel (hashcap * 2 % 2 ^ 32) max in
    if int_lt hashcap max then again else hashcap

-- `hashid_init`
pub init : ℕ → Hashid
init max = record {
  hashmod = raise_hashcap max 16 max - 1;
  cap = max;
  count = 0;
  nodes = λ _. free_node;
  hash = λ _. none;
}

-- `id & hi->hashmod`, where `hashmod + 1` is a power of two
abbrev pub bucket : Hashid → ℕ → ℕ
bucket hi id = id % (hi.hashmod + 1)

-- `c->id == id`
pub has_id : Hashid → ℕ → ℕ → Bool
has_id hi c id = elim (hi.nodes c).id [ none ↦ false | some v ↦ v == id ]

-- The loop of `hashid_lookup`; the fuel bounds the length of a chain. `none` is -1.
pub lookup_loop : ℕ → Hashid → Option ℕ → ℕ → Option ℕ
lookup_loop zero hi c id = none
lookup_loop (suc fuel) hi none id = none
lookup_loop (suc fuel) hi (some c) id =
    let rest = lookup_loop fuel hi (hi.nodes c).next id in if has_id hi c id then some c else rest

-- `hashid_lookup`
pub lookup : Hashid → ℕ → Option ℕ
lookup hi id = lookup_loop (hi.cap + 1) hi (hi.hash (bucket hi id)) id

-- The label `_clear`
abbrev pub clear : Hashid → ℕ → Hashid
clear hi c = record hi { nodes = update hi.nodes c free_node; count = hi.count - 1 }

-- `c->next = next`
abbrev pub set_next : Hashid → ℕ → Option ℕ → Hashid
set_next hi c next = record hi {
  nodes = update hi.nodes c (record { id = (hi.nodes c).id; next = next });
}

-- `while (c->next)`, on fuel
pub remove_after : ℕ → Hashid → ℕ → ℕ → Option ℕ × Hashid
remove_after zero hi c id = (none, hi)
remove_after (suc fuel) hi c id = elim (hi.nodes c).next [
  | none ↦ (none, hi)
  | some temp ↦
      let rest = remove_after fuel hi temp id in
      if has_id hi temp id
      then (some temp, clear (set_next hi c (hi.nodes temp).next) temp)
      else rest
]

-- `hashid_remove`; `none` is -1.
pub remove : Hashid → ℕ → Option ℕ × Hashid
remove hi id = elim (hi.hash (bucket hi id)) [
  | none ↦ (none, hi)
  | some c ↦
      let rest = remove_after (hi.cap + 1) hi c id in
      if has_id hi c id
      then (some c, clear (record hi { hash = update hi.hash (bucket hi id) (hi.nodes c).next }) c)
      else rest
]

-- The loop of `hashid_insert` over the array: the first free place from `id` on. Where `i + id` is no
-- `int` the index is no place of the array, and the result is `none`.
pub find_place : ℕ → Hashid → ℕ → ℕ → Option ℕ
find_place zero hi i id = none
find_place (suc rounds) hi i id =
    let rest = find_place rounds hi (i + 1) id in
    if ltb (i + id) (2 ^ 31)
    then elim (hi.nodes ((i + id) % hi.cap)).id [ none ↦ some ((i + id) % hi.cap) | some v ↦ rest ]
    else none

-- `hashid_insert` at the free place `c`; `none` is the failed `assert(c->next == NULL)`.
pub insert_at : Hashid → ℕ → ℕ → Option (ℕ × Hashid)
insert_at hi id c = elim (hi.nodes c).next [
  | none ↦ some (
    c,
    record hi {
      count = hi.count + 1;
      nodes = update hi.nodes c (record { id = some id; next = hi.hash (bucket hi id) });
      hash = update hi.hash (bucket hi id) (some c);
    },
  )
  | some n ↦ none
]

-- `hashid_insert`; `none` is a failed `assert`, or a sum that overflows.
pub insert : Hashid → ℕ → Option (ℕ × Hashid)
insert hi id = elim (find_place hi.cap hi 0 id) [ none ↦ none | some c ↦ insert_at hi id c ]

-- `hashid_full`
abbrev pub full : Hashid → Bool
full hi = hi.count == hi.cap
