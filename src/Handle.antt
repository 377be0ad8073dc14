-- ===== src/Handle.antt =====
-- skynet-src/skynet_handle.c: the table of the services by handle. The services' names are in
-- `Handle.Names`. A context is the number of its pointer; `handles` reads its `handle` field.
pub mod Hash
pub mod Table
pub mod Growth
pub mod Register
pub mod Names
mod Tests
use jump.Base.{
  ℕ, zero, suc, ◌+◌, ◌-◌, ◌*◌, ◌/◌, ◌%◌, ◌^◌, Bool, true, false, ◌&&◌, List, [], ◌∷◌, Option, none,
  some, leb, ◌==◌, if◌then◌else◌, get_or, set, replicate,
}

-- `HANDLE_MASK + 1`
abbrev pub handle_space : ℕ
handle_space = 2 ^ 24

abbrev pub default_slot_size : ℕ
default_slot_size = 4

-- The part of `struct handle_storage` that finds contexts.
pub record Storage : Type 0 where
  pub harbor : ℕ
  pub handle_index : ℕ
  pub slot_size : ℕ
  pub slot : List (Option ℕ)

-- `skynet_handle_init`
unfoldable pub init : ℕ → Storage
init harbor = record {
  harbor = harbor % 256 * 2 ^ 24;
  handle_index = 1;
  slot_size = default_slot_size;
  slot = replicate default_slot_size none;
}

-- `handle & (slot_size - 1)`; the size is a power of two.
abbrev pub hash : Storage → ℕ → ℕ
hash s handle = handle % s.slot_size

abbrev pub slot_at : List (Option ℕ) → ℕ → Option ℕ
slot_at slot i = get_or slot i none

-- `(i + handle_index) & HANDLE_MASK`
abbrev pub candidate : Storage → ℕ → ℕ
candidate s i = (i + s.handle_index) % 2 ^ 32 % handle_space

-- The `for` loop of `skynet_handle_register`: the handle whose slot is free, if there is one.
unfoldable pub find_free : Storage → ℕ → ℕ → Option ℕ
find_free s zero i = none
find_free s (suc rounds) i = elim (slot_at s.slot (hash s (candidate s i))) [
  | none ↦ some (candidate s i)
  | some c ↦ find_free s rounds (i + 1)
]

-- The slot is taken; the handle's harbor is put in (the two have no bit in common).
unfoldable pub occupy : Storage → ℕ → ℕ → ℕ × Storage
occupy s ctx handle = (
  handle + s.harbor,
  record s { slot = set s.slot (hash s handle) (some ctx); handle_index = handle + 1 },
)

-- The loop that moves the contexts to the larger table; `none` is a failed `assert`.
pub rehash : (ℕ → ℕ) → ℕ → List (Option ℕ) → List (Option ℕ) → Option (List (Option ℕ))
rehash handles size [] new_slot = some new_slot
rehash handles size (none ∷ slot) new_slot = none
rehash handles size (some c ∷ slot) new_slot = elim (slot_at new_slot (handles c % size)) [
  | none ↦ rehash handles size slot (set new_slot (handles c % size) (some c))
  | some d ↦ none
]

-- The rest of the `for (;;)` body: the table doubles.
pub expand : (ℕ → ℕ) → Storage → Option Storage
expand handles s =
    if leb (s.slot_size * 2 - 1) (handle_space - 1)
    then elim (rehash handles (s.slot_size * 2) s.slot (replicate (s.slot_size * 2) none)) [
      | none ↦ none
      | some slot ↦ some (record s { slot = slot; slot_size = s.slot_size * 2 })
    ]
    else none

-- `skynet_handle_register`, on fuel for the rounds of `for (;;)`; `none` is a failed `assert`.
unfoldable pub register_loop : ℕ → (ℕ → ℕ) → Storage → ℕ → Option (ℕ × Storage)
register_loop zero handles s ctx = none
register_loop (suc fuel) handles s ctx = elim (find_free s s.slot_size 0) [
  | some handle ↦ some (occupy s ctx handle)
  | none ↦ elim (expand handles s) [ none ↦ none | some t ↦ register_loop fuel handles t ctx ]
]

unfoldable pub register : (ℕ → ℕ) → Storage → ℕ → Option (ℕ × Storage)
unfolding register_loop
register = register_loop 2

-- `skynet_handle_grab`, without the reference count of the context
unfoldable pub grab : (ℕ → ℕ) → Storage → ℕ → Option ℕ
grab handles s handle = elim (slot_at s.slot (hash s handle)) [
  | none ↦ none
  | some ctx ↦ if handles ctx == handle then some ctx else none
]

-- `skynet_handle_retire` on the slots: the context to release, if the handle has one.
unfoldable pub retire : (ℕ → ℕ) → Storage → ℕ → Option ℕ × Storage
unfolding grab
retire handles s handle = elim (grab handles s handle) [
  | none ↦ (none, s)
  | some ctx ↦ (some ctx, record s { slot = set s.slot (hash s handle) none })
]
