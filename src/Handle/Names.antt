-- ===== src/Handle/Names.antt =====
-- The names of skynet_handle.c: an array of names with their handles, sorted by `strcmp`, that is
-- searched in halves. A name is the list of its bytes.
pub mod Order
pub mod Search
pub mod Insert
use jump.Base.{
  ℕ, zero, suc, ◌+◌, ◌-◌, ◌*◌, ◌/◌, Bool, true, false, List, [], ◌∷◌, ◌++◌, Option, none, some, ltb,
  leb, ◌==◌, ◌^◌, ◌>>=◌, if◌then◌else◌, get_or, length, take, drop,
}
use mathlib.Core.Option
use Prim.Native.Nat.{compare, Ordering}
use jump.Handle.{Storage, retire}

abbrev pub Name : Type 0
Name = List ℕ

-- `strcmp`, by the sign of its result
unfoldable pub strcmp : Name → Name → Ordering
strcmp [] [] = Ordering.eq
strcmp [] (b ∷ bs) = Ordering.lt
strcmp (a ∷ xs) [] = Ordering.gt
strcmp (a ∷ xs) (b ∷ ys) = elim (compare a b) [
  | Ordering.lt ↦ Ordering.lt
  | Ordering.gt ↦ Ordering.gt
  | Ordering.eq ↦ strcmp xs ys
]

-- `struct handle_name`
pub record Entry : Type 0 where
  pub name : Name
  pub handle : ℕ

abbrev pub no_entry : Entry
no_entry = record { name = []; handle = 0 }

-- The names of `struct handle_storage`; `name_count` is the length of the list.
pub record Names : Type 0 where
  pub name_cap : ℕ
  pub entries : List Entry

-- What the search ends with: the entry's handle, or the place where the name belongs.
pub data Found : Type 0 where
  hit : ℕ → Found
  miss : ℕ → Found

-- The loop of `skynet_handle_findname` and `_insert_name` over `begin` and `end + 1`, on fuel.
unfoldable pub search_loop : ℕ → List Entry → Name → ℕ → ℕ → Found
search_loop zero es name begin stop = miss begin
search_loop (suc fuel) es name begin stop =
    let mid = (begin + (stop - 1)) / 2 in
    let n = get_or es mid no_entry in
    let up = search_loop fuel es name (mid + 1) stop in
    let down = search_loop fuel es name begin mid in
    if ltb begin stop
    then elim (strcmp n.name name) [
      | Ordering.eq ↦ hit n.handle
      | Ordering.lt ↦ up
      | Ordering.gt ↦ down
    ]
    else miss begin

unfoldable pub search_name : List Entry → Name → Found
search_name es name = search_loop (length es + 1) es name 0 (length es)

-- `skynet_handle_findname`; 0 is the handle of no service.
unfoldable pub findname : Names → Name → ℕ
findname s name = elim (search_name s.entries name) [ hit h ↦ h | miss i ↦ 0 ]

-- MAX_SLOT_SIZE
abbrev pub max_slot_size : ℕ
max_slot_size = 2 ^ 30

-- The array of `_insert_name_before`, which doubles when it is full; `none` is the failed assertion.
pub name_room : Names → Option ℕ
name_room s =
    if leb s.name_cap (length s.entries)
    then (if leb (s.name_cap * 2) max_slot_size then some (s.name_cap * 2) else none)
    else some s.name_cap

-- `_insert_name_before`
pub insert_before : Names → Name → ℕ → ℕ → Option Names
insert_before s name handle before = do
  cap ← name_room s
  some (record {
    name_cap = cap;
    entries =
        take before s.entries ++ record { name = name; handle = handle } ∷ drop before s.entries;
  })

-- What `skynet_handle_namehandle` does when no assertion fails
pub data Naming : Type 0 where
  taken : Naming
  named : Names → Naming

-- `skynet_handle_namehandle`; `taken` is the result NULL, for a name that is there.
pub namehandle : Names → ℕ → Name → Option Naming
namehandle s handle name = elim (search_name s.entries name) [
  | hit h ↦ some taken
  | miss begin ↦ Option.map named (insert_before s name handle begin)
]

-- The loop of `skynet_handle_retire` over the names.
unfoldable pub drop_names : ℕ → List Entry → List Entry
drop_names handle [] = []
drop_names handle (e ∷ es) =
    if e.handle == handle then drop_names handle es else e ∷ drop_names handle es

-- `skynet_handle_init` for the names
abbrev pub no_names : Names
no_names = record { name_cap = 2; entries = [] }

-- The whole of `skynet_handle_retire`: the names of a handle go with its context.
unfoldable pub retire_all : (ℕ → ℕ) → Storage → Names → ℕ → Option ℕ × Storage × Names
retire_all handles s names handle =
    let (released, t) = retire handles s handle in
    elim released [
      | none ↦ (none, t, names)
      | some ctx ↦ (some ctx, t, record names { entries = drop_names handle names.entries })
    ]
