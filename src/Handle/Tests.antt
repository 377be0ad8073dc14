-- ===== src/Handle/Tests.antt =====
-- Runs of the handle table, and the theorems at concrete tables.
use Prim.Native.Nat.{Ordering}
use jump.Base.{
  ℕ, zero, suc, ◌%◌, ◌<◌, ◌≤◌, ◌≡◌, ◌≢◌, ◌⊎◌, inr, refl, [], ◌∷◌, none, some, arith, length, get_or,
}
use jump.Handle.{Storage, slot_at, find_free, register, occupy, expand, rehash, grab, retire}
use jump.Handle.Table.{IsValid, Absent}
use jump.Handle.Growth.{expand_lem}
use jump.Handle.Register.{Registers, register_lem, retire_lem}
use jump.Handle.Names.{
  Name, Names, no_entry, strcmp, findname, search_name, search_loop, namehandle, drop_names, taken,
  named,
}
use jump.Handle.Names.Order.{All, Sorted}
use jump.Handle.Names.Search.{lookup, findname_lem}
use jump.Handle.Names.Insert.{namehandle_lem, drop_names_lem}

-- A context's handle is its pointer's number here.
abbrev same : ℕ → ℕ
same c = c

-- Four contexts fill the first table, and the fifth makes it grow.
abbrev full : Storage
full = record {
  harbor = 0;
  handle_index = 5;
  slot_size = 4;
  slot = some 4 ∷ some 1 ∷ some 2 ∷ some 3 ∷ [];
}

full-home : (i c : ℕ) → slot_at full.slot i ≡ some c → same c % 4 ≡ i
full-home zero c e = ground arith
full-home (suc zero) c e = ground arith
full-home (suc (suc zero)) c e = ground arith
full-home (suc (suc (suc zero))) c e = ground arith
full-home (suc (suc (suc (suc i)))) c e = cc

full-IsValid : IsValid same full
full-IsValid = record {
  size = (2, refl, omega arith);
  len = refl;
  home = full-home;
  harbor = (0, refl);
}

full-taken : (j : ℕ) → j < 4 → slot_at full.slot j ≢ none
full-taken zero l = cc
full-taken (suc zero) l = cc
full-taken (suc (suc zero)) l = cc
full-taken (suc (suc (suc zero))) l = cc
full-taken (suc (suc (suc (suc j)))) l = absurd (omega arith)

full-Absent : Absent full 9
full-Absent zero = ground arith
full-Absent (suc zero) = ground arith
full-Absent (suc (suc zero)) = ground arith
full-Absent (suc (suc (suc zero))) = ground arith
full-Absent (suc (suc (suc (suc i)))) = ground arith

grows :
    register same full 9
    ≡ some (
      5,
      record full {
        handle_index = 6;
        slot_size = 8;
        slot = none ∷ some 1 ∷ some 2 ∷ some 3 ∷ some 4 ∷ some 9 ∷ none ∷ none ∷ [];
      },
    )
unfolding register find_free expand rehash occupy
grows = refl

register_lem_example :
    (h : ℕ) × (t : Storage) × (register same full 9 ≡ some (h, t)) × Registers same full 9 h t
register_lem_example = register_lem 9 full-IsValid full-Absent (inr (omega arith))

retire_lem_example :
    let (released, t) = retire same full 3 in
    (released ≡ grab same full 3)
    × IsValid same t
    × (grab same t 3 ≡ none)
    × ((g : ℕ) → g ≢ 3 → grab same t g ≡ grab same full g)
retire_lem_example = retire_lem 3 full-IsValid

expand_lem_example :
    (t : Storage) × (expand same full ≡ some t)
    × IsValid same t
    × ((h : ℕ) → grab same t h ≡ grab same full h)
    × (t.harbor ≡ full.harbor)
    × (find_free t t.slot_size 0 ≢ none)
    × ((c : ℕ) → Absent full c → Absent t c)
expand_lem_example = expand_lem full-IsValid full-taken (omega arith)

-- "a" and "c"
abbrev two : Names
two = record {
  name_cap = 2;
  entries = record { name = b'a' ∷ []; handle = 3 } ∷ record { name = b'c' ∷ []; handle = 4 } ∷ [];
}

two-Sorted : Sorted two.entries
unfolding strcmp
two-Sorted = ((refl, tt), (tt, tt))

finds_c : findname two (b'c' ∷ []) ≡ 4
unfolding findname search_name search_loop strcmp
finds_c = refl

findname_lem_example : findname two (b'c' ∷ []) ≡ lookup (b'c' ∷ []) two.entries
findname_lem_example = findname_lem two (b'c' ∷ []) two-Sorted

namehandle_lem_example :
    ((namehandle two 7 (b'b' ∷ []) ≡ some taken)
      × ((k : ℕ) × (k < length two.entries) × ((get_or two.entries k no_entry).name ≡ b'b' ∷ [])))
    ⊎ ((t : Names) × (namehandle two 7 (b'b' ∷ []) ≡ some (named t))
        × Sorted t.entries
        × (length t.entries ≤ t.name_cap)
        × ((n : Name)
            → lookup n t.entries ≡ elim (strcmp (b'b' ∷ []) n) as (λ _. ℕ) [
              | Ordering.eq ↦ 7
              | _ ↦ lookup n two.entries
            ]))
namehandle_lem_example =
    namehandle_lem two 7 (b'b' ∷ []) two-Sorted (omega arith) (omega arith) (omega arith)

drop_names_lem_example :
    Sorted (drop_names 3 two.entries)
    × ((n : Name)
        → lookup n two.entries ≢ 3
        → lookup n (drop_names 3 two.entries) ≡ lookup n two.entries)
    × All (λ e. e.handle ≢ 3) (drop_names 3 two.entries)
drop_names_lem_example = drop_names_lem 3 two.entries two-Sorted
