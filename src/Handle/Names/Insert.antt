-- ===== src/Handle/Names/Insert.antt =====
-- Giving a name to a handle, and taking the names of a handle away, keep the array sorted.
use Prim.Native.Nat.{Ordering}
use jump.Base.{
  ℕ, zero, suc, ◌+◌, ◌<◌, ◌≤◌, ◌≡◌, ◌≢◌, ◌⊎◌, inl, inr, refl, ap, sym, ◌∙◌, arith, some, List, [],
  ◌∷◌, ◌++◌, get_or, length, take, drop, ◌==◌, Bool-cases, ◌^◌, leb, ◌*◌, true, ◌>>=◌,
}
use jump.Handle.Names.{
  Name, strcmp, Entry, no_entry, Names, Found, hit, miss, search_name, insert_before, namehandle,
  name_room, max_slot_size, taken, named, drop_names,
}
use jump.Handle.Names.Search.{Finds, search_name_lem, lookup, miss_absent}
use jump.Handle.Names.Order.{strcmp_refl, strcmp-eq, All, Before, After, Sorted, All-take, All-drop}

insert_All :
    (P : Entry → Type 0) (es : List Entry) (i : ℕ) (new : Entry)
    → All P es
    → P new
    → All P (take i es ++ new ∷ drop i es)
insert_All P [] zero new a p = (p, tt)
insert_All P [] (suc i) new a p = (p, tt)
insert_All P (e ∷ es) zero new a p = (p, a)
insert_All P (e ∷ es) (suc i) new a p = (a.0, insert_All P es i new a.1 p)

insert_Sorted :
    (es : List Entry) (i : ℕ) (new : Entry)
    → Sorted es
    → All (After new.name) (take i es)
    → All (Before new.name) (drop i es)
    → Sorted (take i es ++ new ∷ drop i es)
insert_Sorted [] zero new s a b = (tt, tt)
insert_Sorted [] (suc i) new s a b = (tt, tt)
insert_Sorted (e ∷ es) zero new s a b = (b, s)
insert_Sorted (e ∷ es) (suc i) new s a b =
    (insert_All (Before e.name) es i new s.0 a.0, insert_Sorted es i new s.1 a.1 b)

apart :
    (a b n : Name) → strcmp a b ≢ Ordering.eq → strcmp a n ≡ Ordering.eq → strcmp b n ≢ Ordering.eq
apart a b n ne p q = ne (ap (strcmp a) (strcmp-eq b n q ∙ sym (strcmp-eq a n p)) ∙ strcmp_refl a)

length-insert :
    (es : List Entry) (i : ℕ) (new : Entry) → length (take i es ++ new ∷ drop i es) ≡ length es + 1
length-insert [] zero new = refl
length-insert [] (suc i) new = refl
length-insert (e ∷ es) zero new = omega arith
length-insert (e ∷ es) (suc i) new = omega (arith, length-insert es i new)

-- The new name is found, and all others as before.
insert_lookup :
    (es : List Entry) (i : ℕ) (new : Entry) (n : Name)
    → All (λ e. strcmp e.name new.name ≢ Ordering.eq) es
    → lookup n (take i es ++ new ∷ drop i es)
      ≡ elim (strcmp new.name n) as (λ _. ℕ) [ Ordering.eq ↦ new.handle | _ ↦ lookup n es ]
unfolding lookup
insert_lookup [] zero new n a = refl
insert_lookup [] (suc i) new n a = refl
insert_lookup (e ∷ es) zero new n a = refl
insert_lookup (e ∷ es) (suc i) new n a =
    ground (arith, insert_lookup es i new n a.1, apart e.name new.name n a.0)

insert_lem :
    (es : List Entry) (name : Name) (handle i : ℕ)
    → Sorted es
    → Finds es name (miss i)
    → Sorted (take i es ++ record { name = name; handle = handle } ∷ drop i es)
insert_lem es name handle i s f =
    insert_Sorted es i (record { name = name; handle = handle }) s (All-take (After name) es i f.1)
      (All-drop (Before name) es i f.2)

room_lem :
    (s : Names)
    → 0 < s.name_cap
    → length s.entries ≤ s.name_cap
    → length s.entries ≤ 2 ^ 29
    → (cap : ℕ) × (name_room s ≡ some cap) × (length s.entries < cap)
unfolding name_room
room_lem s pos room few = elim (Bool-cases (leb s.name_cap (length s.entries))) [
  | inl e ↦
      let fits : leb (s.name_cap * 2) max_slot_size ≡ true = ground (arith, e) in
      (s.name_cap * 2, rw (e, fits, name_room) refl, ground (arith, e))
  | inr e ↦ (s.name_cap, rw (e, name_room) refl, ground (arith, e))
]

-- Let the names be sorted, at most 2^29, and fit an array that has room for one at least.
-- `skynet_handle_namehandle` refuses a name that is there. Otherwise its assertion holds, the names stay
-- sorted, the new name has its handle, every other name has the handle that it had, and the names fit
-- the array.
pub namehandle_lem :
    (s : Names) (handle : ℕ) (name : Name)
    → Sorted s.entries
    → 0 < s.name_cap
    → length s.entries ≤ s.name_cap
    → length s.entries ≤ 2 ^ 29
    → ((namehandle s handle name ≡ some taken)
        × ((k : ℕ) × (k < length s.entries) × ((get_or s.entries k no_entry).name ≡ name)))
      ⊎ ((t : Names) × (namehandle s handle name ≡ some (named t))
          × Sorted t.entries
          × (length t.entries ≤ t.name_cap)
          × ((n : Name)
              → lookup n t.entries ≡ elim (strcmp name n) as (λ _. ℕ) [
                | Ordering.eq ↦ handle
                | _ ↦ lookup n s.entries
              ]))
unfolding namehandle insert_before
namehandle_lem s handle name v pos room few =
    go (search_name s.entries name) refl (search_name_lem s.entries name v)
  where
    new : Entry
    new = record { name = name; handle = handle }

    go :
        (r : Found)
        → search_name s.entries name ≡ r
        → Finds s.entries name r
        → ((namehandle s handle name ≡ some taken)
            × ((k : ℕ) × (k < length s.entries) × ((get_or s.entries k no_entry).name ≡ name)))
          ⊎ ((t : Names) × (namehandle s handle name ≡ some (named t))
              × Sorted t.entries
              × (length t.entries ≤ t.name_cap)
              × ((n : Name)
                  → lookup n t.entries ≡ elim (strcmp name n) as (λ _. ℕ) [
                    | Ordering.eq ↦ handle
                    | _ ↦ lookup n s.entries
                  ]))
    go (hit h) e (k, l, q, z) = inl (rw (e, namehandle), (k, l, q))
    go (miss i) e f =
        let (cap, run, fits) = room_lem s pos room few in
        inr (
          record { name_cap = cap; entries = take i s.entries ++ new ∷ drop i s.entries },
          rw (e, namehandle) (rw (run, insert_before, ◌>>=◌) refl),
          insert_lem s.entries name handle i v f,
          omega (arith, length-insert s.entries i new),
          λ n. insert_lookup s.entries i new n (miss_absent s.entries name i f),
        )

drop_names-All :
    (P : Entry → Type 0) (handle : ℕ) (es : List Entry) → All P es → All P (drop_names handle es)
unfolding drop_names
drop_names-All P handle [] a = tt
drop_names-All P handle (e ∷ es) a = ground (arith, drop_names-All P handle es a.1)

-- Retiring a handle keeps sorted names sorted and leaves none of that handle; a name of another handle
-- is found as before.
pub drop_names_lem :
    (handle : ℕ) (es : List Entry)
    → Sorted es
    → Sorted (drop_names handle es)
      × ((n : Name) → lookup n es ≢ handle → lookup n (drop_names handle es) ≡ lookup n es)
      × All (λ e. e.handle ≢ handle) (drop_names handle es)
unfolding drop_names lookup
drop_names_lem handle [] s = (tt, λ n ne. refl, tt)
drop_names_lem handle (e ∷ es) s =
    let (a, b, c) = drop_names_lem handle es s.1 in
    elim (Bool-cases (e.handle == handle)) [
      | inl h ↦ rw h (a, λ n ne. ground (arith, b n), c)
      | inr h ↦ rw h (
        (drop_names-All (Before e.name) handle es s.0, a),
        λ n ne. ground (arith, b n),
        (ground arith, c),
      )
    ]
