-- ===== src/Handle/Table.antt =====
-- The table of contexts: its invariant, its search for a free slot, and its growth.
use jump.Base.{
  reach_slot, ℕ, zero, suc, ◌+◌, ◌*◌, ◌%◌, ◌^◌, ◌≡◌, ◌≢◌, ◌<◌, ap, ◌∙◌, arith, none, some, length,
  ◌↔◌,
}
use jump.Handle.{Storage, slot_at, hash, candidate, find_free, grab}
use jump.Handle.Hash.{Size, mod_mask}

-- Every context stands in the slot of its handle, in a table whose size is a power of two.
pub record IsValid (handles : ℕ → ℕ) (s : Storage) : Type 0 where
  pub size : Size s.slot_size
  pub len : length s.slot ≡ s.slot_size
  pub home : (i c : ℕ) → slot_at s.slot i ≡ some c → handles c % s.slot_size ≡ i
  pub harbor : (a : ℕ) × (s.harbor ≡ a * 2 ^ 24)

-- The context has no slot.
abbrev pub Absent : Storage → ℕ → Type 0
Absent s ctx = (i : ℕ) → slot_at s.slot i ≢ some ctx

-- A handle that is found has a free slot.
pub find_free-some :
    (s : Storage) (rounds i : ℕ) {h : ℕ}
    → find_free s rounds i ≡ some h
    → (slot_at s.slot (hash s h) ≡ none) × (h < 2 ^ 24)
unfolding find_free
find_free-some s zero i e = cc
find_free-some s (suc rounds) i {h = h} e = ground (arith, find_free-some s rounds (i + 1) {h = h})

-- If none is found, every candidate was taken.
find_free-none :
    (s : Storage) (rounds i r : ℕ)
    → find_free s rounds i ≡ none
    → r < rounds
    → slot_at s.slot (hash s (candidate s (i + r))) ≢ none
unfolding find_free
find_free-none s zero i r e h = elim h [ ]
find_free-none s (suc rounds) i zero e h = let z : i + 0 ≡ i = omega arith in rw z (ground arith)
find_free-none s (suc rounds) i (suc r) e h =
    let z : i + suc r ≡ i + 1 + r = omega arith in
    rw z (ground (arith, find_free-none s rounds (i + 1) r))

-- Then every slot is taken.
pub find_free_full :
    {handles : ℕ → ℕ} {s : Storage} (j : ℕ)
    → IsValid handles s
    → find_free s s.slot_size 0 ≡ none
    → j < s.slot_size
    → slot_at s.slot j ≢ none
find_free_full {handles} {s} j v e h n =
    let (r, l, q) = reach_slot j s.handle_index h in
    let z : 0 + r ≡ r = omega arith in
    find_free-none s s.slot_size 0 r e l (
      ap (slot_at s.slot)
        (ap (λ x. hash s (candidate s x)) z ∙ mod_mask (r + s.handle_index) v.size ∙ q)
      ∙ n)

-- What `skynet_handle_grab` finds.
pub grab_iff :
    (handles : ℕ → ℕ) (s : Storage) (h c : ℕ)
    → (grab handles s h ≡ some c) ↔ ((slot_at s.slot (hash s h) ≡ some c) × (handles c ≡ h))
unfolding grab
grab_iff handles s h c = (λ e. ground arith, λ p. rw (p.0, grab) (ground (arith, p.1)))
