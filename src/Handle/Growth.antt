-- ===== src/Handle/Growth.antt =====
-- The growth of the table of contexts: every context moves to the slot of its handle.
use native.Mathlib.Nat.{zero-mod, mod_self, mod-lt, mod-mod_of_dvd, dvd-mul_right}
use jump.Base.{
  option_ext, ℕ, suc, ◌+◌, ◌-◌, ◌*◌, ◌%◌, ◌^◌, ◌≡◌, ◌≢◌, ◌≤◌, ◌<◌, inl, inr, refl, ap, subst, sym,
  ◌∙◌, ℕ_discrete, arith, List, [], ◌∷◌, Option, none, some, set, replicate, length, length-set,
  get_or-set_self, get_or-set_ne, get_or-replicate, length-replicate, some-eq, some-ne-none,
  Option-cases, le→leb,
}
use jump.Handle.{Storage, slot_at, handle_space, find_free, rehash, expand, grab}
use jump.Handle.Table.{IsValid, Absent, find_free_full, grab_iff}
use jump.Handle.Hash.{Size-pos, Size-double}

-- What the loop of the growth has done when `i` slots of the old table are moved.
record Moved (handles : ℕ → ℕ) (s : Storage) (i : ℕ) (new_slot : List (Option ℕ)) : Type 0 where
  width : length new_slot ≡ s.slot_size * 2
  from :
      (j c : ℕ)
      → slot_at new_slot j ≡ some c
      → (handles c % (s.slot_size * 2) ≡ j)
        × (slot_at s.slot (handles c % s.slot_size) ≡ some c)
        × (handles c % s.slot_size < i)
  to :
      (j c : ℕ)
      → j < i
      → slot_at s.slot j ≡ some c
      → slot_at new_slot (handles c % (s.slot_size * 2)) ≡ some c

mod_half : (n h : ℕ) → h % (n * 2) % n ≡ h % n
mod_half n h = mod-mod_of_dvd n h (dvd-mul_right n 2)

module _ {handles : ℕ → ℕ} {s : Storage} {i : ℕ} {new_slot : List (Option ℕ)} (c : ℕ)
    (v : IsValid handles s) (m : Moved handles s i new_slot) (e : slot_at s.slot i ≡ some c) where
  -- The slot that the context moves to.
  abbrev target : ℕ
  target = handles c % (s.slot_size * 2)

  -- It is free: a context there would come from the same old slot, which is not yet moved.
  target_free : slot_at new_slot target ≡ none
  target_free = elim (Option-cases (slot_at new_slot target)) [
    | inl n ↦ n
    | inr (d, t) ↦
        let (a, _, l) = m.from target d t in
        absurd (
          omega (
            arith,
            l,
            sym (mod_half s.slot_size (handles d))
                ∙ ap (λ x. x % s.slot_size) a
                ∙ mod_half s.slot_size (handles c)
                ∙ v.home i c e,
          ))
  ]

  target_in : target < length new_slot
  target_in = rw m.width (mod-lt (handles c) (omega (arith, Size-pos v.size)))

  -- One round of the loop.
  Moved-step : Moved handles s (i + 1) (set new_slot target (some c))
  Moved-step = record {
    width = length-set new_slot target (some c) ∙ m.width;
    from = λ j d t. elim (ℕ_discrete target j) [
      | yes q ↦
          let same : c ≡ d = some-eq (
            sym (get_or-set_self new_slot target (some c) none target_in)
            ∙ ap (slot_at (set new_slot target (some c))) q
            ∙ t) in
          subst
            (λ d.
              (handles d % (s.slot_size * 2) ≡ j)
              × (slot_at s.slot (handles d % s.slot_size) ≡ some d)
              × (handles d % s.slot_size < i + 1))
            same (q, ap (slot_at s.slot) (v.home i c e) ∙ e, omega (arith, v.home i c e))
      | no q ↦
          let (a, b, l) = m.from j d (sym (get_or-set_ne new_slot target j (some c) none q) ∙ t) in
          (a, b, omega arith)
    ];
    to = λ j d l t. elim (ℕ_discrete j i) [
      | yes q ↦
          let same : c ≡ d = some-eq (sym e ∙ ap (slot_at s.slot) (sym q) ∙ t) in
          subst
            (λ d. slot_at (set new_slot target (some c)) (handles d % (s.slot_size * 2)) ≡ some d)
            same (get_or-set_self new_slot target (some c) none target_in)
      | no q ↦
          let old = m.to j d (omega arith) t in
          get_or-set_ne new_slot target (handles d % (s.slot_size * 2)) (some c) none
            (λ z. some-ne-none old (sym (ap (slot_at new_slot) z) ∙ target_free))
          ∙ old
    ];
  }

-- The whole loop, for a table with no free slot.
rehash_lem :
    {handles : ℕ → ℕ} {s : Storage} (rest : List (Option ℕ)) (i : ℕ) (new_slot : List (Option ℕ))
    → IsValid handles s
    → Moved handles s i new_slot
    → ((k : ℕ) → k < length rest → slot_at rest k ≡ slot_at s.slot (i + k))
    → ((j : ℕ) → j < s.slot_size → slot_at s.slot j ≢ none)
    → i + length rest ≡ s.slot_size
    → (out : List (Option ℕ)) × (rehash handles (s.slot_size * 2) rest new_slot ≡ some out)
      × Moved handles s s.slot_size out
unfolding rehash
rehash_lem {handles} {s} [] i new_slot v m at full e =
    (new_slot, refl, subst (λ k. Moved handles s k new_slot) (omega arith) m)
rehash_lem {handles} {s} (none ∷ rest) i new_slot v m at full e =
    let start : i ≡ i + 0 = omega arith in
    absurd (full i (omega arith) (ap (slot_at s.slot) start ∙ sym (at 0 (omega arith))))
rehash_lem {handles} {s} (some c ∷ rest) i new_slot v m at full e =
    let start : i + 0 ≡ i = omega arith in
    let old = sym (at 0 (omega arith) ∙ ap (slot_at s.slot) start) in
    let (out, run, done) =
      rehash_lem {handles = handles} {s = s} rest (i + 1)
        (set new_slot (handles c % (s.slot_size * 2)) (some c)) v (Moved-step c v m old)
        (λ k l. at (suc k) (omega arith) ∙ ap (slot_at s.slot) (omega arith)) full (omega arith) in
    (out, rw (target_free c v m old, rehash) run, done)

module _ {handles : ℕ → ℕ} {s : Storage} {out : List (Option ℕ)} (v : IsValid handles s)
    (m : Moved handles s s.slot_size out) where
  abbrev grown : Storage
  grown = record s { slot = out; slot_size = s.slot_size * 2 }

  grown-IsValid : s.slot_size * 2 ≤ 2 ^ 24 → IsValid handles grown
  grown-IsValid room = record {
    size = Size-double v.size room;
    len = m.width;
    home = λ i c e. (m.from i c e).0;
    harbor = v.harbor;
  }

  grab-grown : (h : ℕ) → grab handles grown h ≡ grab handles s h
  grab-grown h =
      option_ext
        (λ c e.
          let (at, is) = (grab_iff handles grown h c).0 e in
          let (_, old, _) = m.from _ c at in
          (grab_iff handles s h c).1
            (ap (λ x. slot_at s.slot (x % s.slot_size)) (sym is) ∙ old, is))
        (λ c e.
          let (at, is) = (grab_iff handles s h c).0 e in
          (grab_iff handles grown h c).1 (
            ap (λ x. slot_at out (x % (s.slot_size * 2))) (sym is)
                ∙ m.to (h % s.slot_size) c (mod-lt h (Size-pos v.size)) at,
            is,
          ))

  -- The slots 0 and `slot_size` cannot both be taken: they come from one old slot.
  grown-free : s.slot_size * 2 ≤ 2 ^ 24 → find_free grown grown.slot_size 0 ≢ none
  grown-free room e =
      let pos = Size-pos v.size in
      let full = λ (j : ℕ) (l : j < s.slot_size * 2). find_free_full j (grown-IsValid room) e l in
      elim (Option-cases (slot_at out 0)) [
        | inl n ↦ full 0 (omega arith) n
        | inr (c, p) ↦ elim (Option-cases (slot_at out s.slot_size)) [
          | inl n ↦ full s.slot_size (omega arith) n
          | inr (d, q) ↦ both c d p q
        ]
      ]
    where
      low : (h : ℕ) {j : ℕ} → h % (s.slot_size * 2) ≡ j → j % s.slot_size ≡ 0 → h % s.slot_size ≡ 0
      low h e z = sym (mod_half s.slot_size h) ∙ ap (λ x. x % s.slot_size) e ∙ z

      both : (c d : ℕ) → slot_at out 0 ≡ some c → slot_at out s.slot_size ≡ some d → ⊥
      both c d p q =
          let (a, x, _) = m.from 0 c p in
          let (b, y, _) = m.from s.slot_size d q in
          let same : c ≡ d = some-eq (
            sym x
            ∙ ap (slot_at s.slot) (
                low (handles c) a (zero-mod s.slot_size)
                ∙ sym (low (handles d) b (mod_self s.slot_size)))
            ∙ y) in
          let z = Size-pos v.size in
          absurd (omega (arith, sym a ∙ ap (λ x. handles x % (s.slot_size * 2)) same ∙ b))

-- Let a table in order be full, and below half of its greatest size. Growing it passes its assertions;
-- the new table is in order and has a free slot, every handle names what it did, and the harbor and the
-- absent contexts are the same.
pub expand_lem :
    {handles : ℕ → ℕ} {s : Storage}
    → IsValid handles s
    → ((j : ℕ) → j < s.slot_size → slot_at s.slot j ≢ none)
    → s.slot_size * 2 ≤ 2 ^ 24
    → (t : Storage) × (expand handles s ≡ some t)
      × IsValid handles t
      × ((h : ℕ) → grab handles t h ≡ grab handles s h)
      × (t.harbor ≡ s.harbor)
      × (find_free t t.slot_size 0 ≢ none)
      × ((c : ℕ) → Absent s c → Absent t c)
unfolding expand
expand_lem {handles} {s} v full room =
    let (out, run, m) =
      rehash_lem {handles = handles} {s = s} s.slot 0 (replicate (s.slot_size * 2) none) v start
        (λ k l. ap (slot_at s.slot) (omega arith)) full (omega (arith, v.len)) in
    (
      grown v m,
      enough out run,
      grown-IsValid v m room,
      grab-grown v m,
      refl,
      grown-free v m room,
      λ c gone i e. gone (handles c % s.slot_size) (m.from i c e).1,
    )
  where
    nothing : (j c : ℕ) → slot_at (replicate (s.slot_size * 2) none) j ≡ some c → ⊥
    nothing j c e = some-ne-none e (get_or-replicate (s.slot_size * 2) j none)

    start : Moved handles s 0 (replicate (s.slot_size * 2) none)
    start = record {
      width = length-replicate (s.slot_size * 2) none;
      from = λ j c e. absurd (nothing j c e);
      to = λ j c l e. absurd (omega arith);
    }

    enough :
        (out : List (Option ℕ))
        → rehash handles (s.slot_size * 2) s.slot (replicate (s.slot_size * 2) none) ≡ some out
        → expand handles s ≡ some (record s { slot = out; slot_size = s.slot_size * 2 })
    enough out run = rw (le→leb (s.slot_size * 2 - 1) (handle_space - 1) (omega arith), run, expand)
