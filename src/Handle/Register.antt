-- ===== src/Handle/Register.antt =====
-- skynet_handle_register, skynet_handle_grab and skynet_handle_retire as a finite map.
use native.Mathlib.Nat.{mod-lt}
use jump.Base.{
  false, ◌-◌, dec_lt, leb, leb_no, option_ext, ℕ, ◌+◌, ◌*◌, ◌/◌, ◌%◌, ◌^◌, ◌≡◌, ◌≢◌, ◌≤◌, ◌<◌, ◌⊎◌,
  inl, inr, refl, ap, sym, ◌∙◌, ℕ_discrete, arith, Option, none, some, set, length-set,
  get_or-set_self, get_or-set_ne, some-eq, some-ne-none, Option-cases, update, update_self,
  update_ne, length-replicate, get_or-replicate,
}
use jump.Handle.{
  expand, handle_space, Storage, slot_at, hash, find_free, occupy, grab, register, register_loop,
  retire, init, default_slot_size,
}
use jump.Handle.Hash.{Size-pos, mod_harbor}
use jump.Handle.Growth.{expand_lem}
use jump.Handle.Table.{IsValid, Absent, find_free-some, find_free_full, grab_iff}

-- What registration promises: a handle that nobody has, under which the context is found from now on;
-- all others are found as before.
pub record Registers (handles : ℕ → ℕ) (s : Storage) (ctx : ℕ) (h : ℕ) (t : Storage) : Type 0 where
  pub fresh : grab handles s h ≡ none
  pub node : h / 2 ^ 24 ≡ s.harbor / 2 ^ 24
  pub valid : IsValid (update handles ctx h) t
  pub found : grab (update handles ctx h) t h ≡ some ctx
  pub others : (g : ℕ) → g ≢ h → grab (update handles ctx h) t g ≡ grab handles s g

module _ {handles : ℕ → ℕ} {s : Storage} (ctx h : ℕ) (v : IsValid handles s) (gone : Absent s ctx)
    (free : slot_at s.slot (hash s h) ≡ none) where
  abbrev taken : Storage
  taken = record s { slot = set s.slot (hash s h) (some ctx); handle_index = h + 1 }

  abbrev named : ℕ → ℕ
  named = update handles ctx (h + s.harbor)

  hash_full : (h + s.harbor) % s.slot_size ≡ hash s h
  hash_full = let (a, e) = v.harbor in rw e (mod_harbor h a v.size)

  slot_mine : slot_at taken.slot (hash s h) ≡ some ctx
  slot_mine =
      get_or-set_self s.slot (hash s h) (some ctx) none (rw v.len (mod-lt h (Size-pos v.size)))

  slot_other : (i : ℕ) → hash s h ≢ i → slot_at taken.slot i ≡ slot_at s.slot i
  slot_other i ne = get_or-set_ne s.slot (hash s h) i (some ctx) none ne

  -- Another context's handle is not touched.
  named_other : (i c : ℕ) → slot_at s.slot i ≡ some c → named c ≡ handles c
  named_other i c e = update_ne handles ctx c (h + s.harbor) (λ q. gone i (e ∙ ap some (sym q)))

  -- What stands in the slots now: the context in the slot of `h`, and the others where they were.
  slot_cases :
      (i c : ℕ)
      → slot_at taken.slot i ≡ some c
      → ((hash s h ≡ i) × (ctx ≡ c)) ⊎ ((hash s h ≢ i) × (slot_at s.slot i ≡ some c))
  slot_cases i c e = elim (ℕ_discrete (hash s h) i) [
    | yes q ↦ inl (q, some-eq (sym slot_mine ∙ ap (slot_at taken.slot) q ∙ e))
    | no q ↦ inr (q, sym (slot_other i q) ∙ e)
  ]

  taken-IsValid : IsValid named taken
  taken-IsValid = record {
    size = v.size;
    len = length-set s.slot (hash s h) (some ctx) ∙ v.len;
    home = λ i c e. elim (slot_cases i c e) [
      | inl (q, p) ↦
          ap (λ x. named x % s.slot_size) (sym p)
          ∙ ap (λ x. x % s.slot_size) (update_self handles ctx (h + s.harbor))
          ∙ hash_full
          ∙ q
      | inr (q, p) ↦ ap (λ x. x % s.slot_size) (named_other i c p) ∙ v.home i c p
    ];
    harbor = v.harbor;
  }

  grab-taken_self : grab named taken (h + s.harbor) ≡ some ctx
  grab-taken_self =
      (grab_iff named taken (h + s.harbor) ctx).1
        (ap (slot_at taken.slot) hash_full ∙ slot_mine, update_self handles ctx (h + s.harbor))

  grab-taken_ne : (g : ℕ) → g ≢ h + s.harbor → grab named taken g ≡ grab handles s g
  grab-taken_ne g ne =
      option_ext
        (λ c e.
          let (at, is) = (grab_iff named taken g c).0 e in
          elim (slot_cases (hash s g) c at) [
            | inl (_, p) ↦
                absurd (ne (sym is ∙ ap named (sym p) ∙ update_self handles ctx (h + s.harbor)))
            | inr (_, p) ↦ (grab_iff handles s g c).1 (p, sym (named_other (hash s g) c p) ∙ is)
          ])
        (λ c e.
          let (at, is) = (grab_iff handles s g c).0 e in
          let other =
            λ (q : hash s h ≡ hash s g). some-ne-none at (ap (slot_at s.slot) (sym q) ∙ free) in
          (grab_iff named taken g c).1
            (slot_other (hash s g) other ∙ at, named_other (hash s g) c at ∙ is))

  occupy_lem : h < 2 ^ 24 → Registers handles s ctx (h + s.harbor) (occupy s ctx h).1
  unfolding occupy grab
  occupy_lem b = record {
    fresh = rw (hash_full, grab) (rw (free, grab));
    node = let (a, e) = v.harbor in omega arith;
    valid = taken-IsValid;
    found = grab-taken_self;
    others = grab-taken_ne;
  }

-- What the table of a grown storage promises holds of the old one.
regrown :
    {handles : ℕ → ℕ} {s t u : Storage} {ctx h : ℕ}
    → ((g : ℕ) → grab handles t g ≡ grab handles s g)
    → t.harbor ≡ s.harbor
    → Registers handles t ctx h u
    → Registers handles s ctx h u
regrown {s = s} {h = h} same e r = record {
  fresh = sym (same h) ∙ r.fresh;
  node = r.node ∙ ap (λ x. x / 2 ^ 24) e;
  valid = r.valid;
  found = r.found;
  others = λ g ne. r.others g ne ∙ same g;
}

-- Let the table be in order, the context not in it, and a slot free or the table below half of its
-- greatest size. Then registration passes its assertions and ends, with one growth at most. The handle
-- named no context before and has this node's harbor in its high byte; it now names the context, every
-- other handle names what it did, and the table is in order once the context holds its handle.
pub register_lem :
    {handles : ℕ → ℕ} {s : Storage} (ctx : ℕ)
    → IsValid handles s
    → Absent s ctx
    → (find_free s s.slot_size 0 ≢ none) ⊎ (s.slot_size * 2 ≤ 2 ^ 24)
    → (h : ℕ) × (t : Storage) × (register handles s ctx ≡ some (h, t)) × Registers handles s ctx h t
unfolding register
register_lem {handles} {s} ctx v gone room = elim (Option-cases (find_free s s.slot_size 0)) [
  | inr (h, e) ↦
      let (free, b) = find_free-some s s.slot_size 0 e in
      (
        h + s.harbor,
        (occupy s ctx h).1,
        rw (e, register, register_loop) (unfold occupy in refl),
        occupy_lem ctx h v gone free b,
      )
  | inl e ↦ elim room [
    | inl ne ↦ absurd (ne e)
    | inr r ↦
        let (t, x, w, same, hb, ne, kept) = expand_lem v (λ j. find_free_full j v e) r in
        elim (Option-cases (find_free t t.slot_size 0)) [
          | inl n ↦ absurd (ne n)
          | inr (h, f) ↦
              let (free, b) = find_free-some t t.slot_size 0 f in
              (
                h + t.harbor,
                (occupy t ctx h).1,
                rw (e, x, register, register_loop) (rw (f, register_loop) (unfold occupy in refl)),
                regrown same hb (occupy_lem ctx h w (kept ctx gone) free b),
              )
        ]
  ]
]

module _ {handles : ℕ → ℕ} {s : Storage} (h ctx : ℕ) (v : IsValid handles s)
    (mine : grab handles s h ≡ some ctx) where
  abbrev retired : Storage
  retired = record s { slot = set s.slot (hash s h) none }

  slot_gone : slot_at retired.slot (hash s h) ≡ none
  slot_gone = get_or-set_self s.slot (hash s h) none none (rw v.len (mod-lt h (Size-pos v.size)))

  slot_left :
      (i c : ℕ) → slot_at retired.slot i ≡ some c → (hash s h ≢ i) × (slot_at s.slot i ≡ some c)
  slot_left i c e = elim (ℕ_discrete (hash s h) i) [
    | yes q ↦ absurd (some-ne-none e (ap (slot_at retired.slot) (sym q) ∙ slot_gone))
    | no q ↦ (q, sym (get_or-set_ne s.slot (hash s h) i none none q) ∙ e)
  ]

  retired-IsValid : IsValid handles retired
  retired-IsValid = record {
    size = v.size;
    len = length-set s.slot (hash s h) none ∙ v.len;
    home = λ i c e. v.home i c (slot_left i c e).1;
    harbor = v.harbor;
  }

  grab-retired_self : grab handles retired h ≡ none
  unfolding grab
  grab-retired_self = rw (slot_gone, grab)

  grab-retired_ne : (g : ℕ) → g ≢ h → grab handles retired g ≡ grab handles s g
  grab-retired_ne g ne =
      option_ext
        (λ c e.
          let (at, is) = (grab_iff handles retired g c).0 e in
          (grab_iff handles s g c).1 ((slot_left (hash s g) c at).1, is))
        (λ c e.
          let (at, is) = (grab_iff handles s g c).0 e in
          let (own, is_h) = (grab_iff handles s h ctx).0 mine in
          let apart = λ (q : hash s h ≡ hash s g).
            ne
              (sym is ∙ ap handles (some-eq (sym at ∙ ap (slot_at s.slot) (sym q) ∙ own)) ∙ is_h) in
          (grab_iff handles retired g c).1
            (get_or-set_ne s.slot (hash s h) (hash s g) none none apart ∙ at, is))

-- In a table in order, retiring a handle releases the context that it names, if there is one; the handle then names none,
-- every other handle names what it did, and the table is in order.
pub retire_lem :
    {handles : ℕ → ℕ} {s : Storage} (h : ℕ)
    → IsValid handles s
    → let (released, t) = retire handles s h in
      (released ≡ grab handles s h)
      × IsValid handles t
      × (grab handles t h ≡ none)
      × ((g : ℕ) → g ≢ h → grab handles t g ≡ grab handles s g)
unfolding retire
retire_lem {handles} {s} h v = elim (Option-cases (grab handles s h)) [
  | inl e ↦ rw (e, retire) (refl, v, e, λ g ne. refl)
  | inr (c, e) ↦
      rw (e, retire)
        (refl, retired-IsValid h c v e, grab-retired_self h c v e, grab-retired_ne h c v e)
]

pub init_lem :
    (handles : ℕ → ℕ) (harbor : ℕ)
    → IsValid handles (init harbor) × ((h : ℕ) → grab handles (init harbor) h ≡ none)
unfolding init grab
init_lem handles harbor = (
  record {
    size = (2, refl, omega arith);
    len = length-replicate {A = Option ℕ} default_slot_size none;
    home = λ i c e. absurd (some-ne-none e (get_or-replicate default_slot_size i none));
    harbor = (harbor % 256, refl);
  },
  λ h.
      rw (get_or-replicate {A = Option ℕ} default_slot_size (h % default_slot_size) none, grab)
        refl,
)

-- Registration that succeeds had room.
pub register_room :
    (handles : ℕ → ℕ) (s : Storage) (ctx : ℕ) {r : ℕ × Storage}
    → register handles s ctx ≡ some r
    → (find_free s s.slot_size 0 ≢ none) ⊎ (s.slot_size * 2 ≤ 2 ^ 24)
unfolding register register_loop expand
register_room handles s ctx e = elim (Option-cases (find_free s s.slot_size 0)) [
  | inr (h, f) ↦ inl (some-ne-none f)
  | inl f ↦ elim (dec_lt (2 ^ 24) (s.slot_size * 2)) [
    | no l ↦ inr (omega arith)
    | yes l ↦
        let big : leb (s.slot_size * 2 - 1) (handle_space - 1) ≡ false = leb_no _ _ (omega arith) in
        let no : register handles s ctx ≡ none =
          rw (f, register, register_loop) (rw (big, expand) refl) in
        absurd (some-ne-none e no)
  ]
]
