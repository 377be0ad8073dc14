-- ===== src/HashId/Insert.antt =====
-- Putting an id into the table, and the empty table.
use jump.Base.{
  ℕ, zero, suc, ◌+◌, ◌%◌, ◌^◌, ◌≤◌, ◌<◌, ◌≡◌, ◌≢◌, ◌↔◌, inl, inr, refl, sym, ap, subst, ◌∙◌, List,
  ◌∷◌, none, some, arith, count, ◌&&◌, ◌==◌, if◌then◌else◌, false, ==_iff, ==_no, ℕ_discrete,
  update, update_self, update_ne, Option-cases, some-eq, some-ne-none, reach_slot,
}
use native.Mathlib.Nat.{mod-lt}
use jump.HashId.{HashidNode, Hashid, bucket, lookup, find_place, insert_at, insert, full}
use jump.HashId.Chains.{
  Chain, wanted, used, used_more, Chain-update, same_lookup, IsValid, lookup_iff,
}

find_place-some :
    (rounds : ℕ) (hi : Hashid) (i id : ℕ) {c : ℕ}
    → 0 < hi.cap
    → find_place rounds hi i id ≡ some c
    → ((hi.nodes c).id ≡ none) × (c < hi.cap)
unfolding find_place
find_place-some zero hi i id p e = cc
find_place-some (suc rounds) hi i id {c} p e =
    ground (arith, find_place-some rounds hi (i + 1) id {c = c}, mod-lt (i + id) {m = hi.cap})

find_place-none :
    (rounds : ℕ) (hi : Hashid) (i id r : ℕ)
    → find_place rounds hi i id ≡ none
    → r < rounds
    → i + rounds + id ≤ 2 ^ 31
    → (hi.nodes ((i + r + id) % hi.cap)).id ≢ none
unfolding find_place
find_place-none zero hi i id r e h s = absurd (omega arith)
find_place-none (suc rounds) hi i id zero e h s =
    let z : i + 0 ≡ i = omega arith in rw z (ground arith)
find_place-none (suc rounds) hi i id (suc r) e h s =
    let z : i + suc r ≡ i + 1 + r = omega arith in
    rw z (ground (arith, find_place-none rounds hi (i + 1) id r))

all_used :
    (nodes : ℕ → HashidNode) (n : ℕ) → ((p : ℕ) → p < n → (nodes p).id ≢ none) → used nodes n ≡ n
unfolding used
all_used nodes zero h = refl
all_used nodes (suc n) h = ground (arith, h n, all_used nodes n (λ p l. h p (omega arith)))

used_le : (nodes : ℕ → HashidNode) (n : ℕ) → used nodes n ≤ n
unfolding used
used_le nodes zero = omega arith
used_le nodes (suc n) = ground (arith, used_le nodes n)

room_left : {hi : Hashid} {xs : ℕ → List ℕ} → IsValid hi xs → full hi ≡ false → hi.count < hi.cap
room_left {hi} v e = ground (arith, v.counted, used_le hi.nodes hi.cap)

-- If the table is not full, a free place is found.
place :
    {hi : Hashid} {xs : ℕ → List ℕ} (id : ℕ)
    → IsValid hi xs
    → hi.count < hi.cap
    → id + hi.cap ≤ 2 ^ 31
    → (c : ℕ) × (find_place hi.cap hi 0 id ≡ some c) × ((hi.nodes c).id ≡ none) × (c < hi.cap)
place {hi} id v room small = elim (Option-cases (find_place hi.cap hi 0 id)) [
  | inr (c, e) ↦ let (free, b) = find_place-some hi.cap hi 0 id (omega arith) e in (c, e, free, b)
  | inl e ↦
      let taken : (p : ℕ) → p < hi.cap → (hi.nodes p).id ≢ none = λ p l n.
        let (r, b, q) = reach_slot p id l in
        let z : 0 + r ≡ r = omega arith in
        find_place-none hi.cap hi 0 id r e b (omega arith)
          (ap (λ x. (hi.nodes ((x + id) % hi.cap)).id) z ∙ ap (λ x. (hi.nodes x).id) q ∙ n) in
      absurd (omega (arith, v.counted, all_used hi.nodes hi.cap taken))
]

-- What the table is after an insert.
module _ {hi : Hashid} {xs : ℕ → List ℕ} (id c : ℕ) (v : IsValid hi xs)
    (absent : (p : ℕ) → (hi.nodes p).id ≢ some id) (free : (hi.nodes c).id ≡ none)
    (low : c < hi.cap) where
  abbrev b : ℕ
  b = bucket hi id

  abbrev node : HashidNode
  node = record { id = some id; next = hi.hash (bucket hi id) }

  abbrev table : Hashid
  table = record hi {
    count = hi.count + 1;
    nodes = update hi.nodes c node;
    hash = update hi.hash b (some c);
  }

  abbrev lists : ℕ → List ℕ
  lists = update xs b (c ∷ xs b)

  id_self : (table.nodes c).id ≡ some id
  id_self = ap (λ x. x.id) (update_self hi.nodes c node)

  id_other : (p : ℕ) → p ≢ c → (table.nodes p).id ≡ (hi.nodes p).id
  id_other p ne = ap (λ x. x.id) (update_ne hi.nodes c p node (λ e. ne (sym e)))

  nowhere : (h : ℕ) → count c (xs h) ≡ 0
  nowhere h = v.stands h c ∙ ap (wanted (hi.hashmod + 1) h) free

  same_chain : (h : ℕ) → Chain table.nodes (hi.hash h) (xs h)
  same_chain h = Chain-update hi.nodes c node (hi.hash h) (xs h) (nowhere h) (v.chains h)

  chain : (h : ℕ) → Chain table.nodes (table.hash h) (lists h)
  chain h = elim (ℕ_discrete b h) [
    | yes e ↦
        subst (λ k. Chain table.nodes (table.hash k) (lists k)) e
          (rw (update_self xs b (c ∷ xs b))
            (update_self hi.hash b (some c), rw (update_self hi.nodes c node) (same_chain b)))
    | no ne ↦ rw (update_ne hi.hash b h (some c) ne, update_ne xs b h (c ∷ xs b) ne) (same_chain h)
  ]

  count-lists :
      (h p : ℕ)
      → count p (lists h) ≡ (if (b == h) && (c == p) then suc (count p (xs h)) else count p (xs h))
  unfolding count update
  count-lists h p = elim (ℕ_discrete b h) [
    | yes e ↦
        subst
          (λ k.
            count p (lists k)
            ≡ (if (b == k) && (c == p) then suc (count p (xs k)) else count p (xs k)))
          e (rw ((==_iff b b).1 refl) refl)
    | no ne ↦ rw (==_no b h ne) refl
  ]

  stands : (h p : ℕ) → count p (lists h) ≡ wanted (hi.hashmod + 1) h (table.nodes p).id
  stands h p = elim (ℕ_discrete c p) [
    | yes e ↦
        subst (λ k. count k (lists h) ≡ wanted (hi.hashmod + 1) h (table.nodes k).id) e
          (count-lists h c
            ∙ ground (arith, nowhere h)
            ∙ ap (wanted (hi.hashmod + 1) h) (sym id_self))
    | no ne ↦
        count-lists h p
        ∙ ground arith
        ∙ v.stands h p
        ∙ ap (wanted (hi.hashmod + 1) h) (sym (id_other p λ e. ne (sym e)))
  ]

  differs : (p q w : ℕ) → (table.nodes p).id ≡ some w → (table.nodes q).id ≡ some w → p ≡ q
  differs p q w e f = elim (ℕ_discrete p c) [
    | yes s ↦ elim (ℕ_discrete q c) [
      | yes t ↦ s ∙ sym t
      | no nt ↦
          absurd
            (absent q (sym (id_other q nt) ∙ f ∙ sym e ∙ ap (λ x. (table.nodes x).id) s ∙ id_self))
    ]
    | no ns ↦ elim (ℕ_discrete q c) [
      | yes t ↦
          absurd
            (absent p (sym (id_other p ns) ∙ e ∙ sym f ∙ ap (λ x. (table.nodes x).id) t ∙ id_self))
      | no nt ↦ v.distinct p q w (sym (id_other p ns) ∙ e) (sym (id_other q nt) ∙ f)
    ]
  ]

  table-IsValid : IsValid table lists
  table-IsValid = record {
    chains = chain;
    stands = stands;
    idle = λ p e. elim (ℕ_discrete p c) [
      | yes s ↦ absurd (some-ne-none id_self (ap (λ x. (table.nodes x).id) (sym s) ∙ e))
      | no ns ↦
          ap (λ x. x.next) (update_ne hi.nodes c p node (λ q. ns (sym q)))
          ∙ v.idle p (sym (id_other p ns) ∙ e)
    ];
    distinct = differs;
    inside = λ p w e. elim (ℕ_discrete p c) [
      | yes s ↦ omega (arith, s)
      | no ns ↦ v.inside p w (sym (id_other p ns) ∙ e)
    ];
    counted = omega (
      arith,
      v.counted,
      used_more hi.nodes table.nodes c id hi.cap (λ p ne. sym (id_other p ne)) free id_self low,
    );
  }

  ids : (p j : ℕ) → j ≢ id → ((table.nodes p).id ≡ some j) ↔ ((hi.nodes p).id ≡ some j)
  ids p j ne = elim (ℕ_discrete p c) [
    | yes s ↦ (
      λ e. absurd (ne (some-eq (sym e ∙ ap (λ x. (table.nodes x).id) s ∙ id_self))),
      λ e. absurd (some-ne-none (sym (ap (λ x. (hi.nodes x).id) s) ∙ e) free),
    )
    | no ns ↦ (λ e. sym (id_other p ns) ∙ e, λ e. id_other p ns ∙ e)
  ]

  runs : find_place hi.cap hi 0 id ≡ some c → insert hi id ≡ some (c, table)
  unfolding insert insert_at
  runs e = rw (e, insert) (rw (v.idle c free, insert_at) refl)

-- Let a table be in order, without the id, and not full by `hashid_full`; and let the id and the size of
-- the table be 2^31 at most in all, so that no index overflows. Then `hashid_insert` passes its
-- assertions: it gives a place that was free, the table is in order with one id more, `hashid_lookup`
-- finds the new id at that place, and every other id where it was.
pub insert_lem :
    {hi : Hashid} {xs : ℕ → List ℕ} (id : ℕ)
    → IsValid hi xs
    → full hi ≡ false
    → lookup hi id ≡ none
    → id + hi.cap ≤ 2 ^ 31
    → (c : ℕ) × (t : Hashid) × (ys : ℕ → List ℕ) × (insert hi id ≡ some (c, t))
      × IsValid t ys
      × ((hi.nodes c).id ≡ none)
      × (c < hi.cap)
      × (t.count ≡ hi.count + 1)
      × (lookup t id ≡ some c)
      × ((j : ℕ) → j ≢ id → lookup t j ≡ lookup hi j)
insert_lem {hi} {xs} id v room gone small =
    let (c, e, free, low) = place id v (room_left v room) small in
    let absent : (p : ℕ) → (hi.nodes p).id ≢ some id =
      λ p q. some-ne-none ((lookup_iff id p v).1 q) gone in
    let w = table-IsValid id c v absent free low in
    (
      c,
      table id c v absent free low,
      lists id c v absent free low,
      runs id c v absent free low e,
      w,
      free,
      low,
      refl,
      (lookup_iff id c w).1 (id_self id c v absent free low),
      λ j ne. same_lookup j w v λ p. ids id c v absent free low p j ne,
    )
