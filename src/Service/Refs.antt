-- ===== src/Service/Refs.antt =====
-- The count in each context is the number of its references, whatever a step does.
use jump.Base.{
  suc, true, ◌%◌, ◌^◌, Option-cases, inl, inr, at_update, length-remove_lem, count-cons_self,
  count-cons_ne, ℕ, ◌+◌, ◌-◌, ◌≤◌, ◌≡◌, ◌≢◌, refl, sym, ap, subst, ◌∙◌, Option, none, some, List,
  ◌∷◌, arith, length, count, remove, count-remove_self, count-remove_ne, update, update_self,
  update_ne, ◌==◌, ==_iff, ==_no, if◌then◌else◌, some-ne-none, ℕ_discrete,
}
use jump.Handle.{Storage, grab, retire, slot_at, hash}
use jump.Handle.Table.{IsValid, Absent, grab_iff}
use jump.Handle.Register.{Registers, retire_lem}
use jump.Handle.Names.{Names}
use jump.Mq.Memory.{Memory}
use jump.Service.{
  Node, Context, new_context, with_context, without_context, write_context, slot_alive, uncounted,
}

abbrev pub names_it : Option ℕ → ℕ → ℕ
names_it none p = 0
names_it (some c) p = if c == p then 1 else 0

-- The reference that the table has
abbrev pub stored : (ℕ → ℕ) → Storage → ℕ → ℕ
stored handles s p = names_it (grab handles s (handles p)) p

abbrev pub ref_of : Option Context → ℕ
ref_of none = 0
ref_of (some c) = c.ref

abbrev pub present : Option Context → ℕ
present none = 0
present (some c) = 1

pub record Refs (n : Node) (refs alive : List ℕ) (reserves : ℕ) : Type 0 where
  pub table : IsValid n.handle n.storage
  pub counts : (p : ℕ) → ref_of (n.context p) ≡ count p refs + stored n.handle n.storage p
  pub positive : (p : ℕ) (c : Context) → n.context p ≡ some c → 1 ≤ c.ref
  pub living : (p : ℕ) → count p alive ≡ present (n.context p)
  pub total : (n.total + reserves) % 2 ^ 32 ≡ length alive % 2 ^ 32

pub names_it_self : (p : ℕ) {o : Option ℕ} → o ≡ some p → names_it o p ≡ 1
names_it_self p e = rw e (rw ((==_iff p p).1 refl) refl)

names_it_ne : (p : ℕ) {o : Option ℕ} {c : ℕ} → o ≡ some c → c ≢ p → names_it o p ≡ 0
names_it_ne p {c = c} e ne = rw e (rw (==_no c p ne) refl)

pub names_it-none : (p : ℕ) {o : Option ℕ} → o ≡ none → names_it o p ≡ 0
names_it-none p e = rw e refl

-- A context without references is not in the table.
pub free-Absent :
    {n : Node} {refs alive : List ℕ} {reserves : ℕ} (p : ℕ)
    → Refs n refs alive reserves
    → n.context p ≡ none
    → (count p refs ≡ 0) × (stored n.handle n.storage p ≡ 0) × Absent n.storage p
free-Absent {n} {refs} p r e =
    let z : count p refs + stored n.handle n.storage p ≡ 0 = sym (r.counts p) ∙ ap ref_of e in
    (
      omega (arith, z),
      omega (arith, z),
      λ i at.
          let home = r.table.home i p at in
          let found = names_it_self p (
            (grab_iff n.handle n.storage (n.handle p) p).1
              (ap (slot_at n.storage.slot) home ∙ at, refl)) in
          absurd (omega (arith, z, found)),
    )

-- The table and the handles after a registration keep what the other contexts had.
new-stored :
    {handles : ℕ → ℕ} {s t : Storage} {ctx h : ℕ} (q : ℕ)
    → Registers handles s ctx h t
    → ctx ≢ q
    → stored (update handles ctx h) t q ≡ stored handles s q
new-stored {handles} {s} {t} {ctx} {h} q r ne =
    let own = update_ne handles ctx q h ne in
    ap (λ x. names_it (grab (update handles ctx h) t x) q) own ∙ elim (ℕ_discrete (handles q) h) [
      | yes e ↦
          names_it_ne q (ap (grab (update handles ctx h) t) e ∙ r.found) ne
          ∙ sym (names_it-none q (ap (grab handles s) e ∙ r.fresh))
      | no e ↦ ap (λ o. names_it o q) (r.others (handles q) e)
    ]

new-stored_self :
    {handles : ℕ → ℕ} {s t : Storage} {ctx h : ℕ}
    → Registers handles s ctx h t
    → stored (update handles ctx h) t ctx ≡ 1
new-stored_self {handles} {s} {t} {ctx} {h} r =
    names_it_self ctx (ap (grab (update handles ctx h) t) (update_self handles ctx h) ∙ r.found)

-- A new context has the reference of the table and that of its creator.
pub new-Refs :
    {n : Node} {refs alive : List ℕ} {reserves : ℕ} (p q h : ℕ) (t : Storage)
    → Refs n refs alive reserves
    → n.context p ≡ none
    → Registers n.handle n.storage p h t
    → Refs (with_context n p q (h, t)) (p ∷ refs) (p ∷ alive) reserves
new-Refs {n} {refs} {alive} p q h t r free g =
    let (no_ref, no_name, _) = free-Absent p r free in
    record {
      table = g.valid;
      counts =
          at_update (λ k o. ref_of o ≡ count k (p ∷ refs) + stored (update n.handle p h) t k)
            n.context p (some (new_context q))
            (omega (arith, no_ref, new-stored_self g, count-cons_self p refs))
            (λ k ne. omega (arith, r.counts k, new-stored k g ne, count-cons_ne p k refs ne));
      positive =
          at_update (λ k o. (c : Context) → o ≡ some c → 1 ≤ c.ref) n.context p
            (some (new_context q)) (λ c e. omega (arith, ap ref_of e)) (λ k ne. r.positive k);
      living =
          at_update (λ k o. count k (p ∷ alive) ≡ present o) n.context p (some (new_context q))
            (omega (arith, count-cons_self p alive, r.living p ∙ ap present free))
            (λ k ne. count-cons_ne p k alive ne ∙ r.living k);
      total = omega (arith, r.total);
    }

-- The context in a slot of the table is allocated.
pub slots-alive :
    {n : Node} {refs alive : List ℕ} {reserves : ℕ} (h : ℕ)
    → Refs n refs alive reserves
    → slot_alive n h ≡ true
unfolding slot_alive
slots-alive {n} h r = elim (Option-cases (slot_at n.storage.slot (hash n.storage h))) [
  | inl z ↦ rw (z, slot_alive) refl
  | inr (p, z) ↦ elim (Option-cases (n.context p)) [
    | inl e ↦ absurd ((free-Absent p r e).2 (hash n.storage h) z)
    | inr (c, e) ↦ rw (z, slot_alive) (rw e refl)
  ]
]

-- One more is reserved, and not counted.
pub reserve-Refs :
    {n : Node} {refs alive : List ℕ} {reserves : ℕ}
    → Refs n refs alive reserves
    → Refs (uncounted n) refs alive (suc reserves)
reserve-Refs r = record {
  table = r.table;
  counts = r.counts;
  positive = r.positive;
  living = r.living;
  total = omega (arith, r.total);
}

-- A reference more, for a context that has one already
pub grab-Refs :
    {n : Node} {refs alive : List ℕ} {reserves : ℕ} (p : ℕ) {c : Context}
    → Refs n refs alive reserves
    → n.context p ≡ some c
    → Refs (write_context n p (record c { ref = c.ref + 1 })) (p ∷ refs) alive reserves
grab-Refs {n} {refs} {alive} p {c} r e = record {
  table = r.table;
  counts =
      at_update (λ k o. ref_of o ≡ count k (p ∷ refs) + stored n.handle n.storage k) n.context p
        (some (record c { ref = c.ref + 1 }))
        (omega (arith, r.counts p, ap ref_of e, count-cons_self p refs))
        (λ k ne. omega (arith, r.counts k, count-cons_ne p k refs ne));
  positive =
      at_update (λ k o. (d : Context) → o ≡ some d → 1 ≤ d.ref) n.context p
        (some (record c { ref = c.ref + 1 })) (λ d f. omega (arith, ap ref_of f))
        (λ k ne. r.positive k);
  living =
      at_update (λ k o. count k alive ≡ present o) n.context p (some (record c { ref = c.ref + 1 }))
        (r.living p ∙ ap present e) (λ k ne. r.living k);
  total = r.total;
}

-- The count stays as it is.
pub field-Refs :
    {n : Node} {refs alive : List ℕ} {reserves : ℕ} (p : ℕ) {c : Context} (d : Context)
    → Refs n refs alive reserves
    → n.context p ≡ some c
    → d.ref ≡ c.ref
    → Refs (write_context n p d) refs alive reserves
field-Refs {n} {refs} {alive} p {c} d r e same = record {
  table = r.table;
  counts =
      at_update (λ k o. ref_of o ≡ count k refs + stored n.handle n.storage k) n.context p (some d)
        (omega (arith, r.counts p, ap ref_of e)) (λ k ne. r.counts k);
  positive =
      at_update (λ k o. (d : Context) → o ≡ some d → 1 ≤ d.ref) n.context p (some d)
        (λ x f. omega (arith, ap ref_of f, r.positive p c e)) (λ k ne. r.positive k);
  living =
      at_update (λ k o. count k alive ≡ present o) n.context p (some d) (r.living p ∙ ap present e)
        (λ k ne. r.living k);
  total = r.total;
}

-- A reference less, where it is not the last
pub drop-Refs :
    {n : Node} {refs alive : List ℕ} {reserves : ℕ} (p : ℕ) {c : Context}
    → Refs n refs alive reserves
    → n.context p ≡ some c
    → c.ref ≢ 1
    → 1 ≤ count p refs
    → Refs (write_context n p (record c { ref = c.ref - 1 })) (remove p refs) alive reserves
drop-Refs {n} {refs} {alive} p {c} r e more has = record {
  table = r.table;
  counts =
      at_update (λ k o. ref_of o ≡ count k (remove p refs) + stored n.handle n.storage k) n.context
        p (some (record c { ref = c.ref - 1 }))
        (omega (arith, r.counts p, ap ref_of e, count-remove_self p refs, has))
        (λ k ne. omega (arith, r.counts k, count-remove_ne p k refs ne));
  positive =
      at_update (λ k o. (d : Context) → o ≡ some d → 1 ≤ d.ref) n.context p
        (some (record c { ref = c.ref - 1 })) (λ d f. omega (arith, ap ref_of f, r.positive p c e))
        (λ k ne. r.positive k);
  living =
      at_update (λ k o. count k alive ≡ present o) n.context p (some (record c { ref = c.ref - 1 }))
        (r.living p ∙ ap present e) (λ k ne. r.living k);
  total = r.total;
}

-- The last reference
pub delete-Refs :
    {n : Node} {refs alive : List ℕ} {reserves : ℕ} (p : ℕ) {c : Context} (mem : Memory)
    → Refs n refs alive reserves
    → n.context p ≡ some c
    → c.ref ≡ 1
    → 1 ≤ count p refs
    → Refs (without_context n p mem) (remove p refs) (remove p alive) reserves
delete-Refs {n} {refs} {alive} p {c} mem r e last has =
    let there : count p alive ≡ 1 = r.living p ∙ ap present e in
    record {
      table = r.table;
      counts =
          at_update (λ k o. ref_of o ≡ count k (remove p refs) + stored n.handle n.storage k)
            n.context p none (omega (arith, r.counts p, ap ref_of e, count-remove_self p refs, has))
            (λ k ne. omega (arith, r.counts k, count-remove_ne p k refs ne));
      positive =
          at_update (λ k o. (d : Context) → o ≡ some d → 1 ≤ d.ref) n.context p none
            (λ d f. absurd (some-ne-none f refl)) (λ k ne. r.positive k);
      living =
          at_update (λ k o. count k (remove p alive) ≡ present o) n.context p none
            (omega (arith, there, count-remove_self p alive))
            (λ k ne. count-remove_ne p k alive ne ∙ r.living k);
      total = omega (arith, r.total, there, length-remove_lem p alive);
    }

-- The other contexts keep their names when the context `p` loses the handle `h`.
other_name :
    (handles : ℕ → ℕ) (s t : Storage) (h p k : ℕ)
    → grab handles s h ≡ some p
    → grab handles t h ≡ none
    → ((g : ℕ) → g ≢ h → grab handles t g ≡ grab handles s g)
    → p ≢ k
    → stored handles t k ≡ stored handles s k
other_name handles s t h p k own gone same ne = elim (ℕ_discrete (handles k) h) [
  | yes e ↦
      names_it-none k (ap (grab handles t) e ∙ gone)
      ∙ sym (names_it_ne k (ap (grab handles s) e ∙ own) ne)
  | no e ↦ ap (λ o. names_it o k) (same (handles k) e)
]

-- The reference of the table goes to a thread.
pub take-Refs :
    {n : Node} {refs alive : List ℕ} {reserves : ℕ} (p h : ℕ) (names : Names) (t : Storage)
    → Refs n refs alive reserves
    → retire n.handle n.storage h ≡ (some p, t)
    → Refs (record n { storage = t; names = names }) (p ∷ refs) alive reserves
take-Refs {n} {refs} p h names t r e =
    let (own, valid, gone, same) =
      subst
        (λ (x : Option ℕ × Storage).
          (x.0 ≡ grab n.handle n.storage h)
          × IsValid n.handle x.1
          × (grab n.handle x.1 h ≡ none)
          × ((g : ℕ) → g ≢ h → grab n.handle x.1 g ≡ grab n.handle n.storage g))
        e (retire_lem h r.table) in
    let mine : n.handle p ≡ h = ((grab_iff n.handle n.storage h p).0 (sym own)).1 in
    let had : stored n.handle n.storage p ≡ 1 =
      names_it_self p (ap (grab n.handle n.storage) mine ∙ sym own) in
    let lost : stored n.handle t p ≡ 0 = names_it-none p (ap (grab n.handle t) mine ∙ gone) in
    record {
      table = valid;
      counts = λ k. elim (ℕ_discrete p k) [
        | yes q ↦
            subst (λ x. ref_of (n.context x) ≡ count x (p ∷ refs) + stored n.handle t x) q
              (omega (arith, r.counts p, had, lost, count-cons_self p refs))
        | no ne ↦ omega (
          arith,
          r.counts k,
          count-cons_ne p k refs ne,
          other_name n.handle n.storage t h p k (sym own) gone same ne,
        )
      ];
      positive = r.positive;
      living = r.living;
      total = r.total;
    }

-- The queues are of no concern.
pub mem-Refs :
    {n : Node} {refs alive : List ℕ} {reserves : ℕ} (mem : Memory)
    → Refs n refs alive reserves
    → Refs (record n { mem = mem }) refs alive reserves
mem-Refs mem r = record {
  table = r.table;
  counts = r.counts;
  positive = r.positive;
  living = r.living;
  total = r.total;
}
