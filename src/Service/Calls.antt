-- ===== src/Service/Calls.antt =====
-- What the calls did that succeeded.
use mathlib.Core.Option
use jump.Base.{
  ℕ, ◌+◌, ◌-◌, ◌≡◌, ◌≢◌, refl, sym, ap, ◌∙◌, Bool, true, false, Option, none, some, ◌==◌, ==_iff,
  inl, inr, Bool-cases, Option-cases, map-some, >>=-some, some-eq, some-ne-none, arith, ◌⊎◌, ◌>>=◌,
}
use jump.Handle.{Storage, register, grab, retire}
use jump.Handle.Names.{Names, retire_all, drop_names}
use jump.Mq.{Message}
use jump.Mq.Memory.{Memory, mark_release, mq_push}
use jump.Service.{
  uncounted, slot_alive, set_init, context_reserve, Node, Context, with_context, without_context,
  write_context, context_new, context_grab, context_release, delete_context, handle_grab,
  handle_take, queue_push,
}

pub context_new-some :
    (n : Node) (p q : ℕ) {h : ℕ} {m : Node}
    → context_new n p q ≡ some (h, m)
    → (t : Storage) × (register n.handle n.storage p ≡ some (h, t))
      × (m ≡ with_context n p q (h, t))
unfolding context_new
context_new-some n p q {h} e =
    let (r, f, g) = map-some (λ r. (r.0, with_context n p q r)) (register n.handle n.storage p) e in
    let same = ap (λ x. x.0) g in
    (
      r.1,
      f ∙ ap (λ x. some (x, r.1)) same,
      ap (λ x. x.1) (sym g) ∙ ap (λ x. with_context n p q (x, r.1)) same,
    )

grabbed :
    (n : Node) (k : ℕ) {p : ℕ} {m : Node}
    → Option.map {B = Option ℕ × Node} (λ x. (some k, x)) (context_grab n k) ≡ some (some p, m)
    → (c : Context) × (n.context p ≡ some c)
      × (m ≡ write_context n p (record c { ref = c.ref + 1 }))
unfolding context_grab
grabbed n k {p} {m} f =
    let (x, y, g) = map-some {B = Option ℕ × Node} (λ x. (some k, x)) (context_grab n k) f in
    let (c, z, w) =
      >>=-some (n.context k) (λ c. some (write_context n k (record c { ref = c.ref + 1 }))) y in
    let same : k ≡ p = some-eq (ap (λ t. t.0) g) in
    (
      c,
      ap n.context (sym same) ∙ z,
      ap (λ t. t.1) (sym g)
          ∙ sym (some-eq w)
          ∙ ap (λ t. write_context n t (record c { ref = c.ref + 1 })) same,
    )

pub handle_grab-some :
    (n : Node) (h : ℕ) {p : ℕ} {m : Node}
    → handle_grab n h ≡ some (some p, m)
    → (c : Context) × (n.context p ≡ some c)
      × (m ≡ write_context n p (record c { ref = c.ref + 1 }))
unfolding handle_grab
handle_grab-some n h {p} {m} e = elim (Bool-cases (slot_alive n h)) [
  | inr dead ↦
      let f : ◌≡◌ {A = Option (Option ℕ × Node)} none (some (some p, m)) =
        sym (rw (dead, handle_grab) refl) ∙ e in
      absurd (some-ne-none f refl)
  | inl alive ↦ elim (Option-cases (grab n.handle n.storage h)) [
    | inl z ↦
        let f : some (none, n) ≡ some (some p, m) = sym (rw (alive, z, handle_grab) refl) ∙ e in
        absurd (some-ne-none (ap (λ t. t.0) (some-eq f)) refl)
    | inr (k, z) ↦ grabbed n k (sym (rw (alive, z, handle_grab) refl) ∙ e)
  ]
]

pub handle_take-some :
    (n : Node) (h : ℕ) {p : ℕ} {m : Node}
    → handle_take n h ≡ some (some p, m)
    → (t : Storage) × (names : Names) × (retire n.handle n.storage h ≡ (some p, t))
      × (m ≡ record n { storage = t; names = names })
unfolding handle_take retire_all
handle_take-some n h {p} {m} e = elim (Bool-cases (slot_alive n h)) [
  | inr dead ↦
      let f : ◌≡◌ {A = Option (Option ℕ × Node)} none (some (some p, m)) =
        sym (rw (dead, handle_take) refl) ∙ e in
      absurd (some-ne-none f refl)
  | inl alive ↦
      let t = (retire n.handle n.storage h).1 in
      let names = record n.names { entries = drop_names h n.names.entries } in
      elim (Option-cases (retire n.handle n.storage h).0) [
        | inl z ↦
            let f : ◌≡◌ {A = Option (Option ℕ × Node)} (some (none, record n { storage = t }))
                (some (some p, m)) =
              sym (rw (alive, z, handle_take, retire_all) refl) ∙ e in
            absurd (some-ne-none (ap (λ (x : Option ℕ × Node). x.0) (some-eq f)) refl)
        | inr (c, z) ↦
            let f : ◌≡◌ {A = Option (Option ℕ × Node)}
                (some (some c, record n { storage = t; names = names })) (some (some p, m)) =
              sym (rw (alive, z, handle_take, retire_all) refl) ∙ e in
            let g = some-eq f in
            (
              t,
              names,
              ap (λ x. (x, t)) (z ∙ ap (λ (x : Option ℕ × Node). x.0) g),
              sym (ap (λ (x : Option ℕ × Node). x.1) g),
            )
      ]
]

pub context_grab-some :
    (n : Node) (p : ℕ) {m : Node}
    → context_grab n p ≡ some m
    → (c : Context) × (n.context p ≡ some c)
      × (m ≡ write_context n p (record c { ref = c.ref + 1 }))
unfolding context_grab
context_grab-some n p e =
    let (c, z, w) =
      >>=-some (n.context p) (λ c. some (write_context n p (record c { ref = c.ref + 1 }))) e in
    (c, z, sym (some-eq w))

pub context_reserve-some :
    (n : Node) (p : ℕ) {m : Node}
    → context_reserve n p ≡ some m
    → (c : Context) × (n.context p ≡ some c)
      × (m ≡ uncounted (write_context n p (record c { ref = c.ref + 1 })))
unfolding context_reserve
context_reserve-some n p e =
    let (k, f, w) = map-some uncounted (context_grab n p) e in
    let (c, z, same) = context_grab-some n p f in (c, z, sym w ∙ ap uncounted same)

pub set_init-some :
    (n : Node) (p : ℕ) {m : Node}
    → set_init n p ≡ some m
    → (c : Context) × (n.context p ≡ some c) × (m ≡ write_context n p (record c { init = true }))
unfolding set_init
set_init-some n p e =
    let (c, z, w) =
      >>=-some (n.context p) (λ c. some (write_context n p (record c { init = true }))) e in
    (c, z, sym (some-eq w))

pub context_release-some :
    (n : Node) (p : ℕ) {b : Bool} {m : Node}
    → context_release n p ≡ some (b, m)
    → (c : Context) × (n.context p ≡ some c)
      × (((b ≡ true) × (c.ref ≢ 1) × (m ≡ write_context n p (record c { ref = c.ref - 1 })))
          ⊎ ((b ≡ false)
              × (c.ref ≡ 1)
              × (mem : Memory) × (mark_release n.mem c.queue ≡ some mem)
              × (m ≡ without_context n p mem)))
unfolding context_release delete_context
context_release-some n p {b} {m} e = elim (Option-cases (n.context p)) [
  | inl z ↦
      let f : ◌≡◌ {A = Option (Bool × Node)} none (some (b, m)) =
        sym (rw (z, context_release) refl) ∙ e in
      absurd (some-ne-none f refl)
  | inr (c, z) ↦ elim (Bool-cases (c.ref == 1)) [
    | inl y ↦
        let f : Option.map {B = Bool × Node} (λ x. (false, x)) (delete_context n p c)
            ≡ some (b, m) =
          sym (rw (z, context_release, ◌>>=◌) (rw (y, context_release) refl)) ∙ e in
        let (x, g, w) = map-some {B = Bool × Node} (λ x. (false, x)) (delete_context n p c) f in
        let (mem, g2, w2) = map-some (without_context n p) (mark_release n.mem c.queue) g in
        (
          c,
          z,
          inr (
            ap (λ t. t.0) (sym w),
            (==_iff c.ref 1).0 y,
            mem,
            g2,
            ap (λ t. t.1) (sym w) ∙ sym w2,
          ),
        )
    | inr y ↦
        let f : some (true, write_context n p (record c { ref = c.ref - 1 })) ≡ some (b, m) =
          sym (rw (z, context_release, ◌>>=◌) (rw (y, context_release) refl)) ∙ e in
        let w = some-eq f in
        (c, z, inl (ap (λ t. t.0) (sym w), ground (arith, y), ap (λ t. t.1) (sym w)))
  ]
]

pub queue_push-some :
    (n : Node) (p : ℕ) (m : Message) {k : Node}
    → queue_push n p m ≡ some k
    → (c : Context) × (mem : Memory) × (n.context p ≡ some c)
      × (mq_push n.mem c.queue m ≡ some mem)
      × (k ≡ record n { mem = mem })
unfolding queue_push
queue_push-some n p m e =
    let (c, z, f) =
      >>=-some (n.context p)
        (λ c. Option.map (λ mem. record n { mem = mem }) (mq_push n.mem c.queue m)) e in
    let (mem, y, g) = map-some (λ mem. record n { mem = mem }) (mq_push n.mem c.queue m) f in
    (c, mem, z, y, sym g)
