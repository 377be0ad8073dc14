-- ===== src/Timer/Slots.antt =====
-- Where nodes stand in the wheel, and how a tick changes that.
use jump.Base.{
  ℕ, ◌+◌, ◌/◌, ◌%◌, ◌^◌, ◌<◌, ◌≡◌, ◌≢◌, ◌⊎◌, ◌↔◌, inl, inr, refl, ap, sym, ℕ_discrete, some, arith,
}
use jump.Timer.{near, level, slot_of, due_list}

-- A node that is still to come: in the top block of the clock its time is after the clock's.
abbrev pub Fresh : ℕ → ℕ → Type 0
Fresh time expire = expire / 2 ^ 26 ≡ time / 2 ^ 26 → time < expire

-- A tick in the middle of a block of 256 leaves every node where it is.
slot_of_inner : (t e : ℕ) → (t + 1) % 256 ≢ 0 → slot_of (t + 1) e ≡ slot_of t e
unfolding slot_of
slot_of_inner t e h = ground arith

-- The slot by the first block size at which clock and node agree.
slot_near : (t e : ℕ) → e / 2 ^ 8 ≡ t / 2 ^ 8 → slot_of t e ≡ near (e % 256)
unfolding slot_of
slot_near t e h = ground arith

slot_0 :
    (t e : ℕ)
    → e / 2 ^ 8 ≢ t / 2 ^ 8
    → e / 2 ^ 14 ≡ t / 2 ^ 14
    → slot_of t e ≡ level 0 (e / 2 ^ 8 % 64)
unfolding slot_of
slot_0 t e h g = ground arith

slot_1 :
    (t e : ℕ)
    → e / 2 ^ 14 ≢ t / 2 ^ 14
    → e / 2 ^ 20 ≡ t / 2 ^ 20
    → slot_of t e ≡ level 1 (e / 2 ^ 14 % 64)
unfolding slot_of
slot_1 t e h g = ground arith

slot_2 :
    (t e : ℕ)
    → e / 2 ^ 20 ≢ t / 2 ^ 20
    → e / 2 ^ 26 ≡ t / 2 ^ 26
    → slot_of t e ≡ level 2 (e / 2 ^ 20 % 64)
unfolding slot_of
slot_2 t e h g = ground arith

slot_3 : (t e : ℕ) → e / 2 ^ 26 ≢ t / 2 ^ 26 → slot_of t e ≡ level 3 (e / 2 ^ 26 % 64)
unfolding slot_of
slot_3 t e h = ground arith

-- The list to move by the largest block that the tick begins.
due_0 : (c : ℕ) → c % 2 ^ 8 ≡ 0 → c / 2 ^ 8 % 64 ≢ 0 → due_list c ≡ some (level 0 (c / 2 ^ 8 % 64))
unfolding due_list
due_0 c h g = ground arith

due_1 :
    (c : ℕ) → c % 2 ^ 14 ≡ 0 → c / 2 ^ 14 % 64 ≢ 0 → due_list c ≡ some (level 1 (c / 2 ^ 14 % 64))
unfolding due_list
due_1 c h g = ground arith

due_2 :
    (c : ℕ) → c % 2 ^ 20 ≡ 0 → c / 2 ^ 20 % 64 ≢ 0 → due_list c ≡ some (level 2 (c / 2 ^ 20 % 64))
unfolding due_list
due_2 c h g = ground arith

due_3 :
    (c : ℕ) → c % 2 ^ 26 ≡ 0 → c / 2 ^ 26 % 64 ≢ 0 → due_list c ≡ some (level 3 (c / 2 ^ 26 % 64))
unfolding due_list
due_3 c h g = ground arith

-- Two clocks that share every block with the node, or none, put it in one slot.
slot_same :
    (t c e : ℕ)
    → (e / 2 ^ 8 ≡ c / 2 ^ 8) ↔ (e / 2 ^ 8 ≡ t / 2 ^ 8)
    → (e / 2 ^ 14 ≡ c / 2 ^ 14) ↔ (e / 2 ^ 14 ≡ t / 2 ^ 14)
    → (e / 2 ^ 20 ≡ c / 2 ^ 20) ↔ (e / 2 ^ 20 ≡ t / 2 ^ 20)
    → (e / 2 ^ 26 ≡ c / 2 ^ 26) ↔ (e / 2 ^ 26 ≡ t / 2 ^ 26)
    → slot_of c e ≡ slot_of t e
unfolding slot_of
slot_same t c e p q r s = ground arith

abbrev pub Moves : ℕ → ℕ → ℕ → Type 0
Moves t c e = (slot_of c e ≡ slot_of t e) ⊎ (due_list c ≡ some (slot_of t e))

tick_0 : (t e : ℕ) → Fresh t e → (t + 1) % 2 ^ 8 ≡ 0 → (t + 1) / 2 ^ 8 % 64 ≢ 0 → Moves t (t + 1) e
tick_0 t e f h g = elim (ℕ_discrete (e / 2 ^ 8) ((t + 1) / 2 ^ 8)) [
  | yes s ↦ inr (
      rw (due_0 (t + 1) h g, slot_0 t e (omega arith) (omega arith))
        (ap (λ x. some (level 0 (x % 64))) (sym s)))
  | no s ↦ inl (slot_same t (t + 1) e (omega arith) (omega arith) (omega arith) (omega arith))
]

tick_1 :
    (t e : ℕ) → Fresh t e → (t + 1) % 2 ^ 14 ≡ 0 → (t + 1) / 2 ^ 14 % 64 ≢ 0 → Moves t (t + 1) e
tick_1 t e f h g = elim (ℕ_discrete (e / 2 ^ 14) ((t + 1) / 2 ^ 14)) [
  | yes s ↦ inr (
      rw (due_1 (t + 1) h g, slot_1 t e (omega arith) (omega arith))
        (ap (λ x. some (level 1 (x % 64))) (sym s)))
  | no s ↦ inl (slot_same t (t + 1) e (omega arith) (omega arith) (omega arith) (omega arith))
]

tick_2 :
    (t e : ℕ) → Fresh t e → (t + 1) % 2 ^ 20 ≡ 0 → (t + 1) / 2 ^ 20 % 64 ≢ 0 → Moves t (t + 1) e
tick_2 t e f h g = elim (ℕ_discrete (e / 2 ^ 20) ((t + 1) / 2 ^ 20)) [
  | yes s ↦ inr (
      rw (due_2 (t + 1) h g, slot_2 t e (omega arith) (omega arith))
        (ap (λ x. some (level 2 (x % 64))) (sym s)))
  | no s ↦ inl (slot_same t (t + 1) e (omega arith) (omega arith) (omega arith) (omega arith))
]

tick_3 :
    (t e : ℕ)
    → e < 2 ^ 32
    → Fresh t e
    → (t + 1) % 2 ^ 26 ≡ 0
    → (t + 1) / 2 ^ 26 % 64 ≢ 0
    → Moves t (t + 1) e
tick_3 t e b f h g = elim (ℕ_discrete (e / 2 ^ 26) ((t + 1) / 2 ^ 26)) [
  | yes s ↦
      inr (
        rw (due_3 (t + 1) h g, slot_3 t e (omega arith))
          (ap (λ x. some (level 3 (x % 64))) (sym s)))
  | no s ↦ inl (slot_same t (t + 1) e (omega arith) (omega arith) (omega arith) (omega arith))
]

-- The clock wraps round.
tick_wrap : (t e : ℕ) → e < 2 ^ 32 → Fresh t e → t + 1 ≡ 2 ^ 32 → Moves t 0 e
unfolding due_list
tick_wrap t e b f h = elim (ℕ_discrete (e / 2 ^ 26) 0) [
  | yes s ↦ inr (rw (slot_3 t e (omega arith), s))
  | no s ↦ inl (slot_same t 0 e (omega arith) (omega arith) (omega arith) (omega arith))
]

tick_outer :
    (t e : ℕ) → e < 2 ^ 32 → t + 1 < 2 ^ 32 → Fresh t e → (t + 1) % 2 ^ 8 ≡ 0 → Moves t (t + 1) e
tick_outer t e b c f h = elim (ℕ_discrete ((t + 1) / 2 ^ 8 % 64) 0) [
  | no g ↦ tick_0 t e f h g
  | yes i ↦ elim (ℕ_discrete ((t + 1) / 2 ^ 14 % 64) 0) [
    | no g ↦ tick_1 t e f (omega arith) g
    | yes j ↦ elim (ℕ_discrete ((t + 1) / 2 ^ 20 % 64) 0) [
      | no g ↦ tick_2 t e f (omega arith) g
      | yes k ↦ tick_3 t e b f (omega arith) (omega arith)
    ]
  ]
]

abbrev pub tick : ℕ → ℕ
tick t = (t + 1) % 2 ^ 32

-- A node that is still to come moves at a tick only if it stands in the list that the tick moves.
pub slot_of_tick : (t e : ℕ) → t < 2 ^ 32 → e < 2 ^ 32 → Fresh t e → Moves t (tick t) e
slot_of_tick t e a b f = elim (ℕ_discrete (t + 1) (2 ^ 32)) [
  | yes w ↦ rw w (tick_wrap t e b f w)
  | no n ↦
      let i : tick t ≡ t + 1 = omega arith in
      rw i (elim (ℕ_discrete ((t + 1) % 2 ^ 8) 0) [
        | yes h ↦ tick_outer t e b (omega arith) f h
        | no h ↦ inl (slot_of_inner t e h)
      ])
]

-- The list of `near` that a tick runs holds the nodes of that tick only.
pub near_due : (t e : ℕ) → slot_of t e ≡ near (t % 256) → e ≡ t
unfolding slot_of
near_due t e h = ground arith

pub due_near : (t e : ℕ) → e ≡ t → slot_of t e ≡ near (t % 256)
due_near t e h = rw h (slot_near t t refl)
