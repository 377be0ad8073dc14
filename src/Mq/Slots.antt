-- ===== src/Mq/Slots.antt =====
-- The slots of a ring, read round the end of the array.
use native.Mathlib.Nat.{mod-eq_of_lt, mod-eq-sub-mod}
use jump.Base.{
  ℕ, zero, suc, ◌+◌, ◌-◌, ◌%◌, ◌<◌, ◌≤◌, ◌≡◌, refl, ap, ap₂, ◌∙◌, List, [], ◌∷◌, ◌++◌, arith,
  length, get_or,
}
use jump.Mq.{Message, blank, slots}

pub mod_wrap : (a c : ℕ) → c ≤ a → a < c + c → a % c ≡ a - c
mod_wrap a c l u =
    omega (arith, mod-eq-sub-mod {n = a} {m = c} l, mod-eq_of_lt {n = a - c} {m = c} (omega arith))

-- The slot that is `j` steps from the head.
abbrev pub slot : List Message → ℕ → ℕ → ℕ → Message
slot buf cap head j = get_or buf ((head + j) % cap) blank

pub length-slots : (buf : List Message) (cap head i n : ℕ) → length (slots buf cap head i n) ≡ n
unfolding slots
length-slots buf cap head i zero = refl
length-slots buf cap head i (suc n) = ap suc (length-slots buf cap head (i + 1) n)

-- The slots are read one by one, whatever stands behind them.
pub get_or-slots :
    (buf rest : List Message) (cap head i n k : ℕ)
    → k < n
    → get_or (slots buf cap head i n ++ rest) k blank ≡ slot buf cap head (i + k)
unfolding slots
get_or-slots buf rest cap head i zero k h = elim h [ ]
get_or-slots buf rest cap head i (suc n) zero h = ap (slot buf cap head) (omega arith)
get_or-slots buf rest cap head i (suc n) (suc k) h =
    get_or-slots buf rest cap head (i + 1) n k (omega arith) ∙ ap (slot buf cap head) (omega arith)

-- Two rings that agree slot by slot hold the same messages.
pub slots_ext :
    (a b : List Message) (c d h g i j n : ℕ)
    → ((k : ℕ) → k < n → slot a c h (i + k) ≡ slot b d g (j + k))
    → slots a c h i n ≡ slots b d g j n
unfolding slots
slots_ext a b c d h g i j zero e = refl
slots_ext a b c d h g i j (suc n) e =
    ap₂ ◌∷◌ (ap (slot a c h) (omega arith) ∙ e 0 (omega arith) ∙ ap (slot b d g) (omega arith)) (
      slots_ext a b c d h g (i + 1) (j + 1) n λ k l.
        ap (slot a c h) (omega arith) ∙ e (suc k) (omega arith) ∙ ap (slot b d g) (omega arith))

pub slots_snoc :
    (buf : List Message) (cap head i n : ℕ)
    → slots buf cap head i (suc n) ≡ slots buf cap head i n ++ slot buf cap head (i + n) ∷ []
unfolding slots
slots_snoc buf cap head i zero = ap (λ j. slot buf cap head j ∷ []) (omega arith)
slots_snoc buf cap head i (suc n) = ap (◌∷◌ (slot buf cap head i)) (
    slots_snoc buf cap head (i + 1) n
    ∙ ap (λ j. slots buf cap head (i + 1) n ++ slot buf cap head j ∷ []) (omega arith))
