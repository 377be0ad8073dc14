-- ===== src/Handle/Hash.antt =====
-- Handles modulo the size of the table, a power of two.
use Prim.Native.Nat.{◌∣◌}
use native.Mathlib.Nat.{mod-mod_of_dvd, dvd-mul_left, pow-suc, add-mul-mod_self_right}
use jump.Base.{
  ℕ, zero, suc, ◌+◌, ◌-◌, ◌*◌, ◌%◌, ◌^◌, ◌≡◌, ◌≤◌, ◌<◌, ap, sym, ◌∙◌, ℕ_discrete, arith,
}

-- A power of two up to 2^24.
abbrev pub Size : ℕ → Type 0
Size n = (k : ℕ) × (n ≡ 2 ^ k) × (k ≤ 24)

two_pow : (k : ℕ) → 2 ^ suc k ≡ 2 ^ k * 2
two_pow k = pow-suc 2 k

pow_pos : (k : ℕ) → 0 < 2 ^ k
pow_pos zero = omega arith
pow_pos (suc k) = omega (arith, two_pow k, pow_pos k)

-- How often it fits.
quotient : (d k : ℕ) → d + k ≡ 24 → (c : ℕ) × (2 ^ 24 ≡ c * 2 ^ k)
quotient zero k e = let f : k ≡ 24 = omega arith in (1, rw f)
quotient (suc d) k e =
    let (c, q) = quotient d (suc k) (omega arith) in (c * 2, rw (q, two_pow k) (omega arith))

pub Size-dvd : {n : ℕ} → Size n → n ∣ 2 ^ 24
Size-dvd {n} (k, e, h) =
    let (c, q) = quotient (24 - k) k (omega arith) in rw (e, q) (dvd-mul_left (2 ^ k) c)

pub Size-pos : {n : ℕ} → Size n → 0 < n
Size-pos {n} (k, e, h) = rw e (pow_pos k)

-- Twice the size, where the handles leave room for it.
pub Size-double : {n : ℕ} → Size n → n * 2 ≤ 2 ^ 24 → Size (n * 2)
Size-double {n} (k, e, h) r = (suc k, rw e (sym (two_pow k)), small)
  where
    small : suc k ≤ 24
    small = elim (ℕ_discrete k 24) [
      | yes q ↦ absurd (let f : n ≡ 2 ^ 24 = e ∙ ap (λ x. 2 ^ x) q in omega arith)
      | no q ↦ omega arith
    ]

-- Neither the harbor nor the mask of the handles changes a slot.
pub mod_harbor : {n : ℕ} (h a : ℕ) → Size n → (h + a * 2 ^ 24) % n ≡ h % n
mod_harbor {n} h a z =
    sym (mod-mod_of_dvd n (h + a * 2 ^ 24) (Size-dvd z))
    ∙ ap (λ x. x % n) (add-mul-mod_self_right h a (2 ^ 24))
    ∙ mod-mod_of_dvd n h (Size-dvd z)

pub mod_mask : {n : ℕ} (x : ℕ) → Size n → x % 2 ^ 32 % 2 ^ 24 % n ≡ x % n
mod_mask {n} x z = ap (λ y. y % n) (omega arith) ∙ mod-mod_of_dvd n x (Size-dvd z)
