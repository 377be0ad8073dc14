-- ===== src/Service/Send/Words.antt =====
-- The word that carries the type and the size of a message.
use native.Mathlib.Nat.{pow-suc}
use jump.Base.{
  ℕ, zero, suc, ◌+◌, ◌-◌, ◌*◌, ◌/◌, ◌%◌, ◌^◌, ◌≡◌, ◌<◌, ◌≤◌, ap₂, ltb→lt, ◌∙◌, arith, ltb,
  if◌then◌else◌, Bool-cases, inl, inr,
}
use jump.Service.Send.{bit_or, shift_type, tag_size, untag}

bit_or_zero : (bits c : ℕ) → c < 2 ^ bits → bit_or bits 0 c ≡ c
unfolding bit_or
bit_or_zero zero c h = omega arith
bit_or_zero (suc bits) c h = ground (arith, bit_or_zero bits (c / 2))

-- Words that have no bit in common are added.
bit_or_apart :
    (bits k b c : ℕ)
    → b < 2 ^ k
    → b + c * 2 ^ k < 2 ^ bits
    → bit_or bits b (c * 2 ^ k) ≡ b + c * 2 ^ k
unfolding bit_or
bit_or_apart bits zero b c l h =
    let z : b ≡ 0 = omega arith in
    rw z (bit_or_zero bits (c * 2 ^ 0) (omega (arith, z)) ∙ omega arith)
bit_or_apart zero (suc k) b c l h = omega arith
bit_or_apart (suc bits) (suc k) b c l h =
    let e : c * 2 ^ suc k ≡ 2 * (c * 2 ^ k) = rw (pow-suc 2 k) (omega arith) in
    let half = bit_or_apart bits k (b / 2) c (omega arith) (omega (arith, e)) in
    let d : c * 2 ^ suc k / 2 ≡ c * 2 ^ k = omega (arith, e) in
    let p : c * 2 ^ suc k % 2 ≡ 0 = omega (arith, e) in rw (d, p, half) (ground arith)

shift_low : (type : ℕ) → type < 128 → shift_type type ≡ type * 2 ^ 24
unfolding shift_type
shift_low type h = ground arith

shift_high :
    (type : ℕ) → 128 ≤ type → type < 256 → shift_type type ≡ (type + (2 ^ 40 - 256)) * 2 ^ 24
unfolding shift_type
shift_high type l h = ground arith

-- A size below 2^24 and a type come out of the word that they were put into: the size as it was, and
-- the low byte of the type as a signed number, so that it is the type itself if that is below 128.
pub untag-tag_size :
    (type sz : ℕ)
    → sz < 2 ^ 24
    → untag (tag_size (type % 256) sz)
      ≡ (if ltb (type % 256) 128 then type % 256 else 2 ^ 32 - 256 + type % 256, sz)
unfolding untag tag_size
untag-tag_size type sz h = elim (Bool-cases (ltb (type % 256) 128)) [
  | inl e ↦
      rw (e, shift_low (type % 256) (ltb→lt _ _ e))
        (rw (bit_or_apart 64 24 sz (type % 256) h (omega arith))
          (ap₂ (λ a b. (a, b)) (omega (arith, ltb→lt _ _ e)) (omega arith)))
  | inr e ↦
      let l : 128 ≤ type % 256 = ground (arith, e) in
      rw (e, shift_high (type % 256) l (omega arith))
        (rw (bit_or_apart 64 24 sz (type % 256 + (2 ^ 40 - 256)) h (omega arith))
          (ap₂ (λ a b. (a, b)) (omega arith) (omega arith)))
]
