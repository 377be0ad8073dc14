-- ===== src/Service/Address/Hex.antt =====
-- The digits of a handle name that handle.
use jump.Base.{ℕ, ◌/◌, ◌%◌, ◌^◌, ◌≡◌, ◌<◌, ◌≤◌, ap, ◌∙◌, arith, some, List, ◌∷◌, ==_no, false}
use jump.Handle.Names.{Names}
use jump.Service.Address.{
  hex_digit, hex_loop, id_to_hex, is_space, skip_space, digit_value, digits_loop, skip_prefix,
  signed, after_sign, strtoul_hex, queryname, tohandle,
}

digit_value-hex_digit : (d : ℕ) → d < 16 → digit_value (hex_digit d) ≡ some d
unfolding digit_value hex_digit
digit_value-hex_digit d h = ground arith

digits_loop-hex_loop : (id : ℕ) → id < 2 ^ 32 → digits_loop 0 (hex_loop 8 id) ≡ id
unfolding digits_loop hex_loop
digits_loop-hex_loop id h =
    let v : (k : ℕ) → digit_value (hex_digit (k % 16)) ≡ some (k % 16) =
      λ k. digit_value-hex_digit (k % 16) (omega arith) in
    rw (v, v, v, v, v, v, v, v, digits_loop) (omega arith)

-- Nothing is skipped before two hexadecimal digits in capitals.
no_prefix :
    (c b : ℕ) (bs : List ℕ)
    → 48 ≤ c
    → b ≤ 70
    → strtoul_hex (c ∷ b ∷ bs) ≡ signed false (digits_loop 0 (c ∷ b ∷ bs))
unfolding strtoul_hex skip_space is_space after_sign skip_prefix
no_prefix c b bs l h =
    let space : is_space c ≡ false = ground arith in
    let prefix : skip_prefix (c ∷ b ∷ bs) ≡ c ∷ b ∷ bs = ground arith in
    rw (space, strtoul_hex, skip_space)
      (rw
        (
          ==_no c 45 (λ e. absurd (omega (arith, e))),
          ==_no c 43 (λ e. absurd (omega (arith, e))),
          after_sign,
        )
        (ap (λ s. signed false (digits_loop 0 s)) prefix))

hex_digit_range : (d : ℕ) → d < 16 → (48 ≤ hex_digit d) × (hex_digit d ≤ 70)
unfolding hex_digit
hex_digit_range d h = ground arith

strtoul_hex-hex_loop : (id : ℕ) → id < 2 ^ 32 → strtoul_hex (hex_loop 8 id) ≡ id
unfolding hex_loop signed
strtoul_hex-hex_loop id h =
    let (l, _) = hex_digit_range (id / 16 ^ 7 % 16) (omega arith) in
    let (_, u) = hex_digit_range (id / 16 ^ 6 % 16) (omega arith) in
    no_prefix (hex_digit (id / 16 ^ 7 % 16)) (hex_digit (id / 16 ^ 6 % 16)) (hex_loop 6 id) l u
    ∙ ap (signed false) (digits_loop-hex_loop id h)
    ∙ ground arith

-- The address that `id_to_hex` writes for a handle names that handle, whatever the local names are:
-- `skynet_queryname` and `tohandle` give it back.
pub queryname-id_to_hex :
    (names : Names) (handle : ℕ)
    → handle < 2 ^ 32
    → (queryname names (id_to_hex handle) ≡ handle) × (tohandle names (id_to_hex handle) ≡ handle)
unfolding queryname tohandle id_to_hex
queryname-id_to_hex names handle h =
    let e : strtoul_hex (hex_loop 8 handle) % 2 ^ 32 ≡ handle =
      ap (λ x. x % 2 ^ 32) (strtoul_hex-hex_loop handle h) ∙ omega arith in
    (e, e)
