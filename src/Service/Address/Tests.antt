-- ===== src/Service/Address/Tests.antt =====
-- Addresses at concrete inputs.
use jump.Base.{◌≡◌, ◌+◌, ◌-◌, ◌^◌, arith, refl, [], ◌∷◌}
use jump.Handle.Names.{no_names}
use jump.Service.Address.{
  id_to_hex, queryname, tohandle, strtoul_hex, skip_space, is_space, after_sign, skip_prefix,
  signed, digits_loop, digit_value, starts_digit, copy_name,
}
use jump.Service.Address.Hex.{queryname-id_to_hex}

-- " 0x1f" and "-1"
strtoul_hex_computes :
    (strtoul_hex (32 ∷ 48 ∷ 120 ∷ 49 ∷ 102 ∷ []) ≡ 31) × (strtoul_hex (45 ∷ 49 ∷ []) ≡ 2 ^ 64 - 1)
unfolding strtoul_hex skip_space is_space after_sign skip_prefix signed digits_loop digit_value
    starts_digit
strtoul_hex_computes = (refl, refl)

copy_name_computes : copy_name 4 (65 ∷ 66 ∷ []) ≡ 65 ∷ 66 ∷ 0 ∷ 0 ∷ []
unfolding copy_name
copy_name_computes = refl

queryname-id_to_hex_example :
    (queryname no_names (id_to_hex (2 ^ 24 + 10)) ≡ 2 ^ 24 + 10)
    × (tohandle no_names (id_to_hex (2 ^ 24 + 10)) ≡ 2 ^ 24 + 10)
queryname-id_to_hex_example = queryname-id_to_hex no_names (2 ^ 24 + 10) (omega arith)
