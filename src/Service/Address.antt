-- ===== src/Service/Address.antt =====
-- How skynet-src/skynet_server.c writes and reads the addresses of services: ":" and a handle in
-- hexadecimal digits, "." and a local name, or a global name. A string is the list of its bytes without
-- the 0 at its end.
pub mod Hex
mod Tests
use jump.Base.{
  ℕ, zero, suc, ◌+◌, ◌-◌, ◌*◌, ◌/◌, ◌%◌, ◌^◌, Bool, true, false, not, ◌&&◌, ◌||◌, List, [], ◌∷◌,
  ◌++◌, Option, none, some, ltb, leb, ◌==◌, if◌then◌else◌, ◌>>=◌, min,
}
use jump.Handle.Names.{Names, findname}
use jump.Service.Send.{
  Process, Args, dont_copy, free, minus_one, filter_args, source_of, send_remote, send,
}

-- The table `hex` of `id_to_hex`
pub hex_digit : ℕ → ℕ
hex_digit d = if ltb d 10 then 48 + d else 55 + d

-- The loop of `id_to_hex` over the digits that are left
pub hex_loop : ℕ → ℕ → List ℕ
hex_loop zero id = []
hex_loop (suc digits) id = hex_digit (id / 16 ^ digits % 16) ∷ hex_loop digits id

-- `id_to_hex`
pub id_to_hex : ℕ → List ℕ
id_to_hex id = 58 ∷ hex_loop 8 id

-- `strtoul` with base 16: white space, a sign and "0x" may stand before the digits.
is_space : ℕ → Bool
is_space b = b == 32 || leb 9 b && leb b 13

skip_space : List ℕ → List ℕ
skip_space [] = []
skip_space (b ∷ bs) = let rest = skip_space bs in if is_space b then rest else b ∷ bs

digit_value : ℕ → Option ℕ
digit_value b =
    if leb 48 b && leb b 57
    then some (b - 48)
    else (if leb 65 b && leb b 70
        then some (b - 55)
        else (if leb 97 b && leb b 102 then some (b - 87) else none))

digits_loop : ℕ → List ℕ → ℕ
digits_loop acc [] = acc
digits_loop acc (b ∷ bs) = elim (digit_value b) [
  | none ↦ acc
  | some d ↦ digits_loop (acc * 16 + d) bs
]

starts_digit : List ℕ → Bool
starts_digit [] = false
starts_digit (b ∷ bs) = elim (digit_value b) [ none ↦ false | some d ↦ true ]

skip_prefix : List ℕ → List ℕ
skip_prefix (a ∷ b ∷ bs) =
    if a == 48 && (b == 120 || b == 88) && starts_digit bs then bs else a ∷ b ∷ bs
skip_prefix bs = bs

-- The result after a sign: it is negated modulo 2^64, unless it overflows.
signed : Bool → ℕ → ℕ
signed negative v =
    if leb (2 ^ 64) v then 2 ^ 64 - 1 else (if negative then (2 ^ 64 - v) % 2 ^ 64 else v)

after_sign : List ℕ → ℕ
after_sign [] = 0
after_sign (b ∷ bs) =
    if b == 45
    then signed true (digits_loop 0 (skip_prefix bs))
    else (if b == 43
        then signed false (digits_loop 0 (skip_prefix bs))
        else signed false (digits_loop 0 (skip_prefix (b ∷ bs))))

pub strtoul_hex : List ℕ → ℕ
strtoul_hex s = after_sign (skip_space s)

-- `skynet_queryname`; 0 is the handle of no service.
pub queryname : Names → List ℕ → ℕ
queryname names [] = 0
queryname names (c ∷ name) =
    if c == 58 then strtoul_hex name % 2 ^ 32 else (if c == 46 then findname names name else 0)

-- `tohandle`
pub tohandle : Names → List ℕ → ℕ
tohandle names [] = 0
tohandle names (c ∷ param) =
    if c == 58 then strtoul_hex param % 2 ^ 32 else (if c == 46 then findname names param else 0)

-- `copy_name`: GLOBALNAME_LENGTH bytes, filled up with 0.
pub copy_name : ℕ → List ℕ → List ℕ
copy_name zero addr = []
copy_name (suc places) [] = 0 ∷ copy_name places []
copy_name (suc places) (b ∷ bs) = b ∷ copy_name places bs

abbrev pub globalname_length : ℕ
globalname_length = 16

-- `skynet_sendname` to a global name: the harbor service finds it.
pub send_global : Process → ℕ → ℕ → ℕ → ℕ → List ℕ → ℕ → Args → Option (ℕ × Process)
send_global w buf rmsg ctx source addr type a = do
  (f, v) ← filter_args w buf ctx type a
  send_remote v rmsg source (copy_name globalname_length addr) 0 f

-- `skynet_sendname`
pub sendname : Process → ℕ → ℕ → ℕ → ℕ → List ℕ → ℕ → Args → Option (ℕ × Process)
sendname w buf rmsg ctx source [] type a = do
  from ← source_of w.node ctx source
  send_global w buf rmsg ctx from [] type a
sendname w buf rmsg ctx source (c ∷ name) type a = do
  from ← source_of w.node ctx source
  if c == 58
      then send w buf rmsg ctx from (strtoul_hex name % 2 ^ 32) type a
      else (if c == 46
          then (if findname w.node.names name == 0
              then (if dont_copy type
                  then (do v ← free w a.body; some (minus_one, v))
                  else some (minus_one, w))
              else send w buf rmsg ctx from (findname w.node.names name) type a)
          else send_global w buf rmsg ctx from (c ∷ name) type a)
