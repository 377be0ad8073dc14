-- ===== src/Netpack/Pack.antt =====
-- Packets that `lpack` makes, cut again.
use jump.Base.{
  ℕ, ◌+◌, ◌*◌, ◌/◌, ◌%◌, ◌^◌, ◌<◌, ◌≤◌, ◌≡◌, refl, ◌∙◌, List, [], ◌∷◌, ◌++◌, arith, false, length,
  length-append, take-append, drop-append, take_all, drop_all, ltb, ltb_no, ◌==◌, if◌then◌else◌,
  Bool-cases, inl, inr, none, some, lt→ltb,
}
use jump.Netpack.{write_size, pack}
use jump.Netpack.Frames.{frames, packet_first, frames_cons}

-- Behind a header that fits, the packet is cut as it was.
header_cut :
    (a b : ℕ) (bytes ys : List ℕ)
    → a * 2 ^ 8 + b ≡ length bytes
    → frames (a ∷ b ∷ (bytes ++ ys)) ≡ packet_first bytes (frames ys)
header_cut a b bytes ys e =
    let n = a * 2 ^ 8 + b in
    let enough : n ≤ length bytes = omega (arith, e) in
    let long : ltb (length (bytes ++ ys)) n ≡ false =
      ground (arith, length-append bytes ys, enough) in
    frames_cons a b (bytes ++ ys)
    ∙ rw
        (
          long,
          take-append n bytes ys enough,
          drop-append n bytes ys enough,
          take_all n bytes (omega (arith, e)),
          drop_all n bytes (omega (arith, e)),
        )
        refl

-- A header of zeros is a packet without bytes.
zeros_cut : (xs : List ℕ) → frames (0 ∷ 0 ∷ xs) ≡ packet_first [] (frames xs)
zeros_cut xs = frames_cons 0 0 xs ∙ ground arith

-- `lpack` refuses more than 65536 bytes. What it makes of fewer than 65536, whatever follows on the
-- stream, is cut to the same bytes again; but 65536 bytes, which it takes, get the length 0, so that
-- they are cut as if there were only an empty packet before them.
pub pack_lem :
    (bytes ys : List ℕ)
    → (0x10000 < length bytes → pack bytes ≡ none)
      × (length bytes ≤ 0x10000
          → (p : List ℕ) × (pack bytes ≡ some p)
            × (frames (p ++ ys) ≡ (
                if length bytes == 0x10000
                then packet_first [] (frames (bytes ++ ys))
                else packet_first bytes (frames ys))))
unfolding pack write_size
pack_lem bytes ys = (
  λ big. rw (lt→ltb _ _ big, pack) refl,
  λ small. (
    write_size (length bytes) ++ bytes,
    rw (ltb_no _ _ small, pack) refl,
    elim (Bool-cases (length bytes == 0x10000)) [
      | inl e ↦
          let all : length bytes ≡ 0x10000 = ground (arith, e) in
          rw (e, all) (zeros_cut (bytes ++ ys))
      | inr e ↦ rw e (
          header_cut (length bytes / 2 ^ 8 % 2 ^ 8) (length bytes % 2 ^ 8) bytes ys
            (ground (arith, e)))
    ],
  ),
)
