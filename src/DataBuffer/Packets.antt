-- ===== src/DataBuffer/Packets.antt =====
-- The peer sends packets, each with its length before it, and the gate gets these packets.
use jump.Base.{
  drop_more, take_more, ℕ, zero, suc, ◌+◌, ◌*◌, ◌/◌, ◌%◌, ◌^◌, ◌<◌, ◌≡◌, refl, ap, subst, ◌∙◌,
  false, List, [], ◌∷◌, ◌++◌, append-nil, some, none, arith, length, length-append, ltb_no, leb_no,
}
use jump.DataBuffer.{MessagePool, Dispatched, big_endian, zeroed}
use jump.DataBuffer.Read.{body, contents}
use jump.DataBuffer.Frames.{cut, next, incomplete}
use jump.DataBuffer.Dispatch.{Agrees, zeroed-IsValid}
use jump.DataBuffer.Stream.{concat, feed, feed_lem, settle_without_header}

-- The two header sizes that a gate takes, and their bytes
pub data HeaderSize : Type 0 where
  two : HeaderSize
  four : HeaderSize

abbrev pub width : HeaderSize → ℕ
width two = 2
width four = 4

abbrev pub header_bytes : HeaderSize → ℕ → List ℕ
header_bytes two n = n / 2 ^ 8 ∷ n % 2 ^ 8 ∷ []
header_bytes four n = n / 2 ^ 24 ∷ n / 2 ^ 16 % 2 ^ 8 ∷ n / 2 ^ 8 % 2 ^ 8 ∷ n % 2 ^ 8 ∷ []

width_pos : (h : HeaderSize) → 0 < width h
width_pos two = omega arith
width_pos four = omega arith

-- What the peer sends
abbrev pub stream : HeaderSize → List (List ℕ) → List ℕ
stream h [] = []
stream h (packet ∷ packets) = header_bytes h (length packet) ++ (packet ++ stream h packets)

-- A packet is not empty, is below 16M, and its length fits the header.
abbrev pub Fits : HeaderSize → List (List ℕ) → Type 0
Fits h [] = Unit {0}
Fits h (packet ∷ packets) =
    (0 < length packet)
    × (length packet < 0x1000000)
    × (length packet < 2 ^ (8 * width h))
    × Fits h packets

header_lem :
    (h : HeaderSize) (n : ℕ) (xs : List ℕ)
    → n < 2 ^ (8 * width h)
    → next (width h) 0 (header_bytes h n ++ xs) ≡ some (n, xs)
unfolding next big_endian
header_lem two n xs l =
    rw (ltb_no (length (header_bytes two n ++ xs)) 2 (omega arith))
      (ap (λ k. some (k, xs)) (omega arith))
header_lem four n xs l =
    rw (ltb_no (length (header_bytes four n ++ xs)) 4 (omega arith))
      (ap (λ k. some (k, xs)) (omega arith))

nothing_left : (h : HeaderSize) → next (width h) 0 [] ≡ none
unfolding next
nothing_left two = refl
nothing_left four = refl

fits : (n : ℕ) (xs ys : List ℕ) → n ≡ length xs → n < 2 ^ 31 → incomplete n (xs ++ ys) ≡ false
unfolding incomplete
fits n xs ys e l = ground (arith, length-append xs ys)

cut-stream :
    (fuel : ℕ) (h : HeaderSize) (packets : List (List ℕ))
    → Fits h packets
    → length (stream h packets) < fuel
    → cut fuel (width h) 0 (stream h packets)
      ≡ record { packets = packets; closed = false; header = 0; tail = [] }
unfolding cut
cut-stream fuel h [] f l = settle_without_header (width h) 0 [] (nothing_left h) fuel
cut-stream zero h (packet ∷ packets) f l = absurd (omega arith)
cut-stream (suc fuel) h ([] ∷ packets) f l = absurd (omega (arith, f.0))
cut-stream (suc fuel) h ((x ∷ xs) ∷ packets) (pos, small, room, f) l =
    let rest = stream h packets in
    let len = length-append (header_bytes h (suc (length xs))) ((x ∷ xs) ++ rest) in
    let len2 = length-append xs rest in
    rw
      (
        header_lem h (suc (length xs)) ((x ∷ xs) ++ rest) room,
        fits (suc (length xs)) (x ∷ xs) rest refl (omega arith),
        leb_no 0x1000000 (suc (length xs)) small,
        take_more (length xs) 0 xs rest (omega arith),
        drop_more (length xs) 0 xs rest (omega arith),
        append-nil xs,
        cut-stream fuel h packets f (omega arith),
        cut,
      )
      refl

-- A peer sends packets, none of them empty or of 16M or more, each after its length in two or four
-- bytes. However these bytes are split into messages, a gate with a fresh buffer forwards exactly these
-- packets, in order, follows no null pointer, does not close, and keeps no byte and no header.
pub packets_lem :
    (h : HeaderSize) (packets chunks : List (List ℕ)) (mp : MessagePool)
    → Fits h packets
    → concat chunks ≡ stream h packets
    → (r : Dispatched) × (feed (width h) zeroed mp chunks ≡ some r)
      × (r.packets ≡ packets)
      × (r.closed ≡ false)
      × (contents r.db ≡ [])
      × (r.db.header ≡ 0)
unfolding contents body
packets_lem h packets chunks mp f e =
    let fuel = length (stream h packets) + 1 in
    let (r, run, a) =
      feed_lem chunks fuel (width h) zeroed mp zeroed-IsValid (width_pos h)
        (omega (arith, ap length e)) (settle_without_header (width h) 0 [] (nothing_left h)) in
    let b =
      subst (λ c. Agrees c r)
        (ap (cut fuel (width h) 0) e ∙ cut-stream fuel h packets f (omega arith)) a in
    (r, run, b.packets, b.closed, b.bytes, b.header)
