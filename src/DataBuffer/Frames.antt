-- ===== src/DataBuffer/Frames.antt =====
-- What `dispatch_message` is to do: the packets that a stream of bytes holds.
use jump.Base.{
  length-drop, take-append, drop-append, ℕ, zero, suc, ◌+◌, ◌^◌, ◌≤◌, ◌<◌, ◌≡◌, refl, sym, ◌∙◌,
  Bool, true, false, List, [], ◌∷◌, ◌++◌, Option, none, some, ◌||◌, arith, length, take, drop, ltb,
  leb, ◌==◌, if◌then◌else◌, length-append, Bool-cases, ==_no, dec_lt, Option-cases, inl, inr,
}
use jump.DataBuffer.{big_endian}

-- The packets at the front of a stream, the header that was read for the next one (0 if none was),
-- the bytes after it, and whether a packet was refused for its size.
pub record Cut : Type 0 where
  pub packets : List (List ℕ)
  pub closed : Bool
  pub header : ℕ
  pub tail : List ℕ

abbrev pub packet_before : List ℕ → Cut → Cut
packet_before packet c = record c { packets = packet ∷ c.packets }

-- Bytes that wait for more
abbrev pub waiting : ℕ → List ℕ → Cut
waiting header xs = record { packets = []; closed = false; header = header; tail = xs }

abbrev pub refused : Cut
refused = record { packets = []; closed = true; header = 0; tail = [] }

-- The header of the next packet, and the bytes after it, once there are enough for it
unfoldable pub next : ℕ → ℕ → List ℕ → Option (ℕ × List ℕ)
next hs header xs =
    if header == 0
    then (if ltb (length xs) hs then none else some (big_endian hs (take hs xs), drop hs xs))
    else some (header, xs)

-- A header that is negative as an `int` waits for ever.
unfoldable pub incomplete : ℕ → List ℕ → Bool
incomplete n xs = leb (2 ^ 31) n || ltb (length xs) n

-- The stream `xs` after the header; `fuel` is greater than its length.
unfoldable pub cut : ℕ → ℕ → ℕ → List ℕ → Cut
cut zero hs header xs = waiting header xs
cut (suc fuel) hs header xs = elim (next hs header xs) [
  | none ↦ waiting header xs
  | some (zero, ys) ↦ cut fuel hs 0 ys
  | some (suc n, ys) ↦
      let rest = cut fuel hs 0 (drop (suc n) ys) in
      if incomplete (suc n) ys
      then waiting (suc n) ys
      else if leb 0x1000000 (suc n)
      then refused
      else packet_before (take (suc n) ys) rest
]

pub short : (n : ℕ) (xs : List ℕ) → length xs < n → incomplete n xs ≡ true
unfolding incomplete
short n xs h = ground arith

pub enough :
    (n : ℕ) (xs zs : List ℕ)
    → incomplete n xs ≡ false
    → (n ≤ length xs) × (incomplete n (xs ++ zs) ≡ false)
unfolding incomplete
enough n xs zs h = ground (arith, length-append xs zs)

-- What `next` takes
pub next_lem :
    (hs header : ℕ) (xs ys : List ℕ) (n : ℕ)
    → 0 < hs
    → next hs header xs ≡ some (n, ys)
    → (length ys ≤ length xs) × (n ≡ 0 → length ys < length xs)
unfolding next
next_lem hs header xs ys n p e = ground (arith, length-drop hs xs)

-- Later bytes stand behind.
next-append :
    (hs header : ℕ) (xs ys zs : List ℕ) (n : ℕ)
    → next hs header xs ≡ some (n, ys)
    → next hs header (xs ++ zs) ≡ some (n, ys ++ zs)
unfolding next
next-append hs header xs ys zs n e =
    ground (arith, length-append xs zs, take-append hs xs zs, drop-append hs xs zs)

-- Fuel enough is as good as more.
pub cut_fuel :
    (f g hs header : ℕ) (xs : List ℕ)
    → 0 < hs
    → length xs < f
    → length xs < g
    → cut f hs header xs ≡ cut g hs header xs
unfolding cut
cut_fuel zero g hs header xs p a b = absurd (omega arith)
cut_fuel (suc f) zero hs header xs p a b = absurd (omega arith)
cut_fuel (suc f) (suc g) hs header xs p a b = elim (Option-cases (next hs header xs)) [
  | inl e ↦ rw (e, cut) refl
  | inr ((zero, ys), e) ↦
      let (l, m) = next_lem hs header xs ys 0 p e in
      rw (e, cut) (cut_fuel f g hs 0 ys p (omega (arith, m refl)) (omega (arith, m refl)))
  | inr ((suc n, ys), e) ↦
      let (l, m) = next_lem hs header xs ys (suc n) p e in
      elim (dec_lt n (length ys)) [
        | yes q ↦
            let r =
              cut_fuel f g hs 0 (drop (suc n) ys) p (omega (arith, length-drop (suc n) ys))
                (omega (arith, length-drop (suc n) ys)) in
            rw (e, cut, r) refl
        | no q ↦ rw (e, cut, short (suc n) ys (omega arith)) refl
      ]
]

-- What waits for the bytes of a packet goes on from its header.
cut_header :
    (g h hs header : ℕ) (xs ys : List ℕ) (n : ℕ)
    → 0 < hs
    → length ys ≤ g
    → length ys ≤ h
    → next hs header xs ≡ some (suc n, ys)
    → cut (suc g) hs header xs ≡ cut (suc h) hs (suc n) ys
unfolding cut
cut_header g h hs header xs ys n p a b e =
    let again : next hs (suc n) ys ≡ some (suc n, ys) =
      unfold next in rw (==_no (suc n) 0 (omega arith)) refl in
    elim (dec_lt n (length ys)) [
      | yes q ↦
          let r =
            cut_fuel g h hs 0 (drop (suc n) ys) p (omega (arith, length-drop (suc n) ys))
              (omega (arith, length-drop (suc n) ys)) in
          rw (e, again, r, cut) refl
      | no q ↦ rw (e, again, short (suc n) ys (omega arith), cut) refl
    ]

-- The stream goes on with `zs` after what is cut from it.
unfoldable pub resume : ℕ → ℕ → List ℕ → Cut → Cut
resume fuel hs zs c =
    let d = cut fuel hs c.header (c.tail ++ zs) in
    if c.closed then c else record d { packets = c.packets ++ d.packets }

resume-packet_before :
    (fuel hs : ℕ) (zs packet : List ℕ) (c : Cut)
    → resume fuel hs zs (packet_before packet c) ≡ packet_before packet (resume fuel hs zs c)
unfolding resume
resume-packet_before fuel hs zs packet c = elim (Bool-cases c.closed) [
  | inl e ↦ rw e refl
  | inr e ↦ rw e refl
]

-- The first packets of a longer stream are those of its start; what waited is cut with the new bytes.
pub cut-append :
    (f g h hs header : ℕ) (xs zs : List ℕ)
    → 0 < hs
    → length xs < f
    → length xs + length zs < g
    → length xs + length zs < h
    → cut g hs header (xs ++ zs) ≡ resume h hs zs (cut f hs header xs)
unfolding cut
cut-append zero g h hs header xs zs p a b c = absurd (omega arith)
cut-append (suc f) zero h hs header xs zs p a b c = absurd (omega arith)
cut-append (suc f) (suc g) zero hs header xs zs p a b c = absurd (omega arith)
cut-append (suc f) (suc g) (suc h) hs header xs zs p a b c =
    elim (Option-cases (next hs header xs)) [
      | inl e ↦
          cut_fuel (suc g) (suc h) hs header (xs ++ zs) p (omega (arith, length-append xs zs))
            (omega (arith, length-append xs zs))
          ∙ rw (e, cut) (unfold resume in refl)
      | inr ((zero, ys), e) ↦
          let (l, m) = next_lem hs header xs ys 0 p e in
          let q = m refl in
          rw (e, next-append hs header xs ys zs 0 e, cut)
            (cut-append f g (suc h) hs 0 ys zs p (omega arith) (omega arith) (omega arith))
      | inr ((suc n, ys), e) ↦
          let (l, m) = next_lem hs header xs ys (suc n) p e in
          elim (Bool-cases (incomplete (suc n) ys)) [
            | inl i ↦
                rw (e, i, cut)
                  (unfold resume in
                    cut_header g h hs header (xs ++ zs) (ys ++ zs) n p
                      (omega (arith, length-append ys zs)) (omega (arith, length-append ys zs))
                      (next-append hs header xs ys zs (suc n) e))
            | inr i ↦
                let (fit, longer) = enough (suc n) ys zs i in
                let r =
                  cut-append f g (suc h) hs 0 (drop (suc n) ys) zs p
                    (omega (arith, length-drop (suc n) ys)) (omega (arith, length-drop (suc n) ys))
                    (omega (arith, length-drop (suc n) ys)) in
                elim (Bool-cases (leb 0x1000000 (suc n))) [
                  | inl big ↦
                      rw (e, next-append hs header xs ys zs (suc n) e, i, longer, big, cut)
                        (unfold resume in refl)
                  | inr small ↦
                      rw
                        (
                          e,
                          next-append hs header xs ys zs (suc n) e,
                          i,
                          longer,
                          small,
                          take-append (suc n) ys zs fit,
                          drop-append (suc n) ys zs fit,
                          r,
                          cut,
                        )
                        (sym (
                          resume-packet_before (suc h) hs zs (take (suc n) ys)
                            (cut f hs 0 (drop (suc n) ys))))
                ]
          ]
    ]
