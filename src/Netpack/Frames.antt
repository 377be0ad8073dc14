-- ===== src/Netpack/Frames.antt =====
-- The packets at the front of a stream of bytes, each behind the two bytes of its length.
use jump.Base.{
  ℕ, zero, suc, ◌+◌, ◌*◌, ◌^◌, ◌<◌, ◌≤◌, ◌≡◌, refl, ap, sym, ◌∙◌, List, [], ◌∷◌, ◌++◌, arith, false,
  length, take, drop, length-drop, length-append, take-append, drop-append, ltb, if◌then◌else◌,
  Bool-cases, inl, inr,
}

-- The packets, and the bytes after them, which do not hold a whole one
pub record Split : Type 0 where
  pub packets : List (List ℕ)
  pub rest : List ℕ

abbrev pub all_rest : List ℕ → Split
all_rest xs = record { packets = []; rest = xs }

abbrev pub packet_first : List ℕ → Split → Split
packet_first x s = record { packets = x ∷ s.packets; rest = s.rest }

unfoldable pub split : ℕ → List ℕ → Split
split zero xs = all_rest xs
split (suc f) [] = all_rest []
split (suc f) (a ∷ []) = all_rest (a ∷ [])
split (suc f) (a ∷ b ∷ xs) =
    let n = a * 2 ^ 8 + b in
    let later = split f (drop n xs) in
    if ltb (length xs) n then all_rest (a ∷ b ∷ xs) else packet_first (take n xs) later

-- A round takes two bytes at least, so the length is enough fuel.
abbrev pub frames : List ℕ → Split
frames xs = split (length xs) xs

pub split_fuel : (f g : ℕ) (xs : List ℕ) → length xs ≤ f → length xs ≤ g → split f xs ≡ split g xs
unfolding split
split_fuel zero zero xs l h = refl
split_fuel zero (suc g) [] l h = refl
split_fuel zero (suc g) (a ∷ xs) l h = absurd (omega arith)
split_fuel (suc f) zero [] l h = refl
split_fuel (suc f) zero (a ∷ xs) l h = absurd (omega arith)
split_fuel (suc f) (suc g) [] l h = refl
split_fuel (suc f) (suc g) (a ∷ []) l h = refl
split_fuel (suc f) (suc g) (a ∷ b ∷ xs) l h =
    let n = a * 2 ^ 8 + b in
    ap (λ s. if ltb (length xs) n then all_rest (a ∷ b ∷ xs) else packet_first (take n xs) s)
      (split_fuel f g (drop n xs) (omega (arith, length-drop n xs))
        (omega (arith, length-drop n xs)))

-- One packet, and the others
pub frames_cons :
    (a b : ℕ) (xs : List ℕ)
    → frames (a ∷ b ∷ xs) ≡ (
        if ltb (length xs) (a * 2 ^ 8 + b)
        then all_rest (a ∷ b ∷ xs)
        else packet_first (take (a * 2 ^ 8 + b) xs) (frames (drop (a * 2 ^ 8 + b) xs)))
unfolding split
frames_cons a b xs =
    let n = a * 2 ^ 8 + b in
    ap (λ s. if ltb (length xs) n then all_rest (a ∷ b ∷ xs) else packet_first (take n xs) s)
      (split_fuel (suc (length xs)) (length (drop n xs)) (drop n xs)
        (omega (arith, length-drop n xs)) (omega arith))

pub split_nil : (f : ℕ) → split f [] ≡ all_rest []
unfolding split
split_nil zero = refl
split_nil (suc f) = refl

-- Where there is no packet all bytes are left.
pub frames_none : (f : ℕ) (xs : List ℕ) → (split f xs).packets ≡ [] → (split f xs).rest ≡ xs
unfolding split
frames_none zero xs e = refl
frames_none (suc f) [] e = refl
frames_none (suc f) (a ∷ []) e = refl
frames_none (suc f) (a ∷ b ∷ xs) e = elim (Bool-cases (ltb (length xs) (a * 2 ^ 8 + b))) [
  | inl t ↦ rw (t, split) refl
  | inr t ↦
      let n = a * 2 ^ 8 + b in
      let p : (split (suc f) (a ∷ b ∷ xs)).packets ≡ take n xs ∷ (split f (drop n xs)).packets =
        rw (t, split) refl in
      absurd (cons-ne-nil (sym p ∙ e))
]
  where
    cons-ne-nil : {x : List ℕ} {ys : List (List ℕ)} → x ∷ ys ≡ [] → ⊥
    cons-ne-nil e = cc

abbrev pub IsBytes : List ℕ → Type 0
IsBytes [] = Unit {0}
IsBytes (x ∷ xs) = (x < 2 ^ 8) × IsBytes xs

pub drop-IsBytes : (n : ℕ) (xs : List ℕ) → IsBytes xs → IsBytes (drop n xs)
drop-IsBytes zero xs b = b
drop-IsBytes (suc n) [] b = b
drop-IsBytes (suc n) (x ∷ xs) b = drop-IsBytes n xs b.1

abbrev pub packets_first : List (List ℕ) → Split → Split
packets_first ps s = record { packets = ps ++ s.packets; rest = s.rest }

-- Later bytes are cut behind what is left.
split-append :
    (f : ℕ) (xs ys : List ℕ)
    → length xs ≤ f
    → frames (xs ++ ys) ≡ packets_first (split f xs).packets (frames ((split f xs).rest ++ ys))
unfolding split
split-append zero xs ys l = refl
split-append (suc f) [] ys l = refl
split-append (suc f) (a ∷ []) ys l = refl
split-append (suc f) (a ∷ b ∷ xs) ys l =
    let n = a * 2 ^ 8 + b in
    elim (Bool-cases (ltb (length xs) n)) [
      | inl s ↦ rw (s, split) refl
      | inr s ↦
          let enough : n ≤ length xs = ground (arith, s) in
          let long : ltb (length (xs ++ ys)) n ≡ false =
            ground (arith, length-append xs ys, enough) in
          frames_cons a b (xs ++ ys)
          ∙ rw (long, take-append n xs ys enough, drop-append n xs ys enough, s, split)
              (ap (packet_first (take n xs))
                (split-append f (drop n xs) ys (omega (arith, length-drop n xs))))
    ]

-- How the stream is divided does not matter.
pub frames-append :
    (xs ys : List ℕ)
    → frames (xs ++ ys) ≡ packets_first (frames xs).packets (frames ((frames xs).rest ++ ys))
frames-append xs ys = split-append (length xs) xs ys (omega arith)
