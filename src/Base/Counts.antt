-- ===== src/Base/Counts.antt =====
-- How often a number stands in a list, and functions on pointers.
use Prim.Native.Nat.{ℕ, zero, suc, ◌+◌, ◌-◌, ◌≤◌}
use mathlib.Core.Path.{◌≡◌, refl, sym, subst}
use mathlib.Core.Logic.{◌≢◌}
use mathlib.Core.List.{List, [], ◌∷◌, ◌++◌}
use native.Mathlib.Omega.{arith}
use native.Mathlib.Decide.{ℕ_discrete}
use jump.Base.Lists.{length}
use jump.Base.Tests.{◌==◌, if◌then◌else◌}

unfoldable pub count : ℕ → List ℕ → ℕ
count p [] = 0
count p (x ∷ xs) = if x == p then suc (count p xs) else count p xs

-- The list without the first `p`.
unfoldable pub remove : ℕ → List ℕ → List ℕ
remove p [] = []
remove p (x ∷ xs) = if x == p then xs else x ∷ remove p xs

pub count-append : (p : ℕ) (xs ys : List ℕ) → count p (xs ++ ys) ≡ count p xs + count p ys
unfolding count
count-append p [] ys = omega arith
count-append p (x ∷ xs) ys = ground (arith, count-append p xs ys)

pub count-remove_self : (p : ℕ) (xs : List ℕ) → count p (remove p xs) ≡ count p xs - 1
unfolding count remove
count-remove_self p [] = omega arith
count-remove_self p (x ∷ xs) = ground (arith, count-remove_self p xs)

pub count-remove_ne : (p q : ℕ) (xs : List ℕ) → p ≢ q → count q (remove p xs) ≡ count q xs
unfolding count remove
count-remove_ne p q [] h = refl
count-remove_ne p q (x ∷ xs) h = ground (arith, count-remove_ne p q xs)

-- The store with one cell written.
unfoldable pub update {ℓ} : {A : Type ℓ} → (ℕ → A) → ℕ → A → ℕ → A
update f p a q = if p == q then a else f q

pub update_self {ℓ} : {A : Type ℓ} (f : ℕ → A) (p : ℕ) (a : A) → update f p a p ≡ a
unfolding update
update_self f p a = ground arith

pub update_ne {ℓ} : {A : Type ℓ} (f : ℕ → A) (p q : ℕ) (a : A) → p ≢ q → update f p a q ≡ f q
unfolding update
update_ne f p q a h = ground arith

length-remove : (p : ℕ) (xs : List ℕ) → length xs ≤ length (remove p xs) + 1
unfolding remove
length-remove p [] = omega arith
length-remove p (x ∷ xs) = ground (arith, length-remove p xs)

-- A list of different numbers below `n` is not longer than that.
pub pigeonhole :
    (n : ℕ) (xs : List ℕ)
    → ((p : ℕ) → count p xs ≤ 1)
    → ((p : ℕ) → n ≤ p → count p xs ≡ 0)
    → length xs ≤ n
unfolding count
pigeonhole zero [] d b = omega arith
pigeonhole zero (x ∷ xs) d b = ground (arith, b x)
pigeonhole (suc n) xs d b =
    let few : (p : ℕ) → count p (remove n xs) ≤ 1 = λ p. elim (ℕ_discrete n p) [
      | yes e ↦
          subst (λ k. count k (remove n xs) ≤ 1) e (omega (arith, count-remove_self n xs, d n))
      | no ne ↦ omega (arith, count-remove_ne n p xs ne, d p)
    ] in
    let low : (p : ℕ) → n ≤ p → count p (remove n xs) ≡ 0 = λ p l. elim (ℕ_discrete n p) [
      | yes e ↦
          subst (λ k. count k (remove n xs) ≡ 0) e (omega (arith, count-remove_self n xs, d n))
      | no ne ↦ omega (arith, count-remove_ne n p xs ne, b p (omega arith))
    ] in
    omega (arith, pigeonhole n (remove n xs) few low, length-remove n xs)

pub remove_head : (p : ℕ) (xs : List ℕ) → remove p (p ∷ xs) ≡ xs
unfolding remove
remove_head p xs = ground arith

pub remove_later : (p x : ℕ) (xs : List ℕ) → x ≢ p → remove p (x ∷ xs) ≡ x ∷ remove p xs
unfolding remove
remove_later p x xs h = ground arith

-- What holds of the new value, and of every other cell, holds after the write.
pub at_update {ℓ κ} :
    {A : Type ℓ} (P : ℕ → A → Type κ) (f : ℕ → A) (p : ℕ) (a : A)
    → P p a
    → ((q : ℕ) → p ≢ q → P q (f q))
    → (q : ℕ) → P q (update f p a q)
at_update P f p a new old q = elim (ℕ_discrete p q) [
  | yes e ↦ subst (λ x. P x (update f p a x)) e (subst (P p) (sym (update_self f p a)) new)
  | no ne ↦ subst (P q) (sym (update_ne f p q a ne)) (old q ne)
]

pub length-remove_lem :
    (p : ℕ) (xs : List ℕ) → 1 ≤ count p xs → length xs ≡ length (remove p xs) + 1
unfolding remove count
length-remove_lem p [] h = absurd (omega arith)
length-remove_lem p (x ∷ xs) h = ground (arith, length-remove_lem p xs)

pub count-cons_self : (p : ℕ) (xs : List ℕ) → count p (p ∷ xs) ≡ suc (count p xs)
unfolding count
count-cons_self p xs = ground arith

pub count-cons_ne : (p r : ℕ) (xs : List ℕ) → p ≢ r → count r (p ∷ xs) ≡ count r xs
unfolding count
count-cons_ne p r xs h = ground arith
