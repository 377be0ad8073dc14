-- ===== src/Handle/Names/Order.antt =====
-- `strcmp` is a strict total order, and what it is for an array of names to be sorted by it.
use Prim.Native.Nat.{Ordering}
use jump.Base.{
  ℕ, zero, suc, ◌<◌, ◌≤◌, ◌≡◌, ◌↔◌, refl, arith, List, [], ◌∷◌, get_or, length, take, drop,
}
use jump.Handle.Names.{Name, strcmp, Entry, no_entry}

pub strcmp_refl : (a : Name) → strcmp a a ≡ Ordering.eq
unfolding strcmp
strcmp_refl [] = refl
strcmp_refl (x ∷ xs) = ground (arith, strcmp_refl xs)

pub strcmp-eq : (a b : Name) → strcmp a b ≡ Ordering.eq → a ≡ b
unfolding strcmp
strcmp-eq [] [] e = refl
strcmp-eq [] (b ∷ bs) e = cc
strcmp-eq (a ∷ xs) [] e = cc
strcmp-eq (a ∷ xs) (b ∷ ys) e = ground (arith, strcmp-eq xs ys)

pub strcmp-flip : (a b : Name) → (strcmp a b ≡ Ordering.gt) ↔ (strcmp b a ≡ Ordering.lt)
unfolding strcmp
strcmp-flip [] [] = (λ e. cc, λ e. cc)
strcmp-flip [] (b ∷ bs) = (λ e. cc, λ e. cc)
strcmp-flip (a ∷ xs) [] = (λ e. refl, λ e. refl)
strcmp-flip (a ∷ xs) (b ∷ ys) = ground (arith, strcmp-flip xs ys)

pub strcmp_trans :
    (a b c : Name) → strcmp a b ≡ Ordering.lt → strcmp b c ≡ Ordering.lt → strcmp a c ≡ Ordering.lt
unfolding strcmp
strcmp_trans [] [] c e f = cc
strcmp_trans [] (b ∷ bs) [] e f = cc
strcmp_trans [] (b ∷ bs) (c ∷ cs) e f = refl
strcmp_trans (a ∷ xs) [] c e f = cc
strcmp_trans (a ∷ xs) (b ∷ ys) [] e f = cc
strcmp_trans (a ∷ xs) (b ∷ ys) (c ∷ zs) e f = ground (arith, strcmp_trans xs ys zs)

abbrev pub All {ℓ} : (Entry → Type ℓ) → List Entry → Type ℓ
All P [] = Unit
All P (e ∷ es) = P e × All P es

abbrev pub Before : Name → Entry → Type 0
Before a f = strcmp a f.name ≡ Ordering.lt

abbrev pub After : Name → Entry → Type 0
After a f = strcmp f.name a ≡ Ordering.lt

-- Each name stands before all that follow it.
abbrev pub Sorted : List Entry → Type 0
Sorted [] = Unit {0}
Sorted (e ∷ es) = All (Before e.name) es × Sorted es

pub All-at :
    (P : Entry → Type 0) (es : List Entry) (k : ℕ)
    → All P es
    → k < length es
    → P (get_or es k no_entry)
All-at P [] k a h = elim h [ ]
All-at P (e ∷ es) zero a h = a.0
All-at P (e ∷ es) (suc k) a h = All-at P es k a.1 (omega arith)

pub All-map :
    (P Q : Entry → Type 0) (es : List Entry) → ((e : Entry) → P e → Q e) → All P es → All Q es
All-map P Q [] f a = tt
All-map P Q (e ∷ es) f a = (f e a.0, All-map P Q es f a.1)

pub All-take :
    (P : Entry → Type 0) (es : List Entry) (n : ℕ)
    → ((k : ℕ) → k < n → k < length es → P (get_or es k no_entry))
    → All P (take n es)
All-take P es zero f = tt
All-take P [] (suc n) f = tt
All-take P (e ∷ es) (suc n) f = (
  f 0 (omega arith) (omega arith),
  All-take P es n (λ k h l. f (suc k) (omega arith) (omega arith)),
)

pub All-drop :
    (P : Entry → Type 0) (es : List Entry) (n : ℕ)
    → ((k : ℕ) → n ≤ k → k < length es → P (get_or es k no_entry))
    → All P (drop n es)
All-drop P [] zero f = tt
All-drop P [] (suc n) f = tt
All-drop P (e ∷ es) zero f = (
  f 0 (omega arith) (omega arith),
  All-drop P es zero (λ k h l. f (suc k) (omega arith) (omega arith)),
)
All-drop P (e ∷ es) (suc n) f = All-drop P es n (λ k h l. f (suc k) (omega arith) (omega arith))

-- Sorted names stand in the order of their places.
pub Sorted-at :
    (es : List Entry) (i j : ℕ)
    → Sorted es
    → i < j
    → j < length es
    → strcmp (get_or es i no_entry).name (get_or es j no_entry).name ≡ Ordering.lt
Sorted-at [] i j s h l = elim l [ ]
Sorted-at (e ∷ es) i zero s h l = elim h [ ]
Sorted-at (e ∷ es) zero (suc j) s h l = All-at (Before e.name) es j s.0 (omega arith)
Sorted-at (e ∷ es) (suc i) (suc j) s h l = Sorted-at es i j s.1 (omega arith) (omega arith)
