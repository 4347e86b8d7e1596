-- ===== src/Prelude/Lists.antt =====
-- Lists measured by native numbers, and the Boolean searches that the program's comprehensions and
-- SQL conditions come down to.
use Prim.Native.Nat.{ℕ, zero, suc, ◌+◌, ◌≤◌}
use mathlib.Core.Path.{◌≡◌, refl, ap}
use mathlib.Core.Logic.{inl, inr}
use mathlib.Core.Bool.{Bool, true, false, ◌||◌}
use mathlib.Core.List.{Memᴰ, map, List, [], ◌∷◌, ◌++◌}
use mathlib.Core.Option.{Option, none, some}
use native.Mathlib.Omega.{arith}
use nim_hunt.Prelude.Tests.{or_else, if◌then◌else◌, ◌==◌, Bool-cases, leb}

module _ {ℓ} {A : Type ℓ} where
  abbrev pub length : List A → ℕ
  length [] = 0
  length (x ∷ xs) = suc (length xs)

  abbrev pub filter : (A → Bool) → List A → List A
  filter p [] = []
  filter p (x ∷ xs) = let rest = filter p xs in if p x then x ∷ rest else rest

  -- The first item that meets a test, as `next((x for x in xs if …), None)`.
  abbrev pub find : (A → Bool) → List A → Option A
  find p [] = none
  find p (x ∷ xs) = if p x then some x else find p xs

  abbrev pub any : (A → Bool) → List A → Bool
  any p [] = false
  any p (x ∷ xs) = p x || any p xs

  -- The sum of a measure over a list.
  abbrev pub total : (A → ℕ) → List A → ℕ
  total f [] = 0
  total f (x ∷ xs) = f x + total f xs

  abbrev pub take : ℕ → List A → List A
  take zero xs = []
  take (suc n) [] = []
  take (suc n) (x ∷ xs) = x ∷ take n xs

-- `x in xs` for numbers.
abbrev pub contains : ℕ → List ℕ → Bool
contains n xs = any (λ x. x == n) xs

-- `min(timestamps) if timestamps else None`, and the largest.
abbrev pub min_of : List ℕ → Option ℕ
min_of [] = none
min_of (x ∷ xs) = elim (min_of xs) [ none ↦ some x | some m ↦ if leb x m then some x else some m ]

abbrev pub max_of : List ℕ → Option ℕ
max_of [] = none
max_of (x ∷ xs) = elim (max_of xs) [ none ↦ some x | some m ↦ if leb m x then some x else some m ]

-- A predicate of every item.
abbrev pub All {ℓ κ} : {A : Type ℓ} → (A → Type κ) → List A → Type κ
All P [] = Unit
All P (x ∷ xs) = P x × All P xs

module _ {ℓ} {A : Type ℓ} where
  pub total-append : (f : A → ℕ) (xs ys : List A) → total f (xs ++ ys) ≡ total f xs + total f ys
  total-append f [] ys = omega arith
  total-append f (x ∷ xs) ys = omega (arith, total-append f xs ys)

  pub total_mono : (f g : A → ℕ) → ((x : A) → f x ≤ g x) → (xs : List A) → total f xs ≤ total g xs
  total_mono f g h [] = omega arith
  total_mono f g h (x ∷ xs) = omega (arith, h x, total_mono f g h xs)

  pub total-filter :
      (f : A → ℕ) (p : A → Bool) (xs : List A)
      → total f (filter p xs) ≡ total (λ x. if p x then f x else 0) xs
  total-filter f p [] = refl
  total-filter f p (x ∷ xs) = elim (Bool-cases (p x)) [
    | inl e ↦ rw e (ap (λ (t : ℕ). f x + t) (total-filter f p xs))
    | inr e ↦ rw e (omega (arith, total-filter f p xs))
  ]

  pub length-eq-total : (xs : List A) → length xs ≡ total (λ x. 1) xs
  length-eq-total [] = refl
  length-eq-total (x ∷ xs) = omega (arith, length-eq-total xs)

  pub length-append : (xs ys : List A) → length (xs ++ ys) ≡ length xs + length ys
  length-append [] ys = omega arith
  length-append (x ∷ xs) ys = omega (arith, length-append xs ys)

  pub length-filter-le : (p : A → Bool) (xs : List A) → length (filter p xs) ≤ length xs
  length-filter-le p [] = omega arith
  length-filter-le p (x ∷ xs) = ground (arith, length-filter-le p xs)

  pub length-take-le : (n : ℕ) (xs : List A) → length (take n xs) ≤ n
  length-take-le zero xs = omega arith
  length-take-le (suc n) [] = omega arith
  length-take-le (suc n) (x ∷ xs) = omega (arith, length-take-le n xs)

  pub take-length : (xs : List A) → take (length xs) xs ≡ xs
  take-length [] = refl
  take-length (x ∷ xs) = cc (take-length xs)

  pub any-append : (p : A → Bool) (xs ys : List A) → any p (xs ++ ys) ≡ (any p xs || any p ys)
  any-append p [] ys = refl
  any-append p (x ∷ xs) ys = ground (arith, any-append p xs ys)

  pub All-append {κ} : (P : A → Type κ) (xs ys : List A) → All P xs → All P ys → All P (xs ++ ys)
  All-append P [] ys hx hy = hy
  All-append P (x ∷ xs) ys hx hy = (hx.0, All-append P xs ys hx.1 hy)

  pub All-filter {κ} :
      (P : A → Type κ) (p : A → Bool) (xs : List A) → All P xs → All P (filter p xs)
  All-filter P p [] h = h
  All-filter P p (x ∷ xs) h = elim (Bool-cases (p x)) [
    | inl e ↦ rw e (h.0, All-filter P p xs h.1)
    | inr e ↦ rw e (All-filter P p xs h.1)
  ]

  pub All-find {κ} :
      (P : A → Type κ) (p : A → Bool) (xs : List A) {a : A} → All P xs → find p xs ≡ some a → P a
  All-find P p [] h e = cc
  All-find P p (x ∷ xs) {a} h e = elim (Bool-cases (p x)) [
    | inl t ↦ let s : some x ≡ some a = rw t at e in let q : x ≡ a = cc in rw (← q) h.0
    | inr f ↦ All-find P p xs h.1 (rw f at e)
  ]

  pub find_holds : (p : A → Bool) (xs : List A) {a : A} → find p xs ≡ some a → p a ≡ true
  find_holds p [] e = cc
  find_holds p (x ∷ xs) {a} e = elim (Bool-cases (p x)) [
    | inl t ↦ let s : some x ≡ some a = rw t at e in let q : x ≡ a = cc in rw (← q) t
    | inr f ↦ find_holds p xs (rw f at e)
  ]

  pub find-Mem : (p : A → Bool) (xs : List A) {a : A} → find p xs ≡ some a → Memᴰ a xs
  find-Mem p [] e = cc
  find-Mem p (x ∷ xs) {a} e = elim (Bool-cases (p x)) [
    | inl t ↦ let s : some x ≡ some a = rw t at e in Memᴰ.head cc
    | inr f ↦ Memᴰ.tail (find-Mem p xs (rw f at e))
  ]

  pub All-weaken {κ μ} :
      (P : A → Type κ) (Q : A → Type μ)
      → ((a : A) → P a → Q a)
      → (xs : List A) → All P xs
      → All Q xs
  All-weaken P Q f [] h = tt
  All-weaken P Q f (x ∷ xs) h = (f x h.0, All-weaken P Q f xs h.1)

  pub All-map {κ μ} :
      {B : Type κ} (P : B → Type μ) (f : A → B) (xs : List A)
      → All P (map f xs)
      → All (λ x. P (f x)) xs
  All-map P f [] h = tt
  All-map P f (x ∷ xs) h = (h.0, All-map P f xs h.1)

pub max_of_bounds : (xs : List ℕ) → All (λ x. x ≤ or_else (max_of xs) 0) xs
max_of_bounds [] = tt
max_of_bounds (x ∷ xs) = (
  head,
  All-weaken (λ y. y ≤ or_else (max_of xs) 0) (λ y. y ≤ or_else (max_of (x ∷ xs)) 0) tail xs
      (max_of_bounds xs),
)
  where
    head : x ≤ or_else (max_of (x ∷ xs)) 0
    head = ground arith

    tail : (y : ℕ) → y ≤ or_else (max_of xs) 0 → y ≤ or_else (max_of (x ∷ xs)) 0
    tail y h = ground arith

pub min_of_bounds : (xs : List ℕ) → All (λ x. or_else (min_of xs) 0 ≤ x) xs
min_of_bounds [] = tt
min_of_bounds (x ∷ []) = (ground arith, tt)
min_of_bounds (x ∷ y ∷ ys) = (
  head,
  All-weaken (λ z. or_else (min_of (y ∷ ys)) 0 ≤ z) (λ z. or_else (min_of (x ∷ y ∷ ys)) 0 ≤ z) tail
      (y ∷ ys) (min_of_bounds (y ∷ ys)),
)
  where
    head : or_else (min_of (x ∷ y ∷ ys)) 0 ≤ x
    head = ground arith

    tail : (z : ℕ) → or_else (min_of (y ∷ ys)) 0 ≤ z → or_else (min_of (x ∷ y ∷ ys)) 0 ≤ z
    tail z h = ground arith
