-- ===== src/Prelude/Strip.antt =====
-- Stripping a text a second time changes nothing.
use mathlib.Core.Path.{◌≡◌, refl, sym, ◌∙◌, ap}
use mathlib.Core.Logic.{◌⊎◌, inl, inr}
use mathlib.Core.Bool.{false}
use mathlib.Core.List.{[], ◌∷◌, ◌++◌, reverse, reverse-cons, reverse-append, reverse-reverse}
use Prim.Native.Nat.{ℕ}
use nim_hunt.Prelude.Tests.{Bool-cases}
use nim_hunt.Prelude.Text.{Text, is_space, lstrip, strip}

lstrip-keeps : (c : ℕ) (cs : Text) → is_space c ≡ false → lstrip (c ∷ cs) ≡ c ∷ cs
lstrip-keeps c cs h = rw h refl

lstrip-lstrip : (cs : Text) → lstrip (lstrip cs) ≡ lstrip cs
lstrip-lstrip [] = refl
lstrip-lstrip (c ∷ cs) = elim (Bool-cases (is_space c)) [
  | inl e ↦ rw e (lstrip-lstrip cs)
  | inr e ↦ rw e (lstrip-keeps c cs e)
]

lstrip-snoc :
    (cs : Text) (c : ℕ) → is_space c ≡ false → (ds : Text) × (lstrip (cs ++ c ∷ []) ≡ ds ++ c ∷ [])
lstrip-snoc [] c h = ([], lstrip-keeps c [] h)
lstrip-snoc (d ∷ cs) c h = elim (Bool-cases (is_space d)) [
  | inl e ↦ rw e (lstrip-snoc cs c h)
  | inr e ↦ rw e (d ∷ cs, refl)
]

lstrip-cases :
    (cs : Text)
    → (lstrip cs ≡ []) ⊎ ((c : ℕ) × (ds : Text) × (is_space c ≡ false) × (lstrip cs ≡ c ∷ ds))
lstrip-cases [] = inl refl
lstrip-cases (c ∷ cs) = elim (Bool-cases (is_space c)) [
  | inl e ↦ rw e (lstrip-cases cs)
  | inr e ↦ rw e (inr (c, cs, e, refl))
]

-- What is left once the first code point is no space.
strip-shape :
    (cs : Text)
    → (strip cs ≡ [])
      ⊎ ((c : ℕ) × (ds : Text) × (is_space c ≡ false)
          × (strip cs ≡ c ∷ reverse ds)
          × (lstrip (ds ++ c ∷ []) ≡ ds ++ c ∷ []))
strip-shape cs = elim (lstrip-cases cs) [
  | inl e ↦ inl (rw e refl)
  | inr (c, ys, h, e) ↦
      let (ds, q) = lstrip-snoc (reverse ys) c h in
      inr (
        c,
        ds,
        h,
        rw (e, reverse-cons c ys, q) (reverse-append ds (c ∷ [])),
        rw (← q) (lstrip-lstrip (reverse ys ++ c ∷ [])),
      )
]

stripped :
    (c : ℕ) (ds : Text)
    → is_space c ≡ false
    → lstrip (ds ++ c ∷ []) ≡ ds ++ c ∷ []
    → strip (c ∷ reverse ds) ≡ c ∷ reverse ds
stripped c ds h q =
    rw (lstrip-keeps c (reverse ds) h, reverse-cons c (reverse ds), reverse-reverse ds, q)
      (reverse-append ds (c ∷ []))

pub strip-strip : (cs : Text) → strip (strip cs) ≡ strip cs
strip-strip cs = elim (strip-shape cs) [
  | inl e ↦ rw e refl
  | inr (c, ds, h, e, q) ↦ ap strip e ∙ (stripped c ds h q ∙ sym e)
]
