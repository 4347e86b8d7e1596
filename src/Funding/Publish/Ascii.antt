-- ===== src/Funding/Publish/Ascii.antt =====
-- The normal forms of an address, where Python's `upper` maps ASCII letters only.
use nim_hunt.Prelude.{
  ℕ, ◌≡◌, refl, sym, ap, inl, inr, Bool, true, false, not, [], ◌∷◌, ◌++◌, ◌==◌, arith, Bool-cases,
  filter, map,
}
use mathlib.Core.List.{reverse, reverse-cons, reverse-reverse, append-nil}
use nim_hunt.Prelude.Text.{Text, is_space, lstrip, strip}
use nim_hunt.Funding.{address_key}
use nim_hunt.Funding.Publish.{upper_letter, sql_key}
use nim_hunt.Funding.Publish.Shown.{Agree}

abbrev solid : ℕ → Bool
solid c = not (is_space c)

abbrev no_blank : ℕ → Bool
no_blank c = not (c == b' ')

filter-append : (xs ys : Text) → filter solid (xs ++ ys) ≡ filter solid xs ++ filter solid ys
filter-append [] ys = refl
filter-append (c ∷ xs) ys = elim (Bool-cases (is_space c)) [
  | inl e ↦ rw e (filter-append xs ys)
  | inr e ↦ rw e (ap (λ r. c ∷ r) (filter-append xs ys))
]

filter-reverse : (xs : Text) → filter solid (reverse xs) ≡ reverse (filter solid xs)
filter-reverse [] = refl
filter-reverse (c ∷ xs) = elim (Bool-cases (is_space c)) [
  | inl e ↦
      rw (reverse-cons c xs, filter-append (reverse xs) (c ∷ []), filter-reverse xs, e)
        (append-nil (reverse (filter solid xs)))
  | inr e ↦
      rw (reverse-cons c xs, filter-append (reverse xs) (c ∷ []), filter-reverse xs, e)
        (sym (reverse-cons c (filter solid xs)))
]

filter-lstrip : (xs : Text) → filter solid (lstrip xs) ≡ filter solid xs
filter-lstrip [] = refl
filter-lstrip (c ∷ xs) = elim (Bool-cases (is_space c)) [
  | inl e ↦ rw e (filter-lstrip xs)
  | inr e ↦ rw e (rw e refl)
]

filter-strip : (xs : Text) → filter solid (strip xs) ≡ filter solid xs
filter-strip xs =
    rw
      (
        filter-reverse (lstrip (reverse (lstrip xs))),
        filter-lstrip (reverse (lstrip xs)),
        filter-reverse (lstrip xs),
        reverse-reverse (filter solid (lstrip xs)),
        filter-lstrip xs,
      )
      refl

upper_letter-is_space : (c : ℕ) → is_space (upper_letter c) ≡ is_space c
upper_letter-is_space c = ground arith

filter-map : (xs : Text) → filter solid (map upper_letter xs) ≡ map upper_letter (filter solid xs)
filter-map [] = refl
filter-map (c ∷ xs) = elim (Bool-cases (is_space c)) [
  | inl e ↦ rw (upper_letter-is_space c, e) (filter-map xs)
  | inr e ↦ rw (upper_letter-is_space c, e) (ap (λ r. upper_letter c ∷ r) (filter-map xs))
]

solid-blank : (c : ℕ) → is_space c ≡ false → no_blank c ≡ true
solid-blank c h = ground arith

filter-blank : (xs : Text) → filter solid (filter no_blank xs) ≡ filter solid xs
filter-blank [] = refl
filter-blank (c ∷ xs) = elim (Bool-cases (is_space c)) [
  | inl e ↦ elim (Bool-cases (no_blank c)) [
    | inl n ↦ rw (n, e) (filter-blank xs)
    | inr n ↦ rw (n, e) (filter-blank xs)
  ]
  | inr e ↦ rw (solid-blank c e, e) (ap (λ r. c ∷ r) (filter-blank xs))
]

address_key-sql : (a : Text) → address_key (map upper_letter) a ≡ filter solid (sql_key a)
unfolding address_key sql_key
address_key-sql a =
    rw (filter-map (strip a), filter-strip a, filter-map (filter no_blank a), filter-blank a) refl

-- Where Python's `upper` maps ASCII letters only, SQLite's normal form is the finer one.
pub map_upper-Agree : Agree (map upper_letter)
map_upper-Agree a b h = rw (address_key-sql a, address_key-sql b) (ap (filter solid) h)
