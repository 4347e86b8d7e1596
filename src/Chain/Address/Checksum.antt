-- ===== src/Chain/Address/Checksum.antt =====
-- What the checksum of an address is, and that it shows one mistyped symbol.
use nim_hunt.Prelude.{
  ℕ, ◌+◌, ◌*◌, ◌%◌, ◌/◌, ◌-◌, ◌≤◌, ◌<◌, ◌≡◌, ◌≢◌, refl, sym, ap, ◌∙◌, inl, inr, ◌⊎◌, none, some,
  List, [], ◌∷◌, ◌++◌, true, false, arith, take, Option-cases, Bool-cases,
}
use mathlib.Core.List.{append_assoc}
use nim_hunt.Prelude.Text.{Text, is_digit}
use nim_hunt.Chain.Address.{
  symbol_digits, digits_of, iban_rearranged_numeric, mod97_from, mod97_decimal_string,
  has_valid_checksum, drop,
}

-- The number that decimal digits spell after the number `r`.
unfoldable pub value_from : ℕ → List ℕ → ℕ
value_from r [] = r
value_from r (d ∷ ds) = value_from (r * 10 + d) ds

mod97_from-value : (r : ℕ) (ds : List ℕ) → mod97_from (r % 97) ds ≡ value_from r ds % 97
unfolding mod97_from value_from
mod97_from-value r [] = refl
mod97_from-value r (d ∷ ds) =
    let step : ((r % 97) * 10 + d) % 97 ≡ (r * 10 + d) % 97 = omega arith in
    rw step (mod97_from-value (r * 10 + d) ds)

-- The remainder that the loop carries is that of the whole number.
pub mod97_decimal_string-value : (ds : List ℕ) → mod97_decimal_string ds ≡ value_from 0 ds % 97
unfolding mod97_decimal_string
mod97_decimal_string-value ds = mod97_from-value 0 ds

mod97_from-append :
    (r : ℕ) (xs ys : List ℕ) → mod97_from r (xs ++ ys) ≡ mod97_from (mod97_from r xs) ys
unfolding mod97_from
mod97_from-append r [] ys = refl
mod97_from-append r (d ∷ xs) ys = mod97_from-append ((r * 10 + d) % 97) xs ys

mod97_from-lt : (r : ℕ) (ds : List ℕ) → r < 97 → mod97_from r ds < 97
unfolding mod97_from
mod97_from-lt r [] h = h
mod97_from-lt r (d ∷ ds) h = mod97_from-lt ((r * 10 + d) % 97) ds (omega arith)

mod97_from-injective :
    (r s : ℕ) (ds : List ℕ) → r < 97 → s < 97 → mod97_from r ds ≡ mod97_from s ds → r ≡ s
unfolding mod97_from
mod97_from-injective r s [] hr hs e = e
mod97_from-injective r s (d ∷ ds) hr hs e =
    let next =
      mod97_from-injective ((r * 10 + d) % 97) ((s * 10 + d) % 97) ds (omega arith) (omega arith)
        e in
    omega (arith, next)

-- Two symbols of one kind: both digits, or both capitals.
pub record AreAlike (c d : ℕ) : Type 0 where
  pub kind : is_digit c ≡ is_digit d

record IsDecimal (c : ℕ) (xs : List ℕ) : Type 0 where
  digit : is_digit c ≡ true
  low : 48 ≤ c
  high : c ≤ 57
  one : xs ≡ (c - 48) ∷ []

record IsCapital (c : ℕ) (xs : List ℕ) : Type 0 where
  digit : is_digit c ≡ false
  low : 65 ≤ c
  high : c ≤ 90
  two : xs ≡ ((c - 55) / 10) ∷ ((c - 55) % 10) ∷ []

symbol_digits-cases :
    (c : ℕ) (xs : List ℕ) → symbol_digits c ≡ some xs → IsDecimal c xs ⊎ IsCapital c xs
unfolding symbol_digits
symbol_digits-cases c xs e = ground arith

symbol_digits-injective :
    (r c d : ℕ) (xs ys : List ℕ)
    → r < 97
    → AreAlike c d
    → symbol_digits c ≡ some xs
    → symbol_digits d ≡ some ys
    → mod97_from r xs ≡ mod97_from r ys
    → c ≡ d
unfolding mod97_from
symbol_digits-injective r c d xs ys hr alike ec ed e = elim (symbol_digits-cases c xs ec) [
  | inl p ↦ elim (symbol_digits-cases d ys ed) [
    | inl q ↦
        let k : (r * 10 + (c - 48)) % 97 ≡ (r * 10 + (d - 48)) % 97 = rw (p.one, q.one) at e in
        omega arith
    | inr q ↦ ground arith
  ]
  | inr p ↦ elim (symbol_digits-cases d ys ed) [
    | inl q ↦ ground arith
    | inr q ↦
        let k : (((r * 10 + (c - 55) / 10) % 97) * 10 + (c - 55) % 10) % 97
            ≡ (((r * 10 + (d - 55) / 10) % 97) * 10 + (d - 55) % 10) % 97 =
          rw (p.two, q.two) at e in
        omega arith
  ]
]

-- The digits of a text around one of its symbols.
record IsSplit (u : Text) (c : ℕ) (v : Text) (ds : List ℕ) : Type 0 where
  before : List ℕ
  here : List ℕ
  after : List ℕ
  of_before : digits_of u ≡ some before
  of_here : symbol_digits c ≡ some here
  of_after : digits_of v ≡ some after
  joined : ds ≡ before ++ (here ++ after)

digits_of-IsSplit :
    (u : Text) (c : ℕ) (v : Text) (ds : List ℕ)
    → digits_of (u ++ c ∷ v) ≡ some ds
    → IsSplit u c v ds
unfolding digits_of
digits_of-IsSplit [] c v ds e = elim (Option-cases (digits_of v)) [
  | inl n ↦ absurd (let k : none ≡ some ds = rw n at e in cc)
  | inr (q, h) ↦ elim (Option-cases (symbol_digits c)) [
    | inl n ↦ absurd (let k : none ≡ some ds = rw (h, n) at e in cc)
    | inr (s, i) ↦
        let k : some (s ++ q) ≡ some ds = rw (h, i) at e in
        record {
          before = [];
          here = s;
          after = q;
          of_before = refl;
          of_here = i;
          of_after = h;
          joined = cc;
        }
  ]
]
digits_of-IsSplit (x ∷ u) c v ds e = elim (Option-cases (digits_of (u ++ c ∷ v))) [
  | inl n ↦ absurd (let k : none ≡ some ds = rw n at e in cc)
  | inr (q, h) ↦ elim (Option-cases (symbol_digits x)) [
    | inl n ↦ absurd (let k : none ≡ some ds = rw (h, n) at e in cc)
    | inr (s, i) ↦
        let k : some (s ++ q) ≡ some ds = rw (h, i) at e in
        let r = digits_of-IsSplit u c v q h in
        let j : s ++ q ≡ s ++ (r.before ++ (r.here ++ r.after)) =
          ap (λ (t : List ℕ). s ++ t) r.joined in
        record {
          before = s ++ r.before;
          here = r.here;
          after = r.after;
          of_before = rw (r.of_before, i) refl;
          of_here = r.of_here;
          of_after = r.of_after;
          joined = cc (k, j, append_assoc s r.before (r.here ++ r.after));
        }
  ]
]

-- Of two texts that differ in one symbol of one kind, only one has remainder 1.
one_symbol :
    (u : Text) (c d : ℕ) (v : Text) (xs ys : List ℕ)
    → AreAlike c d
    → digits_of (u ++ c ∷ v) ≡ some xs
    → digits_of (u ++ d ∷ v) ≡ some ys
    → mod97_decimal_string xs ≡ mod97_decimal_string ys
    → c ≡ d
unfolding mod97_decimal_string
one_symbol u c d v xs ys alike ex ey e =
    let p = digits_of-IsSplit u c v xs ex in
    let q = digits_of-IsSplit u d v ys ey in
    let b : q.before ≡ p.before = cc (p.of_before, q.of_before) in
    let a : q.after ≡ p.after = cc (p.of_after, q.of_after) in
    let left : mod97_from 0 xs ≡ mod97_from (mod97_from (mod97_from 0 p.before) p.here) p.after =
      ap (mod97_from 0) p.joined
      ∙ (mod97_from-append 0 p.before (p.here ++ p.after)
          ∙ mod97_from-append (mod97_from 0 p.before) p.here p.after) in
    let right : mod97_from 0 ys ≡ mod97_from (mod97_from (mod97_from 0 q.before) q.here) q.after =
      ap (mod97_from 0) q.joined
      ∙ (mod97_from-append 0 q.before (q.here ++ q.after)
          ∙ mod97_from-append (mod97_from 0 q.before) q.here q.after) in
    let r = mod97_from-lt 0 p.before (omega arith) in
    symbol_digits-injective (mod97_from 0 p.before) c d p.here q.here r alike p.of_here q.of_here (
      mod97_from-injective (mod97_from (mod97_from 0 p.before) p.here)
        (mod97_from (mod97_from 0 p.before) q.here) p.after
        (mod97_from-lt (mod97_from 0 p.before) p.here r)
        (mod97_from-lt (mod97_from 0 p.before) q.here r) (cc (left, right, e, a, b)))

-- Where the rearrangement puts a symbol does not depend on the symbol.
record IsPlaced (u v : Text) : Type 0 where
  before : Text
  after : Text
  placed : (c : ℕ) → drop 4 (u ++ c ∷ v) ++ take 4 (u ++ c ∷ v) ≡ before ++ c ∷ after

rearranged : (u v : Text) → IsPlaced u v
rearranged [] v = record { before = drop 3 v; after = take 3 v; placed = λ c. refl }
rearranged (x ∷ []) v = record {
  before = drop 2 v ++ x ∷ [];
  after = take 2 v;
  placed = λ c. sym (append_assoc (drop 2 v) (x ∷ []) (c ∷ take 2 v));
}
rearranged (x ∷ y ∷ []) v = record {
  before = drop 1 v ++ x ∷ y ∷ [];
  after = take 1 v;
  placed = λ c. sym (append_assoc (drop 1 v) (x ∷ y ∷ []) (c ∷ take 1 v));
}
rearranged (x ∷ y ∷ z ∷ []) v = record {
  before = v ++ x ∷ y ∷ z ∷ [];
  after = [];
  placed = λ c. sym (append_assoc v (x ∷ y ∷ z ∷ []) (c ∷ []));
}
rearranged (x ∷ y ∷ z ∷ w ∷ u) v = record {
  before = u;
  after = v ++ x ∷ y ∷ z ∷ w ∷ [];
  placed = λ c. append_assoc u (c ∷ v) (x ∷ y ∷ z ∷ w ∷ []);
}

has_valid_checksum-sum :
    (address : Text)
    → has_valid_checksum address ≡ true
    → (ds : List ℕ) × (iban_rearranged_numeric address ≡ some ds) × (mod97_decimal_string ds ≡ 1)
unfolding has_valid_checksum
has_valid_checksum-sum address h = elim (Option-cases (iban_rearranged_numeric address)) [
  | inl n ↦ ground arith
  | inr (ds, e) ↦ (ds, e, ground arith)
]

-- Of a valid address, replacing any one symbol by another of its kind (a digit by a digit, a
-- capital by a capital) makes an invalid one.
pub has_valid_checksum-mistyped :
    (u v : Text) (c d : ℕ)
    → is_digit c ≡ is_digit d
    → c ≢ d
    → has_valid_checksum (u ++ c ∷ v) ≡ true
    → has_valid_checksum (u ++ d ∷ v) ≡ false
unfolding iban_rearranged_numeric
has_valid_checksum-mistyped u v c d alike other valid =
    elim (Bool-cases (has_valid_checksum (u ++ d ∷ v))) [
      | inr invalid ↦ invalid
      | inl both ↦
          let (xs, ex, mx) = has_valid_checksum-sum (u ++ c ∷ v) valid in
          let (ys, ey, my) = has_valid_checksum-sum (u ++ d ∷ v) both in
          let place = rearranged u v in
          absurd (
            other (
              one_symbol place.before c d place.after xs ys (record { kind = alike })
                (rw (← (place.placed c)) ex) (rw (← (place.placed d)) ey) (cc (mx, my))))
    ]
