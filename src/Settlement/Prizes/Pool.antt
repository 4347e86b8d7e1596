-- ===== src/Settlement/Prizes/Pool.antt =====
-- A prize pool is paid out whole, in parts that differ by less than the number of winners.
use nim_hunt.Prelude.{
  ℕ, zero, suc, ◌+◌, ◌*◌, ◌/◌, ◌≤◌, ◌<◌, ◌≡◌, refl, sym, ap, ◌∙◌, map, List, [], ◌∷◌, arith, length,
  total, All,
}
use native.Mathlib.Nat.{mod-add-div, mod-lt}
use nim_hunt.Settlement.Prizes.{repeat, prize_amounts, clean_ids, zip, prize_amounts_by_claim_id}

total-repeat : (n v : ℕ) → total (λ x. x) (repeat n v) ≡ n * v
unfolding repeat
total-repeat zero v = omega arith
total-repeat (suc n) v = grind (arith, total-repeat n v)

total-zip :
    (as_ bs : List ℕ) → length as_ ≡ length bs → total (λ p. p.1) (zip as_ bs) ≡ total (λ x. x) bs
unfolding zip
total-zip [] [] e = refl
total-zip [] (b ∷ bs) e = absurd (omega arith)
total-zip (a ∷ as_) [] e = absurd (omega arith)
total-zip (a ∷ as_) (b ∷ bs) e = omega (arith, total-zip as_ bs (omega arith))

suc-mul : (n v : ℕ) → suc n * v ≡ v + n * v
suc-mul n v = grind arith

length-repeat : (n v : ℕ) → length (repeat n v) ≡ n
unfolding repeat
length-repeat zero v = refl
length-repeat (suc n) v = omega (arith, length-repeat n v)

length-prize_amounts : (p n : ℕ) → length (prize_amounts p n) ≡ n
unfolding prize_amounts repeat
length-prize_amounts p zero = refl
length-prize_amounts p (suc n) = omega (arith, length-repeat n (p / suc n))

total-prize_amounts : (p n : ℕ) → total (λ x. x) (prize_amounts p (suc n)) ≡ p
unfolding prize_amounts repeat
total-prize_amounts p n =
    omega (arith, total-repeat n (p / suc n), mod-add-div p (suc n), suc-mul n (p / suc n))

-- Each winner gets the even share, the first of them what the division leaves over as well.
pub IsShare : ℕ → ℕ → ℕ → Type 0
IsShare p n x = (p / n ≤ x) × (x < p / n + n)

repeat-IsShare : (p n k : ℕ) → All (IsShare p (suc n)) (repeat k (p / suc n))
unfolding repeat IsShare
repeat-IsShare p n zero = tt
repeat-IsShare p n (suc k) = ((omega arith, omega arith), repeat-IsShare p n k)

prize_amounts-IsShare : (p n : ℕ) → All (IsShare p (suc n)) (prize_amounts p (suc n))
unfolding prize_amounts repeat IsShare
prize_amounts-IsShare p n =
    ((omega arith, omega (arith, mod-lt p {m = suc n} (omega arith))), repeat-IsShare p n n)

zip-IsShare :
    (p n : ℕ) (as_ bs : List ℕ) → All (IsShare p n) bs → All (λ q. IsShare p n q.1) (zip as_ bs)
unfolding zip
zip-IsShare p n [] bs h = tt
zip-IsShare p n (a ∷ as_) [] h = tt
zip-IsShare p n (a ∷ as_) (b ∷ bs) h = (h.0, zip-IsShare p n as_ bs h.1)

zip-firsts : (as_ bs : List ℕ) → length as_ ≡ length bs → map (λ q. q.0) (zip as_ bs) ≡ as_
unfolding zip
zip-firsts [] [] e = refl
zip-firsts [] (b ∷ bs) e = refl
zip-firsts (a ∷ as_) [] e = absurd (omega arith)
zip-firsts (a ∷ as_) (b ∷ bs) e = ap (λ (t : List ℕ). a ∷ t) (zip-firsts as_ bs (omega arith))

-- With at least one winner, every one of them gets an amount, the amounts add up to the pool, and each
-- is the even share or exceeds it by less than the number of winners.
pub prize_amounts_by_claim_id-pool :
    (pool : ℕ) (ids : List ℕ)
    → 0 < length (clean_ids ids)
    → (map (λ q. q.0) (prize_amounts_by_claim_id pool ids) ≡ clean_ids ids)
      × (total (λ q. q.1) (prize_amounts_by_claim_id pool ids) ≡ pool)
      × All (λ q. IsShare pool (length (clean_ids ids)) q.1) (prize_amounts_by_claim_id pool ids)
unfolding prize_amounts_by_claim_id
prize_amounts_by_claim_id-pool pool ids h = divided (length (clean_ids ids)) (clean_ids ids) refl h
  where
    divided :
        (n : ℕ) (clean : List ℕ)
        → length clean ≡ n
        → 0 < n
        → (map (λ q. q.0) (zip clean (prize_amounts pool n)) ≡ clean)
          × (total (λ q. q.1) (zip clean (prize_amounts pool n)) ≡ pool)
          × All (λ q. IsShare pool n q.1) (zip clean (prize_amounts pool n))
    divided zero clean e positive = absurd (omega arith)
    divided (suc n) clean e positive =
        let same_length : length clean ≡ length (prize_amounts pool (suc n)) =
          e ∙ sym (length-prize_amounts pool (suc n)) in
        (
          zip-firsts clean (prize_amounts pool (suc n)) same_length,
          total-zip clean (prize_amounts pool (suc n)) same_length ∙ total-prize_amounts pool n,
          zip-IsShare pool (suc n) clean (prize_amounts pool (suc n))
              (prize_amounts-IsShare pool n),
        )
