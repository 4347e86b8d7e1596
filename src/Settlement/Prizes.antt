-- ===== src/Settlement/Prizes.antt =====
-- How a prize pool is divided (settlement_updater.py, `_prize_amounts`, `_prize_amounts_by_claim_id`,
-- `_standard_claim_payout_amount`). Division is by a positive number wherever it is used.
pub mod Pool
use nim_hunt.Prelude.{
  ℕ, zero, suc, ◌+◌, ◌/◌, ◌%◌, Option, none, some, List, [], ◌∷◌, ltb, ◌==◌, if◌then◌else◌, length,
  or_else,
}

-- `[value for _ in range(n)]`
unfoldable pub repeat : ℕ → ℕ → List ℕ
repeat zero value = []
repeat (suc n) value = value ∷ repeat n value

abbrev add_first : ℕ → List ℕ → List ℕ
add_first r [] = []
add_first r (x ∷ xs) = (x + r) ∷ xs

-- The configured number of prizes is not used.
unfoldable pub prize_amounts : ℕ → ℕ → List ℕ
prize_amounts total_value zero = []
prize_amounts total_value (suc n) =
    add_first (total_value % suc n) (repeat (suc n) (total_value / suc n))

-- `sorted({id for id in ids if id > 0})`, by insertion.
unfoldable pub insert_id : ℕ → List ℕ → List ℕ
insert_id n [] = n ∷ []
insert_id n (m ∷ ms) =
    let rest = insert_id n ms in if ltb n m then n ∷ m ∷ ms else if n == m then m ∷ ms else m ∷ rest

unfoldable pub clean_ids : List ℕ → List ℕ
clean_ids [] = []
clean_ids (n ∷ ns) = let rest = clean_ids ns in if n == 0 then rest else insert_id n rest

unfoldable pub zip : List ℕ → List ℕ → List (ℕ × ℕ)
zip (a ∷ as_) (b ∷ bs) = (a, b) ∷ zip as_ bs
zip _ _ = []

unfoldable pub prize_amounts_by_claim_id : ℕ → List ℕ → List (ℕ × ℕ)
prize_amounts_by_claim_id total_value ids =
    let clean = clean_ids ids in zip clean (prize_amounts total_value (length clean))

unfoldable pub standard_claim_payout_amount : Option ℕ → ℕ → ℕ
standard_claim_payout_amount max_total_claims total_value =
    if or_else max_total_claims 0 == 0 then 0 else total_value / or_else max_total_claims 0
