-- ===== src/Tests/Settlement.antt =====
-- A pool of 100 for three winners, one of them named twice.
use nim_hunt.Prelude.{ℕ, refl, ◌<◌, ◌≡◌, List, [], ◌∷◌, arith, length, map, total, All}
use nim_hunt.Settlement.Prizes.{clean_ids, prize_amounts_by_claim_id}
use nim_hunt.Settlement.Prizes.Pool.{IsShare, prize_amounts_by_claim_id-pool}

abbrev ids : List ℕ
ids = 9 ∷ 4 ∷ 0 ∷ 9 ∷ 12 ∷ []

amounts : prize_amounts_by_claim_id 100 ids ≡ (4, 34) ∷ (9, 33) ∷ (12, 33) ∷ []
unfolding prize_amounts_by_claim_id nim_hunt.Settlement.Prizes.zip clean_ids
    nim_hunt.Settlement.Prizes.insert_id nim_hunt.Settlement.Prizes.prize_amounts
    nim_hunt.Settlement.Prizes.repeat
amounts = refl

some_winner : 0 < length (clean_ids ids)
unfolding clean_ids nim_hunt.Settlement.Prizes.insert_id
some_winner = omega arith

prize_amounts_by_claim_id-pool_example :
    (map (λ q. q.0) (prize_amounts_by_claim_id 100 ids) ≡ clean_ids ids)
    × (total (λ q. q.1) (prize_amounts_by_claim_id 100 ids) ≡ 100)
    × All (λ q. IsShare 100 (length (clean_ids ids)) q.1) (prize_amounts_by_claim_id 100 ids)
prize_amounts_by_claim_id-pool_example = prize_amounts_by_claim_id-pool 100 ids some_winner
