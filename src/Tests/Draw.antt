-- ===== src/Tests/Draw.antt =====
-- A Prizedraw with 501 entries.
use nim_hunt.Prelude.{
  ℕ, zero, suc, ◌≡◌, refl, true, false, some, List, [], ◌∷◌, ◌++◌, arith, contains, take, All,
  All-weaken,
}
use nim_hunt.Outbox.Store.{ClaimRow, claim_success, claim_of, published}
use nim_hunt.Settlement.Draw.{PrizeSpot, get_successful_claims, settle_prizedraw_spot_if_ready}
use nim_hunt.Settlement.Draw.Late.{ids_of, settle_prizedraw_spot_if_ready-late}

abbrev entry : ℕ → ClaimRow
entry id = record { claim_id = id; spot_id = 3; status = claim_success }

abbrev entries : ℕ → List ClaimRow
entries zero = []
entries (suc n) = entry (suc n) ∷ entries n

abbrev all_entries : List ClaimRow
all_entries = entries 500 ++ entry 900 ∷ []

abbrev prize_spot : PrizeSpot
prize_spot = record {
  spot_id = 3;
  status = published;
  prize_count = some 2;
  max_total_claims = some 501;
  starts_at = some 1000;
  ends_at = some 500;
}

first_drawn :
    (k : ℕ) (xs : List ClaimRow) → All (λ x. contains x (ids_of xs) ≡ true) (ids_of (take k xs))
first_drawn zero xs = tt
first_drawn (suc k) [] = tt
first_drawn (suc k) (x ∷ xs) = (
  ground arith,
  All-weaken (λ y. contains y (ids_of xs) ≡ true) (λ y. contains y (ids_of (x ∷ xs)) ≡ true)
      (λ y h. ground arith) (ids_of (take k xs)) (first_drawn k xs),
)

entered : claim_of all_entries 900 ≡ some (entry 900)
unfolding claim_of
entered = refl

is_late : contains 900 (ids_of (get_successful_claims 3 all_entries)) ≡ false
unfolding get_successful_claims
is_late = refl

settle_prizedraw_spot_if_ready-late_example :
    claim_of (settle_prizedraw_spot_if_ready (λ k xs. take k xs) prize_spot 2000 all_entries).2 900
    ≡ some (entry 900)
settle_prizedraw_spot_if_ready-late_example =
    settle_prizedraw_spot_if_ready-late (λ k xs. take k xs) first_drawn prize_spot 2000 all_entries
      (entry 900) entered refl is_late
