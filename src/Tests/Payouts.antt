-- ===== src/Tests/Payouts.antt =====
-- The payout gates on the store of Tests/Throttle.
use nim_hunt.Prelude.{
  ℕ, ◌≡◌, ◌≢◌, ◌<◌, ◌+◌, ◌↔◌, ◌⊎◌, refl, true, false, none, some, [], ◌∷◌, total, length,
}
use nim_hunt.Tables.{get_claim}
use nim_hunt.Throttle.Window.Query.{payout_window_state-counts}
use nim_hunt.Throttle.Decision.{
  Reason, WindowState, Decision, throttle_decision, spot_lifetime_decision, security_hold,
}
use nim_hunt.Throttle.Decision.Bounds.{
  HasRoom, throttle_decision_refusals, spot_lifetime_decision-allow,
}
use nim_hunt.Throttle.Window.{PayoutRow, combined_window_state}
use nim_hunt.Throttle.Window.Counts.{uncovered, combined_window_state-counts}
use nim_hunt.Throttle.Ledger.{
  rows_within, payout_window_state, SecurityRecord, unexpired, keeps, classify,
}
use nim_hunt.Throttle.Ledger.Prune.{keeps_live}
use nim_hunt.Throttle.Reserve.{ok, explicitly_released, reserve_payout_slot, read_request}
use nim_hunt.Throttle.Submit.{
  Settings, held, sent, Submitter, payout_security_decision, submit_with_security,
  submit_with_throttle,
}
use nim_hunt.Throttle.Submit.Composed.{admitted_open_claim_held}
use nim_hunt.Throttle.Submit.Lapse.{lapsed_hold_unreserved}
use nim_hunt.Tests.Throttle.{after, decided, limits, store, open_spot, clean_record, reservation}

abbrev state : ℕ → ℕ → WindowState
state count amount = record {
  now = 2000;
  payout_count = count;
  payout_amount = amount;
  oldest_created_at = some 1990;
}

full_refused : (throttle_decision limits (state 2 200) 100 none).allow ≡ false
unfolding throttle_decision
full_refused = refl

throttle_decision_refusals_example :
    let d = throttle_decision limits (state 2 200) 100 none in
    ((d.manual_review ≡ true) × (d.retry_at ≡ none) × (200 < 100))
    ⊎ ((d.manual_review ≡ false) × (d.retry_at ≢ none))
throttle_decision_refusals_example =
    throttle_decision_refusals limits (state 2 200) none 100 full_refused

spot_lifetime_decision-allow_example :
    ((spot_lifetime_decision limits (state 1 100) 100 open_spot).allow ≡ true)
    ↔ HasRoom 2 200 (state 1 100) 100
spot_lifetime_decision-allow_example =
    spot_lifetime_decision-allow limits (state 1 100) 100 open_spot

abbrev row : PayoutRow
row = record { trans_id = 1; claim_id = some 3; spot_id = some 6; amount = 100; created_at = 1990 }

-- Claim 3 has a row and a reservation, claim 4 only a reservation.
combined_window_state-counts_example :
    let state =
      (combined_window_state 2000 (row ∷ []) (reservation 3 1980 ∷ reservation 4 1990 ∷ [])).0 in
    (state.payout_count
      ≡ length (row ∷ [])
        + total (uncovered (row ∷ []) (λ r. 1)) (reservation 3 1980 ∷ reservation 4 1990 ∷ []))
    × (state.payout_amount
        ≡ 100
          + total
              (uncovered (row ∷ []) (λ r. r.amount))
              (reservation 3 1980 ∷ reservation 4 1990 ∷ []))
combined_window_state-counts_example =
    combined_window_state-counts 2000 (row ∷ []) (reservation 3 1980 ∷ reservation 4 1990 ∷ [])

keeps_live_example : keeps limits 2000 (reservation 3 1980) (classify store 3) ≡ true
keeps_live_example = keeps_live limits store 2000 (reservation 3 1980) live refl
  where
    live : unexpired limits 2000 (reservation 3 1980) ≡ true
    live = refl

-- A public deployment that holds a claim for 500 seconds and compares addresses as they are.
abbrev settings : Settings
settings = record { public_deployment = true; payout_hold_seconds = 500; canonical = λ a. a }

payable : (payout_security_decision settings store 2000 1).0.allow ≡ true
unfolding payout_security_decision get_claim
payable = refl

abbrev held_record : SecurityRecord
held_record = record clean_record {
  manual_review = true;
  manual_review_reason = some Reason.manual_review;
}

-- A sender that reports the claim it is asked to pay.
abbrev sender : Submitter ℕ
sender db id amount to = ok (sent id, db)

over_limit :
    reserve_payout_slot limits (payout_security_decision settings store 2000 3).1 2000 3 201
    ≡ ok (decided store 2000 3 201, after store 2000 3 201)
unfolding decided after payout_security_decision get_claim reserve_payout_slot
over_limit = refl

refused_over_limit : (decided store 2000 3 201).allow ≡ false
unfolding decided
refused_over_limit = refl

open_admitted :
    reserve_payout_slot limits store 2000 1 100
    ≡ ok (decided store 2000 1 100, after store 2000 1 100)
unfolding decided after reserve_payout_slot
open_admitted = refl

is_open : (read_request limits store 2000 1 100).open_standard ≡ true
unfolding decided
is_open = refl

open_allowed :
    ((decided store 2000 1 100).allow ≡ true)
    × ((decided store 2000 1 100).reservation_created ≡ true)
unfolding decided
open_allowed = (refl, refl)

admitted_open_claim_held_example :
    (d' : Decision) × (submit_with_throttle limits settings 2000 2000
        (submit_with_security settings 9000 sender)
        store
        1
        100
        none
      ≡ ok (held 1 d', after store 2000 1 100))
    × (d'.allow ≡ false)
unfolding explicitly_released
admitted_open_claim_held_example =
    admitted_open_claim_held limits settings sender 2000 2000 9000 1 100 store none
      {r = clean_record} refl unreleased payable is_open open_admitted open_allowed.0 open_allowed.1
  where
    unreleased : explicitly_released (some clean_record) ≡ false
    unreleased = refl

lapsing : (payout_security_decision settings store 1400 3).0.reason ≡ security_hold
unfolding payout_security_decision get_claim
lapsing = refl

lapsed : (payout_security_decision settings store 1500 3).0.allow ≡ true
unfolding payout_security_decision get_claim
lapsed = refl

lapsed_hold_unreserved_example :
    submit_with_throttle limits settings 1400 1450
      (submit_with_security settings 1500 sender)
      store
      3
      100
      none
    ≡ ok (sent 3, store)
lapsed_hold_unreserved_example =
    lapsed_hold_unreserved limits settings sender 1400 1450 1500 3 100 store none lapsing lapsed

payout_window_state-counts_example :
    let query = payout_window_state limits store 2000 in
    let loops = (combined_window_state 2000 (rows_within 60 2000 store.trans) []).0 in
    (query.payout_count ≡ loops.payout_count) × (query.payout_amount ≡ loops.payout_amount)
payout_window_state-counts_example = payout_window_state-counts limits store 2000
