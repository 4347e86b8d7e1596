-- ===== src/Tests/Throttle.antt =====
-- The throttle on a store with an Open Standard Spot (id 5, four rewards of 100) and a code-protected
-- one (id 6), with small limits: two payouts of 250 in 60 seconds, three of 600 in 1000.
use nim_hunt.Prelude.{ℕ, ◌≡◌, ◌≤◌, refl, true, false, none, some, [], ◌∷◌, arith, total}
use nim_hunt.Tables.{Trans, TransType, TransStatus, Claim, Spot, get_claim, get_spot}
use nim_hunt.Throttle.Decision.{
  retry_time, Limits, Decision, throttle_decision, spot_window_decision, spot_lifetime_decision,
}
use nim_hunt.Throttle.Window.{
  tally_rows, tally_reservations, window_view, Reservation, combined_window_state,
}
use nim_hunt.Throttle.Ledger.{
  is_prizedraw, lifetime_spot_payout_rows, rows_within, recent_payout_rows, prune_reservations,
  Store, items, item, not_dict, falsy, value, invalid, SecurityRecord, clean_reservations, encode,
  keeps, classify, pays, is_payout,
}
use nim_hunt.Throttle.Exposure.{made}
use nim_hunt.Throttle.Reserve.{
  hold_record, review_details, mark_review_details, mark_review, explicitly_released,
  new_reservation, others, renew_first, renew, already_paid, materialised, is_open_standard,
  spot_of_claim, resolve_spot, pruned_ledger, lifetime_view, spot_view, daily_view, short_view,
  open_spot_decision, admit, reuse, recheck, create, ok, reserve_payout_slot, reserve_request,
  read_request, save,
}
use nim_hunt.Throttle.Reserve.Preserves.{IsSafe, reserve_payout_slot-IsSafe}
use nim_hunt.Throttle.Timeline.{pay, IsCovered, Moment, Reach, here, next, wait, reserve, SafeAt}
use nim_hunt.Throttle.Timeline.Bounded.{Reach-payouts_bounded}

abbrev pub limits : Limits
limits = record {
  window_seconds = 60;
  max_payout_count = 2;
  max_payout_luna = 250;
  daily_window_seconds = 1000;
  daily_max_payout_count = 3;
  daily_max_payout_luna = 600;
  max_automatic_payout_luna = 200;
  spot_window_seconds = 1000;
  spot_max_payout_count = 3;
  spot_max_payout_luna = 500;
  spot_lifetime_automatic_percent = 50;
}

abbrev pub open_spot : Spot
open_spot = record {
  spot_id = 5;
  use_password = false;
  max_total_claims = some 4;
  total_value = 400;
}

abbrev pub code_spot : Spot
code_spot = record {
  spot_id = 6;
  use_password = true;
  max_total_claims = some 4;
  total_value = 400;
}

abbrev pub claim_row : ℕ → ℕ → Claim
claim_row id spot = record {
  claim_id = id;
  spot_id = spot;
  claimed_at = some 1000;
  payout_address = some "NQ-A";
}

abbrev pub clean_record : SecurityRecord
clean_record = record {
  verified_wallet = some "NQ-A";
  payout_address = none;
  manual_review = false;
  manual_review_reason = none;
  manual_review_marked_at = none;
  manual_review_details = none;
  manual_review_released_at = none;
}

-- Claims 1 and 2 of the open Spot, claims 3 and 4 of the other.
abbrev pub store : Store
store = record {
  claims = claim_row 1 5 ∷ claim_row 2 5 ∷ claim_row 3 6 ∷ claim_row 4 6 ∷ [];
  spots = open_spot ∷ code_spot ∷ [];
  prizedraws = [];
  trans = [];
  ledger = items (not_dict ∷ item (value 9) invalid falsy falsy falsy falsy falsy ∷ []);
  records = λ id. some clean_record;
}

abbrev pub start : Moment
start = record { now = 2000; db = store }

abbrev reward : ℕ → ℕ
reward claim_id = 100

clean_start : clean_reservations store.ledger ≡ []
unfolding clean_reservations
clean_start = refl

start-SafeAt : SafeAt limits reward start
unfolding clean_reservations
start-SafeAt = record { unique = tt; rewards = tt; bounded = omega arith }

unfoldable pub decided : Store → ℕ → ℕ → ℕ → Decision
unfolding reserve_request read_request create recheck reuse admit open_spot_decision short_view
    daily_view spot_view lifetime_view window_view combined_window_state tally_reservations
    tally_rows pruned_ledger resolve_spot prune_reservations keeps classify clean_reservations
    recent_payout_rows rows_within lifetime_spot_payout_rows throttle_decision retry_time
    spot_window_decision spot_lifetime_decision get_claim get_spot is_prizedraw spot_of_claim
    is_open_standard materialised already_paid renew renew_first others new_reservation
    explicitly_released hold_record mark_review mark_review_details review_details is_payout pays
decided db now id amount =
    (reserve_request limits db (read_request limits db now id amount)).decision

unfoldable pub after : Store → ℕ → ℕ → ℕ → Store
unfolding save reserve_request read_request create recheck reuse admit open_spot_decision short_view
    daily_view spot_view lifetime_view window_view combined_window_state tally_reservations
    tally_rows pruned_ledger resolve_spot prune_reservations keeps classify clean_reservations
    recent_payout_rows rows_within lifetime_spot_payout_rows throttle_decision retry_time
    spot_window_decision spot_lifetime_decision get_claim get_spot is_prizedraw spot_of_claim
    is_open_standard materialised already_paid renew renew_first others new_reservation
    explicitly_released hold_record mark_review mark_review_details review_details is_payout pays
after db now id amount = save db (reserve_request limits db (read_request limits db now id amount))

reserve_first :
    reserve_payout_slot limits store 2000 3 100
    ≡ ok (decided store 2000 3 100, after store 2000 3 100)
unfolding after decided reserve_payout_slot
reserve_first = refl

reserve_payout_slot-IsSafe_example :
    ((after store 2000 3 100).trans ≡ store.trans)
    × IsSafe limits reward 2000
        (after store 2000 3 100).trans
        (clean_reservations (after store 2000 3 100).ledger)
reserve_payout_slot-IsSafe_example =
    reserve_payout_slot-IsSafe limits reward store 2000 3 (omega arith) start-SafeAt reserve_first

abbrev pub reservation : ℕ → ℕ → Reservation
reservation id now = record {
  claim_id = id;
  amount = 100;
  reserved_at = now;
  short_reserved_at = now;
  daily_reserved_at = now;
  spot_reserved_at = now;
  spot_id = 6;
}

ledger_after : (after store 2000 3 100).ledger ≡ encode (reservation 3 2000 ∷ [])
unfolding after
ledger_after = refl

-- The payout of claim 3, made two seconds after its reservation.
abbrev payout : Trans
payout = record {
  trans_id = 1;
  spot_id = some 6;
  claim_id = some 3;
  kind = TransType.claim;
  amount = 100;
  from_address = "NQ-S";
  to_address = "NQ-A";
  tx_hash = "aa";
  status = TransStatus.pending;
  created_at = 2002;
}

abbrev reserved : Moment
reserved = record { now = 2002; db = after store 2000 3 100 }

payout-IsCovered : IsCovered limits reserved payout (reservation 3 2000)
unfolding after
payout-IsCovered = record {
  payout = refl;
  claim_id = refl;
  amount = refl;
  held = refl;
  short_live = refl;
  daily_live = refl;
  unpaid = refl;
}

history :
    Reach limits reward start
      (record reserved { db = record reserved.db { trans = payout ∷ reserved.db.trans } })
history =
    next
      (next (next here (reserve 3 _ (after store 2000 3 100) (omega arith) reserve_first))
        (wait 2002 (omega arith)))
      (pay payout (reservation 3 2000) payout-IsCovered)

Reach-payouts_bounded_example :
    let trans = payout ∷ reserved.db.trans in
    (total (made (λ a. 1) 60 2002) trans ≤ 2)
    × (total (made (λ a. a) 60 2002) trans ≤ 250)
    × (total (made (λ a. 1) 1000 2002) trans ≤ 3)
    × (total (made (λ a. a) 1000 2002) trans ≤ 600)
Reach-payouts_bounded_example = Reach-payouts_bounded limits reward start start-SafeAt history
