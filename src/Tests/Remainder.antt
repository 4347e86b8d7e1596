-- ===== src/Tests/Remainder.antt =====
-- A completed Spot of which 600 are left, its refund, and a Spot that paid 500 claims.
use nim_hunt.Prelude.{◌≡◌, refl, ap, true, false, ◌&&◌, none, some, List, [], ◌∷◌, ◌++◌, arith, any}
use nim_hunt.Prelude.Text.{strip}
use nim_hunt.Tables.{fill_spot, creation_fee, remainder_refund, confirmed}
use nim_hunt.Outbox.{Row}
use nim_hunt.Outbox.Store.{completed, ClaimRow, claim_success, is_kind, is_in}
use nim_hunt.Outbox.Finalise.{confirmed_total, transactions_of}
use nim_hunt.Settlement.Draw.{count_claims_by_status}
use nim_hunt.Settlement.Remainder.{
  FinalSpot, Prepared, prepared, no_remainder, settle_spot_remainder, settle_by_status, settle_over,
  unpaid_claim_count, settle_transactions, settle_rest, remainder_amount, prepare_refund,
}
use nim_hunt.Settlement.Remainder.Conserves.{IsBacked, settle_spot_remainder-IsBacked}
use nim_hunt.Settlement.Remainder.Ends.{settle_spot_remainder-ends}
use nim_hunt.Settlement.Remainder.Starves.{is_prepared, settle_spot_remainder-starves}
use nim_hunt.Tests.Outbox.{claim_row, payout_address}
use nim_hunt.Tests.Window.{copies}

abbrev final_spot : FinalSpot
final_spot = record {
  spot_id = 3;
  status = completed;
  is_prizedraw = false;
  cancellation_started = false;
  max_total_claims = 2;
  starts_at = some 100;
  ends_at = 500;
  creation_fee = 100;
  remainder_settled = false;
}

abbrev final_claims : List ClaimRow
final_claims = record { claim_id = 7; spot_id = 3; status = claim_success } ∷ []

abbrev final_rows : List Row
final_rows =
    record claim_row { amount = 300; status = confirmed }
    ∷ record claim_row { kind = creation_fee; claim_id = none; amount = 100; status = confirmed }
    ∷ record claim_row {
      kind = fill_spot;
      claim_id = none;
      amount = 1000;
      from_address = payout_address;
      status = confirmed;
    }
    ∷ []

abbrev due : Prepared
due = record {
  amount = 600;
  refund_address = payout_address;
  refund_source_tx_hash = strip claim_row.tx_hash;
  manual_review_required = false;
}

abbrev refund : Row
refund = record claim_row {
  kind = remainder_refund;
  claim_id = none;
  amount = 600;
  status = confirmed;
}

is_due : settle_spot_remainder final_spot 9000 final_claims final_rows ≡ (prepared due, final_spot)
unfolding settle_spot_remainder count_claims_by_status settle_by_status settle_over
    unpaid_claim_count settle_transactions transactions_of confirmed_total settle_rest
    remainder_amount prepare_refund
is_due = refl

settle_spot_remainder-IsBacked_example : IsBacked final_spot (transactions_of 3 final_rows) due
settle_spot_remainder-IsBacked_example =
    settle_spot_remainder-IsBacked final_spot 9000 final_claims final_rows due
      (ap (λ x. x.0) is_due)

settle_spot_remainder-ends_example :
    settle_spot_remainder final_spot 9900 final_claims (refund ∷ final_rows)
    ≡ (no_remainder, record final_spot { remainder_settled = true })
settle_spot_remainder-ends_example =
    settle_spot_remainder-ends final_spot final_spot due 9000 9900 final_claims final_rows refund
      is_due refl refl refl refl (omega arith)

abbrev crowded : List Row
crowded = copies 500 (record claim_row { amount = 1; status = confirmed }) ++ final_rows

no_fee_seen :
    any (λ t. is_kind creation_fee t && is_in confirmed t) (transactions_of 3 crowded) ≡ false
unfolding transactions_of
no_fee_seen = refl

settle_spot_remainder-starves_example :
    (is_prepared (settle_spot_remainder final_spot 9000 final_claims crowded).0 ≡ false)
    × ((settle_spot_remainder final_spot 9000 final_claims crowded).1 ≡ final_spot)
settle_spot_remainder-starves_example =
    settle_spot_remainder-starves final_spot 9000 final_claims crowded (omega arith) no_fee_seen
