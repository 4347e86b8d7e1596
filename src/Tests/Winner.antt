-- ===== src/Tests/Winner.antt =====
-- A winner of a completed Prizedraw with codes, and its heartbeat.
use nim_hunt.Prelude.{◌≡◌, refl, true, false, some, none, [], ◌∷◌}
use nim_hunt.Outbox.Store.{completed, claim_pending, claim_failed}
use nim_hunt.Claims.{SpotRecord, ClaimRecord, ClaimStore, Setting}
use nim_hunt.Claims.Rows.{
  spot_with, claim_with, attempt_for_claim, with_status, modify_claim_status,
}
use nim_hunt.Claims.Refresh.{no_distance, processed, process_heartbeat}
use nim_hunt.Claims.Winner.{process_heartbeat-ends_wait}

abbrev drawn_spot : SpotRecord
drawn_spot = record {
  spot_id = 3;
  created_by = 1;
  status = completed;
  use_password = true;
  claim_duration = 0;
  max_total_claims = 10;
  max_claims_per_user = 1;
  prize_count = some 1;
  starts_at = some 100;
  ends_at = 500;
  has_place = true;
  cancellation_started = false;
  has_leg = false;
}

abbrev winner : ClaimRecord
winner = record {
  claim_id = 4;
  spot_id = 3;
  recipient = 5;
  payout_address = none;
  status = claim_pending;
  claimed_at = 200;
  updated_at = 700;
}

abbrev drawn : ClaimStore
drawn = record { next_id = 5; claims = winner ∷ []; codes = []; attempts = [] }

abbrev draws : Setting
draws = record {
  spots = drawn_spot ∷ [];
  bindings = [];
  public_deployment = true;
  hourly_limit = 20;
  stale_after = 180;
  upper = λ t. t;
  normalise_address = λ t. some t;
}

process_heartbeat-ends_wait_example :
    process_heartbeat draws 4 5 no_distance 800 drawn
    ≡ processed
        (some (with_status claim_failed 800 winner))
        (modify_claim_status 4 claim_failed 800 drawn)
unfolding claim_with spot_with attempt_for_claim
process_heartbeat-ends_wait_example =
    process_heartbeat-ends_wait draws 4 800 drawn winner drawn_spot no_distance refl refl refl refl
      refl refl refl
