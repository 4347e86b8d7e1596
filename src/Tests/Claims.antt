-- ===== src/Tests/Claims.antt =====
-- A Spot with two codes on a public deployment: a user claims at once, a second one with the same code.
use nim_hunt.Prelude.{ℕ, ◌≡◌, refl, ◌≤◌, true, false, some, none, List, [], ◌∷◌, length, filter}
use nim_hunt.Prelude.Text.{codes}
use nim_hunt.Outbox.Store.{published, claim_success}
use nim_hunt.Claims.{SpotRecord, CodeRecord, ClaimStore, Binding, Setting}
use nim_hunt.Claims.Rows.{spot_with, count_at}
use nim_hunt.Claims.Rules.{code_is_at}
use nim_hunt.Claims.Promote.{wallet_active_claim_count, binding_of}
use nim_hunt.Claims.Rows
use nim_hunt.Claims.Rules
use nim_hunt.Claims.Promote
use nim_hunt.Claims.Attempt
use nim_hunt.Claims.Attempt.{
  Request, refused, code_used, create_limited_attempt, wallet_recent_claims,
}
use nim_hunt.Claims.Timeline.{Reach, here, attempts, after_attempt, empty_store}
use nim_hunt.Claims.Moves.{Moves}
use nim_hunt.Claims.Moves.Attempts.{attempt-Moves}
use nim_hunt.Claims.Capacity.{Reach-within_capacity}
use nim_hunt.Claims.Codes.Enough.{Reach-enough_codes}
use nim_hunt.Claims.Wallets.Hourly.{Reach-within_hourly_limit}
use nim_hunt.Claims.Wallets.Spots.{Reach-within_spot_limit}

abbrev pub coded_spot : SpotRecord
coded_spot = record {
  spot_id = 7;
  created_by = 1;
  status = published;
  use_password = true;
  claim_duration = 0;
  max_total_claims = 2;
  max_claims_per_user = 1;
  prize_count = none;
  starts_at = some 900;
  ends_at = 5000;
  has_place = true;
  cancellation_started = false;
  has_leg = false;
}

abbrev pub spot_codes : List CodeRecord
spot_codes =
    record { code_id = 1; spot_id = 7; code = codes "AB1"; used_by = none }
    ∷ record { code_id = 2; spot_id = 7; code = codes "AB2"; used_by = none }
    ∷ []

abbrev pub hunters : List Binding
hunters =
    record { key_user = 5; user_id = some 5; wallet_address = some (codes "NQ05") }
    ∷ record { key_user = 6; user_id = some 6; wallet_address = some (codes "NQ06") }
    ∷ []

abbrev pub setting : Setting
setting = record {
  spots = coded_spot ∷ [];
  bindings = hunters;
  public_deployment = true;
  hourly_limit = 20;
  stale_after = 180;
  upper = λ t. t;
  normalise_address = λ t. some t;
}

abbrev pub asks : ℕ → Request
asks user = record {
  spot_id = 7;
  user_id = user;
  user_ok = true;
  within_radius = true;
  claim_code = some (codes "AB1");
  payout_address = none;
}

abbrev pub start : ClaimStore
start = empty_store spot_codes

abbrev pub first : ClaimStore
first = after_attempt start (create_limited_attempt setting (asks 5) 1000 start)

abbrev pub second : ClaimStore
second = after_attempt first (create_limited_attempt setting (asks 6) 1000 first)

pub history : Reach setting start 1000 second
history = attempts (attempts (here 1000) (asks 5)) (asks 6)

first_wins : count_at 7 claim_success first.claims ≡ 1
unfolding count_at create_limited_attempt binding_of Attempt.wallet_rate_decision
    Attempt.wallet_recent_claim_window wallet_recent_claims empty_store Attempt.create_bound_attempt
    Attempt.attempt_of_wallet Attempt.verified_wallet_owns_spot spot_with
    Promote.wallet_has_reached_spot_limit wallet_active_claim_count Attempt.create_claim_attempt
    Rules.claim_rule_check Rules.has_spot_cancellation_started Rules.is_spot_current
    Attempt.answer_promoted Attempt.attempt_with_code Attempt.begin_claim
    Attempt.clean_payout_address Attempt.insert_and_begin Promote.promote Promote.promote_at
    Promote.promote_if_code_available Promote.promote_with_code Promote.settle_code
    Promote.verified_wallet_user_ids Rows.attempt_for_claim Rows.claim_with Rows.code_by_text
    Rows.code_with Rows.consume_code Rows.create_attempt Rows.fail_pending_if_capacity_full
    Rows.insert_claim Rows.may_use Rows.modify_claim_status Rows.release_code Rows.update_status
    Rules.active_claims_of Rules.has_claim_capacity Rules.has_user_reached_claim_limit
    Rules.normalise_claim_code
first_wins = refl

second_refused : create_limited_attempt setting (asks 6) 1000 first ≡ refused code_used first
unfolding count_at create_limited_attempt binding_of Attempt.wallet_rate_decision
    Attempt.wallet_recent_claim_window wallet_recent_claims empty_store Attempt.create_bound_attempt
    Attempt.attempt_of_wallet Attempt.verified_wallet_owns_spot spot_with
    Promote.wallet_has_reached_spot_limit wallet_active_claim_count Attempt.create_claim_attempt
    Rules.claim_rule_check Rules.has_spot_cancellation_started Rules.is_spot_current
    Attempt.answer_promoted Attempt.attempt_with_code Attempt.begin_claim
    Attempt.clean_payout_address Attempt.insert_and_begin Promote.promote Promote.promote_at
    Promote.promote_if_code_available Promote.promote_with_code Promote.settle_code
    Promote.verified_wallet_user_ids Rows.attempt_for_claim Rows.claim_with Rows.code_by_text
    Rows.code_with Rows.consume_code Rows.create_attempt Rows.fail_pending_if_capacity_full
    Rows.insert_claim Rows.may_use Rows.modify_claim_status Rows.release_code Rows.update_status
    Rules.active_claims_of Rules.has_claim_capacity Rules.has_user_reached_claim_limit
    Rules.normalise_claim_code
second_refused = refl

hunters-IsBound_5 :
    binding_of hunters 5
    ≡ some (record { key_user = 5; user_id = some 5; wallet_address = some (codes "NQ05") })
unfolding binding_of
hunters-IsBound_5 = refl

Reach-within_capacity_example : count_at 7 claim_success second.claims ≤ 2
unfolding spot_with
Reach-within_capacity_example =
    Reach-within_capacity setting spot_codes coded_spot refl refl refl history

Reach-enough_codes_example :
    count_at 7 claim_success second.claims ≤ length (filter (code_is_at 7) second.codes)
unfolding spot_with
Reach-enough_codes_example = Reach-enough_codes setting spot_codes 7 coded_spot refl refl history

Reach-within_hourly_limit_example :
    length (wallet_recent_claims hunters (codes "NQ05") 1000 second.claims) ≤ 20
unfolding binding_of
Reach-within_hourly_limit_example =
    Reach-within_hourly_limit setting spot_codes (codes "NQ05") refl (λ h. refl, (λ h. refl, tt))
      history

Reach-within_spot_limit_example :
    wallet_active_claim_count hunters coded_spot (codes "NQ05") second.claims ≤ 1
unfolding binding_of spot_with
Reach-within_spot_limit_example =
    Reach-within_spot_limit setting spot_codes (codes "NQ05") coded_spot refl
      (λ h. refl, (λ h. refl, tt)) refl refl refl history

attempt-Moves_example :
    Moves setting 1000 start
      (after_attempt start (create_limited_attempt setting (asks 5) 1000 start))
attempt-Moves_example = attempt-Moves setting 1000 start (asks 5)
