-- ===== src/Throttle/Decision.antt =====
-- The limits of claim_payout_throttle.py and its three decisions on one more payout.
pub mod Bounds
use nim_hunt.Prelude.{
  String, ℕ, ◌+◌, ◌*◌, ◌/◌, Bool, true, false, Option, none, some, max, ltb, leb, if◌then◌else◌,
  or_else,
}
use nim_hunt.Tables.{Spot}

-- The module's constants, read from the environment. The amounts are in luna.
pub record Limits : Type 0 where
  pub window_seconds : ℕ
  pub max_payout_count : ℕ
  pub max_payout_luna : ℕ
  pub daily_window_seconds : ℕ
  pub daily_max_payout_count : ℕ
  pub daily_max_payout_luna : ℕ
  pub max_automatic_payout_luna : ℕ
  pub spot_window_seconds : ℕ
  pub spot_max_payout_count : ℕ
  pub spot_max_payout_luna : ℕ
  pub spot_lifetime_automatic_percent : ℕ

-- The dictionary that `_combined_window_state` returns, less its `cutoff`, which nothing reads.
pub record WindowState : Type 0 where
  pub now : ℕ
  pub payout_count : ℕ
  pub payout_amount : ℕ
  pub oldest_created_at : Option ℕ

pub data Reason : Type 0 where
  individual_automatic_payout_limit daily_payout_count_limit daily_payout_amount_limit : Reason
  global_payout_count_limit global_payout_amount_limit within_global_payout_limits : Reason
  open_spot_payout_count_limit open_spot_payout_amount_limit within_open_spot_payout_limits : Reason
  open_spot_lifetime_count_limit open_spot_lifetime_amount_limit : Reason
  within_open_spot_lifetime_limits claim_payout_already_materialised : Reason
  existing_payout_reservation : Reason
  claim_missing security_record_missing development_without_security_record : Reason
  manual_review claim_verified_wallet_missing_or_invalid : Reason
  legacy_claim_payout_identity_mismatch security_hold security_checks_passed : Reason

-- What a decision reports, by the keys under which it reports it.
pub data Details : Type 0 where
  window : (payout_count payout_amount : ℕ) → Details
  daily : (payout_count payout_amount : ℕ) → Details
  spot_window :
      (spot_id window_seconds payout_count payout_amount max_count max_amount : ℕ) → Details
  spot_lifetime : (spot_id percent payout_count payout_amount max_count max_amount : ℕ) → Details
  hold : (retry_after_seconds : ℕ) → Details
  identity : (claim_payout verified_wallet recorded_payout : Option String) → Details
  unreported : Details

pub record Decision : Type 0 where
  pub allow : Bool
  pub reason : Reason
  pub retry_at : Option ℕ
  pub manual_review : Bool
  pub details : Details
  pub reservation_reused : Bool
  pub reservation_created : Bool

-- A decision with the keys that most branches leave out.
abbrev pub decide : Bool → Reason → Option ℕ → Bool → Details → Decision
decide allow reason retry review details = record {
  allow = allow;
  reason = reason;
  retry_at = retry;
  manual_review = review;
  details = details;
  reservation_reused = false;
  reservation_created = false;
}

-- When the oldest payout leaves its window, or a whole window from now.
unfoldable pub retry_time : Option ℕ → ℕ → ℕ → ℕ
retry_time (some oldest) now seconds = oldest + seconds + 1
retry_time none now seconds = now + seconds

-- The two checks of the short window, at the end of `throttle_decision`.
unfoldable pub window_decision : Limits → WindowState → ℕ → Decision
window_decision lim state amount =
    let retry = some (retry_time state.oldest_created_at state.now lim.window_seconds) in
    let seen = window state.payout_count state.payout_amount in
    if leb lim.max_payout_count state.payout_count
    then decide false global_payout_count_limit retry false seen
    else if ltb lim.max_payout_luna (state.payout_amount + amount)
    then decide false global_payout_amount_limit retry false seen
    else decide true within_global_payout_limits none false seen

-- The daily checks, where a daily state is given, and then the short window's.
unfoldable pub daily_decision : Limits → WindowState → ℕ → Option WindowState → Decision
daily_decision lim state amount none = window_decision lim state amount
daily_decision lim state amount (some today) =
    let retry = some (
      retry_time today.oldest_created_at (or_else (some today.now) state.now)
        lim.daily_window_seconds) in
    let seen = daily today.payout_count today.payout_amount in
    if leb lim.daily_max_payout_count today.payout_count
    then decide false daily_payout_count_limit retry false seen
    else if ltb lim.daily_max_payout_luna (today.payout_amount + amount)
    then decide false daily_payout_amount_limit retry false seen
    else window_decision lim state amount

unfoldable pub throttle_decision : Limits → WindowState → ℕ → Option WindowState → Decision
unfolding window_decision daily_decision
throttle_decision lim state amount today =
    if ltb lim.max_automatic_payout_luna amount
    then decide false individual_automatic_payout_limit none true
        (window state.payout_count state.payout_amount)
    else daily_decision lim state amount today

unfoldable pub spot_window_decision : Limits → WindowState → ℕ → ℕ → Decision
spot_window_decision lim state amount spot_id =
    let seen =
      spot_window spot_id lim.spot_window_seconds state.payout_count state.payout_amount
        lim.spot_max_payout_count lim.spot_max_payout_luna in
    if leb lim.spot_max_payout_count state.payout_count
    then decide false open_spot_payout_count_limit none true seen
    else if ltb lim.spot_max_payout_luna (state.payout_amount + amount)
    then decide false open_spot_payout_amount_limit none true seen
    else decide true within_open_spot_payout_limits none true seen

-- The share of a Spot's capacity and of its reward pool that may be paid without an operator.
abbrev pub lifetime_max_count : Limits → Spot → ℕ
lifetime_max_count lim spot =
    max 1 (or_else spot.max_total_claims 0) * lim.spot_lifetime_automatic_percent / 100

abbrev pub lifetime_max_amount : Limits → Spot → ℕ
lifetime_max_amount lim spot = spot.total_value * lim.spot_lifetime_automatic_percent / 100

unfoldable pub spot_lifetime_decision : Limits → WindowState → ℕ → Spot → Decision
spot_lifetime_decision lim state amount spot =
    let seen =
      spot_lifetime spot.spot_id lim.spot_lifetime_automatic_percent state.payout_count
        state.payout_amount (lifetime_max_count lim spot) (lifetime_max_amount lim spot) in
    if leb (lifetime_max_count lim spot) state.payout_count
    then decide false open_spot_lifetime_count_limit none true seen
    else if ltb (lifetime_max_amount lim spot) (state.payout_amount + amount)
    then decide false open_spot_lifetime_amount_limit none true seen
    else decide true within_open_spot_lifetime_limits none true seen
