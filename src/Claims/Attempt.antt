-- ===== src/Claims/Attempt.antt =====
-- A new claim: create_claim_attempt_success_only of claim_code_policy.py, under the wallet checks of
-- claim_security_defence_in_depth.py and the hourly limit of claim_wallet_hourly_limit.py. The route
-- turns a ValueError into its answer inside the transaction, which then commits; any other exception
-- rolls it back.
use nim_hunt.Prelude.{
  ℕ, ◌+◌, Bool, false, ◌&&◌, Option, none, some, List, map, max, ltb, ◌==◌, if◌then◌else◌, length,
  filter, min_of, is_some, contains,
}
use nim_hunt.Prelude.Text.{Text, same, strip}
use nim_hunt.Claims.{SpotRecord, ClaimRecord, CodeRecord, ClaimStore, Binding, Setting}
use nim_hunt.Claims.Rows.{spot_with, claim_with, insert_claim, create_attempt, code_by_text}
use nim_hunt.Claims.Rules.{
  Blocker, claim_rule_check, absent, invalid, clean, normalise_claim_code,
  has_spot_cancellation_started,
}
use nim_hunt.Claims.Promote.{
  Promotion, claim_code_attempt_missing, claim_code_already_used, capacity_full_claim_failed,
  Promoted, promote_if_code_available, verified_wallet_user_ids, binding_of,
  wallet_has_reached_spot_limit,
}

-- What a request brings: whether the user may claim and stands within the radius, and two texts.
pub record Request : Type 0 where
  pub spot_id : ℕ
  pub user_id : ℕ
  pub user_ok : Bool
  pub within_radius : Bool
  pub claim_code : Option Text
  pub payout_address : Option Text

pub data Refusal : Type 0 where
  spot_not_found code_required code_malformed code_not_valid code_used being_cancelled : Refusal
  payout_address_invalid attempt_missing out_of_rewards : Refusal
  rule : Blocker → Refusal
  wallet_required wallet_invalid own_wallet_spot wallet_spot_limit wallet_hourly_limit : Refusal

-- How a call ends, with what the transaction leaves: a claim, a ValueError after which it commits,
-- or another exception after which it rolls back.
pub data Attempted : Type 0 where
  claimed : Option ClaimRecord → ClaimStore → Attempted
  refused : Refusal → ClaimStore → Attempted
  raised : Attempted

-- _clean_optional_nimiq_address: `none` where it raises
abbrev pub payout_max_chars : ℕ
payout_max_chars = 160

unfoldable pub clean_payout_address : Setting → Option Text → Option (Option Text)
clean_payout_address w none = some none
clean_payout_address w (some text) =
    if length (strip text) == 0
    then some none
    else if ltb payout_max_chars (length (strip text))
    then none
    else elim (w.normalise_address (strip text)) [ none ↦ none | some a ↦ some (some a) ]

-- The ValueErrors after a promotion that failed.
abbrev pub promotion_refusal : Promotion → Option Refusal
promotion_refusal claim_code_already_used = some code_used
promotion_refusal claim_code_attempt_missing = some attempt_missing
promotion_refusal capacity_full_claim_failed = some out_of_rewards
promotion_refusal _ = none

unfoldable pub answer_promoted : ℕ → Option Promoted → Attempted
answer_promoted id none = raised
answer_promoted id (some r) = elim (promotion_refusal r.promotion) [
  | some why ↦ refused why r.store
  | none ↦ elim r.found [
    | none ↦ elim (claim_with id r.store.claims) [
      | none ↦ raised
      | some c ↦ claimed (some c) r.store
    ]
    | some c ↦ claimed (some c) r.store
  ]
]

-- The candidate code of a claim, if its Spot has codes.
abbrev pub attempted : ℕ → Option CodeRecord → ClaimStore → ClaimStore
attempted id none st = st
attempted id (some k) st = create_attempt id k.code_id st

-- From the row of the claim on.
unfoldable pub begin_claim :
    Setting → SpotRecord → ℕ → Option CodeRecord → ClaimStore → ℕ → Attempted
begin_claim w s id code st now =
    let tried = attempted id code st in
    if s.claim_duration == 0
    then answer_promoted id (promote_if_code_available w.spots id now tried)
    else elim (claim_with id tried.claims) [ none ↦ raised | some c ↦ claimed (some c) tried ]

unfoldable pub insert_and_begin :
    Setting → SpotRecord → Request → Option CodeRecord → ℕ → ClaimStore → Attempted
insert_and_begin w s r code now st =
    if has_spot_cancellation_started s
    then refused being_cancelled st
    else elim (clean_payout_address w r.payout_address) [
      | none ↦ refused payout_address_invalid st
      | some payout ↦
          begin_claim w s st.next_id code (insert_claim s.spot_id r.user_id payout now st) now
    ]

-- The code of a Spot with codes.
unfoldable pub attempt_with_code : Setting → SpotRecord → Request → ℕ → ClaimStore → Attempted
attempt_with_code w s r now st = elim (normalise_claim_code w.upper r.claim_code) [
  | absent ↦ if s.use_password then refused code_required st else insert_and_begin w s r none now st
  | invalid ↦ refused code_malformed st
  | clean text ↦
      if s.use_password
      then elim (code_by_text s.spot_id text st.codes) [
        | none ↦ refused code_not_valid st
        | some k ↦
            if is_some k.used_by
            then refused code_used st
            else insert_and_begin w s r (some k) now st
      ]
      else insert_and_begin w s r none now st
]

-- create_claim_attempt_success_only
unfoldable pub create_claim_attempt : Setting → Request → ℕ → ClaimStore → Attempted
create_claim_attempt w r now st = elim (spot_with r.spot_id w.spots) [
  | none ↦ refused spot_not_found st
  | some s ↦ elim (claim_rule_check s r.user_id r.user_ok r.within_radius now st) [
    | some blocker ↦ refused (rule blocker) st
    | none ↦ attempt_with_code w s r now st
  ]
]

-- _verified_wallet_owns_spot
unfoldable pub verified_wallet_owns_spot : Setting → ℕ → Text → Bool
verified_wallet_owns_spot w spot_id address = elim (spot_with spot_id w.spots) [
  | none ↦ false
  | some s ↦ if s.created_by == 0 then false else elim (binding_of w.bindings s.created_by) [
    | none ↦ false
    | some b ↦ elim b.wallet_address [ none ↦ false | some owner ↦ same owner address ]
  ]
]

-- A claim of a verified wallet, which is the only address that it is paid to.
unfoldable pub attempt_of_wallet : Setting → Request → Text → ℕ → ClaimStore → Attempted
attempt_of_wallet w r address now st =
    if verified_wallet_owns_spot w r.spot_id address
    then refused own_wallet_spot st
    else if wallet_has_reached_spot_limit w r.spot_id address st.claims
    then refused wallet_spot_limit st
    else create_claim_attempt w (record r { payout_address = some address }) now st

-- _create_claim_attempt_bound_to_verified_wallet
unfoldable pub create_bound_attempt : Setting → Request → ℕ → ClaimStore → Attempted
create_bound_attempt w r now st =
    if w.public_deployment
    then elim (binding_of w.bindings r.user_id) [
      | none ↦ refused wallet_required st
      | some b ↦ elim b.wallet_address [
        | none ↦ refused wallet_invalid st
        | some address ↦ attempt_of_wallet w r address now st
      ]
    ]
    else create_claim_attempt w r now st

abbrev pub hour : ℕ
hour = 3600

-- The rows of _wallet_recent_claim_window: `claimed_at > now - 3600`.
abbrev pub is_recent : ℕ → ClaimRecord → Bool
is_recent now c = ltb now (c.claimed_at + hour)

unfoldable pub wallet_recent_claims : List Binding → Text → ℕ → List ClaimRecord → List ClaimRecord
wallet_recent_claims bindings address now claims =
    let ids = verified_wallet_user_ids bindings address in
    filter (λ c. is_recent now c && contains c.recipient ids) claims

-- _wallet_recent_claim_window
unfoldable pub wallet_recent_claim_window :
    List Binding → Text → ℕ → List ClaimRecord → ℕ × Option ℕ
wallet_recent_claim_window bindings address now claims =
    let rows = wallet_recent_claims bindings address now claims in
    (length rows, min_of (map (λ c. c.claimed_at) rows))

-- What a rate decision says: go on, or come back at a time.
pub data RateDecision : Type 0 where
  allow : RateDecision
  blocked : (retry_at : ℕ) → RateDecision

-- _durable_wallet_rate_decision
unfoldable pub wallet_rate_decision : Setting → Text → ℕ → List ClaimRecord → RateDecision
wallet_rate_decision w address now claims =
    let (count, oldest) = wallet_recent_claim_window w.bindings address now claims in
    if ltb count (max 1 w.hourly_limit)
    then allow
    else blocked (elim oldest [ none ↦ now | some t ↦ t ] + hour + 1)

-- _create_claim_attempt_with_durable_wallet_limit, as installed
unfoldable pub create_limited_attempt : Setting → Request → ℕ → ClaimStore → Attempted
create_limited_attempt w r now st =
    if w.public_deployment
    then elim (binding_of w.bindings r.user_id) [
      | none ↦ create_bound_attempt w r now st
      | some b ↦ elim b.wallet_address [
        | none ↦ create_bound_attempt w r now st
        | some address ↦ elim (wallet_rate_decision w address now st.claims) [
          | allow ↦ create_bound_attempt w r now st
          | blocked _ ↦ refused wallet_hourly_limit st
        ]
      ]
    ]
    else create_bound_attempt w r now st
