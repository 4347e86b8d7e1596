-- ===== src/Claims/Rules.antt =====
-- Whether a claim may begin: get_claim_rule_check of db_access.py with its queries, and
-- _normalise_claim_code.
use nim_hunt.Prelude.{
  ℕ, ◌+◌, Bool, true, false, ◌&&◌, ◌||◌, not, Option, none, some, List, ltb, leb, ◌==◌,
  if◌then◌else◌, length, filter, is_some,
}
use nim_hunt.Prelude.Text.{Text, strip, all, is_digit}
use nim_hunt.Outbox.Store.{claim_pending, claim_success}
use nim_hunt.Settlement.Draw.{is_published}
use nim_hunt.Claims.{SpotRecord, ClaimRecord, CodeRecord, ClaimStore}
use nim_hunt.Claims.Rows.{is_at, is_prizedraw, count_at}

pub data Blocker : Type 0 where
  user_not_allowed own_spot cancellation_pending not_active capacity_full user_limit_reached :
      Blocker
  outside_radius : Blocker

-- has_spot_cancellation_started
unfoldable pub has_spot_cancellation_started : SpotRecord → Bool
has_spot_cancellation_started s = s.cancellation_started || s.has_leg

abbrev pub has_started : SpotRecord → ℕ → Bool
has_started s now = elim s.starts_at [ none ↦ true | some start ↦ leb start now ]

abbrev pub has_not_ended : SpotRecord → ℕ → Bool
has_not_ended s now = elim s.starts_at [ none ↦ true | some start ↦ ltb now (start + s.ends_at) ]

-- The public view shows the Spot, with availability rank 0.
unfoldable pub is_spot_current : SpotRecord → ℕ → Bool
is_spot_current s now =
    is_published s.status
    && not (has_spot_cancellation_started s)
    && s.has_place
    && has_not_ended s now
    && has_started s now

abbrev pub code_is_at : ℕ → CodeRecord → Bool
code_is_at spot_id k = k.spot_id == spot_id

-- spot_summary_has_public_claim_capacity
unfoldable pub has_claim_capacity : SpotRecord → ClaimStore → Bool
has_claim_capacity s st =
    let counted =
      count_at s.spot_id claim_success st.claims
      + (if is_prizedraw s then count_at s.spot_id claim_pending st.claims else 0) in
    let codes = filter (code_is_at s.spot_id) st.codes in
    if ltb 0 s.max_total_claims && leb s.max_total_claims counted
    then false
    else not (ltb 0 (length codes) && length (filter (λ k. not (is_some k.used_by)) codes) == 0)

-- count_active_claims_for_user_spot
unfoldable pub active_claims_of : SpotRecord → ℕ → List ClaimRecord → ℕ
active_claims_of s user_id claims = length (
    filter
      (λ c.
        c.recipient == user_id
        && (is_at s.spot_id claim_success c || (is_prizedraw s && is_at s.spot_id claim_pending c)))
      claims)

unfoldable pub has_user_reached_claim_limit : SpotRecord → ℕ → List ClaimRecord → Bool
has_user_reached_claim_limit s user_id claims =
    if s.max_claims_per_user == 0
    then false
    else leb s.max_claims_per_user (active_claims_of s user_id claims)

-- get_claim_rule_check, with a known location: whether the user may claim and stands within the
-- radius are arguments.
unfoldable pub claim_rule_check :
    SpotRecord → ℕ → (user_ok : Bool) → (within_radius : Bool) → ℕ → ClaimStore → Option Blocker
claim_rule_check s user_id user_ok within_radius now st =
    if not user_ok
    then some user_not_allowed
    else if s.created_by == user_id
    then some own_spot
    else if has_spot_cancellation_started s
    then some cancellation_pending
    else if not (is_spot_current s now)
    then some not_active
    else if not (has_claim_capacity s st)
    then some capacity_full
    else if has_user_reached_claim_limit s user_id st.claims
    then some user_limit_reached
    else if not within_radius
    then some outside_radius
    else none

abbrev pub is_code_char : ℕ → Bool
is_code_char c = is_digit c || leb b'a' c && leb c b'z' || leb b'A' c && leb c b'Z'

-- What _normalise_claim_code makes of a text.
pub data CodeText : Type 0 where
  absent invalid : CodeText
  clean : Text → CodeText

unfoldable pub normalise_claim_code : (Text → Text) → Option Text → CodeText
normalise_claim_code upper none = absent
normalise_claim_code upper (some text) =
    if length (strip text) == 0
    then absent
    else if not (length (upper (strip text)) == 0) && all is_code_char (upper (strip text))
    then clean (upper (strip text))
    else invalid
