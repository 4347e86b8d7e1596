-- ===== src/Settlement/Draw.antt =====
-- The draw of a Prizedraw (settlement_updater.py, `settle_prizedraw_spot_if_ready` up to its commit),
-- in one transaction of the database. Claims stand oldest first. The random sample is an argument.
pub mod Late
use nim_hunt.Prelude.{
  ℕ, ◌+◌, ◌-◌, Bool, true, false, ◌&&◌, Option, none, some, List, [], map, min, max, ltb, leb, ◌==◌,
  if◌then◌else◌, length, filter, take, contains, or_else,
}
use nim_hunt.Outbox.Store.{
  SpotStatus, published, completed, ClaimStatus, claim_pending, claim_success, claim_failed,
  ClaimRow,
}

pub record PrizeSpot : Type 0 where
  pub spot_id : ℕ
  pub status : SpotStatus
  pub prize_count : Option ℕ
  pub max_total_claims : Option ℕ
  pub starts_at : Option ℕ
  pub ends_at : Option ℕ

pub data ReadyReason : Type 0 where
  capacity_reached spot_ended : ReadyReason

pub data DrawReply : Type 0 where
  not_published not_prizedraw not_ready raised : DrawReply
  settled : ReadyReason → List ℕ → DrawReply

abbrev pub claim_code : ClaimStatus → ℕ
claim_code claim_pending = 0
claim_code claim_success = 1
claim_code claim_failed = 2

abbrev pub is_claim : ℕ → ClaimStatus → ClaimRow → Bool
is_claim spot_id s c = c.spot_id == spot_id && claim_code c.status == claim_code s

abbrev pub is_published : SpotStatus → Bool
is_published published = true
is_published _ = false

unfoldable pub count_claims_by_status : ℕ → ClaimStatus → List ClaimRow → ℕ
count_claims_by_status spot_id s claims = length (filter (is_claim spot_id s) claims)

unfoldable pub spot_absolute_ends_at : PrizeSpot → Option ℕ
spot_absolute_ends_at spot = elim spot.starts_at [
  | none ↦ none
  | some start ↦ elim spot.ends_at [ none ↦ none | some duration ↦ some (start + duration) ]
]

unfoldable pub settlement_ready_reason : PrizeSpot → ℕ → List ClaimRow → Option ReadyReason
settlement_ready_reason spot now claims =
    let entered =
      count_claims_by_status spot.spot_id claim_pending claims
      + count_claims_by_status spot.spot_id claim_success claims in
    let most = or_else spot.max_total_claims 0 in
    if ltb 0 most && leb most entered
    then some capacity_reached
    else elim (spot_absolute_ends_at spot) [
      | none ↦ none
      | some ends ↦ if leb ends now then some spot_ended else none
    ]

-- UPDATE … WHERE spot_id = ? AND status = pending
unfoldable pub fail_pending_claims : ℕ → List ClaimRow → List ClaimRow
fail_pending_claims spot_id claims =
    map (λ c. if is_claim spot_id claim_pending c then record c { status = claim_failed } else c)
      claims

-- At most MAX_LIMIT rows, the query's default.
abbrev pub draw_limit : ℕ
draw_limit = 500

unfoldable pub get_successful_claims : ℕ → List ClaimRow → List ClaimRow
get_successful_claims spot_id claims =
    take draw_limit (filter (is_claim spot_id claim_success) claims)

abbrev pub is_winner : ℕ → List ℕ → ClaimRow → Bool
is_winner spot_id ids c = is_claim spot_id claim_success c && contains c.claim_id ids

unfoldable pub mark_winners_pending : ℕ → List ℕ → List ClaimRow → List ClaimRow
mark_winners_pending spot_id ids claims =
    map (λ c. if is_winner spot_id ids c then record c { status = claim_pending } else c) claims

-- `random.sample`: a number of items, and what to draw from.
abbrev pub Sample : Type 0
Sample = ℕ → List ClaimRow → List ClaimRow

abbrev pub winner_ids : Sample → PrizeSpot → ℕ → List ClaimRow → List ℕ
winner_ids sample spot prizes claims =
    let eligible = get_successful_claims spot.spot_id claims in
    map (λ c. c.claim_id) (sample (min (max 1 prizes) (length eligible)) eligible)

-- The Spot and the claims after the draw.
unfoldable pub draw :
    Sample → PrizeSpot → ℕ → ReadyReason → List ClaimRow → DrawReply × PrizeSpot × List ClaimRow
draw sample spot prizes reason claims =
    let closed = fail_pending_claims spot.spot_id claims in
    let ids = winner_ids sample spot prizes closed in
    if length (filter (is_winner spot.spot_id ids) closed) == length ids
    then (
      settled reason ids,
      record spot { status = completed },
      mark_winners_pending spot.spot_id ids closed,
    )
    else (raised, spot, claims)

unfoldable pub settle_prizedraw_spot_if_ready :
    Sample → PrizeSpot → ℕ → List ClaimRow → DrawReply × PrizeSpot × List ClaimRow
settle_prizedraw_spot_if_ready sample spot now claims =
    if is_published spot.status
    then elim spot.prize_count [
      | none ↦ (not_prizedraw, spot, claims)
      | some prizes ↦ elim (settlement_ready_reason spot now claims) [
        | none ↦ (not_ready, spot, claims)
        | some reason ↦ draw sample spot prizes reason claims
      ]
    ]
    else (not_published, spot, claims)
