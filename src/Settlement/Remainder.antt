-- ===== src/Settlement/Remainder.antt =====
-- What is left of a Spot when it is over (settlement_updater.py, `settle_spot_remainder_if_ready` up
-- to its commit), in one transaction of the database. Transactions stand newest first.
pub mod Conserves
pub mod Ends
pub mod Starves
use nim_hunt.Prelude.{
  ℕ, ◌-◌, ◌+◌, Bool, true, false, ◌&&◌, ◌||◌, not, Option, none, some, List, [], ltb, leb, ◌==◌,
  if◌then◌else◌, length, filter, find, any, is_some,
}
use nim_hunt.Prelude.Text.{Text, strip}
use nim_hunt.Tables.{fill_spot, claim, creation_fee, remainder_refund, pending, confirmed, failed}
use nim_hunt.Outbox.{Row}
use nim_hunt.Outbox.Store.{
  SpotStatus, published, completed, cancelled, banned, claim_pending, claim_success, ClaimRow,
  is_kind, is_in, is_at,
}
use nim_hunt.Outbox.Finalise.{confirmed_total, transactions_of}
use nim_hunt.Settlement.Draw.{count_claims_by_status, is_claim}

-- The columns of SPOT that are read, whether it is a Prizedraw, and whether its metadata key says
-- that the remainder is settled.
pub record FinalSpot : Type 0 where
  pub spot_id : ℕ
  pub status : SpotStatus
  pub is_prizedraw : Bool
  pub cancellation_started : Bool
  pub max_total_claims : ℕ
  pub starts_at : Option ℕ
  pub ends_at : ℕ
  pub creation_fee : ℕ
  pub remainder_settled : Bool

-- What the refund's sender is given.
pub record Prepared : Type 0 where
  pub amount : ℕ
  pub refund_address : Text
  pub refund_source_tx_hash : Text
  pub manual_review_required : Bool

pub data Remainder : Type 0 where
  spot_missing terminal_without_refund cancellation_managed_separately pending_claims : Remainder
  prizedraw_not_settled not_terminal claim_payouts_unconfirmed : Remainder
  financial_transaction_pending creation_fee_unconfirmed no_remainder : Remainder
  confirmed_deposit_sender_missing : Remainder
  prepared : Prepared → Remainder

abbrev pub is_blocking : Row → Bool
is_blocking t =
    is_kind fill_spot t || is_kind claim t || is_kind creation_fee t || is_kind remainder_refund t

abbrev pub is_confirmed_payout_of : ℕ → Row → Bool
is_confirmed_payout_of claim_id t =
    is_at t.claim_id claim_id && is_kind claim t && is_in confirmed t

-- count_successful_standard_claims_without_confirmed_payout
unfoldable pub unpaid_claim_count : ℕ → List ClaimRow → List Row → ℕ
unpaid_claim_count spot_id claims rows = length (
    filter
      (λ c. is_claim spot_id claim_success c && not (any (is_confirmed_payout_of c.claim_id) rows))
      claims)

abbrev pub is_confirmed_deposit : Row → Bool
is_confirmed_deposit t = is_kind fill_spot t && is_in confirmed t

abbrev pub is_failed_deposit : Row → Bool
is_failed_deposit t = is_kind fill_spot t && is_in failed t

abbrev pub has_sender : Row → Bool
has_sender t = is_confirmed_deposit t && not (length (strip t.from_address) == 0)

unfoldable pub remainder_amount : List Row → ℕ
remainder_amount ts =
    confirmed_total (is_kind fill_spot) ts
    - confirmed_total (is_kind claim) ts
    - confirmed_total (is_kind creation_fee) ts
    - confirmed_total (is_kind remainder_refund) ts

unfoldable pub prepare_refund : FinalSpot → List Row → Remainder × FinalSpot
prepare_refund s ts = elim (find has_sender ts) [
  | none ↦ (confirmed_deposit_sender_missing, s)
  | some source ↦ (
    prepared record {
      amount = remainder_amount ts;
      refund_address = strip source.from_address;
      refund_source_tx_hash = strip source.tx_hash;
      manual_review_required = any is_failed_deposit ts;
    },
    s,
  )
]

-- The rows allow a settlement: the Spot is completed, and nothing or a refund is left.
unfoldable pub settle_rest : FinalSpot → List Row → Remainder × FinalSpot
settle_rest s ts =
    let done = record s { status = completed } in
    if remainder_amount ts == 0
    then (no_remainder, record done { remainder_settled = true })
    else prepare_refund done ts

-- The Spot's transactions.
unfoldable pub settle_transactions : FinalSpot → List Row → Remainder × FinalSpot
settle_transactions s ts =
    if any (λ t. is_blocking t && is_in pending t) ts
    then (financial_transaction_pending, s)
    else if ltb (confirmed_total (is_kind creation_fee) ts) s.creation_fee
    then (creation_fee_unconfirmed, s)
    else settle_rest s ts

-- The payouts of a Spot that is over.
unfoldable pub settle_over : FinalSpot → List ClaimRow → List Row → Remainder × FinalSpot
settle_over s claims rows =
    if not s.is_prizedraw && ltb 0 (unpaid_claim_count s.spot_id claims rows)
    then (claim_payouts_unconfirmed, s)
    else settle_transactions s (transactions_of s.spot_id rows)

-- A published standard Spot is over when its period has ended or its claims are used up.
unfoldable pub is_over : FinalSpot → ℕ → List ClaimRow → Bool
is_over s now claims =
    elim s.starts_at [ none ↦ false | some start ↦ leb (start + s.ends_at) now ]
    || ltb 0 s.max_total_claims
      && leb s.max_total_claims (count_claims_by_status s.spot_id claim_success claims)

unfoldable pub settle_by_status :
    SpotStatus → FinalSpot → ℕ → List ClaimRow → List Row → Remainder × FinalSpot
settle_by_status published s now claims rows =
    if s.is_prizedraw
    then (prizedraw_not_settled, s)
    else if is_over s now claims
    then settle_over s claims rows
    else (not_terminal, s)
settle_by_status completed s now claims rows = settle_over s claims rows
settle_by_status _ s now claims rows = (not_terminal, s)

abbrev pub is_without_refund : SpotStatus → Bool
is_without_refund cancelled = true
is_without_refund banned = true
is_without_refund _ = false

unfoldable pub settle_spot_remainder :
    FinalSpot → ℕ → List ClaimRow → List Row → Remainder × FinalSpot
settle_spot_remainder s now claims rows =
    if is_without_refund s.status
    then (terminal_without_refund, s)
    else if s.cancellation_started
    then (cancellation_managed_separately, s)
    else if ltb 0 (count_claims_by_status s.spot_id claim_pending claims)
    then (pending_claims, s)
    else settle_by_status s.status s now claims rows
