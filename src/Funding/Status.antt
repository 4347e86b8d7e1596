-- ===== src/Funding/Status.antt =====
-- The deposit that an owner is shown (funding_status.py, `deposit_summary`). Rows stand newest first.
use nim_hunt.Prelude.{
  ℕ, ◌+◌, ◌-◌, Bool, true, false, ◌&&◌, ◌||◌, not, Option, none, some, List, ltb, leb, ◌==◌,
  if◌then◌else◌, length, find, any,
}
use nim_hunt.Prelude.Text.{Text, strip, starts_with, codes, same}
use nim_hunt.Tables.{TransStatus, fill_spot, creation_fee, pending, confirmed, failed}
use nim_hunt.Funding.{FundingRow, of_kind, in_status, sum_where, address_key}

unfoldable pub is_real_chain_hash : Text → Bool
is_real_chain_hash h =
    not (length (strip h) == 0) && not (starts_with (codes "NIMHUNT_INTENT:") (strip h))

-- What the rows are compared with: Python's `upper`, and the Spot's fee and addresses.
pub record Fee : Type 0 where
  pub upper : Text → Text
  pub creation_fee : ℕ
  pub deposit_address : Text
  pub creation_fee_address : Text

-- matching_creation_fee_rows, as a test of one row
unfoldable pub is_matching_fee : Fee → FundingRow → Bool
is_matching_fee f t =
    of_kind creation_fee t
    && t.amount == f.creation_fee
    && same (address_key f.upper t.from_address) (address_key f.upper f.deposit_address)
    && same (address_key f.upper t.to_address) (address_key f.upper f.creation_fee_address)

unfoldable pub is_broadcast : FundingRow → Bool
is_broadcast t = (in_status pending t || in_status confirmed t) && is_real_chain_hash t.tx_hash

-- has_broadcast_spot_creation_fee_transaction, of the Spot's rows
unfoldable pub has_broadcast_creation_fee : Fee → List FundingRow → Bool
has_broadcast_creation_fee f rows =
    if f.creation_fee == 0 then true else any (λ t. is_matching_fee f t && is_broadcast t) rows

pub data FeeStatus : Type 0 where
  not_due fee_confirmed_ fee_pending attention_required verification_mismatch retrying : FeeStatus
  preparing waiting_for_funding : FeeStatus

pub data DepositStatus : Type 0 where
  missing processing partial ready : DepositStatus

-- The answer, without the status's label and with `fee_paid`, which equals `fee_confirmed`, left out.
pub record DepositSummary : Type 0 where
  pub status : DepositStatus
  pub paid : Bool
  pub amount : ℕ
  pub recorded_amount : ℕ
  pub submitted_amount : ℕ
  pub amount_due : ℕ
  pub required_total : ℕ
  pub funding_submitted : Bool
  pub funding_complete : Bool
  pub fee_submitted : Bool
  pub fee_confirmed : Bool
  pub fee_status : FeeStatus
  pub requires_attention : Bool
  pub has_any : Bool
  pub confirmed_amount : ℕ
  pub pending_amount : ℕ
  pub failed_amount : ℕ
  pub spot_value : ℕ
  pub creation_fee : ℕ
  pub creation_fee_address : Text
  pub has_submitted : Bool
  pub has_pending : Bool
  pub confirmed_fee_amount : ℕ
  pub pending_fee_amount : ℕ
  pub failed_fee_amount : ℕ
  pub matching_confirmed_fee_amount : ℕ
  pub matching_broadcast_fee_amount : ℕ
  pub local_intent_fee_amount : ℕ
  pub tx_hash : Option Text
  pub created_at : Option ℕ

abbrev pub is_fill : FundingRow → Bool
is_fill t = of_kind fill_spot t

abbrev pub matching_confirmed : Fee → List FundingRow → ℕ
matching_confirmed f rows = sum_where (λ t. is_matching_fee f t && in_status confirmed t) rows

abbrev pub matching_broadcast : Fee → List FundingRow → ℕ
matching_broadcast f rows = sum_where (λ t. is_matching_fee f t && is_broadcast t) rows

abbrev pub local_intent : Fee → List FundingRow → ℕ
local_intent f rows =
    sum_where
      (λ t. is_matching_fee f t && in_status pending t && not (is_real_chain_hash t.tx_hash)) rows

abbrev pub fees_in : TransStatus → List FundingRow → ℕ
fees_in s rows = sum_where (λ t. of_kind creation_fee t && in_status s t) rows

unfoldable pub fee_status_of : Fee → Bool → List FundingRow → FeeStatus
fee_status_of f funding_complete rows =
    if f.creation_fee == 0
    then not_due
    else if leb f.creation_fee (matching_confirmed f rows)
    then fee_confirmed_
    else if leb f.creation_fee (matching_broadcast f rows)
    then fee_pending
    else if ltb 0 (local_intent f rows)
    then attention_required
    else if ltb 0 (fees_in confirmed rows)
    then verification_mismatch
    else if ltb 0 (fees_in failed rows)
    then retrying
    else if funding_complete
    then preparing
    else waiting_for_funding

unfoldable pub status_of : (submitted pending : ℕ) → Bool → DepositStatus
status_of submitted waiting complete =
    if submitted == 0
    then missing
    else if ltb 0 waiting
    then processing
    else if not complete
    then partial
    else ready

abbrev pub is_ready : DepositStatus → Bool
is_ready ready = true
is_ready _ = false

abbrev pub is_partial : DepositStatus → Bool
is_partial partial = true
is_partial _ = false

unfoldable pub deposit_summary : Fee → (total_value : ℕ) → List FundingRow → DepositSummary
deposit_summary f total_value rows =
    let sure = sum_where (λ t. is_fill t && in_status confirmed t) rows in
    let waiting = sum_where (λ t. is_fill t && in_status pending t) rows in
    let lost = sum_where (λ t. is_fill t && in_status failed t) rows in
    let required = total_value + f.creation_fee in
    let complete = ltb 0 required && leb required sure in
    let status_value = status_of (sure + waiting) waiting complete in
    record {
      status = status_value;
      paid = is_ready status_value;
      amount = if is_partial status_value then sure else sure + waiting;
      recorded_amount = sure + waiting + lost;
      submitted_amount = sure + waiting;
      amount_due = required - (sure + waiting);
      required_total = required;
      funding_submitted = ltb 0 required && leb required (sure + waiting);
      funding_complete = complete;
      fee_submitted = f.creation_fee == 0 || leb f.creation_fee (matching_broadcast f rows);
      fee_confirmed = f.creation_fee == 0 || leb f.creation_fee (matching_confirmed f rows);
      fee_status = fee_status_of f complete rows;
      requires_attention = ltb 0 (local_intent f rows);
      has_any = any is_fill rows;
      confirmed_amount = sure;
      pending_amount = waiting;
      failed_amount = lost;
      spot_value = total_value;
      creation_fee = f.creation_fee;
      creation_fee_address = f.creation_fee_address;
      has_submitted = ltb 0 (sure + waiting);
      has_pending = ltb 0 waiting;
      confirmed_fee_amount = fees_in confirmed rows;
      pending_fee_amount = fees_in pending rows;
      failed_fee_amount = fees_in failed rows;
      matching_confirmed_fee_amount = matching_confirmed f rows;
      matching_broadcast_fee_amount = matching_broadcast f rows;
      local_intent_fee_amount = local_intent f rows;
      tx_hash = elim (find is_fill rows) [ none ↦ none | some t ↦ some t.tx_hash ];
      created_at = elim (find is_fill rows) [ none ↦ none | some t ↦ some t.created_at ];
    }
