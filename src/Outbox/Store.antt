-- ===== src/Outbox/Store.antt =====
-- The tables that the outbox writes, and db_access.py's changes of them. Transactions stand newest
-- first. `none` is an exception, after which the caller's transaction rolls back.
use nim_hunt.Prelude.{
  ℕ, Bool, true, false, ◌&&◌, ◌||◌, not, Option, none, some, List, [], ◌∷◌, ltb, ◌==◌,
  if◌then◌else◌, length, filter, find, any, map,
}
use nim_hunt.Prelude.Text.{Text, strip, all, same}
use nim_hunt.Chain.Python.{Whole, negative}
use nim_hunt.Tables.{
  TransType, fill_spot, claim, type_code, TransStatus, pending, confirmed, failed, status_code,
}
use nim_hunt.Outbox.{Row}

pub data SpotStatus : Type 0 where
  draft published completed cancelled banned : SpotStatus

pub data ClaimStatus : Type 0 where
  claim_pending claim_success claim_failed : ClaimStatus

pub record SpotRow : Type 0 where
  pub spot_id : ℕ
  pub status : SpotStatus
  pub is_prizedraw : Bool

pub record ClaimRow : Type 0 where
  pub claim_id : ℕ
  pub spot_id : ℕ
  pub status : ClaimStatus

pub record Db : Type 0 where
  pub rows : List Row
  pub spots : List SpotRow
  pub claims : List ClaimRow

abbrev pub is_kind : TransType → Row → Bool
is_kind k t = type_code t.kind == type_code k

abbrev pub is_in : TransStatus → Row → Bool
is_in s t = status_code t.status == status_code s

abbrev pub is_at : Option ℕ → ℕ → Bool
is_at none id = false
is_at (some n) id = n == id

unfoldable pub row_of : ℕ → List Row → Option Row
row_of id rows = find (λ t. t.trans_id == id) rows

-- UPDATE … WHERE trans_id = ?
unfoldable pub change : ℕ → (Row → Row) → List Row → List Row
change id f rows = map (λ t. if t.trans_id == id then f t else t) rows

-- The columns that a settled row gets; the statement names pending rows only.
unfoldable pub settled : TransStatus → Option Whole → Row → Row
settled s block t =
    if is_in pending t
    then record t {
      status = s;
      block_number = elim block [ none ↦ t.block_number | some b ↦ some b ];
    }
    else t

-- modify_transaction_status, set_transaction_status_to_confirmed and …_failed: only a pending row
-- changes; a row that has the status already is left; anything else raises.
unfoldable pub set_status : ℕ → TransStatus → Option Whole → List Row → Option (List Row)
set_status id s block rows = elim (row_of id rows) [
  | none ↦ none
  | some t ↦
      if is_in pending t
      then some (change id (settled s block) rows)
      else if is_in s t
      then some rows
      else none
]

abbrev pub is_negative : Option Whole → Bool
is_negative (some negative) = true
is_negative _ = false

unfoldable pub with_details : Text → Text → ℕ → Option Whole → Row → Row
with_details from to amount block t = record t {
  from_address = from;
  to_address = to;
  amount = amount;
  block_number = elim block [ none ↦ t.block_number | some b ↦ some b ];
}

-- update_transaction_chain_details, as the confirmation calls it.
unfoldable pub update_details : ℕ → Text → Text → ℕ → Option Whole → List Row → Option (List Row)
update_details id from to amount block rows =
    if is_negative block then none else elim (row_of id rows) [
      | none ↦ none
      | some t ↦ some (change id (with_details from to amount block) rows)
    ]

unfoldable pub as_sent : Text → Text → Text → ℕ → Row → Row
as_sent tx_hash from to amount t = record t {
  tx_hash = tx_hash;
  from_address = from;
  to_address = to;
  amount = amount;
}

-- update_transaction_chain_details after a broadcast. The table has no hash twice.
unfoldable pub update_sent : ℕ → Text → Text → Text → ℕ → List Row → Option (List Row)
update_sent id tx_hash from to amount rows =
    let clean = strip tx_hash in
    if length clean == 0
    then none
    else if any (λ t. same t.tx_hash clean && not (t.trans_id == id)) rows
    then none
    else elim (row_of id rows) [
      | none ↦ none
      | some t ↦ some (change id (as_sent clean from to amount) rows)
    ]

-- The earliest of two rows, by time and id.
abbrev pub earlier : Row → Row → Row
earlier a b =
    if ltb a.created_at b.created_at || a.created_at == b.created_at && ltb a.trans_id b.trans_id
    then a
    else b

unfoldable pub earliest_row : List Row → Option Row
earliest_row [] = none
earliest_row (t ∷ ts) = elim (earliest_row ts) [ none ↦ some t | some u ↦ some (earlier t u) ]

unfoldable pub is_funding : ℕ → Row → Bool
is_funding spot_id t =
    is_at t.spot_id spot_id
    && is_kind fill_spot t
    && is_in confirmed t
    && not (all (λ c. c == b' ') t.from_address)

-- get_confirmed_spot_funding_address
unfoldable pub get_confirmed_spot_funding_address : ℕ → List Row → Option Text
get_confirmed_spot_funding_address spot_id rows =
    elim (earliest_row (filter (is_funding spot_id) rows)) [
      | none ↦ none
      | some t ↦ some (strip t.from_address)
    ]

-- has_nonfailed_claim_payout_transaction, which is also the condition of the partial unique index.
unfoldable pub is_active_payout : ℕ → Row → Bool
is_active_payout claim_id t = is_at t.claim_id claim_id && is_kind claim t && not (is_in failed t)

unfoldable pub has_nonfailed_claim_payout : ℕ → List Row → Bool
has_nonfailed_claim_payout claim_id rows = any (is_active_payout claim_id) rows

unfoldable pub spot_of : List SpotRow → ℕ → Option SpotRow
spot_of spots id = find (λ s. s.spot_id == id) spots

unfoldable pub claim_of : List ClaimRow → ℕ → Option ClaimRow
claim_of claims id = find (λ c. c.claim_id == id) claims

unfoldable pub set_spot_status : ℕ → SpotStatus → List SpotRow → List SpotRow
set_spot_status id s spots = map (λ x. if x.spot_id == id then record x { status = s } else x) spots

unfoldable pub set_claim_status : ℕ → ClaimStatus → List ClaimRow → List ClaimRow
set_claim_status id s claims =
    map (λ x. if x.claim_id == id then record x { status = s } else x) claims
