-- ===== src/Outbox/Check.antt =====
-- Where one pending row stands (trans_updater.py, `check_pending_transaction`).
pub mod Proven
use nim_hunt.Prelude.{
  ◌∷◌, ℕ, Bool, true, false, ◌&&◌, ◌||◌, not, Option, none, some, List, [], ◌∷◌, leb, if◌then◌else◌,
}
use nim_hunt.Prelude.Text.{Text, strip}
use nim_hunt.Chain.Json.{Json, json_null}
use nim_hunt.Chain.Extract.{execution_result_is_failure, extract_block_number}
use nim_hunt.Chain.Extract.Candidates.{find_transaction_by_hash}
use nim_hunt.Chain.Rpc.{
  Fetch, outage, value_error, result, Rpc, Outcome, chain_pending, chain_confirmed, chain_failed,
  chain_unknown, ChainStatus, is_transaction_hash, json_rpc_post, get_chain_transaction_status,
}
use nim_hunt.Outbox.{
  Row, is_deposit, is_local_intent_hash, is_server_initiated, Surroundings,
  verification_address_for_record, transaction_age_seconds,
}

-- USER_DEPOSIT_STALE_AFTER_SECONDS and the age from which a missing hash is reported.
pub record Ages : Type 0 where
  pub user_deposit_stale_after_seconds : ℕ
  pub fail_after_seconds : ℕ

abbrev pub found_value : Option Json → Json
found_value none = json_null
found_value (some v) = v

module _ (w : Surroundings) where
  abbrev pub status_of : Text → Outcome → ChainStatus
  status_of h o = record { status = o; tx_hash = h; block_number = none; raw = json_null }

  -- A transaction found in a history by its exact hash.
  unfoldable pub found_in_history : Text → Json → ChainStatus
  found_in_history h tx = record {
    status = if execution_result_is_failure w.py tx then chain_failed else chain_confirmed;
    tx_hash = h;
    block_number = extract_block_number w.py tx;
    raw = tx;
  }

  unfoldable pub recovered_from : Text → Fetch → Option ChainStatus
  recovered_from h (result found) = elim (find_transaction_by_hash w.py (found_value found) h) [
    | none ↦ none
    | some tx ↦ some (found_in_history h tx)
  ]
  recovered_from h _ = none

  abbrev pub hash_or : Text → Text → Text
  hash_or [] other = other
  hash_or (c ∷ cs) other = c ∷ cs

  -- A body that is not JSON is caught here, unlike elsewhere.
  unfoldable pub recover_server_transaction_from_address_history :
      Rpc → Row → ChainStatus → Option ChainStatus
  recover_server_transaction_from_address_history rpc t s =
      let h = strip (hash_or t.tx_hash s.tx_hash) in
      if not (is_server_initiated t)
      then none
      else if not (is_transaction_hash h)
      then none
      else elim (verification_address_for_record w t) [
        | none ↦ none
        | some address ↦ recovered_from h (json_rpc_post w.py (rpc.history_to_recover address))
      ]

  -- A deposit past the validity window; `none` where the call raises.
  unfoldable pub stale_from : Text → Fetch → Option ChainStatus
  stale_from h outage = some (status_of h chain_unknown)
  stale_from h value_error = none
  stale_from h (result found) = elim (find_transaction_by_hash w.py (found_value found) h) [
    | none ↦ some (status_of h chain_failed)
    | some tx ↦ some (found_in_history h tx)
  ]

  unfoldable pub check_stale_deposit : Rpc → Row → Text → Option ChainStatus
  check_stale_deposit rpc t h = elim (verification_address_for_record w t) [
    | none ↦ some (status_of h chain_unknown)
    | some address ↦ stale_from h (json_rpc_post w.py (rpc.history_of_stale address))
  ]

  abbrev pub is_pending : Outcome → Bool
  is_pending chain_pending = true
  is_pending _ = false

  abbrev pub is_open : Outcome → Bool
  is_open chain_pending = true
  is_open chain_unknown = true
  is_open _ = false

  -- What follows where no history recovers the transaction.
  unfoldable pub check_unrecovered : Rpc → Ages → ℕ → Row → Text → ChainStatus → Option ChainStatus
  check_unrecovered rpc ages now t h s =
      let age = transaction_age_seconds now t in
      if not (is_pending s.status)
      then some s
      else if is_deposit t.kind && leb ages.user_deposit_stale_after_seconds age
      then check_stale_deposit rpc t h
      else if leb ages.fail_after_seconds age
      then some (record { status = chain_unknown; tx_hash = h; block_number = none; raw = s.raw })
      else some s

  unfoldable pub check_answered : Rpc → Ages → ℕ → Row → Text → ChainStatus → Option ChainStatus
  check_answered rpc ages now t h s =
      if is_open s.status
      then elim (recover_server_transaction_from_address_history rpc t s) [
        | some recovered ↦ some recovered
        | none ↦ check_unrecovered rpc ages now t h s
      ]
      else some s

  -- `none` where the call raises.
  unfoldable pub check_pending_transaction : Rpc → Ages → ℕ → Row → Option ChainStatus
  check_pending_transaction rpc ages now t =
      let h = strip t.tx_hash in
      if is_local_intent_hash h
      then some (status_of h chain_pending)
      else elim (get_chain_transaction_status w.py rpc.by_hash h) [
        | none ↦ none
        | some s ↦ check_answered rpc ages now t h s
      ]
