-- ===== src/Outbox/Verify.antt =====
-- Whether a transaction found on the chain is the one that a row stands for (trans_updater.py,
-- `_verify_chain_details_for_record`, `verify_chain_details_for_record`). The reason texts are a
-- data type: what the code asks of a text is asked of its constructor.
pub mod Matches
use nim_hunt.Prelude.{
  ℕ, Bool, true, false, ◌||◌, Option, none, some, List, [], ◌∷◌, ltb, ◌==◌, if◌then◌else◌, length,
  not,
}
use nim_hunt.Prelude.Text.{Text, same, strip}
use nim_hunt.Chain.Json.{Json, json_null}
use nim_hunt.Chain.Extract.{
  execution_result_is_failure, extract_chain_from_address, extract_chain_to_address,
  extract_chain_amount,
}
use nim_hunt.Chain.Extract.Candidates.{find_transaction_by_hash}
use nim_hunt.Chain.Rpc.{Answer, Fetch, outage, value_error, result, ChainStatus, json_rpc_post}
use nim_hunt.Outbox.{Row, is_deposit, Surroundings, comparable, verification_address_for_record}

pub data Reason : Type 0 where
  failed_execution : Reason
  no_sender no_recipient no_amount : Reason
  stored_sender_invalid stored_recipient_invalid : Reason
  other_sender other_recipient : Reason
  lower_amount other_amount : Reason
  proof_failed not_in_history : Reason

pub data Verified : Type 0 where
  refused : Reason → Verified
  verified : (from to : Text) → ℕ → Verified

unfoldable pub failed_because_unstructured : Reason → Bool
failed_because_unstructured no_sender = true
failed_because_unstructured no_recipient = true
failed_because_unstructured no_amount = true
failed_because_unstructured stored_sender_invalid = true
failed_because_unstructured stored_recipient_invalid = true
failed_because_unstructured _ = false

-- `uncertain_proof` of the pass over the pending rows.
unfoldable pub is_uncertain : Reason → Bool
is_uncertain proof_failed = true
is_uncertain not_in_history = true
is_uncertain r = failed_because_unstructured r

module _ (w : Surroundings) where
  -- The sender of a deposit is taken from the chain; any other row names its sender.
  unfoldable pub sender_refusal : Row → Text → Option Reason
  sender_refusal t from = if is_deposit t.kind then none else elim (comparable w t.from_address) [
    | none ↦ some stored_sender_invalid
    | some expected ↦ if same from expected then none else some other_sender
  ]

  unfoldable pub recipient_refusal : Row → Text → Option Reason
  recipient_refusal t to = elim (comparable w t.to_address) [
    | none ↦ some stored_recipient_invalid
    | some expected ↦ if same to expected then none else some other_recipient
  ]

  -- A deposit may be larger than recorded.
  unfoldable pub amount_refusal : Row → ℕ → Option Reason
  amount_refusal t amount =
      if is_deposit t.kind
      then (if ltb amount t.amount then some lower_amount else none)
      else if amount == t.amount
      then none
      else some other_amount

  abbrev first_refusal : Option Reason → Option Reason → Option Reason
  first_refusal none r = r
  first_refusal (some q) r = some q

  unfoldable pub match_details : Row → Text → Text → ℕ → Verified
  match_details t from to amount =
      elim (first_refusal (sender_refusal t from)
        (first_refusal (recipient_refusal t to) (amount_refusal t amount))) [
          | some r ↦ refused r
          | none ↦ verified from to amount
        ]

  unfoldable pub verify_details : Row → Json → Verified
  verify_details t raw =
      if execution_result_is_failure w.py raw
      then refused failed_execution
      else elim (extract_chain_from_address w.py w.dev raw) [
        | none ↦ refused no_sender
        | some from ↦ elim (extract_chain_to_address w.py w.dev raw) [
          | none ↦ refused no_recipient
          | some to ↦ elim (extract_chain_amount w.py raw) [
            | none ↦ refused no_amount
            | some amount ↦ match_details t from to amount
          ]
        ]
      ]

  -- The hash to look for: the status's, or the row's where it is empty.
  unfoldable pub hash_to_find : Text → Text → Text
  hash_to_find [] stored = strip stored
  hash_to_find (c ∷ cs) stored = strip (c ∷ cs)

  unfoldable pub verify_by_history : Row → Text → Fetch → Option Verified
  verify_by_history t tx_hash outage = some (refused proof_failed)
  verify_by_history t tx_hash value_error = none
  verify_by_history t tx_hash (result found) =
      elim (find_transaction_by_hash w.py (elim found [ none ↦ json_null | some v ↦ v ]) tx_hash) [
        | none ↦ some (refused not_in_history)
        | some tx ↦ some (verify_details t tx)
      ]

  -- `none` where the call raises.
  unfoldable pub verify_chain_details_for_record :
      (Text → Answer) → Row → ChainStatus → Option Verified
  verify_chain_details_for_record history t s = elim (verify_details t s.raw) [
    | verified from to amount ↦ some (verified from to amount)
    | refused r ↦
        let tx_hash = hash_to_find s.tx_hash t.tx_hash in
        elim (verification_address_for_record w t) [
          | none ↦ some (refused r)
          | some address ↦
              if length tx_hash == 0
              then some (refused r)
              else verify_by_history t tx_hash (json_rpc_post w.py (history address))
        ]
  ]
