-- ===== src/Tests/Outbox.antt =====
-- A claim's payout over its intent, its broadcast and its settlement, with an RPC that shows it.
use nim_hunt.Prelude.{◌≡◌, ◌≤◌, refl, true, false, none, some, [], ◌∷◌, ◌++◌, ◌==◌, ◌⊎◌, length}
use nim_hunt.Prelude.Text.{Text, codes, strip}
use nim_hunt.Chain.Python.{natural, invalid}
use nim_hunt.Chain.Json.{
  Json, json_null, json_array, next_item, no_item, json_text, json_number, json_object, json_bool,
  next_field, no_field,
}
use nim_hunt.Chain.Rpc.{
  not_json, Answer, body, unreachable, Rpc, Outcome, chain_confirmed, chain_failed, ChainStatus,
}
use nim_hunt.Tables.{claim, pending, confirmed}
use nim_hunt.Outbox.{is_local_intent_hash, Row, Surroundings, is_deposit, transaction_age_seconds}
use nim_hunt.Outbox.Store.{row_of, Db, published, claim_success}
use nim_hunt.Outbox.Verify.{verified, verify_chain_details_for_record}
use nim_hunt.Outbox.Check.{Ages, check_pending_transaction}
use nim_hunt.Outbox.Pass.{settle_row, check_pending_transactions}
use nim_hunt.Outbox.Verify.Matches.{
  IsMatch, IsShown, IsFrom, verify_chain_details_for_record-IsMatch,
}
use nim_hunt.Outbox.Check.Proven.{FailureProof, check_pending_transaction-failed}
use nim_hunt.Outbox.Finalise.{is_funding_mismatch}
use nim_hunt.Outbox.Pass.Confirms.{settle_row-confirms}
use nim_hunt.Outbox.Pass.Stops.{check_pending_transactions-stops}
use nim_hunt.Outbox.Pass.Evolves.{Evolves}
use nim_hunt.Outbox.Pass.Refines.{IsBlamed, check_pending_transactions-Evolves}

abbrev pub deposit_address : Text
deposit_address = codes "NQ00 NIMHUNT DEV SPOT DEPOSIT 3"

abbrev pub payout_address : Text
payout_address = codes "NQ00 NIMHUNT DEV CLAIM PAYOUT 7"

abbrev pub surroundings : Surroundings
surroundings = record {
  py = record {
    upper = λ t. t;
    lower = λ t. t;
    int_of = λ t. invalid;
    int_of_literal = λ t. invalid;
  };
  dev = record { allowed = true; deposit_prefix = codes "NQ00 NIMHUNT DEV SPOT DEPOSIT" };
  dev_sends = record { allowed = true; deposit_prefix = codes "NQ00 NIMHUNT DEV SPOT DEPOSIT" };
}

abbrev pub hash : Text
hash = codes "00000000000000000000000000000000000000000000000000000000000000ab"

abbrev pub claim_row : Row
claim_row = record {
  trans_id = 1;
  spot_id = some 3;
  claim_id = some 7;
  kind = claim;
  amount = 500;
  from_address = deposit_address;
  to_address = payout_address;
  tx_hash = hash;
  status = pending;
  created_at = 1000;
  block_number = none;
}

abbrev shown : Json
shown = json_object (
    next_field (codes "result")
      (json_object (
        next_field (codes "hash") (json_text hash) (
          next_field (codes "from") (json_text deposit_address) (
            next_field (codes "to") (json_text payout_address)
              (next_field (codes "value") (json_number (codes "500") (natural 500)) no_field)))))
      no_field)

abbrev shown_failed : Json
shown_failed = json_object (
    next_field (codes "result")
      (json_object (
        next_field (codes "hash") (json_text hash)
          (next_field (codes "execution_result") (json_bool false) no_field)))
      no_field)

abbrev answering : Json → Rpc
answering v = record {
  by_hash = λ h. body v;
  history_to_recover = λ a. unreachable;
  history_of_stale = λ a. unreachable;
  history_to_verify = λ a. unreachable;
}

abbrev pub ages : Ages
ages = record { user_deposit_stale_after_seconds = 1800; fail_after_seconds = 3600 }

abbrev pub db : Db
db = record {
  rows = claim_row ∷ [];
  spots = record { spot_id = 3; status = published; is_prizedraw = false } ∷ [];
  claims = record { claim_id = 7; spot_id = 3; status = claim_success } ∷ [];
}

confirms_payout :
    (check_pending_transactions surroundings
      (λ t. answering shown)
      (λ t. 2000)
      ages
      (claim_row ∷ [])
      db).rows
    ≡ record claim_row { status = confirmed } ∷ []
unfolding check_pending_transactions nim_hunt.Outbox.Pass.settle_row check_pending_transaction
    nim_hunt.Outbox.is_local_intent_hash nim_hunt.Chain.Rpc.get_chain_transaction_status
    nim_hunt.Chain.Rpc.json_rpc_post nim_hunt.Chain.Extract.get nim_hunt.Chain.Json.get_field
    nim_hunt.Outbox.Check.check_answered nim_hunt.Chain.Extract.execution_result_is_failure
    nim_hunt.Chain.Json.walk_json nim_hunt.Chain.Json.walk nim_hunt.Chain.Json.nodes
    nim_hunt.Chain.Extract.unwrap_rpc_result nim_hunt.Chain.Json.children
    nim_hunt.Chain.Extract.reports_failure nim_hunt.Outbox.Pass.settle_status
    nim_hunt.Outbox.Verify.verify_chain_details_for_record nim_hunt.Outbox.Verify.verify_details
    nim_hunt.Chain.Extract.extract_chain_from_address nim_hunt.Chain.Extract.first_address_for_keys
    nim_hunt.Chain.Extract.first_read nim_hunt.Chain.Extract.has_key nim_hunt.Chain.Extract.last_key
    nim_hunt.Chain.Extract.normalise_address_for_compare
    nim_hunt.Chain.Address.normalise_nimiq_address
    nim_hunt.Chain.Address.is_allowed_dev_placeholder_address
    nim_hunt.Chain.Extract.extract_chain_to_address nim_hunt.Chain.Extract.extract_chain_amount
    nim_hunt.Chain.Extract.best_candidate nim_hunt.Chain.Extract.candidate
    nim_hunt.Chain.Extract.whole_of nim_hunt.Outbox.Verify.match_details
    nim_hunt.Outbox.Verify.sender_refusal nim_hunt.Outbox.is_deposit nim_hunt.Outbox.comparable
    nim_hunt.Outbox.Verify.recipient_refusal nim_hunt.Outbox.Verify.amount_refusal
    nim_hunt.Outbox.Pass.settle_found nim_hunt.Outbox.Finalise.mark_trans_as_confirmed
    nim_hunt.Outbox.Store.update_details nim_hunt.Chain.Extract.extract_block_number
    nim_hunt.Chain.Extract.first_whole nim_hunt.Outbox.Store.row_of
    nim_hunt.Outbox.Finalise.is_funding_mismatch nim_hunt.Outbox.Finalise.confirm_row
    nim_hunt.Outbox.Store.set_status nim_hunt.Outbox.Store.change nim_hunt.Outbox.Store.with_details
    nim_hunt.Outbox.Finalise.finalize_cancelled_spot_if_ready nim_hunt.Outbox.Store.spot_of
    nim_hunt.Outbox.Finalise.completed_prizedraw_payout nim_hunt.Outbox.Store.claim_of
    nim_hunt.Outbox.Finalise.is_refunded nim_hunt.Outbox.Finalise.transactions_of
    nim_hunt.Outbox.Store.settled
confirms_payout = refl

-- A status with no transaction, and a history of the deposit's address that lists it.
abbrev bare_status : ChainStatus
bare_status = record {
  status = chain_confirmed;
  tx_hash = hash;
  block_number = none;
  raw = json_null;
}

abbrev paid_out : Json
paid_out = json_object (
    next_field (codes "hash") (json_text hash) (
      next_field (codes "from") (json_text deposit_address) (
        next_field (codes "to") (json_text payout_address)
          (next_field (codes "value") (json_number (codes "500") (natural 500)) no_field))))

abbrev listing : Answer
listing =
    body
      (json_object (next_field (codes "result") (json_array (next_item paid_out no_item)) no_field))

verifies :
    verify_chain_details_for_record surroundings (λ a. listing) claim_row bare_status
    ≡ some (verified deposit_address payout_address 500)
unfolding verify_chain_details_for_record nim_hunt.Outbox.Verify.verify_details
    nim_hunt.Chain.Extract.execution_result_is_failure nim_hunt.Chain.Json.walk_json
    nim_hunt.Chain.Json.walk nim_hunt.Chain.Json.nodes nim_hunt.Chain.Json.children
    nim_hunt.Chain.Extract.reports_failure nim_hunt.Chain.Extract.extract_chain_from_address
    nim_hunt.Chain.Extract.first_address_for_keys nim_hunt.Chain.Extract.first_read
    nim_hunt.Chain.Extract.has_key nim_hunt.Chain.Extract.last_key
    nim_hunt.Chain.Extract.normalise_address_for_compare
    nim_hunt.Chain.Address.normalise_nimiq_address
    nim_hunt.Chain.Address.is_allowed_dev_placeholder_address
    nim_hunt.Chain.Extract.extract_chain_to_address nim_hunt.Chain.Extract.extract_chain_amount
    nim_hunt.Chain.Extract.best_candidate nim_hunt.Chain.Extract.candidate
    nim_hunt.Chain.Extract.whole_of nim_hunt.Outbox.Verify.match_details
    nim_hunt.Outbox.Verify.sender_refusal is_deposit nim_hunt.Outbox.comparable
    nim_hunt.Outbox.Verify.recipient_refusal nim_hunt.Outbox.Verify.amount_refusal
    nim_hunt.Outbox.verification_address_for_record nim_hunt.Outbox.Verify.hash_to_find
    nim_hunt.Outbox.Verify.verify_by_history nim_hunt.Chain.Rpc.json_rpc_post
    nim_hunt.Chain.Extract.get nim_hunt.Chain.Json.get_field
    nim_hunt.Chain.Extract.Candidates.find_transaction_by_hash
    nim_hunt.Chain.Extract.Candidates.iter_candidate_transactions
    nim_hunt.Chain.Extract.Candidates.scan nim_hunt.Chain.Extract.Candidates.visit
    nim_hunt.Chain.Extract.Candidates.items nim_hunt.Chain.Extract.unwrap_rpc_result
    nim_hunt.Chain.Extract.extract_chain_hash nim_hunt.Chain.Extract.normalise_chain_hash
    nim_hunt.Chain.Extract.transaction_matches_hash nim_hunt.Outbox.is_server_initiated
verifies = refl

verify_chain_details_for_record-IsMatch_example :
    IsMatch surroundings claim_row deposit_address payout_address 500
    × ((raw : Json) × IsFrom surroundings (λ a. listing) claim_row bare_status raw
        × IsShown surroundings raw deposit_address payout_address 500)
verify_chain_details_for_record-IsMatch_example =
    verify_chain_details_for_record-IsMatch surroundings (λ a. listing) claim_row bare_status
      deposit_address payout_address 500 verifies

abbrev failed_status : ChainStatus
failed_status = record {
  status = chain_failed;
  tx_hash = hash;
  block_number = none;
  raw = json_object (
      next_field (codes "hash") (json_text hash)
        (next_field (codes "execution_result") (json_bool false) no_field));
}

reports_failed :
    check_pending_transaction surroundings (answering shown_failed) ages 2000 claim_row
    ≡ some failed_status
unfolding check_pending_transaction nim_hunt.Outbox.is_local_intent_hash
    nim_hunt.Chain.Rpc.get_chain_transaction_status nim_hunt.Chain.Rpc.json_rpc_post
    nim_hunt.Chain.Extract.get nim_hunt.Chain.Json.get_field nim_hunt.Outbox.Check.check_answered
    nim_hunt.Chain.Extract.execution_result_is_failure nim_hunt.Chain.Json.walk_json
    nim_hunt.Chain.Json.walk nim_hunt.Chain.Json.nodes nim_hunt.Chain.Extract.unwrap_rpc_result
    nim_hunt.Chain.Json.children nim_hunt.Chain.Extract.reports_failure
    nim_hunt.Chain.Extract.extract_block_number nim_hunt.Chain.Extract.first_whole
reports_failed = refl

hash_filled : (length (strip hash) == 0) ≡ false
hash_filled = refl

check_pending_transaction-failed_example :
    FailureProof surroundings (answering shown_failed) (strip hash)
    ⊎ ((is_deposit claim ≡ true) × (1800 ≤ transaction_age_seconds 2000 claim_row))
check_pending_transaction-failed_example =
    check_pending_transaction-failed surroundings (answering shown_failed) ages 2000 claim_row
      failed_status hash_filled reports_failed refl

check_pending_transactions-Evolves_example :
    Evolves
      (IsBlamed surroundings (λ t. answering shown_failed) (claim_row ∷ []))
      db.rows
      (check_pending_transactions surroundings
        (λ t. answering shown_failed)
        (λ t. 2000)
        ages
        (claim_row ∷ [])
        db).rows
check_pending_transactions-Evolves_example =
    check_pending_transactions-Evolves surroundings (λ t. answering shown_failed) (λ t. 2000) ages
      (claim_row ∷ []) db

abbrev confirmed_status : ChainStatus
confirmed_status = record {
  status = chain_confirmed;
  tx_hash = hash;
  block_number = none;
  raw = json_object (
      next_field (codes "hash") (json_text hash) (
        next_field (codes "from") (json_text deposit_address) (
          next_field (codes "to") (json_text payout_address)
            (next_field (codes "value") (json_number (codes "500") (natural 500)) no_field))));
}

reports_confirmed :
    check_pending_transaction surroundings (answering shown) ages 2000 claim_row
    ≡ some confirmed_status
unfolding check_pending_transaction is_local_intent_hash
    nim_hunt.Chain.Rpc.get_chain_transaction_status nim_hunt.Chain.Rpc.json_rpc_post
    nim_hunt.Chain.Extract.get nim_hunt.Chain.Json.get_field nim_hunt.Outbox.Check.check_answered
    nim_hunt.Chain.Extract.execution_result_is_failure nim_hunt.Chain.Json.walk_json
    nim_hunt.Chain.Json.walk nim_hunt.Chain.Json.nodes nim_hunt.Chain.Extract.unwrap_rpc_result
    nim_hunt.Chain.Json.children nim_hunt.Chain.Extract.reports_failure
    nim_hunt.Chain.Extract.extract_block_number nim_hunt.Chain.Extract.first_whole
reports_confirmed = refl

verifies_confirmed :
    verify_chain_details_for_record surroundings (λ a. unreachable) claim_row confirmed_status
    ≡ some (verified deposit_address payout_address 500)
unfolding verify_chain_details_for_record nim_hunt.Outbox.Verify.verify_details
    nim_hunt.Chain.Extract.execution_result_is_failure nim_hunt.Chain.Json.walk_json
    nim_hunt.Chain.Json.walk nim_hunt.Chain.Json.nodes nim_hunt.Chain.Json.children
    nim_hunt.Chain.Extract.reports_failure nim_hunt.Chain.Extract.extract_chain_from_address
    nim_hunt.Chain.Extract.first_address_for_keys nim_hunt.Chain.Extract.first_read
    nim_hunt.Chain.Extract.has_key nim_hunt.Chain.Extract.last_key
    nim_hunt.Chain.Extract.normalise_address_for_compare
    nim_hunt.Chain.Address.normalise_nimiq_address
    nim_hunt.Chain.Address.is_allowed_dev_placeholder_address
    nim_hunt.Chain.Extract.extract_chain_to_address nim_hunt.Chain.Extract.extract_chain_amount
    nim_hunt.Chain.Extract.best_candidate nim_hunt.Chain.Extract.candidate
    nim_hunt.Chain.Extract.whole_of nim_hunt.Outbox.Verify.match_details
    nim_hunt.Outbox.Verify.sender_refusal is_deposit nim_hunt.Outbox.comparable
    nim_hunt.Outbox.Verify.recipient_refusal nim_hunt.Outbox.Verify.amount_refusal
verifies_confirmed = refl

stands : row_of 1 db.rows ≡ some claim_row
unfolding row_of
stands = refl

no_mismatch : is_funding_mismatch surroundings db claim_row deposit_address ≡ false
unfolding is_funding_mismatch is_deposit
no_mismatch = refl

settle_row-confirms_example :
    (db' : Db) × (v : Row) × (settle_row surroundings (answering shown) ages 2000 claim_row db
      ≡ some db')
    × (row_of 1 db'.rows ≡ some v)
    × (v.status ≡ confirmed)
settle_row-confirms_example =
    settle_row-confirms surroundings (answering shown) ages 2000 claim_row claim_row
      confirmed_status deposit_address payout_address 500 db reports_confirmed refl
      verifies_confirmed stands refl refl no_mismatch

-- A proxy's error page in place of an answer.
abbrev broken : Rpc
broken = record (answering shown) { by_hash = λ h. not_json }

was_broadcast : is_local_intent_hash (strip hash) ≡ false
unfolding is_local_intent_hash
was_broadcast = refl

check_pending_transactions-stops_example :
    check_pending_transactions surroundings
      (λ t. broken)
      (λ t. 2000)
      ages
      ([] ++ claim_row ∷ claim_row ∷ [])
      db
    ≡ check_pending_transactions surroundings (λ t. broken) (λ t. 2000) ages [] db
check_pending_transactions-stops_example =
    check_pending_transactions-stops surroundings (λ t. broken) (λ t. 2000) ages [] claim_row
      (claim_row ∷ []) db was_broadcast hash_filled refl
