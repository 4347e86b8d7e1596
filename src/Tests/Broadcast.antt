-- ===== src/Tests/Broadcast.antt =====
-- A payout from its intent to its broadcast and a refreshed cache.
use nim_hunt.Prelude.{◌≡◌, ◌≤◌, refl, some, [], ◌∷◌, total}
use nim_hunt.Prelude.Text.{Text, codes, strip, same}
use nim_hunt.Chain.Rpc.{
  not_json, Answer, body, unreachable, Rpc, Outcome, chain_confirmed, chain_failed, ChainStatus,
}
use nim_hunt.Tables.{claim}
use nim_hunt.Outbox.{is_local_intent_hash, Row, Surroundings, is_deposit, transaction_age_seconds}
use nim_hunt.Outbox.Store.{row_of, Db, published, claim_success}
use nim_hunt.Outbox.Submit.{Sent, make_local_intent_hash, record_claim_intent, record_sent}
use nim_hunt.Outbox.Timeline.{Truth, intend, answer, refresh, here, after}
use nim_hunt.Outbox.Timeline.Once.{paid_out, Reach-paid_once}
use nim_hunt.Tests.Outbox.{deposit_address, payout_address, surroundings, hash, claim_row, ages, db}

abbrev pub empty : Db
empty = record db { rows = [] }

abbrev pub truth : Truth
truth = record { hash_of = λ id. hash; kind_of = λ id. claim; paid = λ h. same h hash }

abbrev intent_hash : Text
intent_hash = make_local_intent_hash (codes "claim_reward") (codes "7") (codes "x")

abbrev intent_row : Row
intent_row = record claim_row { tx_hash = codes "NIMHUNT_INTENT:claim_reward:7:x" }

abbrev pub sent : Sent
sent = record {
  tx_hash = hash;
  from_address = deposit_address;
  to_address = payout_address;
  amount = 500;
}

kept : strip intent_hash ≡ intent_hash
unfolding make_local_intent_hash
kept = refl

records_intent :
    record_claim_intent surroundings 1000 7 500 deposit_address payout_address intent_hash empty
    ≡ some (intent_row ∷ [], deposit_address, payout_address)
unfolding record_claim_intent nim_hunt.Outbox.Submit.validate_address
    nim_hunt.Chain.Address.normalise_nimiq_address
    nim_hunt.Chain.Address.is_allowed_dev_placeholder_address
    nim_hunt.Outbox.Submit.create_claim_transaction nim_hunt.Outbox.Store.claim_of
    nim_hunt.Outbox.Store.has_nonfailed_claim_payout nim_hunt.Outbox.Submit.create_transaction
    nim_hunt.Outbox.Submit.violates_index nim_hunt.Outbox.Submit.row_of_intent
    nim_hunt.Outbox.Submit.next_id make_local_intent_hash
records_intent = refl

records_answer :
    record_sent surroundings 1 deposit_address payout_address 500 (some sent) (intent_row ∷ [])
    ≡ some (claim_row ∷ [])
unfolding record_sent nim_hunt.Outbox.Submit.validate_submitted
    nim_hunt.Outbox.Submit.validate_address nim_hunt.Chain.Address.normalise_nimiq_address
    nim_hunt.Chain.Address.is_allowed_dev_placeholder_address nim_hunt.Chain.Rpc.is_transaction_hash
    nim_hunt.Outbox.Store.update_sent nim_hunt.Outbox.Store.row_of nim_hunt.Outbox.Store.change
    nim_hunt.Outbox.Store.as_sent
records_answer = refl

Reach-paid_once_example : total (paid_out surroundings ages truth 7) (claim_row ∷ []) ≤ 1
Reach-paid_once_example =
    Reach-paid_once surroundings ages truth empty
      (record { db = record empty { rows = claim_row ∷ [] }; cached = claim_row ∷ [] }) 7 refl
      (after
        (after
          (after here (
            intend 1000 7 500 deposit_address payout_address (codes "claim_reward") (codes "7")
              (codes "x") (intent_row ∷ [], deposit_address, payout_address) kept refl
              records_intent))
          (answer 1 deposit_address payout_address 500 sent (claim_row ∷ []) refl records_answer))
        refresh)
