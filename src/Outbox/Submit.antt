-- ===== src/Outbox/Submit.antt =====
-- An outgoing payment (trans_updater.py, `_submit_recorded_chain_send` and
-- `submit_claim_reward_transaction`; db_access.py, `create_claim_transaction`): the intent is committed
-- before the helper is asked to broadcast. The helper's answer is an argument.
pub mod Recorded
use nim_hunt.Prelude.{
  ℕ, suc, ◌+◌, Bool, true, false, ◌&&◌, ◌||◌, not, Option, none, some, List, [], ◌∷◌, ◌++◌, ltb,
  ◌==◌, if◌then◌else◌, length, any, map, max_of, or_else, is_some,
}
use nim_hunt.Prelude.Text.{Text, codes, strip, same}
use nim_hunt.Chain.Address.{normalise_nimiq_address}
use nim_hunt.Chain.Rpc.{is_transaction_hash}
use nim_hunt.Tables.{
  TransType, fill_spot, cancel_spot, remainder_refund, claim, plat_fee, creation_fee, pending,
  failed,
}
use nim_hunt.Outbox.{Row, Surroundings}
use nim_hunt.Outbox.Store.{
  Db, ClaimRow, claim_of, spot_of, is_kind, is_in, is_at, has_nonfailed_claim_payout, update_sent,
}

-- What the helper says that it broadcast.
pub record Sent : Type 0 where
  pub tx_hash : Text
  pub from_address : Text
  pub to_address : Text
  pub amount : ℕ

-- `_make_local_intent_hash` of a kind whose characters are all kept; `id` and `token` are texts.
unfoldable pub make_local_intent_hash : Text → Text → Text → Text
make_local_intent_hash kind id token =
    codes "NIMHUNT_INTENT:" ++ (kind ++ (codes ":" ++ (id ++ (codes ":" ++ token))))

-- The rows that the partial unique indexes count: one active payout of a claim, and one active row of
-- a Spot for each type that the server sends from it.
unfoldable pub is_active_leg : TransType → ℕ → Row → Bool
is_active_leg k spot_id t = is_at t.spot_id spot_id && is_kind k t && not (is_in failed t)

abbrev spot_leg_taken : TransType → Option ℕ → List Row → Bool
spot_leg_taken k none rows = false
spot_leg_taken k (some spot_id) rows = any (is_active_leg k spot_id) rows

abbrev payout_taken : Option ℕ → List Row → Bool
payout_taken none rows = false
payout_taken (some claim_id) rows = has_nonfailed_claim_payout claim_id rows

unfoldable pub violates_index : TransType → Option ℕ → Option ℕ → List Row → Bool
violates_index fill_spot spot_id claim_id rows = false
violates_index claim spot_id claim_id rows = payout_taken claim_id rows
violates_index k spot_id claim_id rows = spot_leg_taken k spot_id rows

-- AUTOINCREMENT, in a table that loses no row.
unfoldable pub next_id : List Row → ℕ
next_id rows = suc (or_else (max_of (map (λ t. t.trans_id) rows)) 0)

-- What a new row says.
pub record Intent : Type 0 where
  pub kind : TransType
  pub spot_id : Option ℕ
  pub claim_id : Option ℕ
  pub amount : ℕ
  pub from_address : Text
  pub to_address : Text
  pub tx_hash : Text

unfoldable pub row_of_intent : ℕ → ℕ → Intent → Row
row_of_intent id now i = record {
  trans_id = id;
  spot_id = i.spot_id;
  claim_id = i.claim_id;
  kind = i.kind;
  amount = i.amount;
  from_address = i.from_address;
  to_address = i.to_address;
  tx_hash = i.tx_hash;
  status = pending;
  created_at = now;
  block_number = none;
}

-- _create_transaction: the INSERT, which fails on a unique index.
unfoldable pub create_transaction : ℕ → Intent → List Row → Option (List Row)
create_transaction now i rows =
    if violates_index i.kind i.spot_id i.claim_id rows || any (λ t. same t.tx_hash i.tx_hash) rows
    then none
    else some (row_of_intent (next_id rows) now i ∷ rows)

-- create_claim_transaction, for an intent of type claim.
unfoldable pub create_claim_transaction : ℕ → ℕ → Intent → Db → Option (List Row)
create_claim_transaction now claim_id i db = elim (claim_of db.claims claim_id) [
  | none ↦ none
  | some c ↦
      if has_nonfailed_claim_payout claim_id db.rows
      then none
      else create_transaction now
          (record i { kind = claim; spot_id = some c.spot_id; claim_id = some claim_id }) db.rows
]

module _ (w : Surroundings) where
  unfoldable pub validate_address : Text → Option Text
  validate_address value = normalise_nimiq_address w.py w.dev_sends value

  -- `_validate_submitted_chain_send`: what the helper did is what was meant.
  unfoldable pub validate_submitted : Sent → Text → Text → ℕ → Option Sent
  validate_submitted sent from to amount =
      let tx_hash = w.py.lower (strip sent.tx_hash) in
      elim (validate_address from) [
        | none ↦ none
        | some expected_from ↦ elim (validate_address to) [
          | none ↦ none
          | some expected_to ↦ elim (validate_address sent.from_address) [
            | none ↦ none
            | some actual_from ↦ elim (validate_address sent.to_address) [
              | none ↦ none
              | some actual_to ↦
                  if not (same actual_from expected_from) || not (same actual_to expected_to)
                  then none
                  else if not (sent.amount == amount)
                  then none
                  else if not (is_transaction_hash tx_hash)
                  then none
                  else some (record {
                    tx_hash = tx_hash;
                    from_address = actual_from;
                    to_address = actual_to;
                    amount = sent.amount;
                  })
            ]
          ]
        ]
      ]

  -- Up to the commit of the intent: the new rows, the sender and the recipient.
  unfoldable pub record_claim_intent :
      ℕ → ℕ → ℕ → Text → Text → Text → Db → Option (List Row × Text × Text)
  record_claim_intent now claim_id amount deposit_address to intent_hash db =
      if amount == 0 then none else elim (validate_address deposit_address) [
        | none ↦ none
        | some from ↦ elim (validate_address to) [
          | none ↦ none
          | some clean_to ↦
              elim (create_claim_transaction now claim_id
                (record {
                  kind = claim;
                  spot_id = none;
                  claim_id = some claim_id;
                  amount = amount;
                  from_address = from;
                  to_address = clean_to;
                  tx_hash = intent_hash;
                })
                db) [ none ↦ none | some rows ↦ some (rows, from, clean_to) ]
        ]
      ]

  -- From the helper's answer on: `none` where the call raises, which leaves the intent pending.
  unfoldable pub record_sent : ℕ → Text → Text → ℕ → Option Sent → List Row → Option (List Row)
  record_sent id from to amount none rows = none
  record_sent id from to amount (some sent) rows = elim (validate_submitted sent from to amount) [
    | none ↦ none
    | some valid ↦
        update_sent id valid.tx_hash valid.from_address valid.to_address valid.amount rows
  ]

  -- How a submission ends: its intent was never recorded, it is recorded and pending, or it is sent.
  pub data Submission : Type 0 where
    not_recorded : Submission
    left_pending : ℕ → List Row → Submission
    submitted : ℕ → List Row → Submission

  unfoldable pub submit_recorded_claim_send :
      ℕ → ℕ → ℕ → Text → Text → Text → Option Sent → Db → Submission
  submit_recorded_claim_send now claim_id amount deposit_address to intent_hash helper db =
      elim (record_claim_intent now claim_id amount deposit_address to intent_hash db) [
        | none ↦ not_recorded
        | some recorded ↦
            elim (record_sent (next_id db.rows) recorded.1 recorded.2 amount helper recorded.0) [
              | none ↦ left_pending (next_id db.rows) recorded.0
              | some rows ↦ submitted (next_id db.rows) rows
            ]
      ]
