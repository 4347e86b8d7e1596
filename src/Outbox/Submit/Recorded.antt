-- ===== src/Outbox/Submit/Recorded.antt =====
-- What the two transactions of a submission write.
use nim_hunt.Prelude.{
  ℕ, ◌≡◌, refl, inl, inr, false, ◌==◌, none, some, List, ◌∷◌, arith, length, Option-cases,
}
use nim_hunt.Prelude.Text.{Text, strip}
use nim_hunt.Tables.{claim}
use nim_hunt.Outbox.{Row, Surroundings}
use nim_hunt.Outbox.Store.{
  claim_of, Db, change, as_sent, update_sent, row_of, has_nonfailed_claim_payout,
}
use nim_hunt.Outbox.Submit.{
  Sent, Intent, create_transaction, next_id, record_claim_intent, record_sent, row_of_intent,
  violates_index, validate_address, create_claim_transaction, validate_submitted,
}

module _ (w : Surroundings) where
  validate_submitted-hash :
      (sent valid : Sent) (from to : Text) (amount : ℕ)
      → validate_submitted w sent from to amount ≡ some valid
      → valid.tx_hash ≡ w.py.lower (strip sent.tx_hash)
  unfolding validate_submitted
  validate_submitted-hash sent valid from to amount e = ground arith

  pub validate_submitted-amount :
      (sent valid : Sent) (from to : Text) (amount : ℕ)
      → validate_submitted w sent from to amount ≡ some valid
      → valid.amount ≡ amount
  unfolding validate_submitted
  validate_submitted-amount sent valid from to amount e = ground arith

  -- What the table gets when the helper's answer is recorded.
  pub record IsAnswered (id : ℕ) (sent : Sent) (rows rows' : List Row) : Type 0 where
    pub clean : Text
    pub from : Text
    pub to : Text
    pub amount : ℕ
    pub changed : rows' ≡ change id (as_sent clean from to amount) rows
    pub hash : clean ≡ strip (w.py.lower (strip sent.tx_hash))
    pub filled : (length clean == 0) ≡ false

  pub record_sent-IsAnswered :
      (id : ℕ) (from to : Text) (amount : ℕ) (sent : Sent) (rows rows' : List Row)
      → record_sent w id from to amount (some sent) rows ≡ some rows'
      → IsAnswered id sent rows rows'
  unfolding record_sent update_sent
  record_sent-IsAnswered id from to amount sent rows rows' e =
      elim (Option-cases (validate_submitted w sent from to amount)) [
        | inl absent ↦ absurd (ground arith)
        | inr (valid, ev) ↦ elim (Option-cases (row_of id rows)) [
          | inl absent ↦ absurd (ground arith)
          | inr (t, et) ↦ record {
            clean = strip valid.tx_hash;
            from = valid.from_address;
            to = valid.to_address;
            amount = valid.amount;
            changed = ground arith;
            hash = rw (validate_submitted-hash sent valid from to amount ev) refl;
            filled = ground arith;
          }
        ]
      ]

  -- The row that a payout's intent becomes.
  pub record IsIntended (now claim_id : ℕ) (intent_hash : Text) (rows rows' : List Row)
      : Type 0 where
    pub intent : Intent
    pub added : rows' ≡ row_of_intent (next_id rows) now intent ∷ rows
    pub kind : intent.kind ≡ claim
    pub claim : intent.claim_id ≡ some claim_id
    pub tx_hash : intent.tx_hash ≡ intent_hash
    pub untaken : has_nonfailed_claim_payout claim_id rows ≡ false

  create_claim-IsIntended :
      (now claim_id : ℕ) (i : Intent) (db : Db) (rows : List Row)
      → create_claim_transaction now claim_id i db ≡ some rows
      → IsIntended now claim_id i.tx_hash db.rows rows
  unfolding create_claim_transaction create_transaction violates_index
  create_claim-IsIntended now claim_id i db rows e =
      elim (Option-cases (claim_of db.claims claim_id)) [
        | inl absent ↦ absurd (ground arith)
        | inr (c, ec) ↦ record {
          intent = record i { kind = claim; spot_id = some c.spot_id; claim_id = some claim_id };
          added = ground arith;
          kind = refl;
          claim = refl;
          tx_hash = refl;
          untaken = ground arith;
        }
      ]

  pub record_intent-IsIntended :
      (now claim_id amount : ℕ) (deposit_address to intent_hash : Text) (db : Db)
      (recorded : List Row × Text × Text)
      → record_claim_intent w now claim_id amount deposit_address to intent_hash db ≡ some recorded
      → IsIntended now claim_id intent_hash db.rows recorded.0
  unfolding record_claim_intent
  record_intent-IsIntended now claim_id amount deposit_address to intent_hash db recorded e =
      elim (Option-cases (validate_address w deposit_address)) [
        | inl absent ↦ absurd (ground arith)
        | inr (from, ef) ↦ elim (Option-cases (validate_address w to)) [
          | inl absent ↦ absurd (ground arith)
          | inr (clean, ec) ↦
              let i : Intent = record {
                kind = claim;
                spot_id = none;
                claim_id = some claim_id;
                amount = amount;
                from_address = from;
                to_address = clean;
                tx_hash = intent_hash;
              } in
              elim (Option-cases (create_claim_transaction now claim_id i db)) [
                | inl absent ↦ absurd (ground arith)
                | inr (rows, er) ↦
                    let q : rows ≡ recorded.0 = ground arith in
                    rw (← q) (create_claim-IsIntended now claim_id i db rows er)
              ]
        ]
      ]
