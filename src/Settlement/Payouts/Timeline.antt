-- ===== src/Settlement/Payouts/Timeline.antt =====
-- The payouts of standard claims and the outbox over time: any workers of the settlement
-- (`payout_standard_claim_if_ready`, the retries of prizes) and of the outbox, in any order.
pub mod Steady
pub mod Calls
use nim_hunt.Prelude.{ℕ, ◌≡◌, false, ◌==◌, Option, none, some, List}
use nim_hunt.Prelude.Text.{Text, strip}
use nim_hunt.Chain.Rpc.{Rpc}
use nim_hunt.Tables.{claim, type_code}
use nim_hunt.Outbox.{Row, Surroundings}
use nim_hunt.Outbox.Store.{Db, ClaimRow, claim_of}
use nim_hunt.Outbox.Check.{Ages}
use nim_hunt.Outbox.Pass.{settle_row}
use nim_hunt.Outbox.Pass.Refines.{IsAmong}
use nim_hunt.Outbox.Submit.{
  make_local_intent_hash, Sent, Intent, create_transaction, next_id, record_claim_intent,
  record_sent,
}
use nim_hunt.Outbox.Timeline.{Ledger, Truth, IsHonest}
use nim_hunt.Settlement.Payouts.{PaySpot, pay_spot, reward, send, standard_job}

-- What a run takes place in: the Spots, the Spot of each claim, and the claim and the amount that the
-- intent of each row was made with.
pub record Plan : Type 0 where
  pub spots : List PaySpot
  pub home : ℕ → ℕ
  pub who : ℕ → ℕ
  pub amt : ℕ → ℕ

-- The reward of a claim at a standard Spot.
abbrev pub standard_reward : PaySpot → Option ℕ
standard_reward s = elim s.prize_count [ none ↦ some (reward s) | some n ↦ none ]

abbrev pub reward_of : Plan → ℕ → Option ℕ
reward_of plan k = elim (pay_spot plan.spots (plan.home k)) [
  | none ↦ none
  | some s ↦ standard_reward s
]

module _ (w : Surroundings) (ages : Ages) (truth : Truth) (plan : Plan) where
  -- The intent of a standard claim's payout is for what an earlier look found due. An intent for a
  -- claim elsewhere, and any other row, is for anything. An answer is checked against the amount of the
  -- row's intent. Claims and Spots may change, but a claim stays at its Spot.
  pub data Run (start : Ledger) : Ledger → Type 0 where
    here : Run start start
    settle :
        {first m : Ledger}
        → Run start first
        → Run start m
        → (now claim_id amount : ℕ) (deposit_address to : Text) (kind id token : Text)
          (recorded : List Row × Text × Text)
        → ((c : ClaimRow)
            → claim_of first.db.claims claim_id ≡ some c
            → c.spot_id ≡ plan.home claim_id)
        → standard_job plan.spots claim_id first.db ≡ send amount
        → plan.who (next_id m.db.rows) ≡ claim_id
        → plan.amt (next_id m.db.rows) ≡ amount
        → strip (make_local_intent_hash kind id token) ≡ make_local_intent_hash kind id token
        → truth.kind_of (next_id m.db.rows) ≡ claim
        → record_claim_intent w now claim_id amount deposit_address to
            (make_local_intent_hash kind id token)
            m.db
          ≡ some recorded
        → Run start (record m { db = record m.db { rows = recorded.0 } })
    pay_prize :
        {m : Ledger}
        → Run start m
        → (now claim_id amount : ℕ) (deposit_address to : Text) (kind id token : Text)
          (recorded : List Row × Text × Text)
        → reward_of plan claim_id ≡ none
        → plan.who (next_id m.db.rows) ≡ claim_id
        → plan.amt (next_id m.db.rows) ≡ amount
        → strip (make_local_intent_hash kind id token) ≡ make_local_intent_hash kind id token
        → truth.kind_of (next_id m.db.rows) ≡ claim
        → record_claim_intent w now claim_id amount deposit_address to
            (make_local_intent_hash kind id token)
            m.db
          ≡ some recorded
        → Run start (record m { db = record m.db { rows = recorded.0 } })
    record_other :
        {m : Ledger}
        → Run start m
        → (now : ℕ) (i : Intent) (rows : List Row) → (type_code i.kind == 20) ≡ false
        → truth.kind_of (next_id m.db.rows) ≡ i.kind
        → create_transaction now i m.db.rows ≡ some rows
        → Run start (record m { db = record m.db { rows = rows } })
    answer :
        {m : Ledger}
        → Run start m
        → (id : ℕ) (from to : Text) (sent : Sent) (rows : List Row)
        → strip (w.py.lower (strip sent.tx_hash)) ≡ truth.hash_of id
        → record_sent w id from to (plan.amt id) (some sent) m.db.rows ≡ some rows
        → Run start (record m { db = record m.db { rows = rows } })
    refresh : {m : Ledger} → Run start m → Run start (record m { cached = m.db.rows })
    look :
        {m : Ledger}
        → Run start m
        → (rpc : Rpc) (now : ℕ) (t : Row) (db : Db) → IsHonest w truth rpc
        → IsAmong t m.cached
        → settle_row w rpc ages now t m.db ≡ some db
        → Run start (record m { db = db })
    elsewhere :
        {m : Ledger}
        → Run start m
        → (db : Db) → db.rows ≡ m.db.rows
        → Run start (record m { db = db })
