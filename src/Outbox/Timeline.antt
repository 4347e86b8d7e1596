-- ===== src/Outbox/Timeline.antt =====
-- The outbox over time: any workers that record, broadcast, look at and settle rows, in any order,
-- with crashes between any two steps and answers that get lost. An intent's token has no space at its
-- end. The `Truth` of a run says what happened outside the tables.
pub mod Sound
pub mod Once
pub mod Pinned
use nim_hunt.Prelude.{
  ℕ, suc, ◌+◌, ◌≤◌, ◌≡◌, refl, ◌⊎◌, inl, inr, Bool, true, false, ◌&&◌, not, ◌==◌, Option, none,
  some, List, [], ◌∷◌, arith, length, any, total, map, All, Bool-cases, Option-cases, if◌then◌else◌,
}
use nim_hunt.Prelude.Strip.{strip-strip}
use nim_hunt.Prelude.Text.{Text, strip}
use nim_hunt.Chain.Rpc.{Rpc}
use nim_hunt.Tables.{
  TransType, claim, type_code, TransStatus, pending, confirmed, failed, status_code,
}
use nim_hunt.Outbox.{Row, Surroundings, is_local_intent_hash, is_deposit}
use nim_hunt.Outbox.Store.{
  Db, ClaimRow, change, as_sent, update_sent, row_of, is_kind, is_in, is_at, is_active_payout,
  has_nonfailed_claim_payout,
}
use nim_hunt.Outbox.Check.{Ages}
use nim_hunt.Outbox.Check.Proven.{FailureProof}
use nim_hunt.Outbox.Pass.{settle_row}
use nim_hunt.Outbox.Pass.Evolves.{Evolves, Became, done, next}
use nim_hunt.Outbox.Pass.Refines.{settle_row-Evolves, Cause, proven, deposit, blank, IsAmong}
use nim_hunt.Outbox.Submit.{
  make_local_intent_hash, Sent, Intent, create_transaction, next_id, record_claim_intent,
  record_sent,
}

-- The tables, and the rows that the pass has cached.
pub record Ledger : Type 0 where
  pub db : Db
  pub cached : List Row

-- What the chain made of the broadcasts: the hash that the row of an id went out under, what kind of
-- row the id was given to, and whether a hash moved money.
pub record Truth : Type 0 where
  pub hash_of : ℕ → Text
  pub kind_of : ℕ → TransType
  pub paid : Text → Bool

-- An RPC that calls no transaction failed that moved money.
pub record IsHonest (w : Surroundings) (truth : Truth) (rpc : Rpc) : Type 0 where
  pub unpaid : (h : Text) → FailureProof w rpc h → truth.paid h ≡ false

module _ (w : Surroundings) (ages : Ages) (truth : Truth) where
  pub data Step (m : Ledger) : Ledger → Type 0 where
    intend :
        (now claim_id amount : ℕ) (deposit_address to : Text) (kind id token : Text)
        (recorded : List Row × Text × Text)
        → strip (make_local_intent_hash kind id token) ≡ make_local_intent_hash kind id token
        → truth.kind_of (next_id m.db.rows) ≡ claim
        → record_claim_intent w now claim_id amount deposit_address to
            (make_local_intent_hash kind id token)
            m.db
          ≡ some recorded
        → Step m (record m { db = record m.db { rows = recorded.0 } })
    record_other :
        (now : ℕ) (i : Intent) (rows : List Row)
        → (type_code i.kind == 20) ≡ false
        → truth.kind_of (next_id m.db.rows) ≡ i.kind
        → create_transaction now i m.db.rows ≡ some rows
        → Step m (record m { db = record m.db { rows = rows } })
    answer :
        (id : ℕ) (from to : Text) (amount : ℕ) (sent : Sent) (rows : List Row)
        → strip (w.py.lower (strip sent.tx_hash)) ≡ truth.hash_of id
        → record_sent w id from to amount (some sent) m.db.rows ≡ some rows
        → Step m (record m { db = record m.db { rows = rows } })
    refresh : Step m (record m { cached = m.db.rows })
    look :
        (rpc : Rpc) (now : ℕ) (t : Row) (db : Db)
        → IsHonest w truth rpc
        → IsAmong t m.cached
        → settle_row w rpc ages now t m.db ≡ some db
        → Step m (record m { db = db })
    elsewhere : (db : Db) → db.rows ≡ m.db.rows → Step m (record m { db = db })

  pub data Reach (m : Ledger) : Ledger → Type 0 where
    here : Reach m m
    after : {k n : Ledger} → Reach m k → Step k n → Reach m n
