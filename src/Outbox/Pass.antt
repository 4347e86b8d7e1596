-- ===== src/Outbox/Pass.antt =====
-- One pass over the cached pending rows (trans_updater.py, `check_pending_transactions`). A cached
-- row may be out of date. An exception ends the pass; the rows before it stay settled.
pub mod Evolves
pub mod Refines
pub mod Confirms
pub mod Stops
use nim_hunt.Prelude.{ℕ, Bool, true, false, ◌||◌, Option, none, some, List, [], ◌∷◌, if◌then◌else◌}
use nim_hunt.Chain.Rpc.{
  Rpc, chain_pending, chain_confirmed, chain_failed, chain_unknown, ChainStatus,
}
use nim_hunt.Outbox.{Row, Surroundings, is_server_initiated}
use nim_hunt.Outbox.Store.{Db}
use nim_hunt.Outbox.Verify.{
  Reason, Verified, refused, verified, is_uncertain, verify_chain_details_for_record,
}
use nim_hunt.Outbox.Check.{Ages, check_pending_transaction}
use nim_hunt.Outbox.Finalise.{mark_trans_as_confirmed, mark_trans_as_failed}

module _ (w : Surroundings) where
  -- What a row that was found on the chain comes to.
  unfoldable pub settle_found : Row → ChainStatus → Verified → Db → Option Db
  settle_found t s (verified from to amount) db =
      mark_trans_as_confirmed w t s.block_number from to amount db
  settle_found t s (refused reason) db =
      if is_server_initiated t || is_uncertain reason then some db else mark_trans_as_failed w t db

  unfoldable pub settle_status : Rpc → Row → ChainStatus → Db → Option Db
  settle_status rpc t s db = elim s.status [
    | chain_confirmed ↦ elim (verify_chain_details_for_record w rpc.history_to_verify t s) [
      | none ↦ none
      | some v ↦ settle_found t s v db
    ]
    | chain_failed ↦ mark_trans_as_failed w t db
    | _ ↦ some db
  ]

  unfoldable pub settle_row : Rpc → Ages → ℕ → Row → Db → Option Db
  settle_row rpc ages now t db = elim (check_pending_transaction w rpc ages now t) [
    | none ↦ none
    | some s ↦ settle_status rpc t s db
  ]

  -- What the RPC answers, and the time, may differ from row to row.
  unfoldable pub check_pending_transactions : (Row → Rpc) → (Row → ℕ) → Ages → List Row → Db → Db
  check_pending_transactions rpc now ages [] db = db
  check_pending_transactions rpc now ages (t ∷ ts) db =
      elim (settle_row (rpc t) ages (now t) t db) [
        | none ↦ db
        | some db' ↦ check_pending_transactions rpc now ages ts db'
      ]
