-- ===== src/Outbox/Pass/Stops.antt =====
-- An answer that is not JSON ends a pass.
use nim_hunt.Prelude.{
  ℕ, ◌≡◌, refl, inl, inr, false, ◌==◌, none, List, [], ◌∷◌, ◌++◌, length, Option-cases,
}
use nim_hunt.Prelude.Strip.{strip-strip}
use nim_hunt.Prelude.Text.{strip}
use nim_hunt.Chain.Rpc.{Rpc, not_json, json_rpc_post, get_chain_transaction_status}
use nim_hunt.Outbox.{Row, Surroundings, is_local_intent_hash}
use nim_hunt.Outbox.Store.{Db}
use nim_hunt.Outbox.Check.{Ages, check_pending_transaction}
use nim_hunt.Outbox.Pass.{settle_row, check_pending_transactions}

module _ (w : Surroundings) where
  raises :
      (rpc : Rpc) (ages : Ages) (now : ℕ) (t : Row)
      → is_local_intent_hash (strip t.tx_hash) ≡ false
      → (length (strip t.tx_hash) == 0) ≡ false
      → rpc.by_hash (strip t.tx_hash) ≡ not_json
      → check_pending_transaction w rpc ages now t ≡ none
  unfolding check_pending_transaction get_chain_transaction_status json_rpc_post
  raises rpc ages now t broadcast filled bad =
      rw (broadcast, strip-strip t.tx_hash, filled, bad) refl

  -- A broadcast row to whose hash the RPC answers with a body that is not JSON ends the pass: that row
  -- and every row after it stay as they are.
  pub check_pending_transactions-stops :
      (rpc : Row → Rpc) (now : Row → ℕ) (ages : Ages) (before : List Row) (t : Row)
      (after : List Row) (db : Db)
      → is_local_intent_hash (strip t.tx_hash) ≡ false
      → (length (strip t.tx_hash) == 0) ≡ false
      → (rpc t).by_hash (strip t.tx_hash) ≡ not_json
      → check_pending_transactions w rpc now ages (before ++ t ∷ after) db
        ≡ check_pending_transactions w rpc now ages before db
  unfolding check_pending_transactions settle_row
  check_pending_transactions-stops rpc now ages [] t after db broadcast filled bad =
      rw
        (check_pending_transactions, settle_row, raises (rpc t) ages (now t) t broadcast filled bad)
        refl
  check_pending_transactions-stops rpc now ages (u ∷ before) t after db broadcast filled bad =
      elim (Option-cases (settle_row w (rpc u) ages (now u) u db)) [
        | inl raised ↦ rw (check_pending_transactions, raised) refl
        | inr (db', e) ↦
            rw (check_pending_transactions, e)
              (check_pending_transactions-stops rpc now ages before t after db' broadcast filled
                bad)
      ]
