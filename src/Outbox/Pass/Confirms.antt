-- ===== src/Outbox/Pass/Confirms.antt =====
-- What one look does for a row that the chain shows, and what a broken answer does to a pass.
use nim_hunt.Prelude.{
  ℕ, ◌≡◌, refl, ap, inl, inr, true, false, ◌==◌, Option, some, List, [], ◌∷◌, arith, Bool-cases,
}
use nim_hunt.Prelude.Text.{Text}
use nim_hunt.Chain.Python.{Whole}
use nim_hunt.Chain.Rpc.{Rpc, ChainStatus, chain_confirmed}
use nim_hunt.Tables.{TransStatus, confirmed, pending}
use nim_hunt.Outbox.{Row, Surroundings}
use nim_hunt.Outbox.Store.{
  Db, row_of, change, settled, with_details, set_status, update_details, is_in, is_negative,
}
use nim_hunt.Outbox.Check.{Ages, check_pending_transaction}
use nim_hunt.Outbox.Verify.{verified, verify_chain_details_for_record}
use nim_hunt.Outbox.Finalise.{
  finalize_cancelled_spot_if_ready, claim_paid, completed_prizedraw_payout, mark_trans_as_confirmed,
  confirm_row, is_funding_mismatch,
}
use nim_hunt.Outbox.Pass.Refines.{finalize-rows, claim_paid-rows}
use nim_hunt.Outbox.Pass.{settle_found, settle_status, settle_row}

row_of-change :
    (id : ℕ) (f : Row → Row) (rows : List Row) (u : Row)
    → ((t : Row) → (f t).trans_id ≡ t.trans_id)
    → row_of id rows ≡ some u
    → row_of id (change id f rows) ≡ some (f u)
unfolding row_of change
row_of-change id f [] u keeps e = absurd cc
row_of-change id f (t ∷ rows) u keeps e = elim (Bool-cases (t.trans_id == id)) [
  | inl q ↦
      let k : t ≡ u = ground arith in
      let same_id : ((f t).trans_id == id) ≡ true = rw (keeps t) q in
      rw (q, same_id) (ap some (ap f k))
  | inr q ↦ let rest = row_of-change id f rows u keeps (ground arith) in rw (q, q) rest
]

settled-confirmed :
    (block : Option Whole) (t : Row)
    → is_in pending t ≡ true
    → (settled confirmed block t).status ≡ confirmed
unfolding settled
settled-confirmed block t e = rw e refl

settled-id :
    (s : TransStatus) (block : Option Whole) (t : Row) → (settled s block t).trans_id ≡ t.trans_id
unfolding settled
settled-id s block t = ground arith

with_details-id :
    (from to : Text) (amount : ℕ) (block : Option Whole) (t : Row)
    → (with_details from to amount block t).trans_id ≡ t.trans_id
unfolding with_details
with_details-id from to amount block t = refl

with_details-pending :
    (from to : Text) (amount : ℕ) (block : Option Whole) (t : Row)
    → is_in pending t ≡ true
    → is_in pending (with_details from to amount block t) ≡ true
unfolding with_details
with_details-pending from to amount block t e = e

update_details-known :
    (t u : Row) (block : Option Whole) (from to : Text) (amount : ℕ) (rows : List Row)
    → row_of t.trans_id rows ≡ some u
    → is_negative block ≡ false
    → update_details t.trans_id from to amount block rows
      ≡ some (change t.trans_id (with_details from to amount block) rows)
unfolding update_details
update_details-known t u block from to amount rows e ok = ground arith

finalize-row :
    (spot_id : Option ℕ) (id : ℕ) (db : Db) (v : Row)
    → row_of id db.rows ≡ some v
    → row_of id (finalize_cancelled_spot_if_ready spot_id db).rows ≡ some v
finalize-row spot_id id db v e = rw (finalize-rows spot_id db) e

module _ (w : Surroundings) where
  paid-row :
      (c : Option ℕ) (id : ℕ) (db : Db) (v : Row)
      → row_of id db.rows ≡ some v
      → row_of id (claim_paid w c db).rows ≡ some v
  paid-row c id db v e = rw (claim_paid-rows w c db) e

  -- The row ends confirmed.
  record IsConfirmed (id : ℕ) (o : Option Db) : Type 0 where
    after : Db
    row : Row
    returned : o ≡ some after
    found : row_of id after.rows ≡ some row
    status : row.status ≡ confirmed

  set_status-pending :
      (t u : Row) (block : Option Whole) (rows : List Row)
      → row_of t.trans_id rows ≡ some u
      → is_in pending u ≡ true
      → set_status t.trans_id confirmed block rows
        ≡ some (change t.trans_id (settled confirmed block) rows)
  unfolding set_status
  set_status-pending t u block rows e open_ = ground arith

  confirm_row-IsConfirmed :
      (t u : Row) (block : Option Whole) (db : Db)
      → row_of t.trans_id db.rows ≡ some u
      → is_in pending u ≡ true
      → IsConfirmed t.trans_id (confirm_row w t block db)
  unfolding confirm_row
  confirm_row-IsConfirmed t u block db e open_ =
      let rows = change t.trans_id (settled confirmed block) db.rows in
      let paid = claim_paid w (completed_prizedraw_payout db t) (record db { rows = rows }) in
      record {
        after = finalize_cancelled_spot_if_ready t.spot_id paid;
        row = settled confirmed block u;
        returned = rw (confirm_row, set_status-pending t u block db.rows e open_) refl;
        found = finalize-row t.spot_id t.trans_id paid (settled confirmed block u) (
            paid-row (completed_prizedraw_payout db t) t.trans_id (record db { rows = rows })
              (settled confirmed block u)
              (row_of-change t.trans_id (settled confirmed block) db.rows u
                (settled-id confirmed block) e));
        status = settled-confirmed block u open_;
      }

  mark-IsConfirmed :
      (t u : Row) (block : Option Whole) (from to : Text) (amount : ℕ) (db : Db)
      → row_of t.trans_id db.rows ≡ some u
      → is_in pending u ≡ true
      → is_negative block ≡ false
      → is_funding_mismatch w db t from ≡ false
      → IsConfirmed t.trans_id (mark_trans_as_confirmed w t block from to amount db)
  unfolding mark_trans_as_confirmed
  mark-IsConfirmed t u block from to amount db e open_ block_ok same_wallet =
      let rows = change t.trans_id (with_details from to amount block) db.rows in
      let q : update_details t.trans_id from to amount block db.rows ≡ some rows =
        update_details-known t u block from to amount db.rows e block_ok in
      rw (mark_trans_as_confirmed, q, same_wallet)
        (confirm_row-IsConfirmed t (with_details from to amount block u) block
          (record db { rows = rows })
          (row_of-change t.trans_id (with_details from to amount block) db.rows u
            (with_details-id from to amount block) e)
          (with_details-pending from to amount block u open_))

  -- A pending row is confirmed by one look if the chain shows its hash as executed, its details
  -- verify, the block number is none or natural, and no other wallet funded the Spot of a deposit.
  pub settle_row-confirms :
      (rpc : Rpc) (ages : Ages) (now : ℕ) (t u : Row) (s : ChainStatus) (from to : Text)
      (amount : ℕ) (db : Db)
      → check_pending_transaction w rpc ages now t ≡ some s
      → s.status ≡ chain_confirmed
      → verify_chain_details_for_record w rpc.history_to_verify t s ≡ some (verified from to amount)
      → row_of t.trans_id db.rows ≡ some u
      → u.status ≡ pending
      → is_negative s.block_number ≡ false
      → is_funding_mismatch w db t from ≡ false
      → (db' : Db) × (v : Row) × (settle_row w rpc ages now t db ≡ some db')
        × (row_of t.trans_id db'.rows ≡ some v)
        × (v.status ≡ confirmed)
  unfolding settle_row settle_status settle_found
  settle_row-confirms rpc ages now t u s from to amount db checked good proven e waiting block_ok
        same_wallet =
      let c =
        mark-IsConfirmed t u s.block_number from to amount db e (rw waiting refl) block_ok
          same_wallet in
      (
        c.after,
        c.row,
        rw (settle_row, checked, settle_status, good, proven) c.returned,
        c.found,
        c.status,
      )
