-- ===== src/Outbox/Pass/Refines.antt =====
-- The pass implements the abstract machine, and fails no outgoing payment without proof.
use nim_hunt.Prelude.{
  ℕ, ◌≡◌, refl, ◌⊎◌, inl, inr, true, false, ◌==◌, ◌||◌, Option, none, some, List, [], ◌∷◌, arith,
  length, Bool-cases, Option-cases, All, All-weaken,
}
use nim_hunt.Prelude.Text.{Text, strip}
use nim_hunt.Chain.Python.{Whole}
use nim_hunt.Chain.Rpc.{
  Rpc, ChainStatus, Outcome, chain_pending, chain_confirmed, chain_failed, chain_unknown,
}
use nim_hunt.Tables.{confirmed, failed}
use nim_hunt.Outbox.{Row, Surroundings, is_server_initiated, is_deposit, is_local_intent_hash}
use nim_hunt.Outbox.Store.{Db, spot_of, set_status, update_details}
use nim_hunt.Outbox.Check.{Ages, check_pending_transaction}
use nim_hunt.Outbox.Check.Proven.{FailureProof, check_pending_transaction-failed}
use nim_hunt.Outbox.Verify.{
  Reason, Verified, refused, verified, is_uncertain, verify_chain_details_for_record,
}
use nim_hunt.Outbox.Finalise.{
  mark_trans_as_confirmed, mark_trans_as_failed, confirm_row, finalize_cancelled_spot_if_ready,
  claim_paid, completed_prizedraw_payout, is_funding_mismatch,
}
use nim_hunt.Outbox.Pass.{settle_found, settle_status, settle_row, check_pending_transactions}
use nim_hunt.Outbox.Pass.Evolves.{
  confirms, fails, Evolves, Evolves-refl, Evolves-trans, set_status-Evolves, update_details-Evolves,
}

pub finalize-rows :
    (spot_id : Option ℕ) (db : Db) → (finalize_cancelled_spot_if_ready spot_id db).rows ≡ db.rows
unfolding finalize_cancelled_spot_if_ready
finalize-rows none db = refl
finalize-rows (some id) db = elim (Option-cases (spot_of db.spots id)) [
  | inl absent ↦ rw (finalize_cancelled_spot_if_ready, absent) refl
  | inr (s, es) ↦ ground arith
]

pub claim_paid-rows :
    (w : Surroundings) (id : Option ℕ) (db : Db) → (claim_paid w id db).rows ≡ db.rows
claim_paid-rows w none db = refl
claim_paid-rows w (some id) db = refl

pub Outcome-cases :
    (o : Outcome)
    → (o ≡ chain_confirmed) ⊎ ((o ≡ chain_failed) ⊎ ((o ≡ chain_pending) ⊎ (o ≡ chain_unknown)))
Outcome-cases chain_pending = inr (inr (inl refl))
Outcome-cases chain_confirmed = inl refl
Outcome-cases chain_failed = inr (inl refl)
Outcome-cases chain_unknown = inr (inr (inr refl))

module _ (w : Surroundings) where
  -- Why a cached row may be called failed: it has a hash, and an answer to that reports a failed
  -- execution; or it is a deposit; or its hash is blank.
  pub data Cause (rpc : Rpc) (t : Row) : Type 0 where
    proven :
        is_local_intent_hash (strip t.tx_hash) ≡ false
        → FailureProof w rpc (strip t.tx_hash)
        → Cause rpc t
    deposit : is_deposit t.kind ≡ true → Cause rpc t
    blank : (length (strip t.tx_hash) == 0) ≡ true → Cause rpc t

  mismatch_is_deposit :
      (db : Db) (t : Row) (from : Text)
      → is_funding_mismatch w db t from ≡ true
      → is_deposit t.kind ≡ true
  unfolding is_funding_mismatch
  mismatch_is_deposit db t from e = ground arith

  refused_is_deposit :
      (t : Row) (r : Reason)
      → (is_server_initiated t || is_uncertain r) ≡ false
      → is_deposit t.kind ≡ true
  unfolding is_server_initiated
  refused_is_deposit t r e = ground arith

  broadcast_before_failed :
      (rpc : Rpc) (ages : Ages) (now : ℕ) (t : Row) (s : ChainStatus)
      → check_pending_transaction w rpc ages now t ≡ some s
      → s.status ≡ chain_failed
      → is_local_intent_hash (strip t.tx_hash) ≡ false
  unfolding check_pending_transaction
  broadcast_before_failed rpc ages now t s e f = ground arith

  Cause-of_failed :
      (rpc : Rpc) (ages : Ages) (now : ℕ) (t : Row) (s : ChainStatus)
      → check_pending_transaction w rpc ages now t ≡ some s
      → s.status ≡ chain_failed
      → Cause rpc t
  Cause-of_failed rpc ages now t s e f = elim (Bool-cases (length (strip t.tx_hash) == 0)) [
    | inl none_ ↦ blank none_
    | inr filled ↦ elim (check_pending_transaction-failed w rpc ages now t s filled e f) [
      | inl p ↦ proven (broadcast_before_failed rpc ages now t s e f) p
      | inr (d, age) ↦ deposit d
    ]
  ]

module _ (w : Surroundings) (Why : ℕ → Type 0) where
  pub mark_trans_as_failed-Evolves :
      (t : Row) (db db' : Db)
      → Why t.trans_id
      → mark_trans_as_failed w t db ≡ some db'
      → Evolves Why db.rows db'.rows
  unfolding mark_trans_as_failed
  mark_trans_as_failed-Evolves t db db' why e =
      elim (Option-cases (set_status t.trans_id failed none db.rows)) [
        | inl absent ↦ absurd (ground arith)
        | inr (us, es) ↦
            let q : finalize_cancelled_spot_if_ready t.spot_id (record db { rows = us }) ≡ db' =
              ground arith in
            rw (← q, finalize-rows t.spot_id (record db { rows = us }))
              (set_status-Evolves Why t.trans_id failed none db.rows us fails (λ f. why) es)
      ]

  confirm_row-Evolves :
      (t : Row) (block : Option Whole) (db db' : Db)
      → confirm_row w t block db ≡ some db'
      → Evolves Why db.rows db'.rows
  unfolding confirm_row
  confirm_row-Evolves t block db db' e =
      elim (Option-cases (set_status t.trans_id confirmed block db.rows)) [
        | inl absent ↦ absurd (ground arith)
        | inr (us, es) ↦
            let paid = claim_paid w (completed_prizedraw_payout db t) (record db { rows = us }) in
            let q : finalize_cancelled_spot_if_ready t.spot_id paid ≡ db' = ground arith in
            rw
              (
                ← q,
                finalize-rows t.spot_id paid,
                claim_paid-rows w (completed_prizedraw_payout db t) (record db { rows = us }),
              )
              (set_status-Evolves Why t.trans_id confirmed block db.rows us confirms
                (λ f. absurd cc) es)
      ]

  pub mark_trans_as_confirmed-Evolves :
      (t : Row) (block : Option Whole) (from to : Text) (amount : ℕ) (db db' : Db)
      → (is_deposit t.kind ≡ true → Why t.trans_id)
      → mark_trans_as_confirmed w t block from to amount db ≡ some db'
      → Evolves Why db.rows db'.rows
  unfolding mark_trans_as_confirmed
  mark_trans_as_confirmed-Evolves t block from to amount db db' why e =
      elim (Option-cases (update_details t.trans_id from to amount block db.rows)) [
        | inl absent ↦ absurd (ground arith)
        | inr (us, eu) ↦ elim (Bool-cases (is_funding_mismatch w db t from)) [
          | inl other ↦ elim (Option-cases (set_status t.trans_id failed none us)) [
            | inl absent ↦ absurd (ground arith)
            | inr (vs, ev) ↦
                let q : record db { rows = vs } ≡ db' = ground arith in
                rw (← q) (
                  Evolves-trans Why
                    (update_details-Evolves Why t.trans_id from to amount block db.rows us eu)
                    (set_status-Evolves Why t.trans_id failed none us vs fails
                      (λ f. why (mismatch_is_deposit w db t from other)) ev))
          ]
          | inr same_wallet ↦
              Evolves-trans Why
                (update_details-Evolves Why t.trans_id from to amount block db.rows us eu)
                (confirm_row-Evolves t block (record db { rows = us }) db' (ground arith))
        ]
      ]

  settle_found-Evolves :
      (t : Row) (s : ChainStatus) (v : Verified) (db db' : Db)
      → (is_deposit t.kind ≡ true → Why t.trans_id)
      → settle_found w t s v db ≡ some db'
      → Evolves Why db.rows db'.rows
  unfolding settle_found
  settle_found-Evolves t s (verified from to amount) db db' why e =
      mark_trans_as_confirmed-Evolves t s.block_number from to amount db db' why e
  settle_found-Evolves t s (refused r) db db' why e =
      elim (Bool-cases (is_server_initiated t || is_uncertain r)) [
        | inl kept ↦ let q : db ≡ db' = ground arith in rw (← q) (Evolves-refl Why db.rows)
        | inr wrong ↦
            mark_trans_as_failed-Evolves t db db' (why (refused_is_deposit w t r wrong))
              (ground arith)
      ]

  pub idle_status :
      (rpc : Rpc) (t : Row) (s : ChainStatus) (db db' : Db)
      → (s.status ≡ chain_pending) ⊎ (s.status ≡ chain_unknown)
      → settle_status w rpc t s db ≡ some db'
      → db ≡ db'
  unfolding settle_status
  idle_status rpc t s db db' h e = ground arith

  settle_status-Evolves :
      (rpc : Rpc) (t : Row) (s : ChainStatus) (db db' : Db)
      → (is_deposit t.kind ≡ true → Why t.trans_id)
      → (s.status ≡ chain_failed → Why t.trans_id)
      → settle_status w rpc t s db ≡ some db'
      → Evolves Why db.rows db'.rows
  unfolding settle_status
  settle_status-Evolves rpc t s db db' why reported e = elim (Outcome-cases s.status) [
    | inr (inr idle) ↦
        let q : db ≡ db' = idle_status rpc t s db db' idle e in rw (← q) (Evolves-refl Why db.rows)
    | inr (inl bad) ↦
        mark_trans_as_failed-Evolves t db db' (reported bad) (rw (settle_status, bad) at e)
    | inl good ↦ elim (Option-cases (verify_chain_details_for_record w rpc.history_to_verify t s)) [
      | inl absent ↦ absurd (ground arith)
      | inr (v, ev) ↦ settle_found-Evolves t s v db db' why (rw (settle_status, good, ev) at e)
    ]
  ]

  pub settle_row-Evolves :
      (rpc : Rpc) (ages : Ages) (now : ℕ) (t : Row) (db db' : Db)
      → (Cause w rpc t → Why t.trans_id)
      → settle_row w rpc ages now t db ≡ some db'
      → Evolves Why db.rows db'.rows
  unfolding settle_row
  settle_row-Evolves rpc ages now t db db' why e =
      elim (Option-cases (check_pending_transaction w rpc ages now t)) [
        | inl absent ↦ absurd (ground arith)
        | inr (s, es) ↦
            settle_status-Evolves rpc t s db db' (λ d. why (deposit d))
              (λ f. why (Cause-of_failed w rpc ages now t s es f)) (ground arith)
      ]

  pass-Evolves :
      (rpc : Row → Rpc) (now : Row → ℕ) (ages : Ages) (cached : List Row) (db : Db)
      → All (λ t. Cause w (rpc t) t → Why t.trans_id) cached
      → Evolves Why db.rows (check_pending_transactions w rpc now ages cached db).rows
  unfolding check_pending_transactions
  pass-Evolves rpc now ages [] db h = Evolves-refl Why db.rows
  pass-Evolves rpc now ages (t ∷ ts) db h =
      elim (Option-cases (settle_row w (rpc t) ages (now t) t db)) [
        | inl raised ↦ rw (check_pending_transactions, raised) (Evolves-refl Why db.rows)
        | inr (db', e) ↦
            rw (check_pending_transactions, e)
              (Evolves-trans Why (settle_row-Evolves (rpc t) ages (now t) t db db' h.0 e)
                (pass-Evolves rpc now ages ts db' h.1))
      ]

pub data IsAmong (t : Row) : List Row → Type 0 where
  first : {ts : List Row} → IsAmong t (t ∷ ts)
  later : {u : Row} {ts : List Row} → IsAmong t ts → IsAmong t (u ∷ ts)

members : (ts : List Row) → All (λ t. IsAmong t ts) ts
members [] = tt
members (t ∷ ts) = (
  first,
  All-weaken (λ u. IsAmong u ts) (λ u. IsAmong u (t ∷ ts)) (λ u m. later m) ts (members ts),
)

-- Why a pass may fail the row of an id: a cached row of that id gives it a cause.
pub record IsBlamed (w : Surroundings) (rpc : Row → Rpc) (cached : List Row) (id : ℕ) : Type 0 where
  pub row : Row
  pub among : IsAmong row cached
  pub same_id : row.trans_id ≡ id
  pub cause : Cause w (rpc row) row

-- A pass, whatever the chain answers and however old the cached rows are, moves the rows only as the
-- abstract machine does: no row appears, goes, becomes another payment or leaves a final status, and
-- a row becomes failed only for a cause that a cached row of its id gives.
pub check_pending_transactions-Evolves :
    (w : Surroundings) (rpc : Row → Rpc) (now : Row → ℕ) (ages : Ages) (cached : List Row) (db : Db)
    → Evolves
        (IsBlamed w rpc cached)
        db.rows
        (check_pending_transactions w rpc now ages cached db).rows
check_pending_transactions-Evolves w rpc now ages cached db =
    pass-Evolves w (IsBlamed w rpc cached) rpc now ages cached db (
      All-weaken (λ t. IsAmong t cached) (λ t. Cause w (rpc t) t → IsBlamed w rpc cached t.trans_id)
        (λ t m c. record { row = t; among = m; same_id = refl; cause = c }) cached (members cached))
