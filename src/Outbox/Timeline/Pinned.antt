-- ===== src/Outbox/Timeline/Pinned.antt =====
-- A payout stays at the claim and the amount that its intent was made with.
use nim_hunt.Prelude.{
  ℕ, ◌≡◌, refl, sym, subst, ◌∙◌, ◌⊎◌, inl, inr, true, ◌||◌, ◌==◌, Option, none, some, List, [], ◌∷◌,
  arith, All, Bool-cases, Option-cases, if-holds,
}
use nim_hunt.Prelude.Text.{Text, strip}
use nim_hunt.Chain.Python.{Whole}
use nim_hunt.Chain.Rpc.{Rpc, ChainStatus}
use nim_hunt.Tables.{TransStatus, pending, confirmed, failed, type_code}
use nim_hunt.Outbox.{Row, Surroundings, is_server_initiated, is_deposit}
use nim_hunt.Outbox.Store.{
  Db, is_in, change, settled, with_details, as_sent, row_of, set_status, update_details,
  update_sent,
}
use nim_hunt.Outbox.Check.{Ages, check_pending_transaction}
use nim_hunt.Outbox.Verify.{
  Verified, verified, refused, is_uncertain, verify_chain_details_for_record,
}
use nim_hunt.Outbox.Verify.Matches.{verify_chain_details_for_record-IsMatch}
use nim_hunt.Outbox.Finalise.{
  mark_trans_as_confirmed, mark_trans_as_failed, confirm_row, finalize_cancelled_spot_if_ready,
  claim_paid, completed_prizedraw_payout, is_funding_mismatch,
}
use nim_hunt.Outbox.Pass.{settle_found, settle_status, settle_row}
use nim_hunt.Outbox.Pass.Refines.{finalize-rows, claim_paid-rows, Outcome-cases}
use nim_hunt.Outbox.Submit.{Sent, validate_submitted, record_sent}
use nim_hunt.Outbox.Submit.Recorded.{validate_submitted-amount}
use nim_hunt.Outbox.Timeline.{Truth}
use nim_hunt.Outbox.Timeline.Sound.{payout_of_deposit}

-- `who` and `amt` say which claim a payout's intent was made for, and its amount, and `Right` what was
-- checked of it.
module _ (w : Surroundings) (truth : Truth) (who amt : ℕ → ℕ) (Right : ℕ → Type 0) where
  pub record IsPinned (t : Row) : Type 0 where
    pub kind : truth.kind_of t.trans_id ≡ t.kind
    pub claim : (type_code t.kind == 20) ≡ true → t.claim_id ≡ some (who t.trans_id)
    pub amount : (type_code t.kind == 20) ≡ true → t.amount ≡ amt t.trans_id
    pub right : Right t.trans_id

  change-IsPinned :
      (id : ℕ) (f : Row → Row)
      → ((u : Row) → u.trans_id ≡ id → IsPinned u → IsPinned (f u))
      → (ts : List Row) → All IsPinned ts
      → All IsPinned (change id f ts)
  unfolding change
  change-IsPinned id f h [] p = tt
  change-IsPinned id f h (t ∷ ts) p = elim (Bool-cases (t.trans_id == id)) [
    | inl e ↦ rw e (h t (ground arith) p.0, change-IsPinned id f h ts p.1)
    | inr e ↦ rw e (p.0, change-IsPinned id f h ts p.1)
  ]

  settled-IsPinned :
      (s : TransStatus) (block : Option Whole) (t : Row) → IsPinned t → IsPinned (settled s block t)
  unfolding settled
  settled-IsPinned s block t p =
      if-holds IsPinned (is_in pending t) _ _
        (λ e. record { kind = p.kind; claim = p.claim; amount = p.amount; right = p.right })
        (λ e. p)

  set_status-IsPinned :
      (id : ℕ) (s : TransStatus) (block : Option Whole) (ts us : List Row)
      → All IsPinned ts
      → set_status id s block ts ≡ some us
      → All IsPinned us
  unfolding set_status
  set_status-IsPinned id s block ts us p e = elim (Option-cases (row_of id ts)) [
    | inl absent ↦ absurd (ground arith)
    | inr (t, et) ↦ elim (Bool-cases (is_in pending t)) [
      | inl open_ ↦
          let q : change id (settled s block) ts ≡ us = ground arith in
          subst (All IsPinned) q
            (change-IsPinned id (settled s block) (λ u h v. settled-IsPinned s block u v) ts p)
      | inr closed ↦ let q : ts ≡ us = ground arith in subst (All IsPinned) q p
    ]
  ]

  with_details-IsPinned :
      (id amount : ℕ) (from to : Text) (block : Option Whole) (u : Row)
      → u.trans_id ≡ id
      → (truth.kind_of id ≡ u.kind → (type_code u.kind == 20) ≡ true → amount ≡ amt id)
      → IsPinned u
      → IsPinned (with_details from to amount block u)
  unfolding with_details
  with_details-IsPinned id amount from to block u e h p = record {
    kind = p.kind;
    claim = p.claim;
    amount = λ k. rw e (h (rw (← e) p.kind) k);
    right = p.right;
  }

  update_details-IsPinned :
      (id amount : ℕ) (from to : Text) (block : Option Whole) (ts us : List Row)
      → ((u : Row) → truth.kind_of id ≡ u.kind → (type_code u.kind == 20) ≡ true → amount ≡ amt id)
      → All IsPinned ts
      → update_details id from to amount block ts ≡ some us
      → All IsPinned us
  unfolding update_details
  update_details-IsPinned id amount from to block ts us h p e = elim (Option-cases (row_of id ts)) [
    | inl absent ↦ absurd (ground arith)
    | inr (t, et) ↦
        let q : change id (with_details from to amount block) ts ≡ us = ground arith in
        subst (All IsPinned) q (
          change-IsPinned id (with_details from to amount block)
            (λ u k v. with_details-IsPinned id amount from to block u k (h u) v) ts p)
  ]

  failed-IsPinned :
      (t : Row) (db db' : Db)
      → All IsPinned db.rows
      → mark_trans_as_failed w t db ≡ some db'
      → All IsPinned db'.rows
  unfolding mark_trans_as_failed
  failed-IsPinned t db db' p e = elim (Option-cases (set_status t.trans_id failed none db.rows)) [
    | inl absent ↦ absurd (ground arith)
    | inr (us, es) ↦
        let q : finalize_cancelled_spot_if_ready t.spot_id (record db { rows = us }) ≡ db' =
          ground arith in
        rw (← q, finalize-rows t.spot_id (record db { rows = us }))
          (set_status-IsPinned t.trans_id failed none db.rows us p es)
  ]

  confirm_row-IsPinned :
      (t : Row) (block : Option Whole) (db db' : Db)
      → All IsPinned db.rows
      → confirm_row w t block db ≡ some db'
      → All IsPinned db'.rows
  unfolding confirm_row
  confirm_row-IsPinned t block db db' p e =
      elim (Option-cases (set_status t.trans_id confirmed block db.rows)) [
        | inl absent ↦ absurd (ground arith)
        | inr (us, es) ↦
            let done = claim_paid w (completed_prizedraw_payout db t) (record db { rows = us }) in
            let q : finalize_cancelled_spot_if_ready t.spot_id done ≡ db' = ground arith in
            rw
              (
                ← q,
                finalize-rows t.spot_id done,
                claim_paid-rows w (completed_prizedraw_payout db t) (record db { rows = us }),
              )
              (set_status-IsPinned t.trans_id confirmed block db.rows us p es)
      ]

  confirmed-IsPinned :
      (t : Row) (block : Option Whole) (from to : Text) (amount : ℕ) (db db' : Db)
      → ((u : Row)
          → truth.kind_of t.trans_id ≡ u.kind
          → (type_code u.kind == 20) ≡ true
          → amount ≡ amt t.trans_id)
      → All IsPinned db.rows
      → mark_trans_as_confirmed w t block from to amount db ≡ some db'
      → All IsPinned db'.rows
  unfolding mark_trans_as_confirmed
  confirmed-IsPinned t block from to amount db db' h p e =
      elim (Option-cases (update_details t.trans_id from to amount block db.rows)) [
        | inl absent ↦ absurd (ground arith)
        | inr (us, eu) ↦
            let p' = update_details-IsPinned t.trans_id amount from to block db.rows us h p eu in
            elim (Bool-cases (is_funding_mismatch w db t from)) [
              | inl other ↦ elim (Option-cases (set_status t.trans_id failed none us)) [
                | inl absent ↦ absurd (ground arith)
                | inr (vs, ev) ↦
                    let q : record db { rows = vs } ≡ db' = ground arith in
                    rw (← q) (set_status-IsPinned t.trans_id failed none us vs p' ev)
              ]
              | inr same_wallet ↦
                  confirm_row-IsPinned t block (record db { rows = us }) db' p' (ground arith)
            ]
      ]

  -- What the chain shows of a payout is the amount of its row.
  shown_amount :
      (t : Row) (amount : ℕ) (u : Row)
      → IsPinned t
      → (is_deposit t.kind ≡ true) ⊎ (amount ≡ t.amount)
      → truth.kind_of t.trans_id ≡ u.kind
      → (type_code u.kind == 20) ≡ true
      → amount ≡ amt t.trans_id
  shown_amount t amount u p exact k c =
      let same_kind : t.kind ≡ u.kind = sym p.kind ∙ k in
      let code : (type_code t.kind == 20) ≡ true = rw same_kind c in
      elim exact [
        | inl d ↦ absurd (let n = payout_of_deposit truth t.kind d in cc)
        | inr a ↦ a ∙ p.amount code
      ]

  found-IsPinned :
      (t : Row) (s : ChainStatus) (v : Verified) (db db' : Db)
      → ((from to : Text) (amount : ℕ)
          → v ≡ verified from to amount
          → (is_deposit t.kind ≡ true) ⊎ (amount ≡ t.amount))
      → IsPinned t
      → All IsPinned db.rows
      → settle_found w t s v db ≡ some db'
      → All IsPinned db'.rows
  unfolding settle_found
  found-IsPinned t s (verified from to amount) db db' exact pt p e =
      confirmed-IsPinned t s.block_number from to amount db db'
        (λ u. shown_amount t amount u pt (exact from to amount refl)) p e
  found-IsPinned t s (refused r) db db' exact pt p e =
      elim (Bool-cases (is_server_initiated t || is_uncertain r)) [
        | inl kept ↦ let q : db ≡ db' = ground arith in rw (← q) p
        | inr wrong ↦ failed-IsPinned t db db' p (ground arith)
      ]

  status-IsPinned :
      (rpc : Rpc) (t : Row) (s : ChainStatus) (db db' : Db)
      → IsPinned t
      → All IsPinned db.rows
      → settle_status w rpc t s db ≡ some db'
      → All IsPinned db'.rows
  unfolding settle_status
  status-IsPinned rpc t s db db' pt p e = elim (Outcome-cases s.status) [
    | inr (inr idle) ↦ let q : db ≡ db' = ground arith in rw (← q) p
    | inr (inl bad) ↦ failed-IsPinned t db db' p (rw (settle_status, bad) at e)
    | inl good ↦ elim (Option-cases (verify_chain_details_for_record w rpc.history_to_verify t s)) [
      | inl absent ↦ absurd (ground arith)
      | inr (v, ev) ↦
          found-IsPinned t s v db db'
            (λ from to amount q.
              (verify_chain_details_for_record-IsMatch w rpc.history_to_verify t s from to amount
                (rw q at ev)).0.exact)
            pt p (rw (settle_status, good, ev) at e)
    ]
  ]

  pub settle_row-IsPinned :
      (rpc : Rpc) (ages : Ages) (now : ℕ) (t : Row) (db db' : Db)
      → IsPinned t
      → All IsPinned db.rows
      → settle_row w rpc ages now t db ≡ some db'
      → All IsPinned db'.rows
  unfolding settle_row
  settle_row-IsPinned rpc ages now t db db' pt p e =
      elim (Option-cases (check_pending_transaction w rpc ages now t)) [
        | inl absent ↦ absurd (ground arith)
        | inr (s, es) ↦ status-IsPinned rpc t s db db' pt p (rw (settle_row, es) at e)
      ]

  -- A broadcast that is checked against its intent's amount.
  pub record_sent-IsPinned :
      (id : ℕ) (from to : Text) (amount : ℕ) (sent : Sent) (ts us : List Row)
      → amount ≡ amt id
      → All IsPinned ts
      → record_sent w id from to amount (some sent) ts ≡ some us
      → All IsPinned us
  unfolding record_sent update_sent as_sent
  record_sent-IsPinned id from to amount sent ts us right p e =
      elim (Option-cases (validate_submitted w sent from to amount)) [
        | inl absent ↦ absurd (ground arith)
        | inr (v, ev) ↦ elim (Option-cases (row_of id ts)) [
          | inl absent ↦ absurd (ground arith)
          | inr (t, et) ↦
              let f = as_sent (strip v.tx_hash) v.from_address v.to_address v.amount in
              let a : v.amount ≡ amt id =
                validate_submitted-amount w sent v from to amount ev ∙ right in
              let q : change id f ts ≡ us = ground arith in
              subst (All IsPinned) q (
                change-IsPinned id f
                  (λ u k h. record {
                    kind = h.kind;
                    claim = h.claim;
                    amount = λ c. rw k a;
                    right = h.right;
                  })
                  ts p)
        ]
      ]
