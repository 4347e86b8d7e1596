-- ===== src/Settlement/Payouts/Timeline/Calls.antt =====
-- Calls of `payout_standard_claim_if_ready` as steps of a run.
use nim_hunt.Prelude.{
  ℕ, ◌≡◌, refl, sym, subst, inl, inr, Bool, ◌==◌, none, some, List, Option-cases, if-holds,
}
use nim_hunt.Prelude.Text.{Text, strip}
use nim_hunt.Tables.{claim}
use nim_hunt.Outbox.{Row, Surroundings}
use nim_hunt.Outbox.Store.{Db, ClaimRow, claim_of, has_nonfailed_claim_payout}
use nim_hunt.Outbox.Check.{Ages}
use nim_hunt.Outbox.Submit.{
  make_local_intent_hash, Sent, next_id, record_claim_intent, record_sent,
  submit_recorded_claim_send,
}
use nim_hunt.Outbox.Timeline.{Ledger, Truth}
use nim_hunt.Settlement.Payouts.{
  pay_spot, StandardJob, send, claim_missing, claim_not_successful, spot_missing,
  prizedraw_managed_separately, payout_recorded, invalid_payout_amount, Reward, Paid, standard_job,
  Sending, claim_payee, of_submission, submit_claim_reward_transaction,
  payout_standard_claim_if_ready, payout_standard_claim_if_ready_with_security,
}
use nim_hunt.Settlement.Payouts.Timeline.{Plan, Run, settle, answer}

unanswered :
    (w : Surroundings) (id : ℕ) (from to : Text) (amount : ℕ) (rows rows' : List Row)
    → ¬ record_sent w id from to amount none rows ≡ some rows'
unfolding record_sent
unanswered w id from to amount rows rows' e = cc

module _ (w : Surroundings) (ages : Ages) (truth : Truth) (plan : Plan) (start : Ledger)
    (x : Sending) (kind id token : Text) (claim_id : ℕ) (first m : Ledger) where
  abbrev Goes : List Row → Type 0
  Goes rows = Run w ages truth plan start (record m { db = record m.db { rows = rows } })

  module _ (amount : ℕ) (before : Run w ages truth plan start first)
      (run : Run w ages truth plan start m)
      (home : (c : ClaimRow)
        → claim_of first.db.claims claim_id ≡ some c
        → c.spot_id ≡ plan.home claim_id)
      (job : standard_job plan.spots claim_id first.db ≡ send amount)
      (who : plan.who (next_id m.db.rows) ≡ claim_id) (amt : plan.amt (next_id m.db.rows) ≡ amount)
      (kind_ : truth.kind_of (next_id m.db.rows) ≡ claim)
      (hash : x.intent_hash ≡ make_local_intent_hash kind id token)
      (kept : strip (make_local_intent_hash kind id token) ≡ make_local_intent_hash kind id token)
      (answers : (s : Sent)
        → x.helper ≡ some s
        → strip (w.py.lower (strip s.tx_hash)) ≡ truth.hash_of (next_id m.db.rows)) where
    submitted-Run :
        (from to : Text)
        → Goes
            (of_submission w m.db.rows (
              submit_recorded_claim_send w x.now claim_id amount from to x.intent_hash x.helper
                m.db)).1
    unfolding submit_recorded_claim_send
    submitted-Run from to =
        elim (Option-cases
          (record_claim_intent w x.now claim_id amount from to x.intent_hash m.db)) [
            | inl e ↦ rw (submit_recorded_claim_send, e) run
            | inr (r, e) ↦
                let q =
                  subst (λ h. record_claim_intent w x.now claim_id amount from to h m.db ≡ some r)
                    hash e in
                let intended =
                  settle before run x.now claim_id amount from to kind id token r home job who amt
                    kept kind_ q in
                elim (Option-cases
                  (record_sent w (next_id m.db.rows) r.1 r.2 amount x.helper r.0)) [
                    | inl lost ↦ rw (submit_recorded_claim_send, e, lost) intended
                    | inr (rows, sent_) ↦ elim (Option-cases x.helper) [
                      | inl none_ ↦ absurd (
                          unanswered w (next_id m.db.rows) r.1 r.2 amount r.0 rows (
                            subst
                              (λ h.
                                record_sent w (next_id m.db.rows) r.1 r.2 amount h r.0 ≡ some rows)
                              none_ sent_))
                      | inr (s, es) ↦
                          let z =
                            subst
                              (λ h.
                                record_sent w (next_id m.db.rows) r.1 r.2 amount h r.0 ≡ some rows)
                              es sent_ in
                          let z' =
                            subst
                              (λ a.
                                record_sent w (next_id m.db.rows) r.1 r.2 a (some s) r.0
                                ≡ some rows)
                              (sym amt) z in
                          rw (submit_recorded_claim_send, e, sent_)
                            (answer intended (next_id m.db.rows) r.1 r.2 s rows (answers s es) z')
                    ]
                  ]
          ]

    reward-Run :
        (seen : Db)
        → Goes (submit_claim_reward_transaction w x plan.spots claim_id amount seen m.db).1
    unfolding submit_claim_reward_transaction
    reward-Run seen =
        if-holds Stays (amount == 0) _ _ (λ p. run)
          λ p. elim (Option-cases (claim_of seen.claims claim_id)) [
            | inl e ↦ rw e run
            | inr (c, e) ↦ rw e (
                if-holds Stays (has_nonfailed_claim_payout claim_id seen.rows) _ _ (λ q. run)
                  λ q. elim (Option-cases (pay_spot plan.spots c.spot_id)) [
                    | inl f ↦ rw f run
                    | inr (s, f) ↦ rw f (elim (Option-cases (claim_payee w x)) [
                      | inl g ↦ rw g run
                      | inr (to, g) ↦ rw g (submitted-Run s.deposit_address to)
                    ])
                  ])
          ]
      where
        Stays : Reward × List Row → Type 0
        Stays r = Goes r.1

  -- A payout of a standard claim whose first look was taken in a run, and which writes to the tables of
  -- that run at any later time, goes on with the run, whatever it saw in between and whatever the helper
  -- answers, where the truth and the plan give the next row to the claim, to the amount that was due and
  -- to the answer.
  pub payout_standard_claim_if_ready_with_security-Run :
      (held : Bool) (seen : Db)
      → Run w ages truth plan start first
      → Run w ages truth plan start m
      → ((c : ClaimRow)
          → claim_of first.db.claims claim_id ≡ some c
          → c.spot_id ≡ plan.home claim_id)
      → ((amount : ℕ)
          → standard_job plan.spots claim_id first.db ≡ send amount
          → plan.amt (next_id m.db.rows) ≡ amount)
      → plan.who (next_id m.db.rows) ≡ claim_id
      → truth.kind_of (next_id m.db.rows) ≡ claim
      → x.intent_hash ≡ make_local_intent_hash kind id token
      → strip (make_local_intent_hash kind id token) ≡ make_local_intent_hash kind id token
      → ((s : Sent)
          → x.helper ≡ some s
          → strip (w.py.lower (strip s.tx_hash)) ≡ truth.hash_of (next_id m.db.rows))
      → Goes
          (payout_standard_claim_if_ready_with_security w x plan.spots held claim_id first.db seen
            m.db).1
  unfolding payout_standard_claim_if_ready_with_security payout_standard_claim_if_ready
  payout_standard_claim_if_ready_with_security-Run held seen before run home amt who kind_ hash kept
        answers =
      go (standard_job plan.spots claim_id first.db) refl
    where
      go :
          (j : StandardJob)
          → standard_job plan.spots claim_id first.db ≡ j
          → Goes (payout_standard_claim_if_ready w x plan.spots held claim_id first.db seen m.db).1
      go (send amount) e =
          rw (payout_standard_claim_if_ready, e)
            (if-holds (λ (r : Paid × List Row). Goes r.1) held _ _ (λ p. run)
              (λ p.
                reward-Run amount before run home e who (amt amount e) kind_ hash kept answers
                  seen))
      go claim_missing e = rw (payout_standard_claim_if_ready, e) run
      go claim_not_successful e = rw (payout_standard_claim_if_ready, e) run
      go spot_missing e = rw (payout_standard_claim_if_ready, e) run
      go prizedraw_managed_separately e = rw (payout_standard_claim_if_ready, e) run
      go payout_recorded e = rw (payout_standard_claim_if_ready, e) run
      go invalid_payout_amount e = rw (payout_standard_claim_if_ready, e) run
