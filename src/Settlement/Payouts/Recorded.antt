-- ===== src/Settlement/Payouts/Recorded.antt =====
-- The answer "paid" of a settlement, against the recorded payouts.
use nim_hunt.Prelude.{
  ℕ, ◌≡◌, refl, inl, inr, Bool, true, false, ◌==◌, Option, none, some, List, [], ◌∷◌, arith, any,
  Bool-cases, Option-cases, if-holds,
}
use nim_hunt.Prelude.Text.{Text, strip}
use nim_hunt.Tables.{claim}
use nim_hunt.Outbox.{Row, Surroundings}
use nim_hunt.Outbox.Store.{
  Db, claim_of, change, as_sent, update_sent, row_of, is_active_payout, has_nonfailed_claim_payout,
}
use nim_hunt.Outbox.Submit.{
  Sent, Intent, validate_submitted, record_claim_intent, record_sent, next_id, row_of_intent,
  submit_recorded_claim_send,
}
use nim_hunt.Settlement.Payouts.{
  PaySpot, pay_spot, StandardJob, send, claim_missing, claim_not_successful, spot_missing,
  prizedraw_managed_separately, payout_recorded, invalid_payout_amount, standard_job, Sending,
  claim_payee, Reward, skipped, already_exists, raised, sent, of_submission,
  submit_claim_reward_transaction, Paid, paid_of, payout_standard_claim_if_ready,
  normalise_standard_payout_result, payout_standard_claim_if_ready_with_security,
}
use nim_hunt.Settlement.Payouts.Priced.{record_claim_intent-IsRecorded}

active-sent :
    (k id : ℕ) (h from to : Text) (amount : ℕ) (ts : List Row)
    → any (is_active_payout k) (change id (as_sent h from to amount) ts)
      ≡ any (is_active_payout k) ts
unfolding change as_sent is_active_payout
active-sent k id h from to amount [] = refl
active-sent k id h from to amount (t ∷ ts) = elim (Bool-cases (t.trans_id == id)) [
  | inl e ↦ rw (e, active-sent k id h from to amount ts) refl
  | inr e ↦ rw (e, active-sent k id h from to amount ts) refl
]

new_active :
    (k id now : ℕ) (i : Intent) (rows : List Row)
    → i.claim_id ≡ some k
    → i.kind ≡ claim
    → has_nonfailed_claim_payout k (row_of_intent id now i ∷ rows) ≡ true
unfolding has_nonfailed_claim_payout is_active_payout row_of_intent
new_active k id now i rows e q = rw (e, q) (ground arith)

abbrev IsSent : ℕ → Reward × List Row → Type 0
IsSent k (sent, rows) = has_nonfailed_claim_payout k rows ≡ true
IsSent k _ = Unit

module _ (w : Surroundings) where
  sent-recorded :
      (k id : ℕ) (from to : Text) (amount : ℕ) (helper : Option Sent) (old rows : List Row)
      → has_nonfailed_claim_payout k old ≡ true
      → record_sent w id from to amount helper old ≡ some rows
      → has_nonfailed_claim_payout k rows ≡ true
  unfolding record_sent update_sent has_nonfailed_claim_payout
  sent-recorded k id from to amount none old rows h e = absurd cc
  sent-recorded k id from to amount (some s) old rows h e =
      elim (Option-cases (validate_submitted w s from to amount)) [
        | inl absent ↦ absurd (ground arith)
        | inr (v, ev) ↦ elim (Option-cases (row_of id old)) [
          | inl absent ↦ absurd (ground arith)
          | inr (t, et) ↦
              let q : rows
                  ≡ change id (as_sent (strip v.tx_hash) v.from_address v.to_address v.amount) old =
                ground arith in
              rw (q, active-sent k id (strip v.tx_hash) v.from_address v.to_address v.amount old) h
        ]
      ]

  submission-IsSent :
      (k now amount : ℕ) (from to h : Text) (helper : Option Sent) (db : Db)
      → IsSent k
          (of_submission w db.rows (submit_recorded_claim_send w now k amount from to h helper db))
  unfolding submit_recorded_claim_send row_of_intent
  submission-IsSent k now amount from to h helper db =
      elim (Option-cases (record_claim_intent w now k amount from to h db)) [
        | inl e ↦ rw (submit_recorded_claim_send, e) tt
        | inr (r, e) ↦
            let i = record_claim_intent-IsRecorded w now k amount from to h db r e in
            let own : has_nonfailed_claim_payout k r.0 ≡ true =
              rw i.added
                (new_active k (next_id db.rows) now i.intent db.rows i.claim_id_ i.kind_) in
            elim (Option-cases (record_sent w (next_id db.rows) r.1 r.2 amount helper r.0)) [
              | inl lost ↦ rw (submit_recorded_claim_send, e, lost) tt
              | inr (rows, ok) ↦
                  rw (submit_recorded_claim_send, e, ok)
                    (sent-recorded k (next_id db.rows) r.1 r.2 amount helper r.0 rows own ok)
            ]
      ]

  submit-IsSent :
      (x : Sending) (spots : List PaySpot) (k amount : ℕ) (seen db : Db)
      → IsSent k (submit_claim_reward_transaction w x spots k amount seen db)
  unfolding submit_claim_reward_transaction
  submit-IsSent x spots k amount seen db =
      if-holds (IsSent k) (amount == 0) _ _ (λ p. tt)
        λ p. elim (Option-cases (claim_of seen.claims k)) [
          | inl e ↦ rw e tt
          | inr (c, e) ↦ rw e (
              if-holds (IsSent k) (has_nonfailed_claim_payout k seen.rows) _ _ (λ q. tt)
                λ q. elim (Option-cases (pay_spot spots c.spot_id)) [
                  | inl f ↦ rw f tt
                  | inr (s, f) ↦ rw f (elim (Option-cases (claim_payee w x)) [
                    | inl g ↦ rw g tt
                    | inr (to, g) ↦ rw g (
                        submission-IsSent k x.now amount s.deposit_address to x.intent_hash x.helper
                          db)
                  ])
                ])
        ]

abbrev IsBacked : ℕ → Bool → Paid × List Row → Type 0
IsBacked k held r =
    (normalise_standard_payout_result r.0).paid ≡ true
    → (held ≡ false) × (has_nonfailed_claim_payout k r.1 ≡ true)

answer-IsBacked : (k : ℕ) (r : Reward × List Row) → IsSent k r → IsBacked k false (paid_of r.0, r.1)
unfolding normalise_standard_payout_result
answer-IsBacked k (sent, rows) h p = (refl, h)
answer-IsBacked k (skipped, rows) h p = absurd cc
answer-IsBacked k (already_exists, rows) h p = absurd cc
answer-IsBacked k (raised, rows) h p = absurd cc

-- A settlement answers that a standard claim was paid only if the payout gates let the reward through
-- and a payout of the claim that has not failed then stands in the table, whatever other workers change
-- between the looks.
pub payout_standard_claim_if_ready_with_security-paid :
    (w : Surroundings) (x : Sending) (spots : List PaySpot) (held : Bool) (k : ℕ)
    (first seen db : Db)
    → (payout_standard_claim_if_ready_with_security w x spots held k first seen db).0.paid ≡ true
    → (held ≡ false)
      × (has_nonfailed_claim_payout k
            (payout_standard_claim_if_ready_with_security w x spots held k first seen db).1
          ≡ true)
unfolding payout_standard_claim_if_ready_with_security payout_standard_claim_if_ready
    normalise_standard_payout_result
payout_standard_claim_if_ready_with_security-paid w x spots held k first seen db =
    go (standard_job spots k first) refl
  where
    go :
        (j : StandardJob)
        → standard_job spots k first ≡ j
        → IsBacked k held (payout_standard_claim_if_ready w x spots held k first seen db)
    go (send amount) e = by_gates held
      where
        by_gates :
            (b : Bool) → IsBacked k b (payout_standard_claim_if_ready w x spots b k first seen db)
        by_gates true = rw (payout_standard_claim_if_ready, e) (λ p. absurd cc)
        by_gates false =
            rw (payout_standard_claim_if_ready, e)
              (answer-IsBacked k (submit_claim_reward_transaction w x spots k amount seen db)
                (submit-IsSent w x spots k amount seen db))
    go claim_missing e = rw (payout_standard_claim_if_ready, e) (λ p. absurd cc)
    go claim_not_successful e = rw (payout_standard_claim_if_ready, e) (λ p. absurd cc)
    go spot_missing e = rw (payout_standard_claim_if_ready, e) (λ p. absurd cc)
    go prizedraw_managed_separately e = rw (payout_standard_claim_if_ready, e) (λ p. absurd cc)
    go payout_recorded e = rw (payout_standard_claim_if_ready, e) (λ p. absurd cc)
    go invalid_payout_amount e = rw (payout_standard_claim_if_ready, e) (λ p. absurd cc)
