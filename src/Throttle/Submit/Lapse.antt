-- ===== src/Throttle/Submit/Lapse.antt =====
-- A hold that ends between the throttle's security check and the sender's own.
use nim_hunt.Prelude.{
  ◌∙◌, ℕ, ◌≡◌, String, true, false, Option, none, some, arith, Option-cases, inl, inr,
}
use nim_hunt.Tables.{Claim, get_claim}
use nim_hunt.Throttle.Decision.{Limits, security_hold}
use nim_hunt.Throttle.Ledger.{Store, SecurityRecord}
use nim_hunt.Throttle.Submit.{
  identity_decision, record_decision, Settings, payout_security_decision, Submitter,
  submit_with_security, submit_with_throttle,
}
use nim_hunt.Throttle.Submit.Composed.{passed_keeps_store, submit_refused}

record_decision_hold :
    (cfg : Settings) (db : Store) (now id : ℕ) (c : Claim) (o : Option SecurityRecord)
    → (record_decision cfg db now id c o).0.reason ≡ security_hold
    → ((record_decision cfg db now id c o).0.allow ≡ false)
      × ((record_decision cfg db now id c o).1 ≡ db)
unfolding record_decision identity_decision
record_decision_hold cfg db now id c none h = ground arith
record_decision_hold cfg db now id c (some r) h = ground arith

-- A claim within its observation period is refused, and the check writes nothing.
hold_keeps_store :
    (cfg : Settings) (db : Store) (now id : ℕ)
    → (payout_security_decision cfg db now id).0.reason ≡ security_hold
    → ((payout_security_decision cfg db now id).0.allow ≡ false)
      × ((payout_security_decision cfg db now id).1 ≡ db)
unfolding payout_security_decision
hold_keeps_store cfg db now id h = elim (Option-cases (get_claim db.claims id)) [
  | inl e ↦ cc (rw (e, payout_security_decision) at h)
  | inr (c, e) ↦
      rw (e, payout_security_decision)
        (record_decision_hold cfg db now id c (db.records id)
          (rw (e, payout_security_decision) at h))
]

-- A claim whose observation period has not ended at the throttle's check, and has ended at the
-- sender's own, is sent on the store as it was, with no reservation and no limit consulted.
pub lapsed_hold_unreserved {ℓ} :
    {R : Type ℓ} (lim : Limits) (cfg : Settings) (original : Submitter R)
    (checked_at reserved_at later id amount : ℕ) (db : Store) (to : Option String)
    → (payout_security_decision cfg db checked_at id).0.reason ≡ security_hold
    → (payout_security_decision cfg db later id).0.allow ≡ true
    → submit_with_throttle lim cfg checked_at reserved_at
        (submit_with_security cfg later original)
        db
        id
        amount
        to
      ≡ original db id amount to
unfolding submit_with_security
lapsed_hold_unreserved lim cfg original checked_at reserved_at later id amount db to h later_allow =
    let (refused, kept) = hold_keeps_store cfg db checked_at id h in
    let same = passed_keeps_store cfg db later id later_allow in
    submit_refused lim cfg (submit_with_security cfg later original) checked_at reserved_at id
      amount db to refused
    ∙ rw kept (rw (later_allow, same, submit_with_security))
