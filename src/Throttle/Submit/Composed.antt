-- ===== src/Throttle/Submit/Composed.antt =====
-- The throttle around the security gate, as the runtime installs them.
use nim_hunt.Prelude.{
  ℕ, ◌≡◌, refl, String, true, false, Option, none, some, arith, Bool-cases, Option-cases, inl, inr,
  find,
}
use nim_hunt.Tables.{Claim, Spot, get_claim}
use nim_hunt.Throttle.Decision.{
  WindowState, throttle_decision, Limits, Decision, spot_window_decision, spot_lifetime_decision,
}
use nim_hunt.Throttle.Ledger.{Store, SecurityRecord}
use nim_hunt.Throttle.Reserve.{
  mark_review_details, is_open_standard, daily_view, others, short_view, already_paid, recheck,
  reuse, ok, explicitly_released, reserve_payout_slot, Request, read_request, reserve_request,
  admit, create, hold_record, mark_review, open_spot_decision, save, materialised,
}
use nim_hunt.Throttle.Reserve.Ledger.{of_claim}
use nim_hunt.Throttle.Reserve.Preserves.{reserve_payout_slot-eq-ok}
use nim_hunt.Throttle.Submit.{
  identity_decision, record_decision, Settings, payout_security_decision, held, deferred, Submitter,
  submit_with_security, submit_with_throttle,
}

module _ {ℓ} {R : Type ℓ} (lim : Limits) (cfg : Settings) (delegate : Submitter R) where
  -- A claim that the security gate refuses reserves nothing: the call is the inner one's alone.
  pub submit_refused :
      (checked_at reserved_at id amount : ℕ) (db : Store) (to : Option String)
      → (payout_security_decision cfg db checked_at id).0.allow ≡ false
      → submit_with_throttle lim cfg checked_at reserved_at delegate db id amount to
        ≡ delegate (payout_security_decision cfg db checked_at id).1 id amount to
  unfolding submit_with_throttle
  submit_refused checked_at reserved_at id amount db to h = rw h

  -- A claim that the throttle refuses is deferred with the throttle's decision, and nothing is sent:
  -- the store is the one that the reservation left.
  pub submit_deferred :
      (checked_at reserved_at id amount : ℕ) (db : Store) (to : Option String) {d : Decision}
      {db' : Store}
      → (payout_security_decision cfg db checked_at id).0.allow ≡ true
      → reserve_payout_slot lim
          (payout_security_decision cfg db checked_at id).1
          reserved_at
          id
          amount
        ≡ ok (d, db')
      → d.allow ≡ false
      → submit_with_throttle lim cfg checked_at reserved_at delegate db id amount to
        ≡ ok (deferred id d, db')
  unfolding submit_with_throttle
  submit_deferred checked_at reserved_at id amount db to h e f = rw (h, e, f)

-- The Spot's two rules answer with a review flag, whether they refuse or not.
open_spot_decision-manual_review :
    (lim : Limits) (db : Store) (q : Request) (s : Spot)
    → (open_spot_decision lim db q s).manual_review ≡ true
unfolding open_spot_decision spot_window_decision spot_lifetime_decision
open_spot_decision-manual_review lim db q s = ground arith

admit_open :
    (lim : Limits) (db : Store) (q : Request) (s : Spot)
    → q.spot ≡ some s
    → q.open_standard ≡ true
    → explicitly_released (db.records q.claim_id) ≡ false
    → (admit lim db q).allow ≡ true
    → (admit lim db q).manual_review ≡ true
unfolding admit
admit_open lim db q s es o x h = ground (arith, open_spot_decision-manual_review lim db q s)

is_open_standard-some :
    (db : Store) (id : ℕ) (o : Option Spot)
    → is_open_standard db id o ≡ true
    → (s : Spot) × (o ≡ some s)
unfolding is_open_standard
is_open_standard-some db id none h = cc
is_open_standard-some db id (some s) h = (s, refl)

read_request_spot :
    (lim : Limits) (db : Store) (now id amount : ℕ)
    → (read_request lim db now id amount).open_standard ≡ true
    → (s : Spot) × ((read_request lim db now id amount).spot ≡ some s)
unfolding read_request
read_request_spot lim db now id amount h = is_open_standard-some db _ _ h

throttle_decision-created :
    (lim : Limits) (state : WindowState) (amount : ℕ) (today : Option WindowState)
    → (throttle_decision lim state amount today).reservation_created ≡ false
unfolding throttle_decision
throttle_decision-created lim state amount none = ground arith
throttle_decision-created lim state amount (some t) = ground arith

recheck-created :
    (lim : Limits) (db : Store) (q : Request) → (recheck lim db q).reservation_created ≡ false
unfolding recheck spot_window_decision
recheck-created lim db q = ground (
  arith,
  throttle_decision-created lim (short_view lim q (others q.claim_id q.reservations)).0 q.amount
      (some (daily_view lim q (others q.claim_id q.reservations)).0),
)

reuse-created :
    (lim : Limits) (db : Store) (q : Request)
    → (reuse lim db q).decision.reservation_created ≡ false
unfolding reuse
reuse-created lim db q = elim (Bool-cases (recheck lim db q).allow) [
  | inl h ↦ rw (h, reuse) (recheck-created lim db q)
  | inr h ↦ rw (h, reuse) (recheck-created lim db q)
]

-- Only a claim without a reservation has one created for it.
reserve_request-created :
    (lim : Limits) (db : Store) (q : Request)
    → (reserve_request lim db q).decision.reservation_created ≡ true
    → reserve_request lim db q ≡ create lim db q
unfolding reserve_request already_paid
reserve_request-created lim db q h = elim (Bool-cases (materialised lim q)) [
  | inl m ↦ cc (rw (m, reserve_request) at h)
  | inr m ↦ elim (Option-cases (find (of_claim q.claim_id) q.reservations)) [
    | inl e ↦ rw (m, e, reserve_request)
    | inr (r, e) ↦ cc (reuse-created lim db q, rw (m, e, reserve_request) at h)
  ]
]

hold_record_self :
    (mark : SecurityRecord → SecurityRecord) (id : ℕ) (records : ℕ → Option SecurityRecord)
    {r : SecurityRecord}
    → records id ≡ some r
    → hold_record mark id records id ≡ some (mark r)
unfolding hold_record
hold_record_self mark id records e = rw (e, hold_record) (ground arith)

-- What the first reservation of an Open Standard claim leaves of its security record.
create-holds :
    (lim : Limits) (db : Store) (q : Request) (s : Spot) (r : SecurityRecord)
    → q.spot ≡ some s
    → q.open_standard ≡ true
    → db.records q.claim_id ≡ some r
    → explicitly_released (some r) ≡ false
    → (create lim db q).decision.allow ≡ true
    → (r' : SecurityRecord) × ((create lim db q).records q.claim_id ≡ some r')
      × (r'.manual_review ≡ true)
unfolding create mark_review mark_review_details
create-holds lim db q s r es o er x h =
    let allowed : (admit lim db q).allow ≡ true = ground arith in
    let flagged = admit_open lim db q s es o (rw er x) allowed in
    (
      mark_review_details (admit lim db q) (mark_review q.now (admit lim db q) r),
      rw flagged (hold_record_self _ q.claim_id db.records er),
      refl,
    )

record_decision_keeps :
    (cfg : Settings) (db : Store) (now id : ℕ) (c : Claim) (o : Option SecurityRecord)
    → (record_decision cfg db now id c o).0.allow ≡ true
    → (record_decision cfg db now id c o).1 ≡ db
unfolding record_decision identity_decision
record_decision_keeps cfg db now id c none h = refl
record_decision_keeps cfg db now id c (some r) h = ground arith

-- The store after a security check that passes is the store before it.
pub passed_keeps_store :
    (cfg : Settings) (db : Store) (now id : ℕ)
    → (payout_security_decision cfg db now id).0.allow ≡ true
    → (payout_security_decision cfg db now id).1 ≡ db
unfolding payout_security_decision
passed_keeps_store cfg db now id h = elim (Option-cases (get_claim db.claims id)) [
  | inl e ↦ rw (e, payout_security_decision)
  | inr (c, e) ↦
      rw (e, payout_security_decision)
        (record_decision_keeps cfg db now id c (db.records id)
          (rw (e, payout_security_decision) at h))
]

reviewed_refused :
    (cfg : Settings) (db : Store) (now id : ℕ) {r : SecurityRecord}
    → db.records id ≡ some r
    → r.manual_review ≡ true
    → ((payout_security_decision cfg db now id).0.allow ≡ false)
      × ((payout_security_decision cfg db now id).1 ≡ db)
unfolding payout_security_decision
reviewed_refused cfg db now id e h = ground arith

-- An Open Standard claim that has a security record, that no operator has released, that passes the
-- security gate and for which the throttle creates a reservation is not sent: the reservation puts
-- the record under review, and the inner gate holds the claim, at whatever time it looks.
pub admitted_open_claim_held {ℓ} :
    {R : Type ℓ} (lim : Limits) (cfg : Settings) (original : Submitter R)
    (checked_at reserved_at later id amount : ℕ) (db : Store) (to : Option String)
    {r : SecurityRecord} {d : Decision} {db' : Store}
    → db.records id ≡ some r
    → explicitly_released (some r) ≡ false
    → (payout_security_decision cfg db checked_at id).0.allow ≡ true
    → (read_request lim db reserved_at id amount).open_standard ≡ true
    → reserve_payout_slot lim db reserved_at id amount ≡ ok (d, db')
    → d.allow ≡ true
    → d.reservation_created ≡ true
    → (d' : Decision) × (submit_with_throttle lim cfg checked_at reserved_at
          (submit_with_security cfg later original)
          db
          id
          amount
          to
        ≡ ok (held id d', db'))
      × (d'.allow ≡ false)
unfolding submit_with_throttle submit_with_security read_request save
admitted_open_claim_held lim cfg original checked_at reserved_at later id amount db to {r} {d} {db'}
      er x passed o e a created =
    let q = read_request lim db reserved_at id amount in
    let (_, _, dq, saved) = reserve_payout_slot-eq-ok lim db reserved_at id amount e in
    let is_create = reserve_request-created lim db q (rw dq at created) in
    let (s, es) = read_request_spot lim db reserved_at id amount o in
    let (r', er', reviewed) = create-holds lim db q s r es o er x (rw (← is_create) (rw dq at a)) in
    let refused = reviewed_refused cfg db' later id {r = r'} (rw (saved, is_create) er') reviewed in
    (
      (payout_security_decision cfg db' later id).0,
      rw (passed, passed_keeps_store cfg db checked_at id passed, e, a, refused.0, refused.1),
      refused.0,
    )
