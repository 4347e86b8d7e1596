-- ===== src/Throttle/Submit.antt =====
-- The two gates before a claim's reward is sent: `_payout_security_decision` with its operator's
-- release (claim_security.py), and the throttle outside it. The sender itself is an argument.

pub mod Gates
pub mod Composed
pub mod Lapse
use nim_hunt.Prelude.{
  ℕ, ◌+◌, ◌-◌, String, Bool, true, false, ◌&&◌, ◌||◌, not, Option, none, some, max, ltb,
  if◌then◌else◌, or_else, is_some,
}
use text.Mathlib.Text.{◌==◌}
use nim_hunt.Tables.{Claim, get_claim, update}
use nim_hunt.Throttle.Decision.{
  Limits, Decision, Details, Reason, decide, claim_missing, security_record_missing,
  development_without_security_record, manual_review, security_hold, security_checks_passed,
  claim_verified_wallet_missing_or_invalid, legacy_claim_payout_identity_mismatch,
}
use nim_hunt.Throttle.Ledger.{Store, SecurityRecord}
use nim_hunt.Throttle.Reserve.{Result, ok, err, Error, mark_review, reserve_payout_slot}

-- `claim_identity.canonical_payout_address` is an argument here: the gates only compare results.
pub record Settings : Type 0 where
  pub public_deployment : Bool
  pub payout_hold_seconds : ℕ
  pub canonical : Option String → Option String

abbrev pub same_text : Option String → Option String → Bool
same_text none none = true
same_text none (some b) = false
same_text (some a) none = false
same_text (some a) (some b) = a == b

write_record : Store → ℕ → SecurityRecord → Store
write_record db claim_id r = record db { records = update db.records claim_id r }

-- The decision on a claim whose record is not held: identity, then the observation period.
identity_decision : Settings → Store → ℕ → ℕ → Claim → SecurityRecord → Decision × Store
unfolding write_record
identity_decision cfg db now claim_id c r =
    let claim_payout = cfg.canonical c.payout_address in
    let wallet = cfg.canonical r.verified_wallet in
    let recorded = cfg.canonical r.payout_address in
    let unverified =
      decide false claim_verified_wallet_missing_or_invalid none true Details.unreported in
    let mismatch =
      decide false legacy_claim_payout_identity_mismatch none true Details.unreported in
    let release_at = or_else c.claimed_at now + cfg.payout_hold_seconds in
    if not (is_some wallet)
    then (unverified, write_record db claim_id (mark_review now unverified r))
    else if not (same_text claim_payout wallet)
        || is_some recorded && not (same_text recorded claim_payout)
    then (
      mismatch,
      write_record db claim_id (record (mark_review now mismatch r) {
        manual_review_details = some (Details.identity claim_payout wallet recorded);
      }),
    )
    else if ltb now release_at
    then (
      decide false security_hold (some release_at) false (Details.hold (max 1 (release_at - now))),
      db,
    )
    else (decide true security_checks_passed none false Details.unreported, db)

record_decision : Settings → Store → ℕ → ℕ → Claim → Option SecurityRecord → Decision × Store
record_decision cfg db now claim_id c none = (
  if cfg.public_deployment
      then decide false security_record_missing none true Details.unreported
      else decide true development_without_security_record none false Details.unreported,
  db,
)
record_decision cfg db now claim_id c (some r) =
    if r.manual_review
    then (
      decide false (elim r.manual_review_reason [ none ↦ manual_review | some why ↦ why ]) none true
          Details.unreported,
      db,
    )
    else identity_decision cfg db now claim_id c r

unfoldable pub payout_security_decision : Settings → Store → ℕ → ℕ → Decision × Store
unfolding record_decision identity_decision
payout_security_decision cfg db now claim_id = elim (get_claim db.claims claim_id) [
  | none ↦ (decide false claim_missing none false Details.unreported, db)
  | some c ↦ record_decision cfg db now claim_id c (db.records claim_id)
]

abbrev pub released : ℕ → SecurityRecord → SecurityRecord
released now r = record r {
  manual_review = false;
  manual_review_reason = none;
  manual_review_marked_at = none;
  manual_review_details = none;
  manual_review_released_at = some now;
}

-- The operator's release of a held claim.
unfoldable pub release_claim_manual_review : Store → ℕ → ℕ → Bool × Store
unfolding write_record
release_claim_manual_review db now claim_id = elim (db.records claim_id) [
  | none ↦ (false, db)
  | some r ↦ (true, write_record db claim_id (released now r))
]

-- What a submission returns: held by the security gate, deferred by the throttle, or what the sender
-- returned.
pub data Reply {ℓ} (R : Type ℓ) : Type ℓ where
  held : ℕ → Decision → Reply R
  deferred : ℕ → Decision → Reply R
  sent : R → Reply R

abbrev pub Submitter {ℓ} : Type ℓ → Type ℓ
Submitter R = Store → ℕ → ℕ → Option String → Result (Reply R × Store)

module _ {ℓ} {R : Type ℓ} where
  unfoldable pub submit_with_security : Settings → ℕ → Submitter R → Submitter R
  submit_with_security cfg now original db claim_id amount to =
      let (d, db') = payout_security_decision cfg db now claim_id in
      if d.allow then original db' claim_id amount to else ok (held claim_id d, db')

  after_reserve :
      Submitter R → ℕ → ℕ → Option String → Result (Decision × Store) → Result (Reply R × Store)
  after_reserve delegate claim_id amount to (err e) = err e
  after_reserve delegate claim_id amount to (ok (d, db')) =
      if d.allow then delegate db' claim_id amount to else ok (deferred claim_id d, db')

  -- The clock is read once by the security check and once by the reservation.
  unfoldable pub submit_with_throttle :
      Limits → Settings → (checked_at reserved_at : ℕ) → Submitter R → Submitter R
  unfolding after_reserve
  submit_with_throttle lim cfg checked_at reserved_at delegate db claim_id amount to =
      let (d, db') = payout_security_decision cfg db checked_at claim_id in
      if d.allow
      then after_reserve delegate claim_id amount to
          (reserve_payout_slot lim db' reserved_at claim_id amount)
      else delegate db' claim_id amount to
