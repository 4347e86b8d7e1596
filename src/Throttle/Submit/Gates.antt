-- ===== src/Throttle/Submit/Gates.antt =====
-- What passes the two gates of a payout.
use nim_hunt.Prelude.{
  ◌≢◌, ℕ, ◌+◌, ◌≤◌, ◌<◌, ◌≡◌, refl, ◌⊎◌, inl, inr, String, true, false, Option, none, some, arith,
  Bool-cases, Option-cases, or_else, is_some,
}
use text.Mathlib.TextEquality.{eq_iff}
use nim_hunt.Tables.{Claim, get_claim}
use nim_hunt.Throttle.Ledger.{Store, SecurityRecord}
use nim_hunt.Throttle.Reserve.{explicitly_released}
use nim_hunt.Throttle.Submit.{
  Settings, same_text, payout_security_decision, release_claim_manual_review, released,
  record_decision, identity_decision,
}

same_text-eq : (a b : Option String) → same_text a b ≡ true → a ≡ b
same_text-eq none none h = refl
same_text-eq none (some b) h = cc
same_text-eq (some a) none h = cc
same_text-eq (some a) (some b) h = ground (arith, eq_iff a b)

-- What a record must show before its claim is paid.
abbrev pub IsPayable : Settings → ℕ → Claim → SecurityRecord → Type 0
IsPayable cfg now c r =
    (r.manual_review ≡ false)
    × (is_some (cfg.canonical r.verified_wallet) ≡ true)
    × (cfg.canonical c.payout_address ≡ cfg.canonical r.verified_wallet)
    × (or_else c.claimed_at now + cfg.payout_hold_seconds ≤ now)

identity_decision-allow :
    (cfg : Settings) (db : Store) (now id : ℕ) (c : Claim) (r : SecurityRecord)
    → (identity_decision cfg db now id c r).0.allow ≡ true
    → (is_some (cfg.canonical r.verified_wallet) ≡ true)
      × (cfg.canonical c.payout_address ≡ cfg.canonical r.verified_wallet)
      × (or_else c.claimed_at now + cfg.payout_hold_seconds ≤ now)
unfolding identity_decision
identity_decision-allow cfg db now id c r h =
    elim (Bool-cases (is_some (cfg.canonical r.verified_wallet))) [
      | inr e ↦ cc (rw e at h)
      | inl e ↦
          elim (Bool-cases
            (same_text (cfg.canonical c.payout_address) (cfg.canonical r.verified_wallet))) [
              | inr s ↦ cc (rw (e, s) at h)
              | inl s ↦ (e, same_text-eq _ _ s, ground arith)
            ]
    ]

record_decision_unheld :
    (cfg : Settings) (db : Store) (now id : ℕ) (c : Claim) (r : SecurityRecord)
    → (record_decision cfg db now id c (some r)).0.allow ≡ true
    → (r.manual_review ≡ false) × ((identity_decision cfg db now id c r).0.allow ≡ true)
unfolding record_decision
record_decision_unheld cfg db now id c r h = ground arith

record_decision-allow :
    (cfg : Settings) (db : Store) (now id : ℕ) (c : Claim) (o : Option SecurityRecord)
    → (record_decision cfg db now id c o).0.allow ≡ true
    → ((o ≡ none) × (cfg.public_deployment ≡ false))
      ⊎ ((r : SecurityRecord) × (o ≡ some r) × IsPayable cfg now c r)
unfolding record_decision
record_decision-allow cfg db now id c none h = inl (ground arith)
record_decision-allow cfg db now id c (some r) h =
    let (free, h') = record_decision_unheld cfg db now id c r h in
    let p = identity_decision-allow cfg db now id c r h' in inr (r, refl, (free, p.0, p.1, p.2))

-- The security gate lets a claim through only if the claim exists and either it has no record on a
-- deployment that is not public, or its record is not under review, names a valid verified wallet
-- that is the claim's payout address, and the observation period after the claim is over.
pub payout_security_decision-allow :
    (cfg : Settings) (db : Store) (now id : ℕ)
    → (payout_security_decision cfg db now id).0.allow ≡ true
    → (c : Claim) × (get_claim db.claims id ≡ some c)
      × (((db.records id ≡ none) × (cfg.public_deployment ≡ false))
          ⊎ ((r : SecurityRecord) × (db.records id ≡ some r) × IsPayable cfg now c r))
unfolding payout_security_decision
payout_security_decision-allow cfg db now id h = elim (Option-cases (get_claim db.claims id)) [
  | inl e ↦ cc (rw (e, payout_security_decision) at h)
  | inr (c, e) ↦ (
    c,
    e,
    record_decision-allow cfg db now id c (db.records id) (rw (e, payout_security_decision) at h),
  )
]

-- A claim under review is refused, whatever the time, until an operator releases it; the release
-- ends the review and is remembered as one, and it changes no other claim's record.
pub release_claim_manual_review-releases :
    (cfg : Settings) (db : Store) (now later id : ℕ) (c : Claim) (r : SecurityRecord)
    → 0 < now
    → get_claim db.claims id ≡ some c
    → db.records id ≡ some r
    → r.manual_review ≡ true
    → let db' = (release_claim_manual_review db now id).1 in
      ((payout_security_decision cfg db later id).0.allow ≡ false)
      × ((s : SecurityRecord) × (db'.records id ≡ some s)
          × (s.manual_review ≡ false)
          × (explicitly_released (some s) ≡ true))
      × ((other : ℕ) → other ≢ id → db'.records other ≡ db.records other)
unfolding payout_security_decision release_claim_manual_review explicitly_released
release_claim_manual_review-releases cfg db now later id c r pos ec er reviewed = (
  ground arith,
  rw (er, release_claim_manual_review) (released now r, ground arith, refl, ground arith),
  λ other ne. ground arith,
)
