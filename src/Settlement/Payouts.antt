-- ===== src/Settlement/Payouts.antt =====
-- The payout of a standard claim (settlement_updater.py, `payout_standard_claim_if_ready` under
-- claim_settlement_security.py; trans_updater.py, `submit_claim_reward_transaction`). Between the look
-- for what is due, the look for a payout, and the record of one, other workers may change the tables.
pub mod Priced
pub mod Budget
pub mod Recorded
pub mod Timeline
use nim_hunt.Prelude.{
  ℕ, Bool, true, false, ◌&&◌, ◌||◌, not, Option, none, some, List, [], ◌∷◌, ltb, ◌==◌,
  if◌then◌else◌, length, filter, find, or_else,
}
use nim_hunt.Prelude.Text.{Text, strip}
use nim_hunt.Tables.{claim, failed}
use nim_hunt.Outbox.{Row, Surroundings}
use nim_hunt.Outbox.Store.{
  SpotStatus, Db, claim_success, ClaimRow, claim_of, is_kind, is_in, is_at,
  has_nonfailed_claim_payout,
}
use nim_hunt.Outbox.Submit.{
  Sent, Submission, not_recorded, left_pending, submitted, validate_address,
  submit_recorded_claim_send,
}
use nim_hunt.Settlement.Draw.{claim_code}
use nim_hunt.Settlement.Prizes.{standard_claim_payout_amount}

-- The columns of a Spot that a payout reads.
pub record PaySpot : Type 0 where
  pub spot_id : ℕ
  pub status : SpotStatus
  pub total_value : ℕ
  pub max_total_claims : Option ℕ
  pub prize_count : Option ℕ
  pub deposit_address : Text

unfoldable pub pay_spot : List PaySpot → ℕ → Option PaySpot
pay_spot spots id = find (λ s. s.spot_id == id) spots

abbrev pub reward : PaySpot → ℕ
reward s = standard_claim_payout_amount s.max_total_claims s.total_value

-- The later of two rows, by time and id.
abbrev pub later : Row → Row → Row
later a b =
    if ltb b.created_at a.created_at || a.created_at == b.created_at && ltb b.trans_id a.trans_id
    then a
    else b

unfoldable pub latest_row : List Row → Option Row
latest_row [] = none
latest_row (t ∷ ts) = elim (latest_row ts) [ none ↦ some t | some u ↦ some (later t u) ]

abbrev pub is_failed_payout : ℕ → Row → Bool
is_failed_payout claim_id t = is_at t.claim_id claim_id && is_kind claim t && is_in failed t

-- `int(row["amount"] or 0)` of the latest failed payout
unfoldable pub latest_failed_claim_payout_amount : ℕ → List Row → Option ℕ
latest_failed_claim_payout_amount claim_id rows =
    elim (latest_row (filter (is_failed_payout claim_id) rows)) [
      | none ↦ none
      | some t ↦ some t.amount
    ]

-- What the first look finds: why nothing is to be sent, or the amount to send.
pub data StandardJob : Type 0 where
  claim_missing claim_not_successful spot_missing prizedraw_managed_separately : StandardJob
  payout_recorded invalid_payout_amount : StandardJob
  send : ℕ → StandardJob

abbrev pub has_succeeded : ClaimRow → Bool
has_succeeded c = claim_code c.status == claim_code claim_success

-- `retry_amount or standard`
abbrev pub due_amount : PaySpot → ℕ → List Row → ℕ
due_amount s claim_id rows =
    let retry = or_else (latest_failed_claim_payout_amount claim_id rows) 0 in
    if retry == 0 then reward s else retry

unfoldable pub standard_job : List PaySpot → ℕ → Db → StandardJob
standard_job spots claim_id db = elim (claim_of db.claims claim_id) [
  | none ↦ claim_missing
  | some c ↦
      if not (has_succeeded c) then claim_not_successful else elim (pay_spot spots c.spot_id) [
        | none ↦ spot_missing
        | some s ↦ elim s.prize_count [
          | some n ↦ prizedraw_managed_separately
          | none ↦
              if has_nonfailed_claim_payout claim_id db.rows
              then payout_recorded
              else if due_amount s claim_id db.rows == 0
              then invalid_payout_amount
              else send (due_amount s claim_id db.rows)
        ]
      ]
]

-- What a submission depends on beside the tables: the clock, the claim's address (empty if it has
-- none), the development template's address where it is allowed, the intent's hash, and the helper's
-- answer.
pub record Sending : Type 0 where
  pub now : ℕ
  pub payout_address : Text
  pub dev_address : Option Text
  pub intent_hash : Text
  pub helper : Option Sent

-- The address to pay to; `none` raises.
unfoldable pub claim_payee : Surroundings → Sending → Option Text
claim_payee w x =
    let own = strip x.payout_address in
    let chosen = if length own == 0 then elim x.dev_address [ none ↦ [] | some a ↦ a ] else own in
    if length chosen == 0 then none else validate_address w chosen

-- How a submission of a reward ends.
pub data Reward : Type 0 where
  skipped already_exists raised sent : Reward

abbrev pub of_submission : (w : Surroundings) → List Row → Submission w → Reward × List Row
of_submission w rows not_recorded = (raised, rows)
of_submission w rows (left_pending id rows') = (raised, rows')
of_submission w rows (submitted id rows') = (sent, rows')

-- trans_updater.submit_claim_reward_transaction, which looks at `seen` and then writes to `db`
unfoldable pub submit_claim_reward_transaction :
    Surroundings → Sending → List PaySpot → ℕ → ℕ → (seen db : Db) → Reward × List Row
submit_claim_reward_transaction w x spots claim_id amount seen db =
    if amount == 0 then (skipped, db.rows) else elim (claim_of seen.claims claim_id) [
      | none ↦ (raised, db.rows)
      | some c ↦
          if has_nonfailed_claim_payout claim_id seen.rows
          then (already_exists, db.rows)
          else elim (pay_spot spots c.spot_id) [
            | none ↦ (raised, db.rows)
            | some s ↦ elim (claim_payee w x) [
              | none ↦ (raised, db.rows)
              | some to ↦ of_submission w db.rows (
                  submit_recorded_claim_send w x.now claim_id amount s.deposit_address to
                    x.intent_hash x.helper db)
            ]
          ]
    ]

-- The fields `ok` and `paid` of the answer, and whether it is marked deferred, skipped or held. A
-- submission that lost a race, which the code answers as an existing payout, is among those that
-- raised.
pub record Paid : Type 0 where
  pub ok : Bool
  pub paid : Bool
  pub set_aside : Bool

abbrev pub paid_of : Reward → Paid
paid_of skipped = record { ok = true; paid = true; set_aside = true }
paid_of already_exists = record { ok = true; paid = false; set_aside = false }
paid_of raised = record { ok = false; paid = false; set_aside = false }
paid_of sent = record { ok = true; paid = true; set_aside = false }

abbrev pub unsent : StandardJob → Paid
unsent claim_missing = record { ok = false; paid = false; set_aside = false }
unsent spot_missing = record { ok = false; paid = false; set_aside = false }
unsent invalid_payout_amount = record { ok = false; paid = false; set_aside = false }
unsent _ = record { ok = true; paid = false; set_aside = false }

-- settlement_updater.payout_standard_claim_if_ready over three looks at the tables; `held` tells
-- whether the installed payout gates keep the reward back, which they answer as deferred.
unfoldable pub payout_standard_claim_if_ready :
    Surroundings
    → Sending
    → List PaySpot
    → (held : Bool) → ℕ
    → (first seen db : Db) → Paid × List Row
payout_standard_claim_if_ready w x spots held claim_id first seen db =
    elim (standard_job spots claim_id first) [
      | send amount ↦
          if held
          then (record { ok = true; paid = true; set_aside = true }, db.rows)
          else let r = submit_claim_reward_transaction w x spots claim_id amount seen db in
            (paid_of r.0, r.1)
      | job ↦ (unsent job, db.rows)
    ]

unfoldable pub normalise_standard_payout_result : Paid → Paid
normalise_standard_payout_result r = if r.set_aside then record r { paid = false } else r

-- claim_settlement_security.payout_standard_claim_if_ready_with_security, as installed
unfoldable pub payout_standard_claim_if_ready_with_security :
    Surroundings
    → Sending
    → List PaySpot
    → (held : Bool) → ℕ
    → (first seen db : Db) → Paid × List Row
payout_standard_claim_if_ready_with_security w x spots held claim_id first seen db =
    let r = payout_standard_claim_if_ready w x spots held claim_id first seen db in
    (normalise_standard_payout_result r.0, r.1)
