-- ===== src/Settlement/Winners.antt =====
-- The payouts of a Prizedraw's winners (settlement_updater.py,
-- `retry_pending_prizedraw_payouts_for_spot`). Claims stand oldest first.
pub mod Priced
pub mod Pool
use nim_hunt.Prelude.{
  ℕ, Bool, true, false, ◌&&◌, not, Option, none, some, List, [], ◌∷◌, ◌++◌, ◌==◌, if◌then◌else◌,
  length, filter, map, take, any, or_else,
}
use nim_hunt.Tables.{claim, confirmed}
use nim_hunt.Outbox.{Row, Surroundings}
use nim_hunt.Outbox.Store.{
  SpotStatus, completed, Db, claim_pending, claim_success, ClaimRow, is_kind, is_in, is_at,
  has_nonfailed_claim_payout, set_claim_status,
}
use nim_hunt.Settlement.Draw.{is_claim, draw_limit}
use nim_hunt.Settlement.Prizes.{prize_amounts_by_claim_id}
use nim_hunt.Settlement.Payouts.{
  PaySpot, pay_spot, Sending, Reward, raised, latest_failed_claim_payout_amount,
  submit_claim_reward_transaction,
}

-- `has_confirmed_claim_payout_transaction`
unfoldable pub has_confirmed_claim_payout : ℕ → List Row → Bool
has_confirmed_claim_payout claim_id rows =
    any (λ t. is_at t.claim_id claim_id && is_kind claim t && is_in confirmed t) rows

abbrev pub pending_winners : ℕ → List ClaimRow → List ClaimRow
pending_winners spot_id claims = take draw_limit (filter (is_claim spot_id claim_pending) claims)

abbrev pub paid_claims : ℕ → List Row → List ℕ
paid_claims spot_id [] = []
paid_claims spot_id (t ∷ ts) =
    let rest = paid_claims spot_id ts in
    if is_at t.spot_id spot_id && is_kind claim t
    then elim t.claim_id [ none ↦ rest | some id ↦ id ∷ rest ]
    else rest

-- get_prizedraw_winner_claim_ids, unsorted and with repetitions
unfoldable pub prizedraw_winner_claim_ids : ℕ → Db → List ℕ
prizedraw_winner_claim_ids spot_id db =
    map (λ c. c.claim_id) (filter (is_claim spot_id claim_pending) db.claims)
    ++ paid_claims spot_id db.rows

-- `amount_by_claim_id.get(claim_id, 0)`
unfoldable pub prize_of : ℕ → List (ℕ × ℕ) → ℕ
prize_of claim_id [] = 0
prize_of claim_id ((id, amount) ∷ rest) = if id == claim_id then amount else prize_of claim_id rest

abbrev pub prizes_at : PaySpot → Db → List (ℕ × ℕ)
prizes_at s db = prize_amounts_by_claim_id s.total_value (prizedraw_winner_claim_ids s.spot_id db)

abbrev pub due_prize : List (ℕ × ℕ) → ℕ → List Row → ℕ
due_prize prizes id rows =
    let retry = or_else (latest_failed_claim_payout_amount id rows) 0 in
    if retry == 0 then prize_of id prizes else retry

pub data PrizeJob : Type 0 where
  payout_recorded missing_payout_amount : ℕ → PrizeJob
  send_prize : (claim_id amount : ℕ) → PrizeJob

abbrev pub prize_job : List (ℕ × ℕ) → List Row → ℕ → PrizeJob
prize_job prizes rows id =
    if has_nonfailed_claim_payout id rows
    then payout_recorded id
    else if due_prize prizes id rows == 0
    then missing_payout_amount id
    else send_prize id (due_prize prizes id rows)

-- A winner with a confirmed payout has no job.
unfoldable pub prize_jobs : List (ℕ × ℕ) → List Row → List ClaimRow → List PrizeJob
prize_jobs prizes rows [] = []
prize_jobs prizes rows (c ∷ cs) =
    let rest = prize_jobs prizes rows cs in
    if has_confirmed_claim_payout c.claim_id rows
    then rest
    else prize_job prizes rows c.claim_id ∷ rest

-- It succeeds instead.
unfoldable pub succeed_paid : List Row → List ClaimRow → List ClaimRow → List ClaimRow
succeed_paid rows [] claims = claims
succeed_paid rows (c ∷ cs) claims = succeed_paid rows cs (
    if has_confirmed_claim_payout c.claim_id rows
    then set_claim_status c.claim_id claim_success claims
    else claims)

-- What comes of a job; `held_back` by the installed payout gates.
pub data Outcome : Type 0 where
  nothing_sent held_back : Outcome
  answered : Reward → Outcome

abbrev pub also : Outcome → Option (List Outcome) × List Row → Option (List Outcome) × List Row
also o (none, rows) = (none, rows)
also o (some os, rows) = (some (o ∷ os), rows)

abbrev pub has_raised : Reward → Bool
has_raised raised = true
has_raised _ = false

-- The world around the sends: what each depends on, which rewards the gates keep back, and what other
-- workers make of the tables before each.
pub record Others : Type 0 where
  pub sending : ℕ → Sending
  pub held : ℕ → Bool
  pub meanwhile : ℕ → Db → Db

-- The sends, in order; one that raises ends them, `none`.
unfoldable pub send_prizes :
    Surroundings → Others → List PaySpot → List PrizeJob → Db → Option (List Outcome) × List Row
send_prizes w o spots [] db = (some [], db.rows)
send_prizes w o spots (payout_recorded id ∷ jobs) db =
    also nothing_sent (send_prizes w o spots jobs db)
send_prizes w o spots (missing_payout_amount id ∷ jobs) db =
    also nothing_sent (send_prizes w o spots jobs db)
send_prizes w o spots (send_prize id amount ∷ jobs) db =
    let now_ = o.meanwhile id db in
    let r = submit_claim_reward_transaction w (o.sending id) spots id amount now_ now_ in
    let kept = send_prizes w o spots jobs now_ in
    let rest = send_prizes w o spots jobs (record now_ { rows = r.1 }) in
    if o.held id
    then also held_back kept
    else if has_raised r.0
    then (none, r.1)
    else also (answered r.0) rest

pub data PrizeReply : Type 0 where
  spot_missing not_completed not_prizedraw no_pending_winners : PrizeReply
  retried : Option (List Outcome) → PrizeReply

abbrev pub is_completed : SpotStatus → Bool
is_completed completed = true
is_completed _ = false

-- The reply, the claims that the first transaction leaves, and the transactions after the sends.
unfoldable pub retry_winners :
    Surroundings → Others → List PaySpot → PaySpot → Db → PrizeReply × List ClaimRow × List Row
retry_winners w o spots s db =
    let winners = pending_winners s.spot_id db.claims in
    let jobs = prize_jobs (prizes_at s db) db.rows winners in
    let claims = succeed_paid db.rows winners db.claims in
    if length winners == 0
    then (no_pending_winners, db.claims, db.rows)
    else let sent = send_prizes w o spots jobs (record db { claims = claims }) in
      (retried sent.0, claims, sent.1)

unfoldable pub retry_pending_prizedraw_payouts_for_spot :
    Surroundings → Others → List PaySpot → ℕ → Db → PrizeReply × List ClaimRow × List Row
retry_pending_prizedraw_payouts_for_spot w o spots spot_id db = elim (pay_spot spots spot_id) [
  | none ↦ (spot_missing, db.claims, db.rows)
  | some s ↦
      if not (is_completed s.status)
      then (not_completed, db.claims, db.rows)
      else elim s.prize_count [
        | none ↦ (not_prizedraw, db.claims, db.rows)
        | some n ↦ retry_winners w o spots s db
      ]
]
