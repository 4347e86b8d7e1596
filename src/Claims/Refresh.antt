-- ===== src/Claims/Refresh.antt =====
-- A claim that waits: refresh_claim_status_from_conditions and
-- process_duration_claim_location_heartbeat of db_access.py, with the promotion as installed.
use nim_hunt.Prelude.{
  ℕ, ◌+◌, Bool, true, false, ◌&&◌, Option, none, some, max, ltb, leb, ◌==◌, if◌then◌else◌,
}
use nim_hunt.Outbox.Store.{SpotStatus, completed, claim_pending, claim_failed}
use nim_hunt.Claims.{SpotRecord, ClaimRecord, ClaimStore, Setting}
use nim_hunt.Claims.Rows.{
  is_in, has_id, spot_with, claim_with, is_prizedraw, modify_claim_status, update_status,
}
use nim_hunt.Claims.Promote.{Promoted, reread, unchanged, unstated, promote_with_wallet_limit}

abbrev pub is_completed : SpotStatus → Bool
is_completed completed = true
is_completed _ = false

-- The last sign of life of a claim.
abbrev pub last_update : ClaimRecord → ℕ → ℕ
last_update c now =
    if c.updated_at == 0 then (if c.claimed_at == 0 then now else c.claimed_at) else c.updated_at

-- A pending claim at a Spot that asks for a stay.
unfoldable pub refresh_duration :
    Setting → SpotRecord → ClaimRecord → ℕ → ClaimStore → Option Promoted
refresh_duration w s c now st =
    if ltb (last_update c now + max 1 w.stale_after) now
    then some (reread c.claim_id unstated (modify_claim_status c.claim_id claim_failed now st))
    else if leb (c.claimed_at + s.claim_duration) now
    then promote_with_wallet_limit w c.claim_id now st
    else some (unchanged (some c) st)

-- A pending claim at its Spot. A winner of a completed Prizedraw waits for its payout.
unfoldable pub refresh_at : Setting → SpotRecord → ClaimRecord → ℕ → ClaimStore → Option Promoted
refresh_at w s c now st =
    if is_completed s.status && is_prizedraw s
    then some (unchanged (some c) st)
    else if s.claim_duration == 0
    then promote_with_wallet_limit w c.claim_id now st
    else refresh_duration w s c now st

-- refresh_claim_status_from_conditions
unfoldable pub refresh_claim_status : Setting → ℕ → ℕ → ClaimStore → Option Promoted
refresh_claim_status w id now st = elim (claim_with id st.claims) [
  | none ↦ some (unchanged none st)
  | some c ↦
      if is_in claim_pending c
      then elim (spot_with c.spot_id w.spots) [
        | none ↦ some (unchanged (some c) st)
        | some s ↦ refresh_at w s c now st
      ]
      else some (unchanged (some c) st)
]

-- What a heartbeat's position says: the distance cannot be told, or whether the score is used up.
pub data Verdict : Type 0 where
  no_distance : Verdict
  score_left : Bool → Verdict

-- How a heartbeat ends: an error before any change, or an exception, or the claim.
pub data Heartbeat : Type 0 where
  claim_not_found not_recipient crashed : Heartbeat
  processed : Option ClaimRecord → ClaimStore → Heartbeat

-- modify_claim_location_score, as a heartbeat calls it
unfoldable pub modify_claim_location_score : ClaimRecord → Bool → ℕ → ClaimStore → ClaimStore
modify_claim_location_score c left now st =
    update_status (has_id c.claim_id) (if left then claim_pending else claim_failed) now st

abbrev pub of_promoted : Option Promoted → Heartbeat
of_promoted none = crashed
of_promoted (some r) = elim r.found [ none ↦ crashed | some c ↦ processed (some c) r.store ]

-- A claim that is still pending, at a Spot that asks for a stay.
unfoldable pub process_position :
    Setting → SpotRecord → ClaimRecord → Verdict → ℕ → ClaimStore → Heartbeat
process_position w s c no_distance now st = processed (some c) st
process_position w s c (score_left left) now st =
    let scored = modify_claim_location_score c left now st in
    if left && leb (c.claimed_at + s.claim_duration) now
    then of_promoted (promote_with_wallet_limit w c.claim_id now scored)
    else elim (claim_with c.claim_id scored.claims) [
      | none ↦ crashed
      | some after ↦ processed (some after) scored
    ]

-- A claim that the refresh has left pending.
unfoldable pub process_pending : Setting → ClaimRecord → Verdict → ℕ → ClaimStore → Heartbeat
process_pending w c v now st = elim (spot_with c.spot_id w.spots) [
  | none ↦ processed (some c) st
  | some s ↦
      if s.claim_duration == 0
      then of_promoted (promote_with_wallet_limit w c.claim_id now st)
      else process_position w s c v now st
]

unfoldable pub process_refreshed : Setting → Verdict → ℕ → Option Promoted → Heartbeat
process_refreshed w v now none = crashed
process_refreshed w v now (some r) = elim r.found [
  | none ↦ claim_not_found
  | some c ↦
      if is_in claim_pending c
      then process_pending w c v now r.store
      else processed (some c) r.store
]

-- process_duration_claim_location_heartbeat
unfoldable pub process_heartbeat : Setting → ℕ → ℕ → Verdict → ℕ → ClaimStore → Heartbeat
process_heartbeat w id user_id v now st = elim (claim_with id st.claims) [
  | none ↦ claim_not_found
  | some c ↦
      if c.recipient == user_id
      then process_refreshed w v now (refresh_claim_status w id now st)
      else not_recipient
]
