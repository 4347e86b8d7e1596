-- ===== src/Claims/Moves/Runs.antt =====
-- Every transaction of the claim path is a sequence of moves.
use nim_hunt.Prelude.{
  ℕ, inl, inr, ◌+◌, Bool, true, false, ◌&&◌, Option, none, some, ltb, leb, ◌==◌, max, Bool-cases,
  Option-cases,
}
use nim_hunt.Outbox.Store.{claim_pending}
use nim_hunt.Claims.{SpotRecord, ClaimRecord, ClaimStore, Setting}
use nim_hunt.Claims.Rows.{spot_with, claim_with, is_prizedraw, is_in, has_id, modify_claim_status}
use nim_hunt.Claims.Promote.{Promoted, promote_with_wallet_limit}
use nim_hunt.Claims.Refresh.{
  Verdict, no_distance, score_left, refresh_duration, refresh_at, refresh_claim_status, of_promoted,
  modify_claim_location_score, process_position, process_pending, process_refreshed,
  process_heartbeat, is_completed, last_update,
}
use nim_hunt.Claims.Timeline.{after_refresh, after_heartbeat}
use nim_hunt.Claims.Moves.{Moves, still, then_, fail, wait, Moves-trans}
use nim_hunt.Claims.Moves.Limited.{promote_with_wallet_limit-Moves}

module _ (w : Setting) (now : ℕ) where
  -- The refresh of a claim.
  module _ (st : ClaimStore) where
    duration-Moves :
        (s : SpotRecord) (c : ClaimRecord)
        → Moves w now st (after_refresh st (refresh_duration w s c now st))
    unfolding refresh_duration modify_claim_status
    duration-Moves s c = elim (Bool-cases (ltb (last_update c now + max 1 w.stale_after) now)) [
      | inl p ↦ rw (refresh_duration, p) (then_ still (fail st (has_id c.claim_id)))
      | inr p ↦ elim (Bool-cases (leb (c.claimed_at + s.claim_duration) now)) [
        | inl q ↦ rw (refresh_duration, p, q) (promote_with_wallet_limit-Moves w now c.claim_id st)
        | inr q ↦ rw (refresh_duration, p, q) still
      ]
    ]

    at-Moves :
        (s : SpotRecord) (c : ClaimRecord)
        → Moves w now st (after_refresh st (refresh_at w s c now st))
    unfolding refresh_at
    at-Moves s c = elim (Bool-cases (is_completed s.status && is_prizedraw s)) [
      | inl p ↦ rw (refresh_at, p) still
      | inr p ↦ elim (Bool-cases (s.claim_duration == 0)) [
        | inl q ↦ rw (refresh_at, p, q) (promote_with_wallet_limit-Moves w now c.claim_id st)
        | inr q ↦ rw (refresh_at, p, q) (duration-Moves s c)
      ]
    ]

    pub refresh-Moves :
        (id : ℕ) → Moves w now st (after_refresh st (refresh_claim_status w id now st))
    unfolding refresh_claim_status
    refresh-Moves id = elim (Option-cases (claim_with id st.claims)) [
      | inl e ↦ rw (refresh_claim_status, e) still
      | inr (c, e) ↦ elim (Bool-cases (is_in claim_pending c)) [
        | inr p ↦ rw (refresh_claim_status, e, p) still
        | inl p ↦ elim (Option-cases (spot_with c.spot_id w.spots)) [
          | inl q ↦ rw (refresh_claim_status, e, p, q) still
          | inr (s, q) ↦ rw (refresh_claim_status, e, p, q) (at-Moves s c)
        ]
      ]
    ]

    -- What a heartbeat does with the claim that it found.
    of_promoted-Moves :
        (start : ClaimStore) (r : Option Promoted)
        → Moves w now start (after_refresh start r)
        → Moves w now start (after_heartbeat start (of_promoted r))
    of_promoted-Moves start none m = still
    of_promoted-Moves start (some r) m = elim (Option-cases r.found) [
      | inl e ↦ rw (of_promoted, e) still
      | inr (c, e) ↦ rw (of_promoted, e) m
    ]

    scored-Moves :
        (c : ClaimRecord) (left : Bool) → Moves w now st (modify_claim_location_score c left now st)
    unfolding modify_claim_location_score
    scored-Moves c true = then_ still (wait st c.claim_id)
    scored-Moves c false = then_ still (fail st (has_id c.claim_id))

  -- Moves that come before a part of a heartbeat, whose exceptions roll all of them back.
  module _ (start : ClaimStore) where
    part-Moves :
        (st : ClaimStore) (r : Option Promoted)
        → Moves w now start st
        → Moves w now st (after_refresh st r)
        → Moves w now start (after_heartbeat start (of_promoted r))
    part-Moves st none m n = still
    part-Moves st (some r) m n = of_promoted-Moves st start (some r) (Moves-trans m n)

    position-Moves :
        (s : SpotRecord) (c : ClaimRecord) (v : Verdict) (st : ClaimStore)
        → Moves w now start st
        → Moves w now start (after_heartbeat start (process_position w s c v now st))
    unfolding process_position
    position-Moves s c no_distance st m = m
    position-Moves s c (score_left left) st m =
        let scored = modify_claim_location_score c left now st in
        let n : Moves w now start scored = Moves-trans m (scored-Moves st c left) in
        elim (Bool-cases (left && leb (c.claimed_at + s.claim_duration) now)) [
          | inl p ↦
              rw (process_position, p)
                (part-Moves scored (promote_with_wallet_limit w c.claim_id now scored) n
                  (promote_with_wallet_limit-Moves w now c.claim_id scored))
          | inr p ↦ elim (Option-cases (claim_with c.claim_id scored.claims)) [
            | inl e ↦ rw (process_position, p, e) still
            | inr (d, e) ↦ rw (process_position, p, e) n
          ]
        ]

    pending-Moves :
        (c : ClaimRecord) (v : Verdict) (st : ClaimStore)
        → Moves w now start st
        → Moves w now start (after_heartbeat start (process_pending w c v now st))
    unfolding process_pending
    pending-Moves c v st m = elim (Option-cases (spot_with c.spot_id w.spots)) [
      | inl e ↦ rw (process_pending, e) m
      | inr (s, e) ↦ elim (Bool-cases (s.claim_duration == 0)) [
        | inl p ↦
            rw (process_pending, e, p)
              (part-Moves st (promote_with_wallet_limit w c.claim_id now st) m
                (promote_with_wallet_limit-Moves w now c.claim_id st))
        | inr p ↦ rw (process_pending, e, p) (position-Moves s c v st m)
      ]
    ]

    refreshed-Moves :
        (v : Verdict) (r : Option Promoted)
        → Moves w now start (after_refresh start r)
        → Moves w now start (after_heartbeat start (process_refreshed w v now r))
    unfolding process_refreshed
    refreshed-Moves v none m = still
    refreshed-Moves v (some r) m = elim (Option-cases r.found) [
      | inl e ↦ rw (process_refreshed, e) still
      | inr (c, e) ↦ elim (Bool-cases (is_in claim_pending c)) [
        | inl p ↦ rw (process_refreshed, e, p) (pending-Moves c v r.store m)
        | inr p ↦ rw (process_refreshed, e, p) m
      ]
    ]

    pub heartbeat-Moves :
        (id user_id : ℕ) (v : Verdict)
        → Moves w now start (after_heartbeat start (process_heartbeat w id user_id v now start))
    unfolding process_heartbeat
    heartbeat-Moves id user_id v = elim (Option-cases (claim_with id start.claims)) [
      | inl e ↦ rw (process_heartbeat, e) still
      | inr (c, e) ↦ elim (Bool-cases (c.recipient == user_id)) [
        | inr p ↦ rw (process_heartbeat, e, p) still
        | inl p ↦
            rw (process_heartbeat, e, p)
              (refreshed-Moves v (refresh_claim_status w id now start) (refresh-Moves start id))
      ]
    ]
