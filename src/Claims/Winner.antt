-- ===== src/Claims/Winner.antt =====
-- A heartbeat of a winner of a completed Prizedraw, whose claim is pending until it is paid. The
-- refresh leaves such a claim alone; the heartbeat then goes on as if it were an open claim.
use nim_hunt.Prelude.{
  ℕ, ◌≡◌, refl, ◌∙◌, true, false, none, some, ◌==◌, arith, if◌then◌else◌, Bool-cases, inl, inr,
  find_holds, if-holds,
}
use nim_hunt.Outbox.Store.{claim_pending, claim_success, claim_failed}
use nim_hunt.Claims.{SpotRecord, ClaimRecord, ClaimStore, Setting}
use nim_hunt.Claims.Rows.{
  is_in, spot_with, claim_with, is_prizedraw, modify_claim_status, update_status, attempt_for_claim,
  with_status,
}
use nim_hunt.Claims.Promote.{
  promote_at, promote, promote_if_code_available, promote_with_code, promote_with_wallet_limit,
  is_prizedraw_id, unstated,
}
use nim_hunt.Claims.Refresh.{
  is_completed, Verdict, processed, of_promoted, process_pending, process_refreshed,
  process_heartbeat, refresh_claim_status, refresh_at,
}
use nim_hunt.Claims.Moves.Promotes.{claim_with-change}

module _ (w : Setting) (id now : ℕ) (st : ClaimStore) (c : ClaimRecord) (s : SpotRecord)
    (found : claim_with id st.claims ≡ some c) (waiting : is_in claim_pending c ≡ true)
    (there : spot_with c.spot_id w.spots ≡ some s) (done : is_completed s.status ≡ true)
    (draw : is_prizedraw s ≡ true) (instant : (s.claim_duration == 0) ≡ true) where
  named : c.claim_id ≡ id
  unfolding claim_with
  named = let h = find_holds (λ (x : ClaimRecord). x.claim_id == id) st.claims found in ground arith

  refreshed :
      refresh_claim_status w id now st
      ≡ some (record { store = st; found = some c; promotion = unstated })
  unfolding refresh_claim_status refresh_at
  refreshed = rw (refresh_claim_status, found, waiting, there, refresh_at, done, draw) refl

  unguarded : promote_with_wallet_limit w id now st ≡ promote_if_code_available w.spots id now st
  unfolding promote_with_wallet_limit
  unguarded =
      let drawn : is_prizedraw_id w.spots c.spot_id ≡ true = rw (is_prizedraw_id, there) draw in
      if-holds (λ r. r ≡ promote_if_code_available w.spots id now st) w.public_deployment _ _
        (λ public_. rw (found, waiting, drawn) refl) (λ private_. refl)

  beaten :
      (v : Verdict)
      → process_heartbeat w id c.recipient v now st
        ≡ of_promoted (promote_if_code_available w.spots id now st)
  unfolding process_heartbeat process_refreshed process_pending
  beaten v =
      let mine : (c.recipient == c.recipient) ≡ true = ground arith in
      rw
        (
          process_heartbeat, found, mine, refreshed, process_refreshed, waiting, process_pending,
          there, instant, named, unguarded,
        )
        refl

  with_code :
      s.use_password ≡ true
      → attempt_for_claim id st ≡ none
      → of_promoted (promote_if_code_available w.spots id now st)
        ≡ processed
            (some (with_status claim_failed now c))
            (modify_claim_status id claim_failed now st)
  unfolding promote_if_code_available promote_with_code modify_claim_status update_status
  with_code coded gone =
      rw
        (
          promote_if_code_available,
          found,
          waiting,
          there,
          coded,
          promote_with_code,
          gone,
          claim_with-change id claim_failed now st.claims c found,
        )
        refl

  without_code :
      s.use_password ≡ false
      → of_promoted (promote_if_code_available w.spots id now st)
        ≡ processed
            (some (with_status claim_success now c))
            (modify_claim_status id claim_success now st)
  unfolding promote_if_code_available promote promote_at modify_claim_status update_status
  without_code open_ =
      rw
        (
          promote_if_code_available,
          found,
          waiting,
          there,
          open_,
          promote,
          found,
          waiting,
          there,
          promote_at,
          draw,
          claim_with-change id claim_success now st.claims c found,
        )
        refl

-- A heartbeat of the recipient for a pending claim at a completed Prizedraw that asks for no stay, a
-- winner that is not paid and has no candidate code, ends its wait whatever the position: the claim
-- fails if the Prizedraw has codes, and succeeds if it has none.
pub process_heartbeat-ends_wait :
    (w : Setting) (id now : ℕ) (st : ClaimStore) (c : ClaimRecord) (s : SpotRecord) (v : Verdict)
    → claim_with id st.claims ≡ some c
    → is_in claim_pending c ≡ true
    → spot_with c.spot_id w.spots ≡ some s
    → is_completed s.status ≡ true
    → is_prizedraw s ≡ true
    → (s.claim_duration == 0) ≡ true
    → attempt_for_claim id st ≡ none
    → process_heartbeat w id c.recipient v now st
      ≡ processed
          (some (with_status (if s.use_password then claim_failed else claim_success) now c))
          (modify_claim_status id (if s.use_password then claim_failed else claim_success) now st)
process_heartbeat-ends_wait w id now st c s v found waiting there done draw instant gone =
    let begun = beaten w id now st c s found waiting there done draw instant v in
    elim (Bool-cases s.use_password) [
      | inl coded ↦
          rw coded
            (begun ∙ with_code w id now st c s found waiting there done draw instant coded gone)
      | inr open_ ↦
          rw open_
            (begun ∙ without_code w id now st c s found waiting there done draw instant open_)
    ]
