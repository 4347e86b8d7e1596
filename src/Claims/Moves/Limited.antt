-- ===== src/Claims/Moves/Limited.antt =====
-- A promotion under the limit of a wallet is a sequence of moves.
use nim_hunt.Prelude.{
  ℕ, ◌≡◌, sym, ◌∙◌, leb, inl, inr, false, ◌&&◌, not, none, some, List, arith, Bool-cases, if-holds,
  Option-cases,
}
use nim_hunt.Prelude.Text.{Text}
use nim_hunt.Outbox.Store.{claim_pending}
use nim_hunt.Claims.{SpotRecord, ClaimRecord, ClaimStore, Setting}
use nim_hunt.Claims.Rows.{spot_with, claim_with, is_in}
use nim_hunt.Claims.Promote.{
  promote_if_code_available, promote_standard, promote_with_wallet_limit, is_prizedraw_id,
  verified_wallet, wallet_has_reached_spot_limit, wallet_active_claim_count, unstated,
  wallet_claim_limit_reached,
}
use nim_hunt.Claims.Timeline.{after_refresh}
use nim_hunt.Claims.Moves.{IsAllowed, Moves, still}
use nim_hunt.Claims.Moves.Promotes.{fail-Moves, pending-Moves}

pub not_reached-IsAllowed :
    (w : Setting) (claims : List ClaimRecord) (user_id spot_id : ℕ) (s : SpotRecord)
    (address : Text)
    → spot_with spot_id w.spots ≡ some s
    → verified_wallet w.bindings user_id ≡ some address
    → wallet_has_reached_spot_limit w spot_id address claims ≡ false
    → IsAllowed w claims user_id s
unfolding wallet_has_reached_spot_limit
not_reached-IsAllowed w claims user_id spot_id s address there e r public_ standard some_limit a
      ea =
    let q : some address ≡ some a = sym e ∙ ea in
    let k : address ≡ a = cc in
    let t : leb s.max_claims_per_user (wallet_active_claim_count w.bindings s address claims)
        ≡ false =
      rw (wallet_has_reached_spot_limit, there, some_limit) at r in
    rw (← k) (ground arith)

-- Where the claim is not pending, or its Spot is gone, nothing happens.
module _ (w : Setting) (now : ℕ) (id : ℕ) (st : ClaimStore) where
  missing-Moves :
      claim_with id st.claims ≡ none
      → Moves w now st (after_refresh st (promote_if_code_available w.spots id now st))
  unfolding promote_if_code_available
  missing-Moves e = rw (promote_if_code_available, e) still

  module _ (c : ClaimRecord) (found : claim_with id st.claims ≡ some c) where
    over-Moves :
        is_in claim_pending c ≡ false
        → Moves w now st (after_refresh st (promote_if_code_available w.spots id now st))
    unfolding promote_if_code_available
    over-Moves p = rw (promote_if_code_available, found, p) still

    -- The promotion under whatever allows it.
    pub claim-Moves :
        ((s : SpotRecord)
          → spot_with c.spot_id w.spots ≡ some s
          → IsAllowed w st.claims c.recipient s)
        → Moves w now st (after_refresh st (promote_if_code_available w.spots id now st))
    unfolding promote_if_code_available
    claim-Moves allowed = elim (Bool-cases (is_in claim_pending c)) [
      | inr p ↦ over-Moves p
      | inl p ↦ elim (Option-cases (spot_with c.spot_id w.spots)) [
        | inl q ↦ rw (promote_if_code_available, found, p, q) still
        | inr (s, q) ↦ pending-Moves w now id st c s found p q (allowed s q)
      ]
    ]

    standard-Moves : Moves w now st (after_refresh st (promote_standard w c id now st))
    unfolding promote_standard
    standard-Moves = elim (Option-cases (verified_wallet w.bindings c.recipient)) [
      | inl e ↦ rw (promote_standard, e) (fail-Moves w now id unstated st)
      | inr (address, e) ↦
          elim (Bool-cases (wallet_has_reached_spot_limit w c.spot_id address st.claims)) [
            | inl r ↦
                rw (promote_standard, e, r) (fail-Moves w now id wallet_claim_limit_reached st)
            | inr r ↦
                rw (promote_standard, e, r)
                  (claim-Moves (λ s q.
                    not_reached-IsAllowed w st.claims c.recipient c.spot_id s address q e r))
          ]
    ]

  private_-Moves :
      w.public_deployment ≡ false
      → Moves w now st (after_refresh st (promote_if_code_available w.spots id now st))
  private_-Moves h = elim (Option-cases (claim_with id st.claims)) [
    | inl e ↦ missing-Moves e
    | inr (c, e) ↦ claim-Moves c e (λ s q public_. absurd cc)
  ]

  -- A draw's entries have no limit here.
  unlimited-Moves :
      (c : ClaimRecord)
      → claim_with id st.claims ≡ some c
      → (is_in claim_pending c && not (is_prizedraw_id w.spots c.spot_id)) ≡ false
      → Moves w now st (after_refresh st (promote_if_code_available w.spots id now st))
  unlimited-Moves c e p = elim (Bool-cases (is_in claim_pending c)) [
    | inr over ↦ over-Moves c e over
    | inl waiting ↦ claim-Moves c e λ s q public_ standard.
        absurd (
          let t : is_prizedraw_id w.spots c.spot_id ≡ false = rw (is_prizedraw_id, q) standard in
          cc)
  ]

  pub promote_with_wallet_limit-Moves :
      Moves w now st (after_refresh st (promote_with_wallet_limit w id now st))
  unfolding promote_with_wallet_limit
  promote_with_wallet_limit-Moves =
      if-holds (λ r. Moves w now st (after_refresh st r)) w.public_deployment _ _
        (λ public_. elim (Option-cases (claim_with id st.claims)) [
          | inl e ↦ rw e (missing-Moves e)
          | inr (c, e) ↦ rw e (
              if-holds (λ r. Moves w now st (after_refresh st r))
                (is_in claim_pending c && not (is_prizedraw_id w.spots c.spot_id)) _ _
                (λ p. standard-Moves c e) (unlimited-Moves c e))
        ])
        private_-Moves
