-- ===== src/Claims/Moves/Attempts.antt =====
-- Every new claim, under the limits of its wallet, is a sequence of moves.
use nim_hunt.Prelude.{
  ℕ, ◌≡◌, refl, sym, ◌∙◌, inl, inr, true, none, some, List, arith, Bool-cases, if-holds,
  Option-cases,
}
use nim_hunt.Prelude.Text.{Text}
use nim_hunt.Claims.{ClaimStore, Setting, Binding}
use nim_hunt.Claims.Promote.{verified_wallet, binding_of, wallet_has_reached_spot_limit}
use nim_hunt.Claims.Attempt.{
  Request, refused, attempt_of_wallet, verified_wallet_owns_spot, create_bound_attempt,
  wallet_rate_decision, wallet_recent_claim_window, RateDecision, allow, blocked,
  create_limited_attempt, wallet_hourly_limit,
}
use nim_hunt.Claims.Timeline.{after_attempt}
use nim_hunt.Claims.Moves.{IsAdmitted, Moves, still}
use nim_hunt.Claims.Moves.Limited.{not_reached-IsAllowed}
use nim_hunt.Claims.Moves.Requests.{create-Moves}

wallet_of_binding :
    (bindings : List Binding) (user_id : ℕ) (b : Binding) (address : Text)
    → binding_of bindings user_id ≡ some b
    → b.wallet_address ≡ some address
    → verified_wallet bindings user_id ≡ some address
unfolding verified_wallet
wallet_of_binding bindings user_id b address e q = rw (verified_wallet, e) q

module _ (w : Setting) (now : ℕ) (start : ClaimStore) where
  module _ (r : Request) (admitted : IsAdmitted w now start r.user_id) where
    of_wallet-Moves :
        (address : Text)
        → verified_wallet w.bindings r.user_id ≡ some address
        → Moves w now start (after_attempt start (attempt_of_wallet w r address now start))
    unfolding attempt_of_wallet
    of_wallet-Moves address verified =
        elim (Bool-cases (verified_wallet_owns_spot w r.spot_id address)) [
          | inl p ↦ rw (attempt_of_wallet, p) still
          | inr p ↦
              elim (Bool-cases (wallet_has_reached_spot_limit w r.spot_id address start.claims)) [
                | inl q ↦ rw (attempt_of_wallet, p, q) still
                | inr q ↦
                    rw (attempt_of_wallet, p, q)
                      (create-Moves w now start (record r { payout_address = some address })
                        admitted
                        (λ s e.
                          not_reached-IsAllowed w start.claims r.user_id r.spot_id s address e
                            verified q))
              ]
        ]

    bound-Moves : Moves w now start (after_attempt start (create_bound_attempt w r now start))
    unfolding create_bound_attempt
    bound-Moves =
        if-holds (λ a. Moves w now start (after_attempt start a)) w.public_deployment _ _
          (λ public_. elim (Option-cases (binding_of w.bindings r.user_id)) [
            | inl e ↦ rw e still
            | inr (b, e) ↦ elim (Option-cases b.wallet_address) [
              | inl q ↦ rw (e, q) still
              | inr (address, q) ↦
                  rw (e, q)
                    (of_wallet-Moves address (wallet_of_binding w.bindings r.user_id b address e q))
            ]
          ])
          (λ private_. create-Moves w now start r admitted (λ s e public_. absurd cc))

  -- The hourly limit lets a new claim through only if there is room for it.
  room_admits :
      (r : Request) (address : Text)
      → verified_wallet w.bindings r.user_id ≡ some address
      → wallet_rate_decision w address now start.claims ≡ allow
      → IsAdmitted w now start r.user_id
  unfolding wallet_rate_decision wallet_recent_claim_window
  room_admits r address verified e public_ a ea =
      let q : some address ≡ some a = sym verified ∙ ea in
      let k : address ≡ a = cc in rw (← k) (ground arith)

  limited-Moves :
      (r : Request) (address : Text)
      → verified_wallet w.bindings r.user_id ≡ some address
      → Moves w now start (
          after_attempt start (elim (wallet_rate_decision w address now start.claims) [
            | allow ↦ create_bound_attempt w r now start
            | blocked _ ↦ refused wallet_hourly_limit start
          ]))
  limited-Moves r address verified = go (wallet_rate_decision w address now start.claims) refl
    where
      go :
          (d : RateDecision)
          → wallet_rate_decision w address now start.claims ≡ d
          → Moves w now start (
              after_attempt start (elim d [
                | allow ↦ create_bound_attempt w r now start
                | blocked _ ↦ refused wallet_hourly_limit start
              ]))
      go allow e = bound-Moves r (room_admits r address verified e)
      go (blocked t) e = still

  unbound-Moves :
      (r : Request)
      → w.public_deployment ≡ true
      → binding_of w.bindings r.user_id ≡ none
      → Moves w now start (after_attempt start (create_bound_attempt w r now start))
  unfolding verified_wallet
  unbound-Moves r public_ e =
      bound-Moves r (λ p a q. absurd (let t : none ≡ some a = rw (verified_wallet, e) at q in cc))

  unverified-Moves :
      (r : Request) (b : Binding)
      → w.public_deployment ≡ true
      → binding_of w.bindings r.user_id ≡ some b
      → b.wallet_address ≡ none
      → Moves w now start (after_attempt start (create_bound_attempt w r now start))
  unfolding verified_wallet
  unverified-Moves r b public_ e n =
      bound-Moves r
        (λ p a q. absurd (let t : none ≡ some a = rw (verified_wallet, e, n) at q in cc))

  -- A request for a claim changes the tables only by the moves of the abstract machine: a claim begins
  -- only if its wallet is below the hourly limit of a public deployment, and it succeeds at once only
  -- if its standard Spot has room, its wallet is below the Spot's limit, and it holds a code where
  -- the Spot has codes.
  pub attempt-Moves :
      (r : Request) → Moves w now start (after_attempt start (create_limited_attempt w r now start))
  unfolding create_limited_attempt
  attempt-Moves r =
      if-holds (λ a. Moves w now start (after_attempt start a)) w.public_deployment _ _
        (λ public_. elim (Option-cases (binding_of w.bindings r.user_id)) [
          | inl e ↦ rw e (unbound-Moves r public_ e)
          | inr (b, e) ↦ elim (Option-cases b.wallet_address) [
            | inl q ↦ rw (e, q) (unverified-Moves r b public_ e q)
            | inr (address, q) ↦
                rw (e, q)
                  (limited-Moves r address (wallet_of_binding w.bindings r.user_id b address e q))
          ]
        ])
        (λ private_. bound-Moves r (λ public_. absurd cc))
