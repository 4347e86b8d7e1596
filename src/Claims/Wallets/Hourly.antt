-- ===== src/Claims/Wallets/Hourly.antt =====
-- The hourly limit of a wallet (claim_wallet_hourly_limit.py) over any history.
use native.Mathlib.Nat.{le_trans}
use nim_hunt.Prelude.{
  ℕ, ◌≡◌, refl, ◌≤◌, ◌+◌, max, inl, inr, Bool, true, false, ◌&&◌, Option, List, [], ◌∷◌, arith,
  Bool-cases, length, filter, contains,
}
use nim_hunt.Prelude.Text.{Text}
use nim_hunt.Outbox.Store.{ClaimStatus}
use nim_hunt.Claims.{ClaimRecord, CodeRecord, ClaimStore, Setting, Binding}
use nim_hunt.Claims.Rows.{
  change, new_claim, insert_claim, consume_code, release_code, update_status,
}
use nim_hunt.Claims.Promote.{verified_wallet_user_ids}
use nim_hunt.Claims.Attempt.{is_recent, wallet_recent_claims}
use nim_hunt.Claims.Timeline.{Reach, empty_store}
use nim_hunt.Claims.Moves.{
  IsAdmitted, Move, begin, try_code, take_code, give_back, wait, fail, succeed,
}
use nim_hunt.Claims.Moves.Histories.{Reach-keeps}
use nim_hunt.Claims.Wallets.{IsBound, bound_user}

-- A status does not change what is counted.
kept :
    (bindings : List Binding) (address : Text) (now at : ℕ) (test : ClaimRecord → Bool)
    (s : ClaimStatus) (cs : List ClaimRecord)
    → length (wallet_recent_claims bindings address now (change test s at cs))
      ≡ length (wallet_recent_claims bindings address now cs)
unfolding wallet_recent_claims
kept bindings address now at test s [] = refl
kept bindings address now at test s (c ∷ cs) =
    let rest = kept bindings address now at test s cs in
    elim (Bool-cases (test c)) [ inl t ↦ rw t (ground arith) | inr t ↦ rw t (ground arith) ]

later_fewer :
    (bindings : List Binding) (address : Text) (now later : ℕ) (cs : List ClaimRecord)
    → now ≤ later
    → length (wallet_recent_claims bindings address later cs)
      ≤ length (wallet_recent_claims bindings address now cs)
unfolding wallet_recent_claims
later_fewer bindings address now later [] h = omega arith
later_fewer bindings address now later (c ∷ cs) h =
    let rest = later_fewer bindings address now later cs h in
    elim (Bool-cases (contains c.recipient (verified_wallet_user_ids bindings address))) [
      | inl t ↦ rw t (ground arith)
      | inr t ↦ rw t (ground arith)
    ]

one_more :
    (p : ClaimRecord → Bool) (c : ClaimRecord) (cs : List ClaimRecord)
    → length (filter p (c ∷ cs)) ≤ length (filter p cs) + 1
one_more p c cs = ground arith

not_counted :
    (p : ClaimRecord → Bool) (c : ClaimRecord) (cs : List ClaimRecord)
    → p c ≡ false
    → length (filter p (c ∷ cs)) ≤ length (filter p cs)
not_counted p c cs h = rw h (omega arith)

module _ (w : Setting) (public_ : w.public_deployment ≡ true) (bound : IsBound w.bindings)
    (address : Text) where
  abbrev recent : ℕ → List ClaimRecord → ℕ
  recent now cs = length (wallet_recent_claims w.bindings address now cs)

  abbrev IsWithin : ℕ → ClaimStore → Type 0
  IsWithin now st =
      length (wallet_recent_claims w.bindings address now st.claims) ≤ max 1 w.hourly_limit

  begun :
      (sid user : ℕ) (payout : Option Text) (now : ℕ) (st : ClaimStore)
      → IsAdmitted w now st user
      → IsWithin now st
      → length (
          wallet_recent_claims w.bindings address now
            (new_claim sid user payout now st ∷ st.claims))
        ≤ max 1 w.hourly_limit
  unfolding wallet_recent_claims
  begun sid user payout now st adm h =
      elim (Bool-cases (contains user (verified_wallet_user_ids w.bindings address))) [
        | inr out ↦
            le_trans
              (not_counted
                (λ (c : ClaimRecord).
                  is_recent now c
                  && contains c.recipient (verified_wallet_user_ids w.bindings address))
                (new_claim sid user payout now st) st.claims (rw out (ground arith)))
              h
        | inl mine ↦
            let room = adm public_ address (bound_user w.bindings address user bound mine) in
            le_trans
              (one_more
                (λ (c : ClaimRecord).
                  is_recent now c
                  && contains c.recipient (verified_wallet_user_ids w.bindings address))
                (new_claim sid user payout now st) st.claims)
              (omega (arith, room))
      ]

  Move-IsWithin : (now : ℕ) (a b : ClaimStore) → Move w now a b → IsWithin now a → IsWithin now b
  unfolding insert_claim consume_code release_code update_status
  Move-IsWithin now a b (begin st sid user payout adm) h = begun sid user payout now st adm h
  Move-IsWithin now a b (try_code st l) h = h
  Move-IsWithin now a b (take_code st k id) h = h
  Move-IsWithin now a b (give_back st id c e q) h = h
  Move-IsWithin now a b (wait st id) h = rw (kept) h
  Move-IsWithin now a b (fail st test) h = rw (kept) h
  Move-IsWithin now a b (succeed st id c t e m) h = rw (kept) h

-- On a public deployment whose bindings are stored under the users that they name, whatever
-- requests, refreshes, heartbeats and waits come after the tables were without claims, in any order,
-- the users bound to one wallet have never begun more claims within an hour than the limit (or one).
pub Reach-within_hourly_limit :
    (w : Setting) (codes : List CodeRecord) (address : Text)
    → w.public_deployment ≡ true
    → IsBound w.bindings
    → {now : ℕ} {st : ClaimStore} → Reach w (empty_store codes) now st
    → length (wallet_recent_claims w.bindings address now st.claims) ≤ max 1 w.hourly_limit
unfolding empty_store wallet_recent_claims
Reach-within_hourly_limit w codes address public_ bound r =
    Reach-keeps w (λ now st. IsWithin w public_ bound address now st)
      (Move-IsWithin w public_ bound address)
      (λ now later st le h. le_trans (later_fewer w.bindings address now later st.claims le) h)
      (empty_store codes) (λ now. ground arith) r
