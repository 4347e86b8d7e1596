-- ===== src/Claims/Wallets/Spots.antt =====
-- A wallet's limit at one Spot (_wallet_has_reached_spot_limit) over any history.
use native.Mathlib.Nat.{le_trans}
use nim_hunt.Prelude.{
  ℕ, ◌≡◌, refl, sym, ◌∙◌, ◌≤◌, ◌<◌, inl, inr, Bool, true, false, ◌&&◌, some, List, ◌∷◌, ◌==◌, arith,
  subst, Option, Bool-cases, contains,
}
use nim_hunt.Prelude.Text.{Text}
use nim_hunt.Settlement.Draw.{claim_code}
use nim_hunt.Outbox.Store.{ClaimStatus, claim_pending, claim_success, claim_failed}
use nim_hunt.Claims.{SpotRecord, ClaimRecord, CodeRecord, ClaimStore, Setting}
use nim_hunt.Claims.Rows.{
  spot_with, claim_with, change, is_in, new_claim, is_prizedraw, has_id, insert_claim, consume_code,
  release_code, update_status,
}
use nim_hunt.Claims.Promote.{is_active, verified_wallet_user_ids, wallet_active_claim_count}
use nim_hunt.Claims.Timeline.{Reach, empty_store}
use nim_hunt.Claims.Moves.{
  MaySucceed, Move, begin, try_code, take_code, give_back, wait, fail, succeed,
}
use nim_hunt.Claims.Moves.Histories.{Reach-keeps}
use nim_hunt.Claims.Moves.Counts.{Falls, Move-Falls, lost_count-le, won_count-le, other_count-le}
use nim_hunt.Claims.Wallets.{IsBound, bound_user}

module _ (w : Setting) (public_ : w.public_deployment ≡ true) (bound : IsBound w.bindings)
    (address : Text) (s : SpotRecord) (there : spot_with s.spot_id w.spots ≡ some s)
    (standard : is_prizedraw s ≡ false) (limited : (s.max_claims_per_user == 0) ≡ false) where
  abbrev counted : ClaimRecord → Bool
  counted c = is_active s c && contains c.recipient (verified_wallet_user_ids w.bindings address)

  abbrev mine : ClaimRecord → Bool
  mine c =
      c.spot_id == s.spot_id && contains c.recipient (verified_wallet_user_ids w.bindings address)

  splits : (c : ClaimRecord) → counted c ≡ (is_in claim_success c && mine c)
  splits c = ground arith

  abbrev active : List ClaimRecord → ℕ
  active cs = wallet_active_claim_count w.bindings s address cs

  abbrev IsWithin : ClaimStore → Type 0
  IsWithin st = Falls st.next_id st.claims × (active st.claims ≤ s.max_claims_per_user)

  lost :
      (st : ClaimStore) (test : ClaimRecord → Bool) (to : ClaimStatus) (now : ℕ)
      → (claim_code to == 1) ≡ false
      → active (change test to now st.claims) ≤ active st.claims
  unfolding wallet_active_claim_count
  lost st test to now h = lost_count-le counted mine splits (λ a b c. refl) test to now st.claims h

  won :
      (now : ℕ) (st : ClaimStore) (id : ℕ) (c : ClaimRecord) (t : SpotRecord)
      → Falls st.next_id st.claims
      → claim_with id st.claims ≡ some c
      → MaySucceed w st c t
      → active st.claims ≤ s.max_claims_per_user
      → active (change (has_id id) claim_success now st.claims) ≤ s.max_claims_per_user
  unfolding wallet_active_claim_count
  won now st id c t falls found may h = elim (Bool-cases (mine c)) [
    | inr away ↦
        let o =
          other_count-le counted mine splits (λ a b c. refl) st.next_id id now st.claims c falls
            found away in
        omega arith
    | inl at ↦
        let same_id : c.spot_id ≡ s.spot_id = ground arith in
        let bound_ : contains c.recipient (verified_wallet_user_ids w.bindings address) ≡ true =
          ground arith in
        let e : some t ≡ some s =
          sym may.there ∙ subst (λ i. spot_with i w.spots ≡ some s) (sym same_id) there in
        let k : t ≡ s = cc in
        let room : active st.claims < s.max_claims_per_user =
          subst
            (λ (x : SpotRecord).
              wallet_active_claim_count w.bindings x address st.claims < x.max_claims_per_user)
            k
            (may.allowed public_ (rw k standard) (rw k limited) address
              (bound_user w.bindings address c.recipient bound bound_)) in
        let o =
          won_count-le counted mine splits (λ a b c. refl) st.next_id id now st.claims falls in
        omega arith
  ]

  begun :
      (sid user : ℕ) (payout : Option Text) (now : ℕ) (st : ClaimStore)
      → active st.claims ≤ s.max_claims_per_user
      → active (new_claim sid user payout now st ∷ st.claims) ≤ s.max_claims_per_user
  unfolding wallet_active_claim_count
  begun sid user payout now st h =
      let idle : counted (new_claim sid user payout now st) ≡ false =
        splits (new_claim sid user payout now st) in
      rw idle h

  Move-IsWithin : (now : ℕ) (a b : ClaimStore) → Move w now a b → IsWithin a → IsWithin b
  unfolding insert_claim consume_code release_code update_status
  Move-IsWithin now a b (begin st sid user payout adm) h =
      (Move-Falls w now a b (begin st sid user payout adm) h.0, begun sid user payout now st h.1)
  Move-IsWithin now a b (try_code st l) h = h
  Move-IsWithin now a b (take_code st k id) h = h
  Move-IsWithin now a b (give_back st id c e q) h = h
  Move-IsWithin now a b (wait st id) h = (
    Move-Falls w now a b (wait st id) h.0,
    le_trans (lost st (has_id id) claim_pending now refl) h.1,
  )
  Move-IsWithin now a b (fail st test) h =
      (Move-Falls w now a b (fail st test) h.0, le_trans (lost st test claim_failed now refl) h.1)
  Move-IsWithin now a b (succeed st id c t e m) h =
      (Move-Falls w now a b (succeed st id c t e m) h.0, won now st id c t h.0 e m h.1)

-- On a public deployment whose bindings are stored under the users that they name, whatever
-- requests, refreshes, heartbeats and waits come after the tables were without claims, in any order,
-- the users bound to one wallet have no more successful claims at a standard Spot than its limit per
-- user, where it has one.
pub Reach-within_spot_limit :
    (w : Setting) (codes : List CodeRecord) (address : Text) (s : SpotRecord)
    → w.public_deployment ≡ true
    → IsBound w.bindings
    → spot_with s.spot_id w.spots ≡ some s
    → is_prizedraw s ≡ false
    → (s.max_claims_per_user == 0) ≡ false
    → {now : ℕ} {st : ClaimStore} → Reach w (empty_store codes) now st
    → wallet_active_claim_count w.bindings s address st.claims ≤ s.max_claims_per_user
unfolding empty_store wallet_active_claim_count
Reach-within_spot_limit w codes address s public_ bound there standard limited r =
    (Reach-keeps w (λ now st. IsWithin w public_ bound address s there standard limited st)
      (Move-IsWithin w public_ bound address s there standard limited) (λ now later st le h. h)
      (empty_store codes) (λ now. (tt, omega arith)) r).1
