-- ===== src/Claims/Capacity.antt =====
-- The capacity of a standard Spot over any history (the conditional update of
-- promote_pending_claim_to_success_if_capacity_available).
use nim_hunt.Prelude.{
  ℕ, ◌≡◌, refl, sym, ◌∙◌, ◌≤◌, ◌<◌, inl, inr, Bool, false, ◌&&◌, some, List, ◌∷◌, ◌==◌, arith,
  subst, Option, Bool-cases, length, filter,
}
use native.Mathlib.Nat.{le_trans}
use nim_hunt.Prelude.Text.{Text}
use nim_hunt.Settlement.Draw.{claim_code}
use nim_hunt.Outbox.Store.{ClaimStatus, claim_pending, claim_success, claim_failed}
use nim_hunt.Claims.{SpotRecord, ClaimRecord, CodeRecord, ClaimStore, Setting}
use nim_hunt.Claims.Rows.{
  spot_with, claim_with, change, is_in, new_claim, is_prizedraw, count_at, is_at, has_id,
  insert_claim, consume_code, release_code, update_status,
}
use nim_hunt.Claims.Timeline.{Reach, empty_store}
use nim_hunt.Claims.Moves.{
  MaySucceed, Move, begin, try_code, take_code, give_back, wait, fail, succeed,
}
use nim_hunt.Claims.Moves.Histories.{Reach-keeps}
use nim_hunt.Claims.Moves.Counts.{Falls, Move-Falls, lost_count-le, won_count-le, other_count-le}

module _ (w : Setting) (s : SpotRecord) (there : spot_with s.spot_id w.spots ≡ some s)
    (standard : is_prizedraw s ≡ false) (limited : (s.max_total_claims == 0) ≡ false) where
  abbrev here_ : ClaimRecord → Bool
  here_ c = c.spot_id == s.spot_id

  splits : (c : ClaimRecord) → is_at s.spot_id claim_success c ≡ (is_in claim_success c && here_ c)
  splits c = ground arith

  abbrev IsWithin : ClaimStore → Type 0
  IsWithin st =
      Falls st.next_id st.claims × (count_at s.spot_id claim_success st.claims ≤ s.max_total_claims)

  lost :
      (st : ClaimStore) (test : ClaimRecord → Bool) (to : ClaimStatus) (now : ℕ)
      → (claim_code to == 1) ≡ false
      → count_at s.spot_id claim_success (change test to now st.claims)
        ≤ count_at s.spot_id claim_success st.claims
  unfolding count_at
  lost st test to now h =
      lost_count-le (is_at s.spot_id claim_success) here_ splits (λ a b c. refl) test to now
        st.claims h

  won :
      (now : ℕ) (st : ClaimStore) (id : ℕ) (c : ClaimRecord) (t : SpotRecord)
      → Falls st.next_id st.claims
      → claim_with id st.claims ≡ some c
      → MaySucceed w st c t
      → count_at s.spot_id claim_success st.claims ≤ s.max_total_claims
      → count_at s.spot_id claim_success (change (has_id id) claim_success now st.claims)
        ≤ s.max_total_claims
  unfolding count_at
  won now st id c t falls found may h = elim (Bool-cases (here_ c)) [
    | inr away ↦
        let o =
          other_count-le (is_at s.spot_id claim_success) here_ splits (λ a b c. refl) st.next_id id
            now st.claims c falls found away in
        omega arith
    | inl at ↦
        let same_id : c.spot_id ≡ s.spot_id = ground arith in
        let e : some t ≡ some s =
          sym may.there ∙ subst (λ i. spot_with i w.spots ≡ some s) (sym same_id) there in
        let k : t ≡ s = cc in
        let room : count_at c.spot_id claim_success st.claims < t.max_total_claims =
          may.has_room (rw k standard) (rw k limited) in
        let room2 : length (filter (is_at s.spot_id claim_success) st.claims) < s.max_total_claims =
          subst
            (λ (x : SpotRecord).
              length (filter (is_at s.spot_id claim_success) st.claims) < x.max_total_claims)
            k
            (subst (λ i. length (filter (is_at i claim_success) st.claims) < t.max_total_claims)
              same_id room) in
        let o =
          won_count-le (is_at s.spot_id claim_success) here_ splits (λ a b c. refl) st.next_id id
            now st.claims falls in
        omega arith
  ]

  begun :
      (sid user : ℕ) (payout : Option Text) (now : ℕ) (st : ClaimStore)
      → count_at s.spot_id claim_success st.claims ≤ s.max_total_claims
      → count_at s.spot_id claim_success (new_claim sid user payout now st ∷ st.claims)
        ≤ s.max_total_claims
  unfolding count_at
  begun sid user payout now st h =
      let idle : is_at s.spot_id claim_success (new_claim sid user payout now st) ≡ false =
        ground arith in
      rw idle h

  Move-IsWithin : (now : ℕ) (a b : ClaimStore) → Move w now a b → IsWithin a → IsWithin b
  unfolding insert_claim consume_code release_code update_status
  Move-IsWithin now a b (begin st sid user payout adm) h =
      (Move-Falls w now a b (begin st sid user payout adm) h.0, begun sid user payout now st h.1)
  Move-IsWithin now a b (try_code st l) h = h
  Move-IsWithin now a b (take_code st k id) h = h
  Move-IsWithin now a b (give_back st id c e q) h = h
  Move-IsWithin now a b (wait st id) h =
      let l = lost st (has_id id) claim_pending now refl in
      (Move-Falls w now a b (wait st id) h.0, le_trans l h.1)
  Move-IsWithin now a b (fail st test) h =
      let l = lost st test claim_failed now refl in
      (Move-Falls w now a b (fail st test) h.0, le_trans l h.1)
  Move-IsWithin now a b (succeed st id c t e m) h =
      (Move-Falls w now a b (succeed st id c t e m) h.0, won now st id c t h.0 e m h.1)

-- Whatever requests, refreshes, heartbeats and waits come after the tables were without claims, in
-- any order, no more claims have succeeded at a limited standard Spot than its maximum.
pub Reach-within_capacity :
    (w : Setting) (codes : List CodeRecord) (s : SpotRecord)
    → spot_with s.spot_id w.spots ≡ some s
    → is_prizedraw s ≡ false
    → (s.max_total_claims == 0) ≡ false
    → {now : ℕ} {st : ClaimStore} → Reach w (empty_store codes) now st
    → count_at s.spot_id claim_success st.claims ≤ s.max_total_claims
unfolding empty_store count_at
Reach-within_capacity w codes s there standard limited r =
    (Reach-keeps w (λ now st. IsWithin w s there standard limited st)
      (Move-IsWithin w s there standard limited) (λ now later st le h. h) (empty_store codes)
      (λ now. (tt, omega arith)) r).1
