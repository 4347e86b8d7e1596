-- ===== src/Claims/Moves/Requests.antt =====
-- A request under no limit is a sequence of moves.
use nim_hunt.Prelude.{
  ℕ, ◌≡◌, refl, sym, subst, ◌∙◌, inl, inr, false, Option, none, some, List, ◌∷◌, ◌==◌, arith,
  if◌then◌else◌, Bool-cases, if-holds, Option-cases, find_holds, is_some,
}
use nim_hunt.Prelude.Text.{Text}
use nim_hunt.Outbox.Store.{claim_success}
use nim_hunt.Claims.{SpotRecord, ClaimRecord, CodeRecord, ClaimStore, Setting, Binding}
use nim_hunt.Claims.Rows.{
  spot_with, claim_with, is_prizedraw, is_in, new_claim, insert_claim, create_attempt, code_by_text,
}
use nim_hunt.Claims.Rules.{
  claim_rule_check, absent, invalid, clean, CodeText, normalise_claim_code,
  has_spot_cancellation_started,
}
use nim_hunt.Claims.Promote.{
  Promoted, promote_if_code_available, is_active, wallet_active_claim_count,
}
use nim_hunt.Claims.Attempt.{
  Request, Attempted, attempted, promotion_refusal, answer_promoted, begin_claim, insert_and_begin,
  clean_payout_address, attempt_with_code, create_claim_attempt,
}
use nim_hunt.Claims.Timeline.{after_attempt, after_refresh}
use nim_hunt.Claims.Moves.{IsAllowed, IsAdmitted, Moves, still, then_, begin, try_code, Moves-trans}
use nim_hunt.Claims.Moves.Limited.{claim-Moves}

-- A new claim is not active at a standard Spot.
pending_uncounted :
    (bindings : List Binding) (s : SpotRecord) (address : Text) (c : ClaimRecord)
    (cs : List ClaimRecord)
    → is_prizedraw s ≡ false
    → is_in claim_success c ≡ false
    → wallet_active_claim_count bindings s address (c ∷ cs)
      ≡ wallet_active_claim_count bindings s address cs
unfolding wallet_active_claim_count
pending_uncounted bindings s address c cs p q =
    let idle : is_active s c ≡ false = ground arith in rw idle refl

found_itself :
    (id : ℕ) (spots : List SpotRecord) (s : SpotRecord)
    → spot_with id spots ≡ some s
    → spot_with s.spot_id spots ≡ some s
unfolding spot_with
found_itself id spots s e =
    let h = find_holds (λ (x : SpotRecord). x.spot_id == id) spots e in
    let k : s.spot_id ≡ id = ground arith in subst (λ t. spot_with t spots ≡ some s) (sym k) e

module _ (w : Setting) (now : ℕ) (start : ClaimStore) where
  answer-Moves :
      (id : ℕ) (st : ClaimStore) (r : Option Promoted)
      → Moves w now start st
      → Moves w now st (after_refresh st r)
      → Moves w now start (after_attempt start (answer_promoted id r))
  unfolding answer_promoted
  answer-Moves id st none m n = still
  answer-Moves id st (some r) m n =
      let all : Moves w now start r.store = Moves-trans m n in
      elim (Option-cases (promotion_refusal r.promotion)) [
        | inr (why, e) ↦ rw (answer_promoted, e) all
        | inl e ↦ elim (Option-cases r.found) [
          | inr (c, q) ↦ rw (answer_promoted, e, q) all
          | inl q ↦ elim (Option-cases (claim_with id r.store.claims)) [
            | inl o ↦ rw (answer_promoted, e, q, o) still
            | inr (c, o) ↦ rw (answer_promoted, e, q, o) all
          ]
        ]
      ]

  module _ (s : SpotRecord) (user_id : ℕ) (there : spot_with s.spot_id w.spots ≡ some s)
      (admitted : IsAdmitted w now start user_id)
      (allowed : IsAllowed w start.claims user_id s) where
    inserted-IsAllowed :
        (payout : Option Text) (t : SpotRecord)
        → spot_with s.spot_id w.spots ≡ some t
        → IsAllowed w (insert_claim s.spot_id user_id payout now start).claims user_id t
    unfolding insert_claim
    inserted-IsAllowed payout t q =
        let e : some s ≡ some t = sym there ∙ q in
        let k : s ≡ t = cc in
        λ public_ standard limit address a.
          let l : is_prizedraw s ≡ false = rw k standard in
          let o : (s.max_claims_per_user == 0) ≡ false = rw k limit in
          rw (← k) (
            rw
              (pending_uncounted w.bindings s address (new_claim s.spot_id user_id payout now start)
                start.claims l refl)
              (allowed public_ l o address a))

    tried : Option Text → Option CodeRecord → ClaimStore
    tried payout code =
        attempted start.next_id code (insert_claim s.spot_id user_id payout now start)

    tried-Moves :
        (payout : Option Text) (code : Option CodeRecord) → Moves w now start (tried payout code)
    unfolding create_attempt tried
    tried-Moves payout none = then_ still (begin start s.spot_id user_id payout admitted)
    tried-Moves payout (some k) =
        let st1 = insert_claim s.spot_id user_id payout now start in
        then_ (then_ still (begin start s.spot_id user_id payout admitted)) (
          try_code st1
            (record { claim_id = start.next_id; claim_code_id = k.code_id } ∷ st1.attempts))

    own-Moves :
        (payout : Option Text) (code : Option CodeRecord)
        → Moves w now (tried payout code) (
            after_refresh
              (tried payout code)
              (promote_if_code_available w.spots start.next_id now (tried payout code)))
    unfolding tried claim_with insert_claim create_attempt
    own-Moves payout none =
        let st1 = insert_claim s.spot_id user_id payout now start in
        let c = new_claim s.spot_id user_id payout now start in
        claim-Moves w now start.next_id st1 c (ground arith) (inserted-IsAllowed payout)
    own-Moves payout (some k) =
        let c = new_claim s.spot_id user_id payout now start in
        claim-Moves w now start.next_id (tried payout (some k)) c (ground arith)
          (inserted-IsAllowed payout)

    begun-Moves :
        (payout : Option Text) (code : Option CodeRecord)
        → Moves w now start (
            after_attempt start (
              begin_claim w s start.next_id code
                (insert_claim s.spot_id user_id payout now start)
                now))
    unfolding begin_claim tried
    begun-Moves payout code =
        let id = start.next_id in
        let m = tried-Moves payout code in
        elim (Bool-cases (s.claim_duration == 0)) [
          | inl p ↦
              rw (begin_claim, p)
                (answer-Moves id (tried payout code)
                  (promote_if_code_available w.spots id now (tried payout code)) m
                  (own-Moves payout code))
          | inr p ↦ elim (Option-cases (claim_with id (tried payout code).claims)) [
            | inl e ↦ rw (begin_claim, p, e) still
            | inr (c, e) ↦ rw (begin_claim, p, e) m
          ]
        ]

    insert_and_begin-Moves :
        (r : Request) (code : Option CodeRecord)
        → r.user_id ≡ user_id
        → Moves w now start (after_attempt start (insert_and_begin w s r code now start))
    unfolding insert_and_begin
    insert_and_begin-Moves r code same_user = elim (Bool-cases (has_spot_cancellation_started s)) [
      | inl p ↦ rw (insert_and_begin, p) still
      | inr p ↦ elim (Option-cases (clean_payout_address w r.payout_address)) [
        | inl e ↦ rw (insert_and_begin, p, e) still
        | inr (payout, e) ↦ rw (insert_and_begin, p, e, same_user) (begun-Moves payout code)
      ]
    ]

    by_password :
        (a b : Attempted)
        → Moves w now start (after_attempt start a)
        → Moves w now start (after_attempt start b)
        → Moves w now start (after_attempt start (if s.use_password then a else b))
    by_password a b m n =
        if-holds (λ t. Moves w now start (after_attempt start t)) s.use_password a b (λ p. m)
          (λ p. n)

    with_code-Moves :
        (r : Request)
        → r.user_id ≡ user_id
        → Moves w now start (after_attempt start (attempt_with_code w s r now start))
    unfolding attempt_with_code
    with_code-Moves r same_user = go (normalise_claim_code w.upper r.claim_code) refl
      where
        go :
            (t : CodeText)
            → normalise_claim_code w.upper r.claim_code ≡ t
            → Moves w now start (after_attempt start (attempt_with_code w s r now start))
        go absent e =
            rw (attempt_with_code, e)
              (by_password _ _ still (insert_and_begin-Moves r none same_user))
        go invalid e = rw (attempt_with_code, e) still
        go (clean text) e =
            rw (attempt_with_code, e)
              (by_password _ _
                (elim (Option-cases (code_by_text s.spot_id text start.codes)) [
                  | inl q ↦ rw q still
                  | inr (k, q) ↦ elim (Bool-cases (is_some k.used_by)) [
                    | inl u ↦ rw (q, u) still
                    | inr u ↦ rw (q, u) (insert_and_begin-Moves r (some k) same_user)
                  ]
                ])
                (insert_and_begin-Moves r none same_user))

  pub create-Moves :
      (r : Request)
      → IsAdmitted w now start r.user_id
      → ((s : SpotRecord)
          → spot_with r.spot_id w.spots ≡ some s
          → IsAllowed w start.claims r.user_id s)
      → Moves w now start (after_attempt start (create_claim_attempt w r now start))
  unfolding create_claim_attempt
  create-Moves r admitted allowed = elim (Option-cases (spot_with r.spot_id w.spots)) [
    | inl e ↦ rw (create_claim_attempt, e) still
    | inr (s, e) ↦
        elim (Option-cases (claim_rule_check s r.user_id r.user_ok r.within_radius now start)) [
          | inr (why, q) ↦ rw (create_claim_attempt, e, q) still
          | inl q ↦
              rw (create_claim_attempt, e, q)
                (with_code-Moves s r.user_id (found_itself r.spot_id w.spots s e) admitted
                  (allowed s e) r refl)
        ]
  ]
