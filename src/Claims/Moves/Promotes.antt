-- ===== src/Claims/Moves/Promotes.antt =====
-- A promotion is a sequence of moves, where its wallet is below the limit of the Spot.
use nim_hunt.Prelude.{
  ℕ, ◌≡◌, refl, ap, ◌⊎◌, inl, inr, ◌<◌, true, false, ◌||◌, none, some, List, [], ◌∷◌, map, ltb,
  ◌==◌, arith, Bool-cases, Option-cases, find, any, find_holds,
}
use nim_hunt.Outbox.Store.{ClaimStatus, claim_pending, claim_success, claim_failed}
use nim_hunt.Claims.{SpotRecord, ClaimRecord, CodeRecord, ClaimStore, Setting}
use nim_hunt.Claims.Rows.{
  spot_with, claim_with, is_prizedraw, count_at, is_in, is_at, has_id, update_status, consume_code,
  with_status, change, modify_claim_status, fail_pending_if_capacity_full, attempt_for_claim,
  code_with, is_open_to, may_use, taken,
}
use nim_hunt.Claims.Promote.{
  Promoted, Promotion, claim_code_attempt_missing, claim_code_already_used, reread, promote_at,
  promote, succeeded, settle_code, promote_with_code, promote_if_code_available,
}
use nim_hunt.Claims.Timeline.{after_refresh}
use nim_hunt.Claims.Moves.{
  holds, IsAllowed, MaySucceed, Moves, still, then_, fail, succeed, give_back, take_code,
  Moves-trans,
}

pub claim_with-change :
    (id : ℕ) (s : ClaimStatus) (now : ℕ) (cs : List ClaimRecord) (c : ClaimRecord)
    → claim_with id cs ≡ some c
    → claim_with id (change (has_id id) s now cs) ≡ some (with_status s now c)
unfolding claim_with
claim_with-change id s now [] c e = absurd cc
claim_with-change id s now (d ∷ cs) c e = elim (Bool-cases (d.claim_id == id)) [
  | inl q ↦ let k : d ≡ c = ground arith in rw (q, q) (ap some (ap (with_status s now) k))
  | inr q ↦ rw (q, q) (claim_with-change id s now cs c (ground arith))
]

-- The claim that a promotion returns has succeeded, or the store has it, and it has not.
abbrev pub IsSettled : ℕ → Promoted → Type 0
IsSettled id r =
    (succeeded r.found ≡ true)
    ⊎ ((c : ClaimRecord) × (claim_with id r.store.claims ≡ some c)
        × (is_in claim_success c ≡ false))

module _ (w : Setting) (now : ℕ) where
  cleanup-Moves :
      (s : SpotRecord) (st : ClaimStore) → Moves w now st (fail_pending_if_capacity_full s now st)
  unfolding fail_pending_if_capacity_full
  cleanup-Moves s st = elim (Bool-cases (is_prizedraw s)) [
    | inl p ↦ rw p still
    | inr p ↦ elim (Bool-cases (s.claim_duration == 0 || s.max_total_claims == 0)) [
      | inl q ↦ rw (p, q) still
      | inr q ↦
          elim (Bool-cases (ltb (count_at s.spot_id claim_success st.claims) s.max_total_claims)) [
            | inl r ↦ rw (p, q, r) still
            | inr r ↦ rw (p, q, r) (then_ still (fail st (is_at s.spot_id claim_pending)))
          ]
    ]
  ]

  module _ (id : ℕ) (st : ClaimStore) (c : ClaimRecord) (s : SpotRecord)
      (found : claim_with id st.claims ≡ some c) (waiting : is_in claim_pending c ≡ true)
      (there : spot_with c.spot_id w.spots ≡ some s) (allowed : IsAllowed w st.claims c.recipient s)
      (coded : s.use_password ≡ true → any (holds c) st.codes ≡ true) where
    may :
        (is_prizedraw s ≡ false
          → (s.max_total_claims == 0) ≡ false
          → count_at c.spot_id claim_success st.claims < s.max_total_claims)
        → MaySucceed w st c s
    may room = record {
      pending = waiting;
      there = there;
      has_room = room;
      allowed = allowed;
      has_code = coded;
    }

    spot_id-eq : s.spot_id ≡ c.spot_id
    unfolding spot_with
    spot_id-eq =
        let h = find_holds (λ (x : SpotRecord). x.spot_id == c.spot_id) w.spots there in
        ground arith

    promote_at-Moves : Moves w now st (promote_at s id now st).store
    unfolding promote_at modify_claim_status
    promote_at-Moves = elim (Bool-cases (is_prizedraw s)) [
      | inl p ↦ rw p (then_ still (succeed st id c s found (may (λ q r. absurd cc))))
      | inr p ↦ elim (Bool-cases (s.max_total_claims == 0)) [
        | inl q ↦ rw (p, q) (then_ still (succeed st id c s found (may (λ a b. absurd cc))))
        | inr q ↦
            elim (Bool-cases
              (ltb (count_at s.spot_id claim_success st.claims) s.max_total_claims)) [
                | inl r ↦
                    rw (p, q, r)
                      (Moves-trans
                        (then_ still
                          (succeed st id c s found (may (λ a b. rw (← spot_id-eq) (ground arith)))))
                        (cleanup-Moves s (update_status (has_id id) claim_success now st)))
                | inr r ↦ rw (p, q, r) (then_ still (fail st (has_id id)))
              ]
      ]
    ]

    promote_at-IsSettled : IsSettled id (promote_at s id now st)
    unfolding promote_at modify_claim_status update_status
    promote_at-IsSettled =
        let won = claim_with-change id claim_success now st.claims c found in
        let lost = claim_with-change id claim_failed now st.claims c found in
        elim (Bool-cases (is_prizedraw s)) [
          | inl p ↦ rw (p, won) (inl refl)
          | inr p ↦ elim (Bool-cases (s.max_total_claims == 0)) [
            | inl q ↦ rw (p, q, won) (inl refl)
            | inr q ↦
                elim (Bool-cases
                  (ltb (count_at s.spot_id claim_success st.claims) s.max_total_claims)) [
                    | inl r ↦ rw (p, q, r, won) (inl refl)
                    | inr r ↦ rw (p, q, r) (inr (with_status claim_failed now c, lost, refl))
                  ]
          ]
        ]

    promote-Moves : Moves w now st (promote w.spots id now st).store
    unfolding promote
    promote-Moves = rw (promote, found, waiting, there) promote_at-Moves

    promote-IsSettled : IsSettled id (promote w.spots id now st)
    unfolding promote
    promote-IsSettled = rw (promote, found, waiting, there) promote_at-IsSettled

  settle_code-Moves :
      (id : ℕ) (st : ClaimStore) (r : Promoted)
      → Moves w now st r.store
      → IsSettled id r
      → Moves w now st (settle_code id r).store
  unfolding settle_code
  settle_code-Moves id st r m (inl won) = rw won m
  settle_code-Moves id st r m (inr (d, at, lost)) = elim (Bool-cases (succeeded r.found)) [
    | inl q ↦ rw q m
    | inr q ↦ rw q (then_ m (give_back r.store id d at lost))
  ]

  pub fail-Moves :
      (id : ℕ) (why : Promotion) (st : ClaimStore)
      → Moves w now st (reread id why (modify_claim_status id claim_failed now st)).store
  unfolding modify_claim_status
  fail-Moves id why st = then_ still (fail st (has_id id))

-- The code that an update takes is then held.
taken-holds :
    (c : ClaimRecord) (k : CodeRecord) (id : ℕ) (codes : List CodeRecord)
    → code_with id codes ≡ some k
    → is_open_to c.claim_id k ≡ true
    → (c.spot_id == k.spot_id) ≡ true
    → any (holds c) (map (taken k.code_id c.claim_id) codes) ≡ true
unfolding code_with
taken-holds c k id [] e o q = absurd cc
taken-holds c k id (j ∷ codes) e o q = elim (Bool-cases (j.code_id == id)) [
  | inl h ↦ let same_row : j ≡ k = ground arith in rw same_row (ground arith)
  | inr h ↦
      let rest = taken-holds c k id codes (ground arith) o q in
      elim (Bool-cases (holds c (taken k.code_id c.claim_id j))) [
        | inl b ↦ rw b refl
        | inr b ↦ rw b rest
      ]
]

-- The code of an attempt can be taken, and is then held by its claim.
consumed-holds :
    (id : ℕ) (st : ClaimStore) (c : ClaimRecord) (k : CodeRecord)
    → claim_with id st.claims ≡ some c
    → attempt_for_claim id st ≡ some k
    → is_open_to id k ≡ true
    → may_use c k st.codes ≡ true
    → any (holds c) (consume_code k.code_id id st).codes ≡ true
unfolding claim_with attempt_for_claim may_use consume_code
consumed-holds id st c k found e o m =
    let h = find_holds (λ (x : ClaimRecord). x.claim_id == id) st.claims found in
    let named : c.claim_id ≡ id = ground arith in
    elim (Option-cases (find (λ a. a.claim_id == id) st.attempts)) [
      | inl none_ ↦ absurd (let q : none ≡ some k = rw (attempt_for_claim, none_) at e in cc)
      | inr (a, at) ↦
          let q : code_with a.claim_code_id st.codes ≡ some k = rw (attempt_for_claim, at) at e in
          rw (← named) (taken-holds c k a.claim_code_id st.codes q (rw named o) (ground arith))
    ]

module _ (w : Setting) (now : ℕ) (id : ℕ) (st : ClaimStore) (c : ClaimRecord) (s : SpotRecord)
    (found : claim_with id st.claims ≡ some c) (waiting : is_in claim_pending c ≡ true)
    (there : spot_with c.spot_id w.spots ≡ some s)
    (allowed : IsAllowed w st.claims c.recipient s) where
  taken-Moves :
      (k : CodeRecord)
      → any (holds c) (consume_code k.code_id id st).codes ≡ true
      → Moves w now st
          (settle_code id (promote w.spots id now (consume_code k.code_id id st))).store
  unfolding consume_code
  taken-Moves k held =
      let st2 = consume_code k.code_id id st in
      settle_code-Moves w now id st (promote w.spots id now st2)
        (Moves-trans (then_ still (take_code st k.code_id id))
          (promote-Moves w now id st2 c s found waiting there allowed (λ _. held)))
        (promote-IsSettled w now id st2 c s found waiting there allowed (λ _. held))

  promote_with_code-Moves :
      Moves w now st (after_refresh st (promote_with_code w.spots c id now st))
  unfolding promote_with_code
  promote_with_code-Moves = elim (Option-cases (attempt_for_claim id st)) [
    | inl e ↦ rw (promote_with_code, e) (fail-Moves w now id claim_code_attempt_missing st)
    | inr (k, e) ↦ elim (Bool-cases (is_open_to id k)) [
      | inr o ↦ rw (promote_with_code, e, o) (fail-Moves w now id claim_code_already_used st)
      | inl o ↦ elim (Bool-cases (may_use c k st.codes)) [
        | inr m ↦ rw (promote_with_code, e, o, m) still
        | inl m ↦
            rw (promote_with_code, e, o, m) (taken-Moves k (consumed-holds id st c k found e o m))
      ]
    ]
  ]

  pub pending-Moves :
      Moves w now st (after_refresh st (promote_if_code_available w.spots id now st))
  unfolding promote_if_code_available
  pending-Moves = elim (Bool-cases s.use_password) [
    | inl p ↦ rw (promote_if_code_available, found, waiting, there, p) promote_with_code-Moves
    | inr p ↦
        rw (promote_if_code_available, found, waiting, there, p)
          (promote-Moves w now id st c s found waiting there allowed (λ q. absurd cc))
  ]
