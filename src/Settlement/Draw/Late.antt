-- ===== src/Settlement/Draw/Late.antt =====
-- Who can win a draw.
use nim_hunt.Prelude.{
  ℕ, ◌≡◌, refl, ap, ◌∙◌, inl, inr, true, false, ◌==◌, some, List, [], ◌∷◌, map, arith, contains,
  All, Bool-cases, Option-cases, if◌then◌else◌, min, max, length, filter,
}
use nim_hunt.Outbox.Store.{ClaimRow, claim_success, claim_pending, claim_failed, claim_of}
use nim_hunt.Settlement.Draw.{
  PrizeSpot, Sample, ReadyReason, is_claim, is_winner, fail_pending_claims, get_successful_claims,
  mark_winners_pending, winner_ids, draw, settlement_ready_reason, settle_prizedraw_spot_if_ready,
  is_published,
}

abbrev pub ids_of : List ClaimRow → List ℕ
ids_of cs = map (λ c. c.claim_id) cs

claim_of-map :
    (id : ℕ) (f : ClaimRow → ClaimRow) (cs : List ClaimRow) (c : ClaimRow)
    → ((d : ClaimRow) → (f d).claim_id ≡ d.claim_id)
    → claim_of cs id ≡ some c
    → claim_of (map f cs) id ≡ some (f c)
unfolding claim_of
claim_of-map id f [] c keeps e = absurd cc
claim_of-map id f (d ∷ cs) c keeps e = elim (Bool-cases (d.claim_id == id)) [
  | inl q ↦
      let k : d ≡ c = ground arith in
      let same_id : ((f d).claim_id == id) ≡ true = rw (keeps d) q in rw same_id (ap some (ap f k))
  | inr q ↦
      let rest = claim_of-map id f cs c keeps (ground arith) in
      let other_id : ((f d).claim_id == id) ≡ false = rw (keeps d) q in rw other_id rest
]

not_contained :
    (id : ℕ) (xs ys : List ℕ)
    → All (λ x. contains x ys ≡ true) xs
    → contains id ys ≡ false
    → contains id xs ≡ false
not_contained id [] ys h e = refl
not_contained id (x ∷ xs) ys h e = elim (Bool-cases (x == id)) [
  | inl q ↦
      absurd (let k : x ≡ id = ground arith in let t : contains id ys ≡ true = rw (← k) (h.0) in cc)
  | inr q ↦ rw q (not_contained id xs ys h.1 e)
]

success_kept :
    (id : ℕ) (cs : List ClaimRow)
    → filter (is_claim id claim_success) (fail_pending_claims id cs)
      ≡ filter (is_claim id claim_success) cs
unfolding fail_pending_claims
success_kept id [] = refl
success_kept id (c ∷ cs) = ground (arith, success_kept id cs)

eligible_kept :
    (id : ℕ) (cs : List ClaimRow)
    → get_successful_claims id (fail_pending_claims id cs) ≡ get_successful_claims id cs
unfolding get_successful_claims
eligible_kept id cs = rw (success_kept id cs) refl

closing_keeps :
    (sid id : ℕ) (cs : List ClaimRow) (c : ClaimRow)
    → claim_of cs id ≡ some c
    → is_claim sid claim_success c ≡ true
    → claim_of (fail_pending_claims sid cs) id ≡ some c
unfolding fail_pending_claims
closing_keeps sid id cs c e success =
    let f : ClaimRow → ClaimRow =
      λ d. if is_claim sid claim_pending d then record d { status = claim_failed } else d in
    let same_row : f c ≡ c = ground arith in
    claim_of-map id f cs c (λ d. ground arith) e ∙ ap some same_row

marking_keeps :
    (sid id : ℕ) (ids : List ℕ) (cs : List ClaimRow) (c : ClaimRow)
    → claim_of cs id ≡ some c
    → contains c.claim_id ids ≡ false
    → claim_of (mark_winners_pending sid ids cs) id ≡ some c
unfolding mark_winners_pending
marking_keeps sid id ids cs c e lost =
    let f : ClaimRow → ClaimRow =
      λ d. if is_winner sid ids d then record d { status = claim_pending } else d in
    let same_row : f c ≡ c = ground arith in
    claim_of-map id f cs c (λ d. ground arith) e ∙ ap some same_row

module _ (sample : Sample)
    (drawn : (k : ℕ) (xs : List ClaimRow)
      → All (λ x. contains x (ids_of xs) ≡ true) (ids_of (sample k xs))) where
  draw-late :
      (spot : PrizeSpot) (prizes : ℕ) (reason : ReadyReason) (claims : List ClaimRow) (c : ClaimRow)
      → claim_of claims c.claim_id ≡ some c
      → is_claim spot.spot_id claim_success c ≡ true
      → contains c.claim_id (ids_of (get_successful_claims spot.spot_id claims)) ≡ false
      → claim_of (draw sample spot prizes reason claims).2 c.claim_id ≡ some c
  unfolding draw
  draw-late spot prizes reason claims c e success late =
      let closed = fail_pending_claims spot.spot_id claims in
      let ids = winner_ids sample spot prizes closed in
      let eligible = get_successful_claims spot.spot_id closed in
      let lost : contains c.claim_id ids ≡ false =
        not_contained c.claim_id ids (ids_of eligible)
          (drawn (min (max 1 prizes) (length eligible)) eligible)
          (rw (eligible_kept spot.spot_id claims) late) in
      elim (Bool-cases (length (filter (is_winner spot.spot_id ids) closed) == length ids)) [
        | inr failed_ ↦ rw (draw, failed_) e
        | inl all_marked ↦
            rw (draw, all_marked)
              (marking_keeps spot.spot_id c.claim_id ids closed c
                (closing_keeps spot.spot_id c.claim_id claims c e success) lost)
      ]

  -- However the draw picks from the entries that it is given, a successful entry that is not among the
  -- first 500 of its Prizedraw is no winner: its row stays as it is.
  pub settle_prizedraw_spot_if_ready-late :
      (spot : PrizeSpot) (now : ℕ) (claims : List ClaimRow) (c : ClaimRow)
      → claim_of claims c.claim_id ≡ some c
      → is_claim spot.spot_id claim_success c ≡ true
      → contains c.claim_id (ids_of (get_successful_claims spot.spot_id claims)) ≡ false
      → claim_of (settle_prizedraw_spot_if_ready sample spot now claims).2 c.claim_id ≡ some c
  unfolding settle_prizedraw_spot_if_ready
  settle_prizedraw_spot_if_ready-late spot now claims c e success late =
      elim (Bool-cases (is_published spot.status)) [
        | inr closed ↦ rw (settle_prizedraw_spot_if_ready, closed) e
        | inl open_ ↦ elim (Option-cases spot.prize_count) [
          | inl none_ ↦ rw (settle_prizedraw_spot_if_ready, open_, none_) e
          | inr (prizes, ep) ↦ elim (Option-cases (settlement_ready_reason spot now claims)) [
            | inl waits ↦ rw (settle_prizedraw_spot_if_ready, open_, ep, waits) e
            | inr (reason, er) ↦
                rw (settle_prizedraw_spot_if_ready, open_, ep, er)
                  (draw-late spot prizes reason claims c e success late)
          ]
        ]
      ]
