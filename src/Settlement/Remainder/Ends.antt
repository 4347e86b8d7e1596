-- ===== src/Settlement/Remainder/Ends.antt =====
-- A refund that is prepared, sent and confirmed is the last: the next look settles the Spot.
use nim_hunt.Prelude.{
  ℕ, zero, suc, ◌≡◌, refl, sym, ap, subst, ◌∙◌, ◌<◌, ◌≤◌, inl, inr, Bool, true, false, ◌&&◌, not,
  List, ◌∷◌, [], ltb, ◌==◌, arith, if◌then◌else◌, Option-cases, find, any, length, filter, take,
}
use nim_hunt.Tables.{type_code, creation_fee, remainder_refund, pending, confirmed}
use nim_hunt.Outbox.{Row}
use nim_hunt.Outbox.Store.{
  SpotStatus, draft, published, completed, cancelled, banned, claim_pending, ClaimRow, is_kind,
  is_in, is_at,
}
use nim_hunt.Outbox.Finalise.{confirmed_total, transactions_of, max_limit}
use nim_hunt.Settlement.Draw.{count_claims_by_status}
use nim_hunt.Settlement.Remainder.{
  FinalSpot, Prepared, Remainder, prepared, no_remainder, is_blocking, has_sender, remainder_amount,
  prepare_refund, settle_rest, settle_transactions, unpaid_claim_count, is_confirmed_payout_of,
  settle_over, is_over, settle_by_status, is_without_refund, settle_spot_remainder,
}
use nim_hunt.Settlement.Remainder.Conserves.{IsBacked, settle_spot_remainder-IsBacked}

pair-inverts {ℓ} :
    {Q : Type ℓ} {a : Remainder × FinalSpot} (b : Bool) (x y : Remainder × FinalSpot)
    → (if b then x else y) ≡ a
    → (b ≡ true → x ≡ a → Q)
    → (b ≡ false → y ≡ a → Q)
    → Q
pair-inverts true x y e f g = f refl e
pair-inverts false x y e f g = g refl e

if-takes :
    {a : Remainder × FinalSpot} (b : Bool) (x y : Remainder × FinalSpot)
    → b ≡ false
    → y ≡ a
    → (if b then x else y) ≡ a
if-takes true x y n e = absurd cc
if-takes false x y n e = e

-- The tests that let a refund be prepared, and what is written with it.
record IsDue (s : FinalSpot) (claims : List ClaimRow) (rows : List Row) (t : FinalSpot)
    : Type 0 where
  open_ : s.cancellation_started ≡ false
  resolved : ltb 0 (count_claims_by_status s.spot_id claim_pending claims) ≡ false
  paid : (not s.is_prizedraw && ltb 0 (unpaid_claim_count s.spot_id claims rows)) ≡ false
  ended : t ≡ record s { status = completed }

module _ (s t : FinalSpot) (p : Prepared) where
  prepared_completed :
      (u : FinalSpot) (ts : List Row) → prepare_refund u ts ≡ (prepared p, t) → t ≡ u
  unfolding prepare_refund
  prepared_completed u ts e = elim (Option-cases (find has_sender ts)) [
    | inl n ↦ absurd (let q = rw (prepare_refund, n) at e in ground arith)
    | inr (source, f) ↦ let q = rw (prepare_refund, f) at e in ground arith
  ]

  transactions_completed :
      (ts : List Row)
      → settle_transactions s ts ≡ (prepared p, t)
      → t ≡ record s { status = completed }
  unfolding settle_transactions settle_rest
  transactions_completed ts e =
      pair-inverts (any (λ t. is_blocking t && is_in pending t) ts) _ _ e
        (λ a q. absurd (ground arith))
        λ a q.
          pair-inverts (ltb (confirmed_total (is_kind creation_fee) ts) s.creation_fee) _ _ q
            (λ b r. absurd (ground arith))
            λ b r.
              pair-inverts (remainder_amount ts == 0) _ _ r (λ c v. absurd (ground arith))
                λ c v. prepared_completed (record s { status = completed }) ts v

  module _ (claims : List ClaimRow) (rows : List Row) (opened : s.cancellation_started ≡ false)
      (resolved_ : ltb 0 (count_claims_by_status s.spot_id claim_pending claims) ≡ false) where
    over-IsDue : settle_over s claims rows ≡ (prepared p, t) → IsDue s claims rows t
    unfolding settle_over
    over-IsDue e =
        pair-inverts (not s.is_prizedraw && ltb 0 (unpaid_claim_count s.spot_id claims rows)) _ _ e
          (λ a q. absurd (ground arith))
          λ a q. record {
            open_ = opened;
            resolved = resolved_;
            paid = a;
            ended = transactions_completed (transactions_of s.spot_id rows) q;
          }

    status-IsDue :
        (status : SpotStatus) (now : ℕ)
        → settle_by_status status s now claims rows ≡ (prepared p, t)
        → IsDue s claims rows t
    unfolding settle_by_status
    status-IsDue draft now e = absurd (ground arith)
    status-IsDue cancelled now e = absurd (ground arith)
    status-IsDue banned now e = absurd (ground arith)
    status-IsDue completed now e = over-IsDue e
    status-IsDue published now e =
        pair-inverts s.is_prizedraw _ _ e (λ a q. absurd (ground arith))
          λ a q.
            pair-inverts (is_over s now claims) _ _ q (λ b r. over-IsDue r)
              (λ b r. absurd (ground arith))

settle-IsDue :
    (s t : FinalSpot) (p : Prepared) (now : ℕ) (claims : List ClaimRow) (rows : List Row)
    → settle_spot_remainder s now claims rows ≡ (prepared p, t)
    → IsDue s claims rows t
unfolding settle_spot_remainder
settle-IsDue s t p now claims rows e =
    pair-inverts (is_without_refund s.status) _ _ e (λ a q. absurd (ground arith))
      λ a q.
        pair-inverts s.cancellation_started _ _ q (λ b r. absurd (ground arith))
          λ b r.
            pair-inverts (ltb 0 (count_claims_by_status s.spot_id claim_pending claims)) _ _ r
              (λ c v. absurd (ground arith))
              λ c v. status-IsDue s t p claims rows b c s.status now v

take-short : (n : ℕ) (xs : List Row) → length xs ≤ n → take n xs ≡ take (suc n) xs
take-short zero [] h = refl
take-short zero (x ∷ xs) h = absurd (omega arith)
take-short (suc n) [] h = refl
take-short (suc n) (x ∷ xs) h = ap (λ l. x ∷ l) (take-short n xs (omega arith))

-- A confirmed refund row among the transactions.
module _ (r : Row) (kind_ : r.kind ≡ remainder_refund) (status_ : r.status ≡ confirmed) where
  unpaid_same :
      (spot_id : ℕ) (claims : List ClaimRow) (rows : List Row)
      → unpaid_claim_count spot_id claims (r ∷ rows) ≡ unpaid_claim_count spot_id claims rows
  unfolding unpaid_claim_count
  unpaid_same spot_id [] rows = refl
  unpaid_same spot_id (c ∷ claims) rows =
      let rest = unpaid_same spot_id claims rows in
      let refund : (type_code r.kind == 20) ≡ false = ap (λ k. type_code k == 20) kind_ in
      let other : is_confirmed_payout_of c.claim_id r ≡ false = ground arith in
      rw other (ground arith)

  idle_same :
      (ts : List Row)
      → any (λ t. is_blocking t && is_in pending t) (r ∷ ts)
        ≡ any (λ t. is_blocking t && is_in pending t) ts
  idle_same ts = ground arith

  fee_same :
      (ts : List Row)
      → confirmed_total (is_kind creation_fee) (r ∷ ts) ≡ confirmed_total (is_kind creation_fee) ts
  unfolding confirmed_total
  fee_same ts = ground arith

  spent :
      (s : FinalSpot) (p : Prepared) (ts : List Row)
      → IsBacked s ts p
      → r.amount ≡ p.amount
      → remainder_amount (r ∷ ts) ≡ 0
  unfolding remainder_amount confirmed_total
  spent s p ts b e = ground (arith, b.balanced)

  below_limit :
      (spot_id : ℕ) (rows : List Row)
      → is_at r.spot_id spot_id ≡ true
      → length (filter (λ t. is_at t.spot_id spot_id) rows) < max_limit
      → transactions_of spot_id (r ∷ rows) ≡ r ∷ transactions_of spot_id rows
  unfolding transactions_of
  below_limit spot_id rows at few =
      rw at (
        ap (λ l. r ∷ l) (take-short 499 (filter (λ t. is_at t.spot_id spot_id) rows) (omega arith)))

  module _ (s : FinalSpot) (p : Prepared) (claims : List ClaimRow) (rows : List Row)
      (amount_ : r.amount ≡ p.amount) (at : is_at r.spot_id s.spot_id ≡ true)
      (few : length (filter (λ t. is_at t.spot_id s.spot_id) rows) < max_limit)
      (backed : IsBacked s (transactions_of s.spot_id rows) p) where
    settled_last :
        settle_transactions (record s { status = completed }) (transactions_of s.spot_id (r ∷ rows))
        ≡ (no_remainder, record s { status = completed; remainder_settled = true })
    unfolding settle_transactions settle_rest
    settled_last =
        let ts = transactions_of s.spot_id rows in
        let free = idle_same ts ∙ backed.none_pending in
        let paid : ltb (confirmed_total (is_kind creation_fee) (r ∷ ts)) s.creation_fee ≡ false =
          rw (fee_same ts) (ground (arith, backed.fee_paid)) in
        let nothing : (remainder_amount (r ∷ ts) == 0) ≡ true =
          rw (spent s p ts backed amount_) refl in
        rw (below_limit s.spot_id rows at few, settle_transactions, free, paid, nothing) refl

    settled_again :
        (t : FinalSpot) (later : ℕ)
        → IsDue s claims rows t
        → settle_spot_remainder t later claims (r ∷ rows)
          ≡ (no_remainder, record s { status = completed; remainder_settled = true })
    unfolding settle_spot_remainder settle_by_status settle_over
    settled_again t later due =
        let u : FinalSpot = record s { status = completed } in
        let paid : (not s.is_prizedraw && ltb 0 (unpaid_claim_count s.spot_id claims (r ∷ rows)))
            ≡ false =
          rw (unpaid_same s.spot_id claims rows) due.paid in
        subst
          (λ x.
            settle_spot_remainder x later claims (r ∷ rows)
            ≡ (no_remainder, record s { status = completed; remainder_settled = true }))
          (sym due.ended)
          (if-takes s.cancellation_started _ _ due.open_ (
            if-takes (ltb 0 (count_claims_by_status s.spot_id claim_pending claims)) _ _
              due.resolved
              (if-takes
                (not s.is_prizedraw && ltb 0 (unpaid_claim_count s.spot_id claims (r ∷ rows))) _ _
                paid settled_last)))

-- Once a prepared refund stands confirmed in its amount among fewer than 500 earlier transactions of
-- the Spot, and nothing else has changed, the next look finds no remainder and marks the Spot
-- settled: nothing is refunded twice.
pub settle_spot_remainder-ends :
    (s t : FinalSpot) (p : Prepared) (now later : ℕ) (claims : List ClaimRow) (rows : List Row)
    (r : Row)
    → settle_spot_remainder s now claims rows ≡ (prepared p, t)
    → r.kind ≡ remainder_refund
    → r.status ≡ confirmed
    → r.amount ≡ p.amount
    → is_at r.spot_id s.spot_id ≡ true
    → length (filter (λ x. is_at x.spot_id s.spot_id) rows) < max_limit
    → settle_spot_remainder t later claims (r ∷ rows)
      ≡ (no_remainder, record s { status = completed; remainder_settled = true })
settle_spot_remainder-ends s t p now later claims rows r e kind_ status_ amount_ at few =
    settled_again r kind_ status_ s p claims rows amount_ at few
      (settle_spot_remainder-IsBacked s now claims rows p
        (ap (λ (x : Remainder × FinalSpot). x.0) e))
      t later (settle-IsDue s t p now claims rows e)
