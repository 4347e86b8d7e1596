-- ===== src/Settlement/Remainder/Conserves.antt =====
-- What a prepared refund amounts to.
use nim_hunt.Prelude.{
  ℕ, ◌≡◌, refl, ◌+◌, ◌<◌, ◌≤◌, inl, inr, Bool, true, false, ◌&&◌, not, List, ltb, ◌==◌, arith,
  if◌then◌else◌, Bool-cases, Option-cases, find, any,
}
use nim_hunt.Tables.{fill_spot, claim, creation_fee, remainder_refund, pending}
use nim_hunt.Outbox.{Row}
use nim_hunt.Outbox.Store.{
  SpotStatus, draft, published, completed, cancelled, banned, claim_pending, ClaimRow, is_kind,
  is_in,
}
use nim_hunt.Outbox.Finalise.{confirmed_total, transactions_of}
use nim_hunt.Settlement.Draw.{count_claims_by_status}
use nim_hunt.Settlement.Remainder.{
  FinalSpot, Prepared, Remainder, prepared, is_blocking, has_sender, remainder_amount,
  prepare_refund, settle_rest, settle_transactions, unpaid_claim_count, settle_over, is_over,
  settle_by_status, is_without_refund, settle_spot_remainder,
}

-- What holds of the Spot's transactions when a refund is prepared.
pub record IsBacked (s : FinalSpot) (ts : List Row) (p : Prepared) : Type 0 where
  pub positive : 0 < p.amount
  pub balanced :
      p.amount
        + confirmed_total (is_kind claim) ts
        + confirmed_total (is_kind creation_fee) ts
        + confirmed_total (is_kind remainder_refund) ts
      ≡ confirmed_total (is_kind fill_spot) ts
  pub fee_paid : s.creation_fee ≤ confirmed_total (is_kind creation_fee) ts
  pub none_pending : any (λ t. is_blocking t && is_in pending t) ts ≡ false

-- The result of a conditional comes from one of its branches.
pub if-inverts {ℓ} :
    {Q : Type ℓ} {a : Remainder} (b : Bool) (x y : Remainder × FinalSpot)
    → (if b then x else y).0 ≡ a
    → (b ≡ true → x.0 ≡ a → Q)
    → (b ≡ false → y.0 ≡ a → Q)
    → Q
if-inverts true x y e f g = f refl e
if-inverts false x y e f g = g refl e

amount_prepared :
    (s : FinalSpot) (p : Prepared) (ts : List Row)
    → (prepare_refund s ts).0 ≡ prepared p
    → p.amount ≡ remainder_amount ts
unfolding prepare_refund
amount_prepared s p ts e = elim (Option-cases (find has_sender ts)) [
  | inl n ↦ absurd (let q = rw (prepare_refund, n) at e in cc)
  | inr (source, f) ↦ let q = rw (prepare_refund, f) at e in ground arith
]

module _ (s : FinalSpot) (p : Prepared) where
  rest-IsBacked :
      (ts : List Row)
      → any (λ t. is_blocking t && is_in pending t) ts ≡ false
      → s.creation_fee ≤ confirmed_total (is_kind creation_fee) ts
      → (settle_rest s ts).0 ≡ prepared p
      → IsBacked s ts p
  unfolding settle_rest remainder_amount
  rest-IsBacked ts idle fee e = elim (Bool-cases (remainder_amount ts == 0)) [
    | inl z ↦ absurd (let q = rw (settle_rest, z) at e in cc)
    | inr left ↦
        let q = rw (settle_rest, left) at e in
        let a = amount_prepared (record s { status = completed }) p ts q in
        record {
          positive = ground arith;
          balanced = ground arith;
          fee_paid = fee;
          none_pending = idle;
        }
  ]

  transactions-IsBacked :
      (ts : List Row) → (settle_transactions s ts).0 ≡ prepared p → IsBacked s ts p
  unfolding settle_transactions
  transactions-IsBacked ts e = elim (Bool-cases (any (λ t. is_blocking t && is_in pending t) ts)) [
    | inl b ↦ absurd (let q = rw (settle_transactions, b) at e in cc)
    | inr idle ↦
        elim (Bool-cases (ltb (confirmed_total (is_kind creation_fee) ts) s.creation_fee)) [
          | inl owed ↦ absurd (let q = rw (settle_transactions, idle, owed) at e in cc)
          | inr paid ↦
              rest-IsBacked ts idle (ground arith) (rw (settle_transactions, idle, paid) at e)
        ]
  ]

  over-IsBacked :
      (claims : List ClaimRow) (rows : List Row)
      → (settle_over s claims rows).0 ≡ prepared p
      → IsBacked s (transactions_of s.spot_id rows) p
  unfolding settle_over
  over-IsBacked claims rows e =
      elim (Bool-cases (not s.is_prizedraw && ltb 0 (unpaid_claim_count s.spot_id claims rows))) [
        | inl b ↦ absurd (let q = rw (settle_over, b) at e in cc)
        | inr b ↦ transactions-IsBacked (transactions_of s.spot_id rows) (rw (settle_over, b) at e)
      ]

  status-IsBacked :
      (status : SpotStatus) (now : ℕ) (claims : List ClaimRow) (rows : List Row)
      → (settle_by_status status s now claims rows).0 ≡ prepared p
      → IsBacked s (transactions_of s.spot_id rows) p
  unfolding settle_by_status
  status-IsBacked draft now claims rows e = absurd cc
  status-IsBacked cancelled now claims rows e = absurd cc
  status-IsBacked banned now claims rows e = absurd cc
  status-IsBacked completed now claims rows e = over-IsBacked claims rows e
  status-IsBacked published now claims rows e =
      if-inverts s.is_prizedraw _ _ e (λ a q. absurd cc)
        (λ a q.
          if-inverts (is_over s now claims) _ _ q (λ b r. over-IsBacked claims rows r)
            (λ b r. absurd cc))

-- A refund that is prepared is of a positive amount which, with the confirmed payouts, creation fees
-- and remainder refunds among the Spot's newest 500 transactions, adds up to the confirmed deposits
-- among them; the creation fee is paid, and none of these transactions is pending.
pub settle_spot_remainder-IsBacked :
    (s : FinalSpot) (now : ℕ) (claims : List ClaimRow) (rows : List Row) (p : Prepared)
    → (settle_spot_remainder s now claims rows).0 ≡ prepared p
    → IsBacked s (transactions_of s.spot_id rows) p
unfolding settle_spot_remainder
settle_spot_remainder-IsBacked s now claims rows p e =
    if-inverts (is_without_refund s.status) _ _ e (λ a q. absurd cc)
      λ a q.
        if-inverts s.cancellation_started _ _ q (λ b r. absurd cc)
          λ b r.
            if-inverts (ltb 0 (count_claims_by_status s.spot_id claim_pending claims)) _ _ r
              (λ c t. absurd cc) λ c t. status-IsBacked s p s.status now claims rows t
