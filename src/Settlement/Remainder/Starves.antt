-- ===== src/Settlement/Remainder/Starves.antt =====
-- A Spot whose creation fee lies beyond its newest 500 transactions.
use nim_hunt.Prelude.{
  ℕ, ◌≡◌, refl, ◌<◌, Bool, true, false, ◌&&◌, not, List, [], ◌∷◌, ltb, arith, if-holds, any,
}
use nim_hunt.Tables.{creation_fee, pending, confirmed}
use nim_hunt.Outbox.{Row}
use nim_hunt.Outbox.Store.{
  SpotStatus, draft, published, completed, cancelled, banned, claim_pending, ClaimRow, is_kind,
  is_in,
}
use nim_hunt.Outbox.Finalise.{confirmed_total, transactions_of}
use nim_hunt.Settlement.Draw.{count_claims_by_status}
use nim_hunt.Settlement.Remainder.{
  FinalSpot, Remainder, prepared, is_blocking, settle_transactions, unpaid_claim_count, settle_over,
  is_over, settle_by_status, is_without_refund, settle_spot_remainder,
}

no_fee :
    (ts : List Row)
    → any (λ t. is_kind creation_fee t && is_in confirmed t) ts ≡ false
    → confirmed_total (is_kind creation_fee) ts ≡ 0
unfolding confirmed_total
no_fee [] h = refl
no_fee (t ∷ ts) h = ground (arith, no_fee ts)

unfoldable pub is_prepared : Remainder → Bool
is_prepared (prepared p) = true
is_prepared _ = false

-- Nothing is refunded, and the Spot is as it was.
abbrev IsIdle : FinalSpot → Remainder × FinalSpot → Type 0
IsIdle s r = (is_prepared r.0 ≡ false) × (r.1 ≡ s)

module _ (s : FinalSpot) (owed : 0 < s.creation_fee) where
  transactions-IsIdle :
      (ts : List Row)
      → any (λ t. is_kind creation_fee t && is_in confirmed t) ts ≡ false
      → IsIdle s (settle_transactions s ts)
  unfolding settle_transactions is_prepared
  transactions-IsIdle ts h =
      let short : ltb (confirmed_total (is_kind creation_fee) ts) s.creation_fee ≡ true =
        rw (no_fee ts h) (ground arith) in
      if-holds (λ r. IsIdle s r) (any (λ t. is_blocking t && is_in pending t) ts) _ _
        (λ b. (refl, refl))
        (λ b.
          if-holds (λ r. IsIdle s r)
            (ltb (confirmed_total (is_kind creation_fee) ts) s.creation_fee) _ _ (λ c. (refl, refl))
            (λ c. absurd cc))

  module _ (now : ℕ) (claims : List ClaimRow) (rows : List Row)
      (far : any (λ t. is_kind creation_fee t && is_in confirmed t) (transactions_of s.spot_id rows)
        ≡ false) where
    over-IsIdle : IsIdle s (settle_over s claims rows)
    unfolding settle_over is_prepared
    over-IsIdle =
        if-holds (λ r. IsIdle s r)
          (not s.is_prizedraw && ltb 0 (unpaid_claim_count s.spot_id claims rows)) _ _
          (λ b. (refl, refl)) (λ b. transactions-IsIdle (transactions_of s.spot_id rows) far)

    status-IsIdle : (status : SpotStatus) → IsIdle s (settle_by_status status s now claims rows)
    unfolding settle_by_status is_prepared
    status-IsIdle draft = (refl, refl)
    status-IsIdle cancelled = (refl, refl)
    status-IsIdle banned = (refl, refl)
    status-IsIdle completed = over-IsIdle
    status-IsIdle published =
        if-holds (λ r. IsIdle s r) s.is_prizedraw _ _ (λ b. (refl, refl))
          (λ b.
            if-holds (λ r. IsIdle s r) (is_over s now claims) _ _ (λ c. over-IsIdle)
              (λ c. (refl, refl)))

-- A Spot with a creation fee, none of whose newest 500 transactions is a confirmed creation fee, is
-- neither completed nor settled, and no refund is prepared, however much of its deposits is left.
pub settle_spot_remainder-starves :
    (s : FinalSpot) (now : ℕ) (claims : List ClaimRow) (rows : List Row)
    → 0 < s.creation_fee
    → any (λ t. is_kind creation_fee t && is_in confirmed t) (transactions_of s.spot_id rows)
      ≡ false
    → (is_prepared (settle_spot_remainder s now claims rows).0 ≡ false)
      × ((settle_spot_remainder s now claims rows).1 ≡ s)
unfolding settle_spot_remainder is_prepared
settle_spot_remainder-starves s now claims rows owed far =
    if-holds (λ r. IsIdle s r) (is_without_refund s.status) _ _ (λ a. (refl, refl))
      λ a.
        if-holds (λ r. IsIdle s r) s.cancellation_started _ _ (λ b. (refl, refl))
          λ b.
            if-holds (λ r. IsIdle s r)
              (ltb 0 (count_claims_by_status s.spot_id claim_pending claims)) _ _
              (λ c. (refl, refl)) λ c. status-IsIdle s owed now claims rows far s.status
