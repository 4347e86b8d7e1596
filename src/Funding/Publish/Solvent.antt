-- ===== src/Funding/Publish/Solvent.antt =====
-- A standard Spot that may be published can pay every claim.
use nim_hunt.Prelude.{
  ℕ, ◌≡◌, refl, subst, ◌+◌, ◌*◌, ◌/◌, ◌<◌, ◌≤◌, Bool, true, false, ◌&&◌, none, some, List, max, ltb,
  leb, ◌==◌, arith,
}
use nim_hunt.Funding.{FundingRow}
use nim_hunt.Settlement.Prizes.{standard_claim_payout_amount}
use nim_hunt.Funding.Publish.{
  PublishRules, DraftSpot, meets_minimum_payout, confirmed_deposit_total, can_publish_spot,
}

share :
    (total parts least : ℕ)
    → 0 < parts
    → least * parts ≤ total
    → (least ≤ total / parts) × (parts * (total / parts) ≤ total)
share total parts least h k = grind arith

rewarded :
    (parts total : ℕ)
    → 0 < parts
    → (P : ℕ → Type 0) → P (total / parts)
    → P (standard_claim_payout_amount (some parts) total)
unfolding standard_claim_payout_amount
rewarded parts total h P p = let n : (parts == 0) ≡ false = ground arith in rw (n, n) p

both : (a b : Bool) → (a && b) ≡ true → (a ≡ true) × (b ≡ true)
both true b h = (refl, h)
both false b h = absurd cc

meets_standard :
    (rules : PublishRules) (s : DraftSpot)
    → s.prize_count ≡ none
    → meets_minimum_payout rules s ≡ true
    → (0 < s.max_total_claims) × (rules.min_claim_payout * s.max_total_claims ≤ s.total_value)
unfolding meets_minimum_payout
meets_standard rules s standard h =
    let q : (ltb 0 s.max_total_claims
          && leb (rules.min_claim_payout * max 1 s.max_total_claims) s.total_value)
        ≡ true =
      rw (meets_minimum_payout, standard) at h in
    let (positive, enough) =
      both (ltb 0 s.max_total_claims)
        (leb (rules.min_claim_payout * max 1 s.max_total_claims) s.total_value) q in
    let some_ : 0 < s.max_total_claims = ground arith in
    let same_ : max 1 s.max_total_claims ≡ s.max_total_claims = ground arith in
    let covered : rules.min_claim_payout * max 1 s.max_total_claims ≤ s.total_value =
      ground arith in
    (some_, subst (λ n. rules.min_claim_payout * n ≤ s.total_value) same_ covered)

-- A standard Spot that may be published has confirmed deposits for its creation fee and for the
-- reward of as many claims as it allows, and that reward is at least the minimum.
pub can_publish_spot-solvent :
    (rules : PublishRules) (s : DraftSpot) (now : ℕ) (rows : List FundingRow)
    → s.prize_count ≡ none
    → can_publish_spot rules s now rows ≡ true
    → (rules.min_claim_payout
        ≤ standard_claim_payout_amount (some s.max_total_claims) s.total_value)
      × (s.max_total_claims * standard_claim_payout_amount (some s.max_total_claims) s.total_value
            + s.creation_fee
          ≤ confirmed_deposit_total s.spot_id rows)
unfolding can_publish_spot
can_publish_spot-solvent rules s now rows standard h =
    let least : meets_minimum_payout rules s ≡ true = ground arith in
    let (some_, enough) = meets_standard rules s standard least in
    let (a, b) = share s.total_value s.max_total_claims rules.min_claim_payout some_ enough in
    let deposited : s.total_value + s.creation_fee ≤ confirmed_deposit_total s.spot_id rows =
      ground arith in
    rewarded s.max_total_claims s.total_value some_
      (λ r.
        (rules.min_claim_payout ≤ r)
        × (s.max_total_claims * r + s.creation_fee ≤ confirmed_deposit_total s.spot_id rows))
      (a, omega arith)
