-- ===== src/Throttle/Decision/Bounds.antt =====
-- Exactly when each decision of the throttle lets a payout through.
use nim_hunt.Prelude.{ℕ, ◌+◌, ◌≤◌, ◌<◌, ◌≡◌, ◌↔◌, ◌⊎◌, ◌≢◌, true, false, Option, none, some, arith}
use nim_hunt.Tables.{Spot}
use nim_hunt.Throttle.Decision.{
  Limits, WindowState, throttle_decision, spot_window_decision, spot_lifetime_decision,
  lifetime_max_count, lifetime_max_amount,
}

-- One more payout of an amount fits a count bound and an amount bound.
abbrev pub HasRoom : ℕ → ℕ → WindowState → ℕ → Type 0
HasRoom max_count max_amount state amount =
    (state.payout_count < max_count) × (state.payout_amount + amount ≤ max_amount)

-- The throttle lets a payout through exactly if it is within the individual limit and both the
-- daily and the short window have room for it, in count and in amount.
pub throttle_decision-allow :
    (lim : Limits) (state today : WindowState) (amount : ℕ)
    → ((throttle_decision lim state amount (some today)).allow ≡ true) ↔ (
        (amount ≤ lim.max_automatic_payout_luna)
        × HasRoom lim.daily_max_payout_count lim.daily_max_payout_luna today amount
        × HasRoom lim.max_payout_count lim.max_payout_luna state amount)
unfolding throttle_decision
throttle_decision-allow lim state today amount = ground arith

-- A refusal of the throttle either is for an amount over the individual limit, and then asks for an
-- operator and has no time to retry, or asks for no operator and has a time to retry.
pub throttle_decision_refusals :
    (lim : Limits) (state : WindowState) (today : Option WindowState) (amount : ℕ)
    → (throttle_decision lim state amount today).allow ≡ false
    → let d = throttle_decision lim state amount today in
      ((d.manual_review ≡ true) × (d.retry_at ≡ none) × (lim.max_automatic_payout_luna < amount))
      ⊎ ((d.manual_review ≡ false) × (d.retry_at ≢ none))
unfolding throttle_decision
throttle_decision_refusals lim state none amount h = ground arith
throttle_decision_refusals lim state (some today) amount h = ground arith

-- The rolling window of a Spot lets a payout through exactly if it has room.
pub spot_window_decision-allow :
    (lim : Limits) (state : WindowState) (amount spot_id : ℕ)
    → ((spot_window_decision lim state amount spot_id).allow ≡ true)
      ↔ HasRoom lim.spot_max_payout_count lim.spot_max_payout_luna state amount
unfolding spot_window_decision
spot_window_decision-allow lim state amount spot_id = ground arith

-- The lifetime rule of a Spot lets a payout through exactly if what the Spot has paid and reserved
-- leaves room for it in the automatic share of its capacity and of its reward pool.
pub spot_lifetime_decision-allow :
    (lim : Limits) (state : WindowState) (amount : ℕ) (s : Spot)
    → ((spot_lifetime_decision lim state amount s).allow ≡ true)
      ↔ HasRoom (lifetime_max_count lim s) (lifetime_max_amount lim s) state amount
unfolding spot_lifetime_decision
spot_lifetime_decision-allow lim state amount s = ground arith
