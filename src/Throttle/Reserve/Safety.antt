-- ===== src/Throttle/Reserve/Safety.antt =====
-- A reservation never takes a window beyond its limits.
use nim_hunt.Prelude.{ℕ, ◌+◌, ◌≤◌, ◌≡◌, true, List, [], ◌∷◌, ◌++◌, arith, All, total-append}
use nim_hunt.Tables.{Trans}
use nim_hunt.Throttle.Decision.{Limits}
use nim_hunt.Throttle.Decision.Bounds.{throttle_decision-allow}
use nim_hunt.Throttle.Window.{Reservation}
use nim_hunt.Throttle.Ledger.{Store}
use nim_hunt.Throttle.Exposure.{
  reserved, exposure, reserved-le, exposure-le-count, exposure-le-amount,
}
use nim_hunt.Throttle.Reserve.{
  Request, read_request, short_view, daily_view, others, renew, renew_first, new_reservation,
  reserve_request,
}
use nim_hunt.Throttle.Reserve.Cases.{
  Change, unchanged, added, renewed, throttle, reserve_request-Change,
}
use nim_hunt.Throttle.Reserve.Ledger.{IsUnique, total-renew_first}

abbrev pub short : Reservation → ℕ
short r = r.short_reserved_at

abbrev pub daily : Reservation → ℕ
daily r = r.daily_reserved_at

-- What the throttle promises of a moment: in both windows, the payouts that were made and those
-- that are reserved stay within the limits together.
pub record IsBounded (lim : Limits) (now : ℕ) (trans : List Trans) (rs : List Reservation)
    : Type 0 where
  pub short_count : exposure (λ a. 1) short lim.window_seconds now trans rs ≤ lim.max_payout_count
  pub short_amount : exposure (λ a. a) short lim.window_seconds now trans rs ≤ lim.max_payout_luna
  pub daily_count :
      exposure (λ a. 1) daily lim.daily_window_seconds now trans rs ≤ lim.daily_max_payout_count
  pub daily_amount :
      exposure (λ a. a) daily lim.daily_window_seconds now trans rs ≤ lim.daily_max_payout_luna

-- One window, measured one way. The reservation that is added or renewed weighs at most `weight`.
module _ (f : ℕ → ℕ) (stamp : Reservation → ℕ) (seconds bound weight now : ℕ) (trans : List Trans)
    (rs : List Reservation) where
  exposure-added :
      (new : Reservation)
      → f new.amount ≤ weight
      → exposure f stamp seconds now trans rs + weight ≤ bound
      → exposure f stamp seconds now trans (rs ++ new ∷ []) ≤ bound
  exposure-added new w room =
      ground (arith, total-append (reserved f stamp seconds now trans) rs (new ∷ []))

  exposure-renewed :
      (lim : Limits) (c : ℕ)
      → IsUnique rs
      → All (λ r. r.claim_id ≡ c → f r.amount ≤ weight) rs
      → exposure f stamp seconds now trans (others c rs) + weight ≤ bound
      → exposure f stamp seconds now trans (renew_first lim now c rs) ≤ bound
  unfolding renew
  exposure-renewed lim c u w room = omega (
    arith,
    total-renew_first (reserved f stamp seconds now trans) weight lim now c rs (weighs rs w) u,
  )
    where
      weighs :
          (l : List Reservation)
          → All (λ r. r.claim_id ≡ c → f r.amount ≤ weight) l
          → All
              (λ r. r.claim_id ≡ c → reserved f stamp seconds now trans (renew lim now r) ≤ weight)
              l
      weighs [] h = tt
      weighs (r ∷ l) h = (
        (λ e. omega (arith, reserved-le f stamp seconds now trans (renew lim now r), h.0 e)),
        weighs l h.1,
      )

-- The limits of one window hold after the call: `room` is what the throttle's answer gives for the
-- reservations that it counted.
module _ (f : ℕ → ℕ) (stamp : Reservation → ℕ) (seconds bound : ℕ) (lim : Limits) (db : Store)
    (q : Request) (unique : IsUnique q.reservations)
    (weighs : All (λ r. r.claim_id ≡ q.claim_id → f r.amount ≤ f q.amount) q.reservations)
    (room : (rs : List Reservation)
      → (throttle lim q rs).allow ≡ true
      → exposure f stamp seconds q.now db.trans rs + f q.amount ≤ bound) where
  pub window_bounded :
      exposure f stamp seconds q.now db.trans q.reservations ≤ bound
      → exposure f stamp seconds q.now db.trans (reserve_request lim db q).reservations ≤ bound
  unfolding new_reservation
  window_bounded before = by_change (reserve_request-Change lim db q)
    where
      by_change :
          {rs : List Reservation}
          → Change lim q rs
          → exposure f stamp seconds q.now db.trans rs ≤ bound
      by_change (unchanged e) = rw e before
      by_change (added e free allowed) = rw e (
          exposure-added f stamp seconds bound (f q.amount) q.now db.trans q.reservations
            (new_reservation q) (omega arith) (room q.reservations allowed))
      by_change (renewed e allowed) = rw e (
          exposure-renewed f stamp seconds bound (f q.amount) q.now db.trans q.reservations lim
            q.claim_id unique weighs (room (others q.claim_id q.reservations) allowed))

module _ (lim : Limits) (db : Store) (now claim_id amount : ℕ) (rs : List Reservation) where
  abbrev request : Request
  request = read_request lim db now claim_id amount

  -- What the throttle has counted when it lets a payout through.
  pub throttle_room :
      (throttle lim request rs).allow ≡ true
      → (exposure (λ a. 1) short lim.window_seconds now db.trans rs + 1 ≤ lim.max_payout_count)
        × (exposure (λ a. a) short lim.window_seconds now db.trans rs + amount
            ≤ lim.max_payout_luna)
        × (exposure (λ a. 1) daily lim.daily_window_seconds now db.trans rs + 1
            ≤ lim.daily_max_payout_count)
        × (exposure (λ a. a) daily lim.daily_window_seconds now db.trans rs + amount
            ≤ lim.daily_max_payout_luna)
  unfolding read_request short_view daily_view
  throttle_room allowed =
      let limits =
        (throttle_decision-allow lim (short_view lim request rs).0 (daily_view lim request rs).0
            amount).0
          allowed in
      let sc = exposure-le-count short lim.window_seconds now lim db rs (omega arith) in
      let sa = exposure-le-amount short lim.window_seconds now lim db rs (omega arith) in
      let dc = exposure-le-count daily lim.daily_window_seconds now lim db rs (omega arith) in
      let da = exposure-le-amount daily lim.daily_window_seconds now lim db rs (omega arith) in
      (omega arith, omega arith, omega arith, omega arith)
