-- ===== src/Throttle/Exposure.antt =====
-- An independent measure of what the throttle bounds: the payouts of a window, made or reserved. A
-- reservation counts while its stamp is in the window and no payout of its claim stands in TRANS.
use nim_hunt.Prelude.{
  ◌⊎◌, ℕ, ◌+◌, ◌≤◌, ◌≡◌, refl, true, false, ◌&&◌, not, List, [], ◌∷◌, arith, if◌then◌else◌, any,
  total, Bool-cases, inl, inr, length-eq-total, total_mono,
}
use nim_hunt.Tables.{Trans}
use nim_hunt.Throttle.Decision.{Limits}
use nim_hunt.Throttle.Window.{
  PayoutRow, Reservation, is_live, live_rows, live_reservations, window_view,
}
use nim_hunt.Throttle.Window.Counts.{has_row, uncovered, combined_window_state-counts}
use nim_hunt.Throttle.Ledger.{
  Store, is_payout, pays, rows_within, recent_payout_rows, longest_window,
}

abbrev pub made : (ℕ → ℕ) → ℕ → ℕ → Trans → ℕ
made f seconds now t = if is_payout t && is_live seconds now t.created_at then f t.amount else 0

abbrev pub reserved : (ℕ → ℕ) → (Reservation → ℕ) → ℕ → ℕ → List Trans → Reservation → ℕ
reserved f stamp seconds now trans r =
    if is_live seconds now (stamp r) && not (any (pays r.claim_id) trans) then f r.amount else 0

-- `f` is 1 to count the payouts, and the amount itself to add them up.
abbrev pub exposure : (ℕ → ℕ) → (Reservation → ℕ) → ℕ → ℕ → List Trans → List Reservation → ℕ
exposure f stamp seconds now trans rs =
    total (made f seconds now) trans + total (reserved f stamp seconds now trans) rs

module _ (seconds longest now : ℕ) (fits : seconds ≤ longest) where
  total-live_rows :
      (f : ℕ → ℕ) (trans : List Trans)
      → total (λ row. f row.amount) (live_rows seconds now (rows_within longest now trans))
        ≡ total (made f seconds now) trans
  unfolding rows_within
  total-live_rows f [] = refl
  total-live_rows f (t ∷ ts) = ground (arith, total-live_rows f ts)

  -- A row of the window is a payout of its claim.
  has_row-pays :
      (c : ℕ) (trans : List Trans)
      → has_row (live_rows seconds now (rows_within longest now trans)) c ≡ true
      → any (pays c) trans ≡ true
  unfolding rows_within pays
  has_row-pays c [] h = cc
  has_row-pays c (t ∷ ts) h = ground (arith, has_row-pays c ts)

  reserved-le-uncovered :
      (f : ℕ → ℕ) (stamp : Reservation → ℕ) (trans : List Trans) (rs : List Reservation)
      → total (reserved f stamp seconds now trans) rs
        ≤ total
            (uncovered (live_rows seconds now (rows_within longest now trans)) (λ r. f r.amount))
            (live_reservations stamp seconds now rs)
  reserved-le-uncovered f stamp trans [] = omega arith
  reserved-le-uncovered f stamp trans (r ∷ rs) =
      ground (arith, reserved-le-uncovered f stamp trans rs, has_row-pays r.claim_id trans)

module _ (stamp : Reservation → ℕ) (seconds now : ℕ) (lim : Limits) (db : Store)
    (rs : List Reservation) (fits : seconds ≤ longest_window lim) where
  abbrev view_rows : List PayoutRow
  view_rows = live_rows seconds now (recent_payout_rows lim db now)

  -- A window that the throttle evaluates counts every payout made or reserved in it.
  pub exposure-le-count :
      exposure (λ a. 1) stamp seconds now db.trans rs
      ≤ (window_view stamp seconds now (recent_payout_rows lim db now) rs).0.payout_count
  unfolding window_view recent_payout_rows
  exposure-le-count = omega (
    arith,
    (combined_window_state-counts now view_rows (live_reservations stamp seconds now rs)).0,
    length-eq-total view_rows,
    total-live_rows seconds (longest_window lim) now fits (λ a. 1) db.trans,
    reserved-le-uncovered seconds (longest_window lim) now fits (λ a. 1) stamp db.trans rs,
  )

  pub exposure-le-amount :
      exposure (λ a. a) stamp seconds now db.trans rs
      ≤ (window_view stamp seconds now (recent_payout_rows lim db now) rs).0.payout_amount
  unfolding window_view recent_payout_rows
  exposure-le-amount = omega (
    arith,
    (combined_window_state-counts now view_rows (live_reservations stamp seconds now rs)).1,
    total-live_rows seconds (longest_window lim) now fits (λ a. a) db.trans,
    reserved-le-uncovered seconds (longest_window lim) now fits (λ a. a) stamp db.trans rs,
  )

-- As time passes, payouts and reservations only leave a window.
pub exposure_mono :
    (f : ℕ → ℕ) (stamp : Reservation → ℕ) (seconds now later : ℕ) (trans : List Trans)
    (rs : List Reservation)
    → now ≤ later
    → exposure f stamp seconds later trans rs ≤ exposure f stamp seconds now trans rs
exposure_mono f stamp seconds now later trans rs h = omega (
  arith,
  total_mono (made f seconds later) (made f seconds now) (λ t. ground arith) trans,
  total_mono (reserved f stamp seconds later trans) (reserved f stamp seconds now trans)
      (λ r. ground arith) rs,
)

pub reserved-le :
    (f : ℕ → ℕ) (stamp : Reservation → ℕ) (seconds now : ℕ) (trans : List Trans) (r : Reservation)
    → reserved f stamp seconds now trans r ≤ f r.amount
reserved-le f stamp seconds now trans r =
    elim (Bool-cases (is_live seconds now (stamp r) && not (any (pays r.claim_id) trans))) [
      | inl e ↦ rw e (omega arith)
      | inr e ↦ rw e (omega arith)
    ]

pub reserved_zero_off :
    (f : ℕ → ℕ) (stamp : Reservation → ℕ) (seconds now : ℕ) (trans : List Trans) (r : Reservation)
    → (reserved f stamp seconds now trans r ≡ 0)
      ⊎ ((is_live seconds now (stamp r) ≡ true) × (any (pays r.claim_id) trans ≡ false))
reserved_zero_off f stamp seconds now trans r = ground arith
