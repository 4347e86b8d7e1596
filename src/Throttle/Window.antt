-- ===== src/Throttle/Window.antt =====
-- The rows and reservations that the throttle counts, and `_combined_window_state`.
pub mod Counts
pub mod Query
use nim_hunt.Prelude.{
  ℕ, ◌+◌, Bool, Option, some, List, [], ◌∷◌, ◌++◌, map, ltb, if◌then◌else◌, or_else, contains,
  min_of, filter,
}
use nim_hunt.Throttle.Decision.{WindowState}

-- A row of the two payout queries.
pub record PayoutRow : Type 0 where
  pub trans_id : ℕ
  pub claim_id : Option ℕ
  pub amount : ℕ
  pub created_at : ℕ
  pub spot_id : Option ℕ

-- A cleaned reservation.
pub record Reservation : Type 0 where
  pub claim_id : ℕ
  pub amount : ℕ
  pub reserved_at : ℕ
  pub short_reserved_at : ℕ
  pub daily_reserved_at : ℕ
  pub spot_reserved_at : ℕ
  pub spot_id : ℕ

-- The variables of the two loops.
pub record Tally : Type 0 where
  pub payout_count : ℕ
  pub payout_amount : ℕ
  pub timestamps : List ℕ
  pub claim_ids : List ℕ

abbrev pub add_row : ℕ → PayoutRow → Tally → Tally
add_row now row t =
    let id = or_else row.claim_id 0 in
    record {
      payout_count = t.payout_count + 1;
      payout_amount = t.payout_amount + row.amount;
      timestamps = t.timestamps ++ or_else (some row.created_at) now ∷ [];
      claim_ids = if ltb 0 id then id ∷ t.claim_ids else t.claim_ids;
    }

unfoldable pub tally_rows : ℕ → List PayoutRow → Tally → Tally
tally_rows now [] t = t
tally_rows now (row ∷ rows) t = tally_rows now rows (add_row now row t)

-- A reservation whose claim has a row in the window is passed over.
abbrev pub add_reservation : Reservation → Tally → Tally
add_reservation r t = if contains r.claim_id t.claim_ids then t else record t {
  payout_count = t.payout_count + 1;
  payout_amount = t.payout_amount + r.amount;
  timestamps = t.timestamps ++ r.reserved_at ∷ [];
}

unfoldable pub tally_reservations : List Reservation → Tally → Tally
tally_reservations [] t = t
tally_reservations (r ∷ rs) t = tally_reservations rs (add_reservation r t)

abbrev pub no_tally : Tally
no_tally = record { payout_count = 0; payout_amount = 0; timestamps = []; claim_ids = [] }

unfoldable pub combined_window_state : ℕ → List PayoutRow → List Reservation → WindowState × List ℕ
combined_window_state now rows reservations =
    let t = tally_reservations reservations (tally_rows now rows no_tally) in
    (
      record {
        now = now;
        payout_count = t.payout_count;
        payout_amount = t.payout_amount;
        oldest_created_at = min_of t.timestamps;
      },
      t.claim_ids,
    )

-- `stamp > now - seconds`, on integers.
abbrev pub is_live : ℕ → ℕ → ℕ → Bool
is_live seconds now stamp = ltb now (stamp + seconds)

abbrev pub live_rows : ℕ → ℕ → List PayoutRow → List PayoutRow
live_rows seconds now = filter (λ row. is_live seconds now row.created_at)

abbrev pub restamp : (Reservation → ℕ) → Reservation → Reservation
restamp stamp r = record r { reserved_at = stamp r }

-- The comprehensions that copy the reservations of one window, `reserved_at` being that window's.
abbrev pub live_reservations : (Reservation → ℕ) → ℕ → ℕ → List Reservation → List Reservation
live_reservations stamp seconds now rs =
    map (restamp stamp) (filter (λ r. is_live seconds now (stamp r)) rs)

-- The state of one rolling window, and the claims that it has seen paid.
unfoldable pub window_view :
    (Reservation → ℕ) → ℕ → ℕ → List PayoutRow → List Reservation → WindowState × List ℕ
window_view stamp seconds now rows rs =
    combined_window_state now (live_rows seconds now rows) (live_reservations stamp seconds now rs)
