-- ===== src/Throttle/Window/Query.antt =====
-- The aggregate query of the diagnostics against the loops of the reservation call.
use nim_hunt.Prelude.{ℕ, ◌≡◌, refl, ◌&&◌, List, [], ◌∷◌, map, filter, arith, length, total}
use nim_hunt.Tables.{Trans}
use nim_hunt.Throttle.Decision.{Limits}
use nim_hunt.Throttle.Window.{combined_window_state, is_live}
use nim_hunt.Throttle.Window.Counts.{combined_window_state-counts}
use nim_hunt.Throttle.Ledger.{Store, is_payout, payout_row, rows_within, payout_window_state}

length-map_rows : (ts : List Trans) → length (map payout_row ts) ≡ length ts
length-map_rows [] = refl
length-map_rows (t ∷ ts) = omega (arith, length-map_rows ts)

total-map_rows :
    (ts : List Trans) → total (λ row. row.amount) (map payout_row ts) ≡ total (λ t. t.amount) ts
total-map_rows [] = refl
total-map_rows (t ∷ ts) = omega (arith, total-map_rows ts)

-- The aggregate query counts and adds up what the loops of the reservation call do when no
-- reservation stands.
pub payout_window_state-counts :
    (lim : Limits) (db : Store) (now : ℕ)
    → let query = payout_window_state lim db now in
      let loops = (combined_window_state now (rows_within lim.window_seconds now db.trans) []).0 in
      (query.payout_count ≡ loops.payout_count) × (query.payout_amount ≡ loops.payout_amount)
unfolding payout_window_state rows_within
payout_window_state-counts lim db now =
    let rows = filter (λ t. is_payout t && is_live lim.window_seconds now t.created_at) db.trans in
    let c = combined_window_state-counts now (map payout_row rows) [] in
    (omega (arith, c.0, length-map_rows rows), omega (arith, c.1, total-map_rows rows))
