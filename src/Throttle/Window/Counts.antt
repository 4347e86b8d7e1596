-- ===== src/Throttle/Window/Counts.antt =====
-- What the two loops of `_combined_window_state` add up to.
use nim_hunt.Prelude.{
  ℕ, ◌+◌, ◌≡◌, refl, ◌∙◌, Bool, ◌&&◌, ◌||◌, List, [], ◌∷◌, arith, ltb, ◌==◌, if◌then◌else◌, or_else,
  contains, any, total, length,
}
use nim_hunt.Throttle.Window.{
  PayoutRow, Reservation, Tally, add_row, add_reservation, tally_rows, tally_reservations, no_tally,
  combined_window_state,
}

-- A row of a given claim.
abbrev pub row_of : ℕ → PayoutRow → Bool
row_of claim_id row = ltb 0 (or_else row.claim_id 0) && (or_else row.claim_id 0 == claim_id)

abbrev pub has_row : List PayoutRow → ℕ → Bool
has_row rows claim_id = any (row_of claim_id) rows

tally_rows-count :
    (now : ℕ) (rows : List PayoutRow) (t : Tally)
    → (tally_rows now rows t).payout_count ≡ t.payout_count + length rows
unfolding tally_rows
tally_rows-count now [] t = omega arith
tally_rows-count now (row ∷ rows) t = omega (arith, tally_rows-count now rows _)

tally_rows-amount :
    (now : ℕ) (rows : List PayoutRow) (t : Tally)
    → (tally_rows now rows t).payout_amount ≡ t.payout_amount + total (λ row. row.amount) rows
unfolding tally_rows
tally_rows-amount now [] t = omega arith
tally_rows-amount now (row ∷ rows) t = omega (arith, tally_rows-amount now rows _)

add_row-claim_ids :
    (now c : ℕ) (row : PayoutRow) (t : Tally)
    → contains c (add_row now row t).claim_ids ≡ (row_of c row || contains c t.claim_ids)
add_row-claim_ids now c row t = ground arith

tally_rows-claim_ids :
    (now c : ℕ) (rows : List PayoutRow) (t : Tally)
    → contains c (tally_rows now rows t).claim_ids ≡ (has_row rows c || contains c t.claim_ids)
unfolding tally_rows
tally_rows-claim_ids now c [] t = refl
tally_rows-claim_ids now c (row ∷ rows) t =
    ground
      (arith, tally_rows-claim_ids now c rows (add_row now row t), add_row-claim_ids now c row t)

add_reservation-claim_ids :
    (r : Reservation) (t : Tally) → (add_reservation r t).claim_ids ≡ t.claim_ids
add_reservation-claim_ids r t = ground arith

tally_reservations-claim_ids :
    (rs : List Reservation) (t : Tally) → (tally_reservations rs t).claim_ids ≡ t.claim_ids
unfolding tally_reservations
tally_reservations-claim_ids [] t = refl
tally_reservations-claim_ids (r ∷ rs) t =
    tally_reservations-claim_ids rs (add_reservation r t) ∙ add_reservation-claim_ids r t

-- A reservation counts unless its claim is in the list.
abbrev fresh : List ℕ → (Reservation → ℕ) → Reservation → ℕ
fresh ids f r = if contains r.claim_id ids then 0 else f r

add_reservation-count :
    (r : Reservation) (t : Tally)
    → (add_reservation r t).payout_count ≡ t.payout_count + fresh t.claim_ids (λ r. 1) r
add_reservation-count r t = ground arith

add_reservation-amount :
    (r : Reservation) (t : Tally)
    → (add_reservation r t).payout_amount ≡ t.payout_amount + fresh t.claim_ids (λ r. r.amount) r
add_reservation-amount r t = ground arith

tally_reservations-count :
    (rs : List Reservation) (t : Tally)
    → (tally_reservations rs t).payout_count
      ≡ t.payout_count + total (fresh t.claim_ids (λ r. 1)) rs
unfolding tally_reservations
tally_reservations-count [] t = omega arith
tally_reservations-count (r ∷ rs) t =
    let ih = tally_reservations-count rs (add_reservation r t) in
    let ih' = rw (add_reservation-claim_ids r t) at ih in
    omega (arith, ih', add_reservation-count r t)

tally_reservations-amount :
    (rs : List Reservation) (t : Tally)
    → (tally_reservations rs t).payout_amount
      ≡ t.payout_amount + total (fresh t.claim_ids (λ r. r.amount)) rs
unfolding tally_reservations
tally_reservations-amount [] t = omega arith
tally_reservations-amount (r ∷ rs) t =
    let ih = tally_reservations-amount rs (add_reservation r t) in
    let ih' = rw (add_reservation-claim_ids r t) at ih in
    omega (arith, ih', add_reservation-amount r t)

-- A reservation counts unless its claim has a row among those given.
abbrev pub uncovered : List PayoutRow → (Reservation → ℕ) → Reservation → ℕ
uncovered rows f r = if has_row rows r.claim_id then 0 else f r

seen : ℕ → List PayoutRow → List ℕ
seen now rows = (tally_rows now rows no_tally).claim_ids

contains-seen :
    (now : ℕ) (rows : List PayoutRow) (c : ℕ) → contains c (seen now rows) ≡ has_row rows c
unfolding seen
contains-seen now rows c = ground (arith, tally_rows-claim_ids now c rows no_tally)

total-fresh :
    (now : ℕ) (rows : List PayoutRow) (f : Reservation → ℕ) (rs : List Reservation)
    → total (fresh (seen now rows) f) rs ≡ total (uncovered rows f) rs
total-fresh now rows f [] = refl
total-fresh now rows f (r ∷ rs) = rw (contains-seen now rows r.claim_id, total-fresh now rows f rs)

-- The claims that the state reports as paid are those of its rows.
pub combined_window_state-claim_ids :
    (now : ℕ) (rows : List PayoutRow) (rs : List Reservation) (c : ℕ)
    → contains c (combined_window_state now rows rs).1 ≡ has_row rows c
unfolding combined_window_state seen
combined_window_state-claim_ids now rows rs c =
    rw (tally_reservations-claim_ids rs (tally_rows now rows no_tally)) (contains-seen now rows c)

-- The state counts every row once, and of the reservations exactly those whose claim has no row;
-- its amount is the sum over the same rows and reservations.
pub combined_window_state-counts :
    (now : ℕ) (rows : List PayoutRow) (rs : List Reservation)
    → let state = (combined_window_state now rows rs).0 in
      (state.payout_count ≡ length rows + total (uncovered rows (λ r. 1)) rs)
      × (state.payout_amount
          ≡ total (λ row. row.amount) rows + total (uncovered rows (λ r. r.amount)) rs)
unfolding combined_window_state seen
combined_window_state-counts now rows rs =
    let t = tally_rows now rows no_tally in
    (
      omega (
        arith,
        tally_reservations-count rs t,
        tally_rows-count now rows no_tally,
        total-fresh now rows (λ r. 1) rs,
      ),
      omega (
        arith,
        tally_reservations-amount rs t,
        tally_rows-amount now rows no_tally,
        total-fresh now rows (λ r. r.amount) rs,
      ),
    )
