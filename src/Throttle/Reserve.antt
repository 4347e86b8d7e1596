-- ===== src/Throttle/Reserve.antt =====
-- `reserve_payout_slot`: one reservation under SQLite's writer lock. The lock makes the call one
-- step on the store: whoever holds it reads and writes the ledger alone, whether the call opened
-- the transaction or joined one. `now` is the database's clock.
pub mod Ledger
pub mod Cases
pub mod Safety
pub mod Preserves
use nim_hunt.Prelude.{
  ℕ, Bool, true, false, ◌&&◌, not, Option, none, some, List, [], ◌∷◌, ◌++◌, map, ltb, ◌==◌,
  if◌then◌else◌, or_else, find, filter, contains, ◌||◌,
}
use nim_hunt.Tables.{Spot, get_claim, get_spot, update}
use nim_hunt.Throttle.Decision.{
  Limits, Decision, Details, WindowState, throttle_decision, spot_window_decision,
  spot_lifetime_decision, claim_payout_already_materialised, existing_payout_reservation,
}
use nim_hunt.Throttle.Window.{PayoutRow, Reservation, combined_window_state, window_view, is_live}
use nim_hunt.Throttle.Ledger.{
  Store, SecurityRecord, clean_reservations, prune_reservations, recent_payout_rows,
  lifetime_spot_payout_rows, at_spot, is_prizedraw, encode,
}

pub data Error : Type 0 where
  claim_id_not_positive amount_not_positive : Error

pub data Result {ℓ} (A : Type ℓ) : Type ℓ where
  ok : A → Result A
  err : Error → Result A

-- What the call decides, and what it writes: the ledger and the security records.
pub record Outcome : Type 0 where
  pub decision : Decision
  pub reservations : List Reservation
  pub records : ℕ → Option SecurityRecord

-- The request, and what is read for it under the lock.
pub record Request : Type 0 where
  pub now : ℕ
  pub claim_id : ℕ
  pub amount : ℕ
  pub rows : List PayoutRow
  pub reservations : List Reservation
  pub spot_id : ℕ
  pub spot : Option Spot
  pub open_standard : Bool

-- A reservation of the previous release carries no Spot id, and takes its claim's.
unfoldable pub resolve_spot : Store → Reservation → Reservation
resolve_spot db r = if ltb 0 r.spot_id then r else elim (get_claim db.claims r.claim_id) [
  | none ↦ r
  | some c ↦ record r { spot_id = c.spot_id }
]

unfoldable pub pruned_ledger : Limits → Store → ℕ → List Reservation
unfolding resolve_spot
pruned_ledger lim db now =
    prune_reservations lim db now (map (resolve_spot db) (clean_reservations db.ledger))

unfoldable pub spot_of_claim : Store → ℕ → ℕ
spot_of_claim db claim_id = elim (get_claim db.claims claim_id) [ none ↦ 0 | some c ↦ c.spot_id ]

unfoldable pub is_open_standard : Store → ℕ → Option Spot → Bool
is_open_standard db spot_id none = false
is_open_standard db spot_id (some s) = not s.use_password && not (is_prizedraw db spot_id)

unfoldable pub read_request : Limits → Store → ℕ → ℕ → ℕ → Request
unfolding spot_of_claim is_open_standard
read_request lim db now claim_id amount =
    let spot_id = spot_of_claim db claim_id in
    let spot : Option Spot = if ltb 0 spot_id then get_spot db.spots spot_id else none in
    record {
      now = now;
      claim_id = claim_id;
      amount = amount;
      rows = recent_payout_rows lim db now;
      reservations = pruned_ledger lim db now;
      spot_id = spot_id;
      spot = spot;
      open_standard = is_open_standard db spot_id spot;
    }

unfoldable pub short_view : Limits → Request → List Reservation → WindowState × List ℕ
short_view lim q = window_view (λ r. r.short_reserved_at) lim.window_seconds q.now q.rows

unfoldable pub daily_view : Limits → Request → List Reservation → WindowState × List ℕ
daily_view lim q = window_view (λ r. r.daily_reserved_at) lim.daily_window_seconds q.now q.rows

-- The rolling window of one Spot.
unfoldable pub spot_view : Limits → Request → List Reservation → WindowState
spot_view lim q rs =
    (window_view (λ r. r.spot_reserved_at) lim.spot_window_seconds q.now
      (filter (λ row. at_spot q.spot_id row.spot_id) q.rows)
      (filter (λ r. r.spot_id == q.spot_id) rs)).0

-- Everything that the Spot has ever paid or reserved.
unfoldable pub lifetime_view : Store → Request → WindowState
lifetime_view db q =
    (combined_window_state q.now (lifetime_spot_payout_rows db q.spot_id)
      (filter (λ r. r.spot_id == q.spot_id) q.reservations)).0

-- `record.get("manual_review_released_at")`, as a test.
unfoldable pub explicitly_released : Option SecurityRecord → Bool
explicitly_released none = false
explicitly_released (some r) = ltb 0 (or_else r.manual_review_released_at 0)

-- The keys of a decision that the review record copies.
unfoldable pub review_details : Details → Details
review_details (Details.spot_window s w c a mc ma) = Details.spot_window s w c a mc ma
review_details (Details.spot_lifetime s p c a mc ma) = Details.spot_lifetime s p c a mc ma
review_details _ = Details.unreported

unfoldable pub mark_review : ℕ → Decision → SecurityRecord → SecurityRecord
mark_review now d r = record r {
  manual_review = true;
  manual_review_reason = some d.reason;
  manual_review_marked_at = some now;
}

unfoldable pub mark_review_details : Decision → SecurityRecord → SecurityRecord
unfolding review_details
mark_review_details d r = record r { manual_review_details = some (review_details d.details) }

-- The record of a claim held for review, where the claim has one.
unfoldable pub hold_record :
    (SecurityRecord → SecurityRecord) → ℕ → (ℕ → Option SecurityRecord) → ℕ → Option SecurityRecord
hold_record mark claim_id records = elim (records claim_id) [
  | none ↦ records
  | some r ↦ update records claim_id (mark r)
]

unfoldable pub others : ℕ → List Reservation → List Reservation
others claim_id = filter (λ r. not (r.claim_id == claim_id))

-- The stamps of a reservation whose windows have run out begin anew.
unfoldable pub renew : Limits → ℕ → Reservation → Reservation
renew lim now r = record r {
  short_reserved_at =
      if is_live lim.window_seconds now r.short_reserved_at then r.short_reserved_at else now;
  daily_reserved_at =
      if is_live lim.daily_window_seconds now r.daily_reserved_at then r.daily_reserved_at else now;
  spot_reserved_at =
      if is_live lim.spot_window_seconds now r.spot_reserved_at then r.spot_reserved_at else now;
}

-- `existing` is the first reservation of the claim, changed in place.
unfoldable pub renew_first : Limits → ℕ → ℕ → List Reservation → List Reservation
renew_first lim now claim_id [] = []
renew_first lim now claim_id (r ∷ rs) =
    let rest = renew_first lim now claim_id rs in
    if r.claim_id == claim_id then renew lim now r ∷ rs else r ∷ rest

-- A claim that holds a reservation: its own is left out of the counts, and the limits are checked
-- once more.
unfoldable pub recheck : Limits → Store → Request → Decision
unfolding explicitly_released
recheck lim db q =
    let rest = others q.claim_id q.reservations in
    let d =
      throttle_decision lim (short_view lim q rest).0 q.amount (some (daily_view lim q rest).0) in
    if d.allow && q.open_standard && not (explicitly_released (db.records q.claim_id))
    then spot_window_decision lim (spot_view lim q rest) q.amount q.spot_id
    else d

unfoldable pub reuse : Limits → Store → Request → Outcome
unfolding recheck
reuse lim db q =
    let d = recheck lim db q in
    if d.allow
    then record {
      decision = record d { reason = existing_payout_reservation; reservation_reused = true };
      reservations = renew_first lim q.now q.claim_id q.reservations;
      records = db.records;
    }
    else record {
      decision = d;
      reservations = q.reservations;
      records =
          if d.manual_review
          then hold_record (mark_review q.now d) q.claim_id db.records
          else db.records;
    }

-- The Spot's lifetime share, and then its rolling window.
unfoldable pub open_spot_decision : Limits → Store → Request → Spot → Decision
open_spot_decision lim db q s =
    let d = spot_lifetime_decision lim (lifetime_view db q) q.amount s in
    if d.allow
    then spot_window_decision lim (spot_view lim q q.reservations) q.amount q.spot_id
    else d

unfoldable pub admit : Limits → Store → Request → Decision
unfolding open_spot_decision explicitly_released
admit lim db q =
    let d =
      throttle_decision lim (short_view lim q q.reservations).0 q.amount
        (some (daily_view lim q q.reservations).0) in
    if d.allow && q.open_standard && not (explicitly_released (db.records q.claim_id))
    then elim q.spot [ none ↦ d | some s ↦ open_spot_decision lim db q s ]
    else d

unfoldable pub new_reservation : Request → Reservation
new_reservation q = record {
  claim_id = q.claim_id;
  amount = q.amount;
  reserved_at = q.now;
  short_reserved_at = q.now;
  daily_reserved_at = q.now;
  spot_reserved_at = q.now;
  spot_id = q.spot_id;
}

unfoldable pub create : Limits → Store → Request → Outcome
unfolding admit new_reservation
create lim db q =
    let d = admit lim db q in
    record {
      decision = if d.allow then record d { reservation_created = true } else d;
      reservations = if d.allow then q.reservations ++ new_reservation q ∷ [] else q.reservations;
      records =
          if d.manual_review
          then hold_record (λ r. mark_review_details d (mark_review q.now d r)) q.claim_id
              db.records
          else db.records;
    }

-- A claim whose payout stands in a window needs no reservation.
unfoldable pub materialised : Limits → Request → Bool
materialised lim q =
    contains q.claim_id (short_view lim q q.reservations).1
    || contains q.claim_id (daily_view lim q q.reservations).1

unfoldable pub already_paid : Limits → Store → Request → Outcome
already_paid lim db q =
    let state = (short_view lim q q.reservations).0 in
    record {
      decision = record {
        allow = true;
        reason = claim_payout_already_materialised;
        retry_at = none;
        manual_review = false;
        details = Details.window state.payout_count state.payout_amount;
        reservation_reused = true;
        reservation_created = false;
      };
      reservations = q.reservations;
      records = db.records;
    }

unfoldable pub reserve_request : Limits → Store → Request → Outcome
unfolding already_paid materialised
reserve_request lim db q =
    if materialised lim q
    then already_paid lim db q
    else elim (find (λ r. r.claim_id == q.claim_id) q.reservations) [
      | none ↦ create lim db q
      | some r ↦ reuse lim db q
    ]

-- The ledger is saved whatever was decided.
unfoldable pub save : Store → Outcome → Store
save db out = record db { ledger = encode out.reservations; records = out.records }

unfoldable pub reserve_payout_slot : Limits → Store → ℕ → ℕ → ℕ → Result (Decision × Store)
reserve_payout_slot lim db now claim_id amount =
    if claim_id == 0
    then err claim_id_not_positive
    else if amount == 0
    then err amount_not_positive
    else (let out = reserve_request lim db (read_request lim db now claim_id amount) in
        ok (out.decision, save db out))
