-- ===== src/Throttle/Reserve/Preserves.antt =====
-- `reserve_payout_slot` keeps the invariant of the durable ledger.
use nim_hunt.Prelude.{
  ℕ, ◌≤◌, ◌<◌, ◌≡◌, refl, ◌⊎◌, true, false, List, [], ◌∷◌, arith, any, All, All-append,
}
use nim_hunt.Tables.{Trans}
use nim_hunt.Throttle.Decision.{Limits, Decision}
use nim_hunt.Throttle.Window.{Reservation}
use nim_hunt.Throttle.Ledger.{Store, clean_reservations, pays, unexpired}
use nim_hunt.Throttle.Ledger.Positive.{IsPositive, clean_reservations-IsPositive, clean-encode}
use nim_hunt.Throttle.Exposure.{reserved, reserved_zero_off}
use nim_hunt.Throttle.Reserve.{
  Request, Outcome, ok, read_request, pruned_ledger, reserve_request, renew, new_reservation,
  resolve_spot, save, reserve_payout_slot,
}
use nim_hunt.Throttle.Reserve.Cases.{
  Change, unchanged, added, renewed, throttle, reserve_request-Change,
}
use nim_hunt.Throttle.Reserve.Ledger.{
  IsUnique, total-pruned_ledger, pruned_ledger-IsUnique, All-pruned_ledger, snoc-IsUnique,
  renew_first-IsUnique, All-renew_first,
}
use nim_hunt.Throttle.Reserve.Safety.{IsBounded, short, daily, window_bounded, throttle_room}

-- A ledger in which every claim has at most one reservation, of the claim's own reward, and whose
-- windows are within their limits.
pub record IsSafe (lim : Limits) (reward : ℕ → ℕ) (now : ℕ) (trans : List Trans)
    (rs : List Reservation) : Type 0 where
  pub unique : IsUnique rs
  pub rewards : All (λ r. r.amount ≡ reward r.claim_id) rs
  pub bounded : IsBounded lim now trans rs

module _ (lim : Limits) (reward : ℕ → ℕ) (db : Store) (now : ℕ) where
  abbrev stored : List Reservation
  stored = clean_reservations db.ledger

  short_live :
      (f : ℕ → ℕ) (r : Reservation)
      → (reserved f short lim.window_seconds now db.trans r ≡ 0)
        ⊎ ((unexpired lim now r ≡ true) × (any (pays r.claim_id) db.trans ≡ false))
  short_live f r = ground (arith, reserved_zero_off f short lim.window_seconds now db.trans r)

  daily_live :
      (f : ℕ → ℕ) (r : Reservation)
      → (reserved f daily lim.daily_window_seconds now db.trans r ≡ 0)
        ⊎ ((unexpired lim now r ≡ true) × (any (pays r.claim_id) db.trans ≡ false))
  daily_live f r = ground (arith, reserved_zero_off f daily lim.daily_window_seconds now db.trans r)

  resolve_spot-reward :
      (r : Reservation)
      → r.amount ≡ reward r.claim_id
      → (resolve_spot db r).amount ≡ reward (resolve_spot db r).claim_id
  unfolding resolve_spot
  resolve_spot-reward r h = ground arith

  pruned_ledger-IsSafe :
      IsSafe lim reward now db.trans stored
      → IsSafe lim reward now db.trans (pruned_ledger lim db now)
  pruned_ledger-IsSafe s = record {
    unique = pruned_ledger-IsUnique lim db now s.unique;
    rewards = All-pruned_ledger _ lim db now resolve_spot-reward s.rewards;
    bounded = record {
      short_count = omega (
        arith,
        total-pruned_ledger lim db now _ (λ r s. refl) (short_live (λ a. 1)),
        s.bounded.short_count,
      );
      short_amount = omega (
        arith,
        total-pruned_ledger lim db now _ (λ r s. refl) (short_live (λ a. a)),
        s.bounded.short_amount,
      );
      daily_count = omega (
        arith,
        total-pruned_ledger lim db now _ (λ r s. refl) (daily_live (λ a. 1)),
        s.bounded.daily_count,
      );
      daily_amount = omega (
        arith,
        total-pruned_ledger lim db now _ (λ r s. refl) (daily_live (λ a. a)),
        s.bounded.daily_amount,
      );
    };
  }

-- The request of a claim for its own reward, on a store whose ledger is safe.
module _ (lim : Limits) (reward : ℕ → ℕ) (db : Store) (now claim_id : ℕ)
    (safe : IsSafe lim reward now db.trans (clean_reservations db.ledger)) where
  abbrev request : Request
  request = read_request lim db now claim_id (reward claim_id)

  abbrev outcome : Outcome
  outcome = reserve_request lim db request

  read_request-IsSafe : IsSafe lim reward now db.trans request.reservations
  unfolding read_request
  read_request-IsSafe = pruned_ledger-IsSafe lim reward db now safe

  weighs :
      (f : ℕ → ℕ) (rs : List Reservation)
      → All (λ r. r.amount ≡ reward r.claim_id) rs
      → All (λ r. r.claim_id ≡ claim_id → f r.amount ≤ f (reward claim_id)) rs
  weighs f [] h = tt
  weighs f (r ∷ rs) h = (
    (λ e. let p : r.amount ≡ reward claim_id = cc (h.0, e) in rw p (omega arith)),
    weighs f rs h.1,
  )

  outcome-IsBounded : IsBounded lim now db.trans outcome.reservations
  unfolding read_request
  outcome-IsBounded =
      let s = read_request-IsSafe in
      let room = λ (rs : List Reservation) (h : (throttle lim request rs).allow ≡ true).
        throttle_room lim db now claim_id (reward claim_id) rs h in
      record {
        short_count =
            window_bounded (λ a. 1) short lim.window_seconds lim.max_payout_count lim db request
              s.unique (weighs (λ a. 1) _ s.rewards) (λ rs h. (room rs h).0) s.bounded.short_count;
        short_amount =
            window_bounded (λ a. a) short lim.window_seconds lim.max_payout_luna lim db request
              s.unique (weighs (λ a. a) _ s.rewards) (λ rs h. (room rs h).1) s.bounded.short_amount;
        daily_count =
            window_bounded (λ a. 1) daily lim.daily_window_seconds lim.daily_max_payout_count lim db
              request s.unique (weighs (λ a. 1) _ s.rewards) (λ rs h. (room rs h).2)
              s.bounded.daily_count;
        daily_amount =
            window_bounded (λ a. a) daily lim.daily_window_seconds lim.daily_max_payout_luna lim db
              request s.unique (weighs (λ a. a) _ s.rewards) (λ rs h. (room rs h).3)
              s.bounded.daily_amount;
      }

  outcome-IsUnique : IsUnique outcome.reservations
  unfolding read_request new_reservation
  outcome-IsUnique = by_change (reserve_request-Change lim db request)
    where
      by_change : {rs : List Reservation} → Change lim request rs → IsUnique rs
      by_change (unchanged e) = rw e read_request-IsSafe.unique
      by_change (added e free _) = rw e (snoc-IsUnique _ _ free read_request-IsSafe.unique)
      by_change (renewed e _) =
          rw e (renew_first-IsUnique lim now claim_id _ read_request-IsSafe.unique)

  -- A predicate that the new reservation has and that renewing keeps.
  outcome-All :
      (P : Reservation → Type 0)
      → All P request.reservations
      → P (new_reservation request)
      → ((r : Reservation) → P r → P (renew lim now r))
      → All P outcome.reservations
  unfolding read_request
  outcome-All P before new keep = by_change (reserve_request-Change lim db request)
    where
      by_change : {rs : List Reservation} → Change lim request rs → All P rs
      by_change (unchanged e) = rw e before
      by_change (added e _ _) = rw e (All-append P _ _ before (new, tt))
      by_change (renewed e _) = rw e (All-renew_first P lim now claim_id _ keep before)

  outcome-IsSafe : IsSafe lim reward now db.trans outcome.reservations
  unfolding read_request new_reservation renew
  outcome-IsSafe = record {
    unique = outcome-IsUnique;
    rewards = outcome-All _ read_request-IsSafe.rewards refl (λ r h. h);
    bounded = outcome-IsBounded;
  }

  outcome-IsPositive :
      0 < now → 0 < claim_id → 0 < reward claim_id → All IsPositive outcome.reservations
  unfolding read_request new_reservation renew resolve_spot
  outcome-IsPositive n c a =
      outcome-All IsPositive
        (All-pruned_ledger IsPositive lim db now (λ r h. ground arith)
          (clean_reservations-IsPositive db.ledger))
        (record {
          claim_id = c;
          amount = a;
          reserved_at = n;
          short_reserved_at = n;
          daily_reserved_at = n;
          spot_reserved_at = n;
        })
        (λ r h. ground arith)

-- A call that returns was for a positive id and amount, and saved its outcome.
pub reserve_payout_slot-eq-ok :
    (lim : Limits) (db : Store) (now claim_id amount : ℕ) {d : Decision} {db' : Store}
    → reserve_payout_slot lim db now claim_id amount ≡ ok (d, db')
    → (0 < claim_id)
      × (0 < amount)
      × (d ≡ (reserve_request lim db (read_request lim db now claim_id amount)).decision)
      × (db' ≡ save db (reserve_request lim db (read_request lim db now claim_id amount)))
unfolding reserve_payout_slot
reserve_payout_slot-eq-ok lim db now claim_id amount e =
    (ground arith, ground arith, ground arith, ground arith)

-- A call of `reserve_payout_slot` for a claim's reward leaves a safe ledger safe, whatever it
-- decides, and touches no transaction.
pub reserve_payout_slot-IsSafe :
    (lim : Limits) (reward : ℕ → ℕ) (db : Store) (now claim_id : ℕ) {d : Decision} {db' : Store}
    → 0 < now
    → IsSafe lim reward now db.trans (clean_reservations db.ledger)
    → reserve_payout_slot lim db now claim_id (reward claim_id) ≡ ok (d, db')
    → (db'.trans ≡ db.trans) × IsSafe lim reward now db'.trans (clean_reservations db'.ledger)
unfolding save
reserve_payout_slot-IsSafe lim reward db now claim_id n safe e =
    let (c, a, _, saved) = reserve_payout_slot-eq-ok lim db now claim_id (reward claim_id) e in
    let positive = outcome-IsPositive lim reward db now claim_id safe n c a in
    rw saved (refl, rw (clean-encode _ positive) (outcome-IsSafe lim reward db now claim_id safe))
