-- ===== src/Location/Observe.antt =====
-- The two observations, each with its read and its write under one lock. Distances are whole
-- decimetres, rounded up, so that every comparison with a threshold comes out as on the metres of
-- `distance_metres`, which is an argument; so is whether a Spot can be claimed.
pub mod Restriction
pub mod Evidence
pub mod Separate
pub mod Places
use nim_hunt.Prelude.{
  ℕ, ◌+◌, ◌*◌, Bool, true, false, ◌&&◌, ◌||◌, not, Option, none, some, List, [], ◌∷◌, ◌++◌, take,
  leb, ltb, ◌==◌, if◌then◌else◌, or_else, any,
}
use nim_hunt.Location.State.{
  centre_distinct_locations_required, inside_streak_locations_required, signed_retry_window_seconds,
  outside_poll_window_seconds, BehaviorState, Stored, migrate, saturated, save,
  currently_restricted, new_evidence_matured, consume_episode,
}

abbrev pub near_exact_centre : ℕ
near_exact_centre = 15

abbrev pub same_reward_location_distance : ℕ
same_reward_location_distance = 250

-- A Spot as the guard reads it. The radius is in metres.
pub record PublicSpot {ℓ} (Place : Type ℓ) : Type ℓ where
  pub spot_id : ℕ
  pub created_by : ℕ
  pub use_password : Bool
  pub place : Place
  pub radius : ℕ

pub data Exemption : Type 0 where
  own_spot_exempt password_exempt spot_not_claimable : Exemption

pub data Decision : Type 0 where
  exempt : Exemption → Decision
  decided : Bool → BehaviorState → Decision

-- The event that a new restriction records: when it was imposed, and when it ends.
pub record Event : Type 0 where
  pub created_at : ℕ
  pub expires_at : ℕ

abbrev pub add_place : ℕ → Bool → ℕ → List ℕ → List ℕ
add_place required same spot_id ids = if same then ids else take required (ids ++ spot_id ∷ [])

module _ {ℓ} {Place : Type ℓ} (distance : Place → Place → ℕ) (centre : ℕ → Option Place) where
  unfoldable pub inside_any : List (PublicSpot Place) → Place → Bool
  inside_any spots at = any (λ s. leb (distance at s.place) (s.radius * 10)) spots

  -- A prior Spot that is gone, or has no centre, is passed over.
  abbrev pub is_same_location : PublicSpot Place → ℕ → Bool
  is_same_location spot prior_id = prior_id == spot.spot_id || elim (centre prior_id) [
    | none ↦ false
    | some p ↦ leb (distance spot.place p) same_reward_location_distance
  ]

  unfoldable pub same_reward_location : PublicSpot Place → List ℕ → Bool
  same_reward_location spot ids = any (is_same_location spot) ids

  -- The state after a poll outside every claimable Spot.
  unfoldable pub record_outside : ℕ → BehaviorState → BehaviorState
  record_outside now s =
      let transition = not s.outside_since_last_inside in
      record s {
        meaningful_observations = saturated (some s.meaningful_observations) 1;
        browser_outside_observations = saturated (some s.browser_outside_observations) 1;
        outside_since_last_inside = true;
        inside_streak_spot_ids = [];
        last_signed_spot_id = if transition then none else s.last_signed_spot_id;
        last_signed_observed_at = if transition then none else s.last_signed_observed_at;
        last_outside_observed_at = some now;
      }

  unfoldable pub observe_find_location :
      ℕ → List (PublicSpot Place) → Place → Stored → BehaviorState × Stored
  observe_find_location now spots at db =
      let s = migrate db in
      let recently_outside =
        ltb now (or_else s.last_outside_observed_at 0 + outside_poll_window_seconds) in
      if inside_any spots at
      then (s, db)
      else if s.outside_since_last_inside && recently_outside
      then (s, db)
      else (record_outside now s, save (record_outside now s))

  unfoldable pub is_retry : ℕ → ℕ → BehaviorState → Bool
  is_retry now spot_id s =
      or_else s.last_signed_spot_id 0 == spot_id
      && ltb now (or_else s.last_signed_observed_at 0 + signed_retry_window_seconds)

  -- The state after a claim inside its Spot that is no retry.
  unfoldable pub record_inside : ℕ → PublicSpot Place → Place → BehaviorState → BehaviorState
  record_inside now spot at s = record s {
    inside_streak_spot_ids =
        add_place inside_streak_locations_required
          (same_reward_location spot s.inside_streak_spot_ids) spot.spot_id
          s.inside_streak_spot_ids;
    centre_location_spot_ids =
        add_place centre_distinct_locations_required
          (not (leb (distance at spot.place) near_exact_centre)
            || same_reward_location spot s.centre_location_spot_ids)
          spot.spot_id s.centre_location_spot_ids;
    outside_since_last_inside = false;
    meaningful_observations = saturated (some s.meaningful_observations) 1;
    signed_inside_observations = saturated (some s.signed_inside_observations) 1;
    last_signed_spot_id = some spot.spot_id;
    last_signed_observed_at = some now;
  }

  unfoldable pub observed : ℕ → PublicSpot Place → Place → BehaviorState → BehaviorState
  observed now spot at s =
      if not (is_retry now spot.spot_id s) && leb (distance at spot.place) (spot.radius * 10)
      then record_inside now spot at s
      else s

  -- The end of `observe_signed_claim`: a full set of evidence becomes a restriction.
  unfoldable pub settle : ℕ → BehaviorState → Decision × Stored × Option Event
  settle now s =
      let s' = consume_episode now s in
      if new_evidence_matured s
      then (
        decided (currently_restricted s' now) s',
        save s',
        some (record { created_at = now; expires_at = or_else s'.restricted_until 0 }),
      )
      else (decided (currently_restricted s now) s, save s, none)

  unfoldable pub observe_signed_claim :
      (user_id now : ℕ)
      → (claimable : Bool) → PublicSpot Place
      → Place
      → Stored
      → Decision × Stored × Option Event
  observe_signed_claim user_id now claimable spot at db =
      let s = migrate db in
      if not (spot.created_by == 0) && (spot.created_by == user_id)
      then (exempt own_spot_exempt, db, none)
      else if spot.use_password
      then (exempt password_exempt, db, none)
      else if not claimable
      then (exempt spot_not_claimable, db, none)
      else if currently_restricted s now
      then (decided true s, db, none)
      else settle now (observed now spot at s)

unfoldable pub current_decision : ℕ → Stored → Bool × BehaviorState
current_decision now db = (currently_restricted (migrate db) now, migrate db)

-- What happens to one user over time, and what it leaves.
pub data Action {ℓ} (Place : Type ℓ) : Type ℓ where
  poll : (now : ℕ) → List (PublicSpot Place) → Place → Action Place
  claim : (user_id now : ℕ) → (claimable : Bool) → PublicSpot Place → Place → Action Place

abbrev pub time_of {ℓ} : {Place : Type ℓ} → Action Place → ℕ
time_of (poll now spots at) = now
time_of (claim user_id now claimable spot at) = now

module _ {ℓ} {Place : Type ℓ} (distance : Place → Place → ℕ) (centre : ℕ → Option Place) where
  unfoldable pub act : Action Place → Stored → Stored
  act (poll now spots at) db = (observe_find_location distance centre now spots at db).1
  act (claim user_id now claimable spot at) db =
      (observe_signed_claim distance centre user_id now claimable spot at db).1

  unfoldable pub run : List (Action Place) → Stored → Stored
  run [] db = db
  run (a ∷ rest) db = run rest (act a db)
