-- ===== src/Location/State.antt =====
-- The durable state of one user: saturated counters, two short lists of Spot ids, and timestamps.
pub mod Bounded
use nim_hunt.Prelude.{
  ℕ, ◌+◌, Bool, true, false, ◌&&◌, not, Option, none, some, List, [], length, take, min, leb, ltb,
  if◌then◌else◌, or_else,
}

abbrev pub centre_distinct_locations_required : ℕ
centre_distinct_locations_required = 3

abbrev pub inside_streak_locations_required : ℕ
inside_streak_locations_required = 4

abbrev pub signed_retry_window_seconds : ℕ
signed_retry_window_seconds = 1800

abbrev pub outside_poll_window_seconds : ℕ
outside_poll_window_seconds = 21600

abbrev pub temporary_restriction_seconds : ℕ
temporary_restriction_seconds = 86400

abbrev pub max_diagnostic_count : ℕ
max_diagnostic_count = 255

-- The dictionary of the current version. The last four keys may be missing.
pub record BehaviorState : Type 0 where
  pub meaningful_observations : ℕ
  pub signed_inside_observations : ℕ
  pub browser_outside_observations : ℕ
  pub centre_location_spot_ids : List ℕ
  pub inside_streak_spot_ids : List ℕ
  pub outside_since_last_inside : Bool
  pub last_signed_spot_id : Option ℕ
  pub last_signed_observed_at : Option ℕ
  pub last_outside_observed_at : Option ℕ
  pub restricted_until : Option ℕ

-- What the metadata key may hold: nothing or no dictionary; a dictionary of another version, of which
-- three counters (none where missing or no integer) and the restriction are read; or one of this
-- version.
pub data Stored : Type 0 where
  no_dictionary : Stored
  old :
      (meaningful_observations signed_inside_observations browser_outside_observations
        restricted_until : Option ℕ)
      → Stored
  current : BehaviorState → Stored

unfoldable pub empty_state : BehaviorState
empty_state = record {
  meaningful_observations = 0;
  signed_inside_observations = 0;
  browser_outside_observations = 0;
  centre_location_spot_ids = [];
  inside_streak_spot_ids = [];
  outside_since_last_inside = true;
  last_signed_spot_id = none;
  last_signed_observed_at = none;
  last_outside_observed_at = none;
  restricted_until = none;
}

unfoldable pub saturated : Option ℕ → ℕ → ℕ
saturated value increment = min max_diagnostic_count (or_else value 0 + increment)

unfoldable pub migrate : Stored → BehaviorState
unfolding empty_state saturated
migrate no_dictionary = empty_state
migrate (old meaningful inside outside restricted) = record empty_state {
  meaningful_observations = saturated meaningful 0;
  signed_inside_observations = saturated inside 0;
  browser_outside_observations = saturated outside 0;
  restricted_until = some (or_else restricted 0);
}
migrate (current s) = record s {
  centre_location_spot_ids = take centre_distinct_locations_required s.centre_location_spot_ids;
  inside_streak_spot_ids = take inside_streak_locations_required s.inside_streak_spot_ids;
  meaningful_observations = saturated (some s.meaningful_observations) 0;
  signed_inside_observations = saturated (some s.signed_inside_observations) 0;
  browser_outside_observations = saturated (some s.browser_outside_observations) 0;
}

-- `_save`: what is written is migrated once more.
unfoldable pub save : BehaviorState → Stored
save s = current (migrate (current s))

unfoldable pub currently_restricted : BehaviorState → ℕ → Bool
currently_restricted s now = ltb now (or_else s.restricted_until 0)

unfoldable pub new_evidence_matured : BehaviorState → Bool
new_evidence_matured s =
    leb centre_distinct_locations_required (length s.centre_location_spot_ids)
    && leb inside_streak_locations_required (length s.inside_streak_spot_ids)

unfoldable pub consume_episode : ℕ → BehaviorState → BehaviorState
consume_episode now s = record s {
  restricted_until = some (now + temporary_restriction_seconds);
  centre_location_spot_ids = [];
  inside_streak_spot_ids = [];
  outside_since_last_inside = true;
  last_signed_spot_id = none;
  last_signed_observed_at = none;
}
