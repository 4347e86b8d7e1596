-- ===== src/Location/State/Bounded.antt =====
-- What the guard stores stays small, and is read back as it was written.
use Prim.Native.Nat.{zero, suc}
use nim_hunt.Prelude.{
  suc, ℕ, ◌≤◌, ◌≡◌, refl, Option, some, List, [], ◌∷◌, arith, length, take, length-take-le, ap,
}
use nim_hunt.Location.State.{
  max_diagnostic_count, centre_distinct_locations_required, inside_streak_locations_required,
  BehaviorState, Stored, no_dictionary, old, current, migrate, save, saturated, empty_state,
}

pub record IsBounded (s : BehaviorState) : Type 0 where
  pub meaningful : s.meaningful_observations ≤ max_diagnostic_count
  pub inside : s.signed_inside_observations ≤ max_diagnostic_count
  pub outside : s.browser_outside_observations ≤ max_diagnostic_count
  pub centres : length s.centre_location_spot_ids ≤ centre_distinct_locations_required
  pub streak : length s.inside_streak_spot_ids ≤ inside_streak_locations_required

saturated_le : (v : Option ℕ) (n : ℕ) → saturated v n ≤ max_diagnostic_count
unfolding saturated
saturated_le v n = omega arith

saturated_same : (n : ℕ) → n ≤ max_diagnostic_count → saturated (some n) 0 ≡ n
unfolding saturated
saturated_same n h = ground arith

-- Whatever the metadata key holds, the state read from it has every counter at most 255, at most
-- three Spots near whose centre a claim was made, and at most four in the streak.
pub migrate-IsBounded : (v : Stored) → IsBounded (migrate v)
unfolding migrate empty_state
migrate-IsBounded no_dictionary = record {
  meaningful = omega arith;
  inside = omega arith;
  outside = omega arith;
  centres = omega arith;
  streak = omega arith;
}
migrate-IsBounded (old m i o r) = record {
  meaningful = saturated_le m 0;
  inside = saturated_le i 0;
  outside = saturated_le o 0;
  centres = omega arith;
  streak = omega arith;
}
migrate-IsBounded (current s) = record {
  meaningful = saturated_le (some s.meaningful_observations) 0;
  inside = saturated_le (some s.signed_inside_observations) 0;
  outside = saturated_le (some s.browser_outside_observations) 0;
  centres = length-take-le 3 s.centre_location_spot_ids;
  streak = length-take-le 4 s.inside_streak_spot_ids;
}

pub take_all : (n : ℕ) (xs : List ℕ) → length xs ≤ n → take n xs ≡ xs
take_all zero [] h = refl
take_all zero (x ∷ xs) h = ground (arith, h)
take_all (suc n) [] h = refl
take_all (suc n) (x ∷ xs) h = ap (λ t. x ∷ t) (take_all n xs (omega (arith, h)))

pub migrate_same : (s : BehaviorState) → IsBounded s → migrate (current s) ≡ s
unfolding migrate
migrate_same s b = rw (
  take_all 3 s.centre_location_spot_ids b.centres,
  take_all 4 s.inside_streak_spot_ids b.streak,
  saturated_same s.meaningful_observations b.meaningful,
  saturated_same s.signed_inside_observations b.inside,
  saturated_same s.browser_outside_observations b.outside,
)

-- A bounded state that is saved is read back as it was.
pub migrate-save : (s : BehaviorState) → IsBounded s → migrate (save s) ≡ s
unfolding save
migrate-save s b = rw (migrate_same s b) (migrate_same s b)
