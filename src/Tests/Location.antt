-- ===== src/Tests/Location.antt =====
-- The location guard on a line of Spots a hundred metres apart, each with a radius of 20 metres.
use nim_hunt.Prelude.{
  ℕ, ◌+◌, ◌*◌, ◌-◌, ◌≤◌, ◌≡◌, refl, true, false, Option, none, some, List, [], ◌∷◌, ◌++◌, arith,
  length, any, All,
}
use nim_hunt.Location.State.{
  new_evidence_matured, consume_episode, Stored, no_dictionary, old, migrate, save,
  currently_restricted,
}
use nim_hunt.Location.State.Bounded.{migrate-IsBounded, migrate-save}
use nim_hunt.Location.Observe.{
  act, settle, observed, is_retry, record_inside, same_reward_location, PublicSpot, Event, Action,
  claim, run, observe_signed_claim,
}
use nim_hunt.Location.Observe.Restriction.{restriction_stands}
use nim_hunt.Location.Observe.Separate.{IsSeparate}
use nim_hunt.Location.Observe.Places.{claimed_inside, claimed_near, event_rests_on_places}

-- Positions on a line, in decimetres.
abbrev distance : ℕ → ℕ → ℕ
distance a b = (a - b) + (b - a)

abbrev centre : ℕ → Option ℕ
centre id = some (1000 * id)

abbrev spot : ℕ → PublicSpot ℕ
spot id = record {
  spot_id = id;
  created_by = 9;
  use_password = false;
  place = 1000 * id;
  radius = 20;
}

-- User 1 claims at the centre of a Spot.
abbrev claim_at : ℕ → ℕ → Action ℕ
claim_at now id = claim 1 now true (spot id) (1000 * id)

abbrev three_claims : List (Action ℕ)
three_claims = claim_at 1000 1 ∷ claim_at 2000 2 ∷ claim_at 3000 3 ∷ []

abbrev old_state : Stored
old_state = old (some 300) none (some 4) (some 0)

abbrev event : Event
event = record { created_at = 4000; expires_at = 90400 }

migrate-save_example : migrate (save (migrate old_state)) ≡ migrate old_state
migrate-save_example = migrate-save (migrate old_state) (migrate-IsBounded old_state)

fourth_restricts :
    (observe_signed_claim distance centre 1 4000 true
      (spot 4)
      4000
      (run distance centre three_claims no_dictionary)).2
    ≡ some event
unfolding observe_signed_claim run currently_restricted migrate act settle new_evidence_matured
    observed is_retry record_inside same_reward_location save consume_episode
fourth_restricts = refl

abbrev restricted_state : Stored
restricted_state = old none none none (some 90400)

restriction_stands_example :
    (migrate (run distance centre three_claims restricted_state)).restricted_until ≡ some 90400
unfolding migrate
restriction_stands_example =
    restriction_stands distance centre three_claims restricted_state 90400 refl
      (omega arith, (omega arith, (omega arith, tt)))

event_rests_on_places_example :
    let all = three_claims ++ claim 1 4000 true (spot 4) 4000 ∷ [] in
    ((ids : List ℕ) × (4 ≤ length ids)
      × IsSeparate distance centre ids
      × All (λ i. any (claimed_inside distance i) all ≡ true) ids)
    × ((ids : List ℕ) × (3 ≤ length ids)
        × IsSeparate distance centre ids
        × All (λ i. any (claimed_near distance i) all ≡ true) ids)
unfolding migrate
event_rests_on_places_example =
    event_rests_on_places distance centre three_claims no_dictionary 1 4000 true (spot 4) 4000 event
      refl refl (refl, (refl, (refl, (refl, tt)))) fourth_restricts
