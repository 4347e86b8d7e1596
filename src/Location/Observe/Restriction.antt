-- ===== src/Location/Observe/Restriction.antt =====
-- A restriction is a fixed time: nothing that the user does meanwhile moves it.
use nim_hunt.Prelude.{
  ℕ, ◌+◌, ◌<◌, ◌≡◌, refl, Bool, true, false, Option, none, some, List, [], ◌∷◌, arith, All, ◌∙◌,
}
use nim_hunt.Location.State.{
  BehaviorState, Stored, current, migrate, save, currently_restricted,
  temporary_restriction_seconds, consume_episode,
}
use nim_hunt.Location.Observe.{
  PublicSpot, Event, Action, poll, claim, time_of, act, run, observe_find_location,
  observe_signed_claim, settle, record_outside,
}

migrate_restricted :
    (s : BehaviorState) → (migrate (current s)).restricted_until ≡ s.restricted_until
unfolding migrate
migrate_restricted s = refl

save_restricted : (s : BehaviorState) → (migrate (save s)).restricted_until ≡ s.restricted_until
unfolding save migrate
save_restricted s = refl

module _ {ℓ} {Place : Type ℓ} (distance : Place → Place → ℕ) (centre : ℕ → Option Place) where
  poll_restricted :
      (now : ℕ) (spots : List (PublicSpot Place)) (at : Place) (db : Stored)
      → (migrate (observe_find_location distance centre now spots at db).1).restricted_until
        ≡ (migrate db).restricted_until
  unfolding observe_find_location record_outside
  poll_restricted now spots at db =
      ground (arith, save_restricted (record_outside distance centre now (migrate db)))

  -- A claim under a restriction writes nothing, and is restricted unless it is exempt.
  pub claim_under_restriction :
      (user_id now : ℕ) (claimable : Bool) (spot : PublicSpot Place) (at : Place) (db : Stored)
      → currently_restricted (migrate db) now ≡ true
      → let done = observe_signed_claim distance centre user_id now claimable spot at db in
        (done.1 ≡ db) × (done.2 ≡ none)
  unfolding observe_signed_claim
  claim_under_restriction user_id now claimable spot at db h = ground arith

  act_restricted :
      (a : Action Place) (db : Stored) (until : ℕ)
      → (migrate db).restricted_until ≡ some until
      → time_of a < until
      → (migrate (act distance centre a db)).restricted_until ≡ some until
  unfolding act currently_restricted
  act_restricted (poll now spots at) db until e h = poll_restricted now spots at db ∙ e
  act_restricted (claim user_id now claimable spot at) db until e h =
      rw ((claim_under_restriction user_id now claimable spot at db (still db now until e h)).0) e
    where
      still :
          (db : Stored) (now until : ℕ)
          → (migrate db).restricted_until ≡ some until
          → now < until
          → currently_restricted (migrate db) now ≡ true
      still db now until e h = ground arith

  -- While a restriction runs, no sequence of polls and claims moves its end, however often the user
  -- tries.
  pub restriction_stands :
      (actions : List (Action Place)) (db : Stored) (until : ℕ)
      → (migrate db).restricted_until ≡ some until
      → All (λ a. time_of a < until) actions
      → (migrate (run distance centre actions db)).restricted_until ≡ some until
  unfolding run
  restriction_stands [] db until e h = e
  restriction_stands (a ∷ rest) db until e h =
      restriction_stands rest (act distance centre a db) until (act_restricted a db until e h.0) h.1

  -- A claim that records an event found no restriction in force, and imposes one that ends a day
  -- later, applies at once, and leaves no evidence for another.
  pub event_restricts :
      (user_id now : ℕ) (claimable : Bool) (spot : PublicSpot Place) (at : Place) (db : Stored)
      (e : Event)
      → (observe_signed_claim distance centre user_id now claimable spot at db).2 ≡ some e
      → let after =
          migrate (observe_signed_claim distance centre user_id now claimable spot at db).1 in
        (currently_restricted (migrate db) now ≡ false)
        × (e.expires_at ≡ now + temporary_restriction_seconds)
        × (after.restricted_until ≡ some e.expires_at)
        × (after.inside_streak_spot_ids ≡ [])
        × (after.centre_location_spot_ids ≡ [])
  unfolding observe_signed_claim settle save migrate consume_episode
  event_restricts user_id now claimable spot at db e h = ground arith
