-- ===== src/Location/Observe/Evidence.antt =====
-- What a restriction rests on: as many claims, at as many separate places, as the rule asks for.
use Prim.Native.Nat.{zero, suc}
use nim_hunt.Prelude.{
  ℕ, ◌+◌, ◌≤◌, ◌≡◌, Bool, true, false, Option, none, List, [], ◌∷◌, ◌++◌, arith, length, take,
  length-append,
}
use nim_hunt.Location.State.{
  BehaviorState, Stored, migrate, save, consume_episode, new_evidence_matured,
}
use nim_hunt.Location.Observe.{
  same_reward_location, PublicSpot, Action, poll, claim, act, run, observe_find_location,
  observe_signed_claim, settle, observed, record_outside, record_inside, add_place,
}

abbrev streak_length : Stored → ℕ
streak_length db = length (migrate db).inside_streak_spot_ids

-- How many of the actions are claims.
abbrev pub claims {ℓ} : {Place : Type ℓ} → List (Action Place) → ℕ
claims [] = 0
claims (poll now spots at ∷ rest) = claims rest
claims (claim user_id now claimable spot at ∷ rest) = 1 + claims rest

length-take_shorter : (n : ℕ) (xs : List ℕ) → length (take n xs) ≤ length xs
length-take_shorter zero xs = omega arith
length-take_shorter (suc n) [] = omega arith
length-take_shorter (suc n) (x ∷ xs) = omega (arith, length-take_shorter n xs)

length-add_place :
    (n : ℕ) (same : Bool) (spot_id : ℕ) (ids : List ℕ)
    → length (add_place n same spot_id ids) ≤ 1 + length ids
length-add_place n true spot_id ids = omega arith
length-add_place n false spot_id ids =
    omega (arith, length-take_shorter n (ids ++ spot_id ∷ []), length-append ids (spot_id ∷ []))

save_streak : (s : BehaviorState) → streak_length (save s) ≤ length s.inside_streak_spot_ids
unfolding save migrate
save_streak s = omega (
  arith,
  length-take_shorter 4 (take 4 s.inside_streak_spot_ids),
  length-take_shorter 4 s.inside_streak_spot_ids,
)

module _ {ℓ} {Place : Type ℓ} (distance : Place → Place → ℕ) (centre : ℕ → Option Place) where
  poll_streak :
      (now : ℕ) (spots : List (PublicSpot Place)) (at : Place) (db : Stored)
      → streak_length (observe_find_location distance centre now spots at db).1 ≤ streak_length db
  unfolding observe_find_location record_outside
  poll_streak now spots at db =
      ground (arith, save_streak (record_outside distance centre now (migrate db)))

  observed_streak :
      (now : ℕ) (spot : PublicSpot Place) (at : Place) (s : BehaviorState)
      → length (observed distance centre now spot at s).inside_streak_spot_ids
        ≤ 1 + length s.inside_streak_spot_ids
  unfolding observed record_inside
  observed_streak now spot at s = ground (
    arith,
    length-add_place 4 (same_reward_location distance centre spot s.inside_streak_spot_ids)
        spot.spot_id s.inside_streak_spot_ids,
  )

  claim_streak :
      (user_id now : ℕ) (claimable : Bool) (spot : PublicSpot Place) (at : Place) (db : Stored)
      → streak_length (observe_signed_claim distance centre user_id now claimable spot at db).1
        ≤ 1 + streak_length db
  unfolding observe_signed_claim settle consume_episode
  claim_streak user_id now claimable spot at db =
      let s = observed distance centre now spot at (migrate db) in
      ground (
        arith,
        save_streak s,
        save_streak (consume_episode now s),
        observed_streak now spot at (migrate db),
      )

  run_streak :
      (actions : List (Action Place)) (db : Stored)
      → streak_length (run distance centre actions db) ≤ claims actions + streak_length db
  unfolding run act
  run_streak [] db = omega arith
  run_streak (poll now spots at ∷ rest) db =
      let db' = act distance centre (poll now spots at) db in
      omega (arith, run_streak rest db', poll_streak now spots at db)
  run_streak (claim user_id now claimable spot at ∷ rest) db =
      let db' = act distance centre (claim user_id now claimable spot at) db in
      omega (arith, run_streak rest db', claim_streak user_id now claimable spot at db)

  -- An account with no streak is not restricted by its first three claims, whatever polls fall among
  -- them and wherever they are made.
  pub first_three_unrestricted :
      (actions : List (Action Place)) (db : Stored) (user_id now : ℕ) (claimable : Bool)
      (spot : PublicSpot Place) (at : Place)
      → (migrate db).inside_streak_spot_ids ≡ []
      → claims actions ≤ 2
      → (observe_signed_claim distance centre user_id now claimable spot at
          (run distance centre actions db)).2
        ≡ none
  unfolding observe_signed_claim settle new_evidence_matured
  first_three_unrestricted actions db user_id now claimable spot at e h =
      let db' = run distance centre actions db in
      let start : streak_length db ≡ 0 = rw e in
      let few = run_streak actions db in
      let last = observed_streak now spot at (migrate db') in ground (arith, start, few, last)
