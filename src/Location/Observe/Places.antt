-- ===== src/Location/Observe/Places.antt =====
-- The places behind a restriction: how far apart they are, and what was claimed there.
use nim_hunt.Prelude.{
  All-weaken, ℕ, ◌*◌, ◌≤◌, ◌≡◌, Bool, true, false, ◌&&◌, Option, some, List, [], ◌∷◌, ◌++◌, arith,
  leb, ◌==◌, All, length, any,
}
use nim_hunt.Location.State.{
  Stored, migrate, inside_streak_locations_required, centre_distinct_locations_required,
}
use nim_hunt.Location.Observe.{
  PublicSpot, Event, Action, poll, claim, run, observe_signed_claim, near_exact_centre,
}
use nim_hunt.Location.Observe.Separate.{IsSeparate, Brings, run-Holds, event-Holds}

-- Claims inside a given Spot, and claims so near its centre that they count as exact.
abbrev pub claimed_inside {ℓ} : {Place : Type ℓ} → (Place → Place → ℕ) → ℕ → Action Place → Bool
claimed_inside distance id (poll now spots at) = false
claimed_inside distance id (claim user_id now claimable spot at) =
    spot.spot_id == id && leb (distance at spot.place) (spot.radius * 10)

abbrev pub claimed_near {ℓ} : {Place : Type ℓ} → (Place → Place → ℕ) → ℕ → Action Place → Bool
claimed_near distance id (poll now spots at) = false
claimed_near distance id (claim user_id now claimable spot at) =
    spot.spot_id == id && leb (distance at spot.place) near_exact_centre

-- Every item of a list that passes a test shows that some item does.
All-any {ℓ} :
    {A : Type ℓ} (p : ℕ → A → Bool) (xs : List A)
    → All (λ x. (i : ℕ) → p i x ≡ true → any (p i) xs ≡ true) xs
All-any p [] = tt
All-any p (x ∷ xs) = (
  λ i h. ground arith,
  All-weaken (λ y. (i : ℕ) → p i y ≡ true → any (p i) xs ≡ true)
      (λ y. (i : ℕ) → p i y ≡ true → any (p i) (x ∷ xs) ≡ true) (λ y h i e. ground (arith, h i e))
      xs (All-any p xs),
)

All-split {ℓ κ} :
    {A : Type ℓ} (P : A → Type κ) (xs ys : List A) → All P (xs ++ ys) → All P xs × All P ys
All-split P [] ys h = (tt, h)
All-split P (x ∷ xs) ys h = let (a, b) = All-split P xs ys h.1 in ((h.0, a), b)

module _ {ℓ} {Place : Type ℓ} (distance : Place → Place → ℕ) (centre : ℕ → Option Place) where
  -- A claim reads its Spot's centre from the table.
  abbrev pub IsKnown : Action Place → Type ℓ
  IsKnown (poll now spots at) = Unit {ℓ}
  IsKnown (claim user_id now claimable spot at) = centre spot.spot_id ≡ some spot.place

  module _ (all : List (Action Place)) where
    abbrev Inside : ℕ → Type 0
    Inside i = any (claimed_inside distance i) all ≡ true

    abbrev Near : ℕ → Type 0
    Near i = any (claimed_near distance i) all ≡ true

    known-Brings :
        (a : Action Place)
        → IsKnown a
        → ((i : ℕ) → claimed_inside distance i a ≡ true → Inside i)
        → ((i : ℕ) → claimed_near distance i a ≡ true → Near i)
        → Brings distance centre Inside Near a
    known-Brings (poll now spots at) k p q = tt
    known-Brings (claim user_id now claimable spot at) k p q =
        (k, (λ e. p spot.spot_id (ground (arith, e))), (λ e. q spot.spot_id (ground (arith, e))))

    All-Brings :
        (xs : List (Action Place))
        → All IsKnown xs
        → All (λ a. (i : ℕ) → claimed_inside distance i a ≡ true → Inside i) xs
        → All (λ a. (i : ℕ) → claimed_near distance i a ≡ true → Near i) xs
        → All (Brings distance centre Inside Near) xs
    All-Brings [] k p q = tt
    All-Brings (a ∷ rest) k p q = (known-Brings a k.0 p.0 q.0, All-Brings rest k.1 p.1 q.1)

  -- A claim that restricts an account which began with no evidence rests on the account's own claims,
  -- this one among them: on at least four Spots inside whose radius it claimed, and on at least three
  -- within a metre and a half of whose centre it claimed, where in either list no two Spots are one
  -- or have their centres within 25 metres.
  pub event_rests_on_places :
      (actions : List (Action Place)) (db : Stored) (user_id now : ℕ) (claimable : Bool)
      (spot : PublicSpot Place) (at : Place) (e : Event)
      → (migrate db).inside_streak_spot_ids ≡ []
      → (migrate db).centre_location_spot_ids ≡ []
      → All IsKnown (actions ++ claim user_id now claimable spot at ∷ [])
      → (observe_signed_claim distance centre user_id now claimable spot at
          (run distance centre actions db)).2
        ≡ some e
      → let all = actions ++ claim user_id now claimable spot at ∷ [] in
        ((ids : List ℕ) × (inside_streak_locations_required ≤ length ids)
          × IsSeparate distance centre ids
          × All (λ i. any (claimed_inside distance i) all ≡ true) ids)
        × ((ids : List ℕ) × (centre_distinct_locations_required ≤ length ids)
            × IsSeparate distance centre ids
            × All (λ i. any (claimed_near distance i) all ≡ true) ids)
  event_rests_on_places actions db user_id now claimable spot at e no_streak no_centres known
        event =
      let last = claim user_id now claimable spot at in
      let all = actions ++ last ∷ [] in
      let brings =
        All-Brings all all known (All-any (claimed_inside distance) all)
          (All-any (claimed_near distance) all) in
      let (first, then) =
        All-split (Brings distance centre (Inside all) (Near all)) actions (last ∷ []) brings in
      let (a, b) =
        event-Holds distance centre (Inside all) (Near all) user_id now claimable spot at
          (run distance centre actions db) e then.0
          (run-Holds distance centre (Inside all) (Near all) actions db first
            (rw (no_streak, no_centres) ((tt, tt), (tt, tt))))
          event in
      ((a.0, a.1, a.2.0, a.2.1), (b.0, b.1, b.2.0, b.2.1))
