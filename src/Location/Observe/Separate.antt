-- ===== src/Location/Observe/Separate.antt =====
-- The lists of the state hold Spots that are apart, and keep what each claim brings.
use Prim.Native.Nat.{zero, suc}
use nim_hunt.Prelude.{
  ℕ, ◌*◌, ◌≤◌, ◌≡◌, refl, Bool, true, false, ◌&&◌, ◌||◌, not, Option, none, some, List, [], ◌∷◌,
  ◌++◌, arith, leb, ◌==◌, All, Bool-cases, inl, inr, length, take, any, All-append,
}
use nim_hunt.Location.State.{
  BehaviorState, Stored, current, migrate, save, consume_episode, new_evidence_matured,
  inside_streak_locations_required, centre_distinct_locations_required,
}
use nim_hunt.Location.Observe.{
  is_retry, PublicSpot, Event, Action, poll, claim, act, run, observe_find_location,
  same_reward_location, is_same_location, near_exact_centre, same_reward_location_distance,
  observe_signed_claim, settle, observed, record_outside, record_inside, add_place,
}

module _ {ℓ} {Place : Type ℓ} (distance : Place → Place → ℕ) (centre : ℕ → Option Place) where
  abbrev pub is_apart : ℕ → ℕ → Bool
  is_apart prior id =
      not (prior == id)
      && not (elim (centre prior) [
        | none ↦ false
        | some p ↦ elim (centre id) [
          | none ↦ false
          | some q ↦ leb (distance q p) same_reward_location_distance
        ]
      ])

  -- Spots no two of which are one, or have their centres within 25 metres.
  abbrev pub IsSeparate : List ℕ → Type 0
  IsSeparate [] = Unit
  IsSeparate (x ∷ xs) = All (λ y. is_apart x y ≡ true) xs × IsSeparate xs

  apart_from :
      (spot : PublicSpot Place) (x : ℕ)
      → centre spot.spot_id ≡ some spot.place
      → is_same_location distance centre spot x ≡ false
      → is_apart x spot.spot_id ≡ true
  apart_from spot x known apart = ground arith

  snoc-IsSeparate :
      (spot : PublicSpot Place) (ids : List ℕ)
      → centre spot.spot_id ≡ some spot.place
      → any (is_same_location distance centre spot) ids ≡ false
      → IsSeparate ids
      → IsSeparate (ids ++ spot.spot_id ∷ [])
  snoc-IsSeparate spot [] known apart s = (tt, tt)
  snoc-IsSeparate spot (x ∷ xs) known apart s =
      elim (Bool-cases (is_same_location distance centre spot x)) [
        | inl e ↦ cc (rw e at apart)
        | inr e ↦ (
          All-append (λ y. is_apart x y ≡ true) xs (spot.spot_id ∷ []) s.0
              (apart_from spot x known e, tt),
          snoc-IsSeparate spot xs known (rw e at apart) s.1,
        )
      ]

  All-take {κ} : (P : ℕ → Type κ) (n : ℕ) (xs : List ℕ) → All P xs → All P (take n xs)
  All-take P zero xs h = tt
  All-take P (suc n) [] h = tt
  All-take P (suc n) (x ∷ xs) h = (h.0, All-take P n xs h.1)

  take-IsSeparate : (n : ℕ) (xs : List ℕ) → IsSeparate xs → IsSeparate (take n xs)
  take-IsSeparate zero xs h = tt
  take-IsSeparate (suc n) [] h = tt
  take-IsSeparate (suc n) (x ∷ xs) h =
      (All-take (λ y. is_apart x y ≡ true) n xs h.0, take-IsSeparate n xs h.1)

  -- A list of separate Spots, each with some property.
  abbrev IsEvidence : (ℕ → Type 0) → List ℕ → Type 0
  IsEvidence P ids = IsSeparate ids × All P ids

  add_place-IsEvidence :
      (P : ℕ → Type 0) (n : ℕ) (skip : Bool) (spot : PublicSpot Place) (ids : List ℕ)
      → centre spot.spot_id ≡ some spot.place
      → (skip ≡ false → (any (is_same_location distance centre spot) ids ≡ false) × P spot.spot_id)
      → IsEvidence P ids
      → IsEvidence P (add_place n skip spot.spot_id ids)
  add_place-IsEvidence P n true spot ids known new h = h
  add_place-IsEvidence P n false spot ids known new h =
      let (apart, holds) = new refl in
      (
        take-IsSeparate n _ (snoc-IsSeparate spot ids known apart h.0),
        All-take P n _ (All-append P ids (spot.spot_id ∷ []) h.1 (holds, tt)),
      )

  module _ (P Q : ℕ → Type 0) where
    abbrev Holds : BehaviorState → Type 0
    Holds s = IsEvidence P s.inside_streak_spot_ids × IsEvidence Q s.centre_location_spot_ids

    -- What an action must bring for its Spot. A claim reads its Spot's centre from the table.
    abbrev pub Brings : Action Place → Type ℓ
    Brings (poll now spots at) = Unit {ℓ}
    Brings (claim user_id now claimable spot at) =
        (centre spot.spot_id ≡ some spot.place)
        × (leb (distance at spot.place) (spot.radius * 10) ≡ true → P spot.spot_id)
        × (leb (distance at spot.place) near_exact_centre ≡ true → Q spot.spot_id)

    migrate-Holds : (s : BehaviorState) → Holds s → Holds (migrate (current s))
    unfolding migrate
    migrate-Holds s h = (
      (
        take-IsSeparate 4 s.inside_streak_spot_ids h.0.0,
        All-take P 4 s.inside_streak_spot_ids h.0.1,
      ),
      (
        take-IsSeparate 3 s.centre_location_spot_ids h.1.0,
        All-take Q 3 s.centre_location_spot_ids h.1.1,
      ),
    )

    save-Holds : (s : BehaviorState) → Holds s → Holds (migrate (save s))
    unfolding save
    save-Holds s h = migrate-Holds (migrate (current s)) (migrate-Holds s h)

    record_inside-Holds :
        (now : ℕ) (spot : PublicSpot Place) (at : Place) (s : BehaviorState)
        → centre spot.spot_id ≡ some spot.place
        → P spot.spot_id
        → (leb (distance at spot.place) near_exact_centre ≡ true → Q spot.spot_id)
        → Holds s
        → Holds (record_inside distance centre now spot at s)
    unfolding record_inside same_reward_location
    record_inside-Holds now spot at s known p q h = (
      add_place-IsEvidence P 4 _ spot s.inside_streak_spot_ids known (λ e. (e, p)) h.0,
      add_place-IsEvidence Q 3 _ spot s.centre_location_spot_ids known near h.1,
    )
      where
        near :
            (not (leb (distance at spot.place) near_exact_centre)
                || any (is_same_location distance centre spot) s.centre_location_spot_ids)
              ≡ false
            → (any (is_same_location distance centre spot) s.centre_location_spot_ids ≡ false)
              × Q spot.spot_id
        near e = (ground arith, q (ground arith))

    observed-Holds :
        (now : ℕ) (spot : PublicSpot Place) (at : Place) (s : BehaviorState)
        → centre spot.spot_id ≡ some spot.place
        → (leb (distance at spot.place) (spot.radius * 10) ≡ true → P spot.spot_id)
        → (leb (distance at spot.place) near_exact_centre ≡ true → Q spot.spot_id)
        → Holds s
        → Holds (observed distance centre now spot at s)
    unfolding observed
    observed-Holds now spot at s known p q h =
        elim (Bool-cases (is_retry distance centre now spot.spot_id s)) [
          | inl e ↦ rw e h
          | inr e ↦ elim (Bool-cases (leb (distance at spot.place) (spot.radius * 10))) [
            | inl i ↦ rw (e, i) (record_inside-Holds now spot at s known (p i) q h)
            | inr o ↦ rw (e, o) h
          ]
        ]

    record_outside-Holds :
        (now : ℕ) (s : BehaviorState) → Holds s → Holds (record_outside distance centre now s)
    unfolding record_outside
    record_outside-Holds now s h = ((tt, tt), h.1)

    poll-Holds :
        (now : ℕ) (spots : List (PublicSpot Place)) (at : Place) (db : Stored)
        → Holds (migrate db)
        → Holds (migrate (observe_find_location distance centre now spots at db).1)
    unfolding observe_find_location
    poll-Holds now spots at db h =
        let kept =
          save-Holds (record_outside distance centre now (migrate db))
            (record_outside-Holds now (migrate db) h) in
        ground (arith, kept, h)

    settle-Holds :
        (now : ℕ) (s : BehaviorState) → Holds s → Holds (migrate (settle distance centre now s).1)
    unfolding settle consume_episode
    settle-Holds now s h = elim (Bool-cases (new_evidence_matured s)) [
      | inl e ↦ rw e (save-Holds (consume_episode now s) ((tt, tt), (tt, tt)))
      | inr e ↦ rw e (save-Holds s h)
    ]

    claim-Holds :
        (user_id now : ℕ) (claimable : Bool) (spot : PublicSpot Place) (at : Place) (db : Stored)
        → Brings (claim user_id now claimable spot at)
        → Holds (migrate db)
        → Holds (migrate (observe_signed_claim distance centre user_id now claimable spot at db).1)
    unfolding observe_signed_claim
    claim-Holds user_id now claimable spot at db b h =
        let s = observed distance centre now spot at (migrate db) in
        let kept = settle-Holds now s (observed-Holds now spot at (migrate db) b.0 b.1 b.2 h) in
        ground (arith, kept, h)

    pub run-Holds :
        (actions : List (Action Place)) (db : Stored)
        → All Brings actions
        → Holds (migrate db)
        → Holds (migrate (run distance centre actions db))
    unfolding run act
    run-Holds [] db b h = h
    run-Holds (poll now spots at ∷ rest) db b h =
        run-Holds rest (act distance centre (poll now spots at) db) b.1
          (poll-Holds now spots at db h)
    run-Holds (claim user_id now claimable spot at ∷ rest) db b h =
        run-Holds rest (act distance centre (claim user_id now claimable spot at) db) b.1
          (claim-Holds user_id now claimable spot at db b.0 h)

    event_matured :
        (user_id now : ℕ) (claimable : Bool) (spot : PublicSpot Place) (at : Place) (db : Stored)
        (e : Event)
        → (observe_signed_claim distance centre user_id now claimable spot at db).2 ≡ some e
        → new_evidence_matured (observed distance centre now spot at (migrate db)) ≡ true
    unfolding observe_signed_claim settle
    event_matured user_id now claimable spot at db e h = ground arith

    -- What a restriction finds in the lists.
    pub event-Holds :
        (user_id now : ℕ) (claimable : Bool) (spot : PublicSpot Place) (at : Place) (db : Stored)
        (e : Event)
        → Brings (claim user_id now claimable spot at)
        → Holds (migrate db)
        → (observe_signed_claim distance centre user_id now claimable spot at db).2 ≡ some e
        → ((ids : List ℕ) × (inside_streak_locations_required ≤ length ids) × IsEvidence P ids)
          × ((ids : List ℕ) × (centre_distinct_locations_required ≤ length ids) × IsEvidence Q ids)
    unfolding new_evidence_matured
    event-Holds user_id now claimable spot at db e b h event =
        let s = observed distance centre now spot at (migrate db) in
        let matured = event_matured user_id now claimable spot at db e event in
        let holds = observed-Holds now spot at (migrate db) b.0 b.1 b.2 h in
        (
          (s.inside_streak_spot_ids, ground arith, holds.0),
          (s.centre_location_spot_ids, ground arith, holds.1),
        )
