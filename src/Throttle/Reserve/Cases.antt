-- ===== src/Throttle/Reserve/Cases.antt =====
-- What a call of `reserve_payout_slot` can do to the reservations.
use nim_hunt.Prelude.{
  ℕ, ◌≡◌, refl, inl, inr, true, false, none, some, List, [], ◌∷◌, ◌++◌, arith, find, any,
  Bool-cases, Option-cases,
}
use nim_hunt.Throttle.Decision.{Limits, Decision, throttle_decision}
use nim_hunt.Throttle.Window.{Reservation}
use nim_hunt.Throttle.Ledger.{Store}
use nim_hunt.Throttle.Reserve.{
  Request, short_view, daily_view, others, renew_first, new_reservation, admit, recheck, create,
  reuse, materialised, reserve_request,
}
use nim_hunt.Throttle.Reserve.Ledger.{of_claim}

-- The global throttle's answer where some reservations are counted.
abbrev pub throttle : Limits → Request → List Reservation → Decision
throttle lim q rs =
    throttle_decision lim (short_view lim q rs).0 q.amount (some (daily_view lim q rs).0)

-- The Spot's rules only refuse what the global throttle lets through.
pub admit-throttle :
    (lim : Limits) (db : Store) (q : Request)
    → (admit lim db q).allow ≡ true
    → (throttle lim q q.reservations).allow ≡ true
unfolding admit
admit-throttle lim db q h = ground arith

pub recheck-throttle :
    (lim : Limits) (db : Store) (q : Request)
    → (recheck lim db q).allow ≡ true
    → (throttle lim q (others q.claim_id q.reservations)).allow ≡ true
unfolding recheck
recheck-throttle lim db q h = ground arith

find-any :
    (c : ℕ) (rs : List Reservation) → find (of_claim c) rs ≡ none → any (of_claim c) rs ≡ false
find-any c [] h = refl
find-any c (r ∷ rs) h = ground (arith, find-any c rs)

-- The reservations stay as they were read; or the claim had none, the throttle had room, and one
-- was added; or the claim's own was renewed, and the throttle had room beside the others.
pub data Change (lim : Limits) (q : Request) (rs : List Reservation) : Type 0 where
  unchanged : rs ≡ q.reservations → Change lim q rs
  added :
      rs ≡ q.reservations ++ new_reservation q ∷ []
      → any (of_claim q.claim_id) q.reservations ≡ false
      → (throttle lim q q.reservations).allow ≡ true
      → Change lim q rs
  renewed :
      rs ≡ renew_first lim q.now q.claim_id q.reservations
      → (throttle lim q (others q.claim_id q.reservations)).allow ≡ true
      → Change lim q rs

create-Change :
    (lim : Limits) (db : Store) (q : Request)
    → find (of_claim q.claim_id) q.reservations ≡ none
    → Change lim q (create lim db q).reservations
unfolding create
create-Change lim db q e = elim (Bool-cases (admit lim db q).allow) [
  | inl h ↦ added (rw h) (find-any q.claim_id q.reservations e) (admit-throttle lim db q h)
  | inr h ↦ unchanged (rw h)
]

reuse-Change :
    (lim : Limits) (db : Store) (q : Request) → Change lim q (reuse lim db q).reservations
unfolding reuse
reuse-Change lim db q = elim (Bool-cases (recheck lim db q).allow) [
  | inl h ↦ renewed (rw h) (recheck-throttle lim db q h)
  | inr h ↦ unchanged (rw h)
]

pub reserve_request-Change :
    (lim : Limits) (db : Store) (q : Request) → Change lim q (reserve_request lim db q).reservations
unfolding reserve_request
reserve_request-Change lim db q = elim (Bool-cases (materialised lim q)) [
  | inl m ↦ unchanged (rw m)
  | inr m ↦ rw m (elim (Option-cases (find (of_claim q.claim_id) q.reservations)) [
    | inl e ↦ rw e (create-Change lim db q e)
    | inr (r, e) ↦ rw e (reuse-Change lim db q)
  ])
]
