-- ===== src/Throttle/Reserve/Ledger.antt =====
-- How the steps of `reserve_payout_slot` change the list of reservations.
use nim_hunt.Prelude.{
  ℕ, ◌+◌, ◌≤◌, ◌≡◌, refl, ap, ◌∙◌, ◌⊎◌, inl, inr, Bool, true, false, List, [], ◌∷◌, ◌++◌, map,
  arith, ltb, ◌==◌, any, total, filter, All, Bool-cases, Option-cases, All-filter, any-append,
}
use nim_hunt.Tables.{get_claim}
use nim_hunt.Throttle.Decision.{Limits}
use nim_hunt.Throttle.Window.{Reservation}
use nim_hunt.Throttle.Ledger.{Store, clean_reservations, prune_reservations, pays, unexpired}
use nim_hunt.Throttle.Ledger.Prune.{total-prune}
use nim_hunt.Throttle.Reserve.{resolve_spot, pruned_ledger, others, renew, renew_first}

abbrev pub of_claim : ℕ → Reservation → Bool
of_claim c r = r.claim_id == c

-- No claim holds two reservations.
abbrev pub IsUnique : List Reservation → Type 0
IsUnique [] = Unit
IsUnique (r ∷ rs) = (any (of_claim r.claim_id) rs ≡ false) × IsUnique rs

-- A measure that does not read the Spot is the same after the Spots were resolved.
total-resolve_spot :
    (db : Store) (f : Reservation → ℕ)
    → ((r : Reservation) (s : ℕ) → f (record r { spot_id = s }) ≡ f r)
    → (rs : List Reservation) → total f (map (resolve_spot db) rs) ≡ total f rs
unfolding resolve_spot
total-resolve_spot db f same [] = refl
total-resolve_spot db f same (r ∷ rs) = elim (Bool-cases (ltb 0 r.spot_id)) [
  | inl e ↦ rw e (ap (λ t. f r + t) (total-resolve_spot db f same rs))
  | inr e ↦ rw e (elim (Option-cases (get_claim db.claims r.claim_id)) [
    | inl n ↦ rw n (ap (λ t. f r + t) (total-resolve_spot db f same rs))
    | inr (c, s) ↦ rw s (omega (arith, same r c.spot_id, total-resolve_spot db f same rs))
  ])
]

-- Pruning keeps what every such measure counts.
pub total-pruned_ledger :
    (lim : Limits) (db : Store) (now : ℕ) (f : Reservation → ℕ)
    → ((r : Reservation) (s : ℕ) → f (record r { spot_id = s }) ≡ f r)
    → ((r : Reservation)
        → (f r ≡ 0) ⊎ ((unexpired lim now r ≡ true) × (any (pays r.claim_id) db.trans ≡ false)))
    → total f (pruned_ledger lim db now) ≡ total f (clean_reservations db.ledger)
unfolding pruned_ledger
total-pruned_ledger lim db now f same zero_off =
    total-prune lim db now f zero_off _ ∙ total-resolve_spot db f same _

-- A predicate of the reservations that does not read the Spot survives the pruning.
pub All-pruned_ledger :
    (P : Reservation → Type 0) (lim : Limits) (db : Store) (now : ℕ)
    → ((r : Reservation) → P r → P (resolve_spot db r))
    → All P (clean_reservations db.ledger)
    → All P (pruned_ledger lim db now)
unfolding pruned_ledger prune_reservations
All-pruned_ledger P lim db now keep h = All-filter P _ _ (over (clean_reservations db.ledger) h)
  where
    over : (rs : List Reservation) → All P rs → All P (map (resolve_spot db) rs)
    over [] h = tt
    over (r ∷ rs) h = (keep r h.0, over rs h.1)

any-filter :
    (p q : Reservation → Bool) (rs : List Reservation)
    → any p rs ≡ false
    → any p (filter q rs) ≡ false
any-filter p q [] h = refl
any-filter p q (r ∷ rs) h = ground (arith, any-filter p q rs)

filter-IsUnique :
    (q : Reservation → Bool) (rs : List Reservation) → IsUnique rs → IsUnique (filter q rs)
filter-IsUnique q [] h = tt
filter-IsUnique q (r ∷ rs) h = elim (Bool-cases (q r)) [
  | inl e ↦ rw e (any-filter (of_claim r.claim_id) q rs h.0, filter-IsUnique q rs h.1)
  | inr e ↦ rw e (filter-IsUnique q rs h.1)
]

resolve_spot-claim_id : (db : Store) (r : Reservation) → (resolve_spot db r).claim_id ≡ r.claim_id
unfolding resolve_spot
resolve_spot-claim_id db r = ground arith

any-resolve_spot :
    (db : Store) (c : ℕ) (rs : List Reservation)
    → any (of_claim c) (map (resolve_spot db) rs) ≡ any (of_claim c) rs
any-resolve_spot db c [] = refl
any-resolve_spot db c (r ∷ rs) = rw (resolve_spot-claim_id db r, any-resolve_spot db c rs)

map-resolve_spot-IsUnique :
    (db : Store) (rs : List Reservation) → IsUnique rs → IsUnique (map (resolve_spot db) rs)
map-resolve_spot-IsUnique db [] h = tt
map-resolve_spot-IsUnique db (r ∷ rs) h = (
  rw (resolve_spot-claim_id db r, any-resolve_spot db r.claim_id rs) h.0,
  map-resolve_spot-IsUnique db rs h.1,
)

pub pruned_ledger-IsUnique :
    (lim : Limits) (db : Store) (now : ℕ)
    → IsUnique (clean_reservations db.ledger)
    → IsUnique (pruned_ledger lim db now)
unfolding pruned_ledger prune_reservations
pruned_ledger-IsUnique lim db now h = filter-IsUnique _ _ (map-resolve_spot-IsUnique db _ h)

-- A new reservation of a claim that holds none.
pub snoc-IsUnique :
    (rs : List Reservation) (new : Reservation)
    → any (of_claim new.claim_id) rs ≡ false
    → IsUnique rs
    → IsUnique (rs ++ new ∷ [])
snoc-IsUnique [] new h u = (refl, tt)
snoc-IsUnique (r ∷ rs) new h u = (
  ground (arith, any-append (of_claim r.claim_id) rs (new ∷ [])),
  snoc-IsUnique rs new (ground arith) u.1,
)

renew_first-any :
    (lim : Limits) (now c d : ℕ) (rs : List Reservation)
    → any (of_claim d) (renew_first lim now c rs) ≡ any (of_claim d) rs
unfolding renew_first renew
renew_first-any lim now c d [] = refl
renew_first-any lim now c d (r ∷ rs) = ground (arith, renew_first-any lim now c d rs)

pub renew_first-IsUnique :
    (lim : Limits) (now c : ℕ) (rs : List Reservation)
    → IsUnique rs
    → IsUnique (renew_first lim now c rs)
unfolding renew_first renew
renew_first-IsUnique lim now c [] u = u
renew_first-IsUnique lim now c (r ∷ rs) u =
    ground (arith, renew_first-any lim now c r.claim_id rs, renew_first-IsUnique lim now c rs u.1)

pub All-renew_first :
    (P : Reservation → Type 0) (lim : Limits) (now c : ℕ) (rs : List Reservation)
    → ((r : Reservation) → P r → P (renew lim now r))
    → All P rs
    → All P (renew_first lim now c rs)
unfolding renew_first
All-renew_first P lim now c [] keep h = h
All-renew_first P lim now c (r ∷ rs) keep h = elim (Bool-cases (r.claim_id == c)) [
  | inl e ↦ rw e (keep r h.0, h.1)
  | inr e ↦ rw e (h.0, All-renew_first P lim now c rs keep h.1)
]

total-others :
    (f : Reservation → ℕ) (c : ℕ) (rs : List Reservation)
    → any (of_claim c) rs ≡ false
    → total f (others c rs) ≡ total f rs
unfolding others
total-others f c [] h = refl
total-others f c (r ∷ rs) h = ground (arith, total-others f c rs)

-- The ledger with a claim's reservation renewed: the others, and at most that one.
pub total-renew_first :
    (f : Reservation → ℕ) (bound : ℕ) (lim : Limits) (now c : ℕ) (rs : List Reservation)
    → All (λ r. r.claim_id ≡ c → f (renew lim now r) ≤ bound) rs
    → IsUnique rs
    → total f (renew_first lim now c rs) ≤ total f (others c rs) + bound
unfolding renew_first others
total-renew_first f bound lim now c [] b u = omega arith
total-renew_first f bound lim now c (r ∷ rs) b u = elim (Bool-cases (r.claim_id == c)) [
  | inl e ↦
      let same : r.claim_id ≡ c = ground arith in
      rw e (omega (arith, b.0 same, total-others f c rs (rw same at u.0)))
  | inr e ↦ rw e (omega (arith, total-renew_first f bound lim now c rs b.1 u.1))
]
