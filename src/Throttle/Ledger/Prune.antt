-- ===== src/Throttle/Ledger/Prune.antt =====
-- What `_prune_reservations` drops: nothing that still counts against a window.
use nim_hunt.Prelude.{
  ℕ, ◌≡◌, refl, ◌⊎◌, inl, inr, true, false, some, List, [], ◌∷◌, arith, any, total, Bool-cases,
  Option-cases,
}
use nim_hunt.Throttle.Decision.{Limits}
use nim_hunt.Throttle.Window.{Reservation}
use nim_hunt.Throttle.Ledger.{Store, Info, classify, keeps, pays, unexpired, prune_reservations}

-- A claim that the join finds is classified by the payouts that stand in TRANS.
classify-materialised :
    (db : Store) (c : ℕ) {info : Info}
    → classify db c ≡ some info
    → info.materialised ≡ any (pays c) db.trans
unfolding classify
classify-materialised db c h = ground arith

-- A reservation that is live in the short or the daily window, of a claim with no payout, is kept.
pub keeps_live :
    (lim : Limits) (db : Store) (now : ℕ) (r : Reservation)
    → unexpired lim now r ≡ true
    → any (pays r.claim_id) db.trans ≡ false
    → keeps lim now r (classify db r.claim_id) ≡ true
unfolding keeps
keeps_live lim db now r live unpaid = elim (Option-cases (classify db r.claim_id)) [
  | inl e ↦ rw e live
  | inr (info, e) ↦ rw e (ground (arith, classify-materialised db r.claim_id e))
]

-- A measure of reservations that is zero off the live and unpaid is the same after the pruning.
pub total-prune :
    (lim : Limits) (db : Store) (now : ℕ) (f : Reservation → ℕ)
    → ((r : Reservation)
        → (f r ≡ 0) ⊎ ((unexpired lim now r ≡ true) × (any (pays r.claim_id) db.trans ≡ false)))
    → (rs : List Reservation) → total f (prune_reservations lim db now rs) ≡ total f rs
unfolding prune_reservations
total-prune lim db now f zero_off [] = refl
total-prune lim db now f zero_off (r ∷ rs) =
    elim (Bool-cases (keeps lim now r (classify db r.claim_id))) [
      | inl e ↦ rw e (omega (arith, total-prune lim db now f zero_off rs))
      | inr e ↦ rw e (elim (zero_off r) [
        | inl z ↦ omega (arith, z, total-prune lim db now f zero_off rs)
        | inr (live, unpaid) ↦ cc (keeps_live lim db now r live unpaid)
      ])
    ]
