-- ===== src/Throttle/Timeline.antt =====
-- The throttle over time: reservations by any worker, payouts that a reservation covers, other
-- transactions, and the clock, in any order.
pub mod Bounded
use nim_hunt.Prelude.{
  ℕ, ◌+◌, ◌≤◌, ◌<◌, ◌≡◌, refl, inl, inr, Bool, true, false, ◌&&◌, ◌||◌, not, Option, none, some,
  List, [], ◌∷◌, arith, ltb, ◌==◌, if◌then◌else◌, any, total, find, All, All-find, find_holds,
  Bool-cases, total_mono,
}
use nim_hunt.Tables.{Trans}
use nim_hunt.Throttle.Decision.{Limits, Decision}
use nim_hunt.Throttle.Window.{Reservation, is_live}
use nim_hunt.Throttle.Ledger.{Store, clean_reservations, is_payout, pays}
use nim_hunt.Throttle.Exposure.{made, reserved, exposure, exposure_mono}
use nim_hunt.Throttle.Reserve.{reserve_payout_slot, ok}
use nim_hunt.Throttle.Reserve.Ledger.{of_claim}
use nim_hunt.Throttle.Reserve.Safety.{IsBounded, short, daily}
use nim_hunt.Throttle.Reserve.Preserves.{IsSafe, reserve_payout_slot-IsSafe}

pub record Moment : Type 0 where
  pub now : ℕ
  pub db : Store

-- A payout that a reservation covers: the transaction row of a claim that holds a reservation, live
-- in both windows, and has no payout yet (TRANS has a unique index on active claim payouts).
pub record IsCovered (lim : Limits) (m : Moment) (t : Trans) (r : Reservation) : Type 0 where
  pub payout : is_payout t ≡ true
  pub claim_id : t.claim_id ≡ some r.claim_id
  pub amount : t.amount ≡ r.amount
  pub held : find (of_claim r.claim_id) (clean_reservations m.db.ledger) ≡ some r
  pub short_live : is_live lim.window_seconds m.now (short r) ≡ true
  pub daily_live : is_live lim.daily_window_seconds m.now (daily r) ≡ true
  pub unpaid : any (pays r.claim_id) m.db.trans ≡ false

pub data Step (lim : Limits) (reward : ℕ → ℕ) (m : Moment) : Moment → Type 0 where
  wait : (later : ℕ) → m.now ≤ later → Step lim reward m (record m { now = later })
  reserve :
      (claim_id : ℕ) (d : Decision) (db' : Store)
      → 0 < m.now
      → reserve_payout_slot lim m.db m.now claim_id (reward claim_id) ≡ ok (d, db')
      → Step lim reward m (record m { db = db' })
  pay :
      (t : Trans) (r : Reservation)
      → IsCovered lim m t r
      → Step lim reward m (record m { db = record m.db { trans = t ∷ m.db.trans } })
  record_other :
      (t : Trans)
      → is_payout t ≡ false
      → Step lim reward m (record m { db = record m.db { trans = t ∷ m.db.trans } })
  elsewhere :
      (db' : Store)
      → db'.trans ≡ m.db.trans
      → db'.ledger ≡ m.db.ledger
      → Step lim reward m (record m { db = db' })

pub data Reach (lim : Limits) (reward : ℕ → ℕ) (m : Moment) : Moment → Type 0 where
  here : Reach lim reward m m
  next : {k n : Moment} → Reach lim reward m k → Step lim reward k n → Reach lim reward m n

abbrev pub SafeAt : Limits → (ℕ → ℕ) → Moment → Type 0
SafeAt lim reward m = IsSafe lim reward m.now m.db.trans (clean_reservations m.db.ledger)

-- A measure that drops the one item found, and rises nowhere.
total_drop :
    (c : ℕ) (f g : Reservation → ℕ) (rs : List Reservation) {r : Reservation}
    → ((x : Reservation) → g x ≤ f x)
    → ((x : Reservation) → of_claim c x ≡ true → g x ≡ 0)
    → find (of_claim c) rs ≡ some r
    → total g rs + f r ≤ total f rs
total_drop c f g [] le zero_at e = cc
total_drop c f g (x ∷ rs) {r} le zero_at e = elim (Bool-cases (of_claim c x)) [
  | inl h ↦
      let s : some x ≡ some r = rw h at e in
      let q : x ≡ r = cc in rw (← q) (omega (arith, zero_at x h, total_mono g f le rs))
  | inr h ↦ omega (arith, le x, total_drop c f g rs le zero_at (rw h at e))
]

-- A transaction that is no payout counts nowhere.
module _ (f : ℕ → ℕ) (stamp : Reservation → ℕ) (seconds now : ℕ) (trans : List Trans)
    (t : Trans) where
  pub exposure_other :
      (rs : List Reservation)
      → is_payout t ≡ false
      → exposure f stamp seconds now (t ∷ trans) rs ≤ exposure f stamp seconds now trans rs
  unfolding pays
  exposure_other rs e = omega (
    arith,
    nothing,
    total_mono (reserved f stamp seconds now (t ∷ trans)) (reserved f stamp seconds now trans) less
        rs,
  )
    where
      nothing : made f seconds now t ≡ 0
      nothing = rw e

      less :
          (r : Reservation)
          → reserved f stamp seconds now (t ∷ trans) r ≤ reserved f stamp seconds now trans r
      less r = rw e (omega arith)

  -- A covered payout takes the place of its reservation.
  pub exposure_covered :
      (rs : List Reservation) {r : Reservation}
      → t.claim_id ≡ some r.claim_id
      → is_payout t ≡ true
      → t.amount ≡ r.amount
      → find (of_claim r.claim_id) rs ≡ some r
      → is_live seconds now (stamp r) ≡ true
      → any (pays r.claim_id) trans ≡ false
      → exposure f stamp seconds now (t ∷ trans) rs ≤ exposure f stamp seconds now trans rs
  unfolding pays
  exposure_covered rs {r} claim payout amount held live unpaid = omega (
    arith,
    made_le,
    total_drop r.claim_id (reserved f stamp seconds now trans)
        (reserved f stamp seconds now (t ∷ trans)) rs less gone held,
    was,
  )
    where
      was : reserved f stamp seconds now trans r ≡ f r.amount
      was = rw (live, unpaid)

      made_le : made f seconds now t ≤ f r.amount
      made_le = rw (← amount) (ground arith)

      less :
          (x : Reservation)
          → reserved f stamp seconds now (t ∷ trans) x ≤ reserved f stamp seconds now trans x
      less x = ground arith

      gone :
          (x : Reservation)
          → of_claim r.claim_id x ≡ true
          → reserved f stamp seconds now (t ∷ trans) x ≡ 0
      gone x h = ground arith
