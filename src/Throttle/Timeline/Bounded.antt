-- ===== src/Throttle/Timeline/Bounded.antt =====
-- The throttle's promise at every reachable moment.
use nim_hunt.Prelude.{ℕ, ◌≤◌, ◌≡◌, false, List, ◌∷◌, arith, total}
use nim_hunt.Tables.{Trans}
use nim_hunt.Throttle.Decision.{Limits}
use nim_hunt.Throttle.Window.{Reservation}
use nim_hunt.Throttle.Ledger.{clean_reservations, is_payout}
use nim_hunt.Throttle.Exposure.{made, exposure_mono}
use nim_hunt.Throttle.Reserve.Safety.{IsBounded, short, daily}
use nim_hunt.Throttle.Reserve.Preserves.{reserve_payout_slot-IsSafe}
use nim_hunt.Throttle.Timeline.{
  Moment, IsCovered, Step, wait, reserve, pay, record_other, elsewhere, Reach, here, next, SafeAt,
  exposure_other, exposure_covered,
}

wait-IsBounded :
    (lim : Limits) (now later : ℕ) (trans : List Trans) (rs : List Reservation)
    → now ≤ later
    → IsBounded lim now trans rs
    → IsBounded lim later trans rs
wait-IsBounded lim now later trans rs h b = record {
  short_count =
      omega (
        arith,
        exposure_mono (λ a. 1) short lim.window_seconds now later trans rs h,
        b.short_count,
      );
  short_amount =
      omega (
        arith,
        exposure_mono (λ a. a) short lim.window_seconds now later trans rs h,
        b.short_amount,
      );
  daily_count = omega (
    arith,
    exposure_mono (λ a. 1) daily lim.daily_window_seconds now later trans rs h,
    b.daily_count,
  );
  daily_amount = omega (
    arith,
    exposure_mono (λ a. a) daily lim.daily_window_seconds now later trans rs h,
    b.daily_amount,
  );
}

other-IsBounded :
    (lim : Limits) (now : ℕ) (trans : List Trans) (t : Trans) (rs : List Reservation)
    → is_payout t ≡ false
    → IsBounded lim now trans rs
    → IsBounded lim now (t ∷ trans) rs
other-IsBounded lim now trans t rs h b = record {
  short_count =
      omega
        (arith, exposure_other (λ a. 1) short lim.window_seconds now trans t rs h, b.short_count);
  short_amount =
      omega
        (arith, exposure_other (λ a. a) short lim.window_seconds now trans t rs h, b.short_amount);
  daily_count = omega (
    arith,
    exposure_other (λ a. 1) daily lim.daily_window_seconds now trans t rs h,
    b.daily_count,
  );
  daily_amount = omega (
    arith,
    exposure_other (λ a. a) daily lim.daily_window_seconds now trans t rs h,
    b.daily_amount,
  );
}

pay-IsBounded :
    (lim : Limits) (m : Moment) (t : Trans) (r : Reservation)
    → IsCovered lim m t r
    → IsBounded lim m.now m.db.trans (clean_reservations m.db.ledger)
    → IsBounded lim m.now (t ∷ m.db.trans) (clean_reservations m.db.ledger)
pay-IsBounded lim m t r c b = record {
  short_count = omega (
    arith,
    exposure_covered (λ a. 1) short lim.window_seconds m.now m.db.trans t _ c.claim_id c.payout
        c.amount c.held c.short_live c.unpaid,
    b.short_count,
  );
  short_amount = omega (
    arith,
    exposure_covered (λ a. a) short lim.window_seconds m.now m.db.trans t _ c.claim_id c.payout
        c.amount c.held c.short_live c.unpaid,
    b.short_amount,
  );
  daily_count = omega (
    arith,
    exposure_covered (λ a. 1) daily lim.daily_window_seconds m.now m.db.trans t _ c.claim_id
        c.payout c.amount c.held c.daily_live c.unpaid,
    b.daily_count,
  );
  daily_amount = omega (
    arith,
    exposure_covered (λ a. a) daily lim.daily_window_seconds m.now m.db.trans t _ c.claim_id
        c.payout c.amount c.held c.daily_live c.unpaid,
    b.daily_amount,
  );
}

Step-SafeAt :
    (lim : Limits) (reward : ℕ → ℕ) (m : Moment) {n : Moment}
    → SafeAt lim reward m
    → Step lim reward m n
    → SafeAt lim reward n
Step-SafeAt lim reward m s (wait later h) = record {
  unique = s.unique;
  rewards = s.rewards;
  bounded = wait-IsBounded lim m.now later m.db.trans _ h s.bounded;
}
Step-SafeAt lim reward m s (reserve claim_id d db' n e) =
    (reserve_payout_slot-IsSafe lim reward m.db m.now claim_id n s e).1
Step-SafeAt lim reward m s (pay t r c) = record {
  unique = s.unique;
  rewards = s.rewards;
  bounded = pay-IsBounded lim m t r c s.bounded;
}
Step-SafeAt lim reward m s (record_other t h) = record {
  unique = s.unique;
  rewards = s.rewards;
  bounded = other-IsBounded lim m.now m.db.trans t _ h s.bounded;
}
Step-SafeAt lim reward m s (elsewhere db' e l) = rw (e, l) s

pub Reach-SafeAt :
    (lim : Limits) (reward : ℕ → ℕ) (m : Moment) {n : Moment}
    → SafeAt lim reward m
    → Reach lim reward m n
    → SafeAt lim reward n
Reach-SafeAt lim reward m s here = s
Reach-SafeAt lim reward m s (next {k = k} r st) =
    Step-SafeAt lim reward k (Reach-SafeAt lim reward m s r) st

-- From a moment at which the ledger is safe, whatever sequence of reservations, covered payouts,
-- other transactions and waiting follows, the claim payouts made within the last short window and
-- within the last daily window stay within the configured count and the configured amount.
pub Reach-payouts_bounded :
    (lim : Limits) (reward : ℕ → ℕ) (m : Moment) {n : Moment}
    → SafeAt lim reward m
    → Reach lim reward m n
    → (total (made (λ a. 1) lim.window_seconds n.now) n.db.trans ≤ lim.max_payout_count)
      × (total (made (λ a. a) lim.window_seconds n.now) n.db.trans ≤ lim.max_payout_luna)
      × (total (made (λ a. 1) lim.daily_window_seconds n.now) n.db.trans
          ≤ lim.daily_max_payout_count)
      × (total (made (λ a. a) lim.daily_window_seconds n.now) n.db.trans
          ≤ lim.daily_max_payout_luna)
Reach-payouts_bounded lim reward m s r =
    let b = (Reach-SafeAt lim reward m s r).bounded in
    (
      omega (arith, b.short_count),
      omega (arith, b.short_amount),
      omega (arith, b.daily_count),
      omega (arith, b.daily_amount),
    )
