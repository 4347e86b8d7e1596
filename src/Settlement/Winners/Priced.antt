-- ===== src/Settlement/Winners/Priced.antt =====
-- The amounts of winners' payouts, against their prizes.
use nim_hunt.Prelude.{
  ℕ, ◌≡◌, subst, sym, inl, inr, true, not, ◌==◌, none, some, List, [], ◌∷◌, arith, All,
  Option-cases, if-holds, length, Option,
}
use nim_hunt.Outbox.{Row, Surroundings}
use nim_hunt.Outbox.Store.{Db, ClaimRow, has_nonfailed_claim_payout}
use nim_hunt.Settlement.Payouts.{PaySpot, pay_spot, submit_claim_reward_transaction}
use nim_hunt.Settlement.Payouts.Priced.{IsAt, due-eq, submit-IsAt}
use nim_hunt.Settlement.Winners.{
  pending_winners, prizes_at, prize_of, due_prize, PrizeJob, payout_recorded, missing_payout_amount,
  send_prize, prize_jobs, has_confirmed_claim_payout, succeed_paid, Outcome, also, has_raised,
  Others, send_prizes, retry_winners, retry_pending_prizedraw_payouts_for_spot, is_completed,
  PrizeReply,
}

module _ (k : ℕ) (prizes : List (ℕ × ℕ)) where
  abbrev price : ℕ
  price = prize_of k prizes

  abbrev IsRight : PrizeJob → Type 0
  IsRight (send_prize id amount) = (id == k) ≡ true → amount ≡ price
  IsRight _ = Unit

  due-right :
      (rows : List Row) (id : ℕ)
      → All (IsAt k price) rows
      → (id == k) ≡ true
      → due_prize prizes id rows ≡ price
  due-right rows id at e =
      let q : id ≡ k = ground arith in
      subst (λ i. due_prize prizes i rows ≡ price) (sym q) (due-eq k price rows at)

  jobs-IsRight :
      (rows : List Row) (cs : List ClaimRow)
      → All (IsAt k price) rows
      → All IsRight (prize_jobs prizes rows cs)
  unfolding prize_jobs
  jobs-IsRight rows [] at = tt
  jobs-IsRight rows (c ∷ cs) at =
      let rest = jobs-IsRight rows cs at in
      if-holds (λ js. All IsRight js) (has_confirmed_claim_payout c.claim_id rows) _ _ (λ p. rest)
        λ p. (
          if-holds IsRight (has_nonfailed_claim_payout c.claim_id rows) _ _ (λ q. tt)
              λ q.
                if-holds IsRight (due_prize prizes c.claim_id rows == 0) _ _ (λ r. tt)
                  (λ r. due-right rows c.claim_id at),
          rest,
        )

  module _ (w : Surroundings) (o : Others) (spots : List PaySpot)
      (keeps : (id : ℕ) (db : Db)
        → All (IsAt k price) db.rows
        → All (IsAt k price) (o.meanwhile id db).rows) where
    also-keeps :
        (x : Outcome) (r : Option (List Outcome) × List Row)
        → All (IsAt k price) r.1
        → All (IsAt k price) (also x r).1
    also-keeps x (none, rows) at = at
    also-keeps x (some os, rows) at = at

    send-IsAt :
        (jobs : List PrizeJob) (db : Db)
        → All IsRight jobs
        → All (IsAt k price) db.rows
        → All (IsAt k price) (send_prizes w o spots jobs db).1
    unfolding send_prizes
    send-IsAt [] db right at = at
    send-IsAt (payout_recorded id ∷ jobs) db right at =
        also-keeps _ _ (send-IsAt jobs db right.1 at)
    send-IsAt (missing_payout_amount id ∷ jobs) db right at =
        also-keeps _ _ (send-IsAt jobs db right.1 at)
    send-IsAt (send_prize id amount ∷ jobs) db right at =
        let now_ = o.meanwhile id db in
        let at_now = keeps id db at in
        let sent = submit-IsAt w (o.sending id) spots id amount k price now_ now_ right.0 at_now in
        if-holds (λ (r : Option (List Outcome) × List Row). All (IsAt k price) r.1) (o.held id) _ _
          (λ p. also-keeps _ _ (send-IsAt jobs now_ right.1 at_now))
          λ p.
            if-holds (λ (r : Option (List Outcome) × List Row). All (IsAt k price) r.1)
              (has_raised
                (submit_claim_reward_transaction w (o.sending id) spots id amount now_ now_).0)
              _ _ (λ q. sent) (λ q. also-keeps _ _ (send-IsAt jobs _ right.1 sent))

-- A retry of a Prizedraw's payouts, whatever the helper answers and wherever it ends, keeps every
-- payout of a claim at the prize that the winners on record give the claim, where it was at it and other
-- workers keep it there.
pub retry_pending_prizedraw_payouts_for_spot-IsAt :
    (w : Surroundings) (o : Others) (spots : List PaySpot) (s : PaySpot) (db : Db) (k : ℕ)
    → pay_spot spots s.spot_id ≡ some s
    → ((id : ℕ) (d : Db)
        → All (IsAt k (prize_of k (prizes_at s db))) d.rows
        → All (IsAt k (prize_of k (prizes_at s db))) (o.meanwhile id d).rows)
    → All (IsAt k (prize_of k (prizes_at s db))) db.rows
    → All
        (IsAt k (prize_of k (prizes_at s db)))
        (retry_pending_prizedraw_payouts_for_spot w o spots s.spot_id db).2
unfolding retry_pending_prizedraw_payouts_for_spot retry_winners
retry_pending_prizedraw_payouts_for_spot-IsAt w o spots s db k there keeps at =
    rw (retry_pending_prizedraw_payouts_for_spot, there)
      (if-holds Keeps (not (is_completed s.status)) _ _ (λ p. at)
        λ p. elim (Option-cases s.prize_count) [
          | inl e ↦ rw e at
          | inr (n, e) ↦ rw e (
              if-holds Keeps (length winners == 0) _ _ (λ q. at)
                λ q.
                  send-IsAt k prizes w o spots keeps (prize_jobs prizes db.rows winners)
                    (record db { claims = succeed_paid db.rows winners db.claims })
                    (jobs-IsRight k prizes db.rows winners at) at)
        ])
  where
    prizes : List (ℕ × ℕ)
    prizes = prizes_at s db

    winners : List ClaimRow
    winners = pending_winners s.spot_id db.claims

    Keeps : PrizeReply × List ClaimRow × List Row → Type 0
    Keeps r = All (IsAt k (prize_of k prizes)) r.2
