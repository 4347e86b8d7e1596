-- ===== src/Settlement/Winners/Pool.antt =====
-- What the payouts of a Prizedraw come to, against its pool.
use nim_hunt.Prelude.{
  ℕ, ◌≡◌, refl, sym, ◌≤◌, ◌<◌, inl, inr, true, false, ◌==◌, ltb, List, [], ◌∷◌, arith, total, map,
  length, All, All-weaken, Bool-cases, if-holds, subst,
}
use nim_hunt.Outbox.{Surroundings}
use nim_hunt.Outbox.Store.{Db}
use nim_hunt.Outbox.Check.{Ages}
use nim_hunt.Outbox.Timeline.{Ledger, Truth, Reach}
use nim_hunt.Outbox.Timeline.Once.{Reach-active_once}
use nim_hunt.Settlement.Prizes.{insert_id, clean_ids, prize_amounts_by_claim_id}
use nim_hunt.Settlement.Prizes.Pool.{prize_amounts_by_claim_id-pool}
use nim_hunt.Settlement.Payouts.Priced.{IsAt}
use nim_hunt.Settlement.Payouts.Budget.{amount_for, amounts-le}
use nim_hunt.Settlement.Winners.{prize_of}

-- Numbers that rise.
abbrev IsRising : List ℕ → Type 0
IsRising [] = Unit
IsRising (x ∷ xs) = All (λ y. x < y) xs × IsRising xs

insert_id-above :
    (b n : ℕ) (xs : List ℕ) → b < n → All (λ y. b < y) xs → All (λ y. b < y) (insert_id n xs)
unfolding insert_id
insert_id-above b n [] h a = (h, tt)
insert_id-above b n (x ∷ xs) h a =
    if-holds (All (λ y. b < y)) (ltb n x) _ _ (λ p. (h, a))
      λ p.
        if-holds (All (λ y. b < y)) (n == x) _ _ (λ q. a) (λ q. (a.0, insert_id-above b n xs h a.1))

insert_id-IsRising : (n : ℕ) (xs : List ℕ) → IsRising xs → IsRising (insert_id n xs)
unfolding insert_id
insert_id-IsRising n [] r = (tt, tt)
insert_id-IsRising n (x ∷ xs) r =
    if-holds IsRising (ltb n x) _ _
      (λ p.
        let below : n < x = ground arith in
        ((below, All-weaken (λ y. x < y) (λ y. n < y) (λ y h. omega arith) xs r.0), r))
      λ p.
        if-holds IsRising (n == x) _ _ (λ q. r)
          (λ q.
            let above : x < n = ground arith in
            (insert_id-above x n xs above r.0, insert_id-IsRising n xs r.1))

clean_ids-IsRising : (xs : List ℕ) → IsRising (clean_ids xs)
unfolding clean_ids
clean_ids-IsRising [] = tt
clean_ids-IsRising (x ∷ xs) =
    let rest = clean_ids-IsRising xs in
    if-holds IsRising (x == 0) _ _ (λ p. rest) (λ p. insert_id-IsRising x (clean_ids xs) rest)

total-skip :
    (j a : ℕ) (rest : List (ℕ × ℕ)) (ks : List ℕ)
    → All (λ y. j < y) ks
    → total (λ k. prize_of k ((j, a) ∷ rest)) ks ≡ total (λ k. prize_of k rest) ks
unfolding prize_of
total-skip j a rest [] h = refl
total-skip j a rest (k ∷ ks) h =
    let other : (j == k) ≡ false = ground (arith, h.0) in
    rw other (omega (arith, total-skip j a rest ks h.1))

total-prizes :
    (prizes : List (ℕ × ℕ))
    → IsRising (map (λ q. q.0) prizes)
    → total (λ k. prize_of k prizes) (map (λ q. q.0) prizes) ≡ total (λ q. q.1) prizes
unfolding prize_of
total-prizes [] r = refl
total-prizes ((j, a) ∷ rest) r =
    let own : (j == j) ≡ true = ground arith in
    rw own (omega (arith, total-skip j a rest (map (λ q. q.0) rest) r.0, total-prizes rest r.1))

total-none : (f : ℕ → ℕ) (ks : List ℕ) → length ks ≡ 0 → total f ks ≡ 0
total-none f [] e = refl
total-none f (k ∷ ks) e = absurd (omega arith)

-- Whatever workers of the outbox do after it was empty: where every payout of a winner is for the prize
-- that the set of winners gives it, the winners' pending and confirmed payouts together come to no more
-- than the pool.
pub prizes-within_pool :
    (pool : ℕ) (ids : List ℕ) (w : Surroundings) (ages : Ages) (truth : Truth) (db : Db)
    (n : Ledger)
    → db.rows ≡ []
    → Reach w ages truth (record { db = db; cached = [] }) n
    → All
        (λ k. All (IsAt k (prize_of k (prize_amounts_by_claim_id pool ids))) n.db.rows)
        (clean_ids ids)
    → total (amount_for (clean_ids ids)) n.db.rows ≤ pool
prizes-within_pool pool ids w ages truth db n empty run priced =
    let prizes = prize_amounts_by_claim_id pool ids in
    let paid =
      amounts-le (λ k. prize_of k prizes) (clean_ids ids) n.db.rows
        (Reach-active_once w ages truth db n empty run) priced in
    elim (Bool-cases (ltb 0 (length (clean_ids ids)))) [
      | inl some_ ↦
          let (firsts, sum, shares) = prize_amounts_by_claim_id-pool pool ids (ground arith) in
          let rising : IsRising (map (λ q. q.0) prizes) =
            subst IsRising (sym firsts) (clean_ids-IsRising ids) in
          let all =
            subst (λ ks. total (λ k. prize_of k prizes) ks ≡ total (λ q. q.1) prizes) firsts
              (total-prizes prizes rising) in
          omega arith
      | inr none_ ↦
          omega (arith, total-none (λ k. prize_of k prizes) (clean_ids ids) (ground arith))
    ]
