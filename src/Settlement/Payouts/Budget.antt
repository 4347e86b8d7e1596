-- ===== src/Settlement/Payouts/Budget.antt =====
-- What the payouts of a standard Spot come to, over a history of its claims and of the outbox, against
-- its value.
use nim_hunt.Prelude.{
  ℕ, zero, suc, ◌≡◌, refl, sym, subst, ◌+◌, ◌*◌, ◌/◌, ◌≤◌, inl, inr, Bool, true, false, ◌==◌, some,
  List, [], ◌∷◌, arith, total, total_mono, any, map, filter, length, All, Bool-cases, if◌then◌else◌,
}
use native.Mathlib.Nat.{le_trans}
use nim_hunt.Tables.{claim}
use nim_hunt.Outbox.{Row, Surroundings}
use nim_hunt.Outbox.Store.{Db, claim_success, is_kind, is_at, is_active_payout}
use nim_hunt.Outbox.Check.{Ages}
use nim_hunt.Outbox.Timeline.{Ledger, Truth}
use nim_hunt.Outbox.Timeline
use nim_hunt.Outbox.Timeline.Once.{Reach-active_once}
use nim_hunt.Claims.{SpotRecord, ClaimRecord, CodeRecord, ClaimStore, Setting}
use nim_hunt.Claims.Rows
use nim_hunt.Claims.Rows.{spot_with, is_prizedraw, count_at}
use nim_hunt.Claims.Timeline.{Reach, empty_store}
use nim_hunt.Claims.Capacity.{Reach-within_capacity}
use nim_hunt.Settlement.Prizes.{standard_claim_payout_amount}
use nim_hunt.Settlement.Payouts.{PaySpot, reward}
use nim_hunt.Settlement.Payouts.Priced.{IsAt}

-- What the pending and confirmed payouts of some claims come to.
abbrev pub pays_some : List ℕ → Row → Bool
pays_some ids t = any (λ k. is_active_payout k t) ids

abbrev pub amount_for : List ℕ → Row → ℕ
amount_for ids t = if pays_some ids t then t.amount else 0

abbrev pub one : ℕ → Row → ℕ
one k t = if is_active_payout k t then 1 else 0

abbrev amount_one : ℕ → Row → ℕ
amount_one k t = if is_active_payout k t then t.amount else 0

total-zero : (rows : List Row) → total (amount_for []) rows ≡ 0
total-zero [] = refl
total-zero (t ∷ rows) = omega (arith, total-zero rows)

total-add :
    (f g : Row → ℕ) (rows : List Row) → total (λ t. f t + g t) rows ≡ total f rows + total g rows
total-add f g [] = refl
total-add f g (t ∷ rows) = omega (arith, total-add f g rows)

one_more : (n p a m : ℕ) → a ≡ p → m ≤ n * p → a + m ≤ (1 + n) * p
one_more n p a m e h = grind arith

no_more : (n p m : ℕ) → m ≤ n * p → 0 + m ≤ (0 + n) * p
no_more n p m h = grind arith

suc-mul : (n p : ℕ) → suc n * p ≡ p + n * p
suc-mul n p = grind arith

at_most_one : (n p m : ℕ) → n ≤ 1 → m ≤ n * p → m ≤ p
at_most_one zero p m h k = grind arith
at_most_one (suc n) p m h k =
    let z : n ≡ 0 = omega arith in
    let q : m ≤ suc 0 * p = subst (λ i. m ≤ suc i * p) z k in omega arith

amount_one-le :
    (k price : ℕ) (rows : List Row)
    → All (IsAt k price) rows
    → total (amount_one k) rows ≤ total (one k) rows * price
unfolding is_active_payout
amount_one-le k price [] at = omega arith
amount_one-le k price (t ∷ rows) at =
    let rest = amount_one-le k price rows at.1 in
    elim (Bool-cases (is_active_payout k t)) [
      | inl p ↦
          let a : is_at t.claim_id k ≡ true = ground arith in
          let b : is_kind claim t ≡ true = ground arith in
          let q = at.0 a b in
          rw p (one_more (total (one k) rows) price t.amount (total (amount_one k) rows) q rest)
      | inr p ↦ rw p (no_more (total (one k) rows) price (total (amount_one k) rows) rest)
    ]

-- Payouts of claims that each have one at most, at the claim's price, come to no more than the prices.
pub amounts-le :
    (price : ℕ → ℕ) (ids : List ℕ) (rows : List Row)
    → ((k : ℕ) → total (one k) rows ≤ 1)
    → All (λ k. All (IsAt k (price k)) rows) ids
    → total (amount_for ids) rows ≤ total price ids
amounts-le price [] rows once at = omega (arith, total-zero rows)
amounts-le price (k ∷ ids) rows once at =
    let rest = amounts-le price ids rows once at.1 in
    let mine = amount_one-le k (price k) rows at.0 in
    let split =
      total_mono (amount_for (k ∷ ids)) (λ t. amount_one k t + amount_for ids t) (λ t. ground arith)
        rows in
    let sum = total-add (amount_one k) (amount_for ids) rows in
    let low =
      at_most_one (total (one k) rows) (price k) (total (amount_one k) rows) (once k) mine in
    omega arith

total-same : (r : ℕ) (ids : List ℕ) → total (λ k. r) ids ≡ length ids * r
total-same r [] = omega arith
total-same r (k ∷ ids) = omega (arith, total-same r ids, suc-mul (length ids) r)

shares-le : (total_value parts : ℕ) → parts * (total_value / parts) ≤ total_value
shares-le total_value zero = grind arith
shares-le total_value (suc n) = grind arith

mul_mono : (a b c : ℕ) → a ≤ b → a * c ≤ b * c
mul_mono a b c h = grind arith

length-ids : (cs : List ClaimRecord) → length (map (λ c. c.claim_id) cs) ≡ length cs
length-ids [] = refl
length-ids (c ∷ cs) = omega (arith, length-ids cs)

All-map_intro :
    (P : ℕ → Type 0) (cs : List ClaimRecord)
    → All (λ c. P c.claim_id) cs
    → All P (map (λ c. c.claim_id) cs)
All-map_intro P [] h = tt
All-map_intro P (c ∷ cs) h = (h.0, All-map_intro P cs h.1)

-- The claims that have succeeded at a Spot.
abbrev pub succeeded_at : ℕ → ClaimStore → List ClaimRecord
succeeded_at spot_id st = filter (Rows.is_at spot_id claim_success) st.claims

-- Whatever requests, refreshes, heartbeats and waits come after the tables were without claims, and
-- whatever workers of the outbox do after it was empty: where every payout of a succeeded claim of a
-- limited standard Spot is for the Spot's reward, the pending and confirmed payouts of these claims
-- together come to no more than the Spot's value.
pub payouts-within_value :
    (v : Setting) (codes : List CodeRecord) (s : SpotRecord) (p : PaySpot) (w : Surroundings)
    (ages : Ages) (truth : Truth) (db : Db) (n : Ledger) (now : ℕ) (st : ClaimStore)
    → spot_with s.spot_id v.spots ≡ some s
    → is_prizedraw s ≡ false
    → (s.max_total_claims == 0) ≡ false
    → p.max_total_claims ≡ some s.max_total_claims
    → Reach v (empty_store codes) now st
    → db.rows ≡ []
    → Timeline.Reach w ages truth (record { db = db; cached = [] }) n
    → All (λ c. All (IsAt c.claim_id (reward p)) n.db.rows) (succeeded_at s.spot_id st)
    → total (amount_for (map (λ c. c.claim_id) (succeeded_at s.spot_id st))) n.db.rows
      ≤ p.total_value
unfolding count_at standard_claim_payout_amount
payouts-within_value v codes s p w ages truth db n now st there standard limited same_ r empty
      outbox priced =
    let done = succeeded_at s.spot_id st in
    let parts = s.max_total_claims in
    let total_value = p.total_value in
    let paid =
      amounts-le (λ k. reward p) (map (λ c. c.claim_id) done) n.db.rows
        (Reach-active_once w ages truth db n empty outbox)
        (All-map_intro (λ k. All (IsAt k (reward p)) n.db.rows) done priced) in
    let room : length done ≤ parts = Reach-within_capacity v codes s there standard limited r in
    let price : reward p ≡ total_value / parts = rw same_ (rw limited (rw limited refl)) in
    let fits = mul_mono (length done) parts (total_value / parts) room in
    let whole = shares-le total_value parts in
    let long = length-ids done in
    let low : length done * reward p ≤ parts * (total_value / parts) =
      subst (λ r. length done * r ≤ parts * (total_value / parts)) (sym price) fits in
    let all : total (amount_for (map (λ c. c.claim_id) done)) n.db.rows ≤ length done * reward p =
      subst (λ l. total (amount_for (map (λ c. c.claim_id) done)) n.db.rows ≤ l * reward p) long
        (subst (λ l. total (amount_for (map (λ c. c.claim_id) done)) n.db.rows ≤ l)
          (total-same (reward p) (map (λ c. c.claim_id) done)) paid) in
    le_trans all (le_trans low whole)
