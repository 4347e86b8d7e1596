-- ===== src/Settlement/Payouts/Priced.antt =====
-- The amounts of standard claims' payouts, against the rewards of their Spots.
use nim_hunt.Prelude.{
  ℕ, suc, ◌≡◌, refl, sym, ◌∙◌, ◌≤◌, inl, inr, ◌⊎◌, Bool, true, false, ◌&&◌, ◌||◌, ◌==◌, ltb, Option,
  none, some, List, [], ◌∷◌, arith, subst, map, filter, All, All-weaken, All-map, max_of,
  max_of_bounds, or_else, Bool-cases, Option-cases, if-holds, if◌then◌else◌,
}
use nim_hunt.Prelude.Text.{Text, strip}
use nim_hunt.Tables.{claim}
use nim_hunt.Outbox.{Row, Surroundings}
use nim_hunt.Outbox.Store.{
  Db, ClaimRow, claim_of, is_kind, is_at, change, as_sent, update_sent, row_of,
  has_nonfailed_claim_payout,
}
use nim_hunt.Outbox.Submit.{
  Sent, Intent, validate_address, validate_submitted, create_transaction, create_claim_transaction,
  record_claim_intent, record_sent, next_id, row_of_intent, submit_recorded_claim_send,
}
use nim_hunt.Outbox.Submit.Recorded.{validate_submitted-amount}
use nim_hunt.Settlement.Payouts.{
  PaySpot, pay_spot, reward, latest_row, later, is_failed_payout, latest_failed_claim_payout_amount,
  due_amount, StandardJob, send, claim_missing, claim_not_successful, spot_missing,
  prizedraw_managed_separately, payout_recorded, invalid_payout_amount, Reward, Paid, standard_job,
  Sending, claim_payee, of_submission, submit_claim_reward_transaction,
  payout_standard_claim_if_ready, payout_standard_claim_if_ready_with_security,
}

-- A payout of a claim, if the row is one, is for the reward `price`.
abbrev pub IsAt : ℕ → ℕ → Row → Type 0
IsAt claim_id price t = is_at t.claim_id claim_id ≡ true → is_kind claim t ≡ true → t.amount ≡ price

latest-All : (P : Row → Type 0) (ts : List Row) (t : Row) → All P ts → latest_row ts ≡ some t → P t
unfolding latest_row
latest-All P [] t h e = absurd cc
latest-All P (u ∷ ts) t h e = elim (Option-cases (latest_row ts)) [
  | inl none_ ↦ let k : u ≡ t = ground arith in subst P (k) h.0
  | inr (v, ev) ↦
      let either : (t ≡ u) ⊎ (t ≡ v) = one_of u v t (rw (latest_row, ev) at e) in
      elim either [
        | inl k ↦ subst P (sym k) h.0
        | inr k ↦ subst P (sym k) (latest-All P ts v h.1 ev)
      ]
]
  where
    one_of : (a b c : Row) → some (later a b) ≡ some c → (c ≡ a) ⊎ (c ≡ b)
    one_of a b c q =
        if-holds (λ (x : Row). some x ≡ some c → (c ≡ a) ⊎ (c ≡ b))
          (ltb b.created_at a.created_at
            || a.created_at == b.created_at && ltb b.trans_id a.trans_id)
          a b (λ p r. inl (ground arith)) (λ p r. inr (ground arith)) q

fresh : (rows : List Row) → All (λ t. (t.trans_id == next_id rows) ≡ false) rows
unfolding next_id
fresh rows =
    let most = or_else (max_of (map (λ t. t.trans_id) rows)) 0 in
    All-weaken (λ t. t.trans_id ≤ most) (λ t. (t.trans_id == suc most) ≡ false)
      (λ t h. ground arith) rows
      (All-map (λ n. n ≤ most) (λ t. t.trans_id) rows (max_of_bounds (map (λ t. t.trans_id) rows)))

change-All :
    (P : Row → Type 0) (id : ℕ) (f : Row → Row) (ts : List Row)
    → All (λ t. (t.trans_id == id) ≡ false) ts
    → All P ts
    → All P (change id f ts)
unfolding change
change-All P id f [] n h = tt
change-All P id f (t ∷ ts) n h = (rw n.0 h.0, change-All P id f ts n.1 h.1)

module _ (w : Surroundings) where
  -- The row that the intent of a payout becomes.
  pub record IsRecorded (now claim_id amount : ℕ) (db : Db) (rows : List Row) : Type 0 where
    pub intent : Intent
    pub added : rows ≡ row_of_intent (next_id db.rows) now intent ∷ db.rows
    pub claim_id_ : intent.claim_id ≡ some claim_id
    pub kind_ : intent.kind ≡ claim
    pub amount_ : intent.amount ≡ amount

  create-IsRecorded :
      (now claim_id : ℕ) (i : Intent) (db : Db) (rows : List Row)
      → create_claim_transaction now claim_id i db ≡ some rows
      → IsRecorded now claim_id i.amount db rows
  unfolding create_claim_transaction create_transaction
  create-IsRecorded now claim_id i db rows e = elim (Option-cases (claim_of db.claims claim_id)) [
    | inl absent ↦ absurd (ground arith)
    | inr (c, ec) ↦ record {
      intent = record i { kind = claim; spot_id = some c.spot_id; claim_id = some claim_id };
      added = ground arith;
      claim_id_ = refl;
      kind_ = refl;
      amount_ = refl;
    }
  ]

  pub record_claim_intent-IsRecorded :
      (now claim_id amount : ℕ) (from to intent_hash : Text) (db : Db) (r : List Row × Text × Text)
      → record_claim_intent w now claim_id amount from to intent_hash db ≡ some r
      → IsRecorded now claim_id amount db r.0
  unfolding record_claim_intent
  record_claim_intent-IsRecorded now claim_id amount from to intent_hash db r e =
      elim (Option-cases (validate_address w from)) [
        | inl absent ↦ absurd (ground arith)
        | inr (f, ef) ↦ elim (Option-cases (validate_address w to)) [
          | inl absent ↦ absurd (ground arith)
          | inr (t, et) ↦
              let i : Intent = record {
                kind = claim;
                spot_id = none;
                claim_id = some claim_id;
                amount = amount;
                from_address = f;
                to_address = t;
                tx_hash = intent_hash;
              } in
              elim (Option-cases (create_claim_transaction now claim_id i db)) [
                | inl absent ↦ absurd (ground arith)
                | inr (rows, er) ↦
                    let q : rows ≡ r.0 = ground arith in
                    subst (IsRecorded now claim_id amount db) q
                      (create-IsRecorded now claim_id i db rows er)
              ]
        ]
      ]

  sent-IsAt :
      (k price id : ℕ) (from to : Text) (amount : ℕ) (helper : Option Sent) (t : Row)
      (old rows : List Row)
      → IsAt k price t
      → (is_at t.claim_id k ≡ true → amount ≡ price)
      → All (λ u. (u.trans_id == id) ≡ false) old
      → All (IsAt k price) old
      → record_sent w id from to amount helper (t ∷ old) ≡ some rows
      → All (IsAt k price) rows
  unfolding record_sent update_sent change as_sent
  sent-IsAt k price id from to amount none t old rows h good new_ at e = absurd cc
  sent-IsAt k price id from to amount (some sent_) t old rows h good new_ at e =
      elim (Option-cases (validate_submitted w sent_ from to amount)) [
        | inl absent ↦ absurd (ground arith)
        | inr (valid, ev) ↦
            let f =
              as_sent (strip valid.tx_hash) valid.from_address valid.to_address valid.amount in
            let right : valid.amount ≡ amount =
              validate_submitted-amount w sent_ valid from to amount ev in
            let q : rows ≡ change id f (t ∷ old) = elim (Option-cases (row_of id (t ∷ old))) [
              | inl absent ↦ absurd (ground arith)
              | inr (u, eu) ↦ ground arith
            ] in
            let head : IsAt k price (if t.trans_id == id then f t else t) =
              if-holds (IsAt k price) (t.trans_id == id) (f t) t (λ p a b. right ∙ good a)
                (λ p. h) in
            subst (All (IsAt k price)) (sym q) (head, change-All (IsAt k price) id f old new_ at)
      ]

  submitted-IsAt :
      (k price now claim_id amount : ℕ) (from to intent_hash : Text) (helper : Option Sent)
      (db : Db)
      → ((claim_id == k) ≡ true → amount ≡ price)
      → All (IsAt k price) db.rows
      → All
          (IsAt k price)
          (of_submission w db.rows
            (submit_recorded_claim_send w now claim_id amount from to intent_hash helper db)).1
  unfolding submit_recorded_claim_send row_of_intent
  submitted-IsAt k price now claim_id amount from to intent_hash helper db good at =
      elim (Option-cases (record_claim_intent w now claim_id amount from to intent_hash db)) [
        | inl e ↦ rw (submit_recorded_claim_send, e) at
        | inr (r, e) ↦
            let i = record_claim_intent-IsRecorded now claim_id amount from to intent_hash db r e in
            let t = row_of_intent (next_id db.rows) now i.intent in
            let own : is_at t.claim_id k ≡ true → amount ≡ price =
              λ p. good (rw i.claim_id_ at p) in
            let here_ : IsAt k price t = λ p q. i.amount_ ∙ own p in
            elim (Option-cases (record_sent w (next_id db.rows) r.1 r.2 amount helper r.0)) [
              | inl lost ↦ rw (submit_recorded_claim_send, e, lost) (rw i.added (here_, at))
              | inr (rows, sent_) ↦
                  rw (submit_recorded_claim_send, e, sent_)
                    (sent-IsAt k price (next_id db.rows) r.1 r.2 amount helper t db.rows rows here_
                      own (fresh db.rows) at (rw i.added at sent_))
            ]
      ]

failed-All :
    (k price : ℕ) (rows : List Row)
    → All (IsAt k price) rows
    → All (λ t. t.amount ≡ price) (filter (is_failed_payout k) rows)
failed-All k price [] at = tt
failed-All k price (t ∷ rows) at = elim (Bool-cases (is_failed_payout k t)) [
  | inl p ↦
      let a : is_at t.claim_id k ≡ true = ground arith in
      let b : is_kind claim t ≡ true = ground arith in rw p (at.0 a b, failed-All k price rows at.1)
  | inr p ↦ rw p (failed-All k price rows at.1)
]

latest_failed-eq :
    (k price a : ℕ) (rows : List Row)
    → All (IsAt k price) rows
    → latest_failed_claim_payout_amount k rows ≡ some a
    → a ≡ price
unfolding latest_failed_claim_payout_amount
latest_failed-eq k price a rows at e =
    elim (Option-cases (latest_row (filter (is_failed_payout k) rows))) [
      | inl q ↦ absurd (ground arith)
      | inr (t, q) ↦
          let h =
            latest-All (λ u. u.amount ≡ price) (filter (is_failed_payout k) rows) t
              (failed-All k price rows at) q in
          ground arith
    ]

-- What an earlier failed payout says is the price too, so that the price is what is due.
pub due-eq :
    (k price : ℕ) (rows : List Row)
    → All (IsAt k price) rows
    → (if or_else (latest_failed_claim_payout_amount k rows) 0 == 0
        then price
        else or_else (latest_failed_claim_payout_amount k rows) 0)
      ≡ price
due-eq k price rows at = elim (Option-cases (latest_failed_claim_payout_amount k rows)) [
  | inl e ↦ rw e refl
  | inr (a, e) ↦
      let q = latest_failed-eq k price a rows at e in
      rw e (
        if-holds (λ x. x ≡ price) (or_else (some a) 0 == 0) price (or_else (some a) 0) (λ p. refl)
          (λ p. let kept : (a == 0) ≡ false = ground arith in rw kept q))
]

pub standard_job-eq :
    (spots : List PaySpot) (k amount : ℕ) (db : Db) (c : ClaimRow) (s : PaySpot)
    → claim_of db.claims k ≡ some c
    → pay_spot spots c.spot_id ≡ some s
    → All (IsAt k (reward s)) db.rows
    → standard_job spots k db ≡ send amount
    → amount ≡ reward s
unfolding standard_job
standard_job-eq spots k amount db c s ec es at e =
    let q : due_amount s k db.rows ≡ amount = ground arith in sym q ∙ due-eq k (reward s) db.rows at

module _ (w : Surroundings) (x : Sending) (spots : List PaySpot) where
  pub submit-IsAt :
      (claim_id amount k price : ℕ) (seen db : Db)
      → ((claim_id == k) ≡ true → amount ≡ price)
      → All (IsAt k price) db.rows
      → All (IsAt k price) (submit_claim_reward_transaction w x spots claim_id amount seen db).1
  unfolding submit_claim_reward_transaction
  submit-IsAt claim_id amount k price seen db good at =
      if-holds Keeps (amount == 0) _ _ (λ p. at)
        λ p. elim (Option-cases (claim_of seen.claims claim_id)) [
          | inl e ↦ rw e at
          | inr (c, e) ↦ rw e (
              if-holds Keeps (has_nonfailed_claim_payout claim_id seen.rows) _ _ (λ q. at)
                λ q. elim (Option-cases (pay_spot spots c.spot_id)) [
                  | inl f ↦ rw f at
                  | inr (s, f) ↦ rw f (elim (Option-cases (claim_payee w x)) [
                    | inl g ↦ rw g at
                    | inr (to, g) ↦ rw g (
                        submitted-IsAt w k price x.now claim_id amount s.deposit_address to
                          x.intent_hash x.helper db good at)
                  ])
                ])
        ]
    where
      Keeps : Reward × List Row → Type 0
      Keeps r = All (IsAt k price) r.1

  -- Whatever the helper answers and whatever other workers change between the looks, a payout of a
  -- standard claim keeps every payout of every standard claim at its Spot's reward, where they were at it
  -- when the first look was taken and when the call wrote.
  pub payout_standard_claim_if_ready_with_security-IsAt :
      (held : Bool) (claim_id k : ℕ) (first seen db : Db) (c : ClaimRow) (s : PaySpot)
      → claim_of first.claims k ≡ some c
      → pay_spot spots c.spot_id ≡ some s
      → All (IsAt k (reward s)) first.rows
      → All (IsAt k (reward s)) db.rows
      → All
          (IsAt k (reward s))
          (payout_standard_claim_if_ready_with_security w x spots held claim_id first seen db).1
  unfolding payout_standard_claim_if_ready_with_security payout_standard_claim_if_ready
  payout_standard_claim_if_ready_with_security-IsAt held claim_id k first seen db c s ec es before
        at =
      go (standard_job spots claim_id first) refl
    where
      go :
          (j : StandardJob)
          → standard_job spots claim_id first ≡ j
          → All
              (IsAt k (reward s))
              (payout_standard_claim_if_ready w x spots held claim_id first seen db).1
      go (send amount) e =
          let good : (claim_id == k) ≡ true → amount ≡ reward s = λ p.
            let q : claim_id ≡ k = ground arith in
            standard_job-eq spots k amount first c s ec es before
              (subst (λ i. standard_job spots i first ≡ send amount) q e) in
          rw (payout_standard_claim_if_ready, e)
            (if-holds (λ (r : Paid × List Row). All (IsAt k (reward s)) r.1) held _ _ (λ p. at)
              (λ p. submit-IsAt claim_id amount k (reward s) seen db good at))
      go claim_missing e = rw (payout_standard_claim_if_ready, e) at
      go claim_not_successful e = rw (payout_standard_claim_if_ready, e) at
      go spot_missing e = rw (payout_standard_claim_if_ready, e) at
      go prizedraw_managed_separately e = rw (payout_standard_claim_if_ready, e) at
      go payout_recorded e = rw (payout_standard_claim_if_ready, e) at
      go invalid_payout_amount e = rw (payout_standard_claim_if_ready, e) at
