-- ===== src/Settlement/Payouts/Timeline/Steady.antt =====
-- The amounts of a run's payouts, against the rewards and the values of their Spots.
use nim_hunt.Prelude.{
  ℕ, ◌≡◌, refl, sym, ap, subst, ◌∙◌, ◌≤◌, inl, inr, true, false, ◌==◌, Option, none, some, List, [],
  ◌∷◌, arith, All, All-weaken, Option-cases, total, map,
}
use nim_hunt.Tables.{claim, type_code}
use nim_hunt.Outbox.{Row, Surroundings}
use nim_hunt.Outbox.Store.{Db, ClaimRow, claim_of}
use nim_hunt.Outbox.Check.{Ages}
use nim_hunt.Outbox.Pass.Refines.{IsAmong, first, later}
use nim_hunt.Outbox.Submit.{make_local_intent_hash, create_transaction, next_id, row_of_intent}
use nim_hunt.Outbox.Timeline.{Ledger, Truth}
use nim_hunt.Outbox.Timeline
use nim_hunt.Outbox.Timeline.Pinned.{IsPinned, settle_row-IsPinned, record_sent-IsPinned}
use nim_hunt.Claims.{SpotRecord, ClaimRecord, CodeRecord, ClaimStore, Setting}
use nim_hunt.Claims.Rows.{spot_with, is_prizedraw}
use nim_hunt.Claims.Timeline.{Reach, empty_store}
use nim_hunt.Settlement.Payouts.{PaySpot, pay_spot, reward, send, standard_job}
use nim_hunt.Settlement.Payouts.Priced.{
  IsAt, IsRecorded, record_claim_intent-IsRecorded, standard_job-eq,
}
use nim_hunt.Settlement.Payouts.Budget.{amount_for, succeeded_at, payouts-within_value}
use nim_hunt.Settlement.Payouts.Timeline.{
  Plan, reward_of, standard_reward, Run, here, settle, pay_prize, record_other, answer, refresh,
  look, elsewhere,
}

abbrev reward_by : ℕ → Option ℕ → Option ℕ
reward_by r c = elim c [ none ↦ some r | some n ↦ none ]

reward_by-eq : (c : Option ℕ) (r m : ℕ) → reward_by r c ≡ some m → r ≡ m
reward_by-eq none r m e = cc
reward_by-eq (some n) r m e = absurd cc

abbrev reward_at : Option PaySpot → Option ℕ
reward_at o = elim o [ none ↦ none | some s ↦ standard_reward s ]

module _ (w : Surroundings) (ages : Ages) (truth : Truth) (plan : Plan) where
  pub Run-Reach : {m n : Ledger} → Run w ages truth plan m n → Timeline.Reach w ages truth m n
  Run-Reach here = Timeline.here
  Run-Reach (settle f r now k a dep to kind id token rec h j q amt s t e) =
      Timeline.after (Run-Reach r) (Timeline.intend now k a dep to kind id token rec s t e)
  Run-Reach (pay_prize r now k a dep to kind id token rec h q amt s t e) =
      Timeline.after (Run-Reach r) (Timeline.intend now k a dep to kind id token rec s t e)
  Run-Reach (record_other r now i rows o t e) =
      Timeline.after (Run-Reach r) (Timeline.record_other now i rows o t e)
  Run-Reach (answer r id from to sent rows h e) =
      Timeline.after (Run-Reach r) (Timeline.answer id from to (plan.amt id) sent rows h e)
  Run-Reach (refresh r) = Timeline.after (Run-Reach r) Timeline.refresh
  Run-Reach (look r rpc now t db honest among e) =
      Timeline.after (Run-Reach r) (Timeline.look rpc now t db honest among e)
  Run-Reach (elsewhere r db e) = Timeline.after (Run-Reach r) (Timeline.elsewhere db e)

  -- The amount of a payout's intent is the reward of the claim that it was made for.
  abbrev IsOwed : ℕ → Type 0
  IsOwed id =
      (type_code (truth.kind_of id) == 20) ≡ true
      → (r : ℕ) → reward_of plan (plan.who id) ≡ some r
      → plan.amt id ≡ r

  abbrev IsSteadyRow : Row → Type 0
  IsSteadyRow t = IsPinned w truth plan.who plan.amt IsOwed t

  record IsSteady (m : Ledger) : Type 0 where
    rows : All IsSteadyRow m.db.rows
    cached : All IsSteadyRow m.cached

  member : {t : Row} {ts : List Row} → IsAmong t ts → All IsSteadyRow ts → IsSteadyRow t
  member first h = h.0
  member (later m) h = member m h.1

  steady-IsAt : (k r : ℕ) → reward_of plan k ≡ some r → (t : Row) → IsSteadyRow t → IsAt k r t
  steady-IsAt k r e t p here_ kind_ =
      let code : (type_code t.kind == 20) ≡ true = kind_ in
      let c = p.claim code in
      let q : plan.who t.trans_id ≡ k = ground arith in
      p.amount code ∙ p.right (rw p.kind code) r (rw q e)

  job-reward :
      (m : Ledger) (k amount r : ℕ)
      → IsSteady m
      → ((c : ClaimRow) → claim_of m.db.claims k ≡ some c → c.spot_id ≡ plan.home k)
      → standard_job plan.spots k m.db ≡ send amount
      → reward_of plan k ≡ some r
      → amount ≡ r
  unfolding standard_job
  job-reward m k amount r s home job e = elim (Option-cases (claim_of m.db.claims k)) [
    | inl none_ ↦ absurd (ground arith)
    | inr (c, ec) ↦ elim (Option-cases (pay_spot plan.spots (plan.home k))) [
      | inl no_spot ↦ absurd (ground arith)
      | inr (x, ex) ↦
          let standard = subst (λ o. reward_at o ≡ some r) ex e in
          let price = reward_by-eq x.prize_count (reward x) r standard in
          let at =
            All-weaken IsSteadyRow (IsAt k (reward x))
              (λ t. steady-IsAt k (reward x) (e ∙ ap some (sym price)) t) m.db.rows s.rows in
          standard_job-eq plan.spots k amount m.db c x ec (rw (home c ec) ex) at job ∙ price
    ]
  ]

  new-IsSteadyRow :
      (now claim_id amount : ℕ) (db : Db) (rows : List Row)
      (i : IsRecorded w now claim_id amount db rows)
      → plan.who (next_id db.rows) ≡ claim_id
      → plan.amt (next_id db.rows) ≡ amount
      → truth.kind_of (next_id db.rows) ≡ claim
      → ((r : ℕ) → reward_of plan claim_id ≡ some r → amount ≡ r)
      → IsSteadyRow (row_of_intent (next_id db.rows) now i.intent)
  unfolding row_of_intent
  new-IsSteadyRow now claim_id amount db rows i who amt kind right = record {
    kind = kind ∙ sym i.kind_;
    claim = λ c. rw who i.claim_id_;
    amount = λ c. rw amt i.amount_;
    right = λ c r e. amt ∙ right r (rw who at e);
  }

  Run-IsSteady : {m n : Ledger} → Run w ages truth plan m n → IsSteady m → IsSteady n
  unfolding create_transaction row_of_intent
  Run-IsSteady here s = s
  Run-IsSteady
        (settle {first = f} {m = m} before r now k amount dep to kind id token rec home job who amt
          kept t e)
        s =
      let i =
        record_claim_intent-IsRecorded w now k amount dep to (make_local_intent_hash kind id token)
          m.db rec e in
      let old = Run-IsSteady r s in
      record {
        rows = rw i.added (
          new-IsSteadyRow now k amount m.db rec.0 i who amt t
              (λ x. job-reward f k amount x (Run-IsSteady before s) home job),
          old.rows,
        );
        cached = old.cached;
      }
  Run-IsSteady (pay_prize {m = m} r now k amount dep to kind id token rec prize who amt kept t e)
        s =
      let i =
        record_claim_intent-IsRecorded w now k amount dep to (make_local_intent_hash kind id token)
          m.db rec e in
      let old = Run-IsSteady r s in
      record {
        rows = rw i.added (
          new-IsSteadyRow now k amount m.db rec.0 i who amt t
              (λ x y. absurd (let z : none ≡ some x = sym prize ∙ y in cc)),
          old.rows,
        );
        cached = old.cached;
      }
  Run-IsSteady (record_other {m = m} r now i rows other t e) s =
      let q : rows ≡ row_of_intent (next_id m.db.rows) now i ∷ m.db.rows = ground arith in
      let old = Run-IsSteady r s in
      record {
        rows = rw q (
          record {
            kind = t;
            claim = λ c. absurd cc;
            amount = λ c. absurd cc;
            right = λ c. absurd (ground arith);
          },
          old.rows,
        );
        cached = old.cached;
      }
  Run-IsSteady (answer {m = m} r id from to sent rows h e) s =
      let old = Run-IsSteady r s in
      record {
        rows =
            record_sent-IsPinned w truth plan.who plan.amt IsOwed id from to (plan.amt id) sent
              m.db.rows rows refl old.rows e;
        cached = old.cached;
      }
  Run-IsSteady (refresh r) s =
      let old = Run-IsSteady r s in record { rows = old.rows; cached = old.rows }
  Run-IsSteady (look {m = m} r rpc now t db honest among e) s =
      let old = Run-IsSteady r s in
      record {
        rows =
            settle_row-IsPinned w truth plan.who plan.amt IsOwed rpc ages now t m.db db
              (member among old.cached) old.rows e;
        cached = old.cached;
      }
  Run-IsSteady (elsewhere r db e) s =
      let old = Run-IsSteady r s in record { rows = rw e old.rows; cached = old.cached }

-- Whatever requests, refreshes, heartbeats and waits come after the tables were without claims, and
-- whatever workers of the settlement and of the outbox do after the outbox was empty, where claims stay
-- at their Spots and the Spots keep their values: the pending and confirmed payouts of the claims that
-- have succeeded at a limited standard Spot together come to no more than the Spot's value.
pub Run-within_value :
    (v : Setting) (codes : List CodeRecord) (s : SpotRecord) (p : PaySpot) (w : Surroundings)
    (ages : Ages) (truth : Truth) (plan : Plan) (db : Db) (n : Ledger) (now : ℕ) (st : ClaimStore)
    → spot_with s.spot_id v.spots ≡ some s
    → is_prizedraw s ≡ false
    → (s.max_total_claims == 0) ≡ false
    → pay_spot plan.spots s.spot_id ≡ some p
    → p.prize_count ≡ none
    → p.max_total_claims ≡ some s.max_total_claims
    → Reach v (empty_store codes) now st
    → All (λ c. plan.home c.claim_id ≡ s.spot_id) (succeeded_at s.spot_id st)
    → db.rows ≡ []
    → Run w ages truth plan (record { db = db; cached = [] }) n
    → total (amount_for (map (λ c. c.claim_id) (succeeded_at s.spot_id st))) n.db.rows
      ≤ p.total_value
Run-within_value v codes s p w ages truth plan db n now st there standard limited paid prize same_
      history homes empty run =
    let steady = Run-IsSteady w ages truth plan run (record { rows = rw empty tt; cached = tt }) in
    let price : (c : ClaimRecord)
        → plan.home c.claim_id ≡ s.spot_id
        → reward_of plan c.claim_id ≡ some (reward p) =
      λ c h.
        ap (λ k. reward_at (pay_spot plan.spots k)) h
        ∙ ap reward_at paid
        ∙ ap (reward_by (reward p)) prize in
    let priced =
      All-weaken (λ c. plan.home c.claim_id ≡ s.spot_id)
        (λ c. All (IsAt c.claim_id (reward p)) n.db.rows)
        (λ c h.
          All-weaken (IsSteadyRow w ages truth plan) (IsAt c.claim_id (reward p))
            (steady-IsAt w ages truth plan c.claim_id (reward p) (price c h)) n.db.rows steady.rows)
        (succeeded_at s.spot_id st) homes in
    payouts-within_value v codes s p w ages truth db n now st there standard limited same_ history
      empty (Run-Reach w ages truth plan run) priced
