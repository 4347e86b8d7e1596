-- ===== src/Outbox/Timeline/Once.antt =====
-- Each claim is paid at most once.
use nim_hunt.Prelude.{
  ℕ, ◌≤◌, ◌≡◌, refl, sym, ◌∙◌, inl, inr, Bool, true, false, ◌&&◌, ◌==◌, some, List, [], ◌∷◌, arith,
  any, total, All, Bool-cases, if◌then◌else◌,
}
use nim_hunt.Prelude.Strip.{strip-strip}
use nim_hunt.Prelude.Text.{Text, strip}
use nim_hunt.Tables.{claim, type_code}
use nim_hunt.Outbox.{Row, Surroundings, is_local_intent_hash}
use nim_hunt.Outbox.Store.{Db, is_kind, is_at, is_active_payout, has_nonfailed_claim_payout}
use nim_hunt.Outbox.Check.{Ages}
use nim_hunt.Outbox.Pass.Refines.{settle_row-Evolves}
use nim_hunt.Outbox.Submit.{
  make_local_intent_hash, Intent, create_transaction, next_id, row_of_intent,
}
use nim_hunt.Outbox.Submit.Recorded.{IsIntended, record_intent-IsIntended, record_sent-IsAnswered}
use nim_hunt.Outbox.Timeline.Sound.{
  IsOwn, IsUnpaidIfFailed, IsSound, active, Why, Cause-Why, active-Evolves, IsOwn-Evolves,
  failures-Evolves, member, failed_of_code, sent-IsOwn, sent-IsUnpaidIfFailed, sent-active,
}
use nim_hunt.Outbox.Timeline.{
  Ledger, Truth, Step, intend, record_other, answer, refresh, look, elsewhere, Reach, here, after,
}

local_intent :
    (kind id token : Text)
    → strip (make_local_intent_hash kind id token) ≡ make_local_intent_hash kind id token
    → is_local_intent_hash (strip (make_local_intent_hash kind id token)) ≡ true
unfolding is_local_intent_hash make_local_intent_hash
local_intent kind id token kept = rw kept refl

module _ (w : Surroundings) (ages : Ages) (truth : Truth) where
  -- Nothing stands where a search finds nothing.
  total_of_none :
      (p : Row → Bool) (ts : List Row) → any p ts ≡ false → total (λ t. if p t then 1 else 0) ts ≡ 0
  total_of_none p [] h = refl
  total_of_none p (t ∷ ts) h = ground (arith, total_of_none p ts)

  intended-active :
      (now id c claim_id : ℕ) (i : Intent)
      → i.claim_id ≡ some claim_id
      → (c == claim_id) ≡ false
      → active truth c (row_of_intent id now i) ≡ 0
  unfolding is_active_payout row_of_intent
  intended-active now id c claim_id i e other = rw (is_at, e) (ground arith)

  other-active :
      (now id c : ℕ) (i : Intent)
      → (type_code i.kind == 20) ≡ false
      → active truth c (row_of_intent id now i) ≡ 0
  unfolding is_active_payout row_of_intent
  other-active now id c i other = ground arith

  active-le : (c : ℕ) (t : Row) → active truth c t ≤ 1
  active-le c t = ground arith

  new_row-IsUnpaid : (now id : ℕ) (i : Intent) → IsUnpaidIfFailed truth (row_of_intent id now i)
  unfolding row_of_intent
  new_row-IsUnpaid now id i = record { unpaid = λ k f. absurd cc }

  intended_one :
      (now claim_id c : ℕ) (h : Text) (rows rows' : List Row)
      → IsIntended w now claim_id h rows rows'
      → total (active truth c) rows ≤ 1
      → total (active truth c) rows' ≤ 1
  unfolding has_nonfailed_claim_payout
  intended_one now claim_id c h rows rows' r one = elim (Bool-cases (c == claim_id)) [
    | inr other ↦
        rw r.added
          (omega (arith, intended-active now (next_id rows) c claim_id r.intent r.claim other))
    | inl same_claim ↦
        let q : claim_id ≡ c = ground arith in
        let none_active : total (active truth c) rows ≡ 0 =
          total_of_none (is_active_payout c) rows (rw q at r.untaken) in
        rw r.added (omega (arith, active-le c (row_of_intent (next_id rows) now r.intent)))
  ]

  intended-IsOwn :
      (now claim_id : ℕ) (h : Text) (rows rows' : List Row)
      (r : IsIntended w now claim_id h rows rows')
      → truth.kind_of (next_id rows) ≡ claim
      → is_local_intent_hash (strip h) ≡ true
      → IsOwn truth (row_of_intent (next_id rows) now r.intent)
  unfolding row_of_intent
  intended-IsOwn now claim_id h rows rows' r k local = record {
    kind = k ∙ sym r.kind;
    hash = λ p. inl (rw r.tx_hash local);
  }

  other-IsOwn :
      (now id : ℕ) (i : Intent)
      → (type_code i.kind == 20) ≡ false
      → truth.kind_of id ≡ i.kind
      → IsOwn truth (row_of_intent id now i)
  unfolding row_of_intent
  other-IsOwn now id i other k = record { kind = k; hash = λ p. absurd (ground arith) }

  Step-IsSound : (m n : Ledger) → Step w ages truth m n → IsSound truth m → IsSound truth n
  unfolding create_transaction
  Step-IsSound m n (intend now claim_id amount deposit_address to kind id token recorded kept k e)
        s =
      let h = make_local_intent_hash kind id token in
      let r = record_intent-IsIntended w now claim_id amount deposit_address to h m.db recorded e in
      record {
        own = rw r.added (
          intended-IsOwn now claim_id h m.db.rows recorded.0 r k (local_intent kind id token kept),
          s.own,
        );
        cached_own = s.cached_own;
        failures = rw r.added (new_row-IsUnpaid now (next_id m.db.rows) r.intent, s.failures);
        one_active = λ c. intended_one now claim_id c h m.db.rows recorded.0 r (s.one_active c);
      }
  Step-IsSound m n (record_other now i rows other k e) s =
      let q : rows ≡ row_of_intent (next_id m.db.rows) now i ∷ m.db.rows = ground arith in
      record {
        own = rw q (other-IsOwn now (next_id m.db.rows) i other k, s.own);
        cached_own = s.cached_own;
        failures = rw q (new_row-IsUnpaid now (next_id m.db.rows) i, s.failures);
        one_active = λ c.
            rw q (omega (arith, other-active now (next_id m.db.rows) c i other, s.one_active c));
      }
  Step-IsSound m n (answer id from to amount sent rows h e) s =
      let a = record_sent-IsAnswered w id from to amount sent m.db.rows rows e in
      let c : strip a.clean ≡ a.clean = rw a.hash (strip-strip (w.py.lower (strip sent.tx_hash))) in
      record {
        own = rw a.changed (
            sent-IsOwn truth id a.clean a.from a.to a.amount m.db.rows (c ∙ (a.hash ∙ h))
              (rw c a.filled) s.own);
        cached_own = s.cached_own;
        failures =
            rw a.changed
              (sent-IsUnpaidIfFailed truth id a.clean a.from a.to a.amount m.db.rows s.failures);
        one_active = λ k.
            rw (a.changed, sent-active truth id a.clean a.from a.to a.amount k m.db.rows)
              (s.one_active k);
      }
  Step-IsSound m n refresh s = record {
    own = s.own;
    cached_own = s.own;
    failures = s.failures;
    one_active = s.one_active;
  }
  Step-IsSound m n (look rpc now t db honest among e) s =
      let v =
        settle_row-Evolves w (Why truth) rpc ages now t m.db db
          (Cause-Why w truth rpc t honest (member truth among s.cached_own)) e in
      record {
        own = IsOwn-Evolves truth v s.own;
        cached_own = s.cached_own;
        failures = failures-Evolves truth v s.own s.failures;
        one_active = λ c. omega (arith, active-Evolves truth c v, s.one_active c);
      }
  Step-IsSound m n (elsewhere db e) s = record {
    own = rw e s.own;
    cached_own = s.cached_own;
    failures = rw e s.failures;
    one_active = λ c. rw e (s.one_active c);
  }

  Reach-IsSound : (m n : Ledger) → Reach w ages truth m n → IsSound truth m → IsSound truth n
  Reach-IsSound m n here s = s
  Reach-IsSound m n (after {k = k} r step) s = Step-IsSound k n step (Reach-IsSound m k r s)

  from_empty :
      (db : Db) (n : Ledger)
      → db.rows ≡ []
      → Reach w ages truth (record { db = db; cached = [] }) n
      → IsSound truth n
  from_empty db n e r =
      Reach-IsSound (record { db = db; cached = [] }) n r
        (record {
          own = rw e tt;
          cached_own = tt;
          failures = rw e tt;
          one_active = λ k. rw e (omega arith);
        })

  -- A claim never has two payouts that have not failed.
  pub Reach-active_once :
      (db : Db) (n : Ledger)
      → db.rows ≡ []
      → Reach w ages truth (record { db = db; cached = [] }) n
      → (c : ℕ) → total (active truth c) n.db.rows ≤ 1
  Reach-active_once db n e r c = let s = from_empty db n e r in s.one_active c

  -- The rows of a claim's payouts whose broadcast moved money.
  abbrev pub paid_out : ℕ → Row → ℕ
  paid_out c t =
      if is_at t.claim_id c && is_kind claim t && truth.paid (truth.hash_of t.trans_id)
      then 1
      else 0

  paid-le-active : (c : ℕ) (t : Row) → IsUnpaidIfFailed truth t → paid_out c t ≤ active truth c t
  unfolding is_active_payout
  paid-le-active c t h = ground (arith, h.unpaid, failed_of_code truth t.status)

  total-paid-le :
      (c : ℕ) (ts : List Row)
      → All (IsUnpaidIfFailed truth) ts
      → total (paid_out c) ts ≤ total (active truth c) ts
  total-paid-le c [] h = omega arith
  total-paid-le c (t ∷ ts) h = omega (arith, paid-le-active c t h.0, total-paid-le c ts h.1)

  -- From an empty table, whatever workers record, broadcast and look at, in whatever order, with
  -- answers of the helper lost and cached rows out of date: at most one broadcast for a claim moves
  -- money, as long as no RPC answer reports a failed execution of a transaction that moved money and
  -- the helper names the hash it broadcast under.
  pub Reach-paid_once :
      (db : Db) (n : Ledger) (c : ℕ)
      → db.rows ≡ []
      → Reach w ages truth (record { db = db; cached = [] }) n
      → total (paid_out c) n.db.rows ≤ 1
  Reach-paid_once db n c e r =
      let s = from_empty db n e r in
      omega (arith, total-paid-le c n.db.rows s.failures, s.one_active c)
