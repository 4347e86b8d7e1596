-- ===== src/Outbox/Timeline/Sound.antt =====
-- The invariant of the outbox, and that a look at a row and an answer of the helper keep it.
use nim_hunt.Prelude.{
  ℕ, ◌≤◌, ◌≡◌, ◌≢◌, refl, ◌⊎◌, inl, inr, true, false, ◌==◌, List, [], ◌∷◌, arith, length, total,
  All, Bool-cases, if◌then◌else◌,
}
use nim_hunt.Prelude.Text.{Text, strip}
use nim_hunt.Chain.Rpc.{Rpc}
use nim_hunt.Tables.{
  fill_spot, TransType, type_code, TransStatus, pending, confirmed, failed, status_code,
}
use nim_hunt.Outbox.{Row, Surroundings, is_local_intent_hash, is_deposit}
use nim_hunt.Outbox.Store.{change, as_sent, is_active_payout}
use nim_hunt.Outbox.Pass.Evolves.{Moves, stays, confirms, fails, Evolves, Became, done, next}
use nim_hunt.Outbox.Pass.Refines.{Cause, proven, deposit, blank, IsAmong, first, later}
use nim_hunt.Outbox.Timeline.{Ledger, Truth, IsHonest}

no_blank_intent : (h : Text) → (length h == 0) ≡ true → is_local_intent_hash h ≢ true
unfolding is_local_intent_hash
no_blank_intent [] b e = cc
no_blank_intent (c ∷ cs) b e = ground arith

module _ (truth : Truth) where
  -- The hash of a payout's row: its intent, or what it went out under.
  pub record IsOwn (t : Row) : Type 0 where
    pub kind : truth.kind_of t.trans_id ≡ t.kind
    pub hash :
        (type_code t.kind == 20) ≡ true
        → (is_local_intent_hash (strip t.tx_hash) ≡ true)
          ⊎ ((strip t.tx_hash ≡ truth.hash_of t.trans_id)
              × ((length (strip t.tx_hash) == 0) ≡ false))

  -- A payout that failed moved no money.
  pub record IsUnpaidIfFailed (t : Row) : Type 0 where
    pub unpaid :
        (type_code t.kind == 20) ≡ true
        → t.status ≡ failed
        → truth.paid (truth.hash_of t.trans_id) ≡ false

  abbrev pub active : ℕ → Row → ℕ
  active c t = if is_active_payout c t then 1 else 0

  pub record IsSound (m : Ledger) : Type 0 where
    pub own : All IsOwn m.db.rows
    pub cached_own : All IsOwn m.cached
    pub failures : All IsUnpaidIfFailed m.db.rows
    pub one_active : (c : ℕ) → total (active c) m.db.rows ≤ 1

  abbrev pub Why : ℕ → Type 0
  Why id = (type_code (truth.kind_of id) == 20) ≡ true → truth.paid (truth.hash_of id) ≡ false

  pub payout_of_deposit : (k : TransType) → is_deposit k ≡ true → (type_code k == 20) ≡ false
  unfolding is_deposit
  payout_of_deposit fill_spot d = refl
  payout_of_deposit _ d = cc

  -- What a look leaves of the invariant, row by row.
  Became-IsOwn : (t u : Row) → Became Why t u → IsOwn t → IsOwn u
  Became-IsOwn t u b own = record {
    kind = rw (b.trans_id, b.kind) own.kind;
    hash = rw (b.trans_id, b.kind, b.tx_hash) own.hash;
  }

  Became-IsUnpaidIfFailed :
      (t u : Row) → Became Why t u → IsOwn t → IsUnpaidIfFailed t → IsUnpaidIfFailed u
  Became-IsUnpaidIfFailed t u b own before = record {
    unpaid = λ k f. elim (b.why f) [
      | inl old ↦ rw b.trans_id (before.unpaid (rw b.kind at k) old)
      | inr why ↦ rw b.trans_id (why (rw own.kind (rw b.kind at k)))
    ];
  }

  pub failed_of_code : (s : TransStatus) → (status_code s == 2) ≡ true → s ≡ failed
  failed_of_code failed e = refl
  failed_of_code pending e = cc
  failed_of_code confirmed e = cc

  failed_stays :
      (a b : TransStatus) → Moves a b → (status_code a == 2) ≡ true → (status_code b == 2) ≡ true
  failed_stays a b (stays s) e = e
  failed_stays a b confirms e = cc
  failed_stays a b fails e = cc

  active-Became : (c : ℕ) (t u : Row) → Became Why t u → active c u ≤ active c t
  unfolding is_active_payout
  active-Became c t u b = ground (arith, failed_stays t.status u.status b.moved, b.claim_id, b.kind)

  pub active-Evolves :
      (c : ℕ) {ts us : List Row} → Evolves Why ts us → total (active c) us ≤ total (active c) ts
  active-Evolves c done = omega arith
  active-Evolves c (next {t = t} {u = u} b bs) =
      omega (arith, active-Became c t u b, active-Evolves c bs)

  pub IsOwn-Evolves : {ts us : List Row} → Evolves Why ts us → All IsOwn ts → All IsOwn us
  IsOwn-Evolves done h = tt
  IsOwn-Evolves (next {t = t} {u = u} b bs) h = (Became-IsOwn t u b h.0, IsOwn-Evolves bs h.1)

  pub failures-Evolves :
      {ts us : List Row}
      → Evolves Why ts us
      → All IsOwn ts
      → All IsUnpaidIfFailed ts
      → All IsUnpaidIfFailed us
  failures-Evolves done o h = tt
  failures-Evolves (next {t = t} {u = u} b bs) o h =
      (Became-IsUnpaidIfFailed t u b o.0 h.0, failures-Evolves bs o.1 h.1)

  pub member : {t : Row} {ts : List Row} → IsAmong t ts → All IsOwn ts → IsOwn t
  member first h = h.0
  member (later m) h = member m h.1

  module _ (id : ℕ) (clean from to : Text) (amount : ℕ) where
    pub sent-IsOwn :
        (ts : List Row)
        → strip clean ≡ truth.hash_of id
        → (length (strip clean) == 0) ≡ false
        → All IsOwn ts
        → All IsOwn (change id (as_sent clean from to amount) ts)
    unfolding change as_sent
    sent-IsOwn [] e filled h = tt
    sent-IsOwn (t ∷ ts) e filled h = elim (Bool-cases (t.trans_id == id)) [
      | inl q ↦ rw q (
        record { kind = h.0.kind; hash = λ k. inr (rw (id_of t q) e, filled) },
        sent-IsOwn ts e filled h.1,
      )
      | inr q ↦ rw q (h.0, sent-IsOwn ts e filled h.1)
    ]
      where
        id_of : (u : Row) → (u.trans_id == id) ≡ true → u.trans_id ≡ id
        id_of u q = ground arith

    pub sent-IsUnpaidIfFailed :
        (ts : List Row)
        → All IsUnpaidIfFailed ts
        → All IsUnpaidIfFailed (change id (as_sent clean from to amount) ts)
    unfolding change as_sent
    sent-IsUnpaidIfFailed [] h = tt
    sent-IsUnpaidIfFailed (t ∷ ts) h = elim (Bool-cases (t.trans_id == id)) [
      | inl q ↦ rw q (record { unpaid = h.0.unpaid }, sent-IsUnpaidIfFailed ts h.1)
      | inr q ↦ rw q (h.0, sent-IsUnpaidIfFailed ts h.1)
    ]

    pub sent-active :
        (c : ℕ) (ts : List Row)
        → total (active c) (change id (as_sent clean from to amount) ts) ≡ total (active c) ts
    unfolding change as_sent is_active_payout
    sent-active c [] = refl
    sent-active c (t ∷ ts) = elim (Bool-cases (t.trans_id == id)) [
      | inl q ↦ rw q (omega (arith, sent-active c ts))
      | inr q ↦ rw q (omega (arith, sent-active c ts))
    ]

module _ (w : Surroundings) (truth : Truth) where
  pub Cause-Why :
      (rpc : Rpc) (t : Row)
      → IsHonest w truth rpc
      → IsOwn truth t
      → Cause w rpc t
      → Why truth t.trans_id
  Cause-Why rpc t honest own (deposit d) k = absurd (
      let k' : (type_code t.kind == 20) ≡ true = rw (own.kind) at k in
      ground (arith, payout_of_deposit truth t.kind d))
  Cause-Why rpc t honest own (proven sent p) k = elim (own.hash (rw (own.kind) at k)) [
    | inl intent ↦ absurd (ground arith)
    | inr (h, filled) ↦ rw (← h) (honest.unpaid (strip t.tx_hash) p)
  ]
  Cause-Why rpc t honest own (blank b) k = elim (own.hash (rw (own.kind) at k)) [
    | inl intent ↦ absurd (no_blank_intent (strip t.tx_hash) b intent)
    | inr (h, filled) ↦ absurd (ground arith)
  ]
