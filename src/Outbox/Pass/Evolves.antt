-- ===== src/Outbox/Pass/Evolves.antt =====
-- The abstract machine that settles payments, and the changes of the table that follow it.
use nim_hunt.Prelude.{
  ℕ, ◌≡◌, refl, ◌∙◌, ◌⊎◌, inl, inr, true, ◌==◌, Option, some, List, [], ◌∷◌, arith, Bool-cases,
  Option-cases,
}
use nim_hunt.Prelude.Text.{Text}
use nim_hunt.Chain.Python.{Whole}
use nim_hunt.Tables.{TransStatus, pending, confirmed, failed, status_code}
use nim_hunt.Outbox.{Row}
use nim_hunt.Outbox.Store.{row_of, change, settled, with_details, set_status, update_details, is_in}

-- The abstract machine: a row waits, and ends confirmed or failed.
pub data Moves : TransStatus → TransStatus → Type 0 where
  stays : (s : TransStatus) → Moves s s
  confirms : Moves pending confirmed
  fails : Moves pending failed

Moves-trans : {a b c : TransStatus} → Moves a b → Moves b c → Moves a c
Moves-trans (stays s) n = n
Moves-trans confirms (stays s) = confirms
Moves-trans fails (stays s) = fails

status_of_pending : (s : TransStatus) → (status_code s == 0) ≡ true → s ≡ pending
status_of_pending pending e = refl
status_of_pending confirmed e = cc
status_of_pending failed e = cc

-- `Why id` is what must hold for the row of that id to become failed.
module _ (Why : ℕ → Type 0) where
  -- A row and what it became: the same payment of the same hash, its status moved.
  pub record Became (t u : Row) : Type 0 where
    pub trans_id : u.trans_id ≡ t.trans_id
    pub spot_id : u.spot_id ≡ t.spot_id
    pub claim_id : u.claim_id ≡ t.claim_id
    pub kind : u.kind ≡ t.kind
    pub tx_hash : u.tx_hash ≡ t.tx_hash
    pub created_at : u.created_at ≡ t.created_at
    pub moved : Moves t.status u.status
    pub why : u.status ≡ failed → (t.status ≡ failed) ⊎ Why t.trans_id

  pub data Evolves : List Row → List Row → Type 0 where
    done : Evolves [] []
    next : {t u : Row} {ts us : List Row} → Became t u → Evolves ts us → Evolves (t ∷ ts) (u ∷ us)

  Became-refl : (t : Row) → Became t t
  Became-refl t = record {
    trans_id = refl;
    spot_id = refl;
    claim_id = refl;
    kind = refl;
    tx_hash = refl;
    created_at = refl;
    moved = stays t.status;
    why = λ f. inl f;
  }

  Why-through :
      (t u : Row)
      → Became t u
      → (u.status ≡ failed) ⊎ Why u.trans_id
      → (t.status ≡ failed) ⊎ Why t.trans_id
  Why-through t u p (inl f) = p.why f
  Why-through t u p (inr y) = inr (rw (← p.trans_id) y)

  Became-trans : {t u v : Row} → Became t u → Became u v → Became t v
  Became-trans p q = record {
    trans_id = q.trans_id ∙ p.trans_id;
    spot_id = q.spot_id ∙ p.spot_id;
    claim_id = q.claim_id ∙ p.claim_id;
    kind = q.kind ∙ p.kind;
    tx_hash = q.tx_hash ∙ p.tx_hash;
    created_at = q.created_at ∙ p.created_at;
    moved = Moves-trans p.moved q.moved;
    why = λ f. Why-through _ _ p (q.why f);
  }

  pub Evolves-refl : (ts : List Row) → Evolves ts ts
  Evolves-refl [] = done
  Evolves-refl (t ∷ ts) = next (Became-refl t) (Evolves-refl ts)

  pub Evolves-trans : {ts us vs : List Row} → Evolves ts us → Evolves us vs → Evolves ts vs
  Evolves-trans done done = done
  Evolves-trans (next p ps) (next q qs) = next (Became-trans p q) (Evolves-trans ps qs)

  settled-Became :
      (s : TransStatus) (block : Option Whole) (t : Row)
      → Moves pending s
      → (s ≡ failed → Why t.trans_id)
      → Became t (settled s block t)
  unfolding settled
  settled-Became s block t m y = elim (Bool-cases (is_in pending t)) [
    | inr e ↦ rw e (Became-refl t)
    | inl e ↦ rw e (record {
      trans_id = refl;
      spot_id = refl;
      claim_id = refl;
      kind = refl;
      tx_hash = refl;
      created_at = refl;
      moved = rw (status_of_pending t.status e) m;
      why = λ f. inr (y f);
    })
  ]

  with_details-Became :
      (from to : Text) (amount : ℕ) (block : Option Whole) (t : Row)
      → Became t (with_details from to amount block t)
  unfolding with_details
  with_details-Became from to amount block t = record {
    trans_id = refl;
    spot_id = refl;
    claim_id = refl;
    kind = refl;
    tx_hash = refl;
    created_at = refl;
    moved = stays t.status;
    why = λ f. inl f;
  }

  change-Evolves :
      (id : ℕ) (f : Row → Row)
      → ((t : Row) → t.trans_id ≡ id → Became t (f t))
      → (ts : List Row) → Evolves ts (change id f ts)
  unfolding change
  change-Evolves id f h [] = done
  change-Evolves id f h (t ∷ ts) = elim (Bool-cases (t.trans_id == id)) [
    | inl e ↦ rw e (next (h t (ground arith)) (change-Evolves id f h ts))
    | inr e ↦ rw e (next (Became-refl t) (change-Evolves id f h ts))
  ]

  pub set_status-Evolves :
      (id : ℕ) (s : TransStatus) (block : Option Whole) (ts us : List Row)
      → Moves pending s
      → (s ≡ failed → Why id)
      → set_status id s block ts ≡ some us
      → Evolves ts us
  unfolding set_status
  set_status-Evolves id s block ts us m y e = elim (Option-cases (row_of id ts)) [
    | inl absent ↦ absurd (ground arith)
    | inr (t, et) ↦ elim (Bool-cases (is_in pending t)) [
      | inl open_ ↦
          let q : change id (settled s block) ts ≡ us = ground arith in
          rw (← q) (
            change-Evolves id (settled s block)
              (λ u h. settled-Became s block u m (λ f. rw h (y f))) ts)
      | inr closed ↦ let q : ts ≡ us = ground arith in rw (← q) (Evolves-refl ts)
    ]
  ]

  pub update_details-Evolves :
      (id : ℕ) (from to : Text) (amount : ℕ) (block : Option Whole) (ts us : List Row)
      → update_details id from to amount block ts ≡ some us
      → Evolves ts us
  unfolding update_details
  update_details-Evolves id from to amount block ts us e = elim (Option-cases (row_of id ts)) [
    | inl absent ↦ absurd (ground arith)
    | inr (t, et) ↦
        let q : change id (with_details from to amount block) ts ≡ us = ground arith in
        rw (← q) (
          change-Evolves id (with_details from to amount block)
            (λ u h. with_details-Became from to amount block u) ts)
  ]
