-- ===== src/Claims/Moves/Counts.antt =====
-- Counts of successful claims under the updates of a status, and the order of the ids.
use nim_hunt.Prelude.{
  ℕ, ◌≡◌, refl, ap, ◌≤◌, ◌<◌, ◌+◌, inl, inr, Bool, false, ◌&&◌, some, List, [], ◌∷◌, ◌==◌, arith,
  Bool-cases, length, filter,
}
use nim_hunt.Outbox.Store.{ClaimStatus, claim_pending, claim_success, claim_failed}
use nim_hunt.Settlement.Draw.{claim_code}
use nim_hunt.Claims.{ClaimRecord, ClaimStore, Setting}
use nim_hunt.Claims.Rows.{
  is_in, has_id, with_status, change, claim_with, update_status, insert_claim, consume_code,
  release_code,
}
use nim_hunt.Claims.Moves.{Move, begin, try_code, take_code, give_back, wait, fail, succeed}

-- Ids fall along the list, below a bound.
abbrev pub Falls : ℕ → List ClaimRecord → Type 0
Falls n [] = Unit
Falls n (c ∷ cs) = (c.claim_id < n) × Falls c.claim_id cs

change-Falls :
    (n : ℕ) (test : ClaimRecord → Bool) (s : ClaimStatus) (now : ℕ) (cs : List ClaimRecord)
    → Falls n cs
    → Falls n (change test s now cs)
change-Falls n test s now [] h = tt
change-Falls n test s now (c ∷ cs) h = elim (Bool-cases (test c)) [
  | inl p ↦ rw p (h.0, change-Falls c.claim_id test s now cs h.1)
  | inr p ↦ rw p (h.0, change-Falls c.claim_id test s now cs h.1)
]

pub Move-Falls :
    (w : Setting) (now : ℕ) (s t : ClaimStore)
    → Move w now s t
    → Falls s.next_id s.claims
    → Falls t.next_id t.claims
unfolding insert_claim consume_code release_code update_status
Move-Falls w now s t (begin st sid user payout a) h = (omega arith, h)
Move-Falls w now s t (try_code st l) h = h
Move-Falls w now s t (take_code st k id) h = h
Move-Falls w now s t (give_back st id c e q) h = h
Move-Falls w now s t (wait st id) h =
    change-Falls st.next_id (has_id id) claim_pending now st.claims h
Move-Falls w now s t (fail st test) h = change-Falls st.next_id test claim_failed now st.claims h
Move-Falls w now s t (succeed st id c sp e m) h =
    change-Falls st.next_id (has_id id) claim_success now st.claims h

absent_unchanged :
    (n id : ℕ) (s : ClaimStatus) (now : ℕ) (cs : List ClaimRecord)
    → Falls n cs
    → n ≤ id
    → change (has_id id) s now cs ≡ cs
absent_unchanged n id s now [] h le = refl
absent_unchanged n id s now (c ∷ cs) h le =
    let other : (c.claim_id == id) ≡ false = ground (arith, h.0) in
    rw other (ap (λ l. c ∷ l) (absent_unchanged c.claim_id id s now cs h.1 (omega (arith, h.0))))

module _ (p q : ClaimRecord → Bool)
    (splits : (c : ClaimRecord) → p c ≡ (is_in claim_success c && q c))
    (stable : (s : ClaimStatus) (now : ℕ) (c : ClaimRecord) → q (with_status s now c) ≡ q c) where
  abbrev count : List ClaimRecord → ℕ
  count cs = length (filter p cs)

  pub lost_count-le :
      (test : ClaimRecord → Bool) (s : ClaimStatus) (now : ℕ) (cs : List ClaimRecord)
      → (claim_code s == 1) ≡ false
      → length (filter p (change test s now cs)) ≤ length (filter p cs)
  lost_count-le test s now [] h = omega arith
  lost_count-le test s now (c ∷ cs) h =
      let rest = lost_count-le test s now cs h in
      elim (Bool-cases (test c)) [
        | inl t ↦
            let out : p (with_status s now c) ≡ false = rw (splits (with_status s now c), h) refl in
            rw (t, out) (ground arith)
        | inr t ↦ rw t (ground arith)
      ]

  pub won_count-le :
      (n id now : ℕ) (cs : List ClaimRecord)
      → Falls n cs
      → length (filter p (change (has_id id) claim_success now cs)) ≤ length (filter p cs) + 1
  won_count-le n id now [] h = omega arith
  won_count-le n id now (c ∷ cs) h = elim (Bool-cases (c.claim_id == id)) [
    | inl t ↦
        let same_id : c.claim_id ≤ id = ground arith in
        rw (t, absent_unchanged c.claim_id id claim_success now cs h.1 same_id) (ground arith)
    | inr t ↦ rw t (let rest = won_count-le c.claim_id id now cs h.1 in ground arith)
  ]

  -- A success that is not counted.
  pub other_count-le :
      (n id now : ℕ) (cs : List ClaimRecord) (c : ClaimRecord)
      → Falls n cs
      → claim_with id cs ≡ some c
      → q c ≡ false
      → length (filter p (change (has_id id) claim_success now cs)) ≤ length (filter p cs)
  unfolding claim_with
  other_count-le n id now [] c h e out = omega arith
  other_count-le n id now (d ∷ cs) c h e out = elim (Bool-cases (d.claim_id == id)) [
    | inl t ↦
        let same_row : d ≡ c = ground arith in
        let same_id : d.claim_id ≤ id = ground arith in
        let skipped : p (with_status claim_success now d) ≡ false =
          rw (splits (with_status claim_success now d), stable claim_success now d, same_row, out)
            refl in
        rw (t, skipped, absent_unchanged d.claim_id id claim_success now cs h.1 same_id)
          (ground arith)
    | inr t ↦
        rw t
          (let rest = other_count-le d.claim_id id now cs c h.1 (ground arith) out in ground arith)
  ]
