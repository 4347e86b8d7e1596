-- ===== src/Claims/Codes/Held.antt =====
-- Every move keeps the codes of the claims that have succeeded.
use nim_hunt.Prelude.{
  ℕ, ◌≡◌, refl, sym, ap, ◌∙◌, ◌≤◌, inl, inr, Bool, true, false, some, List, [], ◌∷◌, map, ◌==◌,
  arith, subst, Option-cases, Bool-cases, any, All, All-weaken,
}
use nim_hunt.Outbox.Store.{ClaimStatus, claim_pending, claim_success, claim_failed}
use nim_hunt.Settlement.Draw.{claim_code}
use nim_hunt.Claims.{SpotRecord, ClaimRecord, CodeRecord, ClaimStore, Setting}
use nim_hunt.Claims.Rows.{
  spot_with, claim_with, change, is_in, has_id, with_status, insert_claim, consume_code,
  release_code, update_status, taken, freed,
}
use nim_hunt.Claims.Timeline.{Reach, empty_store}
use nim_hunt.Claims.Moves.{
  holds, MaySucceed, Move, begin, try_code, take_code, give_back, wait, fail, succeed,
}
use nim_hunt.Claims.Moves.Histories.{Reach-keeps}
use nim_hunt.Claims.Moves.Counts.{Falls, Move-Falls}
use nim_hunt.Claims.Codes.{IsCovered}

any-map :
    (p : CodeRecord → Bool) (f : CodeRecord → CodeRecord)
    → ((k : CodeRecord) → p k ≡ true → p (f k) ≡ true)
    → (ks : List CodeRecord) → any p ks ≡ true
    → any p (map f ks) ≡ true
any-map p f h [] e = e
any-map p f h (k ∷ ks) e = elim (Bool-cases (p k)) [
  | inl q ↦ rw (h k q) refl
  | inr q ↦
      let rest = any-map p f h ks (rw q at e) in
      elim (Bool-cases (p (f k))) [ inl t ↦ rw t refl | inr t ↦ rw t rest ]
]

taken_keeps :
    (c : ClaimRecord) (code_id id : ℕ) (k : CodeRecord)
    → holds c k ≡ true
    → holds c (taken code_id id k) ≡ true
taken_keeps c code_id id k h = elim (Option-cases k.used_by) [
  | inl e ↦ absurd (let t : false ≡ true = rw (holds, e) at h in cc)
  | inr (u, e) ↦ ground arith
]

freed_keeps :
    (c : ClaimRecord) (id : ℕ) (k : CodeRecord)
    → (c.claim_id == id) ≡ false
    → holds c k ≡ true
    → holds c (freed id k) ≡ true
freed_keeps c id k other h = ground arith

-- Rows with one id are one row.
unique :
    (n id : ℕ) (cs : List ClaimRecord) (c : ClaimRecord)
    → Falls n cs
    → claim_with id cs ≡ some c
    → All (λ d. (d.claim_id == id) ≡ true → d ≡ c) cs
unfolding claim_with
unique n id [] c h e = tt
unique n id (d ∷ cs) c h e = elim (Bool-cases (d.claim_id == id)) [
  | inl q ↦ (λ t. ground arith, below d.claim_id id cs c h.1 (ground arith))
  | inr q ↦ (λ t. absurd cc, unique d.claim_id id cs c h.1 (ground arith))
]
  where
    below :
        (n id : ℕ) (cs : List ClaimRecord) (c : ClaimRecord)
        → Falls n cs
        → n ≤ id
        → All (λ d. (d.claim_id == id) ≡ true → d ≡ c) cs
    below n id [] c h le = tt
    below n id (d ∷ cs) c h le =
        (λ t. absurd (ground (arith, h.0)), below d.claim_id id cs c h.1 (omega (arith, h.0)))

All-change :
    (P R Q : ClaimRecord → Type 0) (test : ClaimRecord → Bool) (s : ClaimStatus) (now : ℕ)
    → ((c : ClaimRecord) → P c → R c → test c ≡ true → Q (with_status s now c))
    → ((c : ClaimRecord) → P c → Q c)
    → (cs : List ClaimRecord) → All P cs
    → All R cs
    → All Q (change test s now cs)
All-change P R Q test s now f g [] h r = tt
All-change P R Q test s now f g (c ∷ cs) h r =
    let rest = All-change P R Q test s now f g cs h.1 r.1 in
    elim (Bool-cases (test c)) [ inl t ↦ rw t (f c h.0 r.0 t, rest) | inr t ↦ rw t (g c h.0, rest) ]

All-both :
    (P Q R : ClaimRecord → Type 0)
    → ((c : ClaimRecord) → P c → Q c → R c)
    → (cs : List ClaimRecord) → All P cs
    → All Q cs
    → All R cs
All-both P Q R f [] h k = tt
All-both P Q R f (c ∷ cs) h k = (f c h.0 k.0, All-both P Q R f cs h.1 k.1)

module _ (w : Setting) where
  abbrev AllCovered : ClaimStore → Type 0
  AllCovered st = Falls st.next_id st.claims × All (IsCovered w st) st.claims

  -- No claim succeeds by becoming anything else.
  lost :
      (st : ClaimStore) (test : ClaimRecord → Bool) (s : ClaimStatus) (now : ℕ)
      → (claim_code s == 1) ≡ false
      → All (IsCovered w st) st.claims
      → All (IsCovered w st) (change test s now st.claims)
  lost st test s now out h =
      All-change (IsCovered w st) (IsCovered w st) (IsCovered w st) test s now
        (λ c a b t won sp at p. absurd cc) (λ c a. a) st.claims h h

  won :
      (st : ClaimStore) (id now : ℕ) (c : ClaimRecord) (s : SpotRecord)
      → AllCovered st
      → claim_with id st.claims ≡ some c
      → MaySucceed w st c s
      → All (IsCovered w st) (change (has_id id) claim_success now st.claims)
  won st id now c s h e m =
      All-change (IsCovered w st) (λ d. (d.claim_id == id) ≡ true → d ≡ c) (IsCovered w st)
        (has_id id) claim_success now (λ d a b t. own d (b t)) (λ d a. a) st.claims h.1
        (unique st.next_id id st.claims c h.0 e)
    where
      own : (d : ClaimRecord) → d ≡ c → IsCovered w st (with_status claim_success now d)
      own d same_row success sp at p =
          let q : some sp ≡ some s =
            sym at ∙ (ap (λ (x : ClaimRecord). spot_with x.spot_id w.spots) same_row ∙ m.there) in
          let k : sp ≡ s = cc in
          let held : any (holds c) st.codes ≡ true = m.has_code (rw (← k) p) in
          subst (λ (x : ClaimRecord). any (holds x) st.codes ≡ true) (sym same_row) held

  recoded :
      (st : ClaimStore) (f : CodeRecord → CodeRecord)
      → ((c : ClaimRecord) (k : CodeRecord)
          → is_in claim_success c ≡ true
          → holds c k ≡ true
          → holds c (f k) ≡ true)
      → All (IsCovered w st) st.claims
      → All (IsCovered w (record st { codes = map f st.codes })) st.claims
  recoded st f keep h =
      All-weaken (IsCovered w st) (IsCovered w (record st { codes = map f st.codes }))
        (λ c covered success s at p.
          any-map (holds c) f (λ k. keep c k success) st.codes (covered success s at p))
        st.claims h

  -- A code that is given back belongs to no claim that has succeeded.
  given :
      (st : ClaimStore) (id : ℕ) (c : ClaimRecord)
      → AllCovered st
      → claim_with id st.claims ≡ some c
      → is_in claim_success c ≡ false
      → All (IsCovered w (record st { codes = map (freed id) st.codes })) st.claims
  given st id c h e out =
      All-both (IsCovered w st) (λ d. (d.claim_id == id) ≡ true → d ≡ c)
        (IsCovered w (record st { codes = map (freed id) st.codes }))
        (λ d covered same_row success s at p. elim (Bool-cases (d.claim_id == id)) [
          | inl t ↦ absurd (let q : is_in claim_success c ≡ true = rw (← same_row t) success in cc)
          | inr t ↦
              any-map (holds d) (freed id) (λ k. freed_keeps d id k t) st.codes
                (covered success s at p)
        ])
        st.claims h.1 (unique st.next_id id st.claims c h.0 e)

  Move-AllCovered : (now : ℕ) (a b : ClaimStore) → Move w now a b → AllCovered a → AllCovered b
  unfolding insert_claim consume_code release_code update_status
  Move-AllCovered now a b (begin st sid user payout adm) h =
      (Move-Falls w now a b (begin st sid user payout adm) h.0, (λ success s at p. absurd cc, h.1))
  Move-AllCovered now a b (try_code st l) h = h
  Move-AllCovered now a b (take_code st k id) h =
      (h.0, recoded st (taken k id) (λ c j success. taken_keeps c k id j) h.1)
  Move-AllCovered now a b (give_back st id c e q) h = (h.0, given st id c h e q)
  Move-AllCovered now a b (wait st id) h =
      (Move-Falls w now a b (wait st id) h.0, lost st (has_id id) claim_pending now refl h.1)
  Move-AllCovered now a b (fail st test) h =
      (Move-Falls w now a b (fail st test) h.0, lost st test claim_failed now refl h.1)
  Move-AllCovered now a b (succeed st id c s e m) h =
      (Move-Falls w now a b (succeed st id c s e m) h.0, won st id now c s h e m)

  -- From a store without claims, every claim that has succeeded is covered.
  pub Reach-AllCovered :
      (codes : List CodeRecord) {now : ℕ} {st : ClaimStore}
      → Reach w (empty_store codes) now st
      → AllCovered st
  unfolding empty_store
  Reach-AllCovered codes r =
      Reach-keeps w (λ now st. AllCovered st) Move-AllCovered (λ now later st le h. h)
        (empty_store codes) (λ now. (tt, tt)) r
