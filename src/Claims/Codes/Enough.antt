-- ===== src/Claims/Codes/Enough.antt =====
-- At a Spot with codes no more claims succeed than there are codes: count the pairs of a claim that
-- has succeeded and a code that it holds, once by claims and once by codes.
use native.Mathlib.Nat.{le_trans}
use nim_hunt.Prelude.{
  ℕ, ◌≡◌, refl, sym, ap, ◌∙◌, ◌≤◌, ◌+◌, inl, inr, Bool, true, ◌&&◌, some, List, [], ◌∷◌, ◌==◌,
  arith, if◌then◌else◌, ltb, subst, Option-cases, Bool-cases, any, All, total, total_mono, length,
  filter,
}
use nim_hunt.Outbox.Store.{claim_success}
use nim_hunt.Claims.{SpotRecord, ClaimRecord, CodeRecord, ClaimStore, Setting}
use nim_hunt.Claims.Rows.{spot_with, is_at, count_at}
use nim_hunt.Claims.Rules.{code_is_at}
use nim_hunt.Claims.Timeline.{Reach, empty_store}
use nim_hunt.Claims.Moves.{holds}
use nim_hunt.Claims.Moves.Counts.{Falls}
use nim_hunt.Claims.Codes.{IsCovered}
use nim_hunt.Claims.Codes.Held.{Reach-AllCovered}

abbrev one : Bool → ℕ
one b = if b then 1 else 0

length-filter {ℓ} :
    {A : Type ℓ} (p : A → Bool) (xs : List A) → length (filter p xs) ≡ total (λ x. one (p x)) xs
length-filter p [] = refl
length-filter p (x ∷ xs) =
    let rest = length-filter p xs in
    elim (Bool-cases (p x)) [
      | inl e ↦ rw e (omega (arith, rest))
      | inr e ↦ rw e (omega (arith, rest))
    ]

total-zero {ℓ} : {A : Type ℓ} (xs : List A) → total (λ x. 0) xs ≡ 0
total-zero [] = refl
total-zero (x ∷ xs) = omega (arith, total-zero xs)

total-add {ℓ} :
    {A : Type ℓ} (f g : A → ℕ) (xs : List A) → total (λ x. f x + g x) xs ≡ total f xs + total g xs
total-add f g [] = refl
total-add f g (x ∷ xs) = omega (arith, total-add f g xs)

total-swap {ℓ κ} :
    {A : Type ℓ} {B : Type κ} (f : A → B → ℕ) (xs : List A) (ys : List B)
    → total (λ x. total (λ y. f x y) ys) xs ≡ total (λ y. total (λ x. f x y) xs) ys
total-swap f [] ys = sym (total-zero ys)
total-swap f (x ∷ xs) ys =
    ap (λ (n : ℕ). total (λ y. f x y) ys + n) (total-swap f xs ys)
    ∙ sym (total-add (λ y. f x y) (λ y. total (λ a. f a y) xs) ys)

total-le_All :
    (P : ClaimRecord → Type 0) (f g : ClaimRecord → ℕ)
    → ((c : ClaimRecord) → P c → f c ≤ g c)
    → (cs : List ClaimRecord) → All P cs
    → total f cs ≤ total g cs
total-le_All P f g h [] a = omega arith
total-le_All P f g h (c ∷ cs) a = omega (arith, h c a.0, total-le_All P f g h cs a.1)

any-total :
    (p : CodeRecord → Bool) (ks : List CodeRecord) → any p ks ≡ true → 1 ≤ total (λ k. one (p k)) ks
any-total p [] h = absurd cc
any-total p (k ∷ ks) h = elim (Bool-cases (p k)) [
  | inl e ↦ rw e (omega arith)
  | inr e ↦ rw e (omega (arith, any-total p ks (rw e at h)))
]

-- At most one row has a given id.
used_once :
    (n u : ℕ) (cs : List ClaimRecord)
    → Falls n cs
    → total (λ c. one (u == c.claim_id)) cs ≤ (if ltb u n then 1 else 0)
used_once n u [] h = ground arith
used_once n u (c ∷ cs) h = let rest = used_once c.claim_id u cs h.1 in ground (arith, h.0)

module _ (spot_id : ℕ) where
  abbrev pair : ClaimRecord → CodeRecord → Bool
  pair c k = is_at spot_id claim_success c && holds c k

  by_code :
      (n : ℕ) (cs : List ClaimRecord) (k : CodeRecord)
      → Falls n cs
      → total (λ c. one (pair c k)) cs ≤ one (code_is_at spot_id k)
  by_code n cs k h = elim (Bool-cases (code_is_at spot_id k)) [
    | inr away ↦ rw away (
        le_trans (total_mono (λ c. one (pair c k)) (λ c. 0) (λ c. ground arith) cs)
          (omega (arith, total-zero cs)))
    | inl at ↦ rw at (elim (Option-cases k.used_by) [
      | inl free ↦
          le_trans (total_mono (λ c. one (pair c k)) (λ c. 0) (λ c. rw free (ground arith)) cs)
            (omega (arith, total-zero cs))
      | inr (u, e) ↦
          le_trans
            (total_mono (λ c. one (pair c k)) (λ c. one (u == c.claim_id))
              (λ c. rw e (ground arith)) cs)
            (let o = used_once n u cs h in ground arith)
    ])
  ]

  by_claim :
      (w : Setting) (st : ClaimStore) (s : SpotRecord)
      → spot_with spot_id w.spots ≡ some s
      → s.use_password ≡ true
      → (c : ClaimRecord) → IsCovered w st c
      → one (is_at spot_id claim_success c) ≤ total (λ k. one (pair c k)) st.codes
  by_claim w st s there p c covered = elim (Bool-cases (is_at spot_id claim_success c)) [
    | inr e ↦ rw e (omega arith)
    | inl e ↦
        let same_id : spot_id ≡ c.spot_id = ground arith in
        let held : any (holds c) st.codes ≡ true =
          covered (ground arith) s (subst (λ i. spot_with i w.spots ≡ some s) same_id there) p in
        rw e (any-total (holds c) st.codes held)
  ]

-- Whatever requests, refreshes, heartbeats and waits come after the tables were without claims, in
-- any order, and however many claims share a code while they wait, no more claims have succeeded at
-- a Spot with codes than it has codes.
pub Reach-enough_codes :
    (w : Setting) (codes : List CodeRecord) (spot_id : ℕ) (s : SpotRecord)
    → spot_with spot_id w.spots ≡ some s
    → s.use_password ≡ true
    → {now : ℕ} {st : ClaimStore} → Reach w (empty_store codes) now st
    → count_at spot_id claim_success st.claims ≤ length (filter (code_is_at spot_id) st.codes)
unfolding count_at
Reach-enough_codes w codes spot_id s there p {now} {st} r =
    let h = Reach-AllCovered w codes r in
    let cs = st.claims in
    let claims_ = length-filter (is_at spot_id claim_success) cs in
    let codes_ = length-filter (code_is_at spot_id) st.codes in
    let swap = total-swap (λ c k. one (pair spot_id c k)) cs st.codes in
    let left =
      total-le_All (IsCovered w st) (λ c. one (is_at spot_id claim_success c))
        (λ c. total (λ k. one (pair spot_id c k)) st.codes) (by_claim spot_id w st s there p) cs
        h.1 in
    let right =
      total_mono (λ k. total (λ c. one (pair spot_id c k)) cs) (λ k. one (code_is_at spot_id k))
        (λ k. by_code spot_id st.next_id cs k h.0) st.codes in
    omega arith
