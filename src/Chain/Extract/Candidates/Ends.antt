-- ===== src/Chain/Extract/Candidates/Ends.antt =====
-- The scan of an address-list answer ends, and never queues more values than the answer holds.
use nim_hunt.Prelude.{
  zero, suc, ℕ, ◌+◌, ◌≤◌, ◌≡◌, refl, inl, inr, Bool, true, false, none, some, List, [], ◌∷◌, ◌++◌,
  arith, total, total-append, if◌then◌else◌, Bool-cases, Option-cases,
}
use nim_hunt.Prelude.Text.{Text, same, same_iff, is_one_of}
use nim_hunt.Chain.Python.{Python}
use nim_hunt.Chain.Json.{
  Json, json_null, json_bool, json_number, json_text, json_array, json_object, Items, no_item,
  next_item, Fields, no_field, next_field, nodes, item_nodes, field_nodes, get_field,
}
use nim_hunt.Chain.Extract.{get, unwrap_rpc_result}
use nim_hunt.Chain.Extract.Candidates.{
  items, containers_under, list_keys, visit, scan, prepend, iter_candidate_transactions,
}

abbrev pub weight : List Json → ℕ
weight vs = total nodes vs

items-weight : (xs : Items) → weight (items xs) ≡ item_nodes xs
unfolding items item_nodes
items-weight no_item = refl
items-weight (next_item v xs) = omega (arith, items-weight xs)

-- The weight of what an object holds under a key.
abbrev held : Fields → Text → ℕ
held fs k = elim (get_field k fs) [ none ↦ 0 | some v ↦ nodes v ]

under_key :
    (k : Text) (fs : Fields) (ks : List Text)
    → weight (containers_under (k ∷ ks) (json_object fs))
      ≤ held fs k + weight (containers_under ks (json_object fs))
unfolding containers_under get
under_key k fs ks = elim (Option-cases (get_field k fs)) [
  | inl n ↦ ground arith
  | inr (v, e) ↦ ground arith
]

containers_under-weight :
    (ks : List Text) (fs : Fields)
    → weight (containers_under ks (json_object fs)) ≤ total (held fs) ks
unfolding containers_under
containers_under-weight [] fs = omega arith
containers_under-weight (k ∷ ks) fs =
    omega (arith, under_key k fs ks, containers_under-weight ks fs)

-- Keys with none twice.
abbrev are_distinct : List Text → Bool
are_distinct [] = true
are_distinct (k ∷ ks) = if is_one_of k ks then false else are_distinct ks

held-absent :
    (j : Text) (v : Json) (fs : Fields) (ks : List Text)
    → is_one_of j ks ≡ false
    → total (held (next_field j v fs)) ks ≡ total (held fs) ks
unfolding get_field
held-absent j v fs [] h = refl
held-absent j v fs (k ∷ ks) h = ground (arith, held-absent j v fs ks)

held-next :
    (j : Text) (v : Json) (fs : Fields) (ks : List Text)
    → are_distinct ks ≡ true
    → total (held (next_field j v fs)) ks ≤ nodes v + total (held fs) ks
unfolding get_field
held-next j v fs [] h = omega arith
held-next j v fs (k ∷ ks) h = elim (Bool-cases (same j k)) [
  | inl e ↦
      let q : j ≡ k = (same_iff j k).0 e in
      let a : is_one_of j ks ≡ false = rw q (ground arith) in
      ground (arith, held-absent j v fs ks a)
  | inr e ↦ ground (arith, held-next j v fs ks)
]

held-none : (ks : List Text) → total (held no_field) ks ≡ 0
unfolding get_field
held-none [] = refl
held-none (k ∷ ks) = omega (arith, held-none ks)

held-le :
    (fs : Fields) (ks : List Text) → are_distinct ks ≡ true → total (held fs) ks ≤ field_nodes fs
unfolding field_nodes
held-le no_field ks d = omega (arith, held-none ks)
held-le (next_field j v fs) ks d = omega (arith, held-next j v fs ks d, held-le fs ks d)

module _ (py : Python) where
  queued : (v : Json) → suc (weight (visit py v).1) ≤ nodes v
  unfolding visit nodes
  queued json_null = omega arith
  queued (json_bool b) = omega arith
  queued (json_number t w) = omega arith
  queued (json_text t) = omega arith
  queued (json_array xs) = omega (arith, items-weight xs)
  queued (json_object fs) =
      ground (arith, containers_under-weight list_keys fs, held-le fs list_keys refl)

  scan_enough :
      (n : ℕ) (queue : List Json)
      → weight queue ≤ n
      → (found : List Json) × (scan py n queue ≡ some found)
  unfolding scan
  scan_enough zero [] h = ([], refl)
  scan_enough zero (v ∷ queue) h = absurd (omega (arith, queued v))
  scan_enough (suc n) [] h = ([], refl)
  scan_enough (suc n) (v ∷ queue) h =
      let rest =
        scan_enough n (queue ++ (visit py v).1)
          (omega (arith, total-append nodes queue (visit py v).1, queued v)) in
      (prepend py (visit py v).0 rest.0, rw rest.1 refl)

  -- Reading an answer's transactions ends: the loop reads at most as many values as it holds.
  pub iter_candidate_transactions-ends :
      (answer : Json)
      → let part = (unwrap_rpc_result answer).0 in
        scan py (nodes part) (part ∷ []) ≡ some (iter_candidate_transactions py answer)
  unfolding iter_candidate_transactions
  iter_candidate_transactions-ends answer =
      let part = (unwrap_rpc_result answer).0 in
      let (found, e) = scan_enough (nodes part) (part ∷ []) (omega arith) in
      rw (iter_candidate_transactions, e) refl
