-- ===== src/Chain/Extract/Candidates.antt =====
-- The transactions in an address-list answer (trans_updater.py, `_iter_candidate_transactions`): the
-- outermost objects that name a hash, breadth first. The queue keeps what is still to be read.
pub mod Ends
use nim_hunt.Prelude.{
  zero, suc, ℕ, Bool, Option, none, some, List, [], ◌∷◌, ◌++◌, if◌then◌else◌, is_some, find,
}
use nim_hunt.Prelude.Text.{Text, codes}
use nim_hunt.Chain.Python.{Python}
use nim_hunt.Chain.Json.{Json, json_array, json_object, Items, no_item, next_item, nodes}
use nim_hunt.Chain.Extract.{
  is_container, get, unwrap_rpc_result, extract_chain_hash, transaction_matches_hash,
}

unfoldable pub items : Items → List Json
items no_item = []
items (next_item v xs) = v ∷ items xs

-- The arrays and objects under the given keys of an object.
unfoldable pub containers_under : List Text → Json → List Json
containers_under [] v = []
containers_under (k ∷ ks) v =
    let rest = containers_under ks v in
    elim (get k v) [ none ↦ rest | some child ↦ if is_container child then child ∷ rest else rest ]

abbrev pub list_keys : List Text
list_keys =
    codes "transactions" ∷ codes "items" ∷ codes "data" ∷ codes "results" ∷ codes "result" ∷ []

module _ (py : Python) where
  -- What the loop does with one value: the transaction it yields, and what it queues.
  unfoldable pub visit : Json → Option Json × List Json
  unfolding items containers_under
  visit (json_array xs) = (none, items xs)
  visit (json_object fs) =
      if is_some (extract_chain_hash py (json_object fs))
      then (some (json_object fs), [])
      else (none, containers_under list_keys (json_object fs))
  visit v = (none, [])

  abbrev pub prepend : Option Json → List Json → List Json
  prepend none vs = vs
  prepend (some v) vs = v ∷ vs

  -- The loop, on fuel.
  unfoldable pub scan : ℕ → List Json → Option (List Json)
  scan zero [] = some []
  scan zero (v ∷ queue) = none
  scan (suc n) [] = some []
  scan (suc n) (v ∷ queue) = elim (scan n (queue ++ (visit v).1)) [
    | none ↦ none
    | some found ↦ some (prepend (visit v).0 found)
  ]

  unfoldable pub iter_candidate_transactions : Json → List Json
  iter_candidate_transactions answer =
      let part = (unwrap_rpc_result answer).0 in
      elim (scan (nodes part) (part ∷ [])) [ none ↦ [] | some found ↦ found ]

  unfoldable pub find_transaction_by_hash : Json → Text → Option Json
  find_transaction_by_hash answer tx_hash =
      find (λ tx. transaction_matches_hash py tx tx_hash) (iter_candidate_transactions answer)
