-- ===== src/Chain/Extract.antt =====
-- What trans_updater.py reads out of a transaction's JSON, wherever an RPC version puts it: a failed
-- execution, addresses, amount, block number and hash. The text of an array's position is none of
-- the keys that are looked for.
pub mod Candidates
use nim_hunt.Prelude.{
  ℕ, ◌+◌, ◌*◌, Bool, true, false, ◌&&◌, ◌||◌, not, Option, none, some, List, [], ◌∷◌, ltb, ◌==◌,
  if◌then◌else◌, length, filter, any, is_some,
}
use nim_hunt.Prelude.Text.{Text, codes, strip, same, is_one_of, occurs_in}
use nim_hunt.Chain.Python.{Python, Whole, invalid, negative, natural}
use nim_hunt.Chain.Address.{Placeholders, normalise_nimiq_address}
use nim_hunt.Chain.Json.{
  Json, json_null, json_bool, json_number, json_text, json_array, json_object, Fields, Key, key,
  position, Entry, walk_json, get_field,
}

-- `str(value or "")` of a value that is neither an array nor an object.
abbrev pub text_of : Json → Text
text_of (json_bool b) = if b then codes "True" else []
text_of (json_number shown w) = shown
text_of (json_text t) = t
text_of _ = []

abbrev pub is_container : Json → Bool
is_container (json_array xs) = true
is_container (json_object fs) = true
is_container _ = false

-- `value.get(key)`, where a value that is no object has no key; a JSON null reads as no value.
abbrev pub present : Option Json → Option Json
present (some json_null) = none
present v = v

unfoldable pub get : Text → Json → Option Json
get k (json_object fs) = present (get_field k fs)
get k _ = none

-- `(data, metadata)`, where both keys are there, null or not.
unfoldable pub unwrap_rpc_result : Json → Json × Option Json
unwrap_rpc_result (json_object fs) = elim (get_field (codes "data") fs) [
  | none ↦ (json_object fs, none)
  | some data_part ↦ elim (get_field (codes "metadata") fs) [
    | none ↦ (json_object fs, none)
    | some meta ↦ (data_part, some meta)
  ]
]
unwrap_rpc_result v = (v, none)

abbrev pub is_false : Json → Bool
is_false (json_bool b) = not b
is_false _ = false

module _ (py : Python) where
  -- `path[-1].lower()`, where the path is not empty and ends in a key.
  unfoldable pub last_key : List Key → Option Text
  last_key (key k ∷ path) = some (py.lower k)
  last_key _ = none

  unfoldable pub has_key : List Text → Entry → Bool
  has_key keys e = elim (last_key e.path) [
    | none ↦ false
    | some k ↦ not (is_container e.item) && is_one_of k keys
  ]

  -- `path[-1].replace("_", "").lower() == "executionresult" and item is False`
  unfoldable pub reports_failure : Entry → Bool
  reports_failure e = elim e.path [
    | [] ↦ false
    | last ∷ path ↦ elim last [
      | position n ↦ false
      | key k ↦
          same (py.lower (filter (λ c. not (c == b'_')) k)) (codes "executionresult")
          && is_false e.item
    ]
  ]

  unfoldable pub execution_result_is_failure : Json → Bool
  execution_result_is_failure v = any reports_failure (walk_json v)

  unfoldable pub normalise_address_for_compare : Placeholders → Text → Option Text
  normalise_address_for_compare dev value = normalise_nimiq_address py dev (strip value)

  -- The first entry under one of the keys for which `read` gives a value.
  unfoldable pub first_read {ℓ} :
      {A : Type ℓ} → List Text → (Json → Option A) → List Entry → Option A
  first_read keys read [] = none
  first_read keys read (e ∷ es) =
      let rest = first_read keys read es in
      if has_key keys e then elim (read e.item) [ none ↦ rest | some a ↦ some a ] else rest

  unfoldable pub first_address_for_keys : Placeholders → List Text → Json → Option Text
  first_address_for_keys dev keys v =
      first_read keys (λ j. normalise_address_for_compare dev (text_of j)) (walk_json v)

  abbrev pub from_keys : List Text
  from_keys =
      codes "sender"
      ∷ codes "senderaddress"
      ∷ codes "sender_address"
      ∷ codes "from"
      ∷ codes "fromaddress"
      ∷ codes "from_address"
      ∷ []

  abbrev pub to_keys : List Text
  to_keys =
      codes "recipient"
      ∷ codes "recipientaddress"
      ∷ codes "recipient_address"
      ∷ codes "to"
      ∷ codes "toaddress"
      ∷ codes "to_address"
      ∷ []

  unfoldable pub extract_chain_from_address : Placeholders → Json → Option Text
  extract_chain_from_address dev v = first_address_for_keys dev from_keys v

  unfoldable pub extract_chain_to_address : Placeholders → Json → Option Text
  extract_chain_to_address dev v = first_address_for_keys dev to_keys v

  -- `int(item)`, and `int(item, 0)` of a text.
  unfoldable pub whole_of : (Text → Whole) → Json → Whole
  whole_of of_text (json_bool b) = natural (if b then 1 else 0)
  whole_of of_text (json_number shown w) = w
  whole_of of_text (json_text t) = of_text t
  whole_of of_text _ = invalid

  pub record Candidate : Type 0 where
    pub priority : ℕ
    pub depth : ℕ
    pub amount : ℕ

  unfoldable pub candidate : Entry → Option Candidate
  candidate e = elim (whole_of py.int_of_literal e.item) [
    | natural n ↦ some (record {
      priority = elim (last_key e.path) [
        | none ↦ 1
        | some k ↦ if same k (codes "value") then 0 else 1
      ];
      depth = length e.path;
      amount = n;
    })
    | _ ↦ none
  ]

  unfoldable pub is_before : Candidate → Candidate → Bool
  is_before a b = ltb a.priority b.priority || a.priority == b.priority && ltb a.depth b.depth

  -- The head of the list that the stable sort gives: the first of the least.
  unfoldable pub best_candidate : Option Candidate → List Entry → Option Candidate
  best_candidate best [] = best
  best_candidate best (e ∷ es) =
      best_candidate
        (if has_key (codes "value" ∷ codes "amount" ∷ []) e
          then elim (candidate e) [
            | none ↦ best
            | some new ↦ elim best [
              | none ↦ some new
              | some old ↦ if is_before new old then some new else some old
            ]
          ]
          else best)
        es

  unfoldable pub extract_chain_amount : Json → Option ℕ
  extract_chain_amount v = elim (best_candidate none (walk_json v)) [
    | none ↦ none
    | some c ↦ some c.amount
  ]

  -- The first of the keys whose value `int` accepts.
  unfoldable pub first_whole : List Text → Json → Option Whole
  first_whole [] v = none
  first_whole (k ∷ ks) v =
      let rest = first_whole ks v in
      elim (get k v) [
        | none ↦ rest
        | some item ↦ elim (whole_of py.int_of item) [
          | invalid ↦ rest
          | negative ↦ some negative
          | natural n ↦ some (natural n)
        ]
      ]

  unfoldable pub extract_block_number : Json → Option Whole
  extract_block_number v =
      first_whole
        (codes "blockNumber"
          ∷ codes "block_number"
          ∷ codes "blockHeight"
          ∷ codes "block_height"
          ∷ codes "block"
          ∷ [])
        v

  abbrev pub hash_keys : List Text
  hash_keys =
      codes "hash"
      ∷ codes "tx_hash"
      ∷ codes "txhash"
      ∷ codes "transactionhash"
      ∷ codes "transaction_hash"
      ∷ []

  abbrev pub nonempty : Text → Option Text
  nonempty [] = none
  nonempty (c ∷ cs) = some (c ∷ cs)

  unfoldable pub extract_chain_hash : Json → Option Text
  extract_chain_hash v = first_read hash_keys (λ j. nonempty (strip (text_of j))) (walk_json v)

  unfoldable pub normalise_chain_hash : Text → Text
  normalise_chain_hash t = py.lower (strip t)

  unfoldable pub transaction_matches_hash : Json → Text → Bool
  transaction_matches_hash v tx_hash = elim (extract_chain_hash v) [
    | none ↦ false
    | some h ↦ same (normalise_chain_hash h) (normalise_chain_hash tx_hash)
  ]
