-- ===== src/Tests/Chain.antt =====
-- A checksummed address, and an answer of the RPC.
use nim_hunt.Prelude.{◌≡◌, refl, true, false, [], ◌∷◌, some, length, ◌++◌}
use nim_hunt.Prelude.Text.{Text, codes}
use nim_hunt.Chain.Address.{has_valid_checksum, mod97_decimal_string}
use nim_hunt.Chain.Address.Checksum.{has_valid_checksum-mistyped}
use nim_hunt.Chain.Python.{Python, natural, invalid}
use nim_hunt.Chain.Json.{
  Json, json_text, json_number, json_object, json_array, next_item, no_item, next_field, no_field,
  nodes, walk, walk_json,
}
use nim_hunt.Chain.Json.Walk.{walk_json-ends}
use nim_hunt.Chain.Extract.{unwrap_rpc_result}
use nim_hunt.Chain.Extract.Candidates.{scan, iter_candidate_transactions}
use nim_hunt.Chain.Extract.Candidates.Ends.{iter_candidate_transactions-ends}

-- NQ07 0000 0000 0000 0000 0000 0000 0000 0000, the address of zeros.
abbrev zeros_head : Text
zeros_head = codes "NQ07000000000000000000"

abbrev zeros_tail : Text
zeros_tail = codes "0000000000000"

zeros_valid : has_valid_checksum (codes "NQ07000000000000000000" ++ b'0' ∷ zeros_tail) ≡ true
unfolding has_valid_checksum nim_hunt.Chain.Address.is_address_symbol
    nim_hunt.Chain.Address.iban_rearranged_numeric nim_hunt.Chain.Address.digits_of
    nim_hunt.Chain.Address.symbol_digits mod97_decimal_string nim_hunt.Chain.Address.mod97_from
zeros_valid = refl

has_valid_checksum-mistyped_example : has_valid_checksum (zeros_head ++ b'4' ∷ zeros_tail) ≡ false
has_valid_checksum-mistyped_example =
    has_valid_checksum-mistyped zeros_head zeros_tail b'0' b'4' refl (λ e. cc) zeros_valid

abbrev transaction : Json
transaction = json_object (
    next_field (codes "hash") (json_text (codes "ab12"))
      (next_field (codes "value") (json_number (codes "500") (natural 500)) no_field))

abbrev history : Json
history = json_object (
    next_field (codes "transactions")
      (json_array
        (next_item transaction (next_item (json_array (next_item transaction no_item)) no_item)))
      no_field)

walk_json-ends_example :
    (walk (nodes history) (record { path = []; item = history } ∷ []) ≡ some (walk_json history))
    × (length (walk_json history) ≡ nodes history)
walk_json-ends_example = walk_json-ends history

-- Texts that have one case already.
abbrev one_case : Python
one_case = record {
  upper = λ t. t;
  lower = λ t. t;
  int_of = λ t. invalid;
  int_of_literal = λ t. invalid;
}

iter_candidate_transactions-ends_example :
    scan one_case (nodes (unwrap_rpc_result history).0) ((unwrap_rpc_result history).0 ∷ [])
    ≡ some (iter_candidate_transactions one_case history)
iter_candidate_transactions-ends_example = iter_candidate_transactions-ends one_case history
