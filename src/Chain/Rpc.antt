-- ===== src/Chain/Rpc.antt =====
-- The answers of the RPC, and the status of a hash (trans_updater.py, `_json_rpc_post_sync` from the
-- response on, and `get_chain_transaction_status`). The transport is an argument.
use nim_hunt.Prelude.{Bool, false, ◌&&◌, ◌||◌, Option, none, some, ◌==◌, if◌then◌else◌, length}
use nim_hunt.Prelude.Text.{Text, codes, strip, all, is_hex, occurs_in}
use nim_hunt.Chain.Python.{Python, Whole, natural}
use nim_hunt.Chain.Json.{Json, json_null, json_object}
use nim_hunt.Chain.Extract.{
  get, text_of, unwrap_rpc_result, execution_result_is_failure, extract_block_number,
}

-- How a request ends: an error of the connection, a body that is not JSON, or a JSON body.
pub data Answer : Type 0 where
  unreachable not_json : Answer
  body : Json → Answer

-- What the caller of `_json_rpc_post_sync` gets: an exception that it treats as an outage, another
-- exception (ValueError), or a result, where none stands for `None`.
pub data Fetch : Type 0 where
  outage value_error : Fetch
  result : Option Json → Fetch

-- The requests of one look at one row, in the order they can come: the hash, and the history of an
-- address, each time it is asked for.
pub record Rpc : Type 0 where
  pub by_hash : Text → Answer
  pub history_to_recover : Text → Answer
  pub history_of_stale : Text → Answer
  pub history_to_verify : Text → Answer

pub data Outcome : Type 0 where
  chain_pending chain_confirmed chain_failed chain_unknown : Outcome

pub record ChainStatus : Type 0 where
  pub status : Outcome
  pub tx_hash : Text
  pub block_number : Option Whole
  pub raw : Json

-- `_NIMIQ_TRANSACTION_HASH_RE.fullmatch`
unfoldable pub is_transaction_hash : Text → Bool
is_transaction_hash h = length h == 64 && all is_hex h

-- `a or b`, where 0 is false.
abbrev pub or_whole : Option Whole → Option Whole → Option Whole
or_whole none b = b
or_whole (some (natural n)) b = if n == 0 then b else some (natural n)
or_whole a b = a

module _ (py : Python) where
  -- The message of an error is a scalar.
  unfoldable pub is_not_found_error : Json → Bool
  is_not_found_error (json_object fs) = elim (get (codes "message") (json_object fs)) [
    | none ↦ false
    | some m ↦
        let message = py.lower (text_of m) in
        occurs_in (codes "not found") message
        || (occurs_in (codes "unknown transaction") message
            || (occurs_in (codes "transaction not found") message
                || occurs_in (codes "could not find") message))
  ]
  is_not_found_error _ = false

  unfoldable pub json_rpc_post : Answer → Fetch
  json_rpc_post unreachable = outage
  json_rpc_post not_json = value_error
  json_rpc_post (body (json_object fs)) = elim (get (codes "error") (json_object fs)) [
    | some error ↦ if is_not_found_error error then result none else outage
    | none ↦ result (get (codes "result") (json_object fs))
  ]
  json_rpc_post (body _) = outage

  abbrev pub answered : Text → Outcome → Option Whole → Json → Option ChainStatus
  answered h s b raw = some (record { status = s; tx_hash = h; block_number = b; raw = raw })

  -- `none` where the call raises.
  unfoldable pub get_chain_transaction_status : (Text → Answer) → Text → Option ChainStatus
  get_chain_transaction_status by_hash hash =
      let tx_hash = strip hash in
      if length tx_hash == 0
      then answered tx_hash chain_failed none json_null
      else elim (json_rpc_post (by_hash tx_hash)) [
        | outage ↦ answered tx_hash chain_unknown none json_null
        | value_error ↦ none
        | result found ↦ elim found [
          | none ↦ answered tx_hash chain_pending none json_null
          | some v ↦
              let part = unwrap_rpc_result v in
              let block =
                or_whole (extract_block_number py part.0)
                  (elim part.1 [ none ↦ none | some meta ↦ extract_block_number py meta ]) in
              answered tx_hash
                (if execution_result_is_failure py part.0 then chain_failed else chain_confirmed)
                block v
        ]
      ]
