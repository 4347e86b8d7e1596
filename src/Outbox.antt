-- ===== src/Outbox.antt =====
-- The rows of outgoing payments and deposits, and how they are settled against the chain
-- (trans_updater.py). A row holds its texts as code points.
pub mod Store
pub mod Submit
pub mod Timeline
pub mod Finalise
pub mod Pass
pub mod Verify
pub mod Check
use nim_hunt.Prelude.{ℕ, Bool, true, false, not, Option, none, some, ◌-◌}
use nim_hunt.Prelude.Text.{Text, codes, starts_with}
use nim_hunt.Chain.Python.{Python, Whole}
use nim_hunt.Chain.Address.{Placeholders}
use nim_hunt.Chain.Extract.{normalise_address_for_compare}
use nim_hunt.Tables.{TransType, fill_spot, TransStatus}

-- One row of TRANS.
pub record Row : Type 0 where
  pub trans_id : ℕ
  pub spot_id : Option ℕ
  pub claim_id : Option ℕ
  pub kind : TransType
  pub amount : ℕ
  pub from_address : Text
  pub to_address : Text
  pub tx_hash : Text
  pub status : TransStatus
  pub created_at : ℕ
  pub block_number : Option Whole

unfoldable pub is_local_intent_hash : Text → Bool
is_local_intent_hash h = starts_with (codes "NIMHUNT_INTENT:") h

-- Every type but a user's deposit.
unfoldable pub is_deposit : TransType → Bool
is_deposit fill_spot = true
is_deposit _ = false

unfoldable pub is_server_initiated : Row → Bool
is_server_initiated t = not (is_deposit t.kind)

-- What surrounds the module: Python, and the development flags of the address checks, when an
-- address is compared and when one is sent to or from.
pub record Surroundings : Type 0 where
  pub py : Python
  pub dev : Placeholders
  pub dev_sends : Placeholders

unfoldable pub comparable : Surroundings → Text → Option Text
comparable w value = normalise_address_for_compare w.py w.dev value

unfoldable pub verification_address_for_record : Surroundings → Row → Option Text
verification_address_for_record w t = elim (is_deposit t.kind) [
  | true ↦ comparable w t.to_address
  | false ↦ elim (comparable w t.from_address) [
    | none ↦ comparable w t.to_address
    | some a ↦ some a
  ]
]

unfoldable pub transaction_age_seconds : ℕ → Row → ℕ
transaction_age_seconds now t = now - t.created_at
