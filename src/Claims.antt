-- ===== src/Claims.antt =====
-- Claims, their one-time codes and the Spots that they are made at (database.py), as the claim path
-- of db_access.py, claim_code_policy.py, claim_security_defence_in_depth.py and
-- claim_wallet_hourly_limit.py reads and changes them. The Spots do not change here.
pub mod Rows
pub mod Rules
pub mod Promote
pub mod Attempt
pub mod Refresh
pub mod Timeline
pub mod Moves
pub mod Capacity
pub mod Codes
pub mod Wallets
pub mod Winner
use nim_hunt.Prelude.{ℕ, ◌+◌, Bool, Option, List}
use nim_hunt.Prelude.Text.{Text}
use nim_hunt.Outbox.Store.{SpotStatus, ClaimStatus}

-- One row of SPOT, with its row of PRIZEDRAW if it has one. `has_leg` tells whether a cancellation
-- transaction exists for it.
pub record SpotRecord : Type 0 where
  pub spot_id : ℕ
  pub created_by : ℕ
  pub status : SpotStatus
  pub use_password : Bool
  pub claim_duration : ℕ
  pub max_total_claims : ℕ
  pub max_claims_per_user : ℕ
  pub prize_count : Option ℕ
  pub starts_at : Option ℕ
  pub ends_at : ℕ
  pub has_place : Bool
  pub cancellation_started : Bool
  pub has_leg : Bool

-- One row of CLAIM.
pub record ClaimRecord : Type 0 where
  pub claim_id : ℕ
  pub spot_id : ℕ
  pub recipient : ℕ
  pub payout_address : Option Text
  pub status : ClaimStatus
  pub claimed_at : ℕ
  pub updated_at : ℕ

-- One row of CLAIM_CODE.
pub record CodeRecord : Type 0 where
  pub code_id : ℕ
  pub spot_id : ℕ
  pub code : Text
  pub used_by : Option ℕ

-- One row of CLAIM_CODE_ATTEMPT.
pub record AttemptRecord : Type 0 where
  pub claim_id : ℕ
  pub claim_code_id : ℕ

-- What the claim path changes. Claims stand newest first, and `next_id` is the next id.
pub record ClaimStore : Type 0 where
  pub next_id : ℕ
  pub claims : List ClaimRecord
  pub codes : List CodeRecord
  pub attempts : List AttemptRecord

-- A row of the metadata table that binds a user to a wallet: the user its key names, the user that
-- its value names, and the wallet's canonical address, if there is a valid one.
pub record Binding : Type 0 where
  pub key_user : ℕ
  pub user_id : Option ℕ
  pub wallet_address : Option Text

-- What surrounds the claims: the Spots, the bindings, the configuration, Python's `upper`, and
-- wallet.py's normalisation of an address.
pub record Setting : Type 0 where
  pub spots : List SpotRecord
  pub bindings : List Binding
  pub public_deployment : Bool
  pub hourly_limit : ℕ
  pub stale_after : ℕ
  pub upper : Text → Text
  pub normalise_address : Text → Option Text
