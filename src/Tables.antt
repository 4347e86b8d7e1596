-- ===== src/Tables.antt =====
-- The rows of the SQLite tables that several components read (database.py, constants.py), and the
-- metadata map. Ids, amounts and unix timestamps are non-negative integers in every table.
use nim_hunt.Prelude.{ℕ, String, Bool, Option, some, List, ◌==◌, if◌then◌else◌, find}

-- The transaction types of constants.py.
pub data TransType : Type 0 where
  fill_spot cancel_spot remainder_refund claim plat_fee creation_fee : TransType

abbrev pub type_code : TransType → ℕ
type_code fill_spot = 10
type_code cancel_spot = 11
type_code remainder_refund = 12
type_code claim = 20
type_code plat_fee = 30
type_code creation_fee = 31

pub data TransStatus : Type 0 where
  pending confirmed failed : TransStatus

abbrev pub status_code : TransStatus → ℕ
status_code pending = 0
status_code confirmed = 1
status_code failed = 2

-- One row of TRANS: the columns that the modelled code reads.
pub record Trans : Type 0 where
  pub trans_id : ℕ
  pub spot_id : Option ℕ
  pub claim_id : Option ℕ
  pub kind : TransType
  pub amount : ℕ
  pub from_address : String
  pub to_address : String
  pub tx_hash : String
  pub status : TransStatus
  pub created_at : ℕ

abbrev pub has_type : TransType → Trans → Bool
has_type k t = type_code t.kind == type_code k

abbrev pub has_status : TransStatus → Trans → Bool
has_status s t = status_code t.status == status_code s

-- One row of CLAIM, as its detail view shows it.
pub record Claim : Type 0 where
  pub claim_id : ℕ
  pub spot_id : ℕ
  pub claimed_at : Option ℕ
  pub payout_address : Option String

-- One row of SPOT: the columns that the payout path reads.
pub record Spot : Type 0 where
  pub spot_id : ℕ
  pub use_password : Bool
  pub max_total_claims : Option ℕ
  pub total_value : ℕ

-- db_access.get_claim and db_access.get_spot: the row with that id.
unfoldable pub get_claim : List Claim → ℕ → Option Claim
get_claim claims id = find (λ c. c.claim_id == id) claims

unfoldable pub get_spot : List Spot → ℕ → Option Spot
get_spot spots id = find (λ s. s.spot_id == id) spots

-- A key of the metadata table set to a value.
abbrev pub update {ℓ} : {V : Type ℓ} → (ℕ → Option V) → ℕ → V → ℕ → Option V
update m k v j = if j == k then some v else m j
