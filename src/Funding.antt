-- ===== src/Funding.antt =====
-- The funding of a Spot: what its owner is shown (funding_status.py), and when it may be published
-- (db_access.py, with the check that funding_status.py installs).
pub mod Status
pub mod Publish
use nim_hunt.Prelude.{
  ℕ, ◌&&◌, ◌||◌, Bool, true, false, not, Option, List, [], ◌∷◌, ◌+◌, ltb, leb, ◌==◌, if◌then◌else◌,
  filter, total, map, length,
}
use nim_hunt.Prelude.Text.{Text, strip, is_space, same}
use nim_hunt.Tables.{TransType, type_code, TransStatus, status_code}

-- One row of TRANS, as the funding reads it.
pub record FundingRow : Type 0 where
  pub spot_id : Option ℕ
  pub user_id : ℕ
  pub kind : TransType
  pub amount : ℕ
  pub from_address : Text
  pub to_address : Text
  pub tx_hash : Text
  pub status : TransStatus
  pub created_at : ℕ

abbrev pub of_kind : TransType → FundingRow → Bool
of_kind k t = type_code t.kind == type_code k

abbrev pub in_status : TransStatus → FundingRow → Bool
in_status s t = status_code t.status == status_code s

abbrev pub amount_where : (FundingRow → Bool) → FundingRow → ℕ
amount_where p t = if p t then t.amount else 0

-- The sum of the amounts of the rows that meet a test.
unfoldable pub sum_where : (FundingRow → Bool) → List FundingRow → ℕ
sum_where p rows = total (amount_where p) rows

-- funding_status.address_key, with Python's `upper`
unfoldable pub address_key : (Text → Text) → Text → Text
address_key upper value = filter (λ c. not (is_space c)) (upper (strip value))
