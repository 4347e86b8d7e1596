-- ===== src/Funding/Publish.antt =====
-- When a draft may be published (can_publish_spot of db_access.py under funding_status.py's
-- can_publish_spot_after_fee_broadcast).
pub mod Solvent
pub mod Shown
pub mod Ascii
use nim_hunt.Prelude.{
  ℕ, ◌+◌, ◌-◌, ◌*◌, Bool, true, false, ◌&&◌, ◌||◌, not, Option, none, some, List, max, ltb, leb,
  ◌==◌, if◌then◌else◌, filter, any, is_some, map,
}
use nim_hunt.Prelude.Text.{Text, same}
use nim_hunt.Tables.{fill_spot, creation_fee, confirmed}
use nim_hunt.Outbox.Store.{SpotStatus, draft}
use nim_hunt.Funding.{FundingRow, of_kind, in_status, sum_where}

-- constants.py's limits.
pub record PublishRules : Type 0 where
  pub min_total_claims : ℕ
  pub min_ends_after : ℕ
  pub min_finite_participants : ℕ
  pub min_claim_payout : ℕ
  pub min_prize_payout : ℕ

-- The columns of SPOT that are read, with its prize count if it is a Prizedraw. `is_complete` tells
-- whether none of the required columns is NULL, `creator_active` whether the creator may create.
pub record DraftSpot : Type 0 where
  pub spot_id : ℕ
  pub created_by : ℕ
  pub status : SpotStatus
  pub cancellation_started : Bool
  pub creator_active : Bool
  pub is_complete : Bool
  pub total_value : ℕ
  pub max_total_claims : ℕ
  pub max_claims_per_user : ℕ
  pub prize_count : Option ℕ
  pub starts_at : Option ℕ
  pub ends_at : ℕ
  pub use_password : Bool
  pub creation_fee : ℕ
  pub deposit_address : Text
  pub creation_fee_address : Text

abbrev pub is_draft : SpotStatus → Bool
is_draft draft = true
is_draft _ = false

-- _validate_prizedraw_participant_limits
unfoldable pub valid_participant_limits : PublishRules → DraftSpot → ℕ → Bool
valid_participant_limits rules s prizes =
    s.max_total_claims == 0
    || leb rules.min_finite_participants s.max_total_claims
      && not (ltb 0 s.max_claims_per_user && leb s.max_total_claims s.max_claims_per_user)
      && ltb prizes s.max_total_claims

abbrev pub valid_counts : PublishRules → DraftSpot → Bool
valid_counts rules s = elim s.prize_count [
  | none ↦ leb rules.min_total_claims s.max_total_claims
  | some prizes ↦ valid_participant_limits rules s prizes
]

abbrev pub divisor : DraftSpot → ℕ
divisor s = elim s.prize_count [ none ↦ s.max_total_claims | some prizes ↦ prizes ]

abbrev pub minimum : PublishRules → DraftSpot → ℕ
minimum rules s = elim s.prize_count [
  | none ↦ rules.min_claim_payout
  | some prizes ↦ rules.min_prize_payout
]

-- spot_meets_minimum_payout
unfoldable pub meets_minimum_payout : PublishRules → DraftSpot → Bool
meets_minimum_payout rules s =
    ltb 0 (divisor s) && leb (minimum rules s * max 1 (divisor s)) s.total_value

abbrev pub not_over : DraftSpot → ℕ → Bool
not_over s now = elim s.starts_at [ none ↦ true | some start ↦ ltb now (start + s.ends_at) ]

abbrev pub is_of : ℕ → FundingRow → Bool
is_of spot_id t = elim t.spot_id [ none ↦ false | some id ↦ id == spot_id ]

-- get_confirmed_spot_deposit_total
unfoldable pub confirmed_deposit_total : ℕ → List FundingRow → ℕ
confirmed_deposit_total spot_id rows =
    sum_where (λ t. is_of spot_id t && of_kind fill_spot t && in_status confirmed t) rows

-- The checks that do not look at money.
unfoldable pub is_publishable : PublishRules → DraftSpot → ℕ → Bool
is_publishable rules s now =
    is_draft s.status
    && not s.cancellation_started
    && s.creator_active
    && s.is_complete
    && valid_counts rules s
    && leb rules.min_ends_after s.ends_at
    && not_over s now
    && not (s.use_password && (s.max_total_claims == 0 || is_some s.prize_count))

-- db_access.can_publish_spot
unfoldable pub can_publish_spot : PublishRules → DraftSpot → ℕ → List FundingRow → Bool
can_publish_spot rules s now rows =
    is_publishable rules s now
    && ltb 0 s.total_value
    && meets_minimum_payout rules s
    && leb (s.total_value + s.creation_fee) (confirmed_deposit_total s.spot_id rows)

-- SQLite's UPPER(REPLACE(…, ' ', '')), which maps ASCII letters only.
abbrev pub upper_letter : ℕ → ℕ
upper_letter c = if leb b'a' c && leb c b'z' then c - 32 else c

unfoldable pub sql_key : Text → Text
sql_key value = map upper_letter (filter (λ c. not (c == b' ')) value)

-- The row that has_confirmed_spot_creation_fee_transaction looks for.
unfoldable pub is_exact_fee : DraftSpot → FundingRow → Bool
is_exact_fee s t =
    is_of s.spot_id t
    && of_kind creation_fee t
    && in_status confirmed t
    && t.user_id == s.created_by
    && t.amount == s.creation_fee
    && same (sql_key t.from_address) (sql_key s.deposit_address)
    && same (sql_key t.to_address) (sql_key s.creation_fee_address)

unfoldable pub has_confirmed_creation_fee : DraftSpot → List FundingRow → Bool
has_confirmed_creation_fee s rows = s.creation_fee == 0 || any (is_exact_fee s) rows

-- funding_status.can_publish_spot_after_fee_broadcast, as installed
unfoldable pub can_publish_after_fee : PublishRules → DraftSpot → ℕ → List FundingRow → Bool
can_publish_after_fee rules s now rows =
    can_publish_spot rules s now rows && has_confirmed_creation_fee s rows
