-- ===== src/Cancellation/Guard.antt =====
-- The guard and policy rows of a Spot, and what its transactions say of earlier attempts.
use nim_hunt.Prelude.{
  ℕ, String, Bool, true, false, ◌&&◌, ◌||◌, not, Option, none, some, List, [], ◌∷◌, filter,
  if◌then◌else◌, take,
}
use text.Mathlib.Text.{◌==◌ as str_eq}
use nim_hunt.Prelude.Text.{codes, strip}
use nim_hunt.Tables.{Trans, has_type, has_status, cancel_spot, plat_fee, failed}

pub data GuardState : Type 0 where
  processing blocked : GuardState

-- The reason texts that the module writes. No two of them are equal.
pub data GuardReason : Type 0 where
  send_started : GuardReason
  existing_failed_transaction : GuardReason
  raised_after_lease : String → GuardReason
  ambiguous_send_result : GuardReason
  another_worker : GuardReason

pub record GuardRow : Type 0 where
  pub state : GuardState
  pub reason : GuardReason

pub record Policy : Type 0 where
  pub fee_amount : ℕ
  pub fee_address : String

-- The rows of one Spot; its transactions stand newest first, as every query returns them.
pub record Rows : Type 0 where
  pub guard : Option GuardRow
  pub policy : Option Policy
  pub trans : List Trans

-- db_access.MAX_LIMIT, and the query that it bounds.
abbrev max_limit : ℕ
max_limit = 500

unfoldable pub get_transactions_by_spot : Rows → List Trans
get_transactions_by_spot db = take max_limit db.trans

-- INSERT under the table's primary key: it fails where a row stands.
unfoldable pub acquire_guard : Rows → Bool × Rows
acquire_guard db = elim db.guard [
  | none ↦ (true, record db { guard = some (record { state = processing; reason = send_started }) })
  | some _ ↦ (false, db)
]

unfoldable pub release_guard : Rows → Rows
release_guard db = record db { guard = none }

unfoldable pub block_guard : GuardReason → Rows → Rows
block_guard why db = record db { guard = some (record { state = blocked; reason = why }) }

unfoldable pub delete_policy : Rows → Rows
delete_policy db = record db { policy = none }

-- The policy in force, and whether this call created it. `normalise` is the wallet's check of an
-- address, which may refuse it; an empty address gives way to the configured one.
unfoldable pub snapshot_policy :
    (normalise : List ℕ → Option String) (default_fee : ℕ) (default_address : String)
    → Option ℕ
    → Option String
    → Rows
    → Option (Policy × Bool × Rows)
snapshot_policy normalise default_fee default_address fee address db = elim db.policy [
  | some p ↦ some (p, false, db)
  | none ↦
      let amount : ℕ = elim fee [ none ↦ default_fee | some n ↦ n ] in
      let configured : String = elim address [
        | none ↦ default_address
        | some s ↦ (if str_eq s "" then default_address else s)
      ] in
      elim (normalise (strip (codes configured))) [
        | none ↦ none
        | some clean ↦
            (let p : Policy = record { fee_amount = amount; fee_address = clean } in
              some (p, true, record db { policy = some p }))
      ]
]

abbrev pub is_failed_refund : Trans → Bool
is_failed_refund t = has_type cancel_spot t && has_status failed t

abbrev pub is_active_refund : Trans → Bool
is_active_refund t = has_type cancel_spot t && not (has_status failed t)

abbrev pub is_failed_fee : Trans → Bool
is_failed_fee t = has_type plat_fee t && has_status failed t

unfoldable pub failed_cancellation_legs : List Trans → List Trans
failed_cancellation_legs =
    filter (λ t. (has_type cancel_spot t || has_type plat_fee t) && has_status failed t)

-- The sole failed refund, if nothing else of the cancellation failed or is under way.
unfoldable pub sole : List Trans → List Trans → List Trans → Option Trans
sole (t ∷ []) [] [] = some t
sole _ _ _ = none

unfoldable pub single_retryable_failed_refund : List Trans → Option Trans
unfolding sole
single_retryable_failed_refund ts =
    sole (filter is_failed_refund ts) (filter is_active_refund ts) (filter is_failed_fee ts)
