-- ===== src/Outbox/Finalise.antt =====
-- A pending row is settled (trans_updater.py, `mark_trans_as_confirmed`, `mark_trans_as_failed`,
-- `_finalize_cancelled_spot_if_ready`), each in one transaction of the database.
pub mod Window
use nim_hunt.Prelude.{
  ℕ, ◌-◌, Bool, true, false, ◌&&◌, ◌||◌, not, Option, none, some, List, ltb, if◌then◌else◌, filter,
  any, total, take,
}
use nim_hunt.Prelude.Text.{Text, same}
use nim_hunt.Chain.Python.{Whole}
use nim_hunt.Tables.{
  fill_spot, cancel_spot, claim, plat_fee, creation_fee, pending, confirmed, failed,
}
use nim_hunt.Outbox.{Row, Surroundings, comparable, is_deposit}
use nim_hunt.Outbox.Store.{
  Db, SpotStatus, draft, published, completed, cancelled, claim_success, is_kind, is_in, is_at,
  set_status, update_details, get_confirmed_spot_funding_address, spot_of, claim_of,
  set_spot_status, set_claim_status,
}

abbrev is_completed : SpotStatus → Bool
is_completed completed = true
is_completed _ = false

-- The claim whose confirmed payout makes a Prizedraw winner paid.
unfoldable pub completed_prizedraw_payout : Db → Row → Option ℕ
completed_prizedraw_payout db t =
    if is_kind claim t
    then elim t.claim_id [
      | none ↦ none
      | some id ↦ elim (claim_of db.claims id) [
        | none ↦ none
        | some c ↦ elim (spot_of db.spots c.spot_id) [
          | none ↦ none
          | some s ↦ if is_completed s.status && s.is_prizedraw then some id else none
        ]
      ]
    ]
    else none

abbrev pub is_cancellation : Row → Bool
is_cancellation t = is_kind cancel_spot t || is_kind plat_fee t

abbrev pub amount_if : (Row → Bool) → Row → ℕ
amount_if p t = if p t && is_in confirmed t then t.amount else 0

-- The sum of the confirmed rows of a kind.
unfoldable pub confirmed_total : (Row → Bool) → List Row → ℕ
confirmed_total p rows = total (amount_if p) rows

-- db_access.MAX_LIMIT
abbrev pub max_limit : ℕ
max_limit = 500

unfoldable pub transactions_of : ℕ → List Row → List Row
transactions_of spot_id rows = take max_limit (filter (λ t. is_at t.spot_id spot_id) rows)

unfoldable pub remaining_cancellable_total : List Row → ℕ
remaining_cancellable_total ts =
    confirmed_total (is_kind fill_spot) ts
    - confirmed_total (is_kind claim) ts
    - confirmed_total (is_kind creation_fee) ts

abbrev is_cancellable : SpotStatus → Bool → Bool
is_cancellable draft prizedraw = true
is_cancellable published prizedraw = not prizedraw
is_cancellable _ prizedraw = false

-- Every refund and fee leg is settled, and the confirmed legs return all that is left.
unfoldable pub is_refunded : List Row → Bool
is_refunded ts =
    any is_cancellation ts
    && not (any (λ t. is_cancellation t && is_in pending t) ts)
    && not (ltb (confirmed_total is_cancellation ts) (remaining_cancellable_total ts))

unfoldable pub finalize_cancelled_spot_if_ready : Option ℕ → Db → Db
finalize_cancelled_spot_if_ready none db = db
finalize_cancelled_spot_if_ready (some id) db = elim (spot_of db.spots id) [
  | none ↦ db
  | some s ↦
      if is_cancellable s.status s.is_prizedraw && is_refunded (transactions_of id db.rows)
      then record db { spots = set_spot_status id cancelled db.spots }
      else db
]

module _ (w : Surroundings) where
  -- A deposit from another wallet than the Spot's first.
  unfoldable pub is_other_wallet : Option Text → Text → Bool
  is_other_wallet none from = false
  is_other_wallet (some address) from = elim (comparable w address) [
    | none ↦ true
    | some established ↦ elim (comparable w from) [
      | none ↦ true
      | some sender ↦ not (same sender established)
    ]
  ]

  unfoldable pub is_funding_mismatch : Db → Row → Text → Bool
  is_funding_mismatch db t from = is_deposit t.kind && elim t.spot_id [
    | none ↦ false
    | some spot_id ↦ is_other_wallet (get_confirmed_spot_funding_address spot_id db.rows) from
  ]

  abbrev pub claim_paid : Option ℕ → Db → Db
  claim_paid none db = db
  claim_paid (some id) db = record db { claims = set_claim_status id claim_success db.claims }

  unfoldable pub confirm_row : Row → Option Whole → Db → Option Db
  confirm_row t block db = elim (set_status t.trans_id confirmed block db.rows) [
    | none ↦ none
    | some rows ↦ some (
        finalize_cancelled_spot_if_ready t.spot_id
          (claim_paid (completed_prizedraw_payout db t) (record db { rows = rows })))
  ]

  -- The status a row ends in, and the tables, after verified details.
  unfoldable pub mark_trans_as_confirmed : Row → Option Whole → Text → Text → ℕ → Db → Option Db
  mark_trans_as_confirmed t block from to amount db =
      elim (update_details t.trans_id from to amount block db.rows) [
        | none ↦ none
        | some rows ↦
            let updated = record db { rows = rows } in
            if is_funding_mismatch db t from
            then elim (set_status t.trans_id failed none rows) [
              | none ↦ none
              | some rejected ↦ some (record db { rows = rejected })
            ]
            else confirm_row t block updated
      ]

  unfoldable pub mark_trans_as_failed : Row → Db → Option Db
  mark_trans_as_failed t db = elim (set_status t.trans_id failed none db.rows) [
    | none ↦ none
    | some rows ↦ some (finalize_cancelled_spot_if_ready t.spot_id (record db { rows = rows }))
  ]
