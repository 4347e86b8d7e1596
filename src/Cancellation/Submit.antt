-- ===== src/Cancellation/Submit.antt =====
-- `guarded_submit_spot_cancellation_transactions`: one cancellation under its lease. The wrapped
-- sender is an argument, on the transactions that it reads and writes; it may return, raise, or be
-- cut off by a crash, after which no handler runs. A store that a call leaves is committed.
pub mod AtMostOnce
pub mod Outcomes
use nim_hunt.Prelude.{
  leb, ℕ, String, Bool, true, false, ◌&&◌, not, Option, none, some, List, [], ◌∷◌, length, ◌==◌,
  if◌then◌else◌,
}
use nim_hunt.Prelude.Text.{codes, strip, is_hex, all}
use text.Mathlib.Text.{◌==◌ as str_eq}
use nim_hunt.Tables.{Trans}
use nim_hunt.Cancellation.Guard.{
  another_worker, GuardState, processing, blocked, GuardReason, existing_failed_transaction,
  raised_after_lease, ambiguous_send_result, GuardRow, Policy, Rows, get_transactions_by_spot,
  acquire_guard, release_guard, block_guard, delete_policy, snapshot_policy,
  failed_cancellation_legs, single_retryable_failed_refund,
}

-- What the chain answers of a hash: the status "failed", and a result that reports a failed
-- execution. No answer stands for an exception of the RPC.
pub record ChainStatus : Type 0 where
  pub status_failed : Bool
  pub execution_failed : Bool

-- How the wrapped sender ends.
pub data Ending {ℓ} (R : Type ℓ) : Type ℓ where
  returned : R → Ending R
  value_error : Ending R
  raised : String → Ending R
  crashed : Ending R

-- What surrounds the module: configuration, the wallet's check of an address, the chain, and the
-- reason that a result carries.
pub record World {ℓ} (R : Type ℓ) : Type ℓ where
  pub default_fee : ℕ
  pub default_address : String
  pub normalise : List ℕ → Option String
  pub chain : String → Option ChainStatus
  pub reason_of : R → Option String

abbrev pub Sender {ℓ} : Type ℓ → Type ℓ
Sender R = ℕ → String → List Trans → Ending R × List Trans

-- How a call ends for its caller: refused under a guard, or as the sender did.
pub data Reply {ℓ} (R : Type ℓ) : Type ℓ where
  blocked_result : GuardReason → Reply R
  result : R → Reply R
  raises_value_error : Reply R
  raises : String → Reply R
  died : Reply R

-- `_NIMIQ_TRANSACTION_HASH_RE.fullmatch` of the stripped hash.
unfoldable pub is_chain_hash : String → Bool
is_chain_hash s = let h = strip (codes s) in length h == 64 && all is_hex h

unfoldable pub is_retryable_reason : GuardReason → Bool
is_retryable_reason existing_failed_transaction = true
is_retryable_reason _ = false

-- A guard that a proven failure lifts: blocked, for the retryable reason.
unfoldable pub is_recoverable : GuardRow → Bool → Bool
is_recoverable g proven = elim g.state [
  | processing ↦ false
  | blocked ↦ is_retryable_reason g.reason && proven
]

module _ {ℓ} {R : Type ℓ} (w : World R) where
  -- An exception of the chain counts as no proof.
  unfoldable pub refund_is_definitively_failed : Trans → Bool
  refund_is_definitively_failed t =
      is_chain_hash t.tx_hash
      && elim (w.chain t.tx_hash) [ none ↦ false | some s ↦ s.status_failed && s.execution_failed ]

  unfoldable pub failure_proven : Rows → Bool
  failure_proven db = elim (single_retryable_failed_refund (get_transactions_by_spot db)) [
    | none ↦ false
    | some t ↦ refund_is_definitively_failed t
  ]

  unfoldable pub is_ambiguous : R → Bool
  is_ambiguous r = elim (w.reason_of r) [ none ↦ false | some s ↦ str_eq s "send_retry_pending" ]

  -- After the sender: release, or block for good.
  unfoldable pub finish : Bool → Rows → Ending R → Reply R × Rows
  finish created db (returned r) =
      if is_ambiguous r
      then (blocked_result ambiguous_send_result, block_guard ambiguous_send_result db)
      else (result r, release_guard db)
  finish created db value_error =
      (raises_value_error, if created then delete_policy (release_guard db) else release_guard db)
  finish created db (raised name) = (raises name, block_guard (raised_after_lease name) db)
  finish created db crashed = (died, db)

  -- Under the lease: the sender gets the snapshotted policy.
  unfoldable pub send : Sender R → Policy → Bool → Rows → Reply R × Rows
  send sender p created db =
      let (ending, trans) = sender p.fee_amount p.fee_address db.trans in
      finish created (record db { trans = trans }) ending

  unfoldable pub after_acquire : Sender R → Policy → Bool → Bool × Rows → Reply R × Rows
  after_acquire sender p created (true, db) = send sender p created db
  after_acquire sender p created (false, db) =
      (blocked_result (elim db.guard [ none ↦ another_worker | some g ↦ g.reason ]), db)

  -- A refused address raises before the lease.
  unfoldable pub with_policy : Sender R → Rows → Option (Policy × Bool × Rows) → Reply R × Rows
  unfolding after_acquire
  with_policy sender db none = (raises_value_error, db)
  with_policy sender db (some (p, created, db')) =
      after_acquire sender p created (acquire_guard db')

  -- Policy and lease.
  unfoldable pub lease : Sender R → Option ℕ → Option String → Rows → Reply R × Rows
  lease sender fee address db =
      with_policy sender db
        (snapshot_policy w.normalise w.default_fee w.default_address fee address db)

  -- A failed refund or fee blocks, unless its failure is proven.
  unfoldable pub check_legs : Sender R → Option ℕ → Option String → Bool → Rows → Reply R × Rows
  check_legs sender fee address proven db =
      if leb 1 (length (failed_cancellation_legs (get_transactions_by_spot db))) && not proven
      then (blocked_result existing_failed_transaction, block_guard existing_failed_transaction db)
      else lease sender fee address db

  unfoldable pub guarded_submit : Sender R → Option ℕ → Option String → Rows → Reply R × Rows
  guarded_submit sender fee address db =
      let proven = failure_proven db in
      elim db.guard [
        | none ↦ check_legs sender fee address proven db
        | some g ↦
            (if is_recoverable g proven
              then check_legs sender fee address proven (release_guard db)
              else (blocked_result g.reason, db))
      ]
