-- ===== src/Cancellation/Submit/Outcomes.antt =====
-- What each way of ending leaves behind, and what never reaches the sender.
use nim_hunt.Prelude.{
  ◌≢◌, ℕ, ◌≡◌, ◌↔◌, refl, ◌∙◌, inl, inr, String, Bool, false, Option, none, some, List, [], ◌∷◌,
  arith, if◌then◌else◌, Option-cases, filter,
}
use nim_hunt.Tables.{Trans}
use nim_hunt.Cancellation.Guard.{
  Policy, Rows, blocked, existing_failed_transaction, acquire_guard, release_guard, block_guard,
  delete_policy, snapshot_policy, get_transactions_by_spot, failed_cancellation_legs,
  single_retryable_failed_refund, is_failed_refund, is_active_refund, is_failed_fee, sole,
}
use nim_hunt.Cancellation.Submit.{
  after_acquire, Ending, returned, value_error, World, Sender, blocked_result, raises_value_error,
  failure_proven, finish, send, with_policy, lease, check_legs, guarded_submit,
}

module _ {ℓ} {R : Type ℓ} (w : World R) where
  -- A failed refund or fee whose failure the chain does not prove, with no guard: nothing is sent,
  -- by whatever sender, and the Spot is blocked.
  pub unproven_failure_blocks :
      (s : Sender R) (fee : Option ℕ) (address : Option String) (db : Rows)
      → db.guard ≡ none
      → failed_cancellation_legs (get_transactions_by_spot db) ≢ []
      → failure_proven w db ≡ false
      → guarded_submit w s fee address db ≡ (
        blocked_result existing_failed_transaction,
        record db {
          guard = some (record { state = blocked; reason = existing_failed_transaction });
        },
      )
  unfolding guarded_submit check_legs block_guard
  unproven_failure_blocks s fee address db free legs unproven = ground arith

  snapshot_existing :
      (fee : Option ℕ) (address : Option String) (db : Rows) (p : Policy)
      → db.policy ≡ some p
      → snapshot_policy w.normalise w.default_fee w.default_address fee address db
        ≡ some (p, false, db)
  unfolding snapshot_policy
  snapshot_existing fee address db p e = ground arith

  finish_keeps_policy :
      (db : Rows) (ending : Ending R) → (finish w false db ending).1.policy ≡ db.policy
  unfolding finish block_guard release_guard
  finish_keeps_policy db (returned r) = ground arith
  finish_keeps_policy db _ = refl

  lease_keeps_policy :
      (s : Sender R) (fee : Option ℕ) (address : Option String) (db : Rows) (p : Policy)
      → db.policy ≡ some p
      → (lease w s fee address db).1.policy ≡ some p
  unfolding lease with_policy acquire_guard send
  lease_keeps_policy s fee address db p e =
      rw (snapshot_existing fee address db p e, lease)
        (elim (Option-cases db.guard) [
          | inl n ↦ rw (n, acquire_guard, after_acquire) (finish_keeps_policy _ _ ∙ e)
          | inr (g, n) ↦ rw (n, acquire_guard, after_acquire) e
        ])

  check_legs_keeps_policy :
      (s : Sender R) (fee : Option ℕ) (address : Option String) (proven : Bool) (db : Rows)
      (p : Policy)
      → db.policy ≡ some p
      → (check_legs w s fee address proven db).1.policy ≡ some p
  unfolding check_legs block_guard
  check_legs_keeps_policy s fee address proven db p e =
      ground (arith, lease_keeps_policy s fee address db p e)

  -- A policy that stands is neither replaced nor deleted, whatever fee and address a later call asks
  -- for and however it ends.
  pub guarded_submit_keeps_policy :
      (s : Sender R) (fee : Option ℕ) (address : Option String) (db : Rows) (p : Policy)
      → db.policy ≡ some p
      → (guarded_submit w s fee address db).1.policy ≡ some p
  unfolding guarded_submit release_guard
  guarded_submit_keeps_policy s fee address db p e = ground (
    arith,
    check_legs_keeps_policy s fee address (failure_proven w db) db p e,
    check_legs_keeps_policy s fee address (failure_proven w db) (release_guard db) p released,
  )
    where
      released : (release_guard db).policy ≡ some p
      released = e

  -- What undoes a snapshot.
  undo : Bool → Rows → Rows
  undo c db = if c then delete_policy (release_guard db) else release_guard db

  snapshot_undone :
      (fee : Option ℕ) (address : Option String) (db : Rows) (p : Policy) (c : Bool) (db' : Rows)
      → db.guard ≡ none
      → snapshot_policy w.normalise w.default_fee w.default_address fee address db
        ≡ some (p, c, db')
      → (db'.guard ≡ none) × (db'.trans ≡ db.trans) × (undo c db' ≡ db)
  unfolding snapshot_policy undo delete_policy release_guard
  snapshot_undone fee address db p c db' free h = ground arith

  with_policy_value_error :
      (s : Sender R) (fee : Option ℕ) (address : Option String) (db : Rows)
      (x : Option (Policy × Bool × Rows))
      → ((f : ℕ) (a : String) → s f a db.trans ≡ (value_error, db.trans))
      → db.guard ≡ none
      → snapshot_policy w.normalise w.default_fee w.default_address fee address db ≡ x
      → with_policy w s db x ≡ (raises_value_error, db)
  unfolding with_policy send finish acquire_guard undo delete_policy release_guard
  with_policy_value_error s fee address db none fails free e = refl
  with_policy_value_error s fee address db (some (p, c, db')) fails free e =
      let (g, t, u) = snapshot_undone fee address db p c db' free e in
      let e2 : s p.fee_amount p.fee_address db'.trans ≡ (value_error, db.trans) =
        rw t (fails p.fee_amount p.fee_address) in
      ground (arith, g, t, u, e2)

  -- A validation error of the sender, which then has written nothing, leaves every row as it was: the
  -- lease is given back, and a policy that the call itself created is deleted.
  pub value_error_restores :
      (s : Sender R) (fee : Option ℕ) (address : Option String) (db : Rows)
      → ((f : ℕ) (a : String) → s f a db.trans ≡ (value_error, db.trans))
      → db.guard ≡ none
      → failed_cancellation_legs (get_transactions_by_spot db) ≡ []
      → guarded_submit w s fee address db ≡ (raises_value_error, db)
  unfolding guarded_submit check_legs lease
  value_error_restores s fee address db fails free legs =
      let done = with_policy_value_error s fee address db _ fails free refl in ground (arith, done)

-- The one failed refund that may be retried: there is exactly one, no refund is under way or done,
-- and no fee has failed.
pub single_retryable_iff :
    (ts : List Trans) (t : Trans)
    → (single_retryable_failed_refund ts ≡ some t) ↔ (
        (filter is_failed_refund ts ≡ t ∷ [])
        × (filter is_active_refund ts ≡ [])
        × (filter is_failed_fee ts ≡ []))
unfolding single_retryable_failed_refund
single_retryable_iff ts t =
    sole-iff (filter is_failed_refund ts) (filter is_active_refund ts) (filter is_failed_fee ts)
  where
    sole-iff : (a b c : List Trans) → (sole a b c ≡ some t) ↔ ((a ≡ t ∷ []) × (b ≡ []) × (c ≡ []))
    sole-iff a b c = ground arith
