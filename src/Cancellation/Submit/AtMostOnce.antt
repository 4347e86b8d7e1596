-- ===== src/Cancellation/Submit/AtMostOnce.antt =====
-- A send whose end is not known is the last one.
use nim_hunt.Prelude.{
  leb, length, ◌∙◌, ℕ, String, Bool, true, false, ◌&&◌, not, Option, none, some, List, [], ◌∷◌,
  arith, ◌≡◌, refl, inl, inr, Bool-cases, Option-cases, map,
}
use nim_hunt.Cancellation.Guard.{
  GuardState, processing, blocked, GuardReason, ambiguous_send_result, GuardRow, Policy, Rows,
  acquire_guard, release_guard, block_guard, snapshot_policy, get_transactions_by_spot,
  failed_cancellation_legs,
}
use nim_hunt.Cancellation.Submit.{
  with_policy, Ending, returned, value_error, raised, crashed, World, Sender, Reply, blocked_result,
  result, raises_value_error, raises, died, is_retryable_reason, failure_proven, is_recoverable,
  is_ambiguous, finish, send, lease, check_legs, guarded_submit,
}

-- A guard that no evidence of the chain lifts.
abbrev pub is_stuck : Rows → Bool
is_stuck db = elim db.guard [ none ↦ false | some g ↦ not (is_recoverable g true) ]

-- A reply after which the sender may have sent: it raised an exception that is no ValueError, it
-- crashed, or its result was ambiguous. The sender's ValueError comes before it sends anything.
abbrev pub is_unsettled {ℓ} : {R : Type ℓ} → Reply R → Bool
is_unsettled (blocked_result ambiguous_send_result) = true
is_unsettled (blocked_result _) = false
is_unsettled (result r) = false
is_unsettled raises_value_error = false
is_unsettled (raises name) = true
is_unsettled died = true

unsettled_reason {ℓ} :
    (R : Type ℓ) (state : GuardState) (why : GuardReason)
    → is_unsettled {R = R} (blocked_result why) ≡ true
    → is_recoverable (record { state = state; reason = why }) true ≡ false
unfolding is_recoverable is_retryable_reason
unsettled_reason R processing why h = refl
unsettled_reason R blocked ambiguous_send_result h = refl
unsettled_reason R blocked _ h = cc

is_recoverable_stays :
    (g : GuardRow) (b : Bool) → is_recoverable g true ≡ false → is_recoverable g b ≡ false
unfolding is_recoverable
is_recoverable_stays g true h = h
is_recoverable_stays g false h = ground arith

module _ {ℓ} {R : Type ℓ} (w : World R) where
  -- Until the handlers run, the row stands as it was acquired.
  finish_stuck :
      (created : Bool) (db : Rows) (ending : Ending R)
      → is_stuck db ≡ true
      → is_unsettled (finish w created db ending).0 ≡ true
      → is_stuck (finish w created db ending).1 ≡ true
  unfolding finish block_guard is_recoverable is_retryable_reason
  finish_stuck created db (returned r) s h = elim (Bool-cases (is_ambiguous w r)) [
    | inl e ↦ rw e refl
    | inr e ↦ cc (rw e at h)
  ]
  finish_stuck created db value_error s h = cc
  finish_stuck created db (raised name) s h = refl
  finish_stuck created db crashed s h = s

  send_stuck :
      (s : Sender R) (p : Policy) (created : Bool) (db : Rows)
      → is_stuck db ≡ true
      → is_unsettled (send w s p created db).0 ≡ true
      → is_stuck (send w s p created db).1 ≡ true
  unfolding send
  send_stuck s p created db stuck h =
      finish_stuck created (record db { trans = (s p.fee_amount p.fee_address db.trans).1 })
        (s p.fee_amount p.fee_address db.trans).0 stuck h

  with_policy_stuck :
      (s : Sender R) (db : Rows) (x : Option (Policy × Bool × Rows))
      → is_unsettled (with_policy w s db x).0 ≡ true
      → ((p : Policy) (c : Bool) (db' : Rows) → x ≡ some (p, c, db') → db'.guard ≡ none)
      → is_stuck (with_policy w s db x).1 ≡ true
  unfolding with_policy acquire_guard is_recoverable
  with_policy_stuck s db none h free = cc
  with_policy_stuck s db (some (p, c, db')) h free =
      let e : db'.guard ≡ none = free p c db' refl in
      rw (e, acquire_guard, with_policy)
        (send_stuck s p c _ refl (rw (e, acquire_guard, with_policy) at h))

  snapshot_policy_guard :
      (fee : Option ℕ) (address : Option String) (db : Rows) (p : Policy) (c : Bool) (db' : Rows)
      → snapshot_policy w.normalise w.default_fee w.default_address fee address db
        ≡ some (p, c, db')
      → db'.guard ≡ db.guard
  unfolding snapshot_policy
  snapshot_policy_guard fee address db p c db' h = ground arith

  lease_stuck :
      (s : Sender R) (fee : Option ℕ) (address : Option String) (db : Rows)
      → db.guard ≡ none
      → is_unsettled (lease w s fee address db).0 ≡ true
      → is_stuck (lease w s fee address db).1 ≡ true
  unfolding lease
  lease_stuck s fee address db free h =
      with_policy_stuck s db _ h
        (λ p c db' e. snapshot_policy_guard fee address db p c db' e ∙ free)

  check_legs_stuck :
      (s : Sender R) (fee : Option ℕ) (address : Option String) (proven : Bool) (db : Rows)
      → db.guard ≡ none
      → is_unsettled (check_legs w s fee address proven db).0 ≡ true
      → is_stuck (check_legs w s fee address proven db).1 ≡ true
  unfolding check_legs
  check_legs_stuck s fee address proven db free h =
      elim (Bool-cases
        (leb 1 (length (failed_cancellation_legs (get_transactions_by_spot db))) && not proven)) [
          | inl e ↦ cc (rw (e, check_legs) at h)
          | inr e ↦ rw (e, check_legs) (lease_stuck s fee address db free (rw (e, check_legs) at h))
        ]

  -- An unsettled call leaves a guard that nothing automatic lifts.
  pub guarded_submit_stuck :
      (s : Sender R) (fee : Option ℕ) (address : Option String) (db : Rows)
      → is_unsettled (guarded_submit w s fee address db).0 ≡ true
      → is_stuck (guarded_submit w s fee address db).1 ≡ true
  unfolding guarded_submit release_guard
  guarded_submit_stuck s fee address db h = elim (Option-cases db.guard) [
    | inl e ↦
        rw (e, guarded_submit) (check_legs_stuck s fee address _ db e (rw (e, guarded_submit) at h))
    | inr (g, e) ↦ elim (Bool-cases (is_recoverable g (failure_proven w db))) [
      | inl r ↦
          rw (e, r, guarded_submit)
            (check_legs_stuck s fee address _ (record db { guard = none }) refl
              (rw (e, r, guarded_submit) at h))
      | inr n ↦
          rw (e, n, guarded_submit)
            (let u = unsettled_reason R g.state g.reason (rw (e, n, guarded_submit) at h) in
              rw (e, u) refl)
    ]
  ]

  -- A call under such a guard is refused and changes nothing, whatever the chain says by then.
  pub guarded_submit_refused :
      (s : Sender R) (fee : Option ℕ) (address : Option String) (db : Rows) (g : GuardRow)
      → db.guard ≡ some g
      → is_recoverable g true ≡ false
      → guarded_submit w s fee address db ≡ (blocked_result g.reason, db)
  unfolding guarded_submit
  guarded_submit_refused s fee address db g e n =
      ground (arith, is_recoverable_stays g (failure_proven w db) n)

-- One attempt at the cancellation, with the world and the sender that it meets.
pub record Attempt {ℓ} (R : Type ℓ) : Type ℓ where
  pub world : World R
  pub sender : Sender R
  pub fee : Option ℕ
  pub address : Option String

pub run {ℓ} : {R : Type ℓ} → List (Attempt R) → Rows → List (Reply R) × Rows
run [] db = ([], db)
run (a ∷ rest) db =
    let (reply, db') = guarded_submit a.world a.sender a.fee a.address db in
    let (replies, last) = run rest db' in (reply ∷ replies, last)

is_stuck-guard :
    (db : Rows)
    → is_stuck db ≡ true
    → (g : GuardRow) × (db.guard ≡ some g) × (is_recoverable g true ≡ false)
is_stuck-guard db h = elim (Option-cases db.guard) [
  | inl e ↦ cc (rw e at h)
  | inr (g, e) ↦ let h' : not (is_recoverable g true) ≡ true = rw e at h in (g, e, ground arith)
]

run_refused {ℓ} :
    {R : Type ℓ} (later : List (Attempt R)) (db : Rows) (g : GuardRow)
    → db.guard ≡ some g
    → is_recoverable g true ≡ false
    → run later db ≡ (map (λ _. blocked_result g.reason) later, db)
unfolding run
run_refused [] db g e n = refl
run_refused (a ∷ later) db g e n =
    rw
      (guarded_submit_refused a.world a.sender a.fee a.address db g e n, run_refused later db g e n)

-- Once a call has ended without its caller knowing whether money was sent (the sender raised an
-- exception other than ValueError, the process died, or the result was ambiguous), every later attempt,
-- by whatever sender and with whatever evidence from the chain, is refused for one and the same reason,
-- and changes no row.
pub run-after_unsettled {ℓ} :
    {R : Type ℓ} (a : Attempt R) (later : List (Attempt R)) (db : Rows)
    → is_unsettled (guarded_submit a.world a.sender a.fee a.address db).0 ≡ true
    → let db' = (guarded_submit a.world a.sender a.fee a.address db).1 in
      (why : GuardReason) × (run later db' ≡ (map (λ _. blocked_result why) later, db'))
run-after_unsettled a later db h =
    let stuck = guarded_submit_stuck a.world a.sender a.fee a.address db h in
    let db' = (guarded_submit a.world a.sender a.fee a.address db).1 in
    let (g, e, n) = is_stuck-guard db' stuck in (g.reason, run_refused later db' g e n)
