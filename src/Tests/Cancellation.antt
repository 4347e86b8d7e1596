-- ===== src/Tests/Cancellation.antt =====
-- The cancellation guard on a Spot with one failed refund.
use nim_hunt.Prelude.{◌≡◌, refl, String, none, some, [], ◌∷◌, map}
use nim_hunt.Tables.{Trans, cancel_spot, failed}
use nim_hunt.Cancellation.Guard.{
  acquire_guard, snapshot_policy, GuardReason, Policy, Rows, get_transactions_by_spot,
  failed_cancellation_legs, single_retryable_failed_refund,
}
use nim_hunt.Cancellation.Submit.{
  finish, send, after_acquire, with_policy, lease, check_legs, returned, value_error, crashed,
  World, Sender, blocked_result, failure_proven, guarded_submit,
}
use nim_hunt.Cancellation.Submit.AtMostOnce.{Attempt, run, run-after_unsettled}

abbrev world : World String
world = record {
  default_fee = 10;
  default_address = "NQ-FEE";
  normalise = λ s. some "NQ-FEE";
  chain = λ h. none;
  reason_of = λ s. some s;
}

abbrev refund : Trans
refund = record {
  trans_id = 1;
  spot_id = some 5;
  claim_id = none;
  kind = cancel_spot;
  amount = 100;
  from_address = "NQ-S";
  to_address = "NQ-A";
  tx_hash = "";
  status = failed;
  created_at = 1000;
}

abbrev fresh : Rows
fresh = record { guard = none; policy = none; trans = [] }

abbrev policy : Policy
policy = record { fee_amount = 7; fee_address = "NQ-OLD" }

abbrev settled : Rows
settled = record { guard = none; policy = some policy; trans = [] }

-- A sender that dies, one that sends, and one that refuses its input.
abbrev dies : Sender String
dies fee address trans = (crashed, trans)

abbrev sends : Sender String
sends fee address trans = (returned "sent", trans)

abbrev refuses : Sender String
refuses fee address trans = (value_error, trans)

abbrev attempt : Sender String → Attempt String
attempt s = record { world = world; sender = s; fee = none; address = none }

run-after_unsettled_example :
    let db' = (guarded_submit world dies none none fresh).1 in
    (why : GuardReason) × (run (attempt sends ∷ attempt refuses ∷ []) db'
      ≡ (map (λ _. blocked_result why) (attempt sends ∷ attempt refuses ∷ []), db'))
unfolding guarded_submit check_legs lease with_policy after_acquire send finish snapshot_policy
    acquire_guard failure_proven get_transactions_by_spot failed_cancellation_legs
    single_retryable_failed_refund
run-after_unsettled_example =
    run-after_unsettled (attempt dies) (attempt sends ∷ attempt refuses ∷ []) fresh refl
