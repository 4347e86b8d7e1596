-- ===== src/Tests/Rewards.antt =====
-- The reward of a standard claim, after a payout that failed, and the payouts of a history of claims.
use nim_hunt.Prelude.{
  ℕ, ◌≡◌, refl, sym, ap, ◌∙◌, ◌≤◌, true, false, none, some, List, [], ◌∷◌, map, total, All,
}
use nim_hunt.Prelude.Text.{codes, strip}
use nim_hunt.Tables.{failed}
use nim_hunt.Outbox.{Row}
use nim_hunt.Outbox.Store.{
  Db, ClaimRow, completed, claim_success, claim_pending, claim_of, has_nonfailed_claim_payout,
}
use nim_hunt.Outbox.Submit.{Sent, make_local_intent_hash, record_claim_intent}
use nim_hunt.Outbox.Timeline.{Ledger}
use nim_hunt.Outbox.Timeline
use nim_hunt.Claims.{ClaimRecord}
use nim_hunt.Claims.Rows.{spot_with}
use nim_hunt.Settlement.Prizes.{
  standard_claim_payout_amount, prize_amounts_by_claim_id, prize_amounts, repeat, clean_ids,
  insert_id, zip,
}
use nim_hunt.Settlement.Winners.{
  prize_of, prizes_at, prizedraw_winner_claim_ids, Others, retry_pending_prizedraw_payouts_for_spot,
}
use nim_hunt.Settlement.Winners.Priced.{retry_pending_prizedraw_payouts_for_spot-IsAt}
use nim_hunt.Settlement.Winners.Pool.{prizes-within_pool}
use nim_hunt.Settlement.Payouts.{
  PaySpot, pay_spot, reward, send, standard_job, Sending,
  payout_standard_claim_if_ready_with_security,
}
use nim_hunt.Settlement.Payouts.Priced.{IsAt}
use nim_hunt.Settlement.Payouts.Recorded.{payout_standard_claim_if_ready_with_security-paid}
use nim_hunt.Settlement.Payouts.Budget.{amount_for, succeeded_at}
use nim_hunt.Settlement.Payouts.Timeline.{Plan, Run, here, settle}
use nim_hunt.Settlement.Payouts.Timeline.Calls.{payout_standard_claim_if_ready_with_security-Run}
use nim_hunt.Settlement.Payouts.Timeline.Steady.{Run-Reach, Run-within_value}
use nim_hunt.Tests.Outbox.{surroundings, deposit_address, payout_address, claim_row, ages, db}
use nim_hunt.Tests.Broadcast.{truth, sent}
use nim_hunt.Tests.Claims.{setting, spot_codes, coded_spot, second, history}

abbrev paying : PaySpot
paying = record {
  spot_id = 3;
  status = completed;
  total_value = 1001;
  max_total_claims = some 2;
  prize_count = none;
  deposit_address = deposit_address;
}

abbrev sending : Sending
sending = record {
  now = 1000;
  payout_address = payout_address;
  dev_address = none;
  intent_hash = codes "NIMHUNT_INTENT:claim_reward:7:y";
  helper = some sent;
}

abbrev after_failure : Db
after_failure = record db {
  rows = record claim_row { status = failed; tx_hash = codes "old" } ∷ [];
}

is_paid :
    (payout_standard_claim_if_ready_with_security surroundings sending
      (paying ∷ [])
      false
      7
      after_failure
      after_failure
      after_failure).0.paid
    ≡ true
unfolding payout_standard_claim_if_ready_with_security
    nim_hunt.Settlement.Payouts.payout_standard_claim_if_ready
    nim_hunt.Settlement.Payouts.normalise_standard_payout_result standard_job
    standard_claim_payout_amount nim_hunt.Settlement.Payouts.latest_failed_claim_payout_amount
    nim_hunt.Settlement.Payouts.latest_row nim_hunt.Settlement.Payouts.claim_payee
    nim_hunt.Settlement.Payouts.submit_claim_reward_transaction pay_spot
    nim_hunt.Outbox.Submit.submit_recorded_claim_send claim_of record_claim_intent
    nim_hunt.Outbox.Submit.validate_address nim_hunt.Chain.Address.normalise_nimiq_address
    nim_hunt.Chain.Address.is_allowed_dev_placeholder_address
    nim_hunt.Outbox.Submit.create_claim_transaction has_nonfailed_claim_payout
    nim_hunt.Outbox.Store.is_active_payout nim_hunt.Outbox.Submit.create_transaction
    nim_hunt.Outbox.Submit.violates_index nim_hunt.Outbox.Submit.row_of_intent
    nim_hunt.Outbox.Submit.next_id nim_hunt.Outbox.Submit.record_sent
    nim_hunt.Outbox.Submit.validate_submitted nim_hunt.Chain.Rpc.is_transaction_hash
    nim_hunt.Outbox.Store.update_sent nim_hunt.Outbox.Store.row_of nim_hunt.Outbox.Store.change
    nim_hunt.Outbox.Store.as_sent
is_paid = refl

payout_standard_claim_if_ready_with_security-paid_example :
    (false ≡ false)
    × (has_nonfailed_claim_payout 7
          (payout_standard_claim_if_ready_with_security surroundings sending
            (paying ∷ [])
            false
            7
            after_failure
            after_failure
            after_failure).1
        ≡ true)
payout_standard_claim_if_ready_with_security-paid_example =
    payout_standard_claim_if_ready_with_security-paid surroundings sending (paying ∷ []) false 7
      after_failure after_failure after_failure is_paid

-- The first claim of the history, and its payout.
abbrev one_claim : Db
one_claim = record db {
  rows = [];
  claims = record { claim_id = 1; spot_id = 7; status = claim_success } ∷ [];
}

abbrev first_payout : Row
first_payout = record claim_row {
  spot_id = some 7;
  claim_id = some 1;
  tx_hash = codes "NIMHUNT_INTENT:claim_reward:1:x";
}

abbrev paid_out_once : Ledger
paid_out_once = record { db = record one_claim { rows = first_payout ∷ [] }; cached = [] }

kept :
    strip (make_local_intent_hash (codes "claim_reward") (codes "1") (codes "x"))
    ≡ make_local_intent_hash (codes "claim_reward") (codes "1") (codes "x")
unfolding make_local_intent_hash
kept = refl

records_first :
    record_claim_intent surroundings 1000 1 500 deposit_address payout_address
      (make_local_intent_hash (codes "claim_reward") (codes "1") (codes "x"))
      one_claim
    ≡ some (first_payout ∷ [], deposit_address, payout_address)
unfolding record_claim_intent nim_hunt.Outbox.Submit.validate_address
    nim_hunt.Chain.Address.normalise_nimiq_address
    nim_hunt.Chain.Address.is_allowed_dev_placeholder_address
    nim_hunt.Outbox.Submit.create_claim_transaction nim_hunt.Outbox.Store.claim_of
    nim_hunt.Outbox.Store.has_nonfailed_claim_payout nim_hunt.Outbox.Submit.create_transaction
    nim_hunt.Outbox.Submit.violates_index nim_hunt.Outbox.Submit.row_of_intent
    nim_hunt.Outbox.Submit.next_id make_local_intent_hash
records_first = refl

everywhere :
    (P : ClaimRecord → Type 0) → ((c : ClaimRecord) → P c) → (cs : List ClaimRecord) → All P cs
everywhere P h [] = tt
everywhere P h (c ∷ cs) = (h c, everywhere P h cs)

abbrev plan : Plan
plan = record {
  spots = record paying { spot_id = 7 } ∷ [];
  home = λ k. 7;
  who = λ id. 1;
  amt = λ id. 500;
}

is_due : standard_job plan.spots 1 one_claim ≡ send 500
unfolding standard_job pay_spot claim_of has_nonfailed_claim_payout standard_claim_payout_amount
    nim_hunt.Settlement.Payouts.latest_failed_claim_payout_amount
    nim_hunt.Settlement.Payouts.latest_row
is_due = refl

stays : (c : ClaimRow) → claim_of one_claim.claims 1 ≡ some c → c.spot_id ≡ plan.home 1
unfolding claim_of
stays c e = sym (ap (λ o. elim o [ none ↦ 7 | some x ↦ x.spot_id ]) e)

run : Run surroundings ages truth plan (record { db = one_claim; cached = [] }) paid_out_once
run =
    settle here here 1000 1 500 deposit_address payout_address (codes "claim_reward") (codes "1")
      (codes "x") (first_payout ∷ [], deposit_address, payout_address) stays is_due refl refl kept
      refl records_first

due_amounts : (a : ℕ) → standard_job plan.spots 1 one_claim ≡ send a → 500 ≡ a
due_amounts a e = let q : send 500 ≡ send a = sym is_due ∙ e in cc

-- What the payout of the first claim depends on.
abbrev sending_first : Sending
sending_first = record sending {
  intent_hash = make_local_intent_hash (codes "claim_reward") (codes "1") (codes "x");
}

answered :
    (s : Sent)
    → some sent ≡ some s
    → strip (surroundings.py.lower (strip s.tx_hash)) ≡ truth.hash_of 1
answered s e =
    sym
      (ap (λ o. elim o [ none ↦ [] | some y ↦ strip (surroundings.py.lower (strip y.tx_hash)) ]) e)

payout_standard_claim_if_ready_with_security-Run_example :
    Run surroundings ages truth plan
      (record { db = one_claim; cached = [] })
      (record {
        db = record one_claim {
          rows =
              (payout_standard_claim_if_ready_with_security surroundings sending_first plan.spots
                false 1 one_claim one_claim one_claim).1;
        };
        cached = [];
      })
payout_standard_claim_if_ready_with_security-Run_example =
    payout_standard_claim_if_ready_with_security-Run surroundings ages truth plan
      (record { db = one_claim; cached = [] }) sending_first (codes "claim_reward") (codes "1")
      (codes "x") 1 (record { db = one_claim; cached = [] })
      (record { db = one_claim; cached = [] }) false one_claim here here stays due_amounts refl refl
      refl kept answered

outbox_run :
    Timeline.Reach surroundings ages truth (record { db = one_claim; cached = [] }) paid_out_once
outbox_run = Run-Reach surroundings ages truth plan run

Run-within_value_example :
    total (amount_for (map (λ c. c.claim_id) (succeeded_at 7 second))) (first_payout ∷ []) ≤ 1001
unfolding spot_with pay_spot
Run-within_value_example =
    Run-within_value setting spot_codes coded_spot (record paying { spot_id = 7 }) surroundings ages
      truth plan one_claim paid_out_once 1000 second refl refl refl refl refl refl history
      (everywhere (λ c. 7 ≡ 7) (λ c. refl) (succeeded_at 7 second)) refl run

-- A Prizedraw with one winner, whose first payout failed.
abbrev drawn : PaySpot
drawn = record paying { prize_count = some 1 }

abbrev failed_payout : Row
failed_payout = record claim_row { amount = 1001; status = failed; tx_hash = codes "old" }

abbrev winner : Db
winner = record db {
  rows = failed_payout ∷ [];
  claims = record { claim_id = 7; spot_id = 3; status = claim_pending } ∷ [];
}

abbrev alone : Others
alone = record {
  sending = λ id. record sending { helper = some (record sent { amount = 1001 }) };
  held = λ id. false;
  meanwhile = λ id d. d;
}

is_sent :
    (retry_pending_prizedraw_payouts_for_spot surroundings alone (drawn ∷ []) 3 winner).2
    ≡ record claim_row { trans_id = 2; amount = 1001 } ∷ failed_payout ∷ []
unfolding retry_pending_prizedraw_payouts_for_spot pay_spot
    nim_hunt.Settlement.Winners.retry_winners prizedraw_winner_claim_ids
    nim_hunt.Settlement.Winners.prize_jobs nim_hunt.Settlement.Winners.has_confirmed_claim_payout
    nim_hunt.Settlement.Winners.succeed_paid nim_hunt.Settlement.Winners.send_prizes
    nim_hunt.Settlement.Payouts.latest_failed_claim_payout_amount
    nim_hunt.Settlement.Payouts.latest_row nim_hunt.Settlement.Payouts.claim_payee
    nim_hunt.Settlement.Payouts.submit_claim_reward_transaction
    nim_hunt.Outbox.Submit.submit_recorded_claim_send claim_of record_claim_intent
    nim_hunt.Outbox.Submit.validate_address nim_hunt.Chain.Address.normalise_nimiq_address
    nim_hunt.Chain.Address.is_allowed_dev_placeholder_address
    nim_hunt.Outbox.Submit.create_claim_transaction nim_hunt.Outbox.Store.has_nonfailed_claim_payout
    nim_hunt.Outbox.Store.is_active_payout nim_hunt.Outbox.Submit.create_transaction
    nim_hunt.Outbox.Submit.violates_index nim_hunt.Outbox.Submit.row_of_intent
    nim_hunt.Outbox.Submit.next_id nim_hunt.Outbox.Submit.record_sent
    nim_hunt.Outbox.Submit.validate_submitted nim_hunt.Chain.Rpc.is_transaction_hash
    nim_hunt.Outbox.Store.update_sent nim_hunt.Outbox.Store.row_of nim_hunt.Outbox.Store.change
    nim_hunt.Outbox.Store.as_sent
is_sent = refl

retry_pending_prizedraw_payouts_for_spot-IsAt_example :
    All
      (IsAt 7 (prize_of 7 (prizes_at drawn winner)))
      (retry_pending_prizedraw_payouts_for_spot surroundings alone (drawn ∷ []) 3 winner).2
unfolding pay_spot prize_of prizedraw_winner_claim_ids prize_amounts_by_claim_id prize_amounts
    repeat clean_ids insert_id zip
retry_pending_prizedraw_payouts_for_spot-IsAt_example =
    retry_pending_prizedraw_payouts_for_spot-IsAt surroundings alone (drawn ∷ []) drawn winner 7
      refl (λ id d h. h) ((λ a b. refl), tt)

prizes-within_pool_example :
    total (amount_for (clean_ids (2 ∷ 1 ∷ 2 ∷ []))) (first_payout ∷ []) ≤ 1000
unfolding prize_of prize_amounts_by_claim_id prize_amounts repeat clean_ids insert_id zip
prizes-within_pool_example =
    prizes-within_pool 1000 (2 ∷ 1 ∷ 2 ∷ []) surroundings ages truth one_claim paid_out_once refl
      outbox_run (((λ a b. refl), tt), (((λ a b. refl), tt), tt))
