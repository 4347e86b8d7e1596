-- ===== src/Lib.antt =====
-- NimHunt pays small rewards to people who visit places. This library models the code that decides
-- whether money may move, and proves what it promises.
--
-- Parts, and the files that model them:
--
-- - Tables: rows of the SQLite tables (constants.py, database.py), the lookups of db_access.py, and
--   the metadata map of security_metadata.py as a function from claim ids.
-- - Throttle: claim_payout_throttle.py. Decision has the limits and the three decisions
--   (throttle_decision, _spot_window_decision, _spot_lifetime_decision); Window the loops of
--   _combined_window_state; Ledger the stored reservations (_clean_reservations,
--   _prune_reservations) and the payout queries; Reserve the call reserve_payout_slot, branch by
--   branch. Exposure measures independently what the throttle bounds, and Timeline is the relation
--   of one step of the system: a reservation, a covered payout, another transaction, waiting.
-- - Throttle/Submit: the payout gate of claim_security.py (_payout_security_decision,
--   release_claim_manual_review, submit_claim_reward_transaction_with_security), and the throttle
--   around it, as install() composes them.
-- - Cancellation: cancellation_safety.py. Guard has the two rows of a Spot and the reading of its
--   transactions; Submit is guarded_submit_spot_cancellation_transactions.
-- - Location: location_behavior_guard.py. State has the durable state of a user and its migration;
--   Observe the two observations, and runs of them.
-- - Cluster: wallet_cluster_guard.py. Source has the record of a funding source, Observe the
--   call that looks up and records a claimant's first funding.
-- - Chain: what the chain says. Python has the built-ins that the code calls; Address is wallet.py's
--   check of an address; Json the values of json.loads and _walk_json; Extract the readings of
--   trans_updater.py (_extract_chain_*, _execution_result_is_failure, _iter_candidate_transactions);
--   Rpc the answers and get_chain_transaction_status.
-- - Outbox: trans_updater.py on the TRANS table. Verify is _verify_chain_details_for_record with its
--   fallback, Check is check_pending_transaction, Store has db_access.py's changes of rows, Finalise
--   is mark_trans_as_confirmed, mark_trans_as_failed and _finalize_cancelled_spot_if_ready, Pass the
--   loop of check_pending_transactions, Submit a payout's intent and its broadcast, and Timeline the
--   relation of one step by any worker.
-- - Settlement: settlement_updater.py. Prizes has how a prize pool and a reward are computed, Draw
--   the draw of a Prizedraw up to its commit, Remainder settle_spot_remainder_if_ready up to its
--   commit, Payouts payout_standard_claim_if_ready under claim_settlement_security.py with
--   submit_claim_reward_transaction of trans_updater.py, Payouts/Timeline the relation of one step
--   of these payouts and of the outbox by any worker, Winners retry_pending_prizedraw_payouts_for_spot.
-- - Claims: the life of a claim. Rows has the queries and updates of the tables CLAIM, CLAIM_CODE and
--   CLAIM_CODE_ATTEMPT with their triggers; Rules get_claim_rule_check; Promote the promotions of
--   db_access.py, claim_code_policy.py and claim_security_defence_in_depth.py; Attempt a request for
--   a claim under all the wrappers, claim_wallet_hourly_limit.py the outermost; Refresh
--   refresh_claim_status_from_conditions and process_duration_claim_location_heartbeat. Moves is the
--   abstract machine of these changes, Timeline the relation of one step of the code.
-- - Funding: funding_status.py. Status is deposit_summary, Publish can_publish_spot of db_access.py
--   and the check of the fee that is installed over it.
-- - Http: BodyLimit is request_body_limit.py, in front of claim_http.py's reader.
-- - Tests: concrete stores and histories, on which the theorems are applied.
--
-- How the model reads the source. Ids, amounts and unix timestamps are natural numbers, as the
-- tables' checks require; `stamp > now - seconds` is written `now < stamp + seconds`. A call under
-- SQLite's writer lock is one step on the store; a raised exception rolls the store back and is an
-- error result. The clock, the chain and a wrapped sender are arguments, and so is the wallet's
-- check of an address outside Chain and Outbox. The queries in batches of 900 ids only divide the
-- work. Rows of a Spot's transactions stand newest first. A guard's reason is a data type, one
-- constructor for each text. A reservation is stored as numbers, and read back with every falsy or
-- invalid field that JSON allows. In Throttle/Timeline a payout is inserted while its reservation is
-- live, and no payout turns failed. In Settlement/Payouts/Timeline Spots keep their columns.
-- Distances are whole decimetres, rounded up, which keeps every comparison of the location guard.
-- An address's digest is a number. In Chain and Outbox texts are lists of code points and a JSON
-- number is what str and int make of it; each answer of the RPC is an argument, and may differ from
-- call to call; a pass that meets an exception stops. The limits of the cluster guard are at least
-- 1, as by default.
-- In Claims the Spots, their Prizedraws and the wallets' bindings stand still; a text's upper case,
-- the normalisation of an address and the verdict on a position are arguments; a request that
-- raises ValueError is answered and what it has written is committed, as the route does. In Funding
-- a stored number is read as it is, and NULL columns are one flag. In Http a connection is the list
-- of the messages that its client sends. In Settlement a payout takes the tables as they are at
-- each of its looks, since other workers change them in between, and whether the installed gates
-- keep a reward back is an argument.
-- Not modelled: HTTP routes, HTML, images and the front end; SQL beyond the queries named;
-- signatures, keys and the helper process; the transport of the RPC; the loops of the settlement
-- over Spots and claims, and its refund's send; refunds and fees of the outbox, so that a pass is
-- only its loop over the rows, without the chain's head before and the fees after it; the check of
-- claim_location_guard.py in front of create_claim, which only refuses a claim earlier and keeps
-- records of its own; the JSON text of a location state, whose record stands for it. The queue of a
-- walk over JSON runs on fuel, as many rounds as the value has parts, and is proved never to run
-- out. Every other recursion is on a list or on a number of messages.
pub mod Cancellation
pub mod Chain
pub mod Claims
pub mod Cluster
pub mod Funding
pub mod Http
pub mod Location
pub mod Outbox
pub mod Prelude
pub mod Settlement
pub mod Tables
pub mod Tests
pub mod Throttle
