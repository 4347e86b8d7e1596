-- ===== src/Outbox/Verify/Matches.antt =====
-- What verification establishes of a row.
use nim_hunt.Prelude.{
  ◌≤◌, ◌≡◌, ◌⊎◌, inl, inr, false, true, none, some, ℕ, arith, Bool-cases, Option-cases, refl, ◌==◌,
  Option, Memᴰ, find-Mem, find_holds, length,
}
use nim_hunt.Prelude.Text.{Text, same_iff}
use nim_hunt.Chain.Json.{Json, json_null, nodes}
use nim_hunt.Chain.Extract.{
  execution_result_is_failure, extract_chain_from_address, extract_chain_to_address,
  extract_chain_amount, transaction_matches_hash, unwrap_rpc_result,
}
use nim_hunt.Chain.Extract.Candidates.{
  scan, visit, iter_candidate_transactions, find_transaction_by_hash,
}
use nim_hunt.Chain.Rpc.{json_rpc_post, Fetch, outage, value_error, result, Answer, ChainStatus}
use nim_hunt.Outbox.{Row, is_deposit, Surroundings, verification_address_for_record, comparable}
use nim_hunt.Outbox.Verify.{
  Verified, verified, match_details, sender_refusal, recipient_refusal, amount_refusal,
  verify_details, verify_chain_details_for_record, verify_by_history, refused, hash_to_find, Reason,
}

pub Verified-cases :
    (v : Verified)
    → ((r : Reason) × (v ≡ refused r)) ⊎ ((f g : Text) × (n : ℕ) × (v ≡ verified f g n))
Verified-cases (refused r) = inl (r, refl)
Verified-cases (verified f g n) = inr (f, g, n, refl)

module _ (w : Surroundings) where
  -- The details are those of the row: its recipient, and its sender and its exact amount unless it is
  -- a deposit, which may be larger.
  pub record IsMatch (t : Row) (from to : Text) (amount : ℕ) : Type 0 where
    pub recipient : comparable w t.to_address ≡ some to
    pub enough : t.amount ≤ amount
    pub sender : (is_deposit t.kind ≡ true) ⊎ (comparable w t.from_address ≡ some from)
    pub exact : (is_deposit t.kind ≡ true) ⊎ (amount ≡ t.amount)

  -- The transaction that the chain shows: executed, with these details.
  pub record IsShown (raw : Json) (from to : Text) (amount : ℕ) : Type 0 where
    pub executed : execution_result_is_failure w.py raw ≡ false
    pub from_shown : extract_chain_from_address w.py w.dev raw ≡ some from
    pub to_shown : extract_chain_to_address w.py w.dev raw ≡ some to
    pub amount_shown : extract_chain_amount w.py raw ≡ some amount

  -- A transaction that an answer to the request for an address's history lists under a hash.
  pub record IsListed (answer : Answer) (tx_hash : Text) (raw : Json) : Type 0 where
    pub history : Json
    pub answered_ : json_rpc_post w.py answer ≡ result (some history)
    pub listed : Memᴰ raw (iter_candidate_transactions w.py history)
    pub under_hash : transaction_matches_hash w.py raw tx_hash ≡ true

  -- Where a transaction that verifies a row comes from: it is the one of the status itself, or the
  -- history of the row's address lists it under the hash that is looked for.
  pub data IsFrom (history : Text → Answer) (t : Row) (s : ChainStatus) (raw : Json) : Type 0 where
    of_status : s.raw ≡ raw → IsFrom history t s raw
    of_history :
        (address : Text)
        → verification_address_for_record w t ≡ some address
        → IsListed (history address) (hash_to_find w s.tx_hash t.tx_hash) raw
        → IsFrom history t s raw

  sender_accepted :
      (t : Row) (from : Text)
      → sender_refusal w t from ≡ none
      → (is_deposit t.kind ≡ true) ⊎ (comparable w t.from_address ≡ some from)
  unfolding sender_refusal
  sender_accepted t from e = elim (Option-cases (comparable w t.from_address)) [
    | inl absent ↦ ground arith
    | inr (s, es) ↦ ground (arith, same_iff from s)
  ]

  recipient_accepted :
      (t : Row) (to : Text) → recipient_refusal w t to ≡ none → comparable w t.to_address ≡ some to
  unfolding recipient_refusal
  recipient_accepted t to e = elim (Option-cases (comparable w t.to_address)) [
    | inl absent ↦ ground arith
    | inr (s, es) ↦ ground (arith, same_iff to s)
  ]

  amount_accepted :
      (t : Row) (amount : ℕ)
      → amount_refusal w t amount ≡ none
      → (t.amount ≤ amount) × ((is_deposit t.kind ≡ true) ⊎ (amount ≡ t.amount))
  unfolding amount_refusal
  amount_accepted t amount e = ground arith

  match_details-IsMatch :
      (t : Row) (f g from to : Text) (n amount : ℕ)
      → match_details w t f g n ≡ verified from to amount
      → (f ≡ from) × (g ≡ to) × (n ≡ amount) × IsMatch t from to amount
  unfolding match_details
  match_details-IsMatch t f g from to n amount e = elim (Option-cases (sender_refusal w t f)) [
    | inr (r, es) ↦ ground arith
    | inl es ↦ elim (Option-cases (recipient_refusal w t g)) [
      | inr (r, er) ↦ ground arith
      | inl er ↦ elim (Option-cases (amount_refusal w t n)) [
        | inr (r, ea) ↦ ground arith
        | inl ea ↦
            let kf : f ≡ from = ground arith in
            let kg : g ≡ to = ground arith in
            let kn : n ≡ amount = ground arith in
            let a = amount_accepted t n ea in
            (
              kf,
              kg,
              kn,
              record {
                recipient = rw (← kg) (recipient_accepted t g er);
                enough = rw (← kn) a.0;
                sender = rw (← kf) (sender_accepted t f es);
                exact = rw (← kn) a.1;
              },
            )
      ]
    ]
  ]

  verify_details-IsMatch :
      (t : Row) (raw : Json) (from to : Text) (amount : ℕ)
      → verify_details w t raw ≡ verified from to amount
      → IsMatch t from to amount × IsShown raw from to amount
  unfolding verify_details
  verify_details-IsMatch t raw from to amount e =
      elim (Bool-cases (execution_result_is_failure w.py raw)) [
        | inl bad ↦ ground arith
        | inr fine ↦ elim (Option-cases (extract_chain_from_address w.py w.dev raw)) [
          | inl absent ↦ ground arith
          | inr (f, ef) ↦ elim (Option-cases (extract_chain_to_address w.py w.dev raw)) [
            | inl absent ↦ ground arith
            | inr (g, eg) ↦ elim (Option-cases (extract_chain_amount w.py raw)) [
              | inl absent ↦ ground arith
              | inr (n, en) ↦
                  let k : match_details w t f g n ≡ verified from to amount =
                    rw (fine, ef, eg, en) at e in
                  let m = match_details-IsMatch t f g from to n amount k in
                  (
                    m.3,
                    record {
                      executed = fine;
                      from_shown = cc (m.0, ef);
                      to_shown = cc (m.1, eg);
                      amount_shown = cc (m.2, en);
                    },
                  )
            ]
          ]
        ]
      ]

  null_lists_none : (h : Text) (tx : Json) → ¬ find_transaction_by_hash w.py json_null h ≡ some tx
  unfolding find_transaction_by_hash iter_candidate_transactions scan visit unwrap_rpc_result nodes
  null_lists_none h tx e = cc

  found-IsListed :
      (answer : Answer) (h : Text) (found : Option Json) (tx : Json)
      → json_rpc_post w.py answer ≡ result found
      → find_transaction_by_hash w.py (elim found [ none ↦ json_null | some v ↦ v ]) h ≡ some tx
      → IsListed answer h tx
  unfolding find_transaction_by_hash iter_candidate_transactions
  found-IsListed answer h none tx e f = absurd (null_lists_none h tx f)
  found-IsListed answer h (some v) tx e f = record {
    history = v;
    answered_ = e;
    listed =
        find-Mem (λ x. transaction_matches_hash w.py x h) (iter_candidate_transactions w.py v) f;
    under_hash =
        find_holds (λ x. transaction_matches_hash w.py x h) (iter_candidate_transactions w.py v) f;
  }

  verify_by_history-IsMatch :
      (t : Row) (h : Text) (answer : Answer) (f : Fetch) (from to : Text) (amount : ℕ)
      → json_rpc_post w.py answer ≡ f
      → verify_by_history w t h f ≡ some (verified from to amount)
      → IsMatch t from to amount
        × ((raw : Json) × IsListed answer h raw × IsShown raw from to amount)
  unfolding verify_by_history
  verify_by_history-IsMatch t h answer outage from to amount q e = absurd (ground arith)
  verify_by_history-IsMatch t h answer value_error from to amount q e = absurd (ground arith)
  verify_by_history-IsMatch t h answer (result found) from to amount q e =
      elim (Option-cases
        (find_transaction_by_hash w.py (elim found [ none ↦ json_null | some v ↦ v ]) h)) [
          | inl absent ↦ absurd (ground arith)
          | inr (tx, et) ↦
              let k : some (verify_details w t tx) ≡ some (verified from to amount) =
                rw (verify_by_history, et) at e in
              let m = verify_details-IsMatch t tx from to amount cc in
              (m.0, (tx, found-IsListed answer h found tx q et, m.1))
        ]

  -- A row is verified only by a transaction that is the status's own, or that the history of the row's
  -- address, as it is answered, lists under the status's hash (the row's, where that is empty); whose
  -- execution is not reported as failed; and whose details are the row's recipient, and its sender and
  -- exact amount unless the row is a deposit of at least its amount.
  pub verify_chain_details_for_record-IsMatch :
      (history : Text → Answer) (t : Row) (s : ChainStatus) (from to : Text) (amount : ℕ)
      → verify_chain_details_for_record w history t s ≡ some (verified from to amount)
      → IsMatch t from to amount
        × ((raw : Json) × IsFrom history t s raw × IsShown raw from to amount)
  unfolding verify_chain_details_for_record
  verify_chain_details_for_record-IsMatch history t s from to amount e =
      elim (Verified-cases (verify_details w t s.raw)) [
        | inr (f, g, n, q) ↦
            let k : some (verified f g n) ≡ some (verified from to amount) =
              rw (verify_chain_details_for_record, q) at e in
            let m = verify_details-IsMatch t s.raw from to amount cc in
            (m.0, (s.raw, of_status refl, m.1))
        | inl (r, q) ↦ elim (Option-cases (verification_address_for_record w t)) [
          | inl absent ↦ absurd (ground arith)
          | inr (address, ea) ↦
              elim (Bool-cases (length (hash_to_find w s.tx_hash t.tx_hash) == 0)) [
                | inl blank ↦ absurd (ground arith)
                | inr filled ↦
                    let m =
                      verify_by_history-IsMatch t (hash_to_find w s.tx_hash t.tx_hash)
                        (history address) (json_rpc_post w.py (history address)) from to amount refl
                        (rw (verify_chain_details_for_record, q, ea, filled) at e) in
                    (m.0, (m.1.0, of_history address ea m.1.1, m.1.2))
              ]
        ]
      ]
