-- ===== src/Outbox/Check/Proven.antt =====
-- What the check of a pending row needs before it calls the row failed, or confirmed.
use nim_hunt.Prelude.{
  ℕ, ◌≤◌, [], ◌∷◌, ◌≡◌, ◌≢◌, ◌⊎◌, inl, inr, refl, true, false, ◌==◌, Option, none, some, length,
  arith, Bool-cases, Option-cases,
}
use nim_hunt.Prelude.Strip.{strip-strip}
use nim_hunt.Prelude.Text.{Text, strip}
use nim_hunt.Chain.Json.{Json}
use nim_hunt.Chain.Extract.{execution_result_is_failure, unwrap_rpc_result}
use nim_hunt.Chain.Extract.Candidates.{find_transaction_by_hash}
use nim_hunt.Chain.Rpc.{
  chain_pending, chain_unknown, Outcome, Rpc, Fetch, outage, value_error, result, ChainStatus,
  chain_failed, chain_confirmed, json_rpc_post, get_chain_transaction_status,
}
use nim_hunt.Outbox.{
  transaction_age_seconds, Row, Surroundings, is_deposit, verification_address_for_record,
}
use nim_hunt.Outbox.Check.{
  is_open, check_unrecovered, Ages, found_value, check_pending_transaction, check_answered,
  check_unrecovered, recovered_from, found_in_history,
  recover_server_transaction_from_address_history,
}

-- What a request came to, with the equation.
data FetchView (f : Fetch) : Type 0 where
  down : f ≡ outage → FetchView f
  broken : f ≡ value_error → FetchView f
  missing : f ≡ result none → FetchView f
  found : (v : Json) → f ≡ result (some v) → FetchView f

Fetch-cases : (f : Fetch) → FetchView f
Fetch-cases outage = down refl
Fetch-cases value_error = broken refl
Fetch-cases (result none) = missing refl
Fetch-cases (result (some v)) = found v refl

Fetch-result :
    (f : Fetch)
    → ((f ≡ outage) ⊎ (f ≡ value_error)) ⊎ ((answer : Option Json) × (f ≡ result answer))
Fetch-result outage = inl (inl refl)
Fetch-result value_error = inl (inr refl)
Fetch-result (result answer) = inr (answer, refl)

Outcome-cases : (o : Outcome) → (o ≡ chain_pending) ⊎ (o ≢ chain_pending)
Outcome-cases chain_pending = inl refl
Outcome-cases chain_confirmed = inr (λ e. cc)
Outcome-cases chain_failed = inr (λ e. cc)
Outcome-cases chain_unknown = inr (λ e. cc)

filled_before : (h : Text) → (length (strip h) == 0) ≡ false → (length h == 0) ≡ false
filled_before [] e = e
filled_before (c ∷ cs) e = ground arith

module _ (w : Surroundings) (rpc : Rpc) where
  -- The chain reported that the transaction of exactly this hash was executed and failed.
  pub data FailureProof (h : Text) : Type 0 where
    by_hash_says :
        (v : Json)
        → json_rpc_post w.py (rpc.by_hash h) ≡ result (some v)
        → execution_result_is_failure w.py (unwrap_rpc_result v).0 ≡ true
        → FailureProof h
    history_says :
        (address : Text) (answer : Option Json) (tx : Json)
        → json_rpc_post w.py (rpc.history_to_recover address) ≡ result answer
        → find_transaction_by_hash w.py (found_value answer) h ≡ some tx
        → execution_result_is_failure w.py tx ≡ true
        → FailureProof h

  status_by_hash-failed :
      (h : Text) (s : ChainStatus)
      → strip h ≡ h
      → (length h == 0) ≡ false
      → get_chain_transaction_status w.py rpc.by_hash h ≡ some s
      → s.status ≡ chain_failed
      → FailureProof h
  unfolding get_chain_transaction_status
  status_by_hash-failed h s e filled g f = elim (Fetch-cases (json_rpc_post w.py (rpc.by_hash h))) [
    | down q ↦ absurd (ground arith)
    | broken q ↦ absurd (ground arith)
    | missing q ↦ absurd (ground arith)
    | found v q ↦ by_hash_says v q (ground arith)
  ]

  recovered_from-failed :
      (h address : Text) (r : ChainStatus)
      → recovered_from w h (json_rpc_post w.py (rpc.history_to_recover address)) ≡ some r
      → r.status ≡ chain_failed
      → FailureProof h
  unfolding recovered_from found_in_history
  recovered_from-failed h address r g f =
      elim (Fetch-result (json_rpc_post w.py (rpc.history_to_recover address))) [
        | inl q ↦ absurd (ground arith)
        | inr (answer, q) ↦
            elim (Option-cases (find_transaction_by_hash w.py (found_value answer) h)) [
              | inl absent ↦ absurd (ground arith)
              | inr (tx, et) ↦ history_says address answer tx q et (ground arith)
            ]
      ]

  recover-failed :
      (t : Row) (s r : ChainStatus)
      → (length t.tx_hash == 0) ≡ false
      → recover_server_transaction_from_address_history w rpc t s ≡ some r
      → r.status ≡ chain_failed
      → FailureProof (strip t.tx_hash)
  unfolding recover_server_transaction_from_address_history
  recover-failed t s r filled g f = elim (Option-cases (verification_address_for_record w t)) [
    | inl absent ↦ absurd (ground arith)
    | inr (address, ea) ↦ recovered_from-failed (strip t.tx_hash) address r (ground arith) f
  ]

  unrecovered-failed :
      (ages : Ages) (now : ℕ) (t : Row) (h : Text) (s r : ChainStatus)
      → is_open w s.status ≡ true
      → check_unrecovered w rpc ages now t h s ≡ some r
      → r.status ≡ chain_failed
      → (is_deposit t.kind ≡ true)
        × (ages.user_deposit_stale_after_seconds ≤ transaction_age_seconds now t)
  unfolding check_unrecovered
  unrecovered-failed ages now t h s r o g f = elim (Outcome-cases s.status) [
    | inl p ↦ ground arith
    | inr p ↦ ground arith
  ]

  -- A row is called failed only on proof: an answer to its exact hash that reports a failed
  -- execution. A deposit, which pays nobody, is also called failed once its validity window is over
  -- and no history shows it.
  pub check_pending_transaction-failed :
      (ages : Ages) (now : ℕ) (t : Row) (s : ChainStatus)
      → (length (strip t.tx_hash) == 0) ≡ false
      → check_pending_transaction w rpc ages now t ≡ some s
      → s.status ≡ chain_failed
      → FailureProof (strip t.tx_hash)
        ⊎ ((is_deposit t.kind ≡ true)
            × (ages.user_deposit_stale_after_seconds ≤ transaction_age_seconds now t))
  unfolding check_pending_transaction check_answered
  check_pending_transaction-failed ages now t s filled e f =
      elim (Option-cases (get_chain_transaction_status w.py rpc.by_hash (strip t.tx_hash))) [
        | inl absent ↦ absurd (ground arith)
        | inr (a, ea) ↦ elim (Bool-cases (is_open w a.status)) [
          | inr settled ↦
              let q : a ≡ s = ground arith in
              inl (
                status_by_hash-failed (strip t.tx_hash) a (strip-strip t.tx_hash) filled ea
                  (rw q f))
          | inl open_ ↦
              elim (Option-cases (recover_server_transaction_from_address_history w rpc t a)) [
                | inr (b, eb) ↦
                    let q : b ≡ s = ground arith in
                    inl (recover-failed t a b (filled_before t.tx_hash filled) eb (rw q f))
                | inl none_ ↦
                    inr (unrecovered-failed ages now t (strip t.tx_hash) a s open_ (ground arith) f)
              ]
        ]
      ]
