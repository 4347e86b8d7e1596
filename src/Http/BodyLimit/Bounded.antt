-- ===== src/Http/BodyLimit/Bounded.antt =====
-- What the application behind the limit can read.
use nim_hunt.Prelude.{
  ℕ, suc, ◌≡◌, refl, ◌≤◌, ◌+◌, inl, inr, not, some, List, [], ◌∷◌, ◌++◌, max, ltb, arith,
  Bool-cases, if-holds, length, length-append,
}
use nim_hunt.Chain.Python.{Whole}
use nim_hunt.Http.BodyLimit.{
  Bytes, Message, disconnect, other, request, Scope, buffer, Handled, called, of_buffered, exceeds,
  content_length, handle, replay, read_request_body,
}

-- A body that the application is called with is within the limit.
abbrev IsSmall : ℕ → Handled → Type 0
IsSmall limit (called (some body)) = length body ≤ limit
IsSmall limit _ = Unit

buffer-IsSmall :
    (limit : ℕ) (body : Bytes) (ms : List Message)
    → IsSmall limit (of_buffered (buffer limit body ms))
unfolding buffer
buffer-IsSmall limit body [] = tt
buffer-IsSmall limit body (disconnect ∷ ms) = tt
buffer-IsSmall limit body (other ∷ ms) = buffer-IsSmall limit body ms
buffer-IsSmall limit body (request chunk more ∷ ms) =
    let long = length-append body chunk in
    elim (Bool-cases (ltb limit (length body + length chunk))) [
      | inl over ↦ rw over tt
      | inr fits ↦ elim (Bool-cases more) [
        | inl m ↦ rw (fits, m) (buffer-IsSmall limit (body ++ chunk) ms)
        | inr m ↦ rw (fits, m) (ground arith)
      ]
    ]

handle-IsSmall :
    (int_of : Bytes → Whole) (limit : ℕ) (scope : Scope) (ms : List Message)
    → IsSmall (max 1 limit) (handle int_of limit scope ms)
unfolding handle
handle-IsSmall int_of limit scope ms =
    if-holds (λ h. IsSmall (max 1 limit) h) (not scope.is_http) _ _ (λ a. tt)
      λ a.
        if-holds (λ h. IsSmall (max 1 limit) h)
          (exceeds (content_length int_of scope.headers) (max 1 limit)) _ _ (λ b. tt)
          λ b. buffer-IsSmall (max 1 limit) [] ms

-- An application that is called with a whole body reads it in full from its first message, however
-- many messages it asks for, and the body is no longer than the limit (or one byte).
pub handle-reads :
    (int_of : Bytes → Whole) (limit : ℕ) (scope : Scope) (ms : List Message) (body : Bytes) (n : ℕ)
    → handle int_of limit scope ms ≡ called (some body)
    → (read_request_body [] (replay (some body) (suc n)) ≡ some body) × (length body ≤ max 1 limit)
unfolding read_request_body replay
handle-reads int_of limit scope ms body n e =
    (refl, let h = handle-IsSmall int_of limit scope ms in rw e at h)
