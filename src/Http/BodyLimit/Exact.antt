-- ===== src/Http/BodyLimit/Exact.antt =====
-- The limited loop is the unlimited reader and one comparison.
use nim_hunt.Prelude.{
  ℕ, ◌≡◌, refl, ◌≤◌, ◌+◌, inl, inr, Bool, true, false, some, List, [], ◌∷◌, ◌++◌, ltb, arith,
  if◌then◌else◌, Bool-cases, length, length-append,
}
use nim_hunt.Http.BodyLimit.{
  Bytes, Message, disconnect, other, request, too_large, complete, buffer, read_request_body,
}

-- The last part of the body comes before any disconnect.
unfoldable pub is_whole : List Message → Bool
is_whole [] = false
is_whole (disconnect ∷ ms) = false
is_whole (other ∷ ms) = is_whole ms
is_whole (request chunk more ∷ ms) = let rest = is_whole ms in if more then rest else true

-- All the bytes of a body.
unfoldable pub joined : Bytes → List Message → Bytes
joined body [] = body
joined body (disconnect ∷ ms) = body
joined body (other ∷ ms) = joined body ms
joined body (request chunk more ∷ ms) =
    let rest = joined (body ++ chunk) ms in if more then rest else body ++ chunk

joined-le : (body : Bytes) (ms : List Message) → length body ≤ length (joined body ms)
unfolding joined
joined-le body [] = omega arith
joined-le body (disconnect ∷ ms) = omega arith
joined-le body (other ∷ ms) = joined-le body ms
joined-le body (request chunk true ∷ ms) =
    omega (arith, joined-le (body ++ chunk) ms, length-append body chunk)
joined-le body (request chunk false ∷ ms) = omega (arith, length-append body chunk)

-- Whatever the parts, a body that comes whole is passed on exactly as the unlimited reader would
-- read it if it is within the limit, and is refused otherwise.
pub buffer-read :
    (limit : ℕ) (body : Bytes) (ms : List Message)
    → is_whole ms ≡ true
    → (read_request_body body ms ≡ some (joined body ms))
      × (buffer limit body ms
          ≡ (if ltb limit (length (joined body ms)) then too_large else complete (joined body ms)))
unfolding is_whole joined buffer read_request_body
buffer-read limit body [] h = absurd cc
buffer-read limit body (disconnect ∷ ms) h = absurd cc
buffer-read limit body (other ∷ ms) h = buffer-read limit body ms h
buffer-read limit body (request chunk false ∷ ms) h = (refl, rw (length-append body chunk) refl)
buffer-read limit body (request chunk true ∷ ms) h =
    let (r, b) = buffer-read limit (body ++ chunk) ms h in
    let longer = joined-le (body ++ chunk) ms in
    let long = length-append body chunk in
    (
      r,
      elim (Bool-cases (ltb limit (length body + length chunk))) [
        | inl over ↦
            let o : ltb limit (length (joined (body ++ chunk) ms)) ≡ true = ground arith in
            rw (over, o) refl
        | inr fits ↦ rw fits b
      ],
    )
