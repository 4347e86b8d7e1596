-- ===== src/Http/BodyLimit.antt =====
-- The size limit of request bodies (request_body_limit.py) and the reader behind it (claim_http.py).
-- Bytes are numbers. A connection is the list of messages that its client sends.
pub mod Exact
pub mod Bounded
use nim_hunt.Prelude.{
  ℕ, zero, suc, ◌+◌, Bool, true, false, ◌&&◌, ◌||◌, not, Option, none, some, List, [], ◌∷◌, ◌++◌,
  map, max, ltb, leb, ◌==◌, if◌then◌else◌, length,
}
use nim_hunt.Prelude.Text.{Text, codes, same}
use mathlib.Core.List.{reverse}
use nim_hunt.Chain.Python.{Whole, invalid, negative, natural}

abbrev pub Bytes : Type 0
Bytes = List ℕ

-- An ASGI message: a disconnect, a part of the body and whether more follows, or another.
pub data Message : Type 0 where
  disconnect other : Message
  request : (body : Bytes) → (more_body : Bool) → Message

pub record Scope : Type 0 where
  pub is_http : Bool
  pub headers : List (Bytes × Bytes)

abbrev pub lower_byte : ℕ → ℕ
lower_byte c = if leb b'A' c && leb c b'Z' then c + 32 else c

abbrev pub is_space_byte : ℕ → Bool
is_space_byte c = leb 9 c && leb c 13 || c == 32

abbrev pub lstrip_bytes : Bytes → Bytes
lstrip_bytes [] = []
lstrip_bytes (c ∷ cs) = if is_space_byte c then lstrip_bytes cs else c ∷ cs

abbrev pub strip_bytes : Bytes → Bytes
strip_bytes cs = reverse (lstrip_bytes (reverse (lstrip_bytes cs)))

abbrev pub length_of : Whole → Option ℕ
length_of (natural n) = some n
length_of _ = none

-- RequestBodyLimitMiddleware._content_length; `int_of` is Python's `int` of bytes
unfoldable pub content_length : (Bytes → Whole) → List (Bytes × Bytes) → Option ℕ
content_length int_of [] = none
content_length int_of ((name, value) ∷ headers) =
    if same (map lower_byte name) (codes "content-length")
    then length_of (int_of (strip_bytes value))
    else content_length int_of headers

-- How the loop over the messages ends; `starved` while the client sends nothing more.
pub data Buffered : Type 0 where
  too_large disconnected starved : Buffered
  complete : Bytes → Buffered

-- The loop of RequestBodyLimitMiddleware.__call__.
unfoldable pub buffer : ℕ → Bytes → List Message → Buffered
buffer limit body [] = starved
buffer limit body (disconnect ∷ messages) = disconnected
buffer limit body (other ∷ messages) = buffer limit body messages
buffer limit body (request chunk more ∷ messages) =
    let rest = buffer limit (body ++ chunk) messages in
    if ltb limit (length body + length chunk)
    then too_large
    else if more
    then rest
    else complete (body ++ chunk)

-- What becomes of a request: the application gets the original messages, or a replay, or is not
-- called since the answer is 413, or the client has not sent enough.
pub data Handled : Type 0 where
  passed_on rejected waiting : Handled
  called : Option Bytes → Handled

abbrev pub of_buffered : Buffered → Handled
of_buffered too_large = rejected
of_buffered disconnected = called none
of_buffered starved = waiting
of_buffered (complete body) = called (some body)

abbrev pub exceeds : Option ℕ → ℕ → Bool
exceeds none limit = false
exceeds (some n) limit = ltb limit n

-- RequestBodyLimitMiddleware.__call__, with the limit that it was made with
unfoldable pub handle : (Bytes → Whole) → ℕ → Scope → List Message → Handled
handle int_of max_body_bytes scope messages =
    let limit = max 1 max_body_bytes in
    if not scope.is_http
    then passed_on
    else if exceeds (content_length int_of scope.headers) limit
    then rejected
    else of_buffered (buffer limit [] messages)

abbrev pub disconnects : ℕ → List Message
disconnects zero = []
disconnects (suc n) = disconnect ∷ disconnects n

-- The first answers of replay_receive to an application; `none` is a client that disconnected.
unfoldable pub replay : Option Bytes → ℕ → List Message
replay body zero = []
replay none (suc n) = disconnects (suc n)
replay (some body) (suc n) = request body false ∷ disconnects n

-- claim_http.read_request_body; `none` while the client sends nothing more
unfoldable pub read_request_body : Bytes → List Message → Option Bytes
read_request_body body [] = none
read_request_body body (disconnect ∷ messages) = some body
read_request_body body (other ∷ messages) = read_request_body body messages
read_request_body body (request chunk more ∷ messages) =
    let rest = read_request_body (body ++ chunk) messages in
    if more then rest else some (body ++ chunk)
