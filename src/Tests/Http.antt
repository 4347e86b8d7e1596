-- ===== src/Tests/Http.antt =====
-- A body of five bytes that comes in three messages, under a limit of five and of four.
use nim_hunt.Prelude.{◌≡◌, refl, true, false, some, List, [], ◌∷◌, ltb, if◌then◌else◌, length}
use nim_hunt.Prelude.Text.{codes}
use nim_hunt.Chain.Python.{Whole, natural}
use nim_hunt.Http.BodyLimit.{
  Bytes, Message, request, other, Scope, too_large, complete, called, content_length, buffer,
  handle, read_request_body,
}
use nim_hunt.Http.BodyLimit.Exact.{is_whole, joined, buffer-read}

abbrev messages : List Message
messages = request (1 ∷ 2 ∷ []) true ∷ other ∷ request [] true ∷ request (3 ∷ 4 ∷ 5 ∷ []) false ∷ []

abbrev five : Bytes
five = 1 ∷ 2 ∷ 3 ∷ 4 ∷ 5 ∷ []

abbrev scope : Scope
scope = record { is_http = true; headers = (codes "Content-Length", codes " 5 ") ∷ [] }

abbrev int_of : Bytes → Whole
int_of bytes = natural (length bytes)

comes_whole : is_whole messages ≡ true
unfolding is_whole
comes_whole = refl

is_refused : buffer 4 [] messages ≡ too_large
unfolding buffer
is_refused = refl

is_called : handle int_of 5 scope messages ≡ called (some five)
unfolding handle buffer content_length
is_called = refl

buffer-read_example :
    (read_request_body [] messages ≡ some (joined [] messages))
    × (buffer 5 [] messages ≡ (
        if ltb 5 (length (joined [] messages)) then too_large else complete (joined [] messages)))
buffer-read_example = buffer-read 5 [] messages comes_whole
