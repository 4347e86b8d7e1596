-- ===== src/Claims/Rows.antt =====
-- The statements of db_access.py and claim_code_policy.py on the rows of claims and codes.
use nim_hunt.Prelude.{
  ℕ, ◌+◌, Bool, true, false, ◌&&◌, ◌||◌, not, Option, none, some, List, ◌∷◌, map, ltb, ◌==◌,
  if◌then◌else◌, length, filter, find, any, is_some,
}
use nim_hunt.Prelude.Text.{Text, same}
use nim_hunt.Outbox.Store.{ClaimStatus, claim_pending, claim_success, claim_failed}
use nim_hunt.Settlement.Draw.{claim_code}
use nim_hunt.Claims.{SpotRecord, ClaimRecord, CodeRecord, ClaimStore}

abbrev pub is_in : ClaimStatus → ClaimRecord → Bool
is_in s c = claim_code c.status == claim_code s

abbrev pub is_at : ℕ → ClaimStatus → ClaimRecord → Bool
is_at spot_id s c = c.spot_id == spot_id && is_in s c

-- db_access.get_spot, get_claim
unfoldable pub spot_with : ℕ → List SpotRecord → Option SpotRecord
spot_with id spots = find (λ s. s.spot_id == id) spots

unfoldable pub claim_with : ℕ → List ClaimRecord → Option ClaimRecord
claim_with id claims = find (λ c. c.claim_id == id) claims

abbrev pub is_prizedraw : SpotRecord → Bool
is_prizedraw s = is_some s.prize_count

-- SELECT COUNT(*) … WHERE spot_id = ? AND status = ?
unfoldable pub count_at : ℕ → ClaimStatus → List ClaimRecord → ℕ
count_at spot_id s claims = length (filter (is_at spot_id s) claims)

-- The triggers on an update of a claim's status: the stamp of `updated_at`, and the removal of the
-- candidate code of a claim that is over.
abbrev pub with_status : ClaimStatus → ℕ → ClaimRecord → ClaimRecord
with_status s now c = record c { status = s; updated_at = now }

abbrev pub change : (ClaimRecord → Bool) → ClaimStatus → ℕ → List ClaimRecord → List ClaimRecord
change test s now claims = map (λ c. if test c then with_status s now c else c) claims

abbrev pub is_over : ClaimStatus → Bool
is_over claim_pending = false
is_over _ = true

abbrev pub has_id : ℕ → ClaimRecord → Bool
has_id id c = c.claim_id == id

-- UPDATE claim SET status … WHERE …
unfoldable pub update_status : (ClaimRecord → Bool) → ClaimStatus → ℕ → ClaimStore → ClaimStore
update_status test s now st = record st {
  claims = change test s now st.claims;
  attempts =
      if is_over s
      then filter (λ a. not (any (λ c. has_id a.claim_id c && test c) st.claims)) st.attempts
      else st.attempts;
}

-- modify_claim_status, of a claim that is there
unfoldable pub modify_claim_status : ℕ → ClaimStatus → ℕ → ClaimStore → ClaimStore
modify_claim_status id s now st = update_status (has_id id) s now st

-- fail_pending_standard_duration_claims_if_capacity_full
unfoldable pub fail_pending_if_capacity_full : SpotRecord → ℕ → ClaimStore → ClaimStore
fail_pending_if_capacity_full s now st =
    if is_prizedraw s
    then st
    else if s.claim_duration == 0 || s.max_total_claims == 0
    then st
    else if ltb (count_at s.spot_id claim_success st.claims) s.max_total_claims
    then st
    else update_status (is_at s.spot_id claim_pending) claim_failed now st

-- INSERT INTO claim, whose trigger refuses a Spot that is being cancelled
abbrev pub new_claim : ℕ → ℕ → Option Text → ℕ → ClaimStore → ClaimRecord
new_claim spot_id user_id payout now st = record {
  claim_id = st.next_id;
  spot_id = spot_id;
  recipient = user_id;
  payout_address = payout;
  status = claim_pending;
  claimed_at = now;
  updated_at = now;
}

unfoldable pub insert_claim : ℕ → ℕ → Option Text → ℕ → ClaimStore → ClaimStore
insert_claim spot_id user_id payout now st = record st {
  next_id = st.next_id + 1;
  claims = new_claim spot_id user_id payout now st ∷ st.claims;
}

-- claim_code_policy._create_attempt
unfoldable pub create_attempt : ℕ → ℕ → ClaimStore → ClaimStore
create_attempt claim_id code_id st = record st {
  attempts = record { claim_id = claim_id; claim_code_id = code_id } ∷ st.attempts;
}

unfoldable pub code_with : ℕ → List CodeRecord → Option CodeRecord
code_with id codes = find (λ k. k.code_id == id) codes

-- claim_code_policy._attempt_for_claim: the code that the attempt joins
unfoldable pub attempt_for_claim : ℕ → ClaimStore → Option CodeRecord
attempt_for_claim claim_id st = elim (find (λ a. a.claim_id == claim_id) st.attempts) [
  | none ↦ none
  | some a ↦ code_with a.claim_code_id st.codes
]

-- db_access.get_claim_code_by_code, of a normalised code
unfoldable pub code_by_text : ℕ → Text → List CodeRecord → Option CodeRecord
code_by_text spot_id text codes = find (λ k. k.spot_id == spot_id && same k.code text) codes

abbrev pub used_by : ℕ → CodeRecord → Bool
used_by claim_id k = elim k.used_by [ none ↦ false | some id ↦ id == claim_id ]

-- The condition of the update that consumes a code.
abbrev pub is_open_to : ℕ → CodeRecord → Bool
is_open_to claim_id k = not (is_some k.used_by) || used_by claim_id k

-- The trigger and the unique index on `used_by`, under which the update raises.
unfoldable pub may_use : ClaimRecord → CodeRecord → List CodeRecord → Bool
may_use c k codes =
    c.spot_id == k.spot_id
    && not (any (λ j. used_by c.claim_id j && not (j.code_id == k.code_id)) codes)

abbrev pub taken : ℕ → ℕ → CodeRecord → CodeRecord
taken code_id claim_id k =
    if k.code_id == code_id && is_open_to claim_id k
    then record k { used_by = some claim_id }
    else k

unfoldable pub consume_code : ℕ → ℕ → ClaimStore → ClaimStore
consume_code code_id claim_id st = record st { codes = map (taken code_id claim_id) st.codes }

abbrev pub freed : ℕ → CodeRecord → CodeRecord
freed claim_id k = if used_by claim_id k then record k { used_by = none } else k

-- claim_code_policy._release_code_from_claim
unfoldable pub release_code : ℕ → ClaimStore → ClaimStore
release_code claim_id st = record st { codes = map (freed claim_id) st.codes }
