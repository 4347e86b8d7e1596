-- ===== src/Claims/Moves.antt =====
-- The abstract machine of claims: what a transaction of the claim path may do, one move at a time,
-- each with the conditions under which it is made.
pub mod Promotes
pub mod Limited
pub mod Runs
pub mod Requests
pub mod Attempts
pub mod Histories
pub mod Counts
use nim_hunt.Prelude.{
  ℕ, ◌≡◌, ◌<◌, ◌+◌, Bool, true, false, ◌&&◌, ◌||◌, not, Option, none, some, List, map, max, ltb,
  ◌==◌, length, find, any,
}
use nim_hunt.Prelude.Text.{Text}
use nim_hunt.Outbox.Store.{claim_pending, claim_success, claim_failed}
use nim_hunt.Claims.{SpotRecord, ClaimRecord, CodeRecord, ClaimStore, AttemptRecord, Setting}
use nim_hunt.Claims.Rows.{
  spot_with, claim_with, is_prizedraw, count_at, is_in, has_id, update_status, insert_claim,
  consume_code, release_code, used_by,
}
use nim_hunt.Claims.Promote.{verified_wallet, wallet_active_claim_count}
use nim_hunt.Claims.Attempt.{wallet_recent_claims}

-- The row of a code that a claim holds at its own Spot.
abbrev pub holds : ClaimRecord → CodeRecord → Bool
holds c k = used_by c.claim_id k && k.spot_id == c.spot_id

-- A public deployment lets a verified wallet no further than a standard Spot's limit per user.
abbrev pub IsAllowed : Setting → List ClaimRecord → ℕ → SpotRecord → Type 0
IsAllowed w claims user_id s =
    w.public_deployment ≡ true
    → is_prizedraw s ≡ false
    → (s.max_claims_per_user == 0) ≡ false
    → (address : Text) → verified_wallet w.bindings user_id ≡ some address
    → wallet_active_claim_count w.bindings s address claims < s.max_claims_per_user

-- What must be so when a claim succeeds at its Spot.
pub record MaySucceed (w : Setting) (st : ClaimStore) (c : ClaimRecord) (s : SpotRecord)
    : Type 0 where
  pub pending : is_in claim_pending c ≡ true
  pub there : spot_with c.spot_id w.spots ≡ some s
  pub has_room :
      is_prizedraw s ≡ false
      → (s.max_total_claims == 0) ≡ false
      → count_at c.spot_id claim_success st.claims < s.max_total_claims
  pub allowed : IsAllowed w st.claims c.recipient s
  pub has_code : s.use_password ≡ true → any (holds c) st.codes ≡ true

-- The limits of a public deployment on a new claim.
abbrev pub IsAdmitted : Setting → ℕ → ClaimStore → ℕ → Type 0
IsAdmitted w now st user_id =
    w.public_deployment ≡ true
    → (address : Text) → verified_wallet w.bindings user_id ≡ some address
    → length (wallet_recent_claims w.bindings address now st.claims) < max 1 w.hourly_limit

pub data Move (w : Setting) (now : ℕ) : ClaimStore → ClaimStore → Type 0 where
  begin :
      (st : ClaimStore) (spot_id user_id : ℕ) (payout : Option Text)
      → IsAdmitted w now st user_id
      → Move w now st (insert_claim spot_id user_id payout now st)
  try_code : (st : ClaimStore) (l : List AttemptRecord) → Move w now st (record st { attempts = l })
  take_code :
      (st : ClaimStore) (code_id claim_id : ℕ) → Move w now st (consume_code code_id claim_id st)
  give_back :
      (st : ClaimStore) (id : ℕ) (c : ClaimRecord)
      → claim_with id st.claims ≡ some c
      → is_in claim_success c ≡ false
      → Move w now st (release_code id st)
  wait : (st : ClaimStore) (id : ℕ) → Move w now st (update_status (has_id id) claim_pending now st)
  fail :
      (st : ClaimStore) (test : ClaimRecord → Bool)
      → Move w now st (update_status test claim_failed now st)
  succeed :
      (st : ClaimStore) (id : ℕ) (c : ClaimRecord) (s : SpotRecord)
      → claim_with id st.claims ≡ some c
      → MaySucceed w st c s
      → Move w now st (update_status (has_id id) claim_success now st)

pub data Moves (w : Setting) (now : ℕ) (start : ClaimStore) : ClaimStore → Type 0 where
  still : Moves w now start start
  then_ : {st t : ClaimStore} → Moves w now start st → Move w now st t → Moves w now start t

pub Moves-trans :
    {w : Setting} {now : ℕ} {a b c : ClaimStore}
    → Moves w now a b
    → Moves w now b c
    → Moves w now a c
Moves-trans m still = m
Moves-trans m (then_ n x) = then_ (Moves-trans m n) x
