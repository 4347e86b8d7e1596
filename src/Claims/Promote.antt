-- ===== src/Claims/Promote.antt =====
-- How a pending claim becomes a success: promote_pending_claim_to_success_if_capacity_available, and
-- around it the consumption of a one-time code and the wallet's limit.
use nim_hunt.Prelude.{
  ℕ, Bool, true, false, ◌&&◌, ◌||◌, not, Option, none, some, List, map, ltb, leb, ◌==◌,
  if◌then◌else◌, length, filter, find, contains,
}
use nim_hunt.Prelude.Text.{Text, same}
use nim_hunt.Outbox.Store.{claim_pending, claim_success, claim_failed}
use nim_hunt.Claims.{SpotRecord, ClaimRecord, ClaimStore, Binding, Setting}
use nim_hunt.Claims.Rows.{
  is_in, is_at, spot_with, claim_with, is_prizedraw, count_at, modify_claim_status,
  fail_pending_if_capacity_full, attempt_for_claim, is_open_to, may_use, consume_code, release_code,
}

-- The reason under `capacity_promotion`; `unstated` where the claim carries none.
pub data Promotion : Type 0 where
  unstated prizedraw_entry_promoted unlimited_standard_spot promoted_with_capacity : Promotion
  capacity_full_claim_failed claim_code_attempt_missing claim_code_already_used : Promotion
  wallet_claim_limit_reached : Promotion

-- The store after a call, the claim that it returns, and the reason on it.
pub record Promoted : Type 0 where
  pub store : ClaimStore
  pub found : Option ClaimRecord
  pub promotion : Promotion

abbrev pub reread : ℕ → Promotion → ClaimStore → Promoted
reread id why st = record { store = st; found = claim_with id st.claims; promotion = why }

abbrev pub unchanged : Option ClaimRecord → ClaimStore → Promoted
unchanged c st = record { store = st; found = c; promotion = unstated }

-- The last reward of a limited Spot ends the waits of the others.
abbrev pub won_at : SpotRecord → ℕ → ClaimStore → ℕ → Promoted
won_at s id won now = record {
  store = fail_pending_if_capacity_full s now won;
  found = claim_with id won.claims;
  promotion = promoted_with_capacity;
}

-- A pending claim at its Spot.
unfoldable pub promote_at : SpotRecord → ℕ → ℕ → ClaimStore → Promoted
promote_at s id now st =
    if is_prizedraw s
    then reread id prizedraw_entry_promoted (modify_claim_status id claim_success now st)
    else if s.max_total_claims == 0
    then reread id unlimited_standard_spot (modify_claim_status id claim_success now st)
    else if ltb (count_at s.spot_id claim_success st.claims) s.max_total_claims
    then won_at s id (modify_claim_status id claim_success now st) now
    else reread id capacity_full_claim_failed (modify_claim_status id claim_failed now st)

-- db_access.promote_pending_claim_to_success_if_capacity_available
unfoldable pub promote : List SpotRecord → ℕ → ℕ → ClaimStore → Promoted
promote spots id now st = elim (claim_with id st.claims) [
  | none ↦ unchanged none st
  | some c ↦
      if is_in claim_pending c
      then elim (spot_with c.spot_id spots) [
        | none ↦ unchanged (some c) st
        | some s ↦ promote_at s id now st
      ]
      else unchanged (some c) st
]

abbrev pub succeeded : Option ClaimRecord → Bool
succeeded none = false
succeeded (some c) = is_in claim_success c

-- A code that was consumed is given back unless the claim succeeded.
unfoldable pub settle_code : ℕ → Promoted → Promoted
settle_code id r = if succeeded r.found then r else record r { store = release_code id r.store }

-- A pending claim at a Spot with codes. `none` is an exception of the database.
unfoldable pub promote_with_code :
    List SpotRecord → ClaimRecord → ℕ → ℕ → ClaimStore → Option Promoted
promote_with_code spots c id now st = elim (attempt_for_claim id st) [
  | none ↦ some (reread id claim_code_attempt_missing (modify_claim_status id claim_failed now st))
  | some k ↦
      if is_open_to id k
      then if may_use c k st.codes
        then some (settle_code id (promote spots id now (consume_code k.code_id id st)))
        else none
      else some (reread id claim_code_already_used (modify_claim_status id claim_failed now st))
]

-- claim_code_policy.promote_pending_claim_to_success_if_code_available
unfoldable pub promote_if_code_available : List SpotRecord → ℕ → ℕ → ClaimStore → Option Promoted
promote_if_code_available spots id now st = elim (claim_with id st.claims) [
  | none ↦ some (unchanged none st)
  | some c ↦
      if is_in claim_pending c
      then elim (spot_with c.spot_id spots) [
        | none ↦ some (unchanged (some c) st)
        | some s ↦
            if s.use_password
            then promote_with_code spots c id now st
            else some (promote spots id now st)
      ]
      else some (unchanged (some c) st)
]

-- The user that a binding's value names, if the value is a valid id.
abbrev pub names_user : Binding → Bool
names_user b = elim b.user_id [ none ↦ false | some u ↦ ltb 0 u ]

abbrev pub binds_wallet : Text → Binding → Bool
binds_wallet w b = elim b.wallet_address [ none ↦ false | some a ↦ same a w ]

abbrev pub named_user : Binding → ℕ
named_user b = elim b.user_id [ none ↦ 0 | some u ↦ u ]

-- claim_security_defence_in_depth._verified_wallet_user_ids, up to order and repetition
unfoldable pub verified_wallet_user_ids : List Binding → Text → List ℕ
verified_wallet_user_ids bindings w =
    map named_user (filter (λ b. binds_wallet w b && names_user b) bindings)

unfoldable pub binding_of : List Binding → ℕ → Option Binding
binding_of bindings user_id = find (λ b. b.key_user == user_id) bindings

-- The canonical wallet of a user's binding, where there are both.
unfoldable pub verified_wallet : List Binding → ℕ → Option Text
verified_wallet bindings user_id = elim (binding_of bindings user_id) [
  | none ↦ none
  | some b ↦ b.wallet_address
]

abbrev pub is_active : SpotRecord → ClaimRecord → Bool
is_active s c =
    is_at s.spot_id claim_success c || (is_prizedraw s && is_at s.spot_id claim_pending c)

-- _wallet_active_claim_count
unfoldable pub wallet_active_claim_count : List Binding → SpotRecord → Text → List ClaimRecord → ℕ
wallet_active_claim_count bindings s w claims =
    let ids = verified_wallet_user_ids bindings w in
    length (filter (λ c. is_active s c && contains c.recipient ids) claims)

-- _wallet_has_reached_spot_limit
unfoldable pub wallet_has_reached_spot_limit : Setting → ℕ → Text → List ClaimRecord → Bool
wallet_has_reached_spot_limit w spot_id address claims = elim (spot_with spot_id w.spots) [
  | none ↦ true
  | some s ↦
      if s.max_claims_per_user == 0
      then false
      else leb s.max_claims_per_user (wallet_active_claim_count w.bindings s address claims)
]

-- is_prizedraw of a Spot's id
abbrev pub is_prizedraw_id : List SpotRecord → ℕ → Bool
is_prizedraw_id spots id = elim (spot_with id spots) [ none ↦ false | some s ↦ is_prizedraw s ]

-- A pending claim at a standard Spot of a public deployment.
unfoldable pub promote_standard : Setting → ClaimRecord → ℕ → ℕ → ClaimStore → Option Promoted
promote_standard w c id now st = elim (verified_wallet w.bindings c.recipient) [
  | none ↦ some (reread id unstated (modify_claim_status id claim_failed now st))
  | some address ↦
      if wallet_has_reached_spot_limit w c.spot_id address st.claims
      then some (reread id wallet_claim_limit_reached (modify_claim_status id claim_failed now st))
      else promote_if_code_available w.spots id now st
]

-- claim_security_defence_in_depth._promote_claim_with_verified_wallet_limit, as installed
unfoldable pub promote_with_wallet_limit : Setting → ℕ → ℕ → ClaimStore → Option Promoted
promote_with_wallet_limit w id now st =
    if w.public_deployment
    then elim (claim_with id st.claims) [
      | none ↦ promote_if_code_available w.spots id now st
      | some c ↦
          if is_in claim_pending c && not (is_prizedraw_id w.spots c.spot_id)
          then promote_standard w c id now st
          else promote_if_code_available w.spots id now st
    ]
    else promote_if_code_available w.spots id now st
