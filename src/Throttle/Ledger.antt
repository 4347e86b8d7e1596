-- ===== src/Throttle/Ledger.antt =====
-- The durable reservation ledger: its stored JSON, `_clean_reservations` and `_prune_reservations`,
-- and the queries of the payout rows. A stored number is taken to be non-negative, as this code
-- writes them.
pub mod Positive
pub mod Prune
use nim_hunt.Prelude.{
  min_of, total, length, String, ℕ, Bool, false, ◌&&◌, ◌||◌, not, Option, none, some, List, [], ◌∷◌,
  map, max, ◌==◌, if◌then◌else◌, or_else, filter, any, contains,
}
use nim_hunt.Tables.{
  Trans, Claim, Spot, has_type, has_status, TransType, TransStatus, get_claim, get_spot,
}
use nim_hunt.Throttle.Decision.{WindowState, Limits, Reason, Details}
use nim_hunt.Throttle.Window.{PayoutRow, Reservation, is_live}

-- What `int(item.get(key) or …)` makes of a stored value: nothing for one that counts as false, a
-- number, or an exception.
pub data Field : Type 0 where
  falsy : Field
  value : ℕ → Field
  invalid : Field

pub data RawItem : Type 0 where
  not_dict : RawItem
  item :
      (claim_id amount reserved_at short_reserved_at daily_reserved_at spot_reserved_at
        spot_id : Field)
      → RawItem

pub data RawLedger : Type 0 where
  not_list : RawLedger
  items : List RawItem → RawLedger

-- The JSON record of a claim under its security key; a value that is no dictionary is none.
pub record SecurityRecord : Type 0 where
  pub verified_wallet : Option String
  pub payout_address : Option String
  pub manual_review : Bool
  pub manual_review_reason : Option Reason
  pub manual_review_marked_at : Option ℕ
  pub manual_review_details : Option Details
  pub manual_review_released_at : Option ℕ

pub record Store : Type 0 where
  pub claims : List Claim
  pub spots : List Spot
  pub prizedraws : List ℕ
  pub trans : List Trans
  pub ledger : RawLedger
  pub records : ℕ → Option SecurityRecord

-- `int(item.get(key) or default)`.
unfoldable pub int_or : Field → ℕ → Option ℕ
int_or falsy d = some d
int_or (value n) d = some (or_else (some n) d)
int_or invalid d = none

-- The tests `<= 0` that follow the conversions.
unfoldable pub keep_positive : Reservation → Option Reservation
keep_positive r = if r.claim_id == 0 || (r.amount == 0 || r.reserved_at == 0) then none else some r

infixl 5 ◌>>=◌
abbrev ◌>>=◌ {ℓ κ} : {A : Type ℓ} {B : Type κ} → Option A → (A → Option B) → Option B
none >>= f = none
some a >>= f = f a

unfoldable pub clean_item : RawItem → Option Reservation
unfolding int_or keep_positive
clean_item not_dict = none
clean_item (item claim amount reserved short daily spot spot_id) = do
  c ← int_or claim 0
  a ← int_or amount 0
  r ← int_or reserved 0
  s ← int_or short r
  d ← int_or daily r
  p ← int_or spot r
  i ← int_or spot_id 0
  keep_positive (record {
    claim_id = c;
    amount = a;
    reserved_at = r;
    short_reserved_at = s;
    daily_reserved_at = d;
    spot_reserved_at = p;
    spot_id = i;
  })

unfoldable pub clean_items : List RawItem → List Reservation
unfolding clean_item
clean_items [] = []
clean_items (x ∷ xs) = elim (clean_item x) [ none ↦ clean_items xs | some r ↦ r ∷ clean_items xs ]

unfoldable pub clean_reservations : RawLedger → List Reservation
unfolding clean_items
clean_reservations not_list = []
clean_reservations (items xs) = clean_items xs

-- What `_metadata_set` stores of the reservations.
abbrev pub encode_item : Reservation → RawItem
encode_item r =
    item (value r.claim_id) (value r.amount) (value r.reserved_at) (value r.short_reserved_at)
      (value r.daily_reserved_at) (value r.spot_reserved_at) (value r.spot_id)

abbrev pub encode : List Reservation → RawLedger
encode rs = items (map encode_item rs)

-- A claim-payout transaction that has not failed, for a given claim.
unfoldable pub is_payout : Trans → Bool
is_payout t = has_type TransType.claim t && not (has_status TransStatus.failed t)

unfoldable pub pays : ℕ → Trans → Bool
pays claim_id t = is_payout t && elim t.claim_id [ none ↦ false | some c ↦ c == claim_id ]

unfoldable pub is_prizedraw : Store → ℕ → Bool
is_prizedraw db spot_id = contains spot_id db.prizedraws

-- A row of the classification query.
pub record Info : Type 0 where
  pub use_password : Bool
  pub prizedraw : Bool
  pub materialised : Bool

-- The join of CLAIM, SPOT and PRIZEDRAW; the query's batches of 900 ids only divide the work.
unfoldable pub classify : Store → ℕ → Option Info
classify db claim_id = do
  c ← get_claim db.claims claim_id
  s ← get_spot db.spots c.spot_id
  some (record {
    use_password = s.use_password;
    prizedraw = is_prizedraw db s.spot_id;
    materialised = any (pays claim_id) db.trans;
  })

abbrev pub unexpired : Limits → ℕ → Reservation → Bool
unexpired lim now r =
    is_live lim.window_seconds now r.short_reserved_at
    || is_live lim.daily_window_seconds now r.daily_reserved_at

-- Whether the loop of `_prune_reservations` keeps a reservation, by its claim's row.
unfoldable pub keeps : Limits → ℕ → Reservation → Option Info → Bool
keeps lim now r none = unexpired lim now r
keeps lim now r (some info) =
    not info.materialised && (not info.use_password && not info.prizedraw || unexpired lim now r)

unfoldable pub prune_reservations : Limits → Store → ℕ → List Reservation → List Reservation
unfolding keeps
prune_reservations lim db now = filter (λ r. keeps lim now r (classify db r.claim_id))

abbrev pub payout_row : Trans → PayoutRow
payout_row t = record {
  trans_id = t.trans_id;
  claim_id = t.claim_id;
  amount = t.amount;
  created_at = t.created_at;
  spot_id = t.spot_id;
}

-- The rows of the recent-payouts query, for a window of some seconds.
unfoldable pub rows_within : ℕ → ℕ → List Trans → List PayoutRow
rows_within seconds now trans =
    map payout_row (filter (λ t. is_payout t && is_live seconds now t.created_at) trans)

abbrev pub longest_window : Limits → ℕ
longest_window lim = max lim.window_seconds (max lim.daily_window_seconds lim.spot_window_seconds)

unfoldable pub recent_payout_rows : Limits → Store → ℕ → List PayoutRow
recent_payout_rows lim db now = rows_within (longest_window lim) now db.trans

abbrev pub at_spot : ℕ → Option ℕ → Bool
at_spot spot_id spot = or_else spot 0 == spot_id

unfoldable pub lifetime_spot_payout_rows : Store → ℕ → List PayoutRow
unfolding is_payout
lifetime_spot_payout_rows db spot_id =
    map payout_row (
      filter (λ t. is_payout t && elim t.spot_id [ none ↦ false | some s ↦ s == spot_id ]) db.trans)

-- `payout_window_state`: the short window as one aggregate query sees it, without reservations.
unfoldable pub payout_window_state : Limits → Store → ℕ → WindowState
payout_window_state lim db now =
    let rows = filter (λ t. is_payout t && is_live lim.window_seconds now t.created_at) db.trans in
    record {
      now = now;
      payout_count = length rows;
      payout_amount = total (λ t. t.amount) rows;
      oldest_created_at = min_of (map (λ t. t.created_at) rows);
    }
