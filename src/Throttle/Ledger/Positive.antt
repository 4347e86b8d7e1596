-- ===== src/Throttle/Ledger/Positive.antt =====
-- What a stored reservation reads back as: `_clean_reservations` against the writer.
use nim_hunt.Prelude.{◌<◌, ◌≡◌, refl, ap, some, List, [], ◌∷◌, arith, All, inl, inr, Option-cases}
use nim_hunt.Throttle.Window.{Reservation}
use nim_hunt.Throttle.Ledger.{
  RawItem, RawLedger, item, items, not_list, not_dict, clean_item, clean_items, clean_reservations,
  encode_item, encode,
}

-- What the cleaning leaves: positive numbers, but for the Spot, which may be unknown.
pub record IsPositive (r : Reservation) : Type 0 where
  pub claim_id : 0 < r.claim_id
  pub amount : 0 < r.amount
  pub reserved_at : 0 < r.reserved_at
  pub short_reserved_at : 0 < r.short_reserved_at
  pub daily_reserved_at : 0 < r.daily_reserved_at
  pub spot_reserved_at : 0 < r.spot_reserved_at

clean_item-IsPositive : (x : RawItem) (r : Reservation) → clean_item x ≡ some r → IsPositive r
unfolding clean_item
clean_item-IsPositive not_dict r h = cc
clean_item-IsPositive (item c a v s d p i) r h = ground arith

clean_items-IsPositive : (xs : List RawItem) → All IsPositive (clean_items xs)
unfolding clean_items
clean_items-IsPositive [] = tt
clean_items-IsPositive (x ∷ xs) = elim (Option-cases (clean_item x)) [
  | inl e ↦ rw (e, clean_items) (clean_items-IsPositive xs)
  | inr (r, e) ↦ rw (e, clean_items) (clean_item-IsPositive x r e, clean_items-IsPositive xs)
]

pub clean_reservations-IsPositive : (l : RawLedger) → All IsPositive (clean_reservations l)
unfolding clean_reservations
clean_reservations-IsPositive not_list = tt
clean_reservations-IsPositive (items xs) = clean_items-IsPositive xs

clean_item-encode : (r : Reservation) → IsPositive r → clean_item (encode_item r) ≡ some r
unfolding clean_item
clean_item-encode r h = ground arith

-- A ledger of positive reservations that was saved is read back as it was.
pub clean-encode : (rs : List Reservation) → All IsPositive rs → clean_reservations (encode rs) ≡ rs
unfolding clean_reservations
clean-encode [] h = refl
clean-encode (r ∷ rs) h =
    rw (clean_item-encode r h.0, clean_items) (ap (λ t. r ∷ t) (clean-encode rs h.1))
