-- ===== src/Outbox/Finalise/Window.antt =====
-- The window of a Spot's newest transactions that a cancellation's end is decided on.
use nim_hunt.Prelude.{
  ℕ, zero, suc, ◌≤◌, ◌≡◌, refl, ap, ◌∙◌, inl, inr, Bool, true, false, ◌&&◌, some, List, [], ◌∷◌,
  ◌++◌, arith, length, filter, take, any, Bool-cases,
}
use nim_hunt.Tables.{fill_spot, confirmed, pending}
use nim_hunt.Outbox.{Row}
use nim_hunt.Outbox.Store.{
  Db, SpotRow, published, cancelled, is_kind, is_in, is_at, spot_of, set_spot_status,
}
use nim_hunt.Outbox.Finalise.{
  is_cancellation, confirmed_total, remaining_cancellable_total, is_refunded, transactions_of,
  finalize_cancelled_spot_if_ready, max_limit,
}

take-append : {A : Type 0} (n : ℕ) (xs ys : List A) → n ≤ length xs → take n (xs ++ ys) ≡ take n xs
take-append zero xs ys h = refl
take-append (suc n) [] ys h = absurd (omega arith)
take-append (suc n) (x ∷ xs) ys h = ap (λ t. x ∷ t) (take-append n xs ys (omega arith))

filter-append :
    {A : Type 0} (p : A → Bool) (xs ys : List A) → filter p (xs ++ ys) ≡ filter p xs ++ filter p ys
filter-append p [] ys = refl
filter-append p (x ∷ xs) ys = elim (Bool-cases (p x)) [
  | inl e ↦ rw e (ap (λ t. x ∷ t) (filter-append p xs ys))
  | inr e ↦ rw e (filter-append p xs ys)
]

no_deposit :
    (ts : List Row)
    → any (λ t. is_kind fill_spot t && is_in confirmed t) ts ≡ false
    → confirmed_total (is_kind fill_spot) ts ≡ 0
unfolding confirmed_total
no_deposit [] h = refl
no_deposit (t ∷ ts) h = ground (arith, no_deposit ts)

refunded :
    (ts : List Row)
    → any (λ t. is_kind fill_spot t && is_in confirmed t) ts ≡ false
    → any is_cancellation ts ≡ true
    → any (λ t. is_cancellation t && is_in pending t) ts ≡ false
    → is_refunded ts ≡ true
unfolding is_refunded remaining_cancellable_total
refunded ts h leg settled = ground (arith, no_deposit ts h)

transactions_of-append :
    (id : ℕ) (newer older : List Row)
    → max_limit ≤ length (filter (λ t. is_at t.spot_id id) newer)
    → transactions_of id (newer ++ older) ≡ transactions_of id newer
unfolding transactions_of
transactions_of-append id newer older h =
    ap (take max_limit) (filter-append (λ t. is_at t.spot_id id) newer older)
    ∙ take-append max_limit (filter (λ t. is_at t.spot_id id) newer)
        (filter (λ t. is_at t.spot_id id) older) h

-- A published standard Spot with at least as many newer transactions as the query returns, none of
-- them a confirmed deposit, is marked cancelled as soon as a cancellation leg is settled, though it
-- failed and whatever older deposits stand.
pub finalize_cancelled_spot_if_ready-window :
    (id : ℕ) (db : Db) (s : SpotRow) (newer older : List Row)
    → db.rows ≡ newer ++ older
    → max_limit ≤ length (filter (λ t. is_at t.spot_id id) newer)
    → any (λ t. is_kind fill_spot t && is_in confirmed t) (transactions_of id newer) ≡ false
    → any is_cancellation (transactions_of id newer) ≡ true
    → any (λ t. is_cancellation t && is_in pending t) (transactions_of id newer) ≡ false
    → spot_of db.spots id ≡ some s
    → s.status ≡ published
    → s.is_prizedraw ≡ false
    → finalize_cancelled_spot_if_ready (some id) db
      ≡ record db { spots = set_spot_status id cancelled db.spots }
unfolding finalize_cancelled_spot_if_ready
finalize_cancelled_spot_if_ready-window id db s newer older split long no_old leg closed here_ open_
      standard =
    let window = transactions_of-append id newer older long in
    let done = refunded (transactions_of id newer) no_old leg closed in
    rw (finalize_cancelled_spot_if_ready, here_, open_, standard, split, window, done) refl
