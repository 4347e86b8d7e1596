-- ===== src/Tests/Window.antt =====
-- A Spot that paid 499 claims after its only deposit, and whose refund failed.
use nim_hunt.Prelude.{
  ℕ, zero, suc, ◌≤◌, ◌≡◌, refl, true, false, ◌&&◌, some, List, [], ◌∷◌, ◌++◌, arith, length, filter,
  any,
}
use nim_hunt.Tables.{fill_spot, cancel_spot, pending, confirmed, failed}
use nim_hunt.Outbox.{Row}
use nim_hunt.Outbox.Store.{
  Db, SpotRow, published, cancelled, is_at, is_kind, is_in, spot_of, set_spot_status,
}
use nim_hunt.Outbox.Finalise.{
  is_cancellation, transactions_of, max_limit, finalize_cancelled_spot_if_ready,
}
use nim_hunt.Outbox.Finalise.Window.{finalize_cancelled_spot_if_ready-window}
use nim_hunt.Tests.Outbox.{claim_row, db}

abbrev pub copies : ℕ → Row → List Row
copies zero t = []
copies (suc n) t = t ∷ copies n t

abbrev newer : List Row
newer =
    record claim_row { kind = cancel_spot; status = failed }
    ∷ copies 499 (record claim_row { status = confirmed })

abbrev older : List Row
older = record claim_row { kind = fill_spot; amount = 1000000; status = confirmed } ∷ []

abbrev standard : SpotRow
standard = record { spot_id = 3; status = published; is_prizedraw = false }

abbrev paid_db : Db
paid_db = record db { rows = newer ++ older }

long : max_limit ≤ length (filter (λ t. is_at t.spot_id 3) newer)
long = omega arith

no_deposit_seen :
    any (λ t. is_kind fill_spot t && is_in confirmed t) (transactions_of 3 newer) ≡ false
unfolding transactions_of
no_deposit_seen = refl

leg_seen : any is_cancellation (transactions_of 3 newer) ≡ true
unfolding transactions_of
leg_seen = refl

no_leg_open : any (λ t. is_cancellation t && is_in pending t) (transactions_of 3 newer) ≡ false
unfolding transactions_of
no_leg_open = refl

spot_stands : spot_of paid_db.spots 3 ≡ some standard
unfolding spot_of
spot_stands = refl

finalize_cancelled_spot_if_ready-window_example :
    finalize_cancelled_spot_if_ready (some 3) paid_db
    ≡ record paid_db { spots = set_spot_status 3 cancelled paid_db.spots }
finalize_cancelled_spot_if_ready-window_example =
    finalize_cancelled_spot_if_ready-window 3 paid_db standard newer older refl long no_deposit_seen
      leg_seen no_leg_open spot_stands refl refl
