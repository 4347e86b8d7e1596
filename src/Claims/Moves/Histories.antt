-- ===== src/Claims/Moves/Histories.antt =====
-- What every move keeps holds in every history.
use nim_hunt.Prelude.{ℕ, ◌≤◌}
use nim_hunt.Claims.{ClaimStore, Setting}
use nim_hunt.Claims.Timeline.{Reach, here, attempts, refreshes, beats, waits}
use nim_hunt.Claims.Moves.{Move, Moves, still, then_}
use nim_hunt.Claims.Moves.Runs.{refresh-Moves, heartbeat-Moves}
use nim_hunt.Claims.Moves.Attempts.{attempt-Moves}

module _ (w : Setting) (P : ℕ → ClaimStore → Type 0)
    (keep : (now : ℕ) (s t : ClaimStore) → Move w now s t → P now s → P now t) where
  Moves-keep : {now : ℕ} {s t : ClaimStore} → Moves w now s t → P now s → P now t
  Moves-keep still h = h
  Moves-keep (then_ {st} {t} m x) h = keep _ st t x (Moves-keep m h)

  pub Reach-keeps :
      ((now later : ℕ) (s : ClaimStore) → now ≤ later → P now s → P later s)
      → (start : ClaimStore) → ((now : ℕ) → P now start)
      → {now : ℕ} {st : ClaimStore} → Reach w start now st
      → P now st
  Reach-keeps wait_ start h (here now) = h now
  Reach-keeps wait_ start h (attempts {now} {st} r req) =
      Moves-keep (attempt-Moves w now st req) (Reach-keeps wait_ start h r)
  Reach-keeps wait_ start h (refreshes {now} {st} r id) =
      Moves-keep (refresh-Moves w now st id) (Reach-keeps wait_ start h r)
  Reach-keeps wait_ start h (beats {now} {st} r id user_id v) =
      Moves-keep (heartbeat-Moves w now st id user_id v) (Reach-keeps wait_ start h r)
  Reach-keeps wait_ start h (waits {now} {later} {st} r le) =
      wait_ now later st le (Reach-keeps wait_ start h r)
