-- ===== src/Claims/Timeline.antt =====
-- The claim path as a system: whatever requests, refreshes, heartbeats and waits come, in any order,
-- each in its own transaction. The Spots and the bindings stand still.
use nim_hunt.Prelude.{ℕ, ◌≤◌, List, []}
use nim_hunt.Claims.{ClaimStore, CodeRecord, Setting}
use nim_hunt.Claims.Promote.{Promoted}
use nim_hunt.Claims.Attempt.{Request, Attempted, claimed, refused, raised, create_limited_attempt}
use nim_hunt.Claims.Refresh.{Verdict, Heartbeat, processed, refresh_claim_status, process_heartbeat}
use nim_hunt.Prelude.{Option, none, some}

-- What each transaction leaves in the tables.
abbrev pub after_attempt : ClaimStore → Attempted → ClaimStore
after_attempt st (claimed c t) = t
after_attempt st (refused why t) = t
after_attempt st raised = st

abbrev pub after_refresh : ClaimStore → Option Promoted → ClaimStore
after_refresh st none = st
after_refresh st (some r) = r.store

-- The route answers an unknown claim inside the transaction; nothing has changed then.
abbrev pub after_heartbeat : ClaimStore → Heartbeat → ClaimStore
after_heartbeat st (processed c t) = t
after_heartbeat st _ = st

-- No claims yet, and no code used.
unfoldable pub empty_store : List CodeRecord → ClaimStore
empty_store codes = record { next_id = 1; claims = []; codes = codes; attempts = [] }

module _ (w : Setting) where
  pub data Reach (start : ClaimStore) : (now : ℕ) → ClaimStore → Type 0 where
    here : (now : ℕ) → Reach start now start
    attempts :
        {now : ℕ} {st : ClaimStore}
        → Reach start now st
        → (r : Request) → Reach start now (after_attempt st (create_limited_attempt w r now st))
    refreshes :
        {now : ℕ} {st : ClaimStore}
        → Reach start now st
        → (id : ℕ) → Reach start now (after_refresh st (refresh_claim_status w id now st))
    beats :
        {now : ℕ} {st : ClaimStore}
        → Reach start now st
        → (id user_id : ℕ) (v : Verdict)
        → Reach start now (after_heartbeat st (process_heartbeat w id user_id v now st))
    waits :
        {now later : ℕ} {st : ClaimStore} → Reach start now st → now ≤ later → Reach start later st
