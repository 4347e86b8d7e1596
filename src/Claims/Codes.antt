-- ===== src/Claims/Codes.antt =====
-- One-time codes over any history (claim_code_policy.py): a claim that has succeeded at a Spot with
-- codes holds a code of that Spot, and so no more claims succeed there than it has codes.
pub mod Held
pub mod Enough
use nim_hunt.Prelude.{ℕ, ◌≡◌, Bool, true, some, any}
use nim_hunt.Outbox.Store.{claim_success}
use nim_hunt.Claims.{SpotRecord, ClaimRecord, ClaimStore, Setting}
use nim_hunt.Claims.Rows.{is_in, spot_with}
use nim_hunt.Claims.Moves.{holds}

-- What a claim is owed: if it has succeeded at a Spot with codes, one of the codes.
abbrev pub IsCovered : Setting → ClaimStore → ClaimRecord → Type 0
IsCovered w st c =
    is_in claim_success c ≡ true
    → (s : SpotRecord) → spot_with c.spot_id w.spots ≡ some s
    → s.use_password ≡ true
    → any (holds c) st.codes ≡ true
