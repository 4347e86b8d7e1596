-- ===== src/Http.antt =====
-- The boundary where requests come in (request_body_limit.py, claim_http.py).
pub mod BodyLimit
