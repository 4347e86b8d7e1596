-- ===== src/Chain.antt =====
-- What the Nimiq chain says of a transaction: the RPC's JSON answers (trans_updater.py), and the
-- addresses they name (wallet.py).
pub mod Address
pub mod Python
pub mod Json
pub mod Extract
pub mod Rpc
