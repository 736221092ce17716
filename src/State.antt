-- ===== src/State.antt =====
-- internal/state: the key-value store, its keys, and what the nonces and parameters keep in it.
pub mod Engine
pub mod View
pub mod Keys
pub mod Nonce
pub mod Params
