-- ===== src/Modules.antt =====
-- internal/modules: the protocol modules.
pub mod CapUtxo
pub mod Aap
pub mod Gov
pub mod Fiat
pub mod Arb
pub mod Amx
pub mod Weave
pub mod Node
