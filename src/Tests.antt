-- ===== src/Tests.antt =====
-- Runs of the program at concrete inputs.
pub mod Fixtures
pub mod Chain
pub mod Modules
pub mod Slots
pub mod Escrows
pub mod Disputes
pub mod Market
pub mod Settings
pub mod Nodes
pub mod Peers
