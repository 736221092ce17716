-- ===== src/Lib.antt =====
-- AACP: a chain for agents that trade capabilities, tasks and services. A block is a list of
-- transactions; each one names a module and an action, and the modules keep their records as JSON
-- in one key-value store.
--
-- The parts, and the files that model them (paths are from the root of the repository):
--
-- State.Engine: internal/state/store.go, the in-memory engine behind `Store` (get, set, delete,
-- iterate_prefix, commit). State.Keys: internal/state/keys.go. State.Nonce:
-- internal/state/nonce.go. State.Params: internal/state/params.go. State.View says what a client of
-- the store may rely on, State.Engine.Order has the lemmas on sorted entries.
--
-- Types: internal/types/errors.go, exec_result.go and tx.go (codes, results, validate_basic for
-- ValidateBasic, signable for SignBytes). Types.Money: internal/types/money.go.
--
-- App.Router: internal/router/router.go, internal/eventbus/bus.go and
-- internal/modules/common/module.go (register, execute, execute_action, end_block, init_genesis,
-- decode_payload). App.Lawful is the contract between the block loop and a module; App.Post has the
-- rules for reasoning about a handler.
--
-- App.Lifecycle: internal/abci/lifecycle.go and gas.go. `deliver_tx` is one round of the loop of
-- FinalizeBlock: `admit` is what comes before the router, `settle` what comes after it;
-- `finalize_block`, `init_chain`, `prepare_proposal`, `process_proposal` and `query` are the
-- methods of the same names. A run-time panic of a handler, from which nothing recovers, ends
-- `deliver_txs` and `finalize_block` as the error `panic`.
--
-- App.Records is for the modules that keep records of one kind, each under a key of its own: a
-- `Kind` has the encoding, the keys and the moves that a record may make; App.Records.Leaves is for
-- actions that write no record of a kind; App.Records.Journeys follows one record through a run of
-- transactions. App.Failing is for results computed without the store.
--
-- Modules.CapUtxo, Modules.Aap, Modules.Gov, Modules.Weave, Modules.Fiat, Modules.Arb, Modules.Amx,
-- Modules.Node: internal/modules/caputxo, aap, gov, weave, fiat, arb, amx and node, module.go. A
-- handler is a do block over the store and the event bus that follows the Go code statement by
-- statement; a Go status is its string. Each has a child Data for its records and Lawful for the
-- contract of the block loop; most keep what a handler computes in Rules. Modules.Fiat.Amounts has
-- the arithmetic on decimal strings, Modules.Arb.Votes the count of votes, Modules.Amx.Matching the
-- candidates of a request and their ranking, Modules.Node.Rules those of an election. A sort of Go
-- is an insertion sort by the same comparison.
--
-- P2p: internal/p2p/message.go and ratelimit.go (sign_bytes, message_id, verify_message,
-- limit_for).
--
-- How they interact: `finalize_block` runs `execute` of the router for each admitted transaction,
-- the router looks up the module, the module its handler; then `end_block` of every module; then
-- the store is committed. A handler that fails keeps what it wrote, as in the code.
--
-- Conventions. A world is the store and the event bus that a `Context` points to. An error is a
-- code (`AppError`) or plain. A Go map is an association list with one entry for each key, in any
-- order. An int64 is an integer of Prelude.Int, with its wrap-around written out in add64 and
-- sub64; unsigned integers are natural numbers with `% 2 ^ w` where the code adds. Locks make each
-- method one step.
--
-- Parameters (Codec): the contents of a byte slice (`Raw`), SHA-256 and Ed25519, JSON for each
-- type, package strings, and in Types.Money the rational numbers of math/big, and in
-- Modules.Node.Data the float64 numbers. Laws that a theorem needs of them are its hypotheses:
-- `WireLaw` (a slice has the bytes it was made of) and `JsonLaw` (what was encoded is decoded to
-- the same value), `ProposalLaw` of Modules.Gov.Once (the same for a proposal, with its map of
-- votes in any order), and `CompareLaw` of Modules.Amx.Best (Cmp of math/big is an order).
--
-- Bounds and fuel. `decimal` has 20 digits and `hex_number` 16, enough for a uint64. `cascade` of
-- Modules.CapUtxo has one call of depth for each entry of the store and one more: a call marks an
-- unspent capability before it goes deeper. `visit` of Modules.Weave.Validate has one round for
-- each node and each edge and one more: a node enters the queue when its number of incoming edges
-- becomes 0. That the last two are enough is not proved here.
--
-- Not modelled: the IAVL engine and the Comet adapter (build tags, libraries outside the
-- repository), the servers and commands, and the modules rep and afd. The text of log messages and
-- errors is left out. In fiat, CalculateCommissionRate and CommissionBPS, which compute in binary
-- floating point and which no handler calls; in node, DeriveNodeAddress, which nothing calls.
pub mod Prelude
pub mod Exec
pub mod Codec
pub mod State
pub mod Types
pub mod App
pub mod Modules
pub mod P2p
pub mod Tests
