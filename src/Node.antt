-- ===== src/Node.antt =====
-- The collator's node (node/src), a module for each of its files, over the effects that it has on
-- the SDK.
pub mod ChainSpec
pub mod Cli
pub mod Command
pub mod Effects
pub mod Invariants
pub mod Plans
pub mod Rpc
pub mod Service
