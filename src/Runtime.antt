-- ===== src/Runtime.antt =====
-- The parachain runtime (runtime/src), a module for each part of it.
pub mod Units
pub mod Weights
pub mod Fees
pub mod BlockWeights
pub mod Pallets
pub mod Xcm
pub mod Genesis
pub mod Governance
pub mod Apis
pub mod Benchmarks
pub mod Configs
pub mod Extrinsics
pub mod Transact
pub mod Capacity
pub mod FullBlock
pub mod Privileges
pub mod BlockLength
pub mod Queues
pub mod Chain
pub mod Network
mod Tests
