-- ===== src/Sdk.antt =====
-- What the repository's code takes of the Polkadot SDK, as records of operations with the laws that
-- their documentation states, and as the data types whose constructors the code writes or matches.
pub mod Numbers
pub mod Xcm
pub mod Keyring
pub mod Samples
