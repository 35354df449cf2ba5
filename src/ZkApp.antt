-- ===== src/ZkApp.antt =====
-- mina-tx/src/transactions/zkapp_tx.rs and zkapp_tx/: zkApp commands, what of them is hashed, and
-- where the signature goes.
pub mod Types
pub mod FeePayer
pub mod Forest
pub mod Hash
pub mod Packing
pub mod Commit
pub mod Inject
pub mod Json
pub mod Samples
mod Tests
