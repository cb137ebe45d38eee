-- ===== src/Ckb.antt =====
-- packages/ckb/src: the CKB side, virtual transactions and their commitments.
pub mod Error
pub mod Types
pub mod Constants
pub mod Codec
pub mod Scripts
pub mod Capacity
pub mod CellDeps
pub mod Collector
pub mod Offline
pub mod Commitment
pub mod Bound
pub mod Transfer
pub mod BatchTransfer
pub mod IssuerCell
pub mod TokenInfo
pub mod Launch
pub mod Builder
pub mod Paymaster
pub mod BtcTime
pub mod Spore
pub mod JumpToBtc
pub mod JumpToCkb
pub mod Samples
mod Tests
mod JumpTests
