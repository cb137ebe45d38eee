-- ===== src/Btc.antt =====
-- packages/btc: the BTC transaction builder and the APIs on top of it.
pub mod Error
pub mod Types
pub mod Utils
pub mod Embed
pub mod Utxos
pub mod Cache
pub mod Source
pub mod Builder
pub mod Api
mod Tests
mod RgbppTests
