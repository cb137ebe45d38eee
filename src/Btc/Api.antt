-- ===== src/Btc/Api.antt =====
-- packages/btc/src/api: the calls that make a whole transaction.
pub mod SendUtxos
pub mod SendBtc
pub mod SendRbf
pub mod SendRgbppUtxos
