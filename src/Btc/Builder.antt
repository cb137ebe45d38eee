-- ===== src/Btc/Builder.antt =====
-- packages/btc/src/transaction/build.ts: the builder's inputs, outputs and totals. Its children
-- model the collection of satoshi, the return of change and the payment of the fee.
pub mod Outputs
pub mod Deduct
pub mod Inject
pub mod Fee
pub mod Totals
pub mod Surplus
pub mod FeeBounds
pub mod Steps
pub mod Kept
pub mod NoDust
pub mod Distinct
pub mod FeeSteps
pub mod Added
pub mod Termination
pub mod FeeEnds
