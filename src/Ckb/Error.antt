-- ===== src/Ckb/Error.antt =====
-- packages/ckb/src/error/index.ts: the errors that are thrown, by their classes.
pub use rgbpp_sdk.Common.Outcome.{
  ok, err, ◌>>=◌, ◌>>◌, throw_if, >>=-eq-ok, throw_if-eq-ok, ok-injective,
}
use rgbpp_sdk.Common.Outcome.{Outcome}

-- `plain_error` is an Error of JavaScript itself.
pub data CkbError : Type 0 where
  capacity_not_enough indexer no_live_cell no_xudt_live_cell no_rgbpp_live_cell : CkbError
  udt_amount_not_enough inputs_capacity_not_enough type_asset_not_supported : CkbError
  inputs_or_outputs_len rgbpp_ckb_tx_inputs_exceeded rgbpp_utxo_bind_multi_type_assets : CkbError
  rgbpp_spore_type_mismatch invalid_cell_id plain_error : CkbError

abbrev pub CkbResult : Type 0 → Type 0
CkbResult A = Outcome CkbError A
