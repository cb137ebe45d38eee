-- ===== src/Btc/Error.antt =====
-- packages/btc/src/error.ts: the error codes, and results that carry one.
-- The comment strings of the errors are left out.
pub use rgbpp_sdk.Common.Outcome.{
  ok, err, out_of_fuel, ◌>>=◌, ◌>>◌, throw_if, >>=-eq-ok, throw_if-eq-ok, err-ne-ok, ok-injective,
}
use rgbpp_sdk.Common.Outcome.{Outcome}

pub data ErrorCode : Type 0 where
  unknown missing_pubkey cannot_find_utxo unconfirmed_utxo insufficient_utxo : ErrorCode
  referenced_unprovable_utxo unspendable_output duplicated_utxo dust_output : ErrorCode
  unsupported_output invalid_change_output unsupported_network_type : ErrorCode
  unsupported_address_type unsupported_op_return_script invalid_fee_rate : ErrorCode
  paymaster_mismatch invalid_utxo_id ckb_cannot_find_outpoint ckb_invalid_cell_lock : ErrorCode
  ckb_invalid_inputs ckb_invalid_outputs ckb_unmatched_commitment : ErrorCode
  mempool_api_response_error : ErrorCode

abbrev pub Result : Type 0 → Type 0
Result A = Outcome ErrorCode A
