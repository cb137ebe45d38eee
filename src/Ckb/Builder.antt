-- ===== src/Ckb/Builder.antt =====
-- packages/ckb/src/rgbpp/ckb-builder.ts: the witnesses, the paymaster's cell and the real Bitcoin
-- transaction id. Signing and sending are left to the CKB SDK.
use rgbpp_sdk.Ckb.Capacity.{calculate_transaction_fee}
use rgbpp_sdk.Ckb.Constants.{
  get_rgbpp_lock_script, min_capacity, rgbpp_witness_placeholder, secp256k1_witness_lock_size,
}
use rgbpp_sdk.Ckb.Error.{CkbError, CkbResult}
use rgbpp_sdk.Ckb.IssuerCell.{ToSign, sum_outputs, with_change_cell}
use rgbpp_sdk.Ckb.Scripts.{
  CkbWorld, hex_eq, is_rgbpp_lock_or_btc_time_lock, replace_lock_args_with_real_btc_tx_id,
}
use rgbpp_sdk.Ckb.Types.{
  CellOutput, Dep, Hex, IndexerCell, OutPoint, RawTx, Script, code_dep, empty_witness, hex_witness,
  testnet3,
}
use rgbpp_sdk.Common.{
  Bool, List, Option, [], drop, if◌then◌else◌, leb, length, map, some, take, ℕ, ◌%◌, ◌++◌, ◌+◌, ◌∷◌,
}
use rgbpp_sdk.Common.Int.{pos, ◌-ℤ◌}
use rgbpp_sdk.Common.Outcome.{ok, throw_if, ◌>>=◌, ◌>>◌}

unfoldable pub build_rgbpp_unlock_witness : CkbWorld → Hex → Hex → ℕ → ℕ → Hex
build_rgbpp_unlock_witness w btc_tx proof inputs_len outputs_len =
    w.pack_rgbpp_unlock (inputs_len % 256) (outputs_len % 256) btc_tx proof

-- Each placeholder becomes the witness.
unfoldable pub fill_witness : Hex → Hex → Hex
fill_witness filled witness = if hex_eq witness rgbpp_witness_placeholder then filled else witness

unfoldable pub build_spv_client_cell_dep : OutPoint → Dep
build_spv_client_cell_dep spv_client = some (record { out_point = spv_client; dep_type = code_dep })

-- The SPV client's cell and the proof are given.
unfoldable pub append_ckb_tx_witnesses : CkbWorld → RawTx → Hex → OutPoint → Hex → RawTx
append_ckb_tx_witnesses w tx btc_tx spv_client proof =
    let unlock = build_rgbpp_unlock_witness w btc_tx proof (length tx.inputs) (length tx.outputs) in
    record tx {
      cell_deps = tx.cell_deps ++ build_spv_client_cell_dep spv_client ∷ [];
      witnesses = map (fill_witness (w.serialize_witness_lock unlock)) tx.witnesses;
    }

-- A lock for each input: the paymaster's for the last one, else the RGB++ lock of Testnet3 or of the
-- mainnet.
unfoldable pub locks_but_last : Bool → Script → List OutPoint → List (OutPoint × Script)
locks_but_last is_mainnet last [] = []
locks_but_last is_mainnet last (i ∷ []) = (i, last) ∷ []
locks_but_last is_mainnet last (i ∷ i' ∷ is) =
    (i, get_rgbpp_lock_script is_mainnet testnet3) ∷ locks_but_last is_mainnet last (i' ∷ is)

-- The transaction with the paymaster's input, its change and its witness.
unfoldable pub covered : CkbWorld → RawTx → ℕ → IndexerCell → Bool → Option ℕ → ToSign
covered w tx sum_inputs paymaster is_mainnet rate =
    let n = length tx.inputs in
    let lock = paymaster.output.lock in
    let inputs_capacity = sum_inputs + paymaster.output.capacity in
    let funded = record tx { inputs = tx.inputs ++ paymaster.out_point ∷ [] } in
    let before = pos inputs_capacity -ℤ pos (sum_outputs tx.outputs) in
    let size =
      w.transaction_size (with_change_cell lock before funded) + secp256k1_witness_lock_size in
    let change = before -ℤ pos (calculate_transaction_fee size rate) in
    let paid = with_change_cell lock change funded in
    record {
      tx = record {
        cell_deps = paid.cell_deps;
        inputs = paid.inputs;
        outputs = paid.outputs;
        outputs_data = paid.outputs_data;
        witnesses =
            map hex_witness (take n tx.witnesses)
            ++ (empty_witness ∷ map hex_witness (drop n tx.witnesses));
      };
      change = change;
      input_cells = locks_but_last is_mainnet lock paid.inputs;
    }

-- `appendPaymasterCellAndSignCkbTx` up to the signature.
unfoldable pub append_paymaster_cell :
    CkbWorld → RawTx → ℕ → IndexerCell → Bool → Option ℕ → CkbResult ToSign
append_paymaster_cell w tx sum_inputs paymaster is_mainnet rate = do
  throw_if (leb (sum_inputs + paymaster.output.capacity) (sum_outputs tx.outputs + min_capacity))
      CkbError.inputs_capacity_not_enough
  ok (covered w tx sum_inputs paymaster is_mainnet rate)

unfoldable pub with_real_id : Hex → Bool → List CellOutput → CkbResult (List CellOutput)
with_real_id tx_id is_mainnet [] = ok []
with_real_id tx_id is_mainnet (o ∷ os) = do
  let update = is_rgbpp_lock_or_btc_time_lock o.lock is_mainnet
  first ←
      (if update
        then (do
          args ← replace_lock_args_with_real_btc_tx_id o.lock.args tx_id
          ok (record o { lock = record o.lock { args = args } }))
        else ok o)
  rest ← with_real_id tx_id is_mainnet os
  ok (first ∷ rest)

unfoldable pub update_ckb_tx_with_real_btc_tx_id : RawTx → Hex → Bool → CkbResult RawTx
update_ckb_tx_with_real_btc_tx_id tx tx_id is_mainnet = do
  outputs ← with_real_id tx_id is_mainnet tx.outputs
  ok (record tx { outputs = outputs })
