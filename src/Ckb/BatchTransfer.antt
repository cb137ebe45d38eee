-- ===== src/Ckb/BatchTransfer.antt =====
-- packages/ckb/src/rgbpp/btc-transfer.ts: `genBtcBatchTransferCkbVirtualTx`, to several receivers.
-- `getCells` and the JSON of cell deps that is fetched are parameters.
pub mod Bound
use rgbpp_sdk.Common.{
  ℕ, suc, ◌+◌, ◌-◌, Bool, true, not, Option, some, List, [], ◌∷◌, ◌++◌, map, length, ltb, ◌==◌,
  if◌then◌else◌, String, none,
}
use rgbpp_sdk.Common.Int.{ℤ, pos, negsuc}
use rgbpp_sdk.Ckb.Error.{
  CkbError, CkbResult, ok, ◌>>=◌, ◌>>◌, throw_if, no_rgbpp_live_cell, type_asset_not_supported,
}
use rgbpp_sdk.Ckb.Types.{
  Hex, Script, Dep, CellOutput, IndexerCell, RawTx, BtcTestnetType, CellQuery,
}
use rgbpp_sdk.Ckb.Constants.{get_secp256k1_cell_dep}
use rgbpp_sdk.Ckb.Codec.{u128_to_le}
use rgbpp_sdk.Ckb.Scripts.{
  CkbWorld, build_pre_lock_args, gen_rgbpp_lock_script, sort_cells, is_udt_type_supported,
  is_offline_mode, throw_error_when_tx_inputs_exceeded,
}
use rgbpp_sdk.Ckb.Capacity.{calculate_rgbpp_cell_capacity}
use rgbpp_sdk.Ckb.CellDeps.{CellDepsObject, given_or, udt_cell_deps}
use rgbpp_sdk.Ckb.Collector.{Collected, collect_udt_inputs}
use rgbpp_sdk.Ckb.Commitment.{calculate_commitment}
use rgbpp_sdk.Ckb.Transfer.{witnesses_of}

pub record AddressReceiver : Type 0 where
  pub to_btc_address : String
  pub transfer_amount : ℕ

pub record BatchTransferProps : Type 0 where
  pub xudt_type_bytes : Hex
  pub rgbpp_lock_args_list : List Hex
  pub rgbpp_receivers : List AddressReceiver
  pub is_mainnet : Bool
  pub btc_testnet_type : BtcTestnetType
  pub vendor_cell_deps : Option CellDepsObject

-- No paymaster cell is needed. The index of the change is -1 where there is none.
pub record BatchTransferTx : Type 0 where
  pub tx : RawTx
  pub commitment : Hex
  pub rgbpp_change_out_index : ℤ
  pub sum_inputs_capacity : ℕ

unfoldable pub total_transfer : List AddressReceiver → ℕ
total_transfer [] = 0
total_transfer (r ∷ rs) = r.transfer_amount + total_transfer rs

-- An output for each amount, bound to the outputs of the Bitcoin transaction from the given one on.
unfoldable pub token_outputs : BatchTransferProps → Script → ℕ → List ℕ → List (CellOutput × Hex)
token_outputs p xudt vout [] = []
token_outputs p xudt vout (amount ∷ amounts) =
    (
      record {
        capacity = calculate_rgbpp_cell_capacity (some xudt);
        lock = gen_rgbpp_lock_script (build_pre_lock_args vout) p.is_mainnet p.btc_testnet_type;
        type_script = some xudt;
      },
      u128_to_le amount,
    )
    ∷ token_outputs p xudt (suc vout) amounts

-- The change, at the last position, if more was collected than is sent.
unfoldable pub change_part : BatchTransferProps → Script → ℕ → Collected → List (CellOutput × Hex)
change_part p xudt sent r =
    if ltb sent r.sum_amount
    then token_outputs p xudt (length p.rgbpp_receivers + 1) ((r.sum_amount - sent) ∷ [])
    else []

module _ (w : CkbWorld) (get_cells : CellQuery → CkbResult (List IndexerCell))
    (fetched : Option CellDepsObject) where
  -- The lock arguments are taken as they are given, one after another.
  unfoldable pub cells_of_type :
      BatchTransferProps → Script → List Hex → CkbResult (List IndexerCell)
  cells_of_type p xudt [] = ok []
  cells_of_type p xudt (args ∷ list) = do
    cells ← get_cells (record {
      lock = gen_rgbpp_lock_script args p.is_mainnet p.btc_testnet_type;
      type_script = some xudt;
      is_data_must_be_empty = true;
      output_capacity_range = none;
    })
    throw_if (length cells == 0) CkbError.no_rgbpp_live_cell
    rest ← cells_of_type p xudt list
    ok (cells ++ rest)

  unfoldable pub gen_btc_batch_transfer_ckb_virtual_tx :
      BatchTransferProps → CkbResult BatchTransferTx
  gen_btc_batch_transfer_ckb_virtual_tx p = do
    let xudt = w.unpack_script p.xudt_type_bytes
    throw_if (not (is_udt_type_supported w xudt p.is_mainnet (is_offline_mode p.vendor_cell_deps)))
        CkbError.type_asset_not_supported
    found ← cells_of_type p xudt p.rgbpp_lock_args_list
    let cells = sort_cells found
    let sent = total_transfer p.rgbpp_receivers
    r ← collect_udt_inputs cells sent
    throw_error_when_tx_inputs_exceeded (length r.inputs)
    let outputs =
        token_outputs p xudt 1 (map (λ a. a.transfer_amount) p.rgbpp_receivers)
        ++ change_part p xudt sent r
    deps ←
        udt_cell_deps w true p.is_mainnet p.btc_testnet_type xudt
          (given_or p.vendor_cell_deps fetched)
    commitment ← calculate_commitment w (record { inputs = r.inputs; outputs = outputs })
    ok (record {
      tx = record {
        cell_deps = deps ++ some (get_secp256k1_cell_dep p.is_mainnet) ∷ [];
        inputs = r.inputs;
        outputs = map (λ o. o.0) outputs;
        outputs_data = map (λ o. o.1) outputs;
        witnesses = witnesses_of [] cells;
      };
      commitment = commitment;
      rgbpp_change_out_index =
          if ltb sent r.sum_amount then pos (length p.rgbpp_receivers + 1) else negsuc 0;
      sum_inputs_capacity = r.sum_inputs_capacity;
    })
