-- ===== src/Ckb/JumpToBtc/Single.antt =====
-- packages/ckb/src/rgbpp/ckb-jump-btc.ts: the jump of tokens from CKB to BTC, of one receiver.
-- `getCells` and the JSON of cell deps that is fetched are parameters.
use rgbpp_sdk.Common.{
  ℕ, ◌+◌, true, false, not, Option, none, some, List, [], ◌∷◌, ◌++◌, keep, length, ltb, ◌==◌,
  if◌then◌else◌, or_else,
}
use rgbpp_sdk.Common.Int.{pos, ◌+ℤ◌, ◌-ℤ◌}
use rgbpp_sdk.Ckb.Error.{CkbError, CkbResult, ok, ◌>>=◌, ◌>>◌, throw_if}
use rgbpp_sdk.Ckb.Types.{Hex, Script, IndexerCell, BtcTestnetType, Address, CellQuery}
use rgbpp_sdk.Ckb.Constants.{max_fee, min_capacity, rgbpp_tx_witness_max_size}
use rgbpp_sdk.Ckb.Scripts.{CkbWorld, is_type_asset_supported, is_offline_mode}
use rgbpp_sdk.Ckb.Capacity.{
  calculate_transaction_fee, calculate_rgbpp_cell_capacity, calculate_udt_cell_capacity,
}
use rgbpp_sdk.Ckb.CellDeps.{CellDepsObject, given_or, udt_cell_deps}
use rgbpp_sdk.Ckb.Collector.{Collected, collect_inputs, collect_udt_inputs}
use rgbpp_sdk.Ckb.JumpToBtc.{
  Receiver, JumpTx, has_no_type, jumped_output, udt_change, change_capacity, change_output, jump_tx,
}

pub record JumpProps : Type 0 where
  pub xudt_type_bytes : Hex
  pub from_address : Address
  pub to_rgbpp_lock_args : Hex
  pub transfer_amount : ℕ
  pub witness_lock_placeholder_size : Option ℕ
  pub ckb_fee_rate : Option ℕ
  pub btc_testnet_type : BtcTestnetType
  pub vendor_cell_deps : Option CellDepsObject

module _ (w : CkbWorld) (get_cells : CellQuery → CkbResult (List IndexerCell))
    (fetched : Option CellDepsObject) where
  -- More cells, without a type, where the tokens' cells may not suffice.
  unfoldable pub fund_one : Script → Script → Collected → CkbResult Collected
  fund_one from_lock xudt collected = do
    let enough =
        calculate_udt_cell_capacity from_lock (some xudt)
        + calculate_rgbpp_cell_capacity (some xudt)
        + min_capacity
        + max_fee
    (if ltb collected.sum_inputs_capacity enough
        then (do
          cells ← get_cells (record {
            lock = from_lock;
            type_script = none;
            is_data_must_be_empty = true;
            output_capacity_range = none;
          })
          throw_if (length cells == 0) CkbError.no_live_cell
          more ←
              collect_inputs (keep has_no_type cells) (calculate_rgbpp_cell_capacity (some xudt))
                max_fee none
          ok (record {
            inputs = more.inputs ++ collected.inputs;
            sum_inputs_capacity = collected.sum_inputs_capacity + more.sum_inputs_capacity;
            sum_amount = collected.sum_amount;
          }))
        else ok collected)

  -- The receiver's output, the changes, the cell deps and the fee.
  unfoldable pub complete_one : JumpProps → Script → Collected → CkbResult JumpTx
  complete_one p xudt r = do
    let a = p.from_address
    let receiver : Receiver = record {
      to_rgbpp_lock_args = p.to_rgbpp_lock_args;
      transfer_amount = p.transfer_amount;
    }
    let before =
        change_capacity a.lock xudt r (calculate_rgbpp_cell_capacity (some xudt)) p.transfer_amount
    let fixed_outputs =
        jumped_output a p.btc_testnet_type xudt receiver
        ∷ udt_change a.lock xudt r.sum_amount p.transfer_amount
    deps ←
        udt_cell_deps w false a.is_mainnet p.btc_testnet_type xudt
          (given_or p.vendor_cell_deps fetched)
    let draft =
        jump_tx w get_cells fetched deps r (fixed_outputs ++ change_output a.lock before ∷ [])
    let fee =
        calculate_transaction_fee
          (w.transaction_size draft
            + or_else p.witness_lock_placeholder_size rgbpp_tx_witness_max_size)
          p.ckb_fee_rate
    let change = before +ℤ (pos max_fee -ℤ pos fee)
    ok (record {
      tx = jump_tx w get_cells fetched deps r (fixed_outputs ++ change_output a.lock change ∷ []);
      sum_inputs_capacity = r.sum_inputs_capacity;
      estimated_fee = fee;
      change = change;
    })

  unfoldable pub gen_ckb_jump_btc_virtual_tx : JumpProps → CkbResult JumpTx
  gen_ckb_jump_btc_virtual_tx p = do
    let a = p.from_address
    let xudt = w.unpack_script p.xudt_type_bytes
    throw_if
        (not (is_type_asset_supported w xudt a.is_mainnet (is_offline_mode p.vendor_cell_deps)))
        CkbError.type_asset_not_supported
    cells ← get_cells (record {
      lock = a.lock;
      type_script = some xudt;
      is_data_must_be_empty = true;
      output_capacity_range = none;
    })
    throw_if (length cells == 0) CkbError.no_xudt_live_cell
    collected ← collect_udt_inputs cells p.transfer_amount
    r ← fund_one a.lock xudt collected
    complete_one p xudt r
