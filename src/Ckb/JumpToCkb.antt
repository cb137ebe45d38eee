-- ===== src/Ckb/JumpToCkb.antt =====
-- packages/ckb/src/rgbpp/btc-jump-ckb.ts: `genBtcJumpCkbVirtualTx`, which shares most of its steps
-- with the transfer. The cells of each lock and the JSON of cell deps are parameters.
pub mod Settled
use rgbpp_sdk.Common.{
  ℕ, ◌-◌, Bool, true, not, Option, some, List, [], ◌∷◌, ◌++◌, length, ltb, if◌then◌else◌,
}
use rgbpp_sdk.Ckb.Error.{CkbError, CkbResult, ok, ◌>>=◌, ◌>>◌, throw_if}
use rgbpp_sdk.Ckb.Types.{Hex, Script, CellOutput, IndexerCell, Address}
use rgbpp_sdk.Ckb.Codec.{u128_to_le}
use rgbpp_sdk.Ckb.Scripts.{
  CkbWorld, gen_btc_time_lock_script, deduplicate_list, throw_error_when_tx_inputs_exceeded,
  is_udt_type_supported,
}
use rgbpp_sdk.Ckb.Capacity.{
  calculate_cell_occupied_capacity, calculate_rgbpp_cell_capacity, is_lock_args_size_exceeded,
  is_rgbpp_capacity_sufficient_for_change,
}
use rgbpp_sdk.Ckb.CellDeps.{CellDepsObject, udt_cell_deps}
use rgbpp_sdk.Ckb.Collector.{Collected, collect_udt_inputs}
use rgbpp_sdk.Ckb.Transfer.{
  TransferProps, Draft, VirtualTx, Cells, sorted, handle_others, udt_output, first_cell,
  witnesses_of, gather_cells, deps_of, finish,
}

-- The properties of a transfer, with the receiver; the network is read off the address.
pub record JumpToCkbProps : Type 0 where
  pub transfer : TransferProps
  pub to_ckb_address : Address
  pub btc_confirmation_blocks : Option ℕ

unfoldable pub base_of : JumpToCkbProps → TransferProps
base_of p = record p.transfer { is_mainnet = p.to_ckb_address.is_mainnet }

module _ (w : CkbWorld) where
  -- The receiver's cell, with a BTC time lock.
  unfoldable pub time_output : JumpToCkbProps → Script → ℕ → CellOutput × Hex
  time_output p xudt capacity = (
    record {
      capacity = capacity;
      lock =
          gen_btc_time_lock_script w p.to_ckb_address.lock p.to_ckb_address.is_mainnet
            p.transfer.btc_testnet_type p.btc_confirmation_blocks;
      type_script = some xudt;
    },
    u128_to_le p.transfer.transfer_amount,
  )

  unfoldable pub min_time_capacity : JumpToCkbProps → Script → ℕ
  min_time_capacity p xudt =
      let (o, bytes) = time_output p xudt 0 in calculate_cell_occupied_capacity o bytes

  unfoldable pub time_capacity : JumpToCkbProps → Script → ℕ → ℕ
  time_capacity p xudt given =
      if ltb (min_time_capacity p xudt) given
      then given
      else calculate_rgbpp_cell_capacity (some xudt)

  -- With a change of the token, which is bound to the first output of the Bitcoin transaction after
  -- the commitment.
  unfoldable pub jump_with_change : JumpToCkbProps → Script → IndexerCell → Collected → Draft
  jump_with_change p xudt first r =
      let receiver = time_capacity p xudt first.output.capacity in
      let sufficient = is_rgbpp_capacity_sufficient_for_change r.sum_inputs_capacity receiver in
      let change =
        if sufficient
        then r.sum_inputs_capacity - receiver
        else calculate_rgbpp_cell_capacity (some xudt) in
      record {
        inputs = r.inputs;
        sum_inputs_capacity = r.sum_inputs_capacity;
        outputs =
            time_output p xudt receiver
            ∷ udt_output (base_of p) xudt 1 change (r.sum_amount - p.transfer.transfer_amount)
            ∷ [];
        need_paymaster_cell = not sufficient;
      }

  unfoldable pub jump_without_change : JumpToCkbProps → Script → Collected → Draft
  jump_without_change p xudt r =
      let receiver = time_capacity p xudt r.sum_inputs_capacity in
      record {
        inputs = r.inputs;
        sum_inputs_capacity = r.sum_inputs_capacity;
        outputs = time_output p xudt receiver ∷ [];
        need_paymaster_cell = ltb r.sum_inputs_capacity receiver;
      }

  -- What the collection of the token's cells comes to, before the other cells are added.
  unfoldable pub jump_targets : JumpToCkbProps → Script → List IndexerCell → CkbResult Draft
  jump_targets p xudt targets = do
    r ← collect_udt_inputs targets p.transfer.transfer_amount
    throw_error_when_tx_inputs_exceeded (length r.inputs)
    throw_if (is_lock_args_size_exceeded p.to_ckb_address.lock.args) CkbError.plain_error
    (if ltb p.transfer.transfer_amount r.sum_amount
        then (do first ← first_cell targets; ok (jump_with_change p xudt first r))
        else ok (jump_without_change p xudt r))

module _ (w : CkbWorld) (cells_of : Script → List IndexerCell)
    (object : Option CellDepsObject) where
  unfoldable pub gen_btc_jump_ckb_virtual_tx : JumpToCkbProps → CkbResult VirtualTx
  gen_btc_jump_ckb_virtual_tx p = do
    let base = base_of p
    let xudt = w.unpack_script base.xudt_type_bytes
    throw_if (not (is_udt_type_supported w xudt base.is_mainnet base.is_offline))
        CkbError.type_asset_not_supported
    gathered ← gather_cells w cells_of object base (deduplicate_list base.rgbpp_lock_args_list)
    let cells = sorted gathered
    targets ← jump_targets w p xudt cells.targets
    let d = handle_others base (length targets.outputs) cells.others targets
    deps ← udt_cell_deps w true base.is_mainnet base.btc_testnet_type xudt object
    finish w cells_of object base d (deps_of w cells_of object base d deps)
        (witnesses_of [] (cells.targets ++ cells.others))
