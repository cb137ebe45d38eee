-- ===== src/Ckb/Spore/Move.antt =====
-- packages/ckb/src/spore/spore.ts and leap.ts: the transfer of a spore and its leaps between the
-- chains.
use rgbpp_sdk.Ckb.BtcTime.{unlock_cells, unlocked_output}
use rgbpp_sdk.Ckb.Capacity.{calculate_cell_occupied_capacity, calculate_transaction_fee}
use rgbpp_sdk.Ckb.CellDeps.{CellDepsObject, fetch_type_id_cell_deps, given_or, nothing_selected}
use rgbpp_sdk.Ckb.Commitment.{calculate_commitment}
use rgbpp_sdk.Ckb.Constants.{get_secp256k1_cell_dep, get_spore_type_dep, rgbpp_tx_witness_max_size}
use rgbpp_sdk.Ckb.Error.{CkbResult}
use rgbpp_sdk.Ckb.Scripts.{
  CkbWorld, build_pre_lock_args, gen_btc_time_lock_script, gen_rgbpp_lock_script, sort_cells,
}
use rgbpp_sdk.Ckb.Spore.{
  SporeWorld, calculate_rgbpp_spore_cell_capacity, cells_at_lock, generate_spore_transfer_co_build,
  only_spore_cell,
}
use rgbpp_sdk.Ckb.Spore.Create.{first_rgbpp_cell, spore_raw_tx}
use rgbpp_sdk.Ckb.Types.{
  BtcTestnetType, CellOutput, CellQuery, Dep, Hex, IndexerCell, OutPoint, RawTx, Script,
}
use rgbpp_sdk.Common.{
  Bool, List, Option, [], false, if◌then◌else◌, leb, ltb, map, none, or_else, some, true, ℕ, ◌++◌,
  ◌+◌, ◌-◌, ◌∷◌,
}
use rgbpp_sdk.Common.Int.{pos, pos_part, ℤ, ◌-ℤ◌}
use rgbpp_sdk.Common.Outcome.{ok, ◌>>=◌}

pub record MoveProps : Type 0 where
  pub spore_rgbpp_lock_args : Hex
  pub spore_type_bytes : Hex
  pub is_mainnet : Bool
  pub btc_testnet_type : BtcTestnetType
  pub witness_lock_placeholder_size : Option ℕ
  pub ckb_fee_rate : Option ℕ
  pub vendor_cell_deps : Option CellDepsObject

pub record SporeTx : Type 0 where
  pub tx : RawTx
  pub commitment : Hex
  pub spore_cell : IndexerCell
  pub need_paymaster_cell : Bool

-- The cell as it leaves the transaction: where its capacity is no more than what it occupies, it is
-- given anew, and a paymaster has to pay for it.
unfoldable pub restored : SporeWorld → CellOutput → Hex → CellOutput × Bool
restored s output spore =
    if leb output.capacity (calculate_cell_occupied_capacity output spore)
    then (
      record output { capacity = calculate_rgbpp_spore_cell_capacity (s.repack_spore spore) },
      true,
    )
    else (output, false)

-- `adjustVirtualTxForTxFee` with one output, where no paymaster is needed yet.
unfoldable pub adjust_spore :
    CkbWorld → MoveProps → Bool → RawTx → CellOutput → Hex → CkbResult (CellOutput × Bool)
adjust_spore w p true draft output spore = ok (output, true)
adjust_spore w p false draft output spore =
    let fee =
      calculate_transaction_fee
        (w.transaction_size draft
          + or_else p.witness_lock_placeholder_size rgbpp_tx_witness_max_size)
        p.ckb_fee_rate in
    if ltb output.capacity (fee + calculate_cell_occupied_capacity output spore)
    then ok (output, true)
    else ok (record output { capacity = output.capacity - fee }, false)

-- The dep of the paymaster's lock.
unfoldable pub paymaster_deps : Bool → Bool → List Dep
paymaster_deps is_mainnet true = some (get_secp256k1_cell_dep is_mainnet) ∷ []
paymaster_deps is_mainnet false = []

module _ (w : CkbWorld) (s : SporeWorld) (get_cells : CellQuery → CkbResult (List IndexerCell))
    (fetched : Option CellDepsObject) where
  -- From the spore's cell and its new lock on.
  unfoldable pub move_spore : MoveProps → IndexerCell → Script → CkbResult SporeTx
  move_spore p cell lock = do
    let moved : CellOutput = record cell.output { lock = lock }
    let (output, needs) = restored s moved cell.output_data
    deps ←
        fetch_type_id_cell_deps p.is_mainnet (record nothing_selected { rgbpp = true })
          p.btc_testnet_type (given_or p.vendor_cell_deps fetched)
    co_build ← generate_spore_transfer_co_build s (cell ∷ []) (output ∷ [])
    let tx_with : Bool → CellOutput → RawTx = λ paymaster o.
        spore_raw_tx
          (deps ++ some (get_spore_type_dep p.is_mainnet) ∷ paymaster_deps p.is_mainnet paymaster)
          cell.out_point ((o, cell.output_data) ∷ []) co_build
    (paid, needs_now) ← adjust_spore w p needs (tx_with needs output) output cell.output_data
    commitment ←
        calculate_commitment w
          (record { inputs = cell.out_point ∷ []; outputs = (paid, cell.output_data) ∷ [] })
    ok (record {
      tx = tx_with needs_now paid;
      commitment = commitment;
      spore_cell = cell;
      need_paymaster_cell = needs_now;
    })

  unfoldable pub spore_cell_of : MoveProps → CkbResult IndexerCell
  spore_cell_of p = do
    cells ← get_cells (
        cells_at_lock
          (gen_rgbpp_lock_script p.spore_rgbpp_lock_args p.is_mainnet p.btc_testnet_type))
    only_spore_cell w cells p.spore_type_bytes p.is_mainnet

  unfoldable pub gen_transfer_spore_ckb_virtual_tx : MoveProps → CkbResult SporeTx
  gen_transfer_spore_ckb_virtual_tx p = do
    cell ← spore_cell_of p
    move_spore p cell
        (gen_rgbpp_lock_script (build_pre_lock_args 1) p.is_mainnet p.btc_testnet_type)

  -- The receiver is given as a lock; its arguments are not measured here.
  unfoldable pub gen_leap_spore_from_btc_to_ckb_virtual_tx : MoveProps → Script → CkbResult SporeTx
  gen_leap_spore_from_btc_to_ckb_virtual_tx p to_lock = do
    cell ← spore_cell_of p
    move_spore p cell (gen_btc_time_lock_script w to_lock p.is_mainnet p.btc_testnet_type none)

  -- The change is the capacity that is left to the spore's cell: an integer, whose number stands in
  -- `tx`, or 0 where it is negative.
  unfoldable pub gen_leap_spore_from_ckb_to_btc_raw_tx :
      Script → Hex → Hex → Bool → Option ℕ → Option ℕ → BtcTestnetType → CkbResult (RawTx × ℤ)
  gen_leap_spore_from_ckb_to_btc_raw_tx from_lock type_bytes to_args is_mainnet size rate net = do
    cells ← get_cells (record {
      lock = from_lock;
      type_script = some (w.unpack_script type_bytes);
      is_data_must_be_empty = true;
      output_capacity_range = none;
    })
    cell ← first_rgbpp_cell cells
    let output : CellOutput = record cell.output {
      lock = gen_rgbpp_lock_script to_args is_mainnet net;
    }
    co_build ← generate_spore_transfer_co_build s (cell ∷ []) (output ∷ [])
    let tx_with : CellOutput → RawTx = λ o.
        spore_raw_tx (some (get_spore_type_dep is_mainnet) ∷ []) cell.out_point
          ((o, cell.output_data) ∷ []) co_build
    let fee =
        calculate_transaction_fee
          (w.transaction_size (tx_with output) + or_else size rgbpp_tx_witness_max_size) rate
    let change = pos cell.output.capacity -ℤ pos fee
    let paid : CellOutput = record output { capacity = pos_part change }
    ok (tx_with paid, change)

  -- The spores out of BTC time cells; the last witness is the cobuild witness.
  unfoldable pub build_spore_btc_time_cells_spent_tx :
      (Hex → ℕ → CkbResult (OutPoint × Hex))
      → List IndexerCell
      → Bool
      → BtcTestnetType
      → Option CellDepsObject
      → CkbResult RawTx
  build_spore_btc_time_cells_spent_tx spv_proof btc_time_cells is_mainnet net vendor = do
    let cells = sort_cells btc_time_cells
    let outputs : List CellOutput = map (unlocked_output w spv_proof) cells
    deps ←
        fetch_type_id_cell_deps is_mainnet (record nothing_selected { btc_time = true }) net
          (given_or vendor fetched)
    unlocks ← unlock_cells w spv_proof [] [] cells
    co_build ← generate_spore_transfer_co_build s cells outputs
    ok (record {
      cell_deps = deps ++ some (get_spore_type_dep is_mainnet) ∷ unlocks.spv_deps;
      inputs = map (λ c. c.out_point) cells;
      outputs = outputs;
      outputs_data = map (λ c. c.output_data) cells;
      witnesses = unlocks.witnesses ++ co_build ∷ [];
    })
