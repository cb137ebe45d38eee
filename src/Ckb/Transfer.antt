-- ===== src/Ckb/Transfer.antt =====
-- packages/ckb/src/rgbpp/btc-transfer.ts: `genBtcTransferCkbVirtualTx`, with
-- `adjustVirtualTxForTxFee` of utils/rgbpp.ts. The JSON of cell deps, given or fetched, is a parameter.
pub mod Inputs
pub mod Conservation
pub mod Bound
use rgbpp_sdk.Common.{
  ℕ, zero, suc, ◌+◌, ◌-◌, Bool, true, false, not, ◌&&◌, Option, none, some, List, [], ◌∷◌, ◌++◌,
  map, any, keep, length, ltb, if◌then◌else◌, or_else, is_some,
}
use rgbpp_sdk.Ckb.Error.{CkbError, CkbResult, ok, err, ◌>>=◌, ◌>>◌, throw_if}
use rgbpp_sdk.Ckb.Types.{Hex, Script, OutPoint, Dep, CellOutput, IndexerCell, RawTx, BtcTestnetType}
use rgbpp_sdk.Ckb.Constants.{get_secp256k1_cell_dep}
use rgbpp_sdk.Ckb.Codec.{u128_to_le}
use rgbpp_sdk.Ckb.Scripts.{
  CkbWorld, hex_eq, build_pre_lock_args, gen_rgbpp_lock_script, sort_cells, deduplicate_list,
  estimate_witness_size, throw_error_when_tx_inputs_exceeded, has_type, is_udt_type_supported,
  throw_error_when_rgbpp_cells_invalid,
}
use rgbpp_sdk.Ckb.Capacity.{
  calculate_transaction_fee, calculate_cell_occupied_capacity, calculate_rgbpp_cell_capacity,
  is_rgbpp_capacity_sufficient_for_change,
}
use rgbpp_sdk.Ckb.CellDeps.{CellDepsObject, udt_cell_deps}
use rgbpp_sdk.Ckb.Collector.{Collected, collect_udt_inputs}
use rgbpp_sdk.Ckb.Commitment.{Committed, calculate_commitment}

pub record TransferProps : Type 0 where
  pub xudt_type_bytes : Hex
  pub rgbpp_lock_args_list : List Hex
  pub transfer_amount : ℕ
  pub is_mainnet : Bool
  pub no_merge_output_cells : Bool
  pub witness_lock_placeholder_size : Option ℕ
  pub ckb_fee_rate : Option ℕ
  pub btc_testnet_type : BtcTestnetType
  pub is_offline : Bool

-- The inputs and outputs as they are put together; each output stands with its data.
pub record Draft : Type 0 where
  pub inputs : List OutPoint
  pub sum_inputs_capacity : ℕ
  pub outputs : List (CellOutput × Hex)
  pub need_paymaster_cell : Bool

pub record VirtualTx : Type 0 where
  pub draft : Draft
  pub cell_deps : List Dep
  pub witnesses : List Hex
  pub commitment : Hex

-- The cells of the target type and the others.
pub record Cells : Type 0 where
  pub targets : List IndexerCell
  pub others : List IndexerCell

unfoldable pub sorted : Cells → Cells
sorted cells = record { targets = sort_cells cells.targets; others = sort_cells cells.others }

unfoldable pub lock_at : TransferProps → ℕ → Script
lock_at p vout = gen_rgbpp_lock_script (build_pre_lock_args vout) p.is_mainnet p.btc_testnet_type

-- One output for each cell, bound to the outputs of the Bitcoin transaction from the given one on.
unfoldable pub rebind : TransferProps → ℕ → List IndexerCell → List (CellOutput × Hex)
rebind p vout [] = []
rebind p vout (c ∷ cs) =
    (record c.output { lock = lock_at p vout }, c.output_data) ∷ rebind p (suc vout) cs

unfoldable pub sum_capacities : List IndexerCell → ℕ
sum_capacities [] = 0
sum_capacities (c ∷ cs) = c.output.capacity + sum_capacities cs

-- `handleNonTargetRgbppCells`
unfoldable pub handle_others : TransferProps → ℕ → List IndexerCell → Draft → Draft
handle_others p len others d = record {
  inputs = d.inputs ++ map (λ c. c.out_point) others;
  sum_inputs_capacity = d.sum_inputs_capacity + sum_capacities others;
  outputs = d.outputs ++ rebind p (len + 1) others;
  need_paymaster_cell = d.need_paymaster_cell;
}

-- With `noMergeOutputCells`: an output for each target cell.
unfoldable pub unmerged : TransferProps → List IndexerCell → Draft
unmerged p targets = record {
  inputs = map (λ c. c.out_point) targets;
  sum_inputs_capacity = sum_capacities targets;
  outputs = rebind p 1 targets;
  need_paymaster_cell = false;
}

-- The output at the position, with an amount of the token.
unfoldable pub udt_output : TransferProps → Script → ℕ → ℕ → ℕ → CellOutput × Hex
udt_output p xudt vout capacity amount = (
  record { capacity = capacity; lock = lock_at p vout; type_script = some xudt },
  u128_to_le amount,
)

unfoldable pub min_output_capacity : TransferProps → Script → ℕ
min_output_capacity p xudt =
    let (o, bytes) = udt_output p xudt 1 0 p.transfer_amount in
    calculate_cell_occupied_capacity o bytes

-- The greater part of the inputs' capacity that the receiver gets, if it suffices for a cell.
unfoldable pub receiver_capacity : TransferProps → Script → ℕ → ℕ
receiver_capacity p xudt available =
    if ltb (min_output_capacity p xudt) available
    then available
    else calculate_rgbpp_cell_capacity (some xudt)

-- With a change of the token: two outputs.
unfoldable pub with_change : TransferProps → Script → IndexerCell → Collected → Draft
with_change p xudt first r =
    let receiver = receiver_capacity p xudt first.output.capacity in
    let sufficient = is_rgbpp_capacity_sufficient_for_change r.sum_inputs_capacity receiver in
    let change =
      if sufficient
      then r.sum_inputs_capacity - receiver
      else calculate_rgbpp_cell_capacity (some xudt) in
    record {
      inputs = r.inputs;
      sum_inputs_capacity = r.sum_inputs_capacity;
      outputs =
          udt_output p xudt 1 receiver p.transfer_amount
          ∷ udt_output p xudt 2 change (r.sum_amount - p.transfer_amount)
          ∷ [];
      need_paymaster_cell = not sufficient;
    }

-- Without: one output.
unfoldable pub without_change : TransferProps → Script → Collected → Draft
without_change p xudt r =
    let receiver = receiver_capacity p xudt r.sum_inputs_capacity in
    record {
      inputs = r.inputs;
      sum_inputs_capacity = r.sum_inputs_capacity;
      outputs = udt_output p xudt 1 receiver p.transfer_amount ∷ [];
      need_paymaster_cell = ltb r.sum_inputs_capacity receiver;
    }

-- `rgbppTargetCells[0]` of an empty list has no output: a TypeError.
unfoldable pub first_cell : List IndexerCell → CkbResult IndexerCell
first_cell [] = err CkbError.plain_error
first_cell (c ∷ cs) = ok c

unfoldable pub merged : TransferProps → Script → List IndexerCell → CkbResult Draft
merged p xudt targets = do
  r ← collect_udt_inputs targets p.transfer_amount
  throw_error_when_tx_inputs_exceeded (length r.inputs)
  (if ltb p.transfer_amount r.sum_amount
      then (do first ← first_cell targets; ok (with_change p xudt first r))
      else ok (without_change p xudt r))

-- The flag is `noMergeOutputCells`.
unfoldable pub drafted : Bool → TransferProps → Script → Cells → CkbResult Draft
drafted true p xudt cells =
    ok (handle_others p (length cells.targets) cells.others (unmerged p cells.targets))
drafted false p xudt cells = do
  d ← merged p xudt cells.targets
  ok (handle_others p (length d.outputs) cells.others d)

-- A witness for the first cell of each lock, and an empty one for the others.
unfoldable pub witnesses_of : List Hex → List IndexerCell → List Hex
witnesses_of seen [] = []
witnesses_of seen (c ∷ cs) =
    let again = witnesses_of seen cs in
    let first = witnesses_of (c.output.lock.args ∷ seen) cs in
    if any (hex_eq c.output.lock.args) seen then [] ∷ again else (255 ∷ []) ∷ first

-- The last output with its capacity less the fee, or none where this is less than it occupies; an
-- empty list has no last output.
unfoldable pub deduct_fee :
    ℕ → List (CellOutput × Hex) → CkbResult (Option (List (CellOutput × Hex)))
deduct_fee fee [] = err CkbError.plain_error
deduct_fee fee ((o, bytes) ∷ []) =
    if ltb o.capacity (fee + calculate_cell_occupied_capacity o bytes)
    then ok none
    else ok (some ((record o { capacity = o.capacity - fee }, bytes) ∷ []))
deduct_fee fee (o ∷ o' ∷ os) = do
  rest ← deduct_fee fee (o' ∷ os)
  ok (elim rest [ none ↦ none | some os' ↦ some (o ∷ os') ])

module _ (w : CkbWorld) (cells_of : Script → List IndexerCell)
    (object : Option CellDepsObject) where
  -- `isScriptEqual` throws for a cell without a type.
  unfoldable pub gather_cells : TransferProps → List Hex → CkbResult Cells
  gather_cells p [] = ok (record { targets = []; others = [] })
  gather_cells p (args ∷ list) = do
    let cells = cells_of (gen_rgbpp_lock_script args p.is_mainnet p.btc_testnet_type)
    throw_error_when_rgbpp_cells_invalid w cells p.xudt_type_bytes p.is_mainnet p.is_offline
    throw_if (any (λ c. not (is_some c.output.type_script)) cells) CkbError.plain_error
    rest ← gather_cells p list
    ok (record {
      targets = keep (has_type w p.xudt_type_bytes) cells ++ rest.targets;
      others = keep (λ c. not (has_type w p.xudt_type_bytes c)) cells ++ rest.others;
    })

  unfoldable pub raw_tx : Draft → List Dep → List Hex → RawTx
  raw_tx d deps witnesses = record {
    cell_deps = deps;
    inputs = d.inputs;
    outputs = map (λ o. o.0) d.outputs;
    outputs_data = map (λ o. o.1) d.outputs;
    witnesses = witnesses;
  }

  -- The fee that is estimated for the draft.
  unfoldable pub estimated_fee : TransferProps → Draft → List Dep → List Hex → ℕ
  estimated_fee p d deps witnesses =
      calculate_transaction_fee
        (w.transaction_size (raw_tx d deps witnesses)
          + or_else p.witness_lock_placeholder_size
              (estimate_witness_size (deduplicate_list p.rgbpp_lock_args_list)))
        p.ckb_fee_rate

  -- `adjustVirtualTxForTxFee`
  unfoldable pub adjusted :
      TransferProps → Draft → List Dep → List Hex → CkbResult (Draft × List Dep)
  adjusted p d deps witnesses = do
    fitting ← deduct_fee (estimated_fee p d deps witnesses) d.outputs
    ok (elim fitting [
      | none ↦ (
        record d { need_paymaster_cell = true },
        deps ++ (some (get_secp256k1_cell_dep p.is_mainnet) ∷ []),
      )
      | some outputs ↦ (record d { outputs = outputs }, deps)
    ])

  -- The fee is taken where no paymaster cell is needed yet: the flag is that of the draft.
  unfoldable pub adjust_for_fee :
      Bool → TransferProps → Draft → List Dep → List Hex → CkbResult (Draft × List Dep)
  adjust_for_fee true p d deps witnesses = ok (d, deps)
  adjust_for_fee false p d deps witnesses = adjusted p d deps witnesses

  unfoldable pub deps_of : TransferProps → Draft → List Dep → List Dep
  deps_of p d deps =
      if d.need_paymaster_cell
      then deps ++ (some (get_secp256k1_cell_dep p.is_mainnet) ∷ [])
      else deps

  -- From the draft on: the fee, and the commitment.
  unfoldable pub finish : TransferProps → Draft → List Dep → List Hex → CkbResult VirtualTx
  finish p d deps witnesses = do
    (d', deps') ← adjust_for_fee d.need_paymaster_cell p d deps witnesses
    commitment ← calculate_commitment w (record { inputs = d'.inputs; outputs = d'.outputs })
    ok (record { draft = d'; cell_deps = deps'; witnesses = witnesses; commitment = commitment })

  unfoldable pub gen_btc_transfer_ckb_virtual_tx : TransferProps → CkbResult VirtualTx
  gen_btc_transfer_ckb_virtual_tx p = do
    let xudt = w.unpack_script p.xudt_type_bytes
    throw_if (not (is_udt_type_supported w xudt p.is_mainnet p.is_offline))
        CkbError.type_asset_not_supported
    gathered ← gather_cells p (deduplicate_list p.rgbpp_lock_args_list)
    let cells = sorted gathered
    d ← drafted p.no_merge_output_cells p xudt cells
    deps ← udt_cell_deps w true p.is_mainnet p.btc_testnet_type xudt object
    finish p d (deps_of p d deps) (witnesses_of [] (cells.targets ++ cells.others))
