-- ===== src/Ckb/BtcTime.antt =====
-- packages/ckb/src/rgbpp/btc-time.ts: spending the BTC time cells. `getCells`, the JSON of cell deps
-- that is fetched and the proofs of the service are parameters; signing is left to the CKB SDK.
use rgbpp_sdk.Ckb.Builder.{build_spv_client_cell_dep}
use rgbpp_sdk.Ckb.Capacity.{calculate_transaction_fee}
use rgbpp_sdk.Ckb.CellDeps.{CellDepsObject, fetch_type_id_cell_deps, given_or, nothing_selected}
use rgbpp_sdk.Ckb.Constants.{
  btc_jump_confirmation_blocks, get_btc_time_lock_script, get_secp256k1_cell_dep,
  secp256k1_witness_lock_size,
}
use rgbpp_sdk.Ckb.Error.{CkbError, CkbResult}
use rgbpp_sdk.Ckb.IssuerCell.{ToSign}
use rgbpp_sdk.Ckb.Scripts.{
  CkbWorld, btc_tx_id_and_after_from_btc_time_lock_args, gen_btc_time_lock_args, hex_eq,
  is_compatible_udt_types_supported, is_offline_mode, is_standard_udt_type_supported,
  lock_script_from_btc_time_lock_args, sort_cells,
}
use rgbpp_sdk.Ckb.Types.{
  Address, BtcTestnetType, CellOutput, CellQuery, Dep, Hex, IndexerCell, OutPoint, RawTx,
  RawTxToSign, Script, empty_witness, hex_witness, testnet3,
}
use rgbpp_sdk.Common.{
  Bool, List, Option, String, [], any, false, if◌then◌else◌, is_some, keep, length, map, none, not,
  some, true, ℕ, ◌++◌, ◌+◌, ◌==◌, ◌∷◌,
}
use rgbpp_sdk.Common.Int.{pos, pos_part, ◌-ℤ◌}
use rgbpp_sdk.Common.Outcome.{err, ok, throw_if, ◌>>=◌, ◌>>◌}

unfoldable pub build_btc_time_unlock_witness : CkbWorld → Hex → Hex
build_btc_time_unlock_witness w proof = w.pack_btc_time_unlock proof

-- The cell deps that are pushed on, and the witnesses.
pub record Unlocked : Type 0 where
  pub spv_deps : List Dep
  pub witnesses : List Hex

module _ (w : CkbWorld) (spv_proof : Hex → ℕ → CkbResult (OutPoint × Hex)) where
  -- One step of the loop, for a cell whose lock was not met yet.
  unfoldable pub unlocked : List Hex → OutPoint → Hex → Unlocked → Unlocked
  unlocked seen_deps spv_client proof rest = record {
    spv_deps =
        if any (hex_eq (w.serialize_out_point spv_client)) seen_deps
        then rest.spv_deps
        else build_spv_client_cell_dep spv_client ∷ rest.spv_deps;
    witnesses = w.serialize_witness_lock (build_btc_time_unlock_witness w proof) ∷ rest.witnesses;
  }

  -- The loop over the cells, with the lock arguments and the SPV clients that were met.
  unfoldable pub unlock_cells : List Hex → List Hex → List IndexerCell → CkbResult Unlocked
  unlock_cells seen seen_deps [] = ok (record { spv_deps = []; witnesses = [] })
  unlock_cells seen seen_deps (c ∷ cs) =
      let args = c.output.lock.args in
      let (tx_id, after) = btc_tx_id_and_after_from_btc_time_lock_args w args in
      let again = unlock_cells seen seen_deps cs in
      let next = λ (spv_client : OutPoint).
        unlock_cells (args ∷ seen) (w.serialize_out_point spv_client ∷ seen_deps) cs in
      elim (any (hex_eq args) seen) [
        | true ↦ do
          rest ← again
          ok (record { spv_deps = rest.spv_deps; witnesses = [] ∷ rest.witnesses })
        | false ↦ do
          (spv_client, proof) ← spv_proof tx_id after
          rest ← next spv_client
          ok (unlocked seen_deps spv_client proof rest)
      ]

  -- The receiver's cell: the lock is taken out of the time lock's arguments.
  unfoldable pub unlocked_output : IndexerCell → CellOutput
  unlocked_output c = record c.output {
    lock = lock_script_from_btc_time_lock_args w c.output.lock.args;
  }

  unfoldable pub has_standard_udt : Bool → IndexerCell → Bool
  has_standard_udt is_mainnet c = elim c.output.type_script [
    | none ↦ false
    | some t ↦ is_standard_udt_type_supported w t is_mainnet
  ]

  unfoldable pub compatible_code_hashes : Bool → List IndexerCell → List String
  compatible_code_hashes offline [] = []
  compatible_code_hashes offline (c ∷ cs) =
      let rest = compatible_code_hashes offline cs in
      elim c.output.type_script [
        | none ↦ rest
        | some t ↦
            if is_compatible_udt_types_supported w t offline then t.code_hash ∷ rest else rest
      ]

  -- A cell without a type cannot be serialized, which throws.
  unfoldable pub build_btc_time_cells_spent_tx :
      Option CellDepsObject
      → List IndexerCell
      → Bool
      → BtcTestnetType
      → Option CellDepsObject
      → CkbResult RawTx
  build_btc_time_cells_spent_tx fetched btc_time_cells is_mainnet net vendor = do
    let cells = sort_cells btc_time_cells
    throw_if (any (λ c. not (is_some c.output.type_script)) cells) CkbError.plain_error
    let hashes : List String = compatible_code_hashes (is_offline_mode vendor) cells
    let standard : Bool = any (has_standard_udt is_mainnet) cells
    deps ←
        fetch_type_id_cell_deps is_mainnet
          (record nothing_selected {
            btc_time = true;
            xudt = standard;
            compatible_xudt_code_hashes = hashes;
          })
          net (given_or vendor fetched)
    unlocks ← unlock_cells [] [] cells
    ok (record {
      cell_deps = deps ++ unlocks.spv_deps;
      inputs = map (λ c. c.out_point) cells;
      outputs = map unlocked_output cells;
      outputs_data = map (λ c. c.output_data) cells;
      witnesses = unlocks.witnesses;
    })

-- `prepareBtcTimeCellSpentUnsignedTx`: the first cell without a type pays the fee; where there is
-- none, reading its fields throws.
unfoldable pub first_empty : List IndexerCell → CkbResult IndexerCell
first_empty [] = err CkbError.plain_error
first_empty (c ∷ cs) = ok c

unfoldable pub time_lock_of_rest : Bool → List OutPoint → List (OutPoint × Script)
time_lock_of_rest is_mainnet inputs =
    map (λ i. (i, get_btc_time_lock_script is_mainnet testnet3)) inputs

unfoldable pub prepare_btc_time_cell_spent_unsigned_tx :
    CkbWorld
    → (CellQuery → CkbResult (List IndexerCell))
    → RawTx
    → Script
    → Bool
    → Option (ℕ × ℕ)
    → Option ℕ
    → CkbResult ToSign
prepare_btc_time_cell_spent_unsigned_tx w get_cells tx master is_mainnet range rate = do
  cells ← get_cells (record {
    lock = master;
    type_script = none;
    is_data_must_be_empty = true;
    output_capacity_range = range;
  })
  throw_if (length cells == 0) CkbError.plain_error
  cell ← first_empty (keep (λ c. not (is_some c.output.type_script)) cells)
  let raw : CellOutput → RawTxToSign = λ change. record {
    cell_deps = tx.cell_deps ++ some (get_secp256k1_cell_dep is_mainnet) ∷ [];
    inputs = cell.out_point ∷ tx.inputs;
    outputs = change ∷ tx.outputs;
    outputs_data = [] ∷ tx.outputs_data;
    witnesses = empty_witness ∷ map hex_witness tx.witnesses;
  }
  let size = w.size_to_sign (raw cell.output) + secp256k1_witness_lock_size
  let change = pos cell.output.capacity -ℤ pos (calculate_transaction_fee size rate)
  let change_output : CellOutput = record cell.output { capacity = pos_part change }
  ok (record {
    tx = raw change_output;
    change = change;
    input_cells = (cell.out_point, master) ∷ time_lock_of_rest is_mainnet tx.inputs;
  })

-- Whether the indexer has no cell any more with the time lock for the address and the transaction.
unfoldable pub is_btc_time_cells_spent :
    CkbWorld
    → (CellQuery → CkbResult (List IndexerCell))
    → Address
    → Hex
    → BtcTestnetType
    → CkbResult Bool
is_btc_time_cells_spent w get_cells address btc_tx_id net = do
  let args : Hex = gen_btc_time_lock_args w address.lock btc_tx_id btc_jump_confirmation_blocks
  cells ← get_cells (record {
    lock = record (get_btc_time_lock_script address.is_mainnet net) { args = args };
    type_script = none;
    is_data_must_be_empty = false;
    output_capacity_range = none;
  })
  ok (length cells == 0)
