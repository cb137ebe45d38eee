-- ===== src/Ckb/Paymaster.antt =====
-- packages/ckb/src/paymaster/index.ts: a transaction that makes cells for the paymaster, up to its
-- signature.
use rgbpp_sdk.Ckb.Capacity.{calculate_transaction_fee}
use rgbpp_sdk.Ckb.Collector.{collect_inputs}
use rgbpp_sdk.Ckb.Constants.{ckb_unit, get_secp256k1_cell_dep, max_fee, secp256k1_witness_lock_size}
use rgbpp_sdk.Ckb.Error.{CkbError, CkbResult}
use rgbpp_sdk.Ckb.IssuerCell.{ToSign, issuer_witnesses}
use rgbpp_sdk.Ckb.Types.{Address, CellOutput, CellQuery, IndexerCell, RawTxToSign, Script}
use rgbpp_sdk.Common.{
  List, [], is_some, keep, length, map, none, not, replicate, some, true, ℕ, ◌*◌, ◌++◌, ◌+◌, ◌==◌,
  ◌∷◌,
}
use rgbpp_sdk.Common.Int.{pos, pos_part, ℤ, ◌+ℤ◌, ◌-ℤ◌}
use rgbpp_sdk.Common.Outcome.{ok, throw_if, ◌>>=◌, ◌>>◌}
use rgbpp_sdk.Ckb.Scripts.{CkbWorld}

unfoldable pub split_multi_cells_with_secp256k1 :
    CkbWorld
    → (CellQuery → CkbResult (List IndexerCell))
    → Script
    → Address
    → ℕ
    → ℕ
    → CkbResult ToSign
split_multi_cells_with_secp256k1 w get_cells master receiver capacity_with_ckb cell_amount = do
  cells ← get_cells (record {
    lock = master;
    type_script = none;
    is_data_must_be_empty = true;
    output_capacity_range = none;
  })
  throw_if (length cells == 0) CkbError.no_live_cell
  let cell_capacity = capacity_with_ckb * ckb_unit
  let need = cell_capacity * cell_amount
  r ←
      collect_inputs (keep (λ c. not (is_some c.output.type_script)) cells) need max_fee
        (some (61 * ckb_unit))
  let before = pos r.sum_inputs_capacity -ℤ pos need -ℤ pos max_fee
  let cell : CellOutput = record {
    capacity = cell_capacity;
    lock = receiver.lock;
    type_script = none;
  }
  let unsigned : ℤ → RawTxToSign = λ change. record {
    cell_deps = some (get_secp256k1_cell_dep receiver.is_mainnet) ∷ [];
    inputs = r.inputs;
    outputs =
        replicate cell_amount cell
        ++ record { capacity = pos_part change; lock = master; type_script = none } ∷ [];
    outputs_data = replicate (cell_amount + 1) [];
    witnesses = issuer_witnesses r.inputs;
  }
  let size = w.size_to_sign (unsigned before) + secp256k1_witness_lock_size
  let change = before +ℤ (pos max_fee -ℤ pos (calculate_transaction_fee size none))
  ok (record {
    tx = unsigned change;
    change = change;
    input_cells = map (λ i. (i, master)) r.inputs;
  })
