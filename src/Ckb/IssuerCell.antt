-- ===== src/Ckb/IssuerCell.antt =====
-- packages/ckb/src/rgbpp/btc-transfer.ts and spore/spore.ts: cells of an issuer that pay the fee of a
-- transaction. The signatures that follow are made by the CKB SDK.
pub mod Paid
use rgbpp_sdk.Common.{
  ℕ, suc, ◌+◌, ◌-◌, Bool, true, not, Option, none, some, List, [], ◌∷◌, ◌++◌, map, keep, length,
  leb, ◌==◌, if◌then◌else◌, drop, take, is_some, zero,
}
use rgbpp_sdk.Common.Int.{ℤ, pos, pos_part, ◌-ℤ◌}
use rgbpp_sdk.Ckb.Error.{CkbError, CkbResult, ok, ◌>>=◌, ◌>>◌, throw_if}
use rgbpp_sdk.Ckb.Types.{
  Script, OutPoint, CellOutput, IndexerCell, RawTx, CellQuery, Witness, hex_witness, empty_witness,
  RawTxToSign, testnet3,
}
use rgbpp_sdk.Ckb.Constants.{
  max_fee, min_capacity, secp256k1_witness_lock_size, cell_dep_size, get_secp256k1_cell_dep,
  get_rgbpp_lock_script,
}
use rgbpp_sdk.Ckb.Scripts.{CkbWorld}
use rgbpp_sdk.Ckb.Capacity.{calculate_transaction_fee}
use rgbpp_sdk.Ckb.Collector.{collect_inputs}

-- The last output is the change; its capacity is `change`, whose number stands in `tx`, or 0 where it
-- is negative.
pub record PaidTx : Type 0 where
  pub tx : RawTx
  pub change : ℤ
  pub actual_inputs_capacity : ℕ
  pub estimated_fee : ℕ

-- A transaction to sign, with the locks of its inputs.
pub record ToSign : Type 0 where
  pub tx : RawTxToSign
  pub change : ℤ
  pub input_cells : List (OutPoint × Script)

unfoldable pub sum_outputs : List CellOutput → ℕ
sum_outputs [] = 0
sum_outputs (o ∷ os) = o.capacity + sum_outputs os

unfoldable pub with_change_cell : Script → ℤ → RawTx → RawTx
with_change_cell lock change tx = record tx {
  outputs =
      tx.outputs ++ record { capacity = pos_part change; lock = lock; type_script = none } ∷ [];
  outputs_data = tx.outputs_data ++ [] ∷ [];
}

-- The first inputs, as many as given, have an RGB++ lock, the others that of the issuer. The network
-- of the test chain is left out, so it is Testnet3.
unfoldable pub input_locks : Bool → Script → ℕ → List OutPoint → List (OutPoint × Script)
input_locks is_mainnet issuer_lock n [] = []
input_locks is_mainnet issuer_lock zero (i ∷ is) =
    (i, issuer_lock) ∷ input_locks is_mainnet issuer_lock zero is
input_locks is_mainnet issuer_lock (suc n) (i ∷ is) =
    (i, get_rgbpp_lock_script is_mainnet testnet3) ∷ input_locks is_mainnet issuer_lock n is

-- The witnesses of the issuer's inputs: an object for the first, and an empty text for the others.
unfoldable pub issuer_witnesses : List OutPoint → List Witness
issuer_witnesses [] = []
issuer_witnesses (i ∷ is) = empty_witness ∷ map (λ i. hex_witness []) is

module _ (w : CkbWorld) (get_cells : CellQuery → CkbResult (List IndexerCell)) where
  -- The inputs of the issuer that are added, with the capacity of all inputs.
  unfoldable pub issuer_inputs : Script → ℕ → ℕ → CkbResult (List OutPoint × ℕ)
  issuer_inputs issuer_lock sum_inputs sum_outputs_capacity = do
    cells ← get_cells (record {
      lock = issuer_lock;
      type_script = none;
      is_data_must_be_empty = true;
      output_capacity_range = none;
    })
    throw_if (length cells == 0) CkbError.no_live_cell
    (if leb sum_inputs sum_outputs_capacity
        then (do
          more ←
              collect_inputs (keep (λ c. not (is_some c.output.type_script)) cells)
                (sum_outputs_capacity - sum_inputs + min_capacity) max_fee none
          ok (more.inputs, sum_inputs + more.sum_inputs_capacity))
        else ok ([], sum_inputs))

  -- The transaction with the inputs and the change; the last number is what the size is taken to be
  -- larger by.
  unfoldable pub pay_from_issuer : Script → RawTx → ℕ → Option ℕ → ℕ → CkbResult PaidTx
  pay_from_issuer issuer_lock tx sum_inputs rate more_size = do
    let sum = sum_outputs tx.outputs
    (inputs, actual) ← issuer_inputs issuer_lock sum_inputs sum
    let funded = record tx { inputs = tx.inputs ++ inputs }
    let before = pos actual -ℤ pos sum
    let size = w.transaction_size (with_change_cell issuer_lock before funded)
    let fee = calculate_transaction_fee (size + more_size) rate
    let change = before -ℤ pos fee
    ok (record {
      tx = with_change_cell issuer_lock change funded;
      change = change;
      actual_inputs_capacity = actual;
      estimated_fee = fee;
    })

  unfoldable pub append_issuer_cell_to_btc_batch_transfer_to_sign :
      Script → RawTx → ℕ → Option ℕ → Bool → CkbResult ToSign
  append_issuer_cell_to_btc_batch_transfer_to_sign issuer_lock tx sum_inputs rate is_mainnet = do
    let n = length tx.inputs
    paid ← pay_from_issuer issuer_lock tx sum_inputs rate secp256k1_witness_lock_size
    ok (record {
      tx = record {
        cell_deps = paid.tx.cell_deps;
        inputs = paid.tx.inputs;
        outputs = paid.tx.outputs;
        outputs_data = paid.tx.outputs_data;
        witnesses = map hex_witness paid.tx.witnesses ++ issuer_witnesses (drop n paid.tx.inputs);
      };
      change = paid.change;
      input_cells = input_locks is_mainnet issuer_lock n paid.tx.inputs;
    })

  unfoldable pub build_appending_issuer_cell_to_spores_create_tx :
      Script → RawTx → ℕ → ℕ → Option ℕ → CkbResult PaidTx
  build_appending_issuer_cell_to_spores_create_tx issuer_lock tx sum_inputs witness_size rate =
      pay_from_issuer issuer_lock tx sum_inputs rate (witness_size + cell_dep_size)

  -- The cobuild witness, the last one, stays last.
  unfoldable pub append_issuer_cell_to_spores_create_unsigned_tx :
      Script → RawTx → ℕ → Option ℕ → Bool → CkbResult ToSign
  append_issuer_cell_to_spores_create_unsigned_tx issuer_lock tx sum_inputs rate is_mainnet = do
    let n = length tx.inputs
    paid ←
        build_appending_issuer_cell_to_spores_create_tx issuer_lock tx sum_inputs
          secp256k1_witness_lock_size rate
    let last = length paid.tx.witnesses - 1
    ok (record {
      tx = record {
        cell_deps = paid.tx.cell_deps ++ some (get_secp256k1_cell_dep is_mainnet) ∷ [];
        inputs = paid.tx.inputs;
        outputs = paid.tx.outputs;
        outputs_data = paid.tx.outputs_data;
        witnesses =
            map hex_witness (take last paid.tx.witnesses)
            ++ (issuer_witnesses (drop n paid.tx.inputs)
                ++ map hex_witness (drop last paid.tx.witnesses));
      };
      change = paid.change;
      input_cells = input_locks is_mainnet issuer_lock n paid.tx.inputs;
    })
