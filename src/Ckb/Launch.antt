-- ===== src/Ckb/Launch.antt =====
-- packages/ckb/src/rgbpp/launch.ts: the launch of a token. `getCells` and the JSON of cell deps that
-- is fetched are parameters.
use rgbpp_sdk.Ckb.Capacity.{calculate_transaction_fee}
use rgbpp_sdk.Ckb.CellDeps.{CellDepsObject, fetch_type_id_cell_deps, given_or, nothing_selected}
use rgbpp_sdk.Ckb.Codec.{u128_to_le}
use rgbpp_sdk.Ckb.Collector.{collect_inputs}
use rgbpp_sdk.Ckb.Commitment.{calculate_commitment}
use rgbpp_sdk.Ckb.Constants.{
  get_unique_type_script, get_xudt_type_script, max_fee, rgbpp_tx_witness_max_size,
  rgbpp_witness_placeholder, unlockable_lock_script,
}
use rgbpp_sdk.Ckb.Error.{CkbError, CkbResult}
use rgbpp_sdk.Ckb.Scripts.{
  CkbWorld, build_pre_lock_args, gen_btc_time_lock_script, gen_rgbpp_lock_script,
}
use rgbpp_sdk.Ckb.TokenInfo.{
  TokenInfo, calculate_rgbpp_token_info_cell_capacity, encode_rgbpp_token_info,
  generate_unique_type_args,
}
use rgbpp_sdk.Ckb.Types.{
  BtcTestnetType, CellOutput, CellQuery, Dep, Hex, IndexerCell, OutPoint, RawTx, Script,
}
use rgbpp_sdk.Common.{
  Bool, List, Option, [], is_some, keep, length, ltb, map, none, not, or_else, some, true, ℕ, ◌+◌,
  ◌-◌, ◌==◌, ◌∷◌,
}
use rgbpp_sdk.Common.Outcome.{err, ok, throw_if, ◌>>=◌, ◌>>◌}

pub record LaunchProps : Type 0 where
  pub owner_rgbpp_lock_args : Hex
  pub launch_amount : ℕ
  pub rgbpp_token_info : TokenInfo
  pub is_mainnet : Bool
  pub witness_lock_placeholder_size : Option ℕ
  pub ckb_fee_rate : Option ℕ
  pub btc_testnet_type : BtcTestnetType
  pub vendor_cell_deps : Option CellDepsObject

-- No paymaster cell is needed.
pub record LaunchTx : Type 0 where
  pub tx : RawTx
  pub commitment : Hex
  pub sum_inputs_capacity : ℕ
  pub estimated_fee : ℕ

unfoldable pub launch_lock : LaunchProps → Script
launch_lock p = gen_rgbpp_lock_script p.owner_rgbpp_lock_args p.is_mainnet p.btc_testnet_type

-- `inputs[0]`, of which the type id is made.
unfoldable pub first_input : List OutPoint → CkbResult OutPoint
first_input [] = err CkbError.plain_error
first_input (i ∷ is) = ok i

-- A placeholder for the first input, and an empty text for the others.
unfoldable pub first_witness : List OutPoint → List Hex
first_witness [] = []
first_witness (i ∷ is) = rgbpp_witness_placeholder ∷ map (λ i. []) is

unfoldable pub launch_tx : List Dep → List OutPoint → List (CellOutput × Hex) → RawTx
launch_tx deps inputs outputs = record {
  cell_deps = deps;
  inputs = inputs;
  outputs = map (λ o. o.0) outputs;
  outputs_data = map (λ o. o.1) outputs;
  witnesses = first_witness inputs;
}

module _ (w : CkbWorld) (get_cells : CellQuery → CkbResult (List IndexerCell))
    (fetched : Option CellDepsObject) where
  -- The cell with the whole amount, of the capacity given, and that with the information.
  unfoldable pub launch_outputs : LaunchProps → ℕ → OutPoint → ℕ → List (CellOutput × Hex)
  launch_outputs p info_capacity first capacity =
      (
        record {
          capacity = capacity;
          lock = gen_rgbpp_lock_script (build_pre_lock_args 1) p.is_mainnet p.btc_testnet_type;
          type_script = some (record (get_xudt_type_script p.is_mainnet) {
            args = w.script_to_hash (launch_lock p);
          });
        },
        u128_to_le p.launch_amount,
      )
      ∷ (
        record {
          capacity = info_capacity;
          lock =
              gen_btc_time_lock_script w unlockable_lock_script p.is_mainnet p.btc_testnet_type
                none;
          type_script = some (record (get_unique_type_script p.is_mainnet) {
            args = generate_unique_type_args w first 1;
          });
        },
        encode_rgbpp_token_info p.rgbpp_token_info,
      )
      ∷ []

  -- A fee that is more than the cell has leaves the text of a negative number, which the commitment
  -- refuses as no BigInt.
  unfoldable pub gen_rgbpp_launch_ckb_virtual_tx : LaunchProps → CkbResult LaunchTx
  gen_rgbpp_launch_ckb_virtual_tx p = do
    cells ← get_cells (record {
      lock = launch_lock p;
      type_script = none;
      is_data_must_be_empty = true;
      output_capacity_range = none;
    })
    throw_if (length cells == 0) CkbError.no_live_cell
    let info = calculate_rgbpp_token_info_cell_capacity w p.rgbpp_token_info p.is_mainnet
    r ← collect_inputs (keep (λ c. not (is_some c.output.type_script)) cells) info max_fee none
    first ← first_input r.inputs
    let before = r.sum_inputs_capacity - info
    deps ←
        fetch_type_id_cell_deps p.is_mainnet
          (record nothing_selected { rgbpp = true; xudt = true; unique = true }) p.btc_testnet_type
          (given_or p.vendor_cell_deps fetched)
    let size =
        w.transaction_size (launch_tx deps r.inputs (launch_outputs p info first before))
        + or_else p.witness_lock_placeholder_size rgbpp_tx_witness_max_size
    let fee = calculate_transaction_fee size p.ckb_fee_rate
    throw_if (ltb before fee) CkbError.plain_error
    let outputs = launch_outputs p info first (before - fee)
    commitment ← calculate_commitment w (record { inputs = r.inputs; outputs = outputs })
    ok (record {
      tx = launch_tx deps r.inputs outputs;
      commitment = commitment;
      sum_inputs_capacity = r.sum_inputs_capacity;
      estimated_fee = fee;
    })
