-- ===== src/Ckb/JumpToBtc.antt =====
-- packages/ckb/src/rgbpp/ckb-jump-btc.ts: the jump of tokens from CKB to BTC, of several receivers;
-- Single has the function for one. `getCells` and the JSON of cell deps that is fetched are parameters.
pub mod Balance
pub mod Change
pub mod Single
use rgbpp_sdk.Common.{
  ℕ, ◌+◌, ◌-◌, ◌*◌, Bool, true, false, not, Option, none, some, List, [], ◌∷◌, ◌++◌, map, keep,
  length, ltb, ◌==◌, if◌then◌else◌, or_else, is_some,
}
use rgbpp_sdk.Common.Int.{ℤ, pos, pos_part, ◌+ℤ◌, ◌-ℤ◌}
use rgbpp_sdk.Ckb.Error.{CkbError, CkbResult, ok, ◌>>=◌, ◌>>◌, throw_if}
use rgbpp_sdk.Ckb.Types.{
  Hex, Script, OutPoint, Dep, CellOutput, IndexerCell, RawTx, BtcTestnetType, Address, CellQuery,
}
use rgbpp_sdk.Ckb.Constants.{max_fee, min_capacity, rgbpp_tx_witness_max_size}
use rgbpp_sdk.Ckb.Codec.{u128_to_le}
use rgbpp_sdk.Ckb.Scripts.{
  CkbWorld, gen_rgbpp_lock_script, is_type_asset_supported, is_offline_mode,
}
use rgbpp_sdk.Ckb.Capacity.{
  calculate_transaction_fee, calculate_rgbpp_cell_capacity, calculate_udt_cell_capacity,
}
use rgbpp_sdk.Ckb.CellDeps.{CellDepsObject, given_or, udt_cell_deps}
use rgbpp_sdk.Ckb.Collector.{Collected, collect_inputs, collect_udt_inputs}

pub record Receiver : Type 0 where
  pub to_rgbpp_lock_args : Hex
  pub transfer_amount : ℕ

pub record BatchJumpProps : Type 0 where
  pub xudt_type_bytes : Hex
  pub from_address : Address
  pub rgbpp_receivers : List Receiver
  pub witness_lock_placeholder_size : Option ℕ
  pub ckb_fee_rate : Option ℕ
  pub btc_testnet_type : BtcTestnetType
  pub vendor_cell_deps : Option CellDepsObject

-- The last output is the change. Its capacity is `change`, which in the source may be the text of a
-- negative number; in `tx` stands the number that it is, or 0 where it is negative. The size of a
-- transaction is asked for with such outputs: a capacity takes eight bytes, whichever it is.
pub record JumpTx : Type 0 where
  pub tx : RawTx
  pub sum_inputs_capacity : ℕ
  pub estimated_fee : ℕ
  pub change : ℤ

abbrev pub has_no_type : IndexerCell → Bool
has_no_type c = not (is_some c.output.type_script)

-- The output of a receiver.
unfoldable pub jumped_output : Address → BtcTestnetType → Script → Receiver → CellOutput × Hex
jumped_output a net xudt r = (
  record {
    capacity = calculate_rgbpp_cell_capacity (some xudt);
    lock = gen_rgbpp_lock_script r.to_rgbpp_lock_args a.is_mainnet net;
    type_script = some xudt;
  },
  u128_to_le r.transfer_amount,
)

-- The change of the token, where more of it was collected than is sent.
unfoldable pub udt_change : Script → Script → ℕ → ℕ → List (CellOutput × Hex)
udt_change from_lock xudt amount sent =
    if ltb sent amount
    then (
      record {
        capacity = calculate_udt_cell_capacity from_lock (some xudt);
        lock = from_lock;
        type_script = some xudt;
      },
      u128_to_le (amount - sent),
    )
      ∷ []
    else []

-- The change of the capacity before the fee is known, for the capacity that the receivers get.
unfoldable pub change_capacity : Script → Script → Collected → ℕ → ℕ → ℤ
change_capacity from_lock xudt r sent_capacity sent =
    let change = pos r.sum_inputs_capacity -ℤ pos sent_capacity -ℤ pos max_fee in
    if ltb sent r.sum_amount
    then change -ℤ pos (calculate_udt_cell_capacity from_lock (some xudt))
    else change

unfoldable pub change_output : Script → ℤ → CellOutput × Hex
change_output from_lock change =
    (record { capacity = pos_part change; lock = from_lock; type_script = none }, [])

unfoldable pub sum_transfer_amount : List Receiver → ℕ
sum_transfer_amount [] = 0
sum_transfer_amount (r ∷ rs) = r.transfer_amount + sum_transfer_amount rs

module _ (w : CkbWorld) (get_cells : CellQuery → CkbResult (List IndexerCell))
    (fetched : Option CellDepsObject) where
  -- More cells, without a type, where the tokens' cells may not suffice: the capacity that is asked
  -- for is that of one RGB++ cell.
  unfoldable pub fund : Script → Script → ℕ → Collected → CkbResult Collected
  fund from_lock xudt sent_capacity collected = do
    let enough =
        calculate_udt_cell_capacity from_lock (some xudt) + sent_capacity + min_capacity + max_fee
    (if ltb collected.sum_inputs_capacity enough
        then (do
          cells ← get_cells (record {
            lock = from_lock;
            type_script = none;
            is_data_must_be_empty = true;
            output_capacity_range = none;
          })
          throw_if (length cells == 0) CkbError.no_live_cell
          more ←
              collect_inputs (keep has_no_type cells) (calculate_rgbpp_cell_capacity (some xudt))
                max_fee none
          ok (record {
            inputs = more.inputs ++ collected.inputs;
            sum_inputs_capacity = collected.sum_inputs_capacity + more.sum_inputs_capacity;
            sum_amount = collected.sum_amount;
          }))
        else ok collected)

  -- The cells of the token that pay the amount, with what is added to them.
  unfoldable pub collect_for_jump : Address → Script → ℕ → ℕ → CkbResult Collected
  collect_for_jump a xudt amount sent_capacity = do
    cells ← get_cells (record {
      lock = a.lock;
      type_script = some xudt;
      is_data_must_be_empty = true;
      output_capacity_range = none;
    })
    throw_if (length cells == 0) CkbError.no_xudt_live_cell
    collected ← collect_udt_inputs cells amount
    fund a.lock xudt sent_capacity collected

  unfoldable pub jump_tx : List Dep → Collected → List (CellOutput × Hex) → RawTx
  jump_tx deps r outputs = record {
    cell_deps = deps;
    inputs = r.inputs;
    outputs = map (λ o. o.0) outputs;
    outputs_data = map (λ o. o.1) outputs;
    witnesses = map (λ i. []) r.inputs;
  }

  -- From the outputs of the receivers on: the changes, the cell deps and the fee.
  unfoldable pub complete :
      Address
      → BtcTestnetType
      → Script
      → Option CellDepsObject
      → Option ℕ
      → Option ℕ
      → Collected
      → List (CellOutput × Hex)
      → ℕ
      → ℕ
      → CkbResult JumpTx
  complete a net xudt object size rate r sent_outputs sent_capacity sent = do
    let before = change_capacity a.lock xudt r sent_capacity sent
    let fixed_outputs = sent_outputs ++ udt_change a.lock xudt r.sum_amount sent
    deps ← udt_cell_deps w false a.is_mainnet net xudt object
    let draft = jump_tx deps r (fixed_outputs ++ change_output a.lock before ∷ [])
    let fee =
        calculate_transaction_fee
          (w.transaction_size draft + or_else size rgbpp_tx_witness_max_size) rate
    let change = before +ℤ (pos max_fee -ℤ pos fee)
    ok (record {
      tx = jump_tx deps r (fixed_outputs ++ change_output a.lock change ∷ []);
      sum_inputs_capacity = r.sum_inputs_capacity;
      estimated_fee = fee;
      change = change;
    })

  unfoldable pub gen_ckb_batch_jump_btc_virtual_tx : BatchJumpProps → CkbResult JumpTx
  gen_ckb_batch_jump_btc_virtual_tx p = do
    let a = p.from_address
    let xudt = w.unpack_script p.xudt_type_bytes
    throw_if
        (not (is_type_asset_supported w xudt a.is_mainnet (is_offline_mode p.vendor_cell_deps)))
        CkbError.type_asset_not_supported
    let sent = sum_transfer_amount p.rgbpp_receivers
    let sent_capacity = calculate_rgbpp_cell_capacity (some xudt) * length p.rgbpp_receivers
    r ← collect_for_jump a xudt sent sent_capacity
    complete a p.btc_testnet_type xudt (given_or p.vendor_cell_deps fetched)
        p.witness_lock_placeholder_size p.ckb_fee_rate r
        (map (jumped_output a p.btc_testnet_type xudt) p.rgbpp_receivers) sent_capacity sent
