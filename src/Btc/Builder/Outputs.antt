-- ===== src/Btc/Builder/Outputs.antt =====
-- build.ts: `hasInput`, `addInput(s)`, `addOutput(s)`, `validateInputs`, `summary` and
-- `canInjectChangeToOutputs`.
use rgbpp_sdk.Common.{
  ℕ, String, Bool, true, false, not, ◌&&◌, Option, none, some, List, [], ◌∷◌, ◌++◌, any, str_eq,
  ◌==◌, if◌then◌else◌, or_else,
}
use rgbpp_sdk.Common.Int.{ℤ, pos, ◌+ℤ◌, ◌-ℤ◌, ltb_ℤ}
use rgbpp_sdk.Btc.Error.{ErrorCode, Result, ok, err, ◌>>=◌, ◌>>◌, throw_if}
use rgbpp_sdk.Btc.Types.{
  Utxo, TxInput, Target, to_address, to_script, TxOutput, InitTarget, at_address, at_script,
  with_data, with_hex, with_none, InitOutput, World, Source, TxBuilder,
}
use rgbpp_sdk.Btc.Utils.{btc_utxo_dust_limit, remove0x}
use rgbpp_sdk.Btc.Utxos.{utxo_to_input}
use rgbpp_sdk.Btc.Embed.{is_op_return_script_pubkey, bytes_to_op_return, hex_to_op_return}

-- The constructor: the defaults of the options, and the dust limit of the network.
unfoldable pub new_builder :
    Source → Option Bool → Option Bool → Option ℤ → Option ℕ → Result TxBuilder
new_builder source only_non_rgbpp only_confirmed min_satoshi fee_rate = do
  limit ← btc_utxo_dust_limit source.network_type
  ok (record {
    inputs = [];
    outputs = [];
    source = source;
    only_non_rgbpp_utxos = or_else only_non_rgbpp true;
    only_confirmed_utxos = or_else only_confirmed false;
    min_utxo_satoshi = or_else min_satoshi limit;
    fee_rate = fee_rate;
  })

unfoldable pub is_input_of : String → ℕ → TxInput → Bool
is_input_of hash index input =
    str_eq input.inputs_data.hash hash && (input.inputs_data.index == index)

unfoldable pub has_input : String → ℕ → TxBuilder → Bool
has_input hash index b = any (is_input_of hash index) b.inputs

unfoldable pub inputs_total : List TxInput → ℤ
inputs_total [] = pos 0
inputs_total (i ∷ is) = i.utxo.value +ℤ inputs_total is

unfoldable pub outputs_total : List TxOutput → ℤ
outputs_total [] = pos 0
outputs_total (o ∷ os) = o.value +ℤ outputs_total os

pub record Summary : Type 0 where
  pub inputs_total : ℤ
  pub outputs_total : ℤ
  pub need_return : ℤ
  pub need_collect : ℤ

-- `x > 0 ? x : 0`
abbrev pub positive : ℤ → ℤ
positive x = if ltb_ℤ (pos 0) x then x else pos 0

unfoldable pub summary : TxBuilder → Summary
summary b = record {
  inputs_total = inputs_total b.inputs;
  outputs_total = outputs_total b.outputs;
  need_return = positive (inputs_total b.inputs -ℤ outputs_total b.outputs);
  need_collect = positive (outputs_total b.outputs -ℤ inputs_total b.inputs);
}

-- `!('address' in output) || output.address === address`
unfoldable pub no_other_address : String → Target → Bool
no_other_address address (to_address a) = str_eq a address
no_other_address address (to_script s) = true

unfoldable pub can_inject_change_to_outputs : String → TxBuilder → Bool
can_inject_change_to_outputs address b =
    any (λ o. not o.fixed && no_other_address address o.target) b.outputs

module _ (w : World) where
  unfoldable pub add_input : Utxo → TxBuilder → Result TxBuilder
  add_input utxo b =
      if has_input utxo.txid utxo.vout b
      then err ErrorCode.duplicated_utxo
      else (do i ← utxo_to_input w utxo; ok (record b { inputs = b.inputs ++ (i ∷ []) }))

  unfoldable pub add_inputs : List Utxo → TxBuilder → Result TxBuilder
  add_inputs [] b = ok b
  add_inputs (u ∷ us) b = do b' ← add_input u b; add_inputs us b'

  -- `validateInputs`: the transaction of each input is confirmed.
  unfoldable pub validate_inputs : List TxInput → Result (Unit {0})
  validate_inputs [] = ok tt
  validate_inputs (i ∷ is) = do
    throw_if (not (w.is_confirmed (remove0x i.inputs_data.hash))) ErrorCode.unconfirmed_utxo
    validate_inputs is

  -- The target of an output that is to be added; data becomes an OP_RETURN script.
  unfoldable pub output_target : InitTarget → Option Target
  output_target (at_address a) = some (to_address a)
  output_target (at_script s) = some (to_script s)
  output_target (with_data bytes) = some (to_script (bytes_to_op_return w bytes))
  output_target (with_hex hex) = some (to_script (hex_to_op_return w hex))
  output_target with_none = none

  unfoldable pub is_op_return_target : Target → Bool
  is_op_return_target (to_address a) = false
  is_op_return_target (to_script s) = is_op_return_script_pubkey w s

  unfoldable pub is_dust : ℤ → TxOutput → Bool
  is_dust min o =
      not (is_op_return_target o.target) && ltb_ℤ o.value (or_else o.min_utxo_satoshi min)

  -- The last part of `addOutput`: the dust test.
  unfoldable pub push_output : TxOutput → TxBuilder → Result TxBuilder
  push_output o b =
      if is_dust b.min_utxo_satoshi o
      then err ErrorCode.dust_output
      else ok (record b { outputs = b.outputs ++ (o ∷ []) })

  unfoldable pub add_output : InitOutput → TxBuilder → Result TxBuilder
  add_output o b = elim (output_target o.target) [
    | none ↦ err ErrorCode.unsupported_output
    | some target ↦
        push_output
          (record {
            target = target;
            value = o.value;
            fixed = o.fixed;
            protected = o.protected;
            min_utxo_satoshi = o.min_utxo_satoshi;
          })
          b
  ]

  unfoldable pub add_outputs : List InitOutput → TxBuilder → Result TxBuilder
  add_outputs [] b = ok b
  add_outputs (o ∷ os) b = do b' ← add_output o b; add_outputs os b'
