-- ===== src/Btc/RgbppTests.antt =====
-- A virtual transaction and the Bitcoin transaction for it, at which the theorem on
-- `createSendRgbppUtxosBuilder` is applied.
use rgbpp_sdk.Common.{◌+◌, ◌*◌, String, true, false, Option, none, some, [], ◌∷◌, length, ◌≡◌, refl}
use rgbpp_sdk.Common.Int.{pos, ◌+ℤ◌, ◌-ℤ◌}
use rgbpp_sdk.Btc.Error.{ok}
use rgbpp_sdk.Btc.Types.{World, p2wpkh, testnet, to_address, to_script, op, push}
use rgbpp_sdk.Btc.Utils.{
  remove0x, to_x_only, btc_utxo_dust_limit, rgbpp_utxo_dust_limit, is_supported_type,
}
use rgbpp_sdk.Btc.Embed.{
  is_op_return_chunks, is_op_return_script_pubkey, bytes_to_op_return, hex_to_op_return,
}
use rgbpp_sdk.Btc.Utxos.{
  utxo_to_input, lookup, add_address_to_pubkey_map, fill_utxo_pubkey, prepare_utxo_inputs,
}
use rgbpp_sdk.Btc.Cache.{get_utxos, set_utxos, clean_utxos}
use rgbpp_sdk.Btc.Source.{
  is_after, sort_rows, is_excluded, collect_from, utxos_of_rows, optional_cache_utxos,
  collect_satoshi,
}
use rgbpp_sdk.Btc.Source.Query.{BtcTransaction, found_of, get_output, get_utxo}
use rgbpp_sdk.Btc.Builder.Outputs.{
  new_builder, is_input_of, has_input, inputs_total, outputs_total, summary, no_other_address,
  can_inject_change_to_outputs, add_input, add_inputs, output_target, is_op_return_target, is_dust,
  push_output, add_output, add_outputs,
}
use rgbpp_sdk.Btc.Builder.Deduct.{collect_amount, take_from, deduct}
use rgbpp_sdk.Btc.Builder.Inject.{
  change_of, goes_to, return_to, from_outputs, is_short_change, change_address_of, change_props,
  satoshi_props, take_collected, collect_more, from_address, for_change, gather, give_change,
  new_change, change_with, inject_satoshi, inject_change,
}
use rgbpp_sdk.Btc.Builder.Fee.{
  virtual_size, Paid, is_expected, restore, forget, calculate_fee, current_fee_rate, return_props,
  collect_props, fee_round, fee_loop, pay_fee,
}
use rgbpp_sdk.Btc.Api.SendUtxos.{
  Limits, pubkeys_of, fee_props, must_be_confirmed, create_send_utxos_builder,
}
use rgbpp_sdk.Btc.Api.SendRgbppUtxos.{
  SendRgbppUtxosProps, RgbppLockArgs, is_mainnet, is_same_utxo, receiver_at, rgbpp_output,
  has_wrong_lock, typed_length, rgbpp_outputs, same_paymaster, mismatch, paymaster_outputs,
  chosen_paymaster, commitment_output, of_ckb, push_inputs, sum_of_outputs, lock_args_list,
  query_utxos, rgbpp_inputs, sum_of_inputs, check_inputs_sufficient, is_paymaster_needed,
  merged_outputs, send_props, committed_part, create_send_rgbpp_utxos_builder,
}
use rgbpp_sdk.Btc.Api.SendRgbppUtxos.Bound.{IsBound, create_send_rgbpp_utxos_builder-IsBound}
use rgbpp_sdk.Ckb.Types.{Hex, by_type, OutPoint, CellOutput}
use rgbpp_sdk.Ckb.Constants.{
  testnet_rgbpp_lock_script, get_rgbpp_lock_script, get_btc_time_lock_script,
}
use rgbpp_sdk.Ckb.Codec.{to_le}
use rgbpp_sdk.Ckb.Scripts.{
  CkbWorld, hex_eq, hash_type_eq, is_lock_equal, is_rgbpp_lock_cell, is_btc_time_lock_cell,
}
use rgbpp_sdk.Ckb.Capacity.{type_size, cell_size, calculate_cell_occupied_capacity}
use rgbpp_sdk.Ckb.Commitment.{
  is_short, assert_outputs_capacity_sufficient, inputs_bytes, outputs_bytes, preimage,
  calculate_commitment,
}

abbrev world : World
world = record {
  from_hex = λ s. [];
  decompile = λ script. elim script [ [] ↦ none | b ∷ bs ↦ some (op 106 ∷ push (b ∷ bs) ∷ []) ];
  embed = λ bytes. bytes;
  is_p2tr_script = λ s. false;
  address_type_of = λ a. p2wpkh;
  script_pk_of = λ a. a;
  utxos = λ n q. record { txid = "ab"; vout = 0; value = pos 9000; block_height = some 9 } ∷ [];
  is_confirmed = λ h. true;
  fastest_fee = 2;
  measure = λ inputs outputs. record {
    ins = length inputs;
    with_witness = 12 + 149 * length inputs + 31 * length outputs;
    without_witness = 10 + 41 * length inputs + 31 * length outputs;
  };
}

abbrev ckb_world : CkbWorld
ckb_world = record {
  serialize_script = λ s. s.args;
  unpack_script = λ bytes. record { code_hash = "xudt"; hash_type = by_type; args = bytes };
  serialize_out_point = λ o. o.index ∷ [];
  serialize_output = λ o. o.lock.args;
  sha256 = λ bytes. 9 ∷ length bytes ∷ [];
  transaction_size = λ tx. 500;
  size_to_sign = λ tx. 500;
  script_to_hash = λ s. s.args;
  serialize_input = λ o. o.index ∷ [];
  blake2b = λ bytes. bytes;
  pack_btc_time_lock = λ lock after tx_id. after ∷ tx_id;
  unpack_btc_time_lock =
      λ args. (record { code_hash = "time"; hash_type = by_type; args = args }, (6, args));
  pack_rgbpp_unlock = λ inputs outputs btc_tx proof. inputs ∷ outputs ∷ btc_tx;
  pack_btc_time_unlock = λ proof. proof;
  serialize_witness_lock = λ lock. lock;
  fetched_tokens = [];
}

abbrev chain : String → Option BtcTransaction
chain h = some (record {
  vouts = record { script_pk = "00"; address = "alice"; value = pos 5000 } ∷ [];
  confirmed = true;
})

abbrev cell : CellOutput
cell = record {
  capacity = 30000000000;
  lock = record testnet_rgbpp_lock_script { args = 1 ∷ [] };
  type_script = some (record { code_hash = "xudt"; hash_type = by_type; args = 7 ∷ [] });
}

abbrev live : OutPoint → Option CellOutput
live o = some cell

abbrev unpacked : Hex → RgbppLockArgs
unpacked args = record { btc_tx_id = "cc"; out_index = 0 }

abbrev limits : Limits
limits = record { rounds = 4; depth = 3; key = "k" }

abbrev sending : SendRgbppUtxosProps
sending = record {
  ckb_virtual_tx = record {
    inputs = record { tx_hash = "aa"; index = 0 } ∷ record { tx_hash = "aa"; index = 1 } ∷ [];
    outputs = (cell, 5 ∷ []) ∷ [];
  };
  commitment = 9 ∷ 2 ∷ [];
  tos = some (some "bob" ∷ []);
  paymaster = some ("carol", pos 7000);
  need_paymaster = none;
  rgbpp_min_utxo_satoshi = none;
  source = record { network_type = testnet; cache = []; asked = 0 };
  from_address = "alice";
  fee_rate = none;
  from_pubkey = none;
  change_address = none;
  min_utxo_satoshi = none;
  only_confirmed_utxos = some true;
  exclude_utxos = none;
  pubkey_map = none;
}

abbrev result : Paid
result = record {
  builder = record {
    inputs =
        record {
          inputs_data = record {
            hash = "cc";
            index = 0;
            value = pos 5000;
            script = [];
            tap_internal_key = none;
          };
          utxo = record {
            txid = "cc";
            vout = 0;
            value = pos 5000;
            script_pk = "00";
            address_type = p2wpkh;
            address = "alice";
            pubkey = none;
          };
        }
        ∷ [];
    outputs =
        record {
          target = to_script (9 ∷ 2 ∷ []);
          value = pos 0;
          fixed = true;
          protected = false;
          min_utxo_satoshi = none;
        }
        ∷ record {
          target = to_address "bob";
          value = pos 546;
          fixed = true;
          protected = false;
          min_utxo_satoshi = some (pos 546);
        }
        ∷ record {
          target = to_address "alice";
          value = pos 4110;
          fixed = false;
          protected = false;
          min_utxo_satoshi = none;
        }
        ∷ [];
    source = record { network_type = testnet; cache = []; asked = 0 };
    only_non_rgbpp_utxos = true;
    only_confirmed_utxos = true;
    min_utxo_satoshi = pos 1000;
    fee_rate = none;
  };
  fee = 344;
  fee_rate = 2;
  change_index = pos 2;
}

ran :
    create_send_rgbpp_utxos_builder world ckb_world chain live unpacked none limits sending
    ≡ ok result
unfolding remove0x to_x_only btc_utxo_dust_limit is_supported_type is_op_return_chunks
    is_op_return_script_pubkey bytes_to_op_return hex_to_op_return utxo_to_input get_utxos set_utxos
    clean_utxos is_after sort_rows is_excluded collect_from utxos_of_rows optional_cache_utxos
    collect_satoshi is_input_of has_input inputs_total outputs_total summary no_other_address
    can_inject_change_to_outputs add_input add_inputs output_target is_op_return_target is_dust
    push_output add_output add_outputs deduct take_from collect_amount change_of goes_to return_to
    from_outputs is_short_change change_address_of change_props satoshi_props take_collected
    collect_more from_address for_change gather give_change new_change change_with inject_satoshi
    inject_change virtual_size is_expected restore forget calculate_fee current_fee_rate
    return_props collect_props fee_round fee_loop pay_fee ◌+ℤ◌ ◌-ℤ◌ new_builder lookup
    add_address_to_pubkey_map fill_utxo_pubkey prepare_utxo_inputs pubkeys_of fee_props
    must_be_confirmed create_send_utxos_builder found_of get_output get_utxo is_mainnet is_same_utxo
    receiver_at rgbpp_output has_wrong_lock typed_length rgbpp_outputs same_paymaster mismatch
    paymaster_outputs chosen_paymaster commitment_output of_ckb push_inputs sum_of_outputs
    lock_args_list query_utxos rgbpp_inputs sum_of_inputs check_inputs_sufficient
    is_paymaster_needed merged_outputs send_props committed_part create_send_rgbpp_utxos_builder
    rgbpp_utxo_dust_limit to_le get_rgbpp_lock_script get_btc_time_lock_script hex_eq hash_type_eq
    is_lock_equal is_rgbpp_lock_cell is_btc_time_lock_cell type_size cell_size
    calculate_cell_occupied_capacity is_short assert_outputs_capacity_sufficient inputs_bytes
    outputs_bytes preimage calculate_commitment
ran = refl

create_send_rgbpp_utxos_builder-IsBound_example :
    IsBound world ckb_world chain live unpacked none sending result
create_send_rgbpp_utxos_builder-IsBound_example =
    create_send_rgbpp_utxos_builder-IsBound world ckb_world chain live unpacked none limits sending
      result ran
