-- ===== src/Btc/Tests.antt =====
-- A world and a transaction in it, at which the theorems are applied.
use rgbpp_sdk.Common.{
  suc, ◌≢◌, ◌+◌, ◌*◌, String, true, false, Option, none, some, List, [], ◌∷◌, ◌++◌, length, ◌≡◌,
  refl, arith, All, ◌⊎◌, inl,
}
use rgbpp_sdk.Common.Int.{ℤ, pos, ◌+ℤ◌, ◌-ℤ◌, ◌≤ℤ◌}
use rgbpp_sdk.Btc.Error.{out_of_fuel, ok}
use rgbpp_sdk.Btc.Builder.Termination.{inject_satoshi_ends, inject_change_ends}
use rgbpp_sdk.Btc.Types.{
  TxMeasure, Bytes, BaseOutput, Utxo, TxInput, TxOutput, Row, UtxoParams, World, Source, TxBuilder,
  p2wpkh, testnet, to_address, at_address,
}
use rgbpp_sdk.Btc.Utils.{remove0x, to_x_only, btc_utxo_dust_limit, is_supported_type}
use rgbpp_sdk.Btc.Embed.{
  is_op_return_chunks, is_op_return_script_pubkey, bytes_to_op_return, hex_to_op_return,
}
use rgbpp_sdk.Btc.Utxos.{
  utxo_to_input, lookup, add_address_to_pubkey_map, fill_utxo_pubkey, prepare_utxo_inputs,
}
use rgbpp_sdk.Btc.Cache.{get_utxos, set_utxos, clean_utxos}
use rgbpp_sdk.Btc.Source.{
  is_after, sort_rows, is_excluded, collect_from, utxos_of_rows, optional_cache_utxos,
  collect_satoshi,
}
use rgbpp_sdk.Btc.Builder.Outputs.{
  new_builder, is_input_of, has_input, inputs_total, outputs_total, summary, no_other_address,
  can_inject_change_to_outputs, add_input, add_inputs, output_target, is_op_return_target, is_dust,
  push_output, add_output, add_outputs,
}
use rgbpp_sdk.Btc.Builder.Deduct.{collect_amount, take_from, deduct}
use rgbpp_sdk.Btc.Builder.Inject.{
  SatoshiProps, ChangeProps, Injected, change_of, goes_to, return_to, from_outputs, is_short_change,
  change_address_of, change_props, satoshi_props, take_collected, collect_more, from_address,
  for_change, gather, give_change, new_change, change_with, inject_satoshi, inject_change,
}
use rgbpp_sdk.Btc.Builder.Fee.{
  virtual_size, FeeProps, Paid, is_expected, restore, forget, calculate_fee, current_fee_rate,
  return_props, collect_props, fee_round, fee_loop, pay_fee,
}
use rgbpp_sdk.Btc.Builder.Surplus.{moved, inject_satoshi-surplus, inject_change-surplus}
use rgbpp_sdk.Btc.Builder.Totals.{surplus}
use rgbpp_sdk.Btc.Builder.FeeBounds.{IsPaid, pay_fee-IsPaid}
use rgbpp_sdk.Btc.Builder.FeeSteps.{
  pay_fee-fixed, pay_fee-inputs, pay_fee-IsClean, pay_fee-AreDistinct,
}
use rgbpp_sdk.Btc.Builder.Kept.{fixed_outputs}
use rgbpp_sdk.Btc.Builder.NoDust.{IsClean}
use rgbpp_sdk.Btc.Builder.Distinct.{AreDistinct}
use rgbpp_sdk.Btc.Source.Collect.{collect_satoshi-IsFree, IsFree, IsPart, free_total, value_total}
use rgbpp_sdk.Btc.Source.Query.{
  BtcTransaction, found_of, get_output, get_utxo, IsOutputOf, get_utxo-IsOutputOf,
}
use rgbpp_sdk.Btc.Api.SendUtxos.{
  SendUtxosProps, Limits, pubkeys_of, fee_props, must_be_confirmed, create_send_utxos_builder,
  IsSent, create_send_utxos_builder-IsSent, create_send_utxos_builder-IsPaid,
}
use rgbpp_sdk.Btc.Api.SendRbf.{
  SendRbfProps, PreviousTx, floor_div, values_of, previous_values, previous_fee, outpoints_from,
  address_of, open_for_change, set_at, differ, chosen_change, rebuild_inputs, rebuild_output,
  rebuild_outputs, take_change_output, set_change, offered_rate, is_low_rate, rbf_props,
  create_send_rbf_builder, IsReplaced, create_send_rbf_builder-IsReplaced,
}

abbrev rows : List Row
rows =
    record { txid = "aa"; vout = 1; value = pos 3000; block_height = some 7 }
    ∷ record { txid = "ab"; vout = 0; value = pos 9000; block_height = some 9 }
    ∷ []

abbrev world : World
world = record {
  from_hex = λ s. [];
  decompile = λ script. none;
  embed = λ bytes. bytes;
  is_p2tr_script = λ s. false;
  address_type_of = λ a. p2wpkh;
  script_pk_of = λ a. a;
  utxos = λ n q. rows;
  is_confirmed = λ h. true;
  fastest_fee = 2;
  measure = λ inputs outputs. record {
    ins = length inputs;
    with_witness = 12 + 149 * length inputs + 31 * length outputs;
    without_witness = 10 + 41 * length inputs + 31 * length outputs;
  };
}

abbrev source : Source
source = record { network_type = testnet; cache = []; asked = 0 }

abbrev payment : TxOutput
payment = record {
  target = to_address "bob";
  value = pos 2000;
  fixed = true;
  protected = false;
  min_utxo_satoshi = none;
}

abbrev before : TxBuilder
before = record {
  inputs = [];
  outputs = payment ∷ [];
  source = source;
  only_non_rgbpp_utxos = true;
  only_confirmed_utxos = false;
  min_utxo_satoshi = pos 1000;
  fee_rate = none;
}

abbrev paying : FeeProps
paying = record {
  address = "alice";
  public_key = none;
  change_address = none;
  deduct_from_outputs = none;
  exclude_utxos = none;
  fee_rate = none;
}

abbrev chain : String → Option BtcTransaction
chain h = some (record {
  vouts = record { script_pk = "00"; address = "alice"; value = pos 5000 } ∷ [];
  confirmed = true;
})

abbrev scripts : Bytes → Option String
scripts s = some "bob"

abbrev limits : Limits
limits = record { rounds = 4; depth = 3; key = "k" }

abbrev send : SendUtxosProps
send = record {
  inputs =
      record {
        txid = "cc";
        vout = 0;
        value = pos 546;
        script_pk = "00";
        address_type = p2wpkh;
        address = "alice";
        pubkey = none;
      }
      ∷ [];
  outputs =
      record {
        target = at_address "bob";
        value = pos 2000;
        fixed = true;
        protected = false;
        min_utxo_satoshi = none;
      }
      ∷ [];
  source = source;
  from_address = "alice";
  fee_rate = none;
  from_pubkey = some "02";
  change_address = none;
  min_utxo_satoshi = none;
  only_confirmed_utxos = some true;
  exclude_utxos = none;
  skip_inputs_validation = none;
  pubkey_map = none;
}

abbrev rbf : SendRbfProps
rbf = record {
  from_address = "alice";
  source = source;
  fee_rate = some 9;
  from_pubkey = none;
  change_index = some 1;
  change_address = none;
  min_utxo_satoshi = none;
  only_confirmed_utxos = none;
  require_valid_outputs_value = none;
  require_greater_fee_and_rate = none;
  pubkey_map = none;
}

abbrev previous : PreviousTx
previous = record {
  ins = record { txid = "0xcc"; vout = 0 } ∷ [];
  outs =
      record { script = 1 ∷ []; value = pos 3000 }
      ∷ record { script = 2 ∷ []; value = pos 1500 }
      ∷ [];
  virtual_size = 140;
  id = "dd";
}

abbrev satoshi : SatoshiProps
satoshi = record {
  address = "alice";
  public_key = none;
  target_amount = pos 2500;
  change_address = none;
  inject_collected = none;
  deduct_from_outputs = none;
  internal_cache_key = none;
  exclude_utxos = none;
}

abbrev change : ChangeProps
change = record {
  amount = pos 700;
  address = "alice";
  from_address = "alice";
  from_public_key = none;
  internal_cache_key = none;
  exclude_utxos = none;
}

abbrev asked : UtxoParams
asked = record {
  address = "alice";
  only_non_rgbpp_utxos = true;
  only_confirmed = false;
  min_satoshi = none;
  no_cache = true;
}

abbrev spent : List BaseOutput
spent = record { txid = "aa"; vout = 1 } ∷ []

abbrev result_fee : Paid
result_fee = record {
  builder = record {
    inputs =
        record {
          inputs_data = record {
            hash = "aa";
            index = 1;
            value = pos 3000;
            script = [];
            tap_internal_key = none;
          };
          utxo = record {
            txid = "aa";
            vout = 1;
            value = pos 3000;
            script_pk = "alice";
            address_type = p2wpkh;
            address = "alice";
            pubkey = none;
          };
        }
        ∷ record {
          inputs_data = record {
            hash = "ab";
            index = 0;
            value = pos 9000;
            script = [];
            tap_internal_key = none;
          };
          utxo = record {
            txid = "ab";
            vout = 0;
            value = pos 9000;
            script_pk = "alice";
            address_type = p2wpkh;
            address = "alice";
            pubkey = none;
          };
        }
        ∷ [];
    outputs =
        record {
          target = to_address "bob";
          value = pos 2000;
          fixed = true;
          protected = false;
          min_utxo_satoshi = none;
        }
        ∷ record {
          target = to_address "alice";
          value = pos 9582;
          fixed = false;
          protected = false;
          min_utxo_satoshi = none;
        }
        ∷ [];
    source = record { network_type = testnet; cache = []; asked = 3 };
    only_non_rgbpp_utxos = true;
    only_confirmed_utxos = false;
    min_utxo_satoshi = pos 1000;
    fee_rate = none;
  };
  fee = 418;
  fee_rate = 2;
  change_index = pos 1;
}

ran_fee : pay_fee world 4 3 paying "k" before ≡ ok result_fee
unfolding remove0x to_x_only btc_utxo_dust_limit is_supported_type is_op_return_chunks
    is_op_return_script_pubkey bytes_to_op_return hex_to_op_return utxo_to_input get_utxos set_utxos
    clean_utxos is_after sort_rows is_excluded collect_from utxos_of_rows optional_cache_utxos
    collect_satoshi is_input_of has_input inputs_total outputs_total summary no_other_address
    can_inject_change_to_outputs add_input add_inputs output_target is_op_return_target is_dust
    push_output add_output add_outputs deduct take_from collect_amount change_of goes_to return_to
    from_outputs is_short_change change_address_of change_props satoshi_props take_collected
    collect_more from_address for_change gather give_change new_change change_with inject_satoshi
    inject_change virtual_size is_expected restore forget calculate_fee current_fee_rate
    return_props collect_props fee_round fee_loop pay_fee ◌+ℤ◌ ◌-ℤ◌
ran_fee = refl

abbrev result_satoshi : Injected
result_satoshi = record {
  builder = record {
    inputs =
        record {
          inputs_data = record {
            hash = "aa";
            index = 1;
            value = pos 3000;
            script = [];
            tap_internal_key = none;
          };
          utxo = record {
            txid = "aa";
            vout = 1;
            value = pos 3000;
            script_pk = "alice";
            address_type = p2wpkh;
            address = "alice";
            pubkey = none;
          };
        }
        ∷ record {
          inputs_data = record {
            hash = "ab";
            index = 0;
            value = pos 9000;
            script = [];
            tap_internal_key = none;
          };
          utxo = record {
            txid = "ab";
            vout = 0;
            value = pos 9000;
            script_pk = "alice";
            address_type = p2wpkh;
            address = "alice";
            pubkey = none;
          };
        }
        ∷ [];
    outputs =
        record {
          target = to_address "bob";
          value = pos 2000;
          fixed = true;
          protected = false;
          min_utxo_satoshi = none;
        }
        ∷ record {
          target = to_address "alice";
          value = pos 9500;
          fixed = false;
          protected = false;
          min_utxo_satoshi = none;
        }
        ∷ [];
    source = record { network_type = testnet; cache = []; asked = 2 };
    only_non_rgbpp_utxos = true;
    only_confirmed_utxos = false;
    min_utxo_satoshi = pos 1000;
    fee_rate = none;
  };
  collected = pos 3000;
  change_index = pos 1;
  change_amount = pos 500;
}

ran_satoshi : inject_satoshi world 3 satoshi before ≡ ok result_satoshi
unfolding remove0x to_x_only btc_utxo_dust_limit is_supported_type is_op_return_chunks
    is_op_return_script_pubkey bytes_to_op_return hex_to_op_return utxo_to_input get_utxos set_utxos
    clean_utxos is_after sort_rows is_excluded collect_from utxos_of_rows optional_cache_utxos
    collect_satoshi is_input_of has_input inputs_total outputs_total summary no_other_address
    can_inject_change_to_outputs add_input add_inputs output_target is_op_return_target is_dust
    push_output add_output add_outputs deduct take_from collect_amount change_of goes_to return_to
    from_outputs is_short_change change_address_of change_props satoshi_props take_collected
    collect_more from_address for_change gather give_change new_change change_with inject_satoshi
    inject_change virtual_size is_expected restore forget calculate_fee current_fee_rate
    return_props collect_props fee_round fee_loop pay_fee ◌+ℤ◌ ◌-ℤ◌
ran_satoshi = refl

abbrev result_change : TxBuilder × ℤ
result_change = (
  record {
    inputs =
        record {
          inputs_data = record {
            hash = "aa";
            index = 1;
            value = pos 3000;
            script = [];
            tap_internal_key = none;
          };
          utxo = record {
            txid = "aa";
            vout = 1;
            value = pos 3000;
            script_pk = "alice";
            address_type = p2wpkh;
            address = "alice";
            pubkey = none;
          };
        }
        ∷ [];
    outputs =
        record {
          target = to_address "bob";
          value = pos 2000;
          fixed = true;
          protected = false;
          min_utxo_satoshi = none;
        }
        ∷ record {
          target = to_address "alice";
          value = pos 3700;
          fixed = false;
          protected = false;
          min_utxo_satoshi = none;
        }
        ∷ [];
    source = record { network_type = testnet; cache = []; asked = 1 };
    only_non_rgbpp_utxos = true;
    only_confirmed_utxos = false;
    min_utxo_satoshi = pos 1000;
    fee_rate = none;
  },
  pos 1,
)

ran_change : inject_change world 3 change before ≡ ok result_change
unfolding remove0x to_x_only btc_utxo_dust_limit is_supported_type is_op_return_chunks
    is_op_return_script_pubkey bytes_to_op_return hex_to_op_return utxo_to_input get_utxos set_utxos
    clean_utxos is_after sort_rows is_excluded collect_from utxos_of_rows optional_cache_utxos
    collect_satoshi is_input_of has_input inputs_total outputs_total summary no_other_address
    can_inject_change_to_outputs add_input add_inputs output_target is_op_return_target is_dust
    push_output add_output add_outputs deduct take_from collect_amount change_of goes_to return_to
    from_outputs is_short_change change_address_of change_props satoshi_props take_collected
    collect_more from_address for_change gather give_change new_change change_with inject_satoshi
    inject_change virtual_size is_expected restore forget calculate_fee current_fee_rate
    return_props collect_props fee_round fee_loop pay_fee ◌+ℤ◌ ◌-ℤ◌
ran_change = refl

abbrev result_collect : List Utxo × ℤ × Source
result_collect = (
  record {
    txid = "ab";
    vout = 0;
    value = pos 9000;
    script_pk = "alice";
    address_type = p2wpkh;
    address = "alice";
    pubkey = none;
  }
      ∷ [],
  pos 9000,
  record { network_type = testnet; cache = []; asked = 1 },
)

ran_collect : collect_satoshi world asked (pos 20000) true none spent source ≡ ok result_collect
unfolding remove0x to_x_only btc_utxo_dust_limit is_supported_type is_op_return_chunks
    is_op_return_script_pubkey bytes_to_op_return hex_to_op_return utxo_to_input get_utxos set_utxos
    clean_utxos is_after sort_rows is_excluded collect_from utxos_of_rows optional_cache_utxos
    collect_satoshi is_input_of has_input inputs_total outputs_total summary no_other_address
    can_inject_change_to_outputs add_input add_inputs output_target is_op_return_target is_dust
    push_output add_output add_outputs deduct take_from collect_amount change_of goes_to return_to
    from_outputs is_short_change change_address_of change_props satoshi_props take_collected
    collect_more from_address for_change gather give_change new_change change_with inject_satoshi
    inject_change virtual_size is_expected restore forget calculate_fee current_fee_rate
    return_props collect_props fee_round fee_loop pay_fee ◌+ℤ◌ ◌-ℤ◌
ran_collect = refl

abbrev result_get : Utxo
result_get = record {
  txid = "cc";
  vout = 0;
  value = pos 5000;
  script_pk = "00";
  address_type = p2wpkh;
  address = "alice";
  pubkey = none;
}

ran_get : get_utxo world chain "0xcc" 0 true ≡ ok (some result_get)
unfolding remove0x to_x_only btc_utxo_dust_limit is_supported_type is_op_return_chunks
    is_op_return_script_pubkey bytes_to_op_return hex_to_op_return utxo_to_input get_utxos set_utxos
    clean_utxos is_after sort_rows is_excluded collect_from utxos_of_rows optional_cache_utxos
    collect_satoshi is_input_of has_input inputs_total outputs_total summary no_other_address
    can_inject_change_to_outputs add_input add_inputs output_target is_op_return_target is_dust
    push_output add_output add_outputs deduct take_from collect_amount change_of goes_to return_to
    from_outputs is_short_change change_address_of change_props satoshi_props take_collected
    collect_more from_address for_change gather give_change new_change change_with inject_satoshi
    inject_change virtual_size is_expected restore forget calculate_fee current_fee_rate
    return_props collect_props fee_round fee_loop pay_fee ◌+ℤ◌ ◌-ℤ◌ new_builder lookup
    add_address_to_pubkey_map fill_utxo_pubkey prepare_utxo_inputs pubkeys_of fee_props
    must_be_confirmed create_send_utxos_builder found_of get_output get_utxo floor_div values_of
    previous_values previous_fee outpoints_from address_of open_for_change set_at differ
    chosen_change rebuild_inputs rebuild_output rebuild_outputs take_change_output set_change
    offered_rate is_low_rate rbf_props create_send_rbf_builder
ran_get = refl

abbrev result_send : Paid
result_send = record {
  builder = record {
    inputs =
        record {
          inputs_data = record {
            hash = "cc";
            index = 0;
            value = pos 546;
            script = [];
            tap_internal_key = none;
          };
          utxo = record {
            txid = "cc";
            vout = 0;
            value = pos 546;
            script_pk = "00";
            address_type = p2wpkh;
            address = "alice";
            pubkey = none;
          };
        }
        ∷ record {
          inputs_data = record {
            hash = "aa";
            index = 1;
            value = pos 3000;
            script = [];
            tap_internal_key = none;
          };
          utxo = record {
            txid = "aa";
            vout = 1;
            value = pos 3000;
            script_pk = "alice";
            address_type = p2wpkh;
            address = "alice";
            pubkey = some "02";
          };
        }
        ∷ [];
    outputs =
        record {
          target = to_address "bob";
          value = pos 2000;
          fixed = true;
          protected = false;
          min_utxo_satoshi = none;
        }
        ∷ record {
          target = to_address "alice";
          value = pos 1128;
          fixed = false;
          protected = false;
          min_utxo_satoshi = none;
        }
        ∷ [];
    source = record { network_type = testnet; cache = []; asked = 1 };
    only_non_rgbpp_utxos = true;
    only_confirmed_utxos = true;
    min_utxo_satoshi = pos 1000;
    fee_rate = none;
  };
  fee = 418;
  fee_rate = 2;
  change_index = pos 1;
}

ran_send : create_send_utxos_builder world limits send ≡ ok result_send
unfolding remove0x to_x_only btc_utxo_dust_limit is_supported_type is_op_return_chunks
    is_op_return_script_pubkey bytes_to_op_return hex_to_op_return utxo_to_input get_utxos set_utxos
    clean_utxos is_after sort_rows is_excluded collect_from utxos_of_rows optional_cache_utxos
    collect_satoshi is_input_of has_input inputs_total outputs_total summary no_other_address
    can_inject_change_to_outputs add_input add_inputs output_target is_op_return_target is_dust
    push_output add_output add_outputs deduct take_from collect_amount change_of goes_to return_to
    from_outputs is_short_change change_address_of change_props satoshi_props take_collected
    collect_more from_address for_change gather give_change new_change change_with inject_satoshi
    inject_change virtual_size is_expected restore forget calculate_fee current_fee_rate
    return_props collect_props fee_round fee_loop pay_fee ◌+ℤ◌ ◌-ℤ◌ new_builder lookup
    add_address_to_pubkey_map fill_utxo_pubkey prepare_utxo_inputs pubkeys_of fee_props
    must_be_confirmed create_send_utxos_builder found_of get_output get_utxo floor_div values_of
    previous_values previous_fee outpoints_from address_of open_for_change set_at differ
    chosen_change rebuild_inputs rebuild_output rebuild_outputs take_change_output set_change
    offered_rate is_low_rate rbf_props create_send_rbf_builder
ran_send = refl

abbrev result_rbf : Paid
result_rbf = record {
  builder = record {
    inputs =
        record {
          inputs_data = record {
            hash = "cc";
            index = 0;
            value = pos 5000;
            script = [];
            tap_internal_key = none;
          };
          utxo = record {
            txid = "cc";
            vout = 0;
            value = pos 5000;
            script_pk = "00";
            address_type = p2wpkh;
            address = "alice";
            pubkey = none;
          };
        }
        ∷ record {
          inputs_data = record {
            hash = "aa";
            index = 1;
            value = pos 3000;
            script = [];
            tap_internal_key = none;
          };
          utxo = record {
            txid = "aa";
            vout = 1;
            value = pos 3000;
            script_pk = "alice";
            address_type = p2wpkh;
            address = "alice";
            pubkey = none;
          };
        }
        ∷ [];
    outputs =
        record {
          target = to_address "bob";
          value = pos 3000;
          fixed = true;
          protected = false;
          min_utxo_satoshi = some (pos 3000);
        }
        ∷ record {
          target = to_address "bob";
          value = pos 3119;
          fixed = false;
          protected = false;
          min_utxo_satoshi = none;
        }
        ∷ [];
    source = record { network_type = testnet; cache = []; asked = 1 };
    only_non_rgbpp_utxos = true;
    only_confirmed_utxos = true;
    min_utxo_satoshi = pos 1000;
    fee_rate = some 9;
  };
  fee = 1881;
  fee_rate = 9;
  change_index = pos 1;
}

ran_rbf : create_send_rbf_builder world chain scripts limits rbf previous ≡ ok result_rbf
unfolding remove0x to_x_only btc_utxo_dust_limit is_supported_type is_op_return_chunks
    is_op_return_script_pubkey bytes_to_op_return hex_to_op_return utxo_to_input get_utxos set_utxos
    clean_utxos is_after sort_rows is_excluded collect_from utxos_of_rows optional_cache_utxos
    collect_satoshi is_input_of has_input inputs_total outputs_total summary no_other_address
    can_inject_change_to_outputs add_input add_inputs output_target is_op_return_target is_dust
    push_output add_output add_outputs deduct take_from collect_amount change_of goes_to return_to
    from_outputs is_short_change change_address_of change_props satoshi_props take_collected
    collect_more from_address for_change gather give_change new_change change_with inject_satoshi
    inject_change virtual_size is_expected restore forget calculate_fee current_fee_rate
    return_props collect_props fee_round fee_loop pay_fee ◌+ℤ◌ ◌-ℤ◌ new_builder lookup
    add_address_to_pubkey_map fill_utxo_pubkey prepare_utxo_inputs pubkeys_of fee_props
    must_be_confirmed create_send_utxos_builder found_of get_output get_utxo floor_div values_of
    previous_values previous_fee outpoints_from address_of open_for_change set_at differ
    chosen_change rebuild_inputs rebuild_output rebuild_outputs take_change_output set_change
    offered_rate is_low_rate rbf_props create_send_rbf_builder
ran_rbf = refl

no_debt : pos 0 ≤ℤ outputs_total before.outputs
unfolding outputs_total ◌+ℤ◌
no_debt = omega arith

clean : IsClean world before
unfolding is_dust is_op_return_target
clean = (refl, tt)

create_send_utxos_builder-IsSent_example : IsSent world send result_send.builder
create_send_utxos_builder-IsSent_example =
    create_send_utxos_builder-IsSent world limits send result_send ran_send

create_send_utxos_builder-IsPaid_example : IsPaid result_send.builder 418
create_send_utxos_builder-IsPaid_example =
    create_send_utxos_builder-IsPaid world limits send result_send (omega arith, tt) ran_send

create_send_rbf_builder-IsReplaced_example : IsReplaced world chain scripts rbf previous result_rbf
create_send_rbf_builder-IsReplaced_example =
    create_send_rbf_builder-IsReplaced world chain scripts limits rbf previous result_rbf ran_rbf

pay_fee-IsPaid_example : IsPaid result_fee.builder 418
pay_fee-IsPaid_example = pay_fee-IsPaid world 4 3 paying "k" before result_fee no_debt ran_fee

pay_fee-fixed_example : fixed_outputs result_fee.builder.outputs ≡ payment ∷ []
pay_fee-fixed_example = pay_fee-fixed world 4 3 paying "k" before result_fee ran_fee

pay_fee-inputs_example : (news : List TxInput) × (result_fee.builder.inputs ≡ [] ++ news)
pay_fee-inputs_example = pay_fee-inputs world 4 3 paying "k" before result_fee ran_fee

pay_fee-IsClean_example : IsClean world result_fee.builder
pay_fee-IsClean_example = pay_fee-IsClean world 4 3 paying "k" before result_fee clean ran_fee

pay_fee-AreDistinct_example : AreDistinct result_fee.builder.inputs
pay_fee-AreDistinct_example = pay_fee-AreDistinct world 4 3 paying "k" before result_fee tt ran_fee

inject_satoshi-surplus_example :
    surplus result_satoshi.builder ≡ moved false (surplus before) (pos 2500)
inject_satoshi-surplus_example =
    inject_satoshi-surplus world 3 satoshi before result_satoshi (inl (refl, omega arith))
      ran_satoshi

inject_change-surplus_example : surplus result_change.0 ≡ surplus before -ℤ pos 700
inject_change-surplus_example =
    inject_change-surplus world 3 change before result_change (omega arith) ran_change

collect_satoshi-IsFree_example :
    IsPart result_collect.0 (optional_cache_utxos world none asked source).0
    × All (IsFree spent) result_collect.0
    × (result_collect.1 ≡ value_total result_collect.0)
    × ((pos 20000 ≤ℤ pos 9000)
        ⊎ ((true ≡ true)
            × (pos 9000 ≡ free_total spent (optional_cache_utxos world none asked source).0)))
collect_satoshi-IsFree_example =
    collect_satoshi-IsFree world asked (pos 20000) true none spent source result_collect ran_collect

get_utxo-IsOutputOf_example : IsOutputOf world chain "0xcc" 0 true result_get
get_utxo-IsOutputOf_example = get_utxo-IsOutputOf world chain "0xcc" 0 true result_get ran_get

inject_satoshi_ends_example : inject_satoshi world (suc 1000) satoshi before ≢ out_of_fuel
inject_satoshi_ends_example = inject_satoshi_ends world 1000 satoshi before (omega arith)

limit_within_reach : pos 1000 ≤ℤ pos 700 +ℤ pos 300
unfolding ◌+ℤ◌
limit_within_reach = omega arith

inject_change_ends_example : inject_change world 300 change before ≢ out_of_fuel
inject_change_ends_example =
    inject_change_ends world 300 change before (omega arith) limit_within_reach

abbrev size : TxMeasure
size = record { ins = 1; with_witness = 192; without_witness = 113 }

abbrev steady : World
steady = record world { measure = λ inputs outputs. size }
