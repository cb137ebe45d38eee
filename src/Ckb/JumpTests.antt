-- ===== src/Ckb/JumpTests.antt =====
-- Jumps, batch transfers and issuers' cells, at which the theorems are applied.
use rgbpp_sdk.Ckb.BatchTransfer.{BatchTransferProps, BatchTransferTx}
use rgbpp_sdk.Ckb.Capacity.{
  calculate_rgbpp_cell_capacity, calculate_transaction_fee, calculate_udt_cell_capacity,
  is_lock_args_size_exceeded,
}
use rgbpp_sdk.Ckb.CellDeps.{
  badge_deps, compatible_deps, compatible_part, dep_of_network, fetch_type_id_cell_deps, given_or,
  lock_deps, part_of, type_deps, udt_cell_deps, with_config,
}
use rgbpp_sdk.Ckb.Codec.{from_le, to_le}
use rgbpp_sdk.Ckb.Collector.{
  add_cell, amount_of, collect_inputs, collect_udt_inputs, has_no_data, inputs_from, takes_all,
  udt_from,
}
use rgbpp_sdk.Ckb.Collector.Pages.{get_cells, pages_from, search_key}
use rgbpp_sdk.Ckb.Constants.{
  get_btc_time_lock_dep, get_cluster_type_script, get_rgbpp_lock_dep, get_rgbpp_lock_script,
  get_spore_type_script, get_unique_type_dep, get_utxo_airdrop_badge_type_dep, get_xudt_dep,
  get_xudt_type_script, max_fee, min_capacity,
}
use rgbpp_sdk.Ckb.Error.{CkbError}
use rgbpp_sdk.Ckb.IssuerCell.{PaidTx, issuer_inputs, pay_from_issuer, sum_outputs, with_change_cell}
use rgbpp_sdk.Ckb.IssuerCell.Paid.{IsPaid, pay_from_issuer-IsPaid}
use rgbpp_sdk.Ckb.JumpToBtc.{
  BatchJumpProps, JumpTx, change_capacity, change_output, collect_for_jump, complete, fund,
  gen_ckb_batch_jump_btc_virtual_tx, jump_tx, jumped_output, sum_transfer_amount, udt_change,
}
use rgbpp_sdk.Ckb.JumpToBtc.Balance.{IsBalanced, gen_ckb_batch_jump_btc_virtual_tx-IsBalanced}
use rgbpp_sdk.Ckb.JumpToBtc.Single.{JumpProps, complete_one, fund_one, gen_ckb_jump_btc_virtual_tx}
use rgbpp_sdk.Ckb.JumpToBtc.Change.{HoldTokens, gen_ckb_jump_btc_virtual_tx-change}
use rgbpp_sdk.Ckb.JumpToCkb.{JumpToCkbProps, min_time_capacity}
use rgbpp_sdk.Ckb.JumpToCkb.Settled.{is_lock_args_size_exceeded-iff_fits}
use rgbpp_sdk.Ckb.Offline.{CellsQuery, must_be_empty, offline_cells}
use rgbpp_sdk.Ckb.Offline.Met.{has_two_ends, is_met, offline_cells-keep}
use rgbpp_sdk.Ckb.Samples.{asked, cell, empty_cell, time_world, token, world}
use rgbpp_sdk.Ckb.Scripts.{
  deduplicate_from, deduplicate_list, estimate_witness_size, gen_rgbpp_lock_script,
  get_compatible_tokens, hash_type_eq, hex_eq, is_cluster_spore_type_supported,
  is_compatible_udt_types_supported, is_lock_equal, is_offline_mode, is_rgbpp_lock_cell,
  is_rgbpp_lock_cell_ignore_chain, is_spore_type_supported, is_standard_udt_type_supported,
  is_type_asset_supported, is_udt_type_supported, same_but_args,
}
use rgbpp_sdk.Ckb.Transfer.{TransferProps, VirtualTx, estimated_fee, raw_tx}
use rgbpp_sdk.Ckb.Types.{Address, RawTx, by_type, code_dep, dep_group, testnet3}
use rgbpp_sdk.Common.{[], arith, false, keep, none, refl, some, true, ◌+◌, ◌↔◌, ◌∷◌, ◌≡◌, ◌≤◌}
use rgbpp_sdk.Common.Int.{pos, ◌+ℤ◌, ◌-ℤ◌, ◌≤ℤ◌}
use rgbpp_sdk.Common.Outcome.{err, ok}

abbrev account : Address
account = record {
  is_mainnet = false;
  lock = record token { code_hash = "lock"; args = 4 ∷ 5 ∷ [] };
}

abbrev batch_props : BatchTransferProps
batch_props = record {
  xudt_type_bytes = 7 ∷ [];
  rgbpp_lock_args_list = (1 ∷ []) ∷ [];
  rgbpp_receivers =
      record { to_btc_address = "a"; transfer_amount = 700 }
      ∷ record { to_btc_address = "b"; transfer_amount = 800 }
      ∷ [];
  is_mainnet = false;
  btc_testnet_type = testnet3;
  vendor_cell_deps = none;
}

abbrev result_batch : BatchTransferTx
result_batch = record {
  tx = record {
    cell_deps =
        some record {
          out_point = record {
            tx_hash = "0x0d1567da0979f78b297d5311442669fbd1bd853c8be324c5ab6da41e7a1ed6e5";
            index = 0;
          };
          dep_type = code_dep;
        }
        ∷ some record {
          out_point = record {
            tx_hash = "0x0d1567da0979f78b297d5311442669fbd1bd853c8be324c5ab6da41e7a1ed6e5";
            index = 1;
          };
          dep_type = code_dep;
        }
        ∷ some record {
          out_point = record {
            tx_hash = "0xbf6fb538763efec2a70a6a3dcb7242787087e1030c4e7d86585bc63a9d337f5f";
            index = 0;
          };
          dep_type = code_dep;
        }
        ∷ some record {
          out_point = record {
            tx_hash = "0xf8de3bb47d055cdf460d93a2a6e1b05f7432f9777c8c474abf4eec1d4aee5d37";
            index = 0;
          };
          dep_type = dep_group;
        }
        ∷ [];
    inputs = record { tx_hash = "aa"; index = 0 } ∷ record { tx_hash = "aa"; index = 1 } ∷ [];
    outputs =
        record {
          capacity = 22200000000;
          lock = record {
            code_hash = "0x61ca7a4796a4eb19ca4f0d065cb9b10ddcf002f10f7cbb810c706cb6bb5c3248";
            hash_type = by_type;
            args =
                1 ∷ 0 ∷ 0 ∷ 0 ∷ 0 ∷ 0 ∷ 0 ∷ 0 ∷ 0 ∷ 0 ∷ 0 ∷ 0 ∷ 0 ∷ 0 ∷ 0 ∷ 0 ∷ 0 ∷ 0 ∷ 0 ∷ 0 ∷ 0
                ∷ 0 ∷ 0 ∷ 0 ∷ 0 ∷ 0 ∷ 0 ∷ 0 ∷ 0 ∷ 0 ∷ 0 ∷ 0 ∷ 0 ∷ 0 ∷ 0 ∷ 0 ∷ [];
          };
          type_script = some record { code_hash = "xudt"; hash_type = by_type; args = 7 ∷ [] };
        }
        ∷ record {
          capacity = 22200000000;
          lock = record {
            code_hash = "0x61ca7a4796a4eb19ca4f0d065cb9b10ddcf002f10f7cbb810c706cb6bb5c3248";
            hash_type = by_type;
            args =
                2 ∷ 0 ∷ 0 ∷ 0 ∷ 0 ∷ 0 ∷ 0 ∷ 0 ∷ 0 ∷ 0 ∷ 0 ∷ 0 ∷ 0 ∷ 0 ∷ 0 ∷ 0 ∷ 0 ∷ 0 ∷ 0 ∷ 0 ∷ 0
                ∷ 0 ∷ 0 ∷ 0 ∷ 0 ∷ 0 ∷ 0 ∷ 0 ∷ 0 ∷ 0 ∷ 0 ∷ 0 ∷ 0 ∷ 0 ∷ 0 ∷ 0 ∷ [];
          };
          type_script = some record { code_hash = "xudt"; hash_type = by_type; args = 7 ∷ [] };
        }
        ∷ record {
          capacity = 22200000000;
          lock = record {
            code_hash = "0x61ca7a4796a4eb19ca4f0d065cb9b10ddcf002f10f7cbb810c706cb6bb5c3248";
            hash_type = by_type;
            args =
                3 ∷ 0 ∷ 0 ∷ 0 ∷ 0 ∷ 0 ∷ 0 ∷ 0 ∷ 0 ∷ 0 ∷ 0 ∷ 0 ∷ 0 ∷ 0 ∷ 0 ∷ 0 ∷ 0 ∷ 0 ∷ 0 ∷ 0 ∷ 0
                ∷ 0 ∷ 0 ∷ 0 ∷ 0 ∷ 0 ∷ 0 ∷ 0 ∷ 0 ∷ 0 ∷ 0 ∷ 0 ∷ 0 ∷ 0 ∷ 0 ∷ 0 ∷ [];
          };
          type_script = some record { code_hash = "xudt"; hash_type = by_type; args = 7 ∷ [] };
        }
        ∷ [];
    outputs_data =
        (188 ∷ 2 ∷ 0 ∷ 0 ∷ 0 ∷ 0 ∷ 0 ∷ 0 ∷ 0 ∷ 0 ∷ 0 ∷ 0 ∷ 0 ∷ 0 ∷ 0 ∷ 0 ∷ [])
        ∷ (32 ∷ 3 ∷ 0 ∷ 0 ∷ 0 ∷ 0 ∷ 0 ∷ 0 ∷ 0 ∷ 0 ∷ 0 ∷ 0 ∷ 0 ∷ 0 ∷ 0 ∷ 0 ∷ [])
        ∷ (244 ∷ 1 ∷ 0 ∷ 0 ∷ 0 ∷ 0 ∷ 0 ∷ 0 ∷ 0 ∷ 0 ∷ 0 ∷ 0 ∷ 0 ∷ 0 ∷ 0 ∷ 0 ∷ [])
        ∷ [];
    witnesses = (255 ∷ []) ∷ [] ∷ [];
  };
  commitment = 9 ∷ 2 ∷ [];
  rgbpp_change_out_index = pos 3;
  sum_inputs_capacity = 60000000000;
}

abbrev transferred : TransferProps
transferred = record {
  xudt_type_bytes = 7 ∷ [];
  rgbpp_lock_args_list = (1 ∷ []) ∷ [];
  transfer_amount = 1500;
  is_mainnet = true;
  no_merge_output_cells = false;
  witness_lock_placeholder_size = none;
  ckb_fee_rate = none;
  btc_testnet_type = testnet3;
  is_offline = false;
}

abbrev jump_in : JumpToCkbProps
jump_in = record {
  transfer = transferred;
  to_ckb_address = account;
  btc_confirmation_blocks = none;
}

abbrev result_jump_in : VirtualTx
result_jump_in = record {
  draft = record {
    inputs = record { tx_hash = "aa"; index = 0 } ∷ record { tx_hash = "aa"; index = 1 } ∷ [];
    sum_inputs_capacity = 60000000000;
    outputs =
        (
          record {
            capacity = 30000000000;
            lock = record {
              code_hash = "0x00cdf8fab0f8ac638758ebf5ea5e4052b1d71e8a77b9f43139718621f6849326";
              hash_type = by_type;
              args =
                  0 ∷ 0 ∷ 0 ∷ 0 ∷ 0 ∷ 0 ∷ 0 ∷ 0 ∷ 0 ∷ 0 ∷ 0 ∷ 0 ∷ 0 ∷ 0 ∷ 0 ∷ 0 ∷ 0 ∷ 0 ∷ 0 ∷ 0 ∷ 0
                  ∷ 0 ∷ 0 ∷ 0 ∷ 0 ∷ 0 ∷ 0 ∷ 0 ∷ 0 ∷ 0 ∷ 0 ∷ 0 ∷ 0 ∷ 0 ∷ 0 ∷ 0 ∷ 0 ∷ 0 ∷ 0 ∷ 0 ∷ 0
                  ∷ 0 ∷ 0 ∷ 0 ∷ 0 ∷ 0 ∷ 0 ∷ 0 ∷ 0 ∷ 0 ∷ 0 ∷ 0 ∷ 0 ∷ 0 ∷ 0 ∷ 0 ∷ 0 ∷ 0 ∷ 0 ∷ 0 ∷ 0
                  ∷ 0 ∷ 0 ∷ 0 ∷ 0 ∷ 0 ∷ 0 ∷ 0 ∷ 0 ∷ 0 ∷ 0 ∷ 0 ∷ 0 ∷ 0 ∷ 0 ∷ 0 ∷ 0 ∷ 0 ∷ 0 ∷ 0 ∷ 0
                  ∷ 0 ∷ 0 ∷ 0 ∷ 0 ∷ 0 ∷ 0 ∷ 0 ∷ 0 ∷ 0 ∷ 0 ∷ 0 ∷ 0 ∷ 0 ∷ 0 ∷ 0 ∷ 0 ∷ 0 ∷ 0 ∷ 0 ∷ 0
                  ∷ 0 ∷ 0 ∷ 0 ∷ 0 ∷ 4 ∷ 5 ∷ [];
            };
            type_script = some record { code_hash = "xudt"; hash_type = by_type; args = 7 ∷ [] };
          },
          220 ∷ 5 ∷ 0 ∷ 0 ∷ 0 ∷ 0 ∷ 0 ∷ 0 ∷ 0 ∷ 0 ∷ 0 ∷ 0 ∷ 0 ∷ 0 ∷ 0 ∷ 0 ∷ [],
        )
        ∷ (
          record {
            capacity = 29999993950;
            lock = record {
              code_hash = "0x61ca7a4796a4eb19ca4f0d065cb9b10ddcf002f10f7cbb810c706cb6bb5c3248";
              hash_type = by_type;
              args =
                  1 ∷ 0 ∷ 0 ∷ 0 ∷ 0 ∷ 0 ∷ 0 ∷ 0 ∷ 0 ∷ 0 ∷ 0 ∷ 0 ∷ 0 ∷ 0 ∷ 0 ∷ 0 ∷ 0 ∷ 0 ∷ 0 ∷ 0 ∷ 0
                  ∷ 0 ∷ 0 ∷ 0 ∷ 0 ∷ 0 ∷ 0 ∷ 0 ∷ 0 ∷ 0 ∷ 0 ∷ 0 ∷ 0 ∷ 0 ∷ 0 ∷ 0 ∷ [];
            };
            type_script = some record { code_hash = "xudt"; hash_type = by_type; args = 7 ∷ [] };
          },
          244 ∷ 1 ∷ 0 ∷ 0 ∷ 0 ∷ 0 ∷ 0 ∷ 0 ∷ 0 ∷ 0 ∷ 0 ∷ 0 ∷ 0 ∷ 0 ∷ 0 ∷ 0 ∷ [],
        )
        ∷ [];
    need_paymaster_cell = false;
  };
  cell_deps =
      some record {
        out_point = record {
          tx_hash = "0x0d1567da0979f78b297d5311442669fbd1bd853c8be324c5ab6da41e7a1ed6e5";
          index = 0;
        };
        dep_type = code_dep;
      }
      ∷ some record {
        out_point = record {
          tx_hash = "0x0d1567da0979f78b297d5311442669fbd1bd853c8be324c5ab6da41e7a1ed6e5";
          index = 1;
        };
        dep_type = code_dep;
      }
      ∷ some record {
        out_point = record {
          tx_hash = "0xbf6fb538763efec2a70a6a3dcb7242787087e1030c4e7d86585bc63a9d337f5f";
          index = 0;
        };
        dep_type = code_dep;
      }
      ∷ [];
  witnesses = (255 ∷ []) ∷ [] ∷ [];
  commitment = 9 ∷ 2 ∷ [];
}

abbrev jump_out : JumpProps
jump_out = record {
  xudt_type_bytes = 7 ∷ [];
  from_address = account;
  to_rgbpp_lock_args = 3 ∷ [];
  transfer_amount = 1500;
  witness_lock_placeholder_size = none;
  ckb_fee_rate = none;
  btc_testnet_type = testnet3;
  vendor_cell_deps = none;
}

abbrev batch_out : BatchJumpProps
batch_out = record {
  xudt_type_bytes = 7 ∷ [];
  from_address = account;
  rgbpp_receivers =
      record { to_rgbpp_lock_args = 3 ∷ []; transfer_amount = 900 }
      ∷ record { to_rgbpp_lock_args = 4 ∷ []; transfer_amount = 600 }
      ∷ [];
  witness_lock_placeholder_size = none;
  ckb_fee_rate = none;
  btc_testnet_type = testnet3;
  vendor_cell_deps = none;
}

abbrev result_jump_out : JumpTx
result_jump_out = record {
  tx = record {
    cell_deps =
        some record {
          out_point = record {
            tx_hash = "0xbf6fb538763efec2a70a6a3dcb7242787087e1030c4e7d86585bc63a9d337f5f";
            index = 0;
          };
          dep_type = code_dep;
        }
        ∷ [];
    inputs = record { tx_hash = "aa"; index = 0 } ∷ record { tx_hash = "aa"; index = 1 } ∷ [];
    outputs =
        record {
          capacity = 22200000000;
          lock = record {
            code_hash = "0x61ca7a4796a4eb19ca4f0d065cb9b10ddcf002f10f7cbb810c706cb6bb5c3248";
            hash_type = by_type;
            args = 3 ∷ [];
          };
          type_script = some record { code_hash = "xudt"; hash_type = by_type; args = 7 ∷ [] };
        }
        ∷ record {
          capacity = 9400000000;
          lock = record { code_hash = "lock"; hash_type = by_type; args = 4 ∷ 5 ∷ [] };
          type_script = some record { code_hash = "xudt"; hash_type = by_type; args = 7 ∷ [] };
        }
        ∷ record {
          capacity = 28399993950;
          lock = record { code_hash = "lock"; hash_type = by_type; args = 4 ∷ 5 ∷ [] };
          type_script = none;
        }
        ∷ [];
    outputs_data =
        (220 ∷ 5 ∷ 0 ∷ 0 ∷ 0 ∷ 0 ∷ 0 ∷ 0 ∷ 0 ∷ 0 ∷ 0 ∷ 0 ∷ 0 ∷ 0 ∷ 0 ∷ 0 ∷ [])
        ∷ (244 ∷ 1 ∷ 0 ∷ 0 ∷ 0 ∷ 0 ∷ 0 ∷ 0 ∷ 0 ∷ 0 ∷ 0 ∷ 0 ∷ 0 ∷ 0 ∷ 0 ∷ 0 ∷ [])
        ∷ []
        ∷ [];
    witnesses = [] ∷ [] ∷ [];
  };
  sum_inputs_capacity = 60000000000;
  estimated_fee = 6050;
  change = pos 28399993950;
}

ran_jump_out : gen_ckb_jump_btc_virtual_tx world asked none jump_out ≡ ok result_jump_out
unfolding gen_ckb_jump_btc_virtual_tx calculate_rgbpp_cell_capacity fund_one complete_one given_or
    is_offline_mode is_type_asset_supported jumped_output estimated_fee collect_udt_inputs get_cells
    calculate_transaction_fee change_capacity change_output jump_tx udt_cell_deps udt_change
    is_cluster_spore_type_supported is_udt_type_supported gen_rgbpp_lock_script deduplicate_list
    estimate_witness_size raw_tx takes_all udt_from calculate_udt_cell_capacity collect_inputs
    pages_from search_key fetch_type_id_cell_deps is_standard_udt_type_supported
    get_cluster_type_script is_spore_type_supported same_but_args is_compatible_udt_types_supported
    get_rgbpp_lock_script to_le deduplicate_from is_rgbpp_lock_cell_ignore_chain add_cell amount_of
    has_no_data inputs_from must_be_empty badge_deps compatible_part get_btc_time_lock_dep
    get_rgbpp_lock_dep get_unique_type_dep get_utxo_airdrop_badge_type_dep get_xudt_dep lock_deps
    part_of type_deps get_xudt_type_script get_spore_type_script hex_eq get_compatible_tokens
    is_rgbpp_lock_cell compatible_deps dep_of_network with_config is_lock_equal from_le hash_type_eq
    ◌+ℤ◌ ◌-ℤ◌
ran_jump_out = refl

abbrev result_batch_out : JumpTx
result_batch_out = record {
  tx = record {
    cell_deps =
        some record {
          out_point = record {
            tx_hash = "0xbf6fb538763efec2a70a6a3dcb7242787087e1030c4e7d86585bc63a9d337f5f";
            index = 0;
          };
          dep_type = code_dep;
        }
        ∷ [];
    inputs = record { tx_hash = "aa"; index = 0 } ∷ record { tx_hash = "aa"; index = 1 } ∷ [];
    outputs =
        record {
          capacity = 22200000000;
          lock = record {
            code_hash = "0x61ca7a4796a4eb19ca4f0d065cb9b10ddcf002f10f7cbb810c706cb6bb5c3248";
            hash_type = by_type;
            args = 3 ∷ [];
          };
          type_script = some record { code_hash = "xudt"; hash_type = by_type; args = 7 ∷ [] };
        }
        ∷ record {
          capacity = 22200000000;
          lock = record {
            code_hash = "0x61ca7a4796a4eb19ca4f0d065cb9b10ddcf002f10f7cbb810c706cb6bb5c3248";
            hash_type = by_type;
            args = 4 ∷ [];
          };
          type_script = some record { code_hash = "xudt"; hash_type = by_type; args = 7 ∷ [] };
        }
        ∷ record {
          capacity = 9400000000;
          lock = record { code_hash = "lock"; hash_type = by_type; args = 4 ∷ 5 ∷ [] };
          type_script = some record { code_hash = "xudt"; hash_type = by_type; args = 7 ∷ [] };
        }
        ∷ record {
          capacity = 6199993950;
          lock = record { code_hash = "lock"; hash_type = by_type; args = 4 ∷ 5 ∷ [] };
          type_script = none;
        }
        ∷ [];
    outputs_data =
        (132 ∷ 3 ∷ 0 ∷ 0 ∷ 0 ∷ 0 ∷ 0 ∷ 0 ∷ 0 ∷ 0 ∷ 0 ∷ 0 ∷ 0 ∷ 0 ∷ 0 ∷ 0 ∷ [])
        ∷ (88 ∷ 2 ∷ 0 ∷ 0 ∷ 0 ∷ 0 ∷ 0 ∷ 0 ∷ 0 ∷ 0 ∷ 0 ∷ 0 ∷ 0 ∷ 0 ∷ 0 ∷ 0 ∷ [])
        ∷ (244 ∷ 1 ∷ 0 ∷ 0 ∷ 0 ∷ 0 ∷ 0 ∷ 0 ∷ 0 ∷ 0 ∷ 0 ∷ 0 ∷ 0 ∷ 0 ∷ 0 ∷ 0 ∷ [])
        ∷ []
        ∷ [];
    witnesses = [] ∷ [] ∷ [];
  };
  sum_inputs_capacity = 60000000000;
  estimated_fee = 6050;
  change = pos 6199993950;
}

ran_batch_out : gen_ckb_batch_jump_btc_virtual_tx world asked none batch_out ≡ ok result_batch_out
unfolding gen_ckb_batch_jump_btc_virtual_tx calculate_rgbpp_cell_capacity collect_for_jump complete
    given_or is_offline_mode is_type_asset_supported jumped_output sum_transfer_amount estimated_fee
    collect_udt_inputs fund get_cells calculate_transaction_fee change_capacity change_output
    jump_tx udt_cell_deps udt_change is_cluster_spore_type_supported is_udt_type_supported
    gen_rgbpp_lock_script deduplicate_list estimate_witness_size raw_tx takes_all udt_from
    calculate_udt_cell_capacity collect_inputs pages_from search_key fetch_type_id_cell_deps
    is_standard_udt_type_supported get_cluster_type_script is_spore_type_supported same_but_args
    is_compatible_udt_types_supported get_rgbpp_lock_script to_le deduplicate_from
    is_rgbpp_lock_cell_ignore_chain add_cell amount_of has_no_data inputs_from must_be_empty
    badge_deps compatible_part get_btc_time_lock_dep get_rgbpp_lock_dep get_unique_type_dep
    get_utxo_airdrop_badge_type_dep get_xudt_dep lock_deps part_of type_deps get_xudt_type_script
    get_spore_type_script hex_eq get_compatible_tokens is_rgbpp_lock_cell compatible_deps
    dep_of_network with_config is_lock_equal from_le hash_type_eq ◌+ℤ◌ ◌-ℤ◌
ran_batch_out = refl

abbrev unpaid : RawTx
unpaid = record {
  cell_deps = [];
  inputs = record { tx_hash = "aa"; index = 0 } ∷ [];
  outputs = (cell 0).output ∷ [];
  outputs_data = (cell 0).output_data ∷ [];
  witnesses = (255 ∷ []) ∷ [];
}

held : HoldTokens account.lock token (cell 0 ∷ cell 1 ∷ [])
unfolding calculate_udt_cell_capacity
held = omega arith

abbrev result_paid : PaidTx
result_paid = record {
  tx = record {
    cell_deps = [];
    inputs = record { tx_hash = "aa"; index = 0 } ∷ record { tx_hash = "bb"; index = 5 } ∷ [];
    outputs =
        record {
          capacity = 30000000000;
          lock = record {
            code_hash = "0x61ca7a4796a4eb19ca4f0d065cb9b10ddcf002f10f7cbb810c706cb6bb5c3248";
            hash_type = by_type;
            args = 1 ∷ [];
          };
          type_script = some record { code_hash = "xudt"; hash_type = by_type; args = 7 ∷ [] };
        }
        ∷ record {
          capacity = 39999999378;
          lock = record { code_hash = "lock"; hash_type = by_type; args = 4 ∷ 5 ∷ [] };
          type_script = none;
        }
        ∷ [];
    outputs_data = (232 ∷ 3 ∷ 0 ∷ 0 ∷ 0 ∷ 0 ∷ 0 ∷ 0 ∷ 0 ∷ 0 ∷ 0 ∷ 0 ∷ 0 ∷ 0 ∷ 0 ∷ 0 ∷ []) ∷ [] ∷ [];
    witnesses = (255 ∷ []) ∷ [];
  };
  change = pos 39999999378;
  actual_inputs_capacity = 70000000000;
  estimated_fee = 622;
}

ran_paid : pay_from_issuer world asked account.lock unpaid 20000000000 none 65 ≡ ok result_paid
unfolding pay_from_issuer calculate_transaction_fee estimated_fee issuer_inputs sum_outputs
    with_change_cell deduplicate_list estimate_witness_size raw_tx collect_inputs get_cells
    deduplicate_from inputs_from takes_all pages_from search_key hex_eq add_cell
    is_rgbpp_lock_cell_ignore_chain must_be_empty is_rgbpp_lock_cell get_rgbpp_lock_script
    is_lock_equal hash_type_eq ◌-ℤ◌
ran_paid = refl

abbrev asked_offline : CellsQuery
asked_offline = record {
  lock = some (cell 0).output.lock;
  type_script = some token;
  is_data_must_be_empty = none;
  output_capacity_range = some (10 ∷ 40000000000 ∷ []);
}

is_lock_args_size_exceeded-iff_fits_example :
    (is_lock_args_size_exceeded account.lock.args ≡ false)
    ↔ (min_time_capacity time_world jump_in token ≤ calculate_rgbpp_cell_capacity (some token))
is_lock_args_size_exceeded-iff_fits_example =
    is_lock_args_size_exceeded-iff_fits time_world (λ lock after tx_id. omega arith) jump_in token

gen_ckb_batch_jump_btc_virtual_tx-IsBalanced_example :
    IsBalanced world asked batch_out result_batch_out
gen_ckb_batch_jump_btc_virtual_tx-IsBalanced_example =
    gen_ckb_batch_jump_btc_virtual_tx-IsBalanced world asked none batch_out result_batch_out
      ran_batch_out

gen_ckb_jump_btc_virtual_tx-change_example :
    pos (min_capacity + max_fee) ≤ℤ result_jump_out.change +ℤ pos result_jump_out.estimated_fee
gen_ckb_jump_btc_virtual_tx-change_example =
    gen_ckb_jump_btc_virtual_tx-change world asked none jump_out (cell 0 ∷ cell 1 ∷ [])
      result_jump_out refl held ran_jump_out

pay_from_issuer-IsPaid_example :
    IsPaid world asked account.lock unpaid 20000000000 none 65 result_paid
pay_from_issuer-IsPaid_example =
    pay_from_issuer-IsPaid world asked account.lock unpaid 20000000000 none 65 result_paid ran_paid

offline_cells-keep_example :
    (has_two_ends asked_offline.output_capacity_range ≡ true
      → offline_cells world (cell 0 ∷ empty_cell 1 ∷ []) asked_offline
        ≡ ok (keep (is_met world asked_offline) (cell 0 ∷ empty_cell 1 ∷ [])))
    × (has_two_ends asked_offline.output_capacity_range ≡ false
        → offline_cells world (cell 0 ∷ empty_cell 1 ∷ []) asked_offline ≡ err CkbError.plain_error)
offline_cells-keep_example = offline_cells-keep world (cell 0 ∷ empty_cell 1 ∷ []) asked_offline
