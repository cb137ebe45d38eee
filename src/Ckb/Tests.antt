-- ===== src/Ckb/Tests.antt =====
-- Cells and a transfer, at which the theorems on the CKB side are applied.
use rgbpp_sdk.Ckb.Bound.{BoundFrom, outputs_of}
use rgbpp_sdk.Ckb.Capacity.{
  calculate_cell_occupied_capacity, calculate_rgbpp_cell_capacity, calculate_transaction_fee,
  calculate_transaction_fee_lem, cell_size, is_rgbpp_capacity_sufficient_for_change, type_size,
}
use rgbpp_sdk.Ckb.CellDeps.{
  badge_deps, compatible_deps, compatible_part, dep_of_network, fetch_type_id_cell_deps, lock_deps,
  part_of, type_deps, udt_cell_deps, with_config,
}
use rgbpp_sdk.Ckb.Codec.{from_le, le_to_u128, le_to_u128-u128_to_le, to_le, u128_to_le}
use rgbpp_sdk.Ckb.Collector.{
  Collected, add_cell, amount_of, collect_udt_inputs, has_no_data, takes_all, udt_from,
}
use rgbpp_sdk.Ckb.Collector.Enough.{available, collect_udt_inputs-enough}
use rgbpp_sdk.Ckb.Collector.Pages.{Page, SearchKey, get_cells, get_cells_page_size, search_key}
use rgbpp_sdk.Ckb.Collector.Pages.All.{IsPaged, get_cells_ends}
use rgbpp_sdk.Ckb.Collector.Spent.{IsCollected, collect_udt_inputs-IsCollected}
use rgbpp_sdk.Ckb.Commitment.{
  assert_outputs_capacity_sufficient, calculate_commitment, inputs_bytes, is_short, outputs_bytes,
  preimage,
}
use rgbpp_sdk.Ckb.Constants.{
  get_btc_time_lock_dep, get_rgbpp_lock_dep, get_rgbpp_lock_script, get_secp256k1_cell_dep,
  get_unique_type_dep, get_utxo_airdrop_badge_type_dep, get_xudt_dep, get_xudt_type_script,
}
use rgbpp_sdk.Ckb.Error.{CkbError, CkbResult}
use rgbpp_sdk.Ckb.Offline.{CellsQuery}
use rgbpp_sdk.Ckb.Samples.{cell, cells_at, token, world}
use rgbpp_sdk.Ckb.Scripts.{
  build_pre_lock_args, build_rgbpp_lock_args, deduplicate_from, deduplicate_list,
  estimate_witness_size, gen_rgbpp_lock_script, get_compatible_tokens, has_type,
  has_unsupported_type, hash_type_eq, hex_eq, hex_lt, insert_cell,
  is_compatible_udt_types_supported, is_lock_equal, is_rgbpp_lock_cell,
  is_rgbpp_lock_cell_ignore_chain, is_script_equal, is_standard_udt_type_supported,
  is_udt_type_supported, replace_lock_args_with_real_btc_tx_id, same_but_args, sort_cells,
  throw_error_when_rgbpp_cells_invalid, throw_error_when_tx_inputs_exceeded, unpack_rgbpp_lock_args,
}
use rgbpp_sdk.Ckb.Scripts.LockArgs.{unpack_rgbpp_lock_args-replace}
use rgbpp_sdk.Ckb.TokenInfo.{
  TokenInfo, encode_rgbpp_token_info, read_token_info, read_token_info-encode,
}
use rgbpp_sdk.Ckb.Transfer.{
  TransferProps, VirtualTx, adjust_for_fee, adjusted, deduct_fee, deps_of, drafted, estimated_fee,
  finish, first_cell, gather_cells, gen_btc_transfer_ckb_virtual_tx, handle_others, lock_at, merged,
  min_output_capacity, raw_tx, rebind, receiver_capacity, sorted, sum_capacities, udt_output,
  unmerged, with_change, without_change, witnesses_of,
}
use rgbpp_sdk.Ckb.Transfer.Bound.{gen_btc_transfer_ckb_virtual_tx-BoundFrom}
use rgbpp_sdk.Ckb.Types.{Hex, IndexerCell, by_type, code_dep, testnet3}
use rgbpp_sdk.Common.{
  List, Option, String, [], arith, drop, false, length, none, or_else, refl, replicate, some, take,
  ℕ, ◌*◌, ◌+◌, ◌<◌, ◌∷◌, ◌≡◌, ◌≤◌,
}
use rgbpp_sdk.Common.Outcome.{err, ok}

abbrev transfer : TransferProps
transfer = record {
  xudt_type_bytes = 7 ∷ [];
  rgbpp_lock_args_list = (1 ∷ []) ∷ (1 ∷ []) ∷ [];
  transfer_amount = 1500;
  is_mainnet = false;
  no_merge_output_cells = false;
  witness_lock_placeholder_size = none;
  ckb_fee_rate = none;
  btc_testnet_type = testnet3;
  is_offline = false;
}

abbrev result_transfer : VirtualTx
result_transfer = record {
  draft = record {
    inputs = record { tx_hash = "aa"; index = 0 } ∷ record { tx_hash = "aa"; index = 1 } ∷ [];
    sum_inputs_capacity = 60000000000;
    outputs =
        (
          record {
            capacity = 30000000000;
            lock = record {
              code_hash = "0x61ca7a4796a4eb19ca4f0d065cb9b10ddcf002f10f7cbb810c706cb6bb5c3248";
              hash_type = by_type;
              args =
                  1 ∷ 0 ∷ 0 ∷ 0 ∷ 0 ∷ 0 ∷ 0 ∷ 0 ∷ 0 ∷ 0 ∷ 0 ∷ 0 ∷ 0 ∷ 0 ∷ 0 ∷ 0 ∷ 0 ∷ 0 ∷ 0 ∷ 0 ∷ 0
                  ∷ 0 ∷ 0 ∷ 0 ∷ 0 ∷ 0 ∷ 0 ∷ 0 ∷ 0 ∷ 0 ∷ 0 ∷ 0 ∷ 0 ∷ 0 ∷ 0 ∷ 0 ∷ [];
            };
            type_script = some record { code_hash = "xudt"; hash_type = by_type; args = 7 ∷ [] };
          },
          220 ∷ 5 ∷ 0 ∷ 0 ∷ 0 ∷ 0 ∷ 0 ∷ 0 ∷ 0 ∷ 0 ∷ 0 ∷ 0 ∷ 0 ∷ 0 ∷ 0 ∷ 0 ∷ [],
        )
        ∷ (
          record {
            capacity = 29999993950;
            lock = record {
              code_hash = "0x61ca7a4796a4eb19ca4f0d065cb9b10ddcf002f10f7cbb810c706cb6bb5c3248";
              hash_type = by_type;
              args =
                  2 ∷ 0 ∷ 0 ∷ 0 ∷ 0 ∷ 0 ∷ 0 ∷ 0 ∷ 0 ∷ 0 ∷ 0 ∷ 0 ∷ 0 ∷ 0 ∷ 0 ∷ 0 ∷ 0 ∷ 0 ∷ 0 ∷ 0 ∷ 0
                  ∷ 0 ∷ 0 ∷ 0 ∷ 0 ∷ 0 ∷ 0 ∷ 0 ∷ 0 ∷ 0 ∷ 0 ∷ 0 ∷ 0 ∷ 0 ∷ 0 ∷ 0 ∷ [];
            };
            type_script = some record { code_hash = "xudt"; hash_type = by_type; args = 7 ∷ [] };
          },
          244 ∷ 1 ∷ 0 ∷ 0 ∷ 0 ∷ 0 ∷ 0 ∷ 0 ∷ 0 ∷ 0 ∷ 0 ∷ 0 ∷ 0 ∷ 0 ∷ 0 ∷ 0 ∷ [],
        )
        ∷ [];
    need_paymaster_cell = false;
  };
  cell_deps =
      some record {
        out_point = record {
          tx_hash = "0x0d1567da0979f78b297d5311442669fbd1bd853c8be324c5ab6da41e7a1ed6e5";
          index = 0;
        };
        dep_type = code_dep;
      }
      ∷ some record {
        out_point = record {
          tx_hash = "0x0d1567da0979f78b297d5311442669fbd1bd853c8be324c5ab6da41e7a1ed6e5";
          index = 1;
        };
        dep_type = code_dep;
      }
      ∷ some record {
        out_point = record {
          tx_hash = "0xbf6fb538763efec2a70a6a3dcb7242787087e1030c4e7d86585bc63a9d337f5f";
          index = 0;
        };
        dep_type = code_dep;
      }
      ∷ [];
  witnesses = (255 ∷ []) ∷ [] ∷ [];
  commitment = 9 ∷ 2 ∷ [];
}

ran_transfer : gen_btc_transfer_ckb_virtual_tx world cells_at none transfer ≡ ok result_transfer
unfolding gen_btc_transfer_ckb_virtual_tx deduplicate_list deps_of drafted finish gather_cells
    is_udt_type_supported sorted udt_cell_deps witnesses_of deduplicate_from get_secp256k1_cell_dep
    handle_others merged unmerged adjust_for_fee calculate_commitment gen_rgbpp_lock_script has_type
    throw_error_when_rgbpp_cells_invalid is_compatible_udt_types_supported
    is_standard_udt_type_supported sort_cells fetch_type_id_cell_deps hex_eq rebind sum_capacities
    collect_udt_inputs first_cell throw_error_when_tx_inputs_exceeded with_change without_change
    adjusted assert_outputs_capacity_sufficient preimage get_rgbpp_lock_script is_script_equal
    has_unsupported_type get_compatible_tokens same_but_args get_xudt_type_script insert_cell
    badge_deps compatible_part get_btc_time_lock_dep get_rgbpp_lock_dep get_unique_type_dep
    get_utxo_airdrop_badge_type_dep get_xudt_dep lock_deps part_of type_deps lock_at takes_all
    udt_from calculate_rgbpp_cell_capacity is_rgbpp_capacity_sufficient_for_change receiver_capacity
    udt_output deduct_fee estimated_fee is_short inputs_bytes outputs_bytes hex_lt compatible_deps
    dep_of_network with_config build_pre_lock_args is_rgbpp_lock_cell_ignore_chain add_cell
    amount_of has_no_data min_output_capacity calculate_cell_occupied_capacity
    calculate_transaction_fee estimate_witness_size raw_tx build_rgbpp_lock_args is_rgbpp_lock_cell
    cell_size to_le is_lock_equal from_le type_size hash_type_eq
ran_transfer = refl

abbrev result_udt : Collected
result_udt = record {
  inputs = record { tx_hash = "aa"; index = 0 } ∷ record { tx_hash = "aa"; index = 1 } ∷ [];
  sum_inputs_capacity = 60000000000;
  sum_amount = 2000;
}

ran_udt : collect_udt_inputs (cells_at token) 1500 ≡ ok result_udt
unfolding collect_udt_inputs takes_all udt_from is_rgbpp_lock_cell_ignore_chain add_cell amount_of
    has_no_data is_rgbpp_lock_cell get_rgbpp_lock_script is_lock_equal from_le hash_type_eq
ran_udt = refl

abbrev info : TokenInfo
info = record { decimal = 8; name = 82 ∷ 71 ∷ 66 ∷ []; symbol = 82 ∷ [] }

abbrev many_cells : List IndexerCell
many_cells = replicate 150 (cell 0)

-- A first page of 100 cells, and the rest after each cursor.
abbrev place : Option String → ℕ
place none = 0
place (some cursor) = 100

abbrev cursor_after : Option String → Option String
cursor_after none = some "next"
cursor_after (some cursor) = none

abbrev page_of : Option String → Page
page_of cursor = record {
  objects = take 100 (drop (place cursor) many_cells);
  last_cursor = cursor_after cursor;
}

abbrev paging_indexer : SearchKey → ℕ → Option String → CkbResult Page
paging_indexer key size cursor = ok (page_of cursor)

abbrev all_of_lock : CellsQuery
all_of_lock = record {
  lock = some token;
  type_script = none;
  is_data_must_be_empty = none;
  output_capacity_range = none;
}

next_page :
    (cursor : Option String)
    → 100 ≤ length (page_of cursor).objects
    → (d : String) × ((page_of cursor).last_cursor ≡ some d) × (place (some d) ≡ place cursor + 100)
next_page none full = ("next", refl, omega arith)
next_page (some cursor) full = absurd (omega (arith, full))

paging_indexer-IsPaged :
    IsPaged
      (paging_indexer (search_key all_of_lock) get_cells_page_size)
      get_cells_page_size
      many_cells
paging_indexer-IsPaged = record {
  position = place;
  page_at = page_of;
  start = refl;
  answers = λ cursor. refl;
  objects_at = λ cursor. refl;
  next = next_page;
}

collect_udt_inputs-IsCollected_example :
    IsCollected result_udt (cells_at token) × (1500 ≤ result_udt.sum_amount)
collect_udt_inputs-IsCollected_example =
    collect_udt_inputs-IsCollected (cells_at token) 1500 result_udt ran_udt

le_to_u128-u128_to_le_example :
    (le_to_u128 (u128_to_le 1500) ≡ 1500) × (length (u128_to_le 1500) ≡ 16)
le_to_u128-u128_to_le_example = le_to_u128-u128_to_le 1500 (omega arith)

calculate_transaction_fee_lem_example :
    (5500 * or_else none 1100 ≤ calculate_transaction_fee 5500 none * 1000)
    × (calculate_transaction_fee 5500 none * 1000 < 5500 * or_else none 1100 + 1000)
calculate_transaction_fee_lem_example = calculate_transaction_fee_lem 5500 none

gen_btc_transfer_ckb_virtual_tx-BoundFrom_example :
    BoundFrom transfer.is_mainnet transfer.btc_testnet_type 1
      (outputs_of result_transfer.draft.outputs)
gen_btc_transfer_ckb_virtual_tx-BoundFrom_example =
    gen_btc_transfer_ckb_virtual_tx-BoundFrom world cells_at none transfer result_transfer
      ran_transfer

collect_udt_inputs-enough_example :
    (available (cells_at token) < 1500
      → collect_udt_inputs (cells_at token) 1500 ≡ err CkbError.udt_amount_not_enough)
    × (1500 ≤ available (cells_at token)
        → (r : Collected) × (collect_udt_inputs (cells_at token) 1500 ≡ ok r))
collect_udt_inputs-enough_example = collect_udt_inputs-enough (cells_at token) 1500

read_token_info-encode_example : read_token_info (encode_rgbpp_token_info info) ≡ some info
read_token_info-encode_example =
    read_token_info-encode info (omega arith) (omega arith) (omega arith)

unpack_rgbpp_lock_args-replace_example :
    (args : Hex) × (replace_lock_args_with_real_btc_tx_id (build_pre_lock_args 2) (replicate 32 7)
      ≡ ok args)
    × (unpack_rgbpp_lock_args args ≡ ok (replicate 32 7, 2))
unpack_rgbpp_lock_args-replace_example =
    unpack_rgbpp_lock_args-replace 2 (replicate 32 7) (omega arith) refl

get_cells_ends_example :
    get_cells paging_indexer (length many_cells + 1) all_of_lock ≡ ok many_cells
get_cells_ends_example = get_cells_ends paging_indexer all_of_lock many_cells paging_indexer-IsPaged
