-- ===== src/Ckb/Scripts.antt =====
-- packages/ckb/src/utils: the comparison of scripts, the lock scripts of RGB++ and their arguments,
-- and the types that are supported (ckb-tx.ts, rgbpp.ts and the registry of cell-dep.ts).
pub mod LockArgs
pub mod Sorting
use rgbpp_sdk.Common.{
  ℕ, ◌*◌, Bool, true, false, not, ◌&&◌, ◌||◌, Option, none, some, List, [], ◌∷◌, ◌++◌, any, length,
  take, drop, ◌-◌, or_else, reverse, replicate, ltb, ◌==◌, str_eq, if◌then◌else◌, is_some,
}
use rgbpp_sdk.Ckb.Error.{ok, CkbError, CkbResult, ◌>>◌, throw_if}
use rgbpp_sdk.Ckb.Types.{
  Hex, HashType, by_data, by_type, by_data1, Script, OutPoint, CellOutput, IndexerCell, RawTx,
  RawTxToSign, BtcTestnetType, testnet3, signet,
}
use rgbpp_sdk.Ckb.Constants.{
  get_utxo_airdrop_badge_type_script, get_token_metadata_type_script, get_spore_type_script,
  get_cluster_type_script, btc_jump_confirmation_blocks, get_xudt_type_script,
  get_rgbpp_lock_script, get_btc_time_lock_script, compatible_xudt_type_scripts,
  rgbpp_tx_inputs_max_length, rgbpp_tx_witness_max_size,
}
use rgbpp_sdk.Ckb.Codec.{u32_to_le, from_le}

-- What the source calls and does not implement: the molecule codecs and sha256 of libraries, the
-- size of a transaction, and the tokens that the registry has fetched.
pub record CkbWorld : Type 0 where
  pub serialize_script : Script → Hex
  pub unpack_script : Hex → Script
  pub serialize_out_point : OutPoint → Hex
  pub serialize_output : CellOutput → Hex
  pub sha256 : Hex → Hex
  pub transaction_size : RawTx → ℕ
  pub size_to_sign : RawTxToSign → ℕ
  pub script_to_hash : Script → Hex
  pub serialize_input : OutPoint → Hex
  pub blake2b : Hex → Hex
  pub pack_btc_time_lock : Script → ℕ → Hex → Hex
  pub unpack_btc_time_lock : Hex → Script × (ℕ × Hex)
  pub pack_rgbpp_unlock : ℕ → ℕ → Hex → Hex → Hex
  pub pack_btc_time_unlock : Hex → Hex
  pub serialize_witness_lock : Hex → Hex
  pub fetched_tokens : List Script

unfoldable pub hex_eq : Hex → Hex → Bool
hex_eq [] [] = true
hex_eq (a ∷ xs) (b ∷ ys) = (a == b) && hex_eq xs ys
hex_eq _ _ = false

unfoldable pub hash_type_eq : HashType → HashType → Bool
hash_type_eq by_data by_data = true
hash_type_eq by_type by_type = true
hash_type_eq by_data1 by_data1 = true
hash_type_eq _ _ = false

-- `isLockEqual`
unfoldable pub is_lock_equal : Script → Script → Bool
is_lock_equal a b = str_eq a.code_hash b.code_hash && hash_type_eq a.hash_type b.hash_type

unfoldable pub is_rgbpp_lock_cell : CellOutput → Bool → Bool
is_rgbpp_lock_cell cell true = is_lock_equal cell.lock (get_rgbpp_lock_script true testnet3)
is_rgbpp_lock_cell cell false =
    is_lock_equal cell.lock (get_rgbpp_lock_script false testnet3)
    || is_lock_equal cell.lock (get_rgbpp_lock_script false signet)

unfoldable pub is_rgbpp_lock_cell_ignore_chain : CellOutput → Bool
is_rgbpp_lock_cell_ignore_chain cell = is_rgbpp_lock_cell cell true || is_rgbpp_lock_cell cell false

unfoldable pub is_btc_time_lock_cell : CellOutput → Bool → Bool
is_btc_time_lock_cell cell true = is_lock_equal cell.lock (get_btc_time_lock_script true testnet3)
is_btc_time_lock_cell cell false =
    is_lock_equal cell.lock (get_btc_time_lock_script false testnet3)
    || is_lock_equal cell.lock (get_btc_time_lock_script false signet)

-- `buildRgbppLockArgs` for a transaction id that is given in the order of its bytes.
unfoldable pub build_rgbpp_lock_args : ℕ → Hex → Hex
build_rgbpp_lock_args out_index tx_id = u32_to_le out_index ++ tx_id

-- `buildPreLockArgs`: the placeholder is 32 zero bytes, which no reversal changes.
unfoldable pub build_pre_lock_args : ℕ → Hex
build_pre_lock_args out_index = build_rgbpp_lock_args out_index (replicate 32 0)

unfoldable pub gen_rgbpp_lock_script : Hex → Bool → BtcTestnetType → Script
gen_rgbpp_lock_script args is_mainnet net = record (get_rgbpp_lock_script is_mainnet net) {
  args = args;
}

-- `replaceLockArgsWithRealBtcTxId`: 36 bytes are asked for; the last 32 are replaced.
unfoldable pub replace_lock_args_with_real_btc_tx_id : Hex → Hex → CkbResult Hex
replace_lock_args_with_real_btc_tx_id args tx_id = do
  throw_if (ltb (length args) 36) CkbError.plain_error
  ok (take (length args - 32) args ++ reverse tx_id)

-- `unpackRgbppLockArgs`: 4 bytes for the index and 32 for the id; the codec refuses other lengths.
unfoldable pub unpack_rgbpp_lock_args : Hex → CkbResult (Hex × ℕ)
unpack_rgbpp_lock_args args = do
  throw_if (not (length args == 36)) CkbError.plain_error
  ok (reverse (drop 4 args), from_le (take 4 args))

unfoldable pub is_rgbpp_lock_or_btc_time_lock : Script → Bool → Bool
is_rgbpp_lock_or_btc_time_lock lock true =
    is_lock_equal lock (get_rgbpp_lock_script true testnet3)
    || is_lock_equal lock (get_btc_time_lock_script true testnet3)
is_rgbpp_lock_or_btc_time_lock lock false =
    is_lock_equal (get_rgbpp_lock_script false testnet3) lock
    || (is_lock_equal (get_btc_time_lock_script false testnet3) lock
        || (is_lock_equal (get_rgbpp_lock_script false signet) lock
            || is_lock_equal (get_btc_time_lock_script false signet) lock))

-- `compareInputs`: whether the lock arguments of one cell come before those of the other. Lower-case
-- hex texts compare as their bytes do.
unfoldable pub hex_lt : Hex → Hex → Bool
hex_lt [] [] = false
hex_lt [] (b ∷ bs) = true
hex_lt (a ∷ xs) [] = false
hex_lt (a ∷ xs) (b ∷ ys) = ltb a b || ((a == b) && hex_lt xs ys)

unfoldable pub insert_cell : IndexerCell → List IndexerCell → List IndexerCell
insert_cell c [] = c ∷ []
insert_cell c (d ∷ ds) =
    let rest = insert_cell c ds in
    if hex_lt d.output.lock.args c.output.lock.args then d ∷ rest else c ∷ d ∷ ds

-- `sort(compareInputs)`, which is stable.
unfoldable pub sort_cells : List IndexerCell → List IndexerCell
sort_cells [] = []
sort_cells (c ∷ cs) = insert_cell c (sort_cells cs)

-- `deduplicateList`: the first of equal texts stays.
unfoldable pub deduplicate_from : List Hex → List Hex → List Hex
deduplicate_from seen [] = []
deduplicate_from seen (x ∷ xs) =
    let rest = deduplicate_from seen xs in
    let rest' = deduplicate_from (x ∷ seen) xs in if any (hex_eq x) seen then rest else x ∷ rest'

unfoldable pub deduplicate_list : List Hex → List Hex
deduplicate_list xs = deduplicate_from [] xs

-- `getCompatibleTokens`, for what the registry has fetched by then.
unfoldable pub get_compatible_tokens : Bool → List Script → List Script
get_compatible_tokens true fetched = compatible_xudt_type_scripts
get_compatible_tokens false [] = compatible_xudt_type_scripts
get_compatible_tokens false (s ∷ ss) = s ∷ ss

-- `isOfflineMode`, on whether cell deps are given; it answers that they are not.
unfoldable pub is_offline_mode : {A : Type 0} → Option A → Bool
is_offline_mode deps = not (is_some deps)

unfoldable pub estimate_witness_size : List Hex → ℕ
estimate_witness_size list = rgbpp_tx_witness_max_size * length (deduplicate_list list)

unfoldable pub throw_error_when_tx_inputs_exceeded : ℕ → CkbResult (Unit {0})
throw_error_when_tx_inputs_exceeded n =
    throw_if (ltb rgbpp_tx_inputs_max_length n) CkbError.rgbpp_ckb_tx_inputs_exceeded

module _ (w : CkbWorld) where
  -- `isScriptEqual`, of a script and a serialized script.
  unfoldable pub is_script_equal : Script → Hex → Bool
  is_script_equal s bytes = hex_eq (w.serialize_script s) bytes

  unfoldable pub same_but_args : Script → Script → Bool
  same_but_args s type_script =
      hex_eq (w.serialize_script s) (w.serialize_script (record type_script { args = [] }))

  unfoldable pub is_standard_udt_type_supported : Script → Bool → Bool
  is_standard_udt_type_supported t is_mainnet = same_but_args (get_xudt_type_script is_mainnet) t

  unfoldable pub is_compatible_udt_types_supported : Script → Bool → Bool
  is_compatible_udt_types_supported t offline =
      any (λ s. same_but_args s t) (get_compatible_tokens offline w.fetched_tokens)

  unfoldable pub is_udt_type_supported : Script → Bool → Bool → Bool
  is_udt_type_supported t is_mainnet offline =
      is_standard_udt_type_supported t is_mainnet || is_compatible_udt_types_supported t offline

  unfoldable pub is_utxo_airdrop_badge_type : Script → Bool → Bool
  is_utxo_airdrop_badge_type t is_mainnet =
      same_but_args (get_utxo_airdrop_badge_type_script is_mainnet) t

  unfoldable pub is_token_metadata_type : Script → Bool → Bool
  is_token_metadata_type t is_mainnet = same_but_args (get_token_metadata_type_script is_mainnet) t

  unfoldable pub is_spore_type_supported : Script → Bool → Bool
  is_spore_type_supported t is_mainnet = same_but_args (get_spore_type_script is_mainnet) t

  unfoldable pub is_cluster_spore_type_supported : Script → Bool → Bool
  is_cluster_spore_type_supported t is_mainnet =
      is_spore_type_supported t is_mainnet || same_but_args (get_cluster_type_script is_mainnet) t

  unfoldable pub is_type_asset_supported : Script → Bool → Bool → Bool
  is_type_asset_supported t is_mainnet offline =
      is_udt_type_supported t is_mainnet offline || is_cluster_spore_type_supported t is_mainnet

  -- The id is given in the order in which it is displayed.
  unfoldable pub gen_btc_time_lock_args : Script → Hex → ℕ → Hex
  gen_btc_time_lock_args lock btc_tx_id after = w.pack_btc_time_lock lock after (reverse btc_tx_id)

  unfoldable pub gen_btc_time_lock_script : Script → Bool → BtcTestnetType → Option ℕ → Script
  gen_btc_time_lock_script to_lock is_mainnet net blocks =
      record (get_btc_time_lock_script is_mainnet net) {
        args =
            gen_btc_time_lock_args to_lock (replicate 32 0)
              (or_else blocks btc_jump_confirmation_blocks);
      }

  unfoldable pub lock_script_from_btc_time_lock_args : Hex → Script
  lock_script_from_btc_time_lock_args args = (w.unpack_btc_time_lock args).0

  unfoldable pub btc_tx_id_and_after_from_btc_time_lock_args : Hex → Hex × ℕ
  btc_tx_id_and_after_from_btc_time_lock_args args =
      let (lock, (after, tx_id)) = w.unpack_btc_time_lock args in (reverse tx_id, after)

  -- Whether the cell has the type; a cell without a type has none.
  unfoldable pub has_type : Hex → IndexerCell → Bool
  has_type xudt_type_bytes c = elim c.output.type_script [
    | none ↦ false
    | some t ↦ is_script_equal t xudt_type_bytes
  ]

  unfoldable pub has_unsupported_type : Bool → Bool → IndexerCell → Bool
  has_unsupported_type is_mainnet offline c = elim c.output.type_script [
    | none ↦ false
    | some t ↦ not (is_udt_type_supported t is_mainnet offline)
  ]

  unfoldable pub throw_error_when_rgbpp_cells_invalid :
      List IndexerCell → Hex → Bool → Bool → CkbResult (Unit {0})
  throw_error_when_rgbpp_cells_invalid cells xudt_type_bytes is_mainnet offline = do
    throw_if (not (any (λ c. is_some c.output.type_script) cells)) CkbError.no_rgbpp_live_cell
    throw_if (any (has_unsupported_type is_mainnet offline) cells)
        CkbError.rgbpp_utxo_bind_multi_type_assets
    throw_if (not (any (has_type xudt_type_bytes) cells)) CkbError.no_rgbpp_live_cell
