-- ===== src/Ckb/Constants.antt =====
-- packages/ckb/src/constants/index.ts: the numbers, and the choice of scripts and cell deps by the
-- network.
mod Testnet
mod Mainnet
pub use Testnet.*
pub use Mainnet.*
use rgbpp_sdk.Common.{ℕ, ◌+◌, ◌*◌, Bool, true, false, List, [], ◌∷◌, map}
use rgbpp_sdk.Ckb.Types.{Hex, by_type, by_data, Script, CellDep, BtcTestnetType, testnet3, signet}

abbrev pub ckb_unit : ℕ
ckb_unit = 100000000

abbrev pub max_fee : ℕ
max_fee = 20000000

abbrev pub min_capacity : ℕ
min_capacity = 61 * 100000000

abbrev pub btc_jump_confirmation_blocks : ℕ
btc_jump_confirmation_blocks = 6

abbrev pub rgbpp_tx_witness_max_size : ℕ
rgbpp_tx_witness_max_size = 5000

abbrev pub rgbpp_tx_inputs_max_length : ℕ
rgbpp_tx_inputs_max_length = 40

abbrev pub cell_dep_size : ℕ
cell_dep_size = 32 + 4 + 1

abbrev pub secp256k1_witness_lock_size : ℕ
secp256k1_witness_lock_size = 65

abbrev pub rgbpp_witness_placeholder : Hex
rgbpp_witness_placeholder = 255 ∷ []

abbrev pub unlockable_lock_script : Script
unlockable_lock_script = record {
  code_hash = "0x0000000000000000000000000000000000000000000000000000000000000000";
  hash_type = by_data;
  args = [];
}

unfoldable pub get_secp256k1_cell_dep : Bool → CellDep
get_secp256k1_cell_dep true = mainnet_secp256k1_lock_dep
get_secp256k1_cell_dep false = testnet_secp256k1_lock_dep

unfoldable pub get_xudt_type_script : Bool → Script
get_xudt_type_script true = mainnet_xudt_type_script
get_xudt_type_script false = testnet_xudt_type_script

unfoldable pub get_rgbpp_lock_script : Bool → BtcTestnetType → Script
get_rgbpp_lock_script true net = mainnet_rgbpp_lock_script
get_rgbpp_lock_script false signet = testnet_rgbpp_signet_lock_script
get_rgbpp_lock_script false testnet3 = testnet_rgbpp_lock_script

unfoldable pub get_btc_time_lock_script : Bool → BtcTestnetType → Script
get_btc_time_lock_script true net = mainnet_btc_time_lock_script
get_btc_time_lock_script false signet = testnet_btc_time_signet_lock_script
get_btc_time_lock_script false testnet3 = testnet_btc_time_lock_script

abbrev pub compatible_xudt_type_scripts : List Script
compatible_xudt_type_scripts =
    map (λ h. record { code_hash = h; hash_type = by_type; args = [] })
      ("0x26a33e0815888a4a0614a0b7d09fa951e0993ff21e55905510104a0b1312032b"
        ∷ "0x1142755a044bf2ee358cba9f2da187ce928c91cd4dc8692ded0337efa677d21a"
        ∷ "0xbfa35a9c38a676682b65ade8f02be164d48632281477e36f8dc2f41f79e56bfc"
        ∷ "0xcc9dc33ef234e14bc788c43a4848556a5fb16401a04662fc55db9bb201987037" ∷ [])

unfoldable pub get_xudt_dep : Bool → CellDep
get_xudt_dep true = mainnet_xudt_type_dep
get_xudt_dep false = testnet_xudt_type_dep

unfoldable pub get_rgbpp_lock_dep : Bool → BtcTestnetType → CellDep
get_rgbpp_lock_dep true net = mainnet_rgbpp_lock_dep
get_rgbpp_lock_dep false signet = testnet_rgbpp_signet_lock_dep
get_rgbpp_lock_dep false testnet3 = testnet_rgbpp_lock_dep

unfoldable pub get_rgbpp_lock_config_dep : Bool → BtcTestnetType → CellDep
get_rgbpp_lock_config_dep true net = mainnet_rgbpp_lock_config_dep
get_rgbpp_lock_config_dep false signet = testnet_rgbpp_signet_lock_config_dep
get_rgbpp_lock_config_dep false testnet3 = testnet_rgbpp_lock_config_dep

unfoldable pub get_btc_time_lock_dep : Bool → BtcTestnetType → CellDep
get_btc_time_lock_dep true net = mainnet_btc_time_lock_dep
get_btc_time_lock_dep false signet = testnet_btc_time_signet_lock_dep
get_btc_time_lock_dep false testnet3 = testnet_btc_time_lock_dep

unfoldable pub get_btc_time_lock_config_dep : Bool → BtcTestnetType → CellDep
get_btc_time_lock_config_dep true net = mainnet_btc_time_lock_config_dep
get_btc_time_lock_config_dep false signet = testnet_btc_time_signet_lock_config_dep
get_btc_time_lock_config_dep false testnet3 = testnet_btc_time_lock_config_dep

unfoldable pub get_unique_type_script : Bool → Script
get_unique_type_script true = mainnet_unique_type_script
get_unique_type_script false = testnet_unique_type_script

unfoldable pub get_unique_type_dep : Bool → CellDep
get_unique_type_dep true = mainnet_unique_type_dep
get_unique_type_dep false = testnet_unique_type_dep

unfoldable pub get_cluster_type_script : Bool → Script
get_cluster_type_script true = mainnet_cluster_type_script
get_cluster_type_script false = testnet_cluster_type_script

unfoldable pub get_cluster_type_dep : Bool → CellDep
get_cluster_type_dep true = mainnet_cluster_type_dep
get_cluster_type_dep false = testnet_cluster_type_dep

unfoldable pub get_spore_type_script : Bool → Script
get_spore_type_script true = mainnet_spore_type_script
get_spore_type_script false = testnet_spore_type_script

unfoldable pub get_spore_type_dep : Bool → CellDep
get_spore_type_dep true = mainnet_spore_type_dep
get_spore_type_dep false = testnet_spore_type_dep

unfoldable pub get_utxo_airdrop_badge_type_script : Bool → Script
get_utxo_airdrop_badge_type_script true = mainnet_utxo_airdrop_badge_type_script
get_utxo_airdrop_badge_type_script false = testnet_utxo_airdrop_badge_type_script

unfoldable pub get_utxo_airdrop_badge_type_dep : Bool → CellDep
get_utxo_airdrop_badge_type_dep true = mainnet_utxo_airdrop_badge_type_dep
get_utxo_airdrop_badge_type_dep false = testnet_utxo_airdrop_badge_type_dep

unfoldable pub get_token_metadata_type_script : Bool → Script
get_token_metadata_type_script true = mainnet_token_metadata_type_script
get_token_metadata_type_script false = testnet_token_metadata_type_script
