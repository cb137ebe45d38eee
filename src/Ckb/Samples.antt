-- ===== src/Ckb/Samples.antt =====
-- A world and cells at which the theorems on the CKB side are applied.
use rgbpp_sdk.Ckb.Constants.{testnet_rgbpp_lock_script}
use rgbpp_sdk.Ckb.Error.{CkbResult}
use rgbpp_sdk.Ckb.Scripts.{CkbWorld}
use rgbpp_sdk.Ckb.Types.{CellQuery, IndexerCell, Script, by_type}
use rgbpp_sdk.Common.{List, [], if◌then◌else◌, is_some, length, none, replicate, some, ℕ, ◌++◌, ◌∷◌}
use rgbpp_sdk.Common.Outcome.{ok}

abbrev pub world : CkbWorld
world = record {
  serialize_script = λ s. s.args;
  unpack_script = λ bytes. record { code_hash = "xudt"; hash_type = by_type; args = bytes };
  serialize_out_point = λ o. o.index ∷ [];
  serialize_output = λ o. o.lock.args;
  sha256 = λ bytes. 9 ∷ length bytes ∷ [];
  transaction_size = λ tx. 500;
  size_to_sign = λ tx. 500;
  script_to_hash = λ s. s.args;
  serialize_input = λ o. o.index ∷ [];
  blake2b = λ bytes. bytes;
  pack_btc_time_lock = λ lock after tx_id. after ∷ tx_id;
  unpack_btc_time_lock =
      λ args. (record { code_hash = "time"; hash_type = by_type; args = args }, (6, args));
  pack_rgbpp_unlock = λ inputs outputs btc_tx proof. inputs ∷ outputs ∷ btc_tx;
  pack_btc_time_unlock = λ proof. proof;
  serialize_witness_lock = λ lock. lock;
  fetched_tokens = [];
}

abbrev pub token : Script
token = record { code_hash = "xudt"; hash_type = by_type; args = 7 ∷ [] }

abbrev pub cell : ℕ → IndexerCell
cell index = record {
  out_point = record { tx_hash = "aa"; index = index };
  output = record {
    capacity = 30000000000;
    lock = record testnet_rgbpp_lock_script { args = 1 ∷ [] };
    type_script = some token;
  };
  output_data = 232 ∷ 3 ∷ 0 ∷ 0 ∷ 0 ∷ 0 ∷ 0 ∷ 0 ∷ 0 ∷ 0 ∷ 0 ∷ 0 ∷ 0 ∷ 0 ∷ 0 ∷ 0 ∷ [];
}

abbrev pub cells_at : Script → List IndexerCell
cells_at lock = cell 0 ∷ cell 1 ∷ []

abbrev pub empty_cell : ℕ → IndexerCell
empty_cell index = record {
  out_point = record { tx_hash = "bb"; index = index };
  output = record { capacity = 50000000000; lock = token; type_script = none };
  output_data = [];
}

-- The cells of the token, or those without a type.
abbrev pub asked : CellQuery → CkbResult (List IndexerCell)
asked q = if is_some q.type_script then ok (cell 0 ∷ cell 1 ∷ []) else ok (empty_cell 5 ∷ [])

-- A world whose time locks have the size of the molecule codec.
abbrev pub time_world : CkbWorld
time_world = record world { pack_btc_time_lock = λ lock after tx_id. replicate 105 0 ++ lock.args }
