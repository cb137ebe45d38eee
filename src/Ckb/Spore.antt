-- ===== src/Ckb/Spore.antt =====
-- packages/ckb/src/utils/spore.ts: the ids, witnesses and checks of spores and clusters. The actions
-- and codecs of spore-sdk are parameters; the data of a spore is the bytes that it is packed to.
pub mod Create
pub mod Move
use rgbpp_sdk.Ckb.Codec.{to_le}
use rgbpp_sdk.Ckb.Constants.{ckb_unit}
use rgbpp_sdk.Ckb.Error.{
  CkbError, CkbResult, no_rgbpp_live_cell, plain_error, rgbpp_spore_type_mismatch,
  rgbpp_utxo_bind_multi_type_assets,
}
use rgbpp_sdk.Ckb.Scripts.{CkbWorld, is_script_equal, is_spore_type_supported}
use rgbpp_sdk.Ckb.Types.{CellOutput, CellQuery, Hex, IndexerCell, OutPoint, Script}
use rgbpp_sdk.Common.{
  Bool, List, Option, [], false, length, none, not, some, ℕ, ◌*◌, ◌++◌, ◌+◌, ◌∷◌,
}
use rgbpp_sdk.Common.Outcome.{err, ok, throw_if, ◌>>=◌, ◌>>◌}

-- `repack_spore` is `packRawSporeData` of what `unpackToRawSporeData` reads.
pub record SporeWorld : Type 0 where
  pub repack_spore : Hex → Hex
  pub create_cluster_actions : CellOutput × Hex → List Hex
  pub transfer_cluster_actions : CellOutput × Hex → CellOutput × Hex → List Hex
  pub create_spore_actions : CellOutput × Hex → List Hex
  pub transfer_spore_actions : CellOutput × Hex → CellOutput × Hex → List Hex
  pub cobuild_witness_layout : List Hex → Hex

-- The id of a cluster and of a spore: a digest of the first input and of the output's index.
unfoldable pub generate_cluster_id : CkbWorld → OutPoint → ℕ → Hex
generate_cluster_id w input index = w.blake2b (w.serialize_input input ++ to_le 8 index)

unfoldable pub generate_spore_id : CkbWorld → OutPoint → ℕ → Hex
generate_spore_id w input index = generate_cluster_id w input index

unfoldable pub calculate_rgbpp_cluster_cell_capacity : Hex → ℕ
calculate_rgbpp_cluster_cell_capacity cluster =
    (69 + (32 + 1 + 32) + 8 + length cluster + 1) * ckb_unit

unfoldable pub calculate_rgbpp_spore_cell_capacity : Hex → ℕ
calculate_rgbpp_spore_cell_capacity spore =
    (69 + (32 + 1 + 32) + 8 + length spore + 95 + 1) * ckb_unit

module _ (s : SporeWorld) where
  unfoldable pub generate_cluster_create_co_build : CellOutput × Hex → Hex
  generate_cluster_create_co_build cluster =
      s.cobuild_witness_layout (s.create_cluster_actions cluster)

  unfoldable pub create_actions : List (CellOutput × Hex) → List Hex
  create_actions [] = []
  create_actions (o ∷ os) = s.create_spore_actions o ++ create_actions os

  -- Each output stands with its data, so that there are as many of the one as of the other.
  unfoldable pub generate_spore_create_co_build :
      List (CellOutput × Hex) → IndexerCell → CellOutput → Hex
  generate_spore_create_co_build spores cluster cluster_output = s.cobuild_witness_layout (
      s.transfer_cluster_actions (cluster.output, cluster.output_data)
        (cluster_output, cluster.output_data)
      ++ create_actions spores)

  unfoldable pub transfer_actions : List IndexerCell → List CellOutput → CkbResult (List Hex)
  transfer_actions [] [] = ok []
  transfer_actions [] (o ∷ os) = err CkbError.plain_error
  transfer_actions (c ∷ cs) [] = err CkbError.plain_error
  transfer_actions (c ∷ cs) (o ∷ os) = do
    rest ← transfer_actions cs os
    ok (s.transfer_spore_actions (c.output, c.output_data) (o, c.output_data) ++ rest)

  -- Lists of different lengths are refused.
  unfoldable pub generate_spore_transfer_co_build :
      List IndexerCell → List CellOutput → CkbResult Hex
  generate_spore_transfer_co_build cells outputs = do
    actions ← transfer_actions cells outputs
    ok (s.cobuild_witness_layout actions)

-- The check of the type, for the only cell.
unfoldable pub check_spore_type : CkbWorld → Hex → Bool → Option Script → CkbResult (Unit {0})
check_spore_type w spore_type_bytes is_mainnet none = err CkbError.rgbpp_spore_type_mismatch
check_spore_type w spore_type_bytes is_mainnet (some t) = do
  throw_if (not (is_spore_type_supported w t is_mainnet)) CkbError.rgbpp_spore_type_mismatch
  throw_if (not (is_script_equal w t spore_type_bytes)) CkbError.rgbpp_spore_type_mismatch

-- `throwErrorWhenSporeCellsInvalid`, which leaves one cell.
unfoldable pub only_spore_cell : CkbWorld → List IndexerCell → Hex → Bool → CkbResult IndexerCell
only_spore_cell w [] spore_type_bytes is_mainnet = err CkbError.no_rgbpp_live_cell
only_spore_cell w (c ∷ c' ∷ cs) spore_type_bytes is_mainnet =
    err CkbError.rgbpp_utxo_bind_multi_type_assets
only_spore_cell w (c ∷ []) spore_type_bytes is_mainnet = do
  check_spore_type w spore_type_bytes is_mainnet c.output.type_script
  ok c

-- `getCells` with the lock only, for cells with any data.
abbrev pub cells_at_lock : Script → CellQuery
cells_at_lock lock = record {
  lock = lock;
  type_script = none;
  is_data_must_be_empty = false;
  output_capacity_range = none;
}
