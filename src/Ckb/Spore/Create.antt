-- ===== src/Ckb/Spore/Create.antt =====
-- packages/ckb/src/spore/spore.ts and cluster.ts: the creation of clusters and spores.
use rgbpp_sdk.Ckb.Capacity.{calculate_transaction_fee}
use rgbpp_sdk.Ckb.CellDeps.{CellDepsObject, fetch_type_id_cell_deps, given_or, nothing_selected}
use rgbpp_sdk.Ckb.Commitment.{calculate_commitment}
use rgbpp_sdk.Ckb.Constants.{
  get_cluster_type_dep, get_cluster_type_script, get_spore_type_dep, get_spore_type_script,
  rgbpp_tx_witness_max_size, rgbpp_witness_placeholder,
}
use rgbpp_sdk.Ckb.Error.{CkbError, CkbResult}
use rgbpp_sdk.Ckb.Scripts.{
  CkbWorld, build_pre_lock_args, gen_rgbpp_lock_script, is_cluster_spore_type_supported,
}
use rgbpp_sdk.Ckb.Spore.{
  SporeWorld, calculate_rgbpp_spore_cell_capacity, cells_at_lock, generate_cluster_create_co_build,
  generate_cluster_id, generate_spore_create_co_build, generate_spore_id,
}
use rgbpp_sdk.Ckb.Types.{
  BtcTestnetType, CellDep, CellOutput, CellQuery, Dep, Hex, IndexerCell, OutPoint, RawTx, Script,
  code_dep,
}
use rgbpp_sdk.Common.{
  Bool, List, Option, [], if◌then◌else◌, ltb, map, none, or_else, some, suc, true, ℕ, ◌++◌, ◌+◌,
  ◌-◌, ◌∷◌,
}
use rgbpp_sdk.Common.Outcome.{err, ok, throw_if, ◌>>=◌, ◌>>◌}

pub record CreateClusterProps : Type 0 where
  pub rgbpp_lock_args : Hex
  pub cluster_data : Hex
  pub is_mainnet : Bool
  pub btc_testnet_type : BtcTestnetType
  pub witness_lock_placeholder_size : Option ℕ
  pub ckb_fee_rate : Option ℕ
  pub vendor_cell_deps : Option CellDepsObject

pub record CreateSporeProps : Type 0 where
  pub cluster_rgbpp_lock_args : Hex
  pub spore_data_list : List Hex
  pub is_mainnet : Bool
  pub btc_testnet_type : BtcTestnetType
  pub vendor_cell_deps : Option CellDepsObject

pub record ClusterTx : Type 0 where
  pub tx : RawTx
  pub commitment : Hex
  pub cluster_id : Hex
  pub estimated_fee : ℕ

pub record SporesTx : Type 0 where
  pub tx : RawTx
  pub commitment : Hex
  pub sum_inputs_capacity : ℕ
  pub cluster_cell : IndexerCell

unfoldable pub spore_raw_tx : List Dep → OutPoint → List (CellOutput × Hex) → Hex → RawTx
spore_raw_tx deps input outputs co_build = record {
  cell_deps = deps;
  inputs = input ∷ [];
  outputs = map (λ o. o.0) outputs;
  outputs_data = map (λ o. o.1) outputs;
  witnesses = rgbpp_witness_placeholder ∷ co_build ∷ [];
}

unfoldable pub first_rgbpp_cell : List IndexerCell → CkbResult IndexerCell
first_rgbpp_cell [] = err CkbError.no_rgbpp_live_cell
first_rgbpp_cell (c ∷ cs) = ok c

-- The cluster's cell: the only one, with a type that is supported.
unfoldable pub only_cluster_cell : CkbWorld → List IndexerCell → Bool → CkbResult IndexerCell
only_cluster_cell w [] is_mainnet = err CkbError.no_rgbpp_live_cell
only_cluster_cell w (c ∷ c' ∷ cs) is_mainnet = err CkbError.rgbpp_utxo_bind_multi_type_assets
only_cluster_cell w (c ∷ []) is_mainnet = elim c.output.type_script [
  | none ↦ err CkbError.type_asset_not_supported
  | some t ↦
      if is_cluster_spore_type_supported w t is_mainnet
      then ok c
      else err CkbError.type_asset_not_supported
]

-- The spores' cells from the index of an output on: output 0 is the cluster's. The Bitcoin output is
-- the next one, since its output 0 holds the commitment.
unfoldable pub spore_outputs :
    CkbWorld → CreateSporeProps → OutPoint → ℕ → List Hex → List (CellOutput × Hex)
spore_outputs w p input index [] = []
spore_outputs w p input index (spore ∷ spores) =
    (
      record {
        capacity = calculate_rgbpp_spore_cell_capacity spore;
        lock =
            gen_rgbpp_lock_script (build_pre_lock_args (index + 1)) p.is_mainnet p.btc_testnet_type;
        type_script = some (record (get_spore_type_script p.is_mainnet) {
          args = generate_spore_id w input index;
        });
      },
      spore,
    )
    ∷ spore_outputs w p input (suc index) spores

module _ (w : CkbWorld) (s : SporeWorld) (get_cells : CellQuery → CkbResult (List IndexerCell))
    (fetched : Option CellDepsObject) where
  -- A fee that is more than the cell has leaves the text of a negative number, which the commitment
  -- refuses as no BigInt.
  unfoldable pub gen_create_cluster_ckb_virtual_tx : CreateClusterProps → CkbResult ClusterTx
  gen_create_cluster_ckb_virtual_tx p = do
    cells ← get_cells (record {
      lock = gen_rgbpp_lock_script p.rgbpp_lock_args p.is_mainnet p.btc_testnet_type;
      type_script = none;
      is_data_must_be_empty = true;
      output_capacity_range = none;
    })
    cell ← first_rgbpp_cell cells
    let id : Hex = generate_cluster_id w cell.out_point 0
    let lock : Script =
        gen_rgbpp_lock_script (build_pre_lock_args 1) p.is_mainnet p.btc_testnet_type
    let cluster_type : Script = record (get_cluster_type_script p.is_mainnet) { args = id }
    let output : CellOutput = record cell.output { lock = lock; type_script = some cluster_type }
    deps ←
        fetch_type_id_cell_deps p.is_mainnet (record nothing_selected { rgbpp = true })
          p.btc_testnet_type (given_or p.vendor_cell_deps fetched)
    let all_deps = deps ++ some (get_cluster_type_dep p.is_mainnet) ∷ []
    let co_build = generate_cluster_create_co_build s (output, p.cluster_data)
    let draft = spore_raw_tx all_deps cell.out_point ((output, p.cluster_data) ∷ []) co_build
    let fee =
        calculate_transaction_fee
          (w.transaction_size draft
            + or_else p.witness_lock_placeholder_size rgbpp_tx_witness_max_size)
          p.ckb_fee_rate
    throw_if (ltb cell.output.capacity fee) CkbError.plain_error
    let paid : CellOutput = record output { capacity = cell.output.capacity - fee }
    let outputs : List (CellOutput × Hex) = (paid, p.cluster_data) ∷ []
    commitment ← calculate_commitment w (record { inputs = cell.out_point ∷ []; outputs = outputs })
    ok (record {
      tx = spore_raw_tx all_deps cell.out_point outputs co_build;
      commitment = commitment;
      cluster_id = id;
      estimated_fee = fee;
    })

  unfoldable pub gen_create_spore_ckb_virtual_tx : CreateSporeProps → CkbResult SporesTx
  gen_create_spore_ckb_virtual_tx p = do
    cells ← get_cells (
        cells_at_lock
          (gen_rgbpp_lock_script p.cluster_rgbpp_lock_args p.is_mainnet p.btc_testnet_type))
    cluster ← only_cluster_cell w cells p.is_mainnet
    let spores = spore_outputs w p cluster.out_point 1 p.spore_data_list
    let lock : Script =
        gen_rgbpp_lock_script (build_pre_lock_args 1) p.is_mainnet p.btc_testnet_type
    let cluster_output : CellOutput = record cluster.output { lock = lock }
    let outputs : List (CellOutput × Hex) = (cluster_output, cluster.output_data) ∷ spores
    deps ←
        fetch_type_id_cell_deps p.is_mainnet (record nothing_selected { rgbpp = true })
          p.btc_testnet_type (given_or p.vendor_cell_deps fetched)
    let cluster_dep : CellDep = record { out_point = cluster.out_point; dep_type = code_dep }
    let all_deps =
        deps
        ++ some (get_cluster_type_dep p.is_mainnet)
          ∷ some (get_spore_type_dep p.is_mainnet)
          ∷ some cluster_dep
          ∷ []
    commitment ←
        calculate_commitment w (record { inputs = cluster.out_point ∷ []; outputs = outputs })
    ok (record {
      tx =
          spore_raw_tx all_deps cluster.out_point outputs
            (generate_spore_create_co_build s spores cluster cluster_output);
      commitment = commitment;
      sum_inputs_capacity = cluster.output.capacity;
      cluster_cell = cluster;
    })
