-- ===== src/Rgbpp/Summary.antt =====
-- packages/rgbpp/src/rgbpp/summary/asset-summarizer.ts: the assets of groups of cells. The id of a
-- cell or of a UTXO is the pair that its text is encoded from.
pub mod Amounts
pub mod Totals
use rgbpp_sdk.Btc.Types.{BaseOutput, Utxo}
use rgbpp_sdk.Ckb.Collector.{amount_of}
use rgbpp_sdk.Ckb.Scripts.{CkbWorld, hex_eq, is_udt_type_supported}
use rgbpp_sdk.Ckb.Types.{Hex, IndexerCell, OutPoint, Script}
use rgbpp_sdk.Common.{
  Bool, List, Option, [], if◌then◌else◌, is_some, length, map, none, or_else, some, ℕ, ◌++◌, ◌+◌,
  ◌∷◌,
}

-- A summary of the cells of one type.
pub record XudtAssetSummary : Type 0 where
  pub amount : ℕ
  pub utxo_count : ℕ
  pub cell_count : ℕ

-- The summaries by the arguments of the type, in the order in which they were added.
abbrev pub XudtAssets : Type 0
XudtAssets = List (Hex × XudtAssetSummary)

pub record AssetGroup : Type 0 where
  pub utxo : Utxo
  pub cells : List IndexerCell

pub record AssetGroupSummary : Type 0 where
  pub utxo_id : BaseOutput
  pub cell_ids : List OutPoint
  pub xudt_cell_ids : List OutPoint
  pub xudt_assets : XudtAssets

pub record TransactionGroupSummary : Type 0 where
  pub utxo_count : ℕ
  pub cell_count : ℕ
  pub xudt_cell_count : ℕ
  pub utxo_ids : List BaseOutput
  pub all_cell_ids : List OutPoint
  pub all_xudt_cell_ids : List OutPoint
  pub assets : XudtAssets

pub record AssetSummarizer : Type 0 where
  pub is_mainnet : Bool
  pub groups : List AssetGroupSummary

-- The entry of the key is changed; if there is none, a new one is, and it is added.
unfoldable pub upsert :
    Hex → XudtAssetSummary → (XudtAssetSummary → XudtAssetSummary) → XudtAssets → XudtAssets
upsert key new f [] = (key, f new) ∷ []
upsert key new f ((k, a) ∷ rest) =
    if hex_eq key k then (k, f a) ∷ rest else (k, a) ∷ upsert key new f rest

abbrev pub first_asset : XudtAssetSummary
first_asset = record { amount = 0; utxo_count = 1; cell_count = 0 }

abbrev pub no_asset : XudtAssetSummary
no_asset = record { amount = 0; utxo_count = 0; cell_count = 0 }

unfoldable pub add_amount : ℕ → XudtAssetSummary → XudtAssetSummary
add_amount amount a = record a { amount = a.amount + amount; cell_count = a.cell_count + 1 }

-- The type of a cell, if it is a token that is supported.
unfoldable pub xudt_type_of : CkbWorld → Bool → Bool → IndexerCell → Option Script
xudt_type_of w is_mainnet offline c = elim c.output.type_script [
  | none ↦ none
  | some t ↦ if is_udt_type_supported w t is_mainnet offline then some t else none
]

unfoldable pub add_asset : Option Script → ℕ → XudtAssets → XudtAssets
add_asset none amount assets = assets
add_asset (some t) amount assets = upsert t.args first_asset (add_amount amount) assets

unfoldable pub add_cells :
    CkbWorld → Bool → Bool → List IndexerCell → AssetGroupSummary → AssetGroupSummary
add_cells w is_mainnet offline [] s = s
add_cells w is_mainnet offline (c ∷ cs) s =
    let t = xudt_type_of w is_mainnet offline c in
    add_cells w is_mainnet offline cs (record {
      utxo_id = s.utxo_id;
      cell_ids = s.cell_ids ++ c.out_point ∷ [];
      xudt_cell_ids = if is_some t then s.xudt_cell_ids ++ c.out_point ∷ [] else s.xudt_cell_ids;
      xudt_assets = add_asset t (amount_of c) s.xudt_assets;
    })

abbrev pub no_cells : Utxo → AssetGroupSummary
no_cells utxo = record {
  utxo_id = record { txid = utxo.txid; vout = utxo.vout };
  cell_ids = [];
  xudt_cell_ids = [];
  xudt_assets = [];
}

unfoldable pub add_group :
    CkbWorld → Bool → AssetGroup → AssetSummarizer → AssetGroupSummary × AssetSummarizer
add_group w offline group s =
    let result = add_cells w s.is_mainnet offline group.cells (no_cells group.utxo) in
    (result, record s { groups = s.groups ++ result ∷ [] })

unfoldable pub add_each :
    CkbWorld → Bool → List AssetGroup → AssetSummarizer → List AssetGroupSummary × AssetSummarizer
add_each w offline [] s = ([], s)
add_each w offline (g ∷ gs) s =
    let (first, s1) = add_group w offline g s in
    let (rest, s2) = add_each w offline gs s1 in (first ∷ rest, s2)

unfoldable pub plus : XudtAssetSummary → XudtAssetSummary → XudtAssetSummary
plus a b = record {
  amount = b.amount + a.amount;
  utxo_count = b.utxo_count + a.utxo_count;
  cell_count = b.cell_count + a.cell_count;
}

-- The assets of one summary are added to the result.
unfoldable pub merge_assets : XudtAssets → XudtAssets → XudtAssets
merge_assets [] result = result
merge_assets ((k, a) ∷ rest) result = merge_assets rest (upsert k no_asset (plus a) result)

unfoldable pub merge_all : List AssetGroupSummary → XudtAssets → XudtAssets
merge_all [] result = result
merge_all (g ∷ gs) result = merge_all gs (merge_assets g.xudt_assets result)

-- `flatMap` of the ids of the groups.
unfoldable pub ids_of : (AssetGroupSummary → List OutPoint) → List AssetGroupSummary → List OutPoint
ids_of f [] = []
ids_of f (g ∷ gs) = f g ++ ids_of f gs

unfoldable pub summarize : List AssetGroupSummary → TransactionGroupSummary
summarize groups =
    let cells = ids_of (λ g. g.cell_ids) groups in
    let xudts = ids_of (λ g. g.xudt_cell_ids) groups in
    record {
      utxo_count = length groups;
      cell_count = length cells;
      xudt_cell_count = length xudts;
      utxo_ids = map (λ g. g.utxo_id) groups;
      all_cell_ids = cells;
      all_xudt_cell_ids = xudts;
      assets = merge_all groups [];
    }

unfoldable pub summarize_groups :
    AssetSummarizer → Option (List AssetGroupSummary) → TransactionGroupSummary
summarize_groups s groups = summarize (or_else groups s.groups)

unfoldable pub add_groups :
    CkbWorld → Bool → List AssetGroup → AssetSummarizer → TransactionGroupSummary × AssetSummarizer
add_groups w offline groups s =
    let (results, s') = add_each w offline groups s in (summarize_groups s' (some results), s')
