-- ===== src/Rgbpp/Summary/Totals.antt =====
-- packages/rgbpp/src/rgbpp/summary/asset-summarizer.ts: `addGroups` and the amounts of the cells.
use rgbpp_sdk.Ckb.Collector.{amount_of}
use rgbpp_sdk.Ckb.Scripts.{CkbWorld, hex_eq}
use rgbpp_sdk.Ckb.Types.{Hex, IndexerCell, Script}
use rgbpp_sdk.Common.{
  Bool, Bool-cases, List, Option, [], ap, arith, inl, inr, none, refl, some, ℕ, ◌++◌, ◌+◌, ◌∙◌, ◌∷◌,
  ◌≡◌,
}
use rgbpp_sdk.Rgbpp.Summary.{
  AssetGroup, AssetGroupSummary, AssetSummarizer, XudtAssets, add_amount, add_asset, add_cells,
  add_each, add_group, add_groups, first_asset, merge_all, merge_assets, no_asset, no_cells, plus,
  summarize, summarize_groups, upsert, xudt_type_of,
}
use rgbpp_sdk.Rgbpp.Summary.Amounts.{
  IsRecord, amount_under, has_args, hex_eq-eq, no_amount, share, upsert-IsRecord, upsert-amount,
}

merge_assets-IsRecord : (m result : XudtAssets) → IsRecord result → IsRecord (merge_assets m result)
unfolding merge_assets
merge_assets-IsRecord [] result h = h
merge_assets-IsRecord ((k, a) ∷ rest) result h =
    merge_assets-IsRecord rest _ (upsert-IsRecord k no_asset (plus a) result h)

merge_assets-amount :
    (args : Hex) (m result : XudtAssets)
    → IsRecord m
    → amount_under args (merge_assets m result) ≡ amount_under args result + amount_under args m
unfolding merge_assets plus
merge_assets-amount args [] result h = omega arith
merge_assets-amount args ((k, a) ∷ rest) result (fresh, h) =
    let added = upsert-amount k no_asset (plus a) a.amount refl (λ b. refl) args result in
    let ih = merge_assets-amount args rest (upsert k no_asset (plus a) result) h in
    elim (Bool-cases (hex_eq args k)) [
      | inl same ↦
          let e = ap (λ x. has_args x rest) (hex_eq-eq args k same) in
          let none_left = no_amount args rest (e ∙ fresh) in
          rw same (omega (arith, ih, rw same at added, none_left))
      | inr other ↦ rw other (omega (arith, ih, rw other at added))
    ]

-- The amount of a cell of the type, if the type has the arguments.
abbrev pub share_of : Hex → Option Script → ℕ → ℕ
share_of args none amount = 0
share_of args (some t) amount = share args t.args amount

-- The amounts of the cells whose type is a supported token with the arguments.
abbrev pub amounts_of : CkbWorld → Bool → Bool → Hex → List IndexerCell → ℕ
amounts_of w main offline args [] = 0
amounts_of w main offline args (c ∷ cs) =
    share_of args (xudt_type_of w main offline c) (amount_of c) + amounts_of w main offline args cs

abbrev pub cells_in : List AssetGroup → List IndexerCell
cells_in [] = []
cells_in (g ∷ gs) = g.cells ++ cells_in gs

add_asset-amount :
    (args : Hex) (t : Option Script) (amount : ℕ) (m : XudtAssets)
    → amount_under args (add_asset t amount m) ≡ amount_under args m + share_of args t amount
unfolding add_asset add_amount
add_asset-amount args none amount m = omega arith
add_asset-amount args (some t) amount m =
    upsert-amount t.args first_asset (add_amount amount) amount refl (λ a. refl) args m

add_asset-IsRecord :
    (t : Option Script) (amount : ℕ) (m : XudtAssets) → IsRecord m → IsRecord (add_asset t amount m)
unfolding add_asset
add_asset-IsRecord none amount m h = h
add_asset-IsRecord (some t) amount m h = upsert-IsRecord t.args first_asset (add_amount amount) m h

module _ (w : CkbWorld) (main offline : Bool) where
  amounts_of-append :
      (args : Hex) (xs ys : List IndexerCell)
      → amounts_of w main offline args (xs ++ ys)
        ≡ amounts_of w main offline args xs + amounts_of w main offline args ys
  amounts_of-append args [] ys = omega arith
  amounts_of-append args (c ∷ cs) ys = omega (arith, amounts_of-append args cs ys)

  add_cells-amount :
      (args : Hex) (cs : List IndexerCell) (s : AssetGroupSummary)
      → amount_under args (add_cells w main offline cs s).xudt_assets
        ≡ amount_under args s.xudt_assets + amounts_of w main offline args cs
  unfolding add_cells
  add_cells-amount args [] s = omega arith
  add_cells-amount args (c ∷ cs) s =
      let added =
        add_asset-amount args (xudt_type_of w main offline c) (amount_of c) s.xudt_assets in
      add_cells-amount args cs _ ∙ omega (arith, added)

  add_cells-IsRecord :
      (cs : List IndexerCell) (s : AssetGroupSummary)
      → IsRecord s.xudt_assets
      → IsRecord (add_cells w main offline cs s).xudt_assets
  unfolding add_cells
  add_cells-IsRecord [] s h = h
  add_cells-IsRecord (c ∷ cs) s h =
      add_cells-IsRecord cs _
        (add_asset-IsRecord (xudt_type_of w main offline c) (amount_of c) s.xudt_assets h)

module _ (w : CkbWorld) (offline : Bool) where
  add_each-Totals :
      (args : Hex) (groups : List AssetGroup) (s : AssetSummarizer) (result : XudtAssets)
      → IsRecord result
      → IsRecord (merge_all (add_each w offline groups s).0 result)
        × (amount_under args (merge_all (add_each w offline groups s).0 result)
            ≡ amount_under args result + amounts_of w s.is_mainnet offline args (cells_in groups))
  unfolding add_each merge_all add_group
  add_each-Totals args [] s result h = (h, omega arith)
  add_each-Totals args (g ∷ gs) s result h =
      let (first, s1) = add_group w offline g s in
      let unique = add_cells-IsRecord w s.is_mainnet offline g.cells (no_cells g.utxo) tt in
      let (ok_rest, sums) =
        add_each-Totals args gs s1 (merge_assets first.xudt_assets result)
          (merge_assets-IsRecord first.xudt_assets result h) in
      let merged = merge_assets-amount args first.xudt_assets result unique in
      let counted = add_cells-amount w s.is_mainnet offline args g.cells (no_cells g.utxo) in
      let split = amounts_of-append w s.is_mainnet offline args g.cells (cells_in gs) in
      (ok_rest, sums ∙ omega (arith, merged, counted, split))

  -- `addGroups` tells under each arguments of a type the amounts of all cells whose type is a
  -- supported token with these arguments, in one entry.
  pub add_groups-amount :
      (args : Hex) (groups : List AssetGroup) (s : AssetSummarizer)
      → IsRecord (add_groups w offline groups s).0.assets
        × (amount_under args (add_groups w offline groups s).0.assets
            ≡ amounts_of w s.is_mainnet offline args (cells_in groups))
  unfolding add_groups summarize_groups summarize
  add_groups-amount args groups s =
      let (unique, sums) = add_each-Totals args groups s [] tt in (unique, sums ∙ omega arith)
