-- ===== src/Rgbpp/Tests.antt =====
-- Numbers and cells at which the theorems on groups and summaries are applied.
use rgbpp_sdk.Common.{none, false, All, List, [], arith, true, ℕ, ◌++◌, ◌∷◌, ◌≡◌, ◌≤◌}
use rgbpp_sdk.Btc.Types.{Utxo, p2wpkh}
use rgbpp_sdk.Common.Int.{pos}
use rgbpp_sdk.Ckb.Samples.{cell, token, world}
use rgbpp_sdk.Rgbpp.Summary.{AssetGroup, AssetSummarizer, add_groups}
use rgbpp_sdk.Rgbpp.Summary.Amounts.{IsRecord, amount_under}
use rgbpp_sdk.Rgbpp.Summary.Totals.{add_groups-amount, amounts_of, cells_in}
use rgbpp_sdk.Rgbpp.Groups.{Grouping, backtrack, grouped, with_indices}
use rgbpp_sdk.Rgbpp.Groups.Cover.{grouped-covers, in_groups, number_sum}
use rgbpp_sdk.Rgbpp.Groups.Greedy.{backtrack-greedy, greedy, marks, taken}

abbrev amounts : List ℕ
amounts = 3 ∷ 5 ∷ 2 ∷ 9 ∷ 1 ∷ []

-- The number at index 1 is in a group already.
abbrev begun : Grouping
begun = record { used = 1 ∷ []; groups = [] }

grouped-covers_example :
    All (λ g. number_sum g ≤ 6) (grouped amounts 6)
    × All (λ x. x.1 ≤ 6 → in_groups x.0 (grouped amounts 6) ≡ true) (with_indices 0 amounts)
grouped-covers_example = grouped-covers amounts 6 (omega arith)

backtrack-greedy_example :
    backtrack 6 (with_indices 0 amounts) [] 0 begun
    ≡ taken
        ([] ++ greedy 6 begun.used (with_indices 0 amounts) 0)
        (marks (greedy 6 begun.used (with_indices 0 amounts) 0) begun.used)
        begun.groups
backtrack-greedy_example = backtrack-greedy 6 (with_indices 0 amounts) [] 0 begun (omega arith)

abbrev utxo : Utxo
utxo = record {
  txid = "aa";
  vout = 1;
  value = pos 546;
  script_pk = "00";
  address_type = p2wpkh;
  address = "a";
  pubkey = none;
}

abbrev asset_groups : List AssetGroup
asset_groups =
    record { utxo = utxo; cells = cell 0 ∷ cell 1 ∷ [] }
    ∷ record { utxo = utxo; cells = cell 2 ∷ [] }
    ∷ []

abbrev summarizer : AssetSummarizer
summarizer = record { is_mainnet = false; groups = [] }

add_groups-amount_example :
    IsRecord (add_groups world true asset_groups summarizer).0.assets
    × (amount_under token.args (add_groups world true asset_groups summarizer).0.assets
        ≡ amounts_of world summarizer.is_mainnet true token.args (cells_in asset_groups))
add_groups-amount_example = add_groups-amount world true token.args asset_groups summarizer
