-- ===== src/Ckb/Collector/Pages.antt =====
-- packages/ckb/src/collector/index.ts: `getCells` asks the indexer for one page after another.
pub mod All
use rgbpp_sdk.Ckb.Error.{CkbResult}
use rgbpp_sdk.Ckb.Offline.{CellsQuery, must_be_empty}
use rgbpp_sdk.Ckb.Types.{IndexerCell, Script}
use rgbpp_sdk.Common.{
  List, Option, String, if◌then◌else◌, is_some, length, ltb, none, not, some, suc, zero, ℕ, ◌&&◌,
  ◌++◌,
}
use rgbpp_sdk.Common.Outcome.{ok, out_of_fuel, ◌>>=◌}

pub data ScriptKind : Type 0 where
  of_lock of_type : ScriptKind

pub record SearchFilter : Type 0 where
  pub script : Option Script
  pub output_data_len_range : Option (ℕ × ℕ)
  pub output_capacity_range : Option (List ℕ)

-- The search mode is exact where there is a script.
pub record SearchKey : Type 0 where
  pub script : Option Script
  pub script_type : Option ScriptKind
  pub search_filter : Option SearchFilter

unfoldable pub search_key : CellsQuery → SearchKey
search_key q = elim q.lock [
  | some lock ↦ record {
    script = some lock;
    script_type = some of_lock;
    search_filter = some (record {
      script = q.type_script;
      output_data_len_range = if must_be_empty q then some (0, 1) else none;
      output_capacity_range = q.output_capacity_range;
    });
  }
  | none ↦ elim q.type_script [
    | some t ↦ record { script = some t; script_type = some of_type; search_filter = none }
    | none ↦ record { script = none; script_type = none; search_filter = none }
  ]
]

-- A cursor is an opaque text of the indexer; none stands for one that is missing or empty.
pub record Page : Type 0 where
  pub objects : List IndexerCell
  pub last_cursor : Option String

abbrev pub get_cells_page_size : ℕ
get_cells_page_size = 100

-- The loop, over what the indexer answers to a cursor. The fuel bounds the number of pages.
unfoldable pub pages_from :
    (Option String → CkbResult Page) → ℕ → ℕ → Option String → CkbResult (List IndexerCell)
pages_from ask size zero cursor = out_of_fuel
pages_from ask size (suc fuel) cursor = do
  page ← ask cursor
  let has_more = is_some page.last_cursor && not (ltb (length page.objects) size)
  let later = pages_from ask size fuel page.last_cursor
  if has_more then (do rest ← later; ok (page.objects ++ rest)) else ok page.objects

unfoldable pub get_cells :
    (SearchKey → ℕ → Option String → CkbResult Page) → ℕ → CellsQuery → CkbResult (List IndexerCell)
get_cells asked_indexer fuel q =
    pages_from (asked_indexer (search_key q) get_cells_page_size) get_cells_page_size fuel none
