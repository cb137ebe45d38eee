-- ===== src/Ckb/Offline.antt =====
-- packages/ckb/src/collector/offline.ts: a collector of cells that are given.
pub mod Met
use rgbpp_sdk.Ckb.Collector.{has_no_data}
use rgbpp_sdk.Ckb.Error.{CkbError, CkbResult, plain_error}
use rgbpp_sdk.Ckb.Scripts.{CkbWorld, hex_eq}
use rgbpp_sdk.Ckb.Types.{CellOutput, Hex, IndexerCell, OutPoint, Script}
use rgbpp_sdk.Common.{
  str_eq, Bool, List, Option, [], ap, false, if◌then◌else◌, inl, inr, is_some, leb, ltb, none, not,
  or_else, refl, some, true, ℕ, ◌&&◌, ◌==◌, ◌∷◌, ◌≡◌, keep,
}
use rgbpp_sdk.Common.Outcome.{err, ok, ◌>>=◌}

-- What both collectors are asked. `isDataMustBeEmpty` is true by default. A bound of the range that is missing is not in the list.
pub record CellsQuery : Type 0 where
  pub lock : Option Script
  pub type_script : Option Script
  pub is_data_must_be_empty : Option Bool
  pub output_capacity_range : Option (List ℕ)

pub record LiveCell : Type 0 where
  pub output : CellOutput
  pub content : Option Hex

unfoldable pub scripts_equal : CkbWorld → Script → Script → Bool
scripts_equal w a b = hex_eq (w.serialize_script a) (w.serialize_script b)

unfoldable pub is_of_type : CkbWorld → Script → IndexerCell → Bool
is_of_type w t c = elim c.output.type_script [ none ↦ false | some s ↦ scripts_equal w s t ]

unfoldable pub is_under_lock : CkbWorld → Script → IndexerCell → Bool
is_under_lock w lock c = scripts_equal w c.output.lock lock

-- Without a lock and a type there are no cells.
unfoldable pub of_scripts :
    CkbWorld → Option Script → Option Script → List IndexerCell → List IndexerCell
of_scripts w (some lock) (some t) cells =
    keep (λ c. is_under_lock w lock c && is_of_type w t c) cells
of_scripts w (some lock) none cells = keep (is_under_lock w lock) cells
of_scripts w none (some t) cells = keep (is_of_type w t) cells
of_scripts w none none cells = []

unfoldable pub in_capacity : ℕ → ℕ → IndexerCell → Bool
in_capacity low high c = leb low c.output.capacity && ltb c.output.capacity high

unfoldable pub in_range : Option (List ℕ) → List IndexerCell → CkbResult (List IndexerCell)
in_range none cells = ok cells
in_range (some (low ∷ high ∷ [])) cells = ok (keep (in_capacity low high) cells)
in_range (some _) cells = err CkbError.plain_error

unfoldable pub must_be_empty : CellsQuery → Bool
must_be_empty q = or_else q.is_data_must_be_empty true && not (is_some q.type_script)

-- `getCells`
unfoldable pub offline_cells :
    CkbWorld → List IndexerCell → CellsQuery → CkbResult (List IndexerCell)
offline_cells w cells q =
    let found = of_scripts w q.lock q.type_script cells in
    in_range q.output_capacity_range (if must_be_empty q then keep has_no_data found else found)

unfoldable pub is_at : OutPoint → IndexerCell → Bool
is_at o c = str_eq o.tx_hash c.out_point.tx_hash && (o.index == c.out_point.index)

unfoldable pub get_live_cell : List IndexerCell → OutPoint → Bool → CkbResult LiveCell
get_live_cell [] o with_data = err CkbError.plain_error
get_live_cell (c ∷ cs) o with_data =
    let later = get_live_cell cs o with_data in
    if is_at o c
    then ok (record { output = c.output; content = if with_data then some c.output_data else none })
    else later

unfoldable pub get_live_cells : List IndexerCell → List OutPoint → Bool → CkbResult (List LiveCell)
get_live_cells cells [] with_data = ok []
get_live_cells cells (o ∷ os) with_data = do
  first ← get_live_cell cells o with_data
  rest ← get_live_cells cells os with_data
  ok (first ∷ rest)
