-- ===== src/Ckb/Collector.antt =====
-- packages/ckb/src/collector/index.ts: `collectInputs` and `collectUdtInputs`; `getCells` is in Pages.
pub mod Spent
pub mod Enough
pub mod Free
pub mod Pages
use rgbpp_sdk.Common.{
  ℕ, ◌+◌, ◌≤◌, Bool, true, false, not, ◌&&◌, Option, List, [], ◌∷◌, map, keep, length, take, ltb,
  leb, ◌==◌, if◌then◌else◌, or_else, ◌≡◌, refl, ap, subst, ◌∙◌, keep-true, keep-false, ◌++◌, arith,
  Bool-cases, inl, inr,
}
use rgbpp_sdk.Ckb.Error.{CkbError, CkbResult, ok, ◌>>◌, throw_if, throw_if-eq-ok}
use rgbpp_sdk.Ckb.Types.{OutPoint, IndexerCell}
use rgbpp_sdk.Ckb.Constants.{min_capacity}
use rgbpp_sdk.Ckb.Codec.{le_to_u128}
use rgbpp_sdk.Ckb.Scripts.{is_rgbpp_lock_cell_ignore_chain}

pub record Collected : Type 0 where
  pub inputs : List OutPoint
  pub sum_inputs_capacity : ℕ
  pub sum_amount : ℕ

-- Whether the first cell has an RGB++ lock: then all cells are spent.
unfoldable pub takes_all : List IndexerCell → Bool
takes_all [] = false
takes_all (c ∷ cs) = is_rgbpp_lock_cell_ignore_chain c.output

unfoldable pub add_cell : IndexerCell → ℕ → Collected → Collected
add_cell c amount r = record {
  inputs = c.out_point ∷ r.inputs;
  sum_inputs_capacity = c.output.capacity + r.sum_inputs_capacity;
  sum_amount = amount + r.sum_amount;
}

abbrev pub nothing : Collected
nothing = record { inputs = []; sum_inputs_capacity = 0; sum_amount = 0 }

-- The loop of `collectInputs`, from the capacity that is collected so far.
unfoldable pub inputs_from : Bool → ℕ → ℕ → List IndexerCell → Collected
inputs_from all need so_far [] = nothing
inputs_from all need so_far (c ∷ cs) =
    let now = so_far + c.output.capacity in
    let rest = inputs_from all need now cs in
    add_cell c 0 (if leb need now && not all then nothing else rest)

unfoldable pub collect_inputs : List IndexerCell → ℕ → ℕ → Option ℕ → CkbResult Collected
collect_inputs cells need_capacity fee min = do
  let need = need_capacity + or_else min min_capacity + fee
  let r = inputs_from (takes_all cells) need 0 cells
  throw_if (ltb r.sum_inputs_capacity need) CkbError.capacity_not_enough
  ok r

-- The amount of a cell: the first 16 bytes of its data.
unfoldable pub amount_of : IndexerCell → ℕ
amount_of c = le_to_u128 (take 16 c.output_data)

-- `outputData === '0x'`
unfoldable pub has_no_data : IndexerCell → Bool
has_no_data c = length c.output_data == 0

-- The loop of `collectUdtInputs`, from the amount that is collected so far.
unfoldable pub udt_from : Bool → ℕ → ℕ → List IndexerCell → Collected
udt_from all need so_far [] = nothing
udt_from all need so_far (c ∷ cs) =
    let now = so_far + amount_of c in
    let skipped = udt_from all need so_far cs in
    let rest = udt_from all need now cs in
    if has_no_data c
    then skipped
    else add_cell c (amount_of c) (if leb need now && not all then nothing else rest)

unfoldable pub collect_udt_inputs : List IndexerCell → ℕ → CkbResult Collected
collect_udt_inputs cells need = do
  let r = udt_from (takes_all cells) need 0 cells
  throw_if (ltb r.sum_amount need) CkbError.udt_amount_not_enough
  ok r

abbrev pub capacity_total : List IndexerCell → ℕ
capacity_total [] = 0
capacity_total (c ∷ cs) = c.output.capacity + capacity_total cs

abbrev pub amount_total : List IndexerCell → ℕ
amount_total [] = 0
amount_total (c ∷ cs) = amount_of c + amount_total cs
