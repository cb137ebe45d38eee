-- ===== src/Ckb/Collector/Free.antt =====
-- packages/ckb/src/collector/index.ts: the cells that `collectInputs` collects, of those without a type.
use rgbpp_sdk.Ckb.Collector.{
  Collected, add_cell, capacity_total, collect_inputs, inputs_from, nothing,
}
use rgbpp_sdk.Ckb.Error.{CkbError, CkbResult}
use rgbpp_sdk.Ckb.Types.{CellQuery, IndexerCell, Script}
use rgbpp_sdk.Common.{
  Bool, Bool-cases, List, Option, [], ap, inl, inr, is_some, keep, leb, map, none, not, refl, subst,
  true, ℕ, ◌&&◌, ◌++◌, ◌+◌, ◌∷◌, ◌≡◌, arith,
}
use rgbpp_sdk.Common.Outcome.{ok, ok-injective, throw_if-eq-ok}

-- The first of the cells without a type that the indexer gives for a lock.
pub record AreFree (get_cells : CellQuery → CkbResult (List IndexerCell)) (owner : Script)
    (cells : List IndexerCell) : Type 0 where
  pub found : List IndexerCell
  pub rest : List IndexerCell
  pub asked :
      get_cells (record {
        lock = owner;
        type_script = none;
        is_data_must_be_empty = true;
        output_capacity_range = none;
      })
      ≡ ok found
  pub first : keep (λ c. not (is_some c.output.type_script)) found ≡ cells ++ rest

pub capacity_total-append :
    (xs ys : List IndexerCell) → capacity_total (xs ++ ys) ≡ capacity_total xs + capacity_total ys
capacity_total-append [] ys = omega arith
capacity_total-append (x ∷ xs) ys = omega (arith, capacity_total-append xs ys)

-- The first of the cells, with the sum of their capacities.
pub record AreFirst (cells : List IndexerCell) (r : Collected) : Type 0 where
  pub spent : List IndexerCell
  pub rest : List IndexerCell
  pub split : cells ≡ spent ++ rest
  pub out_points : r.inputs ≡ map (λ c. c.out_point) spent
  pub capacity : r.sum_inputs_capacity ≡ capacity_total spent

nothing-AreFirst : (cells : List IndexerCell) → AreFirst cells nothing
nothing-AreFirst cells = record {
  spent = [];
  rest = cells;
  split = refl;
  out_points = refl;
  capacity = refl;
}

add_cell-AreFirst :
    (c : IndexerCell) (cells : List IndexerCell) (r : Collected)
    → AreFirst cells r
    → AreFirst (c ∷ cells) (add_cell c 0 r)
unfolding add_cell
add_cell-AreFirst c cells r h = record {
  spent = c ∷ h.spent;
  rest = h.rest;
  split = ap (λ cs. c ∷ cs) h.split;
  out_points = ap (λ ps. c.out_point ∷ ps) h.out_points;
  capacity = ap (λ n. c.output.capacity + n) h.capacity;
}

inputs_from-AreFirst :
    (all : Bool) (need so_far : ℕ) (cells : List IndexerCell)
    → AreFirst cells (inputs_from all need so_far cells)
unfolding inputs_from
inputs_from-AreFirst all need so_far [] = nothing-AreFirst []
inputs_from-AreFirst all need so_far (c ∷ cs) =
    let now = so_far + c.output.capacity in
    elim (Bool-cases (leb need now && not all)) [
      | inl reached ↦
          rw (reached, inputs_from) (add_cell-AreFirst c cs nothing (nothing-AreFirst cs))
      | inr more ↦
          rw (more, inputs_from) (add_cell-AreFirst c cs _ (inputs_from-AreFirst all need now cs))
    ]

-- When `collectInputs` returns, the inputs are the first of the cells, and the sum is that of their
-- capacities.
pub collect_inputs-AreFirst :
    (cells : List IndexerCell) (need fee : ℕ) (min : Option ℕ) (r : Collected)
    → collect_inputs cells need fee min ≡ ok r
    → AreFirst cells r
unfolding collect_inputs
collect_inputs-AreFirst cells need fee min r h =
    let (_, k) = throw_if-eq-ok _ CkbError.capacity_not_enough h in
    subst (AreFirst cells) (ok-injective _ refl k) (inputs_from-AreFirst _ _ 0 cells)
