-- ===== src/Ckb/Collector/Spent.antt =====
-- packages/ckb/src/collector/index.ts: the cells that `collectUdtInputs` collects.
use rgbpp_sdk.Common.{
  ℕ, ◌+◌, ◌≤◌, Bool, true, false, not, ◌&&◌, List, [], ◌∷◌, map, keep, ltb, leb, ◌≡◌, refl, ap,
  subst, ◌∙◌, keep-true, keep-false, ltb→le, ◌++◌, Bool-cases, inl, inr,
}
use rgbpp_sdk.Ckb.Error.{CkbError, ok, throw_if-eq-ok}
use rgbpp_sdk.Ckb.Types.{IndexerCell}
use rgbpp_sdk.Ckb.Collector.{
  Collected, takes_all, add_cell, nothing, udt_from, collect_udt_inputs, amount_of, has_no_data,
  capacity_total, amount_total,
}

-- The collected inputs are some of the cells, with their sums.
pub record IsCollected (r : Collected) (cells : List IndexerCell) : Type 0 where
  pub spent : List IndexerCell
  pub rest : List IndexerCell
  pub split : keep (λ c. not (has_no_data c)) cells ≡ spent ++ rest
  pub inputs : r.inputs ≡ map (λ c. c.out_point) spent
  pub capacity : r.sum_inputs_capacity ≡ capacity_total spent
  pub amount : r.sum_amount ≡ amount_total spent

add_cell-IsCollected :
    (c : IndexerCell) (r : Collected) (cells : List IndexerCell)
    → has_no_data c ≡ false
    → IsCollected r cells
    → IsCollected (add_cell c (amount_of c) r) (c ∷ cells)
unfolding add_cell
add_cell-IsCollected c r cells has_data h = record {
  spent = c ∷ h.spent;
  rest = h.rest;
  split = keep-true _ c cells (ap not has_data) ∙ ap (λ cs. c ∷ cs) h.split;
  inputs = ap (λ ps. c.out_point ∷ ps) h.inputs;
  capacity = ap (λ n. c.output.capacity + n) h.capacity;
  amount = ap (λ n. amount_of c + n) h.amount;
}

nothing-IsCollected : (cells : List IndexerCell) → IsCollected nothing cells
nothing-IsCollected cells = record {
  spent = [];
  rest = keep (λ c. not (has_no_data c)) cells;
  split = refl;
  inputs = refl;
  capacity = refl;
  amount = refl;
}

skip-IsCollected :
    (c : IndexerCell) (r : Collected) (cells : List IndexerCell)
    → has_no_data c ≡ true
    → IsCollected r cells
    → IsCollected r (c ∷ cells)
skip-IsCollected c r cells empty h = record {
  spent = h.spent;
  rest = h.rest;
  split = keep-false _ c cells (ap not empty) ∙ h.split;
  inputs = h.inputs;
  capacity = h.capacity;
  amount = h.amount;
}

udt_from-IsCollected :
    (all : Bool) (need so_far : ℕ) (cells : List IndexerCell)
    → IsCollected (udt_from all need so_far cells) cells
unfolding udt_from
udt_from-IsCollected all need so_far [] = nothing-IsCollected []
udt_from-IsCollected all need so_far (c ∷ cs) = elim (Bool-cases (has_no_data c)) [
  | inl empty ↦
      rw (empty, udt_from) (skip-IsCollected c _ cs empty (udt_from-IsCollected all need so_far cs))
  | inr has_data ↦ elim (Bool-cases (leb need (so_far + amount_of c) && not all)) [
    | inl reached ↦
        rw (has_data, reached, udt_from)
          (add_cell-IsCollected c _ cs has_data (nothing-IsCollected cs))
    | inr more ↦
        rw (has_data, more, udt_from)
          (add_cell-IsCollected c _ cs has_data
            (udt_from-IsCollected all need (so_far + amount_of c) cs))
  ]
]

-- When `collectUdtInputs` returns, the inputs are the first cells of those that have data, the sums
-- are their capacities and amounts, and the amount reaches what is needed.
pub collect_udt_inputs-IsCollected :
    (cells : List IndexerCell) (need : ℕ) (r : Collected)
    → collect_udt_inputs cells need ≡ ok r
    → IsCollected r cells × (need ≤ r.sum_amount)
unfolding collect_udt_inputs
collect_udt_inputs-IsCollected cells need r h =
    let found = udt_from (takes_all cells) need 0 cells in
    let (enough, k) = throw_if-eq-ok (ltb found.sum_amount need) CkbError.udt_amount_not_enough h in
    let same : found ≡ r = cc k in
    subst (λ r. IsCollected r cells × (need ≤ r.sum_amount)) same
      (udt_from-IsCollected (takes_all cells) need 0 cells, ltb→le _ _ enough)
