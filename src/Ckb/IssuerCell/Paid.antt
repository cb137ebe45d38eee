-- ===== src/Ckb/IssuerCell/Paid.antt =====
-- packages/ckb/src/rgbpp/btc-transfer.ts: what an issuer's cells pay.
use rgbpp_sdk.Ckb.Collector.{collect_inputs, capacity_total}
use rgbpp_sdk.Ckb.Collector.Enough.{collect_inputs-reaches}
use rgbpp_sdk.Ckb.Constants.{max_fee, min_capacity}
use rgbpp_sdk.Ckb.Error.{CkbError, CkbResult}
use rgbpp_sdk.Ckb.IssuerCell.{PaidTx, issuer_inputs, pay_from_issuer, sum_outputs, with_change_cell}
use rgbpp_sdk.Ckb.Scripts.{CkbWorld}
use rgbpp_sdk.Ckb.Types.{CellOutput, CellQuery, IndexerCell, OutPoint, RawTx, Script}
use rgbpp_sdk.Common.{
  Bool-cases, List, Option, [], ap, arith, inl, inr, is_some, keep, leb, length, none, not, refl,
  subst, true, ℕ, ◌++◌, ◌+◌, ◌-◌, ◌==◌, ◌∷◌, ◌≡◌, ◌≤◌, leb→le, leb→lt, map, ◌<◌,
}
use rgbpp_sdk.Common.Int.{int_laws, pos, pos_part, ℤ, ◌+ℤ◌, ◌-ℤ◌, ◌≤ℤ◌}
use rgbpp_sdk.Common.Outcome.{>>=-eq-ok, ok, ok-injective, throw_if-eq-ok}
use rgbpp_sdk.Ckb.Capacity.{calculate_transaction_fee}
use rgbpp_sdk.Ckb.Collector.Free.{AreFree, collect_inputs-AreFirst}
use rgbpp_sdk.Ckb.Samples.{asked}

abbrev pub change_cell : Script → ℤ → CellOutput
change_cell lock change = record { capacity = pos_part change; lock = lock; type_script = none }

abbrev pub capacity_held : List CellOutput → ℕ
capacity_held [] = 0
capacity_held (o ∷ os) = o.capacity + capacity_held os

sum_outputs-eq : (os : List CellOutput) → sum_outputs os ≡ capacity_held os
unfolding sum_outputs
sum_outputs-eq [] = refl
sum_outputs-eq (o ∷ os) = ap (λ n. o.capacity + n) (sum_outputs-eq os)

-- The transaction with cells of the issuer that have no type, and a change that leaves the fee over.
pub record IsPaid (w : CkbWorld) (get_cells : CellQuery → CkbResult (List IndexerCell))
    (lock : Script) (tx : RawTx) (sum_inputs : ℕ) (rate : Option ℕ) (size : ℕ) (t : PaidTx)
    : Type 0 where
  pub sum : ℕ
  pub is_sum : sum ≡ capacity_held tx.outputs
  pub more : List IndexerCell
  pub are_free : AreFree get_cells lock more
  pub none_added : sum < sum_inputs → more ≡ []
  pub inputs : t.tx.inputs ≡ tx.inputs ++ map (λ c. c.out_point) more
  pub capacity : t.actual_inputs_capacity ≡ sum_inputs + capacity_total more
  pub outputs : t.tx.outputs ≡ tx.outputs ++ change_cell lock t.change ∷ []
  pub balance : pos t.actual_inputs_capacity ≡ pos (sum) +ℤ t.change +ℤ pos t.estimated_fee
  pub before : ℤ
  pub is_before : before ≡ pos t.actual_inputs_capacity -ℤ pos (sum)
  pub is_fee :
      t.estimated_fee
      ≡ calculate_transaction_fee
          (w.transaction_size (record {
            cell_deps = tx.cell_deps;
            inputs = t.tx.inputs;
            outputs = tx.outputs ++ change_cell lock before ∷ [];
            outputs_data = t.tx.outputs_data;
            witnesses = tx.witnesses;
          })
            + size)
          rate
  pub enough : sum_inputs ≤ sum → pos (min_capacity + max_fee) ≤ℤ t.change +ℤ pos t.estimated_fee

-- The cells that are added, if the inputs do not have more than the outputs.
record Brings (get_cells : CellQuery → CkbResult (List IndexerCell)) (owner : Script)
    (sum_inputs sum : ℕ) (added : List OutPoint × ℕ) : Type 0 where
  cells : List IndexerCell
  are_free : AreFree get_cells owner cells
  out_points : added.0 ≡ map (λ c. c.out_point) cells
  capacity : added.1 ≡ sum_inputs + capacity_total cells
  none_added : sum < sum_inputs → cells ≡ []
  enough : sum_inputs ≤ sum → sum + (min_capacity + max_fee) ≤ added.1

pub balance_of_change :
    (actual sum fee : ℕ) → pos actual ≡ pos sum +ℤ (pos actual -ℤ pos sum -ℤ pos fee) +ℤ pos fee
balance_of_change actual sum fee = grind int_laws

pub enough_of_change :
    (least actual sum fee : ℕ)
    → sum + least ≤ actual
    → pos least ≤ℤ (pos actual -ℤ pos sum -ℤ pos fee) +ℤ pos fee
enough_of_change least actual sum fee h = omega (int_laws, h)

module _ (w : CkbWorld) (get_cells : CellQuery → CkbResult (List IndexerCell)) where
  issuer_inputs-Brings :
      (lock : Script) (sum_inputs sum : ℕ) (added : List OutPoint × ℕ)
      → issuer_inputs w get_cells lock sum_inputs sum ≡ ok added
      → Brings get_cells lock sum_inputs sum added
  unfolding issuer_inputs
  issuer_inputs-Brings lock sum_inputs sum added h =
      let (cells, asked, h2) =
        >>=-eq-ok
          (get_cells (record {
            lock = lock;
            type_script = none;
            is_data_must_be_empty = true;
            output_capacity_range = none;
          }))
          _ h in
      let (_, h3) = throw_if-eq-ok (length cells == 0) CkbError.no_live_cell h2 in
      elim (Bool-cases (leb sum_inputs sum)) [
        | inl short ↦
            let (c, collected, h4) =
              >>=-eq-ok
                (collect_inputs (keep (λ c. not (is_some c.output.type_script)) cells)
                  (sum - sum_inputs + min_capacity) max_fee none)
                _ (rw short at h3) in
            let reached = collect_inputs-reaches _ _ _ _ c collected in
            let le = leb→le sum_inputs sum short in
            let first = collect_inputs-AreFirst _ _ _ _ c collected in
            let sum_of = first.capacity in
            subst (Brings get_cells lock sum_inputs sum) (ok-injective _ refl h4) (record {
              cells = first.spent;
              are_free = record {
                found = cells;
                rest = first.rest;
                asked = asked;
                first = first.split;
              };
              out_points = first.out_points;
              capacity = omega (arith, sum_of);
              none_added = λ large. absurd (omega (arith, le, large));
              enough = λ small. omega (arith, reached, small);
            })
        | inr larger ↦
            let lt = leb→lt sum_inputs sum larger in
            subst (Brings get_cells lock sum_inputs sum) (ok-injective _ refl (rw larger at h3))
              (record {
                cells = [];
                are_free = record { found = cells; rest = _; asked = asked; first = refl };
                out_points = refl;
                capacity = omega arith;
                none_added = λ large. refl;
                enough = λ small. absurd (omega (arith, lt, small));
              })
      ]

  -- When the issuer's cells are appended, the transaction has its inputs and outputs as before, then
  -- as inputs the first of the issuer's cells without a type, none if the inputs had more than the
  -- outputs, and one change. The capacity is that of the inputs before with that of these cells; it is
  -- that of the outputs with the change and the fee, which is that of the transaction's size. If the inputs did not have more than the outputs before, the change with the
  -- fee is at least the capacity of a cell with the greatest fee.
  pub pay_from_issuer-IsPaid :
      (lock : Script) (tx : RawTx) (sum_inputs : ℕ) (rate : Option ℕ) (size : ℕ) (t : PaidTx)
      → pay_from_issuer w get_cells lock tx sum_inputs rate size ≡ ok t
      → IsPaid w get_cells lock tx sum_inputs rate size t
  unfolding pay_from_issuer with_change_cell
  pay_from_issuer-IsPaid lock tx sum_inputs rate size t h =
      let sum = sum_outputs tx.outputs in
      let (added, got, h2) = >>=-eq-ok (issuer_inputs w get_cells lock sum_inputs sum) _ h in
      let brings = issuer_inputs-Brings lock sum_inputs sum added got in
      let actual = added.1 in
      subst (IsPaid w get_cells lock tx sum_inputs rate size) (ok-injective _ refl h2) record {
        sum = sum;
        is_sum = sum_outputs-eq tx.outputs;
        more = brings.cells;
        are_free = brings.are_free;
        none_added = brings.none_added;
        inputs = ap (λ is. tx.inputs ++ is) brings.out_points;
        capacity = brings.capacity;
        before = pos actual -ℤ pos sum;
        is_before = refl;
        is_fee = refl;
        outputs = refl;
        balance = balance_of_change actual sum _;
        enough =
            λ small. enough_of_change (min_capacity + max_fee) actual sum _ (brings.enough small);
      }
