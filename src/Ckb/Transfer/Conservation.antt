-- ===== src/Ckb/Transfer/Conservation.antt =====
-- packages/ckb/src/rgbpp/btc-transfer.ts: the capacities of a transfer.
use rgbpp_sdk.Common.{
  Option, ℕ, suc, ◌+◌, ◌-◌, Bool, true, false, some, List, [], ◌∷◌, ◌++◌, ltb, ◌≡◌, refl, sym, ◌∙◌,
  ap, subst, arith, Bool-cases, Option-cases, inl, inr, map, or_else,
}
use rgbpp_sdk.Ckb.Error.{ok, ok-injective, >>=-eq-ok}
use rgbpp_sdk.Ckb.Types.{Hex, Script, Dep, CellOutput, IndexerCell}
use rgbpp_sdk.Ckb.Scripts.{CkbWorld, deduplicate_list, estimate_witness_size}
use rgbpp_sdk.Ckb.Capacity.{calculate_cell_occupied_capacity, calculate_transaction_fee}
use rgbpp_sdk.Ckb.CellDeps.{CellDepsObject}
use rgbpp_sdk.Ckb.Collector.{capacity_total, nothing}
use rgbpp_sdk.Ckb.Commitment.{calculate_commitment}
use rgbpp_sdk.Ckb.Transfer.{
  TransferProps, Draft, VirtualTx, Cells, rebind, sum_capacities, handle_others, deduct_fee,
  estimated_fee, adjusted, adjust_for_fee, finish, raw_tx,
}
use rgbpp_sdk.Ckb.Transfer.Inputs.{IsSpent, AreOwn, IsChosen}

abbrev pub capacities : List (CellOutput × Hex) → ℕ
capacities [] = 0
capacities (o ∷ os) = o.0.capacity + capacities os

capacities-append :
    (os ps : List (CellOutput × Hex)) → capacities (os ++ ps) ≡ capacities os + capacities ps
capacities-append [] ps = omega arith
capacities-append (o ∷ os) ps = omega (arith, capacities-append os ps)

capacities-rebind :
    (p : TransferProps) (vout : ℕ) (cells : List IndexerCell)
    → capacities (rebind p vout cells) ≡ sum_capacities cells
unfolding rebind sum_capacities
capacities-rebind p vout [] = refl
capacities-rebind p vout (c ∷ cs) =
    ap (λ n. c.output.capacity + n) (capacities-rebind p (suc vout) cs)

-- The outputs hold what the inputs do.
abbrev pub IsBalanced : Draft → Type 0
IsBalanced d = capacities d.outputs ≡ d.sum_inputs_capacity

pub handle_others-IsBalanced :
    (p : TransferProps) (len : ℕ) (others : List IndexerCell) (d : Draft)
    → IsBalanced d
    → IsBalanced (handle_others p len others d)
unfolding handle_others
handle_others-IsBalanced p len others d h =
    let append = capacities-append d.outputs (rebind p (len + 1) others) in
    let more = capacities-rebind p (len + 1) others in omega (arith, append, more, h)

left_of_fee : (c fee occupied : ℕ) → ltb c (fee + occupied) ≡ false → c - fee + 0 + fee ≡ c + 0
left_of_fee c fee occupied h = ground arith

deduct_fee-capacities :
    (fee : ℕ) (os os' : List (CellOutput × Hex))
    → deduct_fee fee os ≡ ok (some os')
    → capacities os' + fee ≡ capacities os
unfolding deduct_fee
deduct_fee-capacities fee [] os' h = cc
deduct_fee-capacities fee ((o, bytes) ∷ []) os' h =
    elim (Bool-cases (ltb o.capacity (fee + calculate_cell_occupied_capacity o bytes))) [
      | inl short ↦ cc (rw short at h)
      | inr enough ↦
          let same : (record o { capacity = o.capacity - fee }, bytes) ∷ [] ≡ os' =
            cc (rw enough at h) in
          rw (← same) (left_of_fee o.capacity fee _ enough)
    ]
deduct_fee-capacities fee (o ∷ o' ∷ os) ps h =
    let (rest, e, k) = >>=-eq-ok (deduct_fee fee (o' ∷ os)) _ h in
    elim (Option-cases rest) [
      | inl nothing ↦ cc (rw nothing at k)
      | inr (os', found) ↦
          let same : o ∷ os' ≡ ps = cc (rw found at k) in
          let shorter = deduct_fee-capacities fee (o' ∷ os) os' (e ∙ ap ok found) in
          rw (← same) (omega (arith, shorter))
    ]

-- The draft with the fee taken out of its outputs.
record TakesFee (fee : ℕ) (d d' : Draft) : Type 0 where
  paid : capacities d'.outputs + fee ≡ capacities d.outputs
  inputs : d'.inputs ≡ d.inputs
  sum : d'.sum_inputs_capacity ≡ d.sum_inputs_capacity

module _ (w : CkbWorld) (cells_of : Script → List IndexerCell)
    (object : Option CellDepsObject) where
  adjusted-TakesFee :
      (p : TransferProps) (d : Draft) (deps : List Dep) (witnesses : List Hex) (d' : Draft)
      (deps' : List Dep)
      → d'.need_paymaster_cell ≡ false
      → adjusted w cells_of object p d deps witnesses ≡ ok (d', deps')
      → TakesFee (estimated_fee w cells_of object p d deps witnesses) d d'
  unfolding adjusted
  adjusted-TakesFee p d deps witnesses d' deps' no_paymaster h =
      let fee = estimated_fee w cells_of object p d deps witnesses in
      let (fitting, e, k) = >>=-eq-ok (deduct_fee fee d.outputs) _ h in
      elim (Option-cases fitting) [
        | inl nothing ↦
            let same : record d { need_paymaster_cell = true } ≡ d' = cc (rw nothing at k) in
            let bad : true ≡ false = ap (λ d. d.need_paymaster_cell) same ∙ no_paymaster in cc bad
        | inr (os, found) ↦
            let same : record d { outputs = os } ≡ d' = cc (rw found at k) in
            subst (TakesFee fee d) same (record {
              paid = deduct_fee-capacities fee d.outputs os (e ∙ ap ok found);
              inputs = refl;
              sum = refl;
            })
      ]

  -- The inputs spend cells, whose capacities are what the outputs hold and the fee, which is that of
  -- the draft before the fee was taken, with the size of the witnesses to come.
  pub record IsSettled (p : TransferProps) (r : VirtualTx) : Type 0 where
    pub before : Draft
    pub deps : List Dep
    pub balanced : IsBalanced before
    pub inputs : r.draft.inputs ≡ before.inputs
    pub cells : Cells
    pub are_own : AreOwn w cells_of object p cells
    pub spent : List IndexerCell
    pub is_spent : IsSpent r.draft spent
    pub is_chosen : IsChosen cells spent
    pub fee : ℕ
    pub paid : capacities r.draft.outputs + fee ≡ capacity_total spent
    pub is_fee :
        fee
        ≡ calculate_transaction_fee
            (w.transaction_size (record {
              cell_deps = deps;
              inputs = before.inputs;
              outputs = map (λ o. o.0) before.outputs;
              outputs_data = map (λ o. o.1) before.outputs;
              witnesses = r.witnesses;
            })
              + or_else p.witness_lock_placeholder_size
                  (estimate_witness_size (deduplicate_list p.rgbpp_lock_args_list)))
            p.ckb_fee_rate

  adjust_for_fee-TakesFee :
      (needs : Bool) (p : TransferProps) (d : Draft) (deps : List Dep) (witnesses : List Hex)
      (d' : Draft) (deps' : List Dep)
      → d.need_paymaster_cell ≡ needs
      → d'.need_paymaster_cell ≡ false
      → adjust_for_fee w cells_of object needs p d deps witnesses ≡ ok (d', deps')
      → (needs ≡ false) × TakesFee (estimated_fee w cells_of object p d deps witnesses) d d'
  unfolding adjust_for_fee
  adjust_for_fee-TakesFee true p d deps witnesses d' deps' needs no_paymaster h =
      let same : d ≡ d' = ap (λ x. x.0) (ok-injective _ refl h) in
      let bad : true ≡ false = sym needs ∙ (ap (λ d. d.need_paymaster_cell) same ∙ no_paymaster) in
      cc bad
  adjust_for_fee-TakesFee false p d deps witnesses d' deps' needs no_paymaster h =
      (refl, adjusted-TakesFee p d deps witnesses d' deps' no_paymaster h)

  pub finish-IsSettled :
      (p : TransferProps) (d : Draft) (deps : List Dep) (witnesses : List Hex) (r : VirtualTx)
      → (d.need_paymaster_cell ≡ false → IsBalanced d)
      → (cells : Cells) → AreOwn w cells_of object p cells
      → (spent : List IndexerCell) × IsSpent d spent × IsChosen cells spent
      → r.draft.need_paymaster_cell ≡ false
      → finish w cells_of object p d deps witnesses ≡ ok r
      → IsSettled p r
  unfolding finish estimated_fee raw_tx
  finish-IsSettled p d deps witnesses r balanced cells own (spent, is_spent, chosen) no_paymaster
        h =
      let ((d', deps'), f, h1) =
        >>=-eq-ok (adjust_for_fee w cells_of object d.need_paymaster_cell p d deps witnesses) _ h in
      let (commitment, _, h2) =
        >>=-eq-ok (calculate_commitment w (record { inputs = d'.inputs; outputs = d'.outputs })) _
          h1 in
      let made : VirtualTx = record {
        draft = d';
        cell_deps = deps';
        witnesses = witnesses;
        commitment = commitment;
      } in
      let same : made ≡ r = ok-injective _ refl h2 in
      let (fine, t) =
        adjust_for_fee-TakesFee d.need_paymaster_cell p d deps witnesses d' deps' refl
          (ap (λ r. r.draft.need_paymaster_cell) same ∙ no_paymaster) f in
      subst (IsSettled p) same (record {
        before = d;
        deps = deps;
        balanced = balanced fine;
        inputs = t.inputs;
        cells = cells;
        are_own = own;
        is_chosen = chosen;
        spent = spent;
        is_spent = record {
          out_points = t.inputs ∙ is_spent.out_points;
          capacity = t.sum ∙ is_spent.capacity;
        };
        fee = estimated_fee w cells_of object p d deps witnesses;
        paid = t.paid ∙ (balanced fine ∙ is_spent.capacity);
        is_fee = refl;
      })
