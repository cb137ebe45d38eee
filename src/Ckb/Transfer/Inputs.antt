-- ===== src/Ckb/Transfer/Inputs.antt =====
-- packages/ckb/src/rgbpp/btc-transfer.ts: the cells that the inputs of a transfer spend.
use mathlib.Core.List.{Perm, map-append}
use rgbpp_sdk.Ckb.Collector.{Collected, capacity_total, collect_udt_inputs, has_no_data}
use rgbpp_sdk.Ckb.Collector.Spent.{IsCollected, collect_udt_inputs-IsCollected}
use rgbpp_sdk.Ckb.Scripts.{
  throw_error_when_tx_inputs_exceeded, CkbWorld, deduplicate_list, gen_rgbpp_lock_script, has_type,
  hex_eq, is_script_equal, sort_cells, throw_error_when_rgbpp_cells_invalid,
}
use rgbpp_sdk.Ckb.Transfer.{
  Cells, Draft, TransferProps, drafted, first_cell, handle_others, merged, sum_capacities, unmerged,
  with_change, without_change, gather_cells, sorted,
}
use rgbpp_sdk.Ckb.Types.{IndexerCell, Script, Hex}
use rgbpp_sdk.Common.{
  Bool, Bool-cases, List, [], ap, arith, false, inl, inr, length, ltb, map, refl, subst, sym, true,
  ℕ, ◌++◌, ◌+◌, ◌∙◌, ◌∷◌, ◌≡◌, Option, any, is_some, keep, none, not, some, ◌⊎◌,
}
use rgbpp_sdk.Common.Outcome.{>>=-eq-ok, ok, ok-injective, throw_if-eq-ok}
use rgbpp_sdk.Ckb.Collector.Free.{capacity_total-append}
use rgbpp_sdk.Ckb.CellDeps.{CellDepsObject}
use rgbpp_sdk.Ckb.Error.{CkbError}
use rgbpp_sdk.Ckb.Scripts.Sorting.{IsSorted, sort_cells-IsSorted}

-- The inputs are these cells, and the sum that is kept of their capacities is theirs.
pub record IsSpent (d : Draft) (spent : List IndexerCell) : Type 0 where
  pub out_points : d.inputs ≡ map (λ c. c.out_point) spent
  pub capacity : d.sum_inputs_capacity ≡ capacity_total spent

sum_capacities-eq : (cells : List IndexerCell) → sum_capacities cells ≡ capacity_total cells
unfolding sum_capacities
sum_capacities-eq [] = refl
sum_capacities-eq (c ∷ cs) = ap (λ n. c.output.capacity + n) (sum_capacities-eq cs)

-- The inputs that `collectUdtInputs` collects.
pub collected-IsSpent :
    (r : Collected) (cells : List IndexerCell) (d : Draft) (h : IsCollected r cells)
    → d.inputs ≡ r.inputs
    → d.sum_inputs_capacity ≡ r.sum_inputs_capacity
    → IsSpent d h.spent
collected-IsSpent r cells d h inputs sum = record {
  out_points = inputs ∙ h.inputs;
  capacity = sum ∙ h.capacity;
}

unmerged-IsSpent :
    (p : TransferProps) (targets : List IndexerCell) → IsSpent (unmerged p targets) targets
unfolding unmerged
unmerged-IsSpent p targets = record { out_points = refl; capacity = sum_capacities-eq targets }

pub handle_others-IsSpent :
    (p : TransferProps) (len : ℕ) (others : List IndexerCell) (d : Draft) (spent : List IndexerCell)
    → IsSpent d spent
    → IsSpent (handle_others p len others d) (spent ++ others)
unfolding handle_others
handle_others-IsSpent p len others d spent h = record {
  out_points =
      ap (λ is. is ++ map (λ c. c.out_point) others) h.out_points
      ∙ sym (map-append (λ c. c.out_point) spent others);
  capacity =
      let total = capacity_total-append spent others in
      let more = sum_capacities-eq others in
      let before = h.capacity in omega (arith, total, more, before);
}

-- The cells spent are cells of the target type, then all the others: with merged outputs the first
-- of those of the target type that have data, else all of them.
abbrev pub IsChosen : Cells → List IndexerCell → Type 0
IsChosen cells spent =
    (chosen : List IndexerCell) × (spent ≡ chosen ++ cells.others)
    × ((chosen ≡ cells.targets)
        ⊎ ((rest : List IndexerCell) × (keep (λ c. not (has_no_data c)) cells.targets
              ≡ chosen ++ rest)))

merged-IsSpent :
    (p : TransferProps) (xudt : Script) (targets : List IndexerCell) (d : Draft)
    → merged p xudt targets ≡ ok d
    → (spent : List IndexerCell) × IsSpent d spent
      × (rest : List IndexerCell) × (keep (λ c. not (has_no_data c)) targets ≡ spent ++ rest)
unfolding merged with_change without_change
merged-IsSpent p xudt targets d h =
    let (r, got, h1) = >>=-eq-ok (collect_udt_inputs targets p.transfer_amount) _ h in
    let (_, _, h2) = >>=-eq-ok (throw_error_when_tx_inputs_exceeded (length r.inputs)) _ h1 in
    let (c, _) = collect_udt_inputs-IsCollected targets p.transfer_amount r got in
    elim (Bool-cases (ltb p.transfer_amount r.sum_amount)) [
      | inl changes ↦
          let (first, _, h3) = >>=-eq-ok (first_cell targets) _ (rw changes at h2) in
          let same = ok-injective _ refl h3 in
          (
            c.spent,
            collected-IsSpent r targets d c (ap (λ d. d.inputs) (sym same))
                (ap (λ d. d.sum_inputs_capacity) (sym same)),
            c.rest,
            c.split,
          )
      | inr fits ↦
          let same = ok-injective _ refl (rw fits at h2) in
          (
            c.spent,
            collected-IsSpent r targets d c (ap (λ d. d.inputs) (sym same))
                (ap (λ d. d.sum_inputs_capacity) (sym same)),
            c.rest,
            c.split,
          )
    ]

pub drafted-IsSpent :
    (apart : Bool) (p : TransferProps) (xudt : Script) (cells : Cells) (d : Draft)
    → drafted apart p xudt cells ≡ ok d
    → (spent : List IndexerCell) × IsSpent d spent × IsChosen cells spent
unfolding drafted
drafted-IsSpent true p xudt cells d h =
    let spent =
      handle_others-IsSpent p (length cells.targets) cells.others (unmerged p cells.targets)
        cells.targets (unmerged-IsSpent p cells.targets) in
    let same = ok-injective _ refl h in
    (
      cells.targets ++ cells.others,
      subst (λ d. IsSpent d (cells.targets ++ cells.others)) same spent,
      (cells.targets, refl, inl refl),
    )
drafted-IsSpent false p xudt cells d h =
    let (m, e, k) = >>=-eq-ok (merged p xudt cells.targets) _ h in
    let (chosen, s, rest, split) = merged-IsSpent p xudt cells.targets m e in
    let spent = handle_others-IsSpent p (length m.outputs) cells.others m chosen s in
    let same = ok-injective _ refl k in
    (
      chosen ++ cells.others,
      subst (λ d. IsSpent d (chosen ++ cells.others)) same spent,
      (chosen, refl, inr (rest, split)),
    )

module _ (w : CkbWorld) (cells_of : Script → List IndexerCell) (object : Option CellDepsObject)
    (p : TransferProps) where
  -- The cells that the indexer has for the lock arguments.
  abbrev pub all_cells : List Hex → List IndexerCell
  all_cells [] = []
  all_cells (args ∷ list) =
      cells_of (gen_rgbpp_lock_script args p.is_mainnet p.btc_testnet_type) ++ all_cells list

  abbrev pub is_target : IndexerCell → Bool
  is_target c = elim c.output.type_script [
    | none ↦ false
    | some t ↦ hex_eq (w.serialize_script t) p.xudt_type_bytes
  ]

  -- All of these cells, those of the target type and the others, each in their order.
  pub record AreOwn (cells : Cells) : Type 0 where
    pub in_order : IsSorted cells.targets × IsSorted cells.others
    pub targets :
        Perm cells.targets (keep is_target (all_cells (deduplicate_list p.rgbpp_lock_args_list)))
    pub others :
        Perm cells.others
          (keep (λ c. not (is_target c)) (all_cells (deduplicate_list p.rgbpp_lock_args_list)))

  keep-append :
      (q : IndexerCell → Bool) (xs ys : List IndexerCell)
      → keep q (xs ++ ys) ≡ keep q xs ++ keep q ys
  keep-append q [] ys = refl
  keep-append q (x ∷ xs) ys =
      let rest = keep-append q xs ys in
      elim (Bool-cases (q x)) [
        | inl kept ↦ rw (kept, keep) (ap (λ l. x ∷ l) rest)
        | inr dropped ↦ rw (dropped, keep) rest
      ]

  gather_cells-eq :
      (list : List Hex) (cells : Cells)
      → gather_cells w cells_of object p list ≡ ok cells
      → (cells.targets ≡ keep is_target (all_cells list))
        × (cells.others ≡ keep (λ c. not (is_target c)) (all_cells list))
  unfolding gather_cells has_type is_script_equal
  gather_cells-eq [] cells h =
      let same = sym (ok-injective _ refl h) in
      (ap (λ (c : Cells). c.targets) same, ap (λ (c : Cells). c.others) same)
  gather_cells-eq (args ∷ list) cells h =
      let found = cells_of (gen_rgbpp_lock_script args p.is_mainnet p.btc_testnet_type) in
      let (_, _, h1) =
        >>=-eq-ok
          (throw_error_when_rgbpp_cells_invalid w found p.xudt_type_bytes p.is_mainnet p.is_offline)
          _ h in
      let (_, h2) =
        throw_if-eq-ok (any (λ c. not (is_some c.output.type_script)) found) CkbError.plain_error
          h1 in
      let (rest, e, h3) = >>=-eq-ok (gather_cells w cells_of object p list) _ h2 in
      let (targets, others) = gather_cells-eq list rest e in
      let same = sym (ok-injective _ refl h3) in
      (
        ap (λ (c : Cells). c.targets) same
            ∙ (ap (λ l. keep is_target found ++ l) targets
                ∙ sym (keep-append is_target found (all_cells list))),
        ap (λ (c : Cells). c.others) same
            ∙ (ap (λ l. keep (λ c. not (is_target c)) found ++ l) others
                ∙ sym (keep-append (λ c. not (is_target c)) found (all_cells list))),
      )

  pub gathered-AreOwn :
      (cells : Cells)
      → gather_cells w cells_of object p (deduplicate_list p.rgbpp_lock_args_list) ≡ ok cells
      → AreOwn (sorted cells)
  unfolding sorted
  gathered-AreOwn cells h =
      let (targets, others) = gather_cells-eq (deduplicate_list p.rgbpp_lock_args_list) cells h in
      let (first, permuted) = sort_cells-IsSorted cells.targets in
      let (second, moved) = sort_cells-IsSorted cells.others in
      record {
        in_order = (first, second);
        targets = subst (Perm (sort_cells cells.targets)) targets permuted;
        others = subst (Perm (sort_cells cells.others)) others moved;
      }
