-- ===== src/Ckb/Transfer/Bound.antt =====
-- packages/ckb/src/rgbpp/btc-transfer.ts: how the outputs of a transfer are bound to Bitcoin outputs.
use mathlib.Core.List.{map-append}
use rgbpp_sdk.Ckb.Bound.{BoundFrom, BoundFrom-append, outputs_of}
use rgbpp_sdk.Ckb.Capacity.{calculate_cell_occupied_capacity}
use rgbpp_sdk.Ckb.CellDeps.{CellDepsObject, udt_cell_deps}
use rgbpp_sdk.Ckb.Collector.{collect_udt_inputs, nothing}
use rgbpp_sdk.Ckb.Commitment.{calculate_commitment}
use rgbpp_sdk.Ckb.Error.{CkbError}
use rgbpp_sdk.Ckb.Scripts.{
  CkbWorld, deduplicate_list, is_udt_type_supported, throw_error_when_tx_inputs_exceeded,
}
use rgbpp_sdk.Ckb.Transfer.{
  Cells, Draft, TransferProps, VirtualTx, adjust_for_fee, adjusted, deduct_fee, drafted,
  estimated_fee, finish, first_cell, gather_cells, gen_btc_transfer_ckb_virtual_tx, handle_others,
  lock_at, merged, rebind, sorted, udt_output, unmerged, with_change, without_change,
}
use rgbpp_sdk.Ckb.Types.{CellOutput, Dep, Hex, IndexerCell, Script}
use rgbpp_sdk.Common.{
  Bool, Bool-cases, List, Option, Option-cases, [], ap, arith, false, inl, inr, length, length-map,
  ltb, not, refl, some, subst, suc, sym, true, ℕ, ◌++◌, ◌+◌, ◌-◌, ◌∙◌, ◌∷◌, ◌≡◌,
}
use rgbpp_sdk.Common.Outcome.{>>=-eq-ok, ok, ok-injective, throw_if-eq-ok}

module _ (p : TransferProps) where
  Bound : ℕ → List (CellOutput × Hex) → Type 0
  Bound vout os = BoundFrom p.is_mainnet p.btc_testnet_type vout (outputs_of os)

  Bound-append :
      (vout : ℕ) (os ps : List (CellOutput × Hex))
      → Bound vout os
      → Bound (vout + length os) ps
      → Bound vout (os ++ ps)
  unfolding Bound
  Bound-append vout os ps h k =
      subst (BoundFrom p.is_mainnet p.btc_testnet_type vout) (sym (map-append (λ o. o.0) os ps)) (
        BoundFrom-append p.is_mainnet p.btc_testnet_type vout (outputs_of os) (outputs_of ps) h (
          subst (λ n. BoundFrom p.is_mainnet p.btc_testnet_type (vout + n) (outputs_of ps))
            (sym (length-map os (λ o. o.0))) k))

  rebind-Bound : (vout : ℕ) (cells : List IndexerCell) → Bound vout (rebind p vout cells)
  unfolding rebind Bound lock_at
  rebind-Bound vout [] = tt
  rebind-Bound vout (c ∷ cs) = (refl, rebind-Bound (suc vout) cs)

  rebind-length :
      (vout : ℕ) (cells : List IndexerCell) → length (rebind p vout cells) ≡ length cells
  unfolding rebind
  rebind-length vout [] = refl
  rebind-length vout (c ∷ cs) = ap suc (rebind-length (suc vout) cs)

  handle_others-Bound :
      (len : ℕ) (others : List IndexerCell) (d : Draft)
      → length d.outputs ≡ len
      → Bound 1 d.outputs
      → Bound 1 (handle_others p len others d).outputs
  unfolding handle_others
  handle_others-Bound len others d size h = Bound-append 1 d.outputs (rebind p (len + 1) others) h (
      subst (λ n. Bound n (rebind p (len + 1) others)) (omega (arith, size))
        (rebind-Bound (len + 1) others))

  merged-Bound :
      (xudt : Script) (targets : List IndexerCell) (d : Draft)
      → merged p xudt targets ≡ ok d
      → Bound 1 d.outputs
  unfolding merged with_change without_change udt_output lock_at Bound
  merged-Bound xudt targets d h =
      let (r, _, h1) = >>=-eq-ok (collect_udt_inputs targets p.transfer_amount) _ h in
      let (_, _, h2) = >>=-eq-ok (throw_error_when_tx_inputs_exceeded (length r.inputs)) _ h1 in
      elim (Bool-cases (ltb p.transfer_amount r.sum_amount)) [
        | inl changes ↦
            let (first, _, h3) = >>=-eq-ok (first_cell targets) _ (rw changes at h2) in
            subst (λ (d : Draft). Bound 1 d.outputs) (ok-injective _ refl h3) (refl, (refl, tt))
        | inr exact ↦
            subst (λ (d : Draft). Bound 1 d.outputs) (ok-injective _ refl (rw exact at h2))
              (refl, tt)
      ]

  drafted-Bound :
      (apart : Bool) (xudt : Script) (cells : Cells) (d : Draft)
      → drafted apart p xudt cells ≡ ok d
      → Bound 1 d.outputs
  unfolding drafted unmerged
  drafted-Bound true xudt cells d h =
      subst (λ (d : Draft). Bound 1 d.outputs) (ok-injective _ refl h)
        (handle_others-Bound (length cells.targets) cells.others (unmerged p cells.targets)
          (rebind-length 1 cells.targets) (rebind-Bound 1 cells.targets))
  drafted-Bound false xudt cells d h =
      let (m, e, k) = >>=-eq-ok (merged p xudt cells.targets) _ h in
      subst (λ (d : Draft). Bound 1 d.outputs) (ok-injective _ refl k)
        (handle_others-Bound (length m.outputs) cells.others m refl
          (merged-Bound xudt cells.targets m e))

  deduct_fee-Bound :
      (fee vout : ℕ) (os os' : List (CellOutput × Hex))
      → deduct_fee fee os ≡ ok (some os')
      → Bound vout os
      → Bound vout os'
  unfolding deduct_fee Bound
  deduct_fee-Bound fee vout [] os' h bound = cc
  deduct_fee-Bound fee vout ((o, bytes) ∷ []) os' h bound =
      elim (Bool-cases (ltb o.capacity (fee + calculate_cell_occupied_capacity o bytes))) [
        | inl short ↦ cc (rw short at h)
        | inr enough ↦
            let same : (record o { capacity = o.capacity - fee }, bytes) ∷ [] ≡ os' =
              cc (rw enough at h) in
            subst (Bound vout) same bound
      ]
  deduct_fee-Bound fee vout (o ∷ o' ∷ os) ps h (first, bound) =
      let (rest, e, k) = >>=-eq-ok (deduct_fee fee (o' ∷ os)) _ h in
      elim (Option-cases rest) [
        | inl nothing ↦ cc (rw nothing at k)
        | inr (os', found) ↦
            let same : o ∷ os' ≡ ps = cc (rw found at k) in
            subst (Bound vout) same
              (first, deduct_fee-Bound fee (suc vout) (o' ∷ os) os' (e ∙ ap ok found) bound)
      ]

module _ (w : CkbWorld) (cells_of : Script → List IndexerCell)
    (object : Option CellDepsObject) where
  adjust_for_fee-Bound :
      (needs : Bool) (p : TransferProps) (d : Draft) (deps : List Dep) (witnesses : List Hex)
      (d' : Draft) (deps' : List Dep)
      → adjust_for_fee w cells_of object needs p d deps witnesses ≡ ok (d', deps')
      → Bound p 1 d.outputs
      → Bound p 1 d'.outputs
  unfolding adjust_for_fee adjusted
  adjust_for_fee-Bound true p d deps witnesses d' deps' h bound =
      subst (λ (d : Draft). Bound p 1 d.outputs) (ap (λ x. x.0) (ok-injective _ refl h)) bound
  adjust_for_fee-Bound false p d deps witnesses d' deps' h bound =
      let fee = estimated_fee w cells_of object p d deps witnesses in
      let (fitting, e, k) = >>=-eq-ok (deduct_fee fee d.outputs) _ h in
      elim (Option-cases fitting) [
        | inl nothing ↦
            let same : record d { need_paymaster_cell = true } ≡ d' = cc (rw nothing at k) in
            subst (λ (d : Draft). Bound p 1 d.outputs) same bound
        | inr (os, found) ↦
            let same : record d { outputs = os } ≡ d' = cc (rw found at k) in
            subst (λ (d : Draft). Bound p 1 d.outputs) same
              (deduct_fee-Bound p fee 1 d.outputs os (e ∙ ap ok found) bound)
      ]

  -- When `genBtcTransferCkbVirtualTx` returns, each output of the virtual transaction is bound to the
  -- Bitcoin output of its position, where the first stands after the commitment.
  pub gen_btc_transfer_ckb_virtual_tx-BoundFrom :
      (p : TransferProps) (r : VirtualTx)
      → gen_btc_transfer_ckb_virtual_tx w cells_of object p ≡ ok r
      → BoundFrom p.is_mainnet p.btc_testnet_type 1 (outputs_of r.draft.outputs)
  unfolding gen_btc_transfer_ckb_virtual_tx finish Bound
  gen_btc_transfer_ckb_virtual_tx-BoundFrom p r h =
      let xudt = w.unpack_script p.xudt_type_bytes in
      let (_, h1) =
        throw_if-eq-ok (not (is_udt_type_supported w xudt p.is_mainnet p.is_offline))
          CkbError.type_asset_not_supported h in
      let (cells, _, h2) =
        >>=-eq-ok (gather_cells w cells_of object p (deduplicate_list p.rgbpp_lock_args_list)) _
          h1 in
      let (d, e, h3) = >>=-eq-ok (drafted p.no_merge_output_cells p xudt (sorted cells)) _ h2 in
      let (deps, _, h4) =
        >>=-eq-ok (udt_cell_deps w true p.is_mainnet p.btc_testnet_type xudt object) _ h3 in
      let ((d', deps'), f, h5) =
        >>=-eq-ok (adjust_for_fee w cells_of object d.need_paymaster_cell p d _ _) _ h4 in
      let (commitment, _, h6) =
        >>=-eq-ok (calculate_commitment w (record { inputs = d'.inputs; outputs = d'.outputs })) _
          h5 in
      subst (λ (r : VirtualTx). Bound p 1 r.draft.outputs) (ok-injective _ refl h6)
        (adjust_for_fee-Bound d.need_paymaster_cell p d _ _ d' deps' f
          (drafted-Bound p p.no_merge_output_cells xudt (sorted cells) d e))
