-- ===== src/Ckb/JumpToBtc/Change.antt =====
-- packages/ckb/src/rgbpp/ckb-jump-btc.ts: the change of the jump of one receiver.
use rgbpp_sdk.Common.{
  ℕ, ◌+◌, ◌≤◌, ◌<◌, Bool, true, false, not, Option, none, some, List, [], ◌∷◌, ◌++◌, keep, length,
  ltb, ◌==◌, ◌≡◌, refl, subst, sym, arith, Bool-cases, inl, inr, All, keep-true, keep-false, ltb→lt,
  ltb→le,
}
use rgbpp_sdk.Common.Int.{pos, ◌+ℤ◌, ◌≤ℤ◌, int_laws}
use rgbpp_sdk.Ckb.Error.{CkbError, CkbResult, ok, >>=-eq-ok, throw_if-eq-ok, ok-injective}
use rgbpp_sdk.Ckb.Types.{Script, IndexerCell, CellQuery}
use rgbpp_sdk.Ckb.Constants.{max_fee, min_capacity}
use rgbpp_sdk.Ckb.Scripts.{CkbWorld}
use rgbpp_sdk.Ckb.Capacity.{calculate_rgbpp_cell_capacity, calculate_udt_cell_capacity}
use rgbpp_sdk.Ckb.CellDeps.{CellDepsObject, given_or, udt_cell_deps}
use rgbpp_sdk.Ckb.Collector.{
  Collected, has_no_data, collect_inputs, collect_udt_inputs, capacity_total, amount_total,
}
use rgbpp_sdk.Ckb.Collector.Spent.{collect_udt_inputs-IsCollected}
use rgbpp_sdk.Ckb.Collector.Enough.{collect_inputs-reaches}
use rgbpp_sdk.Ckb.JumpToBtc.{JumpTx, has_no_type, change_capacity}
use rgbpp_sdk.Ckb.JumpToBtc.Single.{JumpProps, complete_one, fund_one, gen_ckb_jump_btc_virtual_tx}

-- What the cells of a token at an address are asked for by.
abbrev pub token_query : Script → Script → CellQuery
token_query from_lock xudt = record {
  lock = from_lock;
  type_script = some xudt;
  is_data_must_be_empty = true;
  output_capacity_range = none;
}

-- Each cell has the capacity that the cells of the token at the address are given.
abbrev pub HoldTokens : Script → Script → List IndexerCell → Type 0
HoldTokens from_lock xudt cells =
    All (λ c. calculate_udt_cell_capacity from_lock (some xudt) ≤ c.output.capacity) cells

module _ (from_lock xudt : Script) where
  keep-HoldTokens :
      (p : IndexerCell → Bool) (cells : List IndexerCell)
      → HoldTokens from_lock xudt cells
      → HoldTokens from_lock xudt (keep p cells)
  keep-HoldTokens p [] h = tt
  keep-HoldTokens p (c ∷ cs) h = elim (Bool-cases (p c)) [
    | inl kept ↦
        subst (HoldTokens from_lock xudt) (sym (keep-true p c cs kept))
          (h.0, keep-HoldTokens p cs h.1)
    | inr dropped ↦
        subst (HoldTokens from_lock xudt) (sym (keep-false p c cs dropped))
          (keep-HoldTokens p cs h.1)
  ]

  first_capacity :
      (spent rest : List IndexerCell) (n : ℕ)
      → HoldTokens from_lock xudt (spent ++ rest)
      → n < amount_total spent
      → calculate_udt_cell_capacity from_lock (some xudt) ≤ capacity_total spent
  first_capacity [] rest n h more = absurd (omega (arith, more))
  first_capacity (c ∷ cs) rest n (held, _) more = omega (arith, held)

  collected-capacity :
      (cells : List IndexerCell) (need n : ℕ) (r : Collected)
      → HoldTokens from_lock xudt cells
      → collect_udt_inputs cells need ≡ ok r
      → n < r.sum_amount
      → calculate_udt_cell_capacity from_lock (some xudt) ≤ r.sum_inputs_capacity
  collected-capacity cells need n r held h more =
      let (found, _) = collect_udt_inputs-IsCollected cells need r h in
      let kept = keep-HoldTokens (λ c. not (has_no_data c)) cells held in
      let bound =
        first_capacity found.spent found.rest n (subst (HoldTokens from_lock xudt) found.split kept)
          (subst (λ a. n < a) found.amount more) in
      omega (arith, bound, found.capacity)

  -- The inputs pay for the receiver's cell, a cell of change and the greatest fee, and for the
  -- change of the token where there is one.
  abbrev Funded : ℕ → Collected → Type 0
  Funded sent r =
      (calculate_rgbpp_cell_capacity (some xudt) + min_capacity + max_fee ≤ r.sum_inputs_capacity)
      × (sent < r.sum_amount
          → calculate_udt_cell_capacity from_lock (some xudt)
              + calculate_rgbpp_cell_capacity (some xudt)
              + min_capacity
              + max_fee
            ≤ r.sum_inputs_capacity)

  change_of_Funded :
      (sent : ℕ) (r : Collected)
      → Funded sent r
      → pos min_capacity
        ≤ℤ change_capacity from_lock xudt r (calculate_rgbpp_cell_capacity (some xudt)) sent
  unfolding change_capacity
  change_of_Funded sent r (always, change) = elim (Bool-cases (ltb sent r.sum_amount)) [
    | inl more ↦
        rw more (let enough = change (ltb→lt sent r.sum_amount more) in omega (int_laws, enough))
    | inr exact ↦ rw exact (omega (int_laws, always))
  ]

module _ (w : CkbWorld) (get_cells : CellQuery → CkbResult (List IndexerCell))
    (fetched : Option CellDepsObject) where
  fund_one-Funded :
      (from_lock xudt : Script) (sent : ℕ) (c r : Collected)
      → (sent < c.sum_amount
          → calculate_udt_cell_capacity from_lock (some xudt) ≤ c.sum_inputs_capacity)
      → fund_one w get_cells fetched from_lock xudt c ≡ ok r
      → Funded from_lock xudt sent r
  unfolding fund_one
  fund_one-Funded from_lock xudt sent c r held h =
      elim (Bool-cases (
        ltb c.sum_inputs_capacity (
          calculate_udt_cell_capacity from_lock (some xudt)
          + calculate_rgbpp_cell_capacity (some xudt)
          + min_capacity
          + max_fee))) [
            | inl short ↦
                let (cells, _, h2) =
                  >>=-eq-ok
                    (get_cells (record {
                      lock = from_lock;
                      type_script = none;
                      is_data_must_be_empty = true;
                      output_capacity_range = none;
                    }))
                    _ (rw short at h) in
                let (_, h3) = throw_if-eq-ok (length cells == 0) CkbError.no_live_cell h2 in
                let (more, brought, h4) =
                  >>=-eq-ok
                    (collect_inputs (keep has_no_type cells)
                      (calculate_rgbpp_cell_capacity (some xudt)) max_fee none)
                    _ h3 in
                let reached = collect_inputs-reaches _ _ _ _ more brought in
                subst (Funded from_lock xudt sent) (ok-injective _ refl h4) (
                  omega (arith, reached),
                  λ change. let had = held change in omega (arith, reached, had),
                )
            | inr enough ↦
                subst (Funded from_lock xudt sent) (ok-injective _ refl (rw enough at h))
                  (let reached = ltb→le _ _ enough in (omega (arith, reached), λ change. reached))
          ]

  complete_one-change :
      (p : JumpProps) (xudt : Script) (r : Collected) (t : JumpTx)
      → complete_one w get_cells fetched p xudt r ≡ ok t
      → pos min_capacity
        ≤ℤ change_capacity p.from_address.lock xudt r
            (calculate_rgbpp_cell_capacity (some xudt))
            p.transfer_amount
      → pos (min_capacity + max_fee) ≤ℤ t.change +ℤ pos t.estimated_fee
  unfolding complete_one
  complete_one-change p xudt r t h before =
      let (deps, _, h2) =
        >>=-eq-ok
          (udt_cell_deps w false p.from_address.is_mainnet p.btc_testnet_type xudt
            (given_or p.vendor_cell_deps fetched))
          _ h in
      subst (λ (t : JumpTx). pos (min_capacity + max_fee) ≤ℤ t.change +ℤ pos t.estimated_fee)
        (ok-injective _ refl h2) (omega (int_laws, before))

  -- Where each of the token's cells at the address has the capacity that such a cell is given, the
  -- jump of one receiver leaves a change that, with the fee, is at least the capacity of a cell and
  -- the greatest fee.
  pub gen_ckb_jump_btc_virtual_tx-change :
      (p : JumpProps) (cells : List IndexerCell) (t : JumpTx)
      → get_cells (token_query p.from_address.lock (w.unpack_script p.xudt_type_bytes)) ≡ ok cells
      → HoldTokens p.from_address.lock (w.unpack_script p.xudt_type_bytes) cells
      → gen_ckb_jump_btc_virtual_tx w get_cells fetched p ≡ ok t
      → pos (min_capacity + max_fee) ≤ℤ t.change +ℤ pos t.estimated_fee
  unfolding gen_ckb_jump_btc_virtual_tx
  gen_ckb_jump_btc_virtual_tx-change p cells t asked held h =
      let xudt = w.unpack_script p.xudt_type_bytes in
      let lock = p.from_address.lock in
      let (_, h2) = throw_if-eq-ok _ CkbError.type_asset_not_supported h in
      let (found, asked', h3) = >>=-eq-ok (get_cells (token_query lock xudt)) _ h2 in
      let (_, h4) = throw_if-eq-ok (length found == 0) CkbError.no_xudt_live_cell h3 in
      let (c, collected, h5) = >>=-eq-ok (collect_udt_inputs found p.transfer_amount) _ h4 in
      let (r, got, h6) = >>=-eq-ok (fund_one w get_cells fetched lock xudt c) _ h5 in
      let same = ok-injective _ asked asked' in
      let funded =
        fund_one-Funded lock xudt p.transfer_amount c r
          (collected-capacity lock xudt found p.transfer_amount p.transfer_amount c
            (subst (HoldTokens lock xudt) same held) collected)
          got in
      complete_one-change p xudt r t h6 (change_of_Funded lock xudt p.transfer_amount r funded)
