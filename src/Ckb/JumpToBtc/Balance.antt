-- ===== src/Ckb/JumpToBtc/Balance.antt =====
-- packages/ckb/src/rgbpp/ckb-jump-btc.ts: the capacities of a jump from CKB.
use mathlib.Core.List.{map-append}
use native.Mathlib.Nat.{mul-suc}
use rgbpp_sdk.Common.{
  ℕ, ◌+◌, ◌*◌, false, Option, none, some, List, [], ◌∷◌, ◌++◌, map, length, ltb, ◌≡◌, refl, ap, sym,
  subst, ◌∙◌, arith, Bool-cases, inl, inr, Bool, if◌then◌else◌, keep, not, or_else, true, ◌-◌, ◌==◌,
  ◌≤◌, ◌⊎◌,
}
use rgbpp_sdk.Common.Int.{ℤ, pos, pos_part, ◌+ℤ◌, ◌-ℤ◌, int_laws}
use rgbpp_sdk.Ckb.Error.{CkbError, CkbResult, ok, >>=-eq-ok, throw_if-eq-ok, ok-injective}
use rgbpp_sdk.Ckb.Types.{Hex, Script, CellOutput, IndexerCell, BtcTestnetType, Address, CellQuery}
use rgbpp_sdk.Ckb.Constants.{max_fee, min_capacity, rgbpp_tx_witness_max_size}
use rgbpp_sdk.Ckb.Scripts.{
  CkbWorld, gen_rgbpp_lock_script, is_offline_mode, is_type_asset_supported,
}
use rgbpp_sdk.Ckb.Capacity.{
  calculate_rgbpp_cell_capacity, calculate_transaction_fee, calculate_udt_cell_capacity,
}
use rgbpp_sdk.Ckb.CellDeps.{CellDepsObject, udt_cell_deps}
use rgbpp_sdk.Ckb.Collector.{
  Collected, amount_total, capacity_total, collect_inputs, collect_udt_inputs, has_no_data,
}
use rgbpp_sdk.Ckb.JumpToBtc.{
  Receiver, BatchJumpProps, JumpTx, jumped_output, udt_change, change_capacity, change_output,
  sum_transfer_amount, collect_for_jump, jump_tx, complete, gen_ckb_batch_jump_btc_virtual_tx, fund,
  has_no_type,
}
use rgbpp_sdk.Ckb.Codec.{u128_to_le}
use rgbpp_sdk.Ckb.Collector.Free.{AreFree, capacity_total-append, collect_inputs-AreFirst}
use rgbpp_sdk.Ckb.Collector.Spent.{IsCollected, collect_udt_inputs-IsCollected}

abbrev pub cell_capacities : List CellOutput → ℕ
cell_capacities [] = 0
cell_capacities (o ∷ os) = o.capacity + cell_capacities os

-- What pays for a jump: the first of the token's cells that have data, and cells without a type.
pub record IsFunded (get_cells : CellQuery → CkbResult (List IndexerCell)) (owner xudt : Script)
    (r : Collected) : Type 0 where
  pub token_cells : List IndexerCell
  pub asked :
      get_cells (record {
        lock = owner;
        type_script = some xudt;
        is_data_must_be_empty = true;
        output_capacity_range = none;
      })
      ≡ ok token_cells
  pub tokens : List IndexerCell
  pub rest : List IndexerCell
  pub first : keep (λ c. not (has_no_data c)) token_cells ≡ tokens ++ rest
  pub more : List IndexerCell
  pub are_free : (more ≡ []) ⊎ AreFree get_cells owner more
  pub out_points : r.inputs ≡ map (λ c. c.out_point) (more ++ tokens)
  pub capacity : r.sum_inputs_capacity ≡ capacity_total (more ++ tokens)
  pub amount : r.sum_amount ≡ amount_total tokens

-- The outputs of the receivers, then the change of the token, then that of the capacity.
abbrev pub token_output : Script → Script → ℕ → ℕ → CellOutput × Hex
token_output lock xudt capacity amount =
    (record { capacity = capacity; lock = lock; type_script = some xudt }, u128_to_le amount)

abbrev pub receiver_output : Bool → BtcTestnetType → Script → Receiver → CellOutput × Hex
receiver_output main net xudt r =
    token_output (gen_rgbpp_lock_script r.to_rgbpp_lock_args main net) xudt
      (calculate_rgbpp_cell_capacity (some xudt)) r.transfer_amount

abbrev pub amount_of_all : List Receiver → ℕ
amount_of_all [] = 0
amount_of_all (r ∷ rs) = r.transfer_amount + amount_of_all rs

abbrev pub token_change : Script → Script → ℕ → ℕ → List (CellOutput × Hex)
token_change lock xudt amount sent =
    if ltb sent amount
    then token_output lock xudt (calculate_udt_cell_capacity lock (some xudt)) (amount - sent) ∷ []
    else []

abbrev pub change_cell : Script → ℤ → CellOutput × Hex
change_cell lock change =
    (record { capacity = pos_part change; lock = lock; type_script = none }, [])

-- The transaction of the funds and the outputs, whose change is what its size's fee leaves over.
pub record IsBalanced (w : CkbWorld) (get_cells : CellQuery → CkbResult (List IndexerCell))
    (p : BatchJumpProps) (t : JumpTx) : Type 0 where
  pub funds : Collected
  pub funded : IsFunded get_cells p.from_address.lock (w.unpack_script p.xudt_type_bytes) funds
  pub inputs : t.tx.inputs ≡ map (λ c. c.out_point) (funded.more ++ funded.tokens)
  pub sum : t.sum_inputs_capacity ≡ capacity_total (funded.more ++ funded.tokens)
  pub enough : amount_of_all p.rgbpp_receivers ≤ amount_total funded.tokens
  pub fixed_outputs : List (CellOutput × Hex)
  pub are_fixed :
      fixed_outputs
      ≡ map
          (receiver_output p.from_address.is_mainnet p.btc_testnet_type
            (w.unpack_script p.xudt_type_bytes))
          p.rgbpp_receivers
        ++ token_change p.from_address.lock
            (w.unpack_script p.xudt_type_bytes)
            (amount_total funded.tokens)
            (amount_of_all p.rgbpp_receivers)
  pub outputs :
      t.tx.outputs ≡ map (λ o. o.0) (fixed_outputs ++ change_cell p.from_address.lock t.change ∷ [])
  pub outputs_data :
      t.tx.outputs_data
      ≡ map (λ o. o.1) (fixed_outputs ++ change_cell p.from_address.lock t.change ∷ [])
  pub balance :
      pos (capacity_total (funded.more ++ funded.tokens))
      ≡ pos (cell_capacities (map (λ o. o.0) fixed_outputs)) +ℤ t.change +ℤ pos t.estimated_fee
  pub before : ℤ
  pub is_before : t.change ≡ before +ℤ (pos max_fee -ℤ pos t.estimated_fee)
  pub is_fee :
      t.estimated_fee
      ≡ calculate_transaction_fee
          (w.transaction_size (record {
            cell_deps = t.tx.cell_deps;
            inputs = t.tx.inputs;
            outputs = map (λ o. o.0) (fixed_outputs ++ change_cell p.from_address.lock before ∷ []);
            outputs_data =
                map (λ o. o.1) (fixed_outputs ++ change_cell p.from_address.lock before ∷ []);
            witnesses = map (λ i. []) t.tx.inputs;
          })
            + or_else p.witness_lock_placeholder_size rgbpp_tx_witness_max_size)
          p.ckb_fee_rate

map-append_outputs :
    (xs ys : List (CellOutput × Hex))
    → map (λ o. o.0) (xs ++ ys) ≡ map (λ o. o.0) xs ++ map (λ o. o.0) ys
map-append_outputs [] ys = refl
map-append_outputs (x ∷ xs) ys = ap (λ os. x.0 ∷ os) (map-append_outputs xs ys)

cell_capacities-append :
    (xs ys : List CellOutput) → cell_capacities (xs ++ ys) ≡ cell_capacities xs + cell_capacities ys
cell_capacities-append [] ys = omega arith
cell_capacities-append (x ∷ xs) ys = omega (arith, cell_capacities-append xs ys)

outputs_of : List (CellOutput × Hex) → List CellOutput
outputs_of os = map (λ o. o.0) os

-- The change before the fee, with what the outputs hold.
change_capacity-balance :
    (from_lock xudt : Script) (r : Collected) (sent_capacity sent : ℕ)
    → pos r.sum_inputs_capacity
      ≡ pos (
          sent_capacity
          + cell_capacities (outputs_of (udt_change from_lock xudt r.sum_amount sent)))
        +ℤ change_capacity from_lock xudt r sent_capacity sent
        +ℤ pos max_fee
unfolding change_capacity udt_change outputs_of
change_capacity-balance from_lock xudt r sent_capacity sent =
    elim (Bool-cases (ltb sent r.sum_amount)) [
      | inl more ↦ rw more (grind int_laws)
      | inr exact ↦ rw exact (grind int_laws)
    ]

balance_of_fee :
    (sum out fee : ℕ) (before : ℤ)
    → pos sum ≡ pos out +ℤ before +ℤ pos max_fee
    → pos sum ≡ pos out +ℤ (before +ℤ (pos max_fee -ℤ pos fee)) +ℤ pos fee
balance_of_fee sum out fee before h = grind int_laws

module _ (w : CkbWorld) (get_cells : CellQuery → CkbResult (List IndexerCell))
    (fetched : Option CellDepsObject) where
  fund-IsFunded :
      (owner xudt : Script) (sent_capacity : ℕ) (token_cells : List IndexerCell)
      (collected r : Collected)
      → get_cells (record {
        lock = owner;
        type_script = some xudt;
        is_data_must_be_empty = true;
        output_capacity_range = none;
      })
        ≡ ok token_cells
      → IsCollected collected token_cells
      → fund w get_cells fetched owner xudt sent_capacity collected ≡ ok r
      → IsFunded get_cells owner xudt r × (r.sum_amount ≡ collected.sum_amount)
  unfolding fund
  fund-IsFunded owner xudt sent_capacity token_cells collected r asked c h =
      let enough =
        calculate_udt_cell_capacity owner (some xudt) + sent_capacity + min_capacity + max_fee in
      elim (Bool-cases (ltb collected.sum_inputs_capacity enough)) [
        | inl short ↦
            let (found, e, h2) =
              >>=-eq-ok
                (get_cells (record {
                  lock = owner;
                  type_script = none;
                  is_data_must_be_empty = true;
                  output_capacity_range = none;
                }))
                _ (rw short at h) in
            let (_, h3) = throw_if-eq-ok (length found == 0) CkbError.no_live_cell h2 in
            let (more, got, h4) =
              >>=-eq-ok
                (collect_inputs (keep has_no_type found) (calculate_rgbpp_cell_capacity (some xudt))
                  max_fee none)
                _ h3 in
            let f = collect_inputs-AreFirst _ _ _ _ more got in
            let both = capacity_total-append f.spent c.spent in
            let these = c.capacity in
            let those = f.capacity in
            subst (λ r. IsFunded get_cells owner xudt r × (r.sum_amount ≡ collected.sum_amount))
              (ok-injective _ refl h4)
              (
                record {
                  token_cells = token_cells;
                  asked = asked;
                  tokens = c.spent;
                  rest = c.rest;
                  first = c.split;
                  more = f.spent;
                  are_free =
                      inr (record { found = found; rest = f.rest; asked = e; first = f.split });
                  out_points =
                      ap (λ is. is ++ collected.inputs) f.out_points
                      ∙ (ap (λ is. map (λ c. c.out_point) f.spent ++ is) c.inputs
                          ∙ sym (map-append (λ c. c.out_point) f.spent c.spent));
                  capacity = omega (arith, both, these, those);
                  amount = c.amount;
                },
                refl,
              )
        | inr large ↦
            subst (λ r. IsFunded get_cells owner xudt r × (r.sum_amount ≡ collected.sum_amount))
              (ok-injective _ refl (rw large at h))
              (
                record {
                  token_cells = token_cells;
                  asked = asked;
                  tokens = c.spent;
                  rest = c.rest;
                  first = c.split;
                  more = [];
                  are_free = inl refl;
                  out_points = c.inputs;
                  capacity = c.capacity;
                  amount = c.amount;
                },
                refl,
              )
      ]

  collect_for_jump-IsFunded :
      (a : Address) (xudt : Script) (amount sent_capacity : ℕ) (r : Collected)
      → collect_for_jump w get_cells fetched a xudt amount sent_capacity ≡ ok r
      → IsFunded get_cells a.lock xudt r × (amount ≤ r.sum_amount)
  unfolding collect_for_jump
  collect_for_jump-IsFunded a xudt amount sent_capacity r h =
      let (cells, asked, h1) = >>=-eq-ok (get_cells _) _ h in
      let (_, h2) = throw_if-eq-ok (length cells == 0) CkbError.no_xudt_live_cell h1 in
      let (collected, got, h3) = >>=-eq-ok (collect_udt_inputs cells amount) _ h2 in
      let (c, reached) = collect_udt_inputs-IsCollected cells amount collected got in
      let (funded, same) = fund-IsFunded a.lock xudt sent_capacity cells collected r asked c h3 in
      (funded, omega (arith, reached, same))

  jumped_output-eq :
      (a : Address) (net : BtcTestnetType) (xudt : Script) (rs : List Receiver)
      → map (jumped_output a net xudt) rs ≡ map (receiver_output a.is_mainnet net xudt) rs
  unfolding jumped_output
  jumped_output-eq a net xudt [] = refl
  jumped_output-eq a net xudt (r ∷ rs) =
      ap (λ os. receiver_output a.is_mainnet net xudt r ∷ os) (jumped_output-eq a net xudt rs)

  udt_change-eq :
      (owner xudt : Script) (amount sent : ℕ)
      → udt_change owner xudt amount sent ≡ token_change owner xudt amount sent
  unfolding udt_change
  udt_change-eq owner xudt amount sent = refl

  sum_transfer_amount-eq : (rs : List Receiver) → sum_transfer_amount rs ≡ amount_of_all rs
  unfolding sum_transfer_amount
  sum_transfer_amount-eq [] = refl
  sum_transfer_amount-eq (r ∷ rs) = ap (λ n. r.transfer_amount + n) (sum_transfer_amount-eq rs)

  jumped-capacities :
      (a : Address) (net : BtcTestnetType) (xudt : Script) (rs : List Receiver)
      → cell_capacities (outputs_of (map (jumped_output a net xudt) rs))
        ≡ calculate_rgbpp_cell_capacity (some xudt) * length rs
  unfolding jumped_output outputs_of
  jumped-capacities a net xudt [] = omega arith
  jumped-capacities a net xudt (r ∷ rs) =
      let rest = jumped-capacities a net xudt rs in
      let more = mul-suc (calculate_rgbpp_cell_capacity (some xudt)) (length rs) in
      omega (arith, rest, more)

  -- When a batch jump returns, it spends the first of the token's cells that have data, which hold
  -- the amount sent, and perhaps the first of the cells without a type. Its outputs are one for each
  -- receiver with its amount, one for the rest of the tokens, if any, and a change. The capacity of
  -- the cells is that of the outputs with the estimated fee, which is that of the transaction's size
  -- before the fee. The change is an integer: where it is negative, the cells do not pay for the
  -- outputs.
  pub gen_ckb_batch_jump_btc_virtual_tx-IsBalanced :
      (p : BatchJumpProps) (t : JumpTx)
      → gen_ckb_batch_jump_btc_virtual_tx w get_cells fetched p ≡ ok t
      → IsBalanced w get_cells p t
  unfolding gen_ckb_batch_jump_btc_virtual_tx complete jump_tx change_output outputs_of
  gen_ckb_batch_jump_btc_virtual_tx-IsBalanced p t h =
      let a = p.from_address in
      let xudt = w.unpack_script p.xudt_type_bytes in
      let sent = sum_transfer_amount p.rgbpp_receivers in
      let sent_capacity = calculate_rgbpp_cell_capacity (some xudt) * length p.rgbpp_receivers in
      let (_, h2) =
        throw_if-eq-ok
          (not (is_type_asset_supported w xudt a.is_mainnet (is_offline_mode p.vendor_cell_deps)))
          CkbError.type_asset_not_supported h in
      let (r, got, h3) =
        >>=-eq-ok (collect_for_jump w get_cells fetched a xudt sent sent_capacity) _ h2 in
      let (funded, reached) = collect_for_jump-IsFunded a xudt sent sent_capacity r got in
      let (deps, _, h4) =
        >>=-eq-ok (udt_cell_deps w false a.is_mainnet p.btc_testnet_type xudt _) _ h3 in
      let before = change_capacity a.lock xudt r sent_capacity sent in
      let sent_outputs = map (jumped_output a p.btc_testnet_type xudt) p.rgbpp_receivers in
      let udt = udt_change a.lock xudt r.sum_amount sent in
      let outs = sent_outputs ++ udt in
      let total : cell_capacities (outputs_of outs)
          ≡ sent_capacity + cell_capacities (outputs_of udt) =
        ap cell_capacities (map-append_outputs sent_outputs udt)
        ∙ (cell_capacities-append (outputs_of sent_outputs) _
            ∙ ap (λ n. n + cell_capacities (outputs_of udt))
                (jumped-capacities a p.btc_testnet_type xudt p.rgbpp_receivers)) in
      let sums = sum_transfer_amount-eq p.rgbpp_receivers in
      let amounts = funded.amount in
      subst (IsBalanced w get_cells p) (ok-injective _ refl h4) record {
        funds = r;
        funded = funded;
        inputs = funded.out_points;
        sum = funded.capacity;
        enough = omega (arith, reached, sums, amounts);
        fixed_outputs = outs;
        are_fixed =
            ap (λ os. os ++ udt) (jumped_output-eq a p.btc_testnet_type xudt p.rgbpp_receivers)
            ∙ ap
                (λ os.
                  map (receiver_output a.is_mainnet p.btc_testnet_type xudt) p.rgbpp_receivers
                  ++ os)
                (udt_change-eq a.lock xudt r.sum_amount sent
                  ∙ (ap (λ n. token_change a.lock xudt n sent) amounts
                      ∙ ap (λ n. token_change a.lock xudt (amount_total funded.tokens) n) sums));
        outputs = refl;
        outputs_data = refl;
        balance =
            ap pos (sym funded.capacity)
            ∙ balance_of_fee _ _ _ _ (
                change_capacity-balance a.lock xudt r sent_capacity sent
                ∙ ap (λ n. pos n +ℤ before +ℤ pos max_fee) (sym total));
        before = before;
        is_before = refl;
        is_fee = refl;
      }
