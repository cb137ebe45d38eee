-- ===== src/Btc/Builder/Surplus.antt =====
-- build.ts: how `injectSatoshi` and `injectChange` move the surplus of the builder.
use rgbpp_sdk.Common.{
  ℕ, zero, suc, String, Bool, true, false, Option, none, some, List, [], ◌∷◌, ◌++◌, map, ◌≡◌, refl,
  sym, ◌∙◌, arith, ◌⊎◌, or_else, Bool-cases, Option-cases, inl, inr, not,
}
use rgbpp_sdk.Common.Int.{ℤ, pos, ◌+ℤ◌, ◌-ℤ◌, ◌≤ℤ◌, int_laws, ltb_ℤ}
use rgbpp_sdk.Btc.Error.{Result, ok, >>=-eq-ok, throw_if-eq-ok}
use rgbpp_sdk.Btc.Types.{
  BaseOutput, Utxo, UtxoParams, to_address, TxOutput, World, Source, TxBuilder,
}
use rgbpp_sdk.Btc.Source.{collect_satoshi, optional_cache_utxos}
use rgbpp_sdk.Btc.Builder.Outputs.{
  outputs_total, add_inputs, add_output, push_output, output_target, can_inject_change_to_outputs,
}
use rgbpp_sdk.Btc.Utils.{is_supported_type}
use rgbpp_sdk.Btc.Builder.Inject.{
  SatoshiProps, ChangeProps, Progress, Injected, with_pubkey, change_of, return_to, take_collected,
  collect_more, from_outputs, from_address, for_change, gather, give_change, new_change,
  change_with, inject_satoshi, inject_change, satoshi_props, change_props, change_output,
  is_short_change, change_address_of,
}
use rgbpp_sdk.Btc.Builder.Totals.{
  surplus, values, values-with_pubkey, outputs_total-append, outputs_total-one, Grown,
  Grown-surplus, add_inputs-Grown, collect_from_total, deduct_total,
}

-- What a collection from the address does to the variables.
pub record Collected (inject : Bool) (target : ℤ) (s s' : Progress) : Type 0 where
  pub gained : ℤ
  pub grown : Grown s.builder s'.builder gained
  pub collected : s'.collected ≡ s.collected +ℤ gained
  pub change : s'.change_amount ≡ change_of inject s'.collected target

module _ (w : World) where
  collect_satoshi_total :
      (params : UtxoParams) (target : ℤ) (key : Option String) (exclude : List BaseOutput)
      (source : Source) {r : List Utxo × ℤ × Source}
      → collect_satoshi w params target true key exclude source ≡ ok r
      → r.1 ≡ values r.0
  unfolding collect_satoshi
  collect_satoshi_total params target key exclude source h =
      let us = (optional_cache_utxos w key params source).0 in
      grind (int_laws, collect_from_total target exclude us (pos 0))

  take_collected-Collected :
      (p : SatoshiProps) (s : Progress) (us : List Utxo) (satoshi : ℤ) (source : Source)
      {s' : Progress}
      → satoshi ≡ values us
      → take_collected w p s (us, satoshi, source) ≡ ok s'
      → Collected (or_else p.inject_collected false) p.target_amount s s'
  unfolding take_collected
  take_collected-Collected p s us satoshi source {s'} v h =
      let (b, e, k) = >>=-eq-ok (add_inputs w (map (with_pubkey p.public_key) us) _) _ h in
      let g = add_inputs-Grown w _ _ e in
      record {
        gained = satoshi;
        grown =
            let same : s'.builder ≡ b = cc in
            rw same (record {
              news = g.news;
              inputs = g.inputs;
              worth = g.worth ∙ values-with_pubkey p.public_key us ∙ sym v;
              outputs = g.outputs;
              limit = g.limit;
            });
        collected = ground arith;
        change = ground arith;
      }

  pub collect_more-Collected :
      (p : SatoshiProps) (amount : ℤ) (s : Progress) {s' : Progress}
      → collect_more w p amount s ≡ ok s'
      → Collected (or_else p.inject_collected false) p.target_amount s s'
  unfolding collect_more
  collect_more-Collected p amount s h =
      let (r, e, k) = >>=-eq-ok (collect_satoshi w _ _ _ _ _ _) _ h in
      take_collected-Collected p s r.0 r.1 r.2 (collect_satoshi_total _ _ _ _ _ e) k

  deducted :
      (p : SatoshiProps) (b : TxBuilder)
      → let s = from_outputs p b in
        (surplus s.builder ≡ surplus b +ℤ s.collected)
        × (s.builder.min_utxo_satoshi ≡ b.min_utxo_satoshi)
        × (s.change_amount ≡ pos 0)
        × (pos 0 ≤ℤ p.target_amount → s.collected ≤ℤ p.target_amount)
        × (or_else p.deduct_from_outputs true ≡ false → s.collected ≡ pos 0)
  unfolding from_outputs
  deducted p b = elim (Bool-cases (or_else p.deduct_from_outputs true)) [
    | inl deducts ↦
        let (q, r) = deduct_total b.min_utxo_satoshi p.target_amount b.outputs (pos 0) in
        simp deducts (omega int_laws, refl, refl, r, λ e. cc)
    | inr whole ↦ simp whole (omega int_laws, refl, refl, λ h. h, λ e. refl)
  ]

-- The calls that the source makes: with a target that is not negative, or, to add what is collected
-- to a change, with a positive one and no deduction from the outputs.
abbrev pub IsProper : SatoshiProps → Type 0
IsProper p =
    ((or_else p.inject_collected false ≡ false) × (pos 0 ≤ℤ p.target_amount))
    ⊎ ((or_else p.inject_collected false ≡ true)
        × (or_else p.deduct_from_outputs true ≡ false)
        × (pos 1 ≤ℤ p.target_amount))

unsettled_change :
    (inject deducts : Bool) (collected target : ℤ)
    → ltb_ℤ collected target ≡ false
    → ((inject ≡ false) × (pos 0 ≤ℤ target))
      ⊎ ((inject ≡ true) × (deducts ≡ false) × (pos 1 ≤ℤ target))
    → (pos 0 ≤ℤ target → collected ≤ℤ target)
    → (deducts ≡ false → collected ≡ pos 0)
    → pos 0 ≡ change_of inject collected target
unfolding change_of
unsettled_change true deducts collected target reached proper most none_taken = grind int_laws
unsettled_change false deducts collected target reached proper most none_taken = grind int_laws

-- The variables agree with what the builder has gained.
pub record Settled (p : SatoshiProps) (b : TxBuilder) (s : Progress) : Type 0 where
  pub balance : surplus s.builder ≡ surplus b +ℤ s.collected
  pub limit : s.builder.min_utxo_satoshi ≡ b.min_utxo_satoshi
  pub change :
      s.change_amount ≡ change_of (or_else p.inject_collected false) s.collected p.target_amount

module _ (w : World) (p : SatoshiProps) (b : TxBuilder) where
  collect_more-Settled :
      (amount : ℤ) (s : Progress) {s' : Progress}
      → surplus s.builder ≡ surplus b +ℤ s.collected
      → s.builder.min_utxo_satoshi ≡ b.min_utxo_satoshi
      → collect_more w p amount s ≡ ok s'
      → Settled p b s'
  collect_more-Settled amount s {s'} balance limit h =
      let c = collect_more-Collected w p amount s h in
      let grown : surplus s'.builder ≡ surplus s.builder +ℤ c.gained = Grown-surplus c.grown in
      record {
        balance = omega (int_laws, c.collected);
        limit = c.grown.limit ∙ limit;
        change = c.change;
      }

  from_address-Settled :
      {s : Progress} → IsProper p → from_address w p (from_outputs p b) ≡ ok s → Settled p b s
  unfolding from_address
  from_address-Settled {s} proper h =
      let (balance, limit, no_change, most, none_taken) = deducted w p b in
      elim (Bool-cases (ltb_ℤ (from_outputs p b).collected p.target_amount)) [
        | inl short ↦ collect_more-Settled _ (from_outputs p b) balance limit (rw short at h)
        | inr reached ↦
            let same : from_outputs p b ≡ s = ground (arith, reached) in
            rw (← same) (record {
              balance = balance;
              limit = limit;
              change = no_change ∙ unsettled_change _ _ _ _ reached proper most none_taken;
            })
      ]

  for_change-Settled :
      (can : Bool) (s : Progress) {s' : Progress}
      → Settled p b s
      → for_change w p can s ≡ ok s'
      → Settled p b s'
  unfolding for_change
  for_change-Settled can s {s'} d h = elim (Bool-cases (is_short_change p can s)) [
    | inl short ↦ collect_more-Settled _ s d.balance d.limit (rw short at h)
    | inr fine ↦ let same : s ≡ s' = ground (arith, fine) in rw (← same) d
  ]

  pub gather-Settled :
      {s : Progress}
      → IsProper p
      → gather w p b ≡ ok s
      → Settled p b s × (p.target_amount ≤ℤ s.collected)
  unfolding gather
  gather-Settled {s} proper h =
      let (_, h1) = throw_if-eq-ok (not (is_supported_type (w.address_type_of p.address))) _ h in
      let (s1, e1, h2) = >>=-eq-ok (from_address w p (from_outputs p b)) _ h1 in
      let (s2, e2, h3) = >>=-eq-ok (for_change w p _ s1) _ h2 in
      let (enough, h4) = throw_if-eq-ok (ltb_ℤ s2.collected p.target_amount) _ h3 in
      let can = can_inject_change_to_outputs (change_address_of p) s1.builder in
      let (_, h5) = throw_if-eq-ok (is_short_change p can s2) _ h4 in
      let same : s2 ≡ s = cc h5 in
      rw (← same)
        (for_change-Settled _ s1 (from_address-Settled proper e1) e2, ground (arith, enough))

-- The amount that goes to an output is the amount that the outputs gain.
return_to_total :
    (address : String) (amount : ℤ) (os : List TxOutput) (i : ℕ) {r : List TxOutput × ℕ}
    → return_to address amount os i ≡ some r
    → outputs_total r.0 ≡ outputs_total os +ℤ amount
unfolding return_to outputs_total
return_to_total address amount [] i h = cc
return_to_total address amount (o ∷ os) i h =
    grind (int_laws, return_to_total address amount os (suc i))

abbrev as_output : String → ℤ → TxOutput
as_output address amount = record {
  target = to_address address;
  value = amount;
  fixed = false;
  protected = false;
  min_utxo_satoshi = none;
}

push_output-eq :
    (w : World) (o : TxOutput) (b : TxBuilder) {b' : TxBuilder}
    → push_output w o b ≡ ok b'
    → b' ≡ record b { outputs = b.outputs ++ (o ∷ []) }
unfolding push_output
push_output-eq w o b h = ground arith

-- Where the surplus goes: down by the target if what is collected joins a change, up otherwise.
abbrev pub moved : Bool → ℤ → ℤ → ℤ
moved true s target = s -ℤ target
moved false s target = s +ℤ target

change_settles :
    (inject : Bool) (before now after change collected target : ℤ)
    → now ≡ before +ℤ collected
    → change ≡ change_of inject collected target
    → after ≡ now -ℤ change
    → after ≡ moved inject before target
unfolding change_of
change_settles true _ _ _ _ _ _ p q r = omega int_laws
change_settles false _ _ _ _ _ _ p q r = omega int_laws

no_change_settles :
    (inject deducts : Bool) (before now change collected target : ℤ)
    → ((inject ≡ false) × (pos 0 ≤ℤ target))
      ⊎ ((inject ≡ true) × (deducts ≡ false) × (pos 1 ≤ℤ target))
    → now ≡ before +ℤ collected
    → change ≡ change_of inject collected target
    → target ≤ℤ collected
    → ltb_ℤ (pos 0) change ≡ false
    → now ≡ moved inject before target
unfolding change_of
no_change_settles true _ _ _ _ _ _ proper p q enough none_left = grind int_laws
no_change_settles false _ _ _ _ _ _ proper p q enough none_left = grind int_laws

module _ (w : World) where
  -- What a successful `addOutput` of a change does.
  add_output-surplus :
      (address : String) (amount : ℤ) (b : TxBuilder) {b' : TxBuilder}
      → add_output w (change_output address amount) b ≡ ok b'
      → surplus b ≡ surplus b' +ℤ amount
  unfolding add_output push_output output_target
  add_output-surplus address amount b {b'} h =
      let added : b' ≡ record b { outputs = b.outputs ++ (as_output address amount ∷ []) } =
        push_output-eq w _ b h in
      rw (added, outputs_total-append, outputs_total-one) (omega int_laws)

  module _ (satoshi : SatoshiProps → TxBuilder → Result Injected)
      (satoshi_moves : (p : SatoshiProps) (b : TxBuilder) (r : Injected)
        → IsProper p
        → satoshi p b ≡ ok r
        → surplus r.builder
          ≡ moved (or_else p.inject_collected false) (surplus b) p.target_amount) where
    new_change-surplus :
        (p : ChangeProps) (b : TxBuilder) {r : TxBuilder × ℤ}
        → pos 1 ≤ℤ p.amount
        → new_change w satoshi p b ≡ ok r
        → surplus r.0 ≡ surplus b -ℤ p.amount
    unfolding new_change satoshi_props
    new_change-surplus p b {r} some_amount h =
        elim (Bool-cases (ltb_ℤ p.amount b.min_utxo_satoshi)) [
          | inl small ↦
              let (i, e, k) = >>=-eq-ok (satoshi (satoshi_props p) b) _ (rw small at h) in
              let (_, k') = throw_if-eq-ok (ltb_ℤ i.collected p.amount) _ k in
              let same : r.0 ≡ i.builder = cc k' in
              rw same (satoshi_moves (satoshi_props p) b i (inr (refl, refl, some_amount)) e)
          | inr large ↦
              let (b', e, k) =
                >>=-eq-ok (add_output w (change_output p.address p.amount) b) _ (rw large at h) in
              let same : r.0 ≡ b' = cc k in
              rw same (omega (int_laws, add_output-surplus p.address p.amount b e))
        ]

    change_with-surplus :
        (p : ChangeProps) (b : TxBuilder) {r : TxBuilder × ℤ}
        → pos 1 ≤ℤ p.amount
        → change_with w satoshi p b ≡ ok r
        → surplus r.0 ≡ surplus b -ℤ p.amount
    unfolding change_with
    change_with-surplus p b {r} some_amount h =
        elim (Option-cases (return_to p.address p.amount b.outputs 0)) [
          | inl nowhere ↦ new_change-surplus p b some_amount (rw (nowhere, change_with) at h)
          | inr ((outputs, i), found) ↦
              let same : record b { outputs = outputs } ≡ r.0 = ground (arith, found) in
              rw (← same) (omega (int_laws, return_to_total p.address p.amount b.outputs 0 found))
        ]

  give_change-surplus :
      (change : ChangeProps → TxBuilder → Result (TxBuilder × ℤ))
      → ((q : ChangeProps) (b : TxBuilder) (r : TxBuilder × ℤ)
          → pos 1 ≤ℤ q.amount
          → change q b ≡ ok r
          → surplus r.0 ≡ surplus b -ℤ q.amount)
      → (p : SatoshiProps) (b : TxBuilder) (s : Progress) (r : Injected) → IsProper p
      → Settled p b s
      → p.target_amount ≤ℤ s.collected
      → give_change w change p s ≡ ok r
      → surplus r.builder ≡ moved (or_else p.inject_collected false) (surplus b) p.target_amount
  unfolding give_change change_props
  give_change-surplus change change_moves p b s r proper d enough h =
      elim (Bool-cases (ltb_ℤ (pos 0) s.change_amount)) [
        | inl some_change ↦
            let (x, e, k) =
              >>=-eq-ok (change (change_props p s.change_amount) s.builder) _
                (rw some_change at h) in
            let same : r.builder ≡ x.0 = cc k in
            let went =
              change_moves (change_props p s.change_amount) s.builder x
                (ground (arith, some_change)) e in
            rw same (change_settles _ _ _ _ _ _ _ d.balance d.change went)
        | inr no_change ↦
            let same : s.builder ≡ r.builder = ground (arith, no_change) in
            rw (← same) (no_change_settles _ _ _ _ _ _ _ proper d.balance d.change enough no_change)
      ]

-- A successful `injectSatoshi` moves the surplus (the sum of the inputs less the sum of the outputs)
-- by exactly the target amount: up by it, or down by it where what is collected joins a change. The
-- target is not negative; in the second case it is positive and nothing is deducted from outputs.
pub inject_satoshi-surplus :
    (w : World) (fuel : ℕ) (p : SatoshiProps) (b : TxBuilder) (r : Injected)
    → IsProper p
    → inject_satoshi w fuel p b ≡ ok r
    → surplus r.builder ≡ moved (or_else p.inject_collected false) (surplus b) p.target_amount
unfolding inject_satoshi
inject_satoshi-surplus w zero p b r proper h = cc
inject_satoshi-surplus w (suc fuel) p b r proper h =
    let (s, e, k) = >>=-eq-ok (gather w p b) _ h in
    let (d, enough) = gather-Settled w p b proper e in
    give_change-surplus w (change_with w (inject_satoshi w fuel))
      (λ q c r'. change_with-surplus w (inject_satoshi w fuel) (inject_satoshi-surplus w fuel) q c)
      p b s r proper d enough k

-- A successful `injectChange` of a positive amount moves exactly that amount out of the surplus.
pub inject_change-surplus :
    (w : World) (fuel : ℕ) (p : ChangeProps) (b : TxBuilder) (r : TxBuilder × ℤ)
    → pos 1 ≤ℤ p.amount
    → inject_change w fuel p b ≡ ok r
    → surplus r.0 ≡ surplus b -ℤ p.amount
unfolding inject_change
inject_change-surplus w fuel p b r some_amount h =
    change_with-surplus w (inject_satoshi w fuel) (inject_satoshi-surplus w fuel) p b some_amount h
