-- ===== src/Btc/Builder/Steps.antt =====
-- build.ts: the changes that the builder's methods make, as a step relation.
use rgbpp_sdk.Common.{
  ℕ, zero, suc, String, Bool, true, some, List, [], ◌∷◌, map, ◌≡◌, arith, or_else, Bool-cases,
  Option-cases, inl, inr, not,
}
use rgbpp_sdk.Common.Int.{ℤ, pos, ◌≤ℤ◌, ltb_ℤ}
use rgbpp_sdk.Btc.Error.{Result, ok, >>=-eq-ok, throw_if-eq-ok}
use rgbpp_sdk.Btc.Types.{Utxo, TxOutput, World, Source, TxBuilder}
use rgbpp_sdk.Btc.Source.{collect_satoshi}
use rgbpp_sdk.Btc.Utils.{is_supported_type}
use rgbpp_sdk.Btc.Builder.Outputs.{add_input, add_inputs, add_output, can_inject_change_to_outputs}
use rgbpp_sdk.Btc.Builder.Deduct.{deduct}
use rgbpp_sdk.Btc.Builder.Inject.{
  SatoshiProps, ChangeProps, Progress, Injected, with_pubkey, with_source, return_to,
  take_collected, collect_more, from_outputs, from_address, for_change, gather, give_change,
  new_change, change_with, inject_satoshi, inject_change, satoshi_props, change_props,
  change_output, is_short_change, change_address_of,
}

module _ (w : World) where
  pub data Step : TxBuilder → TxBuilder → Type 0 where
    deducts :
        {b : TxBuilder} (target : ℤ)
        → Step b (record b { outputs = (deduct b.min_utxo_satoshi target b.outputs (pos 0)).0 })
    asks : {b : TxBuilder} (source : Source) → Step b (with_source source b)
    adds_input : {b b' : TxBuilder} (u : Utxo) → add_input w u b ≡ ok b' → Step b b'
    returns :
        {b : TxBuilder} (address : String) (amount : ℤ) (os : List TxOutput) (i : ℕ)
        → pos 1 ≤ℤ amount
        → return_to address amount b.outputs 0 ≡ some (os, i)
        → Step b (record b { outputs = os })
    adds_change :
        {b b' : TxBuilder} (address : String) (amount : ℤ)
        → add_output w (change_output address amount) b ≡ ok b'
        → Step b b'

  pub data Steps (b : TxBuilder) : TxBuilder → Type 0 where
    here : Steps b b
    next : {c d : TxBuilder} → Steps b c → Step c d → Steps b d

  pub Steps-trans : {b c d : TxBuilder} → Steps b c → Steps c d → Steps b d
  Steps-trans r here = r
  Steps-trans r (next q s) = next (Steps-trans r q) s

  pub add_inputs-Steps :
      (us : List Utxo) (b : TxBuilder) {b' : TxBuilder} → add_inputs w us b ≡ ok b' → Steps b b'
  unfolding add_inputs
  add_inputs-Steps [] b {b'} h = let same : b ≡ b' = cc h in rw (← same) here
  add_inputs-Steps (u ∷ us) b h =
      let (c, e, k) = >>=-eq-ok (add_input w u b) (add_inputs w us) h in
      Steps-trans (next here (adds_input u e)) (add_inputs-Steps us c k)

  collect_more-Steps :
      (p : SatoshiProps) (amount : ℤ) (s : Progress) {s' : Progress}
      → collect_more w p amount s ≡ ok s'
      → Steps s.builder s'.builder
  unfolding collect_more take_collected
  collect_more-Steps p amount s {s'} h =
      let (r, e, k) = >>=-eq-ok (collect_satoshi w _ _ _ _ _ _) _ h in
      let (b, e', k') =
        >>=-eq-ok (add_inputs w (map (with_pubkey p.public_key) r.0) (with_source r.2 s.builder)) _
          k in
      let same : s'.builder ≡ b = cc k' in
      rw same (Steps-trans (next here (asks r.2)) (add_inputs-Steps _ _ e'))

  from_outputs-Steps : (p : SatoshiProps) (b : TxBuilder) → Steps b (from_outputs p b).builder
  unfolding from_outputs
  from_outputs-Steps p b = elim (Bool-cases (or_else p.deduct_from_outputs true)) [
    | inl takes ↦ simp takes (next here (deducts p.target_amount))
    | inr leaves ↦ simp leaves here
  ]

  from_address-Steps :
      (p : SatoshiProps) (s : Progress) {s' : Progress}
      → from_address w p s ≡ ok s'
      → Steps s.builder s'.builder
  unfolding from_address
  from_address-Steps p s {s'} h = elim (Bool-cases (ltb_ℤ s.collected p.target_amount)) [
    | inl short ↦ collect_more-Steps p _ s (rw short at h)
    | inr reached ↦ let same : s ≡ s' = ground (arith, reached) in rw (← same) here
  ]

  for_change-Steps :
      (p : SatoshiProps) (can : Bool) (s : Progress) {s' : Progress}
      → for_change w p can s ≡ ok s'
      → Steps s.builder s'.builder
  unfolding for_change
  for_change-Steps p can s {s'} h = elim (Bool-cases (is_short_change p can s)) [
    | inl short ↦ collect_more-Steps p _ s (rw short at h)
    | inr fine ↦ let same : s ≡ s' = ground (arith, fine) in rw (← same) here
  ]

  pub gather-Steps :
      (p : SatoshiProps) (b : TxBuilder) {s : Progress} → gather w p b ≡ ok s → Steps b s.builder
  unfolding gather
  gather-Steps p b {s} h =
      let (_, h1) = throw_if-eq-ok (not (is_supported_type (w.address_type_of p.address))) _ h in
      let (s1, e1, h2) = >>=-eq-ok (from_address w p (from_outputs p b)) _ h1 in
      let can = can_inject_change_to_outputs (change_address_of p) s1.builder in
      let (s2, e2, h3) = >>=-eq-ok (for_change w p can s1) _ h2 in
      let (_, h4) = throw_if-eq-ok (ltb_ℤ s2.collected p.target_amount) _ h3 in
      let (_, h5) = throw_if-eq-ok (is_short_change p can s2) _ h4 in
      let same : s2 ≡ s = cc h5 in
      rw (← same) (
        Steps-trans (from_outputs-Steps p b)
          (Steps-trans (from_address-Steps p (from_outputs p b) e1) (for_change-Steps p can s1 e2)))

  module _ (satoshi : SatoshiProps → TxBuilder → Result Injected)
      (satoshi_steps : (p : SatoshiProps) (b : TxBuilder) (r : Injected)
        → satoshi p b ≡ ok r
        → Steps b r.builder) where
    new_change-Steps :
        (p : ChangeProps) (b : TxBuilder) {r : TxBuilder × ℤ}
        → new_change w satoshi p b ≡ ok r
        → Steps b r.0
    unfolding new_change
    new_change-Steps p b {r} h = elim (Bool-cases (ltb_ℤ p.amount b.min_utxo_satoshi)) [
      | inl small ↦
          let (i, e, k) = >>=-eq-ok (satoshi (satoshi_props p) b) _ (rw small at h) in
          let (_, k') = throw_if-eq-ok (ltb_ℤ i.collected p.amount) _ k in
          let same : r.0 ≡ i.builder = cc k' in rw same (satoshi_steps (satoshi_props p) b i e)
      | inr large ↦
          let (b', e, k) =
            >>=-eq-ok (add_output w (change_output p.address p.amount) b) _ (rw large at h) in
          let same : r.0 ≡ b' = cc k in rw same (next here (adds_change p.address p.amount e))
    ]

    change_with-Steps :
        (p : ChangeProps) (b : TxBuilder) {r : TxBuilder × ℤ}
        → pos 1 ≤ℤ p.amount
        → change_with w satoshi p b ≡ ok r
        → Steps b r.0
    unfolding change_with
    change_with-Steps p b {r} some_amount h =
        elim (Option-cases (return_to p.address p.amount b.outputs 0)) [
          | inl nowhere ↦ new_change-Steps p b (rw (nowhere, change_with) at h)
          | inr ((outputs, i), found) ↦
              let same : record b { outputs = outputs } ≡ r.0 = ground (arith, found) in
              rw (← same) (next here (returns p.address p.amount outputs i some_amount found))
        ]

  give_change-Steps :
      (change : ChangeProps → TxBuilder → Result (TxBuilder × ℤ))
      → ((q : ChangeProps) (b : TxBuilder) (r : TxBuilder × ℤ)
          → pos 1 ≤ℤ q.amount
          → change q b ≡ ok r
          → Steps b r.0)
      → (p : SatoshiProps) (s : Progress) (r : Injected) → give_change w change p s ≡ ok r
      → Steps s.builder r.builder
  unfolding give_change change_props
  give_change-Steps change change_steps p s r h =
      elim (Bool-cases (ltb_ℤ (pos 0) s.change_amount)) [
        | inl some_change ↦
            let (x, e, k) =
              >>=-eq-ok (change (change_props p s.change_amount) s.builder) _
                (rw some_change at h) in
            let same : r.builder ≡ x.0 = cc k in
            rw same (
              change_steps (change_props p s.change_amount) s.builder x
                (ground (arith, some_change)) e)
        | inr no_change ↦
            let same : s.builder ≡ r.builder = ground (arith, no_change) in rw (← same) here
      ]

  -- When `injectSatoshi` returns, what it did to the builder is a sequence of steps: deductions from
  -- the outputs, queries, inputs added, an amount added to an output, and a change output added.
  pub inject_satoshi-Steps :
      (fuel : ℕ) (p : SatoshiProps) (b : TxBuilder) (r : Injected)
      → inject_satoshi w fuel p b ≡ ok r
      → Steps b r.builder
  unfolding inject_satoshi
  inject_satoshi-Steps zero p b r h = cc
  inject_satoshi-Steps (suc fuel) p b r h =
      let (s, e, k) = >>=-eq-ok (gather w p b) _ h in
      Steps-trans (gather-Steps p b e) (
        give_change-Steps (change_with w (inject_satoshi w fuel))
          (λ q c r'. change_with-Steps (inject_satoshi w fuel) (inject_satoshi-Steps fuel) q c) p s
          r k)

  pub inject_change-Steps :
      (fuel : ℕ) (p : ChangeProps) (b : TxBuilder) (r : TxBuilder × ℤ)
      → pos 1 ≤ℤ p.amount
      → inject_change w fuel p b ≡ ok r
      → Steps b r.0
  unfolding inject_change
  inject_change-Steps fuel p b r =
      change_with-Steps (inject_satoshi w fuel) (inject_satoshi-Steps fuel) p b
