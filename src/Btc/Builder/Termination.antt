-- ===== src/Btc/Builder/Termination.antt =====
-- build.ts: the depth of the calls that `injectSatoshi` and `injectChange` make of one another.
use rgbpp_sdk.Common.{
  ℕ, zero, suc, String, Bool, true, false, not, Option, List, [], ◌∷◌, ◌++◌, map, ◌≡◌, ◌≢◌, refl,
  arith, or_else, if◌then◌else◌, Option-cases, inl, inr,
}
use rgbpp_sdk.Common.Int.{ℤ, pos, ◌+ℤ◌, ◌-ℤ◌, ◌≤ℤ◌, ltb_ℤ, int_laws}
use rgbpp_sdk.Btc.Error.{ErrorCode, Result, ok, err, out_of_fuel, ◌>>=◌, ◌>>◌, throw_if}
use rgbpp_sdk.Btc.Types.{
  BaseOutput, UtxoParams, Source, Utxo, TxOutput, InitOutput, World, TxBuilder,
}
use rgbpp_sdk.Btc.Utxos.{utxo_to_input}
use rgbpp_sdk.Btc.Source.{collect_satoshi}
use rgbpp_sdk.Btc.Utils.{is_supported_type}
use rgbpp_sdk.Btc.Builder.Outputs.{
  add_input, add_inputs, add_output, push_output, output_target, has_input, is_dust,
  can_inject_change_to_outputs,
}
use rgbpp_sdk.Btc.Builder.Inject.{
  SatoshiProps, ChangeProps, Progress, Injected, outpoint, with_pubkey, with_source, query_of,
  change_of, return_to, take_collected, collect_more, from_outputs, from_address, for_change,
  gather, give_change, new_change, change_with, inject_satoshi, inject_change, satoshi_props,
  change_props, change_output, is_short_change, change_address_of,
}
use rgbpp_sdk.Btc.Builder.Surplus.{gather-Settled}
use rgbpp_sdk.Btc.Builder.Steps.{gather-Steps}
use rgbpp_sdk.Btc.Builder.Kept.{Steps-Kept}

-- The call returned or threw.
abbrev pub Answers : {A : Type 0} → Result A → Type 0
Answers (ok a) = Unit
Answers (err e) = Unit
Answers out_of_fuel = ⊥

pub Answers-bind :
    {A B : Type 0} (first : Result A) (next : A → Result B)
    → Answers first
    → ((a : A) → first ≡ ok a → Answers (next a))
    → Answers (first >>= next)
Answers-bind (ok a) next h k = k a refl
Answers-bind (err e) next h k = tt
Answers-bind out_of_fuel next h k = elim h [ ]

pub Answers-ne-out_of_fuel : {A : Type 0} (call : Result A) → Answers call → call ≢ out_of_fuel
Answers-ne-out_of_fuel (ok a) h same = cc same
Answers-ne-out_of_fuel (err e) h same = cc same
Answers-ne-out_of_fuel out_of_fuel h same = h

Answers-of_ne : {A : Type 0} (call : Result A) → call ≢ out_of_fuel → Answers call
Answers-of_ne (ok a) h = tt
Answers-of_ne (err e) h = tt
Answers-of_ne out_of_fuel h = h refl

guard-Answers :
    {B : Type 0} (c : Bool) (e : ErrorCode) (rest : Result B)
    → Answers rest
    → Answers (throw_if c e >> rest)
guard-Answers true e rest h = tt
guard-Answers false e rest h = h

pub if-Answers :
    {A : Type 0} (c : Bool) (first second : Result A)
    → (c ≡ true → Answers first)
    → (c ≡ false → Answers second)
    → Answers (if c then first else second)
if-Answers true first second h k = h refl
if-Answers false first second h k = k refl

module _ (w : World) where
  utxo_to_input-Answers : (u : Utxo) → Answers (utxo_to_input w u)
  unfolding utxo_to_input
  utxo_to_input-Answers u = Answers-of_ne (utxo_to_input w u) (λ h. ground (arith, h))

  add_inputs-Answers : (us : List Utxo) (b : TxBuilder) → Answers (add_inputs w us b)
  unfolding add_inputs add_input
  add_inputs-Answers [] b = tt
  add_inputs-Answers (u ∷ us) b =
      Answers-bind (add_input w u b) (add_inputs w us)
        (if-Answers (has_input u.txid u.vout b) _ _ (λ h. tt)
          (λ h. Answers-bind (utxo_to_input w u) _ (utxo_to_input-Answers u) (λ i e. tt)))
        (λ c e. add_inputs-Answers us c)

  push_output-Answers : (o : TxOutput) (b : TxBuilder) → Answers (push_output w o b)
  unfolding push_output
  push_output-Answers o b =
      if-Answers (is_dust w b.min_utxo_satoshi o) _
        (ok (record b { outputs = b.outputs ++ (o ∷ []) })) (λ h. tt) (λ h. tt)

  add_output-Answers : (o : InitOutput) (b : TxBuilder) → Answers (add_output w o b)
  unfolding add_output
  add_output-Answers o b = elim (Option-cases (output_target w o.target)) [
    | inl unknown ↦ rw (unknown, add_output) tt
    | inr (t, known) ↦ rw (known, add_output) (push_output-Answers _ b)
  ]

  take_collected-Answers :
      (p : SatoshiProps) (s : Progress) (r : List Utxo × ℤ × Source)
      → Answers (take_collected w p s r)
  unfolding take_collected
  take_collected-Answers p s (us, satoshi, source) =
      Answers-bind (add_inputs w (map (with_pubkey p.public_key) us) (with_source source s.builder))
        _ (add_inputs-Answers _ _) (λ b e. tt)

  collect_satoshi-Answers :
      (params : UtxoParams) (target : ℤ) (key : Option String) (exclude : List BaseOutput)
      (source : Source)
      → Answers (collect_satoshi w params target true key exclude source)
  unfolding collect_satoshi
  collect_satoshi-Answers params target key exclude source = tt

  collect_more-Answers :
      (p : SatoshiProps) (amount : ℤ) (s : Progress) → Answers (collect_more w p amount s)
  unfolding collect_more
  collect_more-Answers p amount s =
      let exclude = map outpoint s.builder.inputs ++ or_else p.exclude_utxos [] in
      Answers-bind
        (collect_satoshi w (query_of p s.builder) amount true p.internal_cache_key exclude
          s.builder.source)
        (take_collected w p s)
        (collect_satoshi-Answers (query_of p s.builder) amount p.internal_cache_key exclude
          s.builder.source)
        (λ r e. take_collected-Answers p s r)

  from_address-Answers : (p : SatoshiProps) (s : Progress) → Answers (from_address w p s)
  unfolding from_address
  from_address-Answers p s =
      if-Answers (ltb_ℤ s.collected p.target_amount) _ (ok s)
        (λ short. collect_more-Answers p (p.target_amount -ℤ s.collected) s) (λ reached. tt)

  for_change-Answers :
      (p : SatoshiProps) (can : Bool) (s : Progress) → Answers (for_change w p can s)
  unfolding for_change
  for_change-Answers p can s =
      if-Answers (is_short_change p can s) _ (ok s)
        (λ short. collect_more-Answers p (s.builder.min_utxo_satoshi -ℤ s.change_amount) s)
        (λ fine. tt)

  gather-Answers : (p : SatoshiProps) (b : TxBuilder) → Answers (gather w p b)
  unfolding gather
  gather-Answers p b = guard-Answers (not (is_supported_type (w.address_type_of p.address))) _ _ (
      Answers-bind (from_address w p (from_outputs p b)) _
        (from_address-Answers p (from_outputs p b))
        (λ s e.
          let can = can_inject_change_to_outputs (change_address_of p) s.builder in
          Answers-bind (for_change w p can s) _ (for_change-Answers p can s) (λ s' e'.
            guard-Answers (ltb_ℤ s'.collected p.target_amount) _ _
              (guard-Answers (is_short_change p can s') ErrorCode.insufficient_utxo (ok s') tt))))

  new_change-Answers :
      (satoshi : SatoshiProps → TxBuilder → Result Injected) (p : ChangeProps) (b : TxBuilder)
      → (ltb_ℤ p.amount b.min_utxo_satoshi ≡ true → Answers (satoshi (satoshi_props p) b))
      → Answers (new_change w satoshi p b)
  unfolding new_change
  new_change-Answers satoshi p b h =
      if-Answers (ltb_ℤ p.amount b.min_utxo_satoshi) _ _
        (λ small. Answers-bind (satoshi (satoshi_props p) b) _ (h small) (λ i _.
          guard-Answers (ltb_ℤ i.collected p.amount) ErrorCode.insufficient_utxo
            (ok (i.builder, i.change_index)) tt))
        (λ large.
          Answers-bind (add_output w (change_output p.address p.amount) b) _
            (add_output-Answers _ b) (λ _ _. tt))

  change_with-Answers :
      (satoshi : SatoshiProps → TxBuilder → Result Injected) (p : ChangeProps) (b : TxBuilder)
      → (ltb_ℤ p.amount b.min_utxo_satoshi ≡ true → Answers (satoshi (satoshi_props p) b))
      → Answers (change_with w satoshi p b)
  unfolding change_with
  change_with-Answers satoshi p b h =
      elim (Option-cases (return_to p.address p.amount b.outputs 0)) [
        | inl nowhere ↦ rw (nowhere, change_with) (new_change-Answers satoshi p b h)
        | inr (found, there) ↦ rw (there, change_with) tt
      ]

  give_change-Answers :
      (change : ChangeProps → TxBuilder → Result (TxBuilder × ℤ)) (p : SatoshiProps) (s : Progress)
      → (ltb_ℤ (pos 0) s.change_amount ≡ true
          → Answers (change (change_props p s.change_amount) s.builder))
      → Answers (give_change w change p s)
  unfolding give_change
  give_change-Answers change p s h =
      if-Answers (ltb_ℤ (pos 0) s.change_amount) _ _
        (λ some_change.
          Answers-bind (change (change_props p s.change_amount) s.builder) _ (h some_change)
            (λ _ _. tt))
        (λ none. tt)

  no_room : (amount min : ℤ) → min ≤ℤ amount +ℤ pos 0 → ltb_ℤ amount min ≡ true → ⊥
  no_room amount min h k = grind int_laws

  doubled :
      (fuel : ℕ) (amount min min' change collected : ℤ)
      → pos 1 ≤ℤ amount
      → min ≤ℤ amount +ℤ pos (suc fuel)
      → min' ≡ min
      → change ≡ collected +ℤ amount
      → amount ≤ℤ collected
      → (pos 1 ≤ℤ change) × (min' ≤ℤ change +ℤ pos fuel)
  doubled fuel amount min min' change collected h k same e enough = (grind int_laws, grind int_laws)

  -- The change grows with each call, so fuel for the rest of the way to the limit is enough.
  pub change_with-Answers_by_fuel :
      (fuel : ℕ) (p : ChangeProps) (b : TxBuilder)
      → pos 1 ≤ℤ p.amount
      → b.min_utxo_satoshi ≤ℤ p.amount +ℤ pos fuel
      → Answers (change_with w (inject_satoshi w fuel) p b)
  unfolding inject_satoshi satoshi_props change_props change_of
  change_with-Answers_by_fuel zero p b some_amount h =
      change_with-Answers (inject_satoshi w zero) p b
        (λ small. no_room p.amount b.min_utxo_satoshi h small)
  change_with-Answers_by_fuel (suc fuel) p b some_amount h =
      change_with-Answers (inject_satoshi w (suc fuel)) p b (λ small.
        Answers-bind (gather w (satoshi_props p) b) _ (gather-Answers (satoshi_props p) b) (λ s e.
          let (d, enough) =
            gather-Settled w (satoshi_props p) b (inr (refl, refl, some_amount)) e in
          let (some_change, close) =
            doubled fuel p.amount b.min_utxo_satoshi s.builder.min_utxo_satoshi s.change_amount
              s.collected some_amount h d.limit d.change enough in
          give_change-Answers (change_with w (inject_satoshi w fuel)) (satoshi_props p) s (λ _.
            change_with-Answers_by_fuel fuel (change_props (satoshi_props p) s.change_amount)
              s.builder some_change close)))

  change_within :
      (fuel : ℕ) (change min min' : ℤ)
      → ltb_ℤ (pos 0) change ≡ true
      → min ≤ℤ pos fuel
      → min' ≡ min
      → (pos 1 ≤ℤ change) × (min' ≤ℤ change +ℤ pos fuel)
  change_within fuel change min min' some_change h same = (grind int_laws, grind int_laws)

  pub inject_satoshi-Answers :
      (fuel : ℕ) (p : SatoshiProps) (b : TxBuilder)
      → b.min_utxo_satoshi ≤ℤ pos fuel
      → Answers (inject_satoshi w (suc fuel) p b)
  unfolding inject_satoshi change_props
  inject_satoshi-Answers fuel p b h = Answers-bind (gather w p b) _ (gather-Answers p b) (λ s e.
      give_change-Answers (change_with w (inject_satoshi w fuel)) p s (λ some_change.
        let limit = (Steps-Kept w (gather-Steps w p b e)).limit in
        let (some_amount, close) =
          change_within fuel s.change_amount b.min_utxo_satoshi s.builder.min_utxo_satoshi
            some_change h limit in
        change_with-Answers_by_fuel fuel (change_props p s.change_amount) s.builder some_amount
          close))

-- `injectSatoshi` always comes to an end: it returns or throws, whatever the service answers. Fuel
-- of one more than the limit for an output is enough.
pub inject_satoshi_ends :
    (w : World) (fuel : ℕ) (p : SatoshiProps) (b : TxBuilder)
    → b.min_utxo_satoshi ≤ℤ pos fuel
    → inject_satoshi w (suc fuel) p b ≢ out_of_fuel
inject_satoshi_ends w fuel p b h = Answers-ne-out_of_fuel _ (inject_satoshi-Answers w fuel p b h)

-- `injectChange` of a positive amount always comes to an end: it returns or throws. Fuel of the
-- limit for an output is enough.
pub inject_change_ends :
    (w : World) (fuel : ℕ) (p : ChangeProps) (b : TxBuilder)
    → pos 1 ≤ℤ p.amount
    → b.min_utxo_satoshi ≤ℤ p.amount +ℤ pos fuel
    → inject_change w fuel p b ≢ out_of_fuel
unfolding inject_change
inject_change_ends w fuel p b some_amount h =
    Answers-ne-out_of_fuel _ (change_with-Answers_by_fuel w fuel p b some_amount h)
