-- ===== src/Btc/Builder/Totals.antt =====
-- How the steps of the builder move its surplus, the sum of the inputs less the sum of the outputs.
use mathlib.Core.List.{append_assoc, append-nil}
use rgbpp_sdk.Common.{
  ap, String, Option, List, [], ◌∷◌, ◌++◌, map, ◌≡◌, refl, ◌∙◌, arith, Bool-cases, inl, inr,
}
use rgbpp_sdk.Common.Int.{ℤ, pos, ◌+ℤ◌, ◌-ℤ◌, ◌≤ℤ◌, int_laws, leb_ℤ}
use rgbpp_sdk.Btc.Error.{ok, >>=-eq-ok, err-ne-ok}
use rgbpp_sdk.Btc.Types.{BaseOutput, Utxo, TxInput, TxOutput, World, TxBuilder}
use rgbpp_sdk.Btc.Utxos.{utxo_to_input, utxo_to_input-utxo}
use rgbpp_sdk.Btc.Source.{collect_from}
use rgbpp_sdk.Btc.Builder.Outputs.{inputs_total, outputs_total, has_input, add_input, add_inputs}
use rgbpp_sdk.Btc.Builder.Deduct.{collect_amount, take_from, deduct}
use rgbpp_sdk.Btc.Builder.Inject.{with_pubkey}

abbrev pub surplus : TxBuilder → ℤ
surplus b = inputs_total b.inputs -ℤ outputs_total b.outputs

abbrev pub values : List Utxo → ℤ
values [] = pos 0
values (u ∷ us) = u.value +ℤ values us

pub values-with_pubkey :
    (k : Option String) (us : List Utxo) → values (map (with_pubkey k) us) ≡ values us
values-with_pubkey k [] = refl
values-with_pubkey k (u ∷ us) = omega (int_laws, values-with_pubkey k us)

inputs_total-append :
    (xs ys : List TxInput) → inputs_total (xs ++ ys) ≡ inputs_total xs +ℤ inputs_total ys
unfolding inputs_total
inputs_total-append [] ys = omega int_laws
inputs_total-append (x ∷ xs) ys = omega (int_laws, inputs_total-append xs ys)

pub outputs_total-append :
    (xs ys : List TxOutput) → outputs_total (xs ++ ys) ≡ outputs_total xs +ℤ outputs_total ys
unfolding outputs_total
outputs_total-append [] ys = omega int_laws
outputs_total-append (x ∷ xs) ys = omega (int_laws, outputs_total-append xs ys)

inputs_total-one : (i : TxInput) → inputs_total (i ∷ []) ≡ i.utxo.value
unfolding inputs_total
inputs_total-one i = omega int_laws

pub outputs_total-cons :
    (o : TxOutput) (os : List TxOutput) → outputs_total (o ∷ os) ≡ o.value +ℤ outputs_total os
unfolding outputs_total
outputs_total-cons o os = refl

pub outputs_total-one : (o : TxOutput) → outputs_total (o ∷ []) ≡ o.value
unfolding outputs_total
outputs_total-one o = omega int_laws

-- The builder with more inputs, worth the given amount; the source may have moved on.
pub record Grown (b b' : TxBuilder) (x : ℤ) : Type 0 where
  pub news : List TxInput
  pub inputs : b'.inputs ≡ b.inputs ++ news
  pub worth : inputs_total news ≡ x
  pub outputs : b'.outputs ≡ b.outputs
  pub limit : b'.min_utxo_satoshi ≡ b.min_utxo_satoshi

pub Grown-trans : {b c d : TxBuilder} {x y : ℤ} → Grown b c x → Grown c d y → Grown b d (x +ℤ y)
Grown-trans {b} g k = record {
  news = g.news ++ k.news;
  inputs = rw (k.inputs, g.inputs) (append_assoc b.inputs g.news k.news);
  worth = rw (inputs_total-append, g.worth, k.worth) refl;
  outputs = k.outputs ∙ g.outputs;
  limit = k.limit ∙ g.limit;
}

pub Grown-surplus : {b c : TxBuilder} {x : ℤ} → Grown b c x → surplus c ≡ surplus b +ℤ x
Grown-surplus {b} g = rw (g.inputs, g.outputs, inputs_total-append) (omega (int_laws, g.worth))

module _ (w : World) where
  add_input-Grown :
      (u : Utxo) (b : TxBuilder) {b' : TxBuilder} → add_input w u b ≡ ok b' → Grown b b' u.value
  unfolding add_input
  add_input-Grown u b h = elim (Bool-cases (has_input u.txid u.vout b)) [
    | inl dup ↦ absurd (err-ne-ok (rw dup at h))
    | inr new ↦
        let (i, e, k) = >>=-eq-ok (utxo_to_input w u) _ (rw new at h) in
        let (same, _, _) = utxo_to_input-utxo w u e in
        record {
          news = i ∷ [];
          inputs = ground arith;
          worth = inputs_total-one i ∙ ap (λ v. v.value) same;
          outputs = ground arith;
          limit = ground arith;
        }
  ]

  pub add_inputs-Grown :
      (us : List Utxo) (b : TxBuilder) {b' : TxBuilder}
      → add_inputs w us b ≡ ok b'
      → Grown b b' (values us)
  unfolding add_inputs inputs_total
  add_inputs-Grown [] b h = record {
    news = [];
    inputs = rw append-nil (ground arith);
    worth = refl;
    outputs = ground arith;
    limit = ground arith;
  }
  add_inputs-Grown (u ∷ us) b h =
      let (c, e, k) = >>=-eq-ok (add_input w u b) (add_inputs w us) h in
      Grown-trans (add_input-Grown u b e) (add_inputs-Grown us c k)

pub collect_from_total :
    (target : ℤ) (exclude : List BaseOutput) (us : List Utxo) (amount : ℤ)
    → let (taken, total) = collect_from target exclude us amount in total ≡ amount +ℤ values taken
unfolding collect_from
collect_from_total target exclude [] amount = omega int_laws
collect_from_total target exclude (u ∷ us) amount = grind (
  int_laws,
  collect_from_total target exclude us amount,
  collect_from_total target exclude us (amount +ℤ u.value),
)

take_from_total :
    (min remain : ℤ) (o : TxOutput)
    → let (kept, taken) = take_from min remain o in
      (outputs_total kept +ℤ taken ≡ o.value) × (taken ≤ℤ remain)
unfolding take_from collect_amount outputs_total
take_from_total min remain o = grind int_laws

-- What the loop takes, the outputs lose; and it takes no more than is wanted.
pub deduct_total :
    (min target : ℤ) (os : List TxOutput) (collected : ℤ)
    → let (os', c) = deduct min target os collected in
      (outputs_total os' +ℤ c ≡ outputs_total os +ℤ collected) × (collected ≤ℤ target → c ≤ℤ target)
unfolding deduct
deduct_total min target [] collected = (refl, λ h. h)
deduct_total min target (o ∷ os) collected = elim (Bool-cases o.fixed) [
  | inl fixed ↦
      let (p, q) = deduct_total min target os collected in
      simp (fixed, outputs_total-cons) (omega int_laws, q)
  | inr free ↦ elim (Bool-cases (leb_ℤ target collected)) [
    | inl reached ↦ simp (free, reached) (refl, λ h. h)
    | inr short ↦
        let (p, q) = take_from_total min (target -ℤ collected) o in
        let (r, s) =
          deduct_total min target os (collected +ℤ (take_from min (target -ℤ collected) o).1) in
        simp (free, short, outputs_total-cons, outputs_total-append)
          (omega int_laws, λ h. s (omega int_laws))
  ]
]
