-- ===== src/Btc/Builder/Added.antt =====
-- What `addInputs` and `addOutputs` leave in the builder.
use mathlib.Core.List.{append_assoc, append-nil}
use rgbpp_sdk.Common.{
  false, List, [], ◌∷◌, ◌++◌, map, ◌≡◌, refl, ◌∙◌, sym, ap, subst, or_else, All, Bool-cases,
  Option-cases, inl, inr,
}
use rgbpp_sdk.Btc.Error.{ok, >>=-eq-ok}
use rgbpp_sdk.Btc.Types.{Utxo, TxInput, to_script, TxOutput, InitOutput, World, TxBuilder}
use rgbpp_sdk.Btc.Utxos.{utxo_to_input-utxo}
use rgbpp_sdk.Btc.Builder.Outputs.{
  add_input, add_inputs, output_target, push_output, is_dust, add_output, add_outputs,
}
use rgbpp_sdk.Btc.Builder.Kept.{add_input-eq-ok}
use rgbpp_sdk.Btc.Builder.NoDust.{AtLimit}

module _ (w : World) where
  -- The inputs added, in order.
  pub record AddedInputs (us : List Utxo) (b b' : TxBuilder) : Type 0 where
    pub news : List TxInput
    pub inputs : b'.inputs ≡ b.inputs ++ news
    pub utxos : map (λ i. i.utxo) news ≡ us
    pub outputs : b'.outputs ≡ b.outputs
    pub limit : b'.min_utxo_satoshi ≡ b.min_utxo_satoshi

  pub add_inputs-AddedInputs :
      (us : List Utxo) (b : TxBuilder) {b' : TxBuilder}
      → add_inputs w us b ≡ ok b'
      → AddedInputs us b b'
  unfolding add_inputs
  add_inputs-AddedInputs [] b {b'} h =
      let same : b ≡ b' = cc h in
      subst (AddedInputs [] b) same (record {
        news = [];
        inputs = sym (append-nil _);
        utxos = refl;
        outputs = refl;
        limit = refl;
      })
  add_inputs-AddedInputs (u ∷ us) b h =
      let (c, e, k) = >>=-eq-ok (add_input w u b) (add_inputs w us) h in
      let (i, made, _, same) = add_input-eq-ok w u b e in
      let a = add_inputs-AddedInputs us c k in
      record {
        news = i ∷ a.news;
        inputs =
            a.inputs
            ∙ ap (λ d. d.inputs ++ a.news) (sym same)
            ∙ append_assoc b.inputs (i ∷ []) a.news;
        utxos = rw ((utxo_to_input-utxo w u made).0, a.utxos) refl;
        outputs = a.outputs ∙ ap (λ d. d.outputs) (sym same);
        limit = a.limit ∙ ap (λ d. d.min_utxo_satoshi) (sym same);
      }

  -- The output that is added for the one given.
  abbrev pub made_of : InitOutput → TxOutput
  made_of o = record {
    target = or_else (output_target w o.target) (to_script []);
    value = o.value;
    fixed = o.fixed;
    protected = o.protected;
    min_utxo_satoshi = o.min_utxo_satoshi;
  }

  push_output-eq-ok :
      (o : TxOutput) (b : TxBuilder) {b' : TxBuilder}
      → push_output w o b ≡ ok b'
      → (is_dust w b.min_utxo_satoshi o ≡ false)
        × (record b { outputs = b.outputs ++ (o ∷ []) } ≡ b')
  unfolding push_output
  push_output-eq-ok o b h = elim (Bool-cases (is_dust w b.min_utxo_satoshi o)) [
    | inl dust ↦ cc (rw dust at h)
    | inr fine ↦ (fine, cc (rw fine at h))
  ]

  add_output-made_of :
      (o : InitOutput) (b : TxBuilder) {b' : TxBuilder}
      → add_output w o b ≡ ok b'
      → (is_dust w b.min_utxo_satoshi (made_of o) ≡ false)
        × (record b { outputs = b.outputs ++ (made_of o ∷ []) } ≡ b')
  unfolding add_output
  add_output-made_of o b h = elim (Option-cases (output_target w o.target)) [
    | inl unknown ↦ cc (rw (unknown, add_output) at h)
    | inr (t, known) ↦
        let pushed = rw (known, add_output) at h in
        let same : made_of o ≡ record {
          target = t;
          value = o.value;
          fixed = o.fixed;
          protected = o.protected;
          min_utxo_satoshi = o.min_utxo_satoshi;
        } =
          rw known refl in
        rw same (push_output-eq-ok _ b pushed)
  ]

  -- The outputs added, in order, and at their limits.
  pub record AddedOutputs (os : List InitOutput) (b b' : TxBuilder) : Type 0 where
    pub outputs : b'.outputs ≡ b.outputs ++ map made_of os
    pub inputs : b'.inputs ≡ b.inputs
    pub limit : b'.min_utxo_satoshi ≡ b.min_utxo_satoshi
    pub clean : All (AtLimit w b.min_utxo_satoshi) (map made_of os)

  pub add_outputs-AddedOutputs :
      (os : List InitOutput) (b : TxBuilder) {b' : TxBuilder}
      → add_outputs w os b ≡ ok b'
      → AddedOutputs os b b'
  unfolding add_outputs
  add_outputs-AddedOutputs [] b {b'} h =
      let same : b ≡ b' = cc h in
      subst (AddedOutputs [] b) same
        (record { outputs = sym (append-nil _); inputs = refl; limit = refl; clean = tt })
  add_outputs-AddedOutputs (o ∷ os) b h =
      let (c, e, k) = >>=-eq-ok (add_output w o b) (add_outputs w os) h in
      let (fine, same) = add_output-made_of o b e in
      let a = add_outputs-AddedOutputs os c k in
      let limit : c.min_utxo_satoshi ≡ b.min_utxo_satoshi =
        ap (λ d. d.min_utxo_satoshi) (sym same) in
      record {
        outputs =
            a.outputs
            ∙ ap (λ d. d.outputs ++ map made_of os) (sym same)
            ∙ append_assoc b.outputs (made_of o ∷ []) (map made_of os);
        inputs = a.inputs ∙ ap (λ d. d.inputs) (sym same);
        limit = a.limit ∙ limit;
        clean = (fine, subst (λ m. All (AtLimit w m) (map made_of os)) limit a.clean);
      }
