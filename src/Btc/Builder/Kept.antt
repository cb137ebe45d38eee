-- ===== src/Btc/Builder/Kept.antt =====
-- What the steps of the builder keep: the limit, the inputs that are there, the fixed outputs, and
-- outputs that are no dust.
use mathlib.Core.List.{append_assoc, append-nil}
use rgbpp_sdk.Common.{
  ℕ, suc, String, Bool, true, false, none, some, List, [], ◌∷◌, ◌++◌, ◌≡◌, refl, ◌∙◌, arith, ap,
  sym, keep, Bool-cases, Option-cases, inl, inr, not, ◌&&◌, if◌then◌else◌,
}
use rgbpp_sdk.Common.Int.{ℤ, pos, ◌+ℤ◌, ◌-ℤ◌, leb_ℤ}
use rgbpp_sdk.Btc.Error.{ok, >>=-eq-ok}
use rgbpp_sdk.Btc.Types.{Utxo, to_address, TxInput, TxOutput, World, TxBuilder}
use rgbpp_sdk.Btc.Utxos.{utxo_to_input}
use rgbpp_sdk.Btc.Builder.Outputs.{
  add_input, has_input, add_output, output_target, push_output, is_dust,
}
use rgbpp_sdk.Btc.Builder.Deduct.{take_from, deduct}
use rgbpp_sdk.Btc.Builder.Inject.{goes_to, return_to, change_output}
use rgbpp_sdk.Btc.Builder.Steps.{
  Step, Steps, here, next, deducts, asks, adds_input, returns, adds_change,
}

abbrev pub fixed_outputs : List TxOutput → List TxOutput
fixed_outputs = keep (λ o. o.fixed)

fixed_outputs-append :
    (os ps : List TxOutput) → fixed_outputs (os ++ ps) ≡ fixed_outputs os ++ fixed_outputs ps
fixed_outputs-append [] ps = refl
fixed_outputs-append (o ∷ os) ps = elim (Bool-cases o.fixed) [
  | inl is ↦ simp (is, fixed_outputs-append os ps)
  | inr free ↦ simp (free, fixed_outputs-append os ps)
]

gone_or_free :
    (gone : Bool) (o : TxOutput)
    → o.fixed ≡ false
    → fixed_outputs (if gone then [] else (o ∷ [])) ≡ []
gone_or_free true o h = refl
gone_or_free false o h = simp h

fixed_outputs-snoc :
    (os : List TxOutput) (o : TxOutput)
    → o.fixed ≡ false
    → fixed_outputs (os ++ (o ∷ [])) ≡ fixed_outputs os
fixed_outputs-snoc [] o h = simp h
fixed_outputs-snoc (p ∷ os) o h = elim (Bool-cases p.fixed) [
  | inl fixed ↦ simp (fixed, fixed_outputs-snoc os o h)
  | inr free ↦ simp (free, fixed_outputs-snoc os o h)
]

take_from-fixed :
    (min remain : ℤ) (o : TxOutput)
    → o.fixed ≡ false
    → fixed_outputs (take_from min remain o).0 ≡ []
unfolding take_from
take_from-fixed min remain o h = gone_or_free _ (record o { value = _ }) h

deduct-fixed :
    (min target : ℤ) (os : List TxOutput) (collected : ℤ)
    → fixed_outputs (deduct min target os collected).0 ≡ fixed_outputs os
unfolding deduct
deduct-fixed min target [] collected = refl
deduct-fixed min target (o ∷ os) collected = elim (Bool-cases o.fixed) [
  | inl fixed ↦ simp (fixed, deduct-fixed min target os collected)
  | inr free ↦ elim (Bool-cases (leb_ℤ target collected)) [
    | inl done ↦ simp (free, done)
    | inr more ↦ simp (
      free,
      more,
      fixed_outputs-append,
      take_from-fixed min (target -ℤ collected) o free,
      deduct-fixed min target os,
    )
  ]
]

-- The output that the change goes to, between the others.
pub record Place (amount : ℤ) (os os' : List TxOutput) : Type 0 where
  pub before : List TxOutput
  pub output : TxOutput
  pub after : List TxOutput
  pub free : output.fixed ≡ false
  pub was : os ≡ before ++ (output ∷ after)
  pub is : os' ≡ before ++ (record output { value = output.value +ℤ amount } ∷ after)

pub return_to-Place :
    (address : String) (amount : ℤ) (os : List TxOutput) (i : ℕ) {os' : List TxOutput} {j : ℕ}
    → return_to address amount os i ≡ some (os', j)
    → Place amount os os'
unfolding return_to
return_to-Place address amount [] i h = cc
return_to-Place address amount (o ∷ os) i {os'} h =
    elim (Bool-cases (not o.fixed && goes_to address o.target)) [
      | inl found ↦
          let free : o.fixed ≡ false = ground (arith, found) in
          let is : record o { value = o.value +ℤ amount } ∷ os ≡ os' =
            cc (rw (found, return_to) at h) in
          record { before = []; output = o; after = os; free = free; was = refl; is = sym is }
      | inr later ↦ elim (Option-cases (return_to address amount os (suc i))) [
        | inl nowhere ↦ cc (rw (later, nowhere, return_to) at h)
        | inr ((ps, k), found) ↦
            let p = return_to-Place address amount os (suc i) found in
            let is : o ∷ ps ≡ os' = cc (rw (later, found, return_to) at h) in
            record {
              before = o ∷ p.before;
              output = p.output;
              after = p.after;
              free = p.free;
              was = ap (λ xs. o ∷ xs) p.was;
              is = sym is ∙ ap (λ xs. o ∷ xs) p.is;
            }
      ]
    ]

fixed_between :
    (before : List TxOutput) (o o' : TxOutput) (after : List TxOutput)
    → o.fixed ≡ false
    → o'.fixed ≡ false
    → fixed_outputs (before ++ (o ∷ after)) ≡ fixed_outputs (before ++ (o' ∷ after))
fixed_between [] o o' after h h' = simp (h, h')
fixed_between (b ∷ before) o o' after h h' = elim (Bool-cases b.fixed) [
  | inl fixed ↦ simp (fixed, fixed_between before o o' after h h')
  | inr free ↦ simp (free, fixed_between before o o' after h h')
]

Place-fixed :
    {amount : ℤ} {os os' : List TxOutput}
    → Place amount os os'
    → fixed_outputs os' ≡ fixed_outputs os
Place-fixed p =
    ap fixed_outputs p.is
    ∙ fixed_between p.before (record p.output { value = _ }) p.output p.after p.free p.free
    ∙ sym (ap fixed_outputs p.was)

module _ (w : World) where
  pub add_input-eq-ok :
      (u : Utxo) (b : TxBuilder) {b' : TxBuilder}
      → add_input w u b ≡ ok b'
      → (i : TxInput) × (utxo_to_input w u ≡ ok i)
        × (has_input u.txid u.vout b ≡ false)
        × (record b { inputs = b.inputs ++ (i ∷ []) } ≡ b')
  unfolding add_input
  add_input-eq-ok u b h = elim (Bool-cases (has_input u.txid u.vout b)) [
    | inl has ↦ cc (rw has at h)
    | inr lacks ↦
        let (i, e, k) = >>=-eq-ok (utxo_to_input w u) _ (rw lacks at h) in (i, e, lacks, cc k)
  ]

  pub add_output-eq-ok :
      (address : String) (amount : ℤ) (b : TxBuilder) {b' : TxBuilder}
      → add_output w (change_output address amount) b ≡ ok b'
      → (o : TxOutput) × (o.fixed ≡ false)
        × (is_dust w b.min_utxo_satoshi o ≡ false)
        × (record b { outputs = b.outputs ++ (o ∷ []) } ≡ b')
  unfolding add_output output_target push_output
  add_output-eq-ok address amount b h =
      let o : TxOutput = record {
        target = to_address address;
        value = amount;
        fixed = false;
        protected = false;
        min_utxo_satoshi = none;
      } in
      elim (Bool-cases (is_dust w b.min_utxo_satoshi o)) [
        | inl dust ↦ cc (rw dust at h)
        | inr fine ↦ (o, refl, fine, cc (rw fine at h))
      ]

  -- What a step keeps.
  pub record Kept (b b' : TxBuilder) : Type 0 where
    pub news : List TxInput
    pub inputs : b'.inputs ≡ b.inputs ++ news
    pub fixed : fixed_outputs b'.outputs ≡ fixed_outputs b.outputs
    pub limit : b'.min_utxo_satoshi ≡ b.min_utxo_satoshi

  Step-Kept : {b b' : TxBuilder} → Step w b b' → Kept b b'
  Step-Kept {b} (deducts target) = record {
    news = [];
    inputs = sym (append-nil _);
    fixed = deduct-fixed b.min_utxo_satoshi target b.outputs (pos 0);
    limit = refl;
  }
  Step-Kept (asks source) = record {
    news = [];
    inputs = sym (append-nil _);
    fixed = refl;
    limit = refl;
  }
  Step-Kept {b} (adds_input u h) =
      let (i, _, _, same) = add_input-eq-ok u b h in
      record {
        news = i ∷ [];
        inputs = sym (ap (λ c. c.inputs) same);
        fixed = sym (ap (λ c. fixed_outputs c.outputs) same);
        limit = sym (ap (λ c. c.min_utxo_satoshi) same);
      }
  Step-Kept {b} (returns address amount os i _ h) = record {
    news = [];
    inputs = sym (append-nil _);
    fixed = Place-fixed (return_to-Place address amount b.outputs 0 h);
    limit = refl;
  }
  Step-Kept {b} (adds_change address amount h) =
      let (o, free, _, same) = add_output-eq-ok address amount b h in
      record {
        news = [];
        inputs = sym (ap (λ c. c.inputs) same) ∙ sym (append-nil _);
        fixed = sym (ap (λ c. fixed_outputs c.outputs) same) ∙ fixed_outputs-snoc b.outputs o free;
        limit = sym (ap (λ c. c.min_utxo_satoshi) same);
      }

  Kept-trans : {b c d : TxBuilder} → Kept b c → Kept c d → Kept b d
  Kept-trans k l = record {
    news = k.news ++ l.news;
    inputs = l.inputs ∙ ap (λ is. is ++ l.news) k.inputs ∙ append_assoc _ k.news l.news;
    fixed = l.fixed ∙ k.fixed;
    limit = l.limit ∙ k.limit;
  }

  pub Steps-Kept : {b b' : TxBuilder} → Steps w b b' → Kept b b'
  Steps-Kept here = record { news = []; inputs = sym (append-nil _); fixed = refl; limit = refl }
  Steps-Kept (next r s) = Kept-trans (Steps-Kept r) (Step-Kept s)
