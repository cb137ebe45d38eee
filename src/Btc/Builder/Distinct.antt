-- ===== src/Btc/Builder/Distinct.antt =====
-- build.ts: the outpoints of the builder's inputs.
use rgbpp_sdk.Common.{
  ℕ, String, Bool, false, List, [], ◌∷◌, ◌++◌, ◌≡◌, refl, arith, sym, subst, ap, ◌∙◌, any, str_eq,
  eq_iff, ◌==◌, Bool-cases, inl, inr, ◌&&◌,
}
use rgbpp_sdk.Btc.Types.{TxInput, World, TxBuilder}
use rgbpp_sdk.Btc.Utxos.{utxo_to_input-utxo}
use rgbpp_sdk.Btc.Builder.Outputs.{is_input_of, has_input}
use rgbpp_sdk.Btc.Builder.Steps.{
  Step, Steps, here, next, deducts, asks, adds_input, returns, adds_change,
}
use rgbpp_sdk.Btc.Builder.Kept.{add_input-eq-ok, add_output-eq-ok}

-- The input's outpoint is not among the others'.
abbrev IsNew : TxInput → List TxInput → Type 0
IsNew i is = any (is_input_of i.inputs_data.hash i.inputs_data.index) is ≡ false

abbrev pub AreDistinct : List TxInput → Type 0
AreDistinct [] = Unit
AreDistinct (i ∷ is) = IsNew i is × AreDistinct is

str_eq_symm : (a b : String) → str_eq a b ≡ str_eq b a
str_eq_symm a b = elim (Bool-cases (str_eq a b)) [
  | inl same ↦ same ∙ sym ((eq_iff b a).1 (sym ((eq_iff a b).0 same)))
  | inr apart ↦ elim (Bool-cases (str_eq b a)) [
    | inl same ↦ cc ((eq_iff a b).1 (sym ((eq_iff b a).0 same)))
    | inr apart' ↦ apart ∙ sym apart'
  ]
]

eqb_symm : (m n : ℕ) → (m == n) ≡ (n == m)
eqb_symm m n = ground arith

is_input_of_symm :
    (i j : TxInput)
    → is_input_of i.inputs_data.hash i.inputs_data.index j
      ≡ is_input_of j.inputs_data.hash j.inputs_data.index i
unfolding is_input_of
is_input_of_symm i j =
    ap (λ t. t && (j.inputs_data.index == i.inputs_data.index))
      (str_eq_symm j.inputs_data.hash i.inputs_data.hash)
    ∙ ap (λ t. str_eq i.inputs_data.hash j.inputs_data.hash && t)
        (eqb_symm j.inputs_data.index i.inputs_data.index)

any-snoc-eq-false :
    (p : TxInput → Bool) (is : List TxInput) (j : TxInput)
    → any p is ≡ false
    → p j ≡ false
    → any p (is ++ (j ∷ [])) ≡ false
any-snoc-eq-false p [] j h k = simp k
any-snoc-eq-false p (i ∷ is) j h k = elim (Bool-cases (p i)) [
  | inl holds ↦ cc (rw holds at h)
  | inr fails ↦ simp (fails, any-snoc-eq-false p is j (rw fails at h) k)
]

snoc-AreDistinct :
    (is : List TxInput) (j : TxInput) → IsNew j is → AreDistinct is → AreDistinct (is ++ (j ∷ []))
snoc-AreDistinct [] j h d = (refl, tt)
snoc-AreDistinct (i ∷ is) j h (n, d) =
    elim (Bool-cases (is_input_of j.inputs_data.hash j.inputs_data.index i)) [
      | inl holds ↦ cc (rw holds at h)
      | inr fails ↦ (
        any-snoc-eq-false _ is j n (is_input_of_symm i j ∙ fails),
        snoc-AreDistinct is j (rw fails at h) d,
      )
    ]

module _ (w : World) where
  Step-AreDistinct : {b b' : TxBuilder} → Step w b b' → AreDistinct b.inputs → AreDistinct b'.inputs
  unfolding has_input
  Step-AreDistinct (deducts target) h = h
  Step-AreDistinct (asks source) h = h
  Step-AreDistinct {b} (adds_input u e) h =
      let (i, made, lacks, same) = add_input-eq-ok w u b e in
      let (_, hash, index) = utxo_to_input-utxo w u made in
      subst (λ c. AreDistinct c.inputs) same
        (snoc-AreDistinct b.inputs i (rw (hash, index) lacks) h)
  Step-AreDistinct (returns address amount os i more e) h = h
  Step-AreDistinct {b} (adds_change address amount e) h =
      let (o, _, fine, same) = add_output-eq-ok w address amount b e in
      subst (λ c. AreDistinct c.inputs) same h

  pub Steps-AreDistinct :
      {b b' : TxBuilder} → Steps w b b' → AreDistinct b.inputs → AreDistinct b'.inputs
  Steps-AreDistinct here h = h
  Steps-AreDistinct (next r s) h = Step-AreDistinct s (Steps-AreDistinct r h)
