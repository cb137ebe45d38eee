-- ===== src/Btc/Builder/NoDust.antt =====
-- build.ts: the limits of the builder's outputs.
use rgbpp_sdk.Common.{
  Bool, true, false, List, [], ◌∷◌, ◌++◌, ◌≡◌, refl, or_else, sym, subst, All, All-append,
  Bool-cases, inl, inr, not, ◌&&◌, if◌then◌else◌,
}
use rgbpp_sdk.Common.Int.{ℤ, pos, ◌+ℤ◌, ◌-ℤ◌, ◌≤ℤ◌, int_laws, ltb_ℤ, leb_ℤ, eqb_ℤ}
use rgbpp_sdk.Btc.Types.{TxOutput, World, TxBuilder}
use rgbpp_sdk.Btc.Builder.Outputs.{is_dust, is_op_return_target}
use rgbpp_sdk.Btc.Builder.Deduct.{collect_amount, take_from, deduct}
use rgbpp_sdk.Btc.Builder.Steps.{
  Step, Steps, here, next, deducts, asks, adds_input, returns, adds_change,
}
use rgbpp_sdk.Btc.Builder.Kept.{return_to-Place, add_input-eq-ok, add_output-eq-ok}

-- What is left when an amount is taken from a value that is at its limit.
left_enough :
    (protected : Bool) (value limit remain : ℤ)
    → ltb_ℤ value limit ≡ false
    → leb_ℤ remain (pos 0) ≡ false
    → not protected
        && eqb_ℤ (value -ℤ collect_amount protected value (value -ℤ limit) remain) (pos 0)
      ≡ false
    → ltb_ℤ (value -ℤ collect_amount protected value (value -ℤ limit) remain) limit ≡ false
unfolding collect_amount
left_enough true value limit remain enough some_more _ = grind int_laws
left_enough false value limit remain enough some_more rest = grind int_laws

module _ (w : World) (min : ℤ) where
  abbrev pub AtLimit : TxOutput → Type 0
  AtLimit o = is_dust w min o ≡ false

  -- With another value, if that is not less than the limit or what it was.
  with_value :
      (o : TxOutput) (value : ℤ)
      → AtLimit o
      → (ltb_ℤ o.value (or_else o.min_utxo_satoshi min) ≡ false
          → ltb_ℤ value (or_else o.min_utxo_satoshi min) ≡ false)
      → AtLimit (record o { value = value })
  unfolding is_dust
  with_value o value h k = elim (Bool-cases (is_op_return_target w o.target)) [
    | inl embeds ↦ simp embeds
    | inr pays ↦ simp (pays, k (rw pays at h))
  ]

  gone_or_left :
      (gone : Bool) (o : TxOutput)
      → (gone ≡ false → AtLimit o)
      → All AtLimit (if gone then [] else (o ∷ []))
  gone_or_left true o h = tt
  gone_or_left false o h = (h refl, tt)

  take_from-AtLimit :
      (remain : ℤ) (o : TxOutput)
      → leb_ℤ remain (pos 0) ≡ false
      → AtLimit o
      → All AtLimit (take_from min remain o).0
  unfolding take_from
  take_from-AtLimit remain o some_more h =
      gone_or_left _ (record o { value = _ })
        (λ stays. with_value o _ h (λ enough.
          left_enough o.protected o.value (or_else o.min_utxo_satoshi min) remain enough some_more
            stays))

  deduct-AtLimit :
      (target : ℤ) (os : List TxOutput) (collected : ℤ)
      → All AtLimit os
      → All AtLimit (deduct min target os collected).0
  unfolding deduct
  deduct-AtLimit target [] collected h = tt
  deduct-AtLimit target (o ∷ os) collected (h, hs) = elim (Bool-cases o.fixed) [
    | inl fixed ↦ simp fixed (h, deduct-AtLimit target os collected hs)
    | inr free ↦ elim (Bool-cases (leb_ℤ target collected)) [
      | inl done ↦ simp (free, done) (h, hs)
      | inr more ↦
          let some_more : leb_ℤ (target -ℤ collected) (pos 0) ≡ false = grind int_laws in
          simp (free, more)
            (All-append AtLimit _ _ (take_from-AtLimit (target -ℤ collected) o some_more h) (
              deduct-AtLimit target os (collected +ℤ (take_from min (target -ℤ collected) o).1) hs))
    ]
  ]

  grown_between :
      (amount : ℤ) (before : List TxOutput) (o : TxOutput) (after : List TxOutput)
      → pos 1 ≤ℤ amount
      → All AtLimit (before ++ (o ∷ after))
      → All AtLimit (before ++ (record o { value = o.value +ℤ amount } ∷ after))
  grown_between amount [] o after more (h, hs) =
      (with_value o (o.value +ℤ amount) h (λ enough. grind int_laws), hs)
  grown_between amount (b ∷ before) o after more (h, hs) =
      (h, grown_between amount before o after more hs)

-- Every output is at its limit: its own, or that of the builder.
abbrev pub IsClean : World → TxBuilder → Type 0
IsClean w b = All (AtLimit w b.min_utxo_satoshi) b.outputs

module _ (w : World) where
  Step-IsClean : {b b' : TxBuilder} → Step w b b' → IsClean w b → IsClean w b'
  Step-IsClean {b} (deducts target) h =
      deduct-AtLimit w b.min_utxo_satoshi target b.outputs (pos 0) h
  Step-IsClean (asks source) h = h
  Step-IsClean {b} (adds_input u e) h =
      let (i, _, _, same) = add_input-eq-ok w u b e in subst (IsClean w) same h
  Step-IsClean {b} (returns address amount os i more e) h =
      let p = return_to-Place address amount b.outputs 0 e in
      let AtLimit' = AtLimit w b.min_utxo_satoshi in
      subst (All AtLimit') (sym p.is) (
        grown_between w b.min_utxo_satoshi amount p.before p.output p.after more
          (subst (All AtLimit') p.was h))
  Step-IsClean {b} (adds_change address amount e) h =
      let (o, _, fine, same) = add_output-eq-ok w address amount b e in
      subst (IsClean w) same
        (All-append (AtLimit w b.min_utxo_satoshi) b.outputs (o ∷ []) h (fine, tt))

  pub Steps-IsClean : {b b' : TxBuilder} → Steps w b b' → IsClean w b → IsClean w b'
  Steps-IsClean here h = h
  Steps-IsClean (next r s) h = Step-IsClean s (Steps-IsClean r h)
