-- ===== src/Rgbpp/Summary/Amounts.antt =====
-- packages/rgbpp/src/rgbpp/summary/asset-summarizer.ts: the entries of a record of assets.
use rgbpp_sdk.Ckb.Scripts.{hex_eq}
use rgbpp_sdk.Ckb.Types.{Hex}
use rgbpp_sdk.Common.{
  ◌||◌, ◌&&◌, Bool-cases, inl, inr, ==_iff, ap, ◌∙◌, ◌==◌, Bool, [], arith, false, if◌then◌else◌,
  refl, true, ℕ, ◌+◌, ◌∷◌, ◌≡◌,
}
use rgbpp_sdk.Rgbpp.Summary.{XudtAssetSummary, XudtAssets, upsert}

-- The amount that is recorded under the arguments of a type.
abbrev pub amount_under : Hex → XudtAssets → ℕ
amount_under args [] = 0
amount_under args ((k, a) ∷ rest) = if hex_eq args k then a.amount else amount_under args rest

abbrev pub has_args : Hex → XudtAssets → Bool
has_args args [] = false
has_args args ((k, a) ∷ rest) = hex_eq args k || has_args args rest

-- No arguments have two entries.
abbrev pub IsRecord : XudtAssets → Type 0
IsRecord [] = Unit
IsRecord ((k, a) ∷ rest) = (has_args k rest ≡ false) × IsRecord rest

both : (p q : Bool) → (p && q) ≡ true → (p ≡ true) × (q ≡ true)
both true true h = (refl, refl)
both true false h = cc
both false q h = cc

pub hex_eq-eq : (a b : Hex) → hex_eq a b ≡ true → a ≡ b
unfolding hex_eq
hex_eq-eq [] [] h = refl
hex_eq-eq [] (y ∷ ys) h = cc
hex_eq-eq (x ∷ xs) [] h = cc
hex_eq-eq (x ∷ xs) (y ∷ ys) h =
    let (first, rest) = both (x == y) (hex_eq xs ys) h in
    let e = (==_iff x y).0 first in let es = hex_eq-eq xs ys rest in cc

pub hex_eq_refl : (a : Hex) → hex_eq a a ≡ true
unfolding hex_eq
hex_eq_refl [] = refl
hex_eq_refl (x ∷ xs) = let rest = hex_eq_refl xs in ground (arith, rest)

hex_eq_sym : (a b : Hex) → hex_eq a b ≡ hex_eq b a
unfolding hex_eq
hex_eq_sym [] [] = refl
hex_eq_sym [] (y ∷ ys) = refl
hex_eq_sym (x ∷ xs) [] = refl
hex_eq_sym (x ∷ xs) (y ∷ ys) = let rest = hex_eq_sym xs ys in ground (arith, rest)

-- Arguments that equal one of two that differ do not equal the other.
pub apart :
    (key k args : Hex) → hex_eq key k ≡ false → hex_eq args k ≡ true → hex_eq args key ≡ false
apart key k args other here = elim (Bool-cases (hex_eq args key)) [
  | inl same ↦ let e = hex_eq-eq args key same in absurd (cc (other, e))
  | inr differ ↦ differ
]

abbrev pub share : Hex → Hex → ℕ → ℕ
share args key v = if hex_eq args key then v else 0

pub no_amount : (args : Hex) (m : XudtAssets) → has_args args m ≡ false → amount_under args m ≡ 0
no_amount args [] h = refl
no_amount args ((k, a) ∷ rest) h = elim (Bool-cases (hex_eq args k)) [
  | inl same ↦ cc (rw same at h)
  | inr other ↦ rw other (no_amount args rest (rw other at h))
]

module _ (key : Hex) (new : XudtAssetSummary) (f : XudtAssetSummary → XudtAssetSummary) (v : ℕ)
    (starts : new.amount ≡ 0) (adds : (a : XudtAssetSummary) → (f a).amount ≡ a.amount + v) where
  pub upsert-amount :
      (args : Hex) (m : XudtAssets)
      → amount_under args (upsert key new f m) ≡ amount_under args m + share args key v
  unfolding upsert
  upsert-amount args [] = elim (Bool-cases (hex_eq args key)) [
    | inl same ↦ rw same (adds new ∙ ap (λ n. n + v) starts)
    | inr other ↦ rw other refl
  ]
  upsert-amount args ((k, a) ∷ rest) = elim (Bool-cases (hex_eq key k)) [
    | inl same ↦
        let e = ap (hex_eq args) (hex_eq-eq key k same) in
        elim (Bool-cases (hex_eq args k)) [
          | inl here ↦ rw (same, here, e ∙ here) (adds a)
          | inr there ↦ rw (same, there, e ∙ there) (omega arith)
        ]
    | inr other ↦ elim (Bool-cases (hex_eq args k)) [
      | inl here ↦ rw (other, here, apart key k args other here) (omega arith)
      | inr there ↦ rw (other, there) (upsert-amount args rest)
    ]
  ]

pub has_args-upsert :
    (key : Hex) (new : XudtAssetSummary) (f : XudtAssetSummary → XudtAssetSummary) (args : Hex)
    (m : XudtAssets)
    → has_args args (upsert key new f m) ≡ (has_args args m || hex_eq args key)
unfolding upsert
has_args-upsert key new f args [] = ground arith
has_args-upsert key new f args ((k, a) ∷ rest) =
    let ih = has_args-upsert key new f args rest in
    elim (Bool-cases (hex_eq key k)) [
      | inl same ↦ let e = ap (hex_eq args) (hex_eq-eq key k same) in rw (same, e) (ground arith)
      | inr other ↦ rw (other, ih) (ground arith)
    ]

pub upsert-IsRecord :
    (key : Hex) (new : XudtAssetSummary) (f : XudtAssetSummary → XudtAssetSummary) (m : XudtAssets)
    → IsRecord m
    → IsRecord (upsert key new f m)
unfolding upsert
upsert-IsRecord key new f [] h = (refl, tt)
upsert-IsRecord key new f ((k, a) ∷ rest) (fresh, h) = elim (Bool-cases (hex_eq key k)) [
  | inl same ↦ rw same (fresh, h)
  | inr other ↦
      let old = has_args-upsert key new f k rest in
      let turned = hex_eq_sym k key in
      rw other (ground (arith, old, turned, fresh, other), upsert-IsRecord key new f rest h)
]
