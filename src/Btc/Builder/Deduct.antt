-- ===== src/Btc/Builder/Deduct.antt =====
-- build.ts, `injectSatoshi`, step 1: satoshi are deducted from the outputs that are not fixed.
use rgbpp_sdk.Common.{Bool, true, false, not, ◌&&◌, List, [], ◌∷◌, ◌++◌, if◌then◌else◌, or_else}
use rgbpp_sdk.Common.Int.{ℤ, pos, ◌+ℤ◌, ◌-ℤ◌, ltb_ℤ, leb_ℤ, eqb_ℤ, min_ℤ}
use rgbpp_sdk.Btc.Types.{TxOutput}

-- What is taken from an output, when `remain` is still wanted and `free` can go without harm.
unfoldable pub collect_amount : Bool → ℤ → ℤ → ℤ → ℤ
collect_amount true value free remain = min_ℤ free remain
collect_amount false value free remain = if ltb_ℤ remain value then min_ℤ free remain else value

-- One round: what stands in the output's place, and the amount taken from it.
unfoldable pub take_from : ℤ → ℤ → TxOutput → List TxOutput × ℤ
take_from min remain o =
    let taken =
      collect_amount o.protected o.value (o.value -ℤ or_else o.min_utxo_satoshi min) remain in
    let left = o.value -ℤ taken in
    (if not o.protected && eqb_ℤ left (pos 0) then [] else record o { value = left } ∷ [], taken)

-- The loop over the outputs: fixed ones are passed over, and it breaks when the target is reached.
unfoldable pub deduct : ℤ → ℤ → List TxOutput → ℤ → List TxOutput × ℤ
deduct min target [] collected = ([], collected)
deduct min target (o ∷ os) collected = elim o.fixed [
  | true ↦ let (os', c) = deduct min target os collected in (o ∷ os', c)
  | false ↦ elim (leb_ℤ target collected) [
    | true ↦ (o ∷ os, collected)
    | false ↦
        let (kept, taken) = take_from min (target -ℤ collected) o in
        let (os', c) = deduct min target os (collected +ℤ taken) in (kept ++ os', c)
  ]
]
