-- ===== src/Ckb/Bound.antt =====
-- How outputs of a virtual transaction are bound to those of the Bitcoin transaction.
use rgbpp_sdk.Ckb.Scripts.{build_pre_lock_args, gen_rgbpp_lock_script}
use rgbpp_sdk.Ckb.Types.{BtcTestnetType, CellOutput, Hex}
use rgbpp_sdk.Common.{Bool, List, [], arith, length, map, subst, suc, ℕ, ◌++◌, ◌+◌, ◌∷◌, ◌≡◌}

-- Each output has the RGB++ lock that is bound to the Bitcoin output of its position, from the given
-- one on.
abbrev pub BoundFrom : Bool → BtcTestnetType → ℕ → List CellOutput → Type 0
BoundFrom is_mainnet net vout [] = Unit
BoundFrom is_mainnet net vout (o ∷ os) =
    (o.lock ≡ gen_rgbpp_lock_script (build_pre_lock_args vout) is_mainnet net)
    × BoundFrom is_mainnet net (suc vout) os

abbrev pub outputs_of : List (CellOutput × Hex) → List CellOutput
outputs_of os = map (λ o. o.0) os

module _ (is_mainnet : Bool) (net : BtcTestnetType) where
  pub BoundFrom-append :
      (vout : ℕ) (os ps : List CellOutput)
      → BoundFrom is_mainnet net vout os
      → BoundFrom is_mainnet net (vout + length os) ps
      → BoundFrom is_mainnet net vout (os ++ ps)
  BoundFrom-append vout [] ps h k = subst (λ n. BoundFrom is_mainnet net n ps) (omega arith) k
  BoundFrom-append vout (o ∷ os) ps (bound, h) k = (
    bound,
    BoundFrom-append (suc vout) os ps h
        (subst (λ n. BoundFrom is_mainnet net n ps) (omega arith) k),
  )
