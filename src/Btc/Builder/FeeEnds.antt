-- ===== src/Btc/Builder/FeeEnds.antt =====
-- build.ts: the rounds of `payFee`.
use rgbpp_sdk.Common.{ℕ, ◌*◌, String, ◌≡◌}
use rgbpp_sdk.Common.Int.{ℤ}
use rgbpp_sdk.Btc.Error.{ok}
use rgbpp_sdk.Btc.Types.{TxMeasure, World, TxBuilder}
use rgbpp_sdk.Btc.Builder.Fee.{FeeProps, virtual_size, fee_round}

module _ (w : World) where
  -- The fee of a transaction of the given size, for the rate given.
  fee_of : TxMeasure → ℕ → ℕ
  fee_of m rate = virtual_size m * rate

  -- Each round that starts with the inputs and outputs of the builder ends with a transaction of one
  -- size, whichever the fee of the previous round was and whatever was cached.
  abbrev pub SameSize : ℕ → FeeProps → String → TxBuilder → TxMeasure → Type 0
  SameSize depth p key b m =
      (previous : ℕ) (c : TxBuilder) (r : TxBuilder × ℤ)
      → c.inputs ≡ b.inputs
      → c.outputs ≡ b.outputs
      → fee_round w depth p key previous c ≡ ok r
      → w.measure r.0.inputs r.0.outputs ≡ m
