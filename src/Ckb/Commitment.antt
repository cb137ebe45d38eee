-- ===== src/Ckb/Commitment.antt =====
-- packages/ckb/src/utils/rgbpp.ts: the capacity check of the outputs and `calculateCommitment`.
use rgbpp_sdk.Common.{ℕ, Bool, ◌||◌, List, [], ◌∷◌, ◌++◌, length, ltb, any}
use rgbpp_sdk.Ckb.Error.{CkbError, CkbResult, ok, ◌>>◌, throw_if}
use rgbpp_sdk.Ckb.Types.{Hex, OutPoint, CellOutput}
use rgbpp_sdk.Ckb.Codec.{u32_to_le}
use rgbpp_sdk.Ckb.Scripts.{CkbWorld}
use rgbpp_sdk.Ckb.Capacity.{calculate_cell_occupied_capacity}

-- What a commitment is about. Each output stands with its data, as the virtual transactions have
-- as many of the one as of the other.
pub record Committed : Type 0 where
  pub inputs : List OutPoint
  pub outputs : List (CellOutput × Hex)

unfoldable pub is_short : CellOutput × Hex → Bool
is_short (o, bytes) = ltb o.capacity (calculate_cell_occupied_capacity o bytes)

unfoldable pub assert_outputs_capacity_sufficient : List (CellOutput × Hex) → CkbResult (Unit {0})
assert_outputs_capacity_sufficient outputs =
    throw_if (any is_short outputs) CkbError.capacity_not_enough

abbrev pub max_rgbpp_cell_num : ℕ
max_rgbpp_cell_num = 255

module _ (w : CkbWorld) where
  unfoldable pub inputs_bytes : List OutPoint → Hex
  inputs_bytes [] = []
  inputs_bytes (i ∷ is) = w.serialize_out_point i ++ inputs_bytes is

  unfoldable pub outputs_bytes : List (CellOutput × Hex) → Hex
  outputs_bytes [] = []
  outputs_bytes ((o, bytes) ∷ os) =
      w.serialize_output o ++ (u32_to_le (length bytes) ++ (bytes ++ outputs_bytes os))

  -- What is hashed: "RGB++", the version, the two lengths, and the inputs and outputs.
  unfoldable pub preimage : Committed → Hex
  preimage tx =
      (82 ∷ 71 ∷ 66 ∷ 43 ∷ 43 ∷ [])
      ++ ((0 ∷ 0 ∷ [])
          ++ ((length tx.inputs ∷ length tx.outputs ∷ [])
              ++ (inputs_bytes tx.inputs ++ outputs_bytes tx.outputs)))

  unfoldable pub calculate_commitment : Committed → CkbResult Hex
  calculate_commitment tx = do
    assert_outputs_capacity_sufficient tx.outputs
    throw_if
        (ltb max_rgbpp_cell_num (length tx.inputs) || ltb max_rgbpp_cell_num (length tx.outputs))
        CkbError.inputs_or_outputs_len
    ok (w.sha256 (w.sha256 (preimage tx)))
