-- ===== src/Btc/Embed.antt =====
-- packages/btc/src/transaction/embed.ts: OP_RETURN scripts.
use rgbpp_sdk.Common.{ℕ, String, Bool, false, Option, some, List, [], ◌∷◌, length, ◌&&◌, ◌==◌, leb}
use rgbpp_sdk.Btc.Types.{Bytes, Chunk, op, push, World}
use rgbpp_sdk.Btc.Utils.{remove0x}

abbrev pub op_return : ℕ
op_return = 106

-- The test on the decompiled script: OP_RETURN, then 1 to 80 bytes of data, and nothing more.
unfoldable pub is_op_return_chunks : Option (List Chunk) → Bool
is_op_return_chunks (some (op code ∷ push bytes ∷ [])) =
    code == op_return && (leb 1 (length bytes) && leb (length bytes) 80)
is_op_return_chunks _ = false

module _ (w : World) where
  unfoldable pub is_op_return_script_pubkey : Bytes → Bool
  is_op_return_script_pubkey script = is_op_return_chunks (w.decompile script)

  -- `dataToOpReturnScriptPubkey`, for a Buffer and for a hex string.
  unfoldable pub bytes_to_op_return : Bytes → Bytes
  bytes_to_op_return bytes = w.embed bytes

  unfoldable pub hex_to_op_return : String → Bytes
  hex_to_op_return hex = bytes_to_op_return (w.from_hex (remove0x hex))
