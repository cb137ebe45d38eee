-- ===== src/Btc/Utils.antt =====
-- packages/btc/src/utils.ts and preset/config.ts: hex prefixes, x-only keys and dust limits.
use Prim.Native.Char.{code}
use rgbpp_sdk.Common.{
  String, Bool, true, false, Option, none, some, length, take, drop, not, ◌&&◌, ◌==◌, str_eq,
  if◌then◌else◌,
}
use rgbpp_sdk.Common.Int.{ℤ, pos}
use rgbpp_sdk.Btc.Error.{ErrorCode, Result, ok, err}
use rgbpp_sdk.Btc.Types.{Bytes, AddressType, p2wpkh, p2tr, NetworkType, mainnet, testnet, regtest}

unfoldable pub remove0x : String → String
remove0x (String.◌∷◌ c (String.◌∷◌ d s)) =
    if code c == b'0' && code d == b'x' then s else String.◌∷◌ c (String.◌∷◌ d s)
remove0x s = s

-- `pubKey.subarray(1, 33)` unless the key has 32 bytes already.
unfoldable pub to_x_only : Bytes → Bytes
to_x_only pub_key = if length pub_key == 32 then pub_key else take 32 (drop 1 pub_key)

-- An optional string in a test: undefined and "" are false.
abbrev pub truthy : Option String → Bool
truthy none = false
truthy (some s) = not (str_eq s "")

-- The dust limit `btcUtxoDustLimit` of a network's config.
unfoldable pub btc_utxo_dust_limit : NetworkType → Result ℤ
btc_utxo_dust_limit testnet = ok (pos 1000)
btc_utxo_dust_limit mainnet = ok (pos 1000)
btc_utxo_dust_limit regtest = err ErrorCode.unsupported_network_type

-- The dust limit `rgbppUtxoDustLimit` of a network's config.
unfoldable pub rgbpp_utxo_dust_limit : NetworkType → Result ℤ
rgbpp_utxo_dust_limit testnet = ok (pos 546)
rgbpp_utxo_dust_limit mainnet = ok (pos 546)
rgbpp_utxo_dust_limit regtest = err ErrorCode.unsupported_network_type

-- `isSupportedFromAddress`, on the type of the address.
unfoldable pub is_supported_type : AddressType → Bool
is_supported_type p2wpkh = true
is_supported_type p2tr = true
is_supported_type _ = false
