-- ===== src/Ckb/TokenInfo.antt =====
-- packages/ckb/src/utils/rgbpp.ts and ckb-tx.ts: the information of a token, its capacity, and the
-- arguments of a unique type.
use mathlib.Core.List.{append-nil}
use rgbpp_sdk.Ckb.Codec.{to_le}
use rgbpp_sdk.Ckb.Constants.{ckb_unit, unlockable_lock_script}
use rgbpp_sdk.Ckb.Scripts.{CkbWorld, gen_btc_time_lock_script}
use rgbpp_sdk.Ckb.Types.{Hex, OutPoint, Script, testnet3}
use rgbpp_sdk.Common.{
  Bool, Option, [], ap, arith, drop, false, if◌then◌else◌, length, length-append, le→ltb, ltb, none,
  refl, some, take, ℕ, ◌%◌, ◌*◌, ◌++◌, ◌+◌, ◌<◌, ◌∷◌, ◌≡◌, ◌∙◌,
}

unfoldable pub encode_length : ℕ → Hex
encode_length n = n % 256 ∷ []

-- A name and a symbol are the bytes that `utf8ToHex` makes of their texts.
pub record TokenInfo : Type 0 where
  pub decimal : ℕ
  pub name : Hex
  pub symbol : Hex

-- `encodeRgbppTokenInfo`: the lengths take one byte, so they wrap around.
unfoldable pub encode_rgbpp_token_info : TokenInfo → Hex
encode_rgbpp_token_info t =
    encode_length t.decimal
    ++ (encode_length (length t.name) ++ (t.name ++ (encode_length (length t.symbol) ++ t.symbol)))

unfoldable pub calculate_rgbpp_token_info_size : TokenInfo → ℕ
calculate_rgbpp_token_info_size t = length (encode_rgbpp_token_info t)

unfoldable pub calculate_xudt_token_info_cell_capacity : TokenInfo → Script → ℕ
calculate_xudt_token_info_cell_capacity t lock =
    (length lock.args + 33 + (32 + 1 + 20) + 8 + calculate_rgbpp_token_info_size t) * ckb_unit

-- The lock is that of Testnet3 or of the mainnet.
unfoldable pub calculate_rgbpp_token_info_cell_capacity : CkbWorld → TokenInfo → Bool → ℕ
calculate_rgbpp_token_info_cell_capacity w t is_mainnet =
    let lock = gen_btc_time_lock_script w unlockable_lock_script is_mainnet testnet3 none in
    (length lock.args + 33 + (32 + 1 + 20) + 8 + calculate_rgbpp_token_info_size t) * ckb_unit

-- `generateUniqueTypeArgs`: the first 20 bytes of the digest.
unfoldable pub generate_unique_type_args : CkbWorld → OutPoint → ℕ → Hex
generate_unique_type_args w first index =
    take 20 (w.blake2b (w.serialize_input first ++ to_le 8 index))

-- What a reader of the cell makes of its data: a length, then as many bytes.
unfoldable pub read_text : Hex → Option (Hex × Hex)
read_text [] = none
read_text (n ∷ bytes) = if ltb (length bytes) n then none else some (take n bytes, drop n bytes)

unfoldable pub read_symbol : ℕ → Hex → Option (Hex × Hex) → Option TokenInfo
read_symbol decimal name none = none
read_symbol decimal name (some (symbol, [])) =
    some (record { decimal = decimal; name = name; symbol = symbol })
read_symbol decimal name (some (symbol, b ∷ bs)) = none

unfoldable pub read_name : ℕ → Option (Hex × Hex) → Option TokenInfo
read_name decimal none = none
read_name decimal (some (name, rest)) = read_symbol decimal name (read_text rest)

unfoldable pub read_token_info : Hex → Option TokenInfo
read_token_info [] = none
read_token_info (decimal ∷ bytes) = read_name decimal (read_text bytes)

take-append : (xs ys : Hex) → take (length xs) (xs ++ ys) ≡ xs
take-append [] ys = refl
take-append (x ∷ xs) ys = ap (λ zs. x ∷ zs) (take-append xs ys)

drop-append : (xs ys : Hex) → drop (length xs) (xs ++ ys) ≡ ys
drop-append [] ys = refl
drop-append (x ∷ xs) ys = drop-append xs ys

read_text-append :
    (text rest : Hex)
    → length text < 256
    → read_text (encode_length (length text) ++ (text ++ rest)) ≡ some (text, rest)
unfolding read_text encode_length
read_text-append text rest h =
    let small : length text % 256 ≡ length text = omega (arith, h) in
    let long : ltb (length (text ++ rest)) (length text) ≡ false =
      le→ltb _ _ (let sum = length-append text rest in omega (arith, sum)) in
    rw small (rw long (rw (take-append text rest) (rw (drop-append text rest) refl)))

read_token_info-append :
    (n : ℕ) (bytes : Hex)
    → read_token_info (encode_length n ++ bytes) ≡ read_name (n % 256) (read_text bytes)
unfolding read_token_info encode_length
read_token_info-append n bytes = refl

read_name-append :
    (decimal : ℕ) (name symbol : Hex)
    → length symbol < 256
    → read_name decimal (some (name, encode_length (length symbol) ++ symbol))
      ≡ some (record { decimal = decimal; name = name; symbol = symbol })
unfolding read_name read_symbol
read_name-append decimal name symbol h =
    let last = read_text-append symbol [] h in
    let found = rw (append-nil symbol) at last in rw found refl

-- A reader gets back the information, where the number of decimals and both lengths are under 256.
pub read_token_info-encode :
    (t : TokenInfo)
    → t.decimal < 256
    → length t.name < 256
    → length t.symbol < 256
    → read_token_info (encode_rgbpp_token_info t) ≡ some t
unfolding encode_rgbpp_token_info
read_token_info-encode t decimal name symbol =
    let small : t.decimal % 256 ≡ t.decimal = omega (arith, decimal) in
    read_token_info-append t.decimal _
    ∙ (ap (read_name (t.decimal % 256)) (read_text-append t.name _ name)
        ∙ (read_name-append (t.decimal % 256) t.name t.symbol symbol
            ∙ ap (λ d. some (record { decimal = d; name = t.name; symbol = t.symbol })) small))
