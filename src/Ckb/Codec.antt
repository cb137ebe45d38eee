-- ===== src/Ckb/Codec.antt =====
-- packages/ckb/src/utils/hex.ts: numbers in little-endian bytes.
use mathlib.Core.List.{append_assoc}
use native.Mathlib.Nat.{pow-suc}
use rgbpp_sdk.Common.{
  ℕ, zero, suc, ◌+◌, ◌*◌, ◌/◌, ◌%◌, ◌^◌, ◌<◌, [], ◌∷◌, ◌≡◌, refl, arith, length, ◌++◌, ap, ◌∙◌,
}
use rgbpp_sdk.Ckb.Types.{Hex}

-- The lowest bytes of a number, as many as given: what `setUint32` stores.
unfoldable pub to_le : ℕ → ℕ → Hex
to_le zero n = []
to_le (suc width) n = n % 256 ∷ to_le width (n / 256)

-- `reduceRight`: the two digits of each byte stand after those of the bytes that follow it.
unfoldable pub from_le : Hex → ℕ
from_le [] = 0
from_le (b ∷ bs) = from_le bs * 256 + b

-- `u32ToLe`, which wraps around.
abbrev pub u32_to_le : ℕ → Hex
u32_to_le n = to_le 4 n

-- `u64ToLe` and `u128ToLe`, for a number under 2 ^ 64 or 2 ^ 128: of its 16 or 32 hex digits the lower
-- half comes first, `slice(8)` or `slice(16)`.
abbrev pub u64_to_le : ℕ → Hex
u64_to_le n = u32_to_le (n % 4294967296) ++ u32_to_le (n / 4294967296)

abbrev pub u128_to_le : ℕ → Hex
u128_to_le n = u64_to_le (n % 18446744073709551616) ++ u64_to_le (n / 18446744073709551616)

-- `leToU128`
abbrev pub le_to_u128 : Hex → ℕ
le_to_u128 bytes = from_le bytes

pub to_le-length : (width n : ℕ) → length (to_le width n) ≡ width
unfolding to_le
to_le-length zero n = refl
to_le-length (suc width) n = omega (arith, to_le-length width (n / 256))

split_byte : (w n : ℕ) → n < 256 ^ suc w → n / 256 < 256 ^ w
split_byte w n h = let power = pow-suc 256 w in omega (arith, h, power)

pub from_le-to_le : (width n : ℕ) → n < 256 ^ width → from_le (to_le width n) ≡ n
unfolding to_le from_le
from_le-to_le zero n h = omega (arith, h)
from_le-to_le (suc width) n h =
    let rest = from_le-to_le width (n / 256) (split_byte width n h) in omega (arith, rest)

word-from_le :
    (a : ℕ) (bytes : Hex)
    → a < 4294967296
    → from_le (u32_to_le a ++ bytes) ≡ a + 4294967296 * from_le bytes
unfolding to_le from_le
word-from_le a bytes h = omega (arith, h)

words_from_le : (n : ℕ) → n < 2 ^ 128 → from_le (u128_to_le n) ≡ n
words_from_le n h =
    let low = n % 18446744073709551616 in
    let high = n / 18446744073709551616 in
    let a = low % 4294967296 in
    let b = low / 4294967296 in
    let c = high % 4294967296 in
    let d = high / 4294967296 in
    let upper = u32_to_le c ++ u32_to_le d in
    let first = word-from_le a (u32_to_le b ++ upper) (omega arith) in
    let second = word-from_le b upper (omega arith) in
    let third = word-from_le c (u32_to_le d) (omega arith) in
    let last = from_le-to_le 4 d (omega (arith, h)) in
    ap from_le (append_assoc (u32_to_le a) (u32_to_le b) upper)
    ∙ omega (arith, first, second, third, last, h)

words_length : (n : ℕ) → length (u128_to_le n) ≡ 16
unfolding to_le
words_length n = refl

-- `leToU128` gives back each number under 2 ^ 128 that `u128ToLe` is given, whose text has 16 bytes.
pub le_to_u128-u128_to_le :
    (n : ℕ) → n < 2 ^ 128 → (le_to_u128 (u128_to_le n) ≡ n) × (length (u128_to_le n) ≡ 16)
le_to_u128-u128_to_le n h = (words_from_le n h, words_length n)
