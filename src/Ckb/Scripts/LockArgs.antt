-- ===== src/Ckb/Scripts/LockArgs.antt =====
-- The lock arguments of RGB++ cells, before and after the Bitcoin transaction is known.
use mathlib.Core.List.{reverse-reverse}
use rgbpp_sdk.Ckb.Codec.{from_le, from_le-to_le, to_le}
use rgbpp_sdk.Ckb.Scripts.{
  build_pre_lock_args, build_rgbpp_lock_args, replace_lock_args_with_real_btc_tx_id,
  unpack_rgbpp_lock_args,
}
use rgbpp_sdk.Ckb.Types.{Hex}
use rgbpp_sdk.Common.{
  arith, length, length-reverse, refl, suc, true, ℕ, ◌++◌, ◌<◌, ◌==◌, ◌^◌, ◌≡◌, ap, reverse,
}
use rgbpp_sdk.Common.Outcome.{ok}

-- Lock arguments that are built before the Bitcoin transaction is known, and then get its id, are read
-- back as this id and the index, for an index under 2 ^ 32 and an id of 32 bytes.
pub unpack_rgbpp_lock_args-replace :
    (index : ℕ) (tx_id : Hex)
    → index < 2 ^ 32
    → length tx_id ≡ 32
    → (args : Hex) × (replace_lock_args_with_real_btc_tx_id (build_pre_lock_args index) tx_id
        ≡ ok args)
      × (unpack_rgbpp_lock_args args ≡ ok (tx_id, index))
unfolding replace_lock_args_with_real_btc_tx_id build_pre_lock_args build_rgbpp_lock_args
    unpack_rgbpp_lock_args to_le
unpack_rgbpp_lock_args-replace index tx_id small long =
    let size = length-reverse tx_id in
    let whole : (suc (suc (suc (suc (length (reverse tx_id))))) == 36) ≡ true =
      ground (arith, size, long) in
    let read : from_le (to_le 4 index) ≡ index = from_le-to_le 4 index small in
    (
      to_le 4 index ++ reverse tx_id,
      refl,
      rw whole (rw (reverse-reverse tx_id) (ap (λ n. ok (tx_id, n)) read)),
    )
