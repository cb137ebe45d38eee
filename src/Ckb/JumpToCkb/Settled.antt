-- ===== src/Ckb/JumpToCkb/Settled.antt =====
-- packages/ckb/src/rgbpp/btc-jump-ckb.ts: the capacities of a jump from BTC to CKB, and the bound on
-- the receiver's lock arguments.
use rgbpp_sdk.Common.{
  ℕ, ◌+◌, ◌≤◌, false, some, length, ◌≡◌, ◌↔◌, arith, replicate, reverse, or_else,
}
use rgbpp_sdk.Ckb.Types.{Hex, Script}
use rgbpp_sdk.Ckb.Codec.{to_le}
use rgbpp_sdk.Ckb.Scripts.{CkbWorld, gen_btc_time_lock_script, gen_btc_time_lock_args}
use rgbpp_sdk.Ckb.Capacity.{
  calculate_cell_occupied_capacity, cell_size, type_size, calculate_rgbpp_cell_capacity,
  is_lock_args_size_exceeded,
}
use rgbpp_sdk.Ckb.JumpToCkb.{JumpToCkbProps, time_output, min_time_capacity}

-- What the molecule codec of the BTC time lock does: the table has 16 bytes of offsets, the script
-- 53 bytes and its arguments, then 4 bytes and the 32 of the transaction id.
abbrev pub PacksTimeLocks : CkbWorld → Type 0
PacksTimeLocks w =
    (lock : Script) (after : ℕ) (tx_id : Hex)
    → length (w.pack_btc_time_lock lock after tx_id) ≡ 105 + length lock.args

module _ (w : CkbWorld) (packs : PacksTimeLocks w) where
  time_args_length :
      (p : JumpToCkbProps) (xudt : Script) (capacity : ℕ)
      → length (time_output w p xudt capacity).0.lock.args ≡ 105 + length p.to_ckb_address.lock.args
  unfolding time_output gen_btc_time_lock_script gen_btc_time_lock_args
  time_args_length p xudt capacity = packs p.to_ckb_address.lock _ _

  -- The check of the lock's arguments passes exactly where the receiver's BTC time cell fits the
  -- capacity of an RGB++ cell.
  pub is_lock_args_size_exceeded-iff_fits :
      (p : JumpToCkbProps) (xudt : Script)
      → (is_lock_args_size_exceeded p.to_ckb_address.lock.args ≡ false)
        ↔ (min_time_capacity w p xudt ≤ calculate_rgbpp_cell_capacity (some xudt))
  unfolding min_time_capacity time_output gen_btc_time_lock_script gen_btc_time_lock_args
      is_lock_args_size_exceeded calculate_cell_occupied_capacity cell_size type_size
      calculate_rgbpp_cell_capacity to_le
  is_lock_args_size_exceeded-iff_fits p xudt =
      let args =
        packs p.to_ckb_address.lock (or_else p.btc_confirmation_blocks 6)
          (reverse (replicate 32 0)) in
      (λ small. ground (arith, args), λ fits. ground (arith, args))
