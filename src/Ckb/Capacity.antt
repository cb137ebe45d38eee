-- ===== src/Ckb/Capacity.antt =====
-- packages/ckb/src/utils/ckb-tx.ts and rgbpp.ts: fees and capacities.
use rgbpp_sdk.Common.{
  ℕ, ◌+◌, ◌*◌, ◌/◌, ◌≤◌, ◌<◌, Bool, Option, none, some, length, ltb, if◌then◌else◌, or_else, arith,
}
use rgbpp_sdk.Ckb.Types.{Hex, Script, CellOutput}
use rgbpp_sdk.Ckb.Constants.{ckb_unit}

unfoldable pub calculate_transaction_fee : ℕ → Option ℕ → ℕ
calculate_transaction_fee tx_size fee_rate =
    let base = tx_size * or_else fee_rate 1100 in
    let fee = base / 1000 in if ltb (fee * 1000) base then fee + 1 else fee

-- The size of a script but for its arguments; 0 stands for a script that is missing.
unfoldable pub type_size : Option Script → ℕ
type_size none = 0
type_size (some t) = length t.args + 1 + 32

-- `calculateCellOccupiedCapacity`
unfoldable pub cell_size : CellOutput → Hex → ℕ
cell_size output output_data =
    length output_data + (length output.lock.args + 1 + 32) + type_size output.type_script + 8

unfoldable pub calculate_cell_occupied_capacity : CellOutput → Hex → ℕ
calculate_cell_occupied_capacity output output_data = cell_size output output_data * ckb_unit

-- `calculateRgbppCellCapacity`
unfoldable pub calculate_rgbpp_cell_capacity : Option Script → ℕ
calculate_rgbpp_cell_capacity none = (69 + (33 + 32) + 8 + 16 + 95) * ckb_unit
calculate_rgbpp_cell_capacity (some t) = (69 + (33 + length t.args) + 8 + 16 + 95) * ckb_unit

-- `isLockArgsSizeExceeded`
unfoldable pub is_lock_args_size_exceeded : Hex → Bool
is_lock_args_size_exceeded args = ltb 26 (length args)

unfoldable pub calculate_udt_cell_capacity : Script → Option Script → ℕ
calculate_udt_cell_capacity lock none = (33 + length lock.args + (33 + 32) + 8 + 16 + 1) * ckb_unit
calculate_udt_cell_capacity lock (some t) =
    (33 + length lock.args + (33 + length t.args) + 8 + 16 + 1) * ckb_unit

unfoldable pub is_rgbpp_capacity_sufficient_for_change : ℕ → ℕ → Bool
is_rgbpp_capacity_sufficient_for_change sum receiver =
    ltb (receiver + calculate_rgbpp_cell_capacity none) sum

-- The fee is the product of the size and the rate, for a thousand bytes, rounded up.
pub calculate_transaction_fee_lem :
    (tx_size : ℕ) (fee_rate : Option ℕ)
    → (tx_size * or_else fee_rate 1100 ≤ calculate_transaction_fee tx_size fee_rate * 1000)
      × (calculate_transaction_fee tx_size fee_rate * 1000 < tx_size * or_else fee_rate 1100 + 1000)
unfolding calculate_transaction_fee
calculate_transaction_fee_lem tx_size fee_rate = ground arith
