-- ===== src/Ckb/BatchTransfer/Bound.antt =====
-- The outputs of a batch transfer: how they are bound to the Bitcoin transaction, and the amounts.
use mathlib.Core.List.{Perm}
use rgbpp_sdk.Ckb.BatchTransfer.{AddressReceiver, BatchTransferProps, BatchTransferTx}
use rgbpp_sdk.Ckb.Codec.{u128_to_le}
use rgbpp_sdk.Ckb.Collector.{Collected}
use rgbpp_sdk.Ckb.Collector.Spent.{IsCollected}
use rgbpp_sdk.Ckb.Error.{CkbResult}
use rgbpp_sdk.Ckb.Scripts.{CkbWorld, gen_rgbpp_lock_script}
use rgbpp_sdk.Ckb.Types.{CellQuery, IndexerCell, Script, Hex}
use rgbpp_sdk.Common.{
  List, [], if◌then◌else◌, length, ltb, map, true, ℕ, ◌++◌, ◌+◌, ◌-◌, ◌∷◌, ◌≡◌, false, none, some,
  ◌==◌,
}
use rgbpp_sdk.Common.Int.{negsuc, pos, ℤ}
use rgbpp_sdk.Common.Outcome.{ok}
use rgbpp_sdk.Ckb.Bound.{BoundFrom}
use rgbpp_sdk.Ckb.Scripts.Sorting.{IsSorted}

abbrev pub amounts_of : List AddressReceiver → List ℕ
amounts_of rs = map (λ r. r.transfer_amount) rs

-- The amount that is left of what was collected, if any.
abbrev pub left_over : ℕ → ℕ → List ℕ
left_over collected sent = if ltb sent collected then (collected - sent) ∷ [] else []

abbrev pub amount_sum : List ℕ → ℕ
amount_sum [] = 0
amount_sum (n ∷ ns) = n + amount_sum ns

-- The index of the change that belongs to the amounts left over.
abbrev pub index_of_change : List AddressReceiver → List ℕ → ℤ
index_of_change rs [] = negsuc 0
index_of_change rs (n ∷ ns) = pos (length rs + 1)

module _ (get_cells : CellQuery → CkbResult (List IndexerCell)) (p : BatchTransferProps)
    (xudt : Script) where
  -- What the indexer answers for each of the lock arguments: cells of the token, at least one.
  abbrev pub AreAnswers : List Hex → List (List IndexerCell) → Type 0
  AreAnswers [] [] = Unit
  AreAnswers [] (found ∷ answers) = true ≡ false
  AreAnswers (args ∷ list) [] = true ≡ false
  AreAnswers (args ∷ list) (found ∷ answers) =
      (get_cells (record {
        lock = gen_rgbpp_lock_script args p.is_mainnet p.btc_testnet_type;
        type_script = some xudt;
        is_data_must_be_empty = true;
        output_capacity_range = none;
      })
        ≡ ok found)
      × ((length found == 0) ≡ false)
      × AreAnswers list answers

abbrev pub all_found : List (List IndexerCell) → List IndexerCell
all_found [] = []
all_found (found ∷ answers) = found ++ all_found answers

-- What the outputs pay: the amount of each receiver, then the change, which together are the amount
-- of the cells that were collected.
pub record PaysOut (w : CkbWorld) (get_cells : CellQuery → CkbResult (List IndexerCell))
    (p : BatchTransferProps) (t : BatchTransferTx) : Type 0 where
  pub answers : List (List IndexerCell)
  pub are_answers :
      AreAnswers get_cells p (w.unpack_script p.xudt_type_bytes) p.rgbpp_lock_args_list answers
  pub cells : List IndexerCell
  pub sorted_cells : IsSorted cells
  pub same_cells : Perm cells (all_found answers)
  pub collected : Collected
  pub change : List ℕ
  pub spent : IsCollected collected cells
  pub inputs : t.tx.inputs ≡ collected.inputs
  pub amounts : amount_sum (amounts_of p.rgbpp_receivers) + amount_sum change ≡ collected.sum_amount
  pub bytes : t.tx.outputs_data ≡ map u128_to_le (amounts_of p.rgbpp_receivers ++ change)
  pub bound : BoundFrom p.is_mainnet p.btc_testnet_type 1 t.tx.outputs
  pub index : t.rgbpp_change_out_index ≡ index_of_change p.rgbpp_receivers change
