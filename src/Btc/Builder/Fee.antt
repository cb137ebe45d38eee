-- ===== src/Btc/Builder/Fee.antt =====
-- build.ts: `calculateFee` and `payFee`. Fee rates are whole satoshi for a virtual byte.
use rgbpp_sdk.Common.{
  ℕ, zero, suc, ◌+◌, ◌*◌, ◌/◌, String, Bool, true, false, not, ◌&&◌, ◌||◌, Option, none, some, List,
  if◌then◌else◌, or_else, ◌==◌, leb,
}
use rgbpp_sdk.Common.Int.{ℤ, pos, ◌+ℤ◌, ◌-ℤ◌, ltb_ℤ}
use rgbpp_sdk.Btc.Error.{ErrorCode, Result, ok, err, out_of_fuel, ◌>>=◌}
use rgbpp_sdk.Btc.Types.{BaseOutput, TxMeasure, World, TxBuilder}
use rgbpp_sdk.Btc.Cache.{clean_utxos}
use rgbpp_sdk.Btc.Builder.Outputs.{summary}
use rgbpp_sdk.Btc.Builder.Inject.{SatoshiProps, ChangeProps, inject_satoshi, inject_change}

-- A fee rate in a test: undefined and 0 are false.
abbrev pub is_rate : Option ℕ → Bool
is_rate none = false
is_rate (some r) = not (r == 0)

-- `a ?? b`
abbrev pub first_rate : Option ℕ → Option ℕ → Option ℕ
first_rate none b = b
first_rate (some a) b = some a

-- `Math.ceil(weight / 4)`, for the weight of the estimated transaction.
unfoldable pub virtual_size : TxMeasure → ℕ
virtual_size m = (m.without_witness * 3 + m.with_witness + m.ins + 3) / 4

pub record FeeProps : Type 0 where
  pub address : String
  pub public_key : Option String
  pub change_address : Option String
  pub deduct_from_outputs : Option Bool
  pub exclude_utxos : Option (List BaseOutput)
  pub fee_rate : Option ℕ

pub record Paid : Type 0 where
  pub builder : TxBuilder
  pub fee : ℕ
  pub fee_rate : ℕ
  pub change_index : ℤ

-- `[-1, 0, 1].includes(a - b)`
unfoldable pub is_expected : ℕ → ℕ → Bool
is_expected a b = leb a (b + 1) && leb b (a + 1)

-- `this.inputs` and `this.outputs` are set back; the cache of the source stays.
unfoldable pub restore : TxBuilder → TxBuilder → TxBuilder
restore original b = record b { inputs = original.inputs; outputs = original.outputs }

-- The cached UTXO lists of the key are dropped.
unfoldable pub forget : String → Paid → Paid
forget key r =
    let b = r.builder in
    let source = b.source in
    record r {
      builder = record b { source = record source { cache = clean_utxos key source.cache } };
    }

module _ (w : World) where
  unfoldable pub calculate_fee : Option ℕ → TxBuilder → Result ℕ
  calculate_fee rate b =
      if not (is_rate rate) && not (is_rate b.fee_rate)
      then err ErrorCode.invalid_fee_rate
      else ok (virtual_size (w.measure b.inputs b.outputs) * or_else (first_rate rate b.fee_rate) 0)

  -- `feeRate ?? this.feeRate ?? defaultFeeRate`, where the service is asked for the default only if
  -- both are missing or 0.
  unfoldable pub current_fee_rate : Option ℕ → TxBuilder → ℕ
  current_fee_rate rate b = or_else (first_rate rate b.fee_rate) w.fastest_fee

  unfoldable pub return_props : FeeProps → String → ℤ → ChangeProps
  return_props p key amount = record {
    amount = amount;
    address = or_else p.change_address p.address;
    from_address = p.address;
    from_public_key = p.public_key;
    internal_cache_key = some key;
    exclude_utxos = p.exclude_utxos;
  }

  unfoldable pub collect_props : FeeProps → String → ℤ → SatoshiProps
  collect_props p key amount = record {
    address = p.address;
    public_key = p.public_key;
    target_amount = amount;
    change_address = p.change_address;
    inject_collected = none;
    deduct_from_outputs = p.deduct_from_outputs;
    internal_cache_key = some key;
    exclude_utxos = p.exclude_utxos;
  }

  -- One round of the loop up to the calculation of the fee: with more in the inputs than the outputs
  -- and the fee of the last round need, the rest is returned; otherwise satoshi are collected.
  unfoldable pub fee_round : ℕ → FeeProps → String → ℕ → TxBuilder → Result (TxBuilder × ℤ)
  fee_round fuel p key previous b =
      let s = summary b in
      let safe = ltb_ℤ (pos 0) s.inputs_total || not (previous == 0) in
      let return_amount = s.need_return -ℤ pos previous in
      let target =
        s.need_collect -ℤ s.need_return +ℤ pos previous +ℤ (if safe then pos 0 else pos 1) in
      if safe && ltb_ℤ (pos 0) return_amount
      then inject_change w fuel (return_props p key return_amount) b
      else (do
        injected ← inject_satoshi w fuel (collect_props p key target) b
        ok (injected.builder, injected.change_index))

  -- The loop; `fuel` bounds its rounds, and `depth` the calls within a round.
  unfoldable pub fee_loop : ℕ → ℕ → FeeProps → String → ℕ → ℕ → TxBuilder → Result Paid
  fee_loop zero depth p key rate previous b = out_of_fuel
  fee_loop (suc fuel) depth p key rate previous b = do
    (b', index) ← fee_round depth p key previous b
    fee ← calculate_fee (some rate) b'
    elim (is_expected fee previous) [
      | true ↦ ok (record { builder = b'; fee = fee; fee_rate = rate; change_index = index })
      | false ↦ fee_loop fuel depth p key rate fee (restore b b')
    ]

  -- `payFee`; `key` is the clock's reading, under which the UTXO lists are cached meanwhile.
  unfoldable pub pay_fee : ℕ → ℕ → FeeProps → String → TxBuilder → Result Paid
  pay_fee fuel depth p key b = do
    r ← fee_loop fuel depth p key (current_fee_rate p.fee_rate b) 0 b
    ok (forget key r)
