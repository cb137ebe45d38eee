-- ===== src/Btc/Api/SendBtc.antt =====
-- packages/btc/src/api/sendBtc.ts: `createSendBtcBuilder`.
use rgbpp_sdk.Btc.Api.SendUtxos.{Limits, create_send_utxos_builder}
use rgbpp_sdk.Btc.Builder.Fee.{Paid}
use rgbpp_sdk.Btc.Error.{Result}
use rgbpp_sdk.Btc.Types.{InitOutput, InitTarget, Source, World}
use rgbpp_sdk.Common.{Bool, List, Option, String, [], map, none, or_else, true, ℕ}
use rgbpp_sdk.Common.Int.{ℤ}

-- An output in which `fixed` may be missing.
pub record BtcOutput : Type 0 where
  pub target : InitTarget
  pub value : ℤ
  pub fixed : Option Bool
  pub protected : Bool
  pub min_utxo_satoshi : Option ℤ

pub record SendBtcProps : Type 0 where
  pub from_address : String
  pub tos : List BtcOutput
  pub source : Source
  pub fee_rate : Option ℕ
  pub from_pubkey : Option String
  pub change_address : Option String
  pub min_utxo_satoshi : Option ℤ
  pub only_confirmed_utxos : Option Bool

unfoldable pub fixed_by_default : BtcOutput → InitOutput
fixed_by_default to = record {
  target = to.target;
  value = to.value;
  fixed = or_else to.fixed true;
  protected = to.protected;
  min_utxo_satoshi = to.min_utxo_satoshi;
}

unfoldable pub create_send_btc_builder : World → Limits → SendBtcProps → Result Paid
create_send_btc_builder w limits p = create_send_utxos_builder w limits (record {
  inputs = [];
  outputs = map fixed_by_default p.tos;
  source = p.source;
  from_address = p.from_address;
  fee_rate = p.fee_rate;
  from_pubkey = p.from_pubkey;
  change_address = p.change_address;
  min_utxo_satoshi = p.min_utxo_satoshi;
  only_confirmed_utxos = p.only_confirmed_utxos;
  exclude_utxos = none;
  skip_inputs_validation = none;
  pubkey_map = none;
})
