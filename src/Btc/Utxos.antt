-- ===== src/Btc/Utxos.antt =====
-- packages/btc/src/transaction/utxo.ts: from UTXOs to transaction inputs, and their preparation.
use rgbpp_sdk.Common.{
  String, Bool, not, Option, none, some, List, [], ◌∷◌, ◌≡◌, str_eq, ◌&&◌, arith, if◌then◌else◌,
}
use rgbpp_sdk.Btc.Error.{ErrorCode, Result, ok, err, ◌>>=◌, ◌>>◌, throw_if}
use rgbpp_sdk.Btc.Types.{AddressType, p2wpkh, p2tr, Utxo, TxInput, World}
use rgbpp_sdk.Btc.Utils.{remove0x, to_x_only, truthy}

module _ (w : World) where
  taproot_input : Utxo → Option String → Result TxInput
  unfolding remove0x to_x_only
  taproot_input utxo none = err ErrorCode.missing_pubkey
  taproot_input utxo (some key) =
      if str_eq key ""
      then err ErrorCode.missing_pubkey
      else ok (record {
        inputs_data = record {
          hash = utxo.txid;
          index = utxo.vout;
          value = utxo.value;
          script = w.from_hex (remove0x utxo.script_pk);
          tap_internal_key = some (to_x_only (w.from_hex (remove0x key)));
        };
        utxo = utxo;
      })

  witness_input : Utxo → TxInput
  unfolding remove0x
  witness_input utxo = record {
    inputs_data = record {
      hash = utxo.txid;
      index = utxo.vout;
      value = utxo.value;
      script = w.from_hex (remove0x utxo.script_pk);
      tap_internal_key = none;
    };
    utxo = utxo;
  }

  input_of_type : AddressType → Utxo → Result TxInput
  unfolding taproot_input witness_input
  input_of_type p2wpkh utxo = ok (witness_input utxo)
  input_of_type p2tr utxo = taproot_input utxo utxo.pubkey
  input_of_type _ utxo = err ErrorCode.unsupported_address_type

  unfoldable pub utxo_to_input : Utxo → Result TxInput
  unfolding input_of_type
  utxo_to_input utxo = input_of_type utxo.address_type utxo

  -- The input of a UTXO has its outpoint and keeps it.
  pub utxo_to_input-utxo :
      (u : Utxo) {i : TxInput}
      → utxo_to_input u ≡ ok i
      → (i.utxo ≡ u) × (i.inputs_data.hash ≡ u.txid) × (i.inputs_data.index ≡ u.vout)
  unfolding utxo_to_input
  utxo_to_input-utxo u h = ground arith

abbrev pub PubkeyMap : Type 0
PubkeyMap = List (String × String)

unfoldable pub lookup : String → PubkeyMap → Option String
lookup key [] = none
lookup key ((k, v) ∷ m) = if str_eq k key then some v else lookup key m

-- `addAddressToPubkeyMap`: a later entry of the same address wins, so it is put first.
unfoldable pub add_address_to_pubkey_map : PubkeyMap → String → Option String → PubkeyMap
add_address_to_pubkey_map pubkeys address none = pubkeys
add_address_to_pubkey_map pubkeys address (some key) =
    if str_eq key "" then pubkeys else (address, key) ∷ pubkeys

module _ (w : World) where
  unfoldable pub fill_utxo_pubkey : PubkeyMap → Bool → Utxo → Result Utxo
  unfolding lookup
  fill_utxo_pubkey pubkeys require_pubkey utxo =
      let pubkey = lookup utxo.address pubkeys in
      if w.is_p2tr_script utxo.script_pk && not (truthy utxo.pubkey)
      then (if require_pubkey && not (truthy pubkey)
          then err ErrorCode.missing_pubkey
          else ok (if truthy pubkey then record utxo { pubkey = pubkey } else utxo))
      else ok utxo

  unfoldable pub fill_pubkeys : PubkeyMap → Bool → List Utxo → Result (List Utxo)
  unfolding fill_utxo_pubkey
  fill_pubkeys pubkeys require_pubkey [] = ok []
  fill_pubkeys pubkeys require_pubkey (u ∷ us) = do
    u' ← fill_utxo_pubkey pubkeys require_pubkey u
    us' ← fill_pubkeys pubkeys require_pubkey us
    ok (u' ∷ us')

  unfoldable pub require_confirmed : List Utxo → Result (Unit {0})
  require_confirmed [] = ok tt
  require_confirmed (u ∷ us) = do
    throw_if (not (w.is_confirmed (remove0x u.txid))) ErrorCode.unconfirmed_utxo
    require_confirmed us

  -- The requests of one call go out together; each failure has the same code.
  unfoldable pub prepare_utxo_inputs : PubkeyMap → Bool → Bool → List Utxo → Result (List Utxo)
  unfolding fill_pubkeys require_confirmed
  prepare_utxo_inputs pubkeys require_pubkey confirmed utxos = do
    filled ← fill_pubkeys pubkeys require_pubkey utxos
    (if confirmed then require_confirmed filled else ok tt)
    ok filled
