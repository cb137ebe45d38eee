-- ===== src/Btc/Api/SendRgbppUtxos.antt =====
-- packages/btc/src/api/sendRgbppUtxos.ts: `createSendRgbppUtxosBuilder` and `getMergedBtcOutputs`.
pub mod Bound
use rgbpp_sdk.Common.{
  ℕ, suc, ◌+◌, String, Bool, true, false, not, ◌&&◌, Option, none, some, List, [], ◌∷◌, ◌++◌, any,
  length, get_elem?, take, ltb, ◌==◌, str_eq, if◌then◌else◌, or_else, is_some, ◌≡◌, refl, sym, ap,
}
use rgbpp_sdk.Common.Int.{ℤ, pos, eqb_ℤ}
use rgbpp_sdk.Btc.Error.{
  ErrorCode, Result, ok, err, out_of_fuel, ◌>>=◌, ◌>>◌, throw_if, >>=-eq-ok, throw_if-eq-ok,
  ok-injective,
}
use rgbpp_sdk.Btc.Types.{
  BaseOutput, NetworkType, mainnet, Utxo, at_address, with_data, InitOutput, World, Source,
}
use rgbpp_sdk.Btc.Utils.{rgbpp_utxo_dust_limit}
use rgbpp_sdk.Btc.Utxos.{PubkeyMap}
use rgbpp_sdk.Btc.Source.Query.{BtcTransaction, Paymaster, get_utxo}
use rgbpp_sdk.Btc.Builder.Fee.{Paid}
use rgbpp_sdk.Btc.Api.SendUtxos.{
  SendUtxosProps, Limits, create_send_utxos_builder, IsSent, create_send_utxos_builder-IsSent,
}
use rgbpp_sdk.Ckb.Types.{Hex, OutPoint, CellOutput}
use rgbpp_sdk.Ckb.Error.{CkbResult}
use rgbpp_sdk.Ckb.Scripts.{CkbWorld, hex_eq, is_rgbpp_lock_cell, is_btc_time_lock_cell}
use rgbpp_sdk.Ckb.Commitment.{Committed, calculate_commitment}

-- The commitment stands as bytes, where the source has their hex text.
pub record SendRgbppUtxosProps : Type 0 where
  pub ckb_virtual_tx : Committed
  pub commitment : Hex
  pub tos : Option (List (Option String))
  pub paymaster : Paymaster
  pub need_paymaster : Option Bool
  pub rgbpp_min_utxo_satoshi : Option ℤ
  pub source : Source
  pub from_address : String
  pub fee_rate : Option ℕ
  pub from_pubkey : Option String
  pub change_address : Option String
  pub min_utxo_satoshi : Option ℤ
  pub only_confirmed_utxos : Option Bool
  pub exclude_utxos : Option (List BaseOutput)
  pub pubkey_map : Option PubkeyMap

-- Lock arguments, unpacked: the transaction's id and the index of its output.
pub record RgbppLockArgs : Type 0 where
  pub btc_tx_id : String
  pub out_index : ℕ

unfoldable pub is_mainnet : NetworkType → Bool
is_mainnet mainnet = true
is_mainnet _ = false

unfoldable pub is_same_utxo : Utxo → Utxo → Bool
is_same_utxo u v = str_eq v.txid u.txid && (v.vout == u.vout)

-- `props.tos?.[i] ?? props.from`
unfoldable pub receiver_at : SendRgbppUtxosProps → ℕ → String
receiver_at p i = elim (get_elem? (or_else p.tos []) i) [
  | some (some address) ↦ address
  | _ ↦ p.from_address
]

unfoldable pub rgbpp_output : SendRgbppUtxosProps → ℤ → ℕ → InitOutput
rgbpp_output p min i = record {
  target = at_address (receiver_at p i);
  value = min;
  fixed = true;
  protected = false;
  min_utxo_satoshi = some min;
}

-- What is wrong with an output that has a type: its lock is neither of the two.
unfoldable pub has_wrong_lock : Bool → CellOutput → Bool
has_wrong_lock mainnet_id o =
    is_some o.type_script
    && (not (is_rgbpp_lock_cell o mainnet_id) && not (is_btc_time_lock_cell o mainnet_id))

-- The number of outputs up to the last one with a type: `lastCkbTypeOutputIndex + 1`.
unfoldable pub typed_length : List (CellOutput × Hex) → ℕ
typed_length [] = 0
typed_length ((o, bytes) ∷ os) =
    let rest = typed_length os in
    if rest == 0 then (if is_some o.type_script then 1 else 0) else suc rest

-- The outputs of the Bitcoin transaction, one for each RGB++ lock, by the positions of the cells.
unfoldable pub rgbpp_outputs :
    SendRgbppUtxosProps → Bool → ℤ → ℕ → List (CellOutput × Hex) → List InitOutput
rgbpp_outputs p mainnet_id min i [] = []
rgbpp_outputs p mainnet_id min i ((o, bytes) ∷ os) =
    let rest = rgbpp_outputs p mainnet_id min (suc i) os in
    if is_rgbpp_lock_cell o mainnet_id then rgbpp_output p min i ∷ rest else rest

unfoldable pub same_paymaster : String × ℤ → String × ℤ → Bool
same_paymaster (a, x) (b, y) = str_eq a b && eqb_ℤ x y

unfoldable pub mismatch : Paymaster → Paymaster → Bool
mismatch (some a) (some b) = not (same_paymaster a b)
mismatch _ _ = false

unfoldable pub paymaster_outputs : Bool → Paymaster → List InitOutput
paymaster_outputs true (some (address, value)) =
    record {
      target = at_address address;
      value = value;
      fixed = true;
      protected = false;
      min_utxo_satoshi = none;
    }
    ∷ []
paymaster_outputs _ _ = []

-- `defaultPaymaster ?? props.paymaster`
unfoldable pub chosen_paymaster : Paymaster → Paymaster → Paymaster
chosen_paymaster none b = b
chosen_paymaster (some a) b = some a

unfoldable pub commitment_output : Hex → InitOutput
commitment_output commitment = record {
  target = with_data commitment;
  value = pos 0;
  fixed = true;
  protected = false;
  min_utxo_satoshi = none;
}

-- An error of the CKB side is none of the Bitcoin side's.
unfoldable pub of_ckb : {A : Type 0} → CkbResult A → Result A
of_ckb (ok a) = ok a
of_ckb (err e) = err ErrorCode.unknown
of_ckb out_of_fuel = out_of_fuel

-- The second loop over the inputs: what was found for those with an RGB++ lock, each UTXO once.
unfoldable pub push_inputs : List (Option (Option Utxo)) → List Utxo → Result (List Utxo)
push_inputs [] found = ok found
push_inputs (none ∷ us) found = push_inputs us found
push_inputs (some none ∷ us) found = err ErrorCode.cannot_find_utxo
push_inputs (some (some u) ∷ us) found =
    push_inputs us (if any (is_same_utxo u) found then found else found ++ (u ∷ []))

unfoldable pub sum_of_outputs : List (CellOutput × Hex) → ℕ
sum_of_outputs [] = 0
sum_of_outputs ((o, bytes) ∷ os) = o.capacity + sum_of_outputs os

module _ (w : World) (k : CkbWorld) (transaction : String → Option BtcTransaction)
    (live : OutPoint → Option CellOutput) (unpack : Hex → RgbppLockArgs)
    (default_paymaster : Paymaster) where
  -- The lock arguments of the inputs that have an RGB++ lock. A cell that is not live has no output,
  -- which is an error of JavaScript.
  unfoldable pub lock_args_list : Bool → List OutPoint → Result (List (Option RgbppLockArgs))
  lock_args_list main [] = ok []
  lock_args_list main (i ∷ is) = elim (live i) [
    | none ↦ err ErrorCode.unknown
    | some o ↦ do
      rest ← lock_args_list main is
      ok ((if is_rgbpp_lock_cell o main then some (unpack o.lock.args) else none) ∷ rest)
  ]

  unfoldable pub query_utxos :
      Bool → List (Option RgbppLockArgs) → Result (List (Option (Option Utxo)))
  query_utxos confirmed [] = ok []
  query_utxos confirmed (none ∷ list) = do rest ← query_utxos confirmed list; ok (none ∷ rest)
  query_utxos confirmed (some args ∷ list) = do
    u ← get_utxo w transaction args.btc_tx_id args.out_index confirmed
    rest ← query_utxos confirmed list
    ok (some u ∷ rest)

  unfoldable pub rgbpp_inputs : Bool → Bool → List OutPoint → Result (List Utxo)
  rgbpp_inputs main confirmed inputs = do
    list ← lock_args_list main inputs
    found ← query_utxos confirmed list
    push_inputs found []

  unfoldable pub sum_of_inputs : List OutPoint → Result ℕ
  sum_of_inputs [] = ok 0
  sum_of_inputs (i ∷ is) = elim (live i) [
    | none ↦ err ErrorCode.unknown
    | some o ↦ do rest ← sum_of_inputs is; ok (o.capacity + rest)
  ]

  -- `checkCkbTxInputsCapacitySufficient`
  unfoldable pub check_inputs_sufficient : Committed → Result Bool
  check_inputs_sufficient tx = do
    sum ← sum_of_inputs tx.inputs
    ok (ltb (sum_of_outputs tx.outputs) sum)

  unfoldable pub is_paymaster_needed : SendRgbppUtxosProps → Result Bool
  is_paymaster_needed p = elim p.need_paymaster [
    | some needed ↦ ok needed
    | none ↦ do sufficient ← check_inputs_sufficient p.ckb_virtual_tx; ok (not sufficient)
  ]

  unfoldable pub merged_outputs : SendRgbppUtxosProps → List InitOutput → Result (List InitOutput)
  merged_outputs p outputs = do
    throw_if (mismatch default_paymaster p.paymaster) ErrorCode.paymaster_mismatch
    needed ← is_paymaster_needed p
    ok (
        (commitment_output p.commitment ∷ outputs)
        ++ paymaster_outputs needed (chosen_paymaster default_paymaster p.paymaster))

  unfoldable pub send_props : SendRgbppUtxosProps → List Utxo → List InitOutput → SendUtxosProps
  send_props p inputs outputs = record {
    inputs = inputs;
    outputs = outputs;
    source = p.source;
    from_address = p.from_address;
    fee_rate = p.fee_rate;
    from_pubkey = p.from_pubkey;
    change_address = p.change_address;
    min_utxo_satoshi = p.min_utxo_satoshi;
    only_confirmed_utxos = p.only_confirmed_utxos;
    exclude_utxos = p.exclude_utxos;
    skip_inputs_validation = none;
    pubkey_map = p.pubkey_map;
  }

  -- The virtual transaction up to the last output with a type, which the commitment is about.
  unfoldable pub committed_part : Committed → Committed
  committed_part tx = record {
    inputs = tx.inputs;
    outputs = take (typed_length tx.outputs) tx.outputs;
  }

  unfoldable pub create_send_rgbpp_utxos_builder : Limits → SendRgbppUtxosProps → Result Paid
  create_send_rgbpp_utxos_builder limits p = do
    let tx = p.ckb_virtual_tx
    let main = is_mainnet p.source.network_type
    dust ← rgbpp_utxo_dust_limit p.source.network_type
    inputs ← rgbpp_inputs main (or_else p.only_confirmed_utxos false) tx.inputs
    throw_if (length inputs == 0) ErrorCode.ckb_invalid_inputs
    throw_if (any (λ o. has_wrong_lock main o.0) tx.outputs) ErrorCode.ckb_invalid_cell_lock
    throw_if (typed_length tx.outputs == 0) ErrorCode.ckb_invalid_outputs
    calculated ← of_ckb (calculate_commitment k (committed_part tx))
    throw_if (not (hex_eq p.commitment calculated)) ErrorCode.ckb_unmatched_commitment
    outputs ←
        merged_outputs p (rgbpp_outputs p main (or_else p.rgbpp_min_utxo_satoshi dust) 0 tx.outputs)
    create_send_utxos_builder w limits (send_props p inputs outputs)
