-- ===== src/Btc/Builder/Inject.antt =====
-- build.ts: `injectSatoshi` and `injectChange`, which call one another. The fuel bounds the depth
-- of these calls.
use rgbpp_sdk.Common.{
  ℕ, zero, suc, String, Bool, true, false, not, ◌&&◌, Option, none, some, List, [], ◌∷◌, ◌++◌, map,
  length, str_eq, if◌then◌else◌, or_else,
}
use rgbpp_sdk.Common.Int.{ℤ, pos, negsuc, ◌+ℤ◌, ◌-ℤ◌, ltb_ℤ}
use rgbpp_sdk.Btc.Error.{ErrorCode, Result, ok, out_of_fuel, ◌>>=◌, ◌>>◌, throw_if}
use rgbpp_sdk.Btc.Types.{
  BaseOutput, Utxo, TxInput, Target, to_address, to_script, TxOutput, InitOutput, at_address, World,
  UtxoParams, TxBuilder, Source,
}
use rgbpp_sdk.Btc.Utils.{is_supported_type}
use rgbpp_sdk.Btc.Source.{collect_satoshi}
use rgbpp_sdk.Btc.Builder.Outputs.{add_inputs, add_output, can_inject_change_to_outputs}
use rgbpp_sdk.Btc.Builder.Deduct.{deduct}

pub record SatoshiProps : Type 0 where
  pub address : String
  pub public_key : Option String
  pub target_amount : ℤ
  pub change_address : Option String
  pub inject_collected : Option Bool
  pub deduct_from_outputs : Option Bool
  pub internal_cache_key : Option String
  pub exclude_utxos : Option (List BaseOutput)

pub record ChangeProps : Type 0 where
  pub amount : ℤ
  pub address : String
  pub from_address : String
  pub from_public_key : Option String
  pub internal_cache_key : Option String
  pub exclude_utxos : Option (List BaseOutput)

-- The variables `collected` and `changeAmount` beside the builder.
pub record Progress : Type 0 where
  pub builder : TxBuilder
  pub collected : ℤ
  pub change_amount : ℤ

pub record Injected : Type 0 where
  pub builder : TxBuilder
  pub collected : ℤ
  pub change_index : ℤ
  pub change_amount : ℤ

abbrev pub outpoint : TxInput → BaseOutput
outpoint i = record { txid = i.utxo.txid; vout = i.utxo.vout }

-- `{ ...utxo, pubkey }`
abbrev pub with_pubkey : Option String → Utxo → Utxo
with_pubkey pubkey u = record u { pubkey = pubkey }

abbrev pub with_source : Source → TxBuilder → TxBuilder
with_source source b = record b { source = source }

abbrev pub query_of : SatoshiProps → TxBuilder → UtxoParams
query_of p b = record {
  address = p.address;
  only_non_rgbpp_utxos = b.only_non_rgbpp_utxos;
  only_confirmed = b.only_confirmed_utxos;
  min_satoshi = some b.min_utxo_satoshi;
  no_cache = true;
}

-- `_updateChangeAmount`
unfoldable pub change_of : Bool → ℤ → ℤ → ℤ
change_of true collected target = collected +ℤ target
change_of false collected target = collected -ℤ target

-- `'address' in output && output.address === address`
unfoldable pub goes_to : String → Target → Bool
goes_to address (to_address a) = str_eq a address
goes_to address (to_script s) = false

-- The first output that is not fixed and goes to the address gets the amount; the number counts the
-- outputs before it.
unfoldable pub return_to : String → ℤ → List TxOutput → ℕ → Option (List TxOutput × ℕ)
return_to address amount [] i = none
return_to address amount (o ∷ os) i = elim (not o.fixed && goes_to address o.target) [
  | true ↦ some (record o { value = o.value +ℤ amount } ∷ os, i)
  | false ↦ elim (return_to address amount os (suc i)) [
    | none ↦ none
    | some (os', j) ↦ some (o ∷ os', j)
  ]
]

-- The output that takes the change.
abbrev pub change_output : String → ℤ → InitOutput
change_output address amount = record {
  target = at_address address;
  value = amount;
  fixed = false;
  protected = false;
  min_utxo_satoshi = none;
}

-- Step 1: from the outputs that are not fixed.
unfoldable pub from_outputs : SatoshiProps → TxBuilder → Progress
from_outputs p b =
    let (outputs, collected) =
      if or_else p.deduct_from_outputs true
      then deduct b.min_utxo_satoshi p.target_amount b.outputs (pos 0)
      else (b.outputs, pos 0) in
    record {
      builder = record b { outputs = outputs };
      collected = collected;
      change_amount = pos 0;
    }

-- Whether the change is refused for being under the limit. `changeToOutputs` of the source is
-- the negation of what its name says, so this asks for an output that can take the change.
unfoldable pub is_short_change : SatoshiProps → Bool → Progress → Bool
is_short_change p can_inject s =
    can_inject
    && (ltb_ℤ (pos 0) s.change_amount && ltb_ℤ s.change_amount s.builder.min_utxo_satoshi)

unfoldable pub change_address_of : SatoshiProps → String
change_address_of p = or_else p.change_address p.address

-- The call of `injectChange` in step 5: without a cache key and without the excluded UTXOs.
unfoldable pub change_props : SatoshiProps → ℤ → ChangeProps
change_props p amount = record {
  amount = amount;
  address = change_address_of p;
  from_address = p.address;
  from_public_key = p.public_key;
  internal_cache_key = none;
  exclude_utxos = none;
}

-- The call of `injectSatoshi` in `injectChange`.
unfoldable pub satoshi_props : ChangeProps → SatoshiProps
satoshi_props p = record {
  address = p.from_address;
  public_key = p.from_public_key;
  target_amount = p.amount;
  change_address = some p.address;
  inject_collected = some true;
  deduct_from_outputs = some false;
  internal_cache_key = p.internal_cache_key;
  exclude_utxos = p.exclude_utxos;
}

module _ (w : World) where
  -- The collected UTXOs become inputs, with the public key given.
  unfoldable pub take_collected : SatoshiProps → Progress → List Utxo × ℤ × Source → Result Progress
  take_collected p s (utxos, satoshi, source) = do
    b ← add_inputs w (map (with_pubkey p.public_key) utxos) (with_source source s.builder)
    ok (record {
      builder = b;
      collected = s.collected +ℤ satoshi;
      change_amount =
          change_of (or_else p.inject_collected false) (s.collected +ℤ satoshi) p.target_amount;
    })

  -- `_collect`
  unfoldable pub collect_more : SatoshiProps → ℤ → Progress → Result Progress
  collect_more p amount s = do
    r ←
        collect_satoshi w (query_of p s.builder) amount true p.internal_cache_key
          (map outpoint s.builder.inputs ++ or_else p.exclude_utxos []) s.builder.source
    take_collected p s r

  -- Step 2: from the address, if the target is not reached.
  unfoldable pub from_address : SatoshiProps → Progress → Result Progress
  from_address p s =
      if ltb_ℤ s.collected p.target_amount
      then collect_more p (p.target_amount -ℤ s.collected) s
      else ok s

  -- Step 3: once more from the address, for a change that is under the limit.
  unfoldable pub for_change : SatoshiProps → Bool → Progress → Result Progress
  for_change p can_inject s =
      if is_short_change p can_inject s
      then collect_more p (s.builder.min_utxo_satoshi -ℤ s.change_amount) s
      else ok s

  -- Steps 1 to 4.
  unfoldable pub gather : SatoshiProps → TxBuilder → Result Progress
  gather p b = do
    throw_if (not (is_supported_type (w.address_type_of p.address)))
        ErrorCode.unsupported_address_type
    s ← from_address p (from_outputs p b)
    let can_inject = can_inject_change_to_outputs (change_address_of p) s.builder
    s' ← for_change p can_inject s
    throw_if (ltb_ℤ s'.collected p.target_amount) ErrorCode.insufficient_utxo
    throw_if (is_short_change p can_inject s') ErrorCode.insufficient_utxo
    ok s'

  -- Step 5, with `injectChange` as an argument.
  unfoldable pub give_change :
      (ChangeProps → TxBuilder → Result (TxBuilder × ℤ)) → SatoshiProps → Progress → Result Injected
  give_change change p s =
      if ltb_ℤ (pos 0) s.change_amount
      then (do
        (b, index) ← change (change_props p s.change_amount) s.builder
        ok (record {
          builder = b;
          collected = s.collected;
          change_index = index;
          change_amount = s.change_amount;
        }))
      else ok (record {
        builder = s.builder;
        collected = s.collected;
        change_index = negsuc 0;
        change_amount = s.change_amount;
      })

  -- A change for which no output is found: collect more for it, or add an output.
  unfoldable pub new_change :
      (SatoshiProps → TxBuilder → Result Injected)
      → ChangeProps
      → TxBuilder
      → Result (TxBuilder × ℤ)
  new_change satoshi p b =
      if ltb_ℤ p.amount b.min_utxo_satoshi
      then (do
        injected ← satoshi (satoshi_props p) b
        throw_if (ltb_ℤ injected.collected p.amount) ErrorCode.insufficient_utxo
        ok (injected.builder, injected.change_index))
      else (do
        b' ← add_output w (change_output p.address p.amount) b
        ok (b', pos (length b'.outputs) -ℤ pos 1))

  -- `injectChange`, with `injectSatoshi` as an argument.
  unfoldable pub change_with :
      (SatoshiProps → TxBuilder → Result Injected)
      → ChangeProps
      → TxBuilder
      → Result (TxBuilder × ℤ)
  change_with satoshi p b = elim (return_to p.address p.amount b.outputs 0) [
    | none ↦ new_change satoshi p b
    | some (outputs, i) ↦ ok (record b { outputs = outputs }, pos i)
  ]

  unfoldable pub inject_satoshi : ℕ → SatoshiProps → TxBuilder → Result Injected
  inject_satoshi zero p b = out_of_fuel
  inject_satoshi (suc fuel) p b = do
    s ← gather p b
    give_change (change_with (inject_satoshi fuel)) p s

  unfoldable pub inject_change : ℕ → ChangeProps → TxBuilder → Result (TxBuilder × ℤ)
  inject_change fuel = change_with (inject_satoshi fuel)
