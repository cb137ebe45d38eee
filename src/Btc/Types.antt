-- ===== src/Btc/Types.antt =====
-- The data of packages/btc/src/transaction/{utxo,build}.ts, preset/types.ts and address.ts, and the
-- interface of the code that is not in the repository (bitcoinjs-lib, Node's Buffer, the service).
-- Amounts are integers: JavaScript numbers whose differences may be negative.
use rgbpp_sdk.Common.{ℕ, String, Bool, Option, List}
use rgbpp_sdk.Common.Int.{ℤ}

abbrev pub Bytes : Type 0
Bytes = List ℕ

pub data AddressType : Type 0 where
  p2pkh p2wpkh p2tr p2sh_p2wpkh p2wsh p2sh unknown : AddressType

pub data NetworkType : Type 0 where
  mainnet testnet regtest : NetworkType

pub record BaseOutput : Type 0 where
  pub txid : String
  pub vout : ℕ

pub record Utxo : Type 0 where
  pub txid : String
  pub vout : ℕ
  pub value : ℤ
  pub script_pk : String
  pub address_type : AddressType
  pub address : String
  pub pubkey : Option String

pub record TxInputData : Type 0 where
  pub hash : String
  pub index : ℕ
  pub value : ℤ
  pub script : Bytes
  pub tap_internal_key : Option Bytes

pub record TxInput : Type 0 where
  pub inputs_data : TxInputData
  pub utxo : Utxo

pub data Target : Type 0 where
  to_address : String → Target
  to_script : Bytes → Target

-- `fixed` and `protected` are optional in the source; undefined is tested as false.
pub record TxOutput : Type 0 where
  pub target : Target
  pub value : ℤ
  pub fixed : Bool
  pub protected : Bool
  pub min_utxo_satoshi : Option ℤ

-- What `addOutput` is given: an address, a script, data as bytes or as a hex string, or an object
-- that has none of the keys.
pub data InitTarget : Type 0 where
  at_address : String → InitTarget
  at_script : Bytes → InitTarget
  with_data : Bytes → InitTarget
  with_hex : String → InitTarget
  with_none : InitTarget

pub record InitOutput : Type 0 where
  pub target : InitTarget
  pub value : ℤ
  pub fixed : Bool
  pub protected : Bool
  pub min_utxo_satoshi : Option ℤ

-- A chunk of a decompiled script: an opcode or pushed bytes.
pub data Chunk : Type 0 where
  op : ℕ → Chunk
  push : Bytes → Chunk

-- A row of the service's answer to getBtcUtxos; the height is missing while unconfirmed.
pub record Row : Type 0 where
  pub txid : String
  pub vout : ℕ
  pub value : ℤ
  pub block_height : Option ℕ

pub record UtxoParams : Type 0 where
  pub address : String
  pub only_non_rgbpp_utxos : Bool
  pub only_confirmed : Bool
  pub min_satoshi : Option ℤ
  pub no_cache : Bool

-- The sizes of the estimated transaction that `calculateFee` reads: the number of its inputs, and
-- its length in bytes with and without witnesses.
pub record TxMeasure : Type 0 where
  pub ins : ℕ
  pub with_witness : ℕ
  pub without_witness : ℕ

-- What the source calls and does not implement. The service may give another answer each time that
-- it is asked: the first argument of `utxos` counts the queries.
pub record World : Type 0 where
  pub from_hex : String → Bytes
  pub decompile : Bytes → Option (List Chunk)
  pub embed : Bytes → Bytes
  pub is_p2tr_script : String → Bool
  pub address_type_of : String → AddressType
  pub script_pk_of : String → String
  pub utxos : ℕ → UtxoParams → List Row
  pub is_confirmed : String → Bool
  pub fastest_fee : ℕ
  pub measure : List TxInput → List TxOutput → TxMeasure

-- The data source: its network, its cache of UTXO lists by key, and the number of queries made.
pub record Source : Type 0 where
  pub network_type : NetworkType
  pub cache : List (String × List Utxo)
  pub asked : ℕ

pub record TxBuilder : Type 0 where
  pub inputs : List TxInput
  pub outputs : List TxOutput
  pub source : Source
  pub only_non_rgbpp_utxos : Bool
  pub only_confirmed_utxos : Bool
  pub min_utxo_satoshi : ℤ
  pub fee_rate : Option ℕ
