-- ===== src/Ckb/Types.antt =====
-- The data of packages/ckb/src/types and of CKBComponents. A hex text is the list of its bytes, and a
-- capacity the number that its hex text denotes.
use rgbpp_sdk.Common.{ℕ, Bool, String, Option, List}

abbrev pub Hex : Type 0
Hex = List ℕ

pub data HashType : Type 0 where
  by_data by_type by_data1 : HashType

pub record Script : Type 0 where
  pub code_hash : String
  pub hash_type : HashType
  pub args : Hex

pub record OutPoint : Type 0 where
  pub tx_hash : String
  pub index : ℕ

pub data DepType : Type 0 where
  code_dep dep_group : DepType

pub record CellDep : Type 0 where
  pub out_point : OutPoint
  pub dep_type : DepType

-- A dep of a transaction; `none` is an `undefined` that was put among them.
abbrev pub Dep : Type 0
Dep = Option CellDep

pub record CellOutput : Type 0 where
  pub capacity : ℕ
  pub lock : Script
  pub type_script : Option Script

pub record IndexerCell : Type 0 where
  pub out_point : OutPoint
  pub output : CellOutput
  pub output_data : Hex

-- The inputs are their previous outputs: `since` is 0 in each, and so is the version.
pub record RawTx : Type 0 where
  pub cell_deps : List Dep
  pub inputs : List OutPoint
  pub outputs : List CellOutput
  pub outputs_data : List Hex
  pub witnesses : List Hex

pub data BtcTestnetType : Type 0 where
  testnet3 signet : BtcTestnetType

-- An address of CKB, as it is read: whether its text starts with `ckb`, and what `addressToScript`
-- makes of it.
pub record Address : Type 0 where
  pub is_mainnet : Bool
  pub lock : Script

-- What `getCells` is asked for; the lock is always given.
pub record CellQuery : Type 0 where
  pub lock : Script
  pub type_script : Option Script
  pub is_data_must_be_empty : Bool
  pub output_capacity_range : Option (ℕ × ℕ)

-- A witness of a transaction to sign: a hex text, or an object whose three parts are empty.
pub data Witness : Type 0 where
  hex_witness : Hex → Witness
  empty_witness : Witness

pub record RawTxToSign : Type 0 where
  pub cell_deps : List Dep
  pub inputs : List OutPoint
  pub outputs : List CellOutput
  pub outputs_data : List Hex
  pub witnesses : List Witness
