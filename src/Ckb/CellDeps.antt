-- ===== src/Ckb/CellDeps.antt =====
-- packages/ckb/src/utils/cell-dep.ts: the cell deps of the scripts that may be upgraded.
use rgbpp_sdk.Common.{
  Bool, true, false, String, Option, none, some, List, [], ◌∷◌, ◌++◌, any, str_eq, if◌then◌else◌,
  or_else,
}
use rgbpp_sdk.Ckb.Error.{CkbError, CkbResult, ok, err, ◌>>=◌}
use rgbpp_sdk.Ckb.Types.{Script, CellDep, Dep, BtcTestnetType, testnet3, signet}
use rgbpp_sdk.Ckb.Scripts.{CkbWorld, is_standard_udt_type_supported}
use rgbpp_sdk.Ckb.Constants.{
  get_rgbpp_lock_dep, get_btc_time_lock_dep, get_xudt_dep, get_unique_type_dep,
  get_utxo_airdrop_badge_type_dep,
}

-- The deps of a script on each network.
pub record NetworkDeps : Type 0 where
  pub on_mainnet : CellDep
  pub on_testnet : CellDep
  pub on_signet : CellDep

-- The JSON that is fetched or given; any part of it may be missing.
pub record CellDepsObject : Type 0 where
  pub rgbpp : Option NetworkDeps
  pub btc_time : Option NetworkDeps
  pub xudt : Option CellDep
  pub unique : Option CellDep
  pub utxo_airdrop_badge : Option (CellDep × CellDep)
  pub compatible_xudt : Option (String → Option CellDep)

-- What an HTTP request comes to: nothing where it fails, else the body of the answer, if any.
abbrev pub Answer : Type 0
Answer = Option (Option CellDepsObject)

-- `Promise.any` of the two static sources comes to the first answer, which is a parameter.
unfoldable pub fetch_from_static_source : Answer → Option CellDepsObject
fetch_from_static_source none = none
fetch_from_static_source (some body) = body

unfoldable pub fetch_cell_deps_json : Answer → Answer → Option CellDepsObject
fetch_cell_deps_json (some (some object)) static_answer = some object
fetch_cell_deps_json (some none) static_answer = fetch_from_static_source static_answer
fetch_cell_deps_json none static_answer = fetch_from_static_source static_answer

pub record CellDepsSelected : Type 0 where
  pub rgbpp : Bool
  pub btc_time : Bool
  pub xudt : Bool
  pub unique : Bool
  pub utxo_airdrop_badge : Bool
  pub compatible_xudt_code_hashes : List String

abbrev pub nothing_selected : CellDepsSelected
nothing_selected = record {
  rgbpp = false;
  btc_time = false;
  xudt = false;
  unique = false;
  utxo_airdrop_badge = false;
  compatible_xudt_code_hashes = [];
}

-- Signet is asked for first, on the mainnet too.
unfoldable pub dep_of_network : Bool → BtcTestnetType → NetworkDeps → CellDep
dep_of_network is_mainnet signet deps = deps.on_signet
dep_of_network true testnet3 deps = deps.on_mainnet
dep_of_network false testnet3 deps = deps.on_testnet

-- The dep of a lock and of its config cell, the next output of the deployment.
unfoldable pub with_config : CellDep → List Dep
with_config dep =
    some dep ∷ some (record dep { out_point = record dep.out_point { index = 1 } }) ∷ []

unfoldable pub lock_deps : Bool → BtcTestnetType → CellDep → Option NetworkDeps → List Dep
lock_deps is_mainnet net fallback none = with_config fallback
lock_deps is_mainnet net fallback (some deps) = with_config (dep_of_network is_mainnet net deps)

-- On the mainnet the fallback, which is then a constant, is always taken.
unfoldable pub type_deps : Bool → CellDep → Option CellDep → List Dep
type_deps true fallback fetched = some fallback ∷ []
type_deps false fallback fetched = some (or_else fetched fallback) ∷ []

unfoldable pub badge_deps : Bool → CellDep → Option (CellDep × CellDep) → List Dep
badge_deps is_mainnet fallback none = some fallback ∷ []
badge_deps true fallback (some (on_mainnet, on_testnet)) = some on_mainnet ∷ []
badge_deps false fallback (some (on_mainnet, on_testnet)) = some on_testnet ∷ []

-- `new Set(codeHashes.map(h => compatibleXudt[h]))`: the entries of the JSON are distinct objects,
-- so two are the same where their code hashes are; `undefined` is kept once. The first argument
-- holds the hashes that were found, and the second whether `undefined` was met.
unfoldable pub compatible_deps :
    List String → Bool → (String → Option CellDep) → List String → List Dep
compatible_deps seen missed deps_by_hash [] = []
compatible_deps seen missed deps_by_hash (hash ∷ hashes) =
    let skipped = compatible_deps seen missed deps_by_hash hashes in
    let missing = compatible_deps seen true deps_by_hash hashes in
    let found = compatible_deps (hash ∷ seen) missed deps_by_hash hashes in
    elim (deps_by_hash hash) [
      | none ↦ if missed then skipped else none ∷ missing
      | some dep ↦ if any (str_eq hash) seen then skipped else some dep ∷ found
    ]

-- That the list of deps is empty is never true here: it has an entry for each code hash.
unfoldable pub compatible_part :
    List String → Option (String → Option CellDep) → CkbResult (List Dep)
compatible_part [] deps = ok []
compatible_part (hash ∷ hashes) none = err CkbError.plain_error
compatible_part (hash ∷ hashes) (some deps) = ok (compatible_deps [] false deps (hash ∷ hashes))

-- The parts of an object that may be missing itself: `cellDepsObj?.rgbpp` and the like.
unfoldable pub part_of :
    {A : Type 0} → (CellDepsObject → Option A) → Option CellDepsObject → Option A
part_of field none = none
part_of field (some object) = field object

-- The object is `vendorCellDeps ?? await fetchCellDepsJson()`.
unfoldable pub fetch_type_id_cell_deps :
    Bool → CellDepsSelected → BtcTestnetType → Option CellDepsObject → CkbResult (List Dep)
fetch_type_id_cell_deps is_mainnet selected net object = do
  let rgbpp =
      if selected.rgbpp
      then lock_deps is_mainnet net (get_rgbpp_lock_dep is_mainnet net)
          (part_of (λ o. o.rgbpp) object)
      else []
  let btc_time =
      if selected.btc_time
      then lock_deps is_mainnet net (get_btc_time_lock_dep is_mainnet net)
          (part_of (λ o. o.btc_time) object)
      else []
  let xudt =
      if selected.xudt
      then type_deps is_mainnet (get_xudt_dep is_mainnet) (part_of (λ o. o.xudt) object)
      else []
  let unique =
      if selected.unique
      then type_deps is_mainnet (get_unique_type_dep is_mainnet) (part_of (λ o. o.unique) object)
      else []
  let badge =
      if selected.utxo_airdrop_badge
      then badge_deps is_mainnet (get_utxo_airdrop_badge_type_dep is_mainnet)
          (part_of (λ o. o.utxo_airdrop_badge) object)
      else []
  compatible ←
      compatible_part selected.compatible_xudt_code_hashes (part_of (λ o. o.compatible_xudt) object)
  ok (rgbpp ++ (btc_time ++ (xudt ++ (unique ++ (badge ++ compatible)))))

-- What the transfers and the jumps fetch for a token; the flag is whether the RGB++ lock is needed.
unfoldable pub udt_cell_deps :
    CkbWorld → Bool → Bool → BtcTestnetType → Script → Option CellDepsObject → CkbResult (List Dep)
udt_cell_deps w rgbpp is_mainnet net xudt object =
    let is_standard = is_standard_udt_type_supported w xudt is_mainnet in
    let hashes : List String = if is_standard then [] else xudt.code_hash ∷ [] in
    let selected : CellDepsSelected = record nothing_selected {
      rgbpp = rgbpp;
      xudt = is_standard;
      compatible_xudt_code_hashes = hashes;
    } in
    fetch_type_id_cell_deps is_mainnet selected net object

-- `vendorCellDeps ?? (await fetchCellDepsJson())`, where what is fetched is given.
unfoldable pub given_or : Option CellDepsObject → Option CellDepsObject → Option CellDepsObject
given_or none fetched = fetched
given_or (some object) fetched = some object
