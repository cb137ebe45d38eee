-- ===== src/Btc/Source.antt =====
-- packages/btc/src/query/source.ts: the UTXO lists of an address and the collection of satoshi.
pub mod Collect
pub mod Query
use rgbpp_sdk.Common.{
  ℕ, suc, String, Bool, true, false, not, ◌&&◌, Option, none, some, List, [], ◌∷◌, map, any, str_eq,
  ltb, ◌==◌, if◌then◌else◌,
}
use rgbpp_sdk.Common.Int.{ℤ, pos, ◌+ℤ◌, leb_ℤ, ltb_ℤ}
use rgbpp_sdk.Btc.Error.{ErrorCode, Result, ok, err}
use rgbpp_sdk.Btc.Types.{BaseOutput, Utxo, Row, UtxoParams, World, Source}
use rgbpp_sdk.Btc.Cache.{get_utxos, set_utxos}

after_heights : Option ℕ → Option ℕ → Bool → Bool
after_heights (some h) (some k) later = if h == k then later else ltb k h
after_heights none none later = later
after_heights _ _ later = false

-- Whether the comparison of `sort` puts `a` after `b`: by block height, then by index. Against a
-- missing height the difference is NaN, which `sort` takes for 0.
unfoldable pub is_after : Row → Row → Bool
unfolding after_heights
is_after a b = after_heights a.block_height b.block_height (ltb b.vout a.vout)

-- `sort` as a stable insertion.
insert_row : Row → List Row → List Row
insert_row a [] = a ∷ []
insert_row a (b ∷ rows) = if is_after a b then b ∷ insert_row a rows else a ∷ b ∷ rows

unfoldable pub sort_rows : List Row → List Row
unfolding insert_row is_after
sort_rows [] = []
sort_rows (a ∷ rows) = insert_row a (sort_rows rows)

-- Whether a UTXO is one of those to leave out.
unfoldable pub is_excluded : List BaseOutput → Utxo → Bool
is_excluded exclude utxo = any (λ e. str_eq e.txid utxo.txid && (e.vout == utxo.vout)) exclude

-- The loop of `collectSatoshi`: take UTXOs until the target is reached.
unfoldable pub collect_from : ℤ → List BaseOutput → List Utxo → ℤ → List Utxo × ℤ
unfolding is_excluded
collect_from target exclude [] amount = ([], amount)
collect_from target exclude (u ∷ us) amount = elim (leb_ℤ target amount) [
  | true ↦ ([], amount)
  | false ↦ elim (is_excluded exclude u) [
    | true ↦ collect_from target exclude us amount
    | false ↦
        let (more, total) = collect_from target exclude us (amount +ℤ u.value) in (u ∷ more, total)
  ]
]

module _ (w : World) where
  -- `getUtxos`
  unfoldable pub utxos_of_rows : String → List Row → List Utxo
  unfolding sort_rows
  utxos_of_rows address rows =
      map
        (λ row. record {
          txid = row.txid;
          vout = row.vout;
          value = row.value;
          script_pk = w.script_pk_of address;
          address_type = w.address_type_of address;
          address = address;
          pubkey = none;
        })
        (sort_rows rows)

  ask : UtxoParams → Source → List Utxo × Source
  unfolding utxos_of_rows
  ask params source = (
    utxos_of_rows params.address (w.utxos source.asked params),
    record source { asked = suc source.asked },
  )

  remember : String → List Utxo × Source → List Utxo × Source
  remember key (us, source) = (us, record source { cache = set_utxos key us source.cache })

  -- `optionalCacheUtxos`; an empty key is no key.
  unfoldable pub optional_cache_utxos : Option String → UtxoParams → Source → List Utxo × Source
  unfolding ask remember get_utxos set_utxos
  optional_cache_utxos none params source = ask params source
  optional_cache_utxos (some key) params source =
      if str_eq key "" then ask params source else elim (get_utxos key source.cache) [
        | some us ↦ (us, source)
        | none ↦ remember key (ask params source)
      ]

  -- `collectSatoshi`: the UTXOs taken, their sum, and the source afterwards.
  unfoldable pub collect_satoshi :
      UtxoParams
      → ℤ
      → Bool
      → Option String
      → List BaseOutput
      → Source
      → Result (List Utxo × ℤ × Source)
  unfolding optional_cache_utxos collect_from
  collect_satoshi params target allow_insufficient key exclude source =
      let (utxos, source') = optional_cache_utxos key params source in
      let (collected, amount) = collect_from target exclude utxos (pos 0) in
      if not allow_insufficient && ltb_ℤ amount target
      then err ErrorCode.insufficient_utxo
      else ok (collected, amount, source')
