-- ===== src/Btc/Cache.antt =====
-- packages/btc/src/query/cache.ts: UTXO lists by key.
use rgbpp_sdk.Common.{String, Option, none, some, List, [], ◌∷◌, str_eq, if◌then◌else◌}
use rgbpp_sdk.Btc.Types.{Utxo}

abbrev pub Cache : Type 0
Cache = List (String × List Utxo)

unfoldable pub get_utxos : String → Cache → Option (List Utxo)
get_utxos key [] = none
get_utxos key ((k, us) ∷ c) = if str_eq k key then some us else get_utxos key c

unfoldable pub set_utxos : String → List Utxo → Cache → Cache
set_utxos key us [] = (key, us) ∷ []
set_utxos key us ((k, vs) ∷ c) = if str_eq k key then (k, us) ∷ c else (k, vs) ∷ set_utxos key us c

unfoldable pub clean_utxos : String → Cache → Cache
clean_utxos key [] = []
clean_utxos key ((k, vs) ∷ c) = if str_eq k key then c else (k, vs) ∷ clean_utxos key c
