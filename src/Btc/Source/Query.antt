-- ===== src/Btc/Source/Query.antt =====
-- packages/btc/src/query/source.ts: `getOutput`, `getUtxo` and `getPaymasterOutput`.
use rgbpp_sdk.Common.{
  ℕ, String, Bool, false, not, ◌&&◌, Option, none, some, List, get_elem?, if◌then◌else◌, ◌≡◌, refl,
  subst, Bool-cases, Option-cases, inl, inr,
}
use rgbpp_sdk.Common.Int.{ℤ}
use rgbpp_sdk.Btc.Error.{ErrorCode, Result, ok, err, ◌>>=◌}
use rgbpp_sdk.Btc.Types.{Utxo, to_script, World}
use rgbpp_sdk.Btc.Utils.{remove0x}
use rgbpp_sdk.Btc.Builder.Outputs.{is_op_return_target}

pub record TxVout : Type 0 where
  pub script_pk : String
  pub address : String
  pub value : ℤ

-- The service's answer to getBtcTransaction, as far as it is read.
pub record BtcTransaction : Type 0 where
  pub vouts : List TxVout
  pub confirmed : Bool

-- `Output | Utxo`: the first has no address.
pub data Found : Type 0 where
  unspendable : String → ℕ → TxVout → Found
  spendable : Utxo → Found

-- The answer of the service to getRgbppPaymasterInfo: the address and the fee, or a missing resource.
abbrev pub Paymaster : Type 0
Paymaster = Option (String × ℤ)

module _ (w : World) (transaction : String → Option BtcTransaction) where
  unfoldable pub found_of : String → ℕ → TxVout → Found
  found_of txid index o =
      if is_op_return_target w (to_script (w.from_hex o.script_pk))
      then unspendable txid index o
      else spendable (record {
        txid = txid;
        vout = index;
        value = o.value;
        script_pk = o.script_pk;
        address_type = w.address_type_of o.address;
        address = o.address;
        pubkey = none;
      })

  unfoldable pub get_output : String → ℕ → Bool → Result (Option Found)
  get_output hash index require_confirmed = elim (transaction (remove0x hash)) [
    | none ↦ ok none
    | some tx ↦
        if require_confirmed && not tx.confirmed
        then err ErrorCode.unconfirmed_utxo
        else ok (elim (get_elem? tx.vouts index) [
          | none ↦ none
          | some o ↦ some (found_of (remove0x hash) index o)
        ])
  ]

  spend : Option Found → Result (Option Utxo)
  spend none = ok none
  spend (some (unspendable _ _ _)) = err ErrorCode.unspendable_output
  spend (some (spendable u)) = ok (some u)

  unfoldable pub get_utxo : String → ℕ → Bool → Result (Option Utxo)
  unfolding spend
  get_utxo hash index require_confirmed = do
    found ← get_output hash index require_confirmed
    spend found

  -- The UTXO is the output asked for.
  pub record IsOutputOf (hash : String) (index : ℕ) (require_confirmed : Bool) (u : Utxo)
      : Type 0 where
    pub txid : u.txid ≡ remove0x hash
    pub vout : u.vout ≡ index
    pub pays : is_op_return_target w (to_script (w.from_hex u.script_pk)) ≡ false
    pub tx : BtcTransaction
    pub known : transaction (remove0x hash) ≡ some tx
    pub is_confirmed : require_confirmed && not tx.confirmed ≡ false
    pub output : TxVout
    pub there : get_elem? tx.vouts index ≡ some output
    pub value : u.value ≡ output.value
    pub script_pk : u.script_pk ≡ output.script_pk
    pub address : u.address ≡ output.address
    pub address_type : u.address_type ≡ w.address_type_of output.address

  output-IsOutputOf :
      (hash : String) (index : ℕ) (require_confirmed : Bool) (u : Utxo) (tx : BtcTransaction)
      (o : TxVout)
      → transaction (remove0x hash) ≡ some tx
      → require_confirmed && not tx.confirmed ≡ false
      → get_elem? tx.vouts index ≡ some o
      → spend (some (found_of (remove0x hash) index o)) ≡ ok (some u)
      → IsOutputOf hash index require_confirmed u
  unfolding found_of spend
  output-IsOutputOf hash index require_confirmed u tx o known fine there h =
      let utxo : Utxo = record {
        txid = remove0x hash;
        vout = index;
        value = o.value;
        script_pk = o.script_pk;
        address_type = w.address_type_of o.address;
        address = o.address;
        pubkey = none;
      } in
      elim (Bool-cases (is_op_return_target w (to_script (w.from_hex o.script_pk)))) [
        | inl embeds ↦ cc (rw (embeds, found_of) at h)
        | inr pays ↦
            let same : utxo ≡ u = cc (rw (pays, found_of) at h) in
            subst (IsOutputOf hash index require_confirmed) same (record {
              txid = refl;
              vout = refl;
              pays = pays;
              tx = tx;
              known = known;
              is_confirmed = fine;
              output = o;
              there = there;
              value = refl;
              script_pk = refl;
              address = refl;
              address_type = refl;
            })
      ]

  -- A UTXO that `getUtxo` gives is the output asked for: it has that outpoint, and the value, the
  -- script and the address of the output that the transaction has at the index; it is no OP_RETURN
  -- output, and the transaction is confirmed if that is required.
  pub get_utxo-IsOutputOf :
      (hash : String) (index : ℕ) (require_confirmed : Bool) (u : Utxo)
      → get_utxo hash index require_confirmed ≡ ok (some u)
      → IsOutputOf hash index require_confirmed u
  unfolding get_utxo get_output
  get_utxo-IsOutputOf hash index require_confirmed u h =
      elim (Option-cases (transaction (remove0x hash))) [
        | inl missing ↦ cc (rw (missing, get_utxo, get_output) at h)
        | inr (tx, known) ↦ elim (Bool-cases (require_confirmed && not tx.confirmed)) [
          | inl refused ↦ cc (rw (known, refused, get_utxo, get_output) at h)
          | inr fine ↦ elim (Option-cases (get_elem? tx.vouts index)) [
            | inl absent ↦ cc (rw (known, fine, absent, get_utxo, get_output) at h)
            | inr (o, there) ↦
                output-IsOutputOf hash index require_confirmed u tx o known fine there
                  (rw (known, fine, there, get_utxo, get_output) at h)
          ]
        ]
      ]
