-- ===== src/Btc/Api/SendUtxos.antt =====
-- packages/btc/src/api/sendUtxos.ts: `createSendUtxosBuilder`.
use rgbpp_sdk.Common.{
  str_eq, ℕ, String, Bool, true, false, not, ◌&&◌, Option, none, List, [], ◌∷◌, ◌++◌, map, ◌≡◌,
  refl, ◌∙◌, sym, ap, subst, arith, or_else, All, Bool-cases, Option-cases, if◌then◌else◌, inl, inr,
  some,
}
use rgbpp_sdk.Common.Int.{ℤ, pos, ◌≤ℤ◌, int_laws}
use rgbpp_sdk.Btc.Error.{Result, ok, ◌>>=◌, >>=-eq-ok}
use rgbpp_sdk.Btc.Types.{BaseOutput, Utxo, TxInput, InitOutput, World, Source, TxBuilder}
use rgbpp_sdk.Btc.Utils.{btc_utxo_dust_limit, truthy}
use rgbpp_sdk.Btc.Utxos.{
  PubkeyMap, lookup, add_address_to_pubkey_map, prepare_utxo_inputs, fill_pubkeys, fill_utxo_pubkey,
  require_confirmed,
}
use rgbpp_sdk.Btc.Builder.Outputs.{new_builder, add_inputs, add_outputs, outputs_total}
use rgbpp_sdk.Btc.Builder.Fee.{FeeProps, Paid, pay_fee}
use rgbpp_sdk.Btc.Builder.FeeBounds.{IsPaid, pay_fee-IsPaid}
use rgbpp_sdk.Btc.Builder.Kept.{fixed_outputs}
use rgbpp_sdk.Btc.Builder.NoDust.{IsClean, AtLimit}
use rgbpp_sdk.Btc.Builder.Distinct.{AreDistinct, Steps-AreDistinct}
use rgbpp_sdk.Btc.Builder.Steps.{add_inputs-Steps}
use rgbpp_sdk.Btc.Builder.FeeSteps.{
  pay_fee-fixed, pay_fee-inputs, pay_fee-IsClean, pay_fee-AreDistinct,
}
use rgbpp_sdk.Btc.Builder.Added.{made_of, add_inputs-AddedInputs, add_outputs-AddedOutputs}
use rgbpp_sdk.Common.Outcome.{ok-injective}

pub record SendUtxosProps : Type 0 where
  pub inputs : List Utxo
  pub outputs : List InitOutput
  pub source : Source
  pub from_address : String
  pub fee_rate : Option ℕ
  pub from_pubkey : Option String
  pub change_address : Option String
  pub min_utxo_satoshi : Option ℤ
  pub only_confirmed_utxos : Option Bool
  pub exclude_utxos : Option (List BaseOutput)
  pub skip_inputs_validation : Option Bool
  pub pubkey_map : Option PubkeyMap

-- The rounds and the depth of the calls that `pay_fee` may take, and the key of its cache.
pub record Limits : Type 0 where
  pub rounds : ℕ
  pub depth : ℕ
  pub key : String

unfoldable pub pubkeys_of : SendUtxosProps → PubkeyMap
pubkeys_of p = add_address_to_pubkey_map (or_else p.pubkey_map []) p.from_address p.from_pubkey

-- What `payFee` is called with.
unfoldable pub fee_props : SendUtxosProps → FeeProps
fee_props p = record {
  address = p.from_address;
  public_key = lookup p.from_address (pubkeys_of p);
  change_address = p.change_address;
  deduct_from_outputs = none;
  exclude_utxos = p.exclude_utxos;
  fee_rate = none;
}

-- `onlyConfirmedUtxos && !skipInputsValidation`
unfoldable pub must_be_confirmed : SendUtxosProps → Bool
must_be_confirmed p =
    or_else p.only_confirmed_utxos false && not (or_else p.skip_inputs_validation false)

module _ (w : World) where
  unfoldable pub create_send_utxos_builder : Limits → SendUtxosProps → Result Paid
  create_send_utxos_builder limits p = do
    tx ← new_builder p.source none p.only_confirmed_utxos p.min_utxo_satoshi p.fee_rate
    inputs ← prepare_utxo_inputs w (pubkeys_of p) true (must_be_confirmed p) p.inputs
    tx ← add_inputs w inputs tx
    tx ← add_outputs w p.outputs tx
    pay_fee w limits.rounds limits.depth (fee_props p) limits.key tx

  new_builder-empty :
      (source : Source) (only_non_rgbpp only_confirmed : Option Bool) (min : Option ℤ)
      (rate : Option ℕ) {b : TxBuilder}
      → new_builder source only_non_rgbpp only_confirmed min rate ≡ ok b
      → (b.inputs ≡ []) × (b.outputs ≡ [])
  unfolding new_builder
  new_builder-empty source only_non_rgbpp only_confirmed min rate h =
      let (limit, _, k) = >>=-eq-ok (btc_utxo_dust_limit source.network_type) _ h in
      ground (arith, k)

  map-append :
      (xs ys : List TxInput)
      → map (λ i. i.utxo) (xs ++ ys) ≡ map (λ i. i.utxo) xs ++ map (λ i. i.utxo) ys
  map-append [] ys = refl
  map-append (x ∷ xs) ys = ap (λ us. x.utxo ∷ us) (map-append xs ys)

  -- The builder before `payFee`.
  record Prepared (p : SendUtxosProps) (b : TxBuilder) : Type 0 where
    filled : List Utxo
    inputs : map (λ i. i.utxo) b.inputs ≡ filled
    is_filled : prepare_utxo_inputs w (pubkeys_of p) true (must_be_confirmed p) p.inputs ≡ ok filled
    outputs : b.outputs ≡ map (made_of w) p.outputs
    clean : IsClean w b
    distinct : AreDistinct b.inputs

  create-Prepared :
      (limits : Limits) (p : SendUtxosProps) (r : Paid)
      → create_send_utxos_builder limits p ≡ ok r
      → (b : TxBuilder) × Prepared p b
        × (pay_fee w limits.rounds limits.depth (fee_props p) limits.key b ≡ ok r)
  unfolding create_send_utxos_builder
  create-Prepared limits p r h =
      let (b0, e0, h0) =
        >>=-eq-ok (new_builder p.source none p.only_confirmed_utxos p.min_utxo_satoshi p.fee_rate) _
          h in
      let (no_inputs, no_outputs) = new_builder-empty p.source _ _ _ _ e0 in
      let (us, e1, h1) =
        >>=-eq-ok (prepare_utxo_inputs w (pubkeys_of p) true (must_be_confirmed p) p.inputs) _ h0 in
      let (b1, e2, h2) = >>=-eq-ok (add_inputs w us b0) _ h1 in
      let (b2, e3, paid) = >>=-eq-ok (add_outputs w p.outputs b1) _ h2 in
      let ai = add_inputs-AddedInputs w us b0 e2 in
      let ao = add_outputs-AddedOutputs w p.outputs b1 e3 in
      let distinct =
        Steps-AreDistinct w (add_inputs-Steps w us b0 e2) (subst AreDistinct (sym no_inputs) tt) in
      let outputs : b2.outputs ≡ map (made_of w) p.outputs =
        ao.outputs ∙ ap (λ os. os ++ map (made_of w) p.outputs) (ai.outputs ∙ no_outputs) in
      (
        b2,
        record {
          filled = us;
          inputs =
              ap (map (λ i. i.utxo)) (ao.inputs ∙ (ai.inputs ∙ ap (λ is. is ++ ai.news) no_inputs))
              ∙ ai.utxos;
          is_filled = e1;
          outputs = outputs;
          clean =
              subst (λ m. All (AtLimit w m) b2.outputs) (sym ao.limit)
                (subst (All (AtLimit w b1.min_utxo_satoshi)) (sym outputs) ao.clean);
          distinct = subst AreDistinct (sym ao.inputs) distinct;
        },
        paid,
      )

-- The key that is known for an address: `fromPubkey` for the sender's, else that of the map.
abbrev pub key_of : SendUtxosProps → String → Option String
key_of p address = elim p.from_pubkey [
  | none ↦ lookup address (or_else p.pubkey_map [])
  | some key ↦
      if not (str_eq key "") && str_eq p.from_address address
      then some key
      else lookup address (or_else p.pubkey_map [])
]

lookup-pubkeys_of :
    (p : SendUtxosProps) (address : String) → lookup address (pubkeys_of p) ≡ key_of p address
unfolding pubkeys_of add_address_to_pubkey_map lookup
lookup-pubkeys_of p address = elim (Option-cases p.from_pubkey) [
  | inl none_given ↦ rw none_given refl
  | inr (key, given) ↦ elim (Bool-cases (str_eq key "")) [
    | inl empty ↦ rw (given, empty) refl
    | inr filled ↦ rw (given, filled) refl
  ]
]

-- The UTXO given, with a key if it is a P2TR output without one: then there is one for its address.
abbrev pub IsFilled : World → SendUtxosProps → Utxo → Utxo → Type 0
IsFilled w p u v =
    (v ≡ record u { pubkey = v.pubkey })
    × ((w.is_p2tr_script u.script_pk && not (truthy u.pubkey)) ≡ false → v.pubkey ≡ u.pubkey)
    × ((w.is_p2tr_script u.script_pk && not (truthy u.pubkey)) ≡ true
        → (v.pubkey ≡ key_of p u.address) × (truthy v.pubkey ≡ true))

abbrev pub AreFilled : World → SendUtxosProps → List Utxo → List Utxo → Type 0
AreFilled w p [] [] = Unit
AreFilled w p [] (v ∷ vs) = true ≡ false
AreFilled w p (u ∷ us) [] = true ≡ false
AreFilled w p (u ∷ us) (v ∷ vs) = IsFilled w p u v × AreFilled w p us vs

fill_utxo_pubkey-IsFilled :
    (w : World) (p : SendUtxosProps) (u v : Utxo)
    → fill_utxo_pubkey w (pubkeys_of p) true u ≡ ok v
    → IsFilled w p u v
unfolding fill_utxo_pubkey
fill_utxo_pubkey-IsFilled w p u v h =
    let known = lookup-pubkeys_of p u.address in
    elim (Bool-cases (w.is_p2tr_script u.script_pk && not (truthy u.pubkey))) [
      | inr has_key ↦
          subst (IsFilled w p u) (ok-injective _ refl (rw has_key at h))
            (refl, λ k. refl, λ k. cc (has_key, k))
      | inl without ↦ elim (Bool-cases (truthy (lookup u.address (pubkeys_of p)))) [
        | inl found ↦
            subst (IsFilled w p u) (ok-injective _ refl (rw (without, found) at h))
              (refl, λ k. cc (without, k), λ k. (known, found))
        | inr missing ↦ cc (rw (without, missing) at h)
      ]
    ]

fill_pubkeys-AreFilled :
    (w : World) (p : SendUtxosProps) (us vs : List Utxo)
    → fill_pubkeys w (pubkeys_of p) true us ≡ ok vs
    → AreFilled w p us vs
unfolding fill_pubkeys
fill_pubkeys-AreFilled w p [] vs h = subst (AreFilled w p []) (ok-injective _ refl h) tt
fill_pubkeys-AreFilled w p (u ∷ us) vs h =
    let (v, e, h1) = >>=-eq-ok (fill_utxo_pubkey w (pubkeys_of p) true u) _ h in
    let (rest, f, h2) = >>=-eq-ok (fill_pubkeys w (pubkeys_of p) true us) _ h1 in
    subst (AreFilled w p (u ∷ us)) (ok-injective _ refl h2)
      (fill_utxo_pubkey-IsFilled w p u v e, fill_pubkeys-AreFilled w p us rest f)

prepare-AreFilled :
    (w : World) (p : SendUtxosProps) (confirmed : Bool) (us vs : List Utxo)
    → prepare_utxo_inputs w (pubkeys_of p) true confirmed us ≡ ok vs
    → AreFilled w p us vs
unfolding prepare_utxo_inputs
prepare-AreFilled w p confirmed us vs h =
    let (filled, e, h1) = >>=-eq-ok (fill_pubkeys w (pubkeys_of p) true us) _ h in
    let (_, _, h2) = >>=-eq-ok (if confirmed then require_confirmed w filled else ok tt) _ h1 in
    subst (AreFilled w p us) (ok-injective _ refl h2) (fill_pubkeys-AreFilled w p us filled e)

-- The transaction that was asked for: it spends the UTXOs given, then others; its fixed outputs are
-- those given, in their order; no output is dust, and nothing is spent twice.
pub record IsSent (w : World) (p : SendUtxosProps) (b : TxBuilder) : Type 0 where
  pub filled : List Utxo
  pub are_filled : AreFilled w p p.inputs filled
  pub news : List Utxo
  pub spent : map (λ i. i.utxo) b.inputs ≡ filled ++ news
  pub fixed : fixed_outputs b.outputs ≡ fixed_outputs (map (made_of w) p.outputs)
  pub clean : IsClean w b
  pub distinct : AreDistinct b.inputs

-- When `createSendUtxosBuilder` returns, the transaction first spends the UTXOs given, in their
-- order, each as it was given but with a public key where it is a P2TR output without one: that of
-- the caller for its address; its fixed outputs are the fixed ones of those given, in
-- their order; no output is dust and no two inputs have the same outpoint.
pub create_send_utxos_builder-IsSent :
    (w : World) (limits : Limits) (p : SendUtxosProps) (r : Paid)
    → create_send_utxos_builder w limits p ≡ ok r
    → IsSent w p r.builder
create_send_utxos_builder-IsSent w limits p r h =
    let (b, q, paid) = create-Prepared w limits p r h in
    let (news, inputs) = pay_fee-inputs w _ _ _ _ b r paid in
    record {
      filled = q.filled;
      are_filled = prepare-AreFilled w p (must_be_confirmed p) p.inputs q.filled q.is_filled;
      news = map (λ i. i.utxo) news;
      spent =
          ap (map (λ i. i.utxo)) inputs
          ∙ (map-append w b.inputs news ∙ ap (λ us. us ++ map (λ i. i.utxo) news) q.inputs);
      fixed = pay_fee-fixed w _ _ _ _ b r paid ∙ ap fixed_outputs q.outputs;
      clean = pay_fee-IsClean w _ _ _ _ b r q.clean paid;
      distinct = pay_fee-AreDistinct w _ _ _ _ b r q.distinct paid;
    }

no_debt_of :
    (w : World) (os : List InitOutput)
    → All (λ o. pos 0 ≤ℤ o.value) os
    → pos 0 ≤ℤ outputs_total (map (made_of w) os)
unfolding outputs_total
no_debt_of w [] h = omega arith
no_debt_of w (o ∷ os) (h, hs) = let rest = no_debt_of w os hs in omega (int_laws, h, rest)

-- When `createSendUtxosBuilder` returns for outputs whose values are not negative, the inputs less
-- the outputs are the fee that it reports, within one satoshi.
pub create_send_utxos_builder-IsPaid :
    (w : World) (limits : Limits) (p : SendUtxosProps) (r : Paid)
    → All (λ o. pos 0 ≤ℤ o.value) p.outputs
    → create_send_utxos_builder w limits p ≡ ok r
    → IsPaid r.builder r.fee
create_send_utxos_builder-IsPaid w limits p r values h =
    let (b, q, paid) = create-Prepared w limits p r h in
    pay_fee-IsPaid w _ _ _ _ b r
      (subst (λ os. pos 0 ≤ℤ outputs_total os) (sym q.outputs) (no_debt_of w p.outputs values)) paid
