-- ===== src/Btc/Api/SendRbf.antt =====
-- packages/btc/src/api/sendRbf.ts: `createSendRbfBuilder`, which replaces a transaction.
use rgbpp_sdk.Common.{
  ℕ, zero, suc, ◌+◌, ◌/◌, String, Bool, true, false, not, ◌&&◌, Option, none, some, List, [], ◌∷◌,
  length, get_elem?, take, str_eq, ◌==◌, if◌then◌else◌, or_else, ◌≡◌, subst, Bool-cases,
  Option-cases, ap, inl, inr, refl, sym, ◌∙◌, ◌⊎◌,
}
use rgbpp_sdk.Common.Int.{ℤ, pos, negsuc, ◌+ℤ◌, ◌-ℤ◌, leb_ℤ}
use rgbpp_sdk.Btc.Error.{
  ErrorCode, Result, ok, err, ◌>>=◌, ◌>>◌, throw_if, >>=-eq-ok, throw_if-eq-ok,
}
use rgbpp_sdk.Btc.Types.{
  Bytes, BaseOutput, Utxo, to_script, at_address, at_script, InitOutput, World, Source,
}
use rgbpp_sdk.Btc.Utils.{btc_utxo_dust_limit, truthy}
use rgbpp_sdk.Btc.Utxos.{PubkeyMap}
use rgbpp_sdk.Btc.Source.Query.{BtcTransaction, get_utxo, IsOutputOf, get_utxo-IsOutputOf}
use rgbpp_sdk.Btc.Builder.Outputs.{is_op_return_target}
use rgbpp_sdk.Btc.Builder.Fee.{Paid, is_rate}
use rgbpp_sdk.Btc.Api.SendUtxos.{
  SendUtxosProps, Limits, create_send_utxos_builder, IsSent, create_send_utxos_builder-IsSent,
}
use rgbpp_sdk.Common.Outcome.{ok-injective}

pub record SendRbfProps : Type 0 where
  pub from_address : String
  pub source : Source
  pub fee_rate : Option ℕ
  pub from_pubkey : Option String
  pub change_index : Option ℕ
  pub change_address : Option String
  pub min_utxo_satoshi : Option ℤ
  pub only_confirmed_utxos : Option Bool
  pub require_valid_outputs_value : Option Bool
  pub require_greater_fee_and_rate : Option Bool
  pub pubkey_map : Option PubkeyMap

pub record PreviousOutput : Type 0 where
  pub script : Bytes
  pub value : ℤ

-- The transaction that is replaced, as bitcoinjs-lib reads it: the outpoints it spends, its
-- outputs, its virtual size and its id.
pub record PreviousTx : Type 0 where
  pub ins : List BaseOutput
  pub outs : List PreviousOutput
  pub virtual_size : ℕ
  pub id : String

-- `Math.floor(a / n)`
unfoldable pub floor_div : ℤ → ℕ → ℤ
floor_div (pos a) n = pos (a / n)
floor_div (negsuc a) n = negsuc (a / n)

unfoldable pub values_of : List Utxo → ℤ
values_of [] = pos 0
values_of (u ∷ us) = u.value +ℤ values_of us

unfoldable pub previous_values : List PreviousOutput → ℤ
previous_values [] = pos 0
previous_values (o ∷ os) = o.value +ℤ previous_values os

unfoldable pub previous_fee : List Utxo → PreviousTx → ℤ
previous_fee inputs tx = values_of inputs -ℤ previous_values tx.outs

-- The outputs of the previous transaction, by their positions from the one given.
unfoldable pub outpoints_from : String → ℕ → List PreviousOutput → List BaseOutput
outpoints_from id i [] = []
outpoints_from id i (o ∷ os) = record { txid = id; vout = i } ∷ outpoints_from id (suc i) os

-- `'address' in output`
unfoldable pub address_of : InitOutput → Option String
address_of o = elim o.target [ at_address a ↦ some a | _ ↦ none ]

-- The change output that stays: it gets the limit, and the change can be added to it.
unfoldable pub open_for_change : ℤ → InitOutput → InitOutput
open_for_change min o = record o {
  min_utxo_satoshi = some min;
  value = min;
  protected = true;
  fixed = false;
}

unfoldable pub set_at : ℕ → InitOutput → List InitOutput → List InitOutput
set_at i o [] = []
set_at zero o (x ∷ xs) = o ∷ xs
set_at (suc i) o (x ∷ xs) = x ∷ set_at i o xs

-- Two addresses that are given and differ.
unfoldable pub differ : String → Option String → Bool
differ a none = false
differ a (some b) = truthy (some a) && truthy (some b) && not (str_eq b a)

unfoldable pub chosen_change : String → Option String → Option String
chosen_change a change = if truthy (some a) && not (truthy change) then some a else change

module _ (w : World) (transaction : String → Option BtcTransaction)
    (address_of_script : Bytes → Option String) where
  unfoldable pub rebuild_inputs : List BaseOutput → Result (List Utxo)
  rebuild_inputs [] = ok []
  rebuild_inputs (i ∷ is) = do
    found ← get_utxo w transaction i.txid i.vout false
    u ← elim found [ none ↦ err ErrorCode.cannot_find_utxo | some u ↦ ok u ]
    us ← rebuild_inputs is
    ok (u ∷ us)

  -- A script without an address makes `fromOutputScript` throw.
  unfoldable pub rebuild_output : Bool → PreviousOutput → Result InitOutput
  rebuild_output require_valid o =
      if is_op_return_target w (to_script o.script)
      then ok (record {
        target = at_script o.script;
        value = o.value;
        fixed = true;
        protected = false;
        min_utxo_satoshi = none;
      })
      else elim (address_of_script o.script) [
        | none ↦ err ErrorCode.unknown
        | some a ↦ ok (record {
          target = at_address a;
          value = o.value;
          fixed = true;
          protected = false;
          min_utxo_satoshi = if require_valid then none else some o.value;
        })
      ]

  unfoldable pub rebuild_outputs : Bool → List PreviousOutput → Result (List InitOutput)
  rebuild_outputs require_valid [] = ok []
  rebuild_outputs require_valid (o ∷ os) = do
    o' ← rebuild_output require_valid o
    os' ← rebuild_outputs require_valid os
    ok (o' ∷ os')

  -- What is done with the change output found at the index.
  unfoldable pub take_change_output :
      SendRbfProps
      → ℕ
      → InitOutput
      → String
      → List InitOutput
      → Result (List InitOutput × Option String)
  take_change_output p i o a outputs =
      if differ a p.change_address
      then err ErrorCode.invalid_change_output
      else if length outputs == i + 1
      then ok (take i outputs, chosen_change a p.change_address)
      else (do
        limit ← btc_utxo_dust_limit p.source.network_type
        ok (
          set_at i (open_for_change (or_else p.min_utxo_satoshi limit) o) outputs,
          chosen_change a p.change_address,
        ))

  -- The outputs and the change address, once the change output is specified.
  unfoldable pub set_change :
      SendRbfProps → List InitOutput → Result (List InitOutput × Option String)
  set_change p outputs = elim p.change_index [
    | none ↦ ok (outputs, p.change_address)
    | some i ↦ elim (get_elem? outputs i) [
      | none ↦ err ErrorCode.invalid_change_output
      | some o ↦ elim (address_of o) [
        | none ↦ err ErrorCode.invalid_change_output
        | some a ↦ take_change_output p i o a outputs
      ]
    ]
  ]

  -- The fee rate that is compared with the previous one.
  unfoldable pub offered_rate : SendRbfProps → Option ℕ
  offered_rate p =
      if or_else p.require_greater_fee_and_rate true && not (is_rate p.fee_rate)
      then some w.fastest_fee
      else p.fee_rate

  unfoldable pub is_low_rate : SendRbfProps → ℤ → Bool
  is_low_rate p previous = elim (offered_rate p) [
    | none ↦ false
    | some rate ↦ or_else p.require_greater_fee_and_rate true && leb_ℤ (pos rate) previous
  ]

  -- What `createSendUtxosBuilder` is called with.
  unfoldable pub rbf_props :
      SendRbfProps → PreviousTx → List Utxo → List InitOutput → Option String → SendUtxosProps
  rbf_props p tx inputs outputs change_address = record {
    inputs = inputs;
    outputs = outputs;
    source = p.source;
    from_address = p.from_address;
    fee_rate = p.fee_rate;
    from_pubkey = p.from_pubkey;
    change_address = change_address;
    min_utxo_satoshi = p.min_utxo_satoshi;
    only_confirmed_utxos = some (or_else p.only_confirmed_utxos true);
    exclude_utxos = some (outpoints_from tx.id 0 tx.outs);
    skip_inputs_validation = some true;
    pubkey_map = p.pubkey_map;
  }

  unfoldable pub create_send_rbf_builder : Limits → SendRbfProps → PreviousTx → Result Paid
  create_send_rbf_builder limits p tx = do
    inputs ← rebuild_inputs tx.ins
    outputs ← rebuild_outputs (or_else p.require_valid_outputs_value false) tx.outs
    (outputs, change_address) ← set_change p outputs
    let fee = previous_fee inputs tx
    throw_if (is_low_rate p (floor_div fee tx.virtual_size)) ErrorCode.invalid_fee_rate
    r ← create_send_utxos_builder w limits (rbf_props p tx inputs outputs change_address)
    throw_if (or_else p.require_greater_fee_and_rate true && leb_ℤ (pos r.fee) fee)
        ErrorCode.invalid_fee_rate
    ok r

  -- The UTXOs are the outputs that the outpoints name.
  abbrev pub AreOutputsOf : List BaseOutput → List Utxo → Type 0
  AreOutputsOf [] [] = Unit
  AreOutputsOf [] (u ∷ us) = true ≡ false
  AreOutputsOf (i ∷ is) [] = true ≡ false
  AreOutputsOf (i ∷ is) (u ∷ us) =
      IsOutputOf w transaction i.txid i.vout false u × AreOutputsOf is us

  -- The output as it was, to its script if this is an OP_RETURN script, else to the script's address;
  -- the limit of an output to an address is its value, unless it has to be valid.
  abbrev pub IsRebuilt : Bool → PreviousOutput → InitOutput → Type 0
  IsRebuilt require_valid o made =
      (made.value ≡ o.value)
      × (made.fixed ≡ true)
      × (made.protected ≡ false)
      × (((made.target ≡ at_script o.script) × (is_op_return_target w (to_script o.script) ≡ true))
          ⊎ ((is_op_return_target w (to_script o.script) ≡ false)
              × (a : String) × (address_of_script o.script ≡ some a)
              × (made.target ≡ at_address a)
              × (made.min_utxo_satoshi ≡ (if require_valid then none else some o.value))))

  abbrev pub AreRebuilt : Bool → List PreviousOutput → List InitOutput → Type 0
  AreRebuilt require_valid [] [] = Unit
  AreRebuilt require_valid [] (m ∷ ms) = true ≡ false
  AreRebuilt require_valid (o ∷ os) [] = true ≡ false
  AreRebuilt require_valid (o ∷ os) (m ∷ ms) =
      IsRebuilt require_valid o m × AreRebuilt require_valid os ms

  rebuild_inputs-AreOutputsOf :
      (is : List BaseOutput) (us : List Utxo) → rebuild_inputs is ≡ ok us → AreOutputsOf is us
  unfolding rebuild_inputs
  rebuild_inputs-AreOutputsOf [] us h = subst (AreOutputsOf []) (ok-injective _ refl h) tt
  rebuild_inputs-AreOutputsOf (i ∷ is) us h =
      let (found, e, h1) = >>=-eq-ok (get_utxo w transaction i.txid i.vout false) _ h in
      elim (Option-cases found) [
        | inl missing ↦ cc (rw missing at h1)
        | inr (u, there) ↦
            let (rest, f, h2) = >>=-eq-ok (rebuild_inputs is) _ (rw there at h1) in
            subst (AreOutputsOf (i ∷ is)) (ok-injective _ refl h2) (
              get_utxo-IsOutputOf w transaction i.txid i.vout false u (e ∙ ap ok there),
              rebuild_inputs-AreOutputsOf is rest f,
            )
      ]

  rebuild_output-IsRebuilt :
      (require_valid : Bool) (o : PreviousOutput) (made : InitOutput)
      → rebuild_output require_valid o ≡ ok made
      → IsRebuilt require_valid o made
  unfolding rebuild_output
  rebuild_output-IsRebuilt require_valid o made h =
      elim (Bool-cases (is_op_return_target w (to_script o.script))) [
        | inl embeds ↦
            subst (IsRebuilt require_valid o) (ok-injective _ refl (rw embeds at h))
              (refl, refl, refl, inl (refl, embeds))
        | inr pays ↦ elim (Option-cases (address_of_script o.script)) [
          | inl no_address ↦ cc (rw (pays, no_address) at h)
          | inr (a, known) ↦
              subst (IsRebuilt require_valid o) (ok-injective _ refl (rw (pays, known) at h))
                (refl, refl, refl, inr (pays, a, known, refl, refl))
        ]
      ]

  rebuild_outputs-AreRebuilt :
      (require_valid : Bool) (os : List PreviousOutput) (made : List InitOutput)
      → rebuild_outputs require_valid os ≡ ok made
      → AreRebuilt require_valid os made
  unfolding rebuild_outputs
  rebuild_outputs-AreRebuilt require_valid [] made h =
      subst (AreRebuilt require_valid []) (ok-injective _ refl h) tt
  rebuild_outputs-AreRebuilt require_valid (o ∷ os) made h =
      let (m, e, h1) = >>=-eq-ok (rebuild_output require_valid o) _ h in
      let (ms, f, h2) = >>=-eq-ok (rebuild_outputs require_valid os) _ h1 in
      subst (AreRebuilt require_valid (o ∷ os)) (ok-injective _ refl h2) (
        rebuild_output-IsRebuilt require_valid o m e,
        rebuild_outputs-AreRebuilt require_valid os ms f,
      )

  set_change-none :
      (p : SendRbfProps) (os : List InitOutput) (r : List InitOutput × Option String)
      → set_change p os ≡ ok r
      → p.change_index ≡ none
      → (r.0 ≡ os) × (r.1 ≡ p.change_address)
  unfolding set_change
  set_change-none p os r h unset =
      let e = sym (ok-injective _ refl (rw unset at h)) in (ap (λ x. x.0) e, ap (λ x. x.1) e)

  -- The fee of the previous transaction: what its inputs hold less what its outputs do.
  abbrev pub held : List Utxo → ℤ
  held [] = pos 0
  held (u ∷ us) = u.value +ℤ held us

  abbrev pub paid_out : List PreviousOutput → ℤ
  paid_out [] = pos 0
  paid_out (o ∷ os) = o.value +ℤ paid_out os

  values_of-eq : (us : List Utxo) → values_of us ≡ held us
  unfolding values_of
  values_of-eq [] = refl
  values_of-eq (u ∷ us) = ap (λ n. u.value +ℤ n) (values_of-eq us)

  previous_values-eq : (os : List PreviousOutput) → previous_values os ≡ paid_out os
  unfolding previous_values
  previous_values-eq [] = refl
  previous_values-eq (o ∷ os) = ap (λ n. o.value +ℤ n) (previous_values-eq os)

  previous_fee-eq :
      (us : List Utxo) (tx : PreviousTx) → previous_fee us tx ≡ held us -ℤ paid_out tx.outs
  unfolding previous_fee
  previous_fee-eq us tx =
      ap (λ n. n -ℤ previous_values tx.outs) (values_of-eq us)
      ∙ ap (λ n. held us -ℤ n) (previous_values-eq tx.outs)

  -- The replacement offers more than the transaction that it replaces, and spends what it spends.
  pub record IsReplaced (p : SendRbfProps) (tx : PreviousTx) (r : Paid) : Type 0 where
    pub inputs : List Utxo
    pub outputs : List InitOutput
    pub change_address : Option String
    pub spent : AreOutputsOf tx.ins inputs
    pub rebuilt : List InitOutput
    pub are_rebuilt : AreRebuilt (or_else p.require_valid_outputs_value false) tx.outs rebuilt
    pub kept : p.change_index ≡ none → (outputs ≡ rebuilt) × (change_address ≡ p.change_address)
    pub is_sent : IsSent w (rbf_props p tx inputs outputs change_address) r.builder
    pub outbids :
        or_else p.require_greater_fee_and_rate true
          && leb_ℤ (pos r.fee) (held inputs -ℤ paid_out tx.outs)
        ≡ false

  -- When `createSendRbfBuilder` returns, the transaction first spends the outputs that the previous
  -- one spends, in their order. Without a change index it has the previous outputs, fixed and in their
  -- order, each with its value and to its OP_RETURN script or its address. The fee reported is greater
  -- than that of the previous transaction, what its inputs hold less what its outputs do, unless that
  -- is not required.
  pub create_send_rbf_builder-IsReplaced :
      (limits : Limits) (p : SendRbfProps) (tx : PreviousTx) (r : Paid)
      → create_send_rbf_builder limits p tx ≡ ok r
      → IsReplaced p tx r
  unfolding create_send_rbf_builder
  create_send_rbf_builder-IsReplaced limits p tx r h =
      let (inputs, spent, h1) = >>=-eq-ok (rebuild_inputs tx.ins) _ h in
      let (os, rebuilt, h2) =
        >>=-eq-ok (rebuild_outputs (or_else p.require_valid_outputs_value false) tx.outs) _ h1 in
      let ((outputs, change_address), changed, h3) = >>=-eq-ok (set_change p os) _ h2 in
      let fee = previous_fee inputs tx in
      let (_, h4) =
        throw_if-eq-ok (is_low_rate p (floor_div fee tx.virtual_size)) ErrorCode.invalid_fee_rate
          h3 in
      let (r', made, h5) =
        >>=-eq-ok
          (create_send_utxos_builder w limits (rbf_props p tx inputs outputs change_address)) _
          h4 in
      let (outbids, h6) =
        throw_if-eq-ok (or_else p.require_greater_fee_and_rate true && leb_ℤ (pos r'.fee) fee)
          ErrorCode.invalid_fee_rate h5 in
      let same : r' ≡ r = cc h6 in
      subst (IsReplaced p tx) same (record {
        inputs = inputs;
        outputs = outputs;
        change_address = change_address;
        spent = rebuild_inputs-AreOutputsOf tx.ins inputs spent;
        rebuilt = os;
        are_rebuilt = rebuild_outputs-AreRebuilt _ tx.outs os rebuilt;
        kept = set_change-none p os (outputs, change_address) changed;
        is_sent = create_send_utxos_builder-IsSent w limits _ r' made;
        outbids =
            subst (λ n. or_else p.require_greater_fee_and_rate true && leb_ℤ (pos r'.fee) n ≡ false)
              (previous_fee-eq inputs tx) outbids;
      })
