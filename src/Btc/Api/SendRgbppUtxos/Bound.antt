-- ===== src/Btc/Api/SendRgbppUtxos/Bound.antt =====
-- packages/btc/src/api/sendRgbppUtxos.ts: how the Bitcoin transaction is bound to the virtual one.
use mathlib.Core.List.{append-nil, append_assoc}
use rgbpp_sdk.Btc.Api.SendRgbppUtxos.{
  RgbppLockArgs, SendRgbppUtxosProps, chosen_paymaster, commitment_output, committed_part,
  create_send_rgbpp_utxos_builder, has_wrong_lock, is_mainnet, is_paymaster_needed, is_same_utxo,
  lock_args_list, merged_outputs, mismatch, of_ckb, paymaster_outputs, push_inputs, query_utxos,
  receiver_at, rgbpp_inputs, rgbpp_output, rgbpp_outputs, send_props, typed_length,
}
use rgbpp_sdk.Btc.Api.SendUtxos.{IsSent, Limits, create_send_utxos_builder-IsSent}
use rgbpp_sdk.Btc.Builder.Fee.{Paid}
use rgbpp_sdk.Btc.Error.{ErrorCode, Result}
use rgbpp_sdk.Btc.Source.Collect.{IsPart, IsPart-skip}
use rgbpp_sdk.Btc.Source.Query.{
  BtcTransaction, IsOutputOf, Paymaster, get_utxo, get_utxo-IsOutputOf,
}
use rgbpp_sdk.Btc.Types.{InitOutput, Utxo, World, at_address, with_data}
use rgbpp_sdk.Btc.Utils.{rgbpp_utxo_dust_limit}
use rgbpp_sdk.Ckb.Commitment.{calculate_commitment}
use rgbpp_sdk.Ckb.Error.{CkbResult}
use rgbpp_sdk.Ckb.Scripts.{CkbWorld, hex_eq, is_rgbpp_lock_cell}
use rgbpp_sdk.Ckb.Types.{CellOutput, Hex, OutPoint}
use rgbpp_sdk.Common.{
  eq_iff, ==_iff, All, Bool, Bool-cases, List, Option, Option-cases, String, [], any, ap, arith,
  drop, false, get_elem?, inl, inr, is_some, keep, length, map, none, not, or_else, refl, some,
  subst, suc, sym, take, take-append-drop, true, ℕ, ◌++◌, ◌==◌, ◌∙◌, ◌∷◌, ◌≡◌, ◌⊎◌, if◌then◌else◌,
}
use rgbpp_sdk.Common.Int.{pos, ℤ}
use rgbpp_sdk.Common.Outcome.{>>=-eq-ok, err, ok, ok-injective, out_of_fuel, throw_if-eq-ok, ◌>>=◌}

of_ckb-eq-ok : {A : Type 0} (c : CkbResult A) {a : A} → of_ckb c ≡ ok a → c ≡ ok a
unfolding of_ckb
of_ckb-eq-ok (ok a) h = ap ok (ok-injective _ refl h)
of_ckb-eq-ok (err e) h = cc h
of_ckb-eq-ok out_of_fuel h = cc h

true_of_not : (b : Bool) → not b ≡ false → b ≡ true
true_of_not true h = refl
true_of_not false h = cc h

-- The list ends with an output that has a type.
abbrev pub EndsTyped : List (CellOutput × Hex) → Type 0
EndsTyped [] = true ≡ false
EndsTyped (x ∷ []) = is_some x.0.type_script ≡ true
EndsTyped (x ∷ y ∷ ys) = EndsTyped (y ∷ ys)

EndsTyped-cons :
    (x : CellOutput × Hex) (ys : List (CellOutput × Hex)) → EndsTyped ys → EndsTyped (x ∷ ys)
EndsTyped-cons x [] h = cc h
EndsTyped-cons x (y ∷ ys) h = h

-- The outputs up to the last one with a type, and those after it.
abbrev pub IsTypedPart : List (CellOutput × Hex) → List (CellOutput × Hex) → Type 0
IsTypedPart os front =
    (back : List (CellOutput × Hex)) × (os ≡ front ++ back)
    × All (λ o. is_some o.0.type_script ≡ false) back
    × EndsTyped front

drop-untyped :
    (os : List (CellOutput × Hex))
    → All (λ o. is_some o.0.type_script ≡ false) (drop (typed_length os) os)
unfolding typed_length
drop-untyped [] = tt
drop-untyped ((o, bytes) ∷ os) =
    let ih = drop-untyped os in
    elim (Bool-cases (typed_length os == 0)) [
      | inr more ↦ rw more ih
      | inl none_typed ↦
          let all : All (λ o. is_some o.0.type_script ≡ false) os =
            subst (λ n. All (λ o. is_some o.0.type_script ≡ false) (drop n os))
              ((==_iff (typed_length os) 0).0 none_typed) ih in
          elim (Bool-cases (is_some o.type_script)) [
            | inl typed ↦ rw (none_typed, typed) all
            | inr untyped ↦ rw (none_typed, untyped) (untyped, all)
          ]
    ]

take-EndsTyped :
    (os : List (CellOutput × Hex))
    → (typed_length os == 0) ≡ false
    → EndsTyped (take (typed_length os) os)
unfolding typed_length
take-EndsTyped [] h = cc h
take-EndsTyped ((o, bytes) ∷ os) h = elim (Bool-cases (typed_length os == 0)) [
  | inr more ↦
      rw more (EndsTyped-cons (o, bytes) (take (typed_length os) os) (take-EndsTyped os more))
  | inl none_typed ↦ elim (Bool-cases (is_some o.type_script)) [
    | inl typed ↦ rw (none_typed, typed) typed
    | inr untyped ↦ cc (rw (none_typed, untyped) at h)
  ]
]

take-IsTypedPart :
    (os : List (CellOutput × Hex))
    → (typed_length os == 0) ≡ false
    → IsTypedPart os (take (typed_length os) os)
take-IsTypedPart os h = (
  drop (typed_length os) os,
  sym (take-append-drop (typed_length os) os),
  drop-untyped os,
  take-EndsTyped os h,
)

-- The outputs with an RGB++ lock, by their positions.
abbrev pub with_positions : ℕ → List (CellOutput × Hex) → List (ℕ × CellOutput)
with_positions i [] = []
with_positions i (o ∷ os) = (i, o.0) ∷ with_positions (suc i) os

-- The output for the cell at a position: to the address given for it, else to the sender.
abbrev pub output_at : SendRgbppUtxosProps → ℤ → ℕ → InitOutput
output_at p limit i = record {
  target = at_address (elim (get_elem? (or_else p.tos []) i) [
    | some (some address) ↦ address
    | _ ↦ p.from_address
  ]);
  value = limit;
  fixed = true;
  protected = false;
  min_utxo_satoshi = some limit;
}

rgbpp_outputs-eq :
    (p : SendRgbppUtxosProps) (main : Bool) (limit : ℤ) (i : ℕ) (os : List (CellOutput × Hex))
    → rgbpp_outputs p main limit i os
      ≡ map
          (λ x. output_at p limit x.0)
          (keep (λ x. is_rgbpp_lock_cell x.1 main) (with_positions i os))
unfolding rgbpp_outputs rgbpp_output receiver_at
rgbpp_outputs-eq p main limit i [] = refl
rgbpp_outputs-eq p main limit i ((o, bytes) ∷ os) =
    let rest = rgbpp_outputs-eq p main limit (suc i) os in
    elim (Bool-cases (is_rgbpp_lock_cell o main)) [
      | inl locked ↦ rw (locked, keep) (ap (λ l. output_at p limit i ∷ l) rest)
      | inr other ↦ rw (other, keep) rest
    ]

-- The UTXOs that were found, without the inputs that have none.
abbrev found_ones : List (Option (Option Utxo)) → List Utxo
found_ones [] = []
found_ones (some (some u) ∷ us) = u ∷ found_ones us
found_ones (_ ∷ us) = found_ones us

any-append : (p : Utxo → Bool) (us vs : List Utxo) → any p us ≡ true → any p (us ++ vs) ≡ true
any-append p [] vs h = cc h
any-append p (u ∷ us) vs h = elim (Bool-cases (p u)) [
  | inl here ↦ rw here refl
  | inr later ↦ rw later (any-append p us vs (rw later at h))
]

same_as_itself : (u : Utxo) → is_same_utxo u u ≡ true
unfolding is_same_utxo
same_as_itself u = ground (arith, eq_iff u.txid u.txid)

any-last : (u : Utxo) (us : List Utxo) → any (is_same_utxo u) (us ++ u ∷ []) ≡ true
any-last u [] = let same = same_as_itself u in rw same refl
any-last u (v ∷ us) = elim (Bool-cases (is_same_utxo u v)) [
  | inl here ↦ rw here refl
  | inr later ↦ rw later (any-last u us)
]

-- Each UTXO found is spent, once: of those with one outpoint the first.
record IsPushed (us found r : List Utxo) : Type 0 where
  added : List Utxo
  split : r ≡ found ++ added
  part : IsPart added us
  covers : All (λ u. any (is_same_utxo u) r ≡ true) us

push_inputs-IsPushed :
    (us : List (Option (Option Utxo))) (found r : List Utxo)
    → push_inputs us found ≡ ok r
    → IsPushed (found_ones us) found r
unfolding push_inputs
push_inputs-IsPushed [] found r h = record {
  added = [];
  split = sym (ok-injective _ refl h) ∙ sym (append-nil found);
  part = tt;
  covers = tt;
}
push_inputs-IsPushed (none ∷ us) found r h = push_inputs-IsPushed us found r h
push_inputs-IsPushed (some none ∷ us) found r h = cc h
push_inputs-IsPushed (some (some u) ∷ us) found r h =
    elim (Bool-cases (any (is_same_utxo u) found)) [
      | inl old ↦
          let later = push_inputs-IsPushed us found r (rw old at h) in
          record {
            added = later.added;
            split = later.split;
            part = IsPart-skip later.added u (found_ones us) later.part;
            covers = (
              subst (λ l. any (is_same_utxo u) l ≡ true) (sym later.split)
                  (any-append (is_same_utxo u) found later.added old),
              later.covers,
            );
          }
      | inr new ↦
          let later = push_inputs-IsPushed us (found ++ (u ∷ [])) r (rw new at h) in
          let split = later.split ∙ append_assoc found (u ∷ []) later.added in
          record {
            added = u ∷ later.added;
            split = split;
            part = inl (refl, later.part);
            covers = (
              subst (λ l. any (is_same_utxo u) l ≡ true) (sym later.split)
                  (any-append (is_same_utxo u) (found ++ (u ∷ [])) later.added (any-last u found)),
              later.covers,
            );
          }
    ]

module _ (w : World) (k : CkbWorld) (transaction : String → Option BtcTransaction)
    (live : OutPoint → Option CellOutput) (unpack : Hex → RgbppLockArgs)
    (default_paymaster : Paymaster) where
  -- One UTXO for each input whose live cell has an RGB++ lock: the output that its lock arguments name.
  abbrev pub AreBound : Bool → Bool → List OutPoint → List Utxo → Type 0
  AreBound main confirmed [] us = us ≡ []
  AreBound main confirmed (i ∷ is) us =
      (o : CellOutput) × (live i ≡ some o)
      × (((is_rgbpp_lock_cell o main ≡ false) × AreBound main confirmed is us)
          ⊎ ((is_rgbpp_lock_cell o main ≡ true)
              × (u : Utxo) × (rest : List Utxo) × (us ≡ u ∷ rest)
              × IsOutputOf w transaction (unpack o.lock.args).btc_tx_id
                  (unpack o.lock.args).out_index confirmed u
              × AreBound main confirmed is rest))

  query_utxos-AreBound :
      (main confirmed : Bool) (is : List OutPoint) (list : List (Option RgbppLockArgs))
      (us : List (Option (Option Utxo))) (before r : List Utxo)
      → lock_args_list w k transaction live unpack default_paymaster main is ≡ ok list
      → query_utxos w k transaction live unpack default_paymaster confirmed list ≡ ok us
      → push_inputs us before ≡ ok r
      → AreBound main confirmed is (found_ones us)
  unfolding lock_args_list query_utxos push_inputs
  query_utxos-AreBound main confirmed [] list us before r h q pushed =
      let empty = ok-injective _ refl h in
      let q' =
        subst (λ l. query_utxos w k transaction live unpack default_paymaster confirmed l ≡ ok us)
          (sym empty) q in
      ap found_ones (sym (ok-injective _ refl q'))
  query_utxos-AreBound main confirmed (i ∷ is) list us before r h q pushed =
      let of_live : Option CellOutput → Result (List (Option RgbppLockArgs)) = λ x. elim x [
        | none ↦ err ErrorCode.unknown
        | some o ↦ do
          rest ← lock_args_list w k transaction live unpack default_paymaster main is
          ok ((if is_rgbpp_lock_cell o main then some (unpack o.lock.args) else none) ∷ rest)
      ] in
      elim (Option-cases (live i)) [
        | inl dead ↦ cc (subst (λ x. of_live x ≡ ok list) dead h)
        | inr (o, alive) ↦
            let (rest, e, h1) =
              >>=-eq-ok (lock_args_list w k transaction live unpack default_paymaster main is) _
                (subst (λ x. of_live x ≡ ok list) alive h) in
            elim (Bool-cases (is_rgbpp_lock_cell o main)) [
              | inr other ↦
                  let same : none ∷ rest ≡ list = ok-injective _ refl (rw other at h1) in
                  let q1 =
                    subst
                      (λ l.
                        query_utxos w k transaction live unpack default_paymaster confirmed l
                        ≡ ok us)
                      (sym same) q in
                  let (us', f, q2) =
                    >>=-eq-ok
                      (query_utxos w k transaction live unpack default_paymaster confirmed rest) _
                      q1 in
                  let same_us : none ∷ us' ≡ us = ok-injective _ refl q2 in
                  let pushed1 = subst (λ l. push_inputs l before ≡ ok r) (sym same_us) pushed in
                  let ih = query_utxos-AreBound main confirmed is rest us' before r e f pushed1 in
                  (
                    o,
                    alive,
                    inl (other, subst (λ l. AreBound main confirmed is (found_ones l)) same_us ih),
                  )
              | inl locked ↦
                  let args = unpack o.lock.args in
                  let same : some args ∷ rest ≡ list = ok-injective _ refl (rw locked at h1) in
                  let q1 =
                    subst
                      (λ l.
                        query_utxos w k transaction live unpack default_paymaster confirmed l
                        ≡ ok us)
                      (sym same) q in
                  let (x, got, q2) =
                    >>=-eq-ok (get_utxo w transaction args.btc_tx_id args.out_index confirmed) _
                      q1 in
                  let (us', f, q3) =
                    >>=-eq-ok
                      (query_utxos w k transaction live unpack default_paymaster confirmed rest) _
                      q2 in
                  let same_us : some x ∷ us' ≡ us = ok-injective _ refl q3 in
                  let pushed1 = subst (λ l. push_inputs l before ≡ ok r) (sym same_us) pushed in
                  elim (Option-cases x) [
                    | inl missing ↦ cc (rw missing at pushed1)
                    | inr (u, there) ↦
                        let ih =
                          query_utxos-AreBound main confirmed is rest us' _ r e f
                            (rw there at pushed1) in
                        let output =
                          get_utxo-IsOutputOf w transaction args.btc_tx_id args.out_index confirmed
                            u (got ∙ ap ok there) in
                        let ones : found_ones us ≡ u ∷ found_ones us' =
                          ap found_ones (sym same_us) ∙ ap (λ y. found_ones (some y ∷ us')) there in
                        (o, alive, inr (locked, u, found_ones us', ones, output, ih))
                  ]
            ]
      ]

  -- What the Bitcoin transaction has to do with the virtual transaction.
  pub record IsBound (p : SendRgbppUtxosProps) (r : Paid) : Type 0 where
    pub bound : List Utxo
    pub are_bound :
        AreBound
          (is_mainnet p.source.network_type)
          (or_else p.only_confirmed_utxos false)
          p.ckb_virtual_tx.inputs
          bound
    pub inputs : List Utxo
    pub part : IsPart inputs bound
    pub all_spent : All (λ u. any (is_same_utxo u) inputs ≡ true) bound
    pub dust : ℤ
    pub is_dust : rgbpp_utxo_dust_limit p.source.network_type ≡ ok dust
    pub paymaster : List InitOutput
    pub outputs : List InitOutput
    pub is_merged :
        outputs
        ≡ (record {
          target = with_data p.commitment;
          value = pos 0;
          fixed = true;
          protected = false;
          min_utxo_satoshi = none;
        }
            ∷ map
                (λ x. output_at p (or_else p.rgbpp_min_utxo_satoshi dust) x.0)
                (keep
                  (λ x. is_rgbpp_lock_cell x.1 (is_mainnet p.source.network_type))
                  (with_positions 0 p.ckb_virtual_tx.outputs)))
          ++ paymaster
    pub committed : List (CellOutput × Hex)
    pub is_committed : IsTypedPart p.ckb_virtual_tx.outputs committed
    pub calculated : Hex
    pub commits :
        calculate_commitment k (record { inputs = p.ckb_virtual_tx.inputs; outputs = committed })
        ≡ ok calculated
    pub matches : hex_eq p.commitment calculated ≡ true
    pub is_sent :
        IsSent w
          (send_props w k transaction live unpack default_paymaster p inputs outputs)
          r.builder

  -- When `createSendRgbppUtxosBuilder` returns, the Bitcoin transaction first spends UTXOs, each of
  -- them once, that are for each input with an RGB++ lock the output that its lock arguments name; the
  -- outputs asked for, of which it has the fixed ones in their order, are the commitment, one output
  -- for each cell with an RGB++ lock, in the order of the cells and to the address given for its
  -- position or else the sender's, and perhaps others; and the commitment equals the one calculated
  -- for the virtual transaction with its outputs up to the last one with a type.
  pub create_send_rgbpp_utxos_builder-IsBound :
      (limits : Limits) (p : SendRgbppUtxosProps) (r : Paid)
      → create_send_rgbpp_utxos_builder w k transaction live unpack default_paymaster limits p
        ≡ ok r
      → IsBound p r
  unfolding create_send_rgbpp_utxos_builder merged_outputs rgbpp_inputs committed_part
      commitment_output
  create_send_rgbpp_utxos_builder-IsBound limits p r h =
      let tx = p.ckb_virtual_tx in
      let main = is_mainnet p.source.network_type in
      let (dust, is_dust, h1) = >>=-eq-ok (rgbpp_utxo_dust_limit p.source.network_type) _ h in
      let (inputs, spent, h2) =
        >>=-eq-ok
          (rgbpp_inputs w k transaction live unpack default_paymaster main
            (or_else p.only_confirmed_utxos false) tx.inputs)
          _ h1 in
      let (_, h3) = throw_if-eq-ok (length inputs == 0) ErrorCode.ckb_invalid_inputs h2 in
      let (_, h4) =
        throw_if-eq-ok (any (λ o. has_wrong_lock main o.0) tx.outputs)
          ErrorCode.ckb_invalid_cell_lock h3 in
      let (typed, h5) =
        throw_if-eq-ok (typed_length tx.outputs == 0) ErrorCode.ckb_invalid_outputs h4 in
      let (calculated, commits, h6) =
        >>=-eq-ok
          (of_ckb (
            calculate_commitment k
              (committed_part w k transaction live unpack default_paymaster tx)))
          _ h5 in
      let (matches, h7) =
        throw_if-eq-ok (not (hex_eq p.commitment calculated)) ErrorCode.ckb_unmatched_commitment
          h6 in
      let limit = or_else p.rgbpp_min_utxo_satoshi dust in
      let (outputs, is_merged, h8) =
        >>=-eq-ok
          (merged_outputs w k transaction live unpack default_paymaster p
            (rgbpp_outputs p main limit 0 tx.outputs))
          _ h7 in
      let (_, m1) =
        throw_if-eq-ok (mismatch default_paymaster p.paymaster) ErrorCode.paymaster_mismatch
          is_merged in
      let (needed, _, m2) =
        >>=-eq-ok (is_paymaster_needed w k transaction live unpack default_paymaster p) _ m1 in
      let confirmed = or_else p.only_confirmed_utxos false in
      let (list, args, s1) =
        >>=-eq-ok (lock_args_list w k transaction live unpack default_paymaster main tx.inputs) _
          spent in
      let (found, queried, s2) =
        >>=-eq-ok (query_utxos w k transaction live unpack default_paymaster confirmed list) _ s1 in
      let pushed = push_inputs-IsPushed found [] inputs s2 in
      record {
        bound = found_ones found;
        are_bound =
            query_utxos-AreBound main confirmed tx.inputs list found [] inputs args queried s2;
        inputs = inputs;
        part = subst (λ l. IsPart l (found_ones found)) (sym pushed.split) pushed.part;
        all_spent = pushed.covers;
        dust = dust;
        is_dust = is_dust;
        paymaster = paymaster_outputs needed (chosen_paymaster default_paymaster p.paymaster);
        outputs = outputs;
        is_merged =
            sym (ok-injective _ refl m2)
            ∙ ap
                (λ os.
                  (commitment_output p.commitment ∷ os)
                  ++ paymaster_outputs needed (chosen_paymaster default_paymaster p.paymaster))
                (rgbpp_outputs-eq p main limit 0 tx.outputs);
        committed = take (typed_length tx.outputs) tx.outputs;
        is_committed = take-IsTypedPart tx.outputs typed;
        calculated = calculated;
        commits = of_ckb-eq-ok _ commits;
        matches = true_of_not _ matches;
        is_sent =
            create_send_utxos_builder-IsSent w limits
              (send_props w k transaction live unpack default_paymaster p inputs outputs) r h8;
      }
