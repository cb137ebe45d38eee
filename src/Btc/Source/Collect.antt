-- ===== src/Btc/Source/Collect.antt =====
-- What `collectSatoshi` answers.
use rgbpp_sdk.Common.{
  String, Bool, true, false, Option, List, [], ◌∷◌, ◌≡◌, refl, ◌∙◌, sym, ap, arith, All, ◌⊎◌, inl,
  inr, Bool-cases,
}
use rgbpp_sdk.Common.Int.{ℤ, pos, ◌+ℤ◌, ◌≤ℤ◌, leb_ℤ, ltb_ℤ, int_laws}
use rgbpp_sdk.Btc.Error.{ok}
use rgbpp_sdk.Btc.Types.{BaseOutput, Utxo, UtxoParams, World, Source}
use rgbpp_sdk.Btc.Source.{is_excluded, collect_from, optional_cache_utxos, collect_satoshi}

-- The UTXO is not one of those to leave out.
abbrev pub IsFree : List BaseOutput → Utxo → Type 0
IsFree exclude u = is_excluded exclude u ≡ false

collect_from-IsFree :
    (target : ℤ) (exclude : List BaseOutput) (us : List Utxo) (amount : ℤ)
    → All (IsFree exclude) (collect_from target exclude us amount).0
unfolding collect_from
collect_from-IsFree target exclude [] amount = tt
collect_from-IsFree target exclude (u ∷ us) amount = elim (Bool-cases (leb_ℤ target amount)) [
  | inl done ↦ rw (done, collect_from) tt
  | inr more ↦ elim (Bool-cases (is_excluded exclude u)) [
    | inl out ↦ rw (more, out, collect_from) (collect_from-IsFree target exclude us amount)
    | inr free ↦
        rw (more, free, collect_from)
          (free, collect_from-IsFree target exclude us (amount +ℤ u.value))
  ]
]

next_total : (a b c : ℤ) → a +ℤ b +ℤ c ≡ a +ℤ (b +ℤ c)
next_total a b c = omega int_laws

abbrev pub value_total : List Utxo → ℤ
value_total [] = pos 0
value_total (u ∷ us) = u.value +ℤ value_total us

collect_from-value_total :
    (target : ℤ) (exclude : List BaseOutput) (us : List Utxo) (amount : ℤ)
    → (collect_from target exclude us amount).1
      ≡ amount +ℤ value_total (collect_from target exclude us amount).0
unfolding collect_from
collect_from-value_total target exclude [] amount = omega int_laws
collect_from-value_total target exclude (u ∷ us) amount = elim (Bool-cases (leb_ℤ target amount)) [
  | inl done ↦ rw (done, collect_from) (omega int_laws)
  | inr more ↦ elim (Bool-cases (is_excluded exclude u)) [
    | inl out ↦ rw (more, out, collect_from) (collect_from-value_total target exclude us amount)
    | inr free ↦
        rw (more, free, collect_from)
          (collect_from-value_total target exclude us (amount +ℤ u.value)
            ∙ next_total amount u.value _)
  ]
]

-- The UTXOs are in the list, in its order.
abbrev pub IsPart : List Utxo → List Utxo → Type 0
IsPart [] us = Unit
IsPart (v ∷ vs) [] = true ≡ false
IsPart (v ∷ vs) (u ∷ us) = ((v ≡ u) × IsPart vs us) ⊎ IsPart (v ∷ vs) us

pub IsPart-skip : (vs : List Utxo) (u : Utxo) (us : List Utxo) → IsPart vs us → IsPart vs (u ∷ us)
IsPart-skip [] u us h = tt
IsPart-skip (v ∷ vs) u us h = inr h

collect_from-IsPart :
    (target : ℤ) (exclude : List BaseOutput) (us : List Utxo) (amount : ℤ)
    → IsPart (collect_from target exclude us amount).0 us
unfolding collect_from
collect_from-IsPart target exclude [] amount = tt
collect_from-IsPart target exclude (u ∷ us) amount = elim (Bool-cases (leb_ℤ target amount)) [
  | inl done ↦ rw (done, collect_from) tt
  | inr more ↦ elim (Bool-cases (is_excluded exclude u)) [
    | inl out ↦
        rw (more, out, collect_from)
          (IsPart-skip _ u us (collect_from-IsPart target exclude us amount))
    | inr free ↦
        rw (more, free, collect_from)
          (inl (refl, collect_from-IsPart target exclude us (amount +ℤ u.value)))
  ]
]

-- What is short of the target is short of it with every UTXO taken that is free.
abbrev pub free_total : List BaseOutput → List Utxo → ℤ
free_total exclude [] = pos 0
free_total exclude (u ∷ us) = elim (is_excluded exclude u) [
  | true ↦ free_total exclude us
  | false ↦ u.value +ℤ free_total exclude us
]

not_short : (target amount : ℤ) → leb_ℤ target amount ≡ true → ltb_ℤ amount target ≡ false
not_short target amount h = ground arith

reaches : (target amount : ℤ) → ltb_ℤ amount target ≡ false → target ≤ℤ amount
reaches target amount h = ground arith

free_total-out :
    (exclude : List BaseOutput) (u : Utxo) (us : List Utxo)
    → is_excluded exclude u ≡ true
    → free_total exclude (u ∷ us) ≡ free_total exclude us
free_total-out exclude u us h = rw (h, free_total) refl

free_total-free :
    (exclude : List BaseOutput) (u : Utxo) (us : List Utxo)
    → is_excluded exclude u ≡ false
    → free_total exclude (u ∷ us) ≡ u.value +ℤ free_total exclude us
free_total-free exclude u us h = rw (h, free_total) refl

collect_from-short :
    (target : ℤ) (exclude : List BaseOutput) (us : List Utxo) (amount : ℤ)
    → ltb_ℤ (collect_from target exclude us amount).1 target ≡ true
    → (collect_from target exclude us amount).1 ≡ amount +ℤ free_total exclude us
unfolding collect_from
collect_from-short target exclude [] amount h = omega int_laws
collect_from-short target exclude (u ∷ us) amount h = elim (Bool-cases (leb_ℤ target amount)) [
  | inl done ↦
      let short : ltb_ℤ amount target ≡ true = rw (done, collect_from) at h in
      cc (not_short target amount done, short)
  | inr more ↦ elim (Bool-cases (is_excluded exclude u)) [
    | inl out ↦
        rw (more, out, collect_from)
          (collect_from-short target exclude us amount (rw (more, out, collect_from) at h)
            ∙ ap (λ t. amount +ℤ t) (sym (free_total-out exclude u us out)))
    | inr free ↦
        let rest =
          collect_from-short target exclude us (amount +ℤ u.value)
            (rw (more, free, collect_from) at h) in
        rw (more, free, collect_from)
          (rest
            ∙ (next_total amount u.value (free_total exclude us)
                ∙ ap (λ t. amount +ℤ t) (sym (free_total-free exclude u us free))))
  ]
]

-- Whenever `collectSatoshi` returns, the UTXOs are some of the source's, in their order, none of them
-- is one to leave out, and the sum is that of their values; it reaches the target unless it is
-- allowed to be less, and then it is that of all UTXOs that are not left out.
pub collect_satoshi-IsFree :
    (w : World) (params : UtxoParams) (target : ℤ) (allow : Bool) (key : Option String)
    (exclude : List BaseOutput) (source : Source) (r : List Utxo × ℤ × Source)
    → collect_satoshi w params target allow key exclude source ≡ ok r
    → IsPart r.0 (optional_cache_utxos w key params source).0
      × All (IsFree exclude) r.0
      × (r.1 ≡ value_total r.0)
      × ((target ≤ℤ r.1)
          ⊎ ((allow ≡ true)
              × (r.1 ≡ free_total exclude (optional_cache_utxos w key params source).0)))
unfolding collect_satoshi
collect_satoshi-IsFree w params target allow key exclude source r h =
    let us = (optional_cache_utxos w key params source).0 in
    let c = collect_from target exclude us (pos 0) in
    let free = collect_from-IsFree target exclude us (pos 0) in
    let part = collect_from-IsPart target exclude us (pos 0) in
    let valued : c.1 ≡ value_total c.0 =
      let e = collect_from-value_total target exclude us (pos 0) in omega (int_laws, e) in
    let source' = (optional_cache_utxos w key params source).1 in
    let total : (u : ℤ) → u ≡ pos 0 +ℤ free_total exclude us → u ≡ free_total exclude us =
      λ u e. omega int_laws in
    elim (Bool-cases (ltb_ℤ c.1 target)) [
      | inl short ↦ elim (Bool-cases allow) [
        | inl allowed ↦
            let same : (c.0, c.1, source') ≡ r = cc (rw (short, allowed, collect_satoshi) at h) in
            rw (← same) (
              part,
              free,
              valued,
              inr (allowed, total c.1 (collect_from-short target exclude us (pos 0) short)),
            )
        | inr refused ↦ cc (rw (short, refused, collect_satoshi) at h)
      ]
      | inr reached ↦ elim (Bool-cases allow) [
        | inl allowed ↦
            let same : (c.0, c.1, source') ≡ r = cc (rw (reached, allowed, collect_satoshi) at h) in
            rw (← same) (part, free, valued, inl (reaches target c.1 reached))
        | inr refused ↦
            let same : (c.0, c.1, source') ≡ r = cc (rw (reached, refused, collect_satoshi) at h) in
            rw (← same) (part, free, valued, inl (reaches target c.1 reached))
      ]
    ]
