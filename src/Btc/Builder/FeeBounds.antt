-- ===== src/Btc/Builder/FeeBounds.antt =====
-- build.ts: what `payFee` leaves for the miners, and the fee that it reports.
use mathlib.Core.Bool.{and-eq-true_iff}
use rgbpp_sdk.Common.{
  ℕ, zero, suc, ◌+◌, String, Bool, true, false, some, ◌≡◌, refl, ◌∙◌, arith, ◌⊎◌, Bool-cases, inl,
  inr, not, ◌&&◌, ◌||◌, if◌then◌else◌, ◌==◌,
}
use rgbpp_sdk.Common.Int.{ℤ, pos, ◌+ℤ◌, ◌-ℤ◌, ◌≤ℤ◌, int_laws, +ℤ_parts, ltb_ℤ}
use rgbpp_sdk.Btc.Error.{ok, >>=-eq-ok}
use rgbpp_sdk.Btc.Types.{World, TxBuilder}
use rgbpp_sdk.Btc.Builder.Outputs.{inputs_total, outputs_total, positive, summary}
use rgbpp_sdk.Btc.Builder.Inject.{inject_satoshi}
use rgbpp_sdk.Btc.Builder.Fee.{
  FeeProps, Paid, is_expected, calculate_fee, current_fee_rate, return_props, collect_props,
  fee_round, restore, fee_loop, forget, pay_fee,
}
use rgbpp_sdk.Btc.Builder.Totals.{surplus}
use rgbpp_sdk.Btc.Builder.Surplus.{inject_satoshi-surplus, inject_change-surplus}

-- What a round aims for: the fee of the last round, or a single satoshi where there is none yet.
abbrev AimsAt : ℕ → ℤ → Type 0
AimsAt previous s = (s ≡ pos previous) ⊎ ((previous ≡ 0) × (s ≡ pos 1))

-- The amounts of a round, over the totals of the inputs and the outputs.
module _ (ins outs : ℤ) (previous : ℕ) (no_debt : pos 0 ≤ℤ outs) where
  abbrev returned : ℤ
  returned = positive (ins -ℤ outs) -ℤ pos previous

  abbrev is_safe : Bool
  is_safe = ltb_ℤ (pos 0) ins || not (previous == 0)

  abbrev wanted : ℤ
  wanted =
      positive (outs -ℤ ins)
      -ℤ positive (ins -ℤ outs)
      +ℤ pos previous
      +ℤ (if is_safe then pos 0 else pos 1)

  returned_rest :
      ltb_ℤ (pos 0) returned ≡ true → (pos 1 ≤ℤ returned) × (ins -ℤ outs -ℤ returned ≡ pos previous)
  returned_rest h = grind int_laws

  apart : positive (outs -ℤ ins) -ℤ positive (ins -ℤ outs) ≡ outs -ℤ ins
  apart = grind int_laws

  wanted_by :
      (extra : ℤ)
      → ins -ℤ outs +ℤ (positive (outs -ℤ ins) -ℤ positive (ins -ℤ outs) +ℤ pos previous +ℤ extra)
        ≡ pos previous +ℤ extra
  wanted_by extra = rw apart (omega int_laws)

  safe_enough :
      ltb_ℤ (pos 0) returned ≡ false
      → pos 0 ≤ℤ positive (outs -ℤ ins) -ℤ positive (ins -ℤ outs) +ℤ pos previous +ℤ pos 0
  safe_enough h = grind int_laws

  unsafe_enough :
      is_safe ≡ false
      → (previous ≡ 0)
        × (pos 0 ≤ℤ positive (outs -ℤ ins) -ℤ positive (ins -ℤ outs) +ℤ pos previous +ℤ pos 1)
  unsafe_enough h = grind (int_laws, apart)

  wanted_rest :
      is_safe && ltb_ℤ (pos 0) returned ≡ false
      → (pos 0 ≤ℤ wanted) × AimsAt previous (ins -ℤ outs +ℤ wanted)
  wanted_rest h = elim (Bool-cases is_safe) [
    | inl safe ↦ simp (safe, wanted_by) (safe_enough (rw safe at h), inl (omega int_laws))
    | inr unsafe ↦
        let (none_yet, enough) = unsafe_enough unsafe in
        simp (unsafe, wanted_by) (enough, inr (none_yet, omega int_laws))
  ]

-- The surplus and the fee reported differ by one satoshi at most.
abbrev pub IsPaid : TxBuilder → ℕ → Type 0
IsPaid b fee = (surplus b ≤ℤ pos (fee + 1)) × (pos fee ≤ℤ surplus b +ℤ pos 1)

expected-IsPaid :
    (fee previous : ℕ) (b : TxBuilder)
    → is_expected fee previous ≡ true
    → AimsAt previous (surplus b)
    → IsPaid b fee
unfolding is_expected
expected-IsPaid fee previous b close (inl aims) =
    rw aims (ground arith, ground (arith, +ℤ_parts (pos previous) (pos 1)))
expected-IsPaid fee previous b close (inr (none_yet, aims)) =
    rw aims (ground arith, ground (arith, +ℤ_parts (pos 1) (pos 1)))

module _ (w : World) where
  fee_round-surplus :
      (fuel : ℕ) (p : FeeProps) (key : String) (previous : ℕ) (b : TxBuilder) (r : TxBuilder × ℤ)
      → pos 0 ≤ℤ outputs_total b.outputs
      → fee_round w fuel p key previous b ≡ ok r
      → AimsAt previous (surplus r.0)
  unfolding fee_round summary return_props collect_props
  fee_round-surplus fuel p key previous b r no_debt h =
      let ins = inputs_total b.inputs in
      let outs = outputs_total b.outputs in
      elim (Bool-cases
        (is_safe ins outs previous no_debt && ltb_ℤ (pos 0) (returned ins outs previous no_debt))) [
          | inl gives ↦
              let (_, some_rest) = (and-eq-true_iff _ _).0 gives in
              let (some_amount, rest) = returned_rest ins outs previous no_debt some_rest in
              inl (
                inject_change-surplus w fuel
                  (return_props w p key (returned ins outs previous no_debt)) b r some_amount
                  (rw gives at h)
                ∙ rest)
          | inr takes ↦
              let (enough, aims) = wanted_rest ins outs previous no_debt takes in
              let q = collect_props w p key (wanted ins outs previous no_debt) in
              let (i, e, k) = >>=-eq-ok (inject_satoshi w fuel q b) _ (rw takes at h) in
              let same : r.0 ≡ i.builder = cc k in
              rw (same, inject_satoshi-surplus w fuel q b i (inl (refl, enough)) e) aims
        ]

  fee_loop-IsPaid :
      (fuel depth : ℕ) (p : FeeProps) (key : String) (rate previous : ℕ) (b : TxBuilder) (r : Paid)
      → pos 0 ≤ℤ outputs_total b.outputs
      → fee_loop w fuel depth p key rate previous b ≡ ok r
      → IsPaid r.builder r.fee
  unfolding fee_loop restore
  fee_loop-IsPaid zero depth p key rate previous b r no_debt h = cc
  fee_loop-IsPaid (suc fuel) depth p key rate previous b r no_debt h =
      let ((b', index), e, k) = >>=-eq-ok (fee_round w depth p key previous b) _ h in
      let (fee, e', k') = >>=-eq-ok (calculate_fee w (some rate) b') _ k in
      elim (Bool-cases (is_expected fee previous)) [
        | inl close ↦
            let same : (r.builder ≡ b') × (r.fee ≡ fee) = ground (arith, rw close at k') in
            rw (same.0, same.1)
              (expected-IsPaid fee previous b' close
                (fee_round-surplus depth p key previous b (b', index) no_debt e))
        | inr far ↦
            fee_loop-IsPaid fuel depth p key rate fee (restore b b') r no_debt (rw far at k')
      ]

-- When `payFee` returns, the sum of the inputs less the sum of the outputs is the fee that it
-- reports, within one satoshi. The sum of the outputs is not negative before the call. The service
-- may answer each query as it likes, and the size of the transaction is any function.
pub pay_fee-IsPaid :
    (w : World) (fuel depth : ℕ) (p : FeeProps) (key : String) (b : TxBuilder) (r : Paid)
    → pos 0 ≤ℤ outputs_total b.outputs
    → pay_fee w fuel depth p key b ≡ ok r
    → IsPaid r.builder r.fee
unfolding pay_fee forget
pay_fee-IsPaid w fuel depth p key b r no_debt h =
    let (r', e, k) =
      >>=-eq-ok (fee_loop w fuel depth p key (current_fee_rate w p.fee_rate b) 0 b) _ h in
    let same : forget key r' ≡ r = cc k in
    rw (← same) (fee_loop-IsPaid w fuel depth p key _ 0 b r' no_debt e)
