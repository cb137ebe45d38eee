-- ===== src/Btc/Builder/FeeSteps.antt =====
-- What `payFee` does to the transaction: the last round's steps, from the inputs and outputs that
-- the builder has before the call.
use mathlib.Core.Bool.{and-eq-true_iff}
use rgbpp_sdk.Common.{
  ℕ, zero, suc, String, true, some, List, ◌++◌, ◌≡◌, refl, ◌∙◌, arith, sym, ap, subst, Bool-cases,
  inl, inr, not, ◌&&◌, ◌||◌, if◌then◌else◌, ◌==◌,
}
use rgbpp_sdk.Common.Int.{ℤ, pos, ◌+ℤ◌, ◌-ℤ◌, ◌≤ℤ◌, ltb_ℤ}
use rgbpp_sdk.Btc.Error.{ok, >>=-eq-ok}
use rgbpp_sdk.Btc.Types.{TxInput, World, TxBuilder}
use rgbpp_sdk.Btc.Builder.Outputs.{summary}
use rgbpp_sdk.Btc.Builder.Inject.{inject_satoshi}
use rgbpp_sdk.Btc.Builder.Fee.{
  FeeProps, Paid, is_expected, calculate_fee, current_fee_rate, return_props, collect_props,
  fee_round, restore, fee_loop, forget, pay_fee,
}
use rgbpp_sdk.Btc.Builder.Steps.{Steps, asks, next, inject_satoshi-Steps, inject_change-Steps}
use rgbpp_sdk.Btc.Builder.Kept.{fixed_outputs, Steps-Kept}
use rgbpp_sdk.Btc.Builder.NoDust.{IsClean, Steps-IsClean}
use rgbpp_sdk.Btc.Builder.Distinct.{AreDistinct, Steps-AreDistinct}

-- The same transaction, with another data source perhaps.
record SameTx (b c : TxBuilder) : Type 0 where
  inputs : c.inputs ≡ b.inputs
  outputs : c.outputs ≡ b.outputs
  limit : c.min_utxo_satoshi ≡ b.min_utxo_satoshi

module _ (w : World) where
  pub some_of_ltb : (x : ℤ) → ltb_ℤ (pos 0) x ≡ true → pos 1 ≤ℤ x
  some_of_ltb x h = ground arith

  pub fee_round-Steps :
      (depth : ℕ) (p : FeeProps) (key : String) (previous : ℕ) (b : TxBuilder) (r : TxBuilder × ℤ)
      → fee_round w depth p key previous b ≡ ok r
      → Steps w b r.0
  unfolding fee_round return_props
  fee_round-Steps depth p key previous b r h =
      let s = summary b in
      let amount = s.need_return -ℤ pos previous in
      let safe = ltb_ℤ (pos 0) s.inputs_total || not (previous == 0) in
      let target =
        s.need_collect -ℤ s.need_return +ℤ pos previous +ℤ (if safe then pos 0 else pos 1) in
      elim (Bool-cases (safe && ltb_ℤ (pos 0) amount)) [
        | inl gives ↦
            inject_change-Steps w depth (return_props w p key amount) b r
              (some_of_ltb amount ((and-eq-true_iff _ _).0 gives).1) (rw gives at h)
        | inr takes ↦
            let q = collect_props w p key target in
            let (i, e, k) = >>=-eq-ok (inject_satoshi w depth q b) _ (rw takes at h) in
            let same : i.builder ≡ r.0 = cc k in
            subst (Steps w b) same (inject_satoshi-Steps w depth q b i e)
      ]

  -- The last round: where it starts from, and that it ends in the result.
  record LastRound (b d : TxBuilder) : Type 0 where
    start : TxBuilder
    same : SameTx b start
    round : Steps w start d

  fee_loop-LastRound :
      (fuel depth : ℕ) (p : FeeProps) (key : String) (rate previous : ℕ) (b : TxBuilder) (r : Paid)
      → fee_loop w fuel depth p key rate previous b ≡ ok r
      → LastRound b r.builder
  unfolding fee_loop restore
  fee_loop-LastRound zero depth p key rate previous b r h = cc
  fee_loop-LastRound (suc fuel) depth p key rate previous b r h =
      let ((b', index), e, k) = >>=-eq-ok (fee_round w depth p key previous b) _ h in
      let (fee, e', k') = >>=-eq-ok (calculate_fee w (some rate) b') _ k in
      let steps = fee_round-Steps depth p key previous b (b', index) e in
      elim (Bool-cases (is_expected fee previous)) [
        | inl close ↦
            let same : b' ≡ r.builder = cc (rw close at k') in
            record {
              start = b;
              same = record { inputs = refl; outputs = refl; limit = refl };
              round = subst (Steps w b) same steps;
            }
        | inr far ↦
            let l = fee_loop-LastRound fuel depth p key rate fee (restore b b') r (rw far at k') in
            record {
              start = l.start;
              same = record {
                inputs = l.same.inputs;
                outputs = l.same.outputs;
                limit = l.same.limit ∙ (Steps-Kept w steps).limit;
              };
              round = l.round;
            }
      ]

  pay_fee-LastRound :
      (fuel depth : ℕ) (p : FeeProps) (key : String) (b : TxBuilder) (r : Paid)
      → pay_fee w fuel depth p key b ≡ ok r
      → LastRound b r.builder
  unfolding pay_fee forget
  pay_fee-LastRound fuel depth p key b r h =
      let (r', e, k) =
        >>=-eq-ok (fee_loop w fuel depth p key (current_fee_rate w p.fee_rate b) 0 b) _ h in
      let l = fee_loop-LastRound fuel depth p key _ 0 b r' e in
      let same : (forget key r').builder ≡ r.builder = cc k in
      record {
        start = l.start;
        same = l.same;
        round = subst (Steps w l.start) same (next l.round (asks _));
      }

-- When `payFee` returns, the fixed outputs are those before the call, each with its value and
-- target, and in the same order.
pub pay_fee-fixed :
    (w : World) (fuel depth : ℕ) (p : FeeProps) (key : String) (b : TxBuilder) (r : Paid)
    → pay_fee w fuel depth p key b ≡ ok r
    → fixed_outputs r.builder.outputs ≡ fixed_outputs b.outputs
pay_fee-fixed w fuel depth p key b r h =
    let l = pay_fee-LastRound w fuel depth p key b r h in
    (Steps-Kept w l.round).fixed ∙ ap fixed_outputs l.same.outputs

-- When `payFee` returns, the inputs are those before the call, followed by others.
pub pay_fee-inputs :
    (w : World) (fuel depth : ℕ) (p : FeeProps) (key : String) (b : TxBuilder) (r : Paid)
    → pay_fee w fuel depth p key b ≡ ok r
    → (news : List TxInput) × (r.builder.inputs ≡ b.inputs ++ news)
pay_fee-inputs w fuel depth p key b r h =
    let l = pay_fee-LastRound w fuel depth p key b r h in
    let k = Steps-Kept w l.round in (k.news, k.inputs ∙ ap (λ is. is ++ k.news) l.same.inputs)

-- When `payFee` returns and every output was at its dust limit before the call, every output is
-- at its dust limit after it, those that satoshi were deducted from and the change included.
pub pay_fee-IsClean :
    (w : World) (fuel depth : ℕ) (p : FeeProps) (key : String) (b : TxBuilder) (r : Paid)
    → IsClean w b
    → pay_fee w fuel depth p key b ≡ ok r
    → IsClean w r.builder
pay_fee-IsClean w fuel depth p key b r clean h =
    let l = pay_fee-LastRound w fuel depth p key b r h in
    Steps-IsClean w l.round (
      subst (λ os. IsClean w (record l.start { outputs = os })) (sym l.same.outputs)
        (subst (λ m. IsClean w (record b { min_utxo_satoshi = m })) (sym l.same.limit) clean))

-- When `payFee` returns and no two inputs had the same outpoint before the call, no two have the
-- same outpoint after it, whatever the service answers.
pub pay_fee-AreDistinct :
    (w : World) (fuel depth : ℕ) (p : FeeProps) (key : String) (b : TxBuilder) (r : Paid)
    → AreDistinct b.inputs
    → pay_fee w fuel depth p key b ≡ ok r
    → AreDistinct r.builder.inputs
pay_fee-AreDistinct w fuel depth p key b r distinct h =
    let l = pay_fee-LastRound w fuel depth p key b r h in
    Steps-AreDistinct w l.round (subst AreDistinct (sym l.same.inputs) distinct)
