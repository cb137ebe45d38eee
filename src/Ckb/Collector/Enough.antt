-- ===== src/Ckb/Collector/Enough.antt =====
-- packages/ckb/src/collector/index.ts: what there is to collect, and what is asked for.
use rgbpp_sdk.Common.{
  ℕ, ◌+◌, ◌≤◌, ◌<◌, Bool, true, false, not, ◌&&◌, Option, List, [], ◌∷◌, keep, ltb, leb, or_else,
  ◌≡◌, refl, ap, subst, keep-true, keep-false, ltb→le, lt→ltb, le→ltb, arith, Bool-cases, inl, inr,
}
use rgbpp_sdk.Ckb.Error.{CkbError, ok, err, throw_if-eq-ok}
use rgbpp_sdk.Ckb.Types.{IndexerCell}
use rgbpp_sdk.Ckb.Constants.{min_capacity}
use rgbpp_sdk.Ckb.Collector.{
  Collected, takes_all, add_cell, inputs_from, collect_inputs, udt_from, collect_udt_inputs,
  amount_of, has_no_data, amount_total,
}

-- The amount of the cells that have data.
abbrev pub available : List IndexerCell → ℕ
available cells = amount_total (keep (λ c. not (has_no_data c)) cells)

available-empty :
    (c : IndexerCell) (cs : List IndexerCell)
    → has_no_data c ≡ true
    → available (c ∷ cs) ≡ available cs
available-empty c cs h = ap amount_total (keep-false _ c cs (ap not h))

available-full :
    (c : IndexerCell) (cs : List IndexerCell)
    → has_no_data c ≡ false
    → available (c ∷ cs) ≡ amount_of c + available cs
available-full c cs h = ap amount_total (keep-true _ c cs (ap not h))

leb_and→le : (a b : ℕ) (q : Bool) → leb a b && q ≡ true → a ≤ b
leb_and→le a b q h = ground arith

udt_from-le :
    (all : Bool) (need so_far : ℕ) (cells : List IndexerCell)
    → (udt_from all need so_far cells).sum_amount ≤ available cells
unfolding udt_from add_cell
udt_from-le all need so_far [] = omega arith
udt_from-le all need so_far (c ∷ cs) = elim (Bool-cases (has_no_data c)) [
  | inl empty ↦
      rw (empty, udt_from) (rw (available-empty c cs empty) (udt_from-le all need so_far cs))
  | inr full ↦
      let found = available-full c cs full in
      elim (Bool-cases (leb need (so_far + amount_of c) && not all)) [
        | inl reached ↦ rw (full, reached, udt_from) (omega (arith, found))
        | inr more ↦
            rw (full, more, udt_from)
              (let rest = udt_from-le all need (so_far + amount_of c) cs in
                omega (arith, found, rest))
      ]
]

udt_from-reaches :
    (all : Bool) (need so_far : ℕ) (cells : List IndexerCell)
    → need ≤ so_far + available cells
    → need ≤ so_far + (udt_from all need so_far cells).sum_amount
unfolding udt_from add_cell
udt_from-reaches all need so_far [] h = h
udt_from-reaches all need so_far (c ∷ cs) h = elim (Bool-cases (has_no_data c)) [
  | inl empty ↦
      rw (empty, udt_from)
        (udt_from-reaches all need so_far cs (rw (available-empty c cs empty) at h))
  | inr full ↦
      let found = available-full c cs full in
      elim (Bool-cases (leb need (so_far + amount_of c) && not all)) [
        | inl reached ↦
            rw (full, reached, udt_from)
              (let enough = leb_and→le need (so_far + amount_of c) (not all) reached in
                omega (arith, enough))
        | inr more ↦
            rw (full, more, udt_from)
              (let rest =
                  udt_from-reaches all need (so_far + amount_of c) cs (omega (arith, found, h)) in
                omega (arith, rest))
      ]
]

-- `collectUdtInputs` throws that the amount is not enough where the cells with data hold less than
-- is needed, and returns where they hold as much.
pub collect_udt_inputs-enough :
    (cells : List IndexerCell) (need : ℕ)
    → (available cells < need → collect_udt_inputs cells need ≡ err CkbError.udt_amount_not_enough)
      × (need ≤ available cells → (r : Collected) × (collect_udt_inputs cells need ≡ ok r))
unfolding collect_udt_inputs
collect_udt_inputs-enough cells need =
    let found = udt_from (takes_all cells) need 0 cells in
    let bound = udt_from-le (takes_all cells) need 0 cells in
    (
      λ short. rw (lt→ltb found.sum_amount need (omega (arith, bound, short))) refl,
      λ enough.
          let reached = udt_from-reaches (takes_all cells) need 0 cells (omega (arith, enough)) in
          (found, rw (le→ltb found.sum_amount need (omega (arith, reached))) refl),
    )

-- When `collectInputs` returns, the capacity reaches what is needed, with the change and the fee.
pub collect_inputs-reaches :
    (cells : List IndexerCell) (need fee : ℕ) (min : Option ℕ) (r : Collected)
    → collect_inputs cells need fee min ≡ ok r
    → need + or_else min min_capacity + fee ≤ r.sum_inputs_capacity
unfolding collect_inputs
collect_inputs-reaches cells need fee min r h =
    let needed = need + or_else min min_capacity + fee in
    let found = inputs_from (takes_all cells) needed 0 cells in
    let (enough, k) =
      throw_if-eq-ok (ltb found.sum_inputs_capacity needed) CkbError.capacity_not_enough h in
    let same : found ≡ r = cc k in
    subst (λ r. needed ≤ r.sum_inputs_capacity) same (ltb→le _ _ enough)
