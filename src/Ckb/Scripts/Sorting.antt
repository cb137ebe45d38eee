-- ===== src/Ckb/Scripts/Sorting.antt =====
-- The order in which the inputs stand: by the lock arguments.
use mathlib.Core.List.{Perm}
use mathlib.Core.List.Perm
use rgbpp_sdk.Ckb.Scripts.{hex_lt, insert_cell, sort_cells}
use rgbpp_sdk.Ckb.Types.{Hex, IndexerCell}
use rgbpp_sdk.Common.{All, Bool-cases, List, [], arith, false, inl, inr, refl, true, ◌∷◌, ◌≡◌}

-- No cell's lock arguments come before those of a cell that stands before it.
abbrev pub IsSorted : List IndexerCell → Type 0
IsSorted [] = Unit
IsSorted (c ∷ cs) = All (λ d. hex_lt d.output.lock.args c.output.lock.args ≡ false) cs × IsSorted cs

hex_lt_trans : (a b c : Hex) → hex_lt b a ≡ false → hex_lt c b ≡ false → hex_lt c a ≡ false
unfolding hex_lt
hex_lt_trans [] [] [] h k = refl
hex_lt_trans [] [] (z ∷ zs) h k = refl
hex_lt_trans [] (y ∷ ys) [] h k = refl
hex_lt_trans [] (y ∷ ys) (z ∷ zs) h k = refl
hex_lt_trans (x ∷ xs) [] c h k = cc
hex_lt_trans (x ∷ xs) (y ∷ ys) [] h k = cc
hex_lt_trans (x ∷ xs) (y ∷ ys) (z ∷ zs) h k = ground (arith, hex_lt_trans xs ys zs)

hex_lt_asymm : (a b : Hex) → hex_lt a b ≡ true → hex_lt b a ≡ false
unfolding hex_lt
hex_lt_asymm [] [] h = refl
hex_lt_asymm [] (y ∷ ys) h = refl
hex_lt_asymm (x ∷ xs) [] h = cc
hex_lt_asymm (x ∷ xs) (y ∷ ys) h = ground (arith, hex_lt_asymm xs ys)

All-later :
    (c d : IndexerCell) (cs : List IndexerCell)
    → hex_lt d.output.lock.args c.output.lock.args ≡ false
    → All (λ e. hex_lt e.output.lock.args d.output.lock.args ≡ false) cs
    → All (λ e. hex_lt e.output.lock.args c.output.lock.args ≡ false) cs
All-later c d [] h all = tt
All-later c d (e ∷ es) h (first, rest) = (
  hex_lt_trans c.output.lock.args d.output.lock.args e.output.lock.args h first,
  All-later c d es h rest,
)

All-insert :
    (p : IndexerCell → Type 0) (c : IndexerCell) (cs : List IndexerCell)
    → p c
    → All p cs
    → All p (insert_cell c cs)
unfolding insert_cell
All-insert p c [] h all = (h, tt)
All-insert p c (d ∷ ds) h (first, rest) =
    elim (Bool-cases (hex_lt d.output.lock.args c.output.lock.args)) [
      | inl before ↦ rw (before, insert_cell) (first, All-insert p c ds h rest)
      | inr after ↦ rw (after, insert_cell) (h, (first, rest))
    ]

insert_cell-IsSorted :
    (c : IndexerCell) (cs : List IndexerCell) → IsSorted cs → IsSorted (insert_cell c cs)
unfolding insert_cell
insert_cell-IsSorted c [] h = (tt, tt)
insert_cell-IsSorted c (d ∷ ds) (all, h) =
    elim (Bool-cases (hex_lt d.output.lock.args c.output.lock.args)) [
      | inl before ↦
          rw (before, insert_cell)
            (
              All-insert (λ e. hex_lt e.output.lock.args d.output.lock.args ≡ false) c ds
                  (hex_lt_asymm d.output.lock.args c.output.lock.args before) all,
              insert_cell-IsSorted c ds h,
            )
      | inr after ↦ rw (after, insert_cell) ((after, All-later c d ds after all), (all, h))
    ]

insert_cell-perm : (c : IndexerCell) (cs : List IndexerCell) → Perm (insert_cell c cs) (c ∷ cs)
unfolding insert_cell
insert_cell-perm c [] = Perm.refl (c ∷ [])
insert_cell-perm c (d ∷ ds) = elim (Bool-cases (hex_lt d.output.lock.args c.output.lock.args)) [
  | inl before ↦
      rw (before, insert_cell) (Perm.trans (Perm.cons d (insert_cell-perm c ds)) (Perm.swap c d ds))
  | inr after ↦ rw (after, insert_cell) (Perm.refl (c ∷ d ∷ ds))
]

-- The cells that `sort(compareInputs)` gives are the given ones in another order, by their lock
-- arguments.
pub sort_cells-IsSorted :
    (cs : List IndexerCell) → IsSorted (sort_cells cs) × Perm (sort_cells cs) cs
unfolding sort_cells
sort_cells-IsSorted [] = (tt, Perm.refl [])
sort_cells-IsSorted (c ∷ cs) =
    let (ordered, same) = sort_cells-IsSorted cs in
    (
      insert_cell-IsSorted c (sort_cells cs) ordered,
      Perm.trans (insert_cell-perm c (sort_cells cs)) (Perm.cons c same),
    )
