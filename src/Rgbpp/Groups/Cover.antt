-- ===== src/Rgbpp/Groups/Cover.antt =====
-- packages/rgbpp/src/rgbpp/utils/group.ts: what is in the groups, and their sums.
use rgbpp_sdk.Common.{
  ◌||◌, All, All-append, Bool, Bool-cases, List, [], any, arith, false, inl, inr, le→ltb, ltb,
  ltb→le, refl, subst, sym, true, ℕ, ◌++◌, ◌+◌, ◌==◌, ◌∷◌, ◌≡◌, ◌≤◌, ◌⊎◌, ◌<◌,
}
use rgbpp_sdk.Rgbpp.Groups.{
  grouped, Grouping, Item, add_to, is_used, or_unchanged, same_group, group_from, start_at,
  with_indices,
}
use rgbpp_sdk.Rgbpp.Groups.Greedy.{greedy, marks, taken, backtrack-greedy}

abbrev pub number_sum : List Item → ℕ
number_sum [] = 0
number_sum (x ∷ xs) = x.1 + number_sum xs

abbrev pub has_index : ℕ → List Item → Bool
has_index i g = any (λ x. i == x.0) g

abbrev pub in_groups : ℕ → List (List Item) → Bool
in_groups i gs = any (has_index i) gs

same_group-has_index :
    (i : ℕ) (g g' : List Item)
    → same_group g g' ≡ true
    → has_index i g ≡ true
    → has_index i g' ≡ true
unfolding same_group
same_group-has_index i [] [] same h = h
same_group-has_index i [] (y ∷ ys) same h = cc
same_group-has_index i (x ∷ xs) [] same h = cc
same_group-has_index i (x ∷ xs) (y ∷ ys) same h = ground (arith, same_group-has_index i xs ys)

in_groups-old :
    (i : ℕ) (g : List Item) (gs : List (List Item))
    → any (same_group g) gs ≡ true
    → has_index i g ≡ true
    → in_groups i gs ≡ true
in_groups-old i g [] old h = cc
in_groups-old i g (g' ∷ gs) old h = elim (Bool-cases (same_group g g')) [
  | inl same ↦ rw (same_group-has_index i g g' same h) refl
  | inr other ↦ let rest = in_groups-old i g gs (rw other at old) h in ground (arith, rest)
]

in_groups-append :
    (i : ℕ) (gs hs : List (List Item)) → in_groups i (gs ++ hs) ≡ (in_groups i gs || in_groups i hs)
in_groups-append i [] hs = refl
in_groups-append i (g ∷ gs) hs = let rest = in_groups-append i gs hs in ground (arith, rest)

in_groups-kept :
    (i : ℕ) (g : List Item) (gs : List (List Item))
    → in_groups i gs ≡ true
    → in_groups i (add_to g gs) ≡ true
unfolding add_to
in_groups-kept i g gs h = elim (Bool-cases (any (same_group g) gs)) [
  | inl old ↦ rw old h
  | inr new ↦ rw new (rw (in_groups-append i gs (g ∷ [])) (rw h refl))
]

in_groups-new :
    (i : ℕ) (g : List Item) (gs : List (List Item))
    → has_index i g ≡ true
    → in_groups i (add_to g gs) ≡ true
unfolding add_to
in_groups-new i g gs h = elim (Bool-cases (any (same_group g) gs)) [
  | inl old ↦ rw old (in_groups-old i g gs old h)
  | inr new ↦ rw new (rw (in_groups-append i gs (g ∷ [])) (ground (arith, h)))
]

is_used-marks :
    (i : ℕ) (c : List Item) (used : List ℕ)
    → is_used i (marks c used) ≡ true
    → (has_index i c ≡ true) ⊎ (is_used i used ≡ true)
unfolding is_used
is_used-marks i [] used h = inr h
is_used-marks i (x ∷ xs) used h = elim (is_used-marks i xs (x.0 ∷ used) h) [
  | inl found ↦ inl (ground (arith, found))
  | inr before ↦ elim (Bool-cases (i == x.0)) [
    | inl here_now ↦ inl (rw here_now refl)
    | inr other ↦ inr (rw other at before)
  ]
]

marks-keeps :
    (i : ℕ) (c : List Item) (used : List ℕ)
    → is_used i used ≡ true
    → is_used i (marks c used) ≡ true
unfolding is_used
marks-keeps i [] used h = h
marks-keeps i (x ∷ xs) used h = marks-keeps i xs (x.0 ∷ used) (ground (arith, h))

greedy-bound :
    (target : ℕ) (used : List ℕ) (xs : List Item) (sum : ℕ)
    → sum ≤ target
    → sum + number_sum (greedy target used xs sum) ≤ target
unfolding greedy
greedy-bound target used [] sum h = omega (arith, h)
greedy-bound target used (x ∷ xs) sum h = elim (Bool-cases (is_used x.0 used)) [
  | inl old ↦ rw (old, greedy) (greedy-bound target used xs sum h)
  | inr new ↦ elim (Bool-cases ((sum + x.1) == target)) [
    | inl met ↦ rw (new, met, greedy) (ground (arith, met))
    | inr open_still ↦ elim (Bool-cases (ltb target (sum + x.1))) [
      | inl past ↦ rw (new, open_still, past, greedy) (greedy-bound target used xs sum h)
      | inr under ↦
          rw (new, open_still, under, greedy)
            (let rest =
                greedy-bound target (x.0 ∷ used) xs (sum + x.1) (ltb→le target (sum + x.1) under) in
              omega (arith, rest))
    ]
  ]
]

-- The first number is taken, if it was not before and fits.
greedy-first :
    (target : ℕ) (used : List ℕ) (x : Item) (xs : List Item)
    → is_used x.0 used ≡ false
    → x.1 ≤ target
    → (rest : List Item) × (greedy target used (x ∷ xs) 0 ≡ x ∷ rest)
unfolding greedy
greedy-first target used x xs new fits = elim (Bool-cases ((0 + x.1) == target)) [
  | inl met ↦ ([], rw (new, met, greedy) refl)
  | inr open_still ↦ (
    greedy target (x.0 ∷ used) xs (0 + x.1),
    rw (new, open_still, le→ltb target (0 + x.1) (omega (arith, fits)), greedy) refl,
  )
]

-- No group passes the target, and what is used is in a group.
record IsGrouped (target : ℕ) (st : Grouping) : Type 0 where
  sums : All (λ g. number_sum g ≤ target) st.groups
  held : (i : ℕ) → is_used i st.used ≡ true → in_groups i st.groups ≡ true

-- What a step does: it keeps what is used, and takes the first number if that fits.
record Steps (target : ℕ) (x : Item) (st st' : Grouping) : Type 0 where
  grouping : IsGrouped target st'
  kept : (i : ℕ) → is_used i st.used ≡ true → is_used i st'.used ≡ true
  first : x.1 ≤ target → is_used x.0 st'.used ≡ true

sums-add_to :
    (target : ℕ) (g : List Item) (gs : List (List Item))
    → number_sum g ≤ target
    → All (λ g. number_sum g ≤ target) gs
    → All (λ g. number_sum g ≤ target) (add_to g gs)
unfolding add_to
sums-add_to target g gs fits h = elim (Bool-cases (any (same_group g) gs)) [
  | inl old ↦ rw old h
  | inr new ↦ rw new (All-append (λ g. number_sum g ≤ target) gs (g ∷ []) h (fits, tt))
]

self_used : (i : ℕ) (used : List ℕ) → is_used i (i ∷ used) ≡ true
unfolding is_used
self_used i used = ground arith

-- The state after a choice.
or_unchanged-Steps :
    (target : ℕ) (x : Item) (c : List Item) (st : Grouping)
    → IsGrouped target st
    → number_sum c ≤ target
    → (x.1 ≤ target → (rest : List Item) × (c ≡ x ∷ rest))
    → Steps target x st (or_unchanged st (taken c (marks c st.used) st.groups))
unfolding or_unchanged
or_unchanged-Steps target x [] st ok_so_far fits first = record {
  grouping = ok_so_far;
  kept = λ i h. h;
  first = λ small. let (rest, same) = first small in cc same;
}
or_unchanged-Steps target x (y ∷ ys) st ok_so_far fits first = record {
  grouping = record {
    sums = sums-add_to target (y ∷ ys) st.groups fits ok_so_far.sums;
    held = λ i h. elim (is_used-marks i (y ∷ ys) st.used h) [
      | inl now ↦ in_groups-new i (y ∷ ys) st.groups now
      | inr before ↦ in_groups-kept i (y ∷ ys) st.groups (ok_so_far.held i before)
    ];
  };
  kept = λ i h. marks-keeps i (y ∷ ys) st.used h;
  first = λ small.
      let (rest, same) = first small in
      let head : x ≡ y = cc same in
      subst (λ (z : Item). is_used z.0 (marks ys (y.0 ∷ st.used)) ≡ true) (sym head)
        (marks-keeps y.0 ys (y.0 ∷ st.used) (self_used y.0 st.used));
}

start_at-Steps :
    (target : ℕ) (x : Item) (xs : List Item) (st : Grouping)
    → 0 < target
    → is_used x.0 st.used ≡ false
    → IsGrouped target st
    → Steps target x st (start_at target (x ∷ xs) st)
unfolding start_at
start_at-Steps target x xs st positive new grouped_so_far =
    let no_target : (0 == target) ≡ false = ground (arith, positive) in
    rw no_target (
      subst (λ o. Steps target x st (or_unchanged st o))
        (sym (backtrack-greedy target (x ∷ xs) [] 0 st positive))
        (or_unchanged-Steps target x (greedy target st.used (x ∷ xs) 0) st grouped_so_far
          (let bound = greedy-bound target st.used (x ∷ xs) 0 (omega (arith, positive)) in
            omega (arith, bound))
          (greedy-first target st.used x xs new)))

-- What the loop over the indices does.
record Covers (target : ℕ) (xs : List Item) (st st' : Grouping) : Type 0 where
  grouping : IsGrouped target st'
  kept : (i : ℕ) → is_used i st.used ≡ true → is_used i st'.used ≡ true
  all : All (λ x. x.1 ≤ target → is_used x.0 st'.used ≡ true) xs

group_from-Covers :
    (target : ℕ) (xs : List Item) (st : Grouping)
    → 0 < target
    → IsGrouped target st
    → Covers target xs st (group_from target xs st)
unfolding group_from
group_from-Covers target [] st positive h = record { grouping = h; kept = λ i k. k; all = tt }
group_from-Covers target (x ∷ xs) st positive h = elim (Bool-cases (is_used x.0 st.used)) [
  | inl old ↦
      let rest = group_from-Covers target xs st positive h in
      rw (old, group_from)
        record {
          grouping = rest.grouping;
          kept = rest.kept;
          all = (λ small. rest.kept x.0 old, rest.all);
        }
  | inr new ↦
      let step = start_at-Steps target x xs st positive new h in
      let rest = group_from-Covers target xs (start_at target (x ∷ xs) st) positive step.grouping in
      rw (new, group_from)
        record {
          grouping = rest.grouping;
          kept = λ i k. rest.kept i (step.kept i k);
          all = (λ small. rest.kept x.0 (step.first small), rest.all);
        }
]

held_of :
    (target : ℕ) (xs : List Item) (st : Grouping)
    → IsGrouped target st
    → All (λ x. x.1 ≤ target → is_used x.0 st.used ≡ true) xs
    → All (λ x. x.1 ≤ target → in_groups x.0 st.groups ≡ true) xs
held_of target [] st h all = tt
held_of target (x ∷ xs) st h (first, rest) =
    (λ small. h.held x.0 (first small), held_of target xs st h rest)

-- For a target that is not 0, the sum of each group is at most the target, and the index of each
-- number that is at most the target stands in a group.
pub grouped-covers :
    (numbers : List ℕ) (target : ℕ)
    → 0 < target
    → All (λ g. number_sum g ≤ target) (grouped numbers target)
      × All
          (λ x. x.1 ≤ target → in_groups x.0 (grouped numbers target) ≡ true)
          (with_indices 0 numbers)
unfolding grouped is_used
grouped-covers numbers target positive =
    let start : Grouping = record { used = []; groups = [] } in
    let found =
      group_from-Covers target (with_indices 0 numbers) start positive
        record { sums = tt; held = λ i h. absurd (cc h) } in
    (
      found.grouping.sums,
      held_of target (with_indices 0 numbers) (group_from target (with_indices 0 numbers) start)
          found.grouping found.all,
    )
