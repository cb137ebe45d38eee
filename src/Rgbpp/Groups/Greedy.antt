-- ===== src/Rgbpp/Groups/Greedy.antt =====
-- packages/rgbpp/src/rgbpp/utils/group.ts: `backtrack`, and a greedy choice to compare it with.
use mathlib.Core.List.{append-nil, append_assoc}
use rgbpp_sdk.Common.{
  Bool, Bool-cases, List, Option, [], any, ap, arith, if◌then◌else◌, inl, inr, ltb, none, refl,
  some, true, ℕ, ◌++◌, ◌+◌, ◌==◌, ◌∷◌, ◌≡◌, lt→ltb, sym, ◌<◌, ◌∙◌,
}
use rgbpp_sdk.Rgbpp.Groups.{
  Grouping, Item, add_group, add_to, found_or, is_used, same_group, backtrack, end_of_loop, mark,
}

-- The numbers that a greedy choice takes, from a sum on: each that fits, until the target is met.
unfoldable pub greedy : ℕ → List ℕ → List Item → ℕ → List Item
greedy target used [] sum = []
greedy target used (x ∷ xs) sum =
    let more = sum + x.1 in
    let skipped = greedy target used xs sum in
    let deeper = greedy target (x.0 ∷ used) xs more in
    if is_used x.0 used
    then skipped
    else if more == target
    then x ∷ []
    else if ltb target more
    then skipped
    else x ∷ deeper

abbrev pub marks : List Item → List ℕ → List ℕ
marks [] used = used
marks (x ∷ xs) used = marks xs (x.0 ∷ used)

-- What becomes of a group: nothing where it is empty.
abbrev pub taken : List Item → List ℕ → List (List Item) → Option (List Item × Grouping)
taken [] used groups = none
taken (x ∷ xs) used groups = some (x ∷ xs, record { used = used; groups = add_to (x ∷ xs) groups })

same_group_refl : (g : List Item) → same_group g g ≡ true
unfolding same_group
same_group_refl [] = refl
same_group_refl (x ∷ xs) = let rest = same_group_refl xs in ground (arith, rest)

any-last :
    (p : List Item → Bool) (gs : List (List Item)) (g : List Item)
    → p g ≡ true
    → any p (gs ++ g ∷ []) ≡ true
any-last p [] g h = rw h refl
any-last p (x ∷ xs) g h =
    let rest = any-last p xs g h in
    elim (Bool-cases (p x)) [ inl e ↦ rw e refl | inr e ↦ rw e rest ]

-- A group that was added is not added again.
add_to-add_to : (g : List Item) (gs : List (List Item)) → add_to g (add_to g gs) ≡ add_to g gs
unfolding add_to
add_to-add_to g gs = elim (Bool-cases (any (same_group g) gs)) [
  | inl old ↦ rw old (rw old refl)
  | inr new ↦ rw new (rw (any-last (same_group g) gs g (same_group_refl g)) refl)
]

taken-middle :
    (group : List Item) (x : Item) (rest : List Item) (used : List ℕ) (gs : List (List Item))
    → taken (group ++ x ∷ rest) used gs
      ≡ some (group ++ x ∷ rest, record { used = used; groups = add_to (group ++ x ∷ rest) gs })
taken-middle [] x rest used gs = refl
taken-middle (y ∷ ys) x rest used gs = refl

found_or-taken :
    (group : List Item) (x : Item) (rest : List Item) (used : List ℕ) (gs : List (List Item))
    (next : Option (List Item × Grouping))
    → found_or (taken (group ++ x ∷ rest) used gs) next ≡ taken (group ++ x ∷ rest) used gs
unfolding found_or add_group
found_or-taken group x rest used gs next =
    let g = group ++ x ∷ rest in
    ap (λ o. found_or o next) (taken-middle group x rest used gs)
    ∙ (ap (λ gs. some (g, record { used = used; groups = gs })) (add_to-add_to g gs)
        ∙ sym (taken-middle group x rest used gs))

end_of_loop-taken :
    (target : ℕ) (group : List Item) (sum : ℕ) (st : Grouping)
    → sum < target
    → end_of_loop target group sum st ≡ taken (group ++ []) st.used st.groups
unfolding end_of_loop add_group
end_of_loop-taken target [] sum st h = refl
end_of_loop-taken target (x ∷ xs) sum st h = rw (lt→ltb sum target h) (rw (append-nil xs) refl)

found_or-none : (next : Option (List Item × Grouping)) → found_or none next ≡ next
unfolding found_or
found_or-none next = refl

found_or-met :
    (group : List Item) (x : Item) (st : Grouping) (next : Option (List Item × Grouping))
    → found_or (some (group ++ x ∷ [], mark x st)) next
      ≡ taken (group ++ x ∷ []) (x.0 ∷ st.used) st.groups
unfolding found_or add_group mark
found_or-met group x st next = sym (taken-middle group x [] (x.0 ∷ st.used) st.groups)

found_or-deeper :
    (group : List Item) (x : Item) (rest : List Item) (used : List ℕ) (gs : List (List Item))
    (deeper next : Option (List Item × Grouping))
    → deeper ≡ taken ((group ++ x ∷ []) ++ rest) used gs
    → found_or deeper next ≡ taken (group ++ x ∷ rest) used gs
found_or-deeper group x rest used gs deeper next h =
    ap (λ o. found_or o next) (h ∙ ap (λ g. taken g used gs) (append_assoc group (x ∷ []) rest))
    ∙ found_or-taken group x rest used gs next

-- The loop of `backtrack`, from a sum under the target on, takes what the greedy choice takes: where
-- this is nothing and the group was empty it fails, and else the group grows by it, once.
pub backtrack-greedy :
    (target : ℕ) (xs : List Item) (group : List Item) (sum : ℕ) (st : Grouping)
    → sum < target
    → backtrack target xs group sum st
      ≡ taken
          (group ++ greedy target st.used xs sum)
          (marks (greedy target st.used xs sum) st.used)
          st.groups
unfolding backtrack greedy mark
backtrack-greedy target [] group sum st h = end_of_loop-taken target group sum st h
backtrack-greedy target (x ∷ xs) group sum st h = elim (Bool-cases (is_used x.0 st.used)) [
  | inl old ↦ rw (old, backtrack, greedy) (backtrack-greedy target xs group sum st h)
  | inr new ↦ elim (Bool-cases ((sum + x.1) == target)) [
    | inl met ↦ rw (new, met, backtrack, greedy) (found_or-met group x st _)
    | inr open_still ↦ elim (Bool-cases (ltb target (sum + x.1))) [
      | inl past ↦
          rw (new, open_still, past, backtrack, greedy)
            (found_or-none _ ∙ backtrack-greedy target xs group sum st h)
      | inr under ↦
          let deeper =
            backtrack-greedy target xs (group ++ x ∷ []) (sum + x.1) (mark x st)
              (ground (arith, open_still, under)) in
          rw (new, open_still, under, backtrack, greedy) (found_or-deeper group x _ _ _ _ _ deeper)
    ]
  ]
]
