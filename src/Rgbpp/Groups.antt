-- ===== src/Rgbpp/Groups.antt =====
-- packages/rgbpp/src/rgbpp/utils/group.ts: numbers are grouped by a target for their sums.
pub mod Greedy
pub mod Cover
use rgbpp_sdk.Common.{
  Bool, List, Option, [], any, false, if◌then◌else◌, ltb, map, none, some, suc, true, ℕ, ◌&&◌, ◌++◌,
  ◌+◌, ◌==◌, ◌∷◌,
}

-- An index with its number.
abbrev pub Item : Type 0
Item = ℕ × ℕ

-- `usedIndices` and `groups`; the ids in `groupIds` are those of the groups.
pub record Grouping : Type 0 where
  pub used : List ℕ
  pub groups : List (List Item)

unfoldable pub is_used : ℕ → List ℕ → Bool
is_used i used = any (λ j. i == j) used

unfoldable pub same_group : List Item → List Item → Bool
same_group [] [] = true
same_group (x ∷ xs) (y ∷ ys) = (x.0 == y.0) && same_group xs ys
same_group _ _ = false

unfoldable pub add_to : List Item → List (List Item) → List (List Item)
add_to group groups = if any (same_group group) groups then groups else groups ++ group ∷ []

-- `addGroup`: the indices of a group ascend, so that sorting them does not change them.
unfoldable pub add_group : List Item → Grouping → Grouping
add_group group st = record st { groups = add_to group st.groups }

unfoldable pub mark : Item → Grouping → Grouping
mark x st = record st { used = x.0 ∷ st.used }

-- The end of the loop: a group that is not empty and stays under the target is taken.
unfoldable pub end_of_loop : ℕ → List Item → ℕ → Grouping → Option (List Item × Grouping)
end_of_loop target [] sum st = none
end_of_loop target (x ∷ xs) sum st =
    if ltb sum target then some (x ∷ xs, add_group (x ∷ xs) st) else none

-- The call for the next number, if it found a group; else the loop goes on.
unfoldable pub found_or :
    Option (List Item × Grouping) → Option (List Item × Grouping) → Option (List Item × Grouping)
found_or none next = next
found_or (some (group, st)) next = some (group, add_group group st)

-- The loop of `backtrack`, with the two tests at the start of the call that it makes. A call that
-- answers false leaves the group and the sets as they were, since what it pushes it pops; so none
-- of them is passed back.
unfoldable pub backtrack : ℕ → List Item → List Item → ℕ → Grouping → Option (List Item × Grouping)
backtrack target [] group sum st = end_of_loop target group sum st
backtrack target (x ∷ xs) group sum st =
    let longer = group ++ x ∷ [] in
    let more = sum + x.1 in
    let skipped = backtrack target xs group sum st in
    let deeper = backtrack target xs longer more (mark x st) in
    let called =
      if more == target
      then some (longer, mark x st)
      else if ltb target more
      then none
      else deeper in
    if is_used x.0 st.used then skipped else found_or called skipped

unfoldable pub or_unchanged : Grouping → Option (List Item × Grouping) → Grouping
or_unchanged st none = st
or_unchanged st (some (group, st')) = st'

-- A call from an index on; with a target of 0 it answers true at once, and takes nothing.
unfoldable pub start_at : ℕ → List Item → Grouping → Grouping
start_at target items st =
    if 0 == target then st else or_unchanged st (backtrack target items [] 0 st)

unfoldable pub group_from : ℕ → List Item → Grouping → Grouping
group_from target [] st = st
group_from target (x ∷ xs) st =
    group_from target xs (if is_used x.0 st.used then st else start_at target (x ∷ xs) st)

unfoldable pub with_indices : ℕ → List ℕ → List Item
with_indices i [] = []
with_indices i (n ∷ ns) = (i, n) ∷ with_indices (suc i) ns

unfoldable pub grouped : List ℕ → ℕ → List (List Item)
grouped numbers target =
    (group_from target (with_indices 0 numbers) (record { used = []; groups = [] })).groups

pub record Groups : Type 0 where
  pub indices : List (List ℕ)
  pub numbers : List (List ℕ)

unfoldable pub group_numbers_by_sum : List ℕ → ℕ → Groups
group_numbers_by_sum numbers target = record {
  indices = map (map (λ x. x.0)) (grouped numbers target);
  numbers = map (map (λ x. x.1)) (grouped numbers target);
}

unfoldable pub map_groups_by_indices : {A : Type 0} → List (List ℕ) → (ℕ → A) → List (List A)
map_groups_by_indices indices getter = map (map getter) indices
