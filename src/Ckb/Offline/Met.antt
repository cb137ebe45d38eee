-- ===== src/Ckb/Offline/Met.antt =====
-- packages/ckb/src/collector/offline.ts: what a query asks of a cell.
use rgbpp_sdk.Ckb.Collector.{has_no_data}
use rgbpp_sdk.Ckb.Error.{CkbError}
use rgbpp_sdk.Ckb.Offline.{
  CellsQuery, is_under_lock, is_of_type, in_capacity, in_range, must_be_empty, of_scripts,
  offline_cells, scripts_equal,
}
use rgbpp_sdk.Ckb.Scripts.{CkbWorld, hex_eq}
use rgbpp_sdk.Ckb.Types.{IndexerCell, Script}
use rgbpp_sdk.Common.{
  ◌||◌, Bool, Bool-cases, List, Option, [], ap, false, if◌then◌else◌, inl, inr, none, not, refl,
  some, sym, true, ℕ, ◌&&◌, ◌∙◌, ◌∷◌, ◌≡◌, keep, Option-cases, arith, leb, length, ltb, ◌==◌,
}
use rgbpp_sdk.Common.Outcome.{err, ok}
use rgbpp_sdk.Ckb.Samples.{asked}

-- What a query asks of a cell: that its lock and its type are serialized as those of the query, of
-- which there is at least one.
abbrev pub has_script : CkbWorld → Script → Script → Bool
has_script w asked s = hex_eq (w.serialize_script s) (w.serialize_script asked)

abbrev pub has_type_script : CkbWorld → Script → Option Script → Bool
has_type_script w asked none = false
has_type_script w asked (some s) = has_script w asked s

abbrev pub scripts_met : CkbWorld → Option Script → Option Script → IndexerCell → Bool
scripts_met w (some lock) (some t) c =
    has_script w lock c.output.lock && has_type_script w t c.output.type_script
scripts_met w (some lock) none c = has_script w lock c.output.lock
scripts_met w none (some t) c = has_type_script w t c.output.type_script
scripts_met w none none c = false

-- The data has to be empty where no type is asked for, unless the query says that it need not be.
abbrev pub asks_empty : Option Bool → Option Script → Bool
asks_empty must (some t) = false
asks_empty none none = true
asks_empty (some must) none = must

-- A range has two ends.
abbrev pub has_two_ends : Option (List ℕ) → Bool
has_two_ends none = true
has_two_ends (some (low ∷ high ∷ [])) = true
has_two_ends (some _) = false

abbrev pub range_met : Option (List ℕ) → IndexerCell → Bool
range_met none c = true
range_met (some (low ∷ high ∷ [])) c = leb low c.output.capacity && ltb c.output.capacity high
range_met (some _) c = false

abbrev pub is_met : CkbWorld → CellsQuery → IndexerCell → Bool
is_met w q c =
    (scripts_met w q.lock q.type_script c
      && (not (asks_empty q.is_data_must_be_empty q.type_script) || (length c.output_data == 0)))
    && range_met q.output_capacity_range c

keep_twice :
    (p r : IndexerCell → Bool) (cs : List IndexerCell)
    → keep r (keep p cs) ≡ keep (λ c. p c && r c) cs
keep_twice p r [] = refl
keep_twice p r (c ∷ cs) =
    let rest = keep_twice p r cs in
    elim (Bool-cases (p c)) [
      | inl kept ↦ elim (Bool-cases (r c)) [
        | inl both ↦ rw (kept, keep, both) (ap (λ l. c ∷ l) rest)
        | inr only ↦ rw (kept, keep, only) rest
      ]
      | inr dropped ↦ rw (dropped, keep) rest
    ]

keep_by_true : (cs : List IndexerCell) → keep (λ c. true) cs ≡ cs
keep_by_true [] = refl
keep_by_true (c ∷ cs) = ap (λ l. c ∷ l) (keep_by_true cs)

keep_by_false : (cs : List IndexerCell) → keep (λ c. false) cs ≡ []
keep_by_false [] = refl
keep_by_false (c ∷ cs) = keep_by_false cs

scripts_met-eq :
    (w : CkbWorld) (t : Script) (c : IndexerCell)
    → is_of_type w t c ≡ has_type_script w t c.output.type_script
unfolding is_of_type scripts_equal
scripts_met-eq w t c = elim (Option-cases c.output.type_script) [
  | inl no_type ↦ rw no_type refl
  | inr (s, typed) ↦ rw typed refl
]

keep-same :
    (p r : IndexerCell → Bool) (cs : List IndexerCell)
    → ((c : IndexerCell) → p c ≡ r c)
    → keep p cs ≡ keep r cs
keep-same p r [] same = refl
keep-same p r (c ∷ cs) same =
    let rest = keep-same p r cs same in
    let here = same c in
    elim (Bool-cases (r c)) [
      | inl kept ↦ rw (here ∙ kept, kept, keep) (ap (λ l. c ∷ l) rest)
      | inr dropped ↦ rw (here ∙ dropped, dropped, keep) rest
    ]

must_be_empty-eq :
    (q : CellsQuery) → must_be_empty q ≡ asks_empty q.is_data_must_be_empty q.type_script
unfolding must_be_empty
must_be_empty-eq q = elim (Option-cases q.type_script) [
  | inl no_type ↦ elim (Option-cases q.is_data_must_be_empty) [
    | inl unset ↦ rw (no_type, unset) refl
    | inr (b, set) ↦ rw (no_type, set) (ground arith)
  ]
  | inr (t, typed) ↦ rw typed (ground arith)
]

of_scripts-keep :
    (w : CkbWorld) (lock t : Option Script) (cells : List IndexerCell)
    → of_scripts w lock t cells ≡ keep (scripts_met w lock t) cells
unfolding of_scripts is_under_lock scripts_equal
of_scripts-keep w (some lock) (some t) cells =
    keep-same _ _ cells (λ c. ap (λ b. has_script w lock c.output.lock && b) (scripts_met-eq w t c))
of_scripts-keep w (some lock) none cells = refl
of_scripts-keep w none (some t) cells = keep-same _ _ cells (λ c. scripts_met-eq w t c)
of_scripts-keep w none none cells = sym (keep_by_false cells)

in_range-keep :
    (range : Option (List ℕ)) (cells : List IndexerCell)
    → (has_two_ends range ≡ true → in_range range cells ≡ ok (keep (range_met range) cells))
      × (has_two_ends range ≡ false → in_range range cells ≡ err CkbError.plain_error)
unfolding in_range in_capacity
in_range-keep none cells = (λ h. ap ok (sym (keep_by_true cells)), λ h. cc)
in_range-keep (some []) cells = (λ h. cc, λ h. refl)
in_range-keep (some (a ∷ [])) cells = (λ h. cc, λ h. refl)
in_range-keep (some (a ∷ b ∷ [])) cells = (λ h. refl, λ h. cc)
in_range-keep (some (a ∷ b ∷ c ∷ cs)) cells = (λ h. cc, λ h. refl)

empty_part :
    (must : Bool) (cells : List IndexerCell)
    → (if must then keep has_no_data cells else cells) ≡ keep (λ c. not must || has_no_data c) cells
empty_part true cells = refl
empty_part false cells = sym (keep_by_true cells)

-- With a range of two ends, or none, the offline `getCells` gives, in their order, the cells whose
-- scripts are those of the query, whose data is empty if no type is asked for and nothing else is said,
-- and whose capacity is in the range, its upper end excluded; with another range it throws.
pub offline_cells-keep :
    (w : CkbWorld) (cells : List IndexerCell) (q : CellsQuery)
    → (has_two_ends q.output_capacity_range ≡ true
        → offline_cells w cells q ≡ ok (keep (is_met w q) cells))
      × (has_two_ends q.output_capacity_range ≡ false
          → offline_cells w cells q ≡ err CkbError.plain_error)
unfolding offline_cells has_no_data
offline_cells-keep w cells q =
    let range = q.output_capacity_range in
    let scripts = scripts_met w q.lock q.type_script in
    let empty : IndexerCell → Bool = λ c. not (must_be_empty q) || has_no_data c in
    let found = of_scripts w q.lock q.type_script cells in
    let (two, other) =
      in_range-keep range (if must_be_empty q then keep has_no_data found else found) in
    let all : (if must_be_empty q then keep has_no_data found else found)
        ≡ keep (λ c. scripts c && empty c) cells =
      empty_part (must_be_empty q) found
      ∙ (ap (keep empty) (of_scripts-keep w q.lock q.type_script cells)
          ∙ keep_twice scripts empty cells) in
    (
      λ h.
          two h
          ∙ ap ok (
              ap (keep (range_met range)) all
              ∙ (keep_twice (λ c. scripts c && empty c) (range_met range) cells
                  ∙ ap
                      (λ b.
                        keep
                          (λ c.
                            (scripts c && (not b || (length c.output_data == 0)))
                            && range_met range c)
                          cells)
                      (must_be_empty-eq q))),
      other,
    )
