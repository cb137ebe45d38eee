-- ===== src/Ckb/Collector/Pages/All.antt =====
-- packages/ckb/src/collector/index.ts: `getCells` over an indexer that pages a list of cells.
use rgbpp_sdk.Ckb.Collector.Pages.{
  Page, pages_from, SearchKey, get_cells, get_cells_page_size, search_key,
}
use rgbpp_sdk.Ckb.Error.{CkbResult}
use rgbpp_sdk.Ckb.Types.{IndexerCell}
use rgbpp_sdk.Common.{
  Bool-cases, List, Option, String, [], ap, arith, drop, inl, inr, length, length-drop, length-take,
  ltb, ltb→le, ltb→lt, none, refl, some, subst, suc, sym, take, zero, ℕ, ◌+◌, ◌<◌, ◌∙◌, ◌∷◌, ◌≡◌,
  ◌≤◌, is_some, take-append-drop, ◌++◌,
}
use rgbpp_sdk.Common.Outcome.{ok}
use rgbpp_sdk.Ckb.Offline.{CellsQuery}

-- What the indexer promises: each cursor stands at a position of its cells, a page has the cells from
-- there on, up to its size, and a page that is full has the cursor after it.
pub record IsPaged (ask : Option String → CkbResult Page) (size : ℕ) (cells : List IndexerCell)
    : Type 0 where
  pub position : Option String → ℕ
  pub page_at : Option String → Page
  pub start : position none ≡ 0
  pub answers : (c : Option String) → ask c ≡ ok (page_at c)
  pub objects_at : (c : Option String) → (page_at c).objects ≡ take size (drop (position c) cells)
  pub next :
      (c : Option String)
      → size ≤ length (page_at c).objects
      → (d : String) × ((page_at c).last_cursor ≡ some d) × (position (some d) ≡ position c + size)

drop_nil : (n : ℕ) → drop {A = IndexerCell} n [] ≡ []
drop_nil zero = refl
drop_nil (suc n) = refl

drop-drop : (m n : ℕ) (cells : List IndexerCell) → drop n (drop m cells) ≡ drop (m + n) cells
drop-drop zero n cells = ap (λ k. drop k cells) (omega arith)
drop-drop (suc m) n [] = drop_nil n ∙ sym (drop_nil (suc m + n))
drop-drop (suc m) n (c ∷ cs) =
    let e : suc (m + n) ≡ suc m + n = omega arith in drop-drop m n cs ∙ ap (λ k. drop k (c ∷ cs)) e

take_short : (n : ℕ) (cells : List IndexerCell) → length (take n cells) < n → take n cells ≡ cells
take_short zero cells h = absurd (omega (arith, h))
take_short (suc n) [] h = refl
take_short (suc n) (c ∷ cs) h = ap (λ l. c ∷ l) (take_short n cs (omega (arith, h)))

module _ (ask : Option String → CkbResult Page) (size : ℕ) (cells : List IndexerCell)
    (paged : IsPaged ask size cells) (positive_size : 0 < size) where
  pages_from-drop :
      (fuel : ℕ) (c : Option String)
      → paged.position c ≤ length cells
      → length cells < fuel + paged.position c
      → pages_from ask size fuel c ≡ ok (drop (paged.position c) cells)
  unfolding pages_from
  pages_from-drop zero c within enough = absurd (omega (arith, within, enough))
  pages_from-drop (suc fuel) c within enough =
      let page = paged.page_at c in
      let here = paged.objects_at c in
      let left = drop (paged.position c) cells in
      elim (Bool-cases (ltb (length page.objects) size)) [
        | inl short ↦
            let few = ltb→lt (length page.objects) size short in
            let whole = here ∙ take_short size left (subst (λ l. length l < size) here few) in
            rw (paged.answers c) (
              rw short (elim (Bool-cases (is_some page.last_cursor)) [
                | inl more ↦ rw more (ap ok whole)
                | inr last ↦ rw last (ap ok whole)
              ]))
        | inr full ↦
            let many = ltb→le (length page.objects) size full in
            let (d, cursor, after) = paged.next c many in
            let size_left = length-take size left in
            let size_here = ap length here in
            let size_drop = length-drop (paged.position c) cells in
            let ih =
              pages_from-drop fuel (some d)
                (omega (arith, after, many, size_left, size_here, size_drop, positive_size))
                (omega (arith, after, enough, positive_size)) in
            let later = drop (paged.position (some d)) cells in
            let joined : page.objects ++ later ≡ left =
              ap (λ l. l ++ later) here
              ∙ (ap (λ n. take size left ++ drop n cells) after
                  ∙ (ap (λ l. take size left ++ l) (sym (drop-drop (paged.position c) size cells))
                      ∙ take-append-drop size left)) in
            rw (paged.answers c) (rw full (rw cursor (rw ih (ap ok joined))))
      ]

-- Where the indexer keeps its promise for the key of the query, `getCells` ends, after one page more
-- than there are cells at most, and returns all cells in their order.
pub get_cells_ends :
    (asked_indexer : SearchKey → ℕ → Option String → CkbResult Page) (q : CellsQuery)
    (cells : List IndexerCell)
    → IsPaged (asked_indexer (search_key q) get_cells_page_size) get_cells_page_size cells
    → get_cells asked_indexer (length cells + 1) q ≡ ok cells
unfolding get_cells
get_cells_ends asked_indexer q cells paged =
    let start = paged.start in
    pages_from-drop (asked_indexer (search_key q) get_cells_page_size) get_cells_page_size cells
      paged (omega arith) (length cells + 1) none (omega (arith, start)) (omega (arith, start))
    ∙ ap (λ n. ok (drop n cells)) start
