-- ===== src/Tui/Pagination/Offsets.antt =====
-- Paging forward through a table by offsets.
use myr.Prelude.{
  ℕ, zero, suc, ◌+◌, ◌-◌, ◌*◌, ◌<◌, ◌≤◌, ◌≡◌, refl, sym, ap, ◌∙◌, Bool, true, false, not, Option,
  some, List, [], ◌∷◌, ◌++◌, length, length-take, length-drop, take, drop, drop_all, is_empty, ltb,
  leb, if◌then◌else◌, saturating_add, saturating_mul, max_u64, Bool-cases, inl, inr, arith,
}
use Prim.Native.Nat.{min}
use myr.Prelude.Text.{Text}
use myr.SqlGenerator.{Generated, SqlTarget, new_target, offset_page_sql}
use myr.ResultsBuffer.{ResultsRingBuffer, new, push_all, len}
use myr.ResultsBuffer.Window.{push_all-new}
use myr.QueryRunner.{QueryRow}
use myr.Tui.Pagination.{
  PageTransition, reset, next, offset, PaginationState, PageSql, ok, err, pagination_sql,
  target_sql, plan_sql, next_index, index_after, plan_after, state_after, pagination_capabilities,
}

-- The server, the columns of the result and the empty buffer of a query.
module _ (server : Text → List QueryRow) (columns : List Text)
    (buffer : ResultsRingBuffer QueryRow) where
  abbrev answer : PageSql → List QueryRow
  answer (ok sql) = server sql
  answer (err e) = []

  -- A transition: the rows that come, and the state when they are there.
  unfoldable pub visit : PaginationState → PageTransition → List QueryRow × PaginationState
  visit s transition =
      let page = answer (pagination_sql s transition) in
      (page, state_after s transition (push_all buffer page) columns)

  -- The next page is asked for as long as there may be one, on fuel.
  unfoldable pub forward : ℕ → PaginationState → Bool → List QueryRow
  forward zero s has_results = []
  forward (suc fuel) s has_results =
      let (page, s') = visit s next in
      let rest = page ++ forward fuel s' (not (is_empty page)) in
      if (pagination_capabilities (some s) has_results).1 then rest else []

  unfoldable pub all_pages : ℕ → PaginationState → List QueryRow
  all_pages fuel s = let (page, s') = visit s reset in page ++ forward fuel s' (not (is_empty page))

take-append-drop : (n : ℕ) (xs : List QueryRow) → take n xs ++ drop n xs ≡ xs
take-append-drop zero xs = refl
take-append-drop (suc n) [] = refl
take-append-drop (suc n) (x ∷ xs) = ap (◌∷◌ x) (take-append-drop n xs)

drop-add : (m n : ℕ) (xs : List QueryRow) → drop n (drop m xs) ≡ drop (m + n) xs
drop-add zero n xs = let e : n ≡ 0 + n = omega arith in ap (λ i. drop i xs) e
drop-add (suc m) n [] = drop_all n [] (omega arith) ∙ sym (drop_all (suc m + n) [] (omega arith))
drop-add (suc m) n (x ∷ xs) =
    let e : suc (m + n) ≡ suc m + n = omega arith in drop-add m n xs ∙ ap (λ i. drop i (x ∷ xs)) e

take-drop : (n m : ℕ) (xs : List QueryRow) → take n (drop m xs) ++ drop (m + n) xs ≡ drop m xs
take-drop n m xs = rw (← drop-add m n xs) (take-append-drop n (drop m xs))

module _ (database : Option Text) (table : Text) (k : ℕ) where
  -- The state at a page.
  abbrev pub at_page : ℕ → ℕ → PaginationState
  at_page index count = record {
    database = database;
    table = table;
    page_size = k;
    page_index = index;
    last_page_row_count = count;
    plan = offset;
  }

  module _ (target : SqlTarget) (server : Text → List QueryRow) (columns : List Text)
      (buffer : ResultsRingBuffer QueryRow) (rows : List QueryRow)
      (valid : new_target database table ≡ Generated.ok target)
      (answers : (skip : ℕ) → server (offset_page_sql target k skip) ≡ take k (drop skip rows))
      (kept : (page : List QueryRow) → length page ≤ k → len (push_all buffer page) ≡ length page)
      (positive : 0 < k) (fits : length rows ≤ max_u64) where
    page_at : ℕ → List QueryRow
    page_at skip = take k (drop skip rows)

    page_rows :
        (index count : ℕ) (transition : PageTransition)
        → answer server columns buffer (pagination_sql (at_page index count) transition)
          ≡ take k (drop (saturating_mul (next_index index transition) k) rows)
    unfolding pagination_sql target_sql plan_sql
    page_rows index count transition =
        rw valid (answers (saturating_mul (next_index index transition) k))

    step_mul : (index : ℕ) → (index + 1) * k ≡ index * k + k
    step_mul index = omega arith

    index_le : (index : ℕ) → index ≤ index * k
    index_le zero = omega arith
    index_le (suc index) = omega (arith, index_le index, step_mul index)

    count_up : (index : ℕ) → index * k + k ≤ length rows → saturating_add index 1 ≡ index + 1
    count_up index low = omega (arith, index_le index)

    -- The state behind a page that came.
    state_behind :
        (index count : ℕ) (transition : PageTransition) (page : List QueryRow)
        → length page ≤ k
        → state_after (at_page index count) transition (push_all buffer page) columns
          ≡ at_page (index_after transition (length page) index) (length page)
    unfolding state_after plan_after
    state_behind index count transition page h = rw (kept page h) refl

    -- Where a page is full, the one behind it is asked for at the next offset.
    next_page :
        (index : ℕ) (page : List QueryRow)
        → page ≡ take k (drop (index * k) rows)
        → k ≤ length page
        → answer server columns buffer (pagination_sql (at_page index (length page)) next)
          ≡ take k (drop (index * k + k) rows)
    unfolding next_index
    next_page index page e full =
        let size : length page ≡ min k (length rows - index * k) =
          ap length e
          ∙ length-take k (drop (index * k) rows)
          ∙ ap (min k) (length-drop (index * k) rows) in
        let low : index * k + k ≤ length rows = omega arith in
        let word : saturating_mul (saturating_add index 1) k ≡ index * k + k =
          ap (λ i. saturating_mul i k) (count_up index low) ∙ omega (arith, step_mul index) in
        page_rows index (length page) next ∙ ap (λ skip. take k (drop skip rows)) word

    page_size :
        (skip : ℕ) (page : List QueryRow)
        → page ≡ take k (drop skip rows)
        → length page ≡ min k (length rows - skip)
    page_size skip page e =
        ap length e ∙ length-take k (drop skip rows) ∙ ap (min k) (length-drop skip rows)

    can_page_next : ℕ → List QueryRow → Bool
    can_page_next index page =
        (pagination_capabilities (some (at_page index (length page))) (not (is_empty page))).1

    can_next :
        (index : ℕ) (page : List QueryRow) → k ≤ length page → can_page_next index page ≡ true
    unfolding can_page_next pagination_capabilities
    can_next index [] h = absurd (omega arith)
    can_next index (x ∷ xs) h = ground arith

    cannot_next :
        (index : ℕ) (page : List QueryRow) → length page < k → can_page_next index page ≡ false
    unfolding can_page_next pagination_capabilities
    cannot_next index [] h = refl
    cannot_next index (x ∷ xs) h = ground arith

    forward_stops :
        (fuel : ℕ) (s : PaginationState) → forward server columns buffer fuel s false ≡ []
    unfolding forward pagination_capabilities
    forward_stops zero s = refl
    forward_stops (suc fuel) s = refl

    -- The pages from the next one on, given those behind it.
    behind_next :
        (fuel index : ℕ) (page : List QueryRow)
        → page ≡ take k (drop (index * k + k) rows)
        → index * k + k ≤ length rows
        → ((p : List QueryRow)
            → p ≡ take k (drop ((index + 1) * k) rows)
            → forward server columns buffer fuel (at_page (index + 1) (length p)) (not (is_empty p))
              ≡ drop ((index + 1) * k + k) rows)
        → page
            ++ forward server columns buffer fuel
                (at_page (index_after next (length page) index) (length page))
                (not (is_empty page))
          ≡ drop (index * k + k) rows
    unfolding index_after
    behind_next fuel index [] e low rest =
        forward_stops fuel (at_page index 0)
        ∙ sym (drop_all (index * k + k) rows (omega (arith, page_size (index * k + k) [] e)))
    behind_next fuel index (x ∷ xs) e low rest =
        let some_rows : ltb 0 (suc (length xs)) ≡ true = ground arith in
        let same = ap (λ skip. take k (drop skip rows)) (step_mul index) in
        rw (some_rows, count_up index low, rest (x ∷ xs) (e ∙ sym same), step_mul index)
          (ap (λ p. p ++ drop (index * k + k + k) rows) e ∙ take-drop k (index * k + k) rows)

    forward_rest :
        (fuel index : ℕ) (page : List QueryRow)
        → page ≡ take k (drop (index * k) rows)
        → length rows < fuel + (index * k + k)
        → forward server columns buffer fuel (at_page index (length page)) (not (is_empty page))
          ≡ drop (index * k + k) rows
    unfolding forward visit can_page_next
    forward_rest zero index page e enough = sym (drop_all (index * k + k) rows (omega arith))
    forward_rest (suc fuel) index page e enough = elim (Bool-cases (leb k (length page))) [
      | inl full ↦
          let full' : k ≤ length page = ground arith in
          let low : index * k + k ≤ length rows = omega (arith, page_size (index * k) page e) in
          let page' = take k (drop (index * k + k) rows) in
          let fewer : length rows < fuel + ((index + 1) * k + k) = omega (arith, step_mul index) in
          rw
            (
              can_next index page full',
              next_page index page e full',
              state_behind index (length page) next page'
                  (omega (arith, length-take k (drop (index * k + k) rows))),
            )
            (behind_next fuel index page' refl low
              (λ p same. forward_rest fuel (index + 1) p same fewer))
      | inr short ↦
          let short' : length page < k = ground arith in
          rw (cannot_next index page short')
            (sym (drop_all (index * k + k) rows (omega (arith, page_size (index * k) page e))))
    ]

    all_pages_kept :
        (fuel : ℕ) → length rows ≤ fuel → all_pages server columns buffer fuel (at_page 0 0) ≡ rows
    unfolding all_pages visit next_index index_after
    all_pages_kept fuel enough =
        let page = take k rows in
        let none_skipped : 0 ≡ 0 * k = omega arith in
        let word : saturating_mul 0 k ≡ 0 = omega arith in
        let start : page ≡ take k (drop (0 * k) rows) =
          ap (λ skip. take k (drop skip rows)) none_skipped in
        let first : answer server columns buffer (pagination_sql (at_page 0 0) reset) ≡ page =
          page_rows 0 0 reset ∙ ap (λ skip. take k (drop skip rows)) word in
        let skip : 0 * k + k ≡ k = omega arith in
        rw
          (
            first,
            state_behind 0 0 reset page (omega (arith, length-take k rows)),
            forward_rest fuel 0 page start (omega arith),
            skip,
          )
          (take-append-drop k rows)

-- A server that answers a page by its rows, for a table whose names are not blank: the pages that
-- are shown from the first one on, as long as a next one is offered, are the rows of the table, each
-- once and in order. A page has at least one row and fits into the buffer, the rows can be counted
-- by a machine word, and as many steps as there are rows are enough.
pub all_pages_lem :
    (database : Option Text) (table : Text) (target : SqlTarget) (k capacity fuel : ℕ)
    (server : Text → List QueryRow) (columns : List Text) (buffer : ResultsRingBuffer QueryRow)
    (rows : List QueryRow)
    → new_target database table ≡ Generated.ok target
    → ((skip : ℕ) → server (offset_page_sql target k skip) ≡ take k (drop skip rows))
    → new capacity ≡ some buffer
    → 0 < k
    → k ≤ capacity
    → length rows ≤ max_u64
    → length rows ≤ fuel
    → all_pages server columns buffer fuel (at_page database table k 0 0) ≡ rows
unfolding len
all_pages_lem database table target k capacity fuel server columns buffer rows valid answers made
      positive room fits enough =
    all_pages_kept database table k target server columns buffer rows valid answers kept positive
      fits fuel enough
  where
    kept : (page : List QueryRow) → length page ≤ k → len (push_all buffer page) ≡ length page
    kept page h =
        let window = push_all-new capacity buffer page made in
        let none_lost : length page - capacity ≡ 0 = omega arith in
        ap length (window.0 ∙ ap (λ n. drop n page) none_lost)
