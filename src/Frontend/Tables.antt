-- ===== src/Frontend/Tables.antt =====
-- frontend/src/hooks/usePaginatedTableState.ts and frontend/src/components/ListControls.tsx: the page of a
-- table that the user interface asks for. `trim` is a parameter.
use native.Mathlib.Nat.{mul-le-mul}
use exchange_matching.Base.{
  ℕ, ◌*◌, ◌-◌, ◌==◌, ◌||◌, ◌≡◌, ◌≤◌, arith, leb, Bool, true, false, List, [], ◌∷◌, Option, none,
  some, if◌then◌else◌,
}
use exchange_matching.Text.{Text}
use exchange_matching.Pagination.{
  digits, to_positive_integer, is_valid_query, safe_offset, max_safe_integer,
}

-- PAGE_SIZE_OPTIONS
abbrev pub page_size_options : List ℕ
page_size_options = 10 ∷ 25 ∷ 50 ∷ 100 ∷ []

abbrev pub is_option : ℕ → List ℕ → Bool
is_option n [] = false
is_option n (m ∷ ms) = m == n || is_option n ms

-- The state of the hook. `deferred_search` follows the search when the browser is idle.
pub record TableState : Type 0 where
  pub page : ℕ
  pub page_size : ℕ
  pub search : Text
  pub deferred_search : Text

-- DEFAULT_PAGE_SIZE
abbrev pub default_page_size : ℕ
default_page_size = 10

abbrev pub new_table : TableState
new_table = record { page = 1; page_size = default_page_size; search = []; deferred_search = [] }

abbrev pub set_page : ℕ → TableState → TableState
set_page next_page s = record s { page = next_page }

abbrev pub set_search : Text → TableState → TableState
set_search next_search s = record s { search = next_search; page = 1 }

abbrev pub set_page_size : ℕ → TableState → TableState
set_page_size next_page_size s = record s { page_size = next_page_size; page = 1 }

pub record PaginatedQuery : Type 0 where
  pub page : ℕ
  pub page_size : ℕ
  pub id : Option Text

-- `deferredSearch || undefined`
abbrev pub optional_text : Text → Option Text
optional_text [] = none
optional_text (c ∷ cs) = some (c ∷ cs)

-- `query`
unfoldable pub query_of : TableState → PaginatedQuery
query_of s = record { page = s.page; page_size = s.page_size; id = optional_text s.deferred_search }

-- `safeTotalPages`
abbrev pub safe_total_pages : (total_pages : ℕ) → ℕ
safe_total_pages total_pages = if leb 1 total_pages then total_pages else 1

-- As many pages as there can be: the rows on them are counted by safe integers.
abbrev pub most_pages : ℕ
most_pages = 90071992547409

module _ (trim : Text → Text) where
  abbrev catch_up : TableState → TableState
  catch_up s = record s { deferred_search = trim s.search }

  -- What a user does at the controls of a list: one of the pages that are shown, one of the sizes, or
  -- any search; and the deferred search catches up.
  pub data TableEvent (s : TableState) : TableState → Type 0 where
    page_chosen :
        (total_pages next_page : ℕ)
        → total_pages ≤ most_pages
        → 1 ≤ next_page
        → next_page ≤ safe_total_pages total_pages
        → TableEvent s (set_page next_page s)
    size_chosen :
        (next_page_size : ℕ)
        → is_option next_page_size page_size_options ≡ true
        → TableEvent s (set_page_size next_page_size s)
    search_typed : (next_search : Text) → TableEvent s (set_search next_search s)
    caught_up : TableEvent s (catch_up s)

  pub data TableLife (s : TableState) : TableState → Type 0 where
    here : TableLife s s
    next : {s' s'' : TableState} → TableLife s s' → TableEvent s' s'' → TableLife s s''

  record IsPaged (s : TableState) : Type 0 where
    page_positive : 1 ≤ s.page
    page_bounded : s.page ≤ most_pages
    size_positive : 1 ≤ s.page_size
    size_bounded : s.page_size ≤ 100

  event-IsPaged : {s s' : TableState} → IsPaged s → TableEvent s s' → IsPaged s'
  event-IsPaged {s} p (page_chosen total_pages next_page most low high) = record {
    page_positive = low;
    page_bounded = ground (arith, most, high);
    size_positive = p.size_positive;
    size_bounded = p.size_bounded;
  }
  event-IsPaged {s} p (size_chosen next_page_size option) = record {
    page_positive = omega arith;
    page_bounded = omega arith;
    size_positive = ground (arith, option);
    size_bounded = ground (arith, option);
  }
  event-IsPaged {s} p (search_typed next_search) = record {
    page_positive = omega arith;
    page_bounded = omega arith;
    size_positive = p.size_positive;
    size_bounded = p.size_bounded;
  }
  event-IsPaged {s} p caught_up = record {
    page_positive = p.page_positive;
    page_bounded = p.page_bounded;
    size_positive = p.size_positive;
    size_bounded = p.size_bounded;
  }

  life-IsPaged : {s : TableState} → TableLife new_table s → IsPaged s
  life-IsPaged here = record {
    page_positive = omega arith;
    page_bounded = omega arith;
    size_positive = omega arith;
    size_bounded = omega arith;
  }
  life-IsPaged (next life event) = event-IsPaged (life-IsPaged life) event

  product_fits :
      (page page_size : ℕ)
      → page ≤ most_pages
      → page_size ≤ 100
      → (page - 1) * page_size ≤ max_safe_integer
  product_fits page page_size h k =
      let before : page - 1 ≤ most_pages = omega (arith, h) in omega (arith, mul-le-mul before k)

  -- For any `trim`, after any events at the controls of a new table - a page that is shown
  -- is chosen, of at most 90071992547409, a page size is chosen, a search is typed, or the
  -- deferred search catches up - the page and the page size of its query pass
  -- `is_valid_query` after the transforms of the backend.
  pub query_of-is_valid_query :
      {s : TableState}
      → TableLife new_table s
      → (let query = query_of s in
          is_valid_query
            (to_positive_integer (digits query.page) 1)
            (to_positive_integer (digits query.page_size) 25)
          ≡ true)
  unfolding query_of is_valid_query safe_offset
  query_of-is_valid_query {s} life =
      let p = life-IsPaged life in
      ground (
        arith,
        p.page_positive,
        p.page_bounded,
        p.size_positive,
        p.size_bounded,
        product_fits s.page s.page_size p.page_bounded p.size_bounded,
      )
