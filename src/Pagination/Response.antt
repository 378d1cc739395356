-- ===== src/Pagination/Response.antt =====
-- backend/src/common/pagination.ts: a page of a list, and what the response says of the list. The
-- quotient of two numbers below 2^53 is rounded to a double, which its ceiling does not show for the
-- counts that a table has.
use exchange_matching.Base.{ℕ, ◌+◌, ◌-◌, ◌*◌, ◌/◌, ◌==◌, List, if◌then◌else◌}
use exchange_matching.Table.{limit, skip}

pub record PaginationMeta : Type 0 where
  pub page : ℕ
  pub page_size : ℕ
  pub total_items : ℕ
  pub total_pages : ℕ

pub record PaginatedResponse (Item : Type 0) : Type 0 where
  pub items : List Item
  pub pagination : PaginationMeta

unfoldable pub total_pages_of : (total_items page_size : ℕ) → ℕ
total_pages_of total_items page_size =
    if total_items == 0 then 0 else (total_items + (page_size - 1)) / page_size

-- `buildPaginatedResponse`
unfoldable pub build_paginated_response :
    {Item : Type 0} → List Item → (page page_size total_items : ℕ) → PaginatedResponse Item
unfolding total_pages_of
build_paginated_response items page page_size total_items = record {
  items = items;
  pagination = record {
    page = page;
    page_size = page_size;
    total_items = total_items;
    total_pages = total_pages_of total_items page_size;
  };
}

-- `skip` and `take` of a query: the rows of its page.
unfoldable pub rows_of_page : {A : Type 0} → (page page_size : ℕ) → List A → List A
unfolding limit skip
rows_of_page page page_size rows = limit page_size (skip ((page - 1) * page_size) rows)
