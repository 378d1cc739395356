-- ===== src/Pagination.antt =====
-- backend/src/common/pagination.ts and backend/src/common/dto/pagination-query.dto.ts: which page of a
-- list a query asks for. A query value is what the framework hands over.
mod Response
pub mod Pages
unfoldable pub use Response.*
use exchange_matching.Base.{
  ℕ, ◌-◌, ◌*◌, ◌≤◌, ◌≡◌, Bool, true, false, leb, ◌&&◌, ◌||◌, not, Option, some, none, if◌then◌else◌,
  arith,
}

-- A value of a query is a text: missing or empty, only digits, or another, which becomes NaN.
pub data QueryValue : Type 0 where
  absent : QueryValue
  digits : ℕ → QueryValue
  other : QueryValue

-- Number.MAX_SAFE_INTEGER
abbrev pub max_safe_integer : ℕ
max_safe_integer = 9007199254740991

abbrev pub is_safe_integer : ℕ → Bool
is_safe_integer n = leb n max_safe_integer

-- `toPositiveInteger`; NaN is `none`.
abbrev pub to_positive_integer : QueryValue → (fallback : ℕ) → Option ℕ
to_positive_integer absent fallback = some fallback
to_positive_integer (digits n) fallback = if is_safe_integer n then some n else none
to_positive_integer other fallback = none

-- `SafePaginationOffset.validate`
unfoldable pub safe_offset : (page page_size : Option ℕ) → Bool
safe_offset none page_size = true
safe_offset (some page) none = true
safe_offset (some page) (some page_size) =
    not (is_safe_integer page)
    || not (is_safe_integer page_size)
    || is_safe_integer ((page - 1) * page_size)

-- `@IsInt() @Min(low)` and `@Max(high)`
abbrev pub is_int_from : (low : ℕ) → Option ℕ → Bool
is_int_from low none = false
is_int_from low (some n) = leb low n

abbrev pub is_at_most : (high : ℕ) → Option ℕ → Bool
is_at_most high none = false
is_at_most high (some n) = leb n high

-- Whether `PaginationQueryDto` is accepted, after its transforms.
unfoldable pub is_valid_query : (page page_size : Option ℕ) → Bool
unfolding safe_offset
is_valid_query page page_size =
    is_int_from 1 page
    && is_int_from 1 page_size
    && is_at_most 100 page_size
    && safe_offset page page_size

-- The page of an accepted query, and the offset of its first row.
pub record IsPage (page page_size : ℕ) : Type 0 where
  pub page_positive : 1 ≤ page
  pub size_positive : 1 ≤ page_size
  pub size_bounded : page_size ≤ 100
  pub offset_safe : (page - 1) * page_size ≤ max_safe_integer

safe :
    (v : QueryValue) (fallback n : ℕ)
    → fallback ≤ max_safe_integer
    → to_positive_integer v fallback ≡ some n
    → n ≤ max_safe_integer
safe absent fallback n h e = ground arith
safe (digits m) fallback n h e = ground arith
safe other fallback n h e = cc

-- If the two values of a query become the page and the page size, and the query is accepted,
-- then the page and the page size are at least 1, the page size is at most 100, and the offset
-- of the first row is a safe integer.
pub is_valid_query-IsPage :
    (page_value size_value : QueryValue) (page page_size : ℕ)
    → to_positive_integer page_value 1 ≡ some page
    → to_positive_integer size_value 25 ≡ some page_size
    → is_valid_query (to_positive_integer page_value 1) (to_positive_integer size_value 25) ≡ true
    → IsPage page page_size
unfolding is_valid_query
is_valid_query-IsPage v w page page_size e f h =
    let page_safe : page ≤ max_safe_integer = safe v 1 page (omega arith) e in
    let size_safe : page_size ≤ max_safe_integer = safe w 25 page_size (omega arith) f in
    record {
      page_positive = ground (arith, e, f);
      size_positive = ground (arith, e, f);
      size_bounded = ground (arith, e, f);
      offset_safe = ground (arith, e, f);
    }
