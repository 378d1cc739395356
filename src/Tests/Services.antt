-- ===== src/Tests/Services.antt =====
-- The older wallet service and the pages of lists at concrete inputs.
use exchange_matching.Base.{◌≡◌, refl, some, true}
use exchange_matching.Pagination.{is_valid_query}

query_run : is_valid_query (some 3) (some 25) ≡ true
unfolding is_valid_query
query_run = refl
