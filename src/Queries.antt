-- ===== src/Queries.antt =====
-- The lists and figures that the API serves: orders (orders/orders.service.ts), the market
-- (market/market.service.ts) and trades (trades/trades.service.ts), under backend/src. A text is what
-- the rendering of a value gives: `toFixed(8)` and `toISOString` are parameters, and so are `trim`, the
-- test for the empty text, the prefix test of the database, the text of an id, and the two times of a
-- row, which the rows of the model do not keep.
pub mod Texts
pub mod Orders
pub mod Market
pub mod Trades
pub mod Sorting
pub mod Selection
pub mod Listing
pub mod Levels
pub mod Book
pub mod History
