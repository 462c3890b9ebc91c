-- ===== src/MarketData.antt =====
-- app/market_data/store.py and app/market_data/order_book.py: the cache of market data, and what
-- can be executed against the depth of a book.
pub mod Store
pub mod Freshness
pub mod Depth
pub mod Budget
pub mod Walks
pub mod Crossing
pub mod Tests
