-- ===== src/MarketData/Tests.antt =====
-- A small store, and walks over a small book.
use mathlib.Core.Logic.{◌↔◌}
use crypto_arbitrage_bot_ref.Base.{
  ℕ, ◌+◌, ◌*◌, ◌≤◌, ◌≡◌, refl, true, Option, none, some, List, [], ◌∷◌, text, All, text_eq, is_some,
  if◌then◌else◌,
}
use crypto_arbitrage_bot_ref.Money.{Decimal, dec, dec0, le_dec, arithmetic}
use crypto_arbitrage_bot_ref.Orders.{OrderSide}
use crypto_arbitrage_bot_ref.Result.{Result, ok, raise}
use crypto_arbitrage_bot_ref.Fills.{OrderBook}
use crypto_arbitrage_bot_ref.Fills.Tests.{small_book}
use crypto_arbitrage_bot_ref.MarketData.Store.{
  same_key, Snapshot, MarketDataStore, future_tolerance, age_ms, is_fresh, order_book,
}
use crypto_arbitrage_bot_ref.MarketData.Freshness.{
  fresh_iff, Update, book_update, feed, Outlasts, newest_stays,
}
use crypto_arbitrage_bot_ref.MarketData.Depth.{
  ExecutionEstimate, estimate_for_base_amount, walk_amount, start_with, vwap, average_if,
}
use crypto_arbitrage_bot_ref.MarketData.Budget.{crossable_liquidity}
use crypto_arbitrage_bot_ref.MarketData.Crossing.{uncrossed, crossable_liquidity_ends}
use crypto_arbitrage_bot_ref.MarketData.Walks.{vwap-walk_amount}

abbrev empty_store : MarketDataStore
empty_store = record { stale_after_ms = 2000; tickers = []; books = [] }

abbrev snapshot_at : ℕ → Snapshot
snapshot_at timestamp = record {
  exchange_id = text "Alpha";
  timestamp = timestamp;
  book = small_book;
}

fresh_iff_example :
    (is_fresh empty_store (age_ms 5_000_000 4_000_000) ≡ true)
    ↔ ((4_000_000 ≤ 5_000_000 + future_tolerance) × (5_000_000 ≤ 4_000_000 + 1000 * 2000))
fresh_iff_example = fresh_iff empty_store 5_000_000 4_000_000

abbrev replayed : List Update
replayed = book_update (snapshot_at 20) ∷ book_update (snapshot_at 10) ∷ []

abbrev time_of : Option Snapshot → Option ℕ
time_of none = none
time_of (some s) = some s.timestamp

-- An older snapshot that arrives later is dropped.
replay_dropped :
    time_of (order_book (text "alpha") small_book.symbol (feed replayed empty_store)) ≡ some 20
unfolding order_book feed text_eq same_key
replay_dropped = refl

newest_stays_example : All (λ u. Outlasts (feed replayed empty_store) u) replayed
newest_stays_example = newest_stays replayed empty_store

-- twelve are bought from the first two levels
abbrev what : Result ExecutionEstimate → Option (Decimal × Decimal × ℕ)
what (ok e) = some (e.filled_amount, e.quote_amount, e.levels_consumed)
what (raise e) = none

twelve :
    what (estimate_for_base_amount small_book OrderSide.buy (dec 12 0))
    ≡ some (dec 12 0, dec 1200400000 8, 2)
unfolding estimate_for_base_amount arithmetic
twelve = refl

vwap-walk_amount_example :
    vwap small_book.asks (dec 12 0)
    ≡ average_if
        (if le_dec (walk_amount small_book.asks (start_with (dec 12 0))).remaining dec0
          then some (walk_amount small_book.asks (start_with (dec 12 0))).quote
          else none)
        (dec 12 0)
unfolding le_dec
vwap-walk_amount_example =
    vwap-walk_amount small_book.asks (dec 12 0) (refl, (refl, (refl, tt))) refl

-- a book whose bids cross the asks of the small one
abbrev rich_book : OrderBook
rich_book = record {
  symbol = small_book.symbol;
  bids =
      record { price = dec 101 2; amount = dec 4 0 }
      ∷ record { price = dec 1001 3; amount = dec 50 0 }
      ∷ [];
  asks = [];
}

-- The first level is used up by two bids; the second one costs more than the next bid.
crosses : crossable_liquidity small_book rich_book ≡ some (ok (dec 1000000000 8, dec 1000000000 8))
unfolding crossable_liquidity arithmetic
crosses = refl

crossable_liquidity_ends_example :
    (is_some (crossable_liquidity small_book rich_book) ≡ true)
    × (uncrossed small_book.asks rich_book.bids ≡ true
        → crossable_liquidity small_book rich_book ≡ some (ok (dec 0 8, dec 0 8)))
crossable_liquidity_ends_example = crossable_liquidity_ends small_book rich_book
