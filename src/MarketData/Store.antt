-- ===== src/MarketData/Store.antt =====
-- app/market_data/store.py: the latest snapshots by venue and symbol. Spot is the only market type
-- of the code. Times are microseconds; ages are exact, where the code computes with floats.
use crypto_arbitrage_bot_ref.Base.{
  ℕ, ◌+◌, ◌-◌, Bool, true, false, not, ◌&&◌, ◌||◌, Option, none, some, List, [], ◌∷◌, Text, text_eq,
  Dict, put, any_of, select_where, ltb, if◌then◌else◌,
}
use crypto_arbitrage_bot_ref.Money.{Decimal, dec, le_dec}
use crypto_arbitrage_bot_ref.Orders.{Symbol}
use crypto_arbitrage_bot_ref.Risk.{Float, finite, infinite, nan}
use crypto_arbitrage_bot_ref.Precision.{lower, symbol_name}
use crypto_arbitrage_bot_ref.Fills.{OrderBook}

-- a book with its venue and time, as `OrderBook` has them
pub record Snapshot : Type 0 where
  pub exchange_id : Text
  pub timestamp : ℕ
  pub book : OrderBook

pub record Ticker : Type 0 where
  pub exchange_id : Text
  pub symbol : Symbol
  pub timestamp : ℕ
  pub bid : Option Decimal
  pub ask : Option Decimal
  pub last : Option Decimal

pub record QuoteKey : Type 0 where
  pub exchange_id : Text
  pub symbol : Text

-- `QuoteKey.of`
unfoldable pub key_of : Text → Symbol → QuoteKey
unfolding lower symbol_name
key_of exchange_id symbol = record { exchange_id = lower exchange_id; symbol = symbol_name symbol }

unfoldable pub same_key : QuoteKey → QuoteKey → Bool
same_key j k = text_eq j.exchange_id k.exchange_id && text_eq j.symbol k.symbol

abbrev pub Quotes : Type 0 → Type 0
Quotes A = List (QuoteKey × A)

module _ {A : Type 0} where
  -- `d.get(k)`
  unfoldable pub find_quote : QuoteKey → Quotes A → Option A
  find_quote k [] = none
  find_quote k ((j, a) ∷ d) = if same_key j k then some a else find_quote k d

  -- `d[k] = a`
  unfoldable pub put_quote : QuoteKey → A → Quotes A → Quotes A
  put_quote k a [] = (k, a) ∷ []
  put_quote k a ((j, b) ∷ d) = if same_key j k then (j, a) ∷ d else (j, b) ∷ put_quote k a d

  abbrev without_venue : Text → Quotes A → Quotes A
  without_venue venue d = select_where (λ (e : QuoteKey × A). not (text_eq e.0.exchange_id venue)) d

-- `MarketDataStore`
pub record MarketDataStore : Type 0 where
  pub stale_after_ms : ℕ
  pub tickers : Quotes Ticker
  pub books : Quotes Snapshot

-- `put_ticker`
unfoldable pub put_ticker : Ticker → MarketDataStore → MarketDataStore
put_ticker t s = record s { tickers = put_quote (key_of t.exchange_id t.symbol) t s.tickers }

abbrev pub snapshot_key : Snapshot → QuoteKey
snapshot_key b = key_of b.exchange_id b.book.symbol

-- an older snapshot than the stored one is dropped
abbrev pub newer_books : Snapshot → Option Snapshot → Quotes Snapshot → Quotes Snapshot
newer_books b none books = put_quote (snapshot_key b) b books
newer_books b (some existing) books =
    if ltb b.timestamp existing.timestamp then books else put_quote (snapshot_key b) b books

-- `put_order_book`
unfoldable pub put_order_book : Snapshot → MarketDataStore → MarketDataStore
unfolding find_quote put_quote key_of
put_order_book b s = record s {
  books = newer_books b (find_quote (snapshot_key b) s.books) s.books;
}

-- `clear`
unfoldable pub clear : Option Text → MarketDataStore → MarketDataStore
clear none s = record s { tickers = []; books = [] }
clear (some exchange_id) s =
    let venue = lower exchange_id in
    record s { tickers = without_venue venue s.tickers; books = without_venue venue s.books }

-- `ticker`
unfoldable pub ticker : Text → Symbol → MarketDataStore → Option Ticker
ticker exchange_id symbol s = find_quote (key_of exchange_id symbol) s.tickers

-- `order_book`
unfoldable pub order_book : Text → Symbol → MarketDataStore → Option Snapshot
unfolding find_quote
order_book exchange_id symbol s = find_quote (key_of exchange_id symbol) s.books

-- `_FUTURE_TOLERANCE_MS`, in microseconds
abbrev pub future_tolerance : ℕ
future_tolerance = 10_000_000

-- `_age_ms`, at the clock: infinite for a time materially in the future
unfoldable pub age_ms : ℕ → ℕ → Float
age_ms now timestamp =
    if ltb (now + future_tolerance) timestamp then infinite else finite (dec (now - timestamp) 3)

-- `is_fresh`
unfoldable pub is_fresh : MarketDataStore → Float → Bool
is_fresh s (finite a) = le_dec a (dec s.stale_after_ms 0)
is_fresh s infinite = false
is_fresh s nan = false

-- `is_stale`
unfoldable pub is_stale : MarketDataStore → Float → Bool
unfolding is_fresh
is_stale s age = not (is_fresh s age)

abbrev venue_allowed : Option (List Text) → Text → Bool
venue_allowed none venue = true
venue_allowed (some ids) venue = any_of (λ id. text_eq (lower id) venue) ids

abbrev wanted : MarketDataStore → ℕ → Symbol → Option (List Text) → Bool → QuoteKey → ℕ → Bool
wanted s now symbol ids fresh_only k timestamp =
    text_eq k.symbol (symbol_name symbol)
    && venue_allowed ids k.exchange_id
    && (not fresh_only || is_fresh s (age_ms now timestamp))

abbrev wanted_books :
    MarketDataStore → ℕ → Symbol → Option (List Text) → Bool → Quotes Snapshot → List Snapshot
wanted_books s now symbol ids fresh_only [] = []
wanted_books s now symbol ids fresh_only ((k, b) ∷ d) =
    let rest = wanted_books s now symbol ids fresh_only d in
    if wanted s now symbol ids fresh_only k b.timestamp then b ∷ rest else rest

-- `order_books_for`
unfoldable pub order_books_for :
    ℕ → Symbol → Option (List Text) → Bool → MarketDataStore → List Snapshot
unfolding age_ms is_fresh
order_books_for now symbol exchange_ids fresh_only s =
    wanted_books s now symbol exchange_ids fresh_only s.books

abbrev wanted_tickers :
    MarketDataStore → ℕ → Symbol → Option (List Text) → Bool → Quotes Ticker → List Ticker
wanted_tickers s now symbol ids fresh_only [] = []
wanted_tickers s now symbol ids fresh_only ((k, t) ∷ d) =
    let rest = wanted_tickers s now symbol ids fresh_only d in
    if wanted s now symbol ids fresh_only k t.timestamp then t ∷ rest else rest

-- `tickers_for`
unfoldable pub tickers_for : ℕ → Symbol → Option (List Text) → Bool → MarketDataStore → List Ticker
unfolding age_ms is_fresh
tickers_for now symbol exchange_ids fresh_only s =
    wanted_tickers s now symbol exchange_ids fresh_only s.tickers

abbrev is_venue : Option Text → QuoteKey → Bool
is_venue (some (c ∷ id)) k = text_eq k.exchange_id (lower (c ∷ id))
is_venue _ k = true

abbrev add_books : Option Text → Quotes Snapshot → Dict Snapshot → Dict Snapshot
add_books venue [] out = out
add_books venue ((k, b) ∷ d) out =
    add_books venue d (if is_venue venue k then put k.symbol b out else out)

-- `books`, by symbol name
unfoldable pub books_by_symbol : Option Text → MarketDataStore → Dict Snapshot
books_by_symbol exchange_id s = add_books exchange_id s.books []
