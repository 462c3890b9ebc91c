-- ===== src/Triangle/Requests.antt =====
-- How `_fill_leg` of app/strategies/triangular/executor.py sizes its request and rounds it onto the
-- instrument's grid.
use crypto_arbitrage_bot_ref.Base.{Option, none, some, List, [], ◌∷◌, Text, if◌then◌else◌}
use crypto_arbitrage_bot_ref.Money.{Decimal, dec0, le_dec, div_dec, quantize}
use crypto_arbitrage_bot_ref.Orders.{OrderSide, OrderType, Symbol}
use crypto_arbitrage_bot_ref.Result.{Result, ok, raise, value_error, index_error, signal, ◌>>=◌}
use crypto_arbitrage_bot_ref.Precision.{OrderRequest, InstrumentFilters, apply_filters, symbol_name}
use crypto_arbitrage_bot_ref.Fills.{OrderBook, Level, Size, base_size, quote_size}
use crypto_arbitrage_bot_ref.Triangle.Effects.{TriangleExecutor, Answers}

-- the base amount that a quote budget buys at the best ask; without asks, and for a sell, nothing
abbrev budget_amount : OrderBook → OrderSide → Decimal → Result Decimal
budget_amount book OrderSide.sell q = ok dec0
budget_amount book OrderSide.buy q = elim book.asks [
  | [] ↦ ok dec0
  | l ∷ ls ↦ signal (div_dec q l.price)
]

-- an amount of nothing makes the code build an `Order` without its amount, which is refused with
-- pydantic's exception, a ValueError
abbrev positive_amount : Decimal → Result Decimal
positive_amount n = if le_dec n dec0 then raise value_error else ok n

-- the amount of a venue order
unfoldable pub venue_amount : OrderBook → OrderSide → Size → Result Decimal
venue_amount book side (base_size n) = ok n
venue_amount book side (quote_size q) = do
  raw ← budget_amount book side q
  n ← signal (quantize 8 raw)
  positive_amount n

abbrev pub request_of : Answers → Text → Symbol → OrderSide → Decimal → OrderRequest
request_of a venue symbol side amount = record {
  exchange_id = venue;
  symbol = symbol;
  side = side;
  order_type = OrderType.market;
  amount = amount;
  price = none;
  client_order_id = a.new_client_order_id;
}

-- `levels[0].price`
abbrev first_price : List Level → Result Decimal
first_price [] = raise index_error
first_price (l ∷ ls) = ok l.price

-- the price at which the minimum notional is checked
unfoldable pub reference_price : OrderBook → OrderSide → Result Decimal
reference_price book OrderSide.sell = first_price book.bids
reference_price book OrderSide.buy = elim book.asks [
  | [] ↦ first_price book.bids
  | l ∷ ls ↦ ok l.price
]

-- `self._precision.filters_for(venue, symbol.name) if self._precision else None`
abbrev filters_of : TriangleExecutor → OrderRequest → Option InstrumentFilters
filters_of ex q = elim ex.precision [
  | none ↦ none
  | some filters_for ↦ filters_for q.exchange_id (symbol_name q.symbol)
]

abbrev filtered_by :
    OrderBook → OrderRequest → Option InstrumentFilters → Result (OrderRequest × Option Text)
filtered_by book q none = ok (q, none)
filtered_by book q (some f) = do price ← reference_price book q.side; apply_filters q (some f) price

-- the request on the instrument's grid, or the reason that it cannot exist
unfoldable pub filtered :
    TriangleExecutor → OrderBook → OrderRequest → Result (OrderRequest × Option Text)
unfolding reference_price apply_filters
filtered ex book q = filtered_by book q (filters_of ex q)
