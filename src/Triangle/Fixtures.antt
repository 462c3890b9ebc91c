-- ===== src/Triangle/Fixtures.antt =====
-- A small triangle, USDT to XRP to ETH and back, with what the venue answers, for the tests.
use crypto_arbitrage_bot_ref.Base.{
  ℕ, true, false, none, some, List, [], ◌∷◌, Text, text, text_eq, ◌==◌, if◌then◌else◌,
}
use crypto_arbitrage_bot_ref.Money.{Decimal, dec, dec0}
use crypto_arbitrage_bot_ref.Orders.{Order, OrderSide, OrderStatus, Symbol}
use crypto_arbitrage_bot_ref.Guard.{Guard, TradingMode}
use crypto_arbitrage_bot_ref.Risk.{ArbitrageStrategy}
use crypto_arbitrage_bot_ref.Recovery.{reply}
use crypto_arbitrage_bot_ref.Precision.{OrderRequest}
use crypto_arbitrage_bot_ref.Fills.{OrderBook}
use crypto_arbitrage_bot_ref.Fills.Tests.{usual}
use crypto_arbitrage_bot_ref.Orchestrator.Effects.{Placement, placed, timed_out}
use crypto_arbitrage_bot_ref.Orchestrator.Fixtures.{open_guard, venue_with, ripple_order}
use crypto_arbitrage_bot_ref.Trades.{TradeRecord, TradeStatus, Payload}
use crypto_arbitrage_bot_ref.Triangle.Effects.{TriangleExecutor, Answers, World}
use crypto_arbitrage_bot_ref.Triangle.Legs.{market_order}
use crypto_arbitrage_bot_ref.Opportunity.{ArbitrageLeg, ArbitrageOpportunity, OpportunityStatus}

abbrev pair : Text → Text → Symbol
pair base quote = record { base = base; quote = quote }

abbrev pub ripple : Symbol
ripple = pair (text "XRP") (text "USDT")

abbrev pub cross : Symbol
cross = pair (text "ETH") (text "XRP")

abbrev pub ether : Symbol
ether = pair (text "ETH") (text "USDT")

-- a book with one level on each side
abbrev book_at : Symbol → Decimal → OrderBook
book_at s price = record {
  symbol = s;
  bids = record { price = price; amount = dec 100 0 } ∷ [];
  asks = record { price = price; amount = dec 100 0 } ∷ [];
}

abbrev pub price_of : Symbol → Decimal
price_of s =
    if text_eq s.base (text "XRP")
    then dec 1 0
    else if text_eq s.quote (text "XRP")
    then dec 2 0
    else dec 21 1

abbrev pub executor : TradingMode → TriangleExecutor
executor mode = record {
  mode = mode;
  simulator = usual;
  precision = none;
  min_net_at_execute_bps = 0;
  base_currency = text "USDT";
  has_market = false;
}

-- an order filled at the book's price, under the client id of its request
abbrev pub filled_order : OrderRequest → Order
filled_order q =
    let blank = market_order 5 q.exchange_id q.symbol q.side q.amount in
    record blank {
      client_order_id = some q.client_order_id;
      status = OrderStatus.filled;
      filled_amount = q.amount;
      average_price = some (price_of q.symbol);
    }

-- fresh books and a venue that fills everything
abbrev pub answers : Guard → Text → (OrderRequest → Placement) → Answers
answers guard client_id create = record {
  guard = guard;
  now = 5;
  stored_book = λ venue s. some (book_at s (price_of s), false);
  refreshed_book = λ venue s. none;
  new_client_order_id = client_id;
  adapter =
      λ venue. reply (venue_with (reply (ripple_order OrderStatus.filled (dec 10 0))) (reply []));
  fetch_balances = λ venue. reply (λ asset. dec 1000 0);
  create_order = create;
  can_read = true;
}

abbrev client_id_of : ℕ → Text
client_id_of n = n ∷ []

-- the answers of a quiet run
abbrev pub quiet : Guard → ℕ → Answers
quiet guard n = answers guard (client_id_of n) (λ q. placed (filled_order q))

-- a run whose second order times out and cannot be found
abbrev pub lost_second : ℕ → Answers
lost_second n =
    if n == 2 then answers open_guard (client_id_of 2) (λ q. timed_out) else quiet open_guard n

abbrev refused_order : OrderRequest → Order
refused_order q =
    let o = filled_order q in record o { status = OrderStatus.rejected; filled_amount = dec0 }

-- a run whose second order is rejected, so that the first is unwound
abbrev pub refused_second : ℕ → Answers
refused_second n =
    if n == 2
    then answers open_guard (client_id_of 2) (λ q. placed (refused_order q))
    else quiet open_guard n

abbrev unpriced_order : OrderRequest → Order
unpriced_order q = let o = filled_order q in record o { average_price = none }

-- a run whose venue fills orders and reports no average price
abbrev pub unpriced : ℕ → Answers
unpriced n = answers open_guard (client_id_of n) (λ q. placed (unpriced_order q))

abbrev leg_of : Symbol → OrderSide → ArbitrageLeg
leg_of s side = record {
  exchange_id = text "alpha";
  symbol = s;
  side = side;
  price = price_of s;
  amount = dec 5 0;
  fee_bps = dec 10 0;
  estimate = none;
}

abbrev pub opportunity : ArbitrageOpportunity
opportunity = record {
  symbol = ripple;
  buy_leg = leg_of ripple OrderSide.buy;
  sell_leg = leg_of ether OrderSide.sell;
  profit = record {
    notional_quote = dec 5 0;
    gross_spread_bps = dec 530 0;
    trading_fees_bps = dec 30 0;
    slippage_bps = dec0;
    transfer_bps = dec0;
  };
  status = OpportunityStatus.detected;
  max_notional_quote = dec 100 0;
  expires_at = none;
  size_notional_quote = dec 5 0;
  direction = none;
  legs_route =
      leg_of ripple OrderSide.buy ∷ leg_of cross OrderSide.buy ∷ leg_of ether OrderSide.sell ∷ [];
}

abbrev pub empty_world : World
empty_world = record { trades = []; wallets = []; log = [] }

-- a trade left open with the given orders
abbrev pub left_open : List Payload → TradeRecord
left_open orders = record {
  id = text "t1";
  strategy = ArbitrageStrategy.triangle;
  mode = TradingMode.live;
  exchange_id = text "alpha";
  route = text "route";
  symbols = [];
  input_amount = dec 5 0;
  output_amount = dec0;
  fees_quote = dec0;
  slippage_bps = dec0;
  net_profit = dec0;
  net_profit_bps = dec0;
  status = TradeStatus.executing;
  orders = orders;
  error = none;
  transfer_id = none;
  created_at = 1;
  updated_at = 1;
}

-- a paper wallet that holds exactly the budget
abbrev pub rich_world : World
rich_world = record {
  trades = [];
  wallets = (text "alpha", (text "USDT", dec 5 0) ∷ []) ∷ [];
  log = [];
}

abbrev pub world_with : TradeRecord → World
world_with t = record { trades = t ∷ []; wallets = []; log = [] }
