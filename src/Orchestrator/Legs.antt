-- ===== src/Orchestrator/Legs.antt =====
-- `_fresh_book`, `_apply_wallet` and `_fill` of app/strategies/transfer/orchestrator.py: one order
-- leg, filled on paper or placed on a venue.
use crypto_arbitrage_bot_ref.Base.{
  Bool, true, false, ◌&&◌, ◌||◌, Option, none, some, List, [], ◌∷◌, Text, is_some, find,
  if◌then◌else◌,
}
use crypto_arbitrage_bot_ref.Money.{Decimal, dec0, div_dec, quantize}
use crypto_arbitrage_bot_ref.Orders.{
  Order, OrderSide, OrderType, OrderStatus, OrderNote, Symbol, placement_timed_out,
  placement_failed,
}
use crypto_arbitrage_bot_ref.Recovery.{is_blank, recover}
use crypto_arbitrage_bot_ref.Guard.{TradingMode}
use crypto_arbitrage_bot_ref.Result.{Result, ok, raise, value_error, decimal_error, signal}
use crypto_arbitrage_bot_ref.Transfers.{TransferRecord}
use crypto_arbitrage_bot_ref.Fills.{OrderBook, Level, SimulatedFill, simulate, is_rejected}
use crypto_arbitrage_bot_ref.Orchestrator.Effects.{
  Environment, World, Action, pure, lift, ◌>>=◌, ◌>>◌, OrderRequest, Placement, placed, timed_out,
  placement_error, submitted, record_effect, save_record, credit_wallet, debit_wallet,
}

abbrev pub is_paper : TradingMode → Bool
is_paper TradingMode.paper = true
is_paper _ = false

abbrev pub is_demo : TradingMode → Bool
is_demo TradingMode.demo = true
is_demo _ = false

abbrev pub is_sell : OrderSide → Bool
is_sell OrderSide.sell = true
is_sell OrderSide.buy = false

abbrev pub fresh : Option (OrderBook × Bool) → Option OrderBook
fresh none = none
fresh (some (b, stale)) = if stale then none else some b

abbrev pub or_refreshed : Option OrderBook → Option OrderBook → Result OrderBook
or_refreshed (some b) _ = ok b
or_refreshed none (some b) = ok b
or_refreshed none none = raise value_error

-- `_fresh_book`: the stored book, or in DEMO the one after a refresh; a stale one is refused
unfoldable pub fresh_book : Environment → Text → Symbol → Result OrderBook
fresh_book env venue symbol =
    or_refreshed (fresh (env.stored_book venue symbol))
      (if is_demo env.mode && env.has_market then fresh (env.refreshed_book venue symbol) else none)

-- `_apply_wallet`
unfoldable pub apply_wallet : Text → OrderSide → Symbol → SimulatedFill → Action (Unit {0})
unfolding credit_wallet debit_wallet
apply_wallet venue OrderSide.buy symbol f = do
  debit_wallet venue symbol.quote f.quote_amount
  credit_wallet venue symbol.base f.filled_amount
apply_wallet venue OrderSide.sell symbol f = do
  debit_wallet venue symbol.base f.filled_amount
  credit_wallet venue symbol.quote f.quote_amount

-- an `Order` of the market type with the defaults of the model
abbrev pub market_order : Environment → Text → Symbol → OrderSide → Decimal → Order
market_order env venue symbol side amount = record {
  exchange_id = venue;
  exchange_order_id = none;
  client_order_id = none;
  symbol = symbol;
  side = side;
  order_type = OrderType.market;
  status = OrderStatus.pending;
  amount = amount;
  filled_amount = dec0;
  price = none;
  average_price = none;
  fee_paid = dec0;
  fee_currency = none;
  fills = [];
  error = none;
  created_at = env.now;
  updated_at = env.now;
}

abbrev pub Leg : Type 0
Leg = Option SimulatedFill × Order

abbrev received : OrderSide → Symbol → Text
received OrderSide.buy s = s.base
received OrderSide.sell s = s.quote

abbrev amount_or_zero : Option Decimal → Decimal
amount_or_zero none = dec0
amount_or_zero (some a) = a

-- the order of a paper fill
abbrev paper_order : Environment → Text → Symbol → OrderSide → SimulatedFill → Order
paper_order env venue symbol side f =
    let blank = market_order env venue symbol side f.filled_amount in
    record blank {
      status = OrderStatus.filled;
      filled_amount = f.filled_amount;
      average_price = some f.average_price;
      fee_paid = f.fee;
      fee_currency = some (received side symbol);
    }

abbrev refused_order :
    Environment → Text → Symbol → OrderSide → Option Decimal → Option OrderNote → Order
refused_order env venue symbol side base e =
    let blank = market_order env venue symbol side (amount_or_zero base) in
    record blank { status = OrderStatus.rejected; error = e }

-- the paper half of `_fill`
unfoldable pub paper_leg :
    Environment
    → OrderBook
    → Text
    → Symbol
    → OrderSide
    → Option Decimal
    → Option Decimal
    → Action Leg
unfolding apply_wallet is_rejected
paper_leg env book venue symbol side base quote = do
  f ← lift (simulate env.simulator book side base quote)
  (if is_rejected f
      then pure (none, refused_order env venue symbol side base f.rejected_reason)
      else apply_wallet venue side symbol f >> pure (some f, paper_order env venue symbol side f))

abbrev priced : List Level → Decimal → Result Decimal
priced [] q = raise value_error
priced (l ∷ ls) q = elim (div_dec q l.price) [
  | none ↦ raise decimal_error
  | some a ↦ signal (quantize 8 a)
]

-- the amount of a venue order; without asks the code builds an order that lacks its amount, which
-- the model refuses with an exception
abbrev pub venue_amount : OrderBook → Option Decimal → Option Decimal → Result Decimal
venue_amount book (some a) quote = ok a
venue_amount book none none = raise value_error
venue_amount book none (some q) = priced book.asks q

abbrev pub request_of : Environment → Text → Symbol → OrderSide → Decimal → OrderRequest
request_of env venue symbol side amount = record {
  venue = venue;
  symbol = symbol;
  side = side;
  amount = amount;
  client_order_id = env.new_client_order_id;
}

-- the order that an answer to a placement stands for
unfoldable pub answered_order : Environment → OrderRequest → Placement → Order
answered_order env q (placed o) = o
answered_order env q timed_out =
    let blank = market_order env q.venue q.symbol q.side q.amount in
    record blank {
      client_order_id = some q.client_order_id;
      status = OrderStatus.timeout;
      error = some placement_timed_out;
    }
answered_order env q (placement_error e) =
    let blank = market_order env q.venue q.symbol q.side q.amount in
    record blank {
      client_order_id = some q.client_order_id;
      status = OrderStatus.unknown;
      error = some (placement_failed e);
    }

abbrev with_client_id : OrderRequest → Order → Order
with_client_id q o =
    if is_blank o.client_order_id then record o { client_order_id = some q.client_order_id } else o

abbrev pub wants_recovery : OrderStatus → Bool
wants_recovery OrderStatus.timeout = true
wants_recovery OrderStatus.unknown = true
wants_recovery OrderStatus.partially_filled = true
wants_recovery _ = false

-- the outcome of a placement, recovered where it is uncertain
unfoldable pub placed_order : Environment → OrderRequest → Order
unfolding answered_order
placed_order env q =
    let o = with_client_id q (answered_order env q (env.create_order q)) in
    if wants_recovery o.status then recover (env.order_venue q.venue) o else o

-- what `on_submit` does with the record before the order is placed, if it is given
abbrev pub Noting : Type 0
Noting = Option (OrderRequest → TransferRecord → TransferRecord)

abbrev pub note_submission : Noting → OrderRequest → TransferRecord → Action TransferRecord
note_submission none q r = pure r
note_submission (some note) q r = do save_record (note q r); pure (note q r)

-- the venue half of `_fill`: the intent first, then the order. The record comes back with the leg,
-- since `on_submit` rebinds it in the caller.
unfoldable pub venue_leg :
    Environment
    → OrderBook
    → Text
    → Symbol
    → OrderSide
    → Option Decimal
    → Option Decimal
    → Noting
    → TransferRecord
    → Action (Leg × TransferRecord)
unfolding save_record
venue_leg env book venue symbol side base quote note r = do
  amount ← lift (venue_amount book base quote)
  let q = request_of env venue symbol side amount
  r' ← note_submission note q r
  λ w. (ok ((none, placed_order env q), r'), record_effect (submitted q) w)

abbrev pub on_paper : Environment → World → Text → OrderSide → Bool
on_paper env w venue side =
    is_paper env.mode || (is_demo env.mode && is_sell side && is_some (find venue w.wallets))

abbrev pub keep : TransferRecord → Leg → Leg × TransferRecord
keep r l = (l, r)

-- `_fill`
unfoldable pub fill_leg :
    Environment
    → Text
    → Symbol
    → OrderSide
    → Option Decimal
    → Option Decimal
    → Noting
    → TransferRecord
    → Action (Leg × TransferRecord)
unfolding fresh_book paper_leg venue_leg
fill_leg env venue symbol side base quote note r w =
    (do
      book ← lift (fresh_book env venue symbol)
      (if on_paper env w venue side
          then (paper_leg env book venue symbol side base quote >>= (λ l. pure (keep r l)))
          else venue_leg env book venue symbol side base quote note r))
      w
