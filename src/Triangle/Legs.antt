-- ===== src/Triangle/Legs.antt =====
-- `_fresh_book`, `_apply_paper_wallet`, `_notifier` and `_fill_leg` of
-- app/strategies/triangular/executor.py: one leg, filled on paper or placed on the venue.
use crypto_arbitrage_bot_ref.Base.{
  ℕ, ◌&&◌, Option, none, some, [], ◌∷◌, Text, find, put, if◌then◌else◌,
}
use crypto_arbitrage_bot_ref.Money.{Decimal, dec0}
use crypto_arbitrage_bot_ref.Orders.{
  Order, OrderSide, OrderType, OrderStatus, OrderNote, Symbol, placement_timed_out,
  placement_failed, precision_filter,
}
use crypto_arbitrage_bot_ref.Recovery.{Venue, is_blank, recover}
use crypto_arbitrage_bot_ref.Result.{Result, ok, raise}
use crypto_arbitrage_bot_ref.Precision.{OrderRequest}
use crypto_arbitrage_bot_ref.Wallet.{PaperWallet, credit, debit}
use crypto_arbitrage_bot_ref.Fills.{
  OrderBook, SimulatedFill, Size, base_size, quote_size, simulate, is_rejected,
}
use crypto_arbitrage_bot_ref.Orchestrator.Effects.{Placement, placed, timed_out, placement_error}
use crypto_arbitrage_bot_ref.Orchestrator.Legs.{
  is_demo, is_paper, fresh, or_refreshed, wants_recovery,
}
use crypto_arbitrage_bot_ref.Trades.{TradeRecord}
use crypto_arbitrage_bot_ref.Triangle.Effects.{
  TriangleExecutor, Answers, World, Action, submitted, pure, lift, ◌>>=◌, ◌>>◌, save_trade,
  check_guard, from_reply,
}
use crypto_arbitrage_bot_ref.Triangle.Inventory.{absorb_order}
use crypto_arbitrage_bot_ref.Triangle.Requests.{venue_amount, request_of, filtered}

-- `_fresh_book`: the stored book, or in DEMO the one after a refresh; a stale one is refused
unfoldable pub fresh_book : TriangleExecutor → Answers → Text → Symbol → Result OrderBook
fresh_book ex a venue symbol =
    or_refreshed (fresh (a.stored_book venue symbol))
      (if is_demo ex.mode && ex.has_market then fresh (a.refreshed_book venue symbol) else none)

abbrev pub stored_wallet : Text → World → Result PaperWallet → Result (Unit {0}) × World
stored_wallet venue w (raise e) = (raise e, w)
stored_wallet venue w (ok wallet) = (ok tt, record w { wallets = put venue wallet w.wallets })

-- a change of the venue's paper wallet, if there is one
abbrev pub on_wallet :
    Text
    → (PaperWallet → Result PaperWallet)
    → World
    → Option PaperWallet
    → Result (Unit {0}) × World
on_wallet venue change w none = (ok tt, w)
on_wallet venue change w (some wallet) = stored_wallet venue w (change wallet)

-- the paper wallet after a fill; a debit that fails leaves it as it was
unfoldable pub filled_wallet : OrderSide → Symbol → SimulatedFill → PaperWallet → Result PaperWallet
filled_wallet OrderSide.buy s f wallet = elim (debit s.quote f.quote_amount wallet) [
  | raise e ↦ raise e
  | ok paid ↦ ok (credit s.base f.filled_amount paid)
]
filled_wallet OrderSide.sell s f wallet = elim (debit s.base f.filled_amount wallet) [
  | raise e ↦ raise e
  | ok paid ↦ ok (credit s.quote f.quote_amount paid)
]

-- `_apply_paper_wallet`
unfoldable pub apply_paper_wallet : Text → OrderSide → Symbol → SimulatedFill → Action (Unit {0})
unfolding filled_wallet
apply_paper_wallet venue side symbol f w =
    on_wallet venue (filled_wallet side symbol f) w (find venue w.wallets)

-- an `Order` of the market type with the defaults of the model
abbrev pub market_order : ℕ → Text → Symbol → OrderSide → Decimal → Order
market_order now venue symbol side amount = record {
  exchange_id = venue;
  exchange_order_id = none;
  client_order_id = none;
  symbol = symbol;
  side = side;
  order_type = OrderType.market;
  status = OrderStatus.pending;
  amount = amount;
  filled_amount = dec0;
  price = none;
  average_price = none;
  fee_paid = dec0;
  fee_currency = none;
  fills = [];
  error = none;
  created_at = now;
  updated_at = now;
}

-- the pending order of a request
abbrev pub placeholder : ℕ → OrderRequest → Order
placeholder now q =
    let blank = market_order now q.exchange_id q.symbol q.side q.amount in
    record blank { order_type = q.order_type; client_order_id = some q.client_order_id }

-- `_notifier`: the pending intent saved with the trade; the caller's own trade stays as it was
unfoldable pub notifier : Answers → TradeRecord → OrderRequest → Action (Unit {0})
unfolding absorb_order save_trade
notifier a t q = save_trade (absorb_order a.now (placeholder a.now q) t)

abbrev pub Leg : Type 0
Leg = Option SimulatedFill × Order

abbrev pub base_of : Size → Option Decimal
base_of (base_size a) = some a
base_of (quote_size _) = none

abbrev pub quote_of : Size → Option Decimal
quote_of (base_size _) = none
quote_of (quote_size a) = some a

-- `base_amount or DEC0`
abbrev base_or_zero : Size → Decimal
base_or_zero (base_size a) = a
base_or_zero (quote_size _) = dec0

abbrev received : OrderSide → Symbol → Text
received OrderSide.buy s = s.base
received OrderSide.sell s = s.quote

abbrev paper_order : ℕ → Text → Symbol → OrderSide → SimulatedFill → Order
paper_order now venue symbol side f =
    let blank = market_order now venue symbol side f.filled_amount in
    record blank {
      status = OrderStatus.filled;
      filled_amount = f.filled_amount;
      average_price = some f.average_price;
      fee_paid = f.fee;
      fee_currency = some (received side symbol);
    }

abbrev pub refused_order : ℕ → Text → Symbol → OrderSide → Decimal → Option OrderNote → Order
refused_order now venue symbol side amount e =
    let blank = market_order now venue symbol side amount in
    record blank { status = OrderStatus.rejected; error = e }

-- the PAPER half of `_fill_leg`
unfoldable pub paper_leg :
    TriangleExecutor → Answers → OrderBook → Text → Symbol → OrderSide → Size → Action Leg
unfolding apply_paper_wallet is_rejected
paper_leg ex a book venue symbol side size = do
  f ← lift (simulate ex.simulator book side (base_of size) (quote_of size))
  (if is_rejected f
      then pure (none, refused_order a.now venue symbol side (base_or_zero size) f.rejected_reason)
      else (apply_paper_wallet venue side symbol f
          >> pure (some f, paper_order a.now venue symbol side f)))

-- the order that an answer to a placement stands for
unfoldable pub answered_order : ℕ → OrderRequest → Placement → Order
answered_order now q (placed o) = o
answered_order now q timed_out =
    let blank = market_order now q.exchange_id q.symbol q.side q.amount in
    record blank {
      client_order_id = some q.client_order_id;
      status = OrderStatus.timeout;
      error = some placement_timed_out;
    }
answered_order now q (placement_error e) =
    let blank = market_order now q.exchange_id q.symbol q.side q.amount in
    record blank {
      client_order_id = some q.client_order_id;
      status = OrderStatus.unknown;
      error = some (placement_failed e);
    }

abbrev pub with_client_id : OrderRequest → Order → Order
with_client_id q o =
    if is_blank o.client_order_id then record o { client_order_id = some q.client_order_id } else o

-- the outcome of a placement, recovered where it is uncertain
unfoldable pub placed_order : Answers → Venue → OrderRequest → Order
unfolding answered_order
placed_order a venue q =
    let o = with_client_id q (answered_order a.now q (a.create_order q)) in
    if wants_recovery o.status then recover venue o else o

-- the order itself
abbrev pub submit : OrderRequest → Action (Unit {0})
submit q w = (ok tt, record w { log = submitted q ∷ w.log })

-- the intent saved, and then the order placed
unfoldable pub place : Answers → (OrderRequest → Action (Unit {0})) → OrderRequest → Action Leg
unfolding placed_order
place a on_submit q = do
  adapter ← lift (from_reply (a.adapter q.exchange_id))
  on_submit q
  submit q
  pure (none, placed_order a adapter q)

-- a request that its filters let through, or the order that stands for its refusal
unfoldable pub place_filtered :
    Answers
    → (OrderRequest → Action (Unit {0}))
    → OrderRequest
    → OrderRequest × Option Text
    → Action Leg
unfolding place
place_filtered a on_submit q (q', none) = place a on_submit q'
place_filtered a on_submit q (q', some reason) = pure (
  none,
  refused_order a.now q.exchange_id q.symbol q.side q.amount (some (precision_filter reason)),
)

-- the DEMO and LIVE half of `_fill_leg`
unfoldable pub venue_leg :
    TriangleExecutor
    → Answers
    → OrderBook
    → Text
    → Symbol
    → OrderSide
    → Size
    → (OrderRequest → Action (Unit {0}))
    → Action Leg
unfolding venue_amount filtered place_filtered
venue_leg ex a book venue symbol side size on_submit = do
  amount ← lift (venue_amount book side size)
  let q = request_of a venue symbol side amount
  outcome ← lift (filtered ex book q)
  place_filtered a on_submit q outcome

-- `_fill_leg`; every caller gives a notifier
unfoldable pub fill_leg :
    TriangleExecutor
    → Answers
    → Text
    → Symbol
    → OrderSide
    → Size
    → (OrderRequest → Action (Unit {0}))
    → Action Leg
unfolding fresh_book paper_leg venue_leg
fill_leg ex a venue symbol side size on_submit = do
  lift (check_guard a)
  book ← lift (fresh_book ex a venue symbol)
  (if is_paper ex.mode
      then paper_leg ex a book venue symbol side size
      else venue_leg ex a book venue symbol side size on_submit)
