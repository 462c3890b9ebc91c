-- ===== src/Scanner/Rings.antt =====
-- `_evaluate` of app/strategies/triangular/scanner.py: one ring sized, priced and published.
use crypto_arbitrage_bot_ref.Base.{
  ℕ, ◌+◌, ◌-◌, ◌*◌, Bool, ◌&&◌, ◌||◌, Option, none, some, List, [], ◌∷◌, ◌++◌, Text, text, ltb,
  if◌then◌else◌,
}
use crypto_arbitrage_bot_ref.Money.{
  Decimal, dec, dec0, le_dec, lt_dec, min_dec, add_dec, sub_dec, mul_dec, div_dec, quantize,
}
use crypto_arbitrage_bot_ref.Orders.{OrderSide, Symbol}
use crypto_arbitrage_bot_ref.Result.{Result, ok, signal, ◌>>=◌}
use crypto_arbitrage_bot_ref.Transfers.{bps}
use crypto_arbitrage_bot_ref.Precision.{InstrumentFilters, symbol_name}
use crypto_arbitrage_bot_ref.Fills.{OrderBook, side_of}
use crypto_arbitrage_bot_ref.MarketData.Store.{Snapshot}
use crypto_arbitrage_bot_ref.MarketData.Depth.{ExecutionEstimate, add_notionals}
use crypto_arbitrage_bot_ref.Opportunity.{
  ArbitrageLeg, ArbitrageOpportunity, OpportunityStatus, ProfitBreakdown,
}
use crypto_arbitrage_bot_ref.Scanner.Walk.{
  MarketFees, TriangleRoute, CycleWalk, Ring, max_sizing_passes, size_ring,
}

-- `TriangularScanner` with its settings: the fees and filters of a venue's symbols, and the limits
pub record TriangularScanner : Type 0 where
  pub fees_for : Text → Symbol → MarketFees
  pub filters_for : Text → Text → Option InstrumentFilters
  pub stale_after_ms : ℕ
  pub max_notional_quote : Decimal
  pub min_net_bps : Decimal
  pub max_leg_slippage_bps : Decimal

-- a snapshot older than the limit; a time ahead of the clock is not old
abbrev pub is_old : TriangularScanner → ℕ → Snapshot → Bool
is_old sc now s = ltb (1000 * sc.stale_after_ms) (now - s.timestamp)

abbrev step_of : Option InstrumentFilters → Option Decimal
step_of none = none
step_of (some f) = f.amount_step

abbrev pub min_cost_of : Option InstrumentFilters → Option Decimal
min_cost_of none = none
min_cost_of (some f) = f.min_cost

-- `taker_bps / _BPS`
abbrev taker_of : TriangularScanner → Text → Symbol → Result Decimal
taker_of sc venue s = signal (div_dec (sc.fees_for venue s).taker_bps bps)

abbrev pub filters_of : TriangularScanner → Text → Symbol → Option InstrumentFilters
filters_of sc venue s = sc.filters_for venue (symbol_name s)

-- the ring of a route through three books
unfoldable pub ring_of :
    TriangularScanner → Text → TriangleRoute → OrderBook → OrderBook → Result Ring
ring_of sc venue route book1 book3 = do
  taker1 ← taker_of sc venue route.first_symbol
  taker2 ← taker_of sc venue route.second_symbol
  taker3 ← taker_of sc venue route.third_symbol
  ok (record {
    route = route;
    book1 = book1;
    book2 = route.leg2_book.book;
    book3 = book3;
    taker1 = taker1;
    taker2 = taker2;
    taker3 = taker3;
    step1 = step_of (filters_of sc venue route.first_symbol);
    step2 = step_of (filters_of sc venue route.second_symbol);
    step3 = step_of (filters_of sc venue route.third_symbol);
  })

-- `_side_notional`
abbrev side_notional : OrderBook → OrderSide → Decimal
side_notional b side = add_notionals dec0 (side_of b side)

abbrev pub total_slippage : CycleWalk → Decimal
total_slippage w = add_dec (add_dec w.est1.slippage_bps w.est2.slippage_bps) w.est3.slippage_bps

abbrev pub slips : Decimal → CycleWalk → Bool
slips bound w =
    lt_dec bound w.est1.slippage_bps
    || lt_dec bound w.est2.slippage_bps
    || lt_dec bound w.est3.slippage_bps

-- the profit of a walk: its net, with fees and slippage added back to the gross
unfoldable pub profit_of : Ring → CycleWalk → Decimal → Result ProfitBreakdown
profit_of r w slippage = do
  growth ← signal (div_dec w.proceeds w.est1.quote_amount)
  net ← signal (quantize 4 (mul_dec (sub_dec growth (dec 1 0)) bps))
  fees ← signal (quantize 4 (mul_dec (add_dec (add_dec r.taker1 r.taker2) r.taker3) bps))
  gross ← signal (quantize 4 (add_dec (add_dec net fees) slippage))
  notional ← signal (quantize 8 w.est1.quote_amount)
  ok (record {
    notional_quote = notional;
    gross_spread_bps = gross;
    trading_fees_bps = fees;
    slippage_bps = slippage;
    transfer_bps = dec0;
  })

abbrev pub leg_from :
    Text → Symbol → OrderSide → ExecutionEstimate → Decimal → Decimal → ArbitrageLeg
leg_from venue s side e amount taker = record {
  exchange_id = venue;
  symbol = s;
  side = side;
  price = e.average_price;
  amount = amount;
  fee_bps = mul_dec taker bps;
  estimate = some e;
}

-- the three legs; the second and the third are given the same amount
abbrev pub legs_of : Text → Ring → CycleWalk → List ArbitrageLeg
legs_of venue r w =
    leg_from venue r.route.first_symbol OrderSide.buy w.est1 w.amt1 r.taker1
    ∷ leg_from venue r.route.second_symbol r.route.second_side w.est2 w.amt2 r.taker2
    ∷ leg_from venue r.route.third_symbol OrderSide.sell w.est3 w.amt2 r.taker3
    ∷ []

abbrev route_name : Text → TriangleRoute → Text
route_name venue route =
    text "USDT->"
    ++ (route.first_symbol.base
        ++ (text "->" ++ (route.third_symbol.base ++ (text "->USDT @ " ++ venue))))

-- the published opportunity
abbrev pub published : Text → ℕ → ℕ → Ring → CycleWalk → ProfitBreakdown → ArbitrageOpportunity
published venue now ttl_ms r w profit = record {
  symbol = r.route.first_symbol;
  buy_leg = leg_from venue r.route.first_symbol OrderSide.buy w.est1 w.amt1 r.taker1;
  sell_leg = leg_from venue r.route.third_symbol OrderSide.sell w.est3 w.amt2 r.taker3;
  profit = profit;
  status = OpportunityStatus.detected;
  max_notional_quote =
      min_dec
        (min_dec (side_notional r.book1 OrderSide.buy) (side_notional r.book2 r.route.second_side))
        (side_notional r.book3 OrderSide.sell);
  expires_at = some (now + 1000 * ttl_ms);
  size_notional_quote = profit.notional_quote;
  direction = some (route_name venue r.route);
  legs_route = legs_of venue r w;
}

-- the tests after the sizing loop
unfoldable pub publish_walk :
    TriangularScanner
    → Text
    → ℕ
    → ℕ
    → Ring
    → Option CycleWalk
    → Result (Option ArbitrageOpportunity)
unfolding profit_of
publish_walk sc venue now ttl_ms r none = ok none
publish_walk sc venue now ttl_ms r (some w) =
    if le_dec w.est3.quote_amount dec0
    then ok none
    else (signal (quantize 4 (total_slippage w)) >>= λ slippage.
        if slips sc.max_leg_slippage_bps w
        then ok none
        else if le_dec w.est1.quote_amount dec0
        then ok none
        else (profit_of r w slippage >>= λ profit.
            ok (some (published venue now ttl_ms r w profit))))

-- `_evaluate`
unfoldable pub evaluate_ring :
    TriangularScanner
    → Text
    → ℕ
    → ℕ
    → Bool
    → TriangleRoute
    → Snapshot
    → Snapshot
    → Decimal
    → Result (Option ArbitrageOpportunity)
unfolding ring_of size_ring publish_walk
evaluate_ring sc venue now ttl_ms require_fresh route leg1 leg3 notional =
    if require_fresh && (is_old sc now leg1 || is_old sc now route.leg2_book || is_old sc now leg3)
    then ok none
    else (do
      r ← ring_of sc venue route leg1.book leg3.book
      w ←
          size_ring max_sizing_passes r (min_cost_of (filters_of sc venue route.first_symbol))
            notional
      publish_walk sc venue now ttl_ms r w)
