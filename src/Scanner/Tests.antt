-- ===== src/Scanner/Tests.antt =====
-- A venue with one profitable triangle.
use crypto_arbitrage_bot_ref.Base.{
  put, ◌≤◌, ◌≡◌, refl, true, Option, none, some, List, [], ◌∷◌, All, length, Text, text, text_eq,
}
use crypto_arbitrage_bot_ref.Money.{Decimal, dec, dec0, arithmetic}
use crypto_arbitrage_bot_ref.Orders.{OrderSide}
use crypto_arbitrage_bot_ref.Result.{Result, ok}
use crypto_arbitrage_bot_ref.Precision.{round_step_down}
use crypto_arbitrage_bot_ref.MarketData.Store.{
  Snapshot, MarketDataStore, QuoteKey, key_of, snapshot_key,
}
use crypto_arbitrage_bot_ref.MarketData.Depth.{average_of, estimate_ratio, estimate_for_base_amount}
use crypto_arbitrage_bot_ref.MarketData.Budget.{estimate_for_quote_amount}
use crypto_arbitrage_bot_ref.Opportunity.{
  net_of_costs_bps, ArbitrageLeg, ArbitrageOpportunity, OpportunityStatus,
}
use crypto_arbitrage_bot_ref.Scanner.Walk.{TriangleRoute, usdt}
use crypto_arbitrage_bot_ref.Scanner.Rings.{TriangularScanner, evaluate_ring}
use crypto_arbitrage_bot_ref.Scanner.Scan.{ScanRequest, scan}
use crypto_arbitrage_bot_ref.Scanner.Sound.{SoundRing, evaluate_ring-SoundRing}
use crypto_arbitrage_bot_ref.Scanner.Order.{Clears, Descending, scan_best_first}

abbrev scanner : TriangularScanner
scanner = record {
  fees_for = λ _ _. record { maker_bps = dec 10 0; taker_bps = dec 10 0 };
  filters_for = λ _ _. none;
  stale_after_ms = 2000;
  max_notional_quote = dec 100 0;
  min_net_bps = dec 10 0;
  max_leg_slippage_bps = dec 50 0;
}

-- one level on each side
abbrev snapshot : Text → Text → Decimal → Decimal → Snapshot
snapshot base quote bid ask = record {
  exchange_id = text "alpha";
  timestamp = 1_000_000;
  book = record {
    symbol = record { base = base; quote = quote };
    bids = record { price = bid; amount = dec 1000 0 } ∷ [];
    asks = record { price = ask; amount = dec 1000 0 } ∷ [];
  };
}

-- the second asset is bought with the first one at 2 and sold at 2.1
abbrev first_book : Snapshot
first_book = snapshot (text "A") usdt (dec 99 2) (dec 1 0)

abbrev cross_book : Snapshot
cross_book = snapshot (text "B") (text "A") (dec 19 1) (dec 2 0)

abbrev third_book : Snapshot
third_book = snapshot (text "B") usdt (dec 21 1) (dec 22 1)

abbrev route : TriangleRoute
route = record {
  exchange_id = text "alpha";
  first_symbol = first_book.book.symbol;
  second_symbol = cross_book.book.symbol;
  third_symbol = third_book.book.symbol;
  second_side = OrderSide.buy;
  leg2_book = cross_book;
}

abbrev entry : Snapshot → QuoteKey × Snapshot
entry s = (snapshot_key s, s)

abbrev evaluated_here : Result (Option ArbitrageOpportunity)
evaluated_here =
    evaluate_ring scanner (text "alpha") 1_000_000 1500 true route first_book third_book (dec 100 0)

abbrev amounts : Result (Option ArbitrageOpportunity) → List Decimal
amounts (ok (some o)) = o.buy_leg.amount ∷ o.profit.gross_spread_bps ∷ []
amounts _ = []

-- A hundred buys 99.9 of the first asset; with three fees the gross is 4.985315 percent.
ring : amounts evaluated_here ≡ dec 9990000000000000000000000000 26 ∷ dec 4985315 4 ∷ []
unfolding evaluate_ring arithmetic estimate_for_quote_amount average_of estimate_ratio
    round_step_down estimate_for_base_amount
ring = refl

abbrev no_leg : ArbitrageLeg
no_leg = record {
  exchange_id = text "alpha";
  symbol = first_book.book.symbol;
  side = OrderSide.buy;
  price = dec0;
  amount = dec0;
  fee_bps = dec0;
  estimate = none;
}

abbrev no_ring : ArbitrageOpportunity
no_ring = record {
  symbol = first_book.book.symbol;
  buy_leg = no_leg;
  sell_leg = no_leg;
  profit = record {
    notional_quote = dec0;
    gross_spread_bps = dec0;
    trading_fees_bps = dec0;
    slippage_bps = dec0;
    transfer_bps = dec0;
  };
  status = OpportunityStatus.detected;
  max_notional_quote = dec0;
  expires_at = none;
  size_notional_quote = dec0;
  direction = none;
  legs_route = [];
}

abbrev ring_or : ArbitrageOpportunity → Result (Option ArbitrageOpportunity) → ArbitrageOpportunity
ring_or o (ok (some found)) = found
ring_or o _ = o

abbrev found_ring : ArbitrageOpportunity
found_ring = ring_or no_ring evaluated_here

evaluate_ring-SoundRing_example :
    SoundRing (dec 50 0) OrderSide.buy first_book.book cross_book.book third_book.book found_ring
unfolding evaluate_ring arithmetic estimate_for_quote_amount average_of estimate_ratio
    round_step_down estimate_for_base_amount
evaluate_ring-SoundRing_example =
    evaluate_ring-SoundRing scanner (text "alpha") 1_000_000 1500 true route first_book third_book
      (dec 100 0) found_ring refl

abbrev request : ScanRequest
request = record {
  symbols = [];
  notional_quote = dec 100 0;
  min_net_profit_bps = none;
  require_fresh_data = true;
  max_results = 5;
  ttl_ms = 1500;
}

abbrev store : MarketDataStore
store = record {
  stale_after_ms = 2000;
  tickers = [];
  books = entry first_book ∷ entry cross_book ∷ entry third_book ∷ [];
}

-- The three books make one ring that clears the minimum.
scanned : length (scan scanner store 1_000_000 (text "Alpha" ∷ []) request) ≡ 1
unfolding scan evaluate_ring arithmetic estimate_for_quote_amount average_of estimate_ratio
    round_step_down estimate_for_base_amount text_eq key_of put net_of_costs_bps
scanned = refl

scan_best_first_example :
    (length (scan scanner store 1_000_000 (text "Alpha" ∷ []) request) ≤ 5)
    × Descending (scan scanner store 1_000_000 (text "Alpha" ∷ []) request)
    × All (Clears (dec 10 0)) (scan scanner store 1_000_000 (text "Alpha" ∷ []) request)
scan_best_first_example = scan_best_first scanner store 1_000_000 (text "Alpha" ∷ []) request
