-- ===== src/Planner/Tests.antt =====
-- Sizes and plans.
use crypto_arbitrage_bot_ref.Base.{
  All, List, Text, if◌then◌else◌, put, normalise, find, [], ◌∷◌, text, ◌≡◌, ◌⊎◌, refl, true, none,
  some, text_eq,
}
use crypto_arbitrage_bot_ref.Money.{Decimal, dec, dec0, le_dec, lt_dec, mul_dec, arithmetic}
use crypto_arbitrage_bot_ref.Result.{ok, raise, value_error}
use crypto_arbitrage_bot_ref.Transfers.{TransferPlan, net_profit_bps}
use crypto_arbitrage_bot_ref.Risk.{finite}
use crypto_arbitrage_bot_ref.Guard.{TradingMode}
use crypto_arbitrage_bot_ref.Fills.{OrderBook}
use crypto_arbitrage_bot_ref.Fills.Tests.{small_book}
use crypto_arbitrage_bot_ref.Planner.{
  executable_amount, executable_amount_from_notional, evaluate_plan, validate_transfer_books,
}
use crypto_arbitrage_bot_ref.Planner.Sizing.{from_notional_covered}
use crypto_arbitrage_bot_ref.Planner.Pair.{PairSettings, PairAnswers}
use crypto_arbitrage_bot_ref.Planner.Search.{FrozenBooks, Search, plan}
use crypto_arbitrage_bot_ref.Planner.Found.{Routed, plan-Routed}
use crypto_arbitrage_bot_ref.Networks.Tests.{sources, dests}
use crypto_arbitrage_bot_ref.Orchestrator.Fixtures.{ripple_plan}

-- Ten coins asked for at a price of three, a budget of ten.
three_coins :
    executable_amount (dec 10 0) (dec 1 0) (dec 10 0) (dec 3 0) none none ≡ ok (dec 333333333 8)
unfolding executable_amount arithmetic
three_coins = refl

-- A budget of two at a price of three buys more than it pays for: the quotient is rounded up.
rounded_up : executable_amount (dec 10 0) dec0 (dec 2 0) (dec 3 0) none none ≡ ok (dec 66666667 8)
unfolding executable_amount arithmetic
rounded_up = refl

hundred_worth :
    executable_amount_from_notional (dec 50 0) (dec 100 0) (dec 400 0) (dec 2 0) (dec 1 0) none
    ≡ ok (dec 5000000000 8)
unfolding executable_amount_from_notional arithmetic
hundred_worth = refl

from_notional_covered_example :
    (dec 5000000000 8 ≡ dec0)
    ⊎ ((lt_dec dec0 (dec 5000000000 8) ≡ true)
        × (le_dec (dec 1 0) (dec 5000000000 8) ≡ true)
        × (le_dec (dec 50 0) (mul_dec (dec 5000000000 8) (dec 2 0)) ≡ true)
        × (le_dec (dec 50 0) (dec 400 0) ≡ true)
        × (le_dec (dec 50 0) (dec 100 0) ≡ true))
from_notional_covered_example =
    from_notional_covered (dec 50 0) (dec 100 0) (dec 400 0) (dec 2 0) (dec 1 0) none
      (dec 5000000000 8) hundred_worth

worth_it : evaluate_plan (dec 10 0) ripple_plan ≡ ok (some ripple_plan)
unfolding evaluate_plan net_profit_bps arithmetic text_eq
worth_it = refl

sane_pair : validate_transfer_books small_book small_book (dec 500 0) ≡ ok none
unfolding validate_transfer_books arithmetic
sane_pair = refl

-- a book that pays half more
abbrev dear_book : OrderBook
dear_book = record small_book {
  bids = record { price = dec 15 1; amount = dec 1000 0 } ∷ [];
  asks = record { price = dec 151 2; amount = dec 1000 0 } ∷ [];
}

abbrev pair_settings : PairSettings
pair_settings = record {
  min_notional_quote = dec 5 0;
  max_notional_quote = dec 500 0;
  max_trade_size = dec 1000 0;
  max_amount = none;
  max_gross_divergence_bps = dec 6000 0;
  min_net_profit_bps = dec 10 0;
  base_currency = text "USDT";
}

abbrev pair_answers : PairAnswers
pair_answers = record {
  buy_age = finite (dec 100 0);
  sell_age = finite (dec 200 0);
  source_networks = ok sources;
  dest_networks = ok dests;
  mode = TradingMode.demo;
  wallet = none;
  balance = ok (dec 100 0);
  buy_fees = ok (dec 10 0);
  sell_fees = raise value_error;
}

abbrev frozen_books : FrozenBooks
frozen_books = record {
  buy_book = some small_book;
  sell_book = some dear_book;
  buy_age_before = some (finite (dec 50 0));
  sell_age_before = none;
}

abbrev no_books : FrozenBooks
no_books = record frozen_books { buy_book = none }

abbrev search_all : Search
search_all = record {
  store = record { stale_after_ms = 2000; tickers = []; books = [] };
  settings = pair_settings;
  assets = text "XRP" ∷ [];
  batch = record { has_market = true; venues = text "alpha" ∷ text "beta" ∷ [] };
  answers = λ _ _ _. pair_answers;
  frozen = λ _ source _. if text_eq source (text "alpha") then frozen_books else no_books;
  amount = some (dec 20 0);
}

abbrev routes_of : List TransferPlan → List (Text × Decimal)
routes_of [] = []
routes_of (p ∷ ps) = (p.dest_exchange, p.amount) ∷ routes_of ps

-- Twenty coins are asked for, and the fee of one coin still leaves a profit, on the one route that
-- has both books.
planned :
    routes_of (plan search_all none (some (text " Alpha ")) none)
    ≡ (text "beta", dec 2000000000 8) ∷ []
unfolding plan arithmetic put text_eq normalise find net_profit_bps
planned = refl

plan-Routed_example : All (Routed search_all) (plan search_all none (some (text " Alpha ")) none)
plan-Routed_example = plan-Routed search_all none (some (text " Alpha ")) none
