-- ===== src/Planner/Prices.antt =====
-- `price_pair` and `build` of app/strategies/transfer/planner.py: a plan priced by the depth of both
-- books.
use crypto_arbitrage_bot_ref.Base.{Bool, true, Text}
use crypto_arbitrage_bot_ref.Money.{Decimal, dec0, add_dec, quantize}
use crypto_arbitrage_bot_ref.Orders.{OrderSide}
use crypto_arbitrage_bot_ref.Result.{Result, ok, signal, ◌>>=◌}
use crypto_arbitrage_bot_ref.Risk.{finite}
use crypto_arbitrage_bot_ref.Transfers.{TransferPlan}
use crypto_arbitrage_bot_ref.Fills.{OrderBook}
use crypto_arbitrage_bot_ref.MarketData.Depth.{estimate_for_base_amount}

pub record PricePair : Type 0 where
  pub buy_price : Decimal
  pub sell_price : Decimal
  pub from_books : Bool
  pub buy_slippage_bps : Decimal
  pub sell_slippage_bps : Decimal

unfoldable pub price_pair : OrderBook → OrderBook → Decimal → Result PricePair
unfolding estimate_for_base_amount
price_pair buy_book sell_book amount = do
  buy ← estimate_for_base_amount buy_book OrderSide.buy amount
  sell ← estimate_for_base_amount sell_book OrderSide.sell amount
  buy_price ← signal (quantize 8 buy.average_price)
  sell_price ← signal (quantize 8 sell.average_price)
  ok (record {
    buy_price = buy_price;
    sell_price = sell_price;
    from_books = true;
    buy_slippage_bps = buy.slippage_bps;
    sell_slippage_bps = sell.slippage_bps;
  })

-- `build`; the age of the data is the model's default
unfoldable pub build_plan :
    Text
    → Text
    → Text
    → Text
    → Decimal
    → PricePair
    → Decimal
    → Decimal
    → Decimal
    → Decimal
    → TransferPlan
build_plan source dest asset network amount prices buy_fee_bps sell_fee_bps withdrawal_fee
      network_cost_quote =
    record {
      source_exchange = source;
      dest_exchange = dest;
      asset = asset;
      network = network;
      amount = amount;
      buy_price = prices.buy_price;
      sell_price = prices.sell_price;
      buy_fee_bps = buy_fee_bps;
      sell_fee_bps = sell_fee_bps;
      withdrawal_fee = withdrawal_fee;
      network_cost_quote = network_cost_quote;
      estimated_slippage_bps = add_dec prices.buy_slippage_bps prices.sell_slippage_bps;
      data_age_ms = finite dec0;
    }
