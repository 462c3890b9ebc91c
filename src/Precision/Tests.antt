-- ===== src/Precision/Tests.antt =====
-- Orders rounded onto a grid.
use crypto_arbitrage_bot_ref.Base.{◌≡◌, refl, true, none, some, text}
use crypto_arbitrage_bot_ref.Money.{Decimal, dec, le_dec, lt_dec, arithmetic}
use crypto_arbitrage_bot_ref.Orders.{OrderSide, OrderType}
use crypto_arbitrage_bot_ref.Result.{ok}
use crypto_arbitrage_bot_ref.Precision.{OrderRequest, InstrumentFilters, round_step_down}

abbrev request : Decimal → OrderRequest
request amount = record {
  exchange_id = text "alpha";
  symbol = record { base = text "XRP"; quote = text "USDT" };
  side = OrderSide.buy;
  order_type = OrderType.market;
  amount = amount;
  price = none;
  client_order_id = text "c1";
}

abbrev tenths : InstrumentFilters
tenths = record {
  amount_step = some (dec 1 1);
  price_tick = none;
  min_amount = some (dec 1 0);
  min_cost = some (dec 5 0);
  contract_size = none;
}

-- A step finer than eight decimals is rounded up: the result exceeds the value.
rounds_up :
    (round_step_down (dec 16 9) (some (dec 16 9)) ≡ ok (dec 2 8))
    × (lt_dec (dec 16 9) (dec 2 8) ≡ true)
unfolding round_step_down arithmetic le_dec
rounds_up = (refl, refl)
