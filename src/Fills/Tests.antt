-- ===== src/Fills/Tests.antt =====
-- Fills on a small book.
use crypto_arbitrage_bot_ref.Base.{◌≡◌, refl, some, none, [], ◌∷◌, text}
use crypto_arbitrage_bot_ref.Money.{Decimal, dec, arithmetic}
use crypto_arbitrage_bot_ref.Orders.{OrderSide}
use crypto_arbitrage_bot_ref.Result.{Result, ok}
use crypto_arbitrage_bot_ref.Fills.{
  OrderBook, Simulator, SimulatedFill, simulate, simulate_on, price_cap, base_size,
}
use crypto_arbitrage_bot_ref.Fills.Cap.{reachable, simulate_respects_cap}

abbrev pub small_book : OrderBook
small_book = record {
  symbol = record { base = text "XRP"; quote = text "USDT" };
  bids = record { price = dec 99 2; amount = dec 50 0 } ∷ [];
  asks =
      record { price = dec 1 0; amount = dec 10 0 }
      ∷ record { price = dec 1002 3; amount = dec 10 0 }
      ∷ record { price = dec 2 0; amount = dec 1000 0 }
      ∷ [];
}

abbrev pub usual : Simulator
usual = record { taker_fee_bps = dec 10 0; max_slippage_bps = dec 50 0 }

abbrev fill_amount : Result SimulatedFill → Result (Decimal × Decimal × Decimal)
fill_amount (ok f) = ok (f.filled_amount, f.quote_amount, f.fill_ratio)
fill_amount (Result.raise e) = Result.raise e

-- The third level lies above the cap: 20 of 30 are bought, less the fee.
thin :
    fill_amount (simulate usual small_book OrderSide.buy (some (dec 30 0)) none)
    ≡ ok (dec 1998000000 8, dec 2002000000 8, dec 666667 6)
unfolding simulate arithmetic
thin = refl

cap_on_best : price_cap usual OrderSide.buy (dec 1 0) ≡ ok (dec 100500000 8)
unfolding price_cap arithmetic
cap_on_best = refl

simulate_respects_cap_example :
    simulate_on usual small_book OrderSide.buy (base_size (dec 30 0)) small_book.asks
    ≡ simulate_on usual small_book OrderSide.buy (base_size (dec 30 0)) (
        record { price = dec 1 0; amount = dec 10 0 }
        ∷ reachable OrderSide.buy (dec 100500000 8) (
            record { price = dec 1002 3; amount = dec 10 0 }
            ∷ record { price = dec 2 0; amount = dec 1000 0 }
            ∷ []))
simulate_respects_cap_example =
    simulate_respects_cap usual small_book OrderSide.buy (base_size (dec 30 0))
      (record { price = dec 1 0; amount = dec 10 0 })
      (record { price = dec 1002 3; amount = dec 10 0 }
        ∷ record { price = dec 2 0; amount = dec 1000 0 }
        ∷ [])
      (dec 100500000 8) cap_on_best
