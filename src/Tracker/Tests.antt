-- ===== src/Tracker/Tests.antt =====
-- Two days of profits.
use crypto_arbitrage_bot_ref.Base.{◌≡◌, refl, false, [], ◌∷◌, List, arith}
use crypto_arbitrage_bot_ref.Money.{dec, dec0, arithmetic}
use crypto_arbitrage_bot_ref.Tracker.{
  RiskStateTracker, Event, realized, opened, closed, after_events, snapshot, profit_of_day,
  profit_on, snapshot_counts_the_day,
}

abbrev new_tracker : RiskStateTracker
new_tracker = record { open_transfers = 0; daily_pnl = dec0; day = 1 }

abbrev two_days : List Event
two_days = closed 2 (dec 5 0) ∷ opened 2 ∷ realized 1 (dec 7 0) ∷ []

-- The profit of the first day is gone on the second.
second_day : (snapshot 2 false [] [] (after_events two_days new_tracker)).daily_pnl ≡ dec 5 0
unfolding snapshot arithmetic crypto_arbitrage_bot_ref.Tracker.register_transfer_closed
    crypto_arbitrage_bot_ref.Tracker.register_transfer_opened
second_day = refl

snapshot_counts_the_day_example :
    (snapshot 2 false [] [] (after_events two_days new_tracker)).daily_pnl
    ≡ profit_of_day 2 two_days (profit_on 2 new_tracker)
snapshot_counts_the_day_example =
    snapshot_counts_the_day two_days new_tracker 2 false [] []
      (ground arith, (ground arith, (ground arith, ground arith)))
