-- ===== src/Triangle/Tests.antt =====
-- Runs of the small triangle, and of the restart after one.
use crypto_arbitrage_bot_ref.Base.{
  ℕ, ◌+◌, ◌≤◌, put, Text, normalise, ◌≡◌, refl, true, some, none, List, [], ◌∷◌, text, text_eq,
  find, length,
}
use crypto_arbitrage_bot_ref.Money.{Decimal, dec, dec0, arithmetic}
use crypto_arbitrage_bot_ref.Orders.{OrderStatus, outcome_unconfirmed, is_confirmed_fill}
use crypto_arbitrage_bot_ref.Guard.{TradingMode, ensure_can_trade}
use crypto_arbitrage_bot_ref.Result.{Result, ok, raise}
use crypto_arbitrage_bot_ref.Orchestrator.Fixtures.{open_guard, halted_guard, ripple_order}
use crypto_arbitrage_bot_ref.Trades.{TradeRecord, TradeStatus, dumped, Held, is_terminal, save, get}
use crypto_arbitrage_bot_ref.Triangle.Effects.{World, placements}
use crypto_arbitrage_bot_ref.Triangle.Cycle.{Course}
use crypto_arbitrage_bot_ref.Triangle.Execute.{execute}
use crypto_arbitrage_bot_ref.Triangle.Resume.{resumed, resume_open_trades}
use crypto_arbitrage_bot_ref.Triangle.Inventory.{held_inventory}
use crypto_arbitrage_bot_ref.Triangle.Ends.Whole.{Finished, execute_finishes}
use crypto_arbitrage_bot_ref.Triangle.Steps.{may_place}
use crypto_arbitrage_bot_ref.Triangle.Count.{execute_places_few}
use crypto_arbitrage_bot_ref.Triangle.Journal.{in_order, execute_journaled}
use crypto_arbitrage_bot_ref.Triangle.Restart.{Judged, resumed-Judged}
use crypto_arbitrage_bot_ref.Triangle.Sweep.{resume_settles_all}
use crypto_arbitrage_bot_ref.Recovery.{recover}
use crypto_arbitrage_bot_ref.Wallet.{get_or_zero, credit, debit}
use crypto_arbitrage_bot_ref.Triangle.Fixtures.{
  unpriced, rich_world, ripple, executor, quiet, lost_second, refused_second, opportunity,
  empty_world, left_open, world_with,
}

abbrev outcome : Result TradeRecord → Result (TradeStatus × Decimal)
outcome (ok t) = ok (t.status, t.net_profit)
outcome (raise e) = raise e

-- the status and the profit that a run ends with, and the number of its orders
abbrev ending : TradingMode → Course → Result (TradeStatus × Decimal) × ℕ
ending mode c =
    let (r, w) = execute (executor mode) c (text "t1") opportunity empty_world in
    (outcome r, length (placements w.log))

-- On paper the cycle earns and places nothing.
on_paper :
    ending TradingMode.paper (quiet open_guard) ≡ (ok (TradeStatus.completed, dec 23426574 8), 0)
unfolding execute arithmetic text_eq find ensure_can_trade outcome_unconfirmed
on_paper = refl

-- On a venue it places three orders.
on_venue :
    ending TradingMode.demo (quiet open_guard) ≡ (ok (TradeStatus.completed, dec 25000000 8), 3)
unfolding execute arithmetic text_eq ensure_can_trade outcome_unconfirmed is_confirmed_fill
on_venue = refl

-- A second order that is lost leaves the trade for review, with no third order.
second_lost : ending TradingMode.demo lost_second ≡ (ok (TradeStatus.manual_review, dec0), 2)
unfolding execute arithmetic text_eq ensure_can_trade outcome_unconfirmed is_confirmed_fill recover
second_lost = refl

-- A second order that is refused makes the executor sell the first one's coins back.
second_refused : ending TradingMode.demo refused_second ≡ (ok (TradeStatus.completed, dec 0 8), 3)
unfolding execute arithmetic text_eq ensure_can_trade outcome_unconfirmed is_confirmed_fill
second_refused = refl

halted : ending TradingMode.demo (quiet halted_guard) ≡ (ok (TradeStatus.failed, dec0), 0)
unfolding execute arithmetic text_eq ensure_can_trade outcome_unconfirmed is_confirmed_fill save
halted = refl

abbrev balance_after : World → Decimal
balance_after w = elim (find (text "alpha") w.wallets) [
  | none ↦ dec0
  | some wallet ↦ get_or_zero (text "USDT") wallet
]

abbrev paper_run : Result TradeRecord × World
paper_run =
    execute (executor TradingMode.paper) (quiet open_guard) (text "t1") opportunity rich_world

-- The capital check debits the paper wallet and the first leg debits it again: a wallet that holds
-- exactly the budget fails the cycle, and the budget is gone.
debited_twice :
    (outcome paper_run.0 ≡ ok (TradeStatus.failed, dec0)) × (balance_after paper_run.1 ≡ dec0)
unfolding execute arithmetic text_eq find put normalise credit debit ensure_can_trade
    outcome_unconfirmed save is_confirmed_fill
debited_twice = (refl, refl)

abbrev unpriced_run : Result TradeRecord × World
unpriced_run = execute (executor TradingMode.demo) unpriced (text "t1") opportunity empty_world

abbrev held_after : Result TradeRecord → List Held
held_after (ok t) = held_inventory t.orders
held_after (raise e) = []

-- A first order that is filled without an average price ends as failed, with its coins held.
failed_while_holding :
    (outcome unpriced_run.0 ≡ ok (TradeStatus.failed, dec0))
    × (held_after unpriced_run.0 ≡ (dec 500000000 8, ripple) ∷ [])
unfolding execute arithmetic text_eq ensure_can_trade outcome_unconfirmed is_confirmed_fill
failed_while_holding = (refl, refl)

execute_finishes_example :
    Finished
      (text "t1")
      (execute (executor TradingMode.demo) lost_second (text "t1") opportunity empty_world).0
      (execute (executor TradingMode.demo) lost_second (text "t1") opportunity empty_world).1
execute_finishes_example =
    execute_finishes (executor TradingMode.demo) lost_second (text "t1") opportunity empty_world

execute_journaled_example :
    in_order
      (execute (executor TradingMode.demo) refused_second (text "t1") opportunity empty_world).1.log
    ≡ true
unfolding in_order
execute_journaled_example =
    execute_journaled (executor TradingMode.demo) refused_second (text "t1") opportunity empty_world
      refl

execute_places_few_example :
    let placed = length (
      placements
        (execute
          (executor TradingMode.demo)
          refused_second
          (text "t1")
          opportunity
          empty_world).1.log) in
    let ex = executor TradingMode.demo in
    let legs =
      may_place ex (refused_second 1)
      + (may_place ex (refused_second 2)
          + (may_place ex (refused_second 3) + may_place ex (refused_second 4))) in
    (placed ≤ legs + 0) × (legs ≤ 4)
execute_places_few_example =
    execute_places_few (executor TradingMode.demo) refused_second (text "t1") opportunity
      empty_world

-- a trade interrupted while its first order was out
abbrev interrupted_trade : TradeRecord
interrupted_trade = left_open (dumped (ripple_order OrderStatus.pending dec0) ∷ [])

resumed-Judged_example : Judged (text "t1") (resumed (quiet open_guard 0) interrupted_trade)
resumed-Judged_example = resumed-Judged (quiet open_guard 0) interrupted_trade

resume_settles_all_example :
    (placements (resume_open_trades (quiet open_guard) (world_with interrupted_trade)).1.log ≡ [])
    × ((k : Text) (t : TradeRecord)
        → get k (resume_open_trades (quiet open_guard) (world_with interrupted_trade)).1.trades
          ≡ some t
        → is_terminal t.status ≡ true)
resume_settles_all_example = resume_settles_all (quiet open_guard) (world_with interrupted_trade)
