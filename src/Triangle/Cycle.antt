-- ===== src/Triangle/Cycle.antt =====
-- `_run_cycle` of app/strategies/triangular/executor.py. The answers that come from
-- outside are numbered by the leg: 0 for what precedes the first leg, 4 for an unwinding, 5 for
-- what follows the cycle.
use crypto_arbitrage_bot_ref.Base.{ℕ, Option, none, some, List, if◌then◌else◌}
use crypto_arbitrage_bot_ref.Money.{Decimal, dec0, le_dec, add_dec, sub_dec, mul_dec, quantize}
use crypto_arbitrage_bot_ref.Orders.{Order, OrderSide, Symbol, outcome_unconfirmed}
use crypto_arbitrage_bot_ref.Result.{Result, ok, signal}
use crypto_arbitrage_bot_ref.Fills.{SimulatedFill, Size, base_size, quote_size}
use crypto_arbitrage_bot_ref.Trades.{
  TradeRecord, TradeStatus, TradeNote, first_leg, second_leg, third_leg, with_error, preview_failed,
  leg_failed, leg_unconfirmed,
}
use crypto_arbitrage_bot_ref.Triangle.Effects.{
  TriangleExecutor, Answers, Action, pure, lift, ◌>>=◌, ◌>>◌, save_trade,
}
use crypto_arbitrage_bot_ref.Triangle.Inventory.{absorb_order, venue_fill_view}
use crypto_arbitrage_bot_ref.Triangle.Legs.{Leg, notifier, fill_leg}
use crypto_arbitrage_bot_ref.Opportunity.{ArbitrageLeg}
use crypto_arbitrage_bot_ref.Triangle.Preview.{
  leg_at, cross_size, held_y, preview_cycle, below_floor, floor_bps, check_capital,
}
use crypto_arbitrage_bot_ref.Triangle.Accounts.{completed_trade, total_fees}
use crypto_arbitrage_bot_ref.Triangle.Unwind.{fail_with_unwind}

abbrev pub Course : Type 0
Course = ℕ → Answers

-- `fill if fill is not None else _venue_fill_view(order)`
unfoldable pub fill_of : Leg → Result (Option SimulatedFill)
unfolding venue_fill_view
fill_of (some f, o) = ok (some f)
fill_of (none, o) = venue_fill_view o

-- `_unconfirmed`
unfoldable pub unconfirmed : ℕ → ℕ → Order → TradeRecord → TradeRecord
unconfirmed now n o t =
    with_error now TradeStatus.manual_review (leg_unconfirmed n o.status o.error) t

-- One leg with its intent, its outcome absorbed and saved: an unconfirmed order ends the cycle,
-- and otherwise `next` gets the fill, if there is one.
unfoldable pub run_leg :
    TriangleExecutor
    → Answers
    → ℕ
    → Symbol
    → OrderSide
    → Size
    → (Option SimulatedFill → TradeRecord → Action TradeRecord)
    → TradeRecord
    → Action TradeRecord
unfolding fill_leg notifier absorb_order save_trade unconfirmed fill_of
run_leg ex a n symbol side size next t = do
  l ← fill_leg ex a t.exchange_id symbol side size (notifier a t)
  let t' = absorb_order a.now l.1 t
  save_trade t'
  (if outcome_unconfirmed l.1
      then pure (unconfirmed a.now n l.1 t')
      else (lift (fill_of l) >>= λ f. next f t'))

abbrev pub with_slippage : Decimal → TradeRecord → TradeRecord
with_slippage slippage t = record t { slippage_bps = slippage }

abbrev pub slippage_of : SimulatedFill → SimulatedFill → SimulatedFill → Decimal
slippage_of f1 f2 f3 = add_dec (add_dec f1.slippage_bps f2.slippage_bps) f3.slippage_bps

abbrev pub fees_of_two : SimulatedFill → SimulatedFill → Decimal
fees_of_two f1 f2 = add_dec f1.fee (mul_dec f2.fee f1.average_price)

-- after the third leg
unfoldable pub finish_cycle :
    TriangleExecutor
    → Course
    → SimulatedFill
    → SimulatedFill
    → Symbol
    → Decimal
    → Option SimulatedFill
    → TradeRecord
    → Action TradeRecord
unfolding fail_with_unwind completed_trade
finish_cycle ex c f1 f2 symbol held none t =
    fail_with_unwind ex (c 4) t.exchange_id symbol held third_leg (fees_of_two f1 f2)
      f1.quote_amount t
finish_cycle ex c f1 f2 symbol held (some f3) t =
    if le_dec f3.filled_amount dec0
    then fail_with_unwind ex (c 4) t.exchange_id symbol held third_leg (fees_of_two f1 f2)
        f1.quote_amount t
    else if le_dec f3.quote_amount dec0
    then fail_with_unwind ex (c 4) t.exchange_id symbol held third_leg (fees_of_two f1 f2)
        f1.quote_amount t
    else (do
      slippage ← lift (signal (quantize 4 (slippage_of f1 f2 f3)))
      done ←
          lift (completed_trade (c 3).now f1.quote_amount f3.quote_amount (total_fees f1 f2 f3) t)
      pure (with_slippage slippage done))

-- the third leg, with the Y that the second gave
unfoldable pub third_leg_of :
    TriangleExecutor
    → Course
    → List ArbitrageLeg
    → SimulatedFill
    → SimulatedFill
    → Decimal
    → TradeRecord
    → Action TradeRecord
unfolding run_leg finish_cycle
third_leg_of ex c legs f1 f2 held t = do
  leg3 ← lift (leg_at 2 legs)
  run_leg ex (c 3) 3 leg3.symbol OrderSide.sell (base_size held)
      (finish_cycle ex c f1 f2 leg3.symbol held) t

-- after the second leg
unfoldable pub after_second :
    TriangleExecutor
    → Course
    → List ArbitrageLeg
    → SimulatedFill
    → Symbol
    → OrderSide
    → Option SimulatedFill
    → TradeRecord
    → Action TradeRecord
unfolding fail_with_unwind third_leg_of
after_second ex c legs f1 symbol side none t =
    fail_with_unwind ex (c 4) t.exchange_id symbol f1.filled_amount second_leg f1.fee
      f1.quote_amount t
after_second ex c legs f1 symbol side (some f2) t =
    if le_dec f2.filled_amount dec0
    then fail_with_unwind ex (c 4) t.exchange_id symbol f1.filled_amount second_leg f1.fee
        f1.quote_amount t
    else third_leg_of ex c legs f1 f2 (held_y side f2) t

-- the second leg, across the two assets; what it sells back on failure is the first leg's
unfoldable pub second_leg_of :
    TriangleExecutor
    → Course
    → List ArbitrageLeg
    → SimulatedFill
    → Symbol
    → TradeRecord
    → Action TradeRecord
unfolding run_leg after_second
second_leg_of ex c legs f1 symbol t = do
  leg2 ← lift (leg_at 1 legs)
  run_leg ex (c 2) 2 leg2.symbol leg2.side (cross_size leg2.side f1.filled_amount)
      (after_second ex c legs f1 symbol leg2.side) t

abbrev pub with_spend : Decimal → TradeRecord → TradeRecord
with_spend spend t = record t { input_amount = spend }

-- `_fail`, after the first leg
abbrev pub failed_first : ℕ → TradeRecord → TradeRecord
failed_first now t = with_error now TradeStatus.failed (leg_failed first_leg) t

-- after the first leg
unfoldable pub after_first :
    TriangleExecutor
    → Course
    → List ArbitrageLeg
    → Symbol
    → Option SimulatedFill
    → TradeRecord
    → Action TradeRecord
unfolding second_leg_of
after_first ex c legs symbol none t = pure (failed_first (c 1).now t)
after_first ex c legs symbol (some f1) t =
    if le_dec f1.filled_amount dec0
    then pure (failed_first (c 1).now t)
    else second_leg_of ex c legs f1 symbol (with_spend f1.quote_amount t)

-- the first leg, once the capital is there
unfoldable pub first_leg_of :
    TriangleExecutor → Course → List ArbitrageLeg → Decimal → TradeRecord → Action TradeRecord
unfolding check_capital run_leg after_first
first_leg_of ex c legs spend t = do
  check_capital ex (c 0) t.exchange_id spend
  leg1 ← lift (leg_at 0 legs)
  run_leg ex (c 1) 1 leg1.symbol OrderSide.buy (quote_size spend)
      (after_first ex c legs leg1.symbol) t

-- the trade that the execution floor ends
abbrev pub abandoned : TriangleExecutor → Answers → Decimal → TradeRecord → TradeRecord
abandoned ex a expected_net t =
    with_error a.now TradeStatus.failed (TradeNote.below_floor expected_net (floor_bps ex)) t

-- after the preview
unfoldable pub after_preview :
    TriangleExecutor
    → Course
    → List ArbitrageLeg
    → Decimal
    → TradeRecord
    → Option Decimal
    → Action TradeRecord
unfolding below_floor first_leg_of
after_preview ex c legs spend t none =
    pure (with_error (c 0).now TradeStatus.failed preview_failed t)
after_preview ex c legs spend t (some proceeds) = do
  let expected_net = sub_dec proceeds spend
  low ← lift (below_floor ex spend expected_net)
  (if low then pure (abandoned ex (c 0) expected_net t) else first_leg_of ex c legs spend t)

-- `_run_cycle`
unfoldable pub run_cycle :
    TriangleExecutor → Course → List ArbitrageLeg → Decimal → TradeRecord → Action TradeRecord
unfolding preview_cycle after_preview
run_cycle ex c legs spend t = lift (preview_cycle ex (c 0) t.exchange_id legs spend) >>= λ preview.
    after_preview ex c legs spend t preview
