-- ===== src/Triangle/Unwind.antt =====
-- `_fail_with_unwind` of app/strategies/triangular/executor.py: what is held, sold back after a
-- later leg failed.
use crypto_arbitrage_bot_ref.Base.{ℕ, Text}
use crypto_arbitrage_bot_ref.Money.{Decimal}
use crypto_arbitrage_bot_ref.Orders.{OrderSide, Symbol}
use crypto_arbitrage_bot_ref.Result.{Result, ok, raise}
use crypto_arbitrage_bot_ref.Fills.{base_size}
use crypto_arbitrage_bot_ref.Trades.{TradeRecord, TradeStatus, FailedLeg, with_error, unwind_error}
use crypto_arbitrage_bot_ref.Triangle.Effects.{
  TriangleExecutor, Answers, Action, pure, ◌>>◌, save_trade,
}
use crypto_arbitrage_bot_ref.Triangle.Inventory.{absorb_order}
use crypto_arbitrage_bot_ref.Triangle.Accounts.{settle_unwind}
use crypto_arbitrage_bot_ref.Triangle.Legs.{Leg, notifier, fill_leg}

-- the handler of the `try` around the unwinding
abbrev pub or_review : ℕ → FailedLeg → TradeRecord → Result TradeRecord → TradeRecord
or_review now leg t (ok done) = done
or_review now leg t (raise e) = with_error now TradeStatus.manual_review (unwind_error leg e) t

-- the trade with the order of the unwinding, saved and settled
unfoldable pub unwound :
    Answers → FailedLeg → Decimal → Decimal → TradeRecord → Result Leg → Action TradeRecord
unfolding absorb_order save_trade settle_unwind
unwound a leg fees spend t (raise e) = pure (or_review a.now leg t (raise e))
unwound a leg fees spend t (ok l) = do
  let t' = absorb_order a.now l.1 t
  save_trade t'
  pure (or_review a.now leg t' (settle_unwind a.now leg fees spend l t'))

-- `_fail_with_unwind`
unfoldable pub fail_with_unwind :
    TriangleExecutor
    → Answers
    → Text
    → Symbol
    → Decimal
    → FailedLeg
    → Decimal
    → Decimal
    → TradeRecord
    → Action TradeRecord
unfolding fill_leg notifier unwound
fail_with_unwind ex a venue symbol amount leg fees spend t w =
    let (l, w') = fill_leg ex a venue symbol OrderSide.sell (base_size amount) (notifier a t) w in
    unwound a leg fees spend t l w'
