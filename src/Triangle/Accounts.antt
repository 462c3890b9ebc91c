-- ===== src/Triangle/Accounts.antt =====
-- The final accounting of app/strategies/triangular/executor.py: how a cycle, its unwinding or its
-- orders after a restart become a completed trade.
use crypto_arbitrage_bot_ref.Base.{ℕ, Option, none, some, List, ◌∷◌, if◌then◌else◌}
use crypto_arbitrage_bot_ref.Money.{
  Decimal, dec0, le_dec, lt_dec, add_dec, sub_dec, mul_dec, div_dec, quantize,
}
use crypto_arbitrage_bot_ref.Orders.{Order, outcome_unconfirmed}
use crypto_arbitrage_bot_ref.Result.{Result, ok, raise, signal, index_error, ◌>>=◌}
use crypto_arbitrage_bot_ref.Transfers.{bps}
use crypto_arbitrage_bot_ref.Fills.{SimulatedFill}
use crypto_arbitrage_bot_ref.Trades.{
  TradeRecord, TradeStatus, TradeNote, FailedLeg, with_error, leg_failed, unwind_unconfirmed,
  unwind_empty, resume_unvalued,
}
use crypto_arbitrage_bot_ref.Triangle.Inventory.{venue_fill_view}
use crypto_arbitrage_bot_ref.Triangle.Legs.{Leg}

-- the net profit in basis points of the spend, zero where nothing was spent
unfoldable pub net_bps : Decimal → Decimal → Result Decimal
net_bps net spend =
    if lt_dec dec0 spend
    then (do share ← signal (div_dec net spend); signal (quantize 2 (mul_dec share bps)))
    else ok dec0

-- the amounts that every completed trade gets
abbrev pub with_amounts : ℕ → Decimal → Decimal → Decimal → Decimal → TradeRecord → TradeRecord
with_amounts now output fees net net_bps t = record t {
  status = TradeStatus.completed;
  output_amount = output;
  fees_quote = fees;
  net_profit = net;
  net_profit_bps = net_bps;
  updated_at = now;
}

-- `with_status(COMPLETED, ...)`: proceeds, fees and the net of the spend, quantised
unfoldable pub completed_trade : ℕ → Decimal → Decimal → Decimal → TradeRecord → Result TradeRecord
unfolding net_bps
completed_trade now spend proceeds fees t = do
  output ← signal (quantize 8 proceeds)
  fees_quote ← signal (quantize 8 fees)
  net ← signal (quantize 8 (sub_dec proceeds spend))
  share ← net_bps (sub_dec proceeds spend) spend
  ok (with_amounts now output fees_quote net share t)

abbrev pub price_or_zero : Option Decimal → Decimal
price_or_zero none = dec0
price_or_zero (some p) = p

-- what the unwinding brought back
unfoldable pub recovered_quote : Leg → Decimal
recovered_quote (some f, o) = f.quote_amount
recovered_quote (none, o) = mul_dec o.filled_amount (price_or_zero o.average_price)

abbrev explained : TradeNote → TradeRecord → TradeRecord
explained e t = record t { error = some e }

-- the end of a trade whose unwinding order is known
unfoldable pub settle_unwind :
    ℕ → FailedLeg → Decimal → Decimal → Leg → TradeRecord → Result TradeRecord
unfolding completed_trade recovered_quote
settle_unwind now leg fees spend l t =
    if outcome_unconfirmed l.1
    then ok (with_error now TradeStatus.manual_review (unwind_unconfirmed leg l.1.status) t)
    else if le_dec (recovered_quote l) dec0
    then ok (with_error now TradeStatus.manual_review (unwind_empty leg) t)
    else (completed_trade now spend (recovered_quote l) fees t >>= λ done.
        ok (explained (leg_failed leg) done))

abbrev with_input : Decimal → TradeRecord → TradeRecord
with_input spend t = record t { input_amount = spend }

-- the fees of three legs, the second one's valued at the first one's average price
abbrev pub total_fees : SimulatedFill → SimulatedFill → SimulatedFill → Decimal
total_fees f1 f2 f3 = add_dec (add_dec f1.fee (mul_dec f2.fee f1.average_price)) f3.fee

abbrev pub completed_from :
    ℕ
    → TradeRecord
    → Option SimulatedFill
    → Option SimulatedFill
    → Option SimulatedFill
    → Result TradeRecord
completed_from now t (some f1) (some f2) (some f3) =
    completed_trade now f1.quote_amount f3.quote_amount (total_fees f1 f2 f3) t >>= λ done.
    ok (with_input f1.quote_amount done)
completed_from now t _ _ _ = ok (with_error now TradeStatus.manual_review resume_unvalued t)

-- `_complete_from_orders`, which is called with three orders
unfoldable pub complete_from_orders : ℕ → TradeRecord → List Order → Result TradeRecord
unfolding venue_fill_view completed_trade
complete_from_orders now t (o1 ∷ o2 ∷ o3 ∷ os) = do
  f1 ← venue_fill_view o1
  f2 ← venue_fill_view o2
  f3 ← venue_fill_view o3
  completed_from now t f1 f2 f3
complete_from_orders now t _ = raise index_error
