-- ===== src/Triangle/Execute.antt =====
-- `execute`, `_interrupted` and `_persisted_or_local` of app/strategies/triangular/executor.py.
use crypto_arbitrage_bot_ref.Base.{
  ℕ, Option, none, some, List, [], ◌∷◌, map, Text, text, if◌then◌else◌,
}
use crypto_arbitrage_bot_ref.Money.{Decimal, dec0}
use crypto_arbitrage_bot_ref.Risk.{ArbitrageStrategy}
use crypto_arbitrage_bot_ref.Result.{Result, ok, raise, Exception}
use crypto_arbitrage_bot_ref.Precision.{symbol_name}
use crypto_arbitrage_bot_ref.Trades.{
  TradeRecord, TradeStatus, Held, with_error, get, aborted, aborted_holding,
}
use crypto_arbitrage_bot_ref.Triangle.Effects.{
  TriangleExecutor, Answers, World, Action, triangle_execute_started, triangle_execute_finished,
  pure, ◌>>◌, save_trade, audit,
}
use crypto_arbitrage_bot_ref.Triangle.Inventory.{held_inventory}
use crypto_arbitrage_bot_ref.Opportunity.{ArbitrageLeg, ArbitrageOpportunity}
use crypto_arbitrage_bot_ref.Triangle.Cycle.{Course, run_cycle}

abbrev pub interrupted_by : ℕ → Exception → List Held → TradeRecord → TradeRecord
interrupted_by now e [] t = with_error now TradeStatus.failed (aborted e) t
interrupted_by now e (h ∷ hs) t =
    with_error now TradeStatus.manual_review (aborted_holding e (h ∷ hs)) t

-- `_interrupted`
unfoldable pub interrupted : ℕ → Exception → TradeRecord → TradeRecord
unfolding held_inventory
interrupted now e t = interrupted_by now e (held_inventory t.orders) t

abbrev or_local : Option TradeRecord → TradeRecord → TradeRecord
or_local none t = t
or_local (some stored) t = stored

-- `_persisted_or_local`
unfoldable pub persisted_or_local : Answers → TradeRecord → World → TradeRecord
unfolding get
persisted_or_local a t w = if a.can_read then or_local (get t.id w.trades) t else t

abbrev route_text : Option Text → Text
route_text (some (c ∷ s)) = c ∷ s
route_text _ = text "USDT->?->?->USDT"

abbrev leg_name : ArbitrageLeg → Text
leg_name l = symbol_name l.symbol

-- the trade that `execute` opens, with its new id
unfoldable pub opened_trade : TriangleExecutor → ℕ → Text → ArbitrageOpportunity → TradeRecord
opened_trade ex now id o = record {
  id = id;
  strategy = ArbitrageStrategy.triangle;
  mode = ex.mode;
  exchange_id = o.buy_leg.exchange_id;
  route = route_text o.direction;
  symbols = map leg_name o.legs_route;
  input_amount = o.size_notional_quote;
  output_amount = dec0;
  fees_quote = dec0;
  slippage_bps = dec0;
  net_profit = dec0;
  net_profit_bps = dec0;
  status = TradeStatus.executing;
  orders = [];
  error = none;
  transfer_id = none;
  created_at = now;
  updated_at = now;
}

-- the handlers of `execute`: the trade of the cycle, or an interrupted one
unfoldable pub rescued : Answers → TradeRecord → Result TradeRecord → World → TradeRecord
unfolding interrupted persisted_or_local
rescued a t (ok done) w = done
rescued a t (raise e) w = interrupted a.now e (persisted_or_local a t w)

-- what follows the cycle
unfoldable pub close_trade : Answers → TradeRecord → Result TradeRecord → Action TradeRecord
unfolding rescued save_trade audit
close_trade a t r w =
    (do
      let done = rescued a t r w
      save_trade done
      audit (triangle_execute_finished done.id done.status)
      pure done)
      w

-- the cycle of a trade that is stored, and what follows
unfoldable pub run_and_close :
    TriangleExecutor → Course → List ArbitrageLeg → Decimal → TradeRecord → Action TradeRecord
unfolding run_cycle close_trade
run_and_close ex c legs spend t w =
    let (r, w') = run_cycle ex c legs spend t w in close_trade (c 5) t r w'

-- `execute`, for a trade with the given new id
unfoldable pub execute :
    TriangleExecutor → Course → Text → ArbitrageOpportunity → Action TradeRecord
unfolding opened_trade save_trade audit run_and_close
execute ex c id o = do
  let t = opened_trade ex (c 0).now id o
  save_trade t
  audit (triangle_execute_started t.id)
  run_and_close ex c o.legs_route o.size_notional_quote t
