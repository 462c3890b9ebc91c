-- ===== src/Orchestrator/Buy.antt =====
-- `_execute_buy` and `_resolve_existing_buy` of app/strategies/transfer/orchestrator.py.
use crypto_arbitrage_bot_ref.Base.{Option, none, some, is_some, if◌then◌else◌}
use crypto_arbitrage_bot_ref.Money.{Decimal, dec0, le_dec, quantize}
use crypto_arbitrage_bot_ref.Orders.{
  Order, OrderSide, Symbol, is_confirmed_fill, confirmed_not_filled, outcome_unconfirmed,
}
use crypto_arbitrage_bot_ref.Recovery.{recover}
use crypto_arbitrage_bot_ref.Result.{Result, ok, raise, Exception, execution_disabled, signal}
use crypto_arbitrage_bot_ref.Transfers.{
  TransferRecord, TransferState, OrderJson, encoded, malformed, Note, buy_cost_quote,
}
use crypto_arbitrage_bot_ref.Fills.{SimulatedFill}
use crypto_arbitrage_bot_ref.Orchestrator.Effects.{
  Environment, Action, pure, throw, lift, ◌>>=◌, ◌>>◌, OrderRequest, save_record, check_guard,
  fail_record, to_review, move,
}
use crypto_arbitrage_bot_ref.Orchestrator.Legs.{Leg, fill_leg, market_order}

abbrev pub symbol_of : Environment → TransferRecord → Symbol
symbol_of env r = record { base = r.plan.asset; quote = env.base_currency }

-- `record.with_state(state, buy_order=..., buy_filled_amount=...)`
abbrev pub with_buy : Environment → Order → TransferRecord → TransferRecord
with_buy env o r =
    let moved = move env TransferState.buy_submitted r in
    record moved { buy_order = some (encoded o); buy_filled_amount = o.filled_amount }

-- `record.with_state(BUY_FILLED, buy_filled_amount=...)`
abbrev pub bought_record : Environment → Decimal → TransferRecord → TransferRecord
bought_record env rounded r =
    let moved = move env TransferState.buy_filled r in record moved { buy_filled_amount = rounded }

-- the same with `amount.quantize(Decimal("0.00000001"))`, saved
unfoldable pub bought : Environment → Decimal → TransferRecord → Action TransferRecord
unfolding save_record
bought env amount r = do
  rounded ← lift (signal (quantize 8 amount))
  save_record (bought_record env rounded r)
  pure (bought_record env rounded r)

-- the PENDING placeholder of `_note`
abbrev placeholder : Environment → OrderRequest → Order
placeholder env q =
    let blank = market_order env q.venue q.symbol q.side q.amount in
    record blank { client_order_id = some q.client_order_id }

-- `_note`: the record with the submission intent
abbrev pub note_buy : Environment → OrderRequest → TransferRecord → TransferRecord
note_buy env q r =
    let moved = move env TransferState.buy_submitted r in
    record moved { buy_order = some (encoded (placeholder env q)) }

-- what is left to do once the state of a persisted order was asked for
unfoldable pub after_recovery : Environment → Order → TransferRecord → Action TransferRecord
unfolding bought fail_record
after_recovery env o r =
    if is_confirmed_fill o
    then bought env o.filled_amount r
    else if confirmed_not_filled o
    then fail_record env TransferState.failed (Note.buy_not_filled_now o.status) r
    else to_review env (Note.buy_not_established o.status) r

-- the parsed order of `_resolve_existing_buy`
unfoldable pub resolve_order : Environment → Order → TransferRecord → Action TransferRecord
unfolding after_recovery save_record bought fail_record
resolve_order env o r =
    let recovered = recover (env.order_venue r.plan.source_exchange) o in
    if is_confirmed_fill o
    then bought env o.filled_amount r
    else if confirmed_not_filled o
    then fail_record env TransferState.failed (Note.buy_not_filled_before o.status) r
    else save_record (with_buy env recovered r)
      >> after_recovery env recovered (with_buy env recovered r)

-- `_resolve_existing_buy`
unfoldable pub resolve_existing_buy :
    Environment → OrderJson → TransferRecord → Action TransferRecord
unfolding resolve_order fail_record
resolve_existing_buy env malformed r = to_review env Note.buy_unparsable r
resolve_existing_buy env (encoded o) r = resolve_order env o r

abbrev pub filled_or : Order → Option SimulatedFill → Decimal
filled_or o none = o.filled_amount
filled_or o (some f) = if le_dec o.filled_amount dec0 then f.filled_amount else o.filled_amount

-- the outcome of a buy leg, saved and classified
unfoldable pub settle_buy : Environment → Leg → TransferRecord → Action TransferRecord
unfolding bought fail_record save_record
settle_buy env (f, o) r = do
  let r' = with_buy env o r
  save_record r'
  (if confirmed_not_filled o
      then fail_record env TransferState.failed (Note.buy_rejected o.error) r'
      else if outcome_unconfirmed o
      then to_review env (Note.buy_unconfirmed o.error) r'
      else if le_dec (filled_or o f) dec0
      then fail_record env TransferState.failed Note.buy_no_fill r'
      else bought env (filled_or o f) r')

-- the handlers around `_fill`: ExecutionDisabledError passes, any other exception fails the
-- record. The leg raises only before `on_submit` has run, so the record has no buy order then.
unfoldable pub handle_buy :
    Environment → TransferRecord → Result (Leg × TransferRecord) → Action TransferRecord
unfolding settle_buy fail_record
handle_buy env r (ok (leg, r')) = settle_buy env leg r'
handle_buy env r (raise Exception.execution_disabled) = throw execution_disabled
handle_buy env r (raise e) =
    if is_some r.buy_order
    then to_review env (Note.buy_error_after_submission e) r
    else fail_record env TransferState.failed (Note.buy_error e) r

-- the first attempt of a buy
unfoldable pub first_buy : Environment → TransferRecord → Action TransferRecord
unfolding handle_buy fill_leg
first_buy env r w =
    let (leg, w') =
      fill_leg env r.plan.source_exchange (symbol_of env r) OrderSide.buy none
        (some (buy_cost_quote r.plan)) (some (note_buy env)) r w in
    handle_buy env r leg w'

abbrev pub buy_by : Environment → Option OrderJson → TransferRecord → Action TransferRecord
buy_by env none r = first_buy env r
buy_by env (some stored) r = resolve_existing_buy env stored r

-- `_execute_buy`
unfoldable pub execute_buy : Environment → TransferRecord → Action TransferRecord
unfolding first_buy resolve_existing_buy check_guard
execute_buy env r = check_guard env >> buy_by env r.buy_order r
