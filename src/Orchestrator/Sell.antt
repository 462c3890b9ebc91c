-- ===== src/Orchestrator/Sell.antt =====
-- `_execute_sell` and `_finish` of app/strategies/transfer/orchestrator.py.
use crypto_arbitrage_bot_ref.Base.{
  false, ◌&&◌, Option, none, some, Text, text_eq, find, if◌then◌else◌,
}
use crypto_arbitrage_bot_ref.Money.{
  Decimal, dec0, le_dec, lt_dec, add_dec, sub_dec, mul_dec, quantize,
}
use crypto_arbitrage_bot_ref.Orders.{Order, OrderSide, outcome_unconfirmed}
use crypto_arbitrage_bot_ref.Guard.{TradingMode}
use crypto_arbitrage_bot_ref.Result.{Result, ok, raise, Exception, execution_disabled, signal}
use crypto_arbitrage_bot_ref.Transfers.{
  TransferRecord, TransferState, OrderJson, encoded, Note, buy_cost_quote, fee_of,
}
use crypto_arbitrage_bot_ref.Wallet.{PaperWallet, free}
use crypto_arbitrage_bot_ref.Orchestrator.Effects.{
  Environment, Action, pure, throw, lift, ◌>>=◌, ◌>>◌, save_record, check_guard, fail_record,
  to_review, move, audit, credit_wallet, debit_wallet, transfer_completed,
}
use crypto_arbitrage_bot_ref.Orchestrator.Legs.{Leg, fill_leg}
use crypto_arbitrage_bot_ref.Orchestrator.Buy.{symbol_of}

-- `order.get("average_price")` of a stored order
abbrev average_of : Option OrderJson → Option Decimal
average_of (some (encoded o)) = o.average_price
average_of _ = none

-- the proceeds of a record, or what its sell order's average price gives
unfoldable pub proceeds_of : TransferRecord → Decimal
proceeds_of r =
    if le_dec r.sell_proceeds dec0 && lt_dec dec0 r.sell_filled_amount
    then elim (average_of r.sell_order) [
      | none ↦ r.sell_proceeds
      | some average ↦ mul_dec r.sell_filled_amount average
    ]
    else r.sell_proceeds

-- the average price if it is positive, and else the other one
abbrev positive_or : Option Decimal → Decimal → Decimal
positive_or none d = d
positive_or (some a) d = if lt_dec dec0 a then a else d

-- the actual cost of the buy
unfoldable pub buy_cost : TransferRecord → Decimal
buy_cost r = elim (average_of r.buy_order) [
  | none ↦ buy_cost_quote r.plan
  | some a ↦ if lt_dec dec0 a then mul_dec r.buy_filled_amount a else buy_cost_quote r.plan
]

abbrev sum_fees : Option Decimal → Option Decimal → Decimal → Result Decimal
sum_fees (some a) (some b) c = ok (add_dec (add_dec a b) c)
sum_fees _ _ c = signal none

-- the fees of both legs and of the withdrawal
unfoldable pub fees_of : TransferRecord → Result Decimal
fees_of r =
    let buy_avg = positive_or (average_of r.buy_order) r.plan.buy_price in
    let sell_avg = positive_or (average_of r.sell_order) r.plan.sell_price in
    sum_fees (fee_of (mul_dec r.buy_filled_amount buy_avg) r.plan.buy_fee_bps)
      (fee_of (mul_dec r.sell_filled_amount sell_avg) r.plan.sell_fee_bps)
      (mul_dec r.plan.withdrawal_fee sell_avg)

-- the paper wallet of the destination once more, in PAPER
unfoldable pub settle_wallet : Environment → Decimal → TransferRecord → Action (Unit {0})
unfolding credit_wallet debit_wallet
settle_wallet env proceeds r = elim env.mode [
  | TradingMode.paper ↦
      (debit_wallet r.plan.dest_exchange r.plan.asset r.sell_filled_amount
        >> credit_wallet r.plan.dest_exchange env.base_currency proceeds)
  | _ ↦ pure tt
]

-- the completed record
abbrev pub completed_record :
    Environment → Decimal → Decimal → Decimal → TransferRecord → TransferRecord
completed_record env proceeds fees realized r =
    let moved = move env TransferState.completed r in
    record moved { sell_proceeds = proceeds; fees_quote = fees; realized_profit_quote = realized }

-- the profit of a finished transfer, saved
unfoldable pub complete : Environment → Decimal → TransferRecord → Action TransferRecord
unfolding settle_wallet fees_of buy_cost save_record audit
complete env proceeds r = do
  settle_wallet env proceeds r
  fees ← lift (fees_of r)
  rounded_proceeds ← lift (signal (quantize 8 proceeds))
  rounded_fees ← lift (signal (quantize 8 fees))
  realized ← lift (signal (quantize 8 (sub_dec proceeds (buy_cost r))))
  let r' = completed_record env rounded_proceeds rounded_fees realized r
  save_record r'
  audit transfer_completed r.id
  pure r'

-- `_finish`
unfoldable pub finish : Environment → TransferRecord → Action TransferRecord
unfolding proceeds_of complete fail_record
finish env r =
    if le_dec (proceeds_of r) dec0
    then to_review env Note.no_proceeds r
    else complete env (proceeds_of r) r

-- the quote that a sell leg brought
unfoldable pub leg_proceeds : Environment → TransferRecord → Leg → Decimal
leg_proceeds env r (some f, o) = f.quote_amount
leg_proceeds env r (none, o) = elim o.average_price [
  | none ↦ dec0
  | some p ↦
      let gross = mul_dec o.filled_amount p in
      if elim o.fee_currency [ none ↦ false | some c ↦ text_eq c (symbol_of env r).quote ]
      then sub_dec gross o.fee_paid
      else gross
]

-- `record.with_state(SELL_SUBMITTED, ...)`
abbrev pub with_sell : Environment → Order → Decimal → TransferRecord → TransferRecord
with_sell env o proceeds r =
    let moved = move env TransferState.sell_submitted r in
    record moved {
      sell_order = some (encoded o);
      sell_filled_amount = o.filled_amount;
      sell_proceeds = proceeds;
    }

abbrev pub rounded_proceeds : Decimal → Result Decimal
rounded_proceeds p = if lt_dec dec0 p then signal (quantize 8 p) else ok dec0

-- the outcome of a sell leg, saved and classified
unfoldable pub settle_sell : Environment → TransferRecord → Leg → Action TransferRecord
unfolding leg_proceeds save_record finish fail_record
settle_sell env r leg = do
  p ← lift (rounded_proceeds (leg_proceeds env r leg))
  let r' = with_sell env leg.1 p r
  save_record r'
  (if outcome_unconfirmed leg.1
      then to_review env (Note.sell_unconfirmed leg.1.error) r'
      else if le_dec leg.1.filled_amount dec0
      then to_review env (Note.sell_rejected leg.1.error) r'
      else finish env r')

-- the handlers around `_fill`
unfoldable pub handle_sell :
    Environment → TransferRecord → Result (Leg × TransferRecord) → Action TransferRecord
unfolding settle_sell fail_record
handle_sell env r (ok (leg, _)) = settle_sell env r leg
handle_sell env r (raise Exception.execution_disabled) = throw execution_disabled
handle_sell env r (raise e) = to_review env (Note.sell_error e) r

abbrev shortage : Text → Decimal → PaperWallet → Decimal
shortage asset amount wallet = sub_dec amount (free asset wallet)

-- in DEMO the destination wallet holds at least the deposit before the simulated sell
unfoldable pub top_up : Environment → TransferRecord → Action (Unit {0})
unfolding credit_wallet
top_up env r w = elim env.mode [
  | TradingMode.demo ↦ elim (find r.plan.dest_exchange w.wallets) [
    | none ↦ (ok tt, w)
    | some wallet ↦
        if lt_dec (free r.plan.asset wallet) r.deposit_amount
        then credit_wallet r.plan.dest_exchange r.plan.asset
            (shortage r.plan.asset r.deposit_amount wallet) w
        else (ok tt, w)
  ]
  | _ ↦ (ok tt, w)
]

-- the sell order and what follows; no intent is noted before it
unfoldable pub place_sell : Environment → TransferRecord → Action TransferRecord
unfolding fill_leg handle_sell
place_sell env r w =
    let (leg, w') =
      fill_leg env r.plan.dest_exchange (symbol_of env r) OrderSide.sell (some r.deposit_amount)
        none none r w in
    handle_sell env r leg w'

-- `_execute_sell` behind the guard
abbrev pub sell_deposit : Environment → TransferRecord → Action TransferRecord
sell_deposit env r =
    if le_dec r.deposit_amount dec0
    then to_review env Note.sell_nothing r
    else top_up env r >> place_sell env r

-- `_execute_sell`
unfoldable pub execute_sell : Environment → TransferRecord → Action TransferRecord
unfolding check_guard top_up place_sell fail_record
execute_sell env r = check_guard env >> sell_deposit env r
