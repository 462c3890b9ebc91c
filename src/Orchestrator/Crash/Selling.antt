-- ===== src/Orchestrator/Crash/Selling.antt =====
-- The sell and the end of a transfer in app/strategies/transfer/orchestrator.py save no row that
-- writes coins off.
use crypto_arbitrage_bot_ref.Base.{refl, Option, none, some, Text, arith}
use crypto_arbitrage_bot_ref.Money.{Decimal, quantize, le_dec, dec0, sub_dec}
use crypto_arbitrage_bot_ref.Fills.{OrderBook, SimulatedFill, simulate, is_rejected}
use crypto_arbitrage_bot_ref.Orders.{OrderSide, Symbol, outcome_unconfirmed}
use crypto_arbitrage_bot_ref.Result.{Result, ok, raise, Exception, signal}
use crypto_arbitrage_bot_ref.Transfers.{TransferRecord, Note}
use crypto_arbitrage_bot_ref.Orchestrator.Effects.{
  Environment, transfer_completed, credit_wallet, pure, ◌>>=◌,
}
use crypto_arbitrage_bot_ref.Orchestrator.Legs.{
  Leg, fresh_book, apply_wallet, paper_leg, venue_leg, venue_amount, on_paper, keep, fill_leg,
}
use crypto_arbitrage_bot_ref.Orchestrator.Buy.{symbol_of}
use crypto_arbitrage_bot_ref.Orchestrator.Sell.{
  settle_wallet, fees_of, buy_cost, completed_record, complete, finish, proceeds_of, with_sell,
  rounded_proceeds, leg_proceeds, settle_sell, handle_sell, top_up, place_sell, execute_sell,
}
use crypto_arbitrage_bot_ref.Orchestrator.Crash.{
  held, KeepsHeld, bind_keeps, if_keeps, pure_keeps, throw_keeps, lift_keeps, save-keeps,
  audit-pure-keeps, review-keeps, check_guard-keeps, credit_wallet-keeps, debit_wallet-keeps,
}

apply_wallet-keeps :
    (venue : Text) (side : OrderSide) (s : Symbol) (f : SimulatedFill)
    → KeepsHeld (apply_wallet venue side s f)
unfolding apply_wallet
apply_wallet-keeps venue OrderSide.buy s f =
    bind_keeps (debit_wallet-keeps venue s.quote f.quote_amount)
      (λ _. credit_wallet-keeps venue s.base f.filled_amount)
apply_wallet-keeps venue OrderSide.sell s f =
    bind_keeps (debit_wallet-keeps venue s.base f.filled_amount)
      (λ _. credit_wallet-keeps venue s.quote f.quote_amount)

paper_leg-keeps :
    (env : Environment) (book : OrderBook) (venue : Text) (s : Symbol) (side : OrderSide)
    (base quote : Option Decimal)
    → KeepsHeld (paper_leg env book venue s side base quote)
unfolding paper_leg
paper_leg-keeps env book venue s side base quote =
    bind_keeps (lift_keeps (simulate env.simulator book side base quote)) (λ f.
      if_keeps (is_rejected f) pure_keeps
        (bind_keeps (apply_wallet-keeps venue side s f) (λ _. pure_keeps)))

-- a sell notes nothing before its order
venue_leg-keeps :
    (env : Environment) (book : OrderBook) (venue : Text) (s : Symbol) (side : OrderSide)
    (base quote : Option Decimal) (r : TransferRecord)
    → KeepsHeld (venue_leg env book venue s side base quote none r)
unfolding venue_leg held
venue_leg-keeps env book venue s side base quote r =
    bind_keeps (lift_keeps (venue_amount book base quote)) (λ amount. record { keeps = λ w h. h })

fill_leg-keeps :
    (env : Environment) (venue : Text) (s : Symbol) (side : OrderSide) (base quote : Option Decimal)
    (r : TransferRecord)
    → KeepsHeld (fill_leg env venue s side base quote none r)
unfolding fill_leg
fill_leg-keeps env venue s side base quote r = record {
  keeps = λ w h.
      let paper : (book : OrderBook)
          → KeepsHeld (paper_leg env book venue s side base quote >>= (λ l. pure (keep r l))) =
        λ book. bind_keeps (paper_leg-keeps env book venue s side base quote) (λ _. pure_keeps) in
      let whole = bind_keeps (lift_keeps (fresh_book env venue s)) (λ book.
        if_keeps (on_paper env w venue side) (paper book)
          (venue_leg-keeps env book venue s side base quote r)) in
      whole.keeps w h;
}

settle_wallet-keeps :
    (env : Environment) (p : Decimal) (r : TransferRecord) → KeepsHeld (settle_wallet env p r)
unfolding settle_wallet
settle_wallet-keeps env p r = record {
  keeps = λ w h.
      let both =
        bind_keeps (debit_wallet-keeps r.plan.dest_exchange r.plan.asset r.sell_filled_amount)
          (λ _. credit_wallet-keeps r.plan.dest_exchange env.base_currency p) in
      ground (arith, both.keeps w h);
}

complete-keeps :
    (env : Environment) (p : Decimal) (r : TransferRecord) → KeepsHeld (complete env p r)
unfolding complete
complete-keeps env p r = bind_keeps (settle_wallet-keeps env p r) (λ _.
    bind_keeps (lift_keeps (fees_of r)) (λ fees.
      bind_keeps (lift_keeps (signal (quantize 8 p))) (λ rp.
        bind_keeps (lift_keeps (signal (quantize 8 fees))) (λ rf.
          bind_keeps (lift_keeps (signal (quantize 8 (sub_dec p (buy_cost r))))) (λ realized.
            let q = completed_record env rp rf realized r in
            audit-pure-keeps q transfer_completed r.id q refl)))))

pub finish-keeps : (env : Environment) (r : TransferRecord) → KeepsHeld (finish env r)
unfolding finish
finish-keeps env r =
    if_keeps (le_dec (proceeds_of r) dec0) (review-keeps env _ r)
      (complete-keeps env (proceeds_of r) r)

settle_sell-keeps :
    (env : Environment) (r : TransferRecord) (leg : Leg) → KeepsHeld (settle_sell env r leg)
unfolding settle_sell
settle_sell-keeps env r leg =
    bind_keeps (lift_keeps (rounded_proceeds (leg_proceeds env r leg))) (λ p.
      let q = with_sell env leg.1 p r in
      bind_keeps (save-keeps q refl) (λ _.
        if_keeps (outcome_unconfirmed leg.1)
          (review-keeps env (Note.sell_unconfirmed leg.1.error) q)
          (if_keeps (le_dec leg.1.filled_amount dec0)
            (review-keeps env (Note.sell_rejected leg.1.error) q) (finish-keeps env q))))

handle_sell-keeps :
    (env : Environment) (r : TransferRecord) (leg : Result (Leg × TransferRecord))
    → KeepsHeld (handle_sell env r leg)
unfolding handle_sell
handle_sell-keeps env r (ok (l, q)) = settle_sell-keeps env r l
handle_sell-keeps env r (raise Exception.execution_disabled) = throw_keeps
handle_sell-keeps env r (raise e) = review-keeps env (Note.sell_error e) r

place_sell-keeps : (env : Environment) (r : TransferRecord) → KeepsHeld (place_sell env r)
unfolding place_sell
place_sell-keeps env r = record {
  keeps = λ w h.
      let leg =
        fill_leg env r.plan.dest_exchange (symbol_of env r) OrderSide.sell (some r.deposit_amount)
          none none r in
      let kept =
        fill_leg-keeps env r.plan.dest_exchange (symbol_of env r) OrderSide.sell
          (some r.deposit_amount) none r in
      (handle_sell-keeps env r (leg w).0).keeps (leg w).1 (kept.keeps w h);
}

top_up-keeps : (env : Environment) (r : TransferRecord) → KeepsHeld (top_up env r)
unfolding top_up credit_wallet
top_up-keeps env r = record { keeps = λ w h. ground arith }

pub execute_sell-keeps : (env : Environment) (r : TransferRecord) → KeepsHeld (execute_sell env r)
unfolding execute_sell
execute_sell-keeps env r = bind_keeps (check_guard-keeps env) (λ _.
    if_keeps (le_dec r.deposit_amount dec0) (review-keeps env Note.sell_nothing r)
      (bind_keeps (top_up-keeps env r) (λ _. place_sell-keeps env r)))
