-- ===== src/Orchestrator/Journal/Selling.antt =====
-- The sell and the end of a transfer in app/strategies/transfer/orchestrator.py keep the journal in order.
use crypto_arbitrage_bot_ref.Base.{none, some, arith}
use crypto_arbitrage_bot_ref.Money.{Decimal, quantize, le_dec, dec0, sub_dec}
use crypto_arbitrage_bot_ref.Orders.{OrderSide, outcome_unconfirmed}
use crypto_arbitrage_bot_ref.Result.{Result, ok, raise, Exception, signal}
use crypto_arbitrage_bot_ref.Transfers.{TransferRecord, TransferState, Note}
use crypto_arbitrage_bot_ref.Orchestrator.Effects.{Environment, transfer_completed, credit_wallet}
use crypto_arbitrage_bot_ref.Orchestrator.Legs.{Leg, fill_leg}
use crypto_arbitrage_bot_ref.Orchestrator.Buy.{symbol_of}
use crypto_arbitrage_bot_ref.Orchestrator.Sell.{
  settle_wallet, fees_of, buy_cost, completed_record, complete, finish, proceeds_of, with_sell,
  rounded_proceeds, leg_proceeds, settle_sell, handle_sell, top_up, place_sell, execute_sell,
}
use crypto_arbitrage_bot_ref.Orchestrator.Journal.{
  KeepsOrder, bind_keeps, if_keeps, throw_keeps, lift_keeps, save-keeps, audit-pure-keeps,
  fail_record-keeps, check_guard-keeps, credit_wallet-keeps, debit_wallet-keeps,
}
use crypto_arbitrage_bot_ref.Orchestrator.Journal.Buying.{fill_leg-keeps}

settle_wallet-keeps :
    (env : Environment) (p : Decimal) (r : TransferRecord) → KeepsOrder (settle_wallet env p r)
unfolding settle_wallet
settle_wallet-keeps env p r = record {
  keeps = λ w h.
      let both =
        bind_keeps (debit_wallet-keeps r.plan.dest_exchange r.plan.asset r.sell_filled_amount)
          (λ _. credit_wallet-keeps r.plan.dest_exchange env.base_currency p) in
      ground (arith, both.keeps w h);
}

complete-keeps :
    (env : Environment) (p : Decimal) (r : TransferRecord) → KeepsOrder (complete env p r)
unfolding complete
complete-keeps env p r = bind_keeps (settle_wallet-keeps env p r) (λ _.
    bind_keeps (lift_keeps (fees_of r)) (λ fees.
      bind_keeps (lift_keeps (signal (quantize 8 p))) (λ rp.
        bind_keeps (lift_keeps (signal (quantize 8 fees))) (λ rf.
          bind_keeps (lift_keeps (signal (quantize 8 (sub_dec p (buy_cost r))))) (λ realized.
            let q = completed_record env rp rf realized r in
            audit-pure-keeps q transfer_completed r.id q)))))

pub finish-keeps : (env : Environment) (r : TransferRecord) → KeepsOrder (finish env r)
unfolding finish
finish-keeps env r =
    if_keeps (le_dec (proceeds_of r) dec0) (fail_record-keeps env _ _ r)
      (complete-keeps env (proceeds_of r) r)

settle_sell-keeps :
    (env : Environment) (r : TransferRecord) (leg : Leg) → KeepsOrder (settle_sell env r leg)
unfolding settle_sell
settle_sell-keeps env r leg =
    bind_keeps (lift_keeps (rounded_proceeds (leg_proceeds env r leg))) (λ p.
      let q = with_sell env leg.1 p r in
      bind_keeps (save-keeps q) (λ _.
        if_keeps (outcome_unconfirmed leg.1)
          (fail_record-keeps env TransferState.manual_review (Note.sell_unconfirmed leg.1.error) q)
          (if_keeps (le_dec leg.1.filled_amount dec0)
            (fail_record-keeps env TransferState.manual_review (Note.sell_rejected leg.1.error) q)
            (finish-keeps env q))))

handle_sell-keeps :
    (env : Environment) (r : TransferRecord) (leg : Result (Leg × TransferRecord))
    → KeepsOrder (handle_sell env r leg)
unfolding handle_sell
handle_sell-keeps env r (ok (l, q)) = settle_sell-keeps env r l
handle_sell-keeps env r (raise Exception.execution_disabled) = throw_keeps
handle_sell-keeps env r (raise e) =
    fail_record-keeps env TransferState.manual_review (Note.sell_error e) r

place_sell-keeps : (env : Environment) (r : TransferRecord) → KeepsOrder (place_sell env r)
unfolding place_sell
place_sell-keeps env r = record {
  keeps = λ w h.
      let leg =
        fill_leg env r.plan.dest_exchange (symbol_of env r) OrderSide.sell (some r.deposit_amount)
          none none r in
      let kept =
        fill_leg-keeps env r.plan.dest_exchange (symbol_of env r) OrderSide.sell
          (some r.deposit_amount) none none r tt in
      (handle_sell-keeps env r (leg w).0).keeps (leg w).1 (kept.keeps w h);
}

top_up-keeps : (env : Environment) (r : TransferRecord) → KeepsOrder (top_up env r)
unfolding top_up credit_wallet
top_up-keeps env r = record { keeps = λ w h. ground arith }

pub execute_sell-keeps : (env : Environment) (r : TransferRecord) → KeepsOrder (execute_sell env r)
unfolding execute_sell
execute_sell-keeps env r = bind_keeps (check_guard-keeps env) (λ _.
    if_keeps (le_dec r.deposit_amount dec0)
      (fail_record-keeps env TransferState.manual_review Note.sell_nothing r)
      (bind_keeps (top_up-keeps env r) (λ _. place_sell-keeps env r)))
