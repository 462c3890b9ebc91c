-- ===== src/Orchestrator/Crash/Sending.antt =====
-- `_submit_withdrawal` of app/strategies/transfer/orchestrator.py saves no row that writes coins off.
use crypto_arbitrage_bot_ref.Base.{◌≡◌, refl, true, not, Option, none, some, Text, is_some, arith}
use crypto_arbitrage_bot_ref.Money.{Decimal, quantize, sub_dec}
use crypto_arbitrage_bot_ref.Networks.{RouteNetwork}
use crypto_arbitrage_bot_ref.Recovery.{Reply, reply, failure}
use crypto_arbitrage_bot_ref.Result.{Result, ok, raise, Exception, signal}
use crypto_arbitrage_bot_ref.Transfers.{TransferRecord, DepositAddress, Note}
use crypto_arbitrage_bot_ref.Orchestrator.Effects.{
  Environment, World, Action, save_record, transfer_withdraw_submitted, ◌>>=◌,
}
use crypto_arbitrage_bot_ref.Orchestrator.Withdraw.{
  matches_plan, with_intent, with_withdrawal, call_withdraw, send, debit_source, after_send,
  send_withdrawal, check_address, check_route, route_now, submit_withdrawal,
}
use crypto_arbitrage_bot_ref.Orchestrator.Crash.{
  held, KeepsHeld, bind_keeps, if_keeps, pure_keeps, throw_keeps, lift_keeps, audit-pure-keeps,
  review-keeps, check_guard-keeps, debit_wallet-keeps,
}

debit_source-keeps : (env : Environment) (r : TransferRecord) → KeepsHeld (debit_source env r)
debit_source-keeps env r = record {
  keeps = λ w h.
      let debited = debit_wallet-keeps r.plan.source_exchange r.plan.asset r.buy_filled_amount in
      ground (arith, debited.keeps w);
}

after_send-keeps :
    (env : Environment) (r : TransferRecord) (sent : Result (Option Text))
    → KeepsHeld (after_send env r sent)
unfolding after_send
after_send-keeps env r (ok txid) = bind_keeps (debit_source-keeps env r) (λ _.
    audit-pure-keeps (with_withdrawal env txid r) transfer_withdraw_submitted r.id
      (with_withdrawal env txid r) refl)
after_send-keeps env r (raise Exception.execution_disabled) = throw_keeps
after_send-keeps env r (raise e) = review-keeps env (Note.withdrawal_failed e) r

-- the call right after the intent was saved
send-held :
    (env : Environment) (a : DepositAddress) (amount rounded : Decimal) (r : TransferRecord)
    (w : World)
    → held w.log ≡ true
    → held
        (send env a amount
          (with_intent env a rounded r)
          (save_record (with_intent env a rounded r) w).1).1.log
      ≡ true
unfolding send call_withdraw save_record held
send-held env a amount rounded r w h = ground arith

send_withdrawal-keeps :
    (env : Environment) (a : DepositAddress) (amount : Decimal) (r : TransferRecord)
    → KeepsHeld (send_withdrawal env a amount r)
unfolding send_withdrawal
send_withdrawal-keeps env a amount r =
    bind_keeps (lift_keeps (signal (quantize 8 amount))) (λ rounded.
      let q = with_intent env a rounded r in
      let sent : Action TransferRecord = save_record q >>= λ _ w.
      after_send env q (send env a amount q w).0 (send env a amount q w).1 in
      let kept : KeepsHeld sent = record {
        keeps = λ w h.
            let x = send env a amount q (save_record q w).1 in
            (after_send-keeps env q x.0).keeps x.1 (send-held env a amount rounded r w h);
      } in
      kept)

check_address-keeps :
    (env : Environment) (route : RouteNetwork) (r : TransferRecord) (a : Reply DepositAddress)
    → KeepsHeld (check_address env route r a)
unfolding check_address
check_address-keeps env route r (failure e) = review-keeps env _ r
check_address-keeps env route r (reply a) =
    let amount = sub_dec r.buy_filled_amount route.withdrawal_fee in
    record {
      keeps = λ w h. ground (
        arith,
        (review-keeps env Note.memo_missing r).keeps w h,
        (review-keeps env Note.fee_not_covered r).keeps w h,
        (send_withdrawal-keeps env a amount r).keeps w h,
      );
    }

check_route-keeps :
    (env : Environment) (r : TransferRecord) (route : Result RouteNetwork)
    → KeepsHeld (check_route env r route)
unfolding check_route
check_route-keeps env r (raise Exception.network_mismatch) = review-keeps env _ r
check_route-keeps env r (raise e) = throw_keeps
check_route-keeps env r (ok route) =
    if_keeps (not (matches_plan r.plan route)) (review-keeps env _ r) (
      check_address-keeps env route r
        (env.fetch_deposit_address r.plan.dest_exchange r.plan.asset r.plan.network))

pub submit_withdrawal-keeps :
    (env : Environment) (r : TransferRecord) → KeepsHeld (submit_withdrawal env r)
unfolding submit_withdrawal
submit_withdrawal-keeps env r = bind_keeps (check_guard-keeps env) (λ _.
    if_keeps (is_some r.withdrawal_id) (pure_keeps {a = none}) (
      bind_keeps (check_route-keeps env r (route_now env r.plan)) (λ r'. pure_keeps {a = some r'})))
