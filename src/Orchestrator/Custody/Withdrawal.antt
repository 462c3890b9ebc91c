-- ===== src/Orchestrator/Custody/Withdrawal.antt =====
-- Where `_submit_withdrawal` of app/strategies/transfer/orchestrator.py lands.
use crypto_arbitrage_bot_ref.Base.{is_some, refl, Option, none, some, Text, arith, if◌then◌else◌}
use crypto_arbitrage_bot_ref.Money.{Decimal, quantize, sub_dec}
use crypto_arbitrage_bot_ref.Networks.{RouteNetwork}
use crypto_arbitrage_bot_ref.Result.{Result, ok, raise, Exception, adapter_error, signal}
use crypto_arbitrage_bot_ref.Recovery.{Reply, reply, failure}
use crypto_arbitrage_bot_ref.Transfers.{TransferRecord, TransferState, Note, DepositAddress}
use crypto_arbitrage_bot_ref.Orchestrator.Effects.{
  Environment, save_record, audit, check_guard, ◌>>=◌, pure, lift, transfer_withdraw_submitted,
}
use crypto_arbitrage_bot_ref.Orchestrator.Landing.{
  Landed, Lands, fail_record-Lands, raise_ne_ok, Landed-same, same_record, Ensures-after,
}
use crypto_arbitrage_bot_ref.Orchestrator.Withdraw.{
  with_intent, send, after_send, send_withdrawal, check_address, check_route, submit_withdrawal,
  route_now, with_withdrawal, debit_source,
}
use crypto_arbitrage_bot_ref.Orchestrator.Custody.{
  MayLand, withdraw_ends, audited-Lands, renewed-MayLand,
}

after_send-Lands :
    (env : Environment) (r : TransferRecord) (sent : Result (Option Text))
    → Lands withdraw_ends r (after_send env r sent)
unfolding after_send
after_send-Lands env r (ok txid) w r' h =
    let q = with_withdrawal env txid r in
    Ensures-after same_record (Landed withdraw_ends r) (debit_source env r)
      (λ _. save_record q >>= λ _. audit transfer_withdraw_submitted r.id >>= λ _. pure q)
      (λ _. audited-Lands withdraw_ends transfer_withdraw_submitted r q refl (refl, refl)) w r' h
after_send-Lands env r (raise Exception.execution_disabled) w r' h = absurd (raise_ne_ok h)
after_send-Lands env r (raise e) w r' h = ground (
  arith,
  fail_record-Lands withdraw_ends env TransferState.manual_review (Note.withdrawal_failed e) r refl
      w r',
)

send_withdrawal-Lands :
    (env : Environment) (a : DepositAddress) (amount : Decimal) (r : TransferRecord)
    → Lands withdraw_ends r (send_withdrawal env a amount r)
unfolding send_withdrawal
send_withdrawal-Lands env a amount r =
    Ensures-after same_record (Landed withdraw_ends r) (lift (signal (quantize 8 amount)))
      (λ x.
        let q = with_intent env a x r in
        save_record q >>= λ _ w.
        after_send env q (send env a amount q w).0 (send env a amount q w).1)
      (λ x w r' h.
        let q = with_intent env a x r in
        let w' = (send env a amount q (save_record q w).1) in
        Landed-same withdraw_ends r q r' _ (refl, refl) (after_send-Lands env q w'.0 w'.1 r' h))

check_address-Lands :
    (env : Environment) (route : RouteNetwork) (r : TransferRecord) (a : Reply DepositAddress)
    → Lands withdraw_ends r (check_address env route r a)
unfolding check_address
check_address-Lands env route r (failure e) w r' h =
    fail_record-Lands withdraw_ends env TransferState.manual_review
      (Note.address_unavailable (adapter_error e)) r refl w r' h
check_address-Lands env route r (reply a) w r' h = ground (
  arith,
  fail_record-Lands withdraw_ends env TransferState.manual_review Note.memo_missing r refl w r',
  fail_record-Lands withdraw_ends env TransferState.manual_review Note.fee_not_covered r refl w r',
  send_withdrawal-Lands env a (sub_dec r.buy_filled_amount route.withdrawal_fee) r w r',
)

check_route-Lands :
    (env : Environment) (r : TransferRecord) (route : Result RouteNetwork)
    → Lands withdraw_ends r (check_route env r route)
unfolding check_route
check_route-Lands env r (raise Exception.network_mismatch) w r' h =
    fail_record-Lands withdraw_ends env TransferState.manual_review Note.network_failed r refl w r'
      h
check_route-Lands env r (raise e) w r' h = ground arith
check_route-Lands env r (ok route) w r' h = ground (
  arith,
  fail_record-Lands withdraw_ends env TransferState.manual_review Note.planned_network_gone r refl w
      r',
  check_address-Lands env route r
      (env.fetch_deposit_address r.plan.dest_exchange r.plan.asset r.plan.network) w r',
)

pub submit_withdrawal-MayLand :
    (env : Environment) (r : TransferRecord) → MayLand withdraw_ends r (submit_withdrawal env r)
unfolding submit_withdrawal
submit_withdrawal-MayLand env r =
    Ensures-after some (Landed withdraw_ends r) (check_guard env)
      (λ _.
        if is_some r.withdrawal_id
        then pure none
        else (check_route env r (route_now env r.plan) >>= (λ q. pure (some q))))
      (λ _ w r' h. ground (
        arith,
        renewed-MayLand withdraw_ends r (check_route env r (route_now env r.plan))
            (check_route-Lands env r (route_now env r.plan)) w r',
      ))
