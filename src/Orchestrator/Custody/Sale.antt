-- ===== src/Orchestrator/Custody/Sale.antt =====
-- Where `_execute_sell` and `_finish` of app/strategies/transfer/orchestrator.py land.
use crypto_arbitrage_bot_ref.Base.{refl, none, some, arith, if◌then◌else◌}
use crypto_arbitrage_bot_ref.Money.{Decimal, dec0, quantize, le_dec, sub_dec}
use crypto_arbitrage_bot_ref.Orders.{OrderSide}
use crypto_arbitrage_bot_ref.Result.{Result, ok, raise, Exception, signal}
use crypto_arbitrage_bot_ref.Transfers.{TransferRecord, TransferState, Note}
use crypto_arbitrage_bot_ref.Orchestrator.Effects.{
  to_review, Environment, save_record, check_guard, ◌>>◌, lift, transfer_completed,
}
use crypto_arbitrage_bot_ref.Orchestrator.Legs.{Leg, fill_leg}
use crypto_arbitrage_bot_ref.Orchestrator.Landing.{
  Landed, Lands, fail_record-Lands, raise_ne_ok, Landed-same, same_record, Ensures-after,
}
use crypto_arbitrage_bot_ref.Orchestrator.Buy.{symbol_of}
use crypto_arbitrage_bot_ref.Orchestrator.Sell.{
  fees_of, buy_cost, completed_record, complete, finish, settle_sell, handle_sell, place_sell,
  execute_sell, with_sell, settle_wallet, rounded_proceeds, leg_proceeds, top_up, proceeds_of,
}
use crypto_arbitrage_bot_ref.Orchestrator.Custody.{sell_ends, audited-Lands}

complete-Lands :
    (env : Environment) (p : Decimal) (r : TransferRecord) → Lands sell_ends r (complete env p r)
unfolding complete
complete-Lands env p r =
    let Q = Landed sell_ends r in
    Ensures-after same_record Q (settle_wallet env p r) _ (λ _.
      Ensures-after same_record Q (lift (fees_of r)) _ (λ fees.
        Ensures-after same_record Q (lift (signal (quantize 8 p))) _ (λ rp.
          Ensures-after same_record Q (lift (signal (quantize 8 fees))) _ (λ rf.
            Ensures-after same_record Q (lift (signal (quantize 8 (sub_dec p (buy_cost r))))) _
              (λ realized.
                audited-Lands sell_ends transfer_completed r (completed_record env rp rf realized r)
                  refl (refl, refl))))))

pub finish-Lands : (env : Environment) (r : TransferRecord) → Lands sell_ends r (finish env r)
unfolding finish
finish-Lands env r w r' h = ground (
  arith,
  complete-Lands env (proceeds_of r) r w r',
  fail_record-Lands sell_ends env TransferState.manual_review Note.no_proceeds r refl w r',
)

settle_sell-Lands :
    (env : Environment) (r : TransferRecord) (leg : Leg) → Lands sell_ends r (settle_sell env r leg)
unfolding settle_sell
settle_sell-Lands env r leg =
    Ensures-after same_record (Landed sell_ends r)
      (lift (rounded_proceeds (leg_proceeds env r leg))) _
      (λ p w r' h.
        let q = with_sell env leg.1 p r in
        let w' = (save_record q w).1 in
        Landed-same sell_ends r q r' _ (refl, refl)
          (ground (
            arith,
            fail_record-Lands sell_ends env TransferState.manual_review
                (Note.sell_unconfirmed leg.1.error) q refl w' r',
            fail_record-Lands sell_ends env TransferState.manual_review
                (Note.sell_rejected leg.1.error) q refl w' r',
            finish-Lands env q w' r',
          )))

handle_sell-Lands :
    (env : Environment) (r : TransferRecord) (leg : Result (Leg × TransferRecord))
    → Lands sell_ends r (handle_sell env r leg)
unfolding handle_sell
handle_sell-Lands env r (ok (leg, q)) w r' h = settle_sell-Lands env r leg w r' h
handle_sell-Lands env r (raise Exception.execution_disabled) w r' h = absurd (raise_ne_ok h)
handle_sell-Lands env r (raise e) w r' h = ground (
  arith,
  fail_record-Lands sell_ends env TransferState.manual_review (Note.sell_error e) r refl w r',
)

place_sell-Lands : (env : Environment) (r : TransferRecord) → Lands sell_ends r (place_sell env r)
unfolding place_sell
place_sell-Lands env r w r' h =
    let leg =
      fill_leg env r.plan.dest_exchange (symbol_of env r) OrderSide.sell (some r.deposit_amount)
        none none r w in
    handle_sell-Lands env r leg.0 leg.1 r' h

pub execute_sell-Lands :
    (env : Environment) (r : TransferRecord) → Lands sell_ends r (execute_sell env r)
unfolding execute_sell
execute_sell-Lands env r =
    Ensures-after same_record (Landed sell_ends r) (check_guard env)
      (λ _.
        if le_dec r.deposit_amount dec0
        then to_review env Note.sell_nothing r
        else top_up env r >> place_sell env r)
      (λ _ w r' h. ground (
        arith,
        fail_record-Lands sell_ends env TransferState.manual_review Note.sell_nothing r refl w r',
        Ensures-after same_record (Landed sell_ends r) (top_up env r) (λ _. place_sell env r)
            (λ _. place_sell-Lands env r) w r',
      ))
