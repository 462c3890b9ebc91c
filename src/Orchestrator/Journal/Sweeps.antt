-- ===== src/Orchestrator/Journal/Sweeps.antt =====
-- Every step and every sweep of app/strategies/transfer/orchestrator.py keeps the journal in order.
use crypto_arbitrage_bot_ref.Base.{ℕ, ◌≡◌, true, Option, none, some, List, [], ◌∷◌, Text, arith}
use crypto_arbitrage_bot_ref.Result.{Result, ok, raise}
use crypto_arbitrage_bot_ref.Risk.{RiskAssessment}
use crypto_arbitrage_bot_ref.Transfers.{TransferRecord, TransferState, TransferPlan}
use crypto_arbitrage_bot_ref.Storage.{list_open}
use crypto_arbitrage_bot_ref.Orchestrator.Effects.{
  Environment, World, Action, transfer_started, pure, ◌>>=◌,
}
use crypto_arbitrage_bot_ref.Orchestrator.Buy.{execute_buy}
use crypto_arbitrage_bot_ref.Orchestrator.Sell.{finish, execute_sell}
use crypto_arbitrage_bot_ref.Orchestrator.Tick.{
  step_of, advance, isolate, after_error, tick_each, tick, start, new_record, claim_slot,
  check_risk, withdraw_if_bought,
}
use crypto_arbitrage_bot_ref.Orchestrator.Journal.{
  in_order, KeepsOrder, bind_keeps, pure_keeps, save-keeps, audit-keeps, check_guard-keeps,
}
use crypto_arbitrage_bot_ref.Orchestrator.Journal.Buying.{execute_buy-keeps}
use crypto_arbitrage_bot_ref.Orchestrator.Journal.Sending.{submit_withdrawal-keeps}
use crypto_arbitrage_bot_ref.Orchestrator.Journal.Waiting.{
  check_withdrawal-keeps, await_deposit-keeps,
}
use crypto_arbitrage_bot_ref.Orchestrator.Journal.Selling.{execute_sell-keeps, finish-keeps}

renewed-keeps : (m : Action TransferRecord) → KeepsOrder m → KeepsOrder (m >>= λ r. pure (some r))
renewed-keeps m k = bind_keeps k (λ r. pure_keeps {a = some r})

step_of-keeps :
    (env : Environment) (s : TransferState) (r : TransferRecord) → KeepsOrder (step_of s env r)
step_of-keeps env TransferState.created r =
    renewed-keeps (execute_buy env r) (execute_buy-keeps env r)
step_of-keeps env TransferState.buy_submitted r =
    renewed-keeps (execute_buy env r) (execute_buy-keeps env r)
step_of-keeps env TransferState.buy_filled r = submit_withdrawal-keeps env r
step_of-keeps env TransferState.withdraw_submitted r = check_withdrawal-keeps env r
step_of-keeps env TransferState.withdraw_pending r = check_withdrawal-keeps env r
step_of-keeps env TransferState.transfer_in_progress r = await_deposit-keeps env r
step_of-keeps env TransferState.deposit_detected r =
    renewed-keeps (execute_sell env r) (execute_sell-keeps env r)
step_of-keeps env TransferState.sell_submitted r = renewed-keeps (finish env r) (finish-keeps env r)
step_of-keeps env TransferState.completed r = pure_keeps
step_of-keeps env TransferState.failed r = pure_keeps
step_of-keeps env TransferState.manual_review r = pure_keeps

isolate-in_order :
    (env : Environment) (r : TransferRecord) (x : Result (Option TransferRecord)) (w : World)
    → in_order w.log ≡ true
    → in_order (isolate env r (x, w)).1.log ≡ true
unfolding isolate
isolate-in_order env r (ok updated) w h = h
isolate-in_order env r (raise e) w h = (save-keeps (after_error env r e)).keeps w h

tick_each-in_order :
    (env : TransferRecord → Environment) (rs : List TransferRecord) (w : World)
    → in_order w.log ≡ true
    → in_order (tick_each env rs w).1.log ≡ true
unfolding tick_each advance
tick_each-in_order env [] w h = h
tick_each-in_order env (r ∷ rs) w h =
    let stepped = step_of r.state (env r) r w in
    let kept =
      isolate-in_order (env r) r stepped.0 stepped.1
        ((step_of-keeps (env r) r.state r).keeps w h) in
    tick_each-in_order env rs (isolate (env r) r stepped).1 kept

-- If the log of effects has every buy order right after the saved record that names its client
-- id, and every withdrawal right after the saved record with its id and address, with a positive
-- amount and a memo where the asset needs one, then so has the log after a sweep over all open
-- transfers, whatever venues and clock answer and whichever steps raise.
pub tick_intents_first :
    (env : TransferRecord → Environment) (w : World)
    → in_order w.log ≡ true
    → in_order (tick env w).1.log ≡ true
unfolding tick
tick_intents_first env w h = tick_each-in_order env (list_open w.rows) w h

claim_slot-keeps : (max_open : ℕ) (r : TransferRecord) → KeepsOrder (claim_slot max_open r)
unfolding claim_slot in_order
claim_slot-keeps max_open r = record { keeps = λ w h. ground arith }

check_risk-keeps :
    (risk : Option (TransferPlan → RiskAssessment)) (p : TransferPlan)
    → KeepsOrder (check_risk risk p)
unfolding check_risk
check_risk-keeps none p = record { keeps = λ w h. h }
check_risk-keeps (some assess) p = record { keeps = λ w h. ground arith }

chosen-keeps :
    (r : TransferRecord) (updated : Option TransferRecord)
    → KeepsOrder {A = TransferRecord} (elim updated [ none ↦ pure r | some r' ↦ pure r' ])
chosen-keeps r none = pure_keeps
chosen-keeps r (some r') = pure_keeps

withdraw_if_bought-keeps :
    (env : Environment) (r : TransferRecord) → KeepsOrder (withdraw_if_bought env r)
withdraw_if_bought-keeps env r = record {
  keeps = λ w h.
      let sent = bind_keeps (submit_withdrawal-keeps env r) (λ updated. chosen-keeps r updated) in
      ground (arith, sent.keeps w h);
}

-- The same holds of the log after a new transfer was started.
pub start_intents_first :
    (env : Environment) (risk : Option (TransferPlan → RiskAssessment)) (max_open : ℕ) (id : Text)
    (p : TransferPlan) (w : World)
    → in_order w.log ≡ true
    → in_order (start env risk max_open id p w).1.log ≡ true
unfolding start
start_intents_first env risk max_open id p =
    let r = new_record env id p in
    let whole = bind_keeps (check_guard-keeps env) (λ _. bind_keeps (check_risk-keeps risk p) (λ _.
      bind_keeps (claim_slot-keeps max_open r) (λ _.
        bind_keeps (audit-keeps transfer_started id) (λ _.
          bind_keeps (execute_buy-keeps env r)
            (λ bought. withdraw_if_bought-keeps env bought))))) in
    whole.keeps
