-- ===== src/Orchestrator/Once.antt =====
-- What app/strategies/transfer/orchestrator.py does not do again, and what a halted guard stops.
use crypto_arbitrage_bot_ref.Base.{
  ◌≡◌, refl, ap, sym, subst, Bool, true, false, Option, none, some, List, [], ◌∷◌, is_some, arith,
  Bool-cases, inl, inr,
}
use crypto_arbitrage_bot_ref.Money.{Decimal}
use crypto_arbitrage_bot_ref.Orders.{Order}
use crypto_arbitrage_bot_ref.Guard.{ensure_can_trade}
use crypto_arbitrage_bot_ref.Recovery.{recover}
use crypto_arbitrage_bot_ref.Result.{Result, ok, raise, execution_disabled}
use crypto_arbitrage_bot_ref.Transfers.{
  TransferRecord, TransferState, OrderJson, encoded, malformed,
}
use crypto_arbitrage_bot_ref.Orchestrator.Effects.{
  Environment, World, Action, Effect, saved, submitted, withdrew, audited, OrderRequest,
  save_record, check_guard, pure, ◌>>◌, fail_record,
}
use crypto_arbitrage_bot_ref.Orchestrator.Buy.{
  bought, after_recovery, resolve_order, resolve_existing_buy, execute_buy, with_buy, buy_by,
}
use crypto_arbitrage_bot_ref.Orchestrator.Landing.{continued}
use crypto_arbitrage_bot_ref.Orchestrator.Withdraw.{unless_withdrawn, submit_withdrawal}
use crypto_arbitrage_bot_ref.Orchestrator.Sell.{sell_deposit, execute_sell}
use crypto_arbitrage_bot_ref.Orchestrator.Tick.{renewed, step_of, advance}

-- the orders of a log, the newest first
abbrev pub orders : List Effect → List OrderRequest
orders [] = []
orders (submitted q ∷ log) = q ∷ orders log
orders (withdrew q ∷ log) = orders log
orders (saved r ∷ log) = orders log
orders (audited e k ∷ log) = orders log

bought_places_nothing :
    (env : Environment) (a : Decimal) (r : TransferRecord) (w : World)
    → orders (bought env a r w).1.log ≡ orders w.log
unfolding bought save_record
bought_places_nothing env a r w = ground arith

after_recovery_places_nothing :
    (env : Environment) (o : Order) (r : TransferRecord) (w : World)
    → orders (after_recovery env o r w).1.log ≡ orders w.log
unfolding after_recovery fail_record
after_recovery_places_nothing env o r w =
    ground (arith, bought_places_nothing env o.filled_amount r w)

resolve_places_nothing :
    (env : Environment) (j : OrderJson) (r : TransferRecord) (w : World)
    → orders (resolve_existing_buy env j r w).1.log ≡ orders w.log
unfolding resolve_existing_buy resolve_order fail_record save_record
resolve_places_nothing env malformed r w = refl
resolve_places_nothing env (encoded o) r w =
    let found = recover (env.order_venue r.plan.source_exchange) o in
    ground (
      arith,
      bought_places_nothing env o.filled_amount r w,
      after_recovery_places_nothing env found (with_buy env found r)
          (save_record (with_buy env found r) w).1,
    )

noted_places_nothing :
    (env : Environment) (j : Option OrderJson) (r : TransferRecord) (w : World)
    → is_some j ≡ true
    → orders (buy_by env j r w).1.log ≡ orders w.log
noted_places_nothing env none r w h = ground arith
noted_places_nothing env (some j) r w h = resolve_places_nothing env j r w

guard_refused :
    (env : Environment) (w : World)
    → is_some (ensure_can_trade env.guard) ≡ true
    → check_guard env w ≡ (raise execution_disabled, w)
unfolding check_guard
guard_refused env w g = rw (g, check_guard) refl

-- what a step makes of the answer of the guard
abbrev guarded : {A : Type 0} → Action A → Result (Unit {0}) × World → Result A × World
guarded m x = continued (λ _. m) x.0 x.1

guard_open :
    (env : Environment) (w : World)
    → is_some (ensure_can_trade env.guard) ≡ false
    → check_guard env w ≡ (ok tt, w)
unfolding check_guard
guard_open env w g = rw (g, check_guard) refl

-- A buy whose submission was noted before is resolved, never placed again: however the record
-- got there and whatever the venue answers, the step adds no order to the log.
pub noted_buy_places_nothing :
    (env : Environment) (r : TransferRecord) (w : World)
    → is_some r.buy_order ≡ true
    → orders (execute_buy env r w).1.log ≡ orders w.log
unfolding execute_buy
noted_buy_places_nothing env r w h = elim (Bool-cases (is_some (ensure_can_trade env.guard))) [
  | inl e ↦
      subst (λ x. orders (guarded (buy_by env r.buy_order r) x).1.log ≡ orders w.log)
        (sym (guard_refused env w e)) refl
  | inr e ↦
      subst (λ x. orders (guarded (buy_by env r.buy_order r) x).1.log ≡ orders w.log)
        (sym (guard_open env w e)) (noted_places_nothing env r.buy_order r w h)
]

-- the states whose next step may place an order or withdraw
abbrev pub acts : TransferState → Bool
acts TransferState.created = true
acts TransferState.buy_submitted = true
acts TransferState.buy_filled = true
acts TransferState.deposit_detected = true
acts _ = false

refused_first :
    {A : Type 0} (env : Environment) (m : Action A) (w : World)
    → is_some (ensure_can_trade env.guard) ≡ true
    → (check_guard env >> m) w ≡ (raise execution_disabled, w)
refused_first env m w g = ap (guarded m) (guard_refused env w g)

refused_renewed :
    (env : Environment) (m : Action TransferRecord) (w : World)
    → is_some (ensure_can_trade env.guard) ≡ true
    → renewed (check_guard env >> m) w ≡ (raise execution_disabled, w)
refused_renewed env m w g =
    ap (λ (x : Result TransferRecord × World). continued (λ q. pure (some q)) x.0 x.1)
      (refused_first env m w g)

halted_step :
    (env : Environment) (s : TransferState) (r : TransferRecord) (w : World)
    → is_some (ensure_can_trade env.guard) ≡ true
    → acts s ≡ true
    → step_of s env r w ≡ (raise execution_disabled, w)
unfolding execute_buy submit_withdrawal execute_sell
halted_step env TransferState.created r w g a = refused_renewed env (buy_by env r.buy_order r) w g
halted_step env TransferState.buy_submitted r w g a =
    refused_renewed env (buy_by env r.buy_order r) w g
halted_step env TransferState.buy_filled r w g a = refused_first env (unless_withdrawn env r) w g
halted_step env TransferState.deposit_detected r w g a =
    refused_renewed env (sell_deposit env r) w g
halted_step env s r w g a = absurd (ground arith)

-- While the guard refuses to trade, a step from a state that could place an order or withdraw
-- raises, and leaves the database, the wallets and the log as they were.
pub halted_step_changes_nothing :
    (env : Environment) (r : TransferRecord) (w : World)
    → is_some (ensure_can_trade env.guard) ≡ true
    → acts r.state ≡ true
    → advance env r w ≡ (raise execution_disabled, w)
unfolding advance
halted_step_changes_nothing env r w g a = halted_step env r.state r w g a
