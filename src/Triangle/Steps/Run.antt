-- ===== src/Triangle/Steps/Run.antt =====
-- The steps of a whole run of app/strategies/triangular/executor.py.
use crypto_arbitrage_bot_ref.Base.{
  ℕ, ◌+◌, ◌≡◌, refl, true, Option, none, some, List, Text, text, find, arith,
}
use crypto_arbitrage_bot_ref.Money.{Decimal, dec0, le_dec, sub_dec, quantize}
use crypto_arbitrage_bot_ref.Orders.{OrderSide, Symbol, outcome_unconfirmed}
use crypto_arbitrage_bot_ref.Guard.{TradingMode}
use crypto_arbitrage_bot_ref.Result.{Result, ok, raise, signal}
use crypto_arbitrage_bot_ref.Fills.{SimulatedFill, Size, base_size, quote_size}
use crypto_arbitrage_bot_ref.Trades.{
  TradeRecord, TradeStatus, FailedLeg, second_leg, third_leg, with_error, preview_failed,
}
use crypto_arbitrage_bot_ref.Wallet.{debit}
use crypto_arbitrage_bot_ref.Triangle.Effects.{
  TriangleExecutor, Answers, World, Action, triangle_execute_started, triangle_execute_finished,
}
use crypto_arbitrage_bot_ref.Triangle.Inventory.{absorb_order}
use crypto_arbitrage_bot_ref.Triangle.Legs.{Leg, notifier, fill_leg}
use crypto_arbitrage_bot_ref.Opportunity.{ArbitrageLeg, ArbitrageOpportunity}
use crypto_arbitrage_bot_ref.Triangle.Preview.{
  leg_at, cross_size, held_y, preview_cycle, below_floor, check_capital, check_capital_in,
}
use crypto_arbitrage_bot_ref.Triangle.Accounts.{completed_trade, total_fees, settle_unwind}
use crypto_arbitrage_bot_ref.Triangle.Unwind.{or_review, unwound, fail_with_unwind}
use crypto_arbitrage_bot_ref.Triangle.Cycle.{
  Course, fill_of, unconfirmed, run_leg, slippage_of, fees_of_two, finish_cycle, third_leg_of,
  after_second, second_leg_of, after_first, first_leg_of, after_preview, run_cycle, with_slippage,
  with_spend, failed_first, abandoned,
}
use crypto_arbitrage_bot_ref.Triangle.Execute.{
  opened_trade, rescued, close_trade, run_and_close, execute,
}
use crypto_arbitrage_bot_ref.Triangle.Steps.{
  all_settled, absorb_order_settled, may_place, RespectsSteps, Does, lift-Does, bind-Does,
  then-Does, if_Does, pure-Does, relax-Does, save-Does, audit-Does, on_wallet_does, fill_leg-Does,
}

module _ (R : ℕ → World → World → Type 0) (steps : RespectsSteps R) (ex : TriangleExecutor) where
  unwound-Does :
      (a : Answers) (leg : FailedLeg) (fees spend : Decimal) (t : TradeRecord) (r : Result Leg)
      → Does R 0 (unwound a leg fees spend t r)
  unfolding unwound
  unwound-Does a leg fees spend t (raise e) = pure-Does R steps _
  unwound-Does a leg fees spend t (ok l) =
      let t' = absorb_order a.now l.1 t in
      then-Does R steps 0 _ _ (save-Does R steps t')
        (λ _. pure-Does R steps (or_review a.now leg t' (settle_unwind a.now leg fees spend l t')))

  fail_with_unwind-Does :
      (a : Answers) (venue : Text) (s : Symbol) (amount : Decimal) (leg : FailedLeg)
      (fees spend : Decimal) (t : TradeRecord)
      → all_settled t.orders ≡ true
      → Does R (may_place ex a) (fail_with_unwind ex a venue s amount leg fees spend t)
  unfolding fail_with_unwind
  fail_with_unwind-Does a venue s amount leg fees spend t h = record {
    does = λ w.
        let l = fill_leg ex a venue s OrderSide.sell (base_size amount) (notifier a t) w in
        let d = fill_leg-Does R steps ex a venue s OrderSide.sell (base_size amount) t h in
        steps.relaxes (may_place ex a + 0) (may_place ex a) w _ (omega arith) (
          steps.follows (may_place ex a) 0 w l.1 _ (d.does w)
            ((unwound-Does a leg fees spend t l.0).does l.1));
  }

  check_capital_in-Does :
      (mode : TradingMode) (a : Answers) (venue : Text) (spend : Decimal)
      → Does R 0 (check_capital_in mode ex a venue spend)
  check_capital_in-Does TradingMode.paper a venue spend = record {
    does = λ w. on_wallet_does R steps venue (debit (text "USDT") spend) w (find venue w.wallets);
  }
  check_capital_in-Does TradingMode.demo a venue spend = record { does = steps.stays }
  check_capital_in-Does TradingMode.live a venue spend = record { does = steps.stays }

  check_capital-Does :
      (a : Answers) (venue : Text) (spend : Decimal) → Does R 0 (check_capital ex a venue spend)
  unfolding check_capital
  check_capital-Does a venue spend = check_capital_in-Does ex.mode a venue spend

  module _ (n : ℕ) where
    -- what follows a leg, for a trade that is settled
    abbrev DoesAll : (Option SimulatedFill → TradeRecord → Action TradeRecord) → Type 0
    DoesAll next =
        (f : Option SimulatedFill) (t : TradeRecord)
        → all_settled t.orders ≡ true
        → Does R n (next f t)

    run_leg-Does :
        (a : Answers) (k : ℕ) (s : Symbol) (side : OrderSide) (size : Size)
        (next : Option SimulatedFill → TradeRecord → Action TradeRecord) (t : TradeRecord)
        → DoesAll next
        → all_settled t.orders ≡ true
        → Does R (may_place ex a + n) (run_leg ex a k s side size next t)
    unfolding run_leg
    run_leg-Does a k s side size next t h i =
        bind-Does R steps n _ (may_place ex a) _
          (fill_leg-Does R steps ex a t.exchange_id s side size t i)
          (λ l.
            let t' = absorb_order a.now l.1 t in
            then-Does R steps n _ _ (save-Does R steps t') (λ _.
              if_Does R steps n (outcome_unconfirmed l.1)
                (λ _.
                  relax-Does R steps 0 n _ (omega arith)
                    (pure-Does R steps (unconfirmed a.now k l.1 t')))
                (λ e.
                  lift-Does R steps n _ (fill_of l)
                    (λ f _. h f t' (absorb_order_settled a.now l.1 t e i)))))

  module _ (c : Course) where
    finish_cycle_does :
        (f1 f2 : SimulatedFill) (s : Symbol) (held : Decimal)
        → DoesAll (may_place ex (c 4)) (finish_cycle ex c f1 f2 s held)
    unfolding finish_cycle
    finish_cycle_does f1 f2 s held none t h =
        fail_with_unwind-Does (c 4) t.exchange_id s held third_leg (fees_of_two f1 f2)
          f1.quote_amount t h
    finish_cycle_does f1 f2 s held (some f3) t h =
        let n = may_place ex (c 4) in
        let sold =
          fail_with_unwind-Does (c 4) t.exchange_id s held third_leg (fees_of_two f1 f2)
            f1.quote_amount t h in
        if_Does R steps n (le_dec f3.filled_amount dec0) (λ _. sold)
          (λ _.
            if_Does R steps n (le_dec f3.quote_amount dec0) (λ _. sold)
              (λ _. lift-Does R steps n _ (signal (quantize 4 (slippage_of f1 f2 f3))) (λ slip _.
                lift-Does R steps n _
                  (completed_trade (c 3).now f1.quote_amount f3.quote_amount (total_fees f1 f2 f3)
                    t)
                  (λ done _.
                    relax-Does R steps 0 n _ (omega arith)
                      (pure-Does R steps (with_slippage slip done))))))

    abbrev last_legs : ℕ
    last_legs = may_place ex (c 3) + may_place ex (c 4)

    after_second_does :
        (legs : List ArbitrageLeg) (f1 : SimulatedFill) (s : Symbol) (side : OrderSide)
        → DoesAll last_legs (after_second ex c legs f1 s side)
    unfolding after_second third_leg_of
    after_second_does legs f1 s side none t h =
        relax-Does R steps (may_place ex (c 4)) last_legs _ (omega arith) (
          fail_with_unwind-Does (c 4) t.exchange_id s f1.filled_amount second_leg f1.fee
            f1.quote_amount t h)
    after_second_does legs f1 s side (some f2) t h =
        if_Does R steps last_legs (le_dec f2.filled_amount dec0)
          (λ _. relax-Does R steps (may_place ex (c 4)) last_legs _ (omega arith) (
            fail_with_unwind-Does (c 4) t.exchange_id s f1.filled_amount second_leg f1.fee
              f1.quote_amount t h))
          (λ _. lift-Does R steps last_legs _ (leg_at 2 legs) (λ leg3 _.
            run_leg-Does (may_place ex (c 4)) (c 3) 3 leg3.symbol OrderSide.sell
              (base_size (held_y side f2)) (finish_cycle ex c f1 f2 leg3.symbol (held_y side f2)) t
              (finish_cycle_does f1 f2 leg3.symbol (held_y side f2)) h))

    abbrev later_legs : ℕ
    later_legs = may_place ex (c 2) + last_legs

    after_first_does :
        (legs : List ArbitrageLeg) (s : Symbol) → DoesAll later_legs (after_first ex c legs s)
    unfolding after_first second_leg_of
    after_first_does legs s none t h =
        relax-Does R steps 0 later_legs _ (omega arith)
          (pure-Does R steps (failed_first (c 1).now t))
    after_first_does legs s (some f1) t h =
        if_Does R steps later_legs (le_dec f1.filled_amount dec0)
          (λ _.
            relax-Does R steps 0 later_legs _ (omega arith)
              (pure-Does R steps (failed_first (c 1).now t)))
          (λ _. lift-Does R steps later_legs _ (leg_at 1 legs) (λ leg2 _.
            run_leg-Does last_legs (c 2) 2 leg2.symbol leg2.side
              (cross_size leg2.side f1.filled_amount) (after_second ex c legs f1 s leg2.side)
              (with_spend f1.quote_amount t) (after_second_does legs f1 s leg2.side) h))

    -- the orders that the legs of a run may place
    abbrev pub all_legs : ℕ
    all_legs = may_place ex (c 1) + later_legs

    after_preview-Does :
        (legs : List ArbitrageLeg) (spend : Decimal) (t : TradeRecord) (p : Option Decimal)
        → all_settled t.orders ≡ true
        → Does R all_legs (after_preview ex c legs spend t p)
    unfolding after_preview first_leg_of
    after_preview-Does legs spend t none h =
        relax-Does R steps 0 all_legs _ (omega arith)
          (pure-Does R steps (with_error (c 0).now TradeStatus.failed preview_failed t))
    after_preview-Does legs spend t (some p) h =
        lift-Does R steps all_legs _ (below_floor ex spend (sub_dec p spend)) (λ low _.
          if_Does R steps all_legs low
            (λ _.
              relax-Does R steps 0 all_legs _ (omega arith)
                (pure-Does R steps (abandoned ex (c 0) (sub_dec p spend) t)))
            (λ _.
              then-Does R steps all_legs _ _ (check_capital-Does (c 0) t.exchange_id spend) (λ _.
                lift-Does R steps all_legs _ (leg_at 0 legs) (λ leg1 _.
                  run_leg-Does later_legs (c 1) 1 leg1.symbol OrderSide.buy (quote_size spend)
                    (after_first ex c legs leg1.symbol) t (after_first_does legs leg1.symbol) h))))

    run_cycle-Does :
        (legs : List ArbitrageLeg) (spend : Decimal) (t : TradeRecord)
        → all_settled t.orders ≡ true
        → Does R all_legs (run_cycle ex c legs spend t)
    unfolding run_cycle
    run_cycle-Does legs spend t h =
        lift-Does R steps all_legs _ (preview_cycle ex (c 0) t.exchange_id legs spend)
          (λ p _. after_preview-Does legs spend t p h)

    close_trade-Does :
        (a : Answers) (t : TradeRecord) (r : Result TradeRecord) → Does R 0 (close_trade a t r)
    unfolding close_trade
    close_trade-Does a t r = record {
      does = λ w.
          let done = rescued a t r w in
          let event = triangle_execute_finished done.id done.status in
          (then-Does R steps 0 _ _ (save-Does R steps done) (λ _.
              then-Does R steps 0 _ _ (audit-Does R steps event)
                (λ _. pure-Does R steps done))).does
            w;
    }

    run_and_close-Does :
        (legs : List ArbitrageLeg) (spend : Decimal) (t : TradeRecord)
        → all_settled t.orders ≡ true
        → Does R all_legs (run_and_close ex c legs spend t)
    unfolding run_and_close
    run_and_close-Does legs spend t h = record {
      does = λ w.
          let ran = run_cycle ex c legs spend t w in
          steps.relaxes (all_legs + 0) all_legs w _ (omega arith) (
            steps.follows all_legs 0 w ran.1 _ ((run_cycle-Does legs spend t h).does w)
              ((close_trade-Does (c 5) t ran.0).does ran.1));
    }

    -- a run of `execute`, from a new trade without orders
    pub execute-Does : (id : Text) (o : ArbitrageOpportunity) → Does R all_legs (execute ex c id o)
    unfolding execute opened_trade all_settled
    execute-Does id o =
        let t = opened_trade ex (c 0).now id o in
        then-Does R steps all_legs _ _ (save-Does R steps t) (λ _.
          then-Does R steps all_legs _ _ (audit-Does R steps (triangle_execute_started t.id))
            (λ _. run_and_close-Does o.legs_route o.size_notional_quote t refl))
