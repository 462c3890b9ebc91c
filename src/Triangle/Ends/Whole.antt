-- ===== src/Triangle/Ends/Whole.antt =====
-- The legs of a cycle of app/strategies/triangular/executor.py, and `execute` as a whole.
use crypto_arbitrage_bot_ref.Base.{
  ℕ, ◌≡◌, refl, true, Option, none, some, List, [], ◌∷◌, Text, arith, subst, inl, inr, Option-cases,
}
use crypto_arbitrage_bot_ref.Money.{Decimal, dec0, le_dec, sub_dec, quantize}
use crypto_arbitrage_bot_ref.Orders.{OrderSide, Symbol, outcome_unconfirmed}
use crypto_arbitrage_bot_ref.Result.{Result, ok, raise, Exception, signal}
use crypto_arbitrage_bot_ref.Fills.{SimulatedFill, Size, base_size, quote_size}
use crypto_arbitrage_bot_ref.Trades.{
  TradeRecord, TradeStatus, second_leg, third_leg, is_terminal, get, with_error, preview_failed,
  save,
}
use crypto_arbitrage_bot_ref.Trades.Rows.{get-save_self, get_id}
use crypto_arbitrage_bot_ref.Triangle.Effects.{
  TriangleExecutor, Answers, World, Action, ◌>>◌, save_trade, audit, triangle_execute_started,
}
use crypto_arbitrage_bot_ref.Triangle.Inventory.{absorb_order, held_inventory}
use crypto_arbitrage_bot_ref.Triangle.Legs.{notifier, fill_leg}
use crypto_arbitrage_bot_ref.Opportunity.{ArbitrageLeg, ArbitrageOpportunity}
use crypto_arbitrage_bot_ref.Triangle.Preview.{
  leg_at, cross_size, held_y, preview_cycle, below_floor, check_capital,
}
use crypto_arbitrage_bot_ref.Triangle.Accounts.{completed_trade, total_fees}
use crypto_arbitrage_bot_ref.Triangle.Cycle.{
  Course, fill_of, unconfirmed, run_leg, slippage_of, fees_of_two, finish_cycle, third_leg_of,
  after_second, second_leg_of, after_first, first_leg_of, after_preview, run_cycle, with_slippage,
  with_spend, failed_first, abandoned,
}
use crypto_arbitrage_bot_ref.Triangle.Execute.{
  interrupted_by, interrupted, persisted_or_local, opened_trade, rescued, close_trade,
  run_and_close, execute,
}
use crypto_arbitrage_bot_ref.Triangle.Ends.{
  Ended, Ends, bind-Ends, lift-Ends, if_Ends, pure-Ends, completed_trade-Ended,
  fail_with_unwind-Ends,
}

module _ (k : Text) (ex : TriangleExecutor) (c : Course) where
  -- what follows a leg, whatever it filled
  abbrev EndsAll : (Option SimulatedFill → TradeRecord → Action TradeRecord) → Type 0
  EndsAll next = (f : Option SimulatedFill) (t : TradeRecord) → t.id ≡ k → Ends k (next f t)

  run_leg-Ends :
      (a : Answers) (n : ℕ) (s : Symbol) (side : OrderSide) (size : Size)
      (next : Option SimulatedFill → TradeRecord → Action TradeRecord) (t : TradeRecord)
      → EndsAll next
      → t.id ≡ k
      → Ends k (run_leg ex a n s side size next t)
  unfolding run_leg absorb_order unconfirmed
  run_leg-Ends a n s side size next t h i =
      bind-Ends k _ (fill_leg ex a t.exchange_id s side size (notifier a t)) (λ l.
        let t' = absorb_order a.now l.1 t in
        bind-Ends k _ (save_trade t') (λ _.
          if_Ends k (outcome_unconfirmed l.1)
            (pure-Ends k (unconfirmed a.now n l.1 t') (record { terminal = refl; same_id = i }))
            (lift-Ends k _ (fill_of l) (λ f _. h f t' i))))

  finish_cycle_ends :
      (f1 f2 : SimulatedFill) (s : Symbol) (held : Decimal)
      → EndsAll (finish_cycle ex c f1 f2 s held)
  unfolding finish_cycle
  finish_cycle_ends f1 f2 s held none t i =
      fail_with_unwind-Ends k ex (c 4) t.exchange_id s held third_leg (fees_of_two f1 f2)
        f1.quote_amount t i
  finish_cycle_ends f1 f2 s held (some f3) t i =
      let sold =
        fail_with_unwind-Ends k ex (c 4) t.exchange_id s held third_leg (fees_of_two f1 f2)
          f1.quote_amount t i in
      let now = (c 3).now in
      if_Ends k (le_dec f3.filled_amount dec0) sold (
        if_Ends k (le_dec f3.quote_amount dec0) sold (
          lift-Ends k _ (signal (quantize 4 (slippage_of f1 f2 f3))) (λ slip _.
            lift-Ends k _
              (completed_trade now f1.quote_amount f3.quote_amount (total_fees f1 f2 f3) t)
              (λ done e.
                let d =
                  completed_trade-Ended k now f1.quote_amount f3.quote_amount (total_fees f1 f2 f3)
                    t done i e in
                pure-Ends k (with_slippage slip done)
                  (record { terminal = d.terminal; same_id = d.same_id })))))

  after_second_ends :
      (legs : List ArbitrageLeg) (f1 : SimulatedFill) (s : Symbol) (side : OrderSide)
      → EndsAll (after_second ex c legs f1 s side)
  unfolding after_second third_leg_of
  after_second_ends legs f1 s side none t i =
      fail_with_unwind-Ends k ex (c 4) t.exchange_id s f1.filled_amount second_leg f1.fee
        f1.quote_amount t i
  after_second_ends legs f1 s side (some f2) t i =
      if_Ends k (le_dec f2.filled_amount dec0)
        (fail_with_unwind-Ends k ex (c 4) t.exchange_id s f1.filled_amount second_leg f1.fee
          f1.quote_amount t i)
        (lift-Ends k _ (leg_at 2 legs) (λ leg3 _.
          run_leg-Ends (c 3) 3 leg3.symbol OrderSide.sell (base_size (held_y side f2))
            (finish_cycle ex c f1 f2 leg3.symbol (held_y side f2)) t
            (finish_cycle_ends f1 f2 leg3.symbol (held_y side f2)) i))

  after_first_ends : (legs : List ArbitrageLeg) (s : Symbol) → EndsAll (after_first ex c legs s)
  unfolding after_first second_leg_of
  after_first_ends legs s none t i =
      pure-Ends k (failed_first (c 1).now t) (record { terminal = refl; same_id = i })
  after_first_ends legs s (some f1) t i =
      if_Ends k (le_dec f1.filled_amount dec0)
        (pure-Ends k (failed_first (c 1).now t) (record { terminal = refl; same_id = i }))
        (lift-Ends k _ (leg_at 1 legs) (λ leg2 _.
          run_leg-Ends (c 2) 2 leg2.symbol leg2.side (cross_size leg2.side f1.filled_amount)
            (after_second ex c legs f1 s leg2.side) (with_spend f1.quote_amount t)
            (after_second_ends legs f1 s leg2.side) i))

  after_preview-Ends :
      (legs : List ArbitrageLeg) (spend : Decimal) (t : TradeRecord) (p : Option Decimal)
      → t.id ≡ k
      → Ends k (after_preview ex c legs spend t p)
  unfolding after_preview first_leg_of
  after_preview-Ends legs spend t none i =
      pure-Ends k (with_error (c 0).now TradeStatus.failed preview_failed t)
        (record { terminal = refl; same_id = i })
  after_preview-Ends legs spend t (some p) i =
      lift-Ends k _ (below_floor ex spend (sub_dec p spend)) (λ low _.
        if_Ends k low
          (pure-Ends k (abandoned ex (c 0) (sub_dec p spend) t)
            (record { terminal = refl; same_id = i }))
          (bind-Ends k _ (check_capital ex (c 0) t.exchange_id spend) (λ _.
            lift-Ends k _ (leg_at 0 legs) (λ leg1 _.
              run_leg-Ends (c 1) 1 leg1.symbol OrderSide.buy (quote_size spend)
                (after_first ex c legs leg1.symbol) t (after_first_ends legs leg1.symbol) i))))

  run_cycle-Ends :
      (legs : List ArbitrageLeg) (spend : Decimal) (t : TradeRecord)
      → t.id ≡ k
      → Ends k (run_cycle ex c legs spend t)
  unfolding run_cycle
  run_cycle-Ends legs spend t i =
      lift-Ends k _ (preview_cycle ex (c 0) t.exchange_id legs spend)
        (λ p _. after_preview-Ends legs spend t p i)

interrupted-Ended :
    (k : Text) (now : ℕ) (e : Exception) (t : TradeRecord)
    → t.id ≡ k
    → Ended k (interrupted now e t)
unfolding interrupted
interrupted-Ended k now e t i =
    elim (held_inventory t.orders) as (λ held. Ended k (interrupted_by now e held t)) [
      | [] ↦ record { terminal = refl; same_id = i }
      | h ∷ hs ↦ record { terminal = refl; same_id = i }
    ]

persisted_or_local_id :
    (a : Answers) (t : TradeRecord) (w : World) → (persisted_or_local a t w).id ≡ t.id
unfolding persisted_or_local
persisted_or_local_id a t w = elim (Option-cases (get t.id w.trades)) [
  | inl e ↦ ground arith
  | inr (stored, e) ↦ ground (arith, get_id t.id stored w.trades e)
]

rescued-Ended :
    (a : Answers) (t : TradeRecord) (r : Result TradeRecord) (w : World)
    → ((t' : TradeRecord) → r ≡ ok t' → Ended t.id t')
    → Ended t.id (rescued a t r w)
unfolding rescued
rescued-Ended a t (ok done) w h = h done refl
rescued-Ended a t (raise e) w h =
    interrupted-Ended t.id a.now e (persisted_or_local a t w) (persisted_or_local_id a t w)

-- what a run of `execute` comes to: a trade that is returned, has ended and is the stored row
pub record Finished (k : Text) (r : Result TradeRecord) (w : World) : Type 0 where
  pub trade : TradeRecord
  pub returned : r ≡ ok trade
  pub terminal : is_terminal trade.status ≡ true
  pub same_id : trade.id ≡ k
  pub stored : get k w.trades ≡ some trade

close_trade-Finished :
    (a : Answers) (t : TradeRecord) (r : Result TradeRecord) (w : World)
    → ((t' : TradeRecord) → r ≡ ok t' → Ended t.id t')
    → Finished t.id (close_trade a t r w).0 (close_trade a t r w).1
unfolding close_trade save_trade audit
close_trade-Finished a t r w h =
    let done = rescued a t r w in
    let d = rescued-Ended a t r w h in
    record {
      trade = done;
      returned = refl;
      terminal = d.terminal;
      same_id = d.same_id;
      stored =
          subst (λ k. get k (save done w.trades) ≡ some done) d.same_id
            (get-save_self done w.trades);
    }

-- Every run of `execute` returns a trade under the id that it was opened with; whatever the books,
-- the venue, the guard and the database answer, and whatever raises on the way, that trade is
-- completed, failed or in manual review, and it is the row that the table of trades then holds.
pub execute_finishes :
    (ex : TriangleExecutor) (c : Course) (id : Text) (o : ArbitrageOpportunity) (w : World)
    → Finished id (execute ex c id o w).0 (execute ex c id o w).1
unfolding execute run_and_close opened_trade save_trade audit
execute_finishes ex c id o w =
    let t = opened_trade ex (c 0).now id o in
    let w' = ((save_trade t >> audit (triangle_execute_started id)) w).1 in
    let cycle = run_cycle ex c o.legs_route o.size_notional_quote t w' in
    close_trade-Finished (c 5) t cycle.0 cycle.1
      (λ t' e. (run_cycle-Ends id ex c o.legs_route o.size_notional_quote t refl).ends w' t' e)
