-- ===== src/Orchestrator/Journal/Buying.antt =====
-- The order legs of app/strategies/transfer/orchestrator.py keep the journal in order: a buy
-- order follows its intent, and a sell order needs none.
use crypto_arbitrage_bot_ref.Base.{
  ◌≡◌, refl, true, Option, none, some, Text, text_eq_refl, is_some, arith,
}
use crypto_arbitrage_bot_ref.Money.{Decimal, quantize, le_dec, dec0}
use crypto_arbitrage_bot_ref.Orders.{
  Order, OrderSide, Symbol, is_confirmed_fill, confirmed_not_filled, outcome_unconfirmed,
}
use crypto_arbitrage_bot_ref.Recovery.{recover}
use crypto_arbitrage_bot_ref.Result.{Result, ok, raise, Exception, signal}
use crypto_arbitrage_bot_ref.Fills.{OrderBook, SimulatedFill, simulate, is_rejected}
use crypto_arbitrage_bot_ref.Transfers.{
  TransferRecord, TransferState, OrderJson, encoded, malformed, Note, buy_cost_quote,
}
use crypto_arbitrage_bot_ref.Orchestrator.Effects.{
  Environment, World, Action, submitted, OrderRequest, save_record, pure, ◌>>=◌, record_effect,
}
use crypto_arbitrage_bot_ref.Orchestrator.Legs.{
  Leg, Noting, fresh_book, apply_wallet, paper_leg, venue_leg, venue_amount, request_of,
  note_submission, placed_order, fill_leg, on_paper, keep,
}
use crypto_arbitrage_bot_ref.Orchestrator.Buy.{
  bought_record, bought, after_recovery, resolve_order, resolve_existing_buy, settle_buy,
  handle_buy, first_buy, execute_buy, with_buy, filled_or, note_buy, buy_by, symbol_of,
}
use crypto_arbitrage_bot_ref.Orchestrator.Journal.{
  in_order, KeepsOrder, bind_keeps, pure_keeps, lift_keeps, save-keeps, fail_record-keeps,
  check_guard-keeps, credit_wallet-keeps, debit_wallet-keeps, save-pure-keeps, if_keeps,
  throw_keeps,
}

apply_wallet-keeps :
    (venue : Text) (side : OrderSide) (s : Symbol) (f : SimulatedFill)
    → KeepsOrder (apply_wallet venue side s f)
unfolding apply_wallet
apply_wallet-keeps venue OrderSide.buy s f =
    bind_keeps (debit_wallet-keeps venue s.quote f.quote_amount)
      (λ _. credit_wallet-keeps venue s.base f.filled_amount)
apply_wallet-keeps venue OrderSide.sell s f =
    bind_keeps (debit_wallet-keeps venue s.base f.filled_amount)
      (λ _. credit_wallet-keeps venue s.quote f.quote_amount)

paper_leg-keeps :
    (env : Environment) (book : OrderBook) (venue : Text) (s : Symbol) (side : OrderSide)
    (base quote : Option Decimal)
    → KeepsOrder (paper_leg env book venue s side base quote)
unfolding paper_leg
paper_leg-keeps env book venue s side base quote =
    bind_keeps (lift_keeps (simulate env.simulator book side base quote)) (λ f.
      if_keeps (is_rejected f) pure_keeps
        (bind_keeps (apply_wallet-keeps venue side s f) (λ _. pure_keeps)))

-- the intent noted, or a side that needs none
abbrev pub Announced : Environment → OrderSide → Noting → Type 0
Announced env OrderSide.buy noting = noting ≡ some (note_buy env)
Announced env OrderSide.sell noting = Unit {0}

-- the order of a leg, placed after its noting
abbrev noted_order :
    Environment → OrderRequest → Noting → TransferRecord → Action (Leg × TransferRecord)
noted_order env q noting r = note_submission noting q r >>= λ r' w.
    (ok ((none, placed_order env q), r'), record_effect (submitted q) w)

order_noted :
    (env : Environment) (q : OrderRequest) (side : OrderSide) (noting : Noting) (r : TransferRecord)
    → q.side ≡ side
    → Announced env side noting
    → (w : World) → in_order w.log ≡ true
    → in_order (noted_order env q noting r w).1.log ≡ true
unfolding in_order save_record
order_noted env q OrderSide.buy (some noting) r e a w h =
    ground (arith, text_eq_refl q.client_order_id)
order_noted env q OrderSide.buy none r e a w h = ground arith
order_noted env q OrderSide.sell none r e a w h = rw e h
order_noted env q OrderSide.sell (some noting) r e a w h = rw e h

venue_leg-keeps :
    (env : Environment) (book : OrderBook) (venue : Text) (s : Symbol) (side : OrderSide)
    (base quote : Option Decimal) (noting : Noting) (r : TransferRecord)
    → Announced env side noting
    → KeepsOrder (venue_leg env book venue s side base quote noting r)
unfolding venue_leg
venue_leg-keeps env book venue s side base quote noting r a =
    bind_keeps (lift_keeps (venue_amount book base quote)) (λ amount.
      let q = request_of env venue s side amount in
      let noted : KeepsOrder (noted_order env q noting r) = record {
        keeps = order_noted env q side noting r refl a;
      } in
      noted)

pub fill_leg-keeps :
    (env : Environment) (venue : Text) (s : Symbol) (side : OrderSide) (base quote : Option Decimal)
    (noting : Noting) (r : TransferRecord)
    → Announced env side noting
    → KeepsOrder (fill_leg env venue s side base quote noting r)
unfolding fill_leg
fill_leg-keeps env venue s side base quote noting r a = record {
  keeps = λ w h.
      let paper : (book : OrderBook)
          → KeepsOrder (paper_leg env book venue s side base quote >>= (λ l. pure (keep r l))) =
        λ book. bind_keeps (paper_leg-keeps env book venue s side base quote) (λ _. pure_keeps) in
      let whole = bind_keeps (lift_keeps (fresh_book env venue s)) (λ book.
        if_keeps (on_paper env w venue side) (paper book)
          (venue_leg-keeps env book venue s side base quote noting r a)) in
      whole.keeps w h;
}

bought-keeps :
    (env : Environment) (amount : Decimal) (r : TransferRecord) → KeepsOrder (bought env amount r)
unfolding bought
bought-keeps env amount r =
    bind_keeps (lift_keeps (signal (quantize 8 amount)))
      (λ x. save-pure-keeps (bought_record env x r) (bought_record env x r))

after_recovery-keeps :
    (env : Environment) (o : Order) (r : TransferRecord) → KeepsOrder (after_recovery env o r)
unfolding after_recovery
after_recovery-keeps env o r =
    if_keeps (is_confirmed_fill o) (bought-keeps env o.filled_amount r) (
      if_keeps (confirmed_not_filled o) (fail_record-keeps env _ _ r) (fail_record-keeps env _ _ r))

resolve_existing_buy-keeps :
    (env : Environment) (j : OrderJson) (r : TransferRecord)
    → KeepsOrder (resolve_existing_buy env j r)
unfolding resolve_existing_buy resolve_order
resolve_existing_buy-keeps env malformed r = fail_record-keeps env _ _ r
resolve_existing_buy-keeps env (encoded o) r =
    let found = recover (env.order_venue r.plan.source_exchange) o in
    if_keeps (is_confirmed_fill o) (bought-keeps env o.filled_amount r) (
      if_keeps (confirmed_not_filled o) (fail_record-keeps env _ _ r) (
        bind_keeps (save-keeps (with_buy env found r))
          (λ _. after_recovery-keeps env found (with_buy env found r))))

settle_buy-keeps :
    (env : Environment) (leg : Leg) (r : TransferRecord) → KeepsOrder (settle_buy env leg r)
unfolding settle_buy
settle_buy-keeps env (f, o) r =
    let q = with_buy env o r in
    bind_keeps (save-keeps q) (λ _.
      if_keeps (confirmed_not_filled o)
        (fail_record-keeps env TransferState.failed (Note.buy_rejected o.error) q)
        (if_keeps (outcome_unconfirmed o)
          (fail_record-keeps env TransferState.manual_review (Note.buy_unconfirmed o.error) q)
          (if_keeps (le_dec (filled_or o f) dec0)
            (fail_record-keeps env TransferState.failed Note.buy_no_fill q)
            (bought-keeps env (filled_or o f) q))))

handle_buy-keeps :
    (env : Environment) (r : TransferRecord) (leg : Result (Leg × TransferRecord))
    → KeepsOrder (handle_buy env r leg)
unfolding handle_buy
handle_buy-keeps env r (ok (l, q)) = settle_buy-keeps env l q
handle_buy-keeps env r (raise Exception.execution_disabled) = throw_keeps
handle_buy-keeps env r (raise e) =
    if_keeps (is_some r.buy_order) (fail_record-keeps env _ _ r) (fail_record-keeps env _ _ r)

first_buy-keeps : (env : Environment) (r : TransferRecord) → KeepsOrder (first_buy env r)
unfolding first_buy
first_buy-keeps env r = record {
  keeps = λ w h.
      let quote = some (buy_cost_quote r.plan) in
      let leg =
        fill_leg env r.plan.source_exchange (symbol_of env r) OrderSide.buy none quote
          (some (note_buy env)) r in
      let kept =
        fill_leg-keeps env r.plan.source_exchange (symbol_of env r) OrderSide.buy none quote
          (some (note_buy env)) r refl in
      (handle_buy-keeps env r (leg w).0).keeps (leg w).1 (kept.keeps w h);
}

buy_by-keeps :
    (env : Environment) (j : Option OrderJson) (r : TransferRecord) → KeepsOrder (buy_by env j r)
buy_by-keeps env none r = first_buy-keeps env r
buy_by-keeps env (some j) r = resolve_existing_buy-keeps env j r

pub execute_buy-keeps : (env : Environment) (r : TransferRecord) → KeepsOrder (execute_buy env r)
unfolding execute_buy
execute_buy-keeps env r = bind_keeps (check_guard-keeps env) (λ _. buy_by-keeps env r.buy_order r)
