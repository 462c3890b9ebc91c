-- ===== src/Triangle/Preview.antt =====
-- `_preview_cycle` and `_check_capital` of app/strategies/triangular/executor.py: what is checked before the first leg.
use crypto_arbitrage_bot_ref.Base.{
  ℕ, zero, suc, Bool, Option, none, some, List, [], ◌∷◌, Text, text, find, if◌then◌else◌,
}
use crypto_arbitrage_bot_ref.Money.{Decimal, dec, dec0, lt_dec, mul_dec, div_dec}
use crypto_arbitrage_bot_ref.Orders.{OrderSide, Symbol}
use crypto_arbitrage_bot_ref.Guard.{TradingMode}
use crypto_arbitrage_bot_ref.Result.{
  Result, ok, raise, Exception, value_error, index_error, signal, ◌>>=◌,
}
use crypto_arbitrage_bot_ref.Transfers.{bps}
use crypto_arbitrage_bot_ref.Wallet.{debit}
use crypto_arbitrage_bot_ref.Fills.{
  SimulatedFill, Size, base_size, quote_size, simulate, is_rejected,
}
use crypto_arbitrage_bot_ref.Opportunity.{ArbitrageLeg}
use crypto_arbitrage_bot_ref.Triangle.Effects.{TriangleExecutor, Answers, Action, from_reply}
use crypto_arbitrage_bot_ref.Triangle.Legs.{fresh_book, on_wallet, base_of, quote_of}

-- `legs[n]`
abbrev pub leg_at : ℕ → List ArbitrageLeg → Result ArbitrageLeg
leg_at n [] = raise index_error
leg_at zero (l ∷ ls) = ok l
leg_at (suc n) (l ∷ ls) = leg_at n ls

-- the size of the second leg: a budget of X for a buy, an amount of X for a sell
abbrev pub cross_size : OrderSide → Decimal → Size
cross_size OrderSide.buy x = quote_size x
cross_size OrderSide.sell x = base_size x

-- the Y that the second leg gave
abbrev pub held_y : OrderSide → SimulatedFill → Decimal
held_y OrderSide.buy f = f.filled_amount
held_y OrderSide.sell f = f.quote_amount

-- one leg simulated on its book; none where it is rejected
unfoldable pub preview_leg :
    TriangleExecutor → Answers → Text → Symbol → OrderSide → Size → Result (Option SimulatedFill)
unfolding fresh_book simulate is_rejected
preview_leg ex a venue symbol side size = do
  book ← fresh_book ex a venue symbol
  f ← simulate ex.simulator book side (base_of size) (quote_of size)
  ok (if is_rejected f then none else some f)

-- the walk goes on with what a leg gave, and ends with none where it was rejected
abbrev if_filled :
    {A : Type 0} → Option SimulatedFill → (SimulatedFill → Result (Option A)) → Result (Option A)
if_filled none next = ok none
if_filled (some f) next = next f

-- the three legs, one after the other
unfoldable pub preview_legs :
    TriangleExecutor → Answers → Text → List ArbitrageLeg → Decimal → Result (Option Decimal)
unfolding preview_leg
preview_legs ex a venue legs spend = do
  leg1 ← leg_at 0 legs
  fill1 ← preview_leg ex a venue leg1.symbol OrderSide.buy (quote_size spend)
  if_filled fill1 (λ f1. do
    leg2 ← leg_at 1 legs
    fill2 ← preview_leg ex a venue leg2.symbol leg2.side (cross_size leg2.side f1.filled_amount)
    if_filled fill2 (λ f2. do
      leg3 ← leg_at 2 legs
      fill3 ← preview_leg ex a venue leg3.symbol OrderSide.sell (base_size (held_y leg2.side f2))
      if_filled fill3 (λ f3. ok (some f3.quote_amount))))

abbrev caught : Result (Option Decimal) → Result (Option Decimal)
caught (raise Exception.value_error) = ok none
caught r = r

-- `_preview_cycle`: the expected proceeds, or none, also for a ValueError
unfoldable pub preview_cycle :
    TriangleExecutor → Answers → Text → List ArbitrageLeg → Decimal → Result (Option Decimal)
unfolding preview_legs
preview_cycle ex a venue legs spend = caught (preview_legs ex a venue legs spend)

abbrev pub floor_bps : TriangleExecutor → Decimal
floor_bps ex = dec ex.min_net_at_execute_bps 0

-- the expected net lies below the execution-time floor
unfoldable pub below_floor : TriangleExecutor → Decimal → Decimal → Result Bool
below_floor ex spend expected_net =
    if lt_dec dec0 spend
    then (signal (div_dec expected_net spend) >>= λ share.
        ok (lt_dec (mul_dec share bps) (floor_bps ex)))
    else ok Bool.false

abbrev enough : Decimal → Decimal → Result (Unit {0})
enough spend free = if lt_dec free spend then raise value_error else ok tt

-- the venue's free balance of the base currency covers the spend
unfoldable pub venue_funds : TriangleExecutor → Answers → Text → Decimal → Result (Unit {0})
venue_funds ex a venue spend = do
  adapter ← from_reply (a.adapter venue)
  free_of ← from_reply (a.fetch_balances venue)
  enough spend (free_of ex.base_currency)

abbrev pub check_capital_in :
    TradingMode → TriangleExecutor → Answers → Text → Decimal → Action (Unit {0})
check_capital_in TradingMode.paper ex a venue spend w =
    on_wallet venue (debit (text "USDT") spend) w (find venue w.wallets)
check_capital_in mode ex a venue spend w = (venue_funds ex a venue spend, w)

-- `_check_capital`; in PAPER the wallet is debited by the spend
unfoldable pub check_capital : TriangleExecutor → Answers → Text → Decimal → Action (Unit {0})
unfolding venue_funds
check_capital ex a venue spend = check_capital_in ex.mode ex a venue spend
