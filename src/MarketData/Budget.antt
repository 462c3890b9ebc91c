-- ===== src/MarketData/Budget.antt =====
-- `estimate_for_quote_amount` and `crossable_liquidity` of app/market_data/order_book.py.
use crypto_arbitrage_bot_ref.Base.{
  ℕ, zero, suc, ◌+◌, Option, none, some, List, [], ◌∷◌, length, if◌then◌else◌,
}
use crypto_arbitrage_bot_ref.Money.{
  Decimal, dec0, le_dec, lt_dec, min_dec, add_dec, sub_dec, mul_dec, div_dec, quantize,
  quantize_down,
}
use crypto_arbitrage_bot_ref.Orders.{OrderSide}
use crypto_arbitrage_bot_ref.Result.{Result, ok, raise, validation_error, signal, ◌>>=◌}
use crypto_arbitrage_bot_ref.Fills.{OrderBook, Level, side_of}
use crypto_arbitrage_bot_ref.MarketData.Depth.{
  ExecutionEstimate, checked, Walked, start_with, average_or, slippage_of_walk,
}

-- one level taken from, for a quote budget
unfoldable pub take_budget : Level → Decimal → Walked → Result Walked
take_budget l take w = signal (div_dec take l.price) >>= λ base. ok (record {
  remaining = sub_dec w.remaining take;
  quote = add_dec w.quote take;
  base = add_dec w.base base;
  consumed = w.consumed + 1;
})

abbrev level_take : Level → Walked → Decimal
level_take l w = min_dec w.remaining (mul_dec l.price l.amount)

-- the loop of `estimate_for_quote_amount`
unfoldable pub walk_budget : List Level → Walked → Result Walked
unfolding take_budget
walk_budget [] w = ok w
walk_budget (l ∷ ls) w =
    let skipped = walk_budget ls w in
    let taken = take_budget l (level_take l w) w >>= λ w'.
    let rest = walk_budget ls w' in if le_dec w'.remaining dec0 then ok w' else rest in
    if le_dec (level_take l w) dec0 then skipped else taken

-- the estimate of a finished walk for a quote budget
unfoldable pub quote_estimate : OrderSide → Decimal → Decimal → Walked → Result ExecutionEstimate
unfolding slippage_of_walk
quote_estimate side budget reference w = do
  average ← average_or reference w.quote w.base
  share ← signal (div_dec budget reference)
  requested ← signal (quantize_down 8 share)
  filled ← signal (quantize_down 8 w.base)
  quote ← signal (quantize 8 w.quote)
  slippage ← slippage_of_walk reference average side
  checked (record {
    side = side;
    requested_amount = requested;
    filled_amount = filled;
    quote_amount = quote;
    average_price = average;
    reference_price = reference;
    slippage_bps = slippage;
    levels_consumed = w.consumed;
    is_complete = le_dec w.remaining dec0;
    requested_quote = some budget;
  })

abbrev quote_estimate_on : OrderSide → Decimal → List Level → Result ExecutionEstimate
quote_estimate_on side budget [] = raise validation_error
quote_estimate_on side budget (l ∷ ls) =
    walk_budget (l ∷ ls) (start_with budget) >>= λ w. quote_estimate side budget l.price w

-- `estimate_for_quote_amount`
unfoldable pub estimate_for_quote_amount :
    OrderBook → OrderSide → Decimal → Result ExecutionEstimate
unfolding walk_budget quote_estimate
estimate_for_quote_amount book side budget =
    if le_dec budget dec0
    then raise validation_error
    else quote_estimate_on side budget (side_of book side)

-- what is left of the first level, zero if there is none
abbrev pub first_left : List Level → Decimal
first_left [] = dec0
first_left (l ∷ ls) = l.amount

-- one side of the loop: its levels, and what is left of the first
abbrev pub Queue : Type 0
Queue = List Level × Decimal

abbrev next_left : List Level → Decimal → Decimal
next_left [] left = left
next_left (l ∷ ls) left = l.amount

-- the index of one side moved on where its level is used up
unfoldable pub moved_on : Level → List Level → Decimal → Queue
moved_on l ls left = if le_dec left dec0 then (ls, next_left ls left) else (l ∷ ls, left)

-- what has been crossed so far
abbrev pub Crossed : Type 0
Crossed = Decimal × Decimal

abbrev add_crossed : Decimal → Decimal → Crossed → Crossed
add_crossed take price (base, quote) =
    if lt_dec dec0 take
    then (add_dec base take, add_dec quote (mul_dec take price))
    else (base, quote)

-- the loop of `crossable_liquidity`, within the fuel
unfoldable pub cross : ℕ → Queue → Queue → Crossed → Option Crossed
unfolding moved_on
cross zero asks bids sum = none
cross (suc fuel) ([], ask_left) bids sum = some sum
cross (suc fuel) (a ∷ asks, ask_left) ([], bid_left) sum = some sum
cross (suc fuel) (a ∷ asks, ask_left) (b ∷ bids, bid_left) sum =
    let take = min_dec ask_left bid_left in
    let rest =
      cross fuel (moved_on a asks (sub_dec ask_left take)) (moved_on b bids (sub_dec bid_left take))
        (add_crossed take a.price sum) in
    if le_dec b.price a.price then some sum else rest

-- each round uses up a level, so that one more round than there are levels ends the loop
abbrev pub rounds : OrderBook → OrderBook → ℕ
rounds buy_book sell_book = suc (length buy_book.asks + length sell_book.bids)

unfoldable pub rounded_crossing : Crossed → Result (Decimal × Decimal)
rounded_crossing (base, quote) = do
  amount ← signal (quantize_down 8 base)
  cost ← signal (quantize 8 quote)
  ok (amount, cost)

-- `crossable_liquidity`; none if the loop has not ended
unfoldable pub crossable_liquidity : OrderBook → OrderBook → Option (Result (Decimal × Decimal))
unfolding cross rounded_crossing
crossable_liquidity buy_book sell_book =
    elim (cross (rounds buy_book sell_book) (buy_book.asks, first_left buy_book.asks)
      (sell_book.bids, first_left sell_book.bids) (dec0, dec0)) [
        | none ↦ none
        | some sum ↦ some (rounded_crossing sum)
      ]
