-- ===== src/MarketData/Depth.antt =====
-- app/market_data/order_book.py: order-book mathematics, and `ExecutionEstimate` of
-- app/models/market_data.py. A slice takes the first levels of a book, at most so many.
use crypto_arbitrage_bot_ref.Base.{
  ℕ, zero, suc, ◌+◌, Bool, Option, none, some, List, [], ◌∷◌, ◌||◌, if◌then◌else◌,
}
use crypto_arbitrage_bot_ref.Money.{
  Decimal, dec0, le_dec, lt_dec, min_dec, add_dec, sub_dec, mul_dec, div_dec, quantize,
}
use crypto_arbitrage_bot_ref.Orders.{OrderSide}
use crypto_arbitrage_bot_ref.Result.{
  Result, ok, raise, value_error, validation_error, signal, ◌>>=◌,
}
use crypto_arbitrage_bot_ref.Transfers.{bps}
use crypto_arbitrage_bot_ref.Fills.{OrderBook, Level, side_of}

-- `ExecutionEstimate`
pub record ExecutionEstimate : Type 0 where
  pub side : OrderSide
  pub requested_amount : Decimal
  pub filled_amount : Decimal
  pub quote_amount : Decimal
  pub average_price : Decimal
  pub reference_price : Decimal
  pub slippage_bps : Decimal
  pub levels_consumed : ℕ
  pub is_complete : Bool
  pub requested_quote : Option Decimal

-- the validator of the model: negative amounts are refused with a ValueError
abbrev pub checked : ExecutionEstimate → Result ExecutionEstimate
checked e =
    if lt_dec e.filled_amount dec0 || lt_dec e.quote_amount dec0 then raise value_error else ok e

-- `ExecutionEstimate.fill_ratio`
unfoldable pub estimate_ratio : ExecutionEstimate → Result Decimal
estimate_ratio e = elim e.requested_quote [
  | some q ↦ if le_dec q dec0 then ok dec0 else signal (div_dec e.quote_amount q)
  | none ↦
      if le_dec e.requested_amount dec0
      then ok dec0
      else signal (div_dec e.filled_amount e.requested_amount)
]

-- `levels[:n]`
abbrev first_levels : ℕ → List Level → List Level
first_levels zero ls = []
first_levels (suc n) [] = []
first_levels (suc n) (l ∷ ls) = l ∷ first_levels n ls

abbrev selected : Option ℕ → List Level → List Level
selected none ls = ls
selected (some n) ls = first_levels n ls

abbrev pub add_amounts : Decimal → List Level → Decimal
add_amounts total [] = total
add_amounts total (l ∷ ls) = add_amounts (add_dec total l.amount) ls

abbrev pub add_notionals : Decimal → List Level → Decimal
add_notionals total [] = total
add_notionals total (l ∷ ls) = add_notionals (add_dec total (mul_dec l.price l.amount)) ls

-- `available_liquidity`
unfoldable pub available_liquidity : List Level → Option ℕ → Decimal
available_liquidity ls max_levels = add_amounts dec0 (selected max_levels ls)

-- `max_executable_notional`
unfoldable pub max_executable_notional : OrderBook → OrderSide → Option ℕ → Result Decimal
max_executable_notional book side max_levels =
    signal (quantize 8 (add_notionals dec0 (selected max_levels (side_of book side))))

-- the loop of `vwap`: the quote for the amount, if the levels suffice
unfoldable pub vwap_quote : List Level → Decimal → Decimal → Option Decimal
vwap_quote [] remaining quote = none
vwap_quote (l ∷ ls) remaining quote =
    let take = min_dec remaining l.amount in
    let quote' = add_dec quote (mul_dec take l.price) in
    let remaining' = sub_dec remaining take in
    let rest = vwap_quote ls remaining' quote' in
    if le_dec remaining' dec0 then some quote' else rest

-- `(quote / amount).quantize(_QUANT)`
unfoldable pub average_of : Decimal → Decimal → Result Decimal
average_of quote amount = signal (div_dec quote amount) >>= λ a. signal (quantize 8 a)

abbrev pub average_if : Option Decimal → Decimal → Result (Option Decimal)
average_if none amount = ok none
average_if (some quote) amount = average_of quote amount >>= λ a. ok (some a)

-- `vwap`
unfoldable pub vwap : List Level → Decimal → Result (Option Decimal)
unfolding vwap_quote average_of
vwap ls amount =
    if le_dec amount dec0 then ok none else average_if (vwap_quote ls amount dec0) amount

-- `_slippage_bps`
abbrev worse_by : OrderSide → Decimal → Decimal → Decimal
worse_by OrderSide.buy reference average = sub_dec average reference
worse_by OrderSide.sell reference average = sub_dec reference average

unfoldable pub slippage_of_walk : Decimal → Decimal → OrderSide → Result Decimal
slippage_of_walk reference average side = if le_dec reference dec0 then ok dec0 else do
  share ← signal (div_dec (worse_by side reference average) reference)
  signal (quantize 4 (mul_dec share bps))

-- where a walk stands: what remains, the quote, the base and the levels it took from
pub record Walked : Type 0 where
  pub remaining : Decimal
  pub quote : Decimal
  pub base : Decimal
  pub consumed : ℕ

abbrev pub start_with : Decimal → Walked
start_with amount = record { remaining = amount; quote = dec0; base = dec0; consumed = 0 }

-- one level taken from, for a base amount
abbrev pub take_base : Level → Walked → Walked
take_base l w =
    let take = min_dec w.remaining l.amount in
    record {
      remaining = sub_dec w.remaining take;
      quote = add_dec w.quote (mul_dec take l.price);
      base = w.base;
      consumed = w.consumed + 1;
    }

-- the loop of `estimate_for_base_amount`
unfoldable pub walk_amount : List Level → Walked → Walked
walk_amount [] w = w
walk_amount (l ∷ ls) w =
    let skipped = walk_amount ls w in
    let rest = walk_amount ls (take_base l w) in
    if le_dec (min_dec w.remaining l.amount) dec0
    then skipped
    else if le_dec (take_base l w).remaining dec0
    then take_base l w
    else rest

abbrev pub average_or : Decimal → Decimal → Decimal → Result Decimal
average_or reference quote filled =
    if lt_dec dec0 filled then average_of quote filled else ok reference

-- the estimate of a finished walk for a base amount
unfoldable pub base_estimate : OrderSide → Decimal → Decimal → Walked → Result ExecutionEstimate
unfolding average_of slippage_of_walk
base_estimate side amount reference w = do
  let filled = sub_dec amount w.remaining
  average ← average_or reference w.quote filled
  quote ← signal (quantize 8 w.quote)
  slippage ← slippage_of_walk reference average side
  checked (record {
    side = side;
    requested_amount = amount;
    filled_amount = filled;
    quote_amount = quote;
    average_price = average;
    reference_price = reference;
    slippage_bps = slippage;
    levels_consumed = w.consumed;
    is_complete = le_dec w.remaining dec0;
    requested_quote = none;
  })

abbrev pub base_estimate_on : OrderSide → Decimal → List Level → Result ExecutionEstimate
base_estimate_on side amount [] = raise validation_error
base_estimate_on side amount (l ∷ ls) =
    base_estimate side amount l.price (walk_amount (l ∷ ls) (start_with amount))

-- `estimate_for_base_amount`
unfoldable pub estimate_for_base_amount : OrderBook → OrderSide → Decimal → Result ExecutionEstimate
unfolding walk_amount base_estimate
estimate_for_base_amount book side amount =
    if le_dec amount dec0
    then raise validation_error
    else base_estimate_on side amount (side_of book side)
