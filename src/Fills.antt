-- ===== src/Fills.antt =====
-- app/execution/fill_simulator.py over the books of app/models/market_data.py: how a paper order
-- walks the book.
pub mod Cap
pub mod Tests
use crypto_arbitrage_bot_ref.Base.{
  Bool, true, false, not, ◌&&◌, ◌||◌, Option, none, some, List, [], ◌∷◌, Text, is_some,
  if◌then◌else◌,
}
use crypto_arbitrage_bot_ref.Int.{negsuc}
use crypto_arbitrage_bot_ref.Money.{
  Decimal, dec, dec0, le_dec, lt_dec, min_dec, add_dec, sub_dec, mul_dec, div_dec, quantize,
}
use crypto_arbitrage_bot_ref.Orders.{
  OrderSide, Symbol, OrderNote, zero_amount, empty_book, insufficient_liquidity,
}
use crypto_arbitrage_bot_ref.Result.{Result, ok, raise, value_error, signal, ◌>>=◌, ◌>>◌}
use crypto_arbitrage_bot_ref.Transfers.{bps}

pub record Level : Type 0 where
  pub price : Decimal
  pub amount : Decimal

-- `OrderBook`: bids descend and asks ascend by price, as its validators sort them
pub record OrderBook : Type 0 where
  pub symbol : Symbol
  pub bids : List Level
  pub asks : List Level

-- `book.side(side)`: a buy consumes asks, a sell bids
abbrev pub side_of : OrderBook → OrderSide → List Level
side_of b OrderSide.buy = b.asks
side_of b OrderSide.sell = b.bids

pub record SimulatedFill : Type 0 where
  pub side : OrderSide
  pub symbol : Symbol
  pub filled_amount : Decimal
  pub quote_amount : Decimal
  pub average_price : Decimal
  pub reference_price : Decimal
  pub fee : Decimal
  pub slippage_bps : Decimal
  pub fill_ratio : Decimal
  pub rejected_reason : Option OrderNote

-- `FillSimulator`
pub record Simulator : Type 0 where
  pub taker_fee_bps : Decimal
  pub max_slippage_bps : Decimal

abbrev first_price : List Level → Decimal
first_price [] = dec0
first_price (l ∷ ls) = l.price

-- `_rejected`
unfoldable pub rejected : OrderBook → OrderSide → OrderNote → SimulatedFill
rejected book side reason = record {
  side = side;
  symbol = book.symbol;
  filled_amount = dec0;
  quote_amount = dec0;
  average_price = first_price (side_of book side);
  reference_price = first_price (side_of book side);
  fee = dec0;
  slippage_bps = dec0;
  fill_ratio = dec0;
  rejected_reason = some reason;
}

-- the price of a level breaches the cap
abbrev pub breaches : OrderSide → Decimal → Level → Bool
breaches OrderSide.buy bound l = lt_dec bound l.price
breaches OrderSide.sell bound l = lt_dec l.price bound

-- the loop over the levels for a base amount: what is filled, and the quote
unfoldable pub walk_base :
    OrderSide → Decimal → List Level → Decimal → Decimal → Decimal → Decimal × Decimal
walk_base side bound [] remaining filled quote = (filled, quote)
walk_base side bound (l ∷ ls) remaining filled quote =
    let take = min_dec remaining l.amount in
    let filled' = add_dec filled take in
    let quote' = add_dec quote (mul_dec take l.price) in
    let remaining' = sub_dec remaining take in
    let rest = walk_base side bound ls remaining' filled' quote' in
    if breaches side bound l
    then (filled, quote)
    else if le_dec remaining' dec0
    then (filled', quote')
    else rest

-- one level of a quote budget: the base that it gives and the quote that it takes
unfoldable pub take_level : Decimal → Level → Result (Decimal × Decimal)
take_level remaining l =
    let take = min_dec remaining (mul_dec l.price l.amount) in
    do share ← signal (div_dec take l.price); base ← signal (quantize 8 share); ok (base, take)

-- the loop over the levels for a quote budget
unfoldable pub walk_quote :
    OrderSide → Decimal → List Level → Decimal → Decimal → Decimal → Result (Decimal × Decimal)
unfolding take_level
walk_quote side bound [] remaining filled quote = ok (filled, quote)
walk_quote side bound (l ∷ ls) remaining filled quote =
    let on = λ (taken : Decimal × Decimal).
      let filled' = add_dec filled taken.0 in
      let quote' = add_dec quote taken.1 in
      let remaining' = sub_dec remaining taken.1 in
      let rest = walk_quote side bound ls remaining' filled' quote' in
      if le_dec remaining' dec0 then ok (filled', quote') else rest in
    let taken = take_level remaining l >>= on in
    if breaches side bound l then ok (filled, quote) else taken

abbrev worse_by : OrderSide → Decimal → Decimal → Decimal
worse_by OrderSide.buy reference average = sub_dec average reference
worse_by OrderSide.sell reference average = sub_dec reference average

-- `_slippage_bps`
unfoldable pub slippage : Decimal → Decimal → OrderSide → Result Decimal
slippage reference average side = if le_dec reference dec0 then ok dec0 else do
  ratio ← signal (div_dec (worse_by side reference average) reference)
  signal (quantize 4 (mul_dec ratio bps))

-- the received amounts after the taker fee: base, quote and the fee itself
unfoldable pub after_fee :
    OrderSide → Decimal → Decimal → Decimal → Result (Decimal × Decimal × Decimal)
after_fee OrderSide.buy rate filled quote = do
  fee ← signal (quantize 8 (mul_dec filled rate))
  net ← signal (quantize 8 (sub_dec filled fee))
  ok (net, quote, fee)
after_fee OrderSide.sell rate filled quote = do
  fee ← signal (quantize 8 (mul_dec quote rate))
  net ← signal (quantize 8 (sub_dec quote fee))
  ok (filled, net, fee)

-- the `direction` of a side, times a decimal
abbrev directed : OrderSide → Decimal → Decimal
directed OrderSide.buy a = mul_dec (dec 1 0) a
directed OrderSide.sell a = mul_dec (record { coefficient = negsuc 0; scale = 0 }) a

-- `reference * (1 ± cap)`, quantised
unfoldable pub price_cap : Simulator → OrderSide → Decimal → Result Decimal
price_cap sim side reference = do
  share ← signal (div_dec (directed side sim.max_slippage_bps) bps)
  signal (quantize 8 (mul_dec reference (add_dec (dec 1 0) share)))

-- what the requested size was: a base amount, or a quote budget
pub data Size : Type 0 where
  base_size quote_size : Decimal → Size

abbrev size_amount : Size → Decimal
size_amount (base_size a) = a
size_amount (quote_size a) = a

-- the walk, and whether it filled nothing
unfoldable pub walk : OrderSide → Decimal → List Level → Size → Result (Decimal × Decimal)
unfolding walk_base walk_quote
walk side bound levels (base_size a) = ok (walk_base side bound levels a dec0 dec0)
walk side bound levels (quote_size a) = walk_quote side bound levels a dec0 dec0

abbrev nothing_filled : Size → Decimal → Decimal → Bool
nothing_filled (base_size _) filled quote = le_dec filled dec0
nothing_filled (quote_size _) filled quote = le_dec filled dec0 || le_dec quote dec0

abbrev ratio_of : Size → Decimal → Decimal → Result Decimal
ratio_of (base_size requested) filled quote = signal (div_dec filled requested)
ratio_of (quote_size requested) filled quote = do
  share ← signal (div_dec quote requested)
  ok (min_dec (dec 1 0) share)

-- `quote` when the ratio is computed: a sell has charged its fee by then
abbrev quote_after : OrderSide → Decimal → Decimal × Decimal × Decimal → Decimal
quote_after OrderSide.buy quote nets = quote
quote_after OrderSide.sell quote nets = nets.1

-- the fill that a walk amounts to
unfoldable pub settle :
    Simulator → OrderBook → OrderSide → Size → Decimal → Decimal → Decimal → Result SimulatedFill
unfolding slippage after_fee
settle sim book side size reference filled quote = do
  raw_average ← signal (div_dec quote filled)
  average ← signal (quantize 8 raw_average)
  slip ← slippage reference average side
  fee_rate ← signal (div_dec sim.taker_fee_bps bps)
  nets ← after_fee side fee_rate filled quote
  ratio ← ratio_of size filled (quote_after side quote nets)
  net_filled ← signal (quantize 8 nets.0)
  net_quote ← signal (quantize 8 nets.1)
  fill_ratio ← signal (quantize 6 ratio)
  ok (record {
    side = side;
    symbol = book.symbol;
    filled_amount = net_filled;
    quote_amount = net_quote;
    average_price = average;
    reference_price = reference;
    fee = nets.2;
    slippage_bps = slip;
    fill_ratio = fill_ratio;
    rejected_reason = none;
  })

abbrev settle_or_reject :
    Simulator → OrderBook → OrderSide → Size → Decimal → Decimal × Decimal → Result SimulatedFill
settle_or_reject sim book side size reference (filled, quote) =
    if nothing_filled size filled quote
    then ok (rejected book side insufficient_liquidity)
    else settle sim book side size reference filled quote

-- the walk from the best level down, if the book has one
unfoldable pub simulate_on :
    Simulator → OrderBook → OrderSide → Size → List Level → Result SimulatedFill
unfolding price_cap walk settle rejected
simulate_on sim book side size [] = ok (rejected book side empty_book)
simulate_on sim book side size (l ∷ ls) = do
  bound ← price_cap sim side l.price
  done ← walk side bound (l ∷ ls) size
  settle_or_reject sim book side size l.price done

abbrev sized : Option Decimal → Option Decimal → Option Size
sized (some a) none = some (base_size a)
sized none (some a) = some (quote_size a)
sized _ _ = none

-- `simulate`, for a base amount or a quote budget
unfoldable pub simulate :
    Simulator → OrderBook → OrderSide → Option Decimal → Option Decimal → Result SimulatedFill
unfolding simulate_on rejected
simulate sim book side base_amount quote_amount = elim (sized base_amount quote_amount) [
  | none ↦ raise value_error
  | some size ↦
      if le_dec (size_amount size) dec0
      then ok (rejected book side zero_amount)
      else simulate_on sim book side size (side_of book side)
]

-- `is_rejected`
unfoldable pub is_rejected : SimulatedFill → Bool
is_rejected f = is_some f.rejected_reason

-- `is_complete`
unfoldable pub is_complete : SimulatedFill → Bool
unfolding is_rejected
is_complete f = not (is_rejected f) && le_dec (dec 999 3) f.fill_ratio
