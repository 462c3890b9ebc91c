-- ===== src/Precision.antt =====
-- app/execution/precision.py, with `OrderRequest` of app/models/order.py and the precision and
-- limits of app/models/market.py: orders rounded onto an instrument's grid.
pub mod Minimums
mod Tests
use crypto_arbitrage_bot_ref.Base.{
  ℕ, suc, ◌+◌, ◌^◌, Bool, ◌&&◌, Option, none, some, List, [], ◌∷◌, ◌++◌, map, Text, text, text_eq,
  Dict, find, leb, if◌then◌else◌,
}
use crypto_arbitrage_bot_ref.Int.{ℤ, pos, negsuc}
use crypto_arbitrage_bot_ref.Money.{
  Decimal, dec, dec0, le_dec, lt_dec, div_dec, mul_dec, floor_dec, quantize,
}
use crypto_arbitrage_bot_ref.Orders.{OrderSide, OrderType, Symbol}
use crypto_arbitrage_bot_ref.Result.{Result, ok, raise, signal, ◌>>=◌}

-- `OrderRequest`, less the fields that no code of this library reads
pub record OrderRequest : Type 0 where
  pub exchange_id : Text
  pub symbol : Symbol
  pub side : OrderSide
  pub order_type : OrderType
  pub amount : Decimal
  pub price : Option Decimal
  pub client_order_id : Text

-- `MarketPrecision`: decimal places, and the steps that take precedence
pub record MarketPrecision : Type 0 where
  pub price : Option ℤ
  pub amount : Option ℤ
  pub price_tick : Option Decimal
  pub amount_step : Option Decimal

-- `MarketLimits`, the two that order placement reads
pub record MarketLimits : Type 0 where
  pub min_amount : Option Decimal
  pub min_cost : Option Decimal

-- `Decimal(1).scaleb(-places)`
abbrev step_of_places : ℤ → Decimal
step_of_places (pos n) = dec 1 n
step_of_places (negsuc n) = dec (10 ^ suc n) 0

abbrev step_or_places : Option Decimal → Option ℤ → Option Decimal
step_or_places (some step) _ = some step
step_or_places none (some places) = some (step_of_places places)
step_or_places none none = none

unfoldable pub resolved_price_tick : MarketPrecision → Option Decimal
resolved_price_tick p = step_or_places p.price_tick p.price

unfoldable pub resolved_amount_step : MarketPrecision → Option Decimal
resolved_amount_step p = step_or_places p.amount_step p.amount

pub record InstrumentFilters : Type 0 where
  pub amount_step : Option Decimal
  pub price_tick : Option Decimal
  pub min_amount : Option Decimal
  pub min_cost : Option Decimal
  pub contract_size : Option Decimal

abbrev precision_or_default : Option MarketPrecision → MarketPrecision
precision_or_default (some p) = p
precision_or_default none = record {
  price = none;
  amount = none;
  price_tick = none;
  amount_step = none;
}

abbrev limits_or_default : Option MarketLimits → MarketLimits
limits_or_default (some l) = l
limits_or_default none = record { min_amount = none; min_cost = none }

-- `InstrumentFilters.from_market`
unfoldable pub from_market :
    Option MarketPrecision → Option MarketLimits → Option Decimal → InstrumentFilters
unfolding resolved_price_tick resolved_amount_step
from_market precision limits contract_size =
    let p = precision_or_default precision in
    let l = limits_or_default limits in
    record {
      amount_step = resolved_amount_step p;
      price_tick = resolved_price_tick p;
      min_amount = l.min_amount;
      min_cost = l.min_cost;
      contract_size = contract_size;
    }

-- `(floor(value / unit) * unit).quantize(_QUANTUM)`
unfoldable pub whole_units : Decimal → Decimal → Result Decimal
whole_units value unit = do
  units ← signal (div_dec value unit)
  signal (quantize 8 (mul_dec (floor_dec units) unit))

-- `round_step_down`
unfoldable pub round_step_down : Decimal → Option Decimal → Result Decimal
unfolding whole_units
round_step_down value none = ok value
round_step_down value (some step) = if le_dec step dec0 then ok value else whole_units value step

abbrev lower_code : ℕ → ℕ
lower_code c = if leb b'A' c && leb c b'Z' then c + 32 else c

-- `s.lower()`, on ASCII
unfoldable pub lower : Text → Text
lower s = map lower_code s

-- `Symbol.name`
unfoldable pub symbol_name : Symbol → Text
symbol_name s = s.base ++ text "/" ++ s.quote

-- `StaticPrecisionProvider`, the venue's map first by venue and then by symbol
pub record StaticPrecisionProvider : Type 0 where
  pub by_venue : Dict (Dict InstrumentFilters)
  pub by_symbol : Dict InstrumentFilters

abbrev find_in : Text → Option (Dict InstrumentFilters) → Option InstrumentFilters
find_in k none = none
find_in k (some d) = find k d

-- `filters_for`
unfoldable pub filters_for : StaticPrecisionProvider → Text → Text → Option InstrumentFilters
unfolding lower
filters_for p exchange_id name = elim (find_in name (find (lower exchange_id) p.by_venue)) [
  | some f ↦ some f
  | none ↦ find name p.by_symbol
]

abbrev pub below_min_amount : Text
below_min_amount = text "below_min_amount"

abbrev pub below_min_notional : Text
below_min_notional = text "below_min_notional"

-- a limit that is set, and that the value does not reach
abbrev pub under : Decimal → Option Decimal → Bool
under a none = Bool.false
under a (some bound) = lt_dec a bound

-- the amount in whole contracts, where a contract is more than one unit
unfoldable pub contract_amount : Decimal → Option Decimal → Result Decimal
unfolding whole_units
contract_amount amount none = ok amount
contract_amount amount (some size) =
    if lt_dec (dec 1 0) size then whole_units amount size else ok amount

-- the price on its tick, where both are given
unfoldable pub ticked : Option Decimal → Option Decimal → Result (Option Decimal)
unfolding round_step_down
ticked (some price) (some tick) = round_step_down price (some tick) >>= λ p. ok (some p)
ticked price _ = ok price

-- the minimums, checked in the order of the code, and the request with its new amount and price
unfoldable pub on_grid :
    OrderRequest → InstrumentFilters → Decimal → Decimal → Result (OrderRequest × Option Text)
unfolding ticked
on_grid q f reference_price amount =
    if under amount f.min_amount
    then ok (q, some below_min_amount)
    else if under (mul_dec amount reference_price) f.min_cost
    then ok (q, some below_min_notional)
    else if le_dec amount dec0
    then ok (q, some below_min_amount)
    else (ticked q.price f.price_tick >>= λ price.
        ok (record q { amount = amount; price = price }, none))

-- `apply_filters`: the rounded request, or the request with the reason that it cannot exist
unfoldable pub apply_filters :
    OrderRequest → Option InstrumentFilters → Decimal → Result (OrderRequest × Option Text)
unfolding contract_amount round_step_down on_grid
apply_filters q none reference_price = ok (q, none)
apply_filters q (some f) reference_price = do
  contracts ← contract_amount q.amount f.contract_size
  amount ← round_step_down contracts f.amount_step
  on_grid q f reference_price amount
