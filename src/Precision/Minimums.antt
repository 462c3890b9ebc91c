-- ===== src/Precision/Minimums.antt =====
-- What `apply_filters` of app/execution/precision.py lets through to a venue.
use crypto_arbitrage_bot_ref.Base.{◌≡◌, true, Option, none, some, Text}
use crypto_arbitrage_bot_ref.Money.{Decimal, dec0, lt_dec, le_dec, mul_dec}
use crypto_arbitrage_bot_ref.Result.{Result, ok, ◌>>=◌}
use crypto_arbitrage_bot_ref.Precision.{OrderRequest, InstrumentFilters}

-- A request that was let through: the amount is positive and meets the minimums, and nothing but
-- amount and price has changed.
pub record Tradable (q : OrderRequest) (f : InstrumentFilters) (price : Decimal) (q' : OrderRequest)
    : Type 0 where
  pub positive : lt_dec dec0 q'.amount ≡ true
  pub above_min_amount : (m : Decimal) → f.min_amount ≡ some m → le_dec m q'.amount ≡ true
  pub above_min_cost :
      (m : Decimal) → f.min_cost ≡ some m → le_dec m (mul_dec q'.amount price) ≡ true
  pub same_order : q' ≡ record q { amount = q'.amount; price = q'.price }

-- what an outcome of the filters tells
abbrev pub Outcome :
    OrderRequest → InstrumentFilters → Decimal → OrderRequest × Option Text → Type 0
Outcome q f price (q', none) = Tradable q f price q'
Outcome q f price (q', some reason) = q' ≡ q

-- the request that the grid gives, once its price is known
abbrev gridded :
    OrderRequest → Decimal → Result (Option Decimal) → Result (OrderRequest × Option Text)
gridded q amount r = r >>= λ price. ok (record q { amount = amount; price = price }, none)
