-- ===== src/Planner.antt =====
-- app/strategies/transfer/planner.py: the sanity of two books, and what may be traded.
pub mod Sizing
pub mod Prices
pub mod Pair
pub mod Sound
pub mod Search
pub mod Found
pub mod Tests
use crypto_arbitrage_bot_ref.Base.{
  Bool, true, false, not, ◌&&◌, ◌||◌, Option, none, some, List, [], ◌∷◌, Text, text_eq, or_else,
  if◌then◌else◌,
}
use crypto_arbitrage_bot_ref.Money.{
  Decimal, dec, dec0, le_dec, lt_dec, min_dec, add_dec, sub_dec, mul_dec, div_dec, negate, quantize,
}
use crypto_arbitrage_bot_ref.Result.{Result, ok, raise, decimal_error, ◌>>=◌, signal}
use crypto_arbitrage_bot_ref.Risk.{finite}
use crypto_arbitrage_bot_ref.Transfers.{TransferPlan, bps, net_profit_bps}
use crypto_arbitrage_bot_ref.Fills.{OrderBook, Level}

pub data BookRejection : Type 0 where
  invalid_book gross_divergence : BookRejection

abbrev pub best : List Level → Option Decimal
best [] = none
best (l ∷ ls) = some l.price

-- `is_crossed`
unfoldable pub is_crossed : OrderBook → Bool
is_crossed b = elim (best b.bids) [
  | none ↦ false
  | some bid ↦ elim (best b.asks) [ none ↦ false | some ask ↦ le_dec ask bid ]
]

-- a spread of (b - a) against c, in basis points
abbrev spread_against : Decimal → Decimal → Decimal → Result Decimal
spread_against a b c = signal (div_dec (sub_dec b a) c) >>= λ q. ok (mul_dec q bps)

-- `mid`, of a book with both sides
abbrev mid_of : Decimal → Decimal → Result Decimal
mid_of bid ask = signal (div_dec (add_dec bid ask) (dec 2 0))

-- the spread of one side of a pair, if the mid is positive, is above 1000 basis points
abbrev is_wide : Decimal → Decimal → Decimal → Result Bool
is_wide bid ask mid =
    if le_dec mid dec0
    then ok false
    else (spread_against bid ask mid >>= λ spread. ok (lt_dec (dec 1000 0) spread))

-- the sanity of the spread inside a book
unfoldable pub wide_spread : OrderBook → Result Bool
wide_spread b = elim (best b.bids) [
  | none ↦ ok false
  | some bid ↦ elim (best b.asks) [
    | none ↦ ok false
    | some ask ↦ mid_of bid ask >>= is_wide bid ask
  ]
]

abbrev abs_dec : Decimal → Decimal
abs_dec a = if lt_dec a dec0 then negate a else a

-- layer B, on the two prices
unfoldable pub gross_check : Decimal → Decimal → Decimal → Result (Option BookRejection)
gross_check buy_ask sell_bid bound =
    if le_dec buy_ask dec0
    then ok (some invalid_book)
    else (spread_against buy_ask sell_bid buy_ask >>= λ gross.
        ok (if lt_dec bound (abs_dec gross) then some gross_divergence else none))

abbrev checked_spreads : OrderBook → OrderBook → Result Bool
checked_spreads buy sell = wide_spread buy >>= λ wide. if wide then ok true else wide_spread sell

-- `validate_transfer_books`
unfoldable pub validate_transfer_books :
    OrderBook → OrderBook → Decimal → Result (Option BookRejection)
unfolding is_crossed wide_spread gross_check
validate_transfer_books buy sell bound = elim (best buy.asks) [
  | none ↦ ok (some invalid_book)
  | some ask ↦ elim (best sell.bids) [
    | none ↦ ok (some invalid_book)
    | some bid ↦
        if is_crossed buy || is_crossed sell
        then ok (some invalid_book)
        else (checked_spreads buy sell >>= λ wide.
            if wide then ok (some invalid_book) else gross_check ask bid bound)
  ]
]

-- `evaluate`
unfoldable pub evaluate_plan : Decimal → TransferPlan → Result (Option TransferPlan)
evaluate_plan min_net_profit_bps p =
    if le_dec p.amount dec0 || le_dec p.buy_price dec0 || le_dec p.sell_price dec0
    then ok none
    else if text_eq p.source_exchange p.dest_exchange
    then ok none
    else (signal (net_profit_bps p) >>= λ net.
        ok (if lt_dec net min_net_profit_bps then none else some p))

abbrev min_with : Option Decimal → Decimal → Decimal
min_with none a = a
min_with (some bound) a = min_dec a bound

-- `(quote / price).quantize(...)`
abbrev pub affordable : Decimal → Decimal → Result Decimal
affordable quote price = signal (div_dec quote price) >>= λ q. signal (quantize 8 q)

-- the cap by a notional, if there is one and the price is positive
abbrev by_notional : Option Decimal → Decimal → Decimal → Result Decimal
by_notional none price a = ok a
by_notional (some cost) price a =
    if lt_dec dec0 price then (affordable cost price >>= λ x. ok (min_dec a x)) else ok a

-- the last test of both sizings
abbrev tradable : Decimal → Decimal → Decimal
tradable withdrawal_min a = if le_dec a dec0 || lt_dec a withdrawal_min then dec0 else a

-- `executable_amount`
unfoldable pub executable_amount :
    Decimal → Decimal → Decimal → Decimal → Option Decimal → Option Decimal → Result Decimal
executable_amount requested withdrawal_min available price max_amount max_notional =
    by_notional max_notional price (min_with max_amount requested) >>= λ a.
    by_notional (some available) price a >>= λ b. signal (quantize 8 requested) >>= λ q.
    signal (quantize 8 (min_dec b q)) >>= λ c. ok (tradable withdrawal_min c)

-- the notional of a size is enough
abbrev enough_notional : Decimal → Decimal → Decimal → Decimal
enough_notional min_notional price a = if lt_dec (mul_dec a price) min_notional then dec0 else a

-- `executable_amount_from_notional`
unfoldable pub executable_amount_from_notional :
    Decimal → Decimal → Decimal → Decimal → Decimal → Option Decimal → Result Decimal
executable_amount_from_notional min_notional max_notional available price withdrawal_min
      max_amount =
    if lt_dec (min_dec max_notional available) min_notional || le_dec price dec0
    then ok dec0
    else (affordable (min_dec max_notional available) price >>= λ a.
        signal (quantize 8 (min_with max_amount a)) >>= λ b. ok (
          if le_dec b dec0 || lt_dec b withdrawal_min
          then dec0
          else enough_notional min_notional price b))
