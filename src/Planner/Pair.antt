-- ===== src/Planner/Pair.antt =====
-- `_plan_pair` of app/strategies/transfer/orchestrator.py: the plan of one pair of venues, priced and
-- sized as the routes of its search are. What venues and wallets answer is a parameter.
use crypto_arbitrage_bot_ref.Base.{
  Bool, ◌&&◌, Option, none, some, List, Text, is_some, if◌then◌else◌,
}
use crypto_arbitrage_bot_ref.Money.{Decimal, dec, dec0, le_dec, lt_dec, min_dec}
use crypto_arbitrage_bot_ref.Guard.{TradingMode}
use crypto_arbitrage_bot_ref.Result.{Result, ok, raise, value_error, ◌>>=◌}
use crypto_arbitrage_bot_ref.Risk.{Float, finite, infinite, nan}
use crypto_arbitrage_bot_ref.Transfers.{TransferPlan, WithdrawalNetwork}
use crypto_arbitrage_bot_ref.Fills.{OrderBook}
use crypto_arbitrage_bot_ref.Wallet.{PaperWallet, free}
use crypto_arbitrage_bot_ref.Networks.{RouteNetwork, select}
use crypto_arbitrage_bot_ref.Planner.{
  best, validate_transfer_books, evaluate_plan, affordable, executable_amount,
  executable_amount_from_notional,
}
use crypto_arbitrage_bot_ref.Planner.Prices.{PricePair, price_pair, build_plan}

-- the settings that `_plan_pair` reads
pub record PairSettings : Type 0 where
  pub min_notional_quote : Decimal
  pub max_notional_quote : Decimal
  pub max_trade_size : Decimal
  pub max_amount : Option Decimal
  pub max_gross_divergence_bps : Decimal
  pub min_net_profit_bps : Decimal
  pub base_currency : Text

-- what its calls answer: the ages of the books, the networks of both venues, the paper wallet
-- and the balance of the source, and the taker fees
pub record PairAnswers : Type 0 where
  pub buy_age : Float
  pub sell_age : Float
  pub source_networks : Result (List WithdrawalNetwork)
  pub dest_networks : Result (List WithdrawalNetwork)
  pub mode : TradingMode
  pub wallet : Option PaperWallet
  pub balance : Result Decimal
  pub buy_fees : Result Decimal
  pub sell_fees : Result Decimal

abbrev or_zero : Result Decimal → Decimal
or_zero (ok a) = a
or_zero (raise e) = dec0

-- `_available_quote`: the paper wallet if there is one, or else what the venue says, or nothing
unfoldable pub available_quote_of :
    TradingMode → Text → Option PaperWallet → Result Decimal → Decimal
unfolding free
available_quote_of TradingMode.paper quote (some wallet) venue = free quote wallet
available_quote_of _ quote wallet venue = or_zero venue

-- `_taker_fees`: the taker fee of the venue, or ten basis points
unfoldable pub taker_fees : Result Decimal → Decimal
taker_fees (ok taker_bps) = taker_bps
taker_fees (raise e) = dec 10 0

-- `max(a, b)`
abbrev max_dec : Decimal → Decimal → Decimal
max_dec a b = if lt_dec a b then b else a

abbrev pub max_age : Float → Float → Float
max_age (finite a) (finite b) = if lt_dec a b then finite b else finite a
max_age (finite a) infinite = infinite
max_age (finite a) nan = finite a
max_age infinite b = infinite
max_age nan b = nan

abbrev same_dec : Decimal → Decimal → Bool
same_dec a b = le_dec a b && le_dec b a

-- an amount and its prices
abbrev pub Size : Type 0
Size = Option (Decimal × PricePair)

-- priced again unless it is the amount that was priced
unfoldable pub priced_at : OrderBook → OrderBook → Decimal → Decimal → PricePair → Result Size
unfolding price_pair
priced_at buy sell probe amount prices =
    if same_dec amount probe
    then ok (some (amount, prices))
    else (price_pair buy sell amount >>= λ p. ok (some (amount, p)))

abbrev pub largest_notional : PairSettings → Decimal
largest_notional s = min_dec s.max_notional_quote s.max_trade_size

-- the size of an amount in coins
unfoldable pub coin_size :
    PairSettings → OrderBook → OrderBook → RouteNetwork → Decimal → Decimal → Result Size
unfolding price_pair executable_amount priced_at
coin_size s buy sell route available requested =
    let probe = max_dec requested route.withdrawal_min in
    price_pair buy sell probe >>= λ prices.
    executable_amount requested route.withdrawal_min available prices.buy_price s.max_amount
      (some (largest_notional s))
    >>= λ amount. if le_dec amount dec0 then ok none else priced_at buy sell probe amount prices

abbrev from_notional : PairSettings → RouteNetwork → Decimal → Decimal → Decimal → Result Decimal
from_notional s route notional available price =
    executable_amount_from_notional s.min_notional_quote notional available price
      route.withdrawal_min s.max_amount

-- the amount is sized once more where it differs from the estimate
unfoldable pub resized :
    PairSettings
    → OrderBook
    → OrderBook
    → RouteNetwork
    → Decimal
    → Decimal
    → Decimal
    → Decimal
    → PricePair
    → Result Size
unfolding price_pair executable_amount_from_notional priced_at
resized s buy sell route notional available est amount prices =
    if same_dec amount est
    then ok (some (amount, prices))
    else (price_pair buy sell amount >>= λ again.
        from_notional s route notional available again.buy_price >>= λ last.
        if le_dec last dec0 then ok none else priced_at buy sell est last again)

abbrev best_or_zero : Option Decimal → Decimal
best_or_zero none = dec0
best_or_zero (some price) = price

-- the size of the largest notional
unfoldable pub notional_size :
    PairSettings → OrderBook → OrderBook → RouteNetwork → Decimal → Result Size
unfolding price_pair executable_amount_from_notional resized
notional_size s buy sell route available =
    let notional = min_dec (largest_notional s) available in
    let est_price = best_or_zero (best buy.asks) in
    if lt_dec notional s.min_notional_quote
    then ok none
    else if le_dec est_price dec0
    then ok none
    else (affordable notional est_price >>= λ found.
        price_pair buy sell (max_dec found route.withdrawal_min) >>= λ prices.
        from_notional s route notional available prices.buy_price >>= λ amount.
        if le_dec amount dec0
        then ok none
        else resized s buy sell route notional available (max_dec found route.withdrawal_min) amount
            prices)

unfoldable pub pair_size :
    PairSettings → OrderBook → OrderBook → RouteNetwork → Decimal → Option Decimal → Result Size
unfolding coin_size notional_size
pair_size s buy sell route available none = notional_size s buy sell route available
pair_size s buy sell route available (some amount) = coin_size s buy sell route available amount

-- the plan of a size, with the age of the older book, evaluated
unfoldable pub plan_from :
    PairSettings
    → PairAnswers
    → Text
    → Text
    → Text
    → RouteNetwork
    → Size
    → Result (Option TransferPlan)
unfolding build_plan evaluate_plan taker_fees
plan_from s a source dest asset route none = ok none
plan_from s a source dest asset route (some (amount, prices)) =
    evaluate_plan s.min_net_profit_bps
      (record (build_plan source dest asset route.network amount prices (taker_fees a.buy_fees)
        (taker_fees a.sell_fees) route.withdrawal_fee dec0) {
          data_age_ms = max_age a.buy_age a.sell_age;
        })

-- a missing or stale book ends the search quietly
abbrev pub unless_stale :
    Result OrderBook → (OrderBook → Result (Option TransferPlan)) → Result (Option TransferPlan)
unless_stale (ok b) next = next b
unless_stale (raise value_error) next = ok none
unless_stale (raise e) next = raise e

-- the route, or nothing where a venue or the selector raises
unfoldable pub route_of : PairAnswers → Option RouteNetwork
unfolding select
route_of a =
    elim (a.source_networks >>= λ sources. a.dest_networks >>= λ dests. select sources dests) [
      | ok route ↦ some route
      | raise e ↦ none
    ]

abbrev pub via :
    Option RouteNetwork
    → (RouteNetwork → Result (Option TransferPlan))
    → Result (Option TransferPlan)
via none next = ok none
via (some route) next = next route

-- what `_plan_pair` and the search do alike once they have both books
unfoldable pub plan_books :
    PairSettings
    → PairAnswers
    → Text
    → Text
    → Text
    → Option Decimal
    → OrderBook
    → OrderBook
    → Result (Option TransferPlan)
unfolding route_of validate_transfer_books pair_size plan_from available_quote_of
plan_books s a source dest asset amount buy sell = via (route_of a) (λ route.
    validate_transfer_books buy sell s.max_gross_divergence_bps >>= λ verdict.
    if is_some verdict
    then ok none
    else (pair_size s buy sell route (available_quote_of a.mode s.base_currency a.wallet a.balance)
          amount
        >>= plan_from s a source dest asset route))

-- `_plan_pair`, over the books that `_fresh_book` returns
unfoldable pub plan_pair :
    PairSettings
    → PairAnswers
    → Result OrderBook
    → Result OrderBook
    → Text
    → Text
    → Text
    → Option Decimal
    → Result (Option TransferPlan)
unfolding plan_books
plan_pair s a buy_book sell_book source dest asset amount =
    unless_stale buy_book
      (λ buy. unless_stale sell_book (λ sell. plan_books s a source dest asset amount buy sell))
