-- ===== src/Planner/Search.antt =====
-- `plan` of app/strategies/transfer/orchestrator.py: the search for plans over all routes. The books
-- are those of its frozen snapshot; what venues answer for a route is a parameter, fetched ahead
-- or not. Counters are left out, and so is the order of evaluation, which nothing depends on.
use crypto_arbitrage_bot_ref.Base.{
  any_of, true, Bool, not, ◌&&◌, ◌||◌, Option, none, some, List, [], ◌∷◌, Text, text_eq, normalise,
  strip, if◌then◌else◌,
}
use crypto_arbitrage_bot_ref.Money.{Decimal, dec0, le_dec}
use crypto_arbitrage_bot_ref.Result.{Result, ok, raise}
use crypto_arbitrage_bot_ref.Precision.{lower}
use crypto_arbitrage_bot_ref.Risk.{Float}
use crypto_arbitrage_bot_ref.Transfers.{TransferPlan, net_profit_bps}
use crypto_arbitrage_bot_ref.Fills.{OrderBook}
use crypto_arbitrage_bot_ref.MarketData.Store.{MarketDataStore, is_stale}
use crypto_arbitrage_bot_ref.Planner.Pair.{PairSettings, PairAnswers, plan_books}

-- the books of a route in the snapshot, and the ages of those that the store held when the search
-- began, before the batch that is to refresh the stale and missing ones
pub record FrozenBooks : Type 0 where
  pub buy_book : Option OrderBook
  pub sell_book : Option OrderBook
  pub buy_age_before : Option Float
  pub sell_age_before : Option Float

-- no book, or a stale one
unfoldable pub needs_refresh : MarketDataStore → Option Float → Bool
unfolding is_stale
needs_refresh store none = true
needs_refresh store (some age) = is_stale store age

-- the market service is bound, and the venues are those that the batch looks at
pub record Batch : Type 0 where
  pub has_market : Bool
  pub venues : List Text

-- a key of `refreshed_keys`: the batch was to refresh the book; a refresh that raises is passed over,
-- and the key stays
unfoldable pub in_refreshed_keys : MarketDataStore → Batch → Text → Option Float → Bool
unfolding needs_refresh
in_refreshed_keys store b venue before =
    b.has_market && any_of (λ v. text_eq v venue) b.venues && needs_refresh store before

-- a stale book whose key the batch did not take up
unfoldable pub any_stale : MarketDataStore → Batch → PairAnswers → FrozenBooks → Text → Text → Bool
unfolding is_stale in_refreshed_keys
any_stale store b a f source dest =
    (is_stale store a.buy_age && not (in_refreshed_keys store b source f.buy_age_before))
    || (is_stale store a.sell_age && not (in_refreshed_keys store b dest f.sell_age_before))

-- an exception counts as no plan
unfoldable pub guarded : Result (Option TransferPlan) → Option TransferPlan
guarded (ok found) = found
guarded (raise e) = none

-- `_eval_one` under `_eval_guarded`
unfoldable pub eval_one :
    MarketDataStore
    → Batch
    → PairSettings
    → PairAnswers
    → FrozenBooks
    → Text
    → Text
    → Text
    → Option Decimal
    → Option TransferPlan
unfolding any_stale guarded plan_books
eval_one store b s a f source dest asset amount = elim f.buy_book [
  | none ↦ none
  | some buy ↦ elim f.sell_book [
    | none ↦ none
    | some sell ↦
        if any_stale store b a f source dest
        then none
        else guarded (plan_books s a source dest asset amount buy sell)
  ]
]

-- what a search reads: the settings with the default assets, the batch over the
-- enabled venues,, and the answers of each route by
-- asset, source and destination
pub record Search : Type 0 where
  pub store : MarketDataStore
  pub settings : PairSettings
  pub assets : List Text
  pub batch : Batch
  pub answers : Text → Text → Text → PairAnswers
  pub frozen : Text → Text → Text → FrozenBooks
  pub amount : Option Decimal

abbrev pub add_plan : Option TransferPlan → List TransferPlan → List TransferPlan
add_plan none rest = rest
add_plan (some p) rest = p ∷ rest

-- the routes from one venue, and then the rest
unfoldable pub over_dests : Search → Text → Text → List Text → List TransferPlan → List TransferPlan
unfolding eval_one
over_dests q asset source [] rest = rest
over_dests q asset source (dest ∷ dests) rest =
    let others = over_dests q asset source dests rest in
    if text_eq source dest
    then others
    else add_plan
        (eval_one q.store q.batch q.settings (q.answers asset source dest)
          (q.frozen asset source dest) source dest asset q.amount)
        others

unfoldable pub over_sources :
    Search → Text → List Text → List Text → List TransferPlan → List TransferPlan
unfolding over_dests
over_sources q asset [] dests rest = rest
over_sources q asset (source ∷ sources) dests rest =
    over_dests q asset source dests (over_sources q asset sources dests rest)

-- the plans of all routes, in their order
unfoldable pub over_assets : Search → List Text → List Text → List Text → List TransferPlan
unfolding over_sources
over_assets q [] sources dests = []
over_assets q (asset ∷ assets) sources dests =
    over_sources q asset sources dests (over_assets q assets sources dests)

-- the net of a plan, which its evaluation has computed already
abbrev pub net_or_zero : Option Decimal → Decimal
net_or_zero none = dec0
net_or_zero (some net) = net

abbrev pub plan_net : TransferPlan → Decimal
plan_net p = net_or_zero (net_profit_bps p)

abbrev pub insert_plan : TransferPlan → List TransferPlan → List TransferPlan
insert_plan p [] = p ∷ []
insert_plan p (x ∷ xs) =
    if le_dec (plan_net x) (plan_net p) then p ∷ x ∷ xs else x ∷ insert_plan p xs

-- `plans.sort(key=net_profit_bps, reverse=True)`
unfoldable pub sort_plans : List TransferPlan → List TransferPlan
unfolding net_profit_bps
sort_plans [] = []
sort_plans (p ∷ ps) = insert_plan p (sort_plans ps)

-- a name that is given, or all
abbrev pub given_or : Option Text → (Text → Text) → List Text → List Text
given_or (some (c ∷ name)) clean all = clean (c ∷ name) ∷ []
given_or _ clean all = all

-- `plan`
unfoldable pub plan : Search → Option Text → Option Text → Option Text → List TransferPlan
unfolding over_assets sort_plans lower strip normalise
plan q asset source dest = sort_plans (
    over_assets q (given_or asset normalise q.assets)
      (given_or source (λ v. lower (strip v)) q.batch.venues)
      (given_or dest (λ v. lower (strip v)) q.batch.venues))
