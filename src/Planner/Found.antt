-- ===== src/Planner/Found.antt =====
-- What `plan` of app/strategies/transfer/orchestrator.py finds.
use crypto_arbitrage_bot_ref.Base.{
  true, any_of, arith, ◌≡◌, refl, false, Bool-cases, Option, none, some, List, [], ◌∷◌, All, Text,
  text_eq, inl, inr, if◌then◌else◌,
}
use crypto_arbitrage_bot_ref.Money.{Decimal, le_dec}
use crypto_arbitrage_bot_ref.Result.{Result, ok, raise}
use crypto_arbitrage_bot_ref.Precision.{lower}
use crypto_arbitrage_bot_ref.Base.{strip, normalise}
use crypto_arbitrage_bot_ref.Transfers.{TransferPlan}
use crypto_arbitrage_bot_ref.Fills.{OrderBook}
use crypto_arbitrage_bot_ref.MarketData.Store.{MarketDataStore, is_stale}
use crypto_arbitrage_bot_ref.Risk.{Float}
use crypto_arbitrage_bot_ref.Planner.Pair.{PairSettings, PairAnswers, plan_books}
use crypto_arbitrage_bot_ref.Planner.Sound.{SoundPlan, IsSound, plan_books-Yields}
use crypto_arbitrage_bot_ref.Planner.Search.{
  Batch, needs_refresh, in_refreshed_keys, FrozenBooks, any_stale, guarded, eval_one, Search,
  add_plan, over_dests, over_sources, over_assets, plan_net, insert_plan, sort_plans, given_or,
  plan,
}

-- the batch at the start of the search was to refresh the book: there is a market service, the venue
-- is enabled, and the store held no book, or a stale one
pub record TakenUp (store : MarketDataStore) (b : Batch) (venue : Text) (before : Option Float)
    : Type 0 where
  pub market : b.has_market ≡ true
  pub enabled : any_of (λ v. text_eq v venue) b.venues ≡ true
  pub needed : (age : Float) → before ≡ some age → is_stale store age ≡ true

needed_lem :
    (store : MarketDataStore) (before : Option Float)
    → needs_refresh store before ≡ true
    → (age : Float) → before ≡ some age
    → is_stale store age ≡ true
unfolding needs_refresh
needed_lem store none h age e = absurd (ground (arith, e))
needed_lem store (some x) h age e = ground arith

in_keys-TakenUp :
    (store : MarketDataStore) (b : Batch) (venue : Text) (before : Option Float)
    → in_refreshed_keys store b venue before ≡ true
    → TakenUp store b venue before
unfolding in_refreshed_keys
in_keys-TakenUp store b venue before h = record {
  market = ground arith;
  enabled = ground arith;
  needed = needed_lem store before (ground arith);
}

-- a sound plan of a route over its frozen books, none of which is stale unless the batch took it up
pub record FoundPlan (store : MarketDataStore) (b : Batch) (s : PairSettings) (a : PairAnswers)
    (f : FrozenBooks) (source dest asset : Text) (p : TransferPlan) : Type 0 where
  pub buy : OrderBook
  pub sell : OrderBook
  pub buy_found : f.buy_book ≡ some buy
  pub sell_found : f.sell_book ≡ some sell
  pub buy_current : is_stale store a.buy_age ≡ true → TakenUp store b source f.buy_age_before
  pub sell_current : is_stale store a.sell_age ≡ true → TakenUp store b dest f.sell_age_before
  pub sound : SoundPlan s a buy sell source dest asset p

module _ (store : MarketDataStore) (b : Batch) (s : PairSettings) (a : PairAnswers)
    (f : FrozenBooks) (source dest asset : Text) where
  abbrev MaybeFound : Option TransferPlan → Type 0
  MaybeFound none = Unit {0}
  MaybeFound (some p) = FoundPlan store b s a f source dest asset p

  found_if :
      (buy sell : OrderBook)
      → f.buy_book ≡ some buy
      → f.sell_book ≡ some sell
      → any_stale store b a f source dest ≡ false
      → (r : Result (Option TransferPlan))
      → ((o : Option TransferPlan) → r ≡ ok o → IsSound s a buy sell source dest asset o)
      → MaybeFound (guarded r)
  unfolding guarded any_stale
  found_if buy sell hb hs hc (raise e) k = tt
  found_if buy sell hb hs hc (ok none) k = tt
  found_if buy sell hb hs hc (ok (some p)) k = record {
    buy = buy;
    sell = sell;
    buy_found = hb;
    sell_found = hs;
    buy_current = λ h. in_keys-TakenUp store b source f.buy_age_before (ground (arith, hc, h));
    sell_current = λ h. in_keys-TakenUp store b dest f.sell_age_before (ground (arith, hc, h));
    sound = k (some p) refl;
  }

  eval_books :
      (amount : Option Decimal) (bs ss : Option OrderBook)
      → f.buy_book ≡ bs
      → f.sell_book ≡ ss
      → MaybeFound (elim bs [
        | none ↦ none
        | some buy ↦ elim ss [
          | none ↦ none
          | some sell ↦
              if any_stale store b a f source dest
              then none
              else guarded (plan_books s a source dest asset amount buy sell)
        ]
      ])
  eval_books amount none ss hb hs = tt
  eval_books amount (some buy) none hb hs = tt
  eval_books amount (some buy) (some sell) hb hs =
      elim (Bool-cases (any_stale store b a f source dest)) [
        | inl e ↦ rw e tt
        | inr e ↦ rw e (
            found_if buy sell hb hs e (plan_books s a source dest asset amount buy sell)
              (plan_books-Yields s a buy sell source dest asset amount))
      ]

  eval_one-MaybeFound :
      (amount : Option Decimal) → MaybeFound (eval_one store b s a f source dest asset amount)
  unfolding eval_one
  eval_one-MaybeFound amount = eval_books amount f.buy_book f.sell_book refl refl

-- a plan that is found for some route, over the answers and books of that route
pub record Routed (q : Search) (p : TransferPlan) : Type 0 where
  pub asset : Text
  pub source : Text
  pub dest : Text
  pub found :
      FoundPlan q.store q.batch q.settings
        (q.answers asset source dest)
        (q.frozen asset source dest)
        source
        dest
        asset
        p

module _ (q : Search) where
  abbrev AllRouted : List TransferPlan → Type 0
  AllRouted = All (Routed q)

  add_plan-Routed :
      (asset source dest : Text) (o : Option TransferPlan) (rest : List TransferPlan)
      → MaybeFound q.store q.batch q.settings
          (q.answers asset source dest)
          (q.frozen asset source dest)
          source
          dest
          asset
          o
      → AllRouted rest
      → AllRouted (add_plan o rest)
  add_plan-Routed asset source dest none rest h r = r
  add_plan-Routed asset source dest (some p) rest h r =
      (record { asset = asset; source = source; dest = dest; found = h }, r)

  over_dests-Routed :
      (asset source : Text) (dests : List Text) (rest : List TransferPlan)
      → AllRouted rest
      → AllRouted (over_dests q asset source dests rest)
  unfolding over_dests
  over_dests-Routed asset source [] rest r = r
  over_dests-Routed asset source (dest ∷ dests) rest r =
      let others = over_dests-Routed asset source dests rest r in
      elim (Bool-cases (text_eq source dest)) [
        | inl e ↦ rw e others
        | inr e ↦ rw e (
            add_plan-Routed asset source dest _ _
              (eval_one-MaybeFound q.store q.batch q.settings (q.answers asset source dest)
                (q.frozen asset source dest) source dest asset q.amount)
              others)
      ]

  over_sources-Routed :
      (asset : Text) (sources dests : List Text) (rest : List TransferPlan)
      → AllRouted rest
      → AllRouted (over_sources q asset sources dests rest)
  unfolding over_sources
  over_sources-Routed asset [] dests rest r = r
  over_sources-Routed asset (source ∷ sources) dests rest r =
      over_dests-Routed asset source dests (over_sources q asset sources dests rest)
        (over_sources-Routed asset sources dests rest r)

  over_assets-Routed :
      (assets sources dests : List Text) → AllRouted (over_assets q assets sources dests)
  unfolding over_assets
  over_assets-Routed [] sources dests = tt
  over_assets-Routed (asset ∷ assets) sources dests =
      over_sources-Routed asset sources dests (over_assets q assets sources dests)
        (over_assets-Routed assets sources dests)

  insert_plan-Routed :
      (p : TransferPlan) (ps : List TransferPlan)
      → Routed q p
      → AllRouted ps
      → AllRouted (insert_plan p ps)
  insert_plan-Routed p [] h r = (h, tt)
  insert_plan-Routed p (x ∷ xs) h r = elim (Bool-cases (le_dec (plan_net x) (plan_net p))) [
    | inl e ↦ rw e (h, r)
    | inr e ↦ rw e (r.0, insert_plan-Routed p xs h r.1)
  ]

  sort_plans-Routed : (ps : List TransferPlan) → AllRouted ps → AllRouted (sort_plans ps)
  unfolding sort_plans
  sort_plans-Routed [] r = tt
  sort_plans-Routed (p ∷ ps) r = insert_plan-Routed p (sort_plans ps) r.0 (sort_plans-Routed ps r.1)

  -- Every plan that a search returns belongs to a route, and buys its asset on its source and sells
  -- it on its destination: both of its frozen books are there, and one that is stale was missing or
  -- stale when the search began, so that the batch took it up, whether or not its refresh worked;
  -- they pass the sanity check; the plan takes the network and the fee that the selector chose among the networks of both venues,
  -- moves a positive amount that this network lets withdraw between two different venues, and
  -- earns at least the smallest net profit; whatever the other routes answer.
  pub plan-Routed : (asset source dest : Option Text) → All (Routed q) (plan q asset source dest)
  unfolding plan
  plan-Routed asset source dest = sort_plans-Routed _ (
      over_assets-Routed (given_or asset normalise q.assets)
        (given_or source (λ v. lower (strip v)) q.batch.venues)
        (given_or dest (λ v. lower (strip v)) q.batch.venues))
