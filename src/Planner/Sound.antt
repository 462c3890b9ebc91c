-- ===== src/Planner/Sound.antt =====
-- What the planning of a pair in app/strategies/transfer/orchestrator.py lets through.
use crypto_arbitrage_bot_ref.Base.{
  ◌≡◌, ◌≢◌, ◌&&◌, inl, inr, refl, sym, subst, Bool, true, false, Bool-cases, Option, none, some,
  Text, is_some, arith, if◌then◌else◌,
}
use crypto_arbitrage_bot_ref.Money.{Decimal, dec0, le_dec, lt_dec, min_dec}
use crypto_arbitrage_bot_ref.Result.{Result, ok, ◌>>=◌, bind_yields, Yields, ok-Yields}
use crypto_arbitrage_bot_ref.Transfers.{TransferPlan, net_profit_bps}
use crypto_arbitrage_bot_ref.Fills.{OrderBook}
use crypto_arbitrage_bot_ref.Networks.{RouteNetwork}
use crypto_arbitrage_bot_ref.Planner.{
  BookRejection, validate_transfer_books, executable_amount, executable_amount_from_notional,
  affordable,
}
use crypto_arbitrage_bot_ref.Planner.Sizing.{
  executable_amount_withdrawable, from_notional_covered, evaluated_plan_sound,
}
use crypto_arbitrage_bot_ref.Planner.Prices.{PricePair, price_pair, build_plan}
use crypto_arbitrage_bot_ref.Planner.Pair.{
  PairSettings, PairAnswers, Size, largest_notional, max_age, taker_fees, priced_at, coin_size,
  resized, notional_size, pair_size, plan_from, via, route_of, plan_books,
}

-- a size that the route lets withdraw
abbrev Sized : RouteNetwork → Size → Type 0
Sized route none = Unit {0}
Sized route (some (amount, prices)) = le_dec route.withdrawal_min amount ≡ true

not_zero : (x : Decimal) → le_dec x dec0 ≡ false → x ≢ dec0
unfolding le_dec
not_zero x h e = absurd (ground (arith, subst (λ y. le_dec y dec0 ≡ false) e h))

module _ (s : PairSettings) (buy sell : OrderBook) (route : RouteNetwork) where
  priced_at-Yields :
      (probe amount : Decimal) (prices : PricePair)
      → le_dec route.withdrawal_min amount ≡ true
      → Yields (Sized route) (priced_at buy sell probe amount prices)
  unfolding priced_at
  priced_at-Yields probe amount prices h =
      elim (Bool-cases (le_dec amount probe && le_dec probe amount)) [
        | inl e ↦ rw e (ok-Yields (Sized route) (some (amount, prices)) h)
        | inr e ↦ rw e (
            bind_yields (Sized route) (price_pair buy sell amount) _
              (λ p _. ok-Yields (Sized route) (some (amount, p)) h))
      ]

  or_nothing :
      (amount : Decimal) (r : Result Size)
      → (le_dec amount dec0 ≡ false → Yields (Sized route) r)
      → Yields (Sized route) (if le_dec amount dec0 then ok none else r)
  or_nothing amount r k = elim (Bool-cases (le_dec amount dec0)) [
    | inl e ↦ rw e (ok-Yields (Sized route) none tt)
    | inr e ↦ rw e (k e)
  ]

  by_coins :
      (requested available price : Decimal) (max_amount max_notional : Option Decimal) (x : Decimal)
      → executable_amount requested route.withdrawal_min available price max_amount max_notional
        ≡ ok x
      → le_dec x dec0 ≡ false
      → le_dec route.withdrawal_min x ≡ true
  by_coins requested available price max_amount max_notional x h n =
      elim (executable_amount_withdrawable requested route.withdrawal_min available price max_amount
        max_notional x h) [ inl e ↦ absurd (not_zero x n e) | inr p ↦ p.1 ]

  by_budget :
      (notional available price x : Decimal)
      → executable_amount_from_notional s.min_notional_quote notional available price
          route.withdrawal_min s.max_amount
        ≡ ok x
      → le_dec x dec0 ≡ false
      → le_dec route.withdrawal_min x ≡ true
  by_budget notional available price x h n =
      elim (from_notional_covered s.min_notional_quote notional available price route.withdrawal_min
        s.max_amount x h) [ inl e ↦ absurd (not_zero x n e) | inr p ↦ p.1 ]

  coin_size-Yields :
      (available requested : Decimal)
      → Yields (Sized route) (coin_size s buy sell route available requested)
  unfolding coin_size
  coin_size-Yields available requested =
      bind_yields (Sized route) (price_pair buy sell _) _ (λ prices _.
        bind_yields (Sized route)
          (executable_amount requested route.withdrawal_min available prices.buy_price s.max_amount
            (some (largest_notional s)))
          _
          (λ x e. or_nothing x _ (λ n. priced_at-Yields _ x prices (
            by_coins requested available prices.buy_price s.max_amount (some (largest_notional s)) x
              e n))))

  resized-Yields :
      (notional available est amount : Decimal) (prices : PricePair)
      → le_dec route.withdrawal_min amount ≡ true
      → Yields (Sized route) (resized s buy sell route notional available est amount prices)
  unfolding resized
  resized-Yields notional available est amount prices h =
      elim (Bool-cases (le_dec amount est && le_dec est amount)) [
        | inl e ↦ rw e (ok-Yields (Sized route) (some (amount, prices)) h)
        | inr e ↦ rw e (
            bind_yields (Sized route) (price_pair buy sell amount) _ (λ again _.
              bind_yields (Sized route)
                (executable_amount_from_notional s.min_notional_quote notional available
                  again.buy_price route.withdrawal_min s.max_amount)
                _
                (λ x d. or_nothing x _ (λ n.
                  priced_at-Yields est x again
                    (by_budget notional available again.buy_price x d n)))))
      ]

  size_if :
      (b : Bool) (r : Result Size)
      → Yields (Sized route) r
      → Yields (Sized route) (if b then ok none else r)
  size_if true r y = ok-Yields (Sized route) none tt
  size_if false r y = y

  notional_size-Yields :
      (available : Decimal) → Yields (Sized route) (notional_size s buy sell route available)
  unfolding notional_size
  notional_size-Yields available =
      let notional = min_dec (largest_notional s) available in
      size_if _ _ (
        size_if _ _ (
          bind_yields (Sized route) (affordable notional _) _ (λ found _.
            bind_yields (Sized route) (price_pair buy sell _) _ (λ prices _.
              bind_yields (Sized route)
                (executable_amount_from_notional s.min_notional_quote notional available
                  prices.buy_price route.withdrawal_min s.max_amount)
                _
                (λ x e. or_nothing x _ (λ n.
                  resized-Yields notional available _ x prices
                    (by_budget notional available prices.buy_price x e n)))))))

  pair_size-Yields :
      (available : Decimal) (amount : Option Decimal)
      → Yields (Sized route) (pair_size s buy sell route available amount)
  unfolding pair_size
  pair_size-Yields available none = notional_size-Yields available
  pair_size-Yields available (some requested) = coin_size-Yields available requested

-- a plan of the asset from the source to the destination, two different venues, over two books that
-- pass the sanity check, with the network and fee of the route that the selector chose, a positive
-- amount that this route lets withdraw, and enough net profit
pub record SoundPlan (s : PairSettings) (a : PairAnswers) (buy sell : OrderBook)
    (source dest asset : Text) (p : TransferPlan) : Type 0 where
  pub from_source : p.source_exchange ≡ source
  pub to_dest : p.dest_exchange ≡ dest
  pub of_asset : p.asset ≡ asset
  pub route : RouteNetwork
  pub sane : validate_transfer_books buy sell s.max_gross_divergence_bps ≡ ok none
  pub chosen : route_of a ≡ some route
  pub network : p.network ≡ route.network
  pub fee : p.withdrawal_fee ≡ route.withdrawal_fee
  pub withdrawable : le_dec route.withdrawal_min p.amount ≡ true
  pub positive : lt_dec dec0 p.amount ≡ true
  pub apart : p.source_exchange ≢ p.dest_exchange
  pub earns :
      (net : Decimal) × (net_profit_bps p ≡ some net) × (le_dec s.min_net_profit_bps net ≡ true)

module _ (s : PairSettings) (a : PairAnswers) (buy sell : OrderBook)
    (source dest asset : Text) where
  abbrev pub IsSound : Option TransferPlan → Type 0
  IsSound none = Unit {0}
  IsSound (some p) = SoundPlan s a buy sell source dest asset p

  plan_from-Yields :
      (route : RouteNetwork) (size : Size)
      → validate_transfer_books buy sell s.max_gross_divergence_bps ≡ ok none
      → route_of a ≡ some route
      → Sized route size
      → Yields IsSound (plan_from s a source dest asset route size)
  unfolding plan_from build_plan
  plan_from-Yields route none hv hr hw o h = ok-Yields IsSound none tt o h
  plan_from-Yields route (some (amount, prices)) hv hr hw none h = tt
  plan_from-Yields route (some (amount, prices)) hv hr hw (some q) h =
      let plan : TransferPlan =
        record (build_plan source dest asset route.network amount prices (taker_fees a.buy_fees)
          (taker_fees a.sell_fees) route.withdrawal_fee dec0) {
            data_age_ms = max_age a.buy_age a.sell_age;
          } in
      let (same, positive, _, _, apart, earns) =
        evaluated_plan_sound s.min_net_profit_bps plan q h in
      subst (SoundPlan s a buy sell source dest asset) (sym same) (record {
        from_source = refl;
        to_dest = refl;
        of_asset = refl;
        route = route;
        sane = hv;
        chosen = hr;
        network = refl;
        fee = refl;
        withdrawable = hw;
        positive = positive;
        apart = apart;
        earns = earns;
      })

  via-Yields :
      (r : Option RouteNetwork) (next : RouteNetwork → Result (Option TransferPlan))
      → ((route : RouteNetwork) → r ≡ some route → Yields IsSound (next route))
      → Yields IsSound (via r next)
  via-Yields none next k = ok-Yields IsSound none tt
  via-Yields (some route) next k = k route refl

  sane_or_nothing :
      (route : RouteNetwork) (verdict : Option BookRejection)
      → validate_transfer_books buy sell s.max_gross_divergence_bps ≡ ok verdict
      → route_of a ≡ some route
      → (available : Decimal) (amount : Option Decimal)
      → Yields IsSound (
          if is_some verdict
          then ok none
          else (pair_size s buy sell route available amount
              >>= plan_from s a source dest asset route))
  sane_or_nothing route (some why) hv hr available amount = ok-Yields IsSound none tt
  sane_or_nothing route none hv hr available amount =
      bind_yields IsSound (pair_size s buy sell route available amount) _ (λ size e.
        plan_from-Yields route size hv hr
          (pair_size-Yields s buy sell route available amount size e))

  pub plan_books-Yields :
      (amount : Option Decimal) (found : Option TransferPlan)
      → plan_books s a source dest asset amount buy sell ≡ ok found
      → IsSound found
  unfolding plan_books
  plan_books-Yields amount = via-Yields (route_of a) _ (λ route hr.
      bind_yields IsSound (validate_transfer_books buy sell s.max_gross_divergence_bps) _
        (λ verdict hv. sane_or_nothing route verdict hv hr _ amount))
