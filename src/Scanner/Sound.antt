-- ===== src/Scanner/Sound.antt =====
-- What `_evaluate` of app/strategies/triangular/scanner.py publishes: only rings that every book can
-- carry.
use crypto_arbitrage_bot_ref.Base.{
  ℕ, zero, suc, ◌≡◌, refl, Bool, true, false, ◌&&◌, ◌||◌, Option, none, some, [], ◌∷◌, Text, arith,
  inl, inr, Bool-cases, if◌then◌else◌,
}
use crypto_arbitrage_bot_ref.Money.{Decimal, dec, dec0, le_dec, lt_dec, mul_dec, quantize, div_dec}
use crypto_arbitrage_bot_ref.Money.Compare.{le_dec_total}
use crypto_arbitrage_bot_ref.Fills.{OrderBook}
use crypto_arbitrage_bot_ref.Orders.{OrderSide, Symbol}
use crypto_arbitrage_bot_ref.Transfers.{bps}
use crypto_arbitrage_bot_ref.Result.{Result, ok, signal, bind_yields, Yields, ok-Yields}
use crypto_arbitrage_bot_ref.Precision.{round_step_down}
use crypto_arbitrage_bot_ref.MarketData.Store.{Snapshot}
use crypto_arbitrage_bot_ref.MarketData.Depth.{
  ExecutionEstimate, estimate_ratio, estimate_for_base_amount, add_amounts, add_notionals,
}
use crypto_arbitrage_bot_ref.MarketData.Budget.{estimate_for_quote_amount}
use crypto_arbitrage_bot_ref.Opportunity.{ProfitBreakdown, ArbitrageLeg, ArbitrageOpportunity}
use crypto_arbitrage_bot_ref.Scanner.Walk.{
  TriangleRoute, CycleWalk, cycle_walk, Pass, shrink, walked, Ring, full_fill, shrink_to,
  after_taker, if_full, walk_third, second_estimate, second_supported, second_received, walk_second,
  walk_cycle, max_sizing_passes, after_pass, under_floor, size_ring,
}
use crypto_arbitrage_bot_ref.Scanner.Rings.{
  TriangularScanner, is_old, min_cost_of, filters_of, ring_of, slips, total_slippage, profit_of,
  leg_from, published, publish_walk, evaluate_ring,
}

-- the estimate fills at least 99.9 percent of what was asked of it
pub record Full (e : ExecutionEstimate) : Type 0 where
  pub ratio : Decimal
  pub measured : estimate_ratio e ≡ ok ratio
  pub enough : le_dec (dec 999 3) ratio ≡ true

-- the price of a taker order on a book: a buy spends an amount of the quote, a sell one of the base
abbrev pub priced_by : OrderSide → OrderBook → Decimal → Result ExecutionEstimate
priced_by side book a = elim side [
  | OrderSide.buy ↦ estimate_for_quote_amount book OrderSide.buy a
  | OrderSide.sell ↦ estimate_for_base_amount book OrderSide.sell a
]

-- the estimate is what its book says, and it is full
abbrev Priced : Result ExecutionEstimate → ExecutionEstimate → Type 0
Priced asked e = (asked ≡ ok e) × Full e

-- a walk whose three estimates are priced, each book asked for what the leg before gave
abbrev WalkedOn : Ring → CycleWalk → Type 0
WalkedOn r w =
    ((budget : Decimal) × Priced (priced_by OrderSide.buy r.book1 budget) w.est1)
    × Priced (priced_by r.route.second_side r.book2 w.amt1) w.est2
    × Priced (priced_by OrderSide.sell r.book3 w.amt2) w.est3

abbrev FullPass : Ring → Pass → Type 0
FullPass r (shrink factor) = Unit {0}
FullPass r (walked w) = WalkedOn r w

-- the walk that a sizing loop returns, if it returns one
abbrev FullWalk : Ring → Option CycleWalk → Type 0
FullWalk r none = Unit {0}
FullWalk r (some w) = WalkedOn r w

le_dec_of_lt : (a b : Decimal) → lt_dec b a ≡ false → le_dec a b ≡ true
le_dec_of_lt a b h = ground (arith, le_dec_total b a)

module _ (r : Ring) where
  shrink_to-Yields : (supported needed : Decimal) → Yields (FullPass r) (shrink_to supported needed)
  shrink_to-Yields supported needed = elim (Bool-cases (lt_dec dec0 needed)) [
    | inl e ↦ rw e (
        bind_yields (FullPass r) (signal (div_dec supported needed)) _
          (λ f _. ok-Yields (FullPass r) (shrink f) tt))
    | inr e ↦ rw e (ok-Yields (FullPass r) (shrink dec0) tt)
  ]

  if_full-Yields :
      (e : ExecutionEstimate) (supported needed : Decimal) (next : Result Pass)
      → (Full e → Yields (FullPass r) next)
      → Yields (FullPass r) (if_full e supported needed next)
  unfolding if_full
  if_full-Yields e supported needed next k =
      bind_yields (FullPass r) (estimate_ratio e) _ (λ ratio m.
        elim (Bool-cases (lt_dec ratio full_fill)) [
          | inl y ↦ rw y (shrink_to-Yields supported needed)
          | inr n ↦
              rw n (
                k (record { ratio = ratio; measured = m; enough = le_dec_of_lt full_fill ratio n }))
        ])

  or_shrink :
      (b : Bool) (next : Result Pass)
      → Yields (FullPass r) next
      → Yields (FullPass r) (if b then ok (shrink dec0) else next)
  or_shrink false next y p h = y p h
  or_shrink true next y p h = ok-Yields (FullPass r) (shrink dec0) tt p h

  walk_third-Yields :
      (e1 : ExecutionEstimate) (amt1 : Decimal) (e2 : ExecutionEstimate) (amt2 : Decimal)
      → (budget : Decimal) × Priced (priced_by OrderSide.buy r.book1 budget) e1
      → Priced (priced_by r.route.second_side r.book2 amt1) e2
      → Yields (FullPass r) (walk_third r e1 amt1 e2 amt2)
  unfolding walk_third
  walk_third-Yields e1 amt1 e2 amt2 f1 f2 =
      bind_yields (FullPass r) (estimate_for_base_amount r.book3 OrderSide.sell amt2) _ (λ est h3.
        if_full-Yields est (add_amounts dec0 r.book3.bids) amt2 _ (λ f3.
          bind_yields (FullPass r) (signal (quantize 8 (after_taker est.quote_amount r.taker3))) _
            (λ proceeds _ p h.
              ok-Yields (FullPass r) (walked (cycle_walk e1 amt1 e2 amt2 est proceeds))
                (f1, f2, (h3, f3)) p h)))

  walk_second-Yields :
      (e1 : ExecutionEstimate) (amt1 : Decimal)
      → (budget : Decimal) × Priced (priced_by OrderSide.buy r.book1 budget) e1
      → Yields (FullPass r) (walk_second r e1 amt1)
  unfolding walk_second
  walk_second-Yields e1 amt1 f1 = bind_yields (FullPass r) (second_estimate r amt1) _ (λ est h2.
      if_full-Yields est (second_supported r) amt1 _ (λ f2.
        bind_yields (FullPass r)
          (round_step_down (after_taker (second_received r est) r.taker2) r.step2) _
          (λ amt2 _.
            or_shrink (le_dec amt2 dec0) (walk_third r e1 amt1 est amt2)
              (walk_third-Yields e1 amt1 est amt2 f1 (h2, f2)))))

  walk_cycle-Yields : (q0 : Decimal) → Yields (FullPass r) (walk_cycle r q0)
  unfolding walk_cycle
  walk_cycle-Yields q0 =
      bind_yields (FullPass r) (estimate_for_quote_amount r.book1 OrderSide.buy q0) _ (λ est h1.
        if_full-Yields est (add_notionals dec0 r.book1.asks) q0 _ (λ f1.
          bind_yields (FullPass r)
            (round_step_down (after_taker est.filled_amount r.taker1) r.step1) _
            (λ amt1 _.
              or_shrink (le_dec amt1 dec0) (walk_second r est amt1)
                (walk_second-Yields est amt1 (q0, (h1, f1))))))

  after_pass-Yields :
      (again : Decimal → Result (Option CycleWalk)) (pass : Pass)
      → (FullPass r) pass
      → ((f : Decimal) → Yields (FullWalk r) (again f))
      → Yields (FullWalk r) (after_pass again pass)
  after_pass-Yields again (walked w) f k = ok-Yields (FullWalk r) (some w) f
  after_pass-Yields again (shrink factor) f k = elim (Bool-cases (le_dec factor dec0)) [
    | inl e ↦ rw e (ok-Yields (FullWalk r) none tt)
    | inr e ↦ rw e (k factor)
  ]

  size_ring-Yields :
      (n : ℕ) (floor : Option Decimal) (q0 : Decimal) → Yields (FullWalk r) (size_ring n r floor q0)
  unfolding size_ring
  size_ring-Yields zero floor q0 = ok-Yields (FullWalk r) none tt
  size_ring-Yields (suc n) floor q0 = elim (Bool-cases (under_floor floor q0)) [
    | inl e ↦ rw e (ok-Yields (FullWalk r) none tt)
    | inr e ↦ rw e (
        bind_yields (FullWalk r) (walk_cycle r q0) _ (λ pass h.
          after_pass-Yields _ pass (walk_cycle-Yields q0 pass h) (λ f.
            bind_yields (FullWalk r) (signal (quantize 8 (mul_dec (mul_dec q0 f) full_fill))) _
              (λ q _. size_ring-Yields n floor q))))
  ]

-- a leg that its book carries: the book, asked for the leg's size, gave its estimate and average
-- price, and that is full and slips no more than the bound
pub record Carried (bound : Decimal) (asked : Result ExecutionEstimate) (l : ArbitrageLeg)
    : Type 0 where
  pub estimate : ExecutionEstimate
  pub found : l.estimate ≡ some estimate
  pub answered : asked ≡ ok estimate
  pub full : Full estimate
  pub within : lt_dec bound estimate.slippage_bps ≡ false
  pub at_price : l.price ≡ estimate.average_price

-- three legs, each carried by its own book: the first spends a budget in USDT, the second what the
-- first one got, and the third sells what the second one is published with
pub record SoundRing (bound : Decimal) (side : OrderSide) (book1 book2 book3 : OrderBook)
    (o : ArbitrageOpportunity) : Type 0 where
  pub first : ArbitrageLeg
  pub second : ArbitrageLeg
  pub third : ArbitrageLeg
  pub legs : o.legs_route ≡ first ∷ second ∷ third ∷ []
  pub budget : Decimal
  pub first_carried : Carried bound (priced_by OrderSide.buy book1 budget) first
  pub second_carried : Carried bound (priced_by side book2 first.amount) second
  pub third_carried : Carried bound (priced_by OrderSide.sell book3 second.amount) third
  pub sides : (first.side ≡ OrderSide.buy) × (second.side ≡ side) × (third.side ≡ OrderSide.sell)

abbrev SoundOn : Decimal → Ring → Option ArbitrageOpportunity → Type 0
SoundOn bound r none = Unit {0}
SoundOn bound r (some o) = SoundRing bound r.route.second_side r.book1 r.book2 r.book3 o

not_slipping :
    (bound : Decimal) (w : CycleWalk)
    → slips bound w ≡ false
    → (lt_dec bound w.est1.slippage_bps ≡ false)
      × (lt_dec bound w.est2.slippage_bps ≡ false)
      × (lt_dec bound w.est3.slippage_bps ≡ false)
not_slipping bound w h = ground arith

carried :
    (bound : Decimal) (asked : Result ExecutionEstimate) (venue : Text) (symbol : Symbol)
    (side : OrderSide) (e : ExecutionEstimate) (amount taker : Decimal)
    → Priced asked e
    → lt_dec bound e.slippage_bps ≡ false
    → Carried bound asked (leg_from venue symbol side e amount taker)
carried bound asked venue symbol side e amount taker p h = record {
  estimate = e;
  found = refl;
  answered = p.0;
  full = p.1;
  within = h;
  at_price = refl;
}

walk-SoundRing :
    (bound : Decimal) (venue : Text) (now ttl_ms : ℕ) (r : Ring) (w : CycleWalk)
    (profit : ProfitBreakdown)
    → WalkedOn r w
    → slips bound w ≡ false
    → SoundRing bound r.route.second_side r.book1 r.book2 r.book3
        (published venue now ttl_ms r w profit)
walk-SoundRing bound venue now ttl_ms r w profit ((budget, p1), p2, p3) h =
    let n = not_slipping bound w h in
    let route = r.route in
    record {
      first = leg_from venue route.first_symbol OrderSide.buy w.est1 w.amt1 r.taker1;
      second = leg_from venue route.second_symbol route.second_side w.est2 w.amt2 r.taker2;
      third = leg_from venue route.third_symbol OrderSide.sell w.est3 w.amt2 r.taker3;
      legs = refl;
      budget = budget;
      first_carried =
          carried bound _ venue route.first_symbol OrderSide.buy w.est1 w.amt1 r.taker1 p1 n.0;
      second_carried =
          carried bound _ venue route.second_symbol route.second_side w.est2 w.amt2 r.taker2 p2 n.1;
      third_carried =
          carried bound _ venue route.third_symbol OrderSide.sell w.est3 w.amt2 r.taker3 p3 n.2;
      sides = (refl, refl, refl);
    }

module _ (P : Option ArbitrageOpportunity → Type 0) (nothing : P none) where
  or_none :
      (b : Bool) (next : Result (Option ArbitrageOpportunity))
      → (b ≡ false → Yields P next)
      → Yields P (if b then ok none else next)
  or_none true next k = ok-Yields P none nothing
  or_none false next k = k refl

module _ (sc : TriangularScanner) (venue : Text) (now ttl_ms : ℕ) where
  publish_walk-Yields :
      (r : Ring) (w : Option CycleWalk)
      → FullWalk r w
      → Yields (SoundOn sc.max_leg_slippage_bps r) (publish_walk sc venue now ttl_ms r w)
  unfolding publish_walk
  publish_walk-Yields r none f = ok-Yields (SoundOn sc.max_leg_slippage_bps r) none tt
  publish_walk-Yields r (some w) f =
      let here = SoundOn sc.max_leg_slippage_bps r in
      or_none here tt (le_dec w.est3.quote_amount dec0) _ (λ _.
        bind_yields here (signal (quantize 4 (total_slippage w))) _ (λ slippage _.
          or_none here tt (slips sc.max_leg_slippage_bps w) _ (λ h.
            or_none here tt (le_dec w.est1.quote_amount dec0) _ (λ _.
              bind_yields here (profit_of r w slippage) _ (λ profit _.
                ok-Yields here (some (published venue now ttl_ms r w profit))
                  (walk-SoundRing sc.max_leg_slippage_bps venue now ttl_ms r w profit f h))))))

  module _ (route : TriangleRoute) (book1 book3 : OrderBook) where
    abbrev SoundBooks : Option ArbitrageOpportunity → Type 0
    SoundBooks none = Unit {0}
    SoundBooks (some o) =
        SoundRing sc.max_leg_slippage_bps route.second_side book1 route.leg2_book.book book3 o

    -- what is sound on the ring that was built is sound on the books that it was built from
    abbrev FromBooks : Ring → Type 0
    FromBooks r =
        (o : Option ArbitrageOpportunity) → SoundOn sc.max_leg_slippage_bps r o → SoundBooks o

    ring_of-FromBooks : Yields FromBooks (ring_of sc venue route book1 book3)
    unfolding ring_of
    ring_of-FromBooks =
        bind_yields FromBooks
          (signal (div_dec (sc.fees_for venue route.first_symbol).taker_bps bps)) _
          (λ t1 _.
            bind_yields FromBooks
              (signal (div_dec (sc.fees_for venue route.second_symbol).taker_bps bps)) _
              (λ t2 _.
                bind_yields FromBooks
                  (signal (div_dec (sc.fees_for venue route.third_symbol).taker_bps bps)) _
                  (λ t3 _. ok-Yields FromBooks _ (λ o x. x))))

  -- A ring that is published has three legs on the three books of its route. Each book, asked for
  -- the size of its leg, gave the leg's estimate and price: the first for a budget in USDT, the
  -- second for the amount that the first leg buys, the third for the amount that the second leg is
  -- published with. Each estimate fills at least 99.9 percent of what was asked and slips at most
  -- the setting's bound, whatever the sizing loop had to shrink on the way.
  pub evaluate_ring-SoundRing :
      (require_fresh : Bool) (route : TriangleRoute) (leg1 leg3 : Snapshot) (notional : Decimal)
      (o : ArbitrageOpportunity)
      → evaluate_ring sc venue now ttl_ms require_fresh route leg1 leg3 notional ≡ ok (some o)
      → SoundRing sc.max_leg_slippage_bps route.second_side leg1.book route.leg2_book.book leg3.book
          o
  unfolding evaluate_ring
  evaluate_ring-SoundRing require_fresh route leg1 leg3 notional o h =
      let P = SoundBooks route leg1.book leg3.book in
      or_none P tt
        (require_fresh
          && (is_old sc now leg1 || is_old sc now route.leg2_book || is_old sc now leg3))
        _
        (λ _. bind_yields P (ring_of sc venue route leg1.book leg3.book) _ (λ r built.
          bind_yields P
            (size_ring max_sizing_passes r (min_cost_of (filters_of sc venue route.first_symbol))
              notional)
            _
            (λ w e found x. ring_of-FromBooks route leg1.book leg3.book r built found (
              publish_walk-Yields r w
                (size_ring-Yields r max_sizing_passes
                  (min_cost_of (filters_of sc venue route.first_symbol)) notional w e)
                found x))))
        (some o) h
