-- ===== src/Scanner/Walk.antt =====
-- `_middle_edge`, `_walk_cycle` and the sizing loop of `_evaluate` in
-- app/strategies/triangular/scanner.py, with the fees of app/strategies/triangular/fees.py.
use crypto_arbitrage_bot_ref.Base.{
  ℕ, zero, suc, Bool, ◌&&◌, Option, none, some, List, [], ◌∷◌, Text, text, text_eq, strip, Dict,
  find, if◌then◌else◌,
}
use crypto_arbitrage_bot_ref.Money.{
  Decimal, dec, dec0, le_dec, lt_dec, sub_dec, mul_dec, div_dec, quantize,
}
use crypto_arbitrage_bot_ref.Orders.{OrderSide, Symbol}
use crypto_arbitrage_bot_ref.Result.{Result, ok, signal, ◌>>=◌}
use crypto_arbitrage_bot_ref.Precision.{round_step_down, lower}
use crypto_arbitrage_bot_ref.Fills.{OrderBook}
use crypto_arbitrage_bot_ref.MarketData.Store.{Snapshot}
use crypto_arbitrage_bot_ref.MarketData.Depth.{
  ExecutionEstimate, estimate_ratio, estimate_for_base_amount, add_amounts, add_notionals,
}
use crypto_arbitrage_bot_ref.MarketData.Budget.{estimate_for_quote_amount}

-- `MarketFees`, but for a flag that is only shown
pub record MarketFees : Type 0 where
  pub maker_bps : Decimal
  pub taker_bps : Decimal

pub record StaticFeeProvider : Type 0 where
  pub taker_bps : Decimal
  pub maker_bps : Decimal
  pub overrides : Dict MarketFees

-- `fees_for`; neither symbol nor market type matters
unfoldable pub fees_for : StaticFeeProvider → Text → Symbol → MarketFees
unfolding lower
fees_for p exchange_id symbol = elim (find (lower (strip exchange_id)) p.overrides) [
  | some fees ↦ fees
  | none ↦ record { maker_bps = p.maker_bps; taker_bps = p.taker_bps }
]

-- `TriangleRoute`; the first side is always a buy, the third a sell
pub record TriangleRoute : Type 0 where
  pub exchange_id : Text
  pub first_symbol : Symbol
  pub second_symbol : Symbol
  pub third_symbol : Symbol
  pub second_side : OrderSide
  pub leg2_book : Snapshot

-- the books that connect two assets, by base and quote
abbrev pub Crosses : Type 0
Crosses = List ((Text × Text) × Snapshot)

abbrev pub usdt : Text
usdt = text "USDT"

abbrev find_cross : Text → Text → Crosses → Option Snapshot
find_cross base quote [] = none
find_cross base quote (((b, q), s) ∷ d) =
    let rest = find_cross base quote d in if text_eq b base && text_eq q quote then some s else rest

abbrev in_usdt : Text → Symbol
in_usdt asset = record { base = asset; quote = usdt }

abbrev route_through : Text → Text → OrderSide → Snapshot → TriangleRoute
route_through first second side s = record {
  exchange_id = s.exchange_id;
  first_symbol = in_usdt first;
  second_symbol = s.book.symbol;
  third_symbol = in_usdt second;
  second_side = side;
  leg2_book = s;
}

-- `_middle_edge`
unfoldable pub middle_edge : Text → Text → Crosses → Option TriangleRoute
middle_edge first second crosses = elim (find_cross second first crosses) [
  | some s ↦ some (route_through first second OrderSide.buy s)
  | none ↦ elim (find_cross first second crosses) [
    | some s ↦ some (route_through first second OrderSide.sell s)
    | none ↦ none
  ]
]

-- `_CycleWalk`
pub record CycleWalk : Type 0 where
  pub est1 : ExecutionEstimate
  pub amt1 : Decimal
  pub est2 : ExecutionEstimate
  pub amt2 : Decimal
  pub est3 : ExecutionEstimate
  pub proceeds : Decimal

abbrev pub cycle_walk :
    ExecutionEstimate
    → Decimal
    → ExecutionEstimate
    → Decimal
    → ExecutionEstimate
    → Decimal
    → CycleWalk
cycle_walk e1 amt1 e2 amt2 e3 proceeds = record {
  est1 = e1;
  amt1 = amt1;
  est2 = e2;
  amt2 = amt2;
  est3 = e3;
  proceeds = proceeds;
}

-- one pass: a factor to shrink by, or the amounts
pub data Pass : Type 0 where
  shrink : Decimal → Pass
  walked : CycleWalk → Pass

-- what one ring is walked with: the route, its books, and the fees and steps of its legs
pub record Ring : Type 0 where
  pub route : TriangleRoute
  pub book1 : OrderBook
  pub book2 : OrderBook
  pub book3 : OrderBook
  pub taker1 : Decimal
  pub taker2 : Decimal
  pub taker3 : Decimal
  pub step1 : Option Decimal
  pub step2 : Option Decimal
  pub step3 : Option Decimal

-- `_FULL_FILL`
abbrev pub full_fill : Decimal
full_fill = dec 999 3

abbrev pub shrink_to : Decimal → Decimal → Result Pass
shrink_to supported needed =
    if lt_dec dec0 needed
    then (signal (div_dec supported needed) >>= λ f. ok (shrink f))
    else ok (shrink dec0)

-- what is left of an amount after a taker fee
abbrev pub after_taker : Decimal → Decimal → Decimal
after_taker a taker = mul_dec a (sub_dec (dec 1 0) taker)

-- an estimate that fills almost everything goes on, and any other one shrinks the ring
unfoldable pub if_full : ExecutionEstimate → Decimal → Decimal → Result Pass → Result Pass
if_full e supported needed next = estimate_ratio e >>= λ ratio.
    if lt_dec ratio full_fill then shrink_to supported needed else next

-- the third leg
unfoldable pub walk_third :
    Ring → ExecutionEstimate → Decimal → ExecutionEstimate → Decimal → Result Pass
unfolding if_full
walk_third r e1 amt1 e2 amt2 = estimate_for_base_amount r.book3 OrderSide.sell amt2 >>= λ est.
    if_full est (add_amounts dec0 r.book3.bids) amt2 (
      signal (quantize 8 (after_taker est.quote_amount r.taker3)) >>= λ proceeds.
      ok (walked (cycle_walk e1 amt1 e2 amt2 est proceeds)))

abbrev pub second_estimate : Ring → Decimal → Result ExecutionEstimate
second_estimate r amt1 = elim r.route.second_side [
  | OrderSide.buy ↦ estimate_for_quote_amount r.book2 OrderSide.buy amt1
  | OrderSide.sell ↦ estimate_for_base_amount r.book2 OrderSide.sell amt1
]

abbrev pub second_supported : Ring → Decimal
second_supported r = elim r.route.second_side [
  | OrderSide.buy ↦ add_notionals dec0 r.book2.asks
  | OrderSide.sell ↦ add_amounts dec0 r.book2.bids
]

abbrev pub second_received : Ring → ExecutionEstimate → Decimal
second_received r e = elim r.route.second_side [
  | OrderSide.buy ↦ e.filled_amount
  | OrderSide.sell ↦ e.quote_amount
]

-- the second leg
unfoldable pub walk_second : Ring → ExecutionEstimate → Decimal → Result Pass
unfolding if_full walk_third
walk_second r e1 amt1 = second_estimate r amt1 >>= λ est. if_full est (second_supported r) amt1 (
    round_step_down (after_taker (second_received r est) r.taker2) r.step2 >>= λ amt2.
    if le_dec amt2 dec0 then ok (shrink dec0) else walk_third r e1 amt1 est amt2)

-- `_walk_cycle`
unfoldable pub walk_cycle : Ring → Decimal → Result Pass
unfolding if_full walk_second
walk_cycle r q0 = estimate_for_quote_amount r.book1 OrderSide.buy q0 >>= λ est.
    if_full est (add_notionals dec0 r.book1.asks) q0 (
      round_step_down (after_taker est.filled_amount r.taker1) r.step1 >>= λ amt1.
      if le_dec amt1 dec0 then ok (shrink dec0) else walk_second r est amt1)

-- `_MAX_SIZING_PASSES`
abbrev pub max_sizing_passes : ℕ
max_sizing_passes = 8

abbrev pub under_floor : Option Decimal → Decimal → Bool
under_floor none q0 = Bool.false
under_floor (some floor) q0 = lt_dec q0 floor

-- a pass that walked ends the loop, and one that gives no positive factor too
abbrev pub after_pass : (Decimal → Result (Option CycleWalk)) → Pass → Result (Option CycleWalk)
after_pass again (walked w) = ok (some w)
after_pass again (shrink factor) = if le_dec factor dec0 then ok none else again factor

-- the sizing loop of `_evaluate`, with the passes left
unfoldable pub size_ring : ℕ → Ring → Option Decimal → Decimal → Result (Option CycleWalk)
unfolding walk_cycle
size_ring zero r floor q0 = ok none
size_ring (suc n) r floor q0 =
    let again = λ (factor : Decimal).
      signal (quantize 8 (mul_dec (mul_dec q0 factor) full_fill)) >>= λ q. size_ring n r floor q in
    if under_floor floor q0 then ok none else (walk_cycle r q0 >>= after_pass again)
