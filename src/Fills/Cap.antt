-- ===== src/Fills/Cap.antt =====
-- The slippage cap ends the walk: levels from the first that breaches it on play no part.
use crypto_arbitrage_bot_ref.Base.{
  ◌≡◌, refl, sym, ◌∙◌, Bool, true, not, List, [], ◌∷◌, All, arith, if◌then◌else◌, ap, Bool-cases,
  inl, inr,
}
use crypto_arbitrage_bot_ref.Money.{Decimal, dec0, le_dec, min_dec, add_dec, sub_dec, mul_dec}
use crypto_arbitrage_bot_ref.Money.Compare.{le_dec_total}
use crypto_arbitrage_bot_ref.Money.Context.{add_dec_nonneg}
use crypto_arbitrage_bot_ref.Orders.{OrderSide}
use crypto_arbitrage_bot_ref.Result.{Result, ok, raise}
use crypto_arbitrage_bot_ref.Fills.{
  Simulator, OrderBook, price_cap, simulate_on, Level, Size, base_size, quote_size, breaches,
  walk_base, walk_quote, walk, take_level,
}

-- a price no worse than the bound: a buy pays at most that much, a sell gets at least that much
abbrev pub no_worse : OrderSide → Decimal → Decimal → Bool
no_worse OrderSide.buy bound price = le_dec price bound
no_worse OrderSide.sell bound price = le_dec bound price

-- the levels before the first whose price is worse than the bound
abbrev pub reachable : OrderSide → Decimal → List Level → List Level
reachable side bound [] = []
reachable side bound (l ∷ ls) =
    let rest = reachable side bound ls in if no_worse side bound l.price then l ∷ rest else []

breaches_lem :
    (side : OrderSide) (bound : Decimal) (l : Level)
    → breaches side bound l ≡ not (no_worse side bound l.price)
breaches_lem OrderSide.buy bound l = ground arith
breaches_lem OrderSide.sell bound l = ground arith

walk_base-reachable :
    (side : OrderSide) (bound : Decimal) (ls : List Level) (r f q : Decimal)
    → walk_base side bound ls r f q ≡ walk_base side bound (reachable side bound ls) r f q
unfolding walk_base
walk_base-reachable side bound [] r f q = refl
walk_base-reachable side bound (l ∷ ls) r f q =
    let take = min_dec r l.amount in
    ground (
      arith,
      breaches_lem side bound l,
      walk_base-reachable side bound ls (sub_dec r take) (add_dec f take)
          (add_dec q (mul_dec take l.price)),
    )

-- one step, from the claim for the levels below
quote_step :
    (side : OrderSide) (bound : Decimal) (l : Level) (ls : List Level) (r f q : Decimal)
    (t : Result (Decimal × Decimal))
    → ((r' f' q' : Decimal)
        → walk_quote side bound ls r' f' q'
          ≡ walk_quote side bound (reachable side bound ls) r' f' q')
    → take_level r l ≡ t
    → walk_quote side bound (l ∷ ls) r f q
      ≡ walk_quote side bound (reachable side bound (l ∷ ls)) r f q
unfolding walk_quote
quote_step side bound l ls r f q (raise e) ih h = ground (arith, breaches_lem side bound l)
quote_step side bound l ls r f q (ok (b, t)) ih h =
    ground (arith, breaches_lem side bound l, ih (sub_dec r t) (add_dec f b) (add_dec q t))

walk_quote-reachable :
    (side : OrderSide) (bound : Decimal) (ls : List Level) (r f q : Decimal)
    → walk_quote side bound ls r f q ≡ walk_quote side bound (reachable side bound ls) r f q
unfolding walk_quote
walk_quote-reachable side bound [] r f q = refl
walk_quote-reachable side bound (l ∷ ls) r f q =
    quote_step side bound l ls r f q (take_level r l) (walk_quote-reachable side bound ls) refl

-- A walk over a book side gives what a walk over its reachable levels gives.
walk_respects_cap :
    (side : OrderSide) (bound : Decimal) (levels : List Level) (size : Size)
    → walk side bound levels size ≡ walk side bound (reachable side bound levels) size
unfolding walk
walk_respects_cap side bound levels (base_size a) =
    ap ok (walk_base-reachable side bound levels a dec0 dec0)
walk_respects_cap side bound levels (quote_size a) =
    walk_quote-reachable side bound levels a dec0 dec0

reachable_again :
    (side : OrderSide) (bound : Decimal) (ls : List Level)
    → reachable side bound (reachable side bound ls) ≡ reachable side bound ls
reachable_again side bound [] = refl
reachable_again side bound (l ∷ ls) = elim (Bool-cases (no_worse side bound l.price)) [
  | inl e ↦ rw (e, e) (ap (λ (rest : List Level). l ∷ rest) (reachable_again side bound ls))
  | inr e ↦ rw e refl
]

below_best :
    (side : OrderSide) (bound : Decimal) (l : Level) (ls : List Level)
    → reachable side bound (l ∷ reachable side bound ls) ≡ reachable side bound (l ∷ ls)
below_best side bound l ls = elim (Bool-cases (no_worse side bound l.price)) [
  | inl e ↦ rw e (ap (λ (rest : List Level). l ∷ rest) (reachable_again side bound ls))
  | inr e ↦ rw e refl
]

walk_below_best :
    (side : OrderSide) (bound : Decimal) (l : Level) (ls : List Level) (size : Size)
    → walk side bound (l ∷ ls) size ≡ walk side bound (l ∷ reachable side bound ls) size
walk_below_best side bound l ls size =
    walk_respects_cap side bound (l ∷ ls) size
    ∙ ap (λ levels. walk side bound levels size) (sym (below_best side bound l ls))
    ∙ sym (walk_respects_cap side bound (l ∷ reachable side bound ls) size)

-- What a paper order gets depends on the best level and on the levels below it before the first
-- whose price is worse than the slippage cap on the best price: whatever stands from there on, the
-- fill, its rejection or its exception is the same. A price is worse if a buy pays more or a sell
-- gets less.
pub simulate_respects_cap :
    (sim : Simulator) (book : OrderBook) (side : OrderSide) (size : Size) (l : Level)
    (ls : List Level) (bound : Decimal)
    → price_cap sim side l.price ≡ ok bound
    → simulate_on sim book side size (l ∷ ls)
      ≡ simulate_on sim book side size (l ∷ reachable side bound ls)
unfolding simulate_on
simulate_respects_cap sim book side size l ls bound h =
    rw (h, walk_below_best side bound l ls size) refl

min_dec_nonneg :
    (a b : Decimal) → le_dec dec0 a ≡ true → le_dec dec0 b ≡ true → le_dec dec0 (min_dec a b) ≡ true
unfolding min_dec
min_dec_nonneg a b h k = ground arith

-- From a positive base amount, over levels whose amounts are not negative, the walk fills an
-- amount that is not negative.
pub walk_base_nonneg :
    (side : OrderSide) (bound : Decimal) (ls : List Level) (r f q : Decimal)
    → All (λ l. le_dec dec0 l.amount ≡ true) ls
    → le_dec dec0 r ≡ true
    → le_dec dec0 f ≡ true
    → le_dec dec0 (walk_base side bound ls r f q).0 ≡ true
unfolding walk_base
walk_base_nonneg side bound [] r f q a hr hf = hf
walk_base_nonneg side bound (l ∷ ls) r f q a hr hf =
    let take = min_dec r l.amount in
    ground (
      arith,
      min_dec_nonneg r l.amount hr a.0,
      add_dec_nonneg f take hf,
      le_dec_total (sub_dec r take) dec0,
      walk_base_nonneg side bound ls (sub_dec r take) (add_dec f take)
          (add_dec q (mul_dec take l.price)) a.1,
    )
