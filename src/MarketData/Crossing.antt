-- ===== src/MarketData/Crossing.antt =====
-- The loop of `crossable_liquidity` in app/market_data/order_book.py ends.
use crypto_arbitrage_bot_ref.Base.{
  ℕ, zero, suc, ◌+◌, ◌*◌, ◌≤◌, ◌<◌, ◌≡◌, refl, ◌⊎◌, Bool, true, false, Option, none, some, List, [],
  ◌∷◌, length, is_some, arith, le→leb, if◌then◌else◌, ap,
}
use crypto_arbitrage_bot_ref.Int.{pos, pos_part, neg_part, sub_ℕ}
use crypto_arbitrage_bot_ref.Money.{
  Decimal, dec, dec0, arithmetic, le_dec, min_dec, sub_dec, round_context,
}
use crypto_arbitrage_bot_ref.Result.{Result, ok}
use crypto_arbitrage_bot_ref.Fills.{OrderBook, Level}
use crypto_arbitrage_bot_ref.MarketData.Budget.{
  Queue, Crossed, moved_on, cross, rounds, first_left, rounded_crossing, crossable_liquidity,
}

sub_ℕ_self : (n : ℕ) → sub_ℕ n n ≡ pos 0
unfolding sub_ℕ
sub_ℕ_self n = ground arith

round_zero : (s : ℕ) → round_context (pos 0) s ≡ record { coefficient = pos 0; scale = s }
unfolding round_context
round_zero s = refl

zero_le : (s : ℕ) → le_dec (record { coefficient = pos 0; scale = s }) dec0 ≡ true
unfolding le_dec
zero_le s = le→leb _ _ (omega arith)

difference_self :
    (p n u : ℕ) (s : ℕ)
    → le_dec (round_context (sub_ℕ (p * u + n * u) (n * u + p * u)) s) dec0 ≡ true
difference_self p n u s =
    let e : p * u + n * u ≡ n * u + p * u = omega arith in
    rw (e, sub_ℕ_self (n * u + p * u), round_zero s) (zero_le s)

sub_dec_self : (a : Decimal) → le_dec (sub_dec a a) dec0 ≡ true
unfolding sub_dec
sub_dec_self a = difference_self (pos_part a.coefficient) (neg_part a.coefficient) _ _

-- what is taken uses up one of the two levels
takes_one :
    (a b : Decimal)
    → (le_dec (sub_dec a (min_dec a b)) dec0 ≡ true)
      ⊎ (le_dec (sub_dec b (min_dec a b)) dec0 ≡ true)
unfolding min_dec
takes_one a b = ground (arith, sub_dec_self a, sub_dec_self b)

levels_of : Queue → ℕ
levels_of (ls, left) = length ls

moved_on_le :
    (l : Level) (ls : List Level) (left : Decimal)
    → levels_of (moved_on l ls left) ≤ suc (length ls)
unfolding moved_on levels_of
moved_on_le l ls left = ground arith

moved_on_used :
    (l : Level) (ls : List Level) (left : Decimal)
    → le_dec left dec0 ≡ true
    → levels_of (moved_on l ls left) ≡ length ls
unfolding moved_on levels_of
moved_on_used l ls left h = ground arith

if_is_some :
    {A : Type 0} (b : Bool) (x y : Option A)
    → is_some x ≡ true
    → is_some y ≡ true
    → is_some (if b then x else y) ≡ true
if_is_some true x y h k = h
if_is_some false x y h k = k

some_after :
    (found : Option Crossed)
    → is_some found ≡ true
    → is_some {A = Result (Decimal × Decimal)}
        (elim found [ none ↦ none | some sum ↦ some (rounded_crossing sum) ])
      ≡ true
some_after none h = absurd (ground arith)
some_after (some sum) h = refl

cross_ends :
    (fuel : ℕ) (asks bids : Queue) (sum : Crossed)
    → levels_of asks + levels_of bids < fuel
    → is_some (cross fuel asks bids sum) ≡ true
unfolding cross levels_of
cross_ends zero asks bids sum h = absurd (omega arith)
cross_ends (suc fuel) ([], x) bids sum h = refl
cross_ends (suc fuel) (a ∷ asks, x) ([], y) sum h = refl
cross_ends (suc fuel) (a ∷ asks, x) (b ∷ bids, y) sum h =
    let take = min_dec x y in
    let fewer : levels_of (moved_on a asks (sub_dec x take))
          + levels_of (moved_on b bids (sub_dec y take))
        < fuel =
      ground (
        arith,
        takes_one x y,
        moved_on_le a asks (sub_dec x take),
        moved_on_le b bids (sub_dec y take),
        moved_on_used a asks (sub_dec x take),
        moved_on_used b bids (sub_dec y take),
      ) in
    if_is_some (le_dec b.price a.price) (some sum) _ refl (cross_ends fuel _ _ _ fewer)

-- neither best price crosses the other book's
abbrev pub uncrossed : List Level → List Level → Bool
uncrossed (a ∷ asks) (b ∷ bids) = le_dec b.price a.price
uncrossed _ _ = true

nothing_crossed :
    (fuel : ℕ) (asks bids : List Level) (x y : Decimal) (sum : Crossed)
    → uncrossed asks bids ≡ true
    → cross (suc fuel) (asks, x) (bids, y) sum ≡ some sum
unfolding cross
nothing_crossed fuel [] bids x y sum h = refl
nothing_crossed fuel (a ∷ asks) [] x y sum h = refl
nothing_crossed fuel (a ∷ asks) (b ∷ bids) x y sum h = rw h refl

rounded_nothing : rounded_crossing (dec0, dec0) ≡ ok (dec 0 8, dec 0 8)
unfolding rounded_crossing arithmetic
rounded_nothing = refl

-- For any two books the loop of `crossable_liquidity` ends within one more round than there are
-- levels, whatever the amounts of the levels are; where the best bid does not exceed the best ask,
-- or a side is empty, nothing can be crossed.
pub crossable_liquidity_ends :
    (buy_book sell_book : OrderBook)
    → (is_some (crossable_liquidity buy_book sell_book) ≡ true)
      × (uncrossed buy_book.asks sell_book.bids ≡ true
          → crossable_liquidity buy_book sell_book ≡ some (ok (dec 0 8, dec 0 8)))
unfolding crossable_liquidity levels_of
crossable_liquidity_ends buy_book sell_book =
    let asks = buy_book.asks in
    let bids = sell_book.bids in
    (
      some_after _ (
          cross_ends (rounds buy_book sell_book) (asks, first_left asks) (bids, first_left bids)
            (dec0, dec0) (omega arith)),
      λ h.
          rw
            (nothing_crossed (length asks + length bids) asks bids (first_left asks)
              (first_left bids) (dec0, dec0) h)
            (ap (λ (r : Result (Decimal × Decimal)). some r) rounded_nothing),
    )
