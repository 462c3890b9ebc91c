-- ===== src/MarketData/Walks.antt =====
-- Two walks of app/market_data/order_book.py agree: `vwap` prices what `estimate_for_base_amount`
-- takes from the book.
use crypto_arbitrage_bot_ref.Base.{
  ◌≡◌, refl, false, Option, none, some, List, [], ◌∷◌, All, arith, inl, inr, Bool-cases,
  if◌then◌else◌,
}
use crypto_arbitrage_bot_ref.Money.{Decimal, dec0, le_dec, min_dec}
use crypto_arbitrage_bot_ref.Fills.{Level}
use crypto_arbitrage_bot_ref.MarketData.Depth.{
  Walked, take_base, walk_amount, vwap_quote, average_if, vwap, start_with,
}

-- the levels of a real book hold something
abbrev pub Holds : Level → Type 0
Holds l = le_dec l.amount dec0 ≡ false

min_dec_positive :
    (a b : Decimal)
    → le_dec a dec0 ≡ false
    → le_dec b dec0 ≡ false
    → le_dec (min_dec a b) dec0 ≡ false
unfolding min_dec
min_dec_positive a b h k = ground arith

-- what the walk took, if it took all
abbrev taken : Walked → Option Decimal
taken w = if le_dec w.remaining dec0 then some w.quote else none

vwap_quote-walk_amount :
    (ls : List Level) (w : Walked)
    → All Holds ls
    → le_dec w.remaining dec0 ≡ false
    → vwap_quote ls w.remaining w.quote ≡ taken (walk_amount ls w)
unfolding vwap_quote walk_amount
vwap_quote-walk_amount [] w h r = rw r refl
vwap_quote-walk_amount (l ∷ ls) w h r =
    let m = min_dec_positive w.remaining l.amount r h.0 in
    elim (Bool-cases (le_dec (take_base l w).remaining dec0)) [
      | inl e ↦ rw (m, e, e) refl
      | inr e ↦ rw (m, e) (vwap_quote-walk_amount ls (take_base l w) h.1 e)
    ]

-- On levels that hold something and for a positive amount, `vwap` is the average of the quote that
-- the walk of `estimate_for_base_amount` takes where that walk is complete, and there is none where
-- it is not.
pub vwap-walk_amount :
    (ls : List Level) (amount : Decimal)
    → All Holds ls
    → le_dec amount dec0 ≡ false
    → let w = walk_amount ls (start_with amount) in
      vwap ls amount ≡ average_if (if le_dec w.remaining dec0 then some w.quote else none) amount
unfolding vwap
vwap-walk_amount ls amount h r = rw (r, vwap_quote-walk_amount ls (start_with amount) h r) refl
