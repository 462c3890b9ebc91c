-- ===== src/Orders/Evidence.antt =====
-- How the three readings of an order's outcome exclude and exhaust one another.
use crypto_arbitrage_bot_ref.Base.{◌≡◌, Bool, true, false, ◌⊎◌, arith}
use crypto_arbitrage_bot_ref.Orders.{
  Order, is_confirmed_fill, outcome_unconfirmed, confirmed_not_filled,
}

-- The three tests on an order (confirmed fill, confirmed not filled, outcome unconfirmed).
abbrev pub ExactlyOne : Bool → Bool → Bool → Type 0
ExactlyOne a b c =
    (a ≡ true) × (b ≡ false) × (c ≡ false)
    ⊎ ((a ≡ false) × (b ≡ true) × (c ≡ false) ⊎ (a ≡ false) × (b ≡ false) × (c ≡ true))

-- Every order, whatever its status and amounts, passes exactly one of the three tests
-- `is_confirmed_fill`, `confirmed_not_filled` and `outcome_unconfirmed`.
pub order_evidence_trichotomy :
    (o : Order) → ExactlyOne (is_confirmed_fill o) (confirmed_not_filled o) (outcome_unconfirmed o)
unfolding is_confirmed_fill confirmed_not_filled outcome_unconfirmed
order_evidence_trichotomy o = ground arith
