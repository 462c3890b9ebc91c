-- ===== src/Recovery/Merge.antt =====
-- What `_merge` of app/recovery/recovery.py makes of the venue's view of an order.
use mathlib.Core.Logic.{◌↔◌}
use crypto_arbitrage_bot_ref.Base.{◌≡◌, ◌⊎◌, true, arith}
use crypto_arbitrage_bot_ref.Money.{le_dec, lt_dec}
use crypto_arbitrage_bot_ref.Money.Compare.{le_dec_refl, le_dec_total}
use crypto_arbitrage_bot_ref.Orders.{Order, OrderStatus}
use crypto_arbitrage_bot_ref.Recovery.{merge, merged_amount, merged_status}

-- The merged fill never exceeds what was ordered, and never exceeds what the venue reports.
pub merge_fill_bounded :
    (placed fetched : Order)
    → (le_dec (merge placed fetched).filled_amount placed.amount ≡ true)
      × (le_dec (merge placed fetched).filled_amount fetched.filled_amount ≡ true)
unfolding merge merged_amount
merge_fill_bounded placed fetched = ground (
  arith,
  le_dec_refl placed.amount,
  le_dec_refl fetched.filled_amount,
  le_dec_total fetched.filled_amount placed.amount,
)

-- A merged order is rejected exactly when the venue itself reports it rejected and filled for less
-- than was ordered.
pub merge-rejected :
    (placed fetched : Order)
    → ((merge placed fetched).status ≡ OrderStatus.rejected) ↔ (
        (fetched.status ≡ OrderStatus.rejected)
        × (lt_dec fetched.filled_amount placed.amount ≡ true))
unfolding merge merged_status merged_amount
merge-rejected placed fetched =
    ground (arith, le_dec_refl placed.amount, le_dec_total fetched.filled_amount placed.amount)

-- A merged order counts as filled exactly when the venue reports at least the ordered amount, or
-- itself calls the order filled.
pub merge_filled :
    (placed fetched : Order)
    → ((merge placed fetched).status ≡ OrderStatus.filled) ↔ (
        (le_dec placed.amount fetched.filled_amount ≡ true) ⊎ (fetched.status ≡ OrderStatus.filled))
unfolding merge merged_status merged_amount
merge_filled placed fetched = ground (
  arith,
  le_dec_refl placed.amount,
  le_dec_total placed.amount fetched.filled_amount,
  le_dec_total fetched.filled_amount placed.amount,
)
