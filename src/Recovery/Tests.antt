-- ===== src/Recovery/Tests.antt =====
-- An order recovered from small venues.
use crypto_arbitrage_bot_ref.Base.{◌≡◌, ◌+◌, ◌<◌, ℕ, refl, true, [], text}
use crypto_arbitrage_bot_ref.Money.{dec, dec0, le_dec, arithmetic}
use crypto_arbitrage_bot_ref.Orders.{
  Order, OrderStatus, is_confirmed_fill, confirmed_not_filled, outcome_unconfirmed,
}
use crypto_arbitrage_bot_ref.Orders.Evidence.{ExactlyOne, order_evidence_trichotomy}
use crypto_arbitrage_bot_ref.Recovery.{Venue, reply, failure, merge, recover, query}
use crypto_arbitrage_bot_ref.Recovery.Merge.{merge_fill_bounded}
use crypto_arbitrage_bot_ref.Recovery.Outcomes.{recover_retries, AllFail}
use crypto_arbitrage_bot_ref.Orchestrator.Fixtures.{ripple_order, venue_with}

abbrev lost : Order
lost = ripple_order OrderStatus.timeout dec0

abbrev overfilled : Order
overfilled = ripple_order OrderStatus.filled (dec 12 0)

abbrev denied : Order
denied = ripple_order OrderStatus.rejected (dec 4 0)

abbrev denying : Venue
denying = venue_with (reply denied) (reply [])

abbrev silent : Venue
silent = venue_with (failure (text "down")) (failure (text "down"))

-- A reported fill of twelve counts as the ten that were ordered.
capped : (merge lost overfilled).filled_amount ≡ dec 10 0
unfolding merge arithmetic
capped = refl

order_evidence_trichotomy_example :
    ExactlyOne (is_confirmed_fill denied) (confirmed_not_filled denied) (outcome_unconfirmed denied)
order_evidence_trichotomy_example = order_evidence_trichotomy denied

merge_fill_bounded_example :
    (le_dec (merge lost overfilled).filled_amount lost.amount ≡ true)
    × (le_dec (merge lost overfilled).filled_amount overfilled.filled_amount ≡ true)
merge_fill_bounded_example = merge_fill_bounded lost overfilled

recover_retries_example :
    ((k : ℕ) (r : Order)
      → k < 3
      → AllFail silent lost k 1
      → query silent lost (1 + k) ≡ reply r
      → recover silent lost ≡ r)
    × (AllFail silent lost 3 1 → (recover silent lost).status ≡ OrderStatus.manual_review)
recover_retries_example = recover_retries silent lost refl
