-- ===== src/Recovery/Outcomes.antt =====
-- Where the result of `recover` comes from, and how the retries end.
use crypto_arbitrage_bot_ref.Base.{
  ℕ, zero, suc, ◌+◌, ◌<◌, ◌≡◌, Bool, true, false, some, List, Text, arith,
}
use crypto_arbitrage_bot_ref.Orders.{Order, OrderStatus, OrderNote, with_status, refresh_failed}
use crypto_arbitrage_bot_ref.Recovery.{
  reply, failure, Venue, match_by_client_id, merge, query, attempts, resolve_unknown, recover,
}

-- The venue reported f for the order: by its id, or among the open orders by its client id.
pub data Reported (v : Venue) (o f : Order) : Type 0 where
  by_id : (n : ℕ) → v.fetch_order n ≡ reply f → Reported v o f
  in_open :
      (n : ℕ) (os : List Order)
      → v.fetch_open_orders n ≡ reply os
      → match_by_client_id os o.client_order_id ≡ some f
      → Reported v o f

-- What recovery may answer for an order.
pub data Source (v : Venue) (o r : Order) : Type 0 where
  unchanged : r ≡ o → Source v o r
  merged : (f : Order) → Reported v o f → r ≡ merge o f → Source v o r
  escalated :
      (e : OrderNote) → r ≡ with_status v.now OrderStatus.manual_review (some e) o → Source v o r
  unread :
      (e : Text)
      → r ≡ with_status v.now OrderStatus.partially_filled (some (refresh_failed e)) o
      → Source v o r

-- the statuses that recovery must resolve
abbrev pub is_unresolved : OrderStatus → Bool
is_unresolved OrderStatus.timeout = true
is_unresolved OrderStatus.unknown = true
is_unresolved OrderStatus.pending = true
is_unresolved OrderStatus.opened = true
is_unresolved _ = false

-- every query from n on, as many as `left`, raises
abbrev pub AllFail : Venue → Order → ℕ → ℕ → Type 0
AllFail v o zero n = Unit
AllFail v o (suc left) n = ((e : Text) × (query v o n ≡ failure e)) × AllFail v o left (n + 1)

recover_unresolved :
    (v : Venue) (o : Order) → is_unresolved o.status ≡ true → recover v o ≡ resolve_unknown v o
unfolding recover
recover_unresolved v o h = ground arith

first_reply :
    (v : Venue) (o : Order) (k : ℕ) {r : Order}
    → k < 3
    → AllFail v o k 1
    → query v o (1 + k) ≡ reply r
    → resolve_unknown v o ≡ r
unfolding resolve_unknown attempts
first_reply v o zero lt fails h = ground arith
first_reply v o (suc zero) lt fails h = ground arith
first_reply v o (suc (suc zero)) lt fails h = ground arith
first_reply v o (suc (suc (suc k))) lt fails h = absurd (omega arith)

no_reply :
    (v : Venue) (o : Order)
    → AllFail v o 3 1
    → (resolve_unknown v o).status ≡ OrderStatus.manual_review
unfolding resolve_unknown attempts with_status
no_reply v o fails = ground arith

-- For an order whose status recovery must resolve, an answered query after at most two failed ones
-- decides the result, and three failed queries end in manual review.
pub recover_retries :
    (v : Venue) (o : Order)
    → is_unresolved o.status ≡ true
    → ((k : ℕ) (r : Order)
        → k < 3
        → AllFail v o k 1
        → query v o (1 + k) ≡ reply r
        → recover v o ≡ r)
      × (AllFail v o 3 1 → (recover v o).status ≡ OrderStatus.manual_review)
recover_retries v o u =
    rw (recover_unresolved v o u) (λ k r lt fails h. first_reply v o k lt fails h, no_reply v o)
