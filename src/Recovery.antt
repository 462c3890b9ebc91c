-- ===== src/Recovery.antt =====
-- app/recovery/recovery.py: uncertain order outcomes resolved against the venue.
-- What the venue answers to the n-th query is a parameter; `failure` is an adapter's exception.
pub mod Merge
pub mod Outcomes
pub mod Tests
use crypto_arbitrage_bot_ref.Base.{
  ℕ, zero, suc, ◌+◌, Bool, true, false, ◌&&◌, Option, none, some, List, [], ◌∷◌, Text, text_eq,
  or_else, if◌then◌else◌,
}
use crypto_arbitrage_bot_ref.Money.{Decimal, dec0, le_dec, lt_dec}
use crypto_arbitrage_bot_ref.Orders.{
  Order, OrderStatus, OrderNote, Fill, is_terminal, with_status, order_not_found, unreachable,
  refresh_failed,
}

-- an adapter's call: it returns, or raises an exception with its text
pub data Reply (A : Type 0) : Type 0 where
  reply : A → Reply A
  failure : Text → Reply A

-- the venue that recovery queries: its answers at each attempt, and the clock
pub record Venue : Type 0 where
  pub fetch_order : ℕ → Reply Order
  pub fetch_open_orders : ℕ → Reply (List Order)
  pub now : ℕ

-- `not text`, on an optional text
abbrev pub is_blank : Option Text → Bool
is_blank none = true
is_blank (some []) = true
is_blank (some (_ ∷ _)) = false

-- `a or b`, where an empty value counts as false
abbrev or_text : Option Text → Option Text → Option Text
or_text a b = if is_blank a then b else a

abbrev is_zero : Decimal → Bool
is_zero a = le_dec a dec0 && le_dec dec0 a

abbrev or_decimal : Decimal → Decimal → Decimal
or_decimal a b = if is_zero a then b else a

abbrev or_price : Option Decimal → Option Decimal → Option Decimal
or_price none b = b
or_price (some a) b = if is_zero a then b else some a

abbrev or_fills : List Fill → List Fill → List Fill
or_fills [] b = b
or_fills (f ∷ fs) _ = f ∷ fs

-- the venue's fill, at most what was ordered
unfoldable pub merged_amount : Order → Order → Decimal
merged_amount placed fetched =
    if lt_dec placed.amount fetched.filled_amount then placed.amount else fetched.filled_amount

unfoldable pub merged_status : Order → Order → OrderStatus
unfolding merged_amount
merged_status placed fetched =
    let amount = merged_amount placed fetched in
    if le_dec placed.amount amount
    then OrderStatus.filled
    else if is_terminal fetched.status
    then fetched.status
    else if lt_dec dec0 amount && lt_dec amount placed.amount
    then OrderStatus.partially_filled
    else OrderStatus.manual_review

-- `_merge`: the identity stays local, the fill is the venue's
unfoldable pub merge : Order → Order → Order
unfolding merged_status
merge placed fetched = record placed {
  status = merged_status placed fetched;
  filled_amount = merged_amount placed fetched;
  average_price = or_price fetched.average_price placed.average_price;
  fee_paid = or_decimal fetched.fee_paid placed.fee_paid;
  exchange_order_id = or_text fetched.exchange_order_id placed.exchange_order_id;
  fills = or_fills fetched.fills placed.fills;
  updated_at = fetched.updated_at;
}

abbrev has_client_id : Text → Order → Bool
has_client_id k o = elim o.client_order_id [ none ↦ false | some j ↦ text_eq j k ]

abbrev first_match : Text → List Order → Option Order
first_match k [] = none
first_match k (o ∷ os) = if has_client_id k o then some o else first_match k os

-- `_match_by_client_id`
unfoldable pub match_by_client_id : List Order → Option Text → Option Order
match_by_client_id os none = none
match_by_client_id os (some []) = none
match_by_client_id os (some (c ∷ k)) = first_match (c ∷ k) os

-- what one successful query of the open orders leads to
unfoldable pub settle_unknown : Venue → Order → List Order → Order
unfolding match_by_client_id merge with_status
settle_unknown v o os = elim (match_by_client_id os o.client_order_id) [
  | some found ↦ merge o found
  | none ↦ with_status v.now OrderStatus.manual_review (some order_not_found) o
]

-- one attempt: the resolved order, or the text of the exception
unfoldable pub query : Venue → Order → ℕ → Reply Order
unfolding settle_unknown merge
query v o n =
    if is_blank o.exchange_order_id
    then elim (v.fetch_open_orders n) [
      | reply os ↦ reply (settle_unknown v o os)
      | failure e ↦ failure e
    ]
    else elim (v.fetch_order n) [ reply fetched ↦ reply (merge o fetched) | failure e ↦ failure e ]

-- `_MAX_QUERY_ATTEMPTS`
abbrev pub max_query_attempts : ℕ
max_query_attempts = 3

-- the loop of `_resolve_unknown`, with the attempts left and the number of the next
unfoldable pub attempts : Venue → Order → ℕ → ℕ → Option Text → Order
unfolding query with_status
attempts v o zero n last = with_status v.now OrderStatus.manual_review (some (unreachable last)) o
attempts v o (suc left) n last = elim (query v o n) [
  | reply resolved ↦ resolved
  | failure e ↦ attempts v o left (n + 1) (some e)
]

-- `_resolve_unknown`
unfoldable pub resolve_unknown : Venue → Order → Order
unfolding attempts
resolve_unknown v o = attempts v o max_query_attempts 1 none

abbrev keep_partial : Venue → Order → Text → Order
keep_partial v o e = with_status v.now OrderStatus.partially_filled (some (refresh_failed e)) o

-- `_refresh_partial`: one query, whose failure leaves the order partially filled
unfoldable pub refresh_partial : Venue → Order → Order
unfolding match_by_client_id merge with_status
refresh_partial v o =
    if is_blank o.exchange_order_id
    then elim (v.fetch_open_orders 1) [
      | reply os ↦ elim (match_by_client_id os o.client_order_id) [
        | some found ↦ merge o found
        | none ↦ o
      ]
      | failure e ↦ keep_partial v o e
    ]
    else elim (v.fetch_order 1) [ reply fetched ↦ merge o fetched | failure e ↦ keep_partial v o e ]

abbrev by_status : OrderStatus → Venue → Order → Order
by_status OrderStatus.timeout v o = resolve_unknown v o
by_status OrderStatus.unknown v o = resolve_unknown v o
by_status OrderStatus.pending v o = resolve_unknown v o
by_status OrderStatus.opened v o = resolve_unknown v o
by_status OrderStatus.partially_filled v o = refresh_partial v o
by_status _ v o = o

-- `recover`
unfoldable pub recover : Venue → Order → Order
unfolding resolve_unknown refresh_partial
recover v o = by_status o.status v o
