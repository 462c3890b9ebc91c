-- ===== src/Orders.antt =====
-- app/models/enums.py (order statuses) and app/models/order.py: an order as the bot tracks it.
-- Times are instants as numbers; texts of error messages are one constructor for each message.
pub mod Evidence
use crypto_arbitrage_bot_ref.Base.{
  ℕ, Bool, true, false, not, ◌&&◌, Option, none, some, List, [], ◌∷◌, Text, or_else, if◌then◌else◌,
}
use crypto_arbitrage_bot_ref.Money.{
  Decimal, dec0, le_dec, lt_dec, max_dec, sub_dec, div_dec, mul_dec, add_dec,
}

pub data OrderSide : Type 0 where
  buy sell : OrderSide

pub data OrderType : Type 0 where
  market limit : OrderType

pub data OrderStatus : Type 0 where
  pending opened partially_filled filled canceled rejected expired timeout unknown : OrderStatus
  manual_review : OrderStatus

-- `_TERMINAL_ORDER_STATUSES`
abbrev pub is_terminal : OrderStatus → Bool
is_terminal OrderStatus.filled = true
is_terminal OrderStatus.canceled = true
is_terminal OrderStatus.rejected = true
is_terminal OrderStatus.expired = true
is_terminal OrderStatus.timeout = true
is_terminal OrderStatus.manual_review = true
is_terminal _ = false

-- `_CONFIRMED_FILL_STATUSES`
abbrev pub is_venue_final : OrderStatus → Bool
is_venue_final OrderStatus.filled = true
is_venue_final OrderStatus.canceled = true
is_venue_final OrderStatus.expired = true
is_venue_final OrderStatus.rejected = true
is_venue_final _ = false

-- `_UNCONFIRMED_OUTCOME_STATUSES`
abbrev pub is_unconfirmed : OrderStatus → Bool
is_unconfirmed OrderStatus.pending = true
is_unconfirmed OrderStatus.opened = true
is_unconfirmed OrderStatus.partially_filled = true
is_unconfirmed OrderStatus.timeout = true
is_unconfirmed OrderStatus.unknown = true
is_unconfirmed OrderStatus.manual_review = true
is_unconfirmed _ = false

pub record Symbol : Type 0 where
  pub base : Text
  pub quote : Text

pub record Fill : Type 0 where
  pub fill_id : Option Text
  pub fill_price : Decimal
  pub fill_amount : Decimal
  pub fill_fee : Decimal
  pub fill_fee_currency : Option Text
  pub fill_time : ℕ

-- the message of an order: what a venue wrote, or one that this program writes
pub data OrderNote : Type 0 where
  venue_note : Text → OrderNote
  zero_amount empty_book insufficient_liquidity : OrderNote
  cannot_size_buy placement_timed_out order_not_found : OrderNote
  placement_failed refresh_failed precision_filter : Text → OrderNote
  unreachable : Option Text → OrderNote

pub record Order : Type 0 where
  pub exchange_id : Text
  pub exchange_order_id : Option Text
  pub client_order_id : Option Text
  pub symbol : Symbol
  pub side : OrderSide
  pub order_type : OrderType
  pub status : OrderStatus
  pub amount : Decimal
  pub filled_amount : Decimal
  pub price : Option Decimal
  pub average_price : Option Decimal
  pub fee_paid : Decimal
  pub fee_currency : Option Text
  pub fills : List Fill
  pub error : Option OrderNote
  pub created_at : ℕ
  pub updated_at : ℕ

-- `is_confirmed_fill`
unfoldable pub is_confirmed_fill : Order → Bool
is_confirmed_fill o = lt_dec dec0 o.filled_amount && is_venue_final o.status

-- `outcome_unconfirmed`
unfoldable pub outcome_unconfirmed : Order → Bool
outcome_unconfirmed o = is_unconfirmed o.status

-- `confirmed_not_filled`
unfoldable pub confirmed_not_filled : Order → Bool
unfolding outcome_unconfirmed
confirmed_not_filled o =
    le_dec o.filled_amount dec0 && is_terminal o.status && not (outcome_unconfirmed o)

-- `with_status`, at the time `now`
unfoldable pub with_status : ℕ → OrderStatus → Option OrderNote → Order → Order
with_status now s e o = record o { status = s; error = or_else e o.error; updated_at = now }

-- `remaining_amount`
unfoldable pub remaining_amount : Order → Decimal
remaining_amount o = max_dec dec0 (sub_dec o.amount o.filled_amount)

-- `fill_ratio`; none is the exception of a division
unfoldable pub fill_ratio : Order → Option Decimal
fill_ratio o = if le_dec o.amount dec0 then some dec0 else div_dec o.filled_amount o.amount

-- `is_partially_filled`
unfoldable pub is_partially_filled : Order → Bool
is_partially_filled o = lt_dec dec0 o.filled_amount && lt_dec o.filled_amount o.amount

abbrev add_notional : Decimal → List Fill → Decimal
add_notional total [] = total
add_notional total (f ∷ fs) = add_notional (add_dec total (mul_dec f.fill_price f.fill_amount)) fs

-- `filled_notional`
unfoldable pub filled_notional : Order → Decimal
filled_notional o = elim o.average_price [
  | some p ↦ mul_dec p o.filled_amount
  | none ↦ add_notional dec0 o.fills
]
