-- ===== src/Trades.antt =====
-- app/models/trade.py and `TradeRepository` of app/storage/repositories.py: the record of an
-- executed trade, and the table of trades, keyed by id.
pub mod Rows
use crypto_arbitrage_bot_ref.Base.{
  ℕ, Bool, true, false, Option, none, some, List, [], ◌∷◌, Text, text_eq, select_where, leb,
  if◌then◌else◌,
}
use crypto_arbitrage_bot_ref.Money.{Decimal}
use crypto_arbitrage_bot_ref.Orders.{Order, OrderStatus, OrderNote, Symbol}
use crypto_arbitrage_bot_ref.Guard.{TradingMode}
use crypto_arbitrage_bot_ref.Risk.{ArbitrageStrategy}
use crypto_arbitrage_bot_ref.Result.{Exception}

pub data TradeStatus : Type 0 where
  executing completed failed manual_review : TradeStatus

-- One entry of `orders`: the dump of an order, or a dict that `Order.model_validate` refuses, with
-- the client id that it names.
pub data Payload : Type 0 where
  dumped : Order → Payload
  corrupt : Option Text → Payload

-- what a confirmed fill left on the venue: an amount, and the symbol it was traded on
abbrev pub Held : Type 0
Held = Decimal × Symbol

-- the leg whose empty fill ended a cycle
pub data FailedLeg : Type 0 where
  first_leg second_leg third_leg : FailedLeg

-- the errors that the triangle executor writes into a trade, one constructor for each message
pub data TradeNote : Type 0 where
  preview_failed : TradeNote
  below_floor : Decimal → Decimal → TradeNote
  leg_failed : FailedLeg → TradeNote
  leg_unconfirmed : ℕ → OrderStatus → Option OrderNote → TradeNote
  unwind_unconfirmed : FailedLeg → OrderStatus → TradeNote
  unwind_empty : FailedLeg → TradeNote
  unwind_error : FailedLeg → Exception → TradeNote
  aborted : Exception → TradeNote
  aborted_holding : Exception → List Held → TradeNote
  resume_error : Exception → TradeNote
  resume_unparsable resume_no_order resume_not_filled resume_unvalued : TradeNote
  resume_unconfirmed : OrderStatus → TradeNote
  resume_incomplete : List Held → TradeNote

pub record TradeRecord : Type 0 where
  pub id : Text
  pub strategy : ArbitrageStrategy
  pub mode : TradingMode
  pub exchange_id : Text
  pub route : Text
  pub symbols : List Text
  pub input_amount : Decimal
  pub output_amount : Decimal
  pub fees_quote : Decimal
  pub slippage_bps : Decimal
  pub net_profit : Decimal
  pub net_profit_bps : Decimal
  pub status : TradeStatus
  pub orders : List Payload
  pub error : Option TradeNote
  pub transfer_id : Option Text
  pub created_at : ℕ
  pub updated_at : ℕ

-- `is_terminal`
abbrev pub is_terminal : TradeStatus → Bool
is_terminal TradeStatus.executing = false
is_terminal TradeStatus.completed = true
is_terminal TradeStatus.failed = true
is_terminal TradeStatus.manual_review = true

-- `with_status(status, error=...)`, at the time `now`
abbrev pub with_error : ℕ → TradeStatus → TradeNote → TradeRecord → TradeRecord
with_error now s e t = record t { status = s; error = some e; updated_at = now }

abbrev pub TradeRows : Type 0
TradeRows = List TradeRecord

-- `save`: the merge of a row by its id
unfoldable pub save : TradeRecord → TradeRows → TradeRows
save t [] = t ∷ []
save t (x ∷ rows) = if text_eq x.id t.id then t ∷ rows else x ∷ save t rows

-- `get`
unfoldable pub get : Text → TradeRows → Option TradeRecord
get k [] = none
get k (x ∷ rows) = if text_eq x.id k then some x else get k rows

abbrev pub is_executing : TradeRecord → Bool
is_executing t = elim t.status [ TradeStatus.executing ↦ true | _ ↦ false ]

abbrev pub insert_by_age : TradeRecord → TradeRows → TradeRows
insert_by_age t [] = t ∷ []
insert_by_age t (x ∷ rows) =
    if leb t.created_at x.created_at then t ∷ x ∷ rows else x ∷ insert_by_age t rows

abbrev pub order_by_age : TradeRows → TradeRows
order_by_age [] = []
order_by_age (t ∷ rows) = insert_by_age t (order_by_age rows)

-- `list_executing`: oldest first
unfoldable pub list_executing : TradeRows → TradeRows
list_executing rows = order_by_age (select_where is_executing rows)
