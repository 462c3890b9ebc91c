-- ===== src/Transfers.antt =====
-- app/models/transfer.py and the transfer states of app/models/enums.py.
use crypto_arbitrage_bot_ref.Base.{
  ℕ, Bool, true, false, Option, none, some, Text, or_else, if◌then◌else◌,
}
use crypto_arbitrage_bot_ref.Money.{Decimal, dec, dec0, le_dec, add_dec, sub_dec, mul_dec, div_dec}
use crypto_arbitrage_bot_ref.Orders.{Order, OrderStatus, OrderNote}
use crypto_arbitrage_bot_ref.Result.{Exception}
use crypto_arbitrage_bot_ref.Risk.{Float}

pub data TransferState : Type 0 where
  created buy_submitted buy_filled withdraw_submitted withdraw_pending : TransferState
  transfer_in_progress deposit_detected sell_submitted completed failed : TransferState
  manual_review : TransferState

-- `is_terminal`
abbrev pub is_terminal : TransferState → Bool
is_terminal TransferState.completed = true
is_terminal TransferState.failed = true
is_terminal TransferState.manual_review = true
is_terminal _ = false

-- `is_open`
abbrev pub is_open : TransferState → Bool
is_open TransferState.completed = false
is_open TransferState.failed = false
is_open TransferState.manual_review = false
is_open _ = true

pub record DepositAddress : Type 0 where
  pub address : Text
  pub memo : Option Text

pub record WithdrawalNetwork : Type 0 where
  pub network : Text
  pub network_code : Option Text
  pub withdraw_enabled : Bool
  pub deposit_enabled : Bool
  pub withdrawal_fee : Decimal
  pub withdrawal_min : Decimal
  pub deposit_min : Decimal

-- the status text of a venue's transaction, read case by case
pub data TxStatus : Type 0 where
  confirmed pending processing failed_on_venue other : TxStatus

pub record TransferTx : Type 0 where
  pub amount : Decimal
  pub status : TxStatus
  pub txid : Option Text
  pub address : Option Text

-- `is_confirmed`
abbrev pub is_confirmed : TransferTx → Bool
is_confirmed tx = elim tx.status [ confirmed ↦ true | _ ↦ false ]

pub record TransferPlan : Type 0 where
  pub source_exchange : Text
  pub dest_exchange : Text
  pub asset : Text
  pub network : Text
  pub amount : Decimal
  pub buy_price : Decimal
  pub sell_price : Decimal
  pub buy_fee_bps : Decimal
  pub sell_fee_bps : Decimal
  pub withdrawal_fee : Decimal
  pub network_cost_quote : Decimal
  pub estimated_slippage_bps : Decimal
  pub data_age_ms : Float

-- `_BPS`
abbrev pub bps : Decimal
bps = dec 10000 0

unfoldable pub buy_cost_quote : TransferPlan → Decimal
buy_cost_quote p = mul_dec p.buy_price p.amount

unfoldable pub sell_proceeds_quote : TransferPlan → Decimal
sell_proceeds_quote p = mul_dec p.sell_price p.amount

-- `x * fee / 10000`
abbrev pub fee_of : Decimal → Decimal → Option Decimal
fee_of x fee = div_dec (mul_dec x fee) bps

-- sums and differences of values that a division gave
abbrev add_opt : Option Decimal → Option Decimal → Option Decimal
add_opt (some a) (some b) = some (add_dec a b)
add_opt _ _ = none

abbrev sub_opt : Decimal → Option Decimal → Option Decimal
sub_opt a (some b) = some (sub_dec a b)
sub_opt a none = none

unfoldable pub trading_fees_quote : TransferPlan → Option Decimal
unfolding buy_cost_quote sell_proceeds_quote
trading_fees_quote p =
    add_opt (fee_of (buy_cost_quote p) p.buy_fee_bps)
      (fee_of (sell_proceeds_quote p) p.sell_fee_bps)

unfoldable pub withdrawal_cost_quote : TransferPlan → Decimal
withdrawal_cost_quote p = add_dec (mul_dec p.withdrawal_fee p.sell_price) p.network_cost_quote

unfoldable pub total_fees_quote : TransferPlan → Option Decimal
unfolding trading_fees_quote withdrawal_cost_quote
total_fees_quote p = add_opt (trading_fees_quote p) (some (withdrawal_cost_quote p))

unfoldable pub gross_profit_quote : TransferPlan → Decimal
unfolding buy_cost_quote sell_proceeds_quote
gross_profit_quote p = sub_dec (sell_proceeds_quote p) (buy_cost_quote p)

unfoldable pub net_profit_quote : TransferPlan → Option Decimal
unfolding gross_profit_quote total_fees_quote
net_profit_quote p = sub_opt (gross_profit_quote p) (total_fees_quote p)

abbrev ratio_bps : Option Decimal → Decimal → Option Decimal
ratio_bps none b = none
ratio_bps (some a) b = elim (div_dec a b) [ none ↦ none | some q ↦ some (mul_dec q bps) ]

-- `net_profit_bps`
unfoldable pub net_profit_bps : TransferPlan → Option Decimal
unfolding net_profit_quote buy_cost_quote
net_profit_bps p =
    if le_dec (buy_cost_quote p) dec0
    then some dec0
    else ratio_bps (net_profit_quote p) (buy_cost_quote p)

-- `spread_bps`
unfoldable pub spread_bps : TransferPlan → Option Decimal
spread_bps p =
    if le_dec p.buy_price dec0
    then some dec0
    else ratio_bps (some (sub_dec p.sell_price p.buy_price)) p.buy_price

-- an order as JSON in a database row: one that parses back, or one that does not
pub data OrderJson : Type 0 where
  encoded : Order → OrderJson
  malformed : OrderJson

-- the error text of a record, one constructor for each message
pub data Note : Type 0 where
  buy_error_after_submission buy_error : Exception → Note
  buy_rejected buy_unconfirmed sell_unconfirmed sell_rejected : Option OrderNote → Note
  buy_no_fill buy_unparsable sell_nothing no_proceeds : Note
  buy_not_filled_before buy_not_filled_now buy_not_established : OrderStatus → Note
  network_failed planned_network_gone memo_missing fee_not_covered : Note
  address_unavailable withdrawal_failed sell_error tick_error : Exception → Note
  withdrawal_failed_on_venue deposit_timeout : Note

pub record TransferRecord : Type 0 where
  pub id : Text
  pub source_exchange : Text
  pub dest_exchange : Text
  pub asset : Text
  pub network : Text
  pub amount : Decimal
  pub state : TransferState
  pub plan : TransferPlan
  pub buy_order : Option OrderJson
  pub buy_filled_amount : Decimal
  pub withdrawal_id : Option Text
  pub withdrawal_txid : Option Text
  pub withdrawal_amount : Decimal
  pub deposit_address : Option Text
  pub deposit_txid : Option Text
  pub deposit_amount : Decimal
  pub sell_order : Option OrderJson
  pub sell_filled_amount : Decimal
  pub sell_proceeds : Decimal
  pub fees_quote : Decimal
  pub realized_profit_quote : Decimal
  pub error : Option Note
  pub created_at : ℕ
  pub updated_at : ℕ

-- `with_state` without further updates, at the time `now`
abbrev pub with_state : ℕ → TransferState → Option Note → TransferRecord → TransferRecord
with_state now s e r = record r { state = s; error = or_else e r.error; updated_at = now }
