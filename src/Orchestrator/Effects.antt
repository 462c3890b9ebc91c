-- ===== src/Orchestrator/Effects.antt =====
-- The state that the orchestrator of app/strategies/transfer/orchestrator.py works on, the log of
-- what it did, and the answers of venues, books and clock during one step.
use crypto_arbitrage_bot_ref.Base.{
  ℕ, Bool, Option, none, some, List, ◌∷◌, Text, Dict, find, put, is_some, if◌then◌else◌,
}
use crypto_arbitrage_bot_ref.Money.{Decimal}
use crypto_arbitrage_bot_ref.Orders.{Order, OrderSide, Symbol}
use crypto_arbitrage_bot_ref.Recovery.{Reply, reply, failure, Venue}
use crypto_arbitrage_bot_ref.Guard.{Guard, TradingMode, ensure_can_trade}
use crypto_arbitrage_bot_ref.Result.{
  Result, ok, raise, Exception, execution_disabled, adapter_error,
}
use crypto_arbitrage_bot_ref.Transfers.{
  TransferRecord, TransferTx, WithdrawalNetwork, DepositAddress, Note, TransferState, with_state,
}
use crypto_arbitrage_bot_ref.Wallet.{PaperWallet, credit, debit}
use crypto_arbitrage_bot_ref.Fills.{OrderBook, Simulator}
use crypto_arbitrage_bot_ref.Storage.{Rows, save}

-- `OrderRequest` of a market order, as `_fill` builds it
pub record OrderRequest : Type 0 where
  pub venue : Text
  pub symbol : Symbol
  pub side : OrderSide
  pub amount : Decimal
  pub client_order_id : Text

-- the arguments of `adapter.withdraw`
pub record Withdrawal : Type 0 where
  pub asset : Text
  pub amount : Decimal
  pub address : Text
  pub memo : Option Text
  pub network : Text

-- the events that `_audit.log` records
pub data AuditEvent : Type 0 where
  transfer_started transfer_failed transfer_manual_review : AuditEvent
  transfer_withdraw_submitted transfer_completed : AuditEvent

-- what the orchestrator does to the world outside its memory
pub data Effect : Type 0 where
  saved : TransferRecord → Effect
  submitted : OrderRequest → Effect
  withdrew : Withdrawal → Effect
  audited : AuditEvent → Text → Effect

-- the database, the paper wallets by venue, and the effects so far, the newest first
pub record World : Type 0 where
  pub rows : Rows
  pub wallets : Dict PaperWallet
  pub log : List Effect

-- the venue's answer to an order, within the leg timeout or not
pub data Placement : Type 0 where
  placed : Order → Placement
  timed_out : Placement
  placement_error : Text → Placement

-- a call to withdraw: it returns, the adapter's own interlock refuses it, or it raises
pub data WithdrawReply : Type 0 where
  accepted : TransferTx → WithdrawReply
  withdrawals_disabled : WithdrawReply
  withdraw_error : Text → WithdrawReply

-- The settings, the guard, and the answers that one step gets from outside: the stored book of a
-- venue and the one after an on-demand refresh, each with whether it is stale, the venues, and
-- the clock, in microseconds like the two
-- delays.
pub record Environment : Type 0 where
  pub mode : TradingMode
  pub guard : Guard
  pub base_currency : Text
  pub simulator : Simulator
  pub simulated_transfer_micros : ℕ
  pub deposit_timeout_micros : ℕ
  pub has_market : Bool
  pub now : ℕ
  pub stored_book : Text → Symbol → Option (OrderBook × Bool)
  pub refreshed_book : Text → Symbol → Option (OrderBook × Bool)
  pub new_client_order_id : Text
  pub create_order : OrderRequest → Placement
  pub order_venue : Text → Venue
  pub fetch_withdrawal_networks : Text → Text → Reply (List WithdrawalNetwork)
  pub fetch_deposit_address : Text → Text → Text → Reply DepositAddress
  pub withdraw : Text → Withdrawal → WithdrawReply
  pub fetch_withdrawals : Text → Text → Reply (List TransferTx)
  pub fetch_deposits : Text → Text → Reply (List TransferTx)

-- A method: state comes back after a raise too, since what was written stays written.
abbrev pub Action : Type 0 → Type 0
Action A = World → Result A × World

module _ {A : Type 0} where
  abbrev pub pure : A → Action A
  pure a w = (ok a, w)

  abbrev pub throw : Exception → Action A
  throw e w = (raise e, w)

  abbrev pub lift : Result A → Action A
  lift r w = (r, w)

infixl 5 ◌>>=◌ ◌>>◌
abbrev pub ◌>>=◌ : {A B : Type 0} → Action A → (A → Action B) → Action B
◌>>=◌ m f w = let (r, w') = m w in elim r [ ok a ↦ f a w' | raise e ↦ throw e w' ]

abbrev pub ◌>>◌ : {A B : Type 0} → Action A → Action B → Action B
m >> k = m >>= λ _. k

-- one effect, recorded
abbrev pub record_effect : Effect → World → World
record_effect e w = record w { log = e ∷ w.log }

-- `self._transfers.save(record)`
unfoldable pub save_record : TransferRecord → Action (Unit {0})
save_record r w = (ok tt, record w { rows = save r w.rows; log = saved r ∷ w.log })

-- `self._audit.log(event, ...)`
unfoldable pub audit : AuditEvent → Text → Action (Unit {0})
audit e k w = (ok tt, record_effect (audited e k) w)

-- `self._guard.ensure_can_trade()`
unfoldable pub check_guard : Environment → Action (Unit {0})
check_guard env w =
    if is_some (ensure_can_trade env.guard) then (raise execution_disabled, w) else (ok tt, w)

-- an adapter's answer, whose failure is its exception
abbrev pub from_reply : {A : Type 0} → Reply A → Result A
from_reply (reply a) = ok a
from_reply (failure e) = raise (adapter_error e)

-- the paper wallet of a venue credited, if there is one
unfoldable pub credit_wallet : Text → Text → Decimal → Action (Unit {0})
credit_wallet venue asset amount w = elim (find venue w.wallets) [
  | none ↦ (ok tt, w)
  | some wallet ↦ (ok tt, record w { wallets = put venue (credit asset amount wallet) w.wallets })
]

abbrev debited : Text → World → Result PaperWallet → Result (Unit {0}) × World
debited venue w (raise e) = (raise e, w)
debited venue w (ok wallet) = (ok tt, record w { wallets = put venue wallet w.wallets })

-- the paper wallet of a venue debited, if there is one
unfoldable pub debit_wallet : Text → Text → Decimal → Action (Unit {0})
debit_wallet venue asset amount w = elim (find venue w.wallets) [
  | none ↦ (ok tt, w)
  | some wallet ↦ debited venue w (debit asset amount wallet)
]

-- `record.with_state(state, ...)`, at the clock
abbrev pub move : Environment → TransferState → TransferRecord → TransferRecord
move env s r = with_state env.now s none r

abbrev audit_event_of : TransferState → AuditEvent
audit_event_of TransferState.failed = transfer_failed
audit_event_of _ = transfer_manual_review

-- `_fail`
unfoldable pub fail_record :
    Environment → TransferState → Note → TransferRecord → Action TransferRecord
unfolding save_record audit
fail_record env s note r = do
  let updated = with_state env.now s (some note) r
  save_record updated
  audit (audit_event_of s) r.id
  pure updated

-- `_fail(..., state=MANUAL_REVIEW)`
abbrev pub to_review : Environment → Note → TransferRecord → Action TransferRecord
to_review env note r = fail_record env TransferState.manual_review note r
