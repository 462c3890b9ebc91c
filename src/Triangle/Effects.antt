-- ===== src/Triangle/Effects.antt =====
-- What app/strategies/triangular/executor.py works on: the executor's settings, the answers that
-- one leg gets from outside, the state, and the actions on it.
use crypto_arbitrage_bot_ref.Base.{
  ℕ, Bool, Option, List, [], ◌∷◌, Text, Dict, is_some, if◌then◌else◌,
}
use crypto_arbitrage_bot_ref.Money.{Decimal}
use crypto_arbitrage_bot_ref.Orders.{Symbol}
use crypto_arbitrage_bot_ref.Recovery.{Reply, reply, failure, Venue}
use crypto_arbitrage_bot_ref.Guard.{Guard, TradingMode, ensure_can_trade}
use crypto_arbitrage_bot_ref.Result.{Result, ok, raise, execution_disabled, adapter_error}
use crypto_arbitrage_bot_ref.Precision.{OrderRequest, InstrumentFilters}
use crypto_arbitrage_bot_ref.Wallet.{PaperWallet}
use crypto_arbitrage_bot_ref.Fills.{OrderBook, Simulator}
use crypto_arbitrage_bot_ref.Orchestrator.Effects.{Placement}
use crypto_arbitrage_bot_ref.Trades.{TradeRecord, TradeRows, TradeStatus, save}

-- `TriangleExecutor`, and the settings that it reads
pub record TriangleExecutor : Type 0 where
  pub mode : TradingMode
  pub simulator : Simulator
  pub precision : Option (Text → Text → Option InstrumentFilters)
  pub min_net_at_execute_bps : ℕ
  pub base_currency : Text
  pub has_market : Bool

-- What one leg gets from outside: the guard and the clock as they are then, the stored book of a
-- venue and the one after an on-demand refresh, each with whether it is stale, the adapter of a
-- venue, its balances and its answer to an order, and whether the database can be read.
pub record Answers : Type 0 where
  pub guard : Guard
  pub now : ℕ
  pub stored_book : Text → Symbol → Option (OrderBook × Bool)
  pub refreshed_book : Text → Symbol → Option (OrderBook × Bool)
  pub new_client_order_id : Text
  pub adapter : Text → Reply Venue
  pub fetch_balances : Text → Reply (Text → Decimal)
  pub create_order : OrderRequest → Placement
  pub can_read : Bool

-- the events that `_audit.log` records
pub data AuditEvent : Type 0 where
  triangle_execute_started : Text → AuditEvent
  triangle_execute_finished : Text → TradeStatus → AuditEvent

pub data Effect : Type 0 where
  saved : TradeRecord → Effect
  submitted : OrderRequest → Effect
  audited : AuditEvent → Effect

-- the table of trades, the paper wallets by venue, and the effects so far, the newest first
pub record World : Type 0 where
  pub trades : TradeRows
  pub wallets : Dict PaperWallet
  pub log : List Effect

-- A method: state comes back after a raise too, since what was written stays written.
abbrev pub Action : Type 0 → Type 0
Action A = World → Result A × World

module _ {A : Type 0} where
  abbrev pub pure : A → Action A
  pure a w = (ok a, w)

  abbrev pub lift : Result A → Action A
  lift r w = (r, w)

  -- what follows a result, in the state after it
  abbrev pub continued : {B : Type 0} → (A → Action B) → Result A → Action B
  continued f (ok a) w = f a w
  continued f (raise e) w = (raise e, w)

infixl 5 ◌>>=◌ ◌>>◌
abbrev pub ◌>>=◌ : {A B : Type 0} → Action A → (A → Action B) → Action B
◌>>=◌ m f w = let (r, w') = m w in continued f r w'

abbrev pub ◌>>◌ : {A B : Type 0} → Action A → Action B → Action B
m >> k = m >>= λ _. k

-- `self._trades.save(trade)`
unfoldable pub save_trade : TradeRecord → Action (Unit {0})
save_trade t w = (ok tt, record w { trades = save t w.trades; log = saved t ∷ w.log })

-- `self._audit.log(event, ...)`
unfoldable pub audit : AuditEvent → Action (Unit {0})
audit e w = (ok tt, record w { log = audited e ∷ w.log })

-- `self._guard.ensure_can_trade()`
abbrev pub check_guard : Answers → Result (Unit {0})
check_guard a = if is_some (ensure_can_trade a.guard) then raise execution_disabled else ok tt

-- an adapter's answer, whose failure is its exception
abbrev pub from_reply : {A : Type 0} → Reply A → Result A
from_reply (reply a) = ok a
from_reply (failure e) = raise (adapter_error e)

-- the orders that a log of effects says were placed, the newest first
abbrev pub placements : List Effect → List OrderRequest
placements [] = []
placements (submitted q ∷ log) = q ∷ placements log
placements (saved t ∷ log) = placements log
placements (audited e ∷ log) = placements log
