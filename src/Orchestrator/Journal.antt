-- ===== src/Orchestrator/Journal.antt =====
-- What app/strategies/transfer/orchestrator.py writes down before it acts: the log of effects read
-- as a journal, and the actions that keep it in order.
pub mod Buying
pub mod Sending
pub mod Waiting
pub mod Selling
pub mod Sweeps
use crypto_arbitrage_bot_ref.Base.{
  ℕ, ◌+◌, ◌≡◌, refl, ap, Bool, true, false, not, ◌&&◌, ◌||◌, Option, none, some, List, [], ◌∷◌,
  Text, text_eq, text_eq_refl, is_some, arith, if◌then◌else◌, find,
}
use crypto_arbitrage_bot_ref.Money.{Decimal, le_dec, dec0}
use crypto_arbitrage_bot_ref.Orders.{Order, OrderSide}
use crypto_arbitrage_bot_ref.Result.{Result, ok, raise, Exception}
use crypto_arbitrage_bot_ref.Orchestrator.Landing.{continued}
use crypto_arbitrage_bot_ref.Transfers.{
  TransferRecord, TransferState, OrderJson, encoded, malformed, DepositAddress, Note,
}
use crypto_arbitrage_bot_ref.Wallet.{PaperWallet, debit}
use crypto_arbitrage_bot_ref.Orchestrator.Effects.{
  Environment, World, Action, Effect, saved, submitted, withdrew, audited, OrderRequest, Withdrawal,
  save_record, audit, AuditEvent, fail_record, check_guard, credit_wallet, debit_wallet, lift, pure,
  throw, ◌>>=◌, ◌>>◌,
}
use crypto_arbitrage_bot_ref.Orchestrator.Legs.{is_sell}
use crypto_arbitrage_bot_ref.Orchestrator.Withdraw.{requires_memo, has_memo}

abbrev newest : List Effect → Option Effect
newest [] = none
newest (e ∷ log) = some e

abbrev names_order : OrderRequest → Option OrderJson → Bool
names_order q (some (encoded o)) = elim o.client_order_id [
  | none ↦ false
  | some c ↦ text_eq c q.client_order_id
]
names_order q _ = false

-- the effect just before an order is a saved record that names the order's client id
abbrev pub buy_intended : OrderRequest → Option Effect → Bool
buy_intended q (some (saved r)) = names_order q r.buy_order
buy_intended q _ = false

-- the effect just before a withdrawal is a saved record with a withdrawal id and the address
abbrev pub withdrawal_intended : Withdrawal → Option Effect → Bool
withdrawal_intended q (some (saved r)) =
    is_some r.withdrawal_id
    && elim r.deposit_address [ none ↦ false | some a ↦ text_eq a q.address ]
withdrawal_intended q _ = false

-- a positive amount, and a memo where the asset needs one
abbrev pub safe_to_send : Withdrawal → Bool
safe_to_send q =
    not (le_dec q.amount dec0)
    && (not (requires_memo q.asset) || has_memo (record { address = q.address; memo = q.memo }))

-- Every buy order and every withdrawal of the log, newest first, follows its saved intent, and
-- every withdrawal is safe to send.
unfoldable pub in_order : List Effect → Bool
in_order [] = true
in_order (submitted q ∷ log) = (is_sell q.side || buy_intended q (newest log)) && in_order log
in_order (withdrew q ∷ log) = withdrawal_intended q (newest log) && safe_to_send q && in_order log
in_order (saved r ∷ log) = in_order log
in_order (audited e k ∷ log) = in_order log

-- an action, returning or raising, that leaves a log in order in order
pub record KeepsOrder {A : Type 0} (m : Action A) : Type 0 where
  pub keeps : (w : World) → in_order w.log ≡ true → in_order (m w).1.log ≡ true

module _ {A B : Type 0} where
  continue_keeps :
      (f : A → Action B) (x : Result A)
      → ((a : A) → KeepsOrder (f a))
      → (w : World) → in_order w.log ≡ true
      → in_order (continued f x w).1.log ≡ true
  continue_keeps f (ok a) k w h = (k a).keeps w h
  continue_keeps f (raise e) k w h = h

  pub bind_keeps :
      {m : Action A} {f : A → Action B}
      → KeepsOrder m
      → ((a : A) → KeepsOrder (f a))
      → KeepsOrder (m >>= f)
  bind_keeps {m} {f} km kf = record {
    keeps = λ w h. continue_keeps f (m w).0 kf (m w).1 (km.keeps w h);
  }

pub if_keeps :
    {A : Type 0} (b : Bool) {m k : Action A}
    → KeepsOrder m
    → KeepsOrder k
    → KeepsOrder (if b then m else k)
if_keeps true p q = p
if_keeps false p q = q

pub pure_keeps : {A : Type 0} {a : A} → KeepsOrder (pure a)
pure_keeps = record { keeps = λ w h. h }

pub throw_keeps : {A : Type 0} {e : Exception} → KeepsOrder (throw {A = A} e)
throw_keeps = record { keeps = λ w h. h }

pub lift_keeps : {A : Type 0} (r : Result A) → KeepsOrder (lift r)
lift_keeps r = record { keeps = λ w h. h }

pub save-keeps : (r : TransferRecord) → KeepsOrder (save_record r)
unfolding save_record in_order
save-keeps r = record { keeps = λ w h. h }

pub save-pure-keeps :
    {A : Type 0} (r : TransferRecord) (a : A) → KeepsOrder (save_record r >> pure a)
unfolding save_record in_order
save-pure-keeps r a = record { keeps = λ w h. h }

pub audit-keeps : (e : AuditEvent) (k : Text) → KeepsOrder (audit e k)
unfolding audit in_order
audit-keeps e k = record { keeps = λ w h. h }

pub audit-pure-keeps :
    {A : Type 0} (r : TransferRecord) (e : AuditEvent) (k : Text) (a : A)
    → KeepsOrder (save_record r >> audit e k >> pure a)
unfolding save_record audit in_order
audit-pure-keeps r e k a = record { keeps = λ w h. h }

pub fail_record-keeps :
    (env : Environment) (s : TransferState) (note : Note) (r : TransferRecord)
    → KeepsOrder (fail_record env s note r)
unfolding fail_record in_order
fail_record-keeps env s note r = record { keeps = λ w h. h }

pub check_guard-keeps : (env : Environment) → KeepsOrder (check_guard env)
unfolding check_guard
check_guard-keeps env = record { keeps = λ w h. ground arith }

module _ (venue asset : Text) (a : Decimal) where
  pub credit_wallet-keeps : KeepsOrder (credit_wallet venue asset a)
  unfolding credit_wallet
  credit_wallet-keeps = record { keeps = λ w h. ground arith }

  pub debit_wallet-keeps : KeepsOrder (debit_wallet venue asset a)
  unfolding debit_wallet
  debit_wallet-keeps = record { keeps = λ w h. ground arith }
