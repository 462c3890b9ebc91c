-- ===== src/Orchestrator/Custody.antt =====
-- Where the steps after the buy land: what the proofs on the withdrawal, the chain and the sell of
-- app/strategies/transfer/orchestrator.py share.
pub mod Withdrawal
pub mod Chain
pub mod Sale
use crypto_arbitrage_bot_ref.Base.{
  is_some, ◌≡◌, refl, subst, Bool, true, false, Option, none, some, List, [], ◌∷◌, Text, arith,
  if◌then◌else◌,
}
use crypto_arbitrage_bot_ref.Money.{Decimal, dec0, quantize, le_dec, sub_dec}
use crypto_arbitrage_bot_ref.Orders.{OrderSide}
use crypto_arbitrage_bot_ref.Networks.{RouteNetwork}
use crypto_arbitrage_bot_ref.Result.{Result, ok, raise, Exception, adapter_error, signal}
use crypto_arbitrage_bot_ref.Recovery.{Reply, reply, failure}
use crypto_arbitrage_bot_ref.Guard.{TradingMode}
use crypto_arbitrage_bot_ref.Transfers.{
  TransferRecord, TransferState, Note, TransferTx, DepositAddress,
}
use crypto_arbitrage_bot_ref.Storage.Slots.{get-save_self}
use crypto_arbitrage_bot_ref.Orchestrator.Effects.{
  to_review, Environment, World, Action, save_record, audit, check_guard, ◌>>◌, ◌>>=◌, pure, lift,
  AuditEvent, transfer_withdraw_submitted, transfer_completed, credit_wallet, move,
}
use crypto_arbitrage_bot_ref.Orchestrator.Legs.{Leg, fill_leg}
use crypto_arbitrage_bot_ref.Orchestrator.Landing.{
  Landed, Lands, fail_record-Lands, raise_ne_ok, Landed-same, continued, SameTransfer, same_record,
  Ensures-after,
}
use crypto_arbitrage_bot_ref.Orchestrator.Buy.{symbol_of}
use crypto_arbitrage_bot_ref.Orchestrator.Withdraw.{
  with_intent, send, after_send, send_withdrawal, check_address, check_route, submit_withdrawal,
  route_now, with_withdrawal, debit_source,
}
use crypto_arbitrage_bot_ref.Orchestrator.Confirm.{
  polled_deposits, polled_withdrawals, sim_txid, step_to, timeout_guard, simulated_withdrawal,
  scan_withdrawals, check_withdrawal, detect, simulated_deposit, scan_deposits, await_deposit,
}
use crypto_arbitrage_bot_ref.Orchestrator.Sell.{
  fees_of, buy_cost, completed_record, complete, finish, settle_sell, handle_sell, place_sell,
  execute_sell, with_sell, settle_wallet, rounded_proceeds, leg_proceeds, top_up, proceeds_of,
}

-- a step whose result may be the record itself, unchanged
abbrev pub MayLand :
    (TransferState → Bool) → TransferRecord → Action (Option TransferRecord) → Type 0
MayLand allowed r m =
    (w : World) (r' : TransferRecord) → (m w).0 ≡ ok (some r') → Landed allowed r r' (m w).1

abbrev pub withdraw_ends : TransferState → Bool
withdraw_ends TransferState.withdraw_submitted = true
withdraw_ends TransferState.manual_review = true
withdraw_ends _ = false

abbrev pub check_ends : TransferState → Bool
check_ends TransferState.withdraw_pending = true
check_ends TransferState.transfer_in_progress = true
check_ends TransferState.manual_review = true
check_ends _ = false

abbrev pub deposit_ends : TransferState → Bool
deposit_ends TransferState.deposit_detected = true
deposit_ends TransferState.manual_review = true
deposit_ends _ = false

abbrev pub sell_ends : TransferState → Bool
sell_ends TransferState.completed = true
sell_ends TransferState.manual_review = true
sell_ends _ = false

pub saved-Lands :
    (allowed : TransferState → Bool) (r q : TransferRecord)
    → allowed q.state ≡ true
    → SameTransfer r q
    → Lands allowed r (save_record q >> pure q)
unfolding save_record
saved-Lands allowed r q a s w r' h = ground (arith, get-save_self r' w.rows)

pub audited-Lands :
    (allowed : TransferState → Bool) (event : AuditEvent) (r q : TransferRecord)
    → allowed q.state ≡ true
    → SameTransfer r q
    → Lands allowed r (save_record q >> audit event r.id >> pure q)
unfolding save_record audit
audited-Lands allowed event r q a s w r' h = ground (arith, get-save_self r' w.rows)

pub step_to-Lands :
    (allowed : TransferState → Bool) (env : Environment) (s : TransferState) (r : TransferRecord)
    → allowed s ≡ true
    → MayLand allowed r (step_to env s r)
unfolding step_to
step_to-Lands allowed env s r a w r' h = ground (arith, get-save_self r' w.rows)

pub timeout_guard-Lands :
    (allowed : TransferState → Bool) (env : Environment) (r : TransferRecord)
    → allowed TransferState.manual_review ≡ true
    → MayLand allowed r (timeout_guard env r)
unfolding timeout_guard
timeout_guard-Lands allowed env r a w r' h = ground (arith, get-save_self r' w.rows)

renewed_from :
    (allowed : TransferState → Bool) (r : TransferRecord) (x : Result TransferRecord) (w : World)
    → ((q : TransferRecord) → x ≡ ok q → Landed allowed r q w)
    → (r' : TransferRecord) → (continued (λ q. pure (some q)) x w).0 ≡ ok (some r')
    → Landed allowed r r' (continued (λ q. pure (some q)) x w).1
renewed_from allowed r (ok q) w l r' h = subst (λ p. Landed allowed r p w) (ground arith) (l q refl)
renewed_from allowed r (raise e) w l r' h = absurd (raise_ne_ok h)

pub renewed-MayLand :
    (allowed : TransferState → Bool) (r : TransferRecord) (m : Action TransferRecord)
    → Lands allowed r m
    → MayLand allowed r (m >>= λ q. pure (some q))
renewed-MayLand allowed r m l w r' h = renewed_from allowed r (m w).0 (m w).1 (l w) r' h
