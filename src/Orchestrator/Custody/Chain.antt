-- ===== src/Orchestrator/Custody/Chain.antt =====
-- Where `_check_withdrawal` and `_await_deposit` of app/strategies/transfer/orchestrator.py land.
use crypto_arbitrage_bot_ref.Base.{◌≡◌, refl, Option, some, List, [], ◌∷◌, Text, arith}
use crypto_arbitrage_bot_ref.Money.{Decimal}
use crypto_arbitrage_bot_ref.Result.{ok}
use crypto_arbitrage_bot_ref.Recovery.{Reply, reply, failure}
use crypto_arbitrage_bot_ref.Guard.{TradingMode}
use crypto_arbitrage_bot_ref.Transfers.{TransferRecord, TransferState, Note, TransferTx}
use crypto_arbitrage_bot_ref.Storage.Slots.{get-save_self}
use crypto_arbitrage_bot_ref.Orchestrator.Effects.{
  to_review, Environment, World, credit_wallet, move,
}
use crypto_arbitrage_bot_ref.Orchestrator.Landing.{Landed, fail_record-Lands, Ensures-after}
use crypto_arbitrage_bot_ref.Orchestrator.Confirm.{
  polled_deposits, polled_withdrawals, sim_txid, simulated_withdrawal, scan_withdrawals,
  check_withdrawal, detect, simulated_deposit, scan_deposits, await_deposit,
}
use crypto_arbitrage_bot_ref.Orchestrator.Custody.{
  MayLand, check_ends, deposit_ends, step_to-Lands, timeout_guard-Lands, renewed-MayLand,
}

detect-Lands :
    (env : Environment) (txid : Option Text) (amount : Decimal) (r : TransferRecord)
    → MayLand deposit_ends r (detect env txid amount r)
unfolding detect
detect-Lands env txid amount r w r' h = ground (arith, get-save_self r' w.rows)

simulated_deposit-Lands :
    (env : Environment) (r : TransferRecord) → MayLand deposit_ends r (simulated_deposit env r)
unfolding simulated_deposit credit_wallet
simulated_deposit-Lands env r w r' h = ground (
  arith,
  Ensures-after some (Landed deposit_ends r)
      (credit_wallet r.plan.dest_exchange r.plan.asset r.withdrawal_amount)
      (λ _. detect env (some (sim_txid r.withdrawal_txid)) r.withdrawal_amount r)
      (λ _. detect-Lands env (some (sim_txid r.withdrawal_txid)) r.withdrawal_amount r) w r',
)

scan_deposits-Lands :
    (env : Environment) (r : TransferRecord) (txs : List TransferTx)
    → MayLand deposit_ends r (scan_deposits env r txs)
unfolding scan_deposits
scan_deposits-Lands env r [] w r' h = timeout_guard-Lands deposit_ends env r refl w r' h
scan_deposits-Lands env r (tx ∷ txs) w r' h =
    ground (arith, detect-Lands env tx.txid tx.amount r w r', scan_deposits-Lands env r txs w r')

polled_deposits-Lands :
    (env : Environment) (r : TransferRecord) (history : Reply (List TransferTx))
    → MayLand deposit_ends r (polled_deposits env r history)
polled_deposits-Lands env r (failure e) = timeout_guard-Lands deposit_ends env r refl
polled_deposits-Lands env r (reply txs) = scan_deposits-Lands env r txs

pub await_deposit-MayLand :
    (env : Environment) (r : TransferRecord) → MayLand deposit_ends r (await_deposit env r)
unfolding await_deposit
await_deposit-MayLand env r w r' h = ground (
  arith,
  simulated_deposit-Lands env r w r',
  polled_deposits-Lands env r (env.fetch_deposits r.plan.dest_exchange r.plan.asset) w r',
)

-- A check of the withdrawal lands; or the venue still works on it, in LIVE, and then the new
-- record is returned without being saved.
pub data Checked (env : Environment) (r r' : TransferRecord) (w : World) : Type 0 where
  landed : Landed check_ends r r' w → Checked env r r' w
  unsaved :
      env.mode ≡ TradingMode.live
      → r' ≡ move env TransferState.withdraw_pending r
      → Checked env r r' w

scan_withdrawals-Checked :
    (env : Environment) (r : TransferRecord) (txs : List TransferTx)
    → env.mode ≡ TradingMode.live
    → (w : World) (r' : TransferRecord) → (scan_withdrawals env r txs w).0 ≡ ok (some r')
    → Checked env r r' (scan_withdrawals env r txs w).1
unfolding scan_withdrawals
scan_withdrawals-Checked env r [] live w r' h =
    landed (timeout_guard-Lands check_ends env r refl w r' h)
scan_withdrawals-Checked env r (tx ∷ txs) live w r' h = ground (
  arith,
  landed,
  unsaved,
  step_to-Lands check_ends env TransferState.transfer_in_progress r refl w r',
  renewed-MayLand check_ends r (to_review env Note.withdrawal_failed_on_venue r)
      (fail_record-Lands check_ends env TransferState.manual_review Note.withdrawal_failed_on_venue
        r refl)
      w r',
  scan_withdrawals-Checked env r txs live w r',
)

simulated_withdrawal-Lands :
    (env : Environment) (r : TransferRecord) → MayLand check_ends r (simulated_withdrawal env r)
unfolding simulated_withdrawal
simulated_withdrawal-Lands env r w r' h = ground (
  arith,
  step_to-Lands check_ends env TransferState.withdraw_pending r refl w r',
  step_to-Lands check_ends env TransferState.transfer_in_progress r refl w r',
)

simulated_withdrawal-Checked :
    (env : Environment) (r : TransferRecord) (w : World) (r' : TransferRecord)
    → (simulated_withdrawal env r w).0 ≡ ok (some r')
    → Checked env r r' (simulated_withdrawal env r w).1
simulated_withdrawal-Checked env r w r' h = landed (simulated_withdrawal-Lands env r w r' h)

polled_withdrawals-Checked :
    (env : Environment) (r : TransferRecord) (history : Reply (List TransferTx))
    → env.mode ≡ TradingMode.live
    → (w : World) (r' : TransferRecord) → (polled_withdrawals env r history w).0 ≡ ok (some r')
    → Checked env r r' (polled_withdrawals env r history w).1
polled_withdrawals-Checked env r (failure e) live w r' h =
    landed (timeout_guard-Lands check_ends env r refl w r' h)
polled_withdrawals-Checked env r (reply txs) live w r' h =
    scan_withdrawals-Checked env r txs live w r' h

pub check_withdrawal-Checked :
    (env : Environment) (r : TransferRecord) (w : World) (r' : TransferRecord)
    → (check_withdrawal env r w).0 ≡ ok (some r')
    → Checked env r r' (check_withdrawal env r w).1
unfolding check_withdrawal
check_withdrawal-Checked env r w r' h = ground (
  arith,
  simulated_withdrawal-Checked env r w r',
  λ (live : env.mode ≡ TradingMode.live).
      polled_withdrawals-Checked env r (env.fetch_withdrawals r.plan.source_exchange r.plan.asset)
        live w r',
)
