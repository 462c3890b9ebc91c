-- ===== src/Orchestrator/Crash/Waiting.antt =====
-- Waiting for the chain in app/strategies/transfer/orchestrator.py save no row that writes coins off.
use crypto_arbitrage_bot_ref.Base.{◌≡◌, refl, true, Option, some, List, [], ◌∷◌, Text, arith}
use crypto_arbitrage_bot_ref.Money.{Decimal, quantize}
use crypto_arbitrage_bot_ref.Recovery.{Reply, reply, failure}
use crypto_arbitrage_bot_ref.Result.{signal}
use crypto_arbitrage_bot_ref.Transfers.{TransferRecord, TransferState, TransferTx, Note}
use crypto_arbitrage_bot_ref.Orchestrator.Effects.{Environment, to_review, save_record, pure, ◌>>=◌}
use crypto_arbitrage_bot_ref.Orchestrator.Confirm.{
  step_to, timeout_guard, simulated_withdrawal, scan_withdrawals, polled_withdrawals,
  check_withdrawal, detect, detected_record, simulated_deposit, sim_txid, scan_deposits,
  polled_deposits, await_deposit,
}
use crypto_arbitrage_bot_ref.Orchestrator.Crash.{
  accounted, held, KeepsHeld, bind_keeps, if_keeps, pure_keeps, lift_keeps, save-pure-keeps,
  review-keeps, credit_wallet-keeps,
}

step_to-keeps :
    (env : Environment) (s : TransferState) (r : TransferRecord)
    → accounted s ≡ true
    → KeepsHeld (step_to env s r)
unfolding step_to save_record held
step_to-keeps env s r a = record { keeps = λ w h. rw a h }

timeout_guard-keeps : (env : Environment) (r : TransferRecord) → KeepsHeld (timeout_guard env r)
unfolding timeout_guard save_record held
timeout_guard-keeps env r = record { keeps = λ w h. ground arith }

detect-keeps :
    (env : Environment) (txid : Option Text) (amount : Decimal) (r : TransferRecord)
    → KeepsHeld (detect env txid amount r)
unfolding detect
detect-keeps env txid amount r =
    bind_keeps (lift_keeps (signal (quantize 8 amount))) (λ x.
      save-pure-keeps (detected_record env txid x r) (some (detected_record env txid x r)) refl)

scan_withdrawals-keeps :
    (env : Environment) (r : TransferRecord) (txs : List TransferTx)
    → KeepsHeld (scan_withdrawals env r txs)
unfolding scan_withdrawals
scan_withdrawals-keeps env r [] = timeout_guard-keeps env r
scan_withdrawals-keeps env r (tx ∷ txs) = record {
  keeps = λ w h.
      let note = Note.withdrawal_failed_on_venue in
      let review : KeepsHeld (to_review env note r >>= (λ r'. pure (some r'))) =
        bind_keeps (review-keeps env note r) (λ r'. pure_keeps {a = some r'}) in
      ground (
        arith,
        review.keeps w h,
        (step_to-keeps env TransferState.transfer_in_progress r refl).keeps w h,
        (scan_withdrawals-keeps env r txs).keeps w h,
      );
}

polled_withdrawals-keeps :
    (env : Environment) (r : TransferRecord) (history : Reply (List TransferTx))
    → KeepsHeld (polled_withdrawals env r history)
polled_withdrawals-keeps env r (failure e) = timeout_guard-keeps env r
polled_withdrawals-keeps env r (reply txs) = scan_withdrawals-keeps env r txs

simulated_withdrawal-keeps :
    (env : Environment) (r : TransferRecord) → KeepsHeld (simulated_withdrawal env r)
unfolding simulated_withdrawal
simulated_withdrawal-keeps env r = record {
  keeps = λ w h. ground (
    arith,
    (step_to-keeps env TransferState.withdraw_pending r refl).keeps w h,
    (step_to-keeps env TransferState.transfer_in_progress r refl).keeps w h,
  );
}

pub check_withdrawal-keeps :
    (env : Environment) (r : TransferRecord) → KeepsHeld (check_withdrawal env r)
unfolding check_withdrawal
check_withdrawal-keeps env r = record {
  keeps = λ w h.
      let history = env.fetch_withdrawals r.plan.source_exchange r.plan.asset in
      ground (
        arith,
        (polled_withdrawals-keeps env r history).keeps w h,
        (simulated_withdrawal-keeps env r).keeps w h,
      );
}

simulated_deposit-keeps :
    (env : Environment) (r : TransferRecord) → KeepsHeld (simulated_deposit env r)
unfolding simulated_deposit
simulated_deposit-keeps env r = if_keeps _ pure_keeps (
    bind_keeps (credit_wallet-keeps r.plan.dest_exchange r.plan.asset r.withdrawal_amount)
      (λ _. detect-keeps env (some (sim_txid r.withdrawal_txid)) r.withdrawal_amount r))

scan_deposits-keeps :
    (env : Environment) (r : TransferRecord) (txs : List TransferTx)
    → KeepsHeld (scan_deposits env r txs)
unfolding scan_deposits
scan_deposits-keeps env r [] = timeout_guard-keeps env r
scan_deposits-keeps env r (tx ∷ txs) =
    if_keeps _ (detect-keeps env tx.txid tx.amount r) (scan_deposits-keeps env r txs)

polled_deposits-keeps :
    (env : Environment) (r : TransferRecord) (history : Reply (List TransferTx))
    → KeepsHeld (polled_deposits env r history)
polled_deposits-keeps env r (failure e) = timeout_guard-keeps env r
polled_deposits-keeps env r (reply txs) = scan_deposits-keeps env r txs

pub await_deposit-keeps : (env : Environment) (r : TransferRecord) → KeepsHeld (await_deposit env r)
unfolding await_deposit
await_deposit-keeps env r = record {
  keeps = λ w h.
      let history = env.fetch_deposits r.plan.dest_exchange r.plan.asset in
      ground (
        arith,
        (polled_deposits-keeps env r history).keeps w h,
        (simulated_deposit-keeps env r).keeps w h,
      );
}
