-- ===== src/Orchestrator/Confirm.antt =====
-- `_check_withdrawal`, `_await_deposit` and `_timeout_guard` of
-- app/strategies/transfer/orchestrator.py: waiting for the chain, simulated or polled.
use crypto_arbitrage_bot_ref.Base.{
  ℕ, ◌+◌, ◌*◌, Bool, true, false, not, ◌&&◌, ◌||◌, Option, none, some, List, [], ◌∷◌, ◌++◌, Text,
  text, text_eq, ltb, if◌then◌else◌,
}
use crypto_arbitrage_bot_ref.Money.{
  Decimal, dec, dec0, le_dec, lt_dec, sub_dec, mul_dec, negate, quantize,
}
use crypto_arbitrage_bot_ref.Guard.{TradingMode}
use crypto_arbitrage_bot_ref.Recovery.{Reply, reply, failure, is_blank}
use crypto_arbitrage_bot_ref.Result.{signal}
use crypto_arbitrage_bot_ref.Transfers.{
  TransferRecord, TransferState, TransferTx, TxStatus, Note, is_confirmed, with_state,
}
use crypto_arbitrage_bot_ref.Orchestrator.Effects.{
  Environment, Action, pure, lift, ◌>>=◌, ◌>>◌, save_record, fail_record, to_review, move,
  credit_wallet,
}
use Prim.Native.Nat.{min}

-- a transition that is saved and returned
unfoldable pub step_to :
    Environment → TransferState → TransferRecord → Action (Option TransferRecord)
unfolding save_record
step_to env s r = do save_record (move env s r); pure (some (move env s r))

-- `_timeout_guard`: elapsed since creation beyond the timeout
unfoldable pub timeout_guard : Environment → TransferRecord → Action (Option TransferRecord)
unfolding save_record
timeout_guard env r =
    let late = with_state env.now TransferState.manual_review (some Note.deposit_timeout) r in
    if ltb (r.created_at + env.deposit_timeout_micros) env.now
    then save_record late >> pure (some late)
    else pure none

-- the simulated delay: at most ten seconds in DEMO
abbrev pub delay_of : Environment → ℕ
delay_of env = elim env.mode [
  | TradingMode.demo ↦ min env.simulated_transfer_micros 10_000_000
  | _ ↦ env.simulated_transfer_micros
]

abbrev is_withdraw_submitted : TransferState → Bool
is_withdraw_submitted TransferState.withdraw_submitted = true
is_withdraw_submitted _ = false

-- the simulated chain: `elapsed < delay / 2`, then `elapsed < delay`
unfoldable pub simulated_withdrawal : Environment → TransferRecord → Action (Option TransferRecord)
unfolding step_to
simulated_withdrawal env r =
    if ltb (2 * env.now) (2 * r.updated_at + delay_of env) && is_withdraw_submitted r.state
    then step_to env TransferState.withdraw_pending r
    else if ltb env.now (r.updated_at + delay_of env)
    then pure none
    else step_to env TransferState.transfer_in_progress r

abbrev same_text : Option Text → Option Text → Bool
same_text (some a) (some b) = text_eq a b
same_text none none = true
same_text _ _ = false

-- `wanted and tx.txid == wanted`
abbrev names_tx : Option Text → TransferTx → Bool
names_tx wanted tx = not (is_blank wanted) && same_text tx.txid wanted

-- the first transaction in the history that is ours decides
unfoldable pub scan_withdrawals :
    Environment → TransferRecord → List TransferTx → Action (Option TransferRecord)
unfolding timeout_guard step_to fail_record
scan_withdrawals env r [] = timeout_guard env r
scan_withdrawals env r (tx ∷ txs) =
    let rest = scan_withdrawals env r txs in
    let found : Action (Option TransferRecord) = elim tx.status [
      | TxStatus.confirmed ↦ step_to env TransferState.transfer_in_progress r
      | TxStatus.failed_on_venue ↦
          (to_review env Note.withdrawal_failed_on_venue r >>= (λ r'. pure (some r')))
      | _ ↦ pure (some (move env TransferState.withdraw_pending r))
    ] in
    if names_tx r.withdrawal_id tx || names_tx r.withdrawal_txid tx then found else rest

abbrev pub polled_withdrawals :
    Environment → TransferRecord → Reply (List TransferTx) → Action (Option TransferRecord)
polled_withdrawals env r (failure e) = timeout_guard env r
polled_withdrawals env r (reply txs) = scan_withdrawals env r txs

-- `_check_withdrawal`
unfoldable pub check_withdrawal : Environment → TransferRecord → Action (Option TransferRecord)
unfolding simulated_withdrawal timeout_guard scan_withdrawals
check_withdrawal env r = elim env.mode [
  | TradingMode.live ↦
      polled_withdrawals env r (env.fetch_withdrawals r.plan.source_exchange r.plan.asset)
  | _ ↦ simulated_withdrawal env r
]

-- `f"sim-{record.withdrawal_txid}"`
abbrev pub sim_txid : Option Text → Text
sim_txid none = text "sim-None"
sim_txid (some t) = text "sim-" ++ t

-- `record.with_state(DEPOSIT_DETECTED, ...)`
abbrev pub detected_record : Environment → Option Text → Decimal → TransferRecord → TransferRecord
detected_record env txid rounded r =
    let moved = move env TransferState.deposit_detected r in
    record moved { deposit_txid = txid; deposit_amount = rounded }

-- the same with the amount quantized, saved
unfoldable pub detect :
    Environment → Option Text → Decimal → TransferRecord → Action (Option TransferRecord)
unfolding save_record
detect env txid amount r = do
  rounded ← lift (signal (quantize 8 amount))
  save_record (detected_record env txid rounded r)
  pure (some (detected_record env txid rounded r))

unfoldable pub simulated_deposit : Environment → TransferRecord → Action (Option TransferRecord)
unfolding credit_wallet detect
simulated_deposit env r =
    if ltb env.now (r.updated_at + delay_of env)
    then pure none
    else credit_wallet r.plan.dest_exchange r.plan.asset r.withdrawal_amount
      >> detect env (some (sim_txid r.withdrawal_txid)) r.withdrawal_amount r

abbrev abs_dec : Decimal → Decimal
abs_dec a = if lt_dec a dec0 then negate a else a

-- `amount_close`
unfoldable pub amount_close : TransferRecord → TransferTx → Bool
amount_close r tx =
    le_dec (abs_dec (sub_dec tx.amount r.withdrawal_amount)) (mul_dec r.withdrawal_amount (dec 5 3))

-- `address_match`
unfoldable pub address_match : TransferRecord → TransferTx → Bool
address_match r tx = not (is_blank r.deposit_address) && same_text tx.address r.deposit_address

-- a pending one is passed over; the first confirmed one close in amount or to our address counts
unfoldable pub scan_deposits :
    Environment → TransferRecord → List TransferTx → Action (Option TransferRecord)
unfolding timeout_guard detect amount_close address_match
scan_deposits env r [] = timeout_guard env r
scan_deposits env r (tx ∷ txs) =
    let rest = scan_deposits env r txs in
    if is_confirmed tx && (amount_close r tx || address_match r tx)
    then detect env tx.txid tx.amount r
    else rest

abbrev pub polled_deposits :
    Environment → TransferRecord → Reply (List TransferTx) → Action (Option TransferRecord)
polled_deposits env r (failure e) = timeout_guard env r
polled_deposits env r (reply txs) = scan_deposits env r txs

-- `_await_deposit`
unfoldable pub await_deposit : Environment → TransferRecord → Action (Option TransferRecord)
unfolding simulated_deposit timeout_guard scan_deposits
await_deposit env r = elim env.mode [
  | TradingMode.live ↦ polled_deposits env r (env.fetch_deposits r.plan.dest_exchange r.plan.asset)
  | _ ↦ simulated_deposit env r
]
