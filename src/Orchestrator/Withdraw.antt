-- ===== src/Orchestrator/Withdraw.antt =====
-- `_submit_withdrawal` of app/strategies/transfer/orchestrator.py: the network checked again, the
-- address and its memo, the intent saved, then the withdrawal.
use crypto_arbitrage_bot_ref.Base.{
  ℕ, zero, suc, ◌-◌, Bool, true, false, not, ◌&&◌, ◌||◌, Option, none, some, List, [], ◌∷◌, ◌++◌,
  Text, text, text_eq, upper, strip, length, any_of, is_some, if◌then◌else◌,
}
use crypto_arbitrage_bot_ref.Money.{Decimal, dec0, le_dec, sub_dec, quantize}
use crypto_arbitrage_bot_ref.Guard.{TradingMode}
use crypto_arbitrage_bot_ref.Networks.{RouteNetwork, select}
use crypto_arbitrage_bot_ref.Result.{
  Result, ok, raise, Exception, execution_disabled, adapter_error, signal,
}
use crypto_arbitrage_bot_ref.Recovery.{Reply, reply, failure}
use crypto_arbitrage_bot_ref.Transfers.{
  TransferRecord, TransferState, TransferPlan, DepositAddress, WithdrawalNetwork, Note,
}
use crypto_arbitrage_bot_ref.Orchestrator.Effects.{
  Environment, Action, pure, throw, lift, ◌>>=◌, ◌>>◌, save_record, check_guard, fail_record,
  to_review, move, audit, debit_wallet, transfer_withdraw_submitted, withdrew, record_effect,
  Withdrawal, WithdrawReply, accepted, withdrawals_disabled, withdraw_error,
}

-- `_MEMO_REQUIRED_ASSETS`
abbrev pub memo_required_assets : List Text
memo_required_assets =
    text "XRP"
    ∷ text "XLM"
    ∷ text "EOS"
    ∷ text "HBAR"
    ∷ text "XIN"
    ∷ text "RVN"
    ∷ text "ATOM"
    ∷ text "BNB"
    ∷ text "LUNA"
    ∷ text "LUNC"
    ∷ text "KAVA"
    ∷ text "CRO"
    ∷ text "BTS"
    ∷ []

-- `plan.asset.upper() in _MEMO_REQUIRED_ASSETS`
unfoldable pub requires_memo : Text → Bool
requires_memo asset = any_of (text_eq (upper asset)) memo_required_assets

abbrev is_empty : Text → Bool
is_empty [] = true
is_empty (_ ∷ _) = false

-- `address.memo and str(address.memo).strip()`
unfoldable pub has_memo : DepositAddress → Bool
has_memo a = elim a.memo [ none ↦ false | some m ↦ not (is_empty m) && not (is_empty (strip m)) ]

-- the planned network is the validated one, by its code or by its name
unfoldable pub matches_plan : TransferPlan → RouteNetwork → Bool
matches_plan p route =
    text_eq (upper route.code) (upper p.network) || text_eq (upper route.network) (upper p.network)

abbrev skip : ℕ → Text → Text
skip zero s = s
skip (suc n) [] = []
skip (suc n) (c ∷ s) = skip n s

-- `s[-n:]`, for n > 0
abbrev last_chars : ℕ → Text → Text
last_chars n s = skip (length s - n) s

-- the id of a submission intent
unfoldable pub intent_id : TransferRecord → Text
intent_id r = text "wd-intent-" ++ last_chars 12 r.id

abbrev sim_id : TransferRecord → Text
sim_id r = text "sim-demo-" ++ last_chars 6 r.id

-- `record.with_state(WITHDRAW_SUBMITTED, ...)` before the withdrawal
abbrev pub with_intent : Environment → DepositAddress → Decimal → TransferRecord → TransferRecord
with_intent env a amount r =
    let moved = move env TransferState.withdraw_submitted r in
    record moved {
      withdrawal_id = some (intent_id r);
      deposit_address = some a.address;
      withdrawal_amount = amount;
    }

-- the same after it
abbrev pub with_withdrawal : Environment → Option Text → TransferRecord → TransferRecord
with_withdrawal env txid r =
    let moved = move env TransferState.withdraw_submitted r in
    record moved { withdrawal_id = txid; withdrawal_txid = txid }

abbrev pub order_to_withdraw : TransferPlan → DepositAddress → Decimal → Withdrawal
order_to_withdraw p a amount = record {
  asset = p.asset;
  amount = amount;
  address = a.address;
  memo = a.memo;
  network = p.network;
}

abbrev answered : WithdrawReply → Result (Option Text)
answered (accepted tx) = ok tx.txid
answered withdrawals_disabled = raise execution_disabled
answered (withdraw_error e) = raise (adapter_error e)

-- `adapter.withdraw`
unfoldable pub call_withdraw : Environment → Text → Withdrawal → Action (Option Text)
call_withdraw env venue q w = (answered (env.withdraw venue q), record_effect (withdrew q) w)

-- the withdrawal by mode: in DEMO no call is made
unfoldable pub send : Environment → DepositAddress → Decimal → TransferRecord → Action (Option Text)
unfolding call_withdraw
send env a amount r = elim env.mode [
  | TradingMode.demo ↦ pure (some (sim_id r))
  | _ ↦ call_withdraw env r.plan.source_exchange (order_to_withdraw r.plan a amount)
]

abbrev pub debit_source : Environment → TransferRecord → Action (Unit {0})
debit_source env r = elim env.mode [
  | TradingMode.paper ↦ debit_wallet r.plan.source_exchange r.plan.asset r.buy_filled_amount
  | _ ↦ pure tt
]

-- what follows the call: the record of an accepted withdrawal, or the escalation
unfoldable pub after_send :
    Environment → TransferRecord → Result (Option Text) → Action TransferRecord
unfolding save_record audit debit_wallet fail_record
after_send env r (ok txid) = do
  debit_source env r
  save_record (with_withdrawal env txid r)
  audit transfer_withdraw_submitted r.id
  pure (with_withdrawal env txid r)
after_send env r (raise Exception.execution_disabled) = throw execution_disabled
after_send env r (raise e) = to_review env (Note.withdrawal_failed e) r

-- the intent saved, then the call
unfoldable pub send_withdrawal :
    Environment → DepositAddress → Decimal → TransferRecord → Action TransferRecord
unfolding save_record send after_send
send_withdrawal env a amount r = do
  rounded ← lift (signal (quantize 8 amount))
  let r' = with_intent env a rounded r
  save_record r'
  λ w. (let (sent, w') = send env a amount r' w in after_send env r' sent w')

-- the checks on address and amount
unfoldable pub check_address :
    Environment → RouteNetwork → TransferRecord → Reply DepositAddress → Action TransferRecord
unfolding send_withdrawal requires_memo has_memo fail_record
check_address env route r (failure e) = to_review env (Note.address_unavailable (adapter_error e)) r
check_address env route r (reply a) =
    let amount = sub_dec r.buy_filled_amount route.withdrawal_fee in
    if requires_memo r.plan.asset && not (has_memo a)
    then to_review env Note.memo_missing r
    else if le_dec amount dec0
    then to_review env Note.fee_not_covered r
    else send_withdrawal env a amount r

-- the checks on the network
unfoldable pub check_route :
    Environment → TransferRecord → Result RouteNetwork → Action TransferRecord
unfolding check_address matches_plan fail_record
check_route env r (raise Exception.network_mismatch) = to_review env Note.network_failed r
check_route env r (raise e) = throw e
check_route env r (ok route) =
    if not (matches_plan r.plan route)
    then to_review env Note.planned_network_gone r
    else check_address env route r
        (env.fetch_deposit_address r.plan.dest_exchange r.plan.asset r.plan.network)

abbrev routed :
    Reply (List WithdrawalNetwork) → Reply (List WithdrawalNetwork) → Result RouteNetwork
routed (failure e) _ = raise (adapter_error e)
routed (reply _) (failure e) = raise (adapter_error e)
routed (reply sources) (reply dests) = select sources dests

-- the networks of both venues, and the route between them
abbrev pub route_now : Environment → TransferPlan → Result RouteNetwork
route_now env p =
    routed (env.fetch_withdrawal_networks p.source_exchange p.asset)
      (env.fetch_withdrawal_networks p.dest_exchange p.asset)

-- `_submit_withdrawal` behind the guard; none is the record itself, returned as it was
abbrev pub unless_withdrawn : Environment → TransferRecord → Action (Option TransferRecord)
unless_withdrawn env r =
    if is_some r.withdrawal_id
    then pure none
    else (check_route env r (route_now env r.plan) >>= (λ r'. pure (some r')))

-- `_submit_withdrawal`
unfoldable pub submit_withdrawal : Environment → TransferRecord → Action (Option TransferRecord)
unfolding check_guard check_route
submit_withdrawal env r = check_guard env >> unless_withdrawn env r
