-- ===== src/Orchestrator/Tick.antt =====
-- `start`, `_advance`, `tick` and `resume` of app/strategies/transfer/orchestrator.py.
use crypto_arbitrage_bot_ref.Base.{
  ℕ, Bool, true, false, Option, none, some, List, [], ◌∷◌, Text, length, if◌then◌else◌,
}
use crypto_arbitrage_bot_ref.Money.{dec0}
use crypto_arbitrage_bot_ref.Risk.{RiskAssessment}
use crypto_arbitrage_bot_ref.Result.{Result, ok, raise, Exception, execution_disabled}
use crypto_arbitrage_bot_ref.Transfers.{
  TransferRecord, TransferState, TransferPlan, Note, with_state,
}
use crypto_arbitrage_bot_ref.Storage.{list_open, try_claim_new_open_slot}
use crypto_arbitrage_bot_ref.Orchestrator.Effects.{
  Environment, World, Action, pure, ◌>>=◌, ◌>>◌, saved, save_record, check_guard, audit,
  transfer_started,
}
use crypto_arbitrage_bot_ref.Orchestrator.Buy.{execute_buy}
use crypto_arbitrage_bot_ref.Orchestrator.Withdraw.{submit_withdrawal}
use crypto_arbitrage_bot_ref.Orchestrator.Confirm.{check_withdrawal, await_deposit}
use crypto_arbitrage_bot_ref.Orchestrator.Sell.{execute_sell, finish}

-- a step that always builds a new record
abbrev pub renewed : Action TransferRecord → Action (Option TransferRecord)
renewed m = m >>= (λ r. pure (some r))

-- the dispatch of `_advance` on the state; none is the record itself, returned as it was
abbrev pub step_of : TransferState → Environment → TransferRecord → Action (Option TransferRecord)
step_of TransferState.created env r = renewed (execute_buy env r)
step_of TransferState.buy_submitted env r = renewed (execute_buy env r)
step_of TransferState.buy_filled env r = submit_withdrawal env r
step_of TransferState.withdraw_submitted env r = check_withdrawal env r
step_of TransferState.withdraw_pending env r = check_withdrawal env r
step_of TransferState.transfer_in_progress env r = await_deposit env r
step_of TransferState.deposit_detected env r = renewed (execute_sell env r)
step_of TransferState.sell_submitted env r = renewed (finish env r)
step_of _ env r = pure none

-- `_advance`
unfoldable pub advance : Environment → TransferRecord → Action (Option TransferRecord)
unfolding execute_buy submit_withdrawal check_withdrawal await_deposit execute_sell finish
advance env r = step_of r.state env r

abbrev pub after_error : Environment → TransferRecord → Exception → TransferRecord
after_error env r e = with_state env.now TransferState.manual_review (some (Note.tick_error e)) r

-- the handler of `tick` around one step: any exception sends the record to manual review
unfoldable pub isolate :
    Environment
    → TransferRecord
    → Result (Option TransferRecord) × World
    → Option TransferRecord × World
unfolding save_record
isolate env r (ok updated, w) = (updated, w)
isolate env r (raise e, w) =
    let (_, w') = save_record (after_error env r e) w in (some (after_error env r e), w')

abbrev and_then : Option TransferRecord → List TransferRecord → List TransferRecord
and_then none rs = rs
and_then (some r) rs = r ∷ rs

-- the loop of `tick`; the environment answers each record's step
unfoldable pub tick_each :
    (TransferRecord → Environment) → List TransferRecord → World → List TransferRecord × World
unfolding isolate advance
tick_each env [] w = ([], w)
tick_each env (r ∷ rs) w =
    let (updated, w') = isolate (env r) r (advance (env r) r w) in
    let (more, w'') = tick_each env rs w' in (and_then updated more, w'')

-- `tick`
unfoldable pub tick : (TransferRecord → Environment) → World → List TransferRecord × World
unfolding tick_each
tick env w = tick_each env (list_open w.rows) w

-- `resume`
unfoldable pub resume : World → ℕ
resume w = length (list_open w.rows)

-- the record that `start` builds from a plan
abbrev pub new_record : Environment → Text → TransferPlan → TransferRecord
new_record env id p = record {
  id = id;
  source_exchange = p.source_exchange;
  dest_exchange = p.dest_exchange;
  asset = p.asset;
  network = p.network;
  amount = p.amount;
  state = TransferState.created;
  plan = p;
  buy_order = none;
  buy_filled_amount = dec0;
  withdrawal_id = none;
  withdrawal_txid = none;
  withdrawal_amount = dec0;
  deposit_address = none;
  deposit_txid = none;
  deposit_amount = dec0;
  sell_order = none;
  sell_filled_amount = dec0;
  sell_proceeds = dec0;
  fees_quote = dec0;
  realized_profit_quote = dec0;
  error = none;
  created_at = env.now;
  updated_at = env.now;
}

abbrev pub claimed : TransferRecord → World → Bool × List TransferRecord → Result (Unit {0}) × World
claimed r w (true, rows) = (ok tt, record w { rows = rows; log = saved r ∷ w.log })
claimed r w (false, rows) = (raise execution_disabled, record w { rows = rows })

-- the atomic claim of a slot
unfoldable pub claim_slot : ℕ → TransferRecord → Action (Unit {0})
claim_slot max_open r w = claimed r w (try_claim_new_open_slot r max_open w.rows)

-- `assessment.approved`, where a risk check is given
unfoldable pub check_risk :
    Option (TransferPlan → RiskAssessment) → TransferPlan → Action (Unit {0})
check_risk none p w = (ok tt, w)
check_risk (some assess) p w =
    if (assess p).approved then (ok tt, w) else (raise execution_disabled, w)

abbrev pub withdraw_if_bought : Environment → TransferRecord → Action TransferRecord
withdraw_if_bought env r = elim r.state [
  | TransferState.buy_filled ↦
      (submit_withdrawal env r >>= (λ updated. elim updated [ none ↦ pure r | some r' ↦ pure r' ]))
  | _ ↦ pure r
]

-- `start`, under a fresh id
unfoldable pub start :
    Environment
    → Option (TransferPlan → RiskAssessment)
    → ℕ
    → Text
    → TransferPlan
    → Action TransferRecord
unfolding check_guard check_risk claim_slot audit execute_buy submit_withdrawal
start env risk max_open id p = do
  check_guard env
  check_risk risk p
  let r = new_record env id p
  claim_slot max_open r
  audit transfer_started id
  bought ← execute_buy env r
  withdraw_if_bought env bought
