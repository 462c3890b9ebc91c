-- ===== src/Orchestrator/Lifecycle.antt =====
-- The life of a transfer over steps and sweeps of app/strategies/transfer/orchestrator.py.
use crypto_arbitrage_bot_ref.Base.{
  ◌≡◌, refl, ap, sym, subst, Bool, true, false, Option, none, some, [], arith,
}
use crypto_arbitrage_bot_ref.Guard.{TradingMode}
use crypto_arbitrage_bot_ref.Result.{Result, ok, raise}
use crypto_arbitrage_bot_ref.Transfers.{TransferRecord, TransferState}
use crypto_arbitrage_bot_ref.Orchestrator.Effects.{Environment, World, Action, move}
use crypto_arbitrage_bot_ref.Orchestrator.Buy.{execute_buy}
use crypto_arbitrage_bot_ref.Orchestrator.Landing.{Landed, execute_buy-Lands, buy_ends}
use crypto_arbitrage_bot_ref.Orchestrator.Crash.{
  accounted, held, KeepsHeld, Noted, Noted-accounted, bind_keeps, pure_keeps,
}
use crypto_arbitrage_bot_ref.Orchestrator.Crash.Sending.{submit_withdrawal-keeps}
use crypto_arbitrage_bot_ref.Orchestrator.Crash.Waiting.{
  check_withdrawal-keeps, await_deposit-keeps,
}
use crypto_arbitrage_bot_ref.Orchestrator.Crash.Selling.{execute_sell-keeps, finish-keeps}
use crypto_arbitrage_bot_ref.Orchestrator.Custody.{
  withdraw_ends, check_ends, deposit_ends, sell_ends, renewed-MayLand,
}
use crypto_arbitrage_bot_ref.Orchestrator.Custody.Withdrawal.{submit_withdrawal-MayLand}
use crypto_arbitrage_bot_ref.Orchestrator.Custody.Chain.{
  Checked, landed, unsaved, check_withdrawal-Checked, await_deposit-MayLand,
}
use crypto_arbitrage_bot_ref.Orchestrator.Custody.Sale.{execute_sell-Lands, finish-Lands}
use crypto_arbitrage_bot_ref.Orchestrator.Sell.{execute_sell, finish}
use crypto_arbitrage_bot_ref.Orchestrator.Tick.{renewed, step_of, advance, isolate}

-- the transitions of the documented lifecycle that one step may make
abbrev pub follows : TransferState → TransferState → Bool
follows TransferState.created s = buy_ends s
follows TransferState.buy_submitted s = buy_ends s
follows TransferState.buy_filled s = withdraw_ends s
follows TransferState.withdraw_submitted s = check_ends s
follows TransferState.withdraw_pending s = check_ends s
follows TransferState.transfer_in_progress s = deposit_ends s
follows TransferState.deposit_detected s = sell_ends s
follows TransferState.sell_submitted s = sell_ends s
follows _ s = false

-- A step follows the lifecycle and its record is in the database, or it waits in LIVE with a
-- record that is not.
pub data Stepped (env : Environment) (r r' : TransferRecord) (w : World) : Type 0 where
  written : Landed (follows r.state) r r' w → Stepped env r r' w
  waiting :
      env.mode ≡ TradingMode.live
      → follows r.state TransferState.withdraw_pending ≡ true
      → r' ≡ move env TransferState.withdraw_pending r
      → Stepped env r r' w

of_Landed :
    (env : Environment) (allowed : TransferState → Bool) (r r' : TransferRecord) (w : World)
    → follows r.state ≡ allowed
    → Landed allowed r r' w
    → Stepped env r r' w
of_Landed env allowed r r' w e l = written (subst (λ a. Landed a r r' w) (sym e) l)

of_Checked :
    (env : Environment) (r r' : TransferRecord) (w : World)
    → follows r.state ≡ check_ends
    → Checked env r r' w
    → Stepped env r r' w
of_Checked env r r' w e (landed l) = of_Landed env check_ends r r' w e l
of_Checked env r r' w e (unsaved live same) =
    waiting live (ap (λ (a : TransferState → Bool). a TransferState.withdraw_pending) e) same

-- The step for a record whose state is s.
step_of-Stepped :
    (env : Environment) (s : TransferState) (r : TransferRecord)
    → r.state ≡ s
    → (w : World) (r' : TransferRecord) → (step_of s env r w).0 ≡ ok (some r')
    → Stepped env r r' (step_of s env r w).1
step_of-Stepped env TransferState.created r e w r' h =
    of_Landed env buy_ends r r' _ (ap follows e)
      (renewed-MayLand buy_ends r (execute_buy env r) (execute_buy-Lands env r) w r' h)
step_of-Stepped env TransferState.buy_submitted r e w r' h =
    of_Landed env buy_ends r r' _ (ap follows e)
      (renewed-MayLand buy_ends r (execute_buy env r) (execute_buy-Lands env r) w r' h)
step_of-Stepped env TransferState.buy_filled r e w r' h =
    of_Landed env withdraw_ends r r' _ (ap follows e) (submit_withdrawal-MayLand env r w r' h)
step_of-Stepped env TransferState.withdraw_submitted r e w r' h =
    of_Checked env r r' _ (ap follows e) (check_withdrawal-Checked env r w r' h)
step_of-Stepped env TransferState.withdraw_pending r e w r' h =
    of_Checked env r r' _ (ap follows e) (check_withdrawal-Checked env r w r' h)
step_of-Stepped env TransferState.transfer_in_progress r e w r' h =
    of_Landed env deposit_ends r r' _ (ap follows e) (await_deposit-MayLand env r w r' h)
step_of-Stepped env TransferState.deposit_detected r e w r' h =
    of_Landed env sell_ends r r' _ (ap follows e)
      (renewed-MayLand sell_ends r (execute_sell env r) (execute_sell-Lands env r) w r' h)
step_of-Stepped env TransferState.sell_submitted r e w r' h =
    of_Landed env sell_ends r r' _ (ap follows e)
      (renewed-MayLand sell_ends r (finish env r) (finish-Lands env r) w r' h)
step_of-Stepped env TransferState.completed r e w r' h = ground arith
step_of-Stepped env TransferState.failed r e w r' h = ground arith
step_of-Stepped env TransferState.manual_review r e w r' h = ground arith

-- A step that returns a new record moves the transfer along the documented lifecycle,
-- keeps its id and plan, and has stored it; only in LIVE, while the venue still processes the
-- withdrawal, the new record differs from the old by the pending state and the time, and is not stored.
pub advance_follows_lifecycle :
    (env : Environment) (r : TransferRecord) (w : World) (r' : TransferRecord)
    → (advance env r w).0 ≡ ok (some r')
    → Stepped env r r' (advance env r w).1
unfolding advance
advance_follows_lifecycle env r w r' h = step_of-Stepped env r.state r refl w r' h

-- the states from which coins of the transfer are bought and not yet sold
abbrev pub holds_coins : TransferState → Bool
holds_coins TransferState.buy_filled = true
holds_coins TransferState.withdraw_submitted = true
holds_coins TransferState.withdraw_pending = true
holds_coins TransferState.transfer_in_progress = true
holds_coins TransferState.deposit_detected = true
holds_coins TransferState.sell_submitted = true
holds_coins _ = false

-- A record of one transfer over any number of sweeps of the worker, each with its own answers from
-- outside and its own world. A sweep goes on from the record that the one before returned or, where
-- the process died inside a step, from any record that this step had saved.
pub data Life (r : TransferRecord) : TransferRecord → Type 0 where
  begun : Life r r
  swept :
      {q r' : TransferRecord}
      → Life r q
      → (env : Environment) (w : World) → (isolate env q (advance env q w)).0 ≡ some r'
      → Life r r'
  died :
      {q r' : TransferRecord}
      → Life r q
      → (env : Environment) (w : World) → w.log ≡ []
      → Noted r' (advance env q w).1.log
      → Life r r'

-- what one sweep keeps
pub record Kept (q r' : TransferRecord) : Type 0 where
  pub id_kept : r'.id ≡ q.id
  pub plan_kept : r'.plan ≡ q.plan
  pub still_accounted : accounted q.state ≡ true → accounted r'.state ≡ true

follows-accounted :
    (s s' : TransferState) → follows s s' ≡ true → accounted s ≡ true → accounted s' ≡ true
follows-accounted s s' f a = ground arith

Kept-written : (q r' : TransferRecord) (w : World) → Landed (follows q.state) q r' w → Kept q r'
Kept-written q r' w l = record {
  id_kept = l.same_id;
  plan_kept = l.same_plan;
  still_accounted = follows-accounted q.state r'.state l.state_allowed;
}

Kept-Stepped :
    (env : Environment) (q r' : TransferRecord) (w : World) → Stepped env q r' w → Kept q r'
Kept-Stepped env q r' w (written l) = Kept-written q r' w l
Kept-Stepped env q r' w (waiting live f e) = ground (arith, follows-accounted q.state r'.state)

-- what the handler of a sweep gives is the result of the step, or a record in manual review
Kept-isolate :
    (env : Environment) (q r' : TransferRecord) (x : Result (Option TransferRecord)) (w : World)
    → ((p : TransferRecord) → x ≡ ok (some p) → Kept q p)
    → (isolate env q (x, w)).0 ≡ some r'
    → Kept q r'
unfolding isolate
Kept-isolate env q r' (ok none) w k h = ground arith
Kept-isolate env q r' (ok (some p)) w k h = subst (Kept q) (ground arith) (k p refl)
Kept-isolate env q r' (raise e) w k h = ground arith

Kept-sweep :
    (env : Environment) (q r' : TransferRecord) (w : World)
    → (isolate env q (advance env q w)).0 ≡ some r'
    → Kept q r'
Kept-sweep env q r' w h =
    let x = advance env q w in
    Kept-isolate env q r' x.0 x.1
      (λ p e. Kept-Stepped env q p x.1 (advance_follows_lifecycle env q w p e)) h

renewed-keeps : (m : Action TransferRecord) → KeepsHeld m → KeepsHeld (renewed m)
renewed-keeps m k = bind_keeps k (λ r. pure_keeps {a = some r})

step_of-keeps :
    (env : Environment) (s : TransferState) (r : TransferRecord)
    → accounted s ≡ true
    → KeepsHeld (step_of s env r)
step_of-keeps env TransferState.created r a = ground arith
step_of-keeps env TransferState.buy_submitted r a = ground arith
step_of-keeps env TransferState.buy_filled r a = submit_withdrawal-keeps env r
step_of-keeps env TransferState.withdraw_submitted r a = check_withdrawal-keeps env r
step_of-keeps env TransferState.withdraw_pending r a = check_withdrawal-keeps env r
step_of-keeps env TransferState.transfer_in_progress r a = await_deposit-keeps env r
step_of-keeps env TransferState.deposit_detected r a =
    renewed-keeps (execute_sell env r) (execute_sell-keeps env r)
step_of-keeps env TransferState.sell_submitted r a =
    renewed-keeps (finish env r) (finish-keeps env r)
step_of-keeps env TransferState.completed r a = pure_keeps
step_of-keeps env TransferState.failed r a = ground arith
step_of-keeps env TransferState.manual_review r a = pure_keeps

-- what a step had saved when the process died
died-accounted :
    (env : Environment) (q r' : TransferRecord) (w : World)
    → w.log ≡ []
    → Noted r' (advance env q w).1.log
    → accounted q.state ≡ true
    → accounted r'.state ≡ true
unfolding advance held
died-accounted env q r' w fresh n a =
    Noted-accounted r' (advance env q w).1.log
      ((step_of-keeps env q.state q a).keeps w (ap held fresh)) n

Life-accounted :
    {r r' : TransferRecord} → Life r r' → accounted r.state ≡ true → accounted r'.state ≡ true
Life-accounted begun a = a
Life-accounted (swept {q} {r'} l env w h) a =
    (Kept-sweep env q r' w h).still_accounted (Life-accounted l a)
Life-accounted (died {q} {r'} l env w fresh n) a =
    died-accounted env q r' w fresh n (Life-accounted l a)

-- Once the buy is filled, no number of sweeps, whatever venues answer and wherever the process dies
-- inside a step and goes on from a record that the step had saved, turns the transfer into a failed
-- one or takes it back before the buy: its coins are on their way, sold, or left to an operator.
pub coins_never_written_off :
    {r r' : TransferRecord}
    → Life r r'
    → r.state ≡ TransferState.buy_filled
    → accounted r'.state ≡ true
coins_never_written_off l e = Life-accounted l (ap accounted e)
