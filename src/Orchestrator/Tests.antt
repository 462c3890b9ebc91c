-- ===== src/Orchestrator/Tests.antt =====
-- The steps on a small transfer.
use crypto_arbitrage_bot_ref.Base.{
  ◌≡◌, inl, inr, refl, true, none, some, List, [], ◌∷◌, text, ℕ, put, find, text_eq, normalise,
}
use crypto_arbitrage_bot_ref.Storage.{try_claim_new_open_slot}
use crypto_arbitrage_bot_ref.Orders.{confirmed_not_filled}
use crypto_arbitrage_bot_ref.Orchestrator.Legs.{placed_order}
use crypto_arbitrage_bot_ref.Money.{dec, arithmetic}
use crypto_arbitrage_bot_ref.Guard.{TradingMode, ensure_can_trade}
use crypto_arbitrage_bot_ref.Result.{ok, raise, execution_disabled}
use crypto_arbitrage_bot_ref.Networks.{select}
use crypto_arbitrage_bot_ref.Transfers.{TransferRecord, TransferState, buy_cost_quote}
use crypto_arbitrage_bot_ref.Orchestrator.Effects.{
  Effect, move, Environment, saved, withdrew, submitted, audited,
}
use crypto_arbitrage_bot_ref.Orchestrator.Buy.{execute_buy}
use crypto_arbitrage_bot_ref.Orchestrator.Due.{
  AtMostOne, Due, withdrawals, withdraws_only_what_is_Due,
}
use crypto_arbitrage_bot_ref.Orchestrator.Withdraw.{submit_withdrawal, with_intent, with_withdrawal}
use crypto_arbitrage_bot_ref.Orchestrator.Tick.{advance, isolate, tick, start}
use crypto_arbitrage_bot_ref.Orchestrator.Lifecycle.{
  Stepped, advance_follows_lifecycle, Life, begun, swept, died, coins_never_written_off,
}
use crypto_arbitrage_bot_ref.Orchestrator.Crash.{accounted, Noted}
use crypto_arbitrage_bot_ref.Orchestrator.Journal.{in_order}
use crypto_arbitrage_bot_ref.Orchestrator.Journal.Sweeps.{tick_intents_first, start_intents_first}
use crypto_arbitrage_bot_ref.Orchestrator.Once.{
  orders, noted_buy_places_nothing, halted_step_changes_nothing,
}
use crypto_arbitrage_bot_ref.Orchestrator.Fixtures.{
  ripple_plan, calm, in_state, world_of, open_guard, halted_guard,
}

abbrev live_now : ℕ → Environment
live_now now = calm TradingMode.live open_guard now

abbrev paper_now : ℕ → Environment
paper_now now = calm TradingMode.paper open_guard now

abbrev waiting_record : TransferRecord
waiting_record = in_state TransferState.withdraw_submitted

-- After the simulated delay, the coins are on their way.
on_their_way :
    (advance (paper_now 200) waiting_record (world_of waiting_record)).0
    ≡ ok (some (move (paper_now 200) TransferState.transfer_in_progress waiting_record))
unfolding advance
on_their_way = refl

advance_follows_lifecycle_example :
    Stepped
      (paper_now 200)
      waiting_record
      (move (paper_now 200) TransferState.transfer_in_progress waiting_record)
      (advance (paper_now 200) waiting_record (world_of waiting_record)).1
advance_follows_lifecycle_example =
    advance_follows_lifecycle (paper_now 200) waiting_record (world_of waiting_record)
      (move (paper_now 200) TransferState.transfer_in_progress waiting_record) on_their_way

abbrev bought_already : TransferRecord
bought_already = in_state TransferState.buy_filled

-- the same once the withdrawal of ten coins less the fee is noted, and once it went through
abbrev noted_record : TransferRecord
noted_record =
    with_intent (live_now 5) (record { address = text "rX"; memo = some (text "42") })
      (dec 990000000 8) bought_already

abbrev sent_record : TransferRecord
sent_record = with_withdrawal (live_now 5) (some (text "tx1")) noted_record

-- A sweep in LIVE withdraws.
withdrawn :
    (isolate
      (live_now 5)
      bought_already
      (advance (live_now 5) bought_already (world_of bought_already))).0
    ≡ some sent_record
unfolding isolate advance select arithmetic ensure_can_trade put find text_eq normalise
withdrawn = refl

-- It saves the noted withdrawal on its way.
noted : Noted noted_record (advance (live_now 5) bought_already (world_of bought_already)).1.log
unfolding advance select arithmetic ensure_can_trade put find text_eq normalise
noted = inr (inl refl)

arrived :
    (isolate
      (paper_now 300)
      noted_record
      (advance (paper_now 300) noted_record (world_of noted_record))).0
    ≡ some (move (paper_now 300) TransferState.transfer_in_progress noted_record)
unfolding isolate advance
arrived = refl

-- The process dies while the venue withdraws; another one, in another mode, takes the row up.
died_and_resumed :
    Life bought_already (move (paper_now 300) TransferState.transfer_in_progress noted_record)
died_and_resumed =
    swept (died begun (live_now 5) (world_of bought_already) refl noted) (paper_now 300)
      (world_of noted_record) arrived

coins_never_written_off_example : accounted TransferState.transfer_in_progress ≡ true
coins_never_written_off_example = coins_never_written_off died_and_resumed refl

tick_intents_first_example :
    in_order (tick (λ r. live_now 5) (world_of bought_already)).1.log ≡ true
unfolding in_order
tick_intents_first_example = tick_intents_first (λ r. live_now 5) (world_of bought_already) refl

-- the kinds of the effects of a log
abbrev kinds : List Effect → List ℕ
kinds [] = []
kinds (saved r ∷ log) = 0 ∷ kinds log
kinds (submitted q ∷ log) = 1 ∷ kinds log
kinds (withdrew q ∷ log) = 2 ∷ kinds log
kinds (audited e k ∷ log) = 3 ∷ kinds log

-- In LIVE a start claims, audits, notes the buy, places it, saves its outcome twice, notes the
-- withdrawal, withdraws, saves and audits.
started :
    kinds
      (start
        (live_now 5)
        none
        3
        (text "t1")
        ripple_plan
        (record { rows = []; wallets = []; log = [] })).1.log
    ≡ 3 ∷ 0 ∷ 2 ∷ 0 ∷ 0 ∷ 0 ∷ 1 ∷ 0 ∷ 3 ∷ 0 ∷ []
unfolding start select arithmetic ensure_can_trade try_claim_new_open_slot buy_cost_quote
    confirmed_not_filled placed_order put find text_eq normalise
started = refl

start_intents_first_example :
    in_order
      (start
        (live_now 5)
        none
        3
        (text "t1")
        ripple_plan
        (record { rows = []; wallets = []; log = [] })).1.log
    ≡ true
unfolding in_order
start_intents_first_example =
    start_intents_first (live_now 5) none 3 (text "t1") ripple_plan
      (record { rows = []; wallets = []; log = [] }) refl

noted_buy_places_nothing_example :
    orders (execute_buy (live_now 5) bought_already (world_of bought_already)).1.log ≡ []
noted_buy_places_nothing_example =
    noted_buy_places_nothing (live_now 5) bought_already (world_of bought_already) refl

halted_step_changes_nothing_example :
    advance (calm TradingMode.live halted_guard 5) bought_already (world_of bought_already)
    ≡ (raise execution_disabled, world_of bought_already)
unfolding ensure_can_trade
halted_step_changes_nothing_example =
    halted_step_changes_nothing (calm TradingMode.live halted_guard 5) bought_already
      (world_of bought_already) refl refl

withdraws_only_what_is_Due_example :
    AtMostOne
      (Due (live_now 5) bought_already)
      []
      (withdrawals (submit_withdrawal (live_now 5) bought_already (world_of bought_already)).1.log)
withdraws_only_what_is_Due_example =
    withdraws_only_what_is_Due (live_now 5) bought_already (world_of bought_already)
