-- ===== src/Guard/Tests.antt =====
-- The gates and the store on small guards.
use crypto_arbitrage_bot_ref.Base.{
  ◌≡◌, ◌≢◌, List, refl, true, false, none, some, [], ◌∷◌, text, Text, find,
}
use crypto_arbitrage_bot_ref.Guard.{
  Guard, TradingMode, policy_for, engage_kill_switch, ensure_can_trade, ensure_auto_trading,
  can_trade, gate_for, is_halted, persist, restore, kill_switch_engaged, kill_switch_key,
}
use crypto_arbitrage_bot_ref.Guard.Gates.{
  Command, set_trading, restart, after_commands, engaged_refuses_all, gate_for_safe,
}
use crypto_arbitrage_bot_ref.Guard.Restart.{kill_switch_survives_restart}

abbrev running : Guard
running = record {
  policy = policy_for TradingMode.live;
  trading_enabled = true;
  halt_reason = none;
  halted_at = none;
}

abbrev stopped : Guard
stopped = record running { halt_reason = some (text "loss"); halted_at = some 5 }

-- the flag is set again, and the bot restarts
abbrev commands : List Command
commands = set_trading true ∷ restart (policy_for TradingMode.live) true [] ∷ set_trading true ∷ []

engaged_refuses_all_example :
    let halted = after_commands commands (engage_kill_switch 5 (text "loss") running) in
    (ensure_can_trade halted ≡ some kill_switch_engaged)
    × (ensure_auto_trading halted ≡ some kill_switch_engaged)
    × (can_trade halted ≡ false)
    × (gate_for TradingMode.live halted (some false) ≡ false)
engaged_refuses_all_example = engaged_refuses_all running 5 (text "loss") commands (some false)

-- The gate of DEMO passes while the guard is halted.
demo_gate_passes : gate_for TradingMode.demo stopped (some true) ≡ true
unfolding gate_for
demo_gate_passes = refl

gate_for_safe_example :
    ((policy_for TradingMode.live).sends_orders_to_exchange ≡ true)
    × ((policy_for TradingMode.live).uses_real_funds ≡ true
        → (is_halted running ≡ false) × (running.trading_enabled ≡ true))
    × ((policy_for TradingMode.live).uses_testnet ≡ true → some false ≡ some true)
unfolding gate_for
gate_for_safe_example = gate_for_safe TradingMode.live running (some false) refl

kill_switch_survives_restart_example :
    (is_halted (restore (persist stopped []) running) ≡ is_halted stopped)
    × ((c : Prim.Native.Nat.ℕ) (s : Text)
        → stopped.halt_reason ≡ some (c ∷ s)
        → (restore (persist stopped []) running).halt_reason ≡ some (c ∷ s))
    × ((j : Text) → j ≢ kill_switch_key → find j (persist stopped []) ≡ find j [])
kill_switch_survives_restart_example = kill_switch_survives_restart stopped running [] refl
