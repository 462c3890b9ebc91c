-- ===== src/Guard/Gates.antt =====
-- What the gates of app/execution let through.
use mathlib.Core.Logic.{◌↔◌}
use crypto_arbitrage_bot_ref.Base.{
  ℕ, ◌≡◌, Bool, true, false, Option, none, some, List, [], ◌∷◌, Text, arith, refl, ◌∙◌,
}
use crypto_arbitrage_bot_ref.Guard.{
  TradingMode, policy_for, gate_for, Guard, is_halted, ensure_can_trade, ensure_auto_trading,
  can_trade, engage_kill_switch, enable_trading, live_session_gate, kill_switch_engaged, ModePolicy,
  new_guard, BotState, persist, restore,
}
use crypto_arbitrage_bot_ref.Guard.Restart.{kill_switch_survives_restart}

-- what an operator or the bot does to a guard without releasing the kill switch: set the trading
-- flag, engage the switch (again), or restart on a new guard with what was persisted
pub data Command : Type 0 where
  set_trading : Bool → Command
  engage : ℕ → Text → Command
  restart : ModePolicy → Bool → BotState → Command

abbrev pub obeyed : Command → Guard → Guard
obeyed (set_trading enabled) g = enable_trading enabled g
obeyed (engage now reason) g = engage_kill_switch now reason g
obeyed (restart policy enabled repo) g = restore (persist g repo) (new_guard policy enabled)

abbrev pub after_commands : List Command → Guard → Guard
after_commands [] g = g
after_commands (c ∷ cs) g = after_commands cs (obeyed c g)

obeyed_halted : (c : Command) (g : Guard) → is_halted g ≡ true → is_halted (obeyed c g) ≡ true
unfolding is_halted enable_trading engage_kill_switch new_guard
obeyed_halted (set_trading enabled) g h = h
obeyed_halted (engage now reason) g h = refl
obeyed_halted (restart policy enabled repo) g h =
    (kill_switch_survives_restart g (new_guard policy enabled) repo refl).0 ∙ h

after_commands_halted :
    (cs : List Command) (g : Guard) → is_halted g ≡ true → is_halted (after_commands cs g) ≡ true
after_commands_halted [] g h = h
after_commands_halted (c ∷ cs) g h = after_commands_halted cs (obeyed c g) (obeyed_halted c g h)

halted_refuses :
    (g : Guard) (sandbox : Option Bool)
    → is_halted g ≡ true
    → (ensure_can_trade g ≡ some kill_switch_engaged)
      × (ensure_auto_trading g ≡ some kill_switch_engaged)
      × (can_trade g ≡ false)
      × (gate_for TradingMode.live g sandbox ≡ false)
unfolding ensure_can_trade ensure_auto_trading can_trade gate_for live_session_gate
halted_refuses g sandbox h = ground arith

-- Once the kill switch is engaged, no explicit command, no background loop and no live order
-- passes, whatever happens to the guard until the switch is released: the trading flag set either
-- way, the switch engaged again, restarts in any number. The gate of DEMO, which looks at the
-- sandbox option alone, is not among those that refuse.
pub engaged_refuses_all :
    (g : Guard) (now : ℕ) (reason : Text) (cs : List Command) (sandbox : Option Bool)
    → let halted = after_commands cs (engage_kill_switch now reason g) in
      (ensure_can_trade halted ≡ some kill_switch_engaged)
      × (ensure_auto_trading halted ≡ some kill_switch_engaged)
      × (can_trade halted ≡ false)
      × (gate_for TradingMode.live halted sandbox ≡ false)
unfolding engage_kill_switch is_halted
engaged_refuses_all g now reason cs sandbox =
    let g' = engage_kill_switch now reason g in
    halted_refuses (after_commands cs g') sandbox (after_commands_halted cs g' refl)

-- A live order is let through exactly when the background loop would be: the kill switch is
-- released and the trading flag is set.
pub live_session_gate_iff :
    (g : Guard) (sandbox : Option Bool)
    → (live_session_gate g sandbox ≡ true) ↔ (ensure_auto_trading g ≡ none)
unfolding live_session_gate ensure_auto_trading
live_session_gate_iff g sandbox = ground arith

-- An order that the injected gate lets through is placed in a mode that sends orders; with real
-- funds only while the kill switch is released and trading is enabled, and on a testnet only
-- through an adapter whose sandbox option is set.
pub gate_for_safe :
    (mode : TradingMode) (g : Guard) (sandbox : Option Bool)
    → gate_for mode g sandbox ≡ true
    → ((policy_for mode).sends_orders_to_exchange ≡ true)
      × ((policy_for mode).uses_real_funds ≡ true
          → (is_halted g ≡ false) × (g.trading_enabled ≡ true))
      × ((policy_for mode).uses_testnet ≡ true → sandbox ≡ some true)
unfolding gate_for policy_for
gate_for_safe TradingMode.paper g sandbox h = ground arith
gate_for_safe TradingMode.demo g sandbox h = ground arith
gate_for_safe TradingMode.live g sandbox h = ground arith
