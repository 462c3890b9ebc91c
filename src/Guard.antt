-- ===== src/Guard.antt =====
-- app/config/modes.py, app/execution/guard.py, app/execution/order_gate.py and the key/value store
-- of app/storage/repositories.py: the interlocks that decide whether the bot may trade.
pub mod Restart
pub mod Gates
pub mod Tests
use crypto_arbitrage_bot_ref.Base.{
  ℕ, Bool, true, false, not, ◌&&◌, Option, none, some, List, [], ◌∷◌, Text, text, text_eq, Dict,
  find, put, is_some, if◌then◌else◌,
}

pub data TradingMode : Type 0 where
  paper demo live : TradingMode

-- `ModePolicy`, less its description
pub record ModePolicy : Type 0 where
  pub mode : TradingMode
  pub sends_orders_to_exchange : Bool
  pub uses_real_funds : Bool
  pub uses_testnet : Bool
  pub requires_credentials : Bool
  pub requires_explicit_confirmation : Bool

-- `MODE_POLICIES`, and `policy_for`
unfoldable pub policy_for : TradingMode → ModePolicy
policy_for TradingMode.paper = record {
  mode = TradingMode.paper;
  sends_orders_to_exchange = false;
  uses_real_funds = false;
  uses_testnet = false;
  requires_credentials = false;
  requires_explicit_confirmation = false;
}
policy_for TradingMode.demo = record {
  mode = TradingMode.demo;
  sends_orders_to_exchange = true;
  uses_real_funds = false;
  uses_testnet = true;
  requires_credentials = true;
  requires_explicit_confirmation = false;
}
policy_for TradingMode.live = record {
  mode = TradingMode.live;
  sends_orders_to_exchange = true;
  uses_real_funds = true;
  uses_testnet = false;
  requires_credentials = true;
  requires_explicit_confirmation = true;
}

-- `ExecutionGuard`
pub record Guard : Type 0 where
  pub policy : ModePolicy
  pub trading_enabled : Bool
  pub halt_reason : Option Text
  pub halted_at : Option ℕ

unfoldable pub new_guard : ModePolicy → Bool → Guard
new_guard p enabled = record {
  policy = p;
  trading_enabled = enabled;
  halt_reason = none;
  halted_at = none;
}

unfoldable pub is_halted : Guard → Bool
is_halted g = is_some g.halt_reason

-- why a gate raises ExecutionDisabledError
pub data Refusal : Type 0 where
  kill_switch_engaged auto_trading_disabled : Refusal

-- `ensure_can_trade`: the refusal that it raises, if any
unfoldable pub ensure_can_trade : Guard → Option Refusal
unfolding is_halted
ensure_can_trade g = if is_halted g then some kill_switch_engaged else none

-- `ensure_auto_trading`
unfoldable pub ensure_auto_trading : Guard → Option Refusal
unfolding is_halted
ensure_auto_trading g =
    if is_halted g
    then some kill_switch_engaged
    else if not g.trading_enabled
    then some auto_trading_disabled
    else none

-- `can_trade`
unfoldable pub can_trade : Guard → Bool
unfolding ensure_can_trade
can_trade g = not (is_some (ensure_can_trade g))

unfoldable pub enable_trading : Bool → Guard → Guard
enable_trading enabled g = record g { trading_enabled = enabled }

-- `engage_kill_switch`, at the time `now`
unfoldable pub engage_kill_switch : ℕ → Text → Guard → Guard
engage_kill_switch now reason g = record g { halt_reason = some reason; halted_at = some now }

unfoldable pub release_kill_switch : Guard → Guard
release_kill_switch g = record g { halt_reason = none; halted_at = none }

-- a stored JSON value: one that is no dict, or a dict with the fields that the guard reads
pub data Stored : Type 0 where
  no_dict : Stored
  switch : Bool → Option Text → Option ℕ → Stored

-- `BotStateRepository`
abbrev pub BotState : Type 0
BotState = Dict Stored

abbrev pub remove : Text → BotState → BotState
remove k [] = []
remove k ((j, v) ∷ d) = let rest = remove k d in if text_eq j k then rest else (j, v) ∷ rest

abbrev pub kill_switch_key : Text
kill_switch_key = text "kill_switch"

-- `persist`
unfoldable pub persist : Guard → BotState → BotState
unfolding is_halted
persist g repo =
    if is_halted g
    then put kill_switch_key (switch true g.halt_reason g.halted_at) repo
    else remove kill_switch_key repo

abbrev pub engaged_before_restart : Text
engaged_before_restart = text "engaged before restart"

-- `str(reason or "engaged before restart")`
abbrev reason_or_default : Option Text → Text
reason_or_default none = engaged_before_restart
reason_or_default (some []) = engaged_before_restart
reason_or_default (some (c ∷ s)) = c ∷ s

abbrev restored : Guard → Option Stored → Guard
restored g (some (switch true reason since)) = record g {
  halt_reason = some (reason_or_default reason);
  halted_at = since;
}
restored g _ = g

-- `restore`
unfoldable pub restore : BotState → Guard → Guard
restore repo g = restored g (find kill_switch_key repo)

-- the gates of app/execution/order_gate.py; an adapter is seen by its sandbox option, if it has one
unfoldable pub never_place_orders : Option Bool → Bool
never_place_orders _ = false

unfoldable pub sandbox_only : Option Bool → Bool
sandbox_only none = false
sandbox_only (some sandbox) = sandbox

unfoldable pub live_session_gate : Guard → Option Bool → Bool
unfolding is_halted
live_session_gate g _ = g.trading_enabled && not (is_halted g)

-- the gate that `build_services` injects for a mode
unfoldable pub gate_for : TradingMode → Guard → Option Bool → Bool
unfolding never_place_orders sandbox_only live_session_gate
gate_for TradingMode.paper g = never_place_orders
gate_for TradingMode.demo g = sandbox_only
gate_for TradingMode.live g = live_session_gate g
