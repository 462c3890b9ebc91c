-- ===== src/Risk.antt =====
-- app/models/risk.py, app/risk/rules.py and app/risk/engine.py: the rules that every execution
-- passes, and the single verdict over them. A violation's message is a name for its text.
pub mod Verdict
pub mod Tests
use crypto_arbitrage_bot_ref.Base.{
  ℕ, Bool, true, false, not, Option, none, some, List, [], ◌∷◌, Text, text, Dict, leb, ltb,
  if◌then◌else◌,
}
use crypto_arbitrage_bot_ref.Money.{Decimal, dec, le_dec, lt_dec, negate, floor_dec}

pub data ArbitrageStrategy : Type 0 where
  triangle transfer kronos : ArbitrageStrategy

pub data RiskLevel : Type 0 where
  low medium high critical : RiskLevel

-- `_SEVERITY_ORDER`
abbrev pub severity_order : RiskLevel → ℕ
severity_order RiskLevel.low = 0
severity_order RiskLevel.medium = 1
severity_order RiskLevel.high = 2
severity_order RiskLevel.critical = 3

pub record RiskLimits : Type 0 where
  pub max_trade_size : Decimal
  pub min_net_profit_bps : Decimal
  pub max_daily_loss : Decimal
  pub max_open_transfers : ℕ
  pub max_exchange_exposure : Decimal
  pub max_asset_exposure : Decimal
  pub max_slippage_bps : Decimal
  pub max_data_age_ms : ℕ

-- the defaults of `RiskLimits`
abbrev pub default_limits : RiskLimits
default_limits = record {
  max_trade_size = dec 1000 0;
  min_net_profit_bps = dec 10 0;
  max_daily_loss = dec 250 0;
  max_open_transfers = 3;
  max_exchange_exposure = dec 150000 0;
  max_asset_exposure = dec 750000 0;
  max_slippage_bps = dec 15 0;
  max_data_age_ms = 2500;
}

-- a float: a finite one is a decimal, exactly
pub data Float : Type 0 where
  finite : Decimal → Float
  infinite nan : Float

-- `RiskContext`
pub record RiskContext : Type 0 where
  pub strategy : ArbitrageStrategy
  pub notional_quote : Decimal
  pub net_profit_bps : Decimal
  pub slippage_bps : Decimal
  pub data_age_ms : Float
  pub daily_pnl : Decimal
  pub open_transfers : ℕ
  pub exchange_exposure : Option (Dict Decimal)
  pub asset_exposure : Option (Dict Decimal)
  pub kill_switch_engaged : Bool

pub data RuleName : Type 0 where
  kill_switch max_daily_loss max_data_age min_net_profit max_trade_size max_slippage : RuleName
  max_open_transfers max_exchange_exposure max_asset_exposure : RuleName
  custom : Text → RuleName

-- the text of a violation: what its rule writes, or that the rule itself raised
pub data Message : Type 0 where
  limit_broken : Message
  evaluation_failed : Text → Message

pub record RiskViolation : Type 0 where
  pub rule : RuleName
  pub message : Message
  pub bound : Option Decimal
  pub actual : Option Decimal
  pub subject : Option Text
  pub severity : RiskLevel

-- what a rule's `check` does: it returns None or a violation, or it raises
pub data Check : Type 0 where
  passed : Check
  violated : RiskViolation → Check
  raised : Text → Check

pub record RiskRule : Type 0 where
  pub name : RuleName
  pub check : RiskContext → RiskLimits → Check

abbrev violation :
    RuleName → Option Decimal → Option Decimal → RiskLevel → Option Text → RiskViolation
violation r bound actual severity subject = record {
  rule = r;
  message = limit_broken;
  bound = bound;
  actual = actual;
  subject = subject;
  severity = severity;
}

unfoldable pub check_kill_switch : RiskContext → RiskLimits → Check
check_kill_switch c l =
    if c.kill_switch_engaged
    then violated (violation RuleName.kill_switch none none RiskLevel.critical none)
    else passed

unfoldable pub check_daily_loss : RiskContext → RiskLimits → Check
check_daily_loss c l =
    let loss = negate c.daily_pnl in
    if le_dec l.max_daily_loss loss
    then violated (
        violation RuleName.max_daily_loss (some l.max_daily_loss) (some loss) RiskLevel.critical
          none)
    else passed

unfoldable pub check_net_profit : RiskContext → RiskLimits → Check
check_net_profit c l =
    if lt_dec c.net_profit_bps l.min_net_profit_bps
    then violated (
        violation RuleName.min_net_profit (some l.min_net_profit_bps) (some c.net_profit_bps)
          RiskLevel.medium none)
    else passed

unfoldable pub check_trade_size : RiskContext → RiskLimits → Check
check_trade_size c l =
    if lt_dec l.max_trade_size c.notional_quote
    then violated (
        violation RuleName.max_trade_size (some l.max_trade_size) (some c.notional_quote)
          RiskLevel.high none)
    else passed

unfoldable pub check_slippage : RiskContext → RiskLimits → Check
check_slippage c l =
    if lt_dec l.max_slippage_bps c.slippage_bps
    then violated (
        violation RuleName.max_slippage (some l.max_slippage_bps) (some c.slippage_bps)
          RiskLevel.high none)
    else passed

abbrev pub is_transfer : ArbitrageStrategy → Bool
is_transfer ArbitrageStrategy.transfer = true
is_transfer _ = false

unfoldable pub check_open_transfers : RiskContext → RiskLimits → Check
check_open_transfers c l =
    if not (is_transfer c.strategy)
    then passed
    else if leb l.max_open_transfers c.open_transfers
    then violated (
        violation RuleName.max_open_transfers (some (dec l.max_open_transfers 0))
          (some (dec c.open_transfers 0)) RiskLevel.high none)
    else passed

-- the loop over an exposure map: its first entry above the bound
unfoldable pub first_above : RuleName → Decimal → Dict Decimal → Check
first_above r bound [] = passed
first_above r bound ((k, value) ∷ d) =
    if lt_dec bound value
    then violated (violation r (some bound) (some value) RiskLevel.high (some k))
    else first_above r bound d

abbrev check_exposure : RuleName → Decimal → Option (Dict Decimal) → Check
check_exposure r bound none = passed
check_exposure r bound (some d) = first_above r bound d

unfoldable pub check_exchange_exposure : RiskContext → RiskLimits → Check
check_exchange_exposure c l =
    check_exposure RuleName.max_exchange_exposure l.max_exchange_exposure c.exchange_exposure

unfoldable pub check_asset_exposure : RiskContext → RiskLimits → Check
check_asset_exposure c l =
    check_exposure RuleName.max_asset_exposure l.max_asset_exposure c.asset_exposure

-- `age > bound` on floats: no comparison holds of a NaN
abbrev pub age_above : Float → ℕ → Bool
age_above (finite a) bound = lt_dec (dec bound 0) a
age_above infinite bound = true
age_above nan bound = false

-- `Decimal(str(int(age)))` of a finite age, which is not negative
abbrev whole_age : Float → Option Decimal
whole_age (finite a) = some (floor_dec a)
whole_age _ = none

unfoldable pub check_data_age : RiskContext → RiskLimits → Check
unfolding floor_dec
check_data_age c l =
    if age_above c.data_age_ms l.max_data_age_ms
    then violated (
        violation RuleName.max_data_age (some (dec l.max_data_age_ms 0)) (whole_age c.data_age_ms)
          RiskLevel.critical none)
    else passed

abbrev rule : RuleName → (RiskContext → RiskLimits → Check) → RiskRule
rule n f = record { name = n; check = f }

-- `DEFAULT_RISK_RULES`
abbrev pub default_risk_rules : List RiskRule
default_risk_rules =
    rule RuleName.kill_switch check_kill_switch
    ∷ rule RuleName.max_daily_loss check_daily_loss
    ∷ rule RuleName.max_data_age check_data_age
    ∷ rule RuleName.min_net_profit check_net_profit
    ∷ rule RuleName.max_trade_size check_trade_size
    ∷ rule RuleName.max_slippage check_slippage
    ∷ rule RuleName.max_open_transfers check_open_transfers
    ∷ rule RuleName.max_exchange_exposure check_exchange_exposure
    ∷ rule RuleName.max_asset_exposure check_asset_exposure
    ∷ []

pub record RiskAssessment : Type 0 where
  pub approved : Bool
  pub violations : List RiskViolation
  pub level : RiskLevel

abbrev pub rule_failed : RuleName → Text → RiskViolation
rule_failed r e = record {
  rule = r;
  message = evaluation_failed e;
  bound = none;
  actual = none;
  subject = none;
  severity = RiskLevel.critical;
}

abbrev pub add_check : RuleName → Check → List RiskViolation → List RiskViolation
add_check r passed vs = vs
add_check r (violated v) vs = v ∷ vs
add_check r (raised e) vs = rule_failed r e ∷ vs

-- the loop of `evaluate`: the violations in the order of the rules
unfoldable pub violations_of : List RiskRule → RiskContext → RiskLimits → List RiskViolation
violations_of [] c l = []
violations_of (r ∷ rs) c l = add_check r.name (r.check c l) (violations_of rs c l)

-- `max` by severity, which keeps the first of equals
abbrev max_level : RiskLevel → List RiskViolation → RiskLevel
max_level best [] = best
max_level best (v ∷ vs) =
    max_level (if ltb (severity_order best) (severity_order v.severity) then v.severity else best)
      vs

abbrev assess : List RiskViolation → RiskAssessment
assess [] = record { approved = true; violations = []; level = RiskLevel.low }
assess (v ∷ vs) = record { approved = false; violations = v ∷ vs; level = max_level v.severity vs }

-- `RiskEngine.evaluate`
unfoldable pub evaluate : List RiskRule → RiskLimits → RiskContext → RiskAssessment
unfolding violations_of
evaluate rules l c = assess (violations_of rules c l)
