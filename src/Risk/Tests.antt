-- ===== src/Risk/Tests.antt =====
-- The default rules on a small trade.
use crypto_arbitrage_bot_ref.Base.{◌≡◌, refl, true, false, none, some, [], ◌∷◌, ◌++◌, text}
use mathlib.Core.Logic.{◌↔◌}
use crypto_arbitrage_bot_ref.Money.{dec, dec0, arithmetic}
use crypto_arbitrage_bot_ref.Risk.{
  RiskContext, RiskRule, RiskLevel, RuleName, ArbitrageStrategy, finite, nan, raised,
  default_limits, default_risk_rules, first_above, evaluate, check_kill_switch, check_daily_loss,
  check_data_age, check_net_profit, check_trade_size, check_slippage, check_open_transfers,
  check_exchange_exposure, check_asset_exposure,
}
use crypto_arbitrage_bot_ref.Risk.Verdict.{Within, approved_iff_Within, evaluate_fails_closed}

abbrev small_trade : RiskContext
small_trade = record {
  strategy = ArbitrageStrategy.transfer;
  notional_quote = dec 100 0;
  net_profit_bps = dec 20 0;
  slippage_bps = dec 5 0;
  data_age_ms = finite (dec 500 0);
  daily_pnl = dec0;
  open_transfers = 1;
  exchange_exposure = some ((text "alpha", dec 500 0) ∷ []);
  asset_exposure = some ((text "XRP", dec 500 0) ∷ []);
  kill_switch_engaged = false;
}

approves : (evaluate default_risk_rules default_limits small_trade).approved ≡ true
unfolding evaluate arithmetic check_kill_switch check_daily_loss check_data_age check_net_profit
    check_trade_size check_slippage check_open_transfers check_exchange_exposure
    check_asset_exposure first_above
approves = refl

-- An age that is no number and exposures that are missing pass.
abbrev half_built : RiskContext
half_built = record small_trade {
  data_age_ms = nan;
  exchange_exposure = none;
  asset_exposure = none;
}

approves_half_built : (evaluate default_risk_rules default_limits half_built).approved ≡ true
unfolding evaluate arithmetic check_kill_switch check_daily_loss check_data_age check_net_profit
    check_trade_size check_slippage check_open_transfers check_exchange_exposure
    check_asset_exposure
approves_half_built = refl

approved_iff_Within_example :
    ((evaluate default_risk_rules default_limits small_trade).approved ≡ true)
    ↔ Within small_trade default_limits
approved_iff_Within_example = approved_iff_Within default_limits small_trade

-- a rule that raises
abbrev broken_rule : RiskRule
broken_rule = record { name = RuleName.custom (text "broken"); check = λ c l. raised (text "oops") }

evaluate_fails_closed_example :
    let verdict = evaluate ([] ++ broken_rule ∷ default_risk_rules) default_limits small_trade in
    (verdict.approved ≡ false) × (verdict.level ≡ RiskLevel.critical)
evaluate_fails_closed_example =
    evaluate_fails_closed [] default_risk_rules broken_rule default_limits small_trade refl
