-- ===== src/Risk/Verdict.antt =====
-- What the verdict of app/risk/engine.py says, for any rules and for the default ones.
use mathlib.Core.Logic.{◌↔◌}
use crypto_arbitrage_bot_ref.Base.{
  ℕ, ◌⊎◌, inl, inr, ◌<◌, ◌≡◌, refl, true, false, Option, none, some, List, [], ◌∷◌, ◌++◌, Text,
  Dict, All, arith, ltb, if◌then◌else◌,
}
use crypto_arbitrage_bot_ref.Money.{Decimal, dec, le_dec, lt_dec, negate}
use crypto_arbitrage_bot_ref.Risk.{
  RiskContext, RiskLimits, RiskRule, RiskViolation, RiskLevel, RuleName, ArbitrageStrategy, Float,
  finite, infinite, nan, Check, passed, violated, raised, severity_order, add_check, max_level,
  assess, evaluate, violations_of, default_risk_rules, first_above, check_exposure, age_above,
  check_kill_switch, check_daily_loss, check_data_age, check_net_profit, check_trade_size,
  check_slippage, check_open_transfers, check_exchange_exposure, check_asset_exposure,
}

abbrev pub AllPass : List RiskRule → RiskContext → RiskLimits → Type 0
AllPass [] c l = Unit
AllPass (r ∷ rs) c l = (r.check c l ≡ passed) × AllPass rs c l

AllPass-violations :
    (rs : List RiskRule) (c : RiskContext) (l : RiskLimits)
    → (violations_of rs c l ≡ []) ↔ AllPass rs c l
unfolding violations_of
AllPass-violations [] c l = (λ h. tt, λ h. refl)
AllPass-violations (r ∷ rs) c l = ground (arith, AllPass-violations rs c l)

approved-AllPass :
    (rs : List RiskRule) (l : RiskLimits) (c : RiskContext)
    → ((evaluate rs l c).approved ≡ true) ↔ AllPass rs c l
unfolding evaluate
approved-AllPass rs l c = ground (arith, AllPass-violations rs c l)

-- no entry of an exposure map lies above the bound; a map that is missing limits nothing
abbrev pub AllBelow : Decimal → Option (Dict Decimal) → Type 0
AllBelow bound none = Unit
AllBelow bound (some d) = All (λ entry. le_dec entry.1 bound ≡ true) d

-- an age that no comparison shows to be above the bound, as none shows it of one that is no number
abbrev pub IsFresh : Float → ℕ → Type 0
IsFresh (finite a) bound = le_dec a (dec bound 0) ≡ true
IsFresh infinite bound = ⊥
IsFresh nan bound = Unit

-- Every limit of the risk configuration, as the rules hold the trade to it.
pub record Within (c : RiskContext) (l : RiskLimits) : Type 0 where
  pub released : c.kill_switch_engaged ≡ false
  pub loss_below : lt_dec (negate c.daily_pnl) l.max_daily_loss ≡ true
  pub age_fresh : IsFresh c.data_age_ms l.max_data_age_ms
  pub profit_enough : le_dec l.min_net_profit_bps c.net_profit_bps ≡ true
  pub size_below : le_dec c.notional_quote l.max_trade_size ≡ true
  pub slippage_below : le_dec c.slippage_bps l.max_slippage_bps ≡ true
  pub transfers_below :
      c.strategy ≡ ArbitrageStrategy.transfer → c.open_transfers < l.max_open_transfers
  pub venues_below : AllBelow l.max_exchange_exposure c.exchange_exposure
  pub assets_below : AllBelow l.max_asset_exposure c.asset_exposure

first_above-passed :
    (r : RuleName) (bound : Decimal) (d : Dict Decimal)
    → (first_above r bound d ≡ passed) ↔ All (λ entry. le_dec entry.1 bound ≡ true) d
unfolding first_above
first_above-passed r bound [] = (λ h. tt, λ h. refl)
first_above-passed r bound ((k, v) ∷ d) = ground (arith, first_above-passed r bound d)

exposure-passed :
    (r : RuleName) (bound : Decimal) (m : Option (Dict Decimal))
    → (check_exposure r bound m ≡ passed) ↔ AllBelow bound m
exposure-passed r bound none = (λ h. tt, λ h. refl)
exposure-passed r bound (some d) = first_above-passed r bound d

age-passed : (a : Float) (bound : ℕ) → (age_above a bound ≡ false) ↔ IsFresh a bound
age-passed (finite a) bound = ground arith
age-passed infinite bound = ground arith
age-passed nan bound = ground arith

module _ (c : RiskContext) (l : RiskLimits) where
  exchange-passed :
      (check_exchange_exposure c l ≡ passed) ↔ AllBelow l.max_exchange_exposure c.exchange_exposure
  unfolding check_exchange_exposure
  exchange-passed =
      exposure-passed RuleName.max_exchange_exposure l.max_exchange_exposure c.exchange_exposure

  asset-passed :
      (check_asset_exposure c l ≡ passed) ↔ AllBelow l.max_asset_exposure c.asset_exposure
  unfolding check_asset_exposure
  asset-passed = exposure-passed RuleName.max_asset_exposure l.max_asset_exposure c.asset_exposure

  data_age-passed : (check_data_age c l ≡ passed) ↔ IsFresh c.data_age_ms l.max_data_age_ms
  unfolding check_data_age
  data_age-passed = ground (arith, age-passed c.data_age_ms l.max_data_age_ms)

  transfers-passed :
      (check_open_transfers c l ≡ passed)
      ↔ (c.strategy ≡ ArbitrageStrategy.transfer → c.open_transfers < l.max_open_transfers)
  unfolding check_open_transfers
  transfers-passed = ground arith

  AllPass-to-Within : AllPass default_risk_rules c l → Within c l
  unfolding check_kill_switch check_daily_loss check_net_profit check_trade_size check_slippage
  AllPass-to-Within (k, (d, (a, (p, (t, (s, (o, (e, (x, _))))))))) = record {
    released = ground arith;
    loss_below = ground arith;
    age_fresh = data_age-passed.0 a;
    profit_enough = ground arith;
    size_below = ground arith;
    slippage_below = ground arith;
    transfers_below = transfers-passed.0 o;
    venues_below = exchange-passed.0 e;
    assets_below = asset-passed.0 x;
  }

  Within-to-AllPass : Within c l → AllPass default_risk_rules c l
  unfolding check_kill_switch check_daily_loss check_net_profit check_trade_size check_slippage
  Within-to-AllPass w = (
    ground arith,
    (
      ground arith,
      (
        data_age-passed.1 w.age_fresh,
        (
          ground arith,
          (
            ground arith,
            (
              ground arith,
              (
                transfers-passed.1 w.transfers_below,
                (exchange-passed.1 w.venues_below, (asset-passed.1 w.assets_below, tt)),
              ),
            ),
          ),
        ),
      ),
    ),
  )

-- Under the default rules a trade is approved exactly when it keeps every limit: kill switch
-- released, daily loss below its limit, data age, net profit, size and slippage within theirs,
-- fewer open transfers than allowed if it is a transfer, and no exposure entry above its cap. An
-- age that is not a number counts as fresh, and a missing exposure map as one without entries: a
-- trade whose exposure or age is not known is not refused for that.
pub approved_iff_Within :
    (l : RiskLimits) (c : RiskContext)
    → ((evaluate default_risk_rules l c).approved ≡ true) ↔ Within c l
approved_iff_Within l c =
    let (a, b) = approved-AllPass default_risk_rules l c in
    (λ h. AllPass-to-Within c l (a h), λ h. b (Within-to-AllPass c l h))

abbrev HasCritical : List RiskViolation → Type 0
HasCritical [] = ⊥
HasCritical (v ∷ vs) = (v.severity ≡ RiskLevel.critical) ⊎ HasCritical vs

abbrev worse : RiskLevel → RiskViolation → RiskLevel
worse best v = if ltb (severity_order best) (severity_order v.severity) then v.severity else best

worse-critical :
    (best : RiskLevel) (v : RiskViolation)
    → (best ≡ RiskLevel.critical) ⊎ (v.severity ≡ RiskLevel.critical)
    → worse best v ≡ RiskLevel.critical
worse-critical best v h = ground arith

max_level-critical :
    (vs : List RiskViolation) (best : RiskLevel)
    → (best ≡ RiskLevel.critical) ⊎ HasCritical vs
    → max_level best vs ≡ RiskLevel.critical
max_level-critical [] best (inl h) = h
max_level-critical [] best (inr h) = absurd h
max_level-critical (v ∷ vs) best (inl h) =
    max_level-critical vs (worse best v) (inl (worse-critical best v (inl h)))
max_level-critical (v ∷ vs) best (inr (inl h)) =
    max_level-critical vs (worse best v) (inl (worse-critical best v (inr h)))
max_level-critical (v ∷ vs) best (inr (inr h)) = max_level-critical vs (worse best v) (inr h)

add_check-critical :
    (n : RuleName) (ch : Check) (vs : List RiskViolation)
    → HasCritical vs
    → HasCritical (add_check n ch vs)
add_check-critical n passed vs h = h
add_check-critical n (violated v) vs h = inr h
add_check-critical n (raised e) vs h = inr h

raised-critical :
    (pre post : List RiskRule) (r : RiskRule) (l : RiskLimits) (c : RiskContext) {e : Text}
    → r.check c l ≡ raised e
    → HasCritical (violations_of (pre ++ r ∷ post) c l)
unfolding violations_of
raised-critical [] post r l c h = rw (h, add_check) (inl refl)
raised-critical (p ∷ pre) post r l c h =
    add_check-critical p.name (p.check c l) (violations_of (pre ++ r ∷ post) c l)
      (raised-critical pre post r l c h)

assess-critical :
    (vs : List RiskViolation)
    → HasCritical vs
    → ((assess vs).approved ≡ false) × ((assess vs).level ≡ RiskLevel.critical)
assess-critical [] h = absurd h
assess-critical (v ∷ vs) h = (refl, max_level-critical vs v.severity h)

-- A rule that raises, wherever it stands among any rules, makes the verdict a refusal at the
-- critical level.
pub evaluate_fails_closed :
    (pre post : List RiskRule) (r : RiskRule) (l : RiskLimits) (c : RiskContext) {e : Text}
    → r.check c l ≡ raised e
    → let verdict = evaluate (pre ++ r ∷ post) l c in
      (verdict.approved ≡ false) × (verdict.level ≡ RiskLevel.critical)
unfolding evaluate
evaluate_fails_closed pre post r l c h = assess-critical _ (raised-critical pre post r l c h)
