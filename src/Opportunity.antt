-- ===== src/Opportunity.antt =====
-- app/models/arbitrage.py: the legs of an operation, its profit and the opportunity that a scanner
-- publishes. Ages and latencies, which are floats for display, ids, the time of detection, the
-- notes and the violations are left out.
use crypto_arbitrage_bot_ref.Base.{ℕ, Bool, not, ◌&&◌, Option, none, some, List, Text, leb}
use crypto_arbitrage_bot_ref.Money.{Decimal, dec0, lt_dec, add_dec, sub_dec, mul_dec, div_dec}
use crypto_arbitrage_bot_ref.Orders.{OrderSide, Symbol}
use crypto_arbitrage_bot_ref.Result.{Result, ok, signal}
use crypto_arbitrage_bot_ref.Transfers.{bps}
use crypto_arbitrage_bot_ref.MarketData.Depth.{ExecutionEstimate, estimate_ratio}

pub record ArbitrageLeg : Type 0 where
  pub exchange_id : Text
  pub symbol : Symbol
  pub side : OrderSide
  pub price : Decimal
  pub amount : Decimal
  pub fee_bps : Decimal
  pub estimate : Option ExecutionEstimate

-- `notional`
unfoldable pub leg_notional : ArbitrageLeg → Decimal
leg_notional l = mul_dec l.price l.amount

-- `slippage_bps`
unfoldable pub leg_slippage : ArbitrageLeg → Decimal
leg_slippage l = elim l.estimate [ none ↦ dec0 | some e ↦ e.slippage_bps ]

-- `fill_ratio`
unfoldable pub leg_ratio : ArbitrageLeg → Result Decimal
unfolding estimate_ratio
leg_ratio l = elim l.estimate [ none ↦ ok dec0 | some e ↦ estimate_ratio e ]

pub record ProfitBreakdown : Type 0 where
  pub notional_quote : Decimal
  pub gross_spread_bps : Decimal
  pub trading_fees_bps : Decimal
  pub slippage_bps : Decimal
  pub transfer_bps : Decimal

-- `total_costs_bps`
unfoldable pub total_costs_bps : ProfitBreakdown → Decimal
total_costs_bps p = add_dec (add_dec p.trading_fees_bps p.slippage_bps) p.transfer_bps

-- `net_profit_bps`
unfoldable pub net_of_costs_bps : ProfitBreakdown → Decimal
unfolding total_costs_bps
net_of_costs_bps p = sub_dec p.gross_spread_bps (total_costs_bps p)

-- `gross_profit_quote` and `net_profit_quote`
unfoldable pub quote_of_bps : Decimal → Decimal → Result Decimal
quote_of_bps notional share = signal (div_dec (mul_dec notional share) bps)

-- `is_profitable`
unfoldable pub is_profitable : ProfitBreakdown → Bool
unfolding net_of_costs_bps
is_profitable p = lt_dec dec0 (net_of_costs_bps p)

pub data OpportunityStatus : Type 0 where
  detected validated rejected expired executing completed : OpportunityStatus

pub record ArbitrageOpportunity : Type 0 where
  pub symbol : Symbol
  pub buy_leg : ArbitrageLeg
  pub sell_leg : ArbitrageLeg
  pub profit : ProfitBreakdown
  pub status : OpportunityStatus
  pub max_notional_quote : Decimal
  pub expires_at : Option ℕ
  pub size_notional_quote : Decimal
  pub direction : Option Text
  pub legs_route : List ArbitrageLeg

-- `is_expired`, at the clock
unfoldable pub is_expired : ℕ → ArbitrageOpportunity → Bool
is_expired now o = elim o.expires_at [ none ↦ Bool.false | some t ↦ leb t now ]

abbrev is_live : OpportunityStatus → Bool
is_live OpportunityStatus.detected = Bool.true
is_live OpportunityStatus.validated = Bool.true
is_live _ = Bool.false

-- `is_actionable`
unfoldable pub is_actionable : ℕ → ArbitrageOpportunity → Bool
unfolding is_profitable is_expired
is_actionable now o = is_profitable o.profit && not (is_expired now o) && is_live o.status
