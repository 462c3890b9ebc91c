-- ===== src/Planner/Sizing.antt =====
-- What the planner of app/strategies/transfer/planner.py lets through.
use crypto_arbitrage_bot_ref.Base.{
  ◌≡◌, ◌≢◌, ◌⊎◌, inl, inr, Option-cases, subst, true, false, Option, some, Text, text_eq,
  text_eq_refl, arith,
}
use crypto_arbitrage_bot_ref.Money.{Decimal, dec0, le_dec, lt_dec, min_dec, mul_dec}
use crypto_arbitrage_bot_ref.Money.Compare.{le_dec_trans, min_dec-le, le_dec_total}
use crypto_arbitrage_bot_ref.Result.{ok}
use crypto_arbitrage_bot_ref.Transfers.{TransferPlan, net_profit_bps}
use crypto_arbitrage_bot_ref.Planner.{
  executable_amount, executable_amount_from_notional, evaluate_plan,
}

-- A size in coins is nothing, or a positive amount that the venue lets withdraw.
pub executable_amount_withdrawable :
    (requested withdrawal_min available price : Decimal) (max_amount max_notional : Option Decimal)
    (a : Decimal)
    → executable_amount requested withdrawal_min available price max_amount max_notional ≡ ok a
    → (a ≡ dec0) ⊎ ((lt_dec dec0 a ≡ true) × (le_dec withdrawal_min a ≡ true))
unfolding executable_amount
executable_amount_withdrawable requested withdrawal_min available price max_amount max_notional a
      h =
    ground (arith, le_dec_total a withdrawal_min)

-- A size from a notional is nothing, or a positive amount that the venue lets withdraw and that
-- costs at least the smallest notional, which in turn the budget and the largest notional cover.
pub from_notional_covered :
    (min_notional max_notional available price withdrawal_min : Decimal)
    (max_amount : Option Decimal) (a : Decimal)
    → executable_amount_from_notional min_notional max_notional available price withdrawal_min
        max_amount
      ≡ ok a
    → (a ≡ dec0)
      ⊎ ((lt_dec dec0 a ≡ true)
          × (le_dec withdrawal_min a ≡ true)
          × (le_dec min_notional (mul_dec a price) ≡ true)
          × (le_dec min_notional available ≡ true)
          × (le_dec min_notional max_notional ≡ true))
unfolding executable_amount_from_notional
from_notional_covered min_notional max_notional available price withdrawal_min max_amount a h =
    let budget = min_dec max_notional available in
    let (below_max, below_available) = min_dec-le max_notional available in
    ground (
      arith,
      λ (e : lt_dec budget min_notional ≡ false).
          le_dec_trans min_notional budget available (ground arith) below_available,
      λ (e : lt_dec budget min_notional ≡ false).
          le_dec_trans min_notional budget max_notional (ground arith) below_max,
    )

same_venue : (a b : Text) → a ≡ b → text_eq a b ≡ true
same_venue a b e = subst (λ x. text_eq a x ≡ true) e (text_eq_refl a)

-- A plan that evaluates to an opportunity is the plan itself, trades a positive amount between two
-- different venues at positive prices, and earns at least the smallest net profit.
pub evaluated_plan_sound :
    (bound : Decimal) (p q : TransferPlan)
    → evaluate_plan bound p ≡ ok (some q)
    → (q ≡ p)
      × (lt_dec dec0 p.amount ≡ true)
      × (lt_dec dec0 p.buy_price ≡ true)
      × (lt_dec dec0 p.sell_price ≡ true)
      × (p.source_exchange ≢ p.dest_exchange)
      × ((net : Decimal) × (net_profit_bps p ≡ some net) × (le_dec bound net ≡ true))
unfolding evaluate_plan
evaluated_plan_sound bound p q h = elim (Option-cases (net_profit_bps p)) [
  | inl e ↦ absurd (ground (arith, e))
  | inr (net, e) ↦
      let different : p.source_exchange ≢ p.dest_exchange =
        λ same. absurd (ground (arith, same_venue p.source_exchange p.dest_exchange same)) in
      (
        ground arith,
        ground arith,
        ground arith,
        ground arith,
        different,
        (net, e, ground (arith, e)),
      )
]
