-- ===== src/Triangle/Count.antt =====
-- How many orders one run of app/strategies/triangular/executor.py places.
use crypto_arbitrage_bot_ref.Base.{ℕ, ◌+◌, ◌≤◌, Text, length, arith}
use crypto_arbitrage_bot_ref.Triangle.Effects.{
  TriangleExecutor, World, placements, save_trade, audit,
}
use crypto_arbitrage_bot_ref.Triangle.Legs.{notifier}
use crypto_arbitrage_bot_ref.Opportunity.{ArbitrageOpportunity}
use crypto_arbitrage_bot_ref.Triangle.Cycle.{Course}
use crypto_arbitrage_bot_ref.Triangle.Execute.{execute}
use crypto_arbitrage_bot_ref.Triangle.Steps.{RespectsSteps, may_place}
use crypto_arbitrage_bot_ref.Triangle.Steps.Run.{execute-Does}

-- at most n more orders than before
abbrev PlacesUpTo : ℕ → World → World → Type 0
PlacesUpTo n w w' = length (placements w'.log) ≤ n + length (placements w.log)

counted : RespectsSteps PlacesUpTo
unfolding save_trade audit notifier
counted = record {
  stays = λ w. omega arith;
  follows = λ m n a b c p q. omega arith;
  relaxes = λ m n a b l p. omega arith;
  saves = λ t w. omega arith;
  audits = λ e w. omega arith;
  pays = λ d w. omega arith;
  places = λ a t q w h. omega arith;
}

-- A run of `execute` places at most one order for each of its three legs and for its unwinding,
-- and for a leg only when the executor is not in PAPER mode and the kill switch is released as the
-- leg begins: none on paper, none while halted, and never more than four.
pub execute_places_few :
    (ex : TriangleExecutor) (c : Course) (id : Text) (o : ArbitrageOpportunity) (w : World)
    → let placed = length (placements (execute ex c id o w).1.log) in
      let before = length (placements w.log) in
      let legs =
        may_place ex (c 1) + (may_place ex (c 2) + (may_place ex (c 3) + may_place ex (c 4))) in
      (placed ≤ legs + before) × (legs ≤ 4)
execute_places_few ex c id o w = ((execute-Does PlacesUpTo counted ex c id o).does w, ground arith)
