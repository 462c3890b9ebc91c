-- ===== src/Triangle/Resume.antt =====
-- `resume_open_trades` and `_resume_one` of app/strategies/triangular/executor.py: what a restart
-- does with trades that were interrupted mid-cycle.
use crypto_arbitrage_bot_ref.Base.{
  ℕ, suc, Bool, true, ◌&&◌, Option, none, some, List, [], ◌∷◌, map, length, select_where, ◌==◌,
  if◌then◌else◌,
}
use crypto_arbitrage_bot_ref.Orders.{Order, is_confirmed_fill, outcome_unconfirmed}
use crypto_arbitrage_bot_ref.Recovery.{recover}
use crypto_arbitrage_bot_ref.Result.{Result, ok, raise, ◌>>=◌}
use crypto_arbitrage_bot_ref.Trades.{
  TradeRecord, TradeStatus, Payload, dumped, corrupt, with_error, list_executing, resume_error,
  resume_unparsable, resume_no_order, resume_not_filled, resume_unconfirmed, resume_incomplete,
}
use crypto_arbitrage_bot_ref.Triangle.Effects.{Answers, World, from_reply, save_trade}
use crypto_arbitrage_bot_ref.Triangle.Inventory.{held_inventory}
use crypto_arbitrage_bot_ref.Triangle.Accounts.{complete_from_orders}

-- `_order_from_json` of every payload; none if one is refused
unfoldable pub parsed : List Payload → Option (List Order)
parsed [] = some []
parsed (corrupt _ ∷ ps) = none
parsed (dumped o ∷ ps) = elim (parsed ps) [ none ↦ none | some os ↦ some (o ∷ os) ]

-- an unconfirmed order resolved against its venue, by queries only
unfoldable pub resolved : Answers → Order → Result Order
resolved a o =
    if outcome_unconfirmed o
    then (from_reply (a.adapter o.exchange_id) >>= λ venue. ok (recover venue o))
    else ok o

-- the loop over the orders
unfoldable pub resolve_all : Answers → List Order → Result (List Order)
unfolding resolved
resolve_all a [] = ok []
resolve_all a (o ∷ os) = do o' ← resolved a o; os' ← resolve_all a os; ok (o' ∷ os')

abbrev last_of : Order → List Order → Order
last_of o [] = o
last_of o (x ∷ xs) = last_of x xs

abbrev pub all_filled : List Order → Bool
all_filled [] = true
all_filled (o ∷ os) = is_confirmed_fill o && all_filled os

-- `len(orders) == 3 and len(confirmed_fills) == 3`
abbrev pub three_filled : List Order → Bool
three_filled os = length os == 3 && length (select_where is_confirmed_fill os) == 3

abbrev pub with_orders : ℕ → List Order → TradeRecord → TradeRecord
with_orders now os t = record t { orders = map dumped os; updated_at = now }

-- the orders are resolved: what is unconfirmed, and what is filled, decides
unfoldable pub judge_filled : ℕ → List Order → List Order → TradeRecord → Result TradeRecord
unfolding complete_from_orders held_inventory
judge_filled now os [] t = ok (with_error now TradeStatus.failed resume_not_filled t)
judge_filled now os (_ ∷ _) t =
    if three_filled os
    then complete_from_orders now t os
    else ok
        (with_error now TradeStatus.manual_review (resume_incomplete (held_inventory t.orders)) t)

unfoldable pub judge : ℕ → List Order → List Order → TradeRecord → Result TradeRecord
unfolding judge_filled
judge now os [] t = judge_filled now os (select_where is_confirmed_fill os) t
judge now os (o ∷ more) t =
    ok (with_error now TradeStatus.manual_review (resume_unconfirmed (last_of o more).status) t)

abbrev pub resume_orders : Answers → TradeRecord → List Order → Result TradeRecord
resume_orders a t [] = ok (with_error a.now TradeStatus.failed resume_no_order t)
resume_orders a t (o ∷ os) = do
  resolved_orders ← resolve_all a (o ∷ os)
  judge a.now resolved_orders (select_where outcome_unconfirmed resolved_orders)
      (with_orders a.now resolved_orders t)

-- `_resume_one`: it changes nothing outside
unfoldable pub resume_one : Answers → TradeRecord → Result TradeRecord
unfolding parsed resolve_all judge
resume_one a t = elim (parsed t.orders) [
  | none ↦ ok (with_error a.now TradeStatus.manual_review resume_unparsable t)
  | some os ↦ resume_orders a t os
]

-- the handler of `resume_open_trades`
abbrev pub or_reviewed : Answers → TradeRecord → Result TradeRecord → TradeRecord
or_reviewed a t (ok updated) = updated
or_reviewed a t (raise e) = with_error a.now TradeStatus.manual_review (resume_error e) t

-- one trade of `resume_open_trades`, updated
unfoldable pub resumed : Answers → TradeRecord → TradeRecord
unfolding resume_one
resumed a t = or_reviewed a t (resume_one a t)

-- The loop of `resume_open_trades`: the updated trades, and the state afterwards; `c` gives the
-- answers while the n-th trade is looked at.
unfoldable pub resume_each : (ℕ → Answers) → ℕ → List TradeRecord → World → List TradeRecord × World
unfolding resumed save_trade
resume_each c n [] w = ([], w)
resume_each c n (t ∷ ts) w =
    let updated = resumed (c n) t in
    let (rest, w') = resume_each c (suc n) ts (save_trade updated w).1 in (updated ∷ rest, w')

-- `resume_open_trades`
unfoldable pub resume_open_trades : (ℕ → Answers) → World → List TradeRecord × World
unfolding list_executing resume_each
resume_open_trades c w = resume_each c 0 (list_executing w.trades) w
