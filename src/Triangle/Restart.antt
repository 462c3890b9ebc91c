-- ===== src/Triangle/Restart.antt =====
-- What a restart makes of the trades that app/strategies/triangular/executor.py left open.
use crypto_arbitrage_bot_ref.Base.{
  ℕ, suc, ◌≢◌, ◌≡◌, refl, sym, ap, subst, Bool, true, false, ◌||◌, Option, none, some, List, [],
  ◌∷◌, map, Text, length, select_where, arith, inl, inr, Bool-cases, Option-cases,
}
use crypto_arbitrage_bot_ref.Money.{Decimal}
use crypto_arbitrage_bot_ref.Orders.{Order, is_confirmed_fill, outcome_unconfirmed}
use crypto_arbitrage_bot_ref.Result.{Result, ok, raise, bind_yields}
use crypto_arbitrage_bot_ref.Fills.{SimulatedFill}
use crypto_arbitrage_bot_ref.Trades.{
  TradeRecord, TradeStatus, Payload, dumped, corrupt, Held, with_error, is_terminal,
  resume_not_filled, resume_no_order,
}
use crypto_arbitrage_bot_ref.Triangle.Effects.{Answers}
use crypto_arbitrage_bot_ref.Triangle.Inventory.{held_inventory, venue_fill_view}
use crypto_arbitrage_bot_ref.Triangle.Accounts.{
  completed_trade, completed_from, complete_from_orders, total_fees,
}
use crypto_arbitrage_bot_ref.Triangle.Resume.{
  parsed, resolve_all, three_filled, with_orders, judge_filled, judge, resume_orders, resume_one,
  or_reviewed, resumed,
}

-- some order is unconfirmed, or cannot be read
unfoldable pub has_unconfirmed : List Payload → Bool
has_unconfirmed [] = false
has_unconfirmed (corrupt _ ∷ ps) = true
has_unconfirmed (dumped o ∷ ps) = outcome_unconfirmed o || has_unconfirmed ps

-- The evidence that a status stands on: a completed trade has three orders, all of them confirmed
-- fills, and a failed one has no confirmed fill; neither has an order that is unconfirmed.
pub record Judged (k : Text) (t : TradeRecord) : Type 0 where
  pub terminal : is_terminal t.status ≡ true
  pub same_id : t.id ≡ k
  pub completed_means :
      t.status ≡ TradeStatus.completed
      → (length t.orders ≡ 3)
        × (length (held_inventory t.orders) ≡ 3)
        × (has_unconfirmed t.orders ≡ false)
  pub failed_means :
      t.status ≡ TradeStatus.failed
      → (held_inventory t.orders ≡ []) × (has_unconfirmed t.orders ≡ false)

abbrev Judges : Text → Result TradeRecord → Type 0
Judges k r = (t' : TradeRecord) → r ≡ ok t' → Judged k t'

reviewed-Judged :
    (k : Text) (t : TradeRecord) → t.status ≡ TradeStatus.manual_review → t.id ≡ k → Judged k t
reviewed-Judged k t s i = record {
  terminal = rw s refl;
  same_id = i;
  completed_means = λ e. absurd (ground arith);
  failed_means = λ e. absurd (ground arith);
}

failed-Judged :
    (k : Text) (t : TradeRecord)
    → t.status ≡ TradeStatus.failed
    → t.id ≡ k
    → held_inventory t.orders ≡ []
    → has_unconfirmed t.orders ≡ false
    → Judged k t
failed-Judged k t s i h u = record {
  terminal = rw s refl;
  same_id = i;
  completed_means = λ e. absurd (ground arith);
  failed_means = λ _. (h, u);
}

abbrev held_of : Order → Held
held_of o = (o.filled_amount, o.symbol)

held-dumped :
    (os : List Order)
    → held_inventory (map dumped os) ≡ map held_of (select_where is_confirmed_fill os)
unfolding held_inventory
held-dumped [] = refl
held-dumped (o ∷ os) = elim (Bool-cases (is_confirmed_fill o)) [
  | inl e ↦ rw e (ap (λ hs. held_of o ∷ hs) (held-dumped os))
  | inr e ↦ rw e (held-dumped os)
]

unconfirmed-dumped :
    (os : List Order)
    → select_where outcome_unconfirmed os ≡ []
    → has_unconfirmed (map dumped os) ≡ false
unfolding has_unconfirmed
unconfirmed-dumped [] h = refl
unconfirmed-dumped (o ∷ os) h = ground (arith, unconfirmed-dumped os)

length-map : {A B : Type 0} (f : A → B) (xs : List A) → length (map f xs) ≡ length xs
length-map f [] = refl
length-map f (x ∷ xs) = ap suc (length-map f xs)

parsed_nil : (ps : List Payload) → parsed ps ≡ some [] → ps ≡ []
unfolding parsed
parsed_nil [] h = refl
parsed_nil (corrupt k ∷ ps) h = absurd (ground arith)
parsed_nil (dumped o ∷ ps) h = absurd (ground arith)

-- what the accounting leaves as it was
completed_trade_lem :
    (now : ℕ) (spend proceeds fees : Decimal) (t t' : TradeRecord)
    → completed_trade now spend proceeds fees t ≡ ok t'
    → (t'.status ≡ TradeStatus.completed) × (t'.id ≡ t.id) × (t'.orders ≡ t.orders)
unfolding completed_trade
completed_trade_lem now spend proceeds fees t t' h = ground arith

-- the trade whose orders are all filled, or one for review
abbrev Valued : TradeRecord → TradeRecord → Type 0
Valued t t' =
    (t'.status ≢ TradeStatus.failed)
    × (is_terminal t'.status ≡ true)
    × (t'.id ≡ t.id)
    × (t'.orders ≡ t.orders)

completed_from-Valued :
    (now : ℕ) (t : TradeRecord) (f1 f2 f3 : Option SimulatedFill) (t' : TradeRecord)
    → completed_from now t f1 f2 f3 ≡ ok t'
    → Valued t t'
completed_from-Valued now t (some f1) (some f2) (some f3) t' h =
    bind_yields (Valued t)
      (completed_trade now f1.quote_amount f3.quote_amount (total_fees f1 f2 f3) t) _
      (λ done e b g. let l = completed_trade_lem now _ _ _ t done e in ground arith) t' h
completed_from-Valued now t none f2 f3 t' h = ground arith
completed_from-Valued now t (some f1) none f3 t' h = ground arith
completed_from-Valued now t (some f1) (some f2) none t' h = ground arith

complete_from_orders-Valued :
    (now : ℕ) (t : TradeRecord) (os : List Order) (t' : TradeRecord)
    → complete_from_orders now t os ≡ ok t'
    → Valued t t'
unfolding complete_from_orders
complete_from_orders-Valued now t (o1 ∷ o2 ∷ o3 ∷ os) t' h =
    bind_yields (Valued t) (venue_fill_view o1) _
      (λ f1 _. bind_yields (Valued t) (venue_fill_view o2) _ (λ f2 _.
        bind_yields (Valued t) (venue_fill_view o3) _
          (λ f3 _. completed_from-Valued now t f1 f2 f3)))
      t' h
complete_from_orders-Valued now t [] t' h = absurd (ground arith)
complete_from_orders-Valued now t (o1 ∷ []) t' h = absurd (ground arith)
complete_from_orders-Valued now t (o1 ∷ o2 ∷ []) t' h = absurd (ground arith)

three_filled_counts :
    (os : List Order)
    → three_filled os ≡ true
    → (length (map dumped os) ≡ 3) × (length (held_inventory (map dumped os)) ≡ 3)
three_filled_counts os h =
    rw
      (length-map dumped os, held-dumped os, length-map held_of (select_where is_confirmed_fill os))
      (ground arith)

filled-Judged :
    (now : ℕ) (os : List Order) (t : TradeRecord)
    → t.orders ≡ map dumped os
    → three_filled os ≡ true
    → has_unconfirmed t.orders ≡ false
    → (t' : TradeRecord) → Valued t t'
    → Judged t.id t'
filled-Judged now os t e f u t' (s, d, i, o) = record {
  terminal = d;
  same_id = i;
  completed_means = λ _. rw (o, e) (let n = three_filled_counts os f in (n.0, n.1, rw e at u));
  failed_means = λ e'. absurd (s e');
}

judge_filled-Judged :
    (now : ℕ) (os filled : List Order) (t : TradeRecord)
    → t.orders ≡ map dumped os
    → filled ≡ select_where is_confirmed_fill os
    → has_unconfirmed t.orders ≡ false
    → Judges t.id (judge_filled now os filled t)
unfolding judge_filled
judge_filled-Judged now os [] t e f u t' h =
    let none_held : held_inventory t.orders ≡ [] = rw (e, held-dumped os, sym f) refl in
    let same : with_error now TradeStatus.failed resume_not_filled t ≡ t' = ground arith in
    subst (Judged t.id) same (
      failed-Judged t.id (with_error now TradeStatus.failed resume_not_filled t) refl refl none_held
        u)
judge_filled-Judged now os (o ∷ more) t e f u t' h = elim (Bool-cases (three_filled os)) [
  | inl y ↦ filled-Judged now os t e y u t' (complete_from_orders-Valued now t os t' (ground arith))
  | inr n ↦ reviewed-Judged t.id t' (ground arith) (ground arith)
]

judge-Judged :
    (now : ℕ) (os open_orders : List Order) (t : TradeRecord)
    → t.orders ≡ map dumped os
    → open_orders ≡ select_where outcome_unconfirmed os
    → Judges t.id (judge now os open_orders t)
unfolding judge
judge-Judged now os [] t e f t' h =
    let none_open : has_unconfirmed t.orders ≡ false = rw e (unconfirmed-dumped os (sym f)) in
    judge_filled-Judged now os (select_where is_confirmed_fill os) t e refl none_open t' h
judge-Judged now os (o ∷ more) t e f t' h = reviewed-Judged t.id t' (ground arith) (ground arith)

resume_orders-Judged :
    (a : Answers) (t : TradeRecord) (os : List Order)
    → parsed t.orders ≡ some os
    → Judges t.id (resume_orders a t os)
unfolding held_inventory has_unconfirmed
resume_orders-Judged a t [] e t' h =
    let empty = parsed_nil t.orders e in
    let failed = with_error a.now TradeStatus.failed resume_no_order t in
    let same : failed ≡ t' = ground arith in
    subst (Judged t.id) same (failed-Judged t.id failed refl refl (rw empty refl) (rw empty refl))
resume_orders-Judged a t (o ∷ os) e t' h =
    bind_yields (Judged t.id) (resolve_all a (o ∷ os)) _
      (λ found _ t'' g.
        judge-Judged a.now found (select_where outcome_unconfirmed found)
          (with_orders a.now found t) refl refl t'' g)
      t' h

resume_one-Judged : (a : Answers) (t : TradeRecord) → Judges t.id (resume_one a t)
unfolding resume_one
resume_one-Judged a t t' h = elim (Option-cases (parsed t.orders)) [
  | inl e ↦ reviewed-Judged t.id t' (ground arith) (ground arith)
  | inr (os, e) ↦ resume_orders-Judged a t os e t' (ground arith)
]

or_reviewed-Judged :
    (a : Answers) (t : TradeRecord) (r : Result TradeRecord)
    → Judges t.id r
    → Judged t.id (or_reviewed a t r)
or_reviewed-Judged a t (ok t') h = h t' refl
or_reviewed-Judged a t (raise e) h = reviewed-Judged t.id _ refl refl

-- A trade that a restart resolves is completed, failed or in manual review. It is completed only
-- with exactly three orders, every one of them a confirmed fill, and failed only when none of its
-- orders is a confirmed fill; neither has an order that is unconfirmed or cannot be read.
pub resumed-Judged : (a : Answers) (t : TradeRecord) → Judged t.id (resumed a t)
unfolding resumed
resumed-Judged a t = or_reviewed-Judged a t (resume_one a t) (resume_one-Judged a t)
