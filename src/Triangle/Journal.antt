-- ===== src/Triangle/Journal.antt =====
-- What app/strategies/triangular/executor.py has written down whenever it places an order.
use crypto_arbitrage_bot_ref.Base.{
  ℕ, ◌≡◌, refl, Bool, true, false, ◌&&◌, ◌||◌, none, some, List, [], ◌∷◌, Text, text_eq_refl,
  any_of, arith,
}
use crypto_arbitrage_bot_ref.Orders.{OrderStatus}
use crypto_arbitrage_bot_ref.Precision.{OrderRequest}
use crypto_arbitrage_bot_ref.Trades.{TradeRecord, Payload, dumped, corrupt}
use crypto_arbitrage_bot_ref.Triangle.Effects.{
  TriangleExecutor, Answers, World, Effect, saved, submitted, audited, save_trade, audit,
}
use crypto_arbitrage_bot_ref.Triangle.Inventory.{
  absorb_order, absorbed, replace_or_append, names_client,
}
use crypto_arbitrage_bot_ref.Triangle.Legs.{placeholder, notifier}
use crypto_arbitrage_bot_ref.Opportunity.{ArbitrageOpportunity}
use crypto_arbitrage_bot_ref.Triangle.Cycle.{Course}
use crypto_arbitrage_bot_ref.Triangle.Execute.{execute}
use crypto_arbitrage_bot_ref.Triangle.Steps.{RespectsSteps, settled, all_settled}
use crypto_arbitrage_bot_ref.Triangle.Steps.Run.{execute-Does}

abbrev is_pending : OrderStatus → Bool
is_pending OrderStatus.pending = true
is_pending _ = false

-- the pending intent of a request
abbrev pub is_intent : OrderRequest → Payload → Bool
is_intent q (dumped o) = names_client q.client_order_id (dumped o) && is_pending o.status
is_intent q (corrupt _) = false

-- every order is the intent, or has a confirmed outcome
unfoldable pub settled_but : OrderRequest → List Payload → Bool
settled_but q [] = true
settled_but q (p ∷ ps) = (is_intent q p || settled p) && settled_but q ps

-- the effect just before is a save of a trade that holds the intent, all of whose other orders
-- have a confirmed outcome
abbrev pub intended : OrderRequest → List Effect → Bool
intended q (saved t ∷ log) = any_of (is_intent q) t.orders && settled_but q t.orders
intended q _ = false

-- every order of the log, newest first, follows its saved intent
unfoldable pub in_order : List Effect → Bool
unfolding settled_but
in_order [] = true
in_order (submitted q ∷ log) = intended q log && in_order log
in_order (saved t ∷ log) = in_order log
in_order (audited e ∷ log) = in_order log

module _ (q : OrderRequest) (p : Payload) (intent : is_intent q p ≡ true) where
  replaced_intent :
      (k : Text) (ps : List Payload) → any_of (is_intent q) (replace_or_append k p ps) ≡ true
  unfolding replace_or_append
  replaced_intent k [] = rw intent refl
  replaced_intent k (x ∷ xs) = ground (arith, replaced_intent k xs)

  appended_intent : (ps : List Payload) → any_of (is_intent q) (absorbed none p ps) ≡ true
  appended_intent [] = rw intent refl
  appended_intent (x ∷ xs) = ground (arith, appended_intent xs)

  replaced_settled_but :
      (k : Text) (ps : List Payload)
      → all_settled ps ≡ true
      → settled_but q (replace_or_append k p ps) ≡ true
  unfolding replace_or_append settled_but all_settled
  replaced_settled_but k [] h = ground arith
  replaced_settled_but k (x ∷ xs) h =
      ground (arith, replaced_settled_but k xs, settled_settled_but xs)
    where
      settled_settled_but : (ps : List Payload) → all_settled ps ≡ true → settled_but q ps ≡ true
      settled_settled_but [] e = refl
      settled_settled_but (y ∷ ys) e = ground (arith, settled_settled_but ys)

  appended_settled_but :
      (ps : List Payload) → all_settled ps ≡ true → settled_but q (absorbed none p ps) ≡ true
  unfolding settled_but all_settled
  appended_settled_but [] h = ground arith
  appended_settled_but (x ∷ xs) h = ground (arith, appended_settled_but xs)

  absorbed_intent :
      (k : Text) (ps : List Payload)
      → all_settled ps ≡ true
      → (any_of (is_intent q) (absorbed (some k) p ps) ≡ true)
        × (settled_but q (absorbed (some k) p ps) ≡ true)
  absorbed_intent [] ps h = (appended_intent ps, appended_settled_but ps h)
  absorbed_intent (c ∷ k) ps h = (replaced_intent (c ∷ k) ps, replaced_settled_but (c ∷ k) ps h)

pending_intent :
    (a : Answers) (q : OrderRequest) → is_intent q (dumped (placeholder a.now q)) ≡ true
pending_intent a q = rw (text_eq_refl q.client_order_id) refl

abbrev KeepsJournal : ℕ → World → World → Type 0
KeepsJournal n w w' = in_order w.log ≡ true → in_order w'.log ≡ true

places_in_order :
    (a : Answers) (t : TradeRecord) (q : OrderRequest) (log : List Effect)
    → all_settled t.orders ≡ true
    → in_order log ≡ true
    → in_order (submitted q ∷ saved (absorb_order a.now (placeholder a.now q) t) ∷ log) ≡ true
unfolding in_order absorb_order
places_in_order a t q log s h =
    let p = dumped (placeholder a.now q) in
    ground (arith, absorbed_intent q p (pending_intent a q) q.client_order_id t.orders s)

journaled : RespectsSteps KeepsJournal
unfolding save_trade audit notifier in_order
journaled = record {
  stays = λ w h. h;
  follows = λ m n a b c p q h. q (p h);
  relaxes = λ m n a b l p. p;
  saves = λ t w h. h;
  audits = λ e w h. h;
  pays = λ d w h. h;
  places = λ a t q w s h. places_in_order a t q w.log s h;
}

-- In a run of `execute` every order, the unwinding's too, is placed right after a save of the trade
-- that holds its pending intent under the order's client id, and all other orders of which have an
-- outcome that the venue confirmed: after an unconfirmed order no further one is placed.
pub execute_journaled :
    (ex : TriangleExecutor) (c : Course) (id : Text) (o : ArbitrageOpportunity) (w : World)
    → in_order w.log ≡ true
    → in_order (execute ex c id o w).1.log ≡ true
execute_journaled ex c id o w h = (execute-Does KeepsJournal journaled ex c id o).does w h
