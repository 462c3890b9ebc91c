-- ===== src/Triangle/Steps.antt =====
-- What a run of app/strategies/triangular/executor.py does to the world, step by step: a relation
-- on worlds that respects every elementary step, with the number of orders placed, holds of the
-- whole cycle. An order is placed only for a trade whose earlier orders are settled.
pub mod Run
use crypto_arbitrage_bot_ref.Base.{
  ℕ, ◌+◌, ◌≤◌, ◌≡◌, refl, Bool, true, false, not, ◌&&◌, ◌||◌, Option, none, some, List, [], ◌∷◌,
  Text, Dict, find, is_some, arith, inl, inr, Bool-cases, if◌then◌else◌,
}
use crypto_arbitrage_bot_ref.Orders.{Order, OrderSide, Symbol, outcome_unconfirmed}
use crypto_arbitrage_bot_ref.Guard.{ensure_can_trade}
use crypto_arbitrage_bot_ref.Result.{Result, ok, raise}
use crypto_arbitrage_bot_ref.Precision.{OrderRequest}
use crypto_arbitrage_bot_ref.Wallet.{PaperWallet, debit}
use crypto_arbitrage_bot_ref.Fills.{OrderBook, SimulatedFill, Size, simulate, is_rejected}
use crypto_arbitrage_bot_ref.Orchestrator.Legs.{is_paper}
use crypto_arbitrage_bot_ref.Trades.{TradeRecord, Payload, dumped, corrupt}
use crypto_arbitrage_bot_ref.Triangle.Effects.{
  TriangleExecutor, Answers, World, Action, AuditEvent, pure, lift, continued, ◌>>=◌, ◌>>◌,
  save_trade, audit, check_guard, from_reply,
}
use crypto_arbitrage_bot_ref.Triangle.Inventory.{absorb_order, replace_or_append, absorbed}
use crypto_arbitrage_bot_ref.Triangle.Requests.{venue_amount, request_of, filtered}
use crypto_arbitrage_bot_ref.Triangle.Legs.{
  Leg, fresh_book, stored_wallet, on_wallet, filled_wallet, apply_paper_wallet, notifier, paper_leg,
  submit, place, place_filtered, venue_leg, fill_leg, placed_order, base_of, quote_of,
}

-- an order whose outcome is confirmed
abbrev pub settled : Payload → Bool
settled (dumped o) = not (outcome_unconfirmed o)
settled (corrupt _) = false

unfoldable pub all_settled : List Payload → Bool
all_settled [] = true
all_settled (p ∷ ps) = settled p && all_settled ps

replaced_settled :
    (k : Text) (p : Payload) (ps : List Payload)
    → settled p ≡ true
    → all_settled ps ≡ true
    → all_settled (replace_or_append k p ps) ≡ true
unfolding all_settled replace_or_append
replaced_settled k p [] s h = ground arith
replaced_settled k p (x ∷ xs) s h = ground (arith, replaced_settled k p xs)

appended_settled :
    (p : Payload) (ps : List Payload)
    → settled p ≡ true
    → all_settled ps ≡ true
    → all_settled (absorbed none p ps) ≡ true
unfolding all_settled
appended_settled p [] s h = ground arith
appended_settled p (x ∷ xs) s h = ground (arith, appended_settled p xs)

absorbed-settled :
    (k : Option Text) (p : Payload) (ps : List Payload)
    → settled p ≡ true
    → all_settled ps ≡ true
    → all_settled (absorbed k p ps) ≡ true
absorbed-settled none p ps s h = appended_settled p ps s h
absorbed-settled (some []) p ps s h = appended_settled p ps s h
absorbed-settled (some (c ∷ k)) p ps s h = replaced_settled (c ∷ k) p ps s h

-- a trade stays settled with an order whose outcome is confirmed
pub absorb_order_settled :
    (now : ℕ) (o : Order) (t : TradeRecord)
    → outcome_unconfirmed o ≡ false
    → all_settled t.orders ≡ true
    → all_settled (absorb_order now o t).orders ≡ true
unfolding absorb_order
absorb_order_settled now o t e h =
    absorbed-settled o.client_order_id (dumped o) t.orders (rw e refl) h

-- whether a leg may place an order: not on paper, and not behind the kill switch
abbrev pub may_place : TriangleExecutor → Answers → ℕ
may_place ex a = if is_paper ex.mode || is_some (ensure_can_trade a.guard) then 0 else 1

-- A relation between the worlds before and after an action that places at most so many orders:
-- it holds of what each elementary step does, and of steps one after the other.
pub record RespectsSteps (R : ℕ → World → World → Type 0) : Type 0 where
  pub stays : (w : World) → R 0 w w
  pub follows : (m n : ℕ) (a b c : World) → R m a b → R n b c → R (m + n) a c
  pub relaxes : (m n : ℕ) (a b : World) → m ≤ n → R m a b → R n a b
  pub saves : (t : TradeRecord) (w : World) → R 0 w (save_trade t w).1
  pub audits : (e : AuditEvent) (w : World) → R 0 w (audit e w).1
  pub pays : (d : Dict PaperWallet) (w : World) → R 0 w (record w { wallets = d })
  pub places :
      (a : Answers) (t : TradeRecord) (q : OrderRequest) (w : World)
      → all_settled t.orders ≡ true
      → R 1 w ((notifier a t q >> submit q) w).1

-- an action that places at most n orders
pub record Does (R : ℕ → World → World → Type 0) (n : ℕ) {A : Type 0} (m : Action A) : Type 0 where
  pub does : (w : World) → R n w (m w).1

module _ (R : ℕ → World → World → Type 0) (steps : RespectsSteps R) where
  module _ {A B : Type 0} (n : ℕ) (f : A → Action B) where
    continued_does :
        (r : Result A)
        → ((a : A) → r ≡ ok a → Does R n (f a))
        → (w : World) → R n w (continued f r w).1
    continued_does (ok a) h w = (h a refl).does w
    continued_does (raise e) h w = steps.relaxes 0 n w w (omega arith) (steps.stays w)

    pub lift-Does : (r : Result A) → ((a : A) → r ≡ ok a → Does R n (f a)) → Does R n (lift r >>= f)
    lift-Does r h = record { does = continued_does r h }

    pub bind-Does :
        (k : ℕ) (m : Action A) → Does R k m → ((a : A) → Does R n (f a)) → Does R (k + n) (m >>= f)
    bind-Does k m d h = record {
      does = λ w.
          steps.follows k n w (m w).1 _ (d.does w) (continued_does (m w).0 (λ a _. h a) (m w).1);
    }

    -- after a first action that places nothing
    pub then-Does : (m : Action A) → Does R 0 m → ((a : A) → Does R n (f a)) → Does R n (m >>= f)
    then-Does m d h = record {
      does = λ w. steps.relaxes (0 + n) n w _ (omega arith) ((bind-Does 0 m d h).does w);
    }

  module _ {A : Type 0} where
    pub if_Does :
        (n : ℕ) (b : Bool) {x y : Action A}
        → (b ≡ true → Does R n x)
        → (b ≡ false → Does R n y)
        → Does R n (if b then x else y)
    if_Does n true p q = p refl
    if_Does n false p q = q refl

    pub pure-Does : (a : A) → Does R 0 (pure a)
    pure-Does a = record { does = λ w. steps.stays w }

    pub relax-Does : (m n : ℕ) (x : Action A) → m ≤ n → Does R m x → Does R n x
    relax-Does m n x l d = record { does = λ w. steps.relaxes m n w _ l (d.does w) }

  pub save-Does : (t : TradeRecord) → Does R 0 (save_trade t)
  save-Does t = record { does = steps.saves t }

  pub audit-Does : (e : AuditEvent) → Does R 0 (audit e)
  audit-Does e = record { does = steps.audits e }

  stored_wallet_does :
      (venue : Text) (r : Result PaperWallet) (w : World) → R 0 w (stored_wallet venue w r).1
  stored_wallet_does venue (raise e) w = steps.stays w
  stored_wallet_does venue (ok wallet) w = steps.pays _ w

  pub on_wallet_does :
      (venue : Text) (change : PaperWallet → Result PaperWallet) (w : World)
      (found : Option PaperWallet)
      → R 0 w (on_wallet venue change w found).1
  on_wallet_does venue change w none = steps.stays w
  on_wallet_does venue change w (some wallet) = stored_wallet_does venue (change wallet) w

  apply_paper_wallet-Does :
      (venue : Text) (side : OrderSide) (s : Symbol) (f : SimulatedFill)
      → Does R 0 (apply_paper_wallet venue side s f)
  unfolding apply_paper_wallet
  apply_paper_wallet-Does venue side s f = record {
    does = λ w. on_wallet_does venue (filled_wallet side s f) w (find venue w.wallets);
  }

  paper_leg-Does :
      (ex : TriangleExecutor) (a : Answers) (book : OrderBook) (venue : Text) (s : Symbol)
      (side : OrderSide) (size : Size)
      → Does R 0 (paper_leg ex a book venue s side size)
  unfolding paper_leg
  paper_leg-Does ex a book venue s side size =
      lift-Does 0 _ (simulate ex.simulator book side (base_of size) (quote_of size)) (λ f _.
        if_Does 0 (is_rejected f) (λ _. pure-Does _)
          (λ _. bind-Does 0 _ 0 _ (apply_paper_wallet-Does venue side s f) (λ _. pure-Does _)))

  place-Does :
      (a : Answers) (t : TradeRecord) (q : OrderRequest)
      → all_settled t.orders ≡ true
      → Does R 1 (place a (notifier a t) q)
  unfolding place notifier save_trade
  place-Does a t q h =
      lift-Does 1 _ (from_reply (a.adapter q.exchange_id))
        (λ adapter _. record { does = λ w. steps.places a t q w h })

  place_filtered-Does :
      (a : Answers) (t : TradeRecord) (q : OrderRequest) (outcome : OrderRequest × Option Text)
      → all_settled t.orders ≡ true
      → Does R 1 (place_filtered a (notifier a t) q outcome)
  unfolding place_filtered
  place_filtered-Does a t q (q', none) h = place-Does a t q' h
  place_filtered-Does a t q (q', some reason) h = relax-Does 0 1 _ (omega arith) (pure-Does _)

  venue_leg-Does :
      (ex : TriangleExecutor) (a : Answers) (book : OrderBook) (venue : Text) (s : Symbol)
      (side : OrderSide) (size : Size) (t : TradeRecord)
      → all_settled t.orders ≡ true
      → Does R 1 (venue_leg ex a book venue s side size (notifier a t))
  unfolding venue_leg
  venue_leg-Does ex a book venue s side size t h =
      lift-Does 1 _ (venue_amount book side size) (λ amount _.
        let q = request_of a venue s side amount in
        lift-Does 1 _ (filtered ex book q) (λ outcome _. place_filtered-Does a t q outcome h))

  -- a leg of a settled trade, with its intent
  pub fill_leg-Does :
      (ex : TriangleExecutor) (a : Answers) (venue : Text) (s : Symbol) (side : OrderSide)
      (size : Size) (t : TradeRecord)
      → all_settled t.orders ≡ true
      → Does R (may_place ex a) (fill_leg ex a venue s side size (notifier a t))
  unfolding fill_leg
  fill_leg-Does ex a venue s side size t h =
      let n = may_place ex a in
      lift-Does n _ (check_guard a) (λ _ passed. lift-Does n _ (fresh_book ex a venue s) (λ book _.
        if_Does n (is_paper ex.mode)
          (λ _. relax-Does 0 n _ (omega arith) (paper_leg-Does ex a book venue s side size))
          (λ e.
            relax-Does 1 n _ (ground (arith, passed, e))
              (venue_leg-Does ex a book venue s side size t h))))
