-- ===== src/Triangle/Ends.antt =====
-- How a cycle of app/strategies/triangular/executor.py ends: always, with a terminal trade that is
-- stored.
pub mod Whole
use crypto_arbitrage_bot_ref.Base.{
  ℕ, ◌≡◌, refl, ap, ◌∙◌, Bool, true, false, Option, none, some, List, [], ◌∷◌, Text, arith, inl,
  inr, Bool-cases, Option-cases, if◌then◌else◌,
}
use crypto_arbitrage_bot_ref.Money.{Decimal, dec0, le_dec, sub_dec, quantize}
use crypto_arbitrage_bot_ref.Orders.{Order, OrderSide, Symbol, outcome_unconfirmed}
use crypto_arbitrage_bot_ref.Result.{Result, ok, raise, Exception, signal}
use crypto_arbitrage_bot_ref.Fills.{SimulatedFill, Size, base_size, quote_size}
use crypto_arbitrage_bot_ref.Trades.{TradeRecord, TradeStatus, FailedLeg, is_terminal, get, Held}
use crypto_arbitrage_bot_ref.Trades.Rows.{get-save_self, get_id}
use crypto_arbitrage_bot_ref.Triangle.Effects.{
  TriangleExecutor, Answers, World, Action, pure, lift, continued, ◌>>=◌, ◌>>◌, save_trade,
}
use crypto_arbitrage_bot_ref.Triangle.Inventory.{absorb_order, held_inventory}
use crypto_arbitrage_bot_ref.Triangle.Legs.{Leg, notifier, fill_leg}
use crypto_arbitrage_bot_ref.Triangle.Accounts.{completed_trade, net_bps, settle_unwind}
use crypto_arbitrage_bot_ref.Triangle.Unwind.{or_review, unwound, fail_with_unwind}

-- the trade has ended, and it is the one with the id
pub record Ended (k : Text) (t : TradeRecord) : Type 0 where
  pub terminal : is_terminal t.status ≡ true
  pub same_id : t.id ≡ k

-- whatever trade the action returns has ended
pub record Ends (k : Text) (m : Action TradeRecord) : Type 0 where
  pub ends : (w : World) (t : TradeRecord) → (m w).0 ≡ ok t → Ended k t

raise_ne_ok : {A : Type 0} {e : Exception} {a : A} → raise e ≡ ok a → ⊥
raise_ne_ok h = ground arith

module _ (k : Text) {A : Type 0} (f : A → Action TradeRecord) where
  continued-Ends :
      (r : Result A)
      → ((a : A) → r ≡ ok a → Ends k (f a))
      → (w : World) (t : TradeRecord) → (continued f r w).0 ≡ ok t
      → Ended k t
  continued-Ends (ok a) h w t e = (h a refl).ends w t e
  continued-Ends (raise x) h w t e = absurd (raise_ne_ok e)

  pub bind-Ends : (m : Action A) → ((a : A) → Ends k (f a)) → Ends k (m >>= f)
  bind-Ends m h = record { ends = λ w t e. continued-Ends (m w).0 (λ a _. h a) (m w).1 t e }

  pub lift-Ends : (r : Result A) → ((a : A) → r ≡ ok a → Ends k (f a)) → Ends k (lift r >>= f)
  lift-Ends r h = record { ends = λ w t e. continued-Ends r h w t e }

pub if_Ends :
    (k : Text) (b : Bool) {m n : Action TradeRecord}
    → Ends k m
    → Ends k n
    → Ends k (if b then m else n)
if_Ends k true p q = p
if_Ends k false p q = q

pub pure-Ends : (k : Text) (t : TradeRecord) → Ended k t → Ends k (pure t)
pure-Ends k t d = record { ends = λ w t' e. ground arith }

pub completed_trade-Ended :
    (k : Text) (now : ℕ) (spend proceeds fees : Decimal) (t t' : TradeRecord)
    → t.id ≡ k
    → completed_trade now spend proceeds fees t ≡ ok t'
    → Ended k t'
unfolding completed_trade
completed_trade-Ended k now spend proceeds fees t t' i h = ground arith

or_review-Ended :
    (k : Text) (now : ℕ) (leg : FailedLeg) (t : TradeRecord) (r : Result TradeRecord)
    → t.id ≡ k
    → ((t' : TradeRecord) → r ≡ ok t' → Ended k t')
    → Ended k (or_review now leg t r)
or_review-Ended k now leg t (ok done) i h = h done refl
or_review-Ended k now leg t (raise e) i h = record { terminal = refl; same_id = i }

settle_unwind-Ended :
    (k : Text) (now : ℕ) (leg : FailedLeg) (fees spend : Decimal) (l : Leg) (t t' : TradeRecord)
    → t.id ≡ k
    → settle_unwind now leg fees spend l t ≡ ok t'
    → Ended k t'
unfolding settle_unwind completed_trade
settle_unwind-Ended k now leg fees spend l t t' i h = ground arith

unwound-Ends :
    (k : Text) (a : Answers) (leg : FailedLeg) (fees spend : Decimal) (t : TradeRecord)
    (r : Result Leg)
    → t.id ≡ k
    → Ends k (unwound a leg fees spend t r)
unfolding unwound absorb_order
unwound-Ends k a leg fees spend t (raise e) i =
    pure-Ends k _ (or_review-Ended k a.now leg t (raise e) i (λ t' h. absurd (raise_ne_ok h)))
unwound-Ends k a leg fees spend t (ok l) i =
    let t' = absorb_order a.now l.1 t in
    bind-Ends k _ (save_trade t') (λ _. pure-Ends k _ (
      or_review-Ended k a.now leg t' (settle_unwind a.now leg fees spend l t') i
        (λ t'' h. settle_unwind-Ended k a.now leg fees spend l t' t'' i h)))

pub fail_with_unwind-Ends :
    (k : Text) (ex : TriangleExecutor) (a : Answers) (venue : Text) (s : Symbol) (amount : Decimal)
    (leg : FailedLeg) (fees spend : Decimal) (t : TradeRecord)
    → t.id ≡ k
    → Ends k (fail_with_unwind ex a venue s amount leg fees spend t)
unfolding fail_with_unwind
fail_with_unwind-Ends k ex a venue s amount leg fees spend t i = record {
  ends = λ w t' e.
      let l = fill_leg ex a venue s OrderSide.sell (base_size amount) (notifier a t) w in
      (unwound-Ends k a leg fees spend t l.0 i).ends l.1 t' e;
}
