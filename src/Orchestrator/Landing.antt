-- ===== src/Orchestrator/Landing.antt =====
-- Where the buy of app/strategies/transfer/orchestrator.py lands: the states that each may return, with the record stored.
use crypto_arbitrage_bot_ref.Base.{
  is_some, ◌≡◌, refl, ap, ◌∙◌, sym, subst, Bool, true, false, Option, none, some, Text, arith, inl,
  inr, Bool-cases, if◌then◌else◌,
}
use crypto_arbitrage_bot_ref.Money.{Decimal}
use crypto_arbitrage_bot_ref.Orders.{Order, OrderSide, Symbol}
use crypto_arbitrage_bot_ref.Result.{Result, ok, raise, Exception}
use crypto_arbitrage_bot_ref.Transfers.{
  TransferRecord, TransferState, Note, OrderJson, encoded, malformed, buy_cost_quote,
}
use crypto_arbitrage_bot_ref.Guard.{ensure_can_trade}
use crypto_arbitrage_bot_ref.Recovery.{recover}
use crypto_arbitrage_bot_ref.Orchestrator.Legs.{Leg, fill_leg}
use crypto_arbitrage_bot_ref.Storage.{get}
use crypto_arbitrage_bot_ref.Storage.Slots.{get-save_self}
use crypto_arbitrage_bot_ref.Orchestrator.Effects.{
  Environment, World, Action, save_record, fail_record, check_guard, ◌>>◌, ◌>>=◌, throw,
}
use crypto_arbitrage_bot_ref.Orchestrator.Buy.{
  bought, after_recovery, resolve_order, resolve_existing_buy, settle_buy, handle_buy, first_buy,
  execute_buy, with_buy, filled_or, note_buy, buy_by, symbol_of,
}

-- A returned record stands in one of the allowed states, keeps the identity of the one that the
-- step began with, and is the row that the database holds.
pub record Landed (allowed : TransferState → Bool) (r r' : TransferRecord) (w : World)
    : Type 0 where
  pub state_allowed : allowed r'.state ≡ true
  pub same_id : r'.id ≡ r.id
  pub same_plan : r'.plan ≡ r.plan
  pub stored : get r'.id w.rows ≡ some r'

abbrev pub Lands : (TransferState → Bool) → TransferRecord → Action TransferRecord → Type 0
Lands allowed r m =
    (w : World) (r' : TransferRecord) → (m w).0 ≡ ok r' → Landed allowed r r' (m w).1

abbrev pub buy_ends : TransferState → Bool
buy_ends TransferState.buy_filled = true
buy_ends TransferState.failed = true
buy_ends TransferState.manual_review = true
buy_ends _ = false

pub raise_ne_ok : {A : Type 0} {e : Exception} {a : A} → raise e ≡ ok a → ⊥
raise_ne_ok h = ground arith

abbrev pub same_record : TransferRecord → TransferRecord
same_record r = r

-- What holds when an action returns a value of the form `g c`.
abbrev pub Ensures : {B C : Type 0} → (C → B) → (C → World → Type 0) → Action B → Type 0
Ensures {C = C} g Q m = (w : World) (c : C) → (m w).0 ≡ ok (g c) → Q c (m w).1

abbrev pub continued : {A B : Type 0} → (A → Action B) → Result A → Action B
continued f x w = elim x [ ok a ↦ f a w | raise e ↦ throw e w ]

continued-Ensures :
    {A B C : Type 0} (g : C → B) (Q : C → World → Type 0) (f : A → Action B) (x : Result A)
    → ((a : A) → x ≡ ok a → Ensures g Q (f a))
    → Ensures g Q (continued f x)
continued-Ensures g Q f (ok a) h w c e = h a refl w c e
continued-Ensures g Q f (raise x) h w c e = absurd (raise_ne_ok e)

-- what every continuation ensures, the whole ensures
pub Ensures-after :
    {A B C : Type 0} (g : C → B) (Q : C → World → Type 0) (m : Action A) (f : A → Action B)
    → ((a : A) → Ensures g Q (f a))
    → Ensures g Q (m >>= f)
Ensures-after g Q m f h w c e = continued-Ensures g Q f (m w).0 (λ a _. h a) (m w).1 c e

-- a step that returns has passed the guard, and goes on as it would without it
pub guard_passed :
    {A : Type 0} (env : Environment) (m : Action A) (w : World) {a : A}
    → ((check_guard env >> m) w).0 ≡ ok a
    → (check_guard env >> m) w ≡ m w
unfolding check_guard
guard_passed env m w h = elim (Bool-cases (is_some (ensure_can_trade env.guard))) [
  | inl e ↦ absurd (raise_ne_ok (rw (e, check_guard) at h))
  | inr e ↦ rw (e, check_guard) refl
]

pub fail_record-Lands :
    (allowed : TransferState → Bool) (env : Environment) (s : TransferState) (note : Note)
    (r : TransferRecord)
    → allowed s ≡ true
    → Lands allowed r (fail_record env s note r)
unfolding fail_record
fail_record-Lands allowed env s note r a w r' h = ground (arith, get-save_self r' w.rows)

bought-Lands :
    (env : Environment) (amount : Decimal) (r : TransferRecord)
    → Lands buy_ends r (bought env amount r)
unfolding bought
bought-Lands env amount r w r' h = ground (arith, get-save_self r' w.rows)

after_recovery-Lands :
    (env : Environment) (o : Order) (r : TransferRecord) → Lands buy_ends r (after_recovery env o r)
unfolding after_recovery
after_recovery-Lands env o r w r' h = ground (
  arith,
  bought-Lands env o.filled_amount r w r',
  fail_record-Lands buy_ends env TransferState.failed (Note.buy_not_filled_now o.status) r refl w
      r',
  fail_record-Lands buy_ends env TransferState.manual_review (Note.buy_not_established o.status) r
      refl w r',
)

abbrev saved_rows : Environment → Order → TransferRecord → World → World
saved_rows env o r w = (save_record (with_buy env o r) w).1

resolve_order-Lands :
    (env : Environment) (o : Order) (r : TransferRecord) → Lands buy_ends r (resolve_order env o r)
unfolding resolve_order
resolve_order-Lands env o r w r' h =
    let rec = recover (env.order_venue r.plan.source_exchange) o in
    ground (
      arith,
      bought-Lands env o.filled_amount r w r',
      fail_record-Lands buy_ends env TransferState.failed (Note.buy_not_filled_before o.status) r
          refl w r',
      after_recovery-Lands env rec (with_buy env rec r) (saved_rows env rec r w) r',
    )

resolve_existing_buy-Lands :
    (env : Environment) (j : OrderJson) (r : TransferRecord)
    → Lands buy_ends r (resolve_existing_buy env j r)
unfolding resolve_existing_buy
resolve_existing_buy-Lands env malformed r w r' h =
    fail_record-Lands buy_ends env TransferState.manual_review Note.buy_unparsable r refl w r' h
resolve_existing_buy-Lands env (encoded o) r w r' h = resolve_order-Lands env o r w r' h

settle_buy-Lands :
    (env : Environment) (leg : Leg) (r : TransferRecord) → Lands buy_ends r (settle_buy env leg r)
unfolding settle_buy
settle_buy-Lands env (f, o) r w r' h =
    let q = with_buy env o r in
    let w' = saved_rows env o r w in
    ground (
      arith,
      fail_record-Lands buy_ends env TransferState.failed (Note.buy_rejected o.error) q refl w' r',
      fail_record-Lands buy_ends env TransferState.manual_review (Note.buy_unconfirmed o.error) q
          refl w' r',
      fail_record-Lands buy_ends env TransferState.failed Note.buy_no_fill q refl w' r',
      bought-Lands env (filled_or o f) q w' r',
    )

-- the record that a buy leg hands back is the one given, or that with the intent noted
abbrev pub SameTransfer : TransferRecord → TransferRecord → Type 0
SameTransfer r r' = (r'.id ≡ r.id) × (r'.plan ≡ r.plan)

pub fill_leg-SameTransfer :
    (env : Environment) (venue : Text) (symbol : Symbol) (side : OrderSide)
    (base quote : Option Decimal) (noting : Bool) (r : TransferRecord) (w : World) (leg : Leg)
    (r' : TransferRecord)
    → (fill_leg env venue symbol side base quote
        (if noting then some (note_buy env) else none)
        r
        w).0
      ≡ ok (leg, r')
    → SameTransfer r r'
unfolding fill_leg
fill_leg-SameTransfer env venue symbol side base quote noting r w leg r' h = ground arith

pub Landed-same :
    (allowed : TransferState → Bool) (r q r' : TransferRecord) (w : World)
    → SameTransfer r q
    → Landed allowed q r' w
    → Landed allowed r r' w
Landed-same allowed r q r' w s l = ground arith

handle_buy-Lands :
    (env : Environment) (r : TransferRecord) (leg : Result (Leg × TransferRecord))
    → ((l : Leg) (q : TransferRecord) → leg ≡ ok (l, q) → SameTransfer r q)
    → Lands buy_ends r (handle_buy env r leg)
unfolding handle_buy
handle_buy-Lands env r (ok (l, q)) s w r' h =
    Landed-same buy_ends r q r' _ (s l q refl) (settle_buy-Lands env l q w r' h)
handle_buy-Lands env r (raise Exception.execution_disabled) s w r' h = absurd (ground arith)
handle_buy-Lands env r (raise e) s w r' h = ground (
  arith,
  fail_record-Lands buy_ends env TransferState.manual_review (Note.buy_error_after_submission e) r
      refl w r',
  fail_record-Lands buy_ends env TransferState.failed (Note.buy_error e) r refl w r',
)

first_buy-Lands : (env : Environment) (r : TransferRecord) → Lands buy_ends r (first_buy env r)
unfolding first_buy
first_buy-Lands env r w r' h =
    let quote = some (buy_cost_quote r.plan) in
    let leg =
      fill_leg env r.plan.source_exchange (symbol_of env r) OrderSide.buy none quote
        (some (note_buy env)) r w in
    handle_buy-Lands env r leg.0
      (λ l q e.
        fill_leg-SameTransfer env r.plan.source_exchange (symbol_of env r) OrderSide.buy none quote
          true r w l q e)
      leg.1 r' h

pub buy_by-Lands :
    (env : Environment) (j : Option OrderJson) (r : TransferRecord)
    → Lands buy_ends r (buy_by env j r)
buy_by-Lands env none r = first_buy-Lands env r
buy_by-Lands env (some j) r = resolve_existing_buy-Lands env j r

pub execute_buy-Lands :
    (env : Environment) (r : TransferRecord) → Lands buy_ends r (execute_buy env r)
unfolding execute_buy
execute_buy-Lands env r w r' h =
    let same = guard_passed env (buy_by env r.buy_order r) w h in
    subst (λ w'. Landed buy_ends r r' w')
      (sym (ap (λ (x : Result TransferRecord × World). x.1) same))
      (buy_by-Lands env r.buy_order r w r'
        (ap (λ (x : Result TransferRecord × World). x.0) (sym same) ∙ h))
