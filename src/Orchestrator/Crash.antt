-- ===== src/Orchestrator/Crash.antt =====
-- What a crash inside a step of app/strategies/transfer/orchestrator.py leaves in the database: the
-- rows that the steps after the buy save on their way, none of which writes the coins off.
pub mod Sending
pub mod Waiting
pub mod Selling
use crypto_arbitrage_bot_ref.Base.{
  ◌⊎◌, inl, inr, subst, ◌≡◌, refl, Bool, true, false, ◌&&◌, Option, none, some, List, [], ◌∷◌, Text,
  arith, if◌then◌else◌,
}
use crypto_arbitrage_bot_ref.Money.{Decimal}
use crypto_arbitrage_bot_ref.Result.{Result, ok, raise, Exception}
use crypto_arbitrage_bot_ref.Orchestrator.Landing.{continued}
use crypto_arbitrage_bot_ref.Transfers.{TransferRecord, TransferState, Note}
use crypto_arbitrage_bot_ref.Orchestrator.Effects.{
  Environment, World, Action, Effect, saved, submitted, withdrew, audited, save_record, audit,
  AuditEvent, fail_record, check_guard, credit_wallet, debit_wallet, lift, pure, throw, ◌>>=◌, ◌>>◌,
}

-- the states that a transfer may reach once its buy is filled
abbrev pub accounted : TransferState → Bool
accounted TransferState.created = false
accounted TransferState.buy_submitted = false
accounted TransferState.failed = false
accounted _ = true

-- every record that the log saves is in one of them
unfoldable pub held : List Effect → Bool
held [] = true
held (saved r ∷ log) = accounted r.state && held log
held (submitted q ∷ log) = held log
held (withdrew q ∷ log) = held log
held (audited e k ∷ log) = held log

-- an action, returning or raising, that leaves such a log such
pub record KeepsHeld {A : Type 0} (m : Action A) : Type 0 where
  pub keeps : (w : World) → held w.log ≡ true → held (m w).1.log ≡ true

module _ {A B : Type 0} where
  continue_keeps :
      (f : A → Action B) (x : Result A)
      → ((a : A) → KeepsHeld (f a))
      → (w : World) → held w.log ≡ true
      → held (continued f x w).1.log ≡ true
  continue_keeps f (ok a) k w h = (k a).keeps w h
  continue_keeps f (raise e) k w h = h

  pub bind_keeps :
      {m : Action A} {f : A → Action B}
      → KeepsHeld m
      → ((a : A) → KeepsHeld (f a))
      → KeepsHeld (m >>= f)
  bind_keeps {m} {f} km kf = record {
    keeps = λ w h. continue_keeps f (m w).0 kf (m w).1 (km.keeps w h);
  }

pub if_keeps :
    {A : Type 0} (b : Bool) {m k : Action A}
    → KeepsHeld m
    → KeepsHeld k
    → KeepsHeld (if b then m else k)
if_keeps true p q = p
if_keeps false p q = q

pub pure_keeps : {A : Type 0} {a : A} → KeepsHeld (pure a)
pure_keeps = record { keeps = λ w h. h }

pub throw_keeps : {A : Type 0} {e : Exception} → KeepsHeld (throw {A = A} e)
throw_keeps = record { keeps = λ w h. h }

pub lift_keeps : {A : Type 0} (r : Result A) → KeepsHeld (lift r)
lift_keeps r = record { keeps = λ w h. h }

pub save-keeps : (r : TransferRecord) → accounted r.state ≡ true → KeepsHeld (save_record r)
unfolding save_record held
save-keeps r a = record { keeps = λ w h. rw a h }

pub save-pure-keeps :
    {A : Type 0} (r : TransferRecord) (a : A)
    → accounted r.state ≡ true
    → KeepsHeld (save_record r >> pure a)
unfolding save_record held
save-pure-keeps r a s = record { keeps = λ w h. rw s h }

pub audit-keeps : (e : AuditEvent) (k : Text) → KeepsHeld (audit e k)
unfolding audit held
audit-keeps e k = record { keeps = λ w h. h }

pub audit-pure-keeps :
    {A : Type 0} (r : TransferRecord) (e : AuditEvent) (k : Text) (a : A)
    → accounted r.state ≡ true
    → KeepsHeld (save_record r >> audit e k >> pure a)
unfolding save_record audit held
audit-pure-keeps r e k a s = record { keeps = λ w h. rw s h }

pub review-keeps :
    (env : Environment) (note : Note) (r : TransferRecord)
    → KeepsHeld (fail_record env TransferState.manual_review note r)
unfolding fail_record held
review-keeps env note r = record { keeps = λ w h. h }

pub check_guard-keeps : (env : Environment) → KeepsHeld (check_guard env)
unfolding check_guard
check_guard-keeps env = record { keeps = λ w h. ground arith }

module _ (venue asset : Text) (a : Decimal) where
  pub credit_wallet-keeps : KeepsHeld (credit_wallet venue asset a)
  unfolding credit_wallet
  credit_wallet-keeps = record { keeps = λ w h. ground arith }

  pub debit_wallet-keeps : KeepsHeld (debit_wallet venue asset a)
  unfolding debit_wallet
  debit_wallet-keeps = record { keeps = λ w h. ground arith }

-- a record that the log saves
abbrev pub Noted : TransferRecord → List Effect → Type 0
Noted p [] = ⊥
Noted p (saved r ∷ log) = (r ≡ p) ⊎ Noted p log
Noted p (submitted q ∷ log) = Noted p log
Noted p (withdrew q ∷ log) = Noted p log
Noted p (audited e k ∷ log) = Noted p log

pub Noted-accounted :
    (p : TransferRecord) (log : List Effect)
    → held log ≡ true
    → Noted p log
    → accounted p.state ≡ true
unfolding held
Noted-accounted p [] h n = absurd n
Noted-accounted p (saved r ∷ log) h (inl e) =
    subst (λ (x : TransferRecord). accounted x.state ≡ true) e (ground arith)
Noted-accounted p (saved r ∷ log) h (inr n) = Noted-accounted p log (ground arith) n
Noted-accounted p (submitted q ∷ log) h n = Noted-accounted p log h n
Noted-accounted p (withdrew q ∷ log) h n = Noted-accounted p log h n
Noted-accounted p (audited e k ∷ log) h n = Noted-accounted p log h n
