-- ===== src/Result.antt =====
-- Results of code that may raise, and the exceptions that the handlers tell apart.
use crypto_arbitrage_bot_ref.Base.{◌≡◌, refl, subst, Option, none, some, Text, arith}

-- ExecutionDisabledError, NetworkMismatchError, ValueError (of this program), a decimal signal,
-- an index out of range, ValidationError, and whatever an exchange adapter raises, with its text
pub data Exception : Type 0 where
  execution_disabled network_mismatch value_error decimal_error index_error : Exception
  validation_error : Exception
  adapter_error : Text → Exception

pub data Result {ℓ} (A : Type ℓ) : Type ℓ where
  ok : A → Result A
  raise : Exception → Result A

infixl 5 ◌>>=◌ ◌>>◌
abbrev pub ◌>>=◌ {ℓ κ} : {A : Type ℓ} {B : Type κ} → Result A → (A → Result B) → Result B
ok a >>= f = f a
raise e >>= f = raise e

abbrev pub ◌>>◌ {ℓ} : {B : Type ℓ} → Result (Unit {0}) → Result B → Result B
m >> k = m >>= λ _. k

-- none is the exception of a decimal operation
abbrev pub signal {ℓ} : {A : Type ℓ} → Option A → Result A
signal none = raise decimal_error
signal (some a) = ok a

-- a value that a chain of results returns, from what each part returns
pub bind_yields :
    {A B : Type 0} (P : B → Type 0) (r : Result A) (f : A → Result B)
    → ((a : A) → r ≡ ok a → (b : B) → f a ≡ ok b → P b)
    → (b : B) → (r >>= f) ≡ ok b
    → P b
bind_yields P (ok a) f h b e = h a refl b e
bind_yields P (raise x) f h b e = absurd (ground arith)

-- what every value that a result may hold satisfies
abbrev pub Yields : {A : Type 0} → (A → Type 0) → Result A → Type 0
Yields {A} P r = (a : A) → r ≡ ok a → P a

ok_injective : {A : Type 0} {a b : A} → ok a ≡ ok b → a ≡ b
ok_injective h = ground arith

pub ok-Yields : {A : Type 0} (P : A → Type 0) (a : A) → P a → Yields P (ok a)
ok-Yields P a p b h = subst P (ok_injective h) p
