-- ===== src/Money.antt =====
-- Python's `decimal.Decimal` under the default context: 28 significant digits, half to even.
-- A finite decimal is an integer over a power of ten; trailing zeros are not kept apart.
pub mod Compare
pub mod Context
mod Tests
use crypto_arbitrage_bot_ref.Base.{
  ℕ, zero, suc, ◌+◌, ◌-◌, ◌*◌, ◌/◌, ◌%◌, ◌^◌, Bool, not, Option, none, some, leb, ltb, ◌==◌,
  if◌then◌else◌,
}
use crypto_arbitrage_bot_ref.Int.{ℤ, pos, negsuc, pos_part, neg_part, sub_ℕ, magnitude, with_sign}
use Prim.Native.Nat.{max}

pub record Decimal : Type 0 where
  pub coefficient : ℤ
  pub scale : ℕ

-- the decimal n / 10^s
abbrev pub dec : ℕ → ℕ → Decimal
dec n s = record { coefficient = pos n; scale = s }

-- DEC0
abbrev pub dec0 : Decimal
dec0 = dec 0 0

-- `a <= b`, exact at every size
unfoldable pub le_dec : Decimal → Decimal → Bool
le_dec a b =
    leb (pos_part a.coefficient * 10 ^ b.scale + neg_part b.coefficient * 10 ^ a.scale)
      (pos_part b.coefficient * 10 ^ a.scale + neg_part a.coefficient * 10 ^ b.scale)

-- `a < b`
abbrev pub lt_dec : Decimal → Decimal → Bool
lt_dec a b = not (le_dec b a)

-- `min(a, b)` and `max(a, b)`, which keep the first of equal values
unfoldable pub min_dec : Decimal → Decimal → Decimal
min_dec a b = if lt_dec b a then b else a

unfoldable pub max_dec : Decimal → Decimal → Decimal
max_dec a b = if lt_dec a b then b else a

-- n / k rounded half to even, for k > 0
unfoldable pub half_even : ℕ → ℕ → ℕ
half_even n k =
    if ltb (2 * (n % k)) k
    then n / k
    else if ltb k (2 * (n % k))
    then n / k + 1
    else n / k + (n / k) % 2

-- 10^28: coefficients below it have at most 28 digits
unfoldable pub precision : ℕ
precision = 10 ^ 28

-- how many digits to drop until at most 28 are left; the number itself is enough fuel
unfoldable pub excess : ℕ → ℕ → ℕ
excess zero m = 0
excess (suc fuel) m = let more = excess fuel (m / 10) in if ltb m precision then 0 else more + 1

-- the context's rounding of sign, magnitude and scale
unfoldable pub round_context : ℤ → ℕ → Decimal
unfolding excess half_even sub_ℕ precision
round_context c s =
    let m = magnitude c in
    let d = excess m m in
    if d == 0
    then record { coefficient = c; scale = s }
    else record { coefficient = with_sign c (half_even m (10 ^ d) * 10 ^ (d - s)); scale = s - d }

-- the coefficients at a common scale, summed; a + b and a - b
unfoldable pub add_dec : Decimal → Decimal → Decimal
unfolding round_context
add_dec a b =
    let s = max a.scale b.scale in
    let u = 10 ^ (s - a.scale) in
    let v = 10 ^ (s - b.scale) in
    round_context
      (sub_ℕ (pos_part a.coefficient * u + pos_part b.coefficient * v)
        (neg_part a.coefficient * u + neg_part b.coefficient * v))
      s

unfoldable pub sub_dec : Decimal → Decimal → Decimal
unfolding round_context
sub_dec a b =
    let s = max a.scale b.scale in
    let u = 10 ^ (s - a.scale) in
    let v = 10 ^ (s - b.scale) in
    round_context
      (sub_ℕ (pos_part a.coefficient * u + neg_part b.coefficient * v)
        (neg_part a.coefficient * u + pos_part b.coefficient * v))
      s

-- `-a`
unfoldable pub negate : Decimal → Decimal
unfolding round_context
negate a = round_context (sub_ℕ (neg_part a.coefficient) (pos_part a.coefficient)) a.scale

abbrev mul_sign : ℤ → ℤ → ℤ
mul_sign a b =
    sub_ℕ (pos_part a * pos_part b + neg_part a * neg_part b)
      (pos_part a * neg_part b + neg_part a * pos_part b)

unfoldable pub mul_dec : Decimal → Decimal → Decimal
unfolding round_context
mul_dec a b = round_context (mul_sign a.coefficient b.coefficient) (a.scale + b.scale)

-- how many zeros bring n up to at least k, within the fuel
unfoldable pub shortfall : ℕ → ℕ → ℕ → ℕ
shortfall zero n k = 0
shortfall (suc fuel) n k = let more = shortfall fuel (n * 10) k in if ltb n k then more + 1 else 0

-- the quotient of two magnitudes to 28 digits, as a coefficient and its scale
unfoldable pub quotient : ℕ → ℕ → ℕ × ℕ
unfolding half_even excess shortfall precision
quotient n k =
    let up = shortfall (k + 28) n (k * 10 ^ 27) in
    let down = excess (n / k) (n / k) in
    if up == 0
    then (half_even n (k * 10 ^ down) * 10 ^ down, 0)
    else (half_even (n * 10 ^ up) k, up)

-- `a / b`; none is the exception for a zero divisor
unfoldable pub div_dec : Decimal → Decimal → Option Decimal
unfolding quotient sub_ℕ
div_dec a b =
    let n = magnitude a.coefficient * 10 ^ b.scale in
    let k = magnitude b.coefficient * 10 ^ a.scale in
    let (q, s) = quotient n k in
    if k == 0
    then none
    else if n == 0
    then some (dec 0 0)
    else some
        (record { coefficient = with_sign (mul_sign a.coefficient b.coefficient) q; scale = s })

-- `a.quantize(Decimal("1e-k"))`; none is InvalidOperation, when 28 digits do not hold the result
unfoldable pub quantize : ℕ → Decimal → Option Decimal
unfolding half_even sub_ℕ precision
quantize k a =
    let q = half_even (magnitude a.coefficient * 10 ^ (k - a.scale)) (10 ^ (a.scale - k)) in
    if ltb q precision
    then some (record { coefficient = with_sign a.coefficient q; scale = k })
    else none

-- `a.quantize(Decimal("1e-k"), rounding=ROUND_DOWN)`: the digits after the k-th are cut
unfoldable pub quantize_down : ℕ → Decimal → Option Decimal
unfolding sub_ℕ precision
quantize_down k a =
    let q = magnitude a.coefficient * 10 ^ (k - a.scale) / 10 ^ (a.scale - k) in
    if ltb q precision
    then some (record { coefficient = with_sign a.coefficient q; scale = k })
    else none

-- `to_integral_value(rounding="ROUND_FLOOR")`
unfoldable pub floor_dec : Decimal → Decimal
unfolding sub_ℕ
floor_dec a = record {
  coefficient = elim a.coefficient [
    | pos n ↦ pos (n / 10 ^ a.scale)
    | negsuc n ↦ negsuc (n / 10 ^ a.scale)
  ];
  scale = 0;
}

-- names all the arithmetic for the tests that run it: `unfolding arithmetic`
unfoldable pub arithmetic : Unit {0}
unfolding le_dec min_dec max_dec add_dec sub_dec mul_dec div_dec quantize negate floor_dec
    quantize_down
arithmetic = tt
