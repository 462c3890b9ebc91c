-- ===== src/Money/Compare.antt =====
-- The order of decimals is total and transitive at every scale, and `min` takes the smaller.
use native.Mathlib.Nat.{le_of_mul-le-mul_left, mul-le-mul}
use crypto_arbitrage_bot_ref.Base.{
  ℕ, zero, suc, ◌+◌, ◌*◌, ◌^◌, ◌≤◌, ◌<◌, ◌≡◌, true, false, arith, leb→le, le→leb,
}
use crypto_arbitrage_bot_ref.Int.{pos_part, neg_part}
use crypto_arbitrage_bot_ref.Money.{Decimal, le_dec, min_dec}

pub pow-pos : (s : ℕ) → 0 < 10 ^ s
pow-pos zero = omega arith
pow-pos (suc s) = omega (arith, pow-pos s, native.Mathlib.Nat.pow-suc 10 s)

pub le_dec_refl : (a : Decimal) → le_dec a a ≡ true
unfolding le_dec
le_dec_refl a = ground arith

pub le_dec_total : (a b : Decimal) → le_dec a b ≡ false → le_dec b a ≡ true
unfolding le_dec
le_dec_total a b h = ground arith

-- differences a₁ - a₀ over the denominators x, y, z
chain :
    (a a' b b' c c' x y z : ℕ)
    → 0 < y
    → a * y + b' * x ≤ b * x + a' * y
    → b * z + c' * y ≤ c * y + b' * z
    → a * z + c' * x ≤ c * x + a' * z
chain a a' b b' c c' x y z py h k =
    let p = mul-le-mul h (native.Mathlib.Nat.le_refl z) in
    let q = mul-le-mul k (native.Mathlib.Nat.le_refl x) in
    le_of_mul-le-mul_left {k = y} (omega arith) py

pub le_dec_trans : (a b c : Decimal) → le_dec a b ≡ true → le_dec b c ≡ true → le_dec a c ≡ true
unfolding le_dec
le_dec_trans a b c h k = le→leb _ _ (
    chain (pos_part a.coefficient) (neg_part a.coefficient) (pos_part b.coefficient)
      (neg_part b.coefficient) (pos_part c.coefficient) (neg_part c.coefficient) (10 ^ a.scale)
      (10 ^ b.scale) (10 ^ c.scale) (pow-pos b.scale) (leb→le _ _ h) (leb→le _ _ k))

pub min_dec-le : (a b : Decimal) → (le_dec (min_dec a b) a ≡ true) × (le_dec (min_dec a b) b ≡ true)
unfolding min_dec
min_dec-le a b = ground (arith, le_dec_refl a, le_dec_refl b, le_dec_total a b, le_dec_total b a)
