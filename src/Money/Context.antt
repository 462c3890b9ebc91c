-- ===== src/Money/Context.antt =====
-- The rounding loops end within their fuel, and rounding keeps signs.
use native.Mathlib.Nat.{pow-suc, le_of_mul-le-mul_right}
use crypto_arbitrage_bot_ref.Base.{
  ℕ, zero, suc, ◌+◌, ◌-◌, ◌*◌, ◌/◌, ◌^◌, ◌≤◌, ◌<◌, ◌≡◌, refl, ap, ◌∙◌, true, arith, inl, inr,
  Bool-cases, ltb, ◌==◌, leb→le, le→leb,
}
use Prim.Native.Nat.{max}
use native.Mathlib.Decide.{dec_le}
use crypto_arbitrage_bot_ref.Int.{ℤ, pos, negsuc, pos_part, neg_part, sub_ℕ}
use crypto_arbitrage_bot_ref.Money.{
  Decimal, dec0, le_dec, precision, excess, shortfall, round_context, sub_dec, add_dec,
}
use crypto_arbitrage_bot_ref.Money.Compare.{pow-pos}

precision-pos : 0 < precision
unfolding precision
precision-pos = omega arith

-- With the number itself as fuel, the digits dropped leave at most 28.
pub excess_suffices : (fuel m : ℕ) → m ≤ fuel → m < 10 ^ excess fuel m * precision
unfolding excess
excess_suffices zero m h = omega (arith, precision-pos)
excess_suffices (suc fuel) m h = elim (Bool-cases (ltb m precision)) [
  | inl e ↦ rw e (ground arith)
  | inr e ↦ rw e (
      let ih = excess_suffices fuel (m / 10) (ground (arith, precision-pos)) in
      let p : 10 ^ (excess fuel (m / 10) + 1) ≡ 10 ^ excess fuel (m / 10) * 10 =
        rw native.Mathlib.Numerals.add-one (pow-suc 10 (excess fuel (m / 10))) in
      rw p (omega arith))
]

-- Enough zeros are appended.
pub shortfall_suffices : (fuel n k : ℕ) → k ≤ n * 10 ^ fuel → k ≤ n * 10 ^ shortfall fuel n k
unfolding shortfall
shortfall_suffices zero n k h = h
shortfall_suffices (suc fuel) n k h = elim (Bool-cases (ltb n k)) [
  | inl e ↦ rw e (
      let ih =
        shortfall_suffices fuel (n * 10) k
          (let e2 = pow-suc 10 fuel in omega (arith, ap (λ (t : ℕ). n * t) e2)) in
      let p : 10 ^ (shortfall fuel (n * 10) k + 1) ≡ 10 ^ shortfall fuel (n * 10) k * 10 =
        rw native.Mathlib.Numerals.add-one (pow-suc 10 (shortfall fuel (n * 10) k)) in
      rw p (omega arith))
  | inr e ↦ rw e (ground arith)
]

pow-add : (x y : ℕ) → 10 ^ (x + y) ≡ 10 ^ x * 10 ^ y
pow-add zero y = rw native.Mathlib.Nat.zero-add (omega arith)
pow-add (suc x) y =
    let e : suc x + y ≡ suc (x + y) = omega arith in
    rw (e, pow-suc 10 (x + y), pow-suc 10 x, pow-add x y) (omega arith)

pub nonneg_of_neg_part : (a : Decimal) → neg_part a.coefficient ≡ 0 → le_dec dec0 a ≡ true
unfolding le_dec
nonneg_of_neg_part a h = le→leb _ _ (omega arith)

neg_part_zero : (c : ℤ) → neg_part c ≤ pos_part c → neg_part c ≡ 0
neg_part_zero (pos n) h = refl
neg_part_zero (negsuc n) h = absurd (omega arith)

pub neg_part_of_nonneg : (a : Decimal) → le_dec dec0 a ≡ true → neg_part a.coefficient ≡ 0
unfolding le_dec
neg_part_of_nonneg a h = neg_part_zero a.coefficient (omega (arith, leb→le _ _ h))

round_context_sign : (c : ℤ) (s : ℕ) → neg_part c ≡ 0 → neg_part (round_context c s).coefficient ≡ 0
unfolding round_context
round_context_sign (pos n) s h = elim (Bool-cases (excess (n + 0) (n + 0) == 0)) [
  | inl e ↦ rw e refl
  | inr e ↦ rw e refl
]
round_context_sign (negsuc n) s h = absurd (omega arith)

split_pow : (s t : ℕ) → s ≤ t → 10 ^ t ≡ 10 ^ (t - s) * 10 ^ s
split_pow s t h =
    let e : t ≡ t - s + s = omega arith in ap (λ (n : ℕ). 10 ^ n) e ∙ pow-add (t - s) s

-- Coefficients at a common scale keep their order: K and U are 10^s and 10^(t - s).
cancel :
    (a a' b b' K U : ℕ)
    → 0 < K
    → b * K + a' * (U * K) ≤ a * (U * K) + b' * K
    → a' * U + b ≤ a * U + b'
cancel a a' b b' K U p h = le_of_mul-le-mul_right {k = K} (omega arith) p

aligned_le :
    (a a' b b' s t : ℕ)
    → s ≤ t
    → b * 10 ^ s + a' * 10 ^ t ≤ a * 10 ^ t + b' * 10 ^ s
    → a' * 10 ^ (t - s) + b ≤ a * 10 ^ (t - s) + b'
aligned_le a a' b b' s t le h =
    cancel a a' b b' (10 ^ s) (10 ^ (t - s)) (pow-pos s) (rw (split_pow s t le) at h)

aligned :
    (a a' b b' s t : ℕ)
    → b * 10 ^ s + a' * 10 ^ t ≤ a * 10 ^ t + b' * 10 ^ s
    → a' * 10 ^ (max s t - s) + b * 10 ^ (max s t - t)
      ≤ a * 10 ^ (max s t - s) + b' * 10 ^ (max s t - t)
aligned a a' b b' s t h = elim (dec_le s t) [
  | yes le ↦
      let e : max s t ≡ t = omega arith in
      let z : t - t ≡ 0 = omega arith in rw (e, z) (omega (arith, aligned_le a a' b b' s t le h))
  | no gt ↦
      let e : max s t ≡ s = omega arith in
      let z : s - s ≡ 0 = omega arith in
      rw (e, z) (omega (arith, aligned_le b' b a' a t s (omega arith) (omega arith)))
]

sub_ℕ_nonneg : (a b : ℕ) → b ≤ a → neg_part (sub_ℕ a b) ≡ 0
unfolding sub_ℕ
sub_ℕ_nonneg a b h = ground arith

-- What is taken from at least as much leaves nothing negative, rounding included.
pub sub_dec_nonneg : (a b : Decimal) → le_dec b a ≡ true → le_dec dec0 (sub_dec a b) ≡ true
unfolding sub_dec le_dec
sub_dec_nonneg a b h = nonneg_of_neg_part (sub_dec a b) (
    round_context_sign _ _ (
      sub_ℕ_nonneg _ _ (
        aligned (pos_part a.coefficient) (neg_part a.coefficient) (pos_part b.coefficient)
          (neg_part b.coefficient) a.scale b.scale (leb→le _ _ h))))

no_debt : (p q n m u v : ℕ) → n ≡ 0 → m ≡ 0 → neg_part (sub_ℕ (p * u + q * v) (n * u + m * v)) ≡ 0
no_debt p q n m u v h k = sub_ℕ_nonneg _ _ (rw (h, k) (omega arith))

-- A sum of two numbers that are not negative is not negative.
pub add_dec_nonneg :
    (a b : Decimal) → le_dec dec0 a ≡ true → le_dec dec0 b ≡ true → le_dec dec0 (add_dec a b) ≡ true
unfolding add_dec
add_dec_nonneg a b h k = nonneg_of_neg_part (add_dec a b) (
    round_context_sign _ _ (
      no_debt (pos_part a.coefficient) (pos_part b.coefficient) _ _ _ _ (neg_part_of_nonneg a h)
        (neg_part_of_nonneg b k)))
