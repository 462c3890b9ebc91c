-- ===== src/Money/Tests.antt =====
-- Decimal arithmetic at values whose results Python prints.
use crypto_arbitrage_bot_ref.Base.{◌≡◌, refl, some, none, ◌^◌}
use crypto_arbitrage_bot_ref.Int.{negsuc}
use crypto_arbitrage_bot_ref.Money.{dec, add_dec, sub_dec, div_dec, quantize}

-- Decimal("1") / Decimal("3") keeps 28 digits.
third : div_dec (dec 1 0) (dec 3 0) ≡ some (dec 3333333333333333333333333333 28)
unfolding div_dec
third = refl

two_thirds : div_dec (dec 200 0) (dec 3 0) ≡ some (dec 6666666666666666666666666667 26)
unfolding div_dec
two_thirds = refl

by_zero : div_dec (dec 1 0) (dec 0 2) ≡ none
unfolding div_dec
by_zero = refl

-- A tie goes to the even digit.
ties : quantize 1 (dec 125 2) ≡ some (dec 12 1)
unfolding quantize
ties = refl

-- 10^28 + 0.5 does not fit and is rounded to the context.
rounded : add_dec (dec (10 ^ 28) 0) (dec 5 1) ≡ dec (10 ^ 28) 0
unfolding add_dec
rounded = refl

below_zero : sub_dec (dec 1 0) (dec 25 1) ≡ record { coefficient = negsuc 14; scale = 1 }
unfolding sub_dec
below_zero = refl
