-- ===== src/Wallet/Balance.antt =====
-- Paper balances never turn negative, and no operation touches another asset.
use mathlib.Core.Logic.{◌↔◌}
use crypto_arbitrage_bot_ref.Base.{
  ◌≡◌, ◌≢◌, true, [], ◌∷◌, Text, normalise, find, put, find-put_ne, All, arith,
}
use crypto_arbitrage_bot_ref.Money.{Decimal, dec0, le_dec, lt_dec, add_dec, sub_dec}
use crypto_arbitrage_bot_ref.Money.Compare.{le_dec_total, le_dec_refl}
use crypto_arbitrage_bot_ref.Money.Context.{sub_dec_nonneg, add_dec_nonneg}
use crypto_arbitrage_bot_ref.Result.{ok, raise, value_error}
use crypto_arbitrage_bot_ref.Wallet.{PaperWallet, get_or_zero, free, credit, debit}

abbrev pub IsSolvent : PaperWallet → Type 0
IsSolvent w = All (λ entry. le_dec dec0 entry.1 ≡ true) w

get_or_zero_nonneg :
    (k : Text) (w : PaperWallet) → IsSolvent w → le_dec dec0 (get_or_zero k w) ≡ true
unfolding find
get_or_zero_nonneg k [] s = le_dec_refl dec0
get_or_zero_nonneg k ((j, v) ∷ w) s = ground (arith, get_or_zero_nonneg k w)

put-IsSolvent :
    (k : Text) (v : Decimal) (w : PaperWallet)
    → le_dec dec0 v ≡ true
    → IsSolvent w
    → IsSolvent (put k v w)
unfolding put
put-IsSolvent k v [] h s = (h, tt)
put-IsSolvent k v ((j, x) ∷ w) h s = ground (arith, put-IsSolvent k v w h)

-- A wallet without negative balances stays so under every credit and every debit that goes
-- through; a debit raises exactly when its amount is positive and not covered.
pub wallet_stays-IsSolvent :
    (asset : Text) (amount : Decimal) (w : PaperWallet)
    → IsSolvent w
    → IsSolvent (credit asset amount w)
      × ((after : PaperWallet) → debit asset amount w ≡ ok after → IsSolvent after)
      × ((debit asset amount w ≡ raise value_error)
          ↔ ((lt_dec dec0 amount ≡ true) × (lt_dec (free asset w) amount ≡ true)))
unfolding credit debit free
wallet_stays-IsSolvent asset amount w s =
    let k = normalise asset in
    let have = get_or_zero k w in
    let have_nonneg = get_or_zero_nonneg k w s in
    (
      ground (
        arith,
        le_dec_total amount dec0,
        add_dec_nonneg have amount have_nonneg,
        put-IsSolvent k (add_dec have amount) w,
      ),
      λ after e.
          ground (arith, sub_dec_nonneg have amount, put-IsSolvent k (sub_dec have amount) w),
      ground arith,
    )

get-put_ne :
    (k j : Text) (v : Decimal) (w : PaperWallet)
    → j ≢ k
    → get_or_zero j (put k v w) ≡ get_or_zero j w
get-put_ne k j v w h = ground (arith, find-put_ne k j v w h)

-- Credits and debits of one asset leave the balance of every other asset as it was.
pub wallet_other_assets :
    (asset other : Text) (amount : Decimal) (w : PaperWallet)
    → normalise other ≢ normalise asset
    → (free other (credit asset amount w) ≡ free other w)
      × ((after : PaperWallet) → debit asset amount w ≡ ok after → free other after ≡ free other w)
unfolding credit debit free
wallet_other_assets asset other amount w ne =
    let k = normalise asset in
    let have = get_or_zero k w in
    (
      ground (arith, get-put_ne k (normalise other) (add_dec have amount) w ne),
      λ after e. ground (arith, get-put_ne k (normalise other) (sub_dec have amount) w ne),
    )
