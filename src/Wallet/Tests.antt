-- ===== src/Wallet/Tests.antt =====
-- A wallet of two assets.
use crypto_arbitrage_bot_ref.Base.{◌≡◌, ◌≢◌, refl, true, [], ◌∷◌, text, normalise, arith}
use mathlib.Core.Logic.{◌↔◌}
use crypto_arbitrage_bot_ref.Money.{dec, dec0, lt_dec, le_dec}
use crypto_arbitrage_bot_ref.Result.{ok, raise, value_error}
use crypto_arbitrage_bot_ref.Wallet.{PaperWallet, credit, debit, free}
use crypto_arbitrage_bot_ref.Wallet.Balance.{IsSolvent, wallet_stays-IsSolvent}

abbrev two_assets : PaperWallet
two_assets = (text "XRP", dec 5 0) ∷ (text "USDT", dec 100 0) ∷ []

wallet_stays-IsSolvent_example :
    IsSolvent (credit (text "xrp") (dec 1 0) two_assets)
    × ((after : PaperWallet) → debit (text "xrp") (dec 1 0) two_assets ≡ ok after → IsSolvent after)
    × ((debit (text "xrp") (dec 1 0) two_assets ≡ raise value_error) ↔ (
        (lt_dec dec0 (dec 1 0) ≡ true) × (lt_dec (free (text "xrp") two_assets) (dec 1 0) ≡ true)))
unfolding le_dec
wallet_stays-IsSolvent_example =
    wallet_stays-IsSolvent (text "xrp") (dec 1 0) two_assets (refl, (refl, tt))

xrp_is_not_usdt : normalise (text "USDT") ≢ normalise (text "xrp")
unfolding normalise
xrp_is_not_usdt h = ground arith
