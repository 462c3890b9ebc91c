-- ===== src/Exposure/Tests.antt =====
-- The exposure of one open transfer.
use crypto_arbitrage_bot_ref.Base.{◌≡◌, refl, [], ◌∷◌, text, find, put, text_eq}
use crypto_arbitrage_bot_ref.Money.{dec, dec0, arithmetic}
use crypto_arbitrage_bot_ref.Transfers.{TransferState, buy_cost_quote}
use crypto_arbitrage_bot_ref.Exposure.{
  exposure_maps_for_transfers, exposure_of, value_of_asset, exposure_by_asset,
}
use crypto_arbitrage_bot_ref.Orchestrator.Fixtures.{in_state}

-- Ten coins at a price of one.
ten :
    exposure_of
      (text "XRP")
      (exposure_maps_for_transfers (in_state TransferState.buy_filled ∷ [])).1
    ≡ dec 10 0
unfolding exposure_maps_for_transfers find put text_eq buy_cost_quote arithmetic
ten = refl

exposure_by_asset_example :
    exposure_of
      (text "XRP")
      (exposure_maps_for_transfers (in_state TransferState.buy_filled ∷ [])).1
    ≡ value_of_asset (text "XRP") (in_state TransferState.buy_filled ∷ []) dec0
exposure_by_asset_example = exposure_by_asset (text "XRP") (in_state TransferState.buy_filled ∷ [])
