-- ===== src/Exposure.antt =====
-- app/risk/rules.py, `exposure_maps_for_transfers`: the capital bound in the open transfers, by
-- venue and by asset.
pub mod Tests
use crypto_arbitrage_bot_ref.Base.{
  ◌≡◌, ◌≢◌, refl, ap, subst, ◌∙◌, Bool, true, false, Option, none, some, List, [], ◌∷◌, Text,
  text_eq, text_eq_refl, text_eq_sound, Dict, find, put, find-put_self, find-put_ne, All, arith,
  Bool-cases, inl, inr, if◌then◌else◌,
}
use crypto_arbitrage_bot_ref.Money.{
  Decimal, dec, dec0, le_dec, lt_dec, add_dec, sub_dec, mul_dec, arithmetic,
}
use crypto_arbitrage_bot_ref.Transfers.{TransferRecord, buy_cost_quote}

abbrev pub exposure_of : Text → Dict Decimal → Decimal
exposure_of k d = elim (find k d) [ none ↦ dec0 | some v ↦ v ]

-- `m[k] = m.get(k, DEC0) + v`
unfoldable pub add_exposure : Text → Decimal → Dict Decimal → Dict Decimal
add_exposure k v d = put k (add_dec (exposure_of k d) v) d

-- `source_weight`: a half once the deposit is there, else the whole
unfoldable pub source_weight : TransferRecord → Decimal
source_weight r = if lt_dec dec0 r.deposit_amount then dec 5 1 else dec 1 0

-- one transfer added to both maps
unfoldable pub add_transfer :
    TransferRecord → Dict Decimal × Dict Decimal → Dict Decimal × Dict Decimal
unfolding add_exposure source_weight buy_cost_quote
add_transfer r (exchange, asset) =
    let value = buy_cost_quote r.plan in
    let at_source = add_exposure r.source_exchange (mul_dec value (source_weight r)) exchange in
    (
      add_exposure r.dest_exchange (mul_dec value (sub_dec (dec 1 0) (source_weight r))) at_source,
      add_exposure r.asset value asset,
    )

-- the loop
unfoldable pub expose :
    List TransferRecord → Dict Decimal × Dict Decimal → Dict Decimal × Dict Decimal
unfolding add_transfer
expose [] maps = maps
expose (r ∷ rs) maps = expose rs (add_transfer r maps)

-- `exposure_maps_for_transfers`
unfoldable pub exposure_maps_for_transfers : List TransferRecord → Dict Decimal × Dict Decimal
unfolding expose
exposure_maps_for_transfers rs = expose rs ([], [])

-- the value of the transfers of one asset, added up from a start in their order
abbrev pub value_of_asset : Text → List TransferRecord → Decimal → Decimal
value_of_asset k [] v = v
value_of_asset k (r ∷ rs) v =
    value_of_asset k rs (if text_eq r.asset k then add_dec v (buy_cost_quote r.plan) else v)

differ : (k j : Text) → text_eq k j ≡ false → j ≢ k
differ k j e h = ground (arith, text_eq_refl k)

exposure-add :
    (k j : Text) (v : Decimal) (d : Dict Decimal)
    → exposure_of j (add_exposure k v d)
      ≡ (if text_eq k j then add_dec (exposure_of j d) v else exposure_of j d)
unfolding add_exposure
exposure-add k j v d =
    let after = add_dec (exposure_of k d) v in
    elim (Bool-cases (text_eq k j)) [
      | inl e ↦
          subst
            (λ i.
              exposure_of i (put k after d)
              ≡ (if text_eq k i then add_dec (exposure_of i d) v else exposure_of i d))
            (text_eq_sound k j e) (ground (arith, find-put_self k after d, text_eq_refl k))
      | inr e ↦ ground (arith, find-put_ne k j after d (λ h. differ k j e h))
    ]

expose-asset :
    (k : Text) (rs : List TransferRecord) (exchange asset : Dict Decimal)
    → exposure_of k (expose rs (exchange, asset)).1 ≡ value_of_asset k rs (exposure_of k asset)
unfolding expose add_transfer
expose-asset k [] exchange asset = refl
expose-asset k (r ∷ rs) exchange asset =
    let maps = add_transfer r (exchange, asset) in
    expose-asset k rs maps.0 maps.1
    ∙ ap (value_of_asset k rs) (exposure-add r.asset k (buy_cost_quote r.plan) asset)

-- The asset map gives for every asset the costs of the open transfers of that asset, added up in
-- their order, and nothing for an asset that none of them trades.
pub exposure_by_asset :
    (k : Text) (rs : List TransferRecord)
    → exposure_of k (exposure_maps_for_transfers rs).1 ≡ value_of_asset k rs dec0
unfolding exposure_maps_for_transfers find
exposure_by_asset k rs = expose-asset k rs [] []
