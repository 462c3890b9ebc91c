-- ===== src/Triangle/Inventory.antt =====
-- `_absorb_order`, `_held_inventory` and `_venue_fill_view` of
-- app/strategies/triangular/executor.py: what the orders of a trade tell.
use crypto_arbitrage_bot_ref.Base.{
  ℕ, Bool, false, Option, none, some, List, [], ◌∷◌, Text, text_eq, if◌then◌else◌,
}
use crypto_arbitrage_bot_ref.Money.{
  Decimal, dec, dec0, le_dec, lt_dec, add_dec, sub_dec, mul_dec, div_dec, quantize,
}
use crypto_arbitrage_bot_ref.Orders.{Order, OrderSide, is_confirmed_fill}
use crypto_arbitrage_bot_ref.Result.{Result, ok, signal, ◌>>=◌}
use crypto_arbitrage_bot_ref.Fills.{SimulatedFill}
use crypto_arbitrage_bot_ref.Trades.{TradeRecord, Payload, dumped, corrupt, Held}

-- `payload.get("client_order_id")`
abbrev pub payload_client_id : Payload → Option Text
payload_client_id (dumped o) = o.client_order_id
payload_client_id (corrupt k) = k

abbrev pub names_client : Text → Payload → Bool
names_client k p = elim (payload_client_id p) [ none ↦ false | some j ↦ text_eq j k ]

-- the first payload that names the client id replaced, or one more at the end
unfoldable pub replace_or_append : Text → Payload → List Payload → List Payload
replace_or_append k p [] = p ∷ []
replace_or_append k p (x ∷ xs) = if names_client k x then p ∷ xs else x ∷ replace_or_append k p xs

abbrev append_payload : Payload → List Payload → List Payload
append_payload p [] = p ∷ []
append_payload p (x ∷ xs) = x ∷ append_payload p xs

abbrev pub absorbed : Option Text → Payload → List Payload → List Payload
absorbed none p xs = append_payload p xs
absorbed (some []) p xs = append_payload p xs
absorbed (some (c ∷ k)) p xs = replace_or_append (c ∷ k) p xs

-- `_absorb_order`, at the time `now`
unfoldable pub absorb_order : ℕ → Order → TradeRecord → TradeRecord
unfolding replace_or_append
absorb_order now o t = record t {
  orders = absorbed o.client_order_id (dumped o) t.orders;
  updated_at = now;
}

-- `_held_inventory`: the fills that its text lists; the text is empty when there is none
unfoldable pub held_inventory : List Payload → List Held
held_inventory [] = []
held_inventory (corrupt _ ∷ ps) = held_inventory ps
held_inventory (dumped o ∷ ps) =
    let rest = held_inventory ps in
    if is_confirmed_fill o then (o.filled_amount, o.symbol) ∷ rest else rest

-- the fee of an order, if it is charged in the given currency
abbrev fee_in : Text → Order → Decimal
fee_in currency o = elim o.fee_currency [
  | none ↦ dec0
  | some c ↦ if text_eq c currency then o.fee_paid else dec0
]

abbrev view_ratio : Order → Result Decimal
view_ratio o =
    if lt_dec dec0 o.amount then signal (div_dec o.filled_amount o.amount) else ok (dec 1 0)

abbrev net_amounts : Order → Decimal → Result (Decimal × Decimal)
net_amounts o average = elim o.side [
  | OrderSide.buy ↦ do
    base ← signal (quantize 8 (sub_dec o.filled_amount (fee_in o.symbol.base o)))
    quote ←
        signal (quantize 8 (add_dec (mul_dec o.filled_amount average) (fee_in o.symbol.quote o)))
    ok (base, quote)
  | OrderSide.sell ↦ do
    quote ←
        signal (quantize 8 (sub_dec (mul_dec o.filled_amount average) (fee_in o.symbol.quote o)))
    ok (o.filled_amount, quote)
]

-- the view of a confirmed fill, at its average price
unfoldable pub fill_view : Order → Decimal → Result SimulatedFill
fill_view o average = do
  nets ← net_amounts o average
  fee ←
      signal
        (quantize 8 (add_dec (fee_in o.symbol.quote o) (mul_dec (fee_in o.symbol.base o) average)))
  share ← view_ratio o
  ratio ← signal (quantize 6 share)
  ok (record {
    side = o.side;
    symbol = o.symbol;
    filled_amount = nets.0;
    quote_amount = nets.1;
    average_price = average;
    reference_price = average;
    fee = fee;
    slippage_bps = dec0;
    fill_ratio = ratio;
    rejected_reason = none;
  })

-- the view at an average price, if there is a positive one
unfoldable pub priced_view : Order → Option Decimal → Result (Option SimulatedFill)
unfolding fill_view
priced_view o none = ok none
priced_view o (some average) =
    if le_dec average dec0 then ok none else (fill_view o average >>= λ f. ok (some f))

-- `_venue_fill_view`
unfoldable pub venue_fill_view : Order → Result (Option SimulatedFill)
unfolding priced_view
venue_fill_view o =
    if le_dec o.filled_amount dec0
    then ok none
    else if is_confirmed_fill o
    then priced_view o o.average_price
    else ok none
