-- ===== src/Networks.antt =====
-- app/strategies/transfer/networks.py: the cheapest network that both venues have enabled.
pub mod Safety
pub mod Tests
use crypto_arbitrage_bot_ref.Base.{
  ℕ, Bool, true, false, not, ◌&&◌, ◌||◌, Option, none, some, List, [], ◌∷◌, Text, normalise,
  text_eq, Dict, find, put, ltb, ◌==◌, if◌then◌else◌, is_some,
}
use crypto_arbitrage_bot_ref.Money.{Decimal, le_dec, lt_dec}
use crypto_arbitrage_bot_ref.Result.{Result, ok, raise, network_mismatch}
use crypto_arbitrage_bot_ref.Transfers.{WithdrawalNetwork}

pub record RouteNetwork : Type 0 where
  pub network : Text
  pub code : Text
  pub withdrawal_fee : Decimal
  pub withdrawal_min : Decimal
  pub deposit_min : Decimal

-- `a or b`
abbrev text_or : Option Text → Text → Text
text_or none b = b
text_or (some []) b = b
text_or (some (c ∷ s)) b = c ∷ s

-- `_code_of`
unfoldable pub code_of : WithdrawalNetwork → Text
code_of n = normalise (text_or n.network_code n.network)

-- `{_code_of(n): n for n in networks if enabled(n)}`, added to what is there
unfoldable pub by_code :
    (WithdrawalNetwork → Bool)
    → List WithdrawalNetwork
    → Dict WithdrawalNetwork
    → Dict WithdrawalNetwork
by_code enabled [] d = d
by_code enabled (n ∷ ns) d = by_code enabled ns (if enabled n then put (code_of n) n d else d)

abbrev can_withdraw : WithdrawalNetwork → Bool
can_withdraw n = n.withdraw_enabled

abbrev can_deposit : WithdrawalNetwork → Bool
can_deposit n = n.deposit_enabled

-- the order of strings by code points
unfoldable pub text_lt : Text → Text → Bool
text_lt [] [] = false
text_lt [] (b ∷ t) = true
text_lt (a ∷ s) [] = false
text_lt (a ∷ s) (b ∷ t) = ltb a b || (a == b && text_lt s t)

-- `cost(code)` of the first below that of the second, as tuples compare
unfoldable pub cheaper : Text × WithdrawalNetwork → Text × WithdrawalNetwork → Bool
unfolding text_lt
cheaper (c, n) (d, m) =
    lt_dec n.withdrawal_fee m.withdrawal_fee
    || (le_dec n.withdrawal_fee m.withdrawal_fee && text_lt c d)

-- the withdrawable networks whose code is depositable too
unfoldable pub common : Dict WithdrawalNetwork → Dict WithdrawalNetwork → Dict WithdrawalNetwork
common [] d = []
common ((c, n) ∷ w) d = let rest = common w d in if is_some (find c d) then (c, n) ∷ rest else rest

-- `min(common, key=cost)`, from the best so far
unfoldable pub cheapest :
    Text × WithdrawalNetwork → Dict WithdrawalNetwork → Text × WithdrawalNetwork
unfolding cheaper
cheapest best [] = best
cheapest best (e ∷ es) = cheapest (if cheaper e best then e else best) es

abbrev route : Text × WithdrawalNetwork → Option WithdrawalNetwork → Result RouteNetwork
route best none = raise network_mismatch
route (c, source) (some dest) = ok (record {
  network = source.network;
  code = c;
  withdrawal_fee = source.withdrawal_fee;
  withdrawal_min = source.withdrawal_min;
  deposit_min = dest.deposit_min;
})

abbrev pick : Dict WithdrawalNetwork → Dict WithdrawalNetwork → Result RouteNetwork
pick [] depositable = raise network_mismatch
pick (e ∷ es) depositable = let best = cheapest e es in route best (find best.0 depositable)

-- `NetworkSelector.select`; an empty list of networks leaves an empty dict, and is refused alike
unfoldable pub select : List WithdrawalNetwork → List WithdrawalNetwork → Result RouteNetwork
unfolding by_code common cheapest code_of
select source_networks dest_networks =
    let withdrawable = by_code can_withdraw source_networks [] in
    let depositable = by_code can_deposit dest_networks [] in
    pick (common withdrawable depositable) depositable
