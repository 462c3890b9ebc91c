-- ===== src/Wallet.antt =====
-- app/execution/paper_wallet.py: free balances by asset, and debits that fail closed.
pub mod Balance
pub mod Tests
use crypto_arbitrage_bot_ref.Base.{
  Option, none, some, List, [], ◌∷◌, Text, normalise, Dict, find, put, if◌then◌else◌,
}
use crypto_arbitrage_bot_ref.Money.{Decimal, dec0, le_dec, lt_dec, add_dec, sub_dec}
use crypto_arbitrage_bot_ref.Result.{Result, ok, raise, value_error}

abbrev pub PaperWallet : Type 0
PaperWallet = Dict Decimal

-- `d.get(key, DEC0)`
abbrev pub get_or_zero : Text → PaperWallet → Decimal
get_or_zero k w = elim (find k w) [ none ↦ dec0 | some v ↦ v ]

-- `free`
unfoldable pub free : Text → PaperWallet → Decimal
free asset w = get_or_zero (normalise asset) w

-- `credit`
unfoldable pub credit : Text → Decimal → PaperWallet → PaperWallet
credit asset amount w =
    if le_dec amount dec0
    then w
    else put (normalise asset) (add_dec (get_or_zero (normalise asset) w) amount) w

-- `debit`
unfoldable pub debit : Text → Decimal → PaperWallet → Result PaperWallet
debit asset amount w =
    if le_dec amount dec0
    then ok w
    else if lt_dec (get_or_zero (normalise asset) w) amount
    then raise value_error
    else ok (put (normalise asset) (sub_dec (get_or_zero (normalise asset) w) amount) w)
