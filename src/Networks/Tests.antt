-- ===== src/Networks/Tests.antt =====
-- A route between two venues with two networks each.
use crypto_arbitrage_bot_ref.Base.{
  ◌≡◌, refl, Bool, true, some, List, [], ◌∷◌, text, find, put, text_eq, normalise,
}
use crypto_arbitrage_bot_ref.Money.{dec, dec0, le_dec, arithmetic}
use crypto_arbitrage_bot_ref.Result.{ok}
use crypto_arbitrage_bot_ref.Transfers.{WithdrawalNetwork}
use crypto_arbitrage_bot_ref.Networks.{RouteNetwork, select, code_of, can_withdraw, can_deposit}
use crypto_arbitrage_bot_ref.Networks.Safety.{IsSafeRoute, Offered, Accepts, select_safe}
use Prim.Native.Nat.{ℕ}

abbrev network_at : ℕ → Bool → WithdrawalNetwork
network_at fee on = record {
  network = text "TRC20";
  network_code = some (text "TRX");
  withdraw_enabled = on;
  deposit_enabled = on;
  withdrawal_fee = dec fee 0;
  withdrawal_min = dec0;
  deposit_min = dec0;
}

abbrev ether : WithdrawalNetwork
ether = record (network_at 7 true) { network = text "ERC20"; network_code = some (text "ETH") }

abbrev pub sources : List WithdrawalNetwork
sources = ether ∷ network_at 1 true ∷ []

abbrev pub dests : List WithdrawalNetwork
dests = network_at 2 true ∷ ether ∷ []

abbrev tron : RouteNetwork
tron = record {
  network = text "TRC20";
  code = text "TRX";
  withdrawal_fee = dec 1 0;
  withdrawal_min = dec0;
  deposit_min = dec0;
}

by_tron : select sources dests ≡ ok tron
unfolding select arithmetic find put text_eq normalise
by_tron = refl

-- Of two networks under one code the last one counts, though the first is cheaper.
abbrev dearer_last : List WithdrawalNetwork
dearer_last = network_at 1 true ∷ network_at 5 true ∷ []

last_counts : select dearer_last dests ≡ ok (record tron { withdrawal_fee = dec 5 0 })
unfolding select arithmetic find put text_eq normalise
last_counts = refl

select_safe_example :
    IsSafeRoute sources dests tron
    × ((n : WithdrawalNetwork)
        → Offered can_withdraw sources n
        → Accepts can_deposit (code_of n) dests
        → le_dec tron.withdrawal_fee n.withdrawal_fee ≡ true)
select_safe_example = select_safe sources dests by_tron
