-- ===== src/Orchestrator/Fixtures.antt =====
-- A small transfer, its records, a world and the answers of one step, for the tests.
use crypto_arbitrage_bot_ref.Base.{true, false, none, some, List, [], ◌∷◌, text, ℕ}
use crypto_arbitrage_bot_ref.Money.{Decimal, dec, dec0}
use crypto_arbitrage_bot_ref.Orders.{Order, OrderSide, OrderStatus, OrderType}
use crypto_arbitrage_bot_ref.Guard.{Guard, TradingMode, ModePolicy}
use crypto_arbitrage_bot_ref.Recovery.{Venue, Reply, reply}
use crypto_arbitrage_bot_ref.Risk.{finite}
use crypto_arbitrage_bot_ref.Transfers.{
  TransferRecord, TransferState, TransferPlan, TransferTx, WithdrawalNetwork, DepositAddress,
  OrderJson, encoded,
}
use crypto_arbitrage_bot_ref.Fills.Tests.{small_book, usual}
use crypto_arbitrage_bot_ref.Orchestrator.Effects.{Environment, World, Placement, WithdrawReply}
use crypto_arbitrage_bot_ref.Orchestrator.Tick.{new_record}

abbrev pub ripple_plan : TransferPlan
ripple_plan = record {
  source_exchange = text "alpha";
  dest_exchange = text "beta";
  asset = text "XRP";
  network = text "XRP";
  amount = dec 10 0;
  buy_price = dec 1 0;
  sell_price = dec 11 1;
  buy_fee_bps = dec 10 0;
  sell_fee_bps = dec 10 0;
  withdrawal_fee = dec 1 1;
  network_cost_quote = dec0;
  estimated_slippage_bps = dec 5 0;
  data_age_ms = finite dec0;
}

abbrev pub paper_policy : ModePolicy
paper_policy = record {
  mode = TradingMode.paper;
  sends_orders_to_exchange = false;
  uses_real_funds = false;
  uses_testnet = false;
  requires_credentials = false;
  requires_explicit_confirmation = false;
}

abbrev pub open_guard : Guard
open_guard = record {
  policy = paper_policy;
  trading_enabled = true;
  halt_reason = none;
  halted_at = none;
}

abbrev pub halted_guard : Guard
halted_guard = record {
  policy = paper_policy;
  trading_enabled = true;
  halt_reason = some (text "stop");
  halted_at = some 7;
}

-- an order of ten XRP in the given state
abbrev pub ripple_order : OrderStatus → Decimal → Order
ripple_order s filled = record {
  exchange_id = text "alpha";
  exchange_order_id = some (text "o1");
  client_order_id = some (text "c1");
  symbol = record { base = text "XRP"; quote = text "USDT" };
  side = OrderSide.buy;
  order_type = OrderType.market;
  status = s;
  amount = dec 10 0;
  filled_amount = filled;
  price = none;
  average_price = some (dec 1 0);
  fee_paid = dec0;
  fee_currency = none;
  fills = [];
  error = none;
  created_at = 0;
  updated_at = 0;
}

-- a venue that reports every order as it is given
abbrev pub venue_with : Reply Order → Reply (List Order) → Venue
venue_with o os = record { fetch_order = λ _. o; fetch_open_orders = λ _. os; now = 9 }

abbrev ripple_network : WithdrawalNetwork
ripple_network = record {
  network = text "XRP";
  network_code = some (text "XRP");
  withdraw_enabled = true;
  deposit_enabled = true;
  withdrawal_fee = dec 1 1;
  withdrawal_min = dec 1 0;
  deposit_min = dec 1 0;
}

-- both venues and books are as they should be
abbrev pub calm : TradingMode → Guard → ℕ → Environment
calm mode guard now = record {
  mode = mode;
  guard = guard;
  base_currency = text "USDT";
  simulator = usual;
  simulated_transfer_micros = 100;
  deposit_timeout_micros = 1000;
  has_market = true;
  now = now;
  stored_book = λ venue symbol. some (small_book, false);
  refreshed_book = λ venue symbol. none;
  new_client_order_id = text "c1";
  create_order = λ q. Placement.placed (ripple_order OrderStatus.filled (dec 10 0));
  order_venue = λ venue. venue_with (reply (ripple_order OrderStatus.filled (dec 10 0))) (reply []);
  fetch_withdrawal_networks = λ venue asset. reply (ripple_network ∷ []);
  fetch_deposit_address =
      λ venue asset network. reply (record { address = text "rX"; memo = some (text "42") });
  withdraw = λ venue q. WithdrawReply.accepted (record {
    amount = q.amount;
    status = crypto_arbitrage_bot_ref.Transfers.TxStatus.pending;
    txid = some (text "tx1");
    address = some q.address;
  });
  fetch_withdrawals = λ venue asset. reply [];
  fetch_deposits = λ venue asset. reply [];
}

abbrev pub fresh_record : TransferRecord
fresh_record = new_record (calm TradingMode.live open_guard 0) (text "t1") ripple_plan

-- the record in a state, with what it bought
abbrev pub in_state : TransferState → TransferRecord
in_state s = record fresh_record {
  state = s;
  buy_order = some (encoded (ripple_order OrderStatus.filled (dec 10 0)));
  buy_filled_amount = dec 10 0;
}

abbrev pub world_of : TransferRecord → World
world_of r = record { rows = r ∷ []; wallets = []; log = [] }
