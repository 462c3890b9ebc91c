-- ===== src/Lib.antt =====
-- A model of the two arbitrage strategies of the bot: the transfer, which buys an asset on one venue,
-- withdraws it to another and sells it there, and the triangle, which finds and trades three legs on
-- one venue, with the market data, interlocks, risk rules, recovery, order filters and storage that
-- they rest on.
--
-- The parts, their files here and the code they translate:
--   Money         Decimal of Python: coefficient and scale, 28 digits, ties to the even digit
--   Orders        app/models/order.py and the order statuses of app/models/enums.py
--   Recovery      app/recovery/recovery.py: recover, _resolve_unknown, _refresh_partial, _merge
--   Guard         app/execution/guard.py, app/execution/order_gate.py, app/config/modes.py, and the
--                 choice of a gate in app/services.py
--   Risk          app/risk/rules.py, app/risk/engine.py, app/models/risk.py
--   Transfers     app/models/transfer.py and the transfer states of app/models/enums.py
--   Wallet        app/execution/paper_wallet.py
--   Networks      app/strategies/transfer/networks.py
--   Fills         app/execution/fill_simulator.py, the books of app/models/market_data.py
--   Exposure      app/risk/rules.py: exposure_maps_for_transfers
--   Tracker       app/risk/state.py
--   Planner       app/strategies/transfer/planner.py: the sanity of books, evaluate, the sizings;
--                 Prices (price_pair, build); Pair and Search (_plan_pair and
--                 plan of the orchestrator)
--   MarketData    app/market_data/store.py (Store) and app/market_data/order_book.py (Depth: vwap and
--                 estimate_for_base_amount; Budget: estimate_for_quote_amount, crossable_liquidity)
--   Opportunity   app/models/arbitrage.py
--   Scanner       app/strategies/triangular/scanner.py and fees.py beside it: Walk (_middle_edge,
--                 _walk_cycle, the sizing loop), Rings (_evaluate), Scan (_scan_venue, scan)
--   Storage       app/storage/repositories.py: TransferRepository
--   Orchestrator  app/strategies/transfer/orchestrator.py: Effects (state, effects, answers), Legs
--                 (_fill, _apply_wallet, _fresh_book), Buy (_execute_buy, _resolve_existing_buy),
--                 Withdraw (_submit_withdrawal), Confirm (_check_withdrawal, _await_deposit,
--                 _timeout_guard), Sell (_execute_sell, _finish), Tick (start, tick, resume)
--   Precision     app/execution/precision.py, with the precision and limits of app/models/market.py
--   Trades        app/models/trade.py, app/storage/repositories.py: TradeRepository
--   Triangle      app/strategies/triangular/executor.py: Effects (state, effects, answers), Inventory
--                 (_absorb_order, _held_inventory, _venue_fill_view), Requests and Legs (_fill_leg,
--                 _fresh_book, _notifier), Preview (_preview_cycle, _check_capital), Accounts (the
--                 final sums), Unwind (_fail_with_unwind), Cycle (_run_cycle), Execute (execute),
--                 Resume (resume_open_trades)
-- Base, Int and Result hold what the parts share. Functions keep the names of the code without the
-- leading underscore; a long method is cut where its guards end.
--
-- A step works on a World: the rows of the database, the paper wallets, and a log of its effects.
-- It is an Action, a function from a World to a result and a World: after an exception the World is
-- what was written until then. What venues, books and clock answer during one step stands in an
-- Environment, a parameter of every property: nothing is assumed of it. A sweep takes one
-- Environment for each transfer. Lives of transfers run through sweeps with any of them, and go on
-- from any record saved inside a step, as after a crash there (Crash).
--
-- The triangle has a World and Actions of its own, with the table of trades. One run takes a
-- Course, the Answers of the outside for each of its legs, since books, guard and venue change
-- between them; Triangle/Steps proves once that a relation on worlds which respects every
-- elementary step holds of a whole run, and Journal and Count are two such relations.
--
-- The scanner reads a MarketDataStore at a time and returns opportunities; a ring that cannot be
-- evaluated is skipped, as its exception is caught. The planner prices with the same walks.
--
-- Bounds: there is no fuel except in two loops on digits, of Money, whose bounds are shown enough
-- in Money/Context, in the crossing of two books, where MarketData/Crossing shows the levels of
-- both enough, in the attempts of recovery, which are the three of the code, and in the eight
-- sizing passes of the scanner. Numbers are unbounded, as in Python; decimals have neither NaN nor
-- infinity, exponents are not limited, and values are those of Python while the number of trailing
-- zeros may differ. Texts are lists of code points, upper case and white space those of ASCII.
-- Times are numbers of microseconds.
--
-- Not modelled: the Kronos strategy, adapters, streams, agents and user interfaces. Rows are
-- assumed to come back from the database as they were saved, the JSON of an order either parses or
-- does not, errors of the database are left out, and error texts are one constructor for each
-- message. Transfer records leave out the mode, orders the market type, symbols the settlement
-- currency of derivatives.
pub mod Base
pub mod Int
pub mod Money
pub mod Opportunity
pub mod Orders
pub mod Recovery
pub mod Guard
pub mod Risk
pub mod Result
pub mod Transfers
pub mod Wallet
pub mod MarketData
pub mod Networks
pub mod Fills
pub mod Scanner
pub mod Storage
pub mod Exposure
pub mod Tracker
pub mod Trades
pub mod Triangle
pub mod Planner
pub mod Precision
pub mod Orchestrator
