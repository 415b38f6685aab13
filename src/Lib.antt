-- ===== src/Lib.antt =====
-- A model of the trading bot under bot/hypertrade, and what it is shown to do.
--
-- The bot runs strategies on a candle feed. At boot, engine/strategy_allowlist.py and
-- strategy_cap.py decide which strategies exist and which are switched on; engine/control.py keeps
-- the switches in Redis. In a tick, the engine asks engine/portfolio.py whether a new position may
-- be opened, sends orders to an exchange (exchange/base.py), and reports the realized PnL back. On
-- the paper account the exchange is exchange/paper.py. The positions and trades stand in the
-- database, db/repo.py. Every five minutes engine/runner.py has the repository compare its open
-- positions with the exchange; closes it finds are priced by reconcile/fills.py, which also books
-- missing trades. Before each tick the runner checks that Redis still has the control state.
-- engine/funding.py stores funding payments and assigns them to positions, vaults/filters.py picks
-- vaults worth following, and notify/rate_limit.py throttles the chat commands.
--
--   Prelude    lists, Boolean tests, whole numbers with a sign, over the native numbers
--   Float      the floats as an interface, and the laws that theorems may assume
--   Dict       a Python dict by text keys, as a list in insertion order
--   Exchange   exchange/base.py; Exchange.Paper and its children: exchange/paper.py (`place_order`,
--              `_handle_buy`, `_handle_sell`, `get_balance`, `load_state`, `_persist`, ...)
--   Reconcile  reconcile/fills.py: `_normalize_side` to `realized_pnl`; Reconcile.Ledger:
--              `_parse_entries`, `_consume`, `FillLedger`; Reconcile.Backfill:
--              `reconcile_fills_from_hl`
--   Repository db/repo.py: `record_trade` to `get_open_position`; Repository.Closing:
--              `_price_orphan_close`, `_close_row_priced`, `_insert_reconcile_trade`,
--              `close_row_externally`; Repository.Reconciler and its children:
--              `reconcile_positions`, `_classify_closes`, `_same_orphans`
--   Engine     engine/runner.py; Engine.Guard: `_check_control_state` and what it calls;
--              Engine.Periodic: `_run_reconcile`, and what can happen to a running bot;
--              Engine.Opens: `_open_refusal`; Engine.FlatAll: `_flat_all_positions` and the part
--              of `tick` that honours a request; Engine.Outage: `_settle_fetch_outage`;
--              Engine.CloseSize: `_resolve_close_size`, `_reset_strategy_state`;
--              Engine.Refusals: `_note_refusal`
--   Portfolio  engine/portfolio.py: `PortfolioManager`, one call after another
--   Control    engine/control.py: `BotControl`, without leverage, heartbeat, opt-ins and snapshots
--   Strategies engine/strategy_allowlist.py; Strategies.Cap: strategy_cap.py; Strategies.Layers:
--              what `main` instantiates, and the part of `tick` that chooses the strategies to run
--   RateLimit  notify/rate_limit.py
--   Vaults     vaults/models.py and vaults/filters.py
--   Funding    engine/funding.py and the funding queries of db/repo.py; Funding.Ingest:
--              `parse_event`, `_ingest_page`, `ingest_funding`
--   Tests      concrete cases
--
-- State is passed explicitly: an operation takes a record and returns the new one. What lies
-- outside the program is an argument: whether a Redis or database write lands and what a read
-- answers, the clock, fresh ids, the pages that HyperLiquid answers, and the text functions of
-- Python. A coroutine is taken as one step, since each of these objects is used by one task.
--
-- Floats are an interface. `FloatLaws` holds of IEEE 754 doubles. `ExactLaws` reads every number as
-- a count of some unit with exact sums; statements about sums of money assume it, so they speak of
-- the code's bookkeeping and not of rounding. Float.Whole is an instance of both.
-- Division is total where Python's raises, and Python's `sum` is a fold from the left.
--
-- The page loop of `ingest_funding` runs on fuel: each page moves the cursor forward by at least a
-- millisecond, so fuel from the first cursor past the last event is enough.
--
-- The reconcile pass takes the answers of the exchange, and what other writers do before its
-- transaction, as arguments; the runner takes the pass as an argument, and Engine.Periodic.Orders
-- puts the two together.
--
-- Not modelled: the rest of the engine's runner (candles, the rest of the execution of signals,
-- other alerts), the HyperLiquid client, the statistics and tenant tables of the database, some of
-- the control keys, the strategies and their indicators, the vault poller, the signals for long
-- holds, the backtest, the HTTP and chat handlers, and the dashboard. Log lines, alert texts and
-- texts for the page are left out everywhere.
pub mod Prelude
pub mod Float
pub mod Dict
pub mod Exchange
pub mod Reconcile
pub mod Portfolio
pub mod Strategies
pub mod RateLimit
pub mod Repository
pub mod Vaults
pub mod Funding
pub mod Control
pub mod Engine
pub mod Tests
