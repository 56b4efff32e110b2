-- ===== src/Lib.antt =====
-- A model of the trading system of backend/src/trading_system, a program that trades crypto futures:
-- a high-frequency paper trader, the screening of markets and the signals by rules, the risk engine that
-- turns a signal into a sized order, the compiler that turns a model's portfolio into bounded actions, the
-- managers that place the entry, protect what fills and exit, and the position of the backtest.
--
-- Prelude holds shared names, tests, lists, sorting, integers, texts, dictionaries and results. Decimal
-- is the interface of `decimal.Decimal`: the operations of the code, with the laws that rounded
-- arithmetic keeps (Decimal/Laws) as the hypothesis `IsRounded`, and an instance on integers of a
-- hundred-millionth (Decimal/Fixed), in which the tests run.
--
-- Domain: domain/enums.py and domain/models.py, the data of risk, portfolio, execution and the
--   markets, with the validators. Field constraints are the predicates `IsSnapshot`, `IsAccount` and the
--   like, and where the code builds a value that can break them, a test and the `ValidationError` that follows.
-- Hft: hft/order_book.py (OrderBook), hft/signal.py (Signal), hft/risk.py (Risk), hft/execution.py
--   (Execution) and hft/runner.py (Runner). The runner owns a book for every symbol, the signal engine,
--   the risk manager and the paper executor; `process_depth_event` calls them in turn. The items of
--   the queue are a list, the clock's readings and the exchange's answers come with them, and the
--   statuses that are written to redis are a list of what was published.
-- Strategy: strategy/exit_policy.py, the stops and targets (ExitPolicy); strategy/indicators.py
--   (Indicators, with what they guarantee in Readings, and Pullback, with Retests and
--   Breakouts); strategy/snapshot.py (Snapshot);
--   strategy/screener.py (Screener, Ranking); strategy/rule_based.py (RuleBased, Rules).
-- Risk: risk/engine.py, the checks (Preflight) and the sizing and the intent (Engine), and
--   risk/portfolio.py (Portfolio). `compile` is the early returns (Compile), then two passes over the
--   allocations (Survey), which call `_existing_action` (Existing) and `_new_action` (Opening), then the
--   loop that admits increases of risk (Admission) against `_validate_increase` (Validation), then the plan
--   (Compile). The arguments of `compile` are a record, its dictionaries association lists, and a `KeyError`
--   a result.
-- Execution: execution/manager.py (Entry) and execution/exit.py (Exit) over `ExchangeGateway` of
--   exchange/base.py (Gateway). A method is a function of a session, which holds the world and a log of
--   the calls that matter; the gateway is a parameter of which no law is assumed.
-- Backtest: backtest/engine.py, the simulated position (Simulation, Lifecycle, Life) and `aggregate_candles`
--   (Candles, Aggregation). A method that changes the position returns it.
-- Tests: the model on concrete inputs.
--
-- Times are whole ticks. The polling loops have their deadline as fuel, which is enough when
-- each turn waits for a second or more; without it the model raises `diverges`. Settings that are
-- counts or seconds are taken to be no less than nought. Division is never asked for by nought where
-- the preflight has passed with a positive `min_stop_atr`, so that its exception is left out; in the
-- portfolio, the indicators and the backtest a division by nought is not raised either.
--
-- Not modelled: the network and the database, the web interface, the AI client, the trading cycle, the
-- protection monitor, the factor research, the loop of the backtest and the portfolio backtest. The lock
-- of an exit is left out: the model is of one call. Indicators in floats are not here; the
-- one that a snapshot holds is an argument. Texts of details and messages are left out.
pub mod Prelude
pub mod Decimal
pub mod Domain
pub mod Hft
pub mod Execution
pub mod Strategy
pub mod Risk
pub mod Backtest
pub mod Tests
