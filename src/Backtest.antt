-- ===== src/Backtest.antt =====
-- backtest/engine.py: the simulated position from its opening to its close, and the candles of longer
-- periods.
pub mod Simulation
pub mod Lifecycle
pub mod Life
pub mod Candles
pub mod Aggregation
