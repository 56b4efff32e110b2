-- ===== src/Strategy.antt =====
-- backend/src/trading_system/strategy: the exit prices of a position, the indicators of a market and the
-- screening of markets.
pub mod ExitPolicy
pub mod Indicators
pub mod Readings
pub mod Retests
pub mod Breakouts
pub mod Pullback
pub mod Snapshot
pub mod Screener
pub mod Ranking
pub mod RuleBased
pub mod Rules
