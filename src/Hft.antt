-- ===== src/Hft.antt =====
-- backend/src/trading_system/hft: the shadow high-frequency loop, from the depth stream to the paper
-- fill.
pub mod OrderBook
pub mod Signal
pub mod Risk
pub mod Execution
pub mod Runner
