-- ===== src/Risk.antt =====
-- backend/src/trading_system/risk: the hard limits between a signal and an order.
pub mod Preflight
pub mod Engine
pub mod Limits
pub mod Intents
pub mod Portfolio
