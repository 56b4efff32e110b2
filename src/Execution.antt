-- ===== src/Execution.antt =====
-- backend/src/trading_system/execution: the orders that open and close positions, against an exchange
-- that the model takes as a parameter.
pub mod Session
pub mod Gateway
pub mod Rules
pub mod Entry
pub mod Exit
