-- ===== src/Domain.antt =====
-- backend/src/trading_system/domain: the enums and the models that the components pass around,
-- with their field constraints and their validators. Free text (theses, summaries), creation times
-- and the ids that no function reads are left out of the records.
pub mod Enums
pub mod Market
pub mod Signal
pub mod Account
pub mod Limits
pub mod Orders
pub mod Portfolio
