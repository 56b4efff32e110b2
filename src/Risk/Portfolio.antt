-- ===== src/Risk/Portfolio.antt =====
-- risk/portfolio.py: `PortfolioCompiler`, which turns a model's portfolio into a plan of bounded
-- actions. Reasons are the texts of the source.
pub mod Pricing
pub mod Existing
pub mod Opening
pub mod Validation
pub mod Survey
pub mod Admission
pub mod Compile
pub mod Room
pub mod Counts
pub mod Exposure
pub mod Blocked
pub mod Order
pub mod Stops
pub mod Gates
