-- ===== src/Decimal.antt =====
-- Python's `decimal.Decimal`, as far as the program computes with it. The operations round to the
-- context's precision, so they are an interface: the type of the decimals of at most that
-- precision, up to numerical equality (`Decimal("1.0") == Decimal("1")`). NaN and the infinities
-- are left out, and so is division by zero, which the callers' models test for.
mod Defs
pub mod Laws
pub mod Fixed
unfoldable pub use Defs.*
