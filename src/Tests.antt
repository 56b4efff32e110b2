-- ===== src/Tests.antt =====
-- The development on concrete inputs: decimals are integers of a hundred-millionth.
pub mod Book
pub mod Trading
pub mod Entry
pub mod Risk
pub mod Exit
pub mod Portfolio
pub mod Screening
pub mod Backtest
use ai_coinletgo.Prelude.{ℕ, ◌*◌, zero, List, []}
use ai_coinletgo.Prelude.Int.{ℤ, pos}

-- A whole number of units.
abbrev pub units : ℕ → ℤ
units n = pos (n * 100_000_000)
