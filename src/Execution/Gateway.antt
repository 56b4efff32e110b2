-- ===== src/Execution/Gateway.antt =====
-- exchange/base.py: `ExchangeGateway`, the abstract exchange, as far as the execution managers call
-- it, together with the clock, `sleep` and the entry guard that they are given. Its calls may do
-- anything to the world and answer anything: no law is assumed. A side is passed as it is, where the
-- source passes its text, and the text that names the reason of a close is left out.
use ai_coinletgo.Prelude.{ℕ, Bool, List}
use ai_coinletgo.Prelude.Text.{Text}
use ai_coinletgo.Prelude.Result.{Result}
use ai_coinletgo.Domain.Enums.{PositionSide}
use ai_coinletgo.Domain.Account.{PositionState}
use ai_coinletgo.Domain.Orders.{ExecutionIntent, OrderState}
use ai_coinletgo.Execution.Session.{Fault}

pub record Gateway (W D : Type 0) : Type 0 where
  pub now : W → ℕ × W
  pub sleep : ℕ → W → W
  pub entry_guard : W → Result Fault Bool × W
  pub configure_symbol : Text → ℕ → W → Result Fault (Unit {0}) × W
  pub best_entry_price : Text → PositionSide → W → Result Fault D × W
  pub place_limit_entry : ExecutionIntent D → Text → D → W → Result Fault (OrderState D) × W
  pub get_order : Text → Text → W → Result Fault (OrderState D) × W
  pub cancel_order : Text → Text → W → Result Fault (OrderState D) × W
  pub upsert_protection : ExecutionIntent D → D → D → W → Result Fault (List (OrderState D)) × W
  pub close_position_market_orders : PositionState D → W → Result Fault (List (OrderState D)) × W
  pub get_positions : W → Result Fault (List (PositionState D)) × W
  pub place_limit_exit : PositionState D → D → D → Text → W → Result Fault (OrderState D) × W
  pub close_position_quantity_market_orders :
      PositionState D → D → Text → W → Result Fault (List (OrderState D)) × W
  pub cancel_position_take_profits : PositionState D → W → Result Fault (Unit {0}) × W
  pub cancel_position_protection : PositionState D → W → Result Fault (Unit {0}) × W
