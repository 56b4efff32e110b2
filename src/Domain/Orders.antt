-- ===== src/Domain/Orders.antt =====
-- `ExecutionIntent` and `OrderState` of domain/models.py, and the intent's validator.
use ai_coinletgo.Prelude.{ℕ, not, ◌&&◌, Option, none, some, if◌then◌else◌}
use ai_coinletgo.Prelude.Text.{Text}
use ai_coinletgo.Decimal.{Decimal, ◌≼◌}
use ai_coinletgo.Domain.Enums.{PositionSide, long, short, OrderStatus}

pub record ExecutionIntent (D : Type 0) : Type 0 where
  pub intent_id : Text
  pub signal_id : Text
  pub symbol : Text
  pub side : PositionSide
  pub quantity : D
  pub limit_price : D
  pub entry_min : D
  pub entry_max : D
  pub stop_price : D
  pub tp1_price : Option D
  pub tp2_price : D
  pub trailing_atr_multiple : D
  pub leverage : ℕ
  pub expires_at : ℕ

pub record OrderState (D : Type 0) : Type 0 where
  pub client_order_id : Text
  pub symbol : Text
  pub side : Text
  pub position_side : PositionSide
  pub order_type : Text
  pub quantity : D
  pub price : Option D
  pub stop_price : Option D
  pub filled_quantity : D
  pub average_price : D
  pub status : OrderStatus

-- The messages of the validator's `ValueError`s.
pub data IntentError : Type 0 where
  limit_outside_entry_range long_take_profit_geometry short_take_profit_geometry : IntentError

module _ {D : Type 0} ⦃d : Decimal D⦄ where
  -- The order of the two take-profit prices, where the first is still open.
  unfoldable pub validate_take_profits : PositionSide → Option D → D → Option IntentError
  validate_take_profits side none tp2 = none
  validate_take_profits long (some tp1) tp2 =
      if tp2 ≼ tp1 then some long_take_profit_geometry else none
  validate_take_profits short (some tp1) tp2 =
      if tp1 ≼ tp2 then some short_take_profit_geometry else none

  -- `none` accepts the intent.
  unfoldable pub validate_entry_guard : ExecutionIntent D → Option IntentError
  unfolding validate_take_profits
  validate_entry_guard i =
      if not ((i.entry_min ≼ i.limit_price) && (i.limit_price ≼ i.entry_max))
      then some limit_outside_entry_range
      else validate_take_profits i.side i.tp1_price i.tp2_price
