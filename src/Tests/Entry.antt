-- ===== src/Tests/Entry.antt =====
-- An entry against an exchange that fills half of the order at once and the rest at the first look.
use ai_coinletgo.Prelude.{ℕ, ◌+◌, true, none, some, []}
use ai_coinletgo.Prelude.Int.{ℤ}
use ai_coinletgo.Prelude.Text.{text}
use ai_coinletgo.Prelude.Result.{ok}
use ai_coinletgo.Decimal.Fixed.{fixed}
use ai_coinletgo.Domain.Enums.{long, OrderStatus, partially_filled, filled, canceled}
use ai_coinletgo.Domain.Orders.{ExecutionIntent, OrderState}
use ai_coinletgo.Execution.Gateway.{Gateway}
use ai_coinletgo.Execution.Entry.{ExecutionManager}
use ai_coinletgo.Tests.{units}

abbrev pub order : ℤ → OrderStatus → OrderState ℤ
order quantity status = record {
  client_order_id = text "frc_1_e0";
  symbol = text "BTCUSDT";
  side = text "BUY";
  position_side = long;
  order_type = text "LIMIT";
  quantity = units 2;
  price = some (units 100);
  stop_price = none;
  filled_quantity = quantity;
  average_price = units 100;
  status = status;
}

abbrev intent : ExecutionIntent ℤ
intent = record {
  intent_id = text "1";
  signal_id = text "2";
  symbol = text "BTCUSDT";
  side = long;
  quantity = units 2;
  limit_price = units 100;
  entry_min = units 99;
  entry_max = units 101;
  stop_price = units 95;
  tp1_price = some (units 105);
  tp2_price = units 110;
  trailing_atr_multiple = units 2;
  leverage = 3;
  expires_at = 1000;
}

abbrev pub exchange : Gateway ℕ ℤ
exchange = record {
  now = λ w. (w, w);
  sleep = λ n w. w + n;
  entry_guard = λ w. (ok true, w);
  configure_symbol = λ _ _ w. (ok tt, w);
  best_entry_price = λ _ _ w. (ok (units 100), w);
  place_limit_entry = λ _ _ _ w. (ok (order (units 1) partially_filled), w);
  get_order = λ _ _ w. (ok (order (units 2) filled), w);
  cancel_order = λ _ _ w. (ok (order (units 2) canceled), w);
  upsert_protection = λ _ _ _ w. (ok [], w);
  close_position_market_orders = λ _ w. (ok [], w);
  get_positions = λ w. (ok [], w);
  place_limit_exit = λ _ _ _ _ w. (ok (order (units 1) partially_filled), w);
  close_position_quantity_market_orders = λ _ _ _ w. (ok [], w);
  cancel_position_take_profits = λ _ w. (ok tt, w);
  cancel_position_protection = λ _ w. (ok tt, w);
}

abbrev execution : ExecutionManager
execution = record { reprice_seconds = 30; max_reprices = 2; fill_poll_seconds = 1 }
