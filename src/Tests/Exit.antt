-- ===== src/Tests/Exit.antt =====
-- An exit against the exchange of the entry: a limit order that fills while it is looked at.
use ai_coinletgo.Prelude.{true, false, some, arith, []}
use ai_coinletgo.Prelude.Int.{ℤ}
use ai_coinletgo.Prelude.Text.{text}
use ai_coinletgo.Decimal.Fixed.{fixed, fixed-IsRounded}
use ai_coinletgo.Domain.Enums.{long}
use ai_coinletgo.Domain.Account.{PositionState}
use ai_coinletgo.Execution.Rules.{Holds}
use ai_coinletgo.Execution.Exit.{ExitExecutionManager, execute}
use ai_coinletgo.Execution.Exit.Audit.{HasExited, HasFailed}
use ai_coinletgo.Execution.Exit.Protocol.{execute-HasExited}
use ai_coinletgo.Tests.{units}
use ai_coinletgo.Tests.Entry.{exchange}

abbrev pub position : PositionState ℤ
position = record {
  position_id = text "p1";
  symbol = text "BTCUSDT";
  side = long;
  quantity = units 2;
  initial_quantity = some (units 2);
  entry_price = units 100;
  mark_price = units 102;
  stop_price = units 95;
  tp1_price = some (units 105);
  tp2_price = some (units 110);
  tp1_completed = false;
  tp1_status_known = true;
  original_stop_price = some (units 95);
  initial_risk_usdt = units 10;
  unrealized_pnl = units 4;
  margin_used = units 70;
  current_r = units 0;
  protected = true;
}

abbrev exits : ExitExecutionManager
exits = record { limit_timeout_seconds = 10; poll_seconds = 1 }

execute-HasExited_example : Holds (HasExited position) (HasFailed position) (
    execute exits exchange position
      (text "x1")
      (units 3)
      (units 102)
      (record { world = 10; log = []; last_emergency_orders = [] }))
execute-HasExited_example =
    execute-HasExited exits exchange position (text "x1") fixed-IsRounded 10 (units 3) (units 102)
      [] (omega arith)
