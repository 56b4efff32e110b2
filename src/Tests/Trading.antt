-- ===== src/Tests/Trading.antt =====
-- The high-frequency runner and its parts on concrete inputs.
use ai_coinletgo.Prelude.{
  ◌≡◌, ◌↔◌, refl, true, false, none, List, [], ◌∷◌, arith, or_default, leb, length,
}
use ai_coinletgo.Prelude.Int.{ℤ, pos, negsuc, int_eq, ◌+ℤ◌}
use ai_coinletgo.Prelude.Text.{text_eq, upper}
use ai_coinletgo.Prelude.Dict.{lookup}
use ai_coinletgo.Decimal.{◌≼◌, ◌≺◌, nought, minus}
use ai_coinletgo.Decimal.Fixed.{fixed, fixed_mul, fixed_div, fixed-IsRounded}
use ai_coinletgo.Domain.Account.{AccountState, daily_equity_loss_pct, drawdown_pct, losses_nonneg}
use ai_coinletgo.Hft.OrderBook.{apply_event}
use ai_coinletgo.Hft.Signal.{
  HftSignal, HftSignalEngine, buy, sell, ask_imbalance_microprice_down, judge, judge_action,
  IsTradable,
}
use ai_coinletgo.Hft.Risk.{HftRiskManager, check, guarded, size, allowable_notional}
use ai_coinletgo.Hft.Risk.Checks.{
  IsCleared, check-IsCleared, Recorded, record_fills, losing_run_halts, record_fills_stay_halted,
}
use ai_coinletgo.Hft.Execution.{HftPaperExecutor, HftFill, Position, fill_of, book_fill, average_of}
use ai_coinletgo.Hft.Execution.Accounting.{
  AreBooked, done, next, Run-AreBooked, execute_total, IsSettled, closed_of_bounds, average_of_flat,
}
use ai_coinletgo.Hft.Runner.{HftRunner, Readings, depth, put_book, process_depth_event, run_items}
use ai_coinletgo.Hft.Runner.Breaker.{IsHalted, run_items-IsHalted}
use ai_coinletgo.Hft.Runner.Books.{AreBooks, run_items-AreBooks}
use ai_coinletgo.Hft.Runner.Fills.{Explained, process_depth_event-Explained}
use ai_coinletgo.Tests.{units}
use ai_coinletgo.Tests.Book.{symbol, synced, synced-IsBook, update, quote}

abbrev engine : HftSignalEngine ℤ
engine = record {
  imbalance_threshold = pos 100_000;
  max_spread_pct = units 1;
  min_depth_usdt = units 1;
}

abbrev manager : HftRiskManager ℤ
manager = record {
  max_inventory_usdt = units 1000;
  cooldown = 1;
  market_stale = 10;
  max_consecutive_losses = 2;
  last_trade_monotonic = none;
  consecutive_losses = 0;
  halted = false;
}

abbrev tripped : HftRiskManager ℤ
tripped = record manager { consecutive_losses = 2; halted = true }

abbrev seller : HftSignal ℤ
seller = record {
  symbol = symbol;
  action = sell;
  score = pos 497_513;
  reason = ask_imbalance_microprice_down;
  book = quote;
}

abbrev executor : HftPaperExecutor ℤ
executor = record {
  fee_rate = pos 40_000;
  positions = [];
  realized_pnl_usdt = units 0;
  fees_usdt = units 0;
  fill_count = 0;
}

abbrev runner : HftRunner ℤ
runner = record {
  settings = record {
    is_testnet = true;
    dry_run = true;
    imbalance_threshold = pos 100_000;
    max_spread_pct = units 1;
    min_depth_usdt = units 1;
    order_notional_usdt = units 100;
    max_inventory_usdt = units 1000;
    cooldown = 1;
    market_stale = 10;
    event_interval = 1;
    max_consecutive_losses = 2;
  };
  symbols = symbol ∷ [];
  books = (symbol, synced) ∷ [];
  signal_engine = engine;
  risk = manager;
  executor = executor;
  last_processed = [];
  marks = [];
  stopped = false;
}

abbrev halted_runner : HftRunner ℤ
halted_runner = record runner { risk = tripped }

abbrev times : Readings
times = record { received = 3; now = 4; traded = 5 }

process_depth_event-Explained_example :
    let named = upper (or_default update.event_symbol []) in
    let (status, b) = apply_event synced update 3 in
    Explained fixed-IsRounded
      (put_book runner named b)
      named
      b
      times
      status
      (process_depth_event runner update none times).reply
unfolding upper lookup
process_depth_event-Explained_example =
    process_depth_event-Explained fixed-IsRounded runner update none times (synced-IsBook, tt) refl

run_items-IsHalted_example :
    ((run_items halted_runner (depth update none times ∷ [])).fills ≡ [])
    × IsHalted (run_items halted_runner (depth update none times ∷ [])).runner
run_items-IsHalted_example =
    run_items-IsHalted halted_runner (depth update none times ∷ [])
      (record { halted = refl; exhausted = omega arith })

run_items-AreBooks_example : AreBooks (run_items runner (depth update none times ∷ [])).runner.books
run_items-AreBooks_example =
    run_items-AreBooks runner (depth update none times ∷ []) (synced-IsBook, tt)

check-IsCleared_example :
    IsCleared manager seller
      (units 0)
      (units 100)
      (check manager seller (units 0) (units 100) 4).quantity
      4
unfolding check guarded size allowable_notional fixed_mul fixed_div ◌+ℤ◌
check-IsCleared_example =
    check-IsCleared fixed-IsRounded manager seller (units 0) (units 100) 4 refl refl

abbrev losses : List (Recorded ℤ)
losses = (units 1, negsuc 5, 4) ∷ (units 1, units 0, 6) ∷ []

losing_run_halts_example :
    (record_fills manager losses).halted ≡ leb manager.max_consecutive_losses (length losses)
losing_run_halts_example =
    losing_run_halts manager losses refl refl (omega arith) ((refl, refl), ((refl, refl), tt))

record_fills_stay_halted_example : (record_fills tripped losses).halted ≡ true
record_fills_stay_halted_example = record_fills_stay_halted tripped losses refl

judge_action_example :
    (((judge engine quote).action ≡ buy) ↔ (
      IsTradable engine quote
      × ((engine.imbalance_threshold ≼ quote.imbalance) ≡ true)
      × ((quote.mid_price ≺ quote.microprice) ≡ true)))
    × (((judge engine quote).action ≡ sell) ↔ (
        IsTradable engine quote
        × ((quote.imbalance ≼ minus engine.imbalance_threshold) ≡ true)
        × ((quote.microprice ≺ quote.mid_price) ≡ true)))
judge_action_example = judge_action fixed-IsRounded engine quote

abbrev sold : HftFill ℤ
sold = fill_of executor seller (units 1)

Run-AreBooked_example : AreBooked executor (sold ∷ []) (book_fill executor sold)
Run-AreBooked_example =
    Run-AreBooked executor (sold ∷ []) (book_fill executor sold)
      (next seller (units 1) (execute_total executor seller (units 1) (λ h. cc) refl) done)

abbrev held : Position ℤ
held = record { quantity = units 2; average_entry = units 90 }

closed_of_bounds_example : IsSettled fixed-IsRounded held (minus (units 3)) (units 100)
closed_of_bounds_example = closed_of_bounds fixed-IsRounded held (minus (units 3)) (units 100)

average_of_flat_example : average_of held (minus (units 2)) (units 100) ≡ nought
unfolding ◌+ℤ◌
average_of_flat_example =
    average_of_flat fixed-IsRounded held (minus (units 2)) (units 100) refl refl

abbrev account : AccountState ℤ
account = record {
  equity = units 900;
  available_balance = units 800;
  realized_pnl_today = units 0;
  unrealized_pnl = units 0;
  fees_today = units 0;
  funding_today = units 0;
  day_start_equity = units 1000;
  high_water_mark = units 1100;
  total_margin_used = units 100;
}

losses_nonneg_example :
    ((nought ≼ daily_equity_loss_pct account) ≡ true) × ((nought ≼ drawdown_pct account) ≡ true)
losses_nonneg_example = losses_nonneg fixed-IsRounded account (record {
  equity_pos = refl;
  day_start_pos = refl;
  high_water_pos = refl;
  margin_nonneg = refl;
})
