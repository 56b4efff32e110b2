-- ===== src/Tests/Backtest.antt =====
-- A simulated position and the aggregation of candles on concrete inputs.
use ai_coinletgo.Prelude.{◌≡◌, ◌↔◌, refl, true, false, some, List, [], ◌∷◌, arith}
use ai_coinletgo.Prelude.Int.{ℤ, pos, int_eq}
use ai_coinletgo.Decimal.{nought}
use ai_coinletgo.Decimal.Fixed.{fixed, fixed-IsRounded}
use ai_coinletgo.Domain.Enums.{long, both, breakout_or_pullback}
use ai_coinletgo.Domain.Market.{Candle}
use ai_coinletgo.Backtest.Simulation.{SimPosition, BacktestConfig, Managed, new_position, manage}
use ai_coinletgo.Backtest.Lifecycle.{IsSim, IsKept}
use ai_coinletgo.Backtest.Life.{lived, manage-IsKept, lived-IsKept}
use ai_coinletgo.Backtest.Candles.{aggregate_candles}
use ai_coinletgo.Backtest.Aggregation.{IsAggregated, aggregate_candles-IsAggregated}
use ai_coinletgo.Tests.{units}
use ai_coinletgo.Tests.Screening.{candle}

abbrev config : BacktestConfig ℤ
config = record {
  initial_equity = units 1000;
  risk_pct = pos 250_000;
  stop_atr = pos 150_000_000;
  trailing_atr = pos 150_000_000;
  fee_rate = pos 50_000;
  slippage_rate = pos 50_000;
  estimated_funding_rate = pos 10_000;
  daily_loss_pct = pos 1_000_000;
  max_drawdown_pct = pos 5_000_000;
  portfolio_risk_pct = pos 750_000;
  max_leverage = 3;
  max_margin_pct = pos 20_000_000;
  max_positions = 3;
  max_same_direction = 2;
  correlation_limit = pos 80_000_000;
  candidate_count = 5;
  max_spread_pct = pos 150_000;
  max_abs_funding_rate = pos 100_000;
  max_abs_basis_pct = pos 1_000_000;
  min_book_depth_usdt = units 50_000;
  min_listing_days = 90;
  max_volatility_percentile = pos 99_000_000;
  entry_direction = both;
  entry_trigger = breakout_or_pullback;
  min_confidence = pos 75_000_000;
  min_net_reward_risk = pos 250_000_000;
  min_stop_atr = pos 80_000_000;
  max_stop_atr = pos 250_000_000;
  manual_exit_levels_enabled = false;
  manual_stop_atr = pos 180_000_000;
  manual_take_profit_atr = units 5;
  strong_trend_entry_override_enabled = false;
  strong_trend_adx_min = units 30;
  trend_adx_min = units 20;
  volatility_soft_limit_percentile = pos 75_000_000;
  volatility_hard_limit_percentile = pos 90_000_000;
  elevated_volatility_risk_multiplier = pos 75_000_000;
  high_volatility_risk_multiplier = pos 50_000_000;
}

-- Bought at a hundred, with the stop at ninety-eight and the targets at 101 and 104.
abbrev bought : SimPosition ℤ
bought =
    new_position long (units 10) (units 100) (units 98) (units 101) (units 104) (units 1) (units 0)

bought-IsSim : IsSim bought
bought-IsSim = record {
  remaining_nonneg = refl;
  remaining_le = refl;
  entry_nonneg = refl;
  hits = λ h. cc;
  guarded = λ h. refl;
}

manage-IsKept_example :
    IsKept bought (Managed.position (manage bought (candle 1) (units 1) config))
    × ((Managed.closed (manage bought (candle 1) (units 1) config) ≡ true) ↔ (
        SimPosition.remaining (Managed.position (manage bought (candle 1) (units 1) config))
        ≡ nought))
manage-IsKept_example =
    manage-IsKept fixed-IsRounded bought (candle 1) (units 1) config refl bought-IsSim

lived-IsKept_example :
    IsKept bought (lived bought config ((candle 1, units 1) ∷ (candle 2, units 1) ∷ []))
lived-IsKept_example =
    lived-IsKept fixed-IsRounded bought config ((candle 1, units 1) ∷ (candle 2, units 1) ∷ []) refl
      bought-IsSim

aggregate_candles-IsAggregated_example :
    (result : List (Candle ℤ)) × (aggregate_candles (candle 1 ∷ candle 2 ∷ candle 3 ∷ []) 2
      ≡ some result)
    × IsAggregated 2 (candle 1 ∷ candle 2 ∷ candle 3 ∷ []) result
aggregate_candles-IsAggregated_example =
    aggregate_candles-IsAggregated fixed-IsRounded (candle 1 ∷ candle 2 ∷ candle 3 ∷ []) 2
      (omega arith)
