-- ===== src/Tests/Risk.antt =====
-- The risk engine and the trailing stop on concrete inputs.
use ai_coinletgo.Prelude.{◌≡◌, refl, false, none, some, List, [], ◌∷◌, inl}
use ai_coinletgo.Prelude.Int.{ℤ, pos, int_eq, ◌+ℤ◌}
use ai_coinletgo.Prelude.Text.{text}
use ai_coinletgo.Decimal.{sum_from}
use ai_coinletgo.Decimal.Fixed.{fixed, fixed_mul, fixed_div, fixed_integral, fixed-IsRounded}
use ai_coinletgo.Domain.Enums.{
  approved, testnet, open_long, long, trending, up, level, both, breakout_or_pullback,
}
use ai_coinletgo.Domain.Market.{
  MarketSnapshot, mid_price, factor_multiplier, effective_risk_multiplier,
}
use ai_coinletgo.Domain.Signal.{TradeSignal}
use ai_coinletgo.Domain.Account.{AccountState, daily_equity_loss_pct, drawdown_pct}
use ai_coinletgo.Domain.Orders.{ExecutionIntent, validate_entry_guard, validate_take_profits}
use ai_coinletgo.Risk.Intents.{IsIntended, build_execution_intent-IsIntended}
use ai_coinletgo.Domain.Limits.{RiskDecision, all_hard_limits_passed}
use ai_coinletgo.Domain.Limits.{RiskLimits, RiskContext}
use ai_coinletgo.Risk.Preflight.{
  check_circuit_breakers, trend_matches_signal, configured_entry_trigger_matches,
  strong_uptrend_override, local_trend_continuation, entry_price, correlation_reasons,
  local_reasons, stop_reasons, preflight,
}
use ai_coinletgo.Risk.Engine.{
  approval_reasons, build_execution_intent, round_price, round_trip_cost, net_reward_risk_of,
  capital_base_of, available_risk, risk_amount_of, max_notional_of, first_quantity, below_minimum,
  final_quantity, settle_prices, assess, evaluate,
}
use ai_coinletgo.Risk.Limits.{
  IsWithinLimits, evaluate-IsWithinLimits, IsRefused, evaluate-IsRefused,
}
use ai_coinletgo.Strategy.ExitPolicy.{
  first_take_profit, target_at, Reading, trailed, IsTighter, trailed-IsTighter,
}
use ai_coinletgo.Tests.{units}

abbrev pub snapshot : MarketSnapshot ℤ
snapshot = record {
  symbol = text "BTCUSDT";
  timestamp = 10;
  mark_price = units 100;
  index_price = units 100;
  best_bid = units 100;
  best_ask = units 100;
  spread_pct = units 0;
  quote_volume_24h = units 1_000_000;
  funding_rate = units 0;
  basis_pct = units 0;
  book_depth_usdt = units 1000;
  open_interest = units 1000;
  open_interest_change_pct = units 0;
  atr_15m = units 1;
  adx_1h = units 30;
  trend_1h = up;
  trend_4h = up;
  breakout_15m = up;
  pullback_15m = level;
  volume_zscore = units 0;
  volatility_percentile = units 0;
  market_regime = trending;
  volatility_risk_multiplier = units 1;
  listing_days = 100;
  status = text "TRADING";
  score = units 1;
  factor_overlay = none;
}

abbrev signal : TradeSignal ℤ
signal = record {
  signal_id = text "1";
  symbol = text "BTCUSDT";
  action = open_long;
  confidence = units 1;
  entry_min = some (units 99);
  entry_max = some (units 101);
  invalidation_price = some (units 98);
  target_price = some (units 110);
  horizon_minutes = 480;
  reason_codes = [];
  risk_flags = [];
  expires_at = 1000;
}

abbrev pub account : AccountState ℤ
account = record {
  equity = units 1000;
  available_balance = units 1000;
  realized_pnl_today = units 0;
  unrealized_pnl = units 0;
  fees_today = units 0;
  funding_today = units 0;
  day_start_equity = units 1000;
  high_water_mark = units 1000;
  total_margin_used = units 0;
}

abbrev pub limits : RiskLimits ℤ
limits = record {
  capital_limit_usdt = units 1000;
  single_trade_risk_pct = pos 1_000_000;
  portfolio_risk_pct = pos 5_000_000;
  daily_loss_pct = pos 5_000_000;
  max_drawdown_pct = pos 10_000_000;
  max_leverage = 3;
  max_margin_pct = pos 50_000_000;
  max_positions = 3;
  max_same_direction = 2;
  correlation_limit = pos 80_000_000;
  min_stop_atr = units 1;
  max_stop_atr = units 3;
  manual_exit_levels_enabled = false;
  manual_stop_atr = units 2;
  manual_take_profit_atr = units 4;
  model_primary_portfolio_enabled = false;
  rule_based_strategy_enabled = false;
  strong_trend_entry_override_enabled = false;
  strong_trend_adx_min = units 40;
  min_confidence = pos 60_000_000;
  min_net_reward_risk = units 2;
  entry_direction = both;
  entry_trigger = breakout_or_pullback;
  trend_adx_min = units 20;
  volatility_soft_limit_percentile = pos 80_000_000;
  volatility_hard_limit_percentile = pos 95_000_000;
  elevated_volatility_risk_multiplier = pos 50_000_000;
  high_volatility_risk_multiplier = pos 25_000_000;
  portfolio_rebalance_deadband_fraction = pos 10_000_000;
}

abbrev pub context : RiskContext ℤ
context = record {
  mode = testnet;
  account = account;
  positions = [];
  filters = record {
    tick_size = pos 10_000_000;
    step_size = pos 100_000;
    min_quantity = pos 100_000;
    min_notional = units 5;
    max_quantity = some (units 1000);
    market_step_size = none;
    market_min_quantity = none;
    market_max_quantity = none;
  };
  limits = limits;
  correlations = [];
  estimated_fee_rate = pos 40_000;
  estimated_slippage_rate = pos 50_000;
}

abbrev losing_context : RiskContext ℤ
losing_context = record context { account = record account { equity = units 940 } }

evaluate-IsWithinLimits_example :
    IsWithinLimits fixed-IsRounded signal snapshot context (evaluate signal snapshot context)
unfolding evaluate preflight check_circuit_breakers local_reasons trend_matches_signal
    configured_entry_trigger_matches strong_uptrend_override local_trend_continuation
    correlation_reasons stop_reasons entry_price mid_price factor_multiplier
    effective_risk_multiplier daily_equity_loss_pct drawdown_pct round_price round_trip_cost
    net_reward_risk_of capital_base_of available_risk risk_amount_of max_notional_of first_quantity
    below_minimum final_quantity settle_prices assess fixed_mul fixed_div fixed_integral ◌+ℤ◌
    sum_from
evaluate-IsWithinLimits_example =
    evaluate-IsWithinLimits fixed-IsRounded signal snapshot context refl

evaluate-IsRefused_example : IsRefused fixed-IsRounded (evaluate signal snapshot losing_context)
unfolding daily_equity_loss_pct fixed_div ◌+ℤ◌
evaluate-IsRefused_example =
    evaluate-IsRefused fixed-IsRounded signal snapshot losing_context (inl refl)

abbrev readings : List (Reading ℤ)
readings =
    record { highest = units 110; lowest = units 99; atr = units 2 }
    ∷ record { highest = units 112; lowest = units 99; atr = units 5 }
    ∷ []

trailed-IsTighter_example :
    IsTighter fixed-IsRounded long (units 98) (trailed (units 98) long readings (pos 150_000_000))
trailed-IsTighter_example =
    trailed-IsTighter fixed-IsRounded (units 98) long readings (pos 150_000_000)

abbrev decided : RiskDecision ℤ
decided = record {
  signal_id = text "1";
  status = approved;
  reasons = all_hard_limits_passed ∷ [];
  capital_base = units 1000;
  risk_amount_usdt = units 10;
  quantity = units 5;
  entry_price = units 100;
  stop_price = units 98;
  target_price = units 110;
  leverage = 3;
  estimated_margin = pos 16_666_666_667;
  net_reward_risk = pos 463_380_282;
  risk_multiplier = units 1;
}

abbrev handed_on : ExecutionIntent ℤ
handed_on = record {
  intent_id = text "1";
  signal_id = text "1";
  symbol = text "BTCUSDT";
  side = long;
  quantity = units 5;
  limit_price = units 100;
  entry_min = units 99;
  entry_max = units 101;
  stop_price = units 98;
  tp1_price = some (units 102);
  tp2_price = units 110;
  trailing_atr_multiple = pos 150_000_000;
  leverage = 3;
  expires_at = 1000;
}

decided_by_engine : evaluate signal snapshot context ≡ decided
unfolding evaluate preflight check_circuit_breakers local_reasons trend_matches_signal
    configured_entry_trigger_matches strong_uptrend_override local_trend_continuation
    correlation_reasons stop_reasons entry_price mid_price factor_multiplier
    effective_risk_multiplier daily_equity_loss_pct drawdown_pct round_price round_trip_cost
    net_reward_risk_of capital_base_of available_risk risk_amount_of max_notional_of first_quantity
    below_minimum approval_reasons final_quantity settle_prices assess fixed_mul fixed_div
    fixed_integral ◌+ℤ◌ sum_from
decided_by_engine = refl

build_execution_intent-IsIntended_example :
    (decided.status ≡ approved) × IsIntended signal decided handed_on
unfolding build_execution_intent first_take_profit target_at validate_entry_guard
    validate_take_profits ◌+ℤ◌
build_execution_intent-IsIntended_example =
    build_execution_intent-IsIntended signal decided handed_on refl
