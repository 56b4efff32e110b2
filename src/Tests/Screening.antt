-- ===== src/Tests/Screening.antt =====
-- The screener, the indicators and the rules on concrete markets.
use ai_coinletgo.Prelude.{ℕ, ◌≡◌, refl, ◌++◌, true, false, none, List, [], ◌∷◌, take}
use ai_coinletgo.Prelude.Int.{ℤ, pos, int_eq}
use ai_coinletgo.Prelude.Text.{text}
use ai_coinletgo.Decimal.{◌≼◌}
use ai_coinletgo.Decimal.Fixed.{fixed, fixed-IsRounded}
use ai_coinletgo.Domain.Enums.{both, breakout_or_pullback}
use ai_coinletgo.Domain.Market.{Candle, UniverseSymbol}
use ai_coinletgo.Strategy.Indicators.{
  last_n, true_ranges, donchian_breakout, volatility_risk_multiplier,
}
use ai_coinletgo.Strategy.Readings.{
  Breaks, AreRanges, true_ranges-AreRanges, volatility_risk_multiplier_anti,
  donchian_breakout-Breaks,
}
use ai_coinletgo.Strategy.Snapshot.{
  Thresholds, snapshot_at, build_snapshot, IsAnswered, build_snapshot-IsCoherent,
}
use ai_coinletgo.Strategy.Screener.{MarketScreener, rank}
use ai_coinletgo.Strategy.Ranking.{IsRanking, rank-IsRanking}
use ai_coinletgo.Strategy.RuleBased.{RuleSettings}
use ai_coinletgo.Tests.{units}
use ai_coinletgo.Tests.Risk.{snapshot}

abbrev pub candle : ℕ → Candle ℤ
candle n = record {
  open_time = n;
  close_time = n;
  open_price = units 100;
  high = units 101;
  low = units 99;
  close = units 100;
  volume = units 5;
}

abbrev breakout : Candle ℤ
breakout = record (candle 21) { high = units 104; close = units 103 }

abbrev window : List (Candle ℤ)
window =
    candle 1
    ∷ candle 2
    ∷ candle 3
    ∷ candle 4
    ∷ candle 5
    ∷ candle 6
    ∷ candle 7
    ∷ candle 8
    ∷ candle 9
    ∷ candle 10
    ∷ candle 11
    ∷ candle 12
    ∷ candle 13
    ∷ candle 14
    ∷ candle 15
    ∷ candle 16
    ∷ candle 17
    ∷ candle 18
    ∷ candle 19
    ∷ candle 20
    ∷ breakout
    ∷ []

abbrev screener : MarketScreener ℤ
screener = record {
  max_spread_pct = pos 150_000;
  max_abs_funding_rate = pos 100_000;
  max_abs_basis_pct = pos 1_000_000;
  min_book_depth_usdt = units 500;
  min_listing_days = 90;
  max_volatility_percentile = pos 99_000_000;
  entry_trigger = breakout_or_pullback;
  trend_adx_min = units 20;
  model_primary_portfolio_enabled = false;
  strong_trend_entry_override_enabled = false;
  strong_trend_adx_min = units 30;
  volatility_soft_limit_percentile = pos 75_000_000;
  volatility_hard_limit_percentile = pos 90_000_000;
}

abbrev settings : RuleSettings ℤ
settings = record {
  min_listing_days = 90;
  max_spread_pct = pos 150_000;
  max_abs_funding_rate = pos 100_000;
  max_abs_basis_pct = pos 1_000_000;
  min_book_depth_usdt = units 500;
  volatility_hard_limit_percentile = pos 90_000_000;
  trend_adx_min = units 20;
  strong_trend_adx_min = units 30;
  entry_direction = both;
  entry_trigger = breakout_or_pullback;
  model_strategy_enabled = false;
  min_stop_atr = pos 80_000_000;
  manual_stop_atr = pos 180_000_000;
  manual_take_profit_atr = units 5;
  manual_exit_levels_enabled = false;
  min_net_reward_risk = units 2;
  min_confidence = pos 75_000_000;
}

donchian_breakout-Breaks_example :
    Breaks fixed-IsRounded (donchian_breakout window) (take 20 (last_n 21 window)) breakout
donchian_breakout-Breaks_example = donchian_breakout-Breaks fixed-IsRounded window breakout refl

true_ranges-AreRanges_example :
    AreRanges fixed-IsRounded (candle 1 ∷ breakout ∷ []) (true_ranges (candle 1 ∷ breakout ∷ []))
true_ranges-AreRanges_example = true_ranges-AreRanges fixed-IsRounded (candle 1 ∷ breakout ∷ [])

volatility_risk_multiplier_anti_example :
    (volatility_risk_multiplier
        (pos 95_000_000)
        (pos 75_000_000)
        (pos 90_000_000)
        (pos 75_000_000)
        (pos 50_000_000)
      ≼ volatility_risk_multiplier
          (pos 80_000_000)
          (pos 75_000_000)
          (pos 90_000_000)
          (pos 75_000_000)
          (pos 50_000_000))
    ≡ true
volatility_risk_multiplier_anti_example =
    volatility_risk_multiplier_anti fixed-IsRounded (pos 80_000_000) (pos 95_000_000)
      (pos 75_000_000) (pos 90_000_000) (pos 75_000_000) (pos 50_000_000) refl refl refl refl

rank-IsRanking_example : IsRanking screener (snapshot ∷ []) 5 (rank screener (snapshot ∷ []) 5)
rank-IsRanking_example = rank-IsRanking fixed-IsRounded screener (snapshot ∷ []) 5

abbrev universe : UniverseSymbol ℤ
universe = record {
  symbol = text "BTCUSDT";
  status = text "TRADING";
  listing_days = 100;
  quote_volume_24h = units 1_000_000;
  best_bid = units 99;
  best_ask = units 101;
  mark_price = units 100;
  index_price = units 100;
  funding_rate = units 0;
}

abbrev thresholds : Thresholds ℤ
thresholds = record {
  trend_adx_min = units 20;
  volatility_soft_limit_percentile = pos 75_000_000;
  volatility_hard_limit_percentile = pos 90_000_000;
  elevated_volatility_risk_multiplier = pos 75_000_000;
  high_volatility_risk_multiplier = pos 50_000_000;
}

build_snapshot-IsCoherent_example :
    IsAnswered universe window thresholds
      (snapshot_at universe window window window
        (units 5)
        none
        (units 1000)
        thresholds
        21
        (units 0))
      (build_snapshot universe window window window
        (units 5)
        none
        (units 1000)
        thresholds
        (units 0))
build_snapshot-IsCoherent_example =
    build_snapshot-IsCoherent universe window window window (units 5) none (units 1000) thresholds
      (units 0) breakout refl

abbrev retrace : ℕ → Candle ℤ
retrace n = record (candle n) { high = units 103; low = units 100; close = units 102 }

-- Twenty-five level candles, a breakout, three candles back towards its level, and a close away from it.
abbrev rally : List (Candle ℤ)
rally =
    take 20 window
    ++ candle 21
      ∷ candle 22
      ∷ candle 23
      ∷ candle 24
      ∷ candle 25
      ∷ record breakout { open_time = 26; close_time = 26 }
      ∷ retrace 27
      ∷ retrace 28
      ∷ retrace 29
      ∷ record breakout { open_time = 30; close_time = 30 }
      ∷ []
