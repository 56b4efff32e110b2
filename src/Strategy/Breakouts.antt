-- ===== src/Strategy/Breakouts.antt =====
-- `pullback_signal` of strategy/indicators.py: the breakout, and what a pullback that is reported rests on.
use ai_coinletgo.Prelude.{ℕ, ◌≡◌, ◌+◌, ◌-◌, ◌≤◌, ◌<◌, true, some, List, length, take, drop}
use ai_coinletgo.Decimal.{Decimal, ◌≺◌, nought}
use ai_coinletgo.Decimal.Laws.{IsRounded}
use ai_coinletgo.Domain.Enums.{Trend, trend_eq}
use ai_coinletgo.Domain.Market.{Candle}
use ai_coinletgo.Strategy.Indicators.{last_n, from_end, at, closes, ema, atr}
use ai_coinletgo.Strategy.Pullback.{window_before, breakout_level}
use ai_coinletgo.Strategy.Readings.{Breaks}
use ai_coinletgo.Strategy.Retests.{Bounds, IsRetested}

module _ {D : Type 0} ⦃d : Decimal D⦄ (laws : IsRounded D) where
  -- A pullback: a candle among the last six that closes beyond the twenty before it, at an index past
  -- the twentieth, and a retest of the level that it broke.
  pub record IsPullback (candles : List (Candle D)) (trend : Trend) : Type 0 where
    pub enough : 30 ≤ length candles
    pub index : ℕ
    pub candidate : Candle D
    pub recent : length candles ≤ index + 6
    pub earlier : index + 1 < length candles
    pub broke_at : at index candles ≡ some candidate
    pub broke : Breaks laws trend (window_before candles index) candidate
    pub moves : (nought ≺ atr (last_n 50 candles) 14) ≡ true
    pub retested :
        IsRetested laws trend
          (atr (last_n 50 candles) 14)
          (breakout_level trend (window_before candles index))
          (from_end 0 (ema (closes candles) 20))
          (from_end 0 candles)
          (drop (index + 1) (take (length candles - 1) candles))
    pub bounded : Bounds laws trend retested.price_value (window_before candles index)
