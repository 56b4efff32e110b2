-- ===== src/Strategy/Pullback.antt =====
-- `pullback_signal` of strategy/indicators.py: a breakout, a retest of its level and a close back in the
-- direction of the trend.
use ai_coinletgo.Prelude.{
  ℕ, zero, suc, ◌+◌, ◌-◌, Bool, false, not, ◌&&◌, ◌||◌, Option, none, some, List, [], ◌∷◌,
  if◌then◌else◌, length, take, drop, any, ltb, leb, ◌==◌,
}
use ai_coinletgo.Decimal.{Decimal, ◌≼◌, ◌≺◌, nought, ◌⊕◌, ◌⊖◌, ◌⊗◌, min, max}
use ai_coinletgo.Domain.Enums.{Trend, down, level, up, trend_eq}
use ai_coinletgo.Domain.Market.{Candle}
use ai_coinletgo.Strategy.Indicators.{
  last_n, from_end, at, closes, ema, atr, highest_in, lowest_in, breaks_up, breaks_down,
}

module _ {D : Type 0} ⦃d : Decimal D⦄ where
  -- The twenty candles before an index that is no less than twenty.
  abbrev pub window_before : List (Candle D) → ℕ → List (Candle D)
  window_before candles index = drop (index - 20) (take index candles)

  abbrev pub breaks : Trend → Option (Candle D) → List (Candle D) → Bool
  breaks up (some candidate) previous = breaks_up candidate.close previous
  breaks down (some candidate) previous = breaks_down candidate.close previous
  breaks _ _ previous = false

  -- The last index of so many, from one on, at which a candle breaks its window.
  unfoldable pub breakout_index : List (Candle D) → Trend → ℕ → Option ℕ → ℕ → Option ℕ
  breakout_index candles trend index best zero = best
  breakout_index candles trend index best (suc n) =
      let found =
        if breaks trend (at index candles) (window_before candles index)
        then some index
        else best in
      breakout_index candles trend (suc index) found n

  abbrev pub breakout_level : Trend → List (Candle D) → Option D
  breakout_level trend [] = none
  breakout_level trend (x ∷ rest) =
      some (if trend == up then highest_in x.high rest else lowest_in x.low rest)

  abbrev pub lowest_close : D → List (Candle D) → D
  lowest_close best [] = best
  lowest_close best (x ∷ rest) = lowest_close (min best x.close) rest

  abbrev pub highest_close : D → List (Candle D) → D
  highest_close best [] = best
  highest_close best (x ∷ rest) = highest_close (max best x.close) rest

  -- Whether a candle of the retracement comes near the mean or the level.
  abbrev pub retests : D → D → D → Candle D → Bool
  retests ema20 price current_atr x =
      (x.low ≼ max ema20 price ⊕ current_atr ⊗ d.lit 35 2)
      && (min ema20 price ⊖ current_atr ⊗ d.lit 35 2 ≼ x.high)

  abbrev pub is_confirmed : Trend → Candle D → D → D → Bool
  is_confirmed up last ema20 price =
      (last.open_price ≺ last.close) && (ema20 ≺ last.close) && (price ≺ last.close)
  is_confirmed _ last ema20 price =
      (last.close ≺ last.open_price) && (last.close ≺ ema20) && (last.close ≺ price)

  abbrev pub is_invalidated : Trend → D → D → Candle D → List (Candle D) → Bool
  is_invalidated up price current_atr x rest =
      lowest_close x.close rest ≺ price ⊖ current_atr ⊗ d.lit 5 1
  is_invalidated _ price current_atr x rest =
      price ⊕ current_atr ⊗ d.lit 5 1 ≺ highest_close x.close rest

  -- From the level, the mean, the last candle and the retracement. The values that can be absent are
  -- there for thirty candles.
  unfoldable pub judge_retest :
      Trend → D → Option D → Option D → Option (Candle D) → List (Candle D) → Trend
  judge_retest trend current_atr (some price) (some ema20) (some last) (x ∷ rest) =
      if any (retests ema20 price current_atr) (x ∷ rest)
        && is_confirmed trend last ema20 price
        && not (is_invalidated trend price current_atr x rest)
      then trend
      else level
  judge_retest trend current_atr _ _ _ _ = level

  unfoldable pub judge_breakout : List (Candle D) → Trend → D → Option ℕ → Trend
  judge_breakout candles trend current_atr none = level
  judge_breakout candles trend current_atr (some index) =
      if leb (length candles - 1) index
      then level
      else judge_retest trend current_atr (breakout_level trend (window_before candles index))
          (from_end 0 (ema (closes candles) 20)) (from_end 0 candles)
          (drop (index + 1) (take (length candles - 1) candles))

  unfoldable pub pullback_signal : List (Candle D) → Trend → Trend
  pullback_signal candles trend =
      let current_atr = atr (last_n 50 candles) 14 in
      let start = if ltb 20 (length candles - 6) then length candles - 6 else 20 in
      if ltb (length candles) 30 || (trend == level)
      then level
      else if current_atr ≼ nought
      then level
      else judge_breakout candles trend current_atr
          (breakout_index candles trend start none (length candles - 1 - start))
