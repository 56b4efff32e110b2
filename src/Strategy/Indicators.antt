-- ===== src/Strategy/Indicators.antt =====
-- strategy/indicators.py, and the measures of strategy/snapshot.py: what is computed from candles. The
-- indicators in floats are not here.
use ai_coinletgo.Prelude.{
  ℕ, zero, suc, ◌+◌, ◌-◌, Bool, false, not, ◌&&◌, Option, none, some, List, [], ◌∷◌, map,
  if◌then◌else◌, length, take, drop, count, ltb, leb, or_default, ◌==◌, nat_eq,
}
use ai_coinletgo.Decimal.{
  Decimal, ◌≼◌, ◌≺◌, same, nought, one, two, ◌⊕◌, ◌⊖◌, ◌⊗◌, ◌⊘◌, abs, min, max, sum,
}
use ai_coinletgo.Domain.Enums.{
  Trend, down, level, up, trend_eq, Regime, trending, ranging, volatile, uncertain,
}
use ai_coinletgo.Domain.Market.{Candle}

module _ {A : Type 0} where
  -- `xs[-n:]`, for an n that is not zero.
  abbrev pub last_n : ℕ → List A → List A
  last_n n xs = drop (length xs - n) xs

  -- `xs[-n - 1]`, where it is there.
  abbrev pub from_end : ℕ → List A → Option A
  from_end n xs = elim (last_n (suc n) xs) [
    | [] ↦ none
    | x ∷ rest ↦ if ltb n (length xs) then some x else none
  ]

  abbrev pub at : ℕ → List A → Option A
  at n xs = elim (drop n xs) [ [] ↦ none | x ∷ rest ↦ some x ]

module _ {D : Type 0} ⦃d : Decimal D⦄ where
  abbrev pub whole : ℕ → D
  whole n = d.lit n 0

  abbrev pub ema_from : D → D → List D → List D
  ema_from alpha last [] = []
  ema_from alpha last (value ∷ rest) =
      let next = value ⊗ alpha ⊕ last ⊗ (one ⊖ alpha) in next ∷ ema_from alpha next rest

  -- The period is not zero.
  unfoldable pub ema : List D → ℕ → List D
  ema [] period = []
  ema (value ∷ rest) period = value ∷ ema_from (two ⊘ whole (period + 1)) value rest

  abbrev pub closes : List (Candle D) → List D
  closes = map (λ (x : Candle D). x.close)

  abbrev pub true_range : Candle D → Candle D → D
  true_range previous current =
      max (max (current.high ⊖ current.low) (abs (current.high ⊖ previous.close)))
        (abs (current.low ⊖ previous.close))

  abbrev pub ranges_after : Candle D → List (Candle D) → List D
  ranges_after previous [] = []
  ranges_after previous (current ∷ rest) = true_range previous current ∷ ranges_after current rest

  unfoldable pub true_ranges : List (Candle D) → List D
  true_ranges [] = []
  true_ranges (first ∷ rest) = (first.high ⊖ first.low) ∷ ranges_after first rest

  abbrev pub mean_of : List D → D
  mean_of [] = nought
  mean_of (x ∷ rest) = sum (x ∷ rest) ⊘ whole (length (x ∷ rest))

  unfoldable pub atr : List (Candle D) → ℕ → D
  atr candles period = mean_of (last_n period (true_ranges candles))

  abbrev pub rise : Candle D → Candle D → D
  rise previous current = current.high ⊖ previous.high

  abbrev pub fall : Candle D → Candle D → D
  fall previous current = previous.low ⊖ current.low

  -- `plus_dm` and `minus_dm`
  abbrev pub plus_moves : Candle D → List (Candle D) → List D
  plus_moves previous [] = []
  plus_moves previous (current ∷ rest) =
      let gain = rise previous current in
      let loss = fall previous current in
      (if (loss ≺ gain) && (nought ≺ gain) then gain else nought) ∷ plus_moves current rest

  abbrev pub minus_moves : Candle D → List (Candle D) → List D
  minus_moves previous [] = []
  minus_moves previous (current ∷ rest) =
      let gain = rise previous current in
      let loss = fall previous current in
      (if (gain ≺ loss) && (nought ≺ loss) then loss else nought) ∷ minus_moves current rest

  -- From the sums of the moves and of the true ranges.
  unfoldable pub adx_of : D → D → D → D
  adx_of plus minus_sum tr_sum =
      let plus_di = whole 100 ⊗ plus ⊘ tr_sum in
      let minus_di = whole 100 ⊗ minus_sum ⊘ tr_sum in
      if same tr_sum nought
      then nought
      else if same (plus_di ⊕ minus_di) nought
      then nought
      else whole 100 ⊗ abs (plus_di ⊖ minus_di) ⊘ (plus_di ⊕ minus_di)

  unfoldable pub adx : List (Candle D) → ℕ → D
  adx [] period = nought
  adx (first ∷ rest) period =
      if leb (length (first ∷ rest)) period
      then nought
      else adx_of (sum (last_n period (plus_moves first rest)))
          (sum (last_n period (minus_moves first rest)))
          (sum (last_n period (ranges_after first rest)))

  abbrev pub direction_at : Option D → Option D → Option D → Trend
  direction_at (some fast) (some slow) (some before) =
      let slope = fast ⊖ before in
      if (slow ≺ fast) && (nought ≺ slope)
      then up
      else if (fast ≺ slow) && (slope ≺ nought)
      then down
      else level
  direction_at _ _ _ = level

  -- With the periods 20 and 50 that every call has; fifty candles have the values that are read.
  unfoldable pub trend_direction : List (Candle D) → Trend
  trend_direction candles =
      let fast = ema (closes candles) 20 in
      let slow = ema (closes candles) 50 in
      if ltb (length candles) 50
      then level
      else direction_at (from_end 0 fast) (from_end 0 slow) (from_end 3 fast)

  abbrev pub highest_in : D → List (Candle D) → D
  highest_in best [] = best
  highest_in best (x ∷ rest) = highest_in (max best x.high) rest

  abbrev pub lowest_in : D → List (Candle D) → D
  lowest_in best [] = best
  lowest_in best (x ∷ rest) = lowest_in (min best x.low) rest

  -- Whether a close is above, or below, every one of the candles before it.
  abbrev pub breaks_up : D → List (Candle D) → Bool
  breaks_up close [] = false
  breaks_up close (x ∷ rest) = highest_in x.high rest ≺ close

  abbrev pub breaks_down : D → List (Candle D) → Bool
  breaks_down close [] = false
  breaks_down close (x ∷ rest) = close ≺ lowest_in x.low rest

  abbrev pub breakout_at : List (Candle D) → Option (Candle D) → Trend
  breakout_at previous none = level
  breakout_at previous (some last) =
      if breaks_up last.close previous
      then up
      else if breaks_down last.close previous
      then down
      else level

  -- With the period 20 that every call has.
  unfoldable pub donchian_breakout : List (Candle D) → Trend
  donchian_breakout candles =
      if leb (length candles) 20
      then level
      else breakout_at (take 20 (last_n 21 candles)) (from_end 0 candles)

  unfoldable pub classify_market_regime : Trend → Trend → D → D → D → D → D → Regime
  classify_market_regime trend_1h trend_4h adx_1h percentile trend_adx_min soft hard =
      if hard ≼ percentile
      then volatile
      else if not (trend_1h == level) && (trend_1h == trend_4h) && (trend_adx_min ≼ adx_1h)
      then trending
      else if percentile ≼ soft
      then ranging
      else uncertain

  unfoldable pub volatility_risk_multiplier : D → D → D → D → D → D
  volatility_risk_multiplier percentile soft hard elevated high =
      if hard ≼ percentile then high else if soft ≺ percentile then elevated else one

  abbrev pub returns_after : Candle D → List (Candle D) → List D
  returns_after previous [] = []
  returns_after previous (current ∷ rest) =
      let later = returns_after current rest in
      if nought ≺ previous.close
      then (current.close ⊖ previous.close) ⊘ previous.close ∷ later
      else later

  unfoldable pub close_returns : List (Candle D) → List D
  close_returns [] = []
  close_returns (first ∷ rest) = returns_after first rest

  -- The ATR at every length from one on, of so many.
  abbrev pub samples : List (Candle D) → ℕ → ℕ → ℕ → List D
  samples candles period index zero = []
  samples candles period index (suc n) =
      atr (take index candles) period ∷ samples candles period (suc index) n

  unfoldable pub mid_rank : D → List D → D
  mid_rank current xs =
      (whole (count (λ x. x ≺ current) xs) ⊕ whole (count (λ x. same x current) xs) ⊘ two)
      ⊘ whole (length xs)

  -- With the period 14 that every call has.
  unfoldable pub volatility_percentile : List (Candle D) → D
  volatility_percentile candles =
      let values = samples candles 14 14 (length candles + 1 - 14) in
      if ltb (length candles) 28
      then d.lit 5 1
      else mid_rank (or_default (from_end 0 values) nought) values
