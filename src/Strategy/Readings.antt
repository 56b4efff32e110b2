-- ===== src/Strategy/Readings.antt =====
-- strategy/indicators.py: bounds and directions of what is read from candles.
use ai_coinletgo.Prelude.{
  ◌≡◌, refl, ◌⊎◌, arith, true, some, List, [], ◌∷◌, inl, inr, Bool-cases, length, take, All, leb,
}
use ai_coinletgo.Decimal.{Decimal, ◌≼◌, ◌≺◌, one, ◌⊖◌, abs, max, min}
use ai_coinletgo.Decimal.Laws.{
  IsRounded, le-max_left, le-max_right, min-le_left, min-le_right, le-lt_trans, lt-le_trans,
}
use ai_coinletgo.Domain.Enums.{Trend, down, level, up}
use ai_coinletgo.Domain.Market.{Candle}
use ai_coinletgo.Strategy.Indicators.{
  last_n, from_end, ranges_after, true_ranges, highest_in, lowest_in, breaks_up, breaks_down,
  breakout_at, donchian_breakout, volatility_risk_multiplier,
}

module _ {D : Type 0} ⦃d : Decimal D⦄ (laws : IsRounded D) where
  open laws use {le_refl, le_trans, le_total, lit_pos, div_nonneg}

  -- The true range of a candle after another: the widest of its own span and of how far its two ends
  -- are from where the other closed.
  pub record IsWidest (previous current : Candle D) (x : D) : Type 0 where
    pub span : (current.high ⊖ current.low ≼ x) ≡ true
    pub risen : (abs (current.high ⊖ previous.close) ≼ x) ≡ true
    pub fallen : (abs (current.low ⊖ previous.close) ≼ x) ≡ true
    pub reached :
        (x ≡ current.high ⊖ current.low)
        ⊎ ((x ≡ abs (current.high ⊖ previous.close)) ⊎ (x ≡ abs (current.low ⊖ previous.close)))

  abbrev pub AreRangesAfter : Candle D → List (Candle D) → List D → Type 0
  AreRangesAfter previous [] [] = Unit
  AreRangesAfter previous (current ∷ rest) (x ∷ xs) =
      IsWidest previous current x × AreRangesAfter current rest xs
  AreRangesAfter previous _ _ = ⊥

  -- One range for each candle, the first from its own span alone.
  abbrev pub AreRanges : List (Candle D) → List D → Type 0
  AreRanges [] [] = Unit
  AreRanges (first ∷ rest) (x ∷ xs) = (x ≡ first.high ⊖ first.low) × AreRangesAfter first rest xs
  AreRanges _ _ = ⊥

  max_reached :
      (a b c : D) → (max (max a b) c ≡ a) ⊎ ((max (max a b) c ≡ b) ⊎ (max (max a b) c ≡ c))
  max_reached a b c = ground arith

  true_range-IsWidest :
      (previous current : Candle D)
      → IsWidest previous current (
          max
            (max (current.high ⊖ current.low) (abs (current.high ⊖ previous.close)))
            (abs (current.low ⊖ previous.close)))
  true_range-IsWidest previous current =
      let span = current.high ⊖ current.low in
      let risen = abs (current.high ⊖ previous.close) in
      let fallen = abs (current.low ⊖ previous.close) in
      record {
        span =
            le_trans span (max span risen) _ (le-max_left laws span risen)
              (le-max_left laws (max span risen) fallen);
        risen =
            le_trans risen (max span risen) _ (le-max_right laws span risen)
              (le-max_left laws (max span risen) fallen);
        fallen = le-max_right laws (max span risen) fallen;
        reached = max_reached span risen fallen;
      }

  ranges_after-AreRangesAfter :
      (previous : Candle D) (rest : List (Candle D))
      → AreRangesAfter previous rest (ranges_after previous rest)
  ranges_after-AreRangesAfter previous [] = tt
  ranges_after-AreRangesAfter previous (current ∷ rest) =
      (true_range-IsWidest previous current, ranges_after-AreRangesAfter current rest)

  -- There is one true range for each candle. The first is the candle's own span; each of the others is
  -- the widest of the candle's span and of the distances of its high and its low from the close before it.
  pub true_ranges-AreRanges : (candles : List (Candle D)) → AreRanges candles (true_ranges candles)
  unfolding true_ranges
  true_ranges-AreRanges [] = tt
  true_ranges-AreRanges (first ∷ rest) = (refl, ranges_after-AreRangesAfter first rest)

  -- The more volatile the market, the less risk is taken: the multiplier never grows with the percentile,
  -- where the limits and the multipliers are in their order.
  pub volatility_risk_multiplier_anti :
      (p q soft hard elevated high : D)
      → (p ≼ q) ≡ true
      → (soft ≼ hard) ≡ true
      → (high ≼ elevated) ≡ true
      → (elevated ≼ one) ≡ true
      → (volatility_risk_multiplier q soft hard elevated high
          ≼ volatility_risk_multiplier p soft hard elevated high)
        ≡ true
  unfolding volatility_risk_multiplier
  volatility_risk_multiplier_anti p q soft hard elevated high rises limits low middle = ground (
    arith,
    le_refl high,
    le_refl elevated,
    le_refl one,
    le_trans high elevated one low middle,
    le_trans hard p q,
    le_trans q soft hard,
    le_trans p q soft rises,
  )

  pub highest_in_bounds :
      (best : D) (xs : List (Candle D))
      → ((best ≼ highest_in best xs) ≡ true)
        × All (λ (x : Candle D). (x.high ≼ highest_in best xs) ≡ true) xs
  highest_in_bounds best [] = (le_refl best, tt)
  highest_in_bounds best (x ∷ xs) =
      let top = max best x.high in
      let rest = highest_in_bounds top xs in
      (
        le_trans best top _ (le-max_left laws best x.high) rest.0,
        (le_trans x.high top _ (le-max_right laws best x.high) rest.0, rest.1),
      )

  pub lowest_in_bounds :
      (best : D) (xs : List (Candle D))
      → ((lowest_in best xs ≼ best) ≡ true)
        × All (λ (x : Candle D). (lowest_in best xs ≼ x.low) ≡ true) xs
  lowest_in_bounds best [] = (le_refl best, tt)
  lowest_in_bounds best (x ∷ xs) =
      let bottom = min best x.low in
      let rest = lowest_in_bounds bottom xs in
      (
        le_trans _ bottom best rest.0 (min-le_left laws best x.low),
        (le_trans _ bottom x.low rest.0 (min-le_right laws best x.low), rest.1),
      )

  below-All :
      (top close : D) (xs : List (Candle D))
      → (top ≺ close) ≡ true
      → All (λ (x : Candle D). (x.high ≼ top) ≡ true) xs
      → All (λ (x : Candle D). (x.high ≺ close) ≡ true) xs
  below-All top close [] h k = tt
  below-All top close (x ∷ xs) h k =
      (le-lt_trans laws x.high top close k.0 h, below-All top close xs h k.1)

  above-All :
      (bottom close : D) (xs : List (Candle D))
      → (close ≺ bottom) ≡ true
      → All (λ (x : Candle D). (bottom ≼ x.low) ≡ true) xs
      → All (λ (x : Candle D). (close ≺ x.low) ≡ true) xs
  above-All bottom close [] h k = tt
  above-All bottom close (x ∷ xs) h k =
      (lt-le_trans laws close bottom x.low h k.0, above-All bottom close xs h k.1)

  pub breaks_up-All :
      (close : D) (xs : List (Candle D))
      → breaks_up close xs ≡ true
      → All (λ (x : Candle D). (x.high ≺ close) ≡ true) xs
  breaks_up-All close [] h = tt
  breaks_up-All close (x ∷ xs) h =
      let bounds = highest_in_bounds x.high xs in
      below-All (highest_in x.high xs) close (x ∷ xs) h (bounds.0, bounds.1)

  pub breaks_down-All :
      (close : D) (xs : List (Candle D))
      → breaks_down close xs ≡ true
      → All (λ (x : Candle D). (close ≺ x.low) ≡ true) xs
  breaks_down-All close [] h = tt
  breaks_down-All close (x ∷ xs) h =
      let bounds = lowest_in_bounds x.low xs in
      above-All (lowest_in x.low xs) close (x ∷ xs) h (bounds.0, bounds.1)

  -- A breakout of a window by a candle.
  abbrev pub Breaks : Trend → List (Candle D) → Candle D → Type 0
  Breaks up window last = All (λ (x : Candle D). (x.high ≺ last.close) ≡ true) window
  Breaks down window last = All (λ (x : Candle D). (last.close ≺ x.low) ≡ true) window
  Breaks level window last = Unit

  breakout_at-Breaks :
      (window : List (Candle D)) (last : Candle D)
      → Breaks (breakout_at window (some last)) window last
  breakout_at-Breaks window last = elim (Bool-cases (breaks_up last.close window)) [
    | inl above ↦ rw above (breaks_up-All last.close window above)
    | inr inside ↦ rw inside (elim (Bool-cases (breaks_down last.close window)) [
      | inl below ↦ rw below (breaks_down-All last.close window below)
      | inr between ↦ rw between tt
    ])
  ]

  -- A breakout that is reported upward closes above the high of every one of the twenty candles before the
  -- last, and one downward below the low of every one.
  pub donchian_breakout-Breaks :
      (candles : List (Candle D)) (last : Candle D)
      → from_end 0 candles ≡ some last
      → Breaks (donchian_breakout candles) (take 20 (last_n 21 candles)) last
  unfolding donchian_breakout
  donchian_breakout-Breaks candles last ends = elim (Bool-cases (leb (length candles) 20)) [
    | inl few ↦ rw few tt
    | inr enough ↦ rw enough (rw ends (breakout_at-Breaks (take 20 (last_n 21 candles)) last))
  ]
