-- ===== src/Backtest/Candles.antt =====
-- `aggregate_candles` of backtest/engine.py: candles of a longer period, from whole groups of shorter ones.
use ai_coinletgo.Prelude.{
  ℕ, zero, suc, ◌/◌, Option, none, some, List, [], ◌∷◌, map, length, take, drop,
}
use ai_coinletgo.Decimal.{Decimal, max, min, sum}
use ai_coinletgo.Domain.Market.{Candle}

module _ {A : Type 0} where
  -- `candles[start : start + factor]` for each of so many starts.
  unfoldable pub groups : ℕ → ℕ → List A → List (List A)
  groups zero factor xs = []
  groups (suc n) factor xs = take factor xs ∷ groups n factor (drop factor xs)

  abbrev pub prepend : Option A → Option (List A) → Option (List A)
  prepend (some x) (some xs) = some (x ∷ xs)
  prepend _ _ = none

module _ {D : Type 0} ⦃d : Decimal D⦄ where
  abbrev pub highest_of : D → List (Candle D) → D
  highest_of best [] = best
  highest_of best (x ∷ rest) = highest_of (max best x.high) rest

  abbrev pub lowest_of : D → List (Candle D) → D
  lowest_of best [] = best
  lowest_of best (x ∷ rest) = lowest_of (min best x.low) rest

  abbrev pub last_of : Candle D → List (Candle D) → Candle D
  last_of x [] = x
  last_of x (y ∷ rest) = last_of y rest

  -- The candle of a group: `none` where the source would find no first element.
  unfoldable pub candle_of : List (Candle D) → Option (Candle D)
  candle_of [] = none
  candle_of (first ∷ rest) =
      let last = last_of first rest in
      some (record {
        open_time = first.open_time;
        close_time = last.close_time;
        open_price = first.open_price;
        high = highest_of first.high rest;
        low = lowest_of first.low rest;
        close = last.close;
        volume = sum (map (λ (x : Candle D). x.volume) (first ∷ rest));
      })

  abbrev pub candles_of : List (List (Candle D)) → Option (List (Candle D))
  candles_of [] = some []
  candles_of (g ∷ gs) = prepend (candle_of g) (candles_of gs)

  -- `none` for an `IndexError`. The factor is not zero, which would be a `ZeroDivisionError`.
  unfoldable pub aggregate_candles : List (Candle D) → ℕ → Option (List (Candle D))
  aggregate_candles candles factor = candles_of (groups (length candles / factor) factor candles)
