-- ===== src/Strategy/Retests.antt =====
-- `pullback_signal` of strategy/indicators.py: the retest of a level, and what follows it.
use mathlib.Core.List.{Memᴰ}
use ai_coinletgo.Prelude.{
  ◌≡◌, ◌≢◌, refl, inl, inr, Bool, true, false, not, ◌&&◌, Option, none, some, List, [], ◌∷◌, any,
  All, Bool-cases, arith,
}
use ai_coinletgo.Decimal.{Decimal, ◌≼◌, ◌≺◌, ◌⊕◌, ◌⊖◌, ◌⊗◌, min, max}
use ai_coinletgo.Decimal.Laws.{IsRounded, le-max_left, le-max_right, min-le_left, min-le_right}
use ai_coinletgo.Domain.Enums.{Trend, down, level, up, trend_eq}
use ai_coinletgo.Domain.Market.{Candle}
use ai_coinletgo.Strategy.Pullback.{
  lowest_close, highest_close, retests, is_confirmed, is_invalidated, judge_retest,
}

-- An element for which a search holds.
any-Memᴰ :
    {A : Type 0} (test : A → Bool) (xs : List A)
    → any test xs ≡ true
    → (x : A) × (Memᴰ x xs × (test x ≡ true))
any-Memᴰ test [] h = ground arith
any-Memᴰ test (x ∷ xs) h = elim (Bool-cases (test x)) [
  | inl found ↦ (x, (Memᴰ.head refl, found))
  | inr other ↦
      let (y, (later, found)) = any-Memᴰ test xs (ground arith) in (y, (Memᴰ.tail later, found))
]

module _ {D : Type 0} ⦃d : Decimal D⦄ (laws : IsRounded D) where
  open laws use {le_refl, le_trans}

  lowest_close_bounds :
      (best : D) (xs : List (Candle D))
      → ((lowest_close best xs ≼ best) ≡ true)
        × All (λ (x : Candle D). (lowest_close best xs ≼ x.close) ≡ true) xs
  lowest_close_bounds best [] = (le_refl best, tt)
  lowest_close_bounds best (x ∷ xs) =
      let low = min best x.close in
      let rest = lowest_close_bounds low xs in
      (
        le_trans _ low best rest.0 (min-le_left laws best x.close),
        (le_trans _ low x.close rest.0 (min-le_right laws best x.close), rest.1),
      )

  highest_close_bounds :
      (best : D) (xs : List (Candle D))
      → ((best ≼ highest_close best xs) ≡ true)
        × All (λ (x : Candle D). (x.close ≼ highest_close best xs) ≡ true) xs
  highest_close_bounds best [] = (le_refl best, tt)
  highest_close_bounds best (x ∷ xs) =
      let top = max best x.close in
      let rest = highest_close_bounds top xs in
      (
        le_trans best top _ (le-max_left laws best x.close) rest.0,
        (le_trans x.close top _ (le-max_right laws best x.close) rest.0, rest.1),
      )

  closes-above :
      (floor low : D) (xs : List (Candle D))
      → (floor ≼ low) ≡ true
      → All (λ (x : Candle D). (low ≼ x.close) ≡ true) xs
      → All (λ (x : Candle D). (floor ≼ x.close) ≡ true) xs
  closes-above floor low [] h k = tt
  closes-above floor low (x ∷ xs) h k =
      (le_trans floor low x.close h k.0, closes-above floor low xs h k.1)

  closes-below :
      (ceiling high : D) (xs : List (Candle D))
      → (high ≼ ceiling) ≡ true
      → All (λ (x : Candle D). (x.close ≼ high) ≡ true) xs
      → All (λ (x : Candle D). (x.close ≼ ceiling) ≡ true) xs
  closes-below ceiling high [] h k = tt
  closes-below ceiling high (x ∷ xs) h k =
      (le_trans x.close high ceiling k.0 h, closes-below ceiling high xs h k.1)

  -- A last candle that closes in the direction of the trend, beyond the mean and the level.
  abbrev pub Confirms : Trend → Candle D → D → D → Type 0
  Confirms up last mean price =
      ((last.open_price ≺ last.close) ≡ true)
      × ((mean ≺ last.close) ≡ true)
      × ((price ≺ last.close) ≡ true)
  Confirms down last mean price =
      ((last.close ≺ last.open_price) ≡ true)
      × ((last.close ≺ mean) ≡ true)
      × ((last.close ≺ price) ≡ true)
  Confirms level last mean price = ⊥

  -- No close falls back through the level by more than half the range.
  abbrev pub Stays : Trend → D → D → List (Candle D) → Type 0
  Stays up price range retrace =
      All (λ (x : Candle D). (price ⊖ range ⊗ d.lit 5 1 ≼ x.close) ≡ true) retrace
  Stays down price range retrace =
      All (λ (x : Candle D). (x.close ≼ price ⊕ range ⊗ d.lit 5 1) ≡ true) retrace
  Stays level price range retrace = ⊥

  -- The level is beyond every candle of the window.
  abbrev pub Bounds : Trend → D → List (Candle D) → Type 0
  Bounds up price window = All (λ (x : Candle D). (x.high ≼ price) ≡ true) window
  Bounds down price window = All (λ (x : Candle D). (price ≼ x.low) ≡ true) window
  Bounds level price window = ⊥

  pub record IsRetested (trend : Trend) (range : D) (price mean : Option D)
      (last : Option (Candle D)) (retrace : List (Candle D)) : Type 0 where
    pub price_value : D
    pub mean_value : D
    pub closing : Candle D
    pub touching : Candle D
    pub price_at : price ≡ some price_value
    pub mean_at : mean ≡ some mean_value
    pub closing_at : last ≡ some closing
    pub confirmed : Confirms trend closing mean_value price_value
    pub touched : Memᴰ touching retrace
    pub near_above : (touching.low ≼ max mean_value price_value ⊕ range ⊗ d.lit 35 2) ≡ true
    pub near_below : (min mean_value price_value ⊖ range ⊗ d.lit 35 2 ≼ touching.high) ≡ true
    pub stayed : Stays trend price_value range retrace

  is_confirmed-Confirms :
      (trend : Trend) (last : Candle D) (mean price : D)
      → trend ≢ level
      → is_confirmed trend last mean price ≡ true
      → Confirms trend last mean price
  is_confirmed-Confirms up last mean price ne h = (ground arith, ground arith, ground arith)
  is_confirmed-Confirms down last mean price ne h = (ground arith, ground arith, ground arith)
  is_confirmed-Confirms level last mean price ne h = absurd (ne refl)

  is_invalidated-Stays :
      (trend : Trend) (price range : D) (x : Candle D) (rest : List (Candle D))
      → trend ≢ level
      → is_invalidated trend price range x rest ≡ false
      → Stays trend price range (x ∷ rest)
  is_invalidated-Stays up price range x rest ne h =
      closes-above _ (lowest_close x.close rest) (x ∷ rest) (ground arith)
        (lowest_close_bounds x.close rest)
  is_invalidated-Stays down price range x rest ne h =
      closes-below _ (highest_close x.close rest) (x ∷ rest) (ground arith)
        (highest_close_bounds x.close rest)
  is_invalidated-Stays level price range x rest ne h = absurd (ne refl)

  pub judge_retest-IsRetested :
      (trend : Trend) (range : D) (price mean : Option D) (last : Option (Candle D))
      (retrace : List (Candle D))
      → trend ≢ level
      → judge_retest trend range price mean last retrace ≢ level
      → IsRetested trend range price mean last retrace
  unfolding judge_retest
  judge_retest-IsRetested trend range none mean last retrace ne h = absurd (h refl)
  judge_retest-IsRetested trend range (some price) none last retrace ne h = absurd (h refl)
  judge_retest-IsRetested trend range (some price) (some mean) none retrace ne h = absurd (h refl)
  judge_retest-IsRetested trend range (some price) (some mean) (some last) [] ne h = absurd (h refl)
  judge_retest-IsRetested trend range (some price) (some mean) (some last) (x ∷ rest) ne h =
      let near = any (retests mean price range) (x ∷ rest) in
      let sure = is_confirmed trend last mean price in
      let broken = is_invalidated trend price range x rest in
      elim (Bool-cases (near && sure && not broken)) [
        | inl holds ↦
            let (y, (among, touches)) =
              any-Memᴰ (retests mean price range) (x ∷ rest) (ground arith) in
            record {
              price_value = price;
              mean_value = mean;
              closing = last;
              touching = y;
              price_at = refl;
              mean_at = refl;
              closing_at = refl;
              confirmed = is_confirmed-Confirms trend last mean price ne (ground arith);
              touched = among;
              near_above = ground arith;
              near_below = ground arith;
              stayed = is_invalidated-Stays trend price range x rest ne (ground arith);
            }
        | inr fails ↦ absurd (h (rw fails refl))
      ]

  pub judge_retest_answer :
      (trend : Trend) (range : D) (price mean : Option D) (last : Option (Candle D))
      (retrace : List (Candle D))
      → judge_retest trend range price mean last retrace ≢ level
      → judge_retest trend range price mean last retrace ≡ trend
  unfolding judge_retest
  judge_retest_answer trend range none mean last retrace h = absurd (h refl)
  judge_retest_answer trend range (some price) none last retrace h = absurd (h refl)
  judge_retest_answer trend range (some price) (some mean) none retrace h = absurd (h refl)
  judge_retest_answer trend range (some price) (some mean) (some last) [] h = absurd (h refl)
  judge_retest_answer trend range (some price) (some mean) (some last) (x ∷ rest) h = ground arith
