-- ===== src/Strategy/ExitPolicy.antt =====
-- strategy/exit_policy.py: the stop and the targets of a position, and how its stop trails.
use ai_coinletgo.Prelude.{◌≡◌, true, List, [], ◌∷◌, if◌then◌else◌}
use ai_coinletgo.Prelude.Result.{Result, ok, err}
use ai_coinletgo.Decimal.{Decimal, ◌≼◌, ◌≺◌, nought, two, ◌⊕◌, ◌⊖◌, ◌⊗◌, ◌⊘◌, abs, min, max}
use ai_coinletgo.Decimal.Laws.{IsRounded, le-max_left, min-le_left}
use ai_coinletgo.Domain.Enums.{PositionSide, long, short}

-- The `ValueError`s of `first_take_profit`.
pub data TargetError : Type 0 where
  stop_distance_invalid long_target_not_above short_target_not_below : TargetError

-- What moves a trailing stop: the extremes since the entry, and the ATR.
pub record Reading (D : Type 0) : Type 0 where
  pub highest : D
  pub lowest : D
  pub atr : D

module _ {D : Type 0} ⦃d : Decimal D⦄ where
  unfoldable pub manual_atr_exit_prices : PositionSide → D → D → D → D → D → D × D
  manual_atr_exit_prices long entry_min entry_max atr stop_atr target_atr =
      (min (entry_min ⊖ atr ⊗ d.lit 1 2) (entry_max ⊖ atr ⊗ stop_atr), entry_max ⊕ atr ⊗ target_atr)
  manual_atr_exit_prices short entry_min entry_max atr stop_atr target_atr =
      (max (entry_max ⊕ atr ⊗ d.lit 1 2) (entry_min ⊕ atr ⊗ stop_atr), entry_min ⊖ atr ⊗ target_atr)

  -- `first_take_profit`, below its check of the stop.
  unfoldable pub target_at : D → D → D → PositionSide → Result TargetError D
  target_at risk entry final_target long =
      if final_target ≼ entry
      then err long_target_not_above
      else if entry ⊕ risk ≺ final_target
      then ok (entry ⊕ risk)
      else ok (entry ⊕ (final_target ⊖ entry) ⊘ two)
  target_at risk entry final_target short =
      if entry ≼ final_target
      then err short_target_not_below
      else if final_target ≺ entry ⊖ risk
      then ok (entry ⊖ risk)
      else ok (entry ⊕ (final_target ⊖ entry) ⊘ two)

  unfoldable pub first_take_profit : D → D → D → PositionSide → Result TargetError D
  unfolding target_at
  first_take_profit entry stop_price final_target side =
      let risk = abs (entry ⊖ stop_price) in
      if risk ≼ nought then err stop_distance_invalid else target_at risk entry final_target side

  unfoldable pub breakeven_stop : D → PositionSide → D → D
  breakeven_stop entry long fee_rate = entry ⊕ entry ⊗ fee_rate
  breakeven_stop entry short fee_rate = entry ⊖ entry ⊗ fee_rate

  unfoldable pub trailing_stop : D → PositionSide → Reading D → D → D
  trailing_stop current long r atr_multiple = max current (r.highest ⊖ r.atr ⊗ atr_multiple)
  trailing_stop current short r atr_multiple = min current (r.lowest ⊕ r.atr ⊗ atr_multiple)

  -- The stop after a run of readings.
  abbrev pub trailed : D → PositionSide → List (Reading D) → D → D
  trailed current side [] atr_multiple = current
  trailed current side (r ∷ rest) atr_multiple =
      trailed (trailing_stop current side r atr_multiple) side rest atr_multiple

  module _ (laws : IsRounded D) where
    -- The side that protects: a stop that is at least as tight as another.
    abbrev pub IsTighter : PositionSide → D → D → Type 0
    IsTighter long stop stop' = (stop ≼ stop') ≡ true
    IsTighter short stop stop' = (stop' ≼ stop) ≡ true

    -- Whatever the market does, and however often the stop is trailed, it never loosens: a long's
    -- stop never falls and a short's never rises.
    pub trailed-IsTighter :
        (stop : D) (side : PositionSide) (rs : List (Reading D)) (atr_multiple : D)
        → IsTighter side stop (trailed stop side rs atr_multiple)
    unfolding trailing_stop
    trailed-IsTighter stop long [] k = laws.le_refl stop
    trailed-IsTighter stop short [] k = laws.le_refl stop
    trailed-IsTighter stop long (r ∷ rest) k =
        laws.le_trans stop (trailing_stop stop long r k) _ (le-max_left laws stop _)
          (trailed-IsTighter (trailing_stop stop long r k) long rest k)
    trailed-IsTighter stop short (r ∷ rest) k =
        laws.le_trans _ (trailing_stop stop short r k) stop
          (trailed-IsTighter (trailing_stop stop short r k) short rest k) (min-le_left laws stop _)
