-- ===== src/Strategy/Screener.antt =====
-- strategy/screener.py: which markets are fit to be shown and traded, their score and their ranking.
use ai_coinletgo.Prelude.{
  ℕ, Bool, true, false, not, ◌&&◌, ◌||◌, Option, none, some, List, [], ◌∷◌, ◌++◌, map,
  if◌then◌else◌, take, keep, ◌==◌, ltb, nat_eq,
}
use ai_coinletgo.Prelude.Text.{Text, text, text_eq, text_ltb}
use ai_coinletgo.Prelude.Sorting.{sorted}
use ai_coinletgo.Decimal.{
  Decimal, ◌≼◌, ◌≺◌, same, nought, one, ◌⊕◌, ◌⊖◌, ◌⊗◌, ◌⊘◌, minus, abs, min, max,
}
use ai_coinletgo.Domain.Enums.{
  active, shadow, fallback, disabled, Regime, trending, volatile, uncertain, regime_eq, Trend,
  level, up, trend_eq, EntryTrigger, breakout_or_pullback, breakout_only, pullback_only,
}
use ai_coinletgo.Domain.Market.{FactorOverlay, MarketSnapshot}

pub record MarketScreener (D : Type 0) : Type 0 where
  pub max_spread_pct : D
  pub max_abs_funding_rate : D
  pub max_abs_basis_pct : D
  pub min_book_depth_usdt : D
  pub min_listing_days : ℕ
  pub max_volatility_percentile : D
  pub entry_trigger : EntryTrigger
  pub trend_adx_min : D
  pub model_primary_portfolio_enabled : Bool
  pub strong_trend_entry_override_enabled : Bool
  pub strong_trend_adx_min : D
  pub volatility_soft_limit_percentile : D
  pub volatility_hard_limit_percentile : D

-- `if test: reasons.append(reason)`, over a table.
abbrev pub reasons_of : List (Bool × Text) → List Text
reasons_of [] = []
reasons_of ((test, reason) ∷ rest) =
    let later = reasons_of rest in if test then reason ∷ later else later

abbrev pub is_empty : {A : Type 0} → List A → Bool
is_empty [] = true
is_empty (x ∷ rest) = false

-- The reasons that a model-led portfolio leaves out.
abbrev pub regime_reasons : Regime → List Text
regime_reasons volatile = text "volatile_regime" ∷ []
regime_reasons uncertain = text "uncertain_regime" ∷ []
regime_reasons _ = []

abbrev pub is_regime_reason : Text → Bool
is_regime_reason reason = (reason == text "volatile_regime") || (reason == text "uncertain_regime")

abbrev pub limited : {A : Type 0} → Option ℕ → List A → List A
limited none xs = xs
limited (some n) xs = take n xs

abbrev pub without_overlay : ℕ
without_overlay = 1_000_000

module _ {D : Type 0} where
  abbrev pub ranked_by : Option (FactorOverlay D) → ℕ
  ranked_by none = without_overlay
  ranked_by (some overlay) = elim overlay.policy_status [
    | active ↦ overlay.combined_rank
    | shadow ↦ without_overlay
    | fallback ↦ without_overlay
    | disabled ↦ without_overlay
  ]

  -- `triggers[self.entry_trigger]`
  unfoldable pub chosen_trigger : EntryTrigger → MarketSnapshot D → Trend
  chosen_trigger breakout_only m = m.breakout_15m
  chosen_trigger pullback_only m = m.pullback_15m
  chosen_trigger breakout_or_pullback m =
      if m.breakout_15m == m.trend_1h then m.breakout_15m else m.pullback_15m

module _ {D : Type 0} ⦃d : Decimal D⦄ where
  abbrev pub market_tests : MarketScreener D → MarketSnapshot D → List (Bool × Text)
  market_tests s m =
      (not (m.status == text "TRADING"), text "symbol_not_trading")
      ∷ (ltb m.listing_days s.min_listing_days, text "listing_too_recent")
      ∷ (s.max_spread_pct ≺ m.spread_pct, text "spread_too_wide")
      ∷ (s.max_abs_funding_rate ≺ abs m.funding_rate, text "funding_rate_abnormal")
      ∷ (s.max_abs_basis_pct ≺ abs m.basis_pct, text "basis_abnormal")
      ∷ (m.book_depth_usdt ≺ s.min_book_depth_usdt, text "insufficient_book_depth")
      ∷ (s.max_volatility_percentile ≺ m.volatility_percentile, text "extreme_volatility")
      ∷ []

  -- `_market_reasons`
  unfoldable pub market_reasons : MarketScreener D → MarketSnapshot D → List Text
  market_reasons s m = reasons_of (market_tests s m) ++ regime_reasons m.market_regime

  -- `_strong_uptrend_override`
  unfoldable pub screened_override : MarketScreener D → MarketSnapshot D → Bool
  screened_override s m =
      s.strong_trend_entry_override_enabled
      && (m.market_regime == trending)
      && (m.trend_1h == up)
      && (m.trend_4h == up)
      && (s.strong_trend_adx_min ≼ m.adx_1h)

  abbrev pub setup_tests : MarketScreener D → MarketSnapshot D → List (Bool × Text)
  setup_tests s m =
      let trigger = chosen_trigger s.entry_trigger m in
      ((m.trend_1h == level) || not (m.trend_1h == m.trend_4h), text "trend_not_aligned")
      ∷ (m.adx_1h ≺ s.trend_adx_min, text "trend_strength_below_minimum")
      ∷ (not (m.market_regime == trending), text "market_regime_not_trending")
      ∷ (
        ((trigger == level) || not (trigger == m.trend_1h)) && not (screened_override s m),
        text "no_aligned_entry_trigger",
      )
      ∷ []

  -- `_setup_reasons`
  unfoldable pub setup_reasons : MarketScreener D → MarketSnapshot D → List Text
  setup_reasons s m = reasons_of (setup_tests s m)

  unfoldable pub eligible : MarketScreener D → MarketSnapshot D → Bool × List Text
  eligible s m =
      let reasons = market_reasons s m ++ setup_reasons s m in (is_empty reasons, reasons)

  unfoldable pub portfolio_eligible : MarketScreener D → MarketSnapshot D → Bool
  portfolio_eligible s m =
      let reasons = market_reasons s m in
      is_empty (
        if s.model_primary_portfolio_enabled
        then keep (λ reason. not (is_regime_reason reason)) reasons
        else reasons)

  unfoldable pub score : MarketScreener D → MarketSnapshot D → D
  score s m =
      let trend_score =
        if (m.trend_1h == m.trend_4h) && not (m.trend_4h == level) then one else nought in
      let trigger_score =
        if (chosen_trigger s.entry_trigger m == m.trend_1h) || screened_override s m
        then one
        else nought in
      let adx_score = min (m.adx_1h ⊘ d.lit 40 0) one in
      let volume_score = max nought (min ((m.volume_zscore ⊕ one) ⊘ d.lit 3 0) one) in
      let oi_score = max nought (min (abs m.open_interest_change_pct ⊘ d.lit 5 2) one) in
      let cost_score = max nought (one ⊖ m.spread_pct ⊘ s.max_spread_pct) in
      let volatility_score = one ⊖ abs (m.volatility_percentile ⊖ d.lit 6 1) in
      trend_score ⊗ d.lit 25 2
      ⊕ trigger_score ⊗ d.lit 20 2
      ⊕ adx_score ⊗ d.lit 15 2
      ⊕ volume_score ⊗ d.lit 15 2
      ⊕ oi_score ⊗ d.lit 10 2
      ⊕ cost_score ⊗ d.lit 10 2
      ⊕ volatility_score ⊗ d.lit 5 2

  -- The key `_ranking_key`: whether the left one is the smaller.
  unfoldable pub ranks_before : MarketSnapshot D → MarketSnapshot D → Bool
  ranks_before a b =
      ltb (ranked_by a.factor_overlay) (ranked_by b.factor_overlay)
      || ((ranked_by a.factor_overlay == ranked_by b.factor_overlay)
          && ((minus a.score ≺ minus b.score)
              || (same (minus a.score) (minus b.score) && text_ltb a.symbol b.symbol)))

  abbrev pub may_rank : MarketSnapshot D → MarketSnapshot D → Bool
  may_rank a b = not (ranks_before b a)

  abbrev pub scored : MarketScreener D → MarketSnapshot D → MarketSnapshot D
  scored s m = record m { score = score s m }

  unfoldable pub rank : MarketScreener D → List (MarketSnapshot D) → ℕ → List (MarketSnapshot D)
  rank s snapshots limit =
      take limit (sorted may_rank (map (scored s) (keep (λ m. (eligible s m).0) snapshots)))

  unfoldable pub rank_portfolio :
      MarketScreener D → List (MarketSnapshot D) → Option ℕ → List (MarketSnapshot D)
  rank_portfolio s snapshots limit =
      limited limit (sorted may_rank (map (scored s) (keep (portfolio_eligible s) snapshots)))
