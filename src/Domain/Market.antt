-- ===== src/Domain/Market.antt =====
-- `FactorOverlay` and `MarketSnapshot` of domain/models.py, with the properties that compute.
use ai_coinletgo.Prelude.{ℕ, ◌≡◌, true, Option, none, some}
use ai_coinletgo.Prelude.Text.{Text}
use ai_coinletgo.Decimal.{Decimal, ◌≺◌, nought, one, two, ◌⊕◌, ◌⊖◌, ◌⊗◌, ◌⊘◌, min}
use ai_coinletgo.Domain.Enums.{PolicyStatus, active, shadow, fallback, disabled, Regime, Trend}

pub record FactorOverlay (D : Type 0) : Type 0 where
  pub research_run_id : Text
  pub policy_status : PolicyStatus
  pub baseline_score : D
  pub baseline_percentile : D
  pub factor_score : D
  pub factor_percentile : D
  pub combined_score : D
  pub factor_coverage : D
  pub risk_multiplier : D
  pub baseline_rank : ℕ
  pub factor_rank : ℕ
  pub combined_rank : ℕ

-- Instants are numbers, compared and never read otherwise.
pub record MarketSnapshot (D : Type 0) : Type 0 where
  pub symbol : Text
  pub timestamp : ℕ
  pub mark_price : D
  pub index_price : D
  pub best_bid : D
  pub best_ask : D
  pub spread_pct : D
  pub quote_volume_24h : D
  pub funding_rate : D
  pub basis_pct : D
  pub book_depth_usdt : D
  pub open_interest : D
  pub open_interest_change_pct : D
  pub atr_15m : D
  pub adx_1h : D
  pub trend_1h : Trend
  pub trend_4h : Trend
  pub breakout_15m : Trend
  pub pullback_15m : Trend
  pub volume_zscore : D
  pub volatility_percentile : D
  pub market_regime : Regime
  pub volatility_risk_multiplier : D
  pub listing_days : ℕ
  pub status : Text
  pub score : D
  pub factor_overlay : Option (FactorOverlay D)

module _ {D : Type 0} ⦃d : Decimal D⦄ where
  -- The `Field` constraints that the theorems use: the model cannot be built without them.
  pub record IsSnapshot (s : MarketSnapshot D) : Type 0 where
    pub bid_pos : (nought ≺ s.best_bid) ≡ true
    pub ask_pos : (nought ≺ s.best_ask) ≡ true
    pub atr_pos : (nought ≺ s.atr_15m) ≡ true
    pub multiplier_pos : (nought ≺ s.volatility_risk_multiplier) ≡ true

  unfoldable pub mid_price : MarketSnapshot D → D
  mid_price s = (s.best_bid ⊕ s.best_ask) ⊘ two

  -- The overlay's multiplier counts only while its policy is active.
  unfoldable pub factor_multiplier : Option (FactorOverlay D) → D
  factor_multiplier none = one
  factor_multiplier (some o) = elim o.policy_status [
    | active ↦ o.risk_multiplier
    | shadow ↦ one
    | fallback ↦ one
    | disabled ↦ one
  ]

  unfoldable pub effective_risk_multiplier : MarketSnapshot D → D
  effective_risk_multiplier s =
      s.volatility_risk_multiplier ⊗ min (factor_multiplier s.factor_overlay) one

-- `open` is the field's name in the source.
pub record Candle (D : Type 0) : Type 0 where
  pub open_time : ℕ
  pub close_time : ℕ
  pub open_price : D
  pub high : D
  pub low : D
  pub close : D
  pub volume : D

pub record UniverseSymbol (D : Type 0) : Type 0 where
  pub symbol : Text
  pub status : Text
  pub listing_days : ℕ
  pub quote_volume_24h : D
  pub best_bid : D
  pub best_ask : D
  pub mark_price : D
  pub index_price : D
  pub funding_rate : D

module _ {D : Type 0} ⦃d : Decimal D⦄ where
  -- `UniverseSymbol.spread_pct`
  unfoldable pub spread_of : UniverseSymbol D → D
  spread_of u = (u.best_ask ⊖ u.best_bid) ⊘ ((u.best_bid ⊕ u.best_ask) ⊘ two)
