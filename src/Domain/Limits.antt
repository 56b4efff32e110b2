-- ===== src/Domain/Limits.antt =====
-- `RiskLimits`, `RiskContext` and `RiskDecision` of domain/models.py.
use ai_coinletgo.Prelude.{ℕ, ◌≡◌, Bool, true, ◌&&◌, Option, none, some, List, if◌then◌else◌}
use ai_coinletgo.Prelude.Text.{Text}
use ai_coinletgo.Prelude.Dict.{Dict}
use ai_coinletgo.Decimal.{Decimal, ◌≺◌, nought, one}
use ai_coinletgo.Domain.Enums.{SystemMode, DecisionStatus, EntryDirection, EntryTrigger}
use ai_coinletgo.Domain.Account.{PositionState, AccountState, ExchangeFilters}

pub record RiskLimits (D : Type 0) : Type 0 where
  pub capital_limit_usdt : D
  pub single_trade_risk_pct : D
  pub portfolio_risk_pct : D
  pub daily_loss_pct : D
  pub max_drawdown_pct : D
  pub max_leverage : ℕ
  pub max_margin_pct : D
  pub max_positions : ℕ
  pub max_same_direction : ℕ
  pub correlation_limit : D
  pub min_stop_atr : D
  pub max_stop_atr : D
  pub manual_exit_levels_enabled : Bool
  pub manual_stop_atr : D
  pub manual_take_profit_atr : D
  pub model_primary_portfolio_enabled : Bool
  pub rule_based_strategy_enabled : Bool
  pub strong_trend_entry_override_enabled : Bool
  pub strong_trend_adx_min : D
  pub min_confidence : D
  pub min_net_reward_risk : D
  pub entry_direction : EntryDirection
  pub entry_trigger : EntryTrigger
  pub trend_adx_min : D
  pub volatility_soft_limit_percentile : D
  pub volatility_hard_limit_percentile : D
  pub elevated_volatility_risk_multiplier : D
  pub high_volatility_risk_multiplier : D
  pub portfolio_rebalance_deadband_fraction : D

-- The messages of the validator's `ValueError`s.
pub data LimitsError : Type 0 where
  stop_range_reversed manual_stop_too_wide soft_above_hard elevated_above_one : LimitsError
  high_above_one : LimitsError

pub record RiskContext (D : Type 0) : Type 0 where
  pub mode : SystemMode
  pub account : AccountState D
  pub positions : List (PositionState D)
  pub filters : ExchangeFilters D
  pub limits : RiskLimits D
  pub correlations : Dict Text D
  pub estimated_fee_rate : D
  pub estimated_slippage_rate : D

-- The entries of `RiskDecision.reasons`: the texts that the engine appends.
pub data Reason : Type 0 where
  daily_loss_limit_reached max_drawdown_reached : Reason
  system_mode_disallows_entries model_returned_no_trade entry_direction_not_allowed : Reason
  signal_expired signal_snapshot_symbol_mismatch confidence_below_minimum : Reason
  market_regime_not_trending trend_strength_below_minimum trend_not_aligned : Reason
  no_aligned_entry_trigger invalid_volatility_risk_multiplier position_count_limit_reached : Reason
  same_direction_limit_reached existing_symbol_position : Reason
  correlation_data_missing correlated_with : Text → Reason
  atr_invalid stop_too_close stop_too_far : Reason
  net_reward_risk_below_minimum portfolio_risk_capacity_exhausted : Reason
  quantity_below_exchange_minimum notional_below_exchange_minimum rounded_stop_invalid : Reason
  model_primary_opportunity_accepted local_trend_continuation strong_trend_entry_override : Reason
  all_hard_limits_passed : Reason

pub record RiskDecision (D : Type 0) : Type 0 where
  pub signal_id : Text
  pub status : DecisionStatus
  pub reasons : List Reason
  pub capital_base : D
  pub risk_amount_usdt : D
  pub quantity : D
  pub entry_price : D
  pub stop_price : D
  pub target_price : D
  pub leverage : ℕ
  pub estimated_margin : D
  pub net_reward_risk : D
  pub risk_multiplier : D

module _ {D : Type 0} ⦃d : Decimal D⦄ where
  -- `none` accepts the limits.
  unfoldable pub validate_stop_range : RiskLimits D → Option LimitsError
  validate_stop_range l =
      if l.max_stop_atr ≺ l.min_stop_atr
      then some stop_range_reversed
      else if l.manual_exit_levels_enabled && (l.max_stop_atr ≺ l.manual_stop_atr)
      then some manual_stop_too_wide
      else if l.volatility_hard_limit_percentile ≺ l.volatility_soft_limit_percentile
      then some soft_above_hard
      else if one ≺ l.elevated_volatility_risk_multiplier
      then some elevated_above_one
      else if one ≺ l.high_volatility_risk_multiplier
      then some high_above_one
      else none

  pub record IsLimits (l : RiskLimits D) : Type 0 where
    pub capital_pos : (nought ≺ l.capital_limit_usdt) ≡ true
    pub min_stop_pos : (nought ≺ l.min_stop_atr) ≡ true
    pub validated : validate_stop_range l ≡ none
