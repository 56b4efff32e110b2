-- ===== src/Risk/Preflight.antt =====
-- risk/engine.py: the checks of `RiskEngine` that come before any sizing, each with its reason.
use ai_coinletgo.Prelude.{
  Bool, true, false, not, ◌&&◌, ◌||◌, Option, none, some, List, [], ◌∷◌, ◌++◌, if◌then◌else◌, leb,
  ◌==◌, any, count, length,
}
use ai_coinletgo.Prelude.Text.{Text, text, text_eq}
use ai_coinletgo.Prelude.Dict.{Dict, lookup}
use ai_coinletgo.Decimal.{Decimal, ◌≼◌, ◌≺◌, nought, two, ◌⊕◌, ◌⊖◌, ◌⊘◌, abs, min, max}
use ai_coinletgo.Domain.Enums.{
  testnet, live_enabled, mode_eq, PositionSide, long, short, side_eq, SignalAction, no_trade,
  open_long, open_short, action_eq, trending, regime_eq, Trend, up, down, level, trend_eq,
  EntryDirection, both, long_only, short_only, EntryTrigger, breakout_or_pullback, breakout_only,
  pullback_only,
}
use ai_coinletgo.Domain.Market.{MarketSnapshot, mid_price}
use ai_coinletgo.Domain.Signal.{TradeSignal}
use ai_coinletgo.Domain.Account.{PositionState, daily_equity_loss_pct, drawdown_pct}
use ai_coinletgo.Domain.Limits.{
  RiskContext, RiskLimits, Reason, daily_loss_limit_reached, max_drawdown_reached,
  system_mode_disallows_entries, model_returned_no_trade, entry_direction_not_allowed,
  signal_expired, signal_snapshot_symbol_mismatch, confidence_below_minimum,
  market_regime_not_trending, trend_strength_below_minimum, trend_not_aligned,
  no_aligned_entry_trigger, invalid_volatility_risk_multiplier, position_count_limit_reached,
  same_direction_limit_reached, existing_symbol_position, correlation_data_missing, correlated_with,
  atr_invalid, stop_too_close, stop_too_far,
}

-- `if test: reasons.append(reason)`
abbrev pub note : Bool → Reason → List Reason
note true reason = reason ∷ []
note false reason = []

abbrev pub direction_of : SignalAction → Trend
direction_of open_long = up
direction_of _ = down

abbrev pub desired_side : SignalAction → PositionSide
desired_side open_long = long
desired_side _ = short

abbrev pub is_disallowed : EntryDirection → SignalAction → Bool
is_disallowed long_only action = action == open_short
is_disallowed short_only action = action == open_long
is_disallowed both action = false

module _ {D : Type 0} ⦃d : Decimal D⦄ where
  unfoldable pub check_circuit_breakers : RiskContext D → List Reason
  check_circuit_breakers c =
      note (c.limits.daily_loss_pct ≼ daily_equity_loss_pct c.account) daily_loss_limit_reached
      ++ note (c.limits.max_drawdown_pct ≼ drawdown_pct c.account) max_drawdown_reached

  unfoldable pub trend_matches_signal : TradeSignal D → MarketSnapshot D → Bool
  trend_matches_signal s m =
      (m.trend_1h == direction_of s.action) && (m.trend_4h == direction_of s.action)

  abbrev pub trigger_matches : EntryTrigger → MarketSnapshot D → Trend → Bool
  trigger_matches breakout_only m direction = m.breakout_15m == direction
  trigger_matches pullback_only m direction = m.pullback_15m == direction
  trigger_matches breakout_or_pullback m direction =
      (m.breakout_15m == direction) || (m.pullback_15m == direction)

  unfoldable pub configured_entry_trigger_matches :
      TradeSignal D → MarketSnapshot D → EntryTrigger → Bool
  configured_entry_trigger_matches s m trigger = trigger_matches trigger m (direction_of s.action)

  unfoldable pub strong_uptrend_override : TradeSignal D → MarketSnapshot D → RiskLimits D → Bool
  strong_uptrend_override s m l =
      (s.action == open_long)
      && l.strong_trend_entry_override_enabled
      && (m.market_regime == trending)
      && (m.trend_1h == up)
      && (m.trend_4h == up)
      && (l.strong_trend_adx_min ≼ m.adx_1h)

  unfoldable pub local_trend_continuation : TradeSignal D → MarketSnapshot D → RiskLimits D → Bool
  local_trend_continuation s m l =
      l.rule_based_strategy_enabled
      && any (λ flag. flag == text "MODEL_DISABLED") s.risk_flags
      && ((s.action == open_long) || (s.action == open_short))
      && (m.market_regime == trending)
      && not (m.trend_1h == level)
      && (m.trend_1h == m.trend_4h)
      && (l.trend_adx_min ≼ m.adx_1h)
      && (((s.action == open_long) && (m.trend_1h == up))
          || ((s.action == open_short) && (m.trend_1h == down)))

  abbrev pub entry_in : Option D → Option D → D → D
  entry_in (some lo) (some hi) mid =
      if (lo ≼ mid) && (mid ≼ hi) then min (max mid lo) hi else (lo ⊕ hi) ⊘ two
  entry_in _ _ mid = mid

  unfoldable pub entry_price : TradeSignal D → MarketSnapshot D → D
  entry_price s m = entry_in s.entry_min s.entry_max (mid_price m)

  -- The loop over the positions, which stops at the first reason.
  unfoldable pub correlation_reasons : Dict Text D → D → List (PositionState D) → List Reason
  correlation_reasons correlations limit [] = []
  correlation_reasons correlations limit (p ∷ rest) =
      let later = correlation_reasons correlations limit rest in
      elim (lookup p.symbol correlations) [
        | none ↦ correlation_data_missing p.symbol ∷ []
        | some k ↦ if limit ≺ abs k then correlated_with p.symbol ∷ [] else later
      ]

  -- The checks that only a model's primary portfolio is spared.
  unfoldable pub local_reasons : TradeSignal D → MarketSnapshot D → RiskLimits D → List Reason
  local_reasons s m l =
      let override = strong_uptrend_override s m l in
      note ((s.confidence ≺ l.min_confidence) && not override) confidence_below_minimum
      ++ note (not (m.market_regime == trending)) market_regime_not_trending
      ++ note (m.adx_1h ≺ l.trend_adx_min) trend_strength_below_minimum
      ++ note (not (trend_matches_signal s m)) trend_not_aligned
      ++ note
          (not (configured_entry_trigger_matches s m l.entry_trigger)
            && not override
            && not (local_trend_continuation s m l))
          no_aligned_entry_trigger

  -- The checks of the stop's distance, in units of the ATR.
  unfoldable pub stop_reasons : Option D → D → D → RiskLimits D → List Reason
  stop_reasons none entry atr l = []
  stop_reasons (some stop) entry atr l =
      if atr ≼ nought
      then atr_invalid ∷ []
      else (let stop_atr = abs (entry ⊖ stop) ⊘ atr in
          note (stop_atr ≺ l.min_stop_atr) stop_too_close
          ++ note (l.max_stop_atr ≺ stop_atr) stop_too_far)

  unfoldable pub preflight : TradeSignal D → MarketSnapshot D → RiskContext D → List Reason
  preflight s m c =
      check_circuit_breakers c
      ++ note (not ((c.mode == testnet) || (c.mode == live_enabled))) system_mode_disallows_entries
      ++ note (s.action == no_trade) model_returned_no_trade
      ++ note (is_disallowed c.limits.entry_direction s.action) entry_direction_not_allowed
      ++ note (leb s.expires_at m.timestamp) signal_expired
      ++ note (not (s.symbol == m.symbol)) signal_snapshot_symbol_mismatch
      ++ (if c.limits.model_primary_portfolio_enabled then [] else local_reasons s m c.limits)
      ++ note (m.volatility_risk_multiplier ≼ nought) invalid_volatility_risk_multiplier
      ++ note (leb c.limits.max_positions (length c.positions)) position_count_limit_reached
      ++ note
          (leb c.limits.max_same_direction
            (count (λ (p : PositionState D). p.side == desired_side s.action) c.positions))
          same_direction_limit_reached
      ++ note (any (λ (p : PositionState D). p.symbol == s.symbol) c.positions)
          existing_symbol_position
      ++ correlation_reasons c.correlations c.limits.correlation_limit c.positions
      ++ stop_reasons s.invalidation_price (entry_price s m) m.atr_15m c.limits
