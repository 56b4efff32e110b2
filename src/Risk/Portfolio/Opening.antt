-- ===== src/Risk/Portfolio/Opening.antt =====
-- `_new_action` of risk/portfolio.py: a candidate without a position is opened, or rejected.
use ai_coinletgo.Prelude.{
  Bool, false, not, ◌&&◌, Option, none, some, List, [], ◌∷◌, ◌++◌, if◌then◌else◌, or_default, ◌==◌,
}
use ai_coinletgo.Prelude.Text.{Text, text}
use ai_coinletgo.Decimal.{Decimal, ◌≼◌, ◌≺◌, nought, ◌⊖◌, ◌⊗◌, ◌⊘◌, abs, round_down}
use ai_coinletgo.Domain.Enums.{trending, regime_eq}
use ai_coinletgo.Domain.Market.{MarketSnapshot}
use ai_coinletgo.Domain.Account.{ExchangeFilters}
use ai_coinletgo.Domain.Limits.{RiskLimits}
use ai_coinletgo.Domain.Portfolio.{
  PortfolioAllocation, PortfolioPlanAction, action_open, side_of_target,
}
use ai_coinletgo.Risk.Engine.{round_price, cap_quantity}
use ai_coinletgo.Risk.Portfolio.Pricing.{
  first_reason, direction_allowed, trend_matches_target, entry_trigger_matches,
  strong_target_override, risk_entry, valid_geometry, net_reward_risk, apply_manual_exit_levels,
  rejected_alone,
}
use ai_coinletgo.Risk.Portfolio.Existing.{RiskCaps, target_risk_of, noted}

module _ {D : Type 0} ⦃d : Decimal D⦄ where
  -- The distance of the stop, which a valid geometry has.
  abbrev pub stop_distance : PortfolioAllocation D → MarketSnapshot D → D
  stop_distance a m = abs (risk_entry a m ⊖ or_default a.stop_price nought)

  -- The checks of the allocation, its manual exits applied, in the order of the source.
  abbrev pub opening_tests :
      PortfolioAllocation D → MarketSnapshot D → RiskLimits D → List (Bool × Text)
  opening_tests a m l =
      let override = strong_target_override a m l in
      let primary = l.model_primary_portfolio_enabled in
      let matches = entry_trigger_matches a.target_side m l.entry_trigger in
      let stop_atr = stop_distance a m ⊘ m.atr_15m in
      (
        (a.confidence ≺ l.min_confidence) && not primary && not override,
        text "confidence_below_minimum",
      )
      ∷ (
        not (direction_allowed a.target_side l.entry_direction),
        text "entry_direction_not_allowed",
      )
      ∷ (not primary && not (trend_matches_target a.target_side m), text "trend_not_aligned")
      ∷ (not primary && not (m.market_regime == trending), text "market_regime_not_trending")
      ∷ (not primary && (m.adx_1h ≺ l.trend_adx_min), text "trend_strength_below_minimum")
      ∷ (m.volatility_risk_multiplier ≼ nought, text "invalid_volatility_risk_multiplier")
      ∷ (
        not primary && not matches && not (not matches && override),
        text "no_aligned_entry_trigger",
      )
      ∷ (not (valid_geometry a m false), text "invalid_price_geometry")
      ∷ (stop_atr ≺ l.min_stop_atr, text "stop_too_close")
      ∷ (l.max_stop_atr ≺ stop_atr, text "stop_too_far")
      ∷ (
        net_reward_risk (risk_entry a m) (or_default a.stop_price nought)
              (or_default a.target_price nought) m
            ≺ l.min_net_reward_risk,
        text "net_reward_risk_below_minimum",
      )
      ∷ []

  unfoldable pub opening_reason :
      PortfolioAllocation D → MarketSnapshot D → RiskLimits D → Option Text
  opening_reason a m l = first_reason (opening_tests a m l)

  abbrev pub rounded_limit : Option D → D → Option D
  rounded_limit none step = none
  rounded_limit (some top) step = some (round_price top step round_down)

  unfoldable pub opening_quantity :
      PortfolioAllocation D → MarketSnapshot D → ExchangeFilters D → RiskCaps D → D
  opening_quantity a m f caps =
      cap_quantity (rounded_limit f.max_quantity f.step_size)
        (round_price (target_risk_of a m caps ⊘ stop_distance a m) f.step_size round_down)

  abbrev pub opened :
      PortfolioAllocation D → MarketSnapshot D → RiskLimits D → D → PortfolioPlanAction D
  opened a m l quantity = record {
    allocation_id = a.allocation_id;
    symbol = a.symbol;
    action = action_open;
    side = side_of_target a.target_side;
    current_quantity = nought;
    target_quantity = quantity;
    quantity_delta = quantity;
    target_risk_usdt = quantity ⊗ stop_distance a m;
    entry_min = a.entry_min;
    entry_max = a.entry_max;
    stop_price = a.stop_price;
    target_price = a.target_price;
    confidence = a.confidence;
    priority = a.priority;
    action_sequence = 1;
    reasons =
        text "portfolio_target_approved"
        ∷ (noted l.model_primary_portfolio_enabled (text "model_primary_opportunity_accepted")
            ++ noted (strong_target_override a m l) (text "strong_trend_entry_override"));
  }

  -- From the checks' answer to the action.
  unfoldable pub unless_reason :
      PortfolioAllocation D
      → MarketSnapshot D
      → ExchangeFilters D
      → RiskCaps D
      → RiskLimits D
      → Option Text
      → PortfolioPlanAction D
  unless_reason a m f caps l (some reason) = rejected_alone a reason
  unless_reason a m f caps l none =
      let quantity = opening_quantity a m f caps in
      if quantity ≺ f.min_quantity
      then rejected_alone a (text "quantity_below_exchange_minimum")
      else if quantity ⊗ risk_entry a m ≺ f.min_notional
      then rejected_alone a (text "notional_below_exchange_minimum")
      else opened a m l quantity

  unfoldable pub new_action :
      PortfolioAllocation D
      → MarketSnapshot D
      → ExchangeFilters D
      → RiskCaps D
      → RiskLimits D
      → PortfolioPlanAction D
  new_action allocation m f caps l =
      let a = apply_manual_exit_levels allocation m l in
      unless_reason a m f caps l (opening_reason a m l)
