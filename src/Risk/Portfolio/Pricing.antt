-- ===== src/Risk/Portfolio/Pricing.antt =====
-- The static methods of risk/portfolio.py: tests of the market and prices of an allocation, and the
-- makers of actions.
use ai_coinletgo.Prelude.{
  Bool, true, false, not, ◌&&◌, ◌||◌, Option, none, some, List, [], ◌∷◌, if◌then◌else◌, or_default,
  ◌==◌,
}
use ai_coinletgo.Prelude.Text.{Text, text, text_eq}
use ai_coinletgo.Decimal.{Decimal, ◌≼◌, ◌≺◌, nought, two, ◌⊕◌, ◌⊖◌, ◌⊗◌, ◌⊘◌, abs, min, max}
use ai_coinletgo.Domain.Enums.{
  PositionSide, long, short, trending, regime_eq, up, down, trend_eq, EntryDirection, long_only,
  short_only, EntryTrigger,
}
use ai_coinletgo.Domain.Market.{MarketSnapshot, mid_price}
use ai_coinletgo.Domain.Account.{PositionState}
use ai_coinletgo.Domain.Limits.{RiskLimits}
use ai_coinletgo.Domain.Portfolio.{
  PortfolioTargetSide, target_long, target_short, target_flat, PortfolioPlanActionType,
  action_rejected, PortfolioAllocation, PortfolioPlanAction, side_of_target,
}
use ai_coinletgo.Strategy.ExitPolicy.{manual_atr_exit_prices}
use ai_coinletgo.Risk.Preflight.{trigger_matches}

abbrev pub is_none : {A : Type 0} → Option A → Bool
is_none none = true
is_none (some a) = false

-- A chain of `if test: return reason`: the first test that holds.
abbrev pub first_reason : List (Bool × Text) → Option Text
first_reason [] = none
first_reason ((test, reason) ∷ rest) = if test then some reason else first_reason rest

abbrev pub is_long_target : PortfolioTargetSide → Bool
is_long_target target_long = true
is_long_target _ = false

-- `_direction_allowed`
unfoldable pub direction_allowed : PortfolioTargetSide → EntryDirection → Bool
direction_allowed target_short long_only = false
direction_allowed target_long short_only = false
direction_allowed side direction = true

module _ {D : Type 0} ⦃d : Decimal D⦄ where
  unfoldable pub trend_matches_target : PortfolioTargetSide → MarketSnapshot D → Bool
  trend_matches_target target_long m = (m.trend_1h == up) && (m.trend_4h == up)
  trend_matches_target target_short m = (m.trend_1h == down) && (m.trend_4h == down)
  trend_matches_target target_flat m = false

  unfoldable pub entry_trigger_matches :
      PortfolioTargetSide → MarketSnapshot D → EntryTrigger → Bool
  entry_trigger_matches side m trigger =
      trigger_matches trigger m (if is_long_target side then up else down)

  unfoldable pub strong_target_override :
      PortfolioAllocation D → MarketSnapshot D → RiskLimits D → Bool
  strong_target_override a m l =
      is_long_target a.target_side
      && l.strong_trend_entry_override_enabled
      && (m.market_regime == trending)
      && (m.trend_1h == up)
      && (m.trend_4h == up)
      && (l.strong_trend_adx_min ≼ m.adx_1h)

  abbrev pub between : Option D → Option D → D → D
  between (some lo) (some hi) mid = if (lo ≼ mid) && (mid ≼ hi) then mid else (lo ⊕ hi) ⊘ two
  between _ _ mid = mid

  unfoldable pub allocation_entry : PortfolioAllocation D → MarketSnapshot D → D
  allocation_entry a m = between a.entry_min a.entry_max (mid_price m)

  abbrev pub worst_edge : PortfolioTargetSide → Option D → Option D → D → D
  worst_edge target_long (some lo) (some hi) mid = hi
  worst_edge target_short (some lo) (some hi) mid = lo
  worst_edge _ _ _ mid = mid

  -- `_risk_entry`: the edge of the range with the worst reward for its risk.
  unfoldable pub risk_entry : PortfolioAllocation D → MarketSnapshot D → D
  risk_entry a m = worst_edge a.target_side a.entry_min a.entry_max (mid_price m)

  abbrev pub beyond : PortfolioTargetSide → D → D → D → Bool
  beyond target_long stop entry target = (stop ≺ entry) && (entry ≺ target)
  beyond target_short stop entry target = (target ≺ entry) && (entry ≺ stop)
  beyond target_flat stop entry target = false

  abbrev pub priced_geometry : PortfolioTargetSide → D → D → Option D → Bool
  priced_geometry side stop entry none = false
  priced_geometry side stop entry (some target) = beyond side stop entry target

  unfoldable pub valid_geometry : PortfolioAllocation D → MarketSnapshot D → Bool → Bool
  valid_geometry a m allow_existing = elim a.stop_price [
    | none ↦ false
    | some stop ↦
        if is_none a.entry_min || is_none a.entry_max
        then allow_existing
        else priced_geometry a.target_side stop (allocation_entry a m) a.target_price
  ]

  abbrev pub kept_stop : PositionSide → D → D → D → Option D
  kept_stop long current mid proposed =
      if (proposed ≺ current) || (mid ≼ proposed) then none else some proposed
  kept_stop short current mid proposed =
      if (current ≺ proposed) || (proposed ≼ mid) then none else some proposed

  -- `_effective_stop`: never wider than the position's, never across the market.
  unfoldable pub effective_stop :
      PortfolioAllocation D → PositionState D → MarketSnapshot D → Option D
  effective_stop a p m = elim a.stop_price [
    | none ↦ some p.stop_price
    | some proposed ↦ kept_stop p.side p.stop_price (mid_price m) proposed
  ]

  abbrev pub target_error_at : PositionSide → D → D → Option Text
  target_error_at long target boundary =
      if target ≼ boundary then some (text "take_profit_target_not_beyond_tp1") else none
  target_error_at short target boundary =
      if boundary ≼ target then some (text "take_profit_target_not_beyond_tp1") else none

  unfoldable pub existing_target_error : PortfolioAllocation D → PositionState D → Option Text
  existing_target_error a p = elim a.target_price [
    | none ↦ some (text "take_profit_target_missing")
    | some target ↦ target_error_at p.side target (or_default p.tp1_price p.entry_price)
  ]

  -- `_estimated_round_trip_cost_rate`
  abbrev pub estimated_round_trip_cost_rate : D
  estimated_round_trip_cost_rate = d.lit 15 4

  -- `_net_reward_risk`, from the stop and the target that are asserted to be there.
  unfoldable pub net_reward_risk : D → D → D → MarketSnapshot D → D
  net_reward_risk entry stop target m =
      let costs = entry ⊗ estimated_round_trip_cost_rate in
      let funding = entry ⊗ abs m.funding_rate in
      max nought (abs (target ⊖ entry) ⊖ costs ⊖ funding) ⊘ (abs (entry ⊖ stop) ⊕ costs ⊕ funding)

  abbrev pub with_exits : PortfolioAllocation D → D × D → PortfolioAllocation D
  with_exits a (stop, target) =
      if (stop ≼ nought) || (target ≼ nought)
      then a
      else record a { stop_price = some stop; target_price = some target }

  abbrev pub manual_exits :
      PortfolioAllocation D
      → Option PositionSide
      → Option D
      → Option D
      → MarketSnapshot D
      → RiskLimits D
      → PortfolioAllocation D
  manual_exits a (some side) (some lo) (some hi) m l =
      if m.atr_15m ≼ nought
      then a
      else with_exits a
          (manual_atr_exit_prices side lo hi m.atr_15m l.manual_stop_atr l.manual_take_profit_atr)
  manual_exits a _ _ _ m l = a

  -- `_apply_manual_exit_levels`
  unfoldable pub apply_manual_exit_levels :
      PortfolioAllocation D → MarketSnapshot D → RiskLimits D → PortfolioAllocation D
  apply_manual_exit_levels a m l =
      if not l.manual_exit_levels_enabled
      then a
      else manual_exits a (side_of_target a.target_side) a.entry_min a.entry_max m l

  abbrev pub clamped : Option D → Option D → D → D
  clamped (some lo) (some hi) mid = min (max mid lo) hi
  clamped _ _ mid = mid

  -- `_reference_price`
  unfoldable pub reference_price : PortfolioPlanAction D → MarketSnapshot D → D
  reference_price action m = clamped action.entry_min action.entry_max (mid_price m)

  -- `_action`
  unfoldable pub position_action :
      PortfolioAllocation D
      → PortfolioPlanActionType
      → PositionState D
      → D
      → D
      → Option D
      → List Text
      → PortfolioPlanAction D
  position_action a kind p quantity risk stop reasons = record {
    allocation_id = a.allocation_id;
    symbol = p.symbol;
    action = kind;
    side = some p.side;
    current_quantity = p.quantity;
    target_quantity = quantity;
    quantity_delta = abs (quantity ⊖ p.quantity);
    target_risk_usdt = risk;
    entry_min = a.entry_min;
    entry_max = a.entry_max;
    stop_price = some (or_default stop p.stop_price);
    target_price = a.target_price;
    confidence = a.confidence;
    priority = a.priority;
    action_sequence = 1;
    reasons = reasons;
  }

  -- `_rejected`, with what it takes from a position or from the action that it rejects.
  unfoldable pub rejected_with :
      PortfolioAllocation D → Text → Option PositionSide → D → D → D → D → PortfolioPlanAction D
  rejected_with a reason side current quantity delta risk = record {
    allocation_id = a.allocation_id;
    symbol = a.symbol;
    action = action_rejected;
    side = side;
    current_quantity = current;
    target_quantity = quantity;
    quantity_delta = delta;
    target_risk_usdt = risk;
    entry_min = a.entry_min;
    entry_max = a.entry_max;
    stop_price = a.stop_price;
    target_price = a.target_price;
    confidence = a.confidence;
    priority = a.priority;
    action_sequence = 1;
    reasons = reason ∷ [];
  }

  abbrev pub rejected_alone : PortfolioAllocation D → Text → PortfolioPlanAction D
  rejected_alone a reason = rejected_with a reason none nought nought nought nought

  abbrev pub rejected_position :
      PortfolioAllocation D → Text → PositionState D → PortfolioPlanAction D
  rejected_position a reason p =
      rejected_with a reason (some p.side) p.quantity nought nought nought

  abbrev pub rejected_source :
      PortfolioAllocation D → Text → PortfolioPlanAction D → PortfolioPlanAction D
  rejected_source a reason x =
      rejected_with a reason x.side x.current_quantity x.target_quantity x.quantity_delta
        x.target_risk_usdt
