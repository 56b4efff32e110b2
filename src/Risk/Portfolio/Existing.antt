-- ===== src/Risk/Portfolio/Existing.antt =====
-- `_existing_action` of risk/portfolio.py: what becomes of a position that is held.
use ai_coinletgo.Prelude.{
  Bool, true, false, not, ◌&&◌, ◌||◌, Option, none, some, List, [], ◌∷◌, ◌++◌, if◌then◌else◌, ◌==◌,
}
use ai_coinletgo.Prelude.Text.{Text, text}
use ai_coinletgo.Decimal.{Decimal, ◌≼◌, ◌≺◌, same, nought, ◌⊖◌, ◌⊗◌, ◌⊘◌, abs, min, round_down}
use ai_coinletgo.Domain.Enums.{PositionSide, side_eq}
use ai_coinletgo.Domain.Market.{MarketSnapshot, mid_price, effective_risk_multiplier}
use ai_coinletgo.Domain.Account.{PositionState, ExchangeFilters}
use ai_coinletgo.Domain.Limits.{RiskLimits}
use ai_coinletgo.Domain.Portfolio.{
  PortfolioAllocation, PortfolioPlanAction, action_close, action_reduce, action_add, action_hold,
  action_tighten_stop, side_of_target,
}
use ai_coinletgo.Risk.Engine.{round_price, cap_quantity}
use ai_coinletgo.Risk.Portfolio.Pricing.{
  effective_stop, existing_target_error, position_action, rejected_position,
}

abbrev pub noted : Bool → Text → List Text
noted true reason = reason ∷ []
noted false reason = []

-- The caps of one compilation: of the plan's risk and of a single trade's.
pub record RiskCaps (D : Type 0) : Type 0 where
  pub risk_cap : D
  pub single_trade_risk_cap : D

module _ {D : Type 0} ⦃d : Decimal D⦄ where
  -- The risk that the allocation asks for, at most a single trade's.
  unfoldable pub target_risk_of : PortfolioAllocation D → MarketSnapshot D → RiskCaps D → D
  target_risk_of a m caps =
      min (caps.risk_cap ⊗ a.allocation_fraction ⊗ effective_risk_multiplier m)
        caps.single_trade_risk_cap

  abbrev pub is_new_target : PortfolioAllocation D → PositionState D → Bool
  is_new_target a p = elim a.target_price [
    | none ↦ false
    | some target ↦ elim p.tp2_price [ none ↦ true | some current ↦ not (same target current) ]
  ]

  abbrev pub with_target : Bool → PortfolioAllocation D → PositionState D → PortfolioAllocation D
  with_target true a p = record a { target_price = p.tp2_price }
  with_target false a p = a

  -- From the target's error, whose target is then ignored, to the action. The arguments are the stop,
  -- its distance, the target's risk and quantity, and whether the target is in error.
  unfoldable pub rebalance :
      PortfolioAllocation D
      → PositionState D
      → RiskCaps D
      → RiskLimits D
      → D
      → D
      → D
      → D
      → Bool
      → PortfolioPlanAction D
  rebalance a p caps l stop distance risk quantity ignored =
      let current = p.initial_risk_usdt in
      let deadband = caps.risk_cap ⊗ l.portfolio_rebalance_deadband_fraction in
      let tighten = not (same stop p.stop_price) in
      let effective = with_target ignored a p in
      let ignored_reasons = noted ignored (text "take_profit_target_not_beyond_tp1_ignored") in
      let changed = not ignored && is_new_target a p in
      let updates =
        noted tighten (text "hard_stop_tightened")
        ++ noted changed (text "take_profit_updated")
        ++ ignored_reasons in
      if (caps.single_trade_risk_cap ≺ current) && (p.quantity ≼ quantity)
      then position_action effective
          (if tighten || changed then action_tighten_stop else action_hold) p p.quantity
          (min current (p.quantity ⊗ distance)) (some stop)
          (text "single_trade_risk_over_cap" ∷ updates)
      else if same quantity p.quantity
          || (not (same risk nought)
              && (current ≼ caps.single_trade_risk_cap)
              && (abs (risk ⊖ current) ≺ deadband))
      then (if tighten || changed
          then position_action effective action_tighten_stop p p.quantity current (some stop)
              updates
          else position_action effective action_hold p p.quantity current (some stop)
              (text "target_inside_rebalance_deadband" ∷ ignored_reasons))
      else if quantity ≺ p.quantity
      then position_action effective action_reduce p quantity risk (some stop)
          (text "target_risk_reduced" ∷ ignored_reasons)
      else position_action effective action_add p quantity risk (some stop)
          (text "target_risk_increased" ∷ [])

  -- A target in error rejects an increase, and is ignored otherwise.
  unfoldable pub unless_target_error :
      PortfolioAllocation D
      → PositionState D
      → RiskCaps D
      → RiskLimits D
      → D
      → D
      → D
      → D
      → Option Text
      → PortfolioPlanAction D
  unless_target_error a p caps l stop distance risk quantity none =
      rebalance a p caps l stop distance risk quantity false
  unless_target_error a p caps l stop distance risk quantity (some reason) =
      if p.quantity ≺ quantity
      then rejected_position a reason p
      else rebalance a p caps l stop distance risk quantity true

  unfoldable pub resize :
      PortfolioAllocation D
      → PositionState D
      → MarketSnapshot D
      → ExchangeFilters D
      → RiskCaps D
      → RiskLimits D
      → D
      → PortfolioPlanAction D
  resize a p m f caps l stop =
      let distance = abs (mid_price m ⊖ stop) in
      let risk = target_risk_of a m caps in
      let quantity =
        cap_quantity f.max_quantity (round_price (risk ⊘ distance) f.step_size round_down) in
      if distance ≼ nought
      then rejected_position a (text "rounded_stop_invalid") p
      else if quantity ≼ nought
      then position_action a action_close p nought nought (some stop)
          (text "target_quantity_below_minimum" ∷ [])
      else unless_target_error a p caps l stop distance risk quantity (existing_target_error a p)

  unfoldable pub stopped :
      PortfolioAllocation D
      → PositionState D
      → MarketSnapshot D
      → ExchangeFilters D
      → RiskCaps D
      → RiskLimits D
      → Option D
      → PortfolioPlanAction D
  stopped a p m f caps l none = rejected_position a (text "stop_widening_or_invalid") p
  stopped a p m f caps l (some stop) = resize a p m f caps l stop

  unfoldable pub priced :
      PortfolioAllocation D
      → PositionState D
      → ExchangeFilters D
      → RiskCaps D
      → RiskLimits D
      → Option (MarketSnapshot D)
      → PortfolioPlanAction D
  priced a p f caps l none = rejected_position a (text "market_snapshot_missing") p
  priced a p f caps l (some m) = stopped a p m f caps l (effective_stop a p m)

  unfoldable pub aimed :
      PortfolioAllocation D
      → PositionState D
      → Option (MarketSnapshot D)
      → ExchangeFilters D
      → RiskCaps D
      → RiskLimits D
      → Option PositionSide
      → PortfolioPlanAction D
  aimed a p m f caps l none =
      position_action a action_close p nought nought none (text "model_target_is_flat" ∷ [])
  aimed a p m f caps l (some side) =
      if not (side == p.side)
      then position_action a action_close p nought nought none
          (text "same_cycle_reversal_deferred" ∷ [])
      else priced a p f caps l m

  unfoldable pub existing_action :
      PortfolioAllocation D
      → PositionState D
      → Option (MarketSnapshot D)
      → ExchangeFilters D
      → RiskCaps D
      → RiskLimits D
      → PortfolioPlanAction D
  existing_action a p m f caps l = aimed a p m f caps l (side_of_target a.target_side)
