-- ===== src/Tests/Portfolio.antt =====
-- The portfolio compiler on a decision that tightens one position and opens another.
use ai_coinletgo.Prelude.{refl, none, some, [], ◌∷◌}
use ai_coinletgo.Prelude.Int.{ℤ, pos, int_eq, ◌+ℤ◌}
use ai_coinletgo.Prelude.Text.{text}
use ai_coinletgo.Prelude.Result.{Returns}
use ai_coinletgo.Decimal.Fixed.{fixed, fixed_mul, fixed_div, fixed_integral, fixed-IsRounded}
use ai_coinletgo.Domain.Enums.{paused}
use ai_coinletgo.Domain.Limits.{RiskContext}
use ai_coinletgo.Domain.Market.{mid_price, factor_multiplier, effective_risk_multiplier}
use ai_coinletgo.Domain.Portfolio.{PortfolioAllocation, PortfolioPlanAction, target_long}
use ai_coinletgo.Risk.Portfolio.Pricing.{
  apply_manual_exit_levels, reference_price, direction_allowed, trend_matches_target,
  entry_trigger_matches, strong_target_override, risk_entry, valid_geometry, allocation_entry,
  net_reward_risk,
}
use ai_coinletgo.Risk.Portfolio.Existing.{RiskCaps, existing_action, target_risk_of}
use ai_coinletgo.Risk.Portfolio.Opening.{
  new_action, opened, opening_reason, unless_reason, opening_quantity,
}
use ai_coinletgo.Risk.Portfolio.Validation.{
  validate_increase, exposure_reason, count_reason, correlation_reason, added_quantity,
  margin_after, held_margin, margin_reason,
}
use ai_coinletgo.Risk.Engine.{round_price}
use ai_coinletgo.Risk.Preflight.{trend_matches_signal}
use ai_coinletgo.Decimal.{sum_from}
use ai_coinletgo.Risk.Portfolio.Survey.{Request, Survey}
use ai_coinletgo.Risk.Portfolio.Admission.{opening_admission, admitted}
use ai_coinletgo.Risk.Portfolio.Compile.{compile}
use ai_coinletgo.Risk.Portfolio.Room.{IsRoomy, validate_increase-IsRoomy}
use ai_coinletgo.Risk.Portfolio.Exposure.{IsLimited, admitted-IsLimited}
use ai_coinletgo.Risk.Portfolio.Order.{IsPlan, compile-IsPlan}
use ai_coinletgo.Risk.Portfolio.Stops.{Permitted, existing_action-Permitted}
use ai_coinletgo.Risk.Portfolio.Gates.{IsOpening, new_action-IsOpening}
use ai_coinletgo.Tests.{units}
use ai_coinletgo.Tests.Risk.{snapshot, account, limits, context}
use ai_coinletgo.Tests.Exit.{position}

abbrev allocation : PortfolioAllocation ℤ
allocation = record {
  allocation_id = text "a1";
  symbol = text "BTCUSDT";
  target_side = target_long;
  allocation_fraction = pos 20_000_000;
  priority = 1;
  confidence = pos 90_000_000;
  entry_min = some (units 99);
  entry_max = some (units 101);
  stop_price = some (units 99);
  target_price = some (units 120);
}

abbrev caps : RiskCaps ℤ
caps = record { risk_cap = units 50; single_trade_risk_cap = units 10 }

abbrev opening : PortfolioPlanAction ℤ
opening = opened allocation snapshot limits (units 5)

abbrev request : Request ℤ
request = record {
  decision = record {
    decision_id = text "d1";
    portfolio_risk_budget_fraction = units 1;
    allocations = allocation ∷ [];
    created_at = 1;
    expires_at = 1000;
  };
  snapshots = (text "BTCUSDT", snapshot) ∷ [];
  account = account;
  positions = position ∷ [];
  filters = (text "BTCUSDT", RiskContext.filters context) ∷ [];
  limits = limits;
  mode = paused;
  correlations = λ a b. none;
  last_rebalance_at = none;
  cooldown_minutes = 0;
  now = 10;
}

abbrev survey : Survey ℤ
survey = record {
  projected = (text "ETHUSDT", position) ∷ [];
  reductions = [];
  increases = record { allocation = allocation; action = opening } ∷ [];
}

compile-IsPlan_example : Returns (IsPlan request) (compile request)
compile-IsPlan_example = compile-IsPlan request

admitted-IsLimited_example :
    Returns (IsLimited request (opening_admission survey)) (admitted request survey)
admitted-IsLimited_example = admitted-IsLimited request survey

existing_action-Permitted_example :
    Permitted position
      (units 10)
      (existing_action allocation position
        (some snapshot)
        (RiskContext.filters context)
        caps
        limits)
      (PortfolioPlanAction.action (
        existing_action allocation position
          (some snapshot)
          (RiskContext.filters context)
          caps
          limits))
existing_action-Permitted_example =
    existing_action-Permitted fixed-IsRounded allocation position (some snapshot)
      (RiskContext.filters context) caps limits

validate_increase-IsRoomy_example : IsRoomy opening snapshot [] limits account (λ a b. none)
unfolding validate_increase exposure_reason count_reason correlation_reason added_quantity
    margin_after held_margin margin_reason reference_price mid_price fixed_mul fixed_div
    fixed_integral ◌+ℤ◌ sum_from
validate_increase-IsRoomy_example =
    validate_increase-IsRoomy opening allocation snapshot [] limits account (λ a b. none) refl

new_action-IsOpening_example :
    IsOpening
      (apply_manual_exit_levels allocation snapshot limits)
      snapshot
      (RiskContext.filters context)
      limits
      (new_action allocation snapshot (RiskContext.filters context) caps limits)
unfolding new_action apply_manual_exit_levels opening_reason unless_reason opening_quantity
    target_risk_of direction_allowed trend_matches_target entry_trigger_matches trend_matches_signal
    strong_target_override risk_entry valid_geometry allocation_entry net_reward_risk mid_price
    factor_multiplier effective_risk_multiplier round_price fixed_mul fixed_div fixed_integral ◌+ℤ◌
new_action-IsOpening_example =
    new_action-IsOpening allocation snapshot (RiskContext.filters context) caps limits refl
