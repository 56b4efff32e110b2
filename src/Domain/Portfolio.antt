-- ===== src/Domain/Portfolio.antt =====
-- The portfolio models of domain/models.py, with their validators, and their enums.
use ai_coinletgo.Prelude.{
  ℕ, Bool, true, false, ◌&&◌, ◌||◌, Option, none, some, List, [], ◌∷◌, if◌then◌else◌, any, ◌==◌,
  leb, map,
}
use ai_coinletgo.Prelude.Text.{Text, text_eq}
use ai_coinletgo.Decimal.{Decimal, ◌≼◌, ◌≺◌, same, nought, one, sum}
use ai_coinletgo.Domain.Enums.{PositionSide, long, short}

pub data PortfolioTargetSide : Type 0 where
  target_long target_short target_flat : PortfolioTargetSide

pub data PortfolioPlanActionType : Type 0 where
  action_open action_add action_reduce action_close : PortfolioPlanActionType
  action_hold action_tighten_stop action_rejected : PortfolioPlanActionType

pub data PortfolioPlanStatus : Type 0 where
  plan_approved plan_partially_approved plan_no_action plan_rejected : PortfolioPlanStatus
  plan_executed plan_failed : PortfolioPlanStatus

pub record PortfolioAllocation (D : Type 0) : Type 0 where
  pub allocation_id : Text
  pub symbol : Text
  pub target_side : PortfolioTargetSide
  pub allocation_fraction : D
  pub priority : ℕ
  pub confidence : D
  pub entry_min : Option D
  pub entry_max : Option D
  pub stop_price : Option D
  pub target_price : Option D

pub record PortfolioDecision (D : Type 0) : Type 0 where
  pub decision_id : Text
  pub portfolio_risk_budget_fraction : D
  pub allocations : List (PortfolioAllocation D)
  pub created_at : ℕ
  pub expires_at : ℕ

pub record PortfolioPlanAction (D : Type 0) : Type 0 where
  pub allocation_id : Text
  pub symbol : Text
  pub action : PortfolioPlanActionType
  pub side : Option PositionSide
  pub current_quantity : D
  pub target_quantity : D
  pub quantity_delta : D
  pub target_risk_usdt : D
  pub entry_min : Option D
  pub entry_max : Option D
  pub stop_price : Option D
  pub target_price : Option D
  pub confidence : D
  pub priority : ℕ
  pub action_sequence : ℕ
  pub reasons : List Text

pub record PortfolioPlan (D : Type 0) : Type 0 where
  pub decision_id : Text
  pub status : PortfolioPlanStatus
  pub capital_base : D
  pub risk_cap_usdt : D
  pub requested_risk_usdt : D
  pub approved_risk_usdt : D
  pub actions : List (PortfolioPlanAction D)
  pub reasons : List Text

-- The messages of the validators' `ValueError`s.
pub data AllocationError : Type 0 where
  flat_with_fraction fraction_not_positive prices_missing entry_range_reversed : AllocationError
  long_geometry_invalid short_geometry_invalid : AllocationError

pub data PortfolioError : Type 0 where
  expires_before_creation symbols_repeated fractions_above_one zero_budget_with_targets :
      PortfolioError

-- `PositionSide(target_side.value)`, `none` where it raises.
abbrev pub side_of_target : PortfolioTargetSide → Option PositionSide
side_of_target target_long = some long
side_of_target target_short = some short
side_of_target target_flat = none

abbrev pub is_flat_target : PortfolioTargetSide → Bool
is_flat_target target_flat = true
is_flat_target _ = false

-- `len(symbols) != len(set(symbols))`
unfoldable pub has_repeated : List Text → Bool
has_repeated [] = false
has_repeated (s ∷ rest) = any (λ t. t == s) rest || has_repeated rest

module _ {D : Type 0} ⦃d : Decimal D⦄ where
  unfoldable pub validate_geometry : PortfolioTargetSide → D → D → D → D → Option AllocationError
  validate_geometry target_flat lo hi stop target = none
  validate_geometry target_long lo hi stop target =
      if (stop ≺ lo) && (lo ≼ hi) && (hi ≺ target) then none else some long_geometry_invalid
  validate_geometry target_short lo hi stop target =
      if (target ≺ lo) && (lo ≼ hi) && (hi ≺ stop) then none else some short_geometry_invalid

  unfoldable pub validate_prices :
      PortfolioTargetSide → Option D → Option D → Option D → Option D → Option AllocationError
  unfolding validate_geometry
  validate_prices side (some lo) (some hi) (some stop) (some target) =
      if hi ≺ lo then some entry_range_reversed else validate_geometry side lo hi stop target
  validate_prices side _ _ _ _ = some prices_missing

  -- `none` accepts the allocation.
  unfoldable pub validate_target_shape : PortfolioAllocation D → Option AllocationError
  unfolding validate_prices
  validate_target_shape a =
      if is_flat_target a.target_side
      then (if same a.allocation_fraction nought then none else some flat_with_fraction)
      else if a.allocation_fraction ≼ nought
      then some fraction_not_positive
      else validate_prices a.target_side a.entry_min a.entry_max a.stop_price a.target_price

  -- `none` accepts the decision.
  unfoldable pub validate_allocations : PortfolioDecision D → Option PortfolioError
  validate_allocations x =
      if leb x.expires_at x.created_at
      then some expires_before_creation
      else if has_repeated (map (λ (a : PortfolioAllocation D). a.symbol) x.allocations)
      then some symbols_repeated
      else if one ≺ sum (map (λ (a : PortfolioAllocation D). a.allocation_fraction) x.allocations)
      then some fractions_above_one
      else if same x.portfolio_risk_budget_fraction nought
          && any (λ (a : PortfolioAllocation D). nought ≺ a.allocation_fraction) x.allocations
      then some zero_budget_with_targets
      else none
