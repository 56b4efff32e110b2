-- ===== src/Risk/Portfolio/Validation.antt =====
-- `_validate_increase` of risk/portfolio.py: what an action that adds risk must pass, against the
-- positions as they are projected.
use ai_coinletgo.Prelude.{
  ℕ, Bool, true, false, not, ◌&&◌, ◌||◌, ◌+◌, Option, none, some, List, [], ◌∷◌, ◌++◌, map,
  if◌then◌else◌, or_default, ◌==◌, ltb, leb, length, count,
}
use ai_coinletgo.Prelude.Text.{Text, text, text_eq}
use ai_coinletgo.Prelude.Dict.{Dict, lookup, keys}
use ai_coinletgo.Prelude.Result.{Result, ok, err}
use ai_coinletgo.Decimal.{Decimal, ◌≼◌, ◌≺◌, nought, ◌⊕◌, ◌⊖◌, ◌⊗◌, ◌⊘◌, abs, min, max, sum}
use ai_coinletgo.Domain.Enums.{PositionSide, side_eq, trending, regime_eq}
use ai_coinletgo.Domain.Market.{MarketSnapshot}
use ai_coinletgo.Domain.Account.{PositionState, AccountState}
use ai_coinletgo.Domain.Limits.{RiskLimits}
use ai_coinletgo.Domain.Portfolio.{
  PortfolioPlanActionType, action_open, action_add, PortfolioAllocation, PortfolioPlanAction,
}
use ai_coinletgo.Risk.Portfolio.Pricing.{
  is_none, first_reason, trend_matches_target, entry_trigger_matches, strong_target_override,
  valid_geometry, reference_price, estimated_round_trip_cost_rate,
}

-- The `KeyError` of `d[key]`.
pub data KeyError : Type 0 where
  key_missing : Text → KeyError

-- `projected`, by symbol.
abbrev pub Positions : Type 0 → Type 0
Positions D = Dict Text (PositionState D)

abbrev pub is_open : PortfolioPlanActionType → Bool
is_open action_open = true
is_open _ = false

abbrev pub is_add : PortfolioPlanActionType → Bool
is_add action_add = true
is_add _ = false

-- `a if a is not None else b`
abbrev pub or_else : Option Text → Option Text → Option Text
or_else (some reason) rest = some reason
or_else none rest = rest

abbrev pub unless_exposed :
    Option Text → Result KeyError (Option Text) → Result KeyError (Option Text)
unless_exposed (some reason) rest = ok (some reason)
unless_exposed none rest = rest

module _ {D : Type 0} ⦃d : Decimal D⦄ where
  abbrev pub whole : ℕ → D
  whole n = d.lit n 0

  abbrev pub values : Positions D → List (PositionState D)
  values = map (λ entry. entry.1)

  -- The reward that an addition leaves, for its risk, both after costs.
  unfoldable pub added_reward_risk : MarketSnapshot D → D → D → D → D
  added_reward_risk m reference distance target =
      let costs = reference ⊗ estimated_round_trip_cost_rate ⊕ reference ⊗ abs m.funding_rate in
      max nought (abs (target ⊖ reference) ⊖ costs) ⊘ (distance ⊕ costs)

  -- The checks of an addition, which an opening has passed in `_new_action`.
  unfoldable pub addition_reason :
      PortfolioPlanAction D
      → PortfolioAllocation D
      → MarketSnapshot D
      → RiskLimits D
      → D
      → Option Text
  addition_reason x a m l stop =
      let primary = l.model_primary_portfolio_enabled in
      let override = strong_target_override a m l in
      let reference = reference_price x m in
      let distance = abs (reference ⊖ stop) in
      let stop_atr = distance ⊘ m.atr_15m in
      first_reason (
        (
          (a.confidence ≺ l.min_confidence) && not primary && not override,
          text "confidence_below_minimum",
        )
        ∷ (not (valid_geometry a m true), text "invalid_price_geometry")
        ∷ (not primary && not (trend_matches_target a.target_side m), text "trend_not_aligned")
        ∷ (not primary && not (m.market_regime == trending), text "market_regime_not_trending")
        ∷ (not primary && (m.adx_1h ≺ l.trend_adx_min), text "trend_strength_below_minimum")
        ∷ (m.volatility_risk_multiplier ≼ nought, text "invalid_volatility_risk_multiplier")
        ∷ (
          not primary
              && not (entry_trigger_matches a.target_side m l.entry_trigger)
              && not override,
          text "no_aligned_entry_trigger",
        )
        ∷ (stop_atr ≺ l.min_stop_atr, text "stop_too_close")
        ∷ (l.max_stop_atr ≺ stop_atr, text "stop_too_far")
        ∷ (is_none a.target_price, text "invalid_price_geometry")
        ∷ (
          added_reward_risk m reference distance (or_default a.target_price nought)
              ≺ l.min_net_reward_risk,
          text "net_reward_risk_below_minimum",
        )
        ∷ [])

  -- Of the positions, those on a side.
  abbrev pub same_direction : PositionSide → Positions D → ℕ
  same_direction side projected = count (λ (p : PositionState D). p.side == side) (values projected)

  unfoldable pub count_reason :
      PortfolioPlanActionType → PositionSide → Positions D → RiskLimits D → Option Text
  count_reason kind side projected l =
      let positions = length projected + (if is_open kind then 1 else 0) in
      let alike = same_direction side projected in
      first_reason (
        (ltb l.max_positions positions, text "position_count_limit_reached")
        ∷ (
          ltb l.max_same_direction alike || (is_open kind && leb l.max_same_direction alike),
          text "same_direction_limit_reached",
        )
        ∷ [])

  -- `_correlation`: in either order of the pair.
  unfoldable pub correlation_of : (Text → Text → Option D) → Text → Text → Option D
  correlation_of correlations first second = elim (correlations first second) [
    | some c ↦ some c
    | none ↦ correlations second first
  ]

  abbrev pub correlated : RiskLimits D → Text → Option D → Option Text
  correlated l other none = some (text "correlation_data_missing:" ++ other)
  correlated l other (some c) =
      if l.correlation_limit ≺ abs c then some (text "correlated_with_" ++ other) else none

  unfoldable pub correlation_reason :
      Text → (Text → Text → Option D) → RiskLimits D → List Text → Option Text
  correlation_reason symbol correlations l [] = none
  correlation_reason symbol correlations l (other ∷ rest) =
      let later = correlation_reason symbol correlations l rest in
      if other == symbol
      then later
      else or_else (correlated l other (correlation_of correlations symbol other)) later

  -- The margin of the positions as they are projected.
  unfoldable pub held_margin : Positions D → RiskLimits D → D
  held_margin projected l = sum (
      map (λ (p : PositionState D). p.quantity ⊗ p.mark_price ⊘ whole l.max_leverage)
        (values projected))

  -- The quantity that the action adds: of an opening the whole, of an addition what is not held.
  unfoldable pub added_quantity : PortfolioPlanAction D → Positions D → Result KeyError D
  added_quantity x projected =
      if is_open x.action then ok x.target_quantity else elim (lookup x.symbol projected) [
        | none ↦ err (key_missing x.symbol)
        | some existing ↦ ok (x.target_quantity ⊖ existing.quantity)
      ]

  unfoldable pub margin_after :
      PortfolioPlanAction D → MarketSnapshot D → Positions D → RiskLimits D → D → D
  margin_after x m projected l added =
      held_margin projected l ⊕ reference_price x m ⊗ added ⊘ whole l.max_leverage

  unfoldable pub margin_reason : D → RiskLimits D → AccountState D → Option Text
  margin_reason margin l account = first_reason (
      (
        min account.equity l.capital_limit_usdt ⊗ l.max_margin_pct ≺ margin,
        text "margin_limit_reached",
      )
      ∷ (
        account.available_balance ≺ max nought (margin ⊖ account.total_margin_used),
        text "available_balance_insufficient",
      )
      ∷ [])

  abbrev pub margin_checked :
      PortfolioPlanAction D
      → MarketSnapshot D
      → Positions D
      → RiskLimits D
      → AccountState D
      → Result KeyError D
      → Result KeyError (Option Text)
  margin_checked x m projected l account (err e) = err e
  margin_checked x m projected l account (ok added) =
      ok (margin_reason (margin_after x m projected l added) l account)

  -- The checks before the margin's, in their order.
  unfoldable pub exposure_reason :
      PortfolioPlanAction D
      → PortfolioAllocation D
      → MarketSnapshot D
      → Positions D
      → RiskLimits D
      → (Text → Text → Option D)
      → PositionSide
      → D
      → Option Text
  exposure_reason x a m projected l correlations side stop =
      or_else (if is_add x.action then addition_reason x a m l stop else none) (
        or_else (count_reason x.action side projected l)
          (correlation_reason x.symbol correlations l (keys projected)))

  abbrev pub validate_sided :
      PortfolioPlanAction D
      → PortfolioAllocation D
      → MarketSnapshot D
      → Positions D
      → RiskLimits D
      → AccountState D
      → (Text → Text → Option D)
      → Option PositionSide
      → Option D
      → Result KeyError (Option Text)
  validate_sided x a m projected l account correlations (some side) (some stop) =
      unless_exposed (exposure_reason x a m projected l correlations side stop)
        (margin_checked x m projected l account (added_quantity x projected))
  validate_sided x a m projected l account correlations _ _ =
      ok (some (text "invalid_portfolio_action"))

  -- `ok none` accepts the action. The snapshot is the one of the action's symbol.
  unfoldable pub validate_increase :
      PortfolioPlanAction D
      → PortfolioAllocation D
      → MarketSnapshot D
      → Positions D
      → RiskLimits D
      → AccountState D
      → (Text → Text → Option D)
      → Result KeyError (Option Text)
  validate_increase x a m projected l account correlations =
      validate_sided x a m projected l account correlations x.side x.stop_price
