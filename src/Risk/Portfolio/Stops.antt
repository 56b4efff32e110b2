-- ===== src/Risk/Portfolio/Stops.antt =====
-- `_existing_action` of risk/portfolio.py: what it may do to a position's stop and to its quantity.
use ai_coinletgo.Prelude.{
  arith, ◌≡◌, refl, subst, Bool, true, false, not, ◌&&◌, ◌||◌, Option, none, some, inl, inr,
  Bool-cases, ◌==◌,
}
use mathlib.Core.Option.{some-injective}
use ai_coinletgo.Prelude.Text.{Text}
use ai_coinletgo.Decimal.{Decimal, ◌≼◌, ◌≺◌, same, nought, ◌⊖◌, ◌⊗◌, ◌⊘◌, abs, round_down}
use ai_coinletgo.Decimal.Laws.{IsRounded, min-le_right}
use ai_coinletgo.Domain.Enums.{PositionSide, long, short, side_eq}
use ai_coinletgo.Domain.Market.{MarketSnapshot, mid_price}
use ai_coinletgo.Domain.Account.{PositionState, ExchangeFilters}
use ai_coinletgo.Domain.Limits.{RiskLimits}
use ai_coinletgo.Domain.Portfolio.{
  PortfolioPlanActionType, action_open, action_add, action_reduce, action_close, action_hold,
  action_tighten_stop, action_rejected, PortfolioAllocation, PortfolioPlanAction, side_of_target,
}
use ai_coinletgo.Risk.Engine.{round_price, cap_quantity}
use ai_coinletgo.Risk.Portfolio.Pricing.{
  kept_stop, effective_stop, existing_target_error, position_action, rejected_with,
}
use ai_coinletgo.Risk.Portfolio.Existing.{
  RiskCaps, target_risk_of, is_new_target, rebalance, unless_target_error, resize, stopped, priced,
  aimed, existing_action,
}

module _ {D : Type 0} ⦃d : Decimal D⦄ where
  -- A stop that risks no more than the one at hand.
  abbrev pub NoWider : PositionSide → D → D → Type 0
  NoWider long current stop = (current ≼ stop) ≡ true
  NoWider short current stop = (stop ≼ current) ≡ true

  abbrev pub Guarded : PositionSide → D → Option D → Type 0
  Guarded side current none = ⊥
  Guarded side current (some stop) = NoWider side current stop

  -- What each kind of action may do to a position's quantity, to its risk and to its stop. A rejected
  -- action is not executed: its stop is the allocation's.
  abbrev pub Permitted :
      PositionState D → D → PortfolioPlanAction D → PortfolioPlanActionType → Type 0
  Permitted p cap x action_reduce =
      ((x.target_quantity ≺ p.quantity) ≡ true)
      × ((x.target_risk_usdt ≼ cap) ≡ true)
      × Guarded p.side p.stop_price x.stop_price
  Permitted p cap x action_add =
      ((p.quantity ≺ x.target_quantity) ≡ true)
      × ((x.target_risk_usdt ≼ cap) ≡ true)
      × Guarded p.side p.stop_price x.stop_price
  Permitted p cap x action_hold =
      (x.target_quantity ≡ p.quantity) × Guarded p.side p.stop_price x.stop_price
  Permitted p cap x action_tighten_stop =
      (x.target_quantity ≡ p.quantity) × Guarded p.side p.stop_price x.stop_price
  Permitted p cap x action_close =
      (x.target_quantity ≡ nought) × Guarded p.side p.stop_price x.stop_price
  Permitted p cap x action_rejected = x.target_quantity ≡ nought
  Permitted p cap x action_open = ⊥

  abbrev IsPermitted : PositionState D → D → PortfolioPlanAction D → Type 0
  IsPermitted p cap x = Permitted p cap x x.action

  module _ (laws : IsRounded D) where
    open laws use {le_refl, le_total}

    NoWider-refl : (side : PositionSide) (stop : D) → NoWider side stop stop
    NoWider-refl long stop = le_refl stop
    NoWider-refl short stop = le_refl stop

    kept_stop-NoWider :
        (side : PositionSide) (current mid proposed stop : D)
        → kept_stop side current mid proposed ≡ some stop
        → NoWider side current stop
    kept_stop-NoWider long current mid proposed stop h = ground (arith, le_total proposed current)
    kept_stop-NoWider short current mid proposed stop h = ground (arith, le_total current proposed)

    effective_stop-NoWider :
        (a : PortfolioAllocation D) (p : PositionState D) (m : MarketSnapshot D) (stop : D)
        → effective_stop a p m ≡ some stop
        → NoWider p.side p.stop_price stop
    unfolding effective_stop
    effective_stop-NoWider a p m stop h = go a.stop_price h
      where
        go :
            (proposed : Option D)
            → (elim proposed [
              | none ↦ some p.stop_price
              | some q ↦ kept_stop p.side p.stop_price (mid_price m) q
            ])
              ≡ some stop
            → NoWider p.side p.stop_price stop
        go none h' =
            subst (NoWider p.side p.stop_price) (some-injective _ _ h')
              (NoWider-refl p.side p.stop_price)
        go (some q) h' = kept_stop-NoWider p.side p.stop_price (mid_price m) q stop h'

    rebalance-IsPermitted :
        (a : PortfolioAllocation D)
        → (p : PositionState D) → (caps : RiskCaps D) → (l : RiskLimits D)
        → (stop distance risk quantity : D) → (ignored : Bool) → NoWider p.side p.stop_price stop
        → (risk ≼ caps.single_trade_risk_cap) ≡ true
        → IsPermitted p caps.single_trade_risk_cap
            (rebalance a p caps l stop distance risk quantity ignored)
    unfolding rebalance position_action
    rebalance-IsPermitted a p caps l stop distance risk quantity ignored kept small =
        let current = p.initial_risk_usdt in
        let tighten = not (same stop p.stop_price) in
        let changed = not ignored && is_new_target a p in
        let deadband = caps.risk_cap ⊗ l.portfolio_rebalance_deadband_fraction in
        elim (Bool-cases ((caps.single_trade_risk_cap ≺ current) && (p.quantity ≼ quantity))) [
          | inl over ↦ rw over (elim (Bool-cases (tighten || changed)) [
            | inl t ↦ rw t (refl, kept)
            | inr t ↦ rw t (refl, kept)
          ])
          | inr under ↦
              rw under
                (elim (Bool-cases (
                  same quantity p.quantity
                  || (not (same risk nought)
                      && (current ≼ caps.single_trade_risk_cap)
                      && (abs (risk ⊖ current) ≺ deadband)))) [
                        | inl inside ↦ rw inside (elim (Bool-cases (tighten || changed)) [
                          | inl t ↦ rw t (refl, kept)
                          | inr t ↦ rw t (refl, kept)
                        ])
                        | inr outside ↦ rw outside (elim (Bool-cases (quantity ≺ p.quantity)) [
                          | inl less ↦ rw less (less, small, kept)
                          | inr more ↦ rw more (ground (arith), small, kept)
                        ])
                      ])
        ]

    unless_target_error-IsPermitted :
        (a : PortfolioAllocation D)
        → (p : PositionState D) → (caps : RiskCaps D) → (l : RiskLimits D)
        → (stop distance risk quantity : D) → (reason : Option Text)
        → NoWider p.side p.stop_price stop
        → (risk ≼ caps.single_trade_risk_cap) ≡ true
        → IsPermitted p caps.single_trade_risk_cap
            (unless_target_error a p caps l stop distance risk quantity reason)
    unfolding unless_target_error rejected_with
    unless_target_error-IsPermitted a p caps l stop distance risk quantity none kept small =
        rebalance-IsPermitted a p caps l stop distance risk quantity false kept small
    unless_target_error-IsPermitted a p caps l stop distance risk quantity (some reason) kept
          small =
        elim (Bool-cases (p.quantity ≺ quantity)) [
          | inl more ↦ rw more refl
          | inr less ↦
              rw less (rebalance-IsPermitted a p caps l stop distance risk quantity true kept small)
        ]

    stopped-IsPermitted :
        (a : PortfolioAllocation D)
        → (p : PositionState D) → (m : MarketSnapshot D) → (f : ExchangeFilters D)
        → (caps : RiskCaps D) → (l : RiskLimits D) → (stop : Option D) → effective_stop a p m ≡ stop
        → IsPermitted p caps.single_trade_risk_cap (stopped a p m f caps l stop)
    unfolding stopped resize rejected_with target_risk_of position_action
    stopped-IsPermitted a p m f caps l none same = refl
    stopped-IsPermitted a p m f caps l (some stop) same =
        let kept = effective_stop-NoWider a p m stop same in
        let distance = abs (mid_price m ⊖ stop) in
        let risk = target_risk_of a m caps in
        let quantity =
          cap_quantity f.max_quantity (round_price (risk ⊘ distance) f.step_size round_down) in
        elim (Bool-cases (distance ≼ nought)) [
          | inl at ↦ rw at refl
          | inr apart ↦ rw apart (elim (Bool-cases (quantity ≼ nought)) [
            | inl nothing ↦ rw nothing (refl, kept)
            | inr something ↦ rw something (
                unless_target_error-IsPermitted a p caps l stop distance risk quantity
                  (existing_target_error a p) kept (min-le_right laws _ caps.single_trade_risk_cap))
          ])
        ]

    priced-IsPermitted :
        (a : PortfolioAllocation D)
        → (p : PositionState D) → (f : ExchangeFilters D) → (caps : RiskCaps D) → (l : RiskLimits D)
        → (m : Option (MarketSnapshot D))
        → IsPermitted p caps.single_trade_risk_cap (priced a p f caps l m)
    unfolding priced rejected_with
    priced-IsPermitted a p f caps l none = refl
    priced-IsPermitted a p f caps l (some m) =
        stopped-IsPermitted a p m f caps l (effective_stop a p m) refl

    aimed-IsPermitted :
        (a : PortfolioAllocation D)
        → (p : PositionState D) → (m : Option (MarketSnapshot D)) → (f : ExchangeFilters D)
        → (caps : RiskCaps D) → (l : RiskLimits D) → (side : Option PositionSide)
        → IsPermitted p caps.single_trade_risk_cap (aimed a p m f caps l side)
    unfolding aimed position_action
    aimed-IsPermitted a p m f caps l none = (refl, NoWider-refl p.side p.stop_price)
    aimed-IsPermitted a p m f caps l (some side) = elim (Bool-cases (side == p.side)) [
      | inl same ↦ rw same (priced-IsPermitted a p f caps l m)
      | inr other ↦ rw other (refl, NoWider-refl p.side p.stop_price)
    ]

    -- Whatever the model asks of a position that is held, the action never opens and never loosens the stop. A
    -- reduction leaves less and an addition more than is held, both at a risk within a single trade's cap; a
    -- hold and a tightening leave the quantity, a close leaves nothing, and a rejection targets nothing.
    pub existing_action-Permitted :
        (a : PortfolioAllocation D)
        → (p : PositionState D) → (m : Option (MarketSnapshot D)) → (f : ExchangeFilters D)
        → (caps : RiskCaps D) → (l : RiskLimits D)
        → Permitted p caps.single_trade_risk_cap
            (existing_action a p m f caps l)
            (PortfolioPlanAction.action (existing_action a p m f caps l))
    unfolding existing_action
    existing_action-Permitted a p m f caps l =
        aimed-IsPermitted a p m f caps l (side_of_target a.target_side)
