-- ===== src/Risk/Portfolio/Survey.antt =====
-- The two passes of `compile` of risk/portfolio.py over the decision's allocations: of the positions
-- that are held, then of the candidates.
use ai_coinletgo.Prelude.{ℕ, not, Option, none, some, List, [], ◌∷◌, ◌++◌, if◌then◌else◌}
use ai_coinletgo.Prelude.Text.{Text, text, text_eq}
use ai_coinletgo.Prelude.Dict.{Dict, lookup, insert, erase}
use ai_coinletgo.Prelude.Result.{Result, ok, err, and_then}
use ai_coinletgo.Decimal.{Decimal, ◌⊗◌, min}
use ai_coinletgo.Domain.Enums.{SystemMode}
use ai_coinletgo.Domain.Market.{MarketSnapshot}
use ai_coinletgo.Domain.Account.{PositionState, AccountState, ExchangeFilters}
use ai_coinletgo.Domain.Limits.{RiskLimits}
use ai_coinletgo.Domain.Portfolio.{
  PortfolioPlanActionType, action_open, action_add, action_reduce, action_close, action_hold,
  action_tighten_stop, action_rejected, PortfolioAllocation, PortfolioPlanAction, PortfolioDecision,
  is_flat_target,
}
use ai_coinletgo.Risk.Portfolio.Pricing.{is_none, rejected_alone}
use ai_coinletgo.Risk.Portfolio.Existing.{RiskCaps, existing_action}
use ai_coinletgo.Risk.Portfolio.Opening.{new_action}
use ai_coinletgo.Risk.Portfolio.Validation.{KeyError, key_missing, Positions}

-- The arguments of `compile`; times are in microseconds.
pub record Request (D : Type 0) : Type 0 where
  pub decision : PortfolioDecision D
  pub snapshots : Dict Text (MarketSnapshot D)
  pub account : AccountState D
  pub positions : List (PositionState D)
  pub filters : Dict Text (ExchangeFilters D)
  pub limits : RiskLimits D
  pub mode : SystemMode
  pub correlations : Text → Text → Option D
  pub last_rebalance_at : Option ℕ
  pub cooldown_minutes : ℕ
  pub now : ℕ

-- An allocation and the action that adds risk for it.
pub record Increase (D : Type 0) : Type 0 where
  pub allocation : PortfolioAllocation D
  pub action : PortfolioPlanAction D

-- `projected`, `reductions` and `increases`.
pub record Survey (D : Type 0) : Type 0 where
  pub projected : Positions D
  pub reductions : List (PortfolioPlanAction D)
  pub increases : List (Increase D)

-- `d[key]`
abbrev pub fetch {ℓ} : {A : Type ℓ} → Text → Dict Text A → Result KeyError A
fetch key d = elim (lookup key d) [ none ↦ err (key_missing key) | some a ↦ ok a ]

module _ {D : Type 0} where
  -- `{item.symbol: item for item in positions}`
  unfoldable pub positions_by_symbol : List (PositionState D) → Positions D → Positions D
  positions_by_symbol [] done = done
  positions_by_symbol (p ∷ rest) done = positions_by_symbol rest (insert p.symbol p done)

  unfoldable pub allocations_by_symbol :
      List (PortfolioAllocation D)
      → Dict Text (PortfolioAllocation D)
      → Dict Text (PortfolioAllocation D)
  allocations_by_symbol [] done = done
  allocations_by_symbol (a ∷ rest) done = allocations_by_symbol rest (insert a.symbol a done)

  abbrev pub current_by_symbol : Request D → Positions D
  current_by_symbol r = positions_by_symbol r.positions []

  abbrev pub allocations_of : Request D → Dict Text (PortfolioAllocation D)
  allocations_of r = let x = r.decision in allocations_by_symbol x.allocations []

  abbrev pub retained : PortfolioPlanAction D → Survey D → Survey D
  retained x s = record s { reductions = s.reductions ++ (x ∷ []) }

  abbrev pub increased : PortfolioAllocation D → PortfolioPlanAction D → Survey D → Survey D
  increased a x s = record s {
    increases = s.increases ++ (record { allocation = a; action = x } ∷ []);
  }

  -- The position with the quantity and the risk that an action leaves it.
  abbrev pub resized : PositionState D → PortfolioPlanAction D → PositionState D
  resized p x = record p { quantity = x.target_quantity; initial_risk_usdt = x.target_risk_usdt }

  unfoldable pub sort_existing :
      Text
      → PositionState D
      → PortfolioAllocation D
      → PortfolioPlanAction D
      → Survey D
      → PortfolioPlanActionType
      → Survey D
  sort_existing symbol p a x s action_close = record (retained x s) {
    projected = erase symbol s.projected;
  }
  sort_existing symbol p a x s action_reduce = record (retained x s) {
    projected = insert symbol (resized p x) s.projected;
  }
  sort_existing symbol p a x s action_tighten_stop = retained x s
  sort_existing symbol p a x s action_rejected = retained x s
  sort_existing symbol p a x s action_hold = retained x s
  sort_existing symbol p a x s action_add = increased a x s
  sort_existing symbol p a x s action_open = s

  unfoldable pub sort_new :
      PortfolioAllocation D → PortfolioPlanAction D → Survey D → PortfolioPlanActionType → Survey D
  sort_new a x s action_open = increased a x s
  sort_new a x s _ = retained x s

module _ {D : Type 0} ⦃d : Decimal D⦄ where
  abbrev pub capital_of : Request D → D
  capital_of r =
      let account = r.account in
      let limits = r.limits in min account.equity limits.capital_limit_usdt

  abbrev pub caps_of : Request D → RiskCaps D
  caps_of r =
      let limits = r.limits in
      let decision = r.decision in
      record {
        risk_cap =
            capital_of r ⊗ limits.portfolio_risk_pct ⊗ decision.portfolio_risk_budget_fraction;
        single_trade_risk_cap = capital_of r ⊗ limits.single_trade_risk_pct;
      }

  unfoldable pub survey_position :
      Request D → Text → PositionState D → Survey D → Result KeyError (Survey D)
  survey_position r symbol p s = and_then (fetch symbol (allocations_of r)) (λ a.
      and_then (fetch symbol r.filters) (λ f.
        let x = existing_action a p (lookup symbol r.snapshots) f (caps_of r) r.limits in
        ok (sort_existing symbol p a x s x.action)))

  unfoldable pub survey_positions : Request D → Positions D → Survey D → Result KeyError (Survey D)
  survey_positions r [] s = ok s
  survey_positions r ((symbol, p) ∷ rest) s =
      and_then (survey_position r symbol p s) (survey_positions r rest)

  abbrev pub survey_listed :
      Request D
      → PortfolioAllocation D
      → Survey D
      → Option (MarketSnapshot D)
      → Result KeyError (Survey D)
  survey_listed r a s none =
      ok (retained (rejected_alone a (text "allocation_symbol_not_in_candidates")) s)
  survey_listed r a s (some m) =
      and_then (fetch a.symbol r.filters)
        (λ f. let x = new_action a m f (caps_of r) r.limits in ok (sort_new a x s x.action))

  unfoldable pub survey_candidate :
      Request D → PortfolioAllocation D → Survey D → Result KeyError (Survey D)
  survey_candidate r a s =
      if not (is_none (lookup a.symbol (current_by_symbol r)))
      then ok s
      else if is_flat_target a.target_side
      then ok s
      else survey_listed r a s (lookup a.symbol r.snapshots)

  unfoldable pub survey_candidates :
      Request D → List (PortfolioAllocation D) → Survey D → Result KeyError (Survey D)
  survey_candidates r [] s = ok s
  survey_candidates r (a ∷ rest) s = and_then (survey_candidate r a s) (survey_candidates r rest)

  -- Both passes, from the positions as they are.
  unfoldable pub surveyed : Request D → Result KeyError (Survey D)
  surveyed r =
      let decision = r.decision in
      and_then
        (survey_positions r (current_by_symbol r)
          (record { projected = current_by_symbol r; reductions = []; increases = [] }))
        (survey_candidates r decision.allocations)
