-- ===== src/Risk/Portfolio/Compile.antt =====
-- `compile` of risk/portfolio.py: its early returns, and the plan that it makes of the admission.
use ai_coinletgo.Prelude.{
  ℕ, suc, Bool, true, false, not, ◌&&◌, ◌||◌, none, some, List, [], ◌∷◌, ◌++◌, map, if◌then◌else◌,
  any, keep, ◌==◌, ltb, leb, nat_eq,
}
use ai_coinletgo.Prelude.Text.{Text, text, text_eq, text_ltb}
use ai_coinletgo.Prelude.Dict.{lookup, keys}
use ai_coinletgo.Prelude.Result.{Result, ok, and_then}
use ai_coinletgo.Prelude.Sorting.{sorted}
use ai_coinletgo.Decimal.{Decimal, nought, ◌⊗◌, min, sum}
use ai_coinletgo.Domain.Enums.{SystemMode, live_locked, reconciliation_required}
use ai_coinletgo.Domain.Market.{effective_risk_multiplier}
use ai_coinletgo.Domain.Account.{PositionState}
use ai_coinletgo.Domain.Portfolio.{
  PortfolioPlanActionType, action_open, action_add, action_reduce, action_close, action_hold,
  action_tighten_stop, action_rejected, PortfolioPlanStatus, plan_approved, plan_partially_approved,
  plan_no_action, plan_rejected, PortfolioAllocation, PortfolioPlanAction, PortfolioPlan,
  is_flat_target,
}
use ai_coinletgo.Risk.Portfolio.Pricing.{is_none}
use ai_coinletgo.Risk.Portfolio.Validation.{KeyError, values}
use ai_coinletgo.Risk.Portfolio.Survey.{
  Request, current_by_symbol, allocations_of, capital_of, caps_of, surveyed,
}
use ai_coinletgo.Risk.Portfolio.Admission.{Admission, admitted}

-- The order of the actions of a plan: what releases risk first, what was rejected last.
abbrev pub rank : PortfolioPlanActionType → ℕ
rank action_close = 0
rank action_reduce = 1
rank action_tighten_stop = 2
rank action_hold = 3
rank action_add = 4
rank action_open = 5
rank action_rejected = 6

abbrev pub is_rejected : PortfolioPlanActionType → Bool
is_rejected action_rejected = true
is_rejected _ = false

-- The modes in which nothing is planned.
abbrev pub is_locked : SystemMode → Bool
is_locked live_locked = true
is_locked reconciliation_required = true
is_locked _ = false

-- `sorted(...)` of texts.
abbrev pub sorted_texts : List Text → List Text
sorted_texts = sorted (λ s t. not (text_ltb t s))

abbrev pub prefixed : Text → List Text → List Text
prefixed prefix = map (λ (s : Text). prefix ++ s)

module _ {D : Type 0} where
  -- The key `(rank, priority, symbol)`: whether the left one is the smaller.
  unfoldable pub is_ahead : PortfolioPlanAction D → PortfolioPlanAction D → Bool
  is_ahead x y =
      ltb (rank x.action) (rank y.action)
      || ((rank x.action == rank y.action)
          && (ltb x.priority y.priority
              || ((x.priority == y.priority) && text_ltb x.symbol y.symbol)))

  abbrev pub may_lead : PortfolioPlanAction D → PortfolioPlanAction D → Bool
  may_lead x y = not (is_ahead y x)

  -- `_ordered`
  unfoldable pub ordered : List (PortfolioPlanAction D) → List (PortfolioPlanAction D)
  ordered = sorted may_lead

  unfoldable pub numbered : ℕ → List (PortfolioPlanAction D) → List (PortfolioPlanAction D)
  numbered n [] = []
  numbered n (x ∷ rest) = record x { action_sequence = n } ∷ numbered (suc n) rest

  unfoldable pub missing_positions : Request D → List Text
  missing_positions r =
      sorted_texts (keep (λ s. is_none (lookup s (allocations_of r))) (keys (current_by_symbol r)))

  abbrev pub without_filters : Request D → List (Text × PortfolioAllocation D) → List Text
  without_filters r [] = []
  without_filters r ((s, a) ∷ rest) =
      if not (is_flat_target a.target_side) && is_none (lookup s r.filters)
      then s ∷ without_filters r rest
      else without_filters r rest

  unfoldable pub missing_filters : Request D → List Text
  missing_filters r = sorted_texts (without_filters r (allocations_of r))

  abbrev pub any_rejected : List (PortfolioPlanAction D) → Bool
  any_rejected = any (λ (x : PortfolioPlanAction D). is_rejected x.action)

  abbrev pub any_approved : List (PortfolioPlanAction D) → Bool
  any_approved = any (λ (x : PortfolioPlanAction D). not (is_rejected x.action))

  -- The plan has no reasons yet where its status is set.
  unfoldable pub status_of_plan : List (PortfolioPlanAction D) → PortfolioPlanStatus
  status_of_plan actions =
      if any_approved actions && any_rejected actions
      then plan_partially_approved
      else if any_approved actions
      then plan_approved
      else elim actions [ [] ↦ plan_no_action | x ∷ rest ↦ plan_rejected ]

module _ {D : Type 0} ⦃d : Decimal D⦄ where
  -- The plan as it is first set up.
  unfoldable pub blank_plan : Request D → PortfolioPlan D
  blank_plan r =
      let decision = r.decision in
      let caps = caps_of r in
      record {
        decision_id = decision.decision_id;
        status = plan_rejected;
        capital_base = capital_of r;
        risk_cap_usdt = caps.risk_cap;
        requested_risk_usdt = nought;
        approved_risk_usdt = nought;
        actions = [];
        reasons = [];
      }

  abbrev pub returned : Request D → List Text → PortfolioPlan D
  returned r reasons = record (blank_plan r) { reasons = reasons }

  unfoldable pub requested_of : Request D → PortfolioAllocation D → D
  requested_of r a = elim (lookup a.symbol r.snapshots) [
    | none ↦ nought
    | some m ↦
        let caps = caps_of r in caps.risk_cap ⊗ a.allocation_fraction ⊗ effective_risk_multiplier m
  ]

  unfoldable pub requested_risk : Request D → D
  requested_risk r =
      let decision = r.decision in
      sum (
        map (requested_of r) (
          keep (λ (a : PortfolioAllocation D). not (is_flat_target a.target_side))
            decision.allocations))

  abbrev pub planned_risk : Admission D → D
  planned_risk s = sum (map (λ (p : PositionState D). p.initial_risk_usdt) (values s.projected))

  unfoldable pub concluded : Request D → Admission D → PortfolioPlan D
  concluded r s =
      let actions = numbered 1 (ordered s.actions) in
      let caps = caps_of r in
      record (blank_plan r) {
        requested_risk_usdt = requested_risk r;
        actions = actions;
        approved_risk_usdt = min caps.risk_cap (planned_risk s);
        status = status_of_plan actions;
        reasons = if any_rejected actions then text "one_or_more_allocations_rejected" ∷ [] else [];
      }

  -- The survey, the admission and the plan, where no early return was taken.
  unfoldable pub planned : Request D → Result KeyError (PortfolioPlan D)
  planned r = and_then (and_then (surveyed r) (admitted r)) (λ s. ok (concluded r s))

  unfoldable pub unless_unfiltered : Request D → List Text → Result KeyError (PortfolioPlan D)
  unless_unfiltered r [] = planned r
  unless_unfiltered r (s ∷ rest) =
      ok (returned r (prefixed (text "exchange_filters_missing:") (s ∷ rest)))

  unfoldable pub unless_missing : Request D → List Text → Result KeyError (PortfolioPlan D)
  unless_missing r [] = unless_unfiltered r (missing_filters r)
  unless_missing r (s ∷ rest) =
      ok (returned r (prefixed (text "missing_existing_position_allocation:") (s ∷ rest)))

  unfoldable pub compile : Request D → Result KeyError (PortfolioPlan D)
  compile r =
      let decision = r.decision in
      if leb decision.expires_at r.now
      then ok (returned r (text "portfolio_decision_expired" ∷ []))
      else if is_locked r.mode
      then ok (returned r (text "system_mode_disallows_entries" ∷ []))
      else unless_missing r (missing_positions r)
