-- ===== src/Risk/Portfolio/Blocked.antt =====
-- risk/portfolio.py in the modes that block increases of risk: nothing is opened, and nothing added to.
use ai_coinletgo.Prelude.{
  arith, ◌≡◌, refl, ap, Bool, true, false, ◌||◌, Option, none, some, List, [], ◌∷◌, ◌++◌, inl, inr,
  All, All-append, Bool-cases,
}
use ai_coinletgo.Prelude.Text.{Text, text, text_eq}
use ai_coinletgo.Prelude.Dict.{lookup}
use ai_coinletgo.Prelude.Result.{Result, ok, err, and_then, Returns, and_then-Returns}
use ai_coinletgo.Prelude.Sorting.{sorted}
use ai_coinletgo.Decimal.{Decimal}
use ai_coinletgo.Domain.Market.{MarketSnapshot}
use ai_coinletgo.Domain.Account.{PositionState, ExchangeFilters}
use ai_coinletgo.Domain.Limits.{RiskLimits}
use ai_coinletgo.Domain.Portfolio.{
  PortfolioPlanActionType, action_open, action_add, action_reduce, action_close, action_hold,
  action_tighten_stop, action_rejected, PortfolioAllocation, PortfolioPlanAction, is_flat_target,
}
use ai_coinletgo.Risk.Portfolio.Pricing.{
  is_none, strong_target_override, rejected_with, rejected_alone, rejected_source,
  apply_manual_exit_levels,
}
use ai_coinletgo.Risk.Portfolio.Existing.{RiskCaps, existing_action}
use ai_coinletgo.Risk.Portfolio.Opening.{new_action, opening_reason, unless_reason}
use ai_coinletgo.Risk.Portfolio.Validation.{KeyError, Positions, is_open, is_add}
use ai_coinletgo.Risk.Portfolio.Survey.{
  Request, Increase, Survey, current_by_symbol, allocations_of, caps_of, fetch, sort_existing,
  sort_new, survey_position, survey_positions, survey_listed, survey_candidate, survey_candidates,
  surveyed,
}
use ai_coinletgo.Risk.Portfolio.Admission.{
  Admission, is_blocked, may_precede, with_override, admission_reason, unless_refused, admit,
  admit_all, opening_admission, admitted,
}

-- Whether an action adds risk.
abbrev pub raises : PortfolioPlanActionType → Bool
raises kind = is_open kind || is_add kind

pub anything : {A : Type 0} (x : Result KeyError A) → Returns {0, 0, 0} (λ a. Unit) x
anything (ok a) = tt
anything (err e) = tt

module _ {D : Type 0} where
  abbrev pub IsQuiet : List (PortfolioPlanAction D) → Type 0
  IsQuiet = All (λ (x : PortfolioPlanAction D). raises x.action ≡ false)

  abbrev Quietly : Survey D → Type 0
  Quietly s = IsQuiet s.reductions

  retained-IsQuiet :
      (x : PortfolioPlanAction D) (s : Survey D)
      → raises x.action ≡ false
      → Quietly s
      → IsQuiet (s.reductions ++ (x ∷ []))
  retained-IsQuiet x s calm h =
      All-append (λ (y : PortfolioPlanAction D). raises y.action ≡ false) s.reductions (x ∷ []) h
        (calm, tt)

  sort_existing-IsQuiet :
      (symbol : Text)
      → (p : PositionState D) → (a : PortfolioAllocation D) → (x : PortfolioPlanAction D)
      → (s : Survey D) → (kind : PortfolioPlanActionType) → x.action ≡ kind
      → Quietly s
      → Quietly (sort_existing symbol p a x s kind)
  unfolding sort_existing
  sort_existing-IsQuiet symbol p a x s action_close same h = retained-IsQuiet x s (ap raises same) h
  sort_existing-IsQuiet symbol p a x s action_reduce same h =
      retained-IsQuiet x s (ap raises same) h
  sort_existing-IsQuiet symbol p a x s action_tighten_stop same h =
      retained-IsQuiet x s (ap raises same) h
  sort_existing-IsQuiet symbol p a x s action_rejected same h =
      retained-IsQuiet x s (ap raises same) h
  sort_existing-IsQuiet symbol p a x s action_hold same h = retained-IsQuiet x s (ap raises same) h
  sort_existing-IsQuiet symbol p a x s action_add same h = h
  sort_existing-IsQuiet symbol p a x s action_open same h = h

  -- An addition is never made of a candidate, whose action is an opening or a rejection.
  sort_new-IsQuiet :
      (a : PortfolioAllocation D)
      → (x : PortfolioPlanAction D) → (s : Survey D) → (kind : PortfolioPlanActionType)
      → x.action ≡ kind
      → is_add kind ≡ false
      → Quietly s
      → Quietly (sort_new a x s kind)
  unfolding sort_new
  sort_new-IsQuiet a x s action_open same apart h = h
  sort_new-IsQuiet a x s action_add same apart h = cc
  sort_new-IsQuiet a x s action_reduce same apart h = retained-IsQuiet x s (ap raises same) h
  sort_new-IsQuiet a x s action_close same apart h = retained-IsQuiet x s (ap raises same) h
  sort_new-IsQuiet a x s action_hold same apart h = retained-IsQuiet x s (ap raises same) h
  sort_new-IsQuiet a x s action_tighten_stop same apart h = retained-IsQuiet x s (ap raises same) h
  sort_new-IsQuiet a x s action_rejected same apart h = retained-IsQuiet x s (ap raises same) h

module _ {D : Type 0} ⦃d : Decimal D⦄ where
  unless_reason-adds_nothing :
      (a : PortfolioAllocation D)
      → (m : MarketSnapshot D) → (f : ExchangeFilters D) → (caps : RiskCaps D) → (l : RiskLimits D)
      → (reason : Option Text)
      → is_add (PortfolioPlanAction.action (unless_reason a m f caps l reason)) ≡ false
  unfolding unless_reason rejected_with
  unless_reason-adds_nothing a m f caps l (some reason) = refl
  unless_reason-adds_nothing a m f caps l none = ground arith

  new_action-adds_nothing :
      (a : PortfolioAllocation D) (m : MarketSnapshot D) (f : ExchangeFilters D) (caps : RiskCaps D)
      (l : RiskLimits D)
      → is_add (PortfolioPlanAction.action (new_action a m f caps l)) ≡ false
  unfolding new_action
  new_action-adds_nothing allocation m f caps l =
      let a = apply_manual_exit_levels allocation m l in
      unless_reason-adds_nothing a m f caps l (opening_reason a m l)

  survey_position-IsQuiet :
      (r : Request D) (symbol : Text) (p : PositionState D) (s : Survey D)
      → Quietly s
      → Returns Quietly (survey_position r symbol p s)
  unfolding survey_position
  survey_position-IsQuiet r symbol p s h =
      and_then-Returns {0, 0, 0, 0, 0} (λ a. Unit) Quietly (fetch symbol (allocations_of r)) _
        (anything (fetch symbol (allocations_of r)))
        (λ a ignored.
          and_then-Returns {0, 0, 0, 0, 0} (λ f. Unit) Quietly (fetch symbol r.filters) _
            (anything (fetch symbol r.filters))
            (λ f ignored'.
              let x = existing_action a p (lookup symbol r.snapshots) f (caps_of r) r.limits in
              sort_existing-IsQuiet symbol p a x s x.action refl h))

  survey_positions-IsQuiet :
      (r : Request D) (rest : Positions D) (s : Survey D)
      → Quietly s
      → Returns Quietly (survey_positions r rest s)
  unfolding survey_positions
  survey_positions-IsQuiet r [] s h = h
  survey_positions-IsQuiet r ((symbol, p) ∷ rest) s h =
      and_then-Returns Quietly Quietly (survey_position r symbol p s) (survey_positions r rest)
        (survey_position-IsQuiet r symbol p s h) (survey_positions-IsQuiet r rest)

  survey_listed-IsQuiet :
      (r : Request D) (a : PortfolioAllocation D) (s : Survey D) (m : Option (MarketSnapshot D))
      → Quietly s
      → Returns Quietly (survey_listed r a s m)
  unfolding rejected_with
  survey_listed-IsQuiet r a s none h =
      retained-IsQuiet (rejected_alone a (text "allocation_symbol_not_in_candidates")) s refl h
  survey_listed-IsQuiet r a s (some m) h =
      and_then-Returns {0, 0, 0, 0, 0} (λ f. Unit) Quietly (fetch a.symbol r.filters) _
        (anything (fetch a.symbol r.filters))
        (λ f ignored.
          let x = new_action a m f (caps_of r) r.limits in
          sort_new-IsQuiet a x s x.action refl (new_action-adds_nothing a m f (caps_of r) r.limits)
            h)

  survey_candidate-IsQuiet :
      (r : Request D) (a : PortfolioAllocation D) (s : Survey D)
      → Quietly s
      → Returns Quietly (survey_candidate r a s)
  unfolding survey_candidate
  survey_candidate-IsQuiet r a s h =
      elim (Bool-cases (is_none (lookup a.symbol (current_by_symbol r)))) [
        | inr held ↦ rw held h
        | inl free ↦ rw free (elim (Bool-cases (is_flat_target a.target_side)) [
          | inl flat ↦ rw flat h
          | inr wanted ↦ rw wanted (survey_listed-IsQuiet r a s (lookup a.symbol r.snapshots) h)
        ])
      ]

  survey_candidates-IsQuiet :
      (r : Request D) (rest : List (PortfolioAllocation D)) (s : Survey D)
      → Quietly s
      → Returns Quietly (survey_candidates r rest s)
  unfolding survey_candidates
  survey_candidates-IsQuiet r [] s h = h
  survey_candidates-IsQuiet r (a ∷ rest) s h =
      and_then-Returns Quietly Quietly (survey_candidate r a s) (survey_candidates r rest)
        (survey_candidate-IsQuiet r a s h) (survey_candidates-IsQuiet r rest)

  surveyed-IsQuiet : (r : Request D) → Returns Quietly (surveyed r)
  unfolding surveyed
  surveyed-IsQuiet r =
      let decision = r.decision in
      let start : Survey D = record {
        projected = current_by_symbol r;
        reductions = [];
        increases = [];
      } in
      and_then-Returns Quietly Quietly (survey_positions r (current_by_symbol r) start)
        (survey_candidates r decision.allocations)
        (survey_positions-IsQuiet r (current_by_symbol r) start tt)
        (survey_candidates-IsQuiet r decision.allocations)

  settled-Calm :
      (r : Request D)
      → (a : PortfolioAllocation D) → (x : PortfolioPlanAction D) → (m : MarketSnapshot D)
      → (s : Admission D) → is_blocked r.mode ≡ true
      → IsQuiet s.actions
      → Returns
          (λ (after : Admission D). IsQuiet after.actions)
          (and_then (admission_reason r a x m s) (unless_refused a x m s))
  unfolding unless_refused rejected_with
  settled-Calm r a x m s blocked h = rw blocked (
      All-append (λ (y : PortfolioPlanAction D). raises y.action ≡ false) s.actions
        (rejected_source a (text "system_mode_disallows_risk_increase") x ∷ []) h (refl, tt))

  admit-Calm :
      (r : Request D) (increase : Increase D) (s : Admission D)
      → is_blocked r.mode ≡ true
      → IsQuiet s.actions
      → Returns (λ (after : Admission D). IsQuiet after.actions) (admit r increase s)
  unfolding admit
  admit-Calm r increase s blocked h =
      let a = increase.allocation in
      let action = increase.action in
      and_then-Returns {0, 0, 0, 0, 0} (λ m. Unit) (λ (after : Admission D). IsQuiet after.actions)
        (fetch action.symbol r.snapshots) _ (anything (fetch action.symbol r.snapshots))
        (λ m ignored.
          settled-Calm r a (with_override (strong_target_override a m r.limits) action) m s blocked
            h)

  admit_all-Calm :
      (r : Request D) (xs : List (Increase D)) (s : Admission D)
      → is_blocked r.mode ≡ true
      → IsQuiet s.actions
      → Returns (λ (after : Admission D). IsQuiet after.actions) (admit_all r xs s)
  unfolding admit_all
  admit_all-Calm r [] s blocked h = h
  admit_all-Calm r (x ∷ xs) s blocked h =
      and_then-Returns (λ (after : Admission D). IsQuiet after.actions)
        (λ (after : Admission D). IsQuiet after.actions) (admit r x s) (admit_all r xs)
        (admit-Calm r x s blocked h) (λ after. admit_all-Calm r xs after blocked)

  pub admitted-IsQuiet :
      (r : Request D)
      → is_blocked r.mode ≡ true
      → Returns
          (λ (after : Admission D). IsQuiet after.actions)
          (and_then (surveyed r) (admitted r))
  unfolding admitted opening_admission
  admitted-IsQuiet r blocked =
      and_then-Returns Quietly (λ (after : Admission D). IsQuiet after.actions) (surveyed r)
        (admitted r) (surveyed-IsQuiet r)
        (λ s. admit_all-Calm r (sorted may_precede s.increases) (opening_admission s) blocked)
