-- ===== src/Risk/Portfolio/Admission.antt =====
-- The loop of `compile` of risk/portfolio.py that admits increases of risk, in order of priority.
use ai_coinletgo.Prelude.{
  ℕ, Bool, true, false, not, ◌&&◌, ◌||◌, ◌+◌, ◌*◌, Option, none, some, List, [], ◌∷◌, ◌++◌,
  if◌then◌else◌, any, ◌==◌, ltb, nat_eq,
}
use ai_coinletgo.Prelude.Text.{Text, text, text_eq, text_ltb}
use ai_coinletgo.Prelude.Dict.{insert}
use ai_coinletgo.Prelude.Result.{Result, ok, and_then}
use ai_coinletgo.Prelude.Sorting.{sorted}
use ai_coinletgo.Decimal.{Decimal, ◌≺◌, same, nought, ◌⊕◌, minus, sum}
use ai_coinletgo.Domain.Enums.{SystemMode, paused, risk_halted, PositionSide, long, short}
use ai_coinletgo.Domain.Market.{MarketSnapshot}
use ai_coinletgo.Domain.Account.{PositionState, fill_initial_risk_metadata}
use ai_coinletgo.Domain.Portfolio.{
  PortfolioPlanActionType, action_add, action_reduce, action_hold, action_tighten_stop,
  PortfolioAllocation, PortfolioPlanAction,
}
use ai_coinletgo.Risk.Portfolio.Pricing.{strong_target_override, reference_price, rejected_source}
use ai_coinletgo.Risk.Portfolio.Validation.{
  KeyError, Positions, is_open, or_else, validate_increase,
}
use ai_coinletgo.Risk.Portfolio.Survey.{Request, Increase, Survey, caps_of, fetch, resized}

-- `approved_risk`, `projected` and `reductions`, as the loop changes them.
pub record Admission (D : Type 0) : Type 0 where
  pub approved_risk : D
  pub projected : Positions D
  pub actions : List (PortfolioPlanAction D)

-- The actions whose risk stays in the book.
abbrev pub keeps_risk : PortfolioPlanActionType → Bool
keeps_risk action_hold = true
keeps_risk action_add = true
keeps_risk action_reduce = true
keeps_risk action_tighten_stop = true
keeps_risk _ = false

abbrev pub is_blocked : SystemMode → Bool
is_blocked paused = true
is_blocked risk_halted = true
is_blocked _ = false

-- `PositionSide.value`
abbrev pub side_value : PositionSide → Text
side_value long = text "LONG"
side_value short = text "SHORT"

-- Whether the cooldown is still running, in microseconds.
unfoldable pub cooldown_active : Option ℕ → ℕ → ℕ → Bool
cooldown_active none minutes now = false
cooldown_active (some last) minutes now = ltb 0 minutes && ltb now (last + 60_000_000 * minutes)

module _ {D : Type 0} where
  abbrev pub recorded : PortfolioPlanAction D → Admission D → Admission D
  recorded x s = record s { actions = s.actions ++ (x ∷ []) }

module _ {D : Type 0} ⦃d : Decimal D⦄ where
  -- The key `(priority, -confidence, symbol)`: whether the left one is the smaller.
  unfoldable pub goes_before : PortfolioAllocation D → PortfolioAllocation D → Bool
  goes_before a b =
      ltb a.priority b.priority
      || ((a.priority == b.priority)
          && ((minus a.confidence ≺ minus b.confidence)
              || (same (minus a.confidence) (minus b.confidence) && text_ltb a.symbol b.symbol)))

  abbrev pub may_precede : Increase D → Increase D → Bool
  may_precede x y = not (goes_before y.allocation x.allocation)

  -- `action.stop_price or Decimal("0.00000001")`
  abbrev pub planned_stop : Option D → D
  planned_stop none = d.lit 1 8
  planned_stop (some stop) = if same stop nought then d.lit 1 8 else stop

  -- The position that an opening plans, as its model fills it.
  abbrev pub planned_position :
      PortfolioPlanAction D → PositionSide → MarketSnapshot D → PositionState D
  planned_position x side m = fill_initial_risk_metadata (record {
    position_id = text "planned-" ++ x.symbol ++ text "-" ++ side_value side;
    symbol = x.symbol;
    side = side;
    quantity = x.target_quantity;
    initial_quantity = none;
    entry_price = reference_price x m;
    mark_price = reference_price x m;
    stop_price = planned_stop x.stop_price;
    tp1_price = none;
    tp2_price = none;
    tp1_completed = false;
    tp1_status_known = false;
    original_stop_price = none;
    initial_risk_usdt = x.target_risk_usdt;
    unrealized_pnl = nought;
    margin_used = nought;
    current_r = nought;
    protected = true;
  })

  -- The action with the note that a strong trend let it in.
  unfoldable pub with_override : Bool → PortfolioPlanAction D → PortfolioPlanAction D
  with_override override x =
      if override && not (any (λ reason. reason == text "strong_trend_entry_override") x.reasons)
      then record x { reasons = x.reasons ++ (text "strong_trend_entry_override" ∷ []) }
      else x

  -- The capacity and the cooldown, after the validation.
  unfoldable pub capacity_reason : D → D → D → Bool → Option Text
  capacity_reason approved risk cap cooling =
      if cap ≺ approved ⊕ risk
      then some (text "portfolio_risk_capacity_exhausted")
      else if cooling
      then some (text "rebalance_cooldown_active")
      else none

  abbrev pub admission_reason :
      Request D
      → PortfolioAllocation D
      → PortfolioPlanAction D
      → MarketSnapshot D
      → Admission D
      → Result KeyError (Option Text)
  admission_reason r a x m s =
      if is_blocked r.mode
      then ok (some (text "system_mode_disallows_risk_increase"))
      else and_then (validate_increase x a m s.projected r.limits r.account r.correlations)
          (λ reason.
            let caps = caps_of r in
            ok (
              or_else reason (
                capacity_reason s.approved_risk x.target_risk_usdt caps.risk_cap
                  (cooldown_active r.last_rebalance_at r.cooldown_minutes r.now))))

  abbrev pub taken : PortfolioPlanAction D → PositionState D → Admission D → Admission D
  taken x p s = recorded x (record s {
    approved_risk = s.approved_risk ⊕ x.target_risk_usdt;
    projected = insert x.symbol p s.projected;
  })

  unfoldable pub take_opening :
      PortfolioAllocation D
      → PortfolioPlanAction D
      → MarketSnapshot D
      → Admission D
      → Option PositionSide
      → Admission D
  take_opening a x m s none = recorded (rejected_source a (text "invalid_portfolio_action") x) s
  take_opening a x m s (some side) = taken x (planned_position x side m) s

  unfoldable pub take :
      PortfolioAllocation D
      → PortfolioPlanAction D
      → MarketSnapshot D
      → Admission D
      → Result KeyError (Admission D)
  take a x m s =
      if is_open x.action
      then ok (take_opening a x m s x.side)
      else and_then (fetch x.symbol s.projected) (λ previous. ok (taken x (resized previous x) s))

  unfoldable pub unless_refused :
      PortfolioAllocation D
      → PortfolioPlanAction D
      → MarketSnapshot D
      → Admission D
      → Option Text
      → Result KeyError (Admission D)
  unless_refused a x m s (some reason) = ok (recorded (rejected_source a reason x) s)
  unless_refused a x m s none = take a x m s

  unfoldable pub admit : Request D → Increase D → Admission D → Result KeyError (Admission D)
  admit r increase s =
      let a = increase.allocation in
      let action = increase.action in
      and_then (fetch action.symbol r.snapshots) (λ m.
        let x = with_override (strong_target_override a m r.limits) action in
        and_then (admission_reason r a x m s) (unless_refused a x m s))

  unfoldable pub admit_all :
      Request D → List (Increase D) → Admission D → Result KeyError (Admission D)
  admit_all r [] s = ok s
  admit_all r (x ∷ rest) s = and_then (admit r x s) (admit_all r rest)

  abbrev pub risks_of : List (PortfolioPlanAction D) → List D
  risks_of [] = []
  risks_of (x ∷ rest) =
      if keeps_risk x.action then x.target_risk_usdt ∷ risks_of rest else risks_of rest

  -- The loop starts from what the survey has left of the book.
  unfoldable pub opening_admission : Survey D → Admission D
  opening_admission s = record {
    approved_risk = sum (risks_of s.reductions);
    projected = s.projected;
    actions = s.reductions;
  }

  unfoldable pub admitted : Request D → Survey D → Result KeyError (Admission D)
  admitted r s = admit_all r (sorted may_precede s.increases) (opening_admission s)
