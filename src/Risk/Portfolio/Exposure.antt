-- ===== src/Risk/Portfolio/Exposure.antt =====
-- The loop of `compile` of risk/portfolio.py that admits increases keeps to the limits at every step.
use ai_coinletgo.Prelude.{
  ◌≡◌, refl, sym, subst, Bool, true, false, Option, none, some, List, [], ◌∷◌, inl, inr, ◌⊎◌, ◌≤◌,
  arith, ◌==◌, length, Bool-cases,
}
use ai_coinletgo.Prelude.Text.{Text, text_eq}
use ai_coinletgo.Prelude.Dict.{lookup}
use ai_coinletgo.Prelude.Result.{Result, ok, err, ok-injective, and_then, Returns, and_then-Returns}
use ai_coinletgo.Prelude.Sorting.{sorted}
use ai_coinletgo.Decimal.{Decimal, ◌≼◌, ◌⊕◌}
use ai_coinletgo.Domain.Enums.{PositionSide, side_eq, side_beq_iff}
use ai_coinletgo.Domain.Market.{MarketSnapshot}
use ai_coinletgo.Domain.Account.{PositionState, fill_initial_risk_metadata}
use ai_coinletgo.Domain.Limits.{RiskLimits}
use ai_coinletgo.Domain.Portfolio.{PortfolioAllocation, PortfolioPlanAction}
use ai_coinletgo.Risk.Portfolio.Pricing.{strong_target_override}
use ai_coinletgo.Risk.Portfolio.Existing.{RiskCaps}
use ai_coinletgo.Risk.Portfolio.Validation.{
  KeyError, key_missing, is_open, or_else, same_direction, validate_increase,
}
use ai_coinletgo.Risk.Portfolio.Survey.{Request, Increase, Survey, caps_of, fetch, resized}
use ai_coinletgo.Risk.Portfolio.Admission.{
  Admission, is_blocked, cooldown_active, may_precede, planned_position, with_override,
  capacity_reason, admission_reason, taken, take_opening, take, unless_refused, admit, admit_all,
  opening_admission, admitted,
}
use ai_coinletgo.Risk.Portfolio.Room.{IsRoomy, validate_increase-IsRoomy}
use ai_coinletgo.Risk.Portfolio.Counts.{
  passing-insert, passing-insert_found, length-insert, length-insert_found,
}

anything : {A : Type 0} (x : Result KeyError A) → Returns {0, 0, 0} (λ a. Unit) x
anything (ok a) = tt
anything (err e) = tt

refused_ok :
    (B : Type 0) (reason : Text)
    → ◌≡◌ {A = Result KeyError (Option Text)} (ok (some reason)) (ok none)
    → B
refused_ok B reason h = cc

joined-none :
    (validation : Result KeyError (Option Text)) (capacity : Option Text)
    → and_then validation (λ reason. ok (or_else reason capacity)) ≡ ok none
    → (validation ≡ ok none) × (capacity ≡ none)
joined-none (ok none) capacity h = (refl, ok-injective h)
joined-none (ok (some reason)) capacity h = cc
joined-none (err e) capacity h = cc

module _ {D : Type 0} ⦃d : Decimal D⦄ where
  -- From one state of the loop to another: what was not changed, or is within its limit.
  pub record IsLimited (r : Request D) (start : Admission D) (s : Admission D) : Type 0 where
    pub budget :
        (s.approved_risk ≡ start.approved_risk)
        ⊎ ((s.approved_risk ≼ RiskCaps.risk_cap (caps_of r)) ≡ true)
    pub positions :
        (length s.projected ≤ length start.projected)
        ⊎ (length s.projected ≤ RiskLimits.max_positions r.limits)
    pub sides :
        (side : PositionSide)
        → (same_direction side s.projected ≤ same_direction side start.projected)
          ⊎ (same_direction side s.projected ≤ RiskLimits.max_same_direction r.limits)

  IsLimited-refl : (r : Request D) (s : Admission D) → IsLimited r s s
  IsLimited-refl r s = record {
    budget = inl refl;
    positions = inl (omega arith);
    sides = λ side. inl (omega arith);
  }

  -- An action that the limits have room for, and the risk cap capacity, is taken within them.
  taken_opening-IsLimited :
      (r : Request D)
      → (start s : Admission D) → (x : PortfolioPlanAction D) → (m : MarketSnapshot D)
      → (roomy : IsRoomy x m s.projected r.limits r.account r.correlations)
      → is_open x.action ≡ true
      → ((s.approved_risk ⊕ x.target_risk_usdt ≼ RiskCaps.risk_cap (caps_of r)) ≡ true)
      → IsLimited r start s
      → IsLimited r start (taken x (planned_position x roomy.side m) s)
  unfolding fill_initial_risk_metadata
  taken_opening-IsLimited r start s x m roomy opens fits h =
      let p = planned_position x roomy.side m in
      record {
        budget = inr fits;
        positions =
            inr (ground (arith, length-insert x.symbol p s.projected, rw opens at roomy.positions));
        sides = λ side. elim (Bool-cases (roomy.side == side)) [
          | inl same ↦ inr (
              ground (
                arith,
                (side_beq_iff roomy.side side).0 same,
                passing-insert (λ (q : PositionState D). q.side == side) x.symbol p s.projected,
                rw opens at roomy.direction,
              ))
          | inr other ↦ ground (
            arith,
            passing-insert (λ (q : PositionState D). q.side == side) x.symbol p s.projected,
            h.sides side,
          )
        ];
      }

  taken_addition-IsLimited :
      (r : Request D)
      → (start s : Admission D) → (x : PortfolioPlanAction D) → (previous : PositionState D)
      → lookup x.symbol s.projected ≡ some previous
      → ((s.approved_risk ⊕ x.target_risk_usdt ≼ RiskCaps.risk_cap (caps_of r)) ≡ true)
      → IsLimited r start s
      → IsLimited r start (taken x (resized previous x) s)
  taken_addition-IsLimited r start s x previous found fits h =
      let p = resized previous x in
      record {
        budget = inr fits;
        positions =
            ground (arith, h.positions, length-insert_found x.symbol p previous s.projected found);
        sides = λ side. ground (
          arith,
          h.sides side,
          passing-insert_found (λ (q : PositionState D). q.side == side) x.symbol p previous
              s.projected found refl,
        );
      }

  -- What an action without a reason against it has passed.
  abbrev IsCleared :
      Request D
      → PortfolioAllocation D
      → PortfolioPlanAction D
      → MarketSnapshot D
      → Admission D
      → Type 0
  IsCleared r a x m s =
      (is_blocked r.mode ≡ false)
      × IsRoomy x m s.projected r.limits r.account r.correlations
      × ((s.approved_risk ⊕ x.target_risk_usdt ≼ RiskCaps.risk_cap (caps_of r)) ≡ true)

  abbrev cap_reason : Request D → PortfolioPlanAction D → Admission D → Option Text
  cap_reason r x s =
      capacity_reason s.approved_risk x.target_risk_usdt (RiskCaps.risk_cap (caps_of r))
        (cooldown_active r.last_rebalance_at r.cooldown_minutes r.now)

  capacity_reason-none :
      (approved risk cap : D) (cooling : Bool)
      → capacity_reason approved risk cap cooling ≡ none
      → (approved ⊕ risk ≼ cap) ≡ true
  unfolding capacity_reason
  capacity_reason-none approved risk cap cooling h = ground arith

  admission_reason-IsCleared :
      (r : Request D) (a : PortfolioAllocation D) (x : PortfolioPlanAction D) (m : MarketSnapshot D)
      (s : Admission D)
      → admission_reason r a x m s ≡ ok none
      → IsCleared r a x m s
  admission_reason-IsCleared r a x m s h = elim (Bool-cases (is_blocked r.mode)) [
    | inl blocked ↦ refused_ok (IsCleared r a x m s) _ (rw blocked at h)
    | inr free ↦
        let both =
          joined-none (validate_increase x a m s.projected r.limits r.account r.correlations)
            (cap_reason r x s) (rw free at h) in
        (
          free,
          validate_increase-IsRoomy x a m s.projected r.limits r.account r.correlations both.0,
          capacity_reason-none s.approved_risk x.target_risk_usdt (RiskCaps.risk_cap (caps_of r))
              (cooldown_active r.last_rebalance_at r.cooldown_minutes r.now) both.1,
        )
  ]

  take_found-IsLimited :
      (r : Request D)
      → (start s : Admission D) → (x : PortfolioPlanAction D)
      → ((s.approved_risk ⊕ x.target_risk_usdt ≼ RiskCaps.risk_cap (caps_of r)) ≡ true)
      → IsLimited r start s
      → (found : Option (PositionState D)) → lookup x.symbol s.projected ≡ found
      → Returns (IsLimited r start) (
          and_then
            (elim found [ none ↦ err (key_missing x.symbol) | some p ↦ ok p ])
            (λ previous. ok (taken x (resized previous x) s)))
  take_found-IsLimited r start s x fits h none same = tt
  take_found-IsLimited r start s x fits h (some p) same =
      taken_addition-IsLimited r start s x p same fits h

  take-IsLimited :
      (r : Request D)
      → (start s : Admission D) → (a : PortfolioAllocation D) → (x : PortfolioPlanAction D)
      → (m : MarketSnapshot D) → IsCleared r a x m s
      → IsLimited r start s
      → Returns (IsLimited r start) (take a x m s)
  unfolding take take_opening
  take-IsLimited r start s a x m cleared h = elim (Bool-cases (is_open x.action)) [
    | inl opens ↦ rw opens (
        subst (λ side. IsLimited r start (take_opening a x m s side))
          (sym (IsRoomy.sided cleared.1))
          (taken_opening-IsLimited r start s x m cleared.1 opens cleared.2 h))
    | inr adds ↦
        rw adds (take_found-IsLimited r start s x cleared.2 h (lookup x.symbol s.projected) refl)
  ]

  settled-IsLimited :
      (r : Request D)
      → (start s : Admission D) → (a : PortfolioAllocation D) → (x : PortfolioPlanAction D)
      → (m : MarketSnapshot D) → (answer : Result KeyError (Option Text))
      → admission_reason r a x m s ≡ answer
      → IsLimited r start s
      → Returns (IsLimited r start) (and_then answer (unless_refused a x m s))
  unfolding unless_refused
  settled-IsLimited r start s a x m (err e) same h = tt
  settled-IsLimited r start s a x m (ok (some reason)) same h = record {
    budget = h.budget;
    positions = h.positions;
    sides = h.sides;
  }
  settled-IsLimited r start s a x m (ok none) same h =
      take-IsLimited r start s a x m (admission_reason-IsCleared r a x m s same) h

  admit-IsLimited :
      (r : Request D) (start s : Admission D) (increase : Increase D)
      → IsLimited r start s
      → Returns (IsLimited r start) (admit r increase s)
  unfolding admit
  admit-IsLimited r start s increase h =
      let a = increase.allocation in
      let action = increase.action in
      and_then-Returns {0, 0, 0, 0, 0} (λ m. Unit) (IsLimited r start)
        (fetch action.symbol r.snapshots) _ (anything (fetch action.symbol r.snapshots))
        (λ m ignored.
          let x = with_override (strong_target_override a m r.limits) action in
          settled-IsLimited r start s a x m (admission_reason r a x m s) refl h)

  admit_all-IsLimited :
      (r : Request D) (start s : Admission D) (xs : List (Increase D))
      → IsLimited r start s
      → Returns (IsLimited r start) (admit_all r xs s)
  unfolding admit_all
  admit_all-IsLimited r start s [] h = h
  admit_all-IsLimited r start s (x ∷ xs) h =
      and_then-Returns (IsLimited r start) (IsLimited r start) (admit r x s) (admit_all r xs)
        (admit-IsLimited r start s x h) (λ after. admit_all-IsLimited r start after xs)

  -- Whatever increases of risk a decision asks for, the loop that admits them ends, unless a key is missing,
  -- with its approved risk, its number of projected positions and their number on either side each no
  -- more than it was at the start or else within its limit: the risk cap, the most positions, the most
  -- in one direction.
  pub admitted-IsLimited :
      (r : Request D) (s : Survey D) → Returns (IsLimited r (opening_admission s)) (admitted r s)
  unfolding admitted
  admitted-IsLimited r s =
      admit_all-IsLimited r (opening_admission s) (opening_admission s)
        (sorted may_precede s.increases) (IsLimited-refl r (opening_admission s))
