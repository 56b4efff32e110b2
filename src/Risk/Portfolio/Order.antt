-- ===== src/Risk/Portfolio/Order.antt =====
-- The plans that `compile` of risk/portfolio.py returns: the order of their actions, their numbers, their
-- status, and what the mode of the system keeps out of them.
use ai_coinletgo.Prelude.{
  ℕ, suc, arith, ◌≡◌, refl, true, false, List, [], ◌∷◌, inl, inr, Bool-cases, leb,
}
use ai_coinletgo.Prelude.Text.{Text, text_ltb_asymm}
use ai_coinletgo.Prelude.Result.{Result, ok, err, and_then, Returns, and_then-Returns}
use ai_coinletgo.Prelude.Sorting.{IsBefore, IsSorted, sorted-IsSorted, sorted-All}
use ai_coinletgo.Decimal.{Decimal}
use ai_coinletgo.Domain.Portfolio.{plan_approved, PortfolioPlanAction, PortfolioPlan}
use ai_coinletgo.Risk.Portfolio.Validation.{KeyError}
use ai_coinletgo.Risk.Portfolio.Survey.{Request, surveyed}
use ai_coinletgo.Risk.Portfolio.Admission.{Admission, is_blocked, admitted}
use ai_coinletgo.Risk.Portfolio.Blocked.{raises, IsQuiet, admitted-IsQuiet}
use ai_coinletgo.Risk.Portfolio.Compile.{
  is_locked, is_ahead, may_lead, ordered, numbered, missing_positions, missing_filters,
  any_rejected, any_approved, status_of_plan, blank_plan, returned, concluded, planned,
  unless_unfiltered, unless_missing, compile,
}

module _ {D : Type 0} where
  may_lead_total : (x y : PortfolioPlanAction D) → may_lead x y ≡ false → may_lead y x ≡ true
  unfolding is_ahead
  may_lead_total x y h = ground (arith, text_ltb_asymm y.symbol x.symbol)

  -- The numbers of a plan's actions, from the first one's.
  abbrev pub IsNumbered : ℕ → List (PortfolioPlanAction D) → Type 0
  IsNumbered n [] = Unit
  IsNumbered n (x ∷ rest) = (x.action_sequence ≡ n) × IsNumbered (suc n) rest

  numbered-IsNumbered : (n : ℕ) (xs : List (PortfolioPlanAction D)) → IsNumbered n (numbered n xs)
  unfolding numbered
  numbered-IsNumbered n [] = tt
  numbered-IsNumbered n (x ∷ rest) = (refl, numbered-IsNumbered (suc n) rest)

  numbered-IsBefore :
      (x : PortfolioPlanAction D) (k n : ℕ) (xs : List (PortfolioPlanAction D))
      → IsBefore may_lead x xs
      → IsBefore may_lead (record x { action_sequence = k }) (numbered n xs)
  unfolding numbered is_ahead
  numbered-IsBefore x k n [] h = tt
  numbered-IsBefore x k n (y ∷ rest) h = h

  numbered-IsSorted :
      (n : ℕ) (xs : List (PortfolioPlanAction D))
      → IsSorted may_lead xs
      → IsSorted may_lead (numbered n xs)
  unfolding numbered
  numbered-IsSorted n [] h = tt
  numbered-IsSorted n (x ∷ rest) h =
      (numbered-IsBefore x n (suc n) rest h.0, numbered-IsSorted (suc n) rest h.1)

  numbered-IsQuiet :
      (n : ℕ) (xs : List (PortfolioPlanAction D)) → IsQuiet xs → IsQuiet (numbered n xs)
  unfolding numbered
  numbered-IsQuiet n [] h = tt
  numbered-IsQuiet n (x ∷ rest) h = (h.0, numbered-IsQuiet (suc n) rest h.1)

  status_of_plan_approved :
      (actions : List (PortfolioPlanAction D))
      → status_of_plan actions ≡ plan_approved
      → (any_approved actions ≡ true) × (any_rejected actions ≡ false)
  unfolding status_of_plan
  status_of_plan_approved [] h = cc
  status_of_plan_approved (x ∷ rest) h = elim (Bool-cases (any_approved (x ∷ rest))) [
    | inl some_approved ↦ (some_approved, ground arith)
    | inr all_rejected ↦ ground arith
  ]

module _ {D : Type 0} ⦃d : Decimal D⦄ where
  pub record IsPlan (r : Request D) (plan : PortfolioPlan D) : Type 0 where
    pub order : IsSorted may_lead plan.actions
    pub numbers : IsNumbered 1 plan.actions
    pub blocked : is_blocked r.mode ≡ true → IsQuiet plan.actions
    pub locked : is_locked r.mode ≡ true → plan.actions ≡ []
    pub approval :
        plan.status ≡ plan_approved
        → (any_approved plan.actions ≡ true) × (any_rejected plan.actions ≡ false)

  returned-IsPlan : (r : Request D) (reasons : List Text) → IsPlan r (returned r reasons)
  unfolding blank_plan
  returned-IsPlan r reasons = record {
    order = tt;
    numbers = tt;
    blocked = λ h. tt;
    locked = λ h. refl;
    approval = λ h. cc;
  }

  concluded-IsPlan :
      (r : Request D) (s : Admission D)
      → is_locked r.mode ≡ false
      → (is_blocked r.mode ≡ true → IsQuiet s.actions)
      → IsPlan r (concluded r s)
  unfolding concluded ordered
  concluded-IsPlan r s free calm = record {
    order =
        numbered-IsSorted 1 (ordered s.actions) (sorted-IsSorted may_lead may_lead_total s.actions);
    numbers = numbered-IsNumbered 1 (ordered s.actions);
    blocked = λ h. numbered-IsQuiet 1 (ordered s.actions) (
        sorted-All may_lead (λ (x : PortfolioPlanAction D). raises x.action ≡ false) s.actions
          (calm h));
    locked = λ h. cc;
    approval = status_of_plan_approved (numbered 1 (ordered s.actions));
  }

  -- Where the loop of admissions ends in a state that is quiet if it has to be.
  calm :
      (r : Request D)
      → Returns
          (λ (s : Admission D). is_blocked r.mode ≡ true → IsQuiet s.actions)
          (and_then (surveyed r) (admitted r))
  calm r = elim (Bool-cases (is_blocked r.mode)) [
    | inl blocked ↦ loosened r (and_then (surveyed r) (admitted r)) (admitted-IsQuiet r blocked)
    | inr free ↦ unmoved r (and_then (surveyed r) (admitted r)) free
  ]
    where
      loosened :
          (r : Request D) (x : Result KeyError (Admission D))
          → Returns (λ (s : Admission D). IsQuiet s.actions) x
          → Returns (λ (s : Admission D). is_blocked r.mode ≡ true → IsQuiet s.actions) x
      loosened r (ok s) h = λ blocked. h
      loosened r (err e) h = tt

      unmoved :
          (r : Request D) (x : Result KeyError (Admission D))
          → is_blocked r.mode ≡ false
          → Returns (λ (s : Admission D). is_blocked r.mode ≡ true → IsQuiet s.actions) x
      unmoved r (ok s) free = λ blocked. cc
      unmoved r (err e) free = tt

  planned-IsPlan : (r : Request D) → is_locked r.mode ≡ false → Returns (IsPlan r) (planned r)
  unfolding planned
  planned-IsPlan r free =
      and_then-Returns (λ (s : Admission D). is_blocked r.mode ≡ true → IsQuiet s.actions)
        (IsPlan r) (and_then (surveyed r) (admitted r)) (λ s. ok (concluded r s)) (calm r)
        (λ s. concluded-IsPlan r s free)

  unless_unfiltered-IsPlan :
      (r : Request D) (missing : List Text)
      → is_locked r.mode ≡ false
      → Returns (IsPlan r) (unless_unfiltered r missing)
  unfolding unless_unfiltered
  unless_unfiltered-IsPlan r [] free = planned-IsPlan r free
  unless_unfiltered-IsPlan r (s ∷ rest) free = returned-IsPlan r _

  unless_missing-IsPlan :
      (r : Request D) (missing : List Text)
      → is_locked r.mode ≡ false
      → Returns (IsPlan r) (unless_missing r missing)
  unfolding unless_missing
  unless_missing-IsPlan r [] free = unless_unfiltered-IsPlan r (missing_filters r) free
  unless_missing-IsPlan r (s ∷ rest) free = returned-IsPlan r _

  -- Every plan that `compile` returns lists its actions in order and numbers them from one. In the modes
  -- PAUSED and RISK_HALTED it opens nothing and adds to nothing; in LIVE_LOCKED and
  -- RECONCILIATION_REQUIRED it has no action at all. It is APPROVED only if it has an action that is
  -- not rejected, and none that is.
  pub compile-IsPlan : (r : Request D) → Returns (IsPlan r) (compile r)
  unfolding compile
  compile-IsPlan r =
      let decision = r.decision in
      elim (Bool-cases (leb decision.expires_at r.now)) [
        | inl late ↦ rw late (returned-IsPlan r _)
        | inr timely ↦ rw timely (elim (Bool-cases (is_locked r.mode)) [
          | inl locked ↦ rw locked (returned-IsPlan r _)
          | inr free ↦ rw free (unless_missing-IsPlan r (missing_positions r) free)
        ])
      ]
