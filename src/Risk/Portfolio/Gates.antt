-- ===== src/Risk/Portfolio/Gates.antt =====
-- `_new_action` of risk/portfolio.py: the gates that a candidate has passed when it is opened.
use ai_coinletgo.Prelude.{
  arith, ◌≡◌, refl, Bool, true, false, ◌||◌, Option, none, some, List, [], ◌∷◌, All, inl, inr,
  Bool-cases, if◌then◌else◌, or_default, ◌==◌,
}
use ai_coinletgo.Prelude.Text.{Text}
use ai_coinletgo.Decimal.{Decimal, ◌≼◌, ◌≺◌, nought, ◌⊗◌, ◌⊘◌}
use ai_coinletgo.Domain.Enums.{trending, regime_eq}
use ai_coinletgo.Domain.Market.{MarketSnapshot}
use ai_coinletgo.Domain.Account.{ExchangeFilters}
use ai_coinletgo.Domain.Limits.{RiskLimits}
use ai_coinletgo.Domain.Portfolio.{
  PortfolioAllocation, PortfolioPlanAction, PortfolioTargetSide, target_long, target_short,
  target_flat, side_of_target,
}
use ai_coinletgo.Risk.Portfolio.Pricing.{
  is_none, first_reason, direction_allowed, trend_matches_target, entry_trigger_matches,
  strong_target_override, risk_entry, allocation_entry, beyond, priced_geometry, valid_geometry,
  net_reward_risk, apply_manual_exit_levels, rejected_with,
}
use ai_coinletgo.Risk.Portfolio.Existing.{RiskCaps}
use ai_coinletgo.Risk.Portfolio.Validation.{is_open}
use ai_coinletgo.Risk.Portfolio.Opening.{
  stop_distance, opening_tests, opening_reason, opening_quantity, opened, unless_reason, new_action,
}

-- When no reason is given, every test before it has failed.
pub first_reason-none :
    (tests : List (Bool × Text)) → first_reason tests ≡ none → All (λ t. t.0 ≡ false) tests
first_reason-none [] h = tt
first_reason-none ((test, reason) ∷ rest) h = elim (Bool-cases test) [
  | inl fails ↦ refuted (rw fails at h)
  | inr passes ↦ (passes, first_reason-none rest (rw passes at h))
]
  where
    refuted : {B : Type 0} → ◌≡◌ {A = Option Text} (some reason) none → B
    refuted k = cc

module _ {D : Type 0} ⦃d : Decimal D⦄ where
  -- The stop, the entry and the target are in the order of the side.
  abbrev pub Ordered : PortfolioTargetSide → D → D → D → Type 0
  Ordered target_long stop entry target = ((stop ≺ entry) ≡ true) × ((entry ≺ target) ≡ true)
  Ordered target_short stop entry target = ((target ≺ entry) ≡ true) × ((entry ≺ stop) ≡ true)
  Ordered target_flat stop entry target = ⊥

  -- All prices are given, and in order around the entry.
  pub record IsPriced (side : PortfolioTargetSide) (stop entry_min entry_max target : Option D)
      (entry : D) : Type 0 where
    pub stop_value : D
    pub min_value : D
    pub max_value : D
    pub target_value : D
    pub stop_at : stop ≡ some stop_value
    pub min_at : entry_min ≡ some min_value
    pub max_at : entry_max ≡ some max_value
    pub target_at : target ≡ some target_value
    pub ordered : Ordered side stop_value entry target_value

  beyond-Ordered :
      (side : PortfolioTargetSide) (stop entry target : D)
      → beyond side stop entry target ≡ true
      → Ordered side stop entry target
  beyond-Ordered target_long stop entry target h = (ground arith, ground arith)
  beyond-Ordered target_short stop entry target h = (ground arith, ground arith)
  beyond-Ordered target_flat stop entry target h = ground arith

  prices-IsPriced :
      (side : PortfolioTargetSide) (stop entry_min entry_max target : Option D) (entry : D)
      → (elim stop [
        | none ↦ false
        | some s ↦
            if is_none entry_min || is_none entry_max
            then false
            else priced_geometry side s entry target
      ])
        ≡ true
      → IsPriced side stop entry_min entry_max target entry
  prices-IsPriced side none lo hi target entry h = ground arith
  prices-IsPriced side (some s) none hi target entry h = ground arith
  prices-IsPriced side (some s) (some lo) none target entry h = ground arith
  prices-IsPriced side (some s) (some lo) (some hi) none entry h = ground arith
  prices-IsPriced side (some s) (some lo) (some hi) (some t) entry h = record {
    stop_value = s;
    min_value = lo;
    max_value = hi;
    target_value = t;
    stop_at = refl;
    min_at = refl;
    max_at = refl;
    target_at = refl;
    ordered = beyond-Ordered side s entry t h;
  }

  valid_geometry-IsPriced :
      (a : PortfolioAllocation D) (m : MarketSnapshot D)
      → valid_geometry a m false ≡ true
      → IsPriced a.target_side a.stop_price a.entry_min a.entry_max a.target_price
          (allocation_entry a m)
  unfolding valid_geometry
  valid_geometry-IsPriced a m h =
      prices-IsPriced a.target_side a.stop_price a.entry_min a.entry_max a.target_price
        (allocation_entry a m) h

  -- The allocation, its manual exits applied, and the action that opens it.
  pub record IsOpening (a : PortfolioAllocation D) (m : MarketSnapshot D) (f : ExchangeFilters D)
      (l : RiskLimits D) (x : PortfolioPlanAction D) : Type 0 where
    pub confident :
        ((l.min_confidence ≼ a.confidence)
          || l.model_primary_portfolio_enabled
          || strong_target_override a m l)
        ≡ true
    pub direction : direction_allowed a.target_side l.entry_direction ≡ true
    pub trend : (l.model_primary_portfolio_enabled || trend_matches_target a.target_side m) ≡ true
    pub regime : (l.model_primary_portfolio_enabled || (m.market_regime == trending)) ≡ true
    pub strength : (l.model_primary_portfolio_enabled || (l.trend_adx_min ≼ m.adx_1h)) ≡ true
    pub trigger :
        (l.model_primary_portfolio_enabled
          || entry_trigger_matches a.target_side m l.entry_trigger
          || strong_target_override a m l)
        ≡ true
    pub volatility : (nought ≺ m.volatility_risk_multiplier) ≡ true
    pub geometry :
        IsPriced a.target_side a.stop_price a.entry_min a.entry_max a.target_price
          (allocation_entry a m)
    pub far_enough : (l.min_stop_atr ≼ stop_distance a m ⊘ m.atr_15m) ≡ true
    pub near_enough : (stop_distance a m ⊘ m.atr_15m ≼ l.max_stop_atr) ≡ true
    pub reward :
        (l.min_net_reward_risk
          ≼ net_reward_risk
              (risk_entry a m)
              (or_default a.stop_price nought)
              (or_default a.target_price nought)
              m)
        ≡ true
    pub sided : x.side ≡ side_of_target a.target_side
    pub quantity : (f.min_quantity ≼ x.target_quantity) ≡ true
    pub notional : (f.min_notional ≼ x.target_quantity ⊗ risk_entry a m) ≡ true
    pub risk : x.target_risk_usdt ≡ x.target_quantity ⊗ stop_distance a m

  abbrev Opens :
      PortfolioAllocation D
      → MarketSnapshot D
      → ExchangeFilters D
      → RiskLimits D
      → PortfolioPlanAction D
      → Type 0
  Opens a m f l x = is_open x.action ≡ true → IsOpening a m f l x

  opened-IsOpening :
      (a : PortfolioAllocation D)
      → (m : MarketSnapshot D) → (f : ExchangeFilters D) → (caps : RiskCaps D) → (l : RiskLimits D)
      → opening_reason a m l ≡ none
      → (opening_quantity a m f caps ≺ f.min_quantity) ≡ false
      → (opening_quantity a m f caps ⊗ risk_entry a m ≺ f.min_notional) ≡ false
      → IsOpening a m f l (opened a m l (opening_quantity a m f caps))
  unfolding opening_reason
  opened-IsOpening a m f caps l none_given enough worth =
      let passed = first_reason-none (opening_tests a m l) none_given in
      record {
        confident = ground (arith, passed.0);
        direction = ground (arith, passed.1.0);
        trend = ground (arith, passed.1.1.0);
        regime = ground (arith, passed.1.1.1.0);
        strength = ground (arith, passed.1.1.1.1.0);
        volatility = ground (arith, passed.1.1.1.1.1.0);
        trigger = ground (arith, passed.1.1.1.1.1.1.0);
        geometry = valid_geometry-IsPriced a m (ground (arith, passed.1.1.1.1.1.1.1.0));
        far_enough = ground (arith, passed.1.1.1.1.1.1.1.1.0);
        near_enough = ground (arith, passed.1.1.1.1.1.1.1.1.1.0);
        reward = ground (arith, passed.1.1.1.1.1.1.1.1.1.1.0);
        sided = refl;
        quantity = ground arith;
        notional = ground arith;
        risk = refl;
      }

  unless_reason-Opens :
      (a : PortfolioAllocation D)
      → (m : MarketSnapshot D) → (f : ExchangeFilters D) → (caps : RiskCaps D) → (l : RiskLimits D)
      → (reason : Option Text) → opening_reason a m l ≡ reason
      → Opens a m f l (unless_reason a m f caps l reason)
  unfolding unless_reason rejected_with
  unless_reason-Opens a m f caps l (some reason) same = λ opens. cc
  unless_reason-Opens a m f caps l none same =
      elim (Bool-cases (opening_quantity a m f caps ≺ f.min_quantity)) [
        | inl little ↦ rw little (λ opens. cc)
        | inr enough ↦
            rw enough
              (elim (Bool-cases (opening_quantity a m f caps ⊗ risk_entry a m ≺ f.min_notional)) [
                | inl cheap ↦ rw cheap (λ opens. cc)
                | inr worth ↦ rw worth (λ opens. opened-IsOpening a m f caps l same enough worth)
              ])
      ]

  -- A candidate is opened only if it passes every gate, with the manual exits in the place of its own where
  -- they are enabled: the direction is allowed, the volatility multiplier is positive, stop, entry and target
  -- are in their order, the stop's distance is within its range in units of the ATR and the net reward for
  -- the risk is enough; unless the model's portfolio is primary, the trend, the regime, its strength and the
  -- entry trigger agree, or the strong trend stands in for the trigger, and the confidence is enough unless
  -- that trend stands in for it. The quantity and its value reach the exchange's minimum, and the risk is the
  -- quantity by the stop's distance.
  pub new_action-IsOpening :
      (allocation : PortfolioAllocation D)
      → (m : MarketSnapshot D) → (f : ExchangeFilters D) → (caps : RiskCaps D) → (l : RiskLimits D)
      → is_open (PortfolioPlanAction.action (new_action allocation m f caps l)) ≡ true
      → IsOpening (apply_manual_exit_levels allocation m l) m f l (new_action allocation m f caps l)
  unfolding new_action
  new_action-IsOpening allocation m f caps l =
      let a = apply_manual_exit_levels allocation m l in
      unless_reason-Opens a m f caps l (opening_reason a m l) refl
