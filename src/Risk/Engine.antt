-- ===== src/Risk/Engine.antt =====
-- risk/engine.py: `RiskEngine.evaluate`, which rejects a signal or sizes its order, and
-- `build_execution_intent`.
use ai_coinletgo.Prelude.{ℕ, Option, none, some, List, [], ◌∷◌, if◌then◌else◌, or_default, map}
use ai_coinletgo.Prelude.Result.{Result, ok, err}
use ai_coinletgo.Decimal.{
  Decimal, ◌≼◌, ◌≺◌, nought, one, two, ◌⊕◌, ◌⊖◌, ◌⊗◌, ◌⊘◌, abs, min, max, sum, Rounding, round_down,
  round_up, round_half_up,
}
use ai_coinletgo.Domain.Enums.{
  PositionSide, long, short, SignalAction, no_trade, open_long, open_short, approved, rejected,
}
use ai_coinletgo.Domain.Market.{MarketSnapshot, effective_risk_multiplier}
use ai_coinletgo.Domain.Signal.{TradeSignal}
use ai_coinletgo.Domain.Account.{PositionState, ExchangeFilters}
use ai_coinletgo.Domain.Orders.{ExecutionIntent, IntentError, validate_entry_guard}
use ai_coinletgo.Domain.Limits.{
  RiskContext, RiskDecision, Reason, net_reward_risk_below_minimum,
  portfolio_risk_capacity_exhausted, quantity_below_exchange_minimum,
  notional_below_exchange_minimum, rounded_stop_invalid, model_primary_opportunity_accepted,
  local_trend_continuation, strong_trend_entry_override, all_hard_limits_passed,
}
use ai_coinletgo.Strategy.ExitPolicy.{TargetError, first_take_profit}
use ai_coinletgo.Risk.Preflight.{entry_price, preflight, strong_uptrend_override}
use ai_coinletgo.Risk.Preflight

-- What `build_execution_intent` raises.
pub data BuildError : Type 0 where
  rejected_decision no_trade_signal : BuildError
  target_error : TargetError → BuildError
  intent_error : IntentError → BuildError

-- The modes by which the stop and the target are rounded, away from the entry.
abbrev pub stop_mode : SignalAction → Rounding
stop_mode open_long = round_down
stop_mode _ = round_up

abbrev pub target_mode : SignalAction → Rounding
target_mode open_long = round_up
target_mode _ = round_down

abbrev pub side_of : SignalAction → Option PositionSide
side_of open_long = some long
side_of open_short = some short
side_of no_trade = none

module _ {D : Type 0} ⦃d : Decimal D⦄ where
  abbrev pub whole : ℕ → D
  whole n = d.lit n 0

  -- `_round_price`, of which `_round_down` is a case.
  unfoldable pub round_price : D → D → Rounding → D
  round_price value tick mode = d.to_integral mode (value ⊘ tick) ⊗ tick

  abbrev pub rejection : TradeSignal D → List Reason → RiskDecision D
  rejection s reasons = record {
    signal_id = s.signal_id;
    status = rejected;
    reasons = reasons;
    capital_base = nought;
    risk_amount_usdt = nought;
    quantity = nought;
    entry_price = nought;
    stop_price = nought;
    target_price = nought;
    leverage = 1;
    estimated_margin = nought;
    net_reward_risk = nought;
    risk_multiplier = one;
  }

  abbrev pub audited : SignalAction → D → D → D → D → D × D × D
  audited no_trade entry stop target tick = (round_price entry tick round_half_up, stop, target)
  audited action entry stop target tick = (
    round_price entry tick round_half_up,
    round_price stop tick (stop_mode action),
    (if nought ≺ target then round_price target tick (target_mode action) else target),
  )

  -- `_reject_with_prices`
  unfoldable pub reject_with_prices :
      TradeSignal D → MarketSnapshot D → List Reason → RiskContext D → RiskDecision D
  reject_with_prices s m reasons c =
      let entry = entry_price s m in
      let stop = or_default s.invalidation_price nought in
      let target = or_default s.target_price nought in
      let (entry', stop', target') =
        if nought ≺ stop
        then audited s.action entry stop target c.filters.tick_size
        else (entry, stop, target) in
      record (rejection s reasons) {
        entry_price = entry';
        stop_price = stop';
        target_price = target';
      }

  -- Fees, slippage and funding of a round trip, per unit.
  unfoldable pub round_trip_cost : TradeSignal D → MarketSnapshot D → RiskContext D → D → D
  round_trip_cost s m c entry =
      entry ⊗ (c.estimated_fee_rate ⊗ two ⊕ c.estimated_slippage_rate)
      ⊕ entry ⊗ abs m.funding_rate ⊗ max one (whole s.horizon_minutes ⊘ whole 480)

  unfoldable pub net_reward_risk_of : TradeSignal D → MarketSnapshot D → RiskContext D → D
  unfolding round_trip_cost
  net_reward_risk_of s m c =
      let entry = entry_price s m in
      let cost = round_trip_cost s m c entry in
      let net_reward = max nought (abs (or_default s.target_price nought ⊖ entry) ⊖ cost) in
      net_reward ⊘ (abs (entry ⊖ or_default s.invalidation_price nought) ⊕ cost)

  unfoldable pub capital_base_of : RiskContext D → D
  capital_base_of c = min c.account.equity c.limits.capital_limit_usdt

  -- What the portfolio's risk cap leaves.
  unfoldable pub available_risk : RiskContext D → D
  unfolding capital_base_of
  available_risk c = max nought (
      capital_base_of c ⊗ c.limits.portfolio_risk_pct
      ⊖ sum (map (λ (p : PositionState D). p.initial_risk_usdt) c.positions))

  unfoldable pub risk_amount_of : MarketSnapshot D → RiskContext D → D
  unfolding capital_base_of available_risk
  risk_amount_of m c =
      min (capital_base_of c ⊗ c.limits.single_trade_risk_pct ⊗ effective_risk_multiplier m)
        (available_risk c)

  -- The notional that the margin still free allows at full leverage.
  unfoldable pub max_notional_of : RiskContext D → D
  unfolding capital_base_of
  max_notional_of c =
      max nought (capital_base_of c ⊗ c.limits.max_margin_pct ⊖ c.account.total_margin_used)
      ⊗ whole c.limits.max_leverage

  abbrev pub cap_quantity : Option D → D → D
  cap_quantity none q = q
  cap_quantity (some top) q = min q top

  unfoldable pub first_quantity : RiskContext D → D → D → D → D
  unfolding round_price max_notional_of
  first_quantity c amount entry stop =
      let step = c.filters.step_size in
      cap_quantity c.filters.max_quantity (
        min (round_price (amount ⊘ abs (entry ⊖ stop)) step round_down)
          (round_price (max_notional_of c ⊘ entry) step round_down))

  -- The exchange's two minimums.
  unfoldable pub below_minimum : ExchangeFilters D → D → D → Option Reason
  below_minimum f quantity entry =
      if quantity ≺ f.min_quantity
      then some quantity_below_exchange_minimum
      else if quantity ⊗ entry ≺ f.min_notional
      then some notional_below_exchange_minimum
      else none

  unfoldable pub approval_reasons : TradeSignal D → MarketSnapshot D → RiskContext D → List Reason
  approval_reasons s m c =
      if c.limits.model_primary_portfolio_enabled
      then model_primary_opportunity_accepted ∷ all_hard_limits_passed ∷ []
      else if Preflight.local_trend_continuation s m c.limits
      then local_trend_continuation ∷ all_hard_limits_passed ∷ []
      else if strong_uptrend_override s m c.limits
      then strong_trend_entry_override ∷ []
      else all_hard_limits_passed ∷ []

  abbrev pub approval :
      TradeSignal D → MarketSnapshot D → RiskContext D → D → D → D → D → RiskDecision D
  approval s m c quantity entry stop target = record {
    signal_id = s.signal_id;
    status = approved;
    reasons = approval_reasons s m c;
    capital_base = capital_base_of c;
    risk_amount_usdt = quantity ⊗ abs (entry ⊖ stop);
    quantity = quantity;
    entry_price = entry;
    stop_price = stop;
    target_price = target;
    leverage = c.limits.max_leverage;
    estimated_margin = quantity ⊗ entry ⊘ whole c.limits.max_leverage;
    net_reward_risk = net_reward_risk_of s m c;
    risk_multiplier = effective_risk_multiplier m;
  }

  abbrev pub unless_below : TradeSignal D → Option Reason → RiskDecision D → RiskDecision D
  unless_below s (some reason) decision = rejection s (reason ∷ [])
  unless_below s none decision = decision

  -- The last quantity, at the rounded prices.
  unfoldable pub final_quantity : RiskContext D → D → D → D → D
  unfolding round_price
  final_quantity c amount quantity distance =
      cap_quantity c.filters.max_quantity
        (min quantity (round_price (amount ⊘ distance) c.filters.step_size round_down))

  -- `evaluate`, from the rounding of the prices on.
  unfoldable pub settle_prices :
      TradeSignal D → MarketSnapshot D → RiskContext D → D → D → RiskDecision D
  unfolding round_price final_quantity
  settle_prices s m c amount quantity =
      let tick = c.filters.tick_size in
      let entry = round_price (entry_price s m) tick round_half_up in
      let stop = round_price (or_default s.invalidation_price nought) tick (stop_mode s.action) in
      let target = round_price (or_default s.target_price nought) tick (target_mode s.action) in
      let distance = abs (entry ⊖ stop) in
      let last = final_quantity c amount quantity distance in
      if distance ≼ nought
      then rejection s (rounded_stop_invalid ∷ [])
      else unless_below s (below_minimum c.filters last entry)
          (approval s m c last entry stop target)

  -- `evaluate`, once nothing speaks against the signal.
  unfoldable pub assess : TradeSignal D → MarketSnapshot D → RiskContext D → RiskDecision D
  unfolding settle_prices
  assess s m c =
      let entry = entry_price s m in
      let amount = risk_amount_of m c in
      let quantity = first_quantity c amount entry (or_default s.invalidation_price nought) in
      if net_reward_risk_of s m c ≺ c.limits.min_net_reward_risk
      then rejection s (net_reward_risk_below_minimum ∷ [])
      else if amount ≼ nought
      then rejection s (portfolio_risk_capacity_exhausted ∷ [])
      else unless_below s (below_minimum c.filters quantity entry)
          (settle_prices s m c amount quantity)

  abbrev pub unless_refused :
      TradeSignal D → MarketSnapshot D → RiskContext D → List Reason → RiskDecision D
  unless_refused s m c [] = assess s m c
  unless_refused s m c (reason ∷ reasons) = reject_with_prices s m (reason ∷ reasons) c

  unfoldable pub evaluate : TradeSignal D → MarketSnapshot D → RiskContext D → RiskDecision D
  unfolding assess
  evaluate s m c = unless_refused s m c (preflight s m c)

  abbrev pub accepted :
      ExecutionIntent D → Option IntentError → Result BuildError (ExecutionIntent D)
  accepted i none = ok i
  accepted i (some e) = err (intent_error e)

  abbrev pub intended :
      TradeSignal D
      → RiskDecision D
      → PositionSide
      → Result TargetError D
      → Result BuildError (ExecutionIntent D)
  intended s r side (err e) = err (target_error e)
  intended s r side (ok tp1) =
      let i : ExecutionIntent D = record {
        intent_id = s.signal_id;
        signal_id = s.signal_id;
        symbol = s.symbol;
        side = side;
        quantity = r.quantity;
        limit_price = r.entry_price;
        entry_min = or_default s.entry_min r.entry_price;
        entry_max = or_default s.entry_max r.entry_price;
        stop_price = r.stop_price;
        tp1_price = some tp1;
        tp2_price = r.target_price;
        trailing_atr_multiple = d.lit 15 1;
        leverage = r.leverage;
        expires_at = s.expires_at;
      } in
      accepted i (validate_entry_guard i)

  abbrev pub built :
      TradeSignal D → RiskDecision D → Option PositionSide → Result BuildError (ExecutionIntent D)
  built s r none = err no_trade_signal
  built s r (some side) =
      intended s r side (first_take_profit r.entry_price r.stop_price r.target_price side)

  unfoldable pub build_execution_intent :
      TradeSignal D → RiskDecision D → Result BuildError (ExecutionIntent D)
  build_execution_intent s r = elim r.status [
    | rejected ↦ err rejected_decision
    | approved ↦ built s r (side_of s.action)
  ]
