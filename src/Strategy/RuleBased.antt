-- ===== src/Strategy/RuleBased.antt =====
-- strategy/rule_based.py: signals built by rules, without a model. The id of a signal, which the source
-- derives of its symbol and its instant, is an argument; the thesis, a text for people, is left out.
use ai_coinletgo.Prelude.{
  ℕ, Bool, true, false, not, ◌&&◌, ◌||◌, Option, none, some, List, [], ◌∷◌, ◌++◌, if◌then◌else◌,
  take, ◌==◌, ltb,
}
use ai_coinletgo.Prelude.Text.{Text, text, text_eq}
use ai_coinletgo.Decimal.{Decimal, ◌≼◌, ◌≺◌, nought, two, ◌⊕◌, ◌⊖◌, ◌⊗◌, ◌⊘◌, abs, min, max}
use ai_coinletgo.Domain.Enums.{
  PositionSide, long, short, SignalAction, no_trade, open_long, open_short, trending, regime_eq,
  Trend, down, level, up, trend_eq, EntryDirection, both, long_only, short_only, EntryTrigger,
  breakout_or_pullback, breakout_only, pullback_only,
}
use ai_coinletgo.Domain.Market.{MarketSnapshot, mid_price}
use ai_coinletgo.Domain.Signal.{TradeSignal}
use ai_coinletgo.Strategy.ExitPolicy.{manual_atr_exit_prices}

-- The settings that the strategy reads.
pub record RuleSettings (D : Type 0) : Type 0 where
  pub min_listing_days : ℕ
  pub max_spread_pct : D
  pub max_abs_funding_rate : D
  pub max_abs_basis_pct : D
  pub min_book_depth_usdt : D
  pub volatility_hard_limit_percentile : D
  pub trend_adx_min : D
  pub strong_trend_adx_min : D
  pub entry_direction : EntryDirection
  pub entry_trigger : EntryTrigger
  pub model_strategy_enabled : Bool
  pub min_stop_atr : D
  pub manual_stop_atr : D
  pub manual_take_profit_atr : D
  pub manual_exit_levels_enabled : Bool
  pub min_net_reward_risk : D
  pub min_confidence : D

-- The four prices of a signal.
pub record Prices (D : Type 0) : Type 0 where
  pub lo : D
  pub hi : D
  pub stop : D
  pub target : D

abbrev pub consed : {A : Type 0} → Option A → List A → List A
consed none rest = rest
consed (some a) rest = a ∷ rest

-- Whether the settings' direction leaves the trend out.
abbrev pub leaves_out : EntryDirection → Trend → Bool
leaves_out long_only trend = not (trend == up)
leaves_out short_only trend = not (trend == down)
leaves_out both trend = false

abbrev pub action_of : Trend → SignalAction
action_of up = open_long
action_of _ = open_short

abbrev pub side_of_trend : Trend → PositionSide
side_of_trend up = long
side_of_trend _ = short

module _ {D : Type 0} where
  -- `_trigger_matches`
  unfoldable pub trigger_agrees : EntryTrigger → MarketSnapshot D → Bool
  trigger_agrees breakout_only m = m.breakout_15m == m.trend_1h
  trigger_agrees pullback_only m = m.pullback_15m == m.trend_1h
  trigger_agrees breakout_or_pullback m =
      (m.breakout_15m == m.trend_1h) || (m.pullback_15m == m.trend_1h)

module _ {D : Type 0} ⦃d : Decimal D⦄ where
  abbrev pub is_strong_uptrend : RuleSettings D → MarketSnapshot D → Bool
  is_strong_uptrend s m = (m.trend_1h == up) && (s.strong_trend_adx_min ≼ m.adx_1h)

  abbrev pub is_local_continuation : RuleSettings D → MarketSnapshot D → Bool
  is_local_continuation s m =
      not s.model_strategy_enabled
      && (m.market_regime == trending)
      && (m.trend_1h == m.trend_4h)
      && (s.trend_adx_min ≼ m.adx_1h)

  -- `RuleBasedStrategy.eligible`
  unfoldable pub rule_eligible : RuleSettings D → MarketSnapshot D → Bool
  rule_eligible s m =
      if not (m.status == text "TRADING")
      then false
      else if ltb m.listing_days s.min_listing_days
      then false
      else if s.max_spread_pct ≺ m.spread_pct
      then false
      else if s.max_abs_funding_rate ≺ abs m.funding_rate
      then false
      else if s.max_abs_basis_pct ≺ abs m.basis_pct
      then false
      else if m.book_depth_usdt ≺ s.min_book_depth_usdt
      then false
      else if s.volatility_hard_limit_percentile ≺ m.volatility_percentile
      then false
      else if not (m.market_regime == trending)
      then false
      else if not (m.trend_1h == m.trend_4h) || (m.trend_1h == level)
      then false
      else if m.adx_1h ≺ s.trend_adx_min
      then false
      else if leaves_out s.entry_direction m.trend_1h
      then false
      else trigger_agrees s.entry_trigger m || is_strong_uptrend s m || is_local_continuation s m

  abbrev pub beyond_entry : SignalAction → D → D → D
  beyond_entry open_long entry distance = entry ⊕ distance
  beyond_entry _ entry distance = entry ⊖ distance

  -- `_raise_target_to_rr_floor`
  unfoldable pub raise_target_to_rr_floor : RuleSettings D → SignalAction → D → D → D → D → D
  raise_target_to_rr_floor s side entry stop target funding_rate =
      let cost = entry ⊗ d.lit 15 4 ⊕ entry ⊗ abs funding_rate in
      let distance = abs (entry ⊖ stop) in
      let required = s.min_net_reward_risk ⊗ (distance ⊕ cost) ⊕ cost in
      let target_distance = abs (target ⊖ entry) in
      beyond_entry side entry (if target_distance ≺ required then required else target_distance)

  -- `_confidence`
  unfoldable pub rule_confidence : RuleSettings D → MarketSnapshot D → D
  rule_confidence s m =
      let base = s.min_confidence in
      let adx_bonus = min (m.adx_1h ⊘ d.lit 200 0) (d.lit 12 2) in
      let triggered = (m.breakout_15m == m.trend_1h) || (m.pullback_15m == m.trend_1h) in
      let trigger_bonus = if triggered then d.lit 5 2 else nought in
      min (d.lit 99 2) (max base (base ⊕ adx_bonus ⊕ trigger_bonus))

  -- The prices of `_build_signal`, from the middle price and the width of the entry range.
  unfoldable pub rule_prices : RuleSettings D → MarketSnapshot D → D → D → Prices D
  rule_prices s m entry width =
      let lo = entry ⊖ width ⊘ two in
      let hi = entry ⊕ width ⊘ two in
      let stop_atr =
        max s.min_stop_atr
          (if s.manual_exit_levels_enabled then s.manual_stop_atr else d.lit 180 2) in
      let target_atr =
        if s.manual_exit_levels_enabled then s.manual_take_profit_atr else d.lit 500 2 in
      let exits =
        manual_atr_exit_prices (side_of_trend m.trend_1h) lo hi m.atr_15m stop_atr target_atr in
      record {
        lo = lo;
        hi = hi;
        stop = exits.0;
        target =
            raise_target_to_rr_floor s (action_of m.trend_1h) entry exits.0 exits.1 m.funding_rate;
      }

  -- The prices of a signal in their order.
  abbrev pub is_ordered : SignalAction → Prices D → Bool
  is_ordered open_long p = (p.stop ≺ p.lo) && (p.lo ≺ p.hi) && (p.hi ≺ p.target)
  is_ordered open_short p = (p.target ≺ p.lo) && (p.lo ≺ p.hi) && (p.hi ≺ p.stop)
  is_ordered no_trade p = true

  unfoldable pub prices_refused : SignalAction → Prices D → Bool
  prices_refused action p =
      (p.lo ≼ nought)
      || (p.hi ≼ nought)
      || (p.stop ≼ nought)
      || (p.target ≼ nought)
      || (p.hi ≺ p.lo)
      || not (is_ordered action p)

  abbrev pub trigger_code : RuleSettings D → MarketSnapshot D → Text
  trigger_code s m =
      if m.breakout_15m == m.trend_1h
      then text "BREAKOUT_15M"
      else if m.pullback_15m == m.trend_1h
      then text "PULLBACK_15M"
      else if is_strong_uptrend s m
      then text "STRONG_TREND_CONTINUATION"
      else if not s.model_strategy_enabled
      then text "LOCAL_TREND_CONTINUATION"
      else text "STRONG_TREND_CONTINUATION"

  unfoldable pub reason_codes_of : RuleSettings D → MarketSnapshot D → List Text
  reason_codes_of s m =
      let aligned = if m.trend_1h == m.trend_4h then text "TREND_ALIGNED_1H_4H" ∷ [] else [] in
      take 8 (text "RULE_TREND_CONTINUATION" ∷ (aligned ++ (trigger_code s m ∷ [])))

  abbrev pub rule_signal : RuleSettings D → MarketSnapshot D → Text → ℕ → Prices D → TradeSignal D
  rule_signal s m id expires p = record {
    signal_id = id;
    symbol = m.symbol;
    action = action_of m.trend_1h;
    confidence = rule_confidence s m;
    entry_min = some p.lo;
    entry_max = some p.hi;
    invalidation_price = some p.stop;
    target_price = some p.target;
    horizon_minutes = 240;
    reason_codes = reason_codes_of s m;
    risk_flags = text "MODEL_DISABLED" ∷ text "LOCAL_RISK_ENGINE_REQUIRED" ∷ [];
    expires_at = expires;
  }

  abbrev pub entry_width : MarketSnapshot D → D
  entry_width m = max (m.best_ask ⊖ m.best_bid) (m.atr_15m ⊗ d.lit 20 2)

  -- `_build_signal`
  unfoldable pub build_signal :
      RuleSettings D → MarketSnapshot D → Text → ℕ → Option (TradeSignal D)
  build_signal s m id expires =
      let entry = mid_price m in
      let width = entry_width m in
      let p = rule_prices s m entry width in
      if (entry ≼ nought) || (width ≼ nought) || (entry ⊗ d.lit 50 2 ≼ width)
      then none
      else if prices_refused (action_of m.trend_1h) p
      then none
      else some (rule_signal s m id expires p)

  unfoldable pub build_signals :
      RuleSettings D
      → (MarketSnapshot D → Text)
      → List (MarketSnapshot D)
      → ℕ
      → List (TradeSignal D)
  build_signals s ids [] expires = []
  build_signals s ids (m ∷ rest) expires =
      let later = build_signals s ids rest expires in
      if rule_eligible s m then consed (build_signal s m (ids m) expires) later else later
