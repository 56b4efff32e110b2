-- ===== src/Strategy/Rules.antt =====
-- strategy/rule_based.py: what every signal that is built by rules has passed.
use mathlib.Core.List.{Memᴰ}
use ai_coinletgo.Prelude.{ℕ, ◌≡◌, true, false, ◌||◌, Option, none, some, List, ◌==◌, ◌≤◌}
use ai_coinletgo.Prelude.Text.{Text, text, text_eq}
use ai_coinletgo.Decimal.{Decimal, ◌≼◌, ◌≺◌, nought, abs}
use ai_coinletgo.Decimal.Laws.{IsRounded}
use ai_coinletgo.Domain.Enums.{trending, regime_eq, level, trend_eq}
use ai_coinletgo.Domain.Market.{MarketSnapshot}
use ai_coinletgo.Domain.Signal.{TradeSignal}
use ai_coinletgo.Strategy.RuleBased.{
  RuleSettings, Prices, leaves_out, action_of, trigger_agrees, is_strong_uptrend,
  is_local_continuation, is_ordered,
}

module _ {D : Type 0} ⦃d : Decimal D⦄ where
  -- A market that the rules trade.
  pub record IsRuled (s : RuleSettings D) (m : MarketSnapshot D) : Type 0 where
    pub trading : (m.status == text "TRADING") ≡ true
    pub listed : s.min_listing_days ≤ m.listing_days
    pub spread : (m.spread_pct ≼ s.max_spread_pct) ≡ true
    pub funding : (abs m.funding_rate ≼ s.max_abs_funding_rate) ≡ true
    pub basis : (abs m.basis_pct ≼ s.max_abs_basis_pct) ≡ true
    pub depth : (s.min_book_depth_usdt ≼ m.book_depth_usdt) ≡ true
    pub volatility : (m.volatility_percentile ≼ s.volatility_hard_limit_percentile) ≡ true
    pub regime : (m.market_regime == trending) ≡ true
    pub trend : ((m.trend_1h == m.trend_4h) ≡ true) × ((m.trend_1h == level) ≡ false)
    pub strength : (s.trend_adx_min ≼ m.adx_1h) ≡ true
    pub direction : leaves_out s.entry_direction m.trend_1h ≡ false
    pub entry :
        (trigger_agrees s.entry_trigger m || is_strong_uptrend s m || is_local_continuation s m)
        ≡ true

  -- A signal for one of the candidates that the rules trade, with sound prices.
  pub record IsRuledSignal (s : RuleSettings D) (ids : MarketSnapshot D → Text)
      (candidates : List (MarketSnapshot D)) (expires : ℕ) (x : TradeSignal D) : Type 0 where
    pub market : MarketSnapshot D
    pub offered : Memᴰ market candidates
    pub numbered : x.signal_id ≡ ids market
    pub expiry : x.expires_at ≡ expires
    pub ruled : IsRuled s market
    pub symbol : x.symbol ≡ market.symbol
    pub action : x.action ≡ action_of market.trend_1h
    pub prices : Prices D
    pub entry_min : x.entry_min ≡ some prices.lo
    pub entry_max : x.entry_max ≡ some prices.hi
    pub stop : x.invalidation_price ≡ some prices.stop
    pub target : x.target_price ≡ some prices.target
    pub positive :
        ((nought ≺ prices.lo) ≡ true)
        × ((nought ≺ prices.hi) ≡ true)
        × ((nought ≺ prices.stop) ≡ true)
        × ((nought ≺ prices.target) ≡ true)
    pub ordered : is_ordered (action_of market.trend_1h) prices ≡ true
    pub confidence : (x.confidence ≼ d.lit 99 2) ≡ true

  module _ (laws : IsRounded D) where
    module _ (s : RuleSettings D) (ids : MarketSnapshot D → Text)
        (candidates : List (MarketSnapshot D)) (expires : ℕ) where
      abbrev IsBuilt : TradeSignal D → Type 0
      IsBuilt = IsRuledSignal s ids candidates expires

      abbrev IsSound : Option (TradeSignal D) → Type 0
      IsSound none = Unit
      IsSound (some x) = IsBuilt x
