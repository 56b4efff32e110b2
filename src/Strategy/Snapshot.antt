-- ===== src/Strategy/Snapshot.antt =====
-- `build_snapshot` of strategy/snapshot.py. The z-score of the volume, which is computed in floats, is an
-- argument; returns are not part of the snapshot's model.
use ai_coinletgo.Prelude.{
  ℕ, length, any, leb, Bool, not, ◌&&◌, ◌||◌, arith, ◌≡◌, ◌≢◌, refl, true, false, inl, inr, Option,
  none, some, List, if◌then◌else◌, ◌==◌, Bool-cases,
}
use ai_coinletgo.Prelude.Result.{Result, ok, err}
use ai_coinletgo.Prelude.Text.{Text}
use ai_coinletgo.Domain.Enums.{trending, ranging, volatile, regime_eq, Trend, level, trend_eq}
use ai_coinletgo.Decimal.{Decimal, ◌≼◌, ◌≺◌, nought, one, ◌⊖◌, ◌⊘◌}
use ai_coinletgo.Domain.Market.{Candle, UniverseSymbol, MarketSnapshot, spread_of}
use ai_coinletgo.Strategy.Indicators.{
  from_end, adx, atr, classify_market_regime, donchian_breakout, trend_direction,
  volatility_percentile, volatility_risk_multiplier,
}
use ai_coinletgo.Strategy.Pullback.{pullback_signal}

-- The thresholds that the caller sets.
pub record Thresholds (D : Type 0) : Type 0 where
  pub trend_adx_min : D
  pub volatility_soft_limit_percentile : D
  pub volatility_hard_limit_percentile : D
  pub elevated_volatility_risk_multiplier : D
  pub high_volatility_risk_multiplier : D

-- The `IndexError` of a list without a last candle, and the `ValidationError` of `MarketSnapshot`.
pub data SnapshotError : Type 0 where
  no_candle snapshot_invalid : SnapshotError

-- `[A-Z0-9]{5,20}`
abbrev pub is_symbol_char : ℕ → Bool
is_symbol_char c = (leb b'A' c && leb c b'Z') || (leb b'0' c && leb c b'9')

abbrev pub is_symbol : Text → Bool
is_symbol symbol =
    leb 5 (length symbol)
    && leb (length symbol) 20
    && not (any (λ c. not (is_symbol_char c)) symbol)

module _ {D : Type 0} ⦃d : Decimal D⦄ where
  abbrev pub interest_change : D → Option D → D
  interest_change current none = nought
  interest_change current (some previous) =
      if nought ≺ previous then (current ⊖ previous) ⊘ previous else nought

  -- The three lists are of fifteen minutes, an hour and four hours; the instant is given.
  unfoldable pub snapshot_at :
      UniverseSymbol D
      → List (Candle D)
      → List (Candle D)
      → List (Candle D)
      → D
      → Option D
      → D
      → Thresholds D
      → ℕ
      → D
      → MarketSnapshot D
  snapshot_at u candles_15m candles_1h candles_4h open_interest previous depth t closed_at zscore =
      let trend_1h = trend_direction candles_1h in
      let trend_4h = trend_direction candles_4h in
      let volatility = volatility_percentile candles_15m in
      let strength = adx candles_1h 14 in
      record {
        symbol = u.symbol;
        timestamp = closed_at;
        mark_price = u.mark_price;
        index_price = u.index_price;
        best_bid = u.best_bid;
        best_ask = u.best_ask;
        spread_pct = spread_of u;
        quote_volume_24h = u.quote_volume_24h;
        funding_rate = u.funding_rate;
        basis_pct = (u.mark_price ⊖ u.index_price) ⊘ u.index_price;
        book_depth_usdt = depth;
        open_interest = open_interest;
        open_interest_change_pct = interest_change open_interest previous;
        atr_15m = atr candles_15m 14;
        adx_1h = strength;
        trend_1h = trend_1h;
        trend_4h = trend_4h;
        breakout_15m = donchian_breakout candles_15m;
        pullback_15m = pullback_signal candles_15m trend_1h;
        volume_zscore = zscore;
        volatility_percentile = volatility;
        market_regime =
            classify_market_regime trend_1h trend_4h strength volatility t.trend_adx_min
              t.volatility_soft_limit_percentile t.volatility_hard_limit_percentile;
        volatility_risk_multiplier =
            volatility_risk_multiplier volatility t.volatility_soft_limit_percentile
              t.volatility_hard_limit_percentile t.elevated_volatility_risk_multiplier
              t.high_volatility_risk_multiplier;
        listing_days = u.listing_days;
        status = u.status;
        score = nought;
        factor_overlay = none;
      }

  -- The bounds of the fields of `MarketSnapshot`, without which its constructor raises.
  unfoldable pub is_snapshot : MarketSnapshot D → Bool
  is_snapshot m =
      is_symbol m.symbol
      && (nought ≺ m.mark_price)
      && (nought ≺ m.index_price)
      && (nought ≺ m.best_bid)
      && (nought ≺ m.best_ask)
      && (nought ≼ m.spread_pct)
      && (nought ≼ m.quote_volume_24h)
      && (nought ≼ m.book_depth_usdt)
      && (nought ≼ m.open_interest)
      && (nought ≺ m.atr_15m)
      && (nought ≼ m.adx_1h)
      && (nought ≼ m.volatility_percentile)
      && (m.volatility_percentile ≼ one)
      && (nought ≺ m.volatility_risk_multiplier)

  abbrev pub validated : MarketSnapshot D → Result SnapshotError (MarketSnapshot D)
  validated m = if is_snapshot m then ok m else err snapshot_invalid

  abbrev pub dated :
      (ℕ → MarketSnapshot D) → Option (Candle D) → Result SnapshotError (MarketSnapshot D)
  dated make none = err no_candle
  dated make (some last) = validated (make last.close_time)

  unfoldable pub build_snapshot :
      UniverseSymbol D
      → List (Candle D)
      → List (Candle D)
      → List (Candle D)
      → D
      → Option D
      → D
      → Thresholds D
      → D
      → Result SnapshotError (MarketSnapshot D)
  unfolding snapshot_at is_snapshot
  build_snapshot u candles_15m candles_1h candles_4h open_interest previous depth t zscore =
      dated
        (λ closed_at.
          snapshot_at u candles_15m candles_1h candles_4h open_interest previous depth t closed_at
            zscore)
        (from_end 0 candles_15m)

  -- The regime of a snapshot agrees with its trends, its strength and its risk.
  pub record IsCoherent (t : Thresholds D) (m : MarketSnapshot D) : Type 0 where
    pub trends :
        m.market_regime ≡ trending
        → ((m.trend_1h == level) ≡ false)
          × (m.trend_1h ≡ m.trend_4h)
          × ((t.trend_adx_min ≼ m.adx_1h) ≡ true)
    pub calm :
        m.market_regime ≢ volatile
        → (m.volatility_percentile ≺ t.volatility_hard_limit_percentile) ≡ true
    pub cautious :
        m.market_regime ≡ volatile
        → m.volatility_risk_multiplier ≡ t.high_volatility_risk_multiplier
    pub quiet : m.market_regime ≡ ranging → m.volatility_risk_multiplier ≡ one

  regime_trending :
      (one_hour four_hours : Trend) (strength p minimum soft hard : D)
      → classify_market_regime one_hour four_hours strength p minimum soft hard ≡ trending
      → ((one_hour == level) ≡ false) × (one_hour ≡ four_hours) × ((minimum ≼ strength) ≡ true)
  unfolding classify_market_regime
  regime_trending one_hour four_hours strength p minimum soft hard h =
      (ground arith, (trend_eq.beq_iff one_hour four_hours).0 (ground arith), ground arith)

  regime_calm :
      (one_hour four_hours : Trend) (strength p minimum soft hard : D)
      → classify_market_regime one_hour four_hours strength p minimum soft hard ≢ volatile
      → (p ≺ hard) ≡ true
  unfolding classify_market_regime
  regime_calm one_hour four_hours strength p minimum soft hard h = elim (Bool-cases (hard ≼ p)) [
    | inl wild ↦ absurd (h (rw wild refl))
    | inr tame ↦ rw tame refl
  ]

  regime_cautious :
      (one_hour four_hours : Trend) (strength p minimum soft hard elevated high : D)
      → classify_market_regime one_hour four_hours strength p minimum soft hard ≡ volatile
      → volatility_risk_multiplier p soft hard elevated high ≡ high
  unfolding classify_market_regime volatility_risk_multiplier
  regime_cautious one_hour four_hours strength p minimum soft hard elevated high h = ground arith

  regime_quiet :
      (one_hour four_hours : Trend) (strength p minimum soft hard elevated high : D)
      → classify_market_regime one_hour four_hours strength p minimum soft hard ≡ ranging
      → volatility_risk_multiplier p soft hard elevated high ≡ one
  unfolding classify_market_regime volatility_risk_multiplier
  regime_quiet one_hour four_hours strength p minimum soft hard elevated high h = ground arith

  snapshot_at-IsCoherent :
      (u : UniverseSymbol D)
      → (candles_15m candles_1h candles_4h : List (Candle D)) → (open_interest : D)
      → (previous : Option D) → (depth : D) → (t : Thresholds D) → (closed_at : ℕ) → (zscore : D)
      → IsCoherent t (
          snapshot_at u candles_15m candles_1h candles_4h open_interest previous depth t closed_at
            zscore)
  unfolding snapshot_at
  snapshot_at-IsCoherent u candles_15m candles_1h candles_4h open_interest previous depth t
        closed_at zscore =
      let one_hour = trend_direction candles_1h in
      let four_hours = trend_direction candles_4h in
      let p = volatility_percentile candles_15m in
      let strength = adx candles_1h 14 in
      let soft = t.volatility_soft_limit_percentile in
      let hard = t.volatility_hard_limit_percentile in
      let elevated = t.elevated_volatility_risk_multiplier in
      let high = t.high_volatility_risk_multiplier in
      record {
        trends = regime_trending one_hour four_hours strength p t.trend_adx_min soft hard;
        calm = regime_calm one_hour four_hours strength p t.trend_adx_min soft hard;
        cautious =
            regime_cautious one_hour four_hours strength p t.trend_adx_min soft hard elevated high;
        quiet = regime_quiet one_hour four_hours strength p t.trend_adx_min soft hard elevated high;
      }

  -- What is asked of the candles and the market for a snapshot to be made of them.
  pub record IsUsable (u : UniverseSymbol D) (candles_15m : List (Candle D)) (m : MarketSnapshot D)
      : Type 0 where
    pub moves : (nought ≺ atr candles_15m 14) ≡ true
    pub named : is_symbol u.symbol ≡ true
    pub priced :
        ((nought ≺ u.mark_price) ≡ true)
        × ((nought ≺ u.index_price) ≡ true)
        × ((nought ≺ u.best_bid) ≡ true)
        × ((nought ≺ u.best_ask) ≡ true)
    pub ranked :
        ((nought ≼ m.volatility_percentile) ≡ true) × ((m.volatility_percentile ≼ one) ≡ true)
    pub risked : (nought ≺ m.volatility_risk_multiplier) ≡ true

  -- What `build_snapshot` answers of candles that have a last one: the snapshot, or the error of a
  -- field that is out of its bounds.
  abbrev pub IsAnswered :
      UniverseSymbol D
      → List (Candle D)
      → Thresholds D
      → MarketSnapshot D
      → Result SnapshotError (MarketSnapshot D)
      → Type 0
  IsAnswered u candles_15m t made (ok m) = (m ≡ made) × (IsUsable u candles_15m m × IsCoherent t m)
  IsAnswered u candles_15m t made (err no_candle) = ⊥
  IsAnswered u candles_15m t made (err snapshot_invalid) = is_snapshot made ≡ false

  snapshot_at-IsUsable :
      (u : UniverseSymbol D)
      → (candles_15m candles_1h candles_4h : List (Candle D)) → (open_interest : D)
      → (previous : Option D) → (depth : D) → (t : Thresholds D) → (closed_at : ℕ) → (zscore : D)
      → is_snapshot (
          snapshot_at u candles_15m candles_1h candles_4h open_interest previous depth t closed_at
            zscore)
        ≡ true
      → IsUsable u candles_15m (
          snapshot_at u candles_15m candles_1h candles_4h open_interest previous depth t closed_at
            zscore)
  unfolding snapshot_at is_snapshot
  snapshot_at-IsUsable u candles_15m candles_1h candles_4h open_interest previous depth t closed_at
        zscore h =
      record {
        moves = ground arith;
        named = ground arith;
        priced = (ground arith, ground arith, ground arith, ground arith);
        ranked = (ground arith, ground arith);
        risked = ground arith;
      }

  validated-IsAnswered :
      (u : UniverseSymbol D) (candles_15m : List (Candle D)) (t : Thresholds D)
      (made : MarketSnapshot D)
      → (is_snapshot made ≡ true → IsUsable u candles_15m made)
      → IsCoherent t made
      → IsAnswered u candles_15m t made (validated made)
  validated-IsAnswered u candles_15m t made usable coherent = elim (Bool-cases (is_snapshot made)) [
    | inl bounded ↦ rw bounded (refl, (usable bounded, coherent))
    | inr out ↦ rw out out
  ]

  -- Where there is a last candle, the answer is a snapshot, or the error that a field is out of its
  -- bounds, and then one is. A snapshot is built only where the average true range and the prices of the
  -- market are positive and the percentile is between nought and one, and it is coherent: in the
  -- regime TRENDING both trends agree and are not level, and the strength reaches its minimum; outside
  -- VOLATILE the percentile is below the hard limit; in VOLATILE the risk multiplier is the one for high
  -- volatility, and in RANGING it is one.
  pub build_snapshot-IsCoherent :
      (u : UniverseSymbol D)
      → (candles_15m candles_1h candles_4h : List (Candle D)) → (open_interest : D)
      → (previous : Option D) → (depth : D) → (t : Thresholds D) → (zscore : D) → (last : Candle D)
      → from_end 0 candles_15m ≡ some last
      → IsAnswered u candles_15m t
          (snapshot_at u candles_15m candles_1h candles_4h open_interest previous depth t
            last.close_time zscore)
          (build_snapshot u candles_15m candles_1h candles_4h open_interest previous depth t zscore)
  unfolding build_snapshot
  build_snapshot-IsCoherent u candles_15m candles_1h candles_4h open_interest previous depth t
        zscore last ends =
      let closed_at = last.close_time in
      rw ends (
        validated-IsAnswered u candles_15m t
          (snapshot_at u candles_15m candles_1h candles_4h open_interest previous depth t closed_at
            zscore)
          (snapshot_at-IsUsable u candles_15m candles_1h candles_4h open_interest previous depth t
            closed_at zscore)
          (snapshot_at-IsCoherent u candles_15m candles_1h candles_4h open_interest previous depth t
            closed_at zscore))
