-- ===== src/Strategy/Ranking.antt =====
-- strategy/screener.py: what `rank` returns of the markets that it is given.
use ai_coinletgo.Prelude.{
  ℕ, zero, suc, ◌≡◌, refl, sym, subst, ◌≤◌, arith, Bool, true, false, ◌||◌, List, [], ◌∷◌, ◌++◌,
  map, inl, inr, Bool-cases, length, take, drop, take-drop, keep, All, ◌==◌,
}
use mathlib.Core.List.{Perm}
use ai_coinletgo.Prelude.Text.{Text, text, text_eq, text_ltb_asymm}
use ai_coinletgo.Prelude.Sorting.{IsSorted, sorted, sorted-Perm, sorted-IsSorted, sorted-All}
use ai_coinletgo.Decimal.{Decimal, ◌≼◌, minus, abs}
use ai_coinletgo.Decimal.Laws.{IsRounded}
use ai_coinletgo.Domain.Enums.{
  trending, regime_eq, level, trend_eq, EntryTrigger, breakout_or_pullback, breakout_only,
  pullback_only,
}
use ai_coinletgo.Domain.Market.{MarketSnapshot}
use ai_coinletgo.Strategy.Screener.{
  MarketScreener, reasons_of, is_empty, regime_reasons, chosen_trigger, market_tests,
  market_reasons, screened_override, setup_tests, setup_reasons, eligible, ranks_before, may_rank,
  scored, rank,
}

module _ {A : Type 0} where
  append_is_empty :
      (xs ys : List A) → is_empty (xs ++ ys) ≡ true → (is_empty xs ≡ true) × (is_empty ys ≡ true)
  append_is_empty [] ys h = (refl, h)
  append_is_empty (x ∷ xs) ys h = cc

  length-take_le : (n : ℕ) (xs : List A) → length (take n xs) ≤ n
  length-take_le zero xs = omega arith
  length-take_le (suc n) [] = omega arith
  length-take_le (suc n) (x ∷ xs) = omega (arith, length-take_le n xs)

  keep_passes : (test : A → Bool) (xs : List A) → All (λ x. test x ≡ true) (keep test xs)
  keep_passes test [] = tt
  keep_passes test (x ∷ xs) = elim (Bool-cases (test x)) [
    | inl h ↦ rw h (h, keep_passes test xs)
    | inr h ↦ rw h (keep_passes test xs)
  ]

  All-map {κ} :
      {B : Type 0} (P : B → Type κ) (Q : A → Type 0) (f : A → B) (xs : List A)
      → ((x : A) → Q x → P (f x))
      → All Q xs
      → All P (map f xs)
  All-map P Q f [] step h = tt
  All-map P Q f (x ∷ xs) step h = (step x h.0, All-map P Q f xs step h.1)

reasons_of_none :
    (tests : List (Bool × Text)) → is_empty (reasons_of tests) ≡ true → All (λ t. t.0 ≡ false) tests
reasons_of_none [] h = tt
reasons_of_none ((true, reason) ∷ rest) h = cc
reasons_of_none ((false, reason) ∷ rest) h = (refl, reasons_of_none rest h)

module _ {D : Type 0} ⦃d : Decimal D⦄ where
  -- A market that the screener lets in.
  pub record IsTradable (s : MarketScreener D) (m : MarketSnapshot D) : Type 0 where
    pub trading : (m.status == text "TRADING") ≡ true
    pub listed : s.min_listing_days ≤ m.listing_days
    pub spread : (m.spread_pct ≼ s.max_spread_pct) ≡ true
    pub funding : (abs m.funding_rate ≼ s.max_abs_funding_rate) ≡ true
    pub basis : (abs m.basis_pct ≼ s.max_abs_basis_pct) ≡ true
    pub depth : (s.min_book_depth_usdt ≼ m.book_depth_usdt) ≡ true
    pub volatility : (m.volatility_percentile ≼ s.max_volatility_percentile) ≡ true
    pub trend : ((m.trend_1h == level) ≡ false) × (m.trend_1h ≡ m.trend_4h)
    pub strength : (s.trend_adx_min ≼ m.adx_1h) ≡ true
    pub regime : m.market_regime ≡ trending
    pub trigger : (screened_override s m || (chosen_trigger s.entry_trigger m == m.trend_1h)) ≡ true

  eligible-IsTradable :
      (s : MarketScreener D) (m : MarketSnapshot D) → (eligible s m).0 ≡ true → IsTradable s m
  unfolding eligible market_reasons setup_reasons
  eligible-IsTradable s m h =
      let both = append_is_empty (market_reasons s m) (setup_reasons s m) h in
      let market =
        append_is_empty (reasons_of (market_tests s m)) (regime_reasons m.market_regime) both.0 in
      let safe = reasons_of_none (market_tests s m) market.0 in
      let set_up = reasons_of_none (setup_tests s m) both.1 in
      record {
        trading = ground (arith, safe.0);
        listed = ground (arith, safe.1.0);
        spread = ground (arith, safe.1.1.0);
        funding = ground (arith, safe.1.1.1.0);
        basis = ground (arith, safe.1.1.1.1.0);
        depth = ground (arith, safe.1.1.1.1.1.0);
        volatility = ground (arith, safe.1.1.1.1.1.1.0);
        trend = (
          ground (arith, set_up.0),
          (trend_eq.beq_iff m.trend_1h m.trend_4h).0 (ground (arith, set_up.0)),
        );
        strength = ground (arith, set_up.1.0);
        regime = (regime_eq.beq_iff m.market_regime trending).0 (ground (arith, set_up.1.1.0));
        trigger = ground (arith, set_up.1.1.1.0);
      }

  chosen_trigger-scored :
      (t : EntryTrigger) (s : MarketScreener D) (m : MarketSnapshot D)
      → chosen_trigger t (scored s m) ≡ chosen_trigger t m
  unfolding chosen_trigger
  chosen_trigger-scored breakout_only s m = refl
  chosen_trigger-scored pullback_only s m = refl
  chosen_trigger-scored breakout_or_pullback s m = refl

  scored-IsTradable :
      (s : MarketScreener D) (m : MarketSnapshot D) → IsTradable s m → IsTradable s (scored s m)
  unfolding screened_override
  scored-IsTradable s m t = record {
    trading = t.trading;
    listed = t.listed;
    spread = t.spread;
    funding = t.funding;
    basis = t.basis;
    depth = t.depth;
    volatility = t.volatility;
    trend = t.trend;
    strength = t.strength;
    regime = t.regime;
    trigger =
        subst (λ trigger. (screened_override s m || (trigger == m.trend_1h)) ≡ true)
          (sym (chosen_trigger-scored s.entry_trigger s m)) t.trigger;
  }

  -- The fit markets, each with its score, those that are returned first.
  pub record IsRanking (s : MarketScreener D) (snapshots : List (MarketSnapshot D)) (limit : ℕ)
      (result : List (MarketSnapshot D)) : Type 0 where
    pub others : List (MarketSnapshot D)
    pub complete : Perm (result ++ others) (map (scored s) (keep (λ m. (eligible s m).0) snapshots))
    pub order : IsSorted may_rank (result ++ others)
    pub limited : length result ≤ limit
    pub fit : All (IsTradable s) (result ++ others)

  module _ (laws : IsRounded D) where
    open laws use {le_total}

    may_rank_total : (x y : MarketSnapshot D) → may_rank x y ≡ false → may_rank y x ≡ true
    unfolding ranks_before
    may_rank_total x y h = ground (
      arith,
      text_ltb_asymm y.symbol x.symbol,
      le_total (minus x.score) (minus y.score),
      le_total (minus y.score) (minus x.score),
    )

    -- `rank` returns at most so many markets as the limit, and with others they are exactly the given markets
    -- that are eligible, each as often as it was given and with its score. All of these are tradable: listed
    -- long enough, with spread, funding, basis, depth and volatility within their limits, trending alike on
    -- both horizons and strongly enough, with a trigger or the strong trend in its place. None directly follows
    -- one that ranks after it: by the overlay's rank if it is active, then the higher score, then the symbol.
    pub rank-IsRanking :
        (s : MarketScreener D) (snapshots : List (MarketSnapshot D)) (limit : ℕ)
        → IsRanking s snapshots limit (rank s snapshots limit)
    unfolding rank
    rank-IsRanking s snapshots limit =
        let fit = map (scored s) (keep (λ m. (eligible s m).0) snapshots) in
        let all = sorted may_rank fit in
        let whole = sym (take-drop limit all) in
        record {
          others = drop limit all;
          complete = subst (λ xs. Perm xs fit) whole (sorted-Perm may_rank fit);
          order = subst (IsSorted may_rank) whole (sorted-IsSorted may_rank may_rank_total fit);
          limited = length-take_le limit all;
          fit = subst (All (IsTradable s)) whole (
              sorted-All may_rank (IsTradable s) fit (
                All-map (IsTradable s) (λ m. (eligible s m).0 ≡ true) (scored s)
                  (keep (λ m. (eligible s m).0) snapshots)
                  (λ m h. scored-IsTradable s m (eligible-IsTradable s m h))
                  (keep_passes (λ m. (eligible s m).0) snapshots)));
        }
