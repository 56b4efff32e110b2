-- ===== src/Hft/OrderBook/Quotes.antt =====
-- `metrics` of hft/order_book.py: when it answers, and that its quotes are the best of the book.
use mathlib.Core.List.{Memᴰ}
use ai_coinletgo.Prelude.{
  ℕ, ◌≡◌, refl, Bool, true, ◌||◌, some, [], ◌∷◌, Eq, arith, Bool-cases, Option-cases, inl, inr, map,
  take, All, All-take, subst,
}
use ai_coinletgo.Prelude.Int.{ℤ}
use ai_coinletgo.Prelude.Dict.{Dict}
use ai_coinletgo.Prelude.Result.{ok, ok-injective}
use ai_coinletgo.Decimal.{Decimal, ◌≼◌, ◌≺◌, nought, two, ◌⊕◌, ◌⊖◌, ◌⊘◌}
use ai_coinletgo.Decimal.Laws.{IsRounded, lt-le, add_pos, sub_nonneg, sum_nonneg}
use ai_coinletgo.Hft.OrderBook.{
  DiffOrderBook, HftBookMetrics, higher, lower, highest, lowest, is_metrics, validated, quote,
  place, sort_levels, notional, depth_of, quote_metrics, sides_metrics, metrics,
}
use ai_coinletgo.Hft.OrderBook.Levels.{IsLevel}
use ai_coinletgo.Hft.OrderBook.Sequence.{IsBook}

module _ {D : Type 0} ⦃d : Decimal D⦄ ⦃e : Eq D⦄ (laws : IsRounded D) where
  open laws use {le_refl, le_trans, le_total, lit_pos, mul_nonneg, div_nonneg, div_pos}

  -- No price of the side is above, or below, the given one.
  abbrev pub AllBelow : D → Dict D D → Type 0
  AllBelow best side = All (λ level. (level.0 ≼ best) ≡ true) side

  abbrev pub AllAbove : D → Dict D D → Type 0
  AllAbove best side = All (λ level. (best ≼ level.0) ≡ true) side

  -- One of the levels of the side has the given price.
  abbrev pub Priced : D → Dict D D → Type 0
  Priced price side = Memᴰ price (map (λ level. level.0) side)

  AllBelow-mono : (a b : D) (side : Dict D D) → (a ≼ b) ≡ true → AllBelow a side → AllBelow b side
  AllBelow-mono a b [] h k = tt
  AllBelow-mono a b (x ∷ side) h k = (le_trans x.0 a b k.0 h, AllBelow-mono a b side h k.1)

  higher_bounds : (a p : D) → ((a ≼ higher a p) ≡ true) × ((p ≼ higher a p) ≡ true)
  higher_bounds a p = ground (arith, le_refl a, le_refl p, le_total p a)

  lower_bounds : (a p : D) → ((lower a p ≼ a) ≡ true) × ((lower a p ≼ p) ≡ true)
  lower_bounds a p = ground (arith, le_refl a, le_refl p, le_total a p)

  pub highest-AllBelow :
      (best : D) (side : Dict D D)
      → ((best ≼ highest best side) ≡ true) × AllBelow (highest best side) side
  unfolding highest
  highest-AllBelow best [] = (le_refl best, tt)
  highest-AllBelow best ((p, q) ∷ side) =
      let top = higher best p in
      let (own, rest) = highest-AllBelow top side in
      let (left, right) = higher_bounds best p in
      (
        le_trans best top (highest top side) left own,
        (le_trans p top (highest top side) right own, rest),
      )

  pub lowest-AllAbove :
      (best : D) (side : Dict D D)
      → ((lowest best side ≼ best) ≡ true) × AllAbove (lowest best side) side
  unfolding lowest
  lowest-AllAbove best [] = (le_refl best, tt)
  lowest-AllAbove best ((p, q) ∷ side) =
      let low = lower best p in
      let (own, rest) = lowest-AllAbove low side in
      let (left, right) = lower_bounds best p in
      (
        le_trans (lowest low side) low best own left,
        (le_trans (lowest low side) low p own right, rest),
      )

  beside :
      (price p q r s : D) (side : Dict D D)
      → Priced price ((p, q) ∷ side)
      → Priced price ((p, q) ∷ (r, s) ∷ side)
  beside price p q r s side (Memᴰ.head e) = Memᴰ.head e
  beside price p q r s side (Memᴰ.tail d) = Memᴰ.tail (Memᴰ.tail d)

  pub highest-Priced : (p q : D) (side : Dict D D) → Priced (highest p side) ((p, q) ∷ side)
  unfolding highest
  highest-Priced p q [] = Memᴰ.head refl
  highest-Priced p q ((r, s) ∷ side) = elim (Bool-cases (p ≺ r)) [
    | inl above ↦ rw above (Memᴰ.tail (highest-Priced r s side))
    | inr kept ↦ rw kept (beside (highest p side) p q r s side (highest-Priced p q side))
  ]

  pub lowest-Priced : (p q : D) (side : Dict D D) → Priced (lowest p side) ((p, q) ∷ side)
  unfolding lowest
  lowest-Priced p q [] = Memᴰ.head refl
  lowest-Priced p q ((r, s) ∷ side) = elim (Bool-cases (r ≺ p)) [
    | inl below ↦ rw below (Memᴰ.tail (lowest-Priced r s side))
    | inr kept ↦ rw kept (beside (lowest p side) p q r s side (lowest-Priced p q side))
  ]

  All-place :
      (P : D × D → Type 0) (before : D → D → Bool) (level : D × D) (side : Dict D D)
      → P level
      → All P side
      → All P (place before level side)
  unfolding place
  All-place P before level [] h k = (h, tt)
  All-place P before level (x ∷ side) h k = elim (Bool-cases (before x.0 level.0)) [
    | inl earlier ↦ rw earlier (k.0, All-place P before level side h k.1)
    | inr later ↦ rw later (h, (k.0, k.1))
  ]

  All-sort_levels :
      (P : D × D → Type 0) (before : D → D → Bool) (side : Dict D D)
      → All P side
      → All P (sort_levels before side)
  unfolding sort_levels
  All-sort_levels P before [] h = tt
  All-sort_levels P before (x ∷ side) h =
      All-place P before x (sort_levels before side) h.0 (All-sort_levels P before side h.1)

  notional_nonneg :
      (side : Dict D D) → All IsLevel side → All (λ x. (nought ≼ x) ≡ true) (map notional side)
  notional_nonneg [] h = tt
  notional_nonneg (x ∷ side) h = (
    mul_nonneg x.0 x.1 (lt-le laws nought x.0 h.0.0) (lt-le laws nought x.1 h.0.1),
    notional_nonneg side h.1,
  )

  depth_of_nonneg :
      (before : D → D → Bool) (n : ℕ) (side : Dict D D)
      → All IsLevel side
      → (nought ≼ depth_of before n side) ≡ true
  unfolding depth_of
  depth_of_nonneg before n side h =
      sum_nonneg laws (map notional (take n (sort_levels before side))) (
        notional_nonneg (take n (sort_levels before side))
          (All-take IsLevel n (sort_levels before side) (All-sort_levels IsLevel before side h)))

  -- What the metrics of a book say.
  pub record IsQuote (b : DiffOrderBook D) (m : HftBookMetrics D) : Type 0 where
    pub bid_pos : (nought ≺ m.best_bid) ≡ true
    pub ask_pos : (nought ≺ m.best_ask) ≡ true
    pub uncrossed : (m.best_bid ≼ m.best_ask) ≡ true
    pub mid_pos : (nought ≺ m.mid_price) ≡ true
    pub spread_nonneg : (nought ≼ m.spread_pct) ≡ true
    pub bid_depth_nonneg : (nought ≼ m.bid_depth_usdt) ≡ true
    pub ask_depth_nonneg : (nought ≼ m.ask_depth_usdt) ≡ true
    pub bid_best : AllBelow m.best_bid b.bids
    pub bid_held : Priced m.best_bid b.bids
    pub ask_best : AllAbove m.best_ask b.asks
    pub ask_held : Priced m.best_ask b.asks
    pub current : b.last_update_id ≡ some m.last_update_id

  pub quote-IsQuote :
      (b : DiffOrderBook D) (id : ℤ) (bid ask : D)
      → IsBook b
      → b.last_update_id ≡ some id
      → AllBelow bid b.bids
      → Priced bid b.bids
      → AllAbove ask b.asks
      → Priced ask b.asks
      → (nought ≺ bid) ≡ true
      → (nought ≺ ask) ≡ true
      → (bid ≼ ask) ≡ true
      → IsQuote b (quote b id bid ask)
  quote-IsQuote b id bid ask v at_id below bid_in above ask_in bid_pos ask_pos ordered =
      let mid_pos : (nought ≺ (bid ⊕ ask) ⊘ two) ≡ true =
        div_pos (bid ⊕ ask) two (add_pos laws bid ask bid_pos (lt-le laws nought ask ask_pos))
          (lit_pos 1 0) in
      record {
        bid_pos = bid_pos;
        ask_pos = ask_pos;
        uncrossed = ordered;
        mid_pos = mid_pos;
        spread_nonneg = div_nonneg (ask ⊖ bid) _ (sub_nonneg laws bid ask ordered) mid_pos;
        bid_depth_nonneg = depth_of_nonneg (λ x y. y ≺ x) b.depth_levels b.bids v.bids_ok.positive;
        ask_depth_nonneg = depth_of_nonneg (λ x y. x ≺ y) b.depth_levels b.asks v.asks_ok.positive;
        bid_best = below;
        bid_held = bid_in;
        ask_best = above;
        ask_held = ask_in;
        current = at_id;
      }

  validated-ok : (made m : HftBookMetrics D) → validated made ≡ ok m → made ≡ m
  validated-ok made m h = elim (Bool-cases (is_metrics made)) [
    | inl bounded ↦ ok-injective (rw bounded at h)
    | inr out ↦ ground arith
  ]

  quote_metrics-IsQuote :
      (b : DiffOrderBook D) (id : ℤ) (bid ask : D) (m : HftBookMetrics D)
      → IsBook b
      → b.last_update_id ≡ some id
      → AllBelow bid b.bids
      → Priced bid b.bids
      → AllAbove ask b.asks
      → Priced ask b.asks
      → quote_metrics b id bid ask ≡ ok m
      → IsQuote b m
  unfolding quote_metrics
  quote_metrics-IsQuote b id bid ask m v at_id below bid_in above ask_in h =
      elim (Bool-cases ((bid ≼ nought) || (ask ≼ nought) || (ask ≺ bid))) [
        | inl refused ↦ ground arith
        | inr sound ↦ subst (IsQuote b) (validated-ok (quote b id bid ask) m (rw sound at h)) (
            quote-IsQuote b id bid ask v at_id below bid_in above ask_in (ground arith)
              (ground arith) (ground arith))
      ]

  sides_metrics-IsQuote :
      (b : DiffOrderBook D) (id : ℤ) (bids asks : Dict D D) (m : HftBookMetrics D)
      → IsBook b
      → b.last_update_id ≡ some id
      → b.bids ≡ bids
      → b.asks ≡ asks
      → sides_metrics b id bids asks ≡ ok m
      → IsQuote b m
  unfolding sides_metrics
  sides_metrics-IsQuote b id ((p, q) ∷ bids) ((r, s) ∷ asks) m v at_id bid ask h =
      let (first_bid, below) = highest-AllBelow p bids in
      let (first_ask, above) = lowest-AllAbove r asks in
      quote_metrics-IsQuote b id (highest p bids) (lowest r asks) m v at_id
        (rw bid (first_bid, below)) (rw bid (highest-Priced p q bids)) (rw ask (first_ask, above))
        (rw ask (lowest-Priced r s asks)) h
  sides_metrics-IsQuote b id _ _ m v at_id bid ask h = cc

  -- The metrics of a well-formed book are sound: the best bid is the price of a bid and no bid is above
  -- it, the best ask is the price of an ask and no ask is below it, both are positive and do not cross,
  -- the middle is positive, the spread and the two depths are not negative, and the id is the book's.
  pub metrics-IsQuote :
      (b : DiffOrderBook D) (m : HftBookMetrics D) → IsBook b → metrics b ≡ ok m → IsQuote b m
  unfolding metrics
  metrics-IsQuote b m v h = elim (Option-cases b.last_update_id) [
    | inl fresh ↦ ground arith
    | inr (id, at_id) ↦ sides_metrics-IsQuote b id b.bids b.asks m v at_id refl refl (ground arith)
  ]
