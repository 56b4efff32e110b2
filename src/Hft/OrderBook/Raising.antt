-- ===== src/Hft/OrderBook/Raising.antt =====
-- `metrics` of hft/order_book.py: what a book is like for which it raises.
use mathlib.Core.List.{Memᴰ}
use ai_coinletgo.Prelude.{
  ◌≡◌, refl, true, false, none, some, [], ◌∷◌, Eq, arith, Bool-cases, Option-cases, inl, inr, All,
  if◌then◌else◌,
}
use ai_coinletgo.Prelude.Int.{ℤ, pos, ltb_ℤ}
use ai_coinletgo.Prelude.Dict.{Dict}
use ai_coinletgo.Prelude.Result.{err}
use ai_coinletgo.Decimal.{Decimal, ◌≼◌, ◌≺◌, nought, ◌⊕◌, ◌⊗◌}
use ai_coinletgo.Decimal.Laws.{IsRounded, lt-le, add_pos}
use ai_coinletgo.Hft.OrderBook.{
  DiffOrderBook, BookError, highest, lowest, is_metrics, quote, depth_of, quote_metrics,
  sides_metrics, metrics,
}
use ai_coinletgo.Hft.OrderBook.Levels.{IsLevel}
use ai_coinletgo.Hft.OrderBook.Sequence.{IsBook}
use ai_coinletgo.Hft.OrderBook.Quotes.{
  Priced, AllBelow, AllAbove, IsQuote, quote-IsQuote, highest-Priced, lowest-Priced,
  highest-AllBelow, lowest-AllAbove,
}

module _ {D : Type 0} ⦃d : Decimal D⦄ ⦃e : Eq D⦄ (laws : IsRounded D) where
  open laws use {le_refl, le_antisymm, le_total, add_comm, add-nought, mul_nonneg, mul_pos, div_pos}

  -- A book that has no metrics: it has no snapshot, a side of it is empty, a bid is above an ask, or
  -- its id is negative.
  pub data Unquoted (b : DiffOrderBook D) : Type 0 where
    unsynchronized : b.last_update_id ≡ none → Unquoted b
    no_bid : b.bids ≡ [] → Unquoted b
    no_ask : b.asks ≡ [] → Unquoted b
    crossed :
        (bid ask : D)
        → Priced laws bid b.bids
        → Priced laws ask b.asks
        → (ask ≺ bid) ≡ true
        → Unquoted b
    negative_id : (id : ℤ) → b.last_update_id ≡ some id → ltb_ℤ id (pos 0) ≡ true → Unquoted b

  Priced-pos :
      (price : D) (side : Dict D D)
      → All IsLevel side
      → Priced laws price side
      → (nought ≺ price) ≡ true
  Priced-pos price [] h found = elim found [ ]
  Priced-pos price (x ∷ side) h (Memᴰ.head same) = rw same h.0.0
  Priced-pos price (x ∷ side) h (Memᴰ.tail later) = Priced-pos price side h.1 later

  -- A mean weighted by two depths, one of which is positive, of positive prices.
  weighted_pos :
      (ask bid bid_depth ask_depth : D)
      → (nought ≺ ask) ≡ true
      → (nought ≺ bid) ≡ true
      → (nought ≼ bid_depth) ≡ true
      → (nought ≼ ask_depth) ≡ true
      → (nought ≺ bid_depth ⊕ ask_depth) ≡ true
      → (nought ≺ ask ⊗ bid_depth ⊕ bid ⊗ ask_depth) ≡ true
  weighted_pos ask bid bid_depth ask_depth ask_pos bid_pos bids asks total =
      let ask_part = mul_nonneg ask bid_depth (lt-le laws nought ask ask_pos) bids in
      let bid_part = mul_nonneg bid ask_depth (lt-le laws nought bid bid_pos) asks in
      elim (Bool-cases (nought ≺ bid_depth)) [
        | inl some_bid ↦
            add_pos laws (ask ⊗ bid_depth) (bid ⊗ ask_depth)
              (mul_pos ask bid_depth ask_pos some_bid) bid_part
        | inr no_bids ↦
            let empty : bid_depth ≡ nought = le_antisymm bid_depth nought (ground arith) bids in
            let some_ask : (nought ≺ ask_depth) ≡ true =
              ground (arith, empty, add_comm nought ask_depth, add-nought ask_depth) in
            rw (add_comm (ask ⊗ bid_depth) (bid ⊗ ask_depth)) (
              add_pos laws (bid ⊗ ask_depth) (ask ⊗ bid_depth)
                (mul_pos bid ask_depth bid_pos some_ask) ask_part)
      ]

  microprice_pos :
      (b : DiffOrderBook D) (id : ℤ) (bid ask : D)
      → IsQuote laws b (quote b id bid ask)
      → (nought ≺ (quote b id bid ask).microprice) ≡ true
  microprice_pos b id bid ask q =
      let bids = depth_of (λ x y. y ≺ x) b.depth_levels b.bids in
      let asks = depth_of (λ x y. x ≺ y) b.depth_levels b.asks in
      elim (Bool-cases (nought ≺ bids ⊕ asks)) [
        | inl deep ↦ rw deep (
            div_pos (ask ⊗ bids ⊕ bid ⊗ asks) (bids ⊕ asks)
              (weighted_pos ask bid bids asks q.ask_pos q.bid_pos q.bid_depth_nonneg
                q.ask_depth_nonneg deep)
              deep)
        | inr shallow ↦ rw shallow q.mid_pos
      ]

  event_time_nonneg : (t : ℤ) → ltb_ℤ (if ltb_ℤ (pos 0) t then t else pos 0) (pos 0) ≡ false
  event_time_nonneg t = ground arith

  -- Of a sound quote only the id can be out of its bounds.
  is_metrics_quote :
      (b : DiffOrderBook D) (id : ℤ) (bid ask : D)
      → IsQuote laws b (quote b id bid ask)
      → ltb_ℤ id (pos 0) ≡ false
      → is_metrics (quote b id bid ask) ≡ true
  unfolding is_metrics
  is_metrics_quote b id bid ask q h =
      rw
        (
          q.bid_pos,
          q.ask_pos,
          q.mid_pos,
          microprice_pos b id bid ask q,
          q.spread_nonneg,
          q.bid_depth_nonneg,
          q.ask_depth_nonneg,
          h,
          event_time_nonneg b.event_time_ms,
        )
        refl

  quote_metrics-Unquoted :
      (b : DiffOrderBook D) (id : ℤ) (bid ask : D) (x : BookError)
      → IsBook b
      → b.last_update_id ≡ some id
      → AllBelow laws bid b.bids
      → Priced laws bid b.bids
      → AllAbove laws ask b.asks
      → Priced laws ask b.asks
      → quote_metrics b id bid ask ≡ err x
      → Unquoted b
  unfolding quote_metrics
  quote_metrics-Unquoted b id bid ask x v at_id below bid_in above ask_in h =
      let bid_pos = Priced-pos bid b.bids v.bids_ok.positive bid_in in
      let ask_pos = Priced-pos ask b.asks v.asks_ok.positive ask_in in
      elim (Bool-cases (ask ≺ bid)) [
        | inl over ↦ crossed bid ask bid_in ask_in over
        | inr ordered ↦ elim (Bool-cases (ltb_ℤ id (pos 0))) [
          | inl below_zero ↦ negative_id id at_id below_zero
          | inr counted ↦
              let q =
                quote-IsQuote laws b id bid ask v at_id below bid_in above ask_in bid_pos ask_pos
                  (ground arith) in
              let sound = is_metrics_quote b id bid ask q counted in ground arith
        ]
      ]

  sides_metrics-Unquoted :
      (b : DiffOrderBook D) (id : ℤ) (bids asks : Dict D D) (x : BookError)
      → IsBook b
      → b.last_update_id ≡ some id
      → b.bids ≡ bids
      → b.asks ≡ asks
      → sides_metrics b id bids asks ≡ err x
      → Unquoted b
  unfolding sides_metrics
  sides_metrics-Unquoted b id ((p, q) ∷ bids) ((r, s) ∷ asks) x v at_id bid ask h =
      let (first_bid, below) = highest-AllBelow laws p bids in
      let (first_ask, above) = lowest-AllAbove laws r asks in
      quote_metrics-Unquoted b id (highest p bids) (lowest r asks) x v at_id
        (rw bid (first_bid, below)) (rw bid (highest-Priced laws p q bids))
        (rw ask (first_ask, above)) (rw ask (lowest-Priced laws r s asks)) h
  sides_metrics-Unquoted b id [] asks x v at_id bid ask h = no_bid bid
  sides_metrics-Unquoted b id (level ∷ bids) [] x v at_id bid ask h = no_ask ask

  pub metrics-Unquoted :
      (b : DiffOrderBook D) (x : BookError) → IsBook b → metrics b ≡ err x → Unquoted b
  unfolding metrics
  metrics-Unquoted b x v h = elim (Option-cases b.last_update_id) [
    | inl fresh ↦ unsynchronized fresh
    | inr (id, at_id) ↦ sides_metrics-Unquoted b id b.bids b.asks x v at_id refl refl (ground arith)
  ]
