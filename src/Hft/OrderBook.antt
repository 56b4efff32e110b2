-- ===== src/Hft/OrderBook.antt =====
-- hft/order_book.py: `DiffOrderBook`, the book that is kept from the diff stream, and the metrics of
-- hft/models.py that it yields. Update ids are integers; times are whole ticks of the monotonic clock.
pub mod Levels
pub mod Sequence
pub mod Feed
pub mod Quotes
pub mod Raising
use ai_coinletgo.Prelude.{
  ℕ, Bool, true, false, not, ◌&&◌, ◌||◌, Option, none, some, List, [], ◌∷◌, if◌then◌else◌, Eq, ◌==◌,
  take, ltb, map, or_default,
}
use ai_coinletgo.Prelude.Int.{ℤ, pos, ◌+ℤ◌, leb_ℤ, ltb_ℤ, int_eq}
use ai_coinletgo.Prelude.Text.{Text, text_eq, upper}
use ai_coinletgo.Prelude.Dict.{Dict, insert, erase}
use ai_coinletgo.Prelude.Result.{Result, ok, err}
use ai_coinletgo.Decimal.{Decimal, ◌≼◌, ◌≺◌, nought, two, ◌⊕◌, ◌⊖◌, ◌⊗◌, ◌⊘◌, min, sum}

pub record DiffOrderBook (D : Type 0) : Type 0 where
  pub symbol : Text
  pub depth_levels : ℕ
  pub bids : Dict D D
  pub asks : Dict D D
  pub last_update_id : Option ℤ
  pub has_applied_event : Bool
  pub event_time_ms : ℤ
  pub received_monotonic : ℕ

-- What a message holds under a key that is read by `int`: nothing (or null), a number, or a value
-- that `int` refuses, which is an empty text or list or not.
pub data RawInt : Type 0 where
  absent empty malformed : RawInt
  number : ℤ → RawInt

-- A row of a level list: two decimals, or one that the parser skips.
pub data RawRow (D : Type 0) : Type 0 where
  malformed_row : RawRow D
  row : D → D → RawRow D

pub data RawLevels (D : Type 0) : Type 0 where
  not_iterable : RawLevels D
  rows : List (RawRow D) → RawLevels D

pub record RawSnapshot (D : Type 0) : Type 0 where
  pub update_id : RawInt
  pub bid_levels : RawLevels D
  pub ask_levels : RawLevels D

-- The keys `s`, `U`, `u`, `pu`, `b`, `a`, `E` and `T` of a depth event.
pub record DepthEvent (D : Type 0) : Type 0 where
  pub event_symbol : Option Text
  pub first_id : RawInt
  pub final_id : RawInt
  pub previous_id : RawInt
  pub bid_updates : RawLevels D
  pub ask_updates : RawLevels D
  pub event_time : RawInt
  pub transaction_time : RawInt

-- The text that `apply_event` returns, or the `ValueError` of its last `int`.
pub data Status : Type 0 where
  applied stale gap ignored not_ready : Status
  raised : Status

-- The `ValueError`s of `metrics`; the last is the `ValidationError` of `HftBookMetrics`.
pub data BookError : Type 0 where
  not_synchronized no_two_sided_quote quote_invalid metrics_invalid : BookError

pub record HftBookMetrics (D : Type 0) : Type 0 where
  pub symbol : Text
  pub best_bid : D
  pub best_ask : D
  pub mid_price : D
  pub microprice : D
  pub spread_pct : D
  pub bid_depth_usdt : D
  pub ask_depth_usdt : D
  pub imbalance : D
  pub last_update_id : ℤ
  pub event_time_ms : ℤ
  pub received_monotonic : ℕ

-- `int(x)`, `none` where it raises.
abbrev pub int_of : RawInt → Option ℤ
int_of (number n) = some n
int_of _ = none

abbrev pub int_or_zero : RawInt → Option ℤ
int_or_zero (number n) = some n
int_or_zero malformed = none
int_or_zero _ = some (pos 0)

-- `int(x or y or 0)`
abbrev pub int_or : RawInt → RawInt → Option ℤ
int_or (number n) other = if n == pos 0 then int_or_zero other else some n
int_or malformed other = none
int_or absent other = int_or_zero other
int_or empty other = int_or_zero other

-- Whether the event's `pu`, read by `int`, lets it follow the last id.
unfoldable pub follows : Bool → RawInt → ℤ → Bool
follows has_applied (number p) previous = not has_applied || p == previous
follows has_applied absent previous = not has_applied
follows has_applied empty previous = false
follows has_applied malformed previous = false

-- The event's ids span the id after the last one.
unfoldable pub bridges : ℤ → ℤ → ℤ → Bool
unfolding ◌+ℤ◌
bridges first final previous = not (
    ltb_ℤ (previous +ℤ pos 1) first
    || not (leb_ℤ first (previous +ℤ pos 1) && leb_ℤ (previous +ℤ pos 1) final))

module _ {D : Type 0} ⦃d : Decimal D⦄ where
  -- `min_depth_usdt` of the metrics.
  abbrev pub min_depth_usdt : HftBookMetrics D → D
  min_depth_usdt m = min m.bid_depth_usdt m.ask_depth_usdt

  -- `__init__`
  unfoldable pub init : Text → ℕ → DiffOrderBook D
  init s levels = record {
    symbol = upper s;
    depth_levels = if ltb levels 1 then 1 else levels;
    bids = [];
    asks = [];
    last_update_id = none;
    has_applied_event = false;
    event_time_ms = pos 0;
    received_monotonic = 0;
  }

  unfoldable pub synchronized : DiffOrderBook D → Bool
  synchronized b = elim b.last_update_id [ none ↦ false | some _ ↦ true ]

  unfoldable pub reset : DiffOrderBook D → DiffOrderBook D
  reset b = record b {
    bids = [];
    asks = [];
    last_update_id = none;
    has_applied_event = false;
    event_time_ms = pos 0;
    received_monotonic = 0;
  }

  module _ ⦃e : Eq D⦄ where
    -- One row of `_levels`: a level wants a positive price and a positive quantity.
    abbrev pub add_level : Dict D D → D → D → Dict D D
    add_level book price quantity =
        if (nought ≺ price) && (nought ≺ quantity) then insert price quantity book else book

    -- The loop of `_levels`, from the levels so far.
    unfoldable pub add_levels : Dict D D → List (RawRow D) → Dict D D
    add_levels book [] = book
    add_levels book (malformed_row ∷ rest) = add_levels book rest
    add_levels book (row price quantity ∷ rest) = add_levels (add_level book price quantity) rest

    unfoldable pub levels : RawLevels D → Dict D D
    unfolding add_levels
    levels not_iterable = []
    levels (rows rs) = add_levels [] rs

    -- One row of `_apply_updates`: a quantity of zero or less takes the level away.
    abbrev pub apply_row : Dict D D → D → D → Dict D D
    apply_row book price quantity =
        if price ≼ nought
        then book
        else if quantity ≼ nought
        then erase price book
        else insert price quantity book

    unfoldable pub apply_rows : Dict D D → List (RawRow D) → Dict D D
    apply_rows book [] = book
    apply_rows book (malformed_row ∷ rest) = apply_rows book rest
    apply_rows book (row price quantity ∷ rest) = apply_rows (apply_row book price quantity) rest

    unfoldable pub apply_updates : Dict D D → RawLevels D → Dict D D
    unfolding apply_rows
    apply_updates book not_iterable = book
    apply_updates book (rows rs) = apply_rows book rs

    -- The writes of `apply_snapshot`, with the id as `int` reads it.
    unfoldable pub load : DiffOrderBook D → RawSnapshot D → Option ℤ → Option (DiffOrderBook D)
    unfolding levels
    load b s none = none
    load b s (some id) = some (record b {
      bids = levels s.bid_levels;
      asks = levels s.ask_levels;
      last_update_id = some id;
      has_applied_event = false;
      event_time_ms = pos 0;
    })

    -- `none` where the id is missing or no number, which raises: the book is as before.
    unfoldable pub apply_snapshot : DiffOrderBook D → RawSnapshot D → Option (DiffOrderBook D)
    unfolding load
    apply_snapshot b s = load b s (int_of s.update_id)

    -- The last writes of `apply_event`: the time of the event, and of its receipt.
    abbrev pub stamp : DiffOrderBook D → Option ℤ → ℕ → Status × DiffOrderBook D
    stamp written none now = (raised, written)
    stamp written (some t) now =
        (applied, record written { event_time_ms = t; received_monotonic = now })

    -- The writes of `apply_event`, in order: the time of the event is read last.
    unfoldable pub commit : DiffOrderBook D → DepthEvent D → ℤ → ℕ → Status × DiffOrderBook D
    unfolding apply_updates
    commit b ev final now =
        stamp
          (record b {
            bids = apply_updates b.bids ev.bid_updates;
            asks = apply_updates b.asks ev.ask_updates;
            last_update_id = some final;
            has_applied_event = true;
          })
          (int_or ev.event_time ev.transaction_time) now

    -- `apply_event`, once the ids of the event are read.
    unfoldable pub apply_numbered :
        DiffOrderBook D → DepthEvent D → ℤ → ℤ → ℕ → Status × DiffOrderBook D
    unfolding commit follows bridges
    apply_numbered b ev first final now =
        if ltb_ℤ final first then (ignored, b) else elim b.last_update_id [
          | none ↦ (not_ready, b)
          | some previous ↦
              if leb_ℤ final previous
              then (stale, b)
              else if not (follows b.has_applied_event ev.previous_id previous)
              then (gap, b)
              else if not (bridges first final previous)
              then (gap, b)
              else commit b ev final now
        ]

    unfoldable pub apply_event : DiffOrderBook D → DepthEvent D → ℕ → Status × DiffOrderBook D
    unfolding apply_numbered
    apply_event b ev now =
        if not (upper (or_default ev.event_symbol b.symbol) == b.symbol)
        then (ignored, b)
        else elim (int_of ev.first_id) [
          | none ↦ (ignored, b)
          | some first ↦ elim (int_of ev.final_id) [
            | none ↦ (ignored, b)
            | some final ↦ apply_numbered b ev first final now
          ]
        ]

    -- `max(book)` and `min(book)` over the prices after the first.
    abbrev pub higher : D → D → D
    higher best p = if best ≺ p then p else best

    abbrev pub lower : D → D → D
    lower best p = if p ≺ best then p else best

    unfoldable pub highest : D → Dict D D → D
    highest best [] = best
    highest best ((p, q) ∷ rest) = highest (higher best p) rest

    unfoldable pub lowest : D → Dict D D → D
    lowest best [] = best
    lowest best ((p, q) ∷ rest) = lowest (lower best p) rest

    -- `sorted(book.items())` and its reverse, by insertion: no two prices are equal.
    unfoldable pub place : (D → D → Bool) → D × D → Dict D D → Dict D D
    place before level [] = level ∷ []
    place before level (other ∷ rest) =
        if before other.0 level.0 then other ∷ place before level rest else level ∷ other ∷ rest

    unfoldable pub sort_levels : (D → D → Bool) → Dict D D → Dict D D
    unfolding place
    sort_levels before [] = []
    sort_levels before (level ∷ rest) = place before level (sort_levels before rest)

    abbrev pub notional : D × D → D
    notional level = level.0 ⊗ level.1

    -- The quote value of the first levels in the given order.
    unfoldable pub depth_of : (D → D → Bool) → ℕ → Dict D D → D
    unfolding sort_levels
    depth_of before n book = sum (map notional (take n (sort_levels before book)))

    -- The metrics, from the best prices of the two sides.
    abbrev pub quote : DiffOrderBook D → ℤ → D → D → HftBookMetrics D
    quote b id best_bid best_ask =
        let midpoint = (best_bid ⊕ best_ask) ⊘ two in
        let bid_depth = depth_of (λ x y. y ≺ x) b.depth_levels b.bids in
        let ask_depth = depth_of (λ x y. x ≺ y) b.depth_levels b.asks in
        let total = bid_depth ⊕ ask_depth in
        record {
          symbol = b.symbol;
          best_bid = best_bid;
          best_ask = best_ask;
          mid_price = midpoint;
          microprice =
              if nought ≺ total
              then (best_ask ⊗ bid_depth ⊕ best_bid ⊗ ask_depth) ⊘ total
              else midpoint;
          spread_pct = (best_ask ⊖ best_bid) ⊘ midpoint;
          bid_depth_usdt = bid_depth;
          ask_depth_usdt = ask_depth;
          imbalance = if nought ≺ total then (bid_depth ⊖ ask_depth) ⊘ total else nought;
          last_update_id = id;
          event_time_ms = if ltb_ℤ (pos 0) b.event_time_ms then b.event_time_ms else pos 0;
          received_monotonic = b.received_monotonic;
        }

    -- The bounds of the fields of `HftBookMetrics`.
    unfoldable pub is_metrics : HftBookMetrics D → Bool
    is_metrics m =
        (nought ≺ m.best_bid)
        && (nought ≺ m.best_ask)
        && (nought ≺ m.mid_price)
        && (nought ≺ m.microprice)
        && (nought ≼ m.spread_pct)
        && (nought ≼ m.bid_depth_usdt)
        && (nought ≼ m.ask_depth_usdt)
        && not (ltb_ℤ m.last_update_id (pos 0))
        && not (ltb_ℤ m.event_time_ms (pos 0))

    abbrev pub validated : HftBookMetrics D → Result BookError (HftBookMetrics D)
    validated m = if is_metrics m then ok m else err metrics_invalid

    -- `metrics`, once both sides have a best price.
    unfoldable pub quote_metrics : DiffOrderBook D → ℤ → D → D → Result BookError (HftBookMetrics D)
    unfolding depth_of is_metrics
    quote_metrics b id best_bid best_ask =
        if (best_bid ≼ nought) || (best_ask ≼ nought) || (best_ask ≺ best_bid)
        then err quote_invalid
        else validated (quote b id best_bid best_ask)

    -- `metrics`, once the book is known to be synchronized.
    unfoldable pub sides_metrics :
        DiffOrderBook D → ℤ → Dict D D → Dict D D → Result BookError (HftBookMetrics D)
    unfolding quote_metrics highest lowest
    sides_metrics b id ((p, _) ∷ bids) ((q, _) ∷ asks) =
        quote_metrics b id (highest p bids) (lowest q asks)
    sides_metrics b id _ _ = err no_two_sided_quote

    unfoldable pub metrics : DiffOrderBook D → Result BookError (HftBookMetrics D)
    unfolding sides_metrics
    metrics b = elim b.last_update_id [
      | none ↦ err not_synchronized
      | some id ↦ sides_metrics b id b.bids b.asks
    ]
