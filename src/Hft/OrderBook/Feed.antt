-- ===== src/Hft/OrderBook/Feed.antt =====
-- The stream as a whole: invariants of the book over all its operations, redelivery, lost updates,
-- and what a book holds that has followed a snapshot and a contiguous run of events.
use ai_coinletgo.Prelude.{
  ℕ, ◌≡◌, refl, true, Option, none, some, List, [], ◌∷◌, ◌++◌, Eq, ◌==◌, arith, or_default, ap, sym,
  ◌∙◌, subst,
}
use mathlib.Core.Option.{some-injective}
use ai_coinletgo.Prelude.Int.{ℤ, int_eq}
use ai_coinletgo.Prelude.Text.{upper, text_eq}
use ai_coinletgo.Prelude.Dict.{lookup}
use ai_coinletgo.Decimal.{Decimal}
use ai_coinletgo.Hft.OrderBook.{
  DiffOrderBook, DepthEvent, RawSnapshot, RawLevels, not_iterable, rows, RawRow, malformed_row, row,
  number, Status, applied, stale, gap, ignored, not_ready, raised, int_of, load, apply_snapshot,
  apply_updates, apply_numbered, apply_event,
}
use ai_coinletgo.Hft.OrderBook.Levels.{
  IsLevels, last_quantity, settle, lookup-apply_rows, apply_updates-IsLevels, levels-IsLevels,
}
use ai_coinletgo.Hft.OrderBook.Sequence.{IsBook, rows_of, Takes, Outcome, apply_event-Outcome}

module _ {D : Type 0} ⦃d : Decimal D⦄ ⦃e : Eq D⦄ where
  Takes-IsBook :
      (b : DiffOrderBook D) (ev : DepthEvent D) (b' : DiffOrderBook D)
      → IsBook b
      → Takes b ev b'
      → IsBook b'
  Takes-IsBook b ev b' v t = record {
    bids_ok = rw t.bids_written (apply_updates-IsLevels b.bids ev.bid_updates v.bids_ok);
    asks_ok = rw t.asks_written (apply_updates-IsLevels b.asks ev.ask_updates v.asks_ok);
    upper_symbol = ap upper t.same_symbol ∙ v.upper_symbol ∙ sym t.same_symbol;
  }

  Outcome-IsBook :
      (b : DiffOrderBook D) (ev : DepthEvent D) (s : Status) (b' : DiffOrderBook D)
      → IsBook b
      → Outcome b ev (s, b')
      → IsBook b'
  Outcome-IsBook b ev applied b' v h = Takes-IsBook b ev b' v h
  Outcome-IsBook b ev raised b' v h = Takes-IsBook b ev b' v h
  Outcome-IsBook b ev stale b' v h = subst IsBook (sym h) v
  Outcome-IsBook b ev gap b' v h = subst IsBook (sym h) v
  Outcome-IsBook b ev ignored b' v h = subst IsBook (sym h) v
  Outcome-IsBook b ev not_ready b' v h = subst IsBook (sym h) v

  -- Whatever a depth event holds, the book stays well formed under `apply_event`: on each side no
  -- price twice, and every price and every size positive.
  pub apply_event-IsBook :
      (b : DiffOrderBook D) (ev : DepthEvent D) (now : ℕ)
      → IsBook b
      → IsBook (apply_event b ev now).1
  apply_event-IsBook b ev now v =
      let (s, b') = apply_event b ev now in
      Outcome-IsBook b ev s b' v (apply_event-Outcome b ev now)

  load-IsBook :
      (b : DiffOrderBook D) (s : RawSnapshot D) (id : Option ℤ) (b' : DiffOrderBook D)
      → IsBook b
      → load b s id ≡ some b'
      → IsBook b'
  unfolding load
  load-IsBook b s none b' v h = cc
  load-IsBook b s (some id) b' v h = subst IsBook (some-injective _ _ h) (record {
    bids_ok = levels-IsLevels s.bid_levels;
    asks_ok = levels-IsLevels s.ask_levels;
    upper_symbol = v.upper_symbol;
  })

  pub apply_snapshot-IsBook :
      (b : DiffOrderBook D) (s : RawSnapshot D) (b' : DiffOrderBook D)
      → IsBook b
      → apply_snapshot b s ≡ some b'
      → IsBook b'
  unfolding apply_snapshot
  apply_snapshot-IsBook b s b' v h = load-IsBook b s (int_of s.update_id) b' v h

  -- An event that was applied is stale when it is delivered again, and changes nothing.
  pub apply_event_redelivered :
      (b : DiffOrderBook D) (ev : DepthEvent D) (now again : ℕ) (b' : DiffOrderBook D)
      → apply_event b ev now ≡ (applied, b')
      → apply_event b' ev again ≡ (stale, b')
  unfolding apply_event apply_numbered
  apply_event_redelivered b ev now again b' h =
      retry (subst (Outcome b ev) h (apply_event-Outcome b ev now))
    where
      retry : Takes b ev b' → apply_event b' ev again ≡ (stale, b')
      retry t =
          let here : (upper (or_default ev.event_symbol b'.symbol) == b'.symbol) ≡ true =
            rw t.same_symbol t.addressed in
          rw (here, t.first_read, t.final_read, t.forward, t.now_at) (ground arith)

  -- The later of two answers.
  abbrev later_of : Option D → Option D → Option D
  later_of none earlier = earlier
  later_of (some q) earlier = some q

  last_quantity-append :
      (k : D) (xs ys : List (RawRow D))
      → last_quantity k (xs ++ ys) ≡ later_of (last_quantity k ys) (last_quantity k xs)
  last_quantity-append k [] ys = ground arith
  last_quantity-append k (malformed_row ∷ xs) ys = last_quantity-append k xs ys
  last_quantity-append k (row p q ∷ xs) ys = ground (arith, last_quantity-append k xs ys)

  settle-append :
      (k : D) (xs ys : List (RawRow D)) (old : Option D)
      → settle (last_quantity k ys) (settle (last_quantity k xs) old)
        ≡ settle (last_quantity k (xs ++ ys)) old
  settle-append k xs ys old = rw (last_quantity-append k xs ys) (ground arith)

  lookup-apply_updates :
      (k : D) (b : DiffOrderBook D) (raw : RawLevels D)
      → IsLevels b.bids
      → lookup k (apply_updates b.bids raw)
        ≡ settle (last_quantity k (rows_of raw)) (lookup k b.bids)
  unfolding apply_updates
  lookup-apply_updates k b not_iterable v = refl
  lookup-apply_updates k b (rows rs) v = lookup-apply_rows k b.bids rs v.distinct

  -- A run of events, each of which was applied.
  pub data Feed : DiffOrderBook D → List (DepthEvent D) → DiffOrderBook D → Type 0 where
    done : {b : DiffOrderBook D} → Feed b [] b
    next :
        {b m b' : DiffOrderBook D} {ev : DepthEvent D} {evs : List (DepthEvent D)} (now : ℕ)
        → apply_event b ev now ≡ (applied, m)
        → Feed m evs b'
        → Feed b (ev ∷ evs) b'

  -- All bid rows of the events, in the order of the stream.
  abbrev pub bid_rows : List (DepthEvent D) → List (RawRow D)
  bid_rows [] = []
  bid_rows (ev ∷ evs) = rows_of ev.bid_updates ++ bid_rows evs

  -- After a run of applied events each bid price holds what the last row of the whole stream at that
  -- price says, or else what it held: the book forgets nothing and invents nothing.
  pub Feed-lookup :
      (k : D) (b : DiffOrderBook D) (evs : List (DepthEvent D)) (b' : DiffOrderBook D)
      → IsBook b
      → Feed b evs b'
      → lookup k b'.bids ≡ settle (last_quantity k (bid_rows evs)) (lookup k b.bids)
  Feed-lookup k b _ b' v done = refl
  Feed-lookup k b _ b' v (next {m} {ev} {evs} now h rest) =
      let t : Takes b ev m = subst (Outcome b ev) h (apply_event-Outcome b ev now) in
      let written : lookup k m.bids
          ≡ settle (last_quantity k (rows_of ev.bid_updates)) (lookup k b.bids) =
        ap (lookup k) t.bids_written ∙ lookup-apply_updates k b ev.bid_updates v.bids_ok in
      Feed-lookup k m evs b' (Takes-IsBook b ev m v t) rest
      ∙ ap (settle (last_quantity k (bid_rows evs))) written
      ∙ settle-append k (rows_of ev.bid_updates) (bid_rows evs) (lookup k b.bids)

  -- The ids of a stream whose first event follows `last`: each event's `pu` is the id before it.
  abbrev pub IsChain : ℤ → List (DepthEvent D) → Type 0
  IsChain last [] = Unit
  IsChain last (ev ∷ evs) =
      (final : ℤ) × (ev.previous_id ≡ number last)
      × (int_of ev.final_id ≡ some final)
      × IsChain final evs

  -- From a book that has applied an event, a run of applied events is contiguous: every `pu` is the
  -- `u` of the event before it.
  pub Feed-IsChain :
      (b : DiffOrderBook D) (evs : List (DepthEvent D)) (b' : DiffOrderBook D) {last : ℤ}
      → b.last_update_id ≡ some last
      → b.has_applied_event ≡ true
      → Feed b evs b'
      → IsChain last evs
  Feed-IsChain b _ b' at_last flag done = tt
  Feed-IsChain b _ b' at_last flag (next {m} {ev} {evs} now h rest) =
      let t : Takes b ev m = subst (Outcome b ev) h (apply_event-Outcome b ev now) in
      (
        t.final,
        t.in_order flag ∙ ap number (some-injective _ _ (sym t.was ∙ at_last)),
        t.final_read,
        Feed-IsChain m evs b' t.now_at t.flagged rest,
      )
