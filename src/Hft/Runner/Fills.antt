-- ===== src/Hft/Runner/Fills.antt =====
-- What a fill of hft/runner.py rests on, and that the executor never refuses one.
use ai_coinletgo.Prelude.{
  ℕ, ◌≡◌, refl, true, false, some, [], Eq, arith, Bool-cases, inl, inr, or_default, ap,
}
use ai_coinletgo.Prelude.Text.{Text, upper, text_eq}
use ai_coinletgo.Prelude.Dict.{lookup, insert, All-lookup}
use ai_coinletgo.Prelude.Result.{Result, ok, err}
use ai_coinletgo.Decimal.{Decimal, ◌≺◌, nought}
use ai_coinletgo.Decimal.Laws.{IsRounded}
use ai_coinletgo.Hft.OrderBook.{
  DiffOrderBook, DepthEvent, HftBookMetrics, BookError, Status, applied, raised, apply_event,
  metrics,
}
use ai_coinletgo.Hft.OrderBook.Sequence.{IsBook}
use ai_coinletgo.Hft.OrderBook.Feed.{apply_event-IsBook}
use ai_coinletgo.Hft.OrderBook.Quotes.{IsQuote, metrics-IsQuote}
use ai_coinletgo.Hft.Signal.{HftSignal, HftSignalEngine, judge, judge_quote, evaluate}
use ai_coinletgo.Hft.Risk.{price_of}
use ai_coinletgo.Hft.Risk.Checks.{IsCleared, check-IsCleared}
use ai_coinletgo.Hft.Execution.{HftFill, inventory_qty, fill_of}
use ai_coinletgo.Hft.Execution.Accounting.{execute_total}
use ai_coinletgo.Hft.OrderBook.Raising.{Unquoted, metrics-Unquoted}
use ai_coinletgo.Hft.Runner.Books.{AreBooks}
use ai_coinletgo.Hft.Runner.{
  HftRunner, Readings, Reply, nothing, filled, event_raised, quote_raised, execute_raised, Answer,
  put_book, decision_of, trade, decide, throttled, on_signal, due, react, on_metrics, by_status,
  on_book, process_depth_event,
}

module _ {D : Type 0} ⦃d : Decimal D⦄ ⦃e : Eq D⦄ (laws : IsRounded D) where
  judge-book : (engine : HftSignalEngine D) (m : HftBookMetrics D) → (judge engine m).book ≡ m
  unfolding judge
  judge-book engine m = ground arith

  judge_price_pos :
      (engine : HftSignalEngine D) (m : HftBookMetrics D) (b : DiffOrderBook D)
      → IsQuote laws b m
      → (nought ≺ price_of (judge engine m)) ≡ true
  judge_price_pos engine m b q = ground (arith, judge-book engine m, q.bid_pos, q.ask_pos)

  -- A decision that was filled: cleared by the risk manager, and filled as decided.
  pub record IsDecided (r : HftRunner D) (symbol : Text) (s : HftSignal D) (now : ℕ) (f : HftFill D)
      : Type 0 where
    pub quantity : D
    pub cleared :
        IsCleared r.risk s
          (inventory_qty r.executor symbol)
          r.settings.order_notional_usdt
          quantity
          now
    pub filled_as : f ≡ fill_of r.executor s quantity

  -- What `trade` replies: the fill, since an allowed decision is never refused.
  abbrev pub IsAnswered : HftRunner D → Text → HftSignal D → ℕ → Reply D → Type 0
  IsAnswered r symbol s now nothing = Unit
  IsAnswered r symbol s now (filled f) = IsDecided r symbol s now f
  IsAnswered r symbol s now event_raised = ⊥
  IsAnswered r symbol s now (quote_raised x) = ⊥
  IsAnswered r symbol s now (execute_raised x) = ⊥

  decide-IsAnswered :
      (r : HftRunner D) (symbol : Text) (s : HftSignal D) (t : Readings)
      → (nought ≺ price_of s) ≡ true
      → IsAnswered r symbol s t.now (decide r symbol s t).reply
  unfolding decide trade
  decide-IsAnswered r symbol s t price_pos =
      let decision = decision_of r symbol s t.now in
      elim (Bool-cases decision.allowed) [
        | inr denied ↦ rw denied tt
        | inl allowed ↦
            let cleared =
              check-IsCleared laws r.risk s (inventory_qty r.executor symbol)
                r.settings.order_notional_usdt t.now price_pos allowed in
            rw
              (
                allowed,
                trade,
                execute_total r.executor s decision.quantity cleared.acts cleared.positive,
              )
              (record { quantity = decision.quantity; cleared = cleared; filled_as = refl })
      ]

  -- What a fill on an applied event rests on, from the runner `r` that holds the updated book `b`.
  pub record IsFill (r : HftRunner D) (symbol : Text) (b : DiffOrderBook D) (t : Readings)
      (f : HftFill D) : Type 0 where
    pub quote : HftBookMetrics D
    pub quoted : metrics b ≡ ok quote
    pub unthrottled :
        throttled (lookup symbol r.last_processed) t.now r.settings.event_interval ≡ false
    pub decided :
        let r' = due (record r { marks = insert symbol quote.mid_price r.marks }) symbol t in
        IsDecided r' symbol (judge r'.signal_engine quote) t.now f

  -- Why a call on an event replies as it does.
  abbrev pub Explained : HftRunner D → Text → DiffOrderBook D → Readings → Status → Reply D → Type 0
  Explained r symbol b t status nothing = Unit
  Explained r symbol b t status (filled f) = (status ≡ applied) × IsFill r symbol b t f
  Explained r symbol b t status event_raised = status ≡ raised
  Explained r symbol b t status (quote_raised x) =
      (status ≡ applied) × ((metrics b ≡ err x) × Unquoted laws b)
  Explained r symbol b t status (execute_raised x) = ⊥

  evaluate_lem :
      (engine : HftSignalEngine D) (b : DiffOrderBook D) (m : HftBookMetrics D)
      → metrics b ≡ ok m
      → evaluate engine b ≡ ok (judge engine m)
  unfolding evaluate
  evaluate_lem engine b m h = ap (judge_quote engine) h

  answered-Explained :
      (r : HftRunner D) (symbol : Text) (b : DiffOrderBook D) (m : HftBookMetrics D) (t : Readings)
      (reply : Reply D)
      → metrics b ≡ ok m
      → throttled (lookup symbol r.last_processed) t.now r.settings.event_interval ≡ false
      → let r' = due (record r { marks = insert symbol m.mid_price r.marks }) symbol t in
        IsAnswered r' symbol (judge r'.signal_engine m) t.now reply
        → Explained r symbol b t applied reply
  answered-Explained r symbol b m t nothing h free answered = tt
  answered-Explained r symbol b m t (filled f) h free answered =
      (refl, record { quote = m; quoted = h; unthrottled = free; decided = answered })
  answered-Explained r symbol b m t event_raised h free answered = absurd answered
  answered-Explained r symbol b m t (quote_raised x) h free answered = absurd answered
  answered-Explained r symbol b m t (execute_raised x) h free answered = absurd answered

  react-Explained :
      (r : HftRunner D) (symbol : Text) (b : DiffOrderBook D) (m : HftBookMetrics D) (t : Readings)
      → IsBook b
      → metrics b ≡ ok m
      → Explained r symbol b t applied (react r symbol b m t).reply
  unfolding react on_signal
  react-Explained r symbol b m t v h =
      let r' = due (record r { marks = insert symbol m.mid_price r.marks }) symbol t in
      let s = judge r'.signal_engine m in
      let price_pos = judge_price_pos r'.signal_engine m b (metrics-IsQuote laws b m v h) in
      elim (Bool-cases
        (throttled (lookup symbol r.last_processed) t.now r.settings.event_interval)) [
          | inl early ↦ rw early tt
          | inr free ↦
              rw (free, evaluate_lem r'.signal_engine b m h)
                (answered-Explained r symbol b m t (decide r' symbol s t).reply h free
                  (decide-IsAnswered r' symbol s t price_pos))
        ]

  on_metrics-Explained :
      (r : HftRunner D) (symbol : Text) (b : DiffOrderBook D) (t : Readings)
      (m : Result BookError (HftBookMetrics D))
      → IsBook b
      → metrics b ≡ m
      → Explained r symbol b t applied (on_metrics r symbol b m t).reply
  unfolding on_metrics
  on_metrics-Explained r symbol b t (err x) v h = (refl, (h, metrics-Unquoted laws b x v h))
  on_metrics-Explained r symbol b t (ok m) v h = react-Explained r symbol b m t v h

  by_status-Explained :
      (r : HftRunner D) (symbol : Text) (b : DiffOrderBook D) (answer : Answer D) (t : Readings)
      (status : Status)
      → IsBook b
      → Explained r symbol b t status (by_status r symbol b answer t status).reply
  unfolding by_status
  by_status-Explained r symbol b answer t applied v =
      on_metrics-Explained r symbol b t (metrics b) v refl
  by_status-Explained r symbol b answer t raised v = refl
  by_status-Explained r symbol b answer t _ v = tt

  -- A call for a symbol with a book explains itself. A fill comes of an applied event with a sound
  -- quote, not throttled, whose decision the risk manager has cleared, and is filled as decided. An
  -- exception comes of an unreadable event time, or of an applied event after which the book has no
  -- metrics: it has no last id, a side of it is empty, a bid is above an ask, or the id is negative. It never
  -- comes of the executor.
  pub process_depth_event-Explained :
      (r : HftRunner D) (ev : DepthEvent D) (answer : Answer D) (t : Readings) {b : DiffOrderBook D}
      → let symbol = upper (or_default ev.event_symbol []) in
        AreBooks r.books
        → lookup symbol r.books ≡ some b
        → let (status, b') = apply_event b ev t.received in
          Explained
            (put_book r symbol b')
            symbol
            b'
            t
            status
            (process_depth_event r ev answer t).reply
  unfolding process_depth_event on_book
  process_depth_event-Explained r ev answer t {b} books held =
      let symbol = upper (or_default ev.event_symbol []) in
      let v = All-lookup IsBook symbol r.books books held in
      let (status, b') = apply_event b ev t.received in
      rw held (
        by_status-Explained (put_book r symbol b') symbol b' answer t status
          (apply_event-IsBook b ev t.received v))
