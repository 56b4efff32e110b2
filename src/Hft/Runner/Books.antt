-- ===== src/Hft/Runner/Books.antt =====
-- The order books that hft/runner.py holds, over the whole loop.
use ai_coinletgo.Prelude.{
  ℕ, ◌≡◌, refl, Bool, true, false, Option, none, some, List, [], ◌∷◌, if◌then◌else◌, Eq, Bool-cases,
  inl, inr, or_default, All, sym, subst,
}
use ai_coinletgo.Prelude.Text.{Text, upper, text_eq}
use ai_coinletgo.Prelude.Dict.{Dict, lookup, insert, All-lookup, All-insert}
use ai_coinletgo.Prelude.Result.{Result, ok, err}
use ai_coinletgo.Decimal.{Decimal}
use ai_coinletgo.Hft.OrderBook.{
  DiffOrderBook, DepthEvent, RawSnapshot, HftBookMetrics, BookError, Status, applied, gap, reset,
  apply_snapshot, apply_event, metrics,
}
use ai_coinletgo.Hft.OrderBook.Levels.{nil-IsLevels}
use ai_coinletgo.Hft.OrderBook.Sequence.{IsBook}
use ai_coinletgo.Hft.OrderBook.Feed.{apply_event-IsBook, apply_snapshot-IsBook}
use ai_coinletgo.Hft.Signal.{HftSignal, evaluate}
use ai_coinletgo.Hft.Execution.{HftPaperExecutor, HftFill, ExecuteError, execute}
use ai_coinletgo.Hft.Runner.{
  HftRunner, Readings, Answer, Item, connected, stream_stopped, stop_requested, depth, Turn, Trace,
  Ending, put_book, put_synchronized, load_book, synchronize_symbol, synchronize_all, reset_all,
  reset_books, refresh_limits, booked, trade, decision_of, decide, throttled, on_signal, due, react,
  on_metrics, by_status, on_book, process_depth_event, reconnect, stop, take_item, turn, resume,
  run_items,
}

module _ {D : Type 0} ⦃d : Decimal D⦄ ⦃e : Eq D⦄ where
  -- Every book that the runner holds is well formed.
  abbrev pub AreBooks : Dict Text (DiffOrderBook D) → Type 0
  AreBooks books = All (λ entry. IsBook entry.1) books

  reset-IsBook : (b : DiffOrderBook D) → IsBook b → IsBook (reset b)
  unfolding reset
  reset-IsBook b v = record {
    bids_ok = nil-IsLevels;
    asks_ok = nil-IsLevels;
    upper_symbol = v.upper_symbol;
  }

  put_book-AreBooks :
      (r : HftRunner D) (symbol : Text) (b : DiffOrderBook D)
      → AreBooks r.books
      → IsBook b
      → AreBooks (put_book r symbol b).books
  put_book-AreBooks r symbol b books v =
      All-insert (λ entry. IsBook entry.1) symbol b r.books v books

  put_synchronized-AreBooks :
      (r : HftRunner D) (symbol : Text) (answer : RawSnapshot D) (b : DiffOrderBook D)
      (read : Option (DiffOrderBook D))
      → AreBooks r.books
      → IsBook b
      → apply_snapshot b answer ≡ read
      → AreBooks (put_synchronized r symbol read).0.books
  put_synchronized-AreBooks r symbol answer b none books v h = books
  put_synchronized-AreBooks r symbol answer b (some b') books v h =
      put_book-AreBooks r symbol b' books (apply_snapshot-IsBook b answer b' v h)

  load_book-AreBooks :
      (r : HftRunner D) (symbol : Text) (answer : RawSnapshot D) (b : Option (DiffOrderBook D))
      → AreBooks r.books
      → lookup symbol r.books ≡ b
      → AreBooks (load_book r symbol answer b).0.books
  unfolding load_book
  load_book-AreBooks r symbol answer none books held = books
  load_book-AreBooks r symbol answer (some b) books held =
      put_synchronized-AreBooks r symbol answer b (apply_snapshot b answer) books
        (All-lookup IsBook symbol r.books books held) refl

  synchronize_symbol-AreBooks :
      (r : HftRunner D) (symbol : Text) (answer : Answer D)
      → AreBooks r.books
      → AreBooks (synchronize_symbol r symbol answer).0.books
  unfolding synchronize_symbol
  synchronize_symbol-AreBooks r symbol none books = books
  synchronize_symbol-AreBooks r symbol (some answer) books =
      load_book-AreBooks r symbol answer (lookup symbol r.books) books refl

  synchronize_all-AreBooks :
      (r : HftRunner D) (symbols : List Text) (answers : Text → Answer D)
      → AreBooks r.books
      → AreBooks (synchronize_all r symbols answers).0.books
  unfolding synchronize_all
  synchronize_all-AreBooks r [] answers books = books
  synchronize_all-AreBooks r (symbol ∷ rest) answers books =
      synchronize_all-AreBooks (synchronize_symbol r symbol (answers symbol)).0 rest answers
        (synchronize_symbol-AreBooks r symbol (answers symbol) books)

  reset_all-AreBooks :
      (books : Dict Text (DiffOrderBook D)) → AreBooks books → AreBooks (reset_all books)
  unfolding reset_all
  reset_all-AreBooks [] v = tt
  reset_all-AreBooks ((symbol, b) ∷ rest) v = (reset-IsBook b v.0, reset_all-AreBooks rest v.1)

  reconnect-AreBooks :
      (r : HftRunner D) (answers : Text → Answer D)
      → AreBooks r.books
      → AreBooks (reconnect r answers).0.books
  unfolding reconnect reset_books
  reconnect-AreBooks r answers books =
      synchronize_all-AreBooks (reset_books r) r.symbols answers (reset_all-AreBooks r.books books)

  booked-books :
      (r : HftRunner D) (outcome : Result ExecuteError (HftFill D × HftPaperExecutor D)) (now : ℕ)
      → (booked r outcome now).runner.books ≡ r.books
  booked-books r (err x) now = refl
  booked-books r (ok (f, x)) now = refl

  on_signal-books :
      (r : HftRunner D) (symbol : Text) (s : Result BookError (HftSignal D)) (t : Readings)
      → (on_signal r symbol s t).runner.books ≡ r.books
  unfolding on_signal decide trade
  on_signal-books r symbol (err x) t = refl
  on_signal-books r symbol (ok s) t = elim (Bool-cases (decision_of r symbol s t.now).allowed) [
    | inr denied ↦ rw denied refl
    | inl allowed ↦
        rw allowed
          (booked-books r (execute r.executor s (decision_of r symbol s t.now).quantity) t.traded)
  ]

  react-books :
      (r : HftRunner D) (symbol : Text) (b : DiffOrderBook D) (m : HftBookMetrics D) (t : Readings)
      → (react r symbol b m t).runner.books ≡ r.books
  unfolding react due refresh_limits
  react-books r symbol b m t =
      let r' = due (record r { marks = insert symbol m.mid_price r.marks }) symbol t in
      elim (Bool-cases
        (throttled (lookup symbol r.last_processed) t.now r.settings.event_interval)) [
          | inl early ↦ rw early refl
          | inr free ↦ rw free (on_signal-books r' symbol (evaluate r'.signal_engine b) t)
        ]

  on_metrics-books :
      (r : HftRunner D) (symbol : Text) (b : DiffOrderBook D)
      (m : Result BookError (HftBookMetrics D)) (t : Readings)
      → (on_metrics r symbol b m t).runner.books ≡ r.books
  unfolding on_metrics
  on_metrics-books r symbol b (err x) t = refl
  on_metrics-books r symbol b (ok m) t = react-books r symbol b m t

  by_status-AreBooks :
      (r : HftRunner D) (symbol : Text) (b : DiffOrderBook D) (answer : Answer D) (t : Readings)
      (status : Status)
      → AreBooks r.books
      → IsBook b
      → AreBooks (by_status r symbol b answer t status).runner.books
  unfolding by_status
  by_status-AreBooks r symbol b answer t applied books v =
      subst AreBooks (sym (on_metrics-books r symbol b (metrics b) t)) books
  by_status-AreBooks r symbol b answer t gap books v =
      synchronize_symbol-AreBooks (put_book r symbol (reset b)) symbol answer
        (put_book-AreBooks r symbol (reset b) books (reset-IsBook b v))
  by_status-AreBooks r symbol b answer t _ books v = books

  on_book-AreBooks :
      (r : HftRunner D) (symbol : Text) (ev : DepthEvent D) (answer : Answer D) (t : Readings)
      (b : Option (DiffOrderBook D))
      → AreBooks r.books
      → lookup symbol r.books ≡ b
      → AreBooks (on_book r symbol ev answer t b).runner.books
  unfolding on_book
  on_book-AreBooks r symbol ev answer t none books held = books
  on_book-AreBooks r symbol ev answer t (some b) books held =
      let (status, b') = apply_event b ev t.received in
      let v = apply_event-IsBook b ev t.received (All-lookup IsBook symbol r.books books held) in
      by_status-AreBooks (put_book r symbol b') symbol b' answer t status
        (put_book-AreBooks r symbol b' books v) v

  take_item-AreBooks :
      (r : HftRunner D) (item : Item D)
      → AreBooks r.books
      → AreBooks (take_item r item).runner.books
  unfolding take_item stop process_depth_event
  take_item-AreBooks r stream_stopped books = books
  take_item-AreBooks r stop_requested books = books
  take_item-AreBooks r (connected answers) books = reconnect-AreBooks r answers books
  take_item-AreBooks r (depth ev answer t) books =
      let symbol = upper (or_default ev.event_symbol []) in
      on_book-AreBooks r symbol ev answer t (lookup symbol r.books) books refl

  either-AreBooks :
      (over : Bool) (s s' : Turn D)
      → AreBooks s.runner.books
      → AreBooks s'.runner.books
      → AreBooks (if over then s else s').runner.books
  either-AreBooks true s s' h h' = h
  either-AreBooks false s s' h h' = h'

  turn-AreBooks :
      (r : HftRunner D) (item : Item D) → AreBooks r.books → AreBooks (turn r item).runner.books
  turn-AreBooks r item books =
      either-AreBooks r.stopped _ (take_item r item) books (take_item-AreBooks r item books)

  resume-AreBooks :
      (s : Turn D) (over : Option (Ending D)) (t : Trace D)
      → AreBooks s.runner.books
      → AreBooks t.runner.books
      → AreBooks (resume s over t).runner.books
  resume-AreBooks s (some ending) t now later = now
  resume-AreBooks s none t now later = later

  -- Whatever items arrive, whatever the exchange answers and wherever an exception ends the run, the
  -- loop leaves every book well formed.
  pub run_items-AreBooks :
      (r : HftRunner D) (items : List (Item D))
      → AreBooks r.books
      → AreBooks (run_items r items).runner.books
  unfolding run_items
  run_items-AreBooks r [] books = books
  run_items-AreBooks r (item ∷ items) books =
      let s = turn r item in
      resume-AreBooks s s.over (run_items s.runner items) (turn-AreBooks r item books)
        (run_items-AreBooks s.runner items (turn-AreBooks r item books))
