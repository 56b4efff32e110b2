-- ===== src/Hft/Runner/Breaker.antt =====
-- The loss breaker over the whole loop of hft/runner.py.
use ai_coinletgo.Prelude.{
  ℕ, ◌≡◌, refl, true, false, Option, none, some, List, [], ◌∷◌, Eq, arith, Bool-cases, inl, inr,
  ◌≤◌, or_default,
}
use ai_coinletgo.Prelude.Text.{Text, upper, text_eq}
use ai_coinletgo.Prelude.Dict.{lookup, insert}
use ai_coinletgo.Prelude.Result.{Result, ok, err}
use ai_coinletgo.Decimal.{Decimal}
use ai_coinletgo.Hft.OrderBook.{
  DiffOrderBook, DepthEvent, HftBookMetrics, BookError, Status, applied, gap, raised, reset,
  apply_event, metrics,
}
use ai_coinletgo.Hft.Signal.{HftSignal, evaluate}
use ai_coinletgo.Hft.Risk.{HftRiskManager, update_limits, check, guarded}
use ai_coinletgo.Hft.Runner.{
  HftRunner, Readings, Answer, Step, Item, connected, stream_stopped, stop_requested, depth, Trace,
  put_book, synchronize_symbol, synchronize_all, reset_books, refresh_limits, decide, on_signal,
  due, react, on_metrics, by_status, load_book, on_book, process_depth_event, reconnect, fills_of,
  Turn, take_item, turn, resume, Ending, stop, run_items,
}

module _ {D : Type 0} ⦃d : Decimal D⦄ ⦃e : Eq D⦄ where
  -- The breaker is on, and the settings leave it on.
  pub record IsHalted (r : HftRunner D) : Type 0 where
    pub halted : r.risk.halted ≡ true
    pub exhausted : r.settings.max_consecutive_losses ≤ r.risk.consecutive_losses

  -- A call that has traded nothing and left the breaker on.
  pub record IsIdle (s : Step D) : Type 0 where
    pub no_fill : fills_of s.reply ≡ []
    pub still : IsHalted s.runner

  check-halted :
      (risk : HftRiskManager D) (s : HftSignal D) (inventory notional : D) (now : ℕ)
      → risk.halted ≡ true
      → (check risk s inventory notional now).allowed ≡ false
  unfolding check guarded
  check-halted risk s inventory notional now h = ground arith

  decide-IsIdle :
      (r : HftRunner D) (symbol : Text) (s : HftSignal D) (t : Readings)
      → IsHalted r
      → IsIdle (decide r symbol s t)
  unfolding decide
  decide-IsIdle r symbol s t h =
      rw (check-halted r.risk s _ r.settings.order_notional_usdt t.now h.halted)
        (record { no_fill = refl; still = h })

  due-IsHalted :
      (r : HftRunner D) (symbol : Text) (t : Readings) → IsHalted r → IsHalted (due r symbol t)
  unfolding due refresh_limits update_limits
  due-IsHalted r symbol t h = ground arith

  on_signal-IsIdle :
      (r : HftRunner D) (symbol : Text) (s : Result BookError (HftSignal D)) (t : Readings)
      → IsHalted r
      → IsIdle (on_signal r symbol s t)
  unfolding on_signal
  on_signal-IsIdle r symbol (err x) t h = record { no_fill = refl; still = h }
  on_signal-IsIdle r symbol (ok s) t h = decide-IsIdle r symbol s t h

  react-IsIdle :
      (r : HftRunner D) (symbol : Text) (b : DiffOrderBook D) (m : HftBookMetrics D) (t : Readings)
      → IsHalted r
      → IsIdle (react r symbol b m t)
  unfolding react
  react-IsIdle r symbol b m t h =
      let marked : HftRunner D = record r { marks = insert symbol m.mid_price r.marks } in
      let marked_halted : IsHalted marked = record { halted = h.halted; exhausted = h.exhausted } in
      let ready_at = due marked symbol t in
      ground (
        arith,
        on_signal-IsIdle ready_at symbol (evaluate ready_at.signal_engine b) t
            (due-IsHalted marked symbol t marked_halted),
      )

  on_metrics-IsIdle :
      (r : HftRunner D) (symbol : Text) (b : DiffOrderBook D)
      (m : Result BookError (HftBookMetrics D)) (t : Readings)
      → IsHalted r
      → IsIdle (on_metrics r symbol b m t)
  unfolding on_metrics
  on_metrics-IsIdle r symbol b (err x) t h = record { no_fill = refl; still = h }
  on_metrics-IsIdle r symbol b (ok m) t h = react-IsIdle r symbol b m t h

  synchronize_symbol-IsHalted :
      (r : HftRunner D) (symbol : Text) (answer : Answer D)
      → IsHalted r
      → IsHalted (synchronize_symbol r symbol answer).0
  unfolding synchronize_symbol load_book
  synchronize_symbol-IsHalted r symbol none h = h
  synchronize_symbol-IsHalted r symbol (some answer) h = ground arith

  by_status-IsIdle :
      (r : HftRunner D) (symbol : Text) (b : DiffOrderBook D) (answer : Answer D) (t : Readings)
      (status : Status)
      → IsHalted r
      → IsIdle (by_status r symbol b answer t status)
  unfolding by_status
  by_status-IsIdle r symbol b answer t applied h = on_metrics-IsIdle r symbol b (metrics b) t h
  by_status-IsIdle r symbol b answer t gap h =
      let emptied : HftRunner D = put_book r symbol (reset b) in
      record {
        no_fill = refl;
        still =
            synchronize_symbol-IsHalted emptied symbol answer
              (record { halted = h.halted; exhausted = h.exhausted });
      }
  by_status-IsIdle r symbol b answer t raised h = record { no_fill = refl; still = h }
  by_status-IsIdle r symbol b answer t _ h = record { no_fill = refl; still = h }

  on_book-IsIdle :
      (r : HftRunner D) (symbol : Text) (ev : DepthEvent D) (answer : Answer D) (t : Readings)
      (b : Option (DiffOrderBook D))
      → IsHalted r
      → IsIdle (on_book r symbol ev answer t b)
  unfolding on_book
  on_book-IsIdle r symbol ev answer t none h = record { no_fill = refl; still = h }
  on_book-IsIdle r symbol ev answer t (some b) h =
      let (status, b') = apply_event b ev t.received in
      by_status-IsIdle (put_book r symbol b') symbol b' answer t status
        (record { halted = h.halted; exhausted = h.exhausted })

  pub process_depth_event-IsIdle :
      (r : HftRunner D) (ev : DepthEvent D) (answer : Answer D) (t : Readings)
      → IsHalted r
      → IsIdle (process_depth_event r ev answer t)
  unfolding process_depth_event
  process_depth_event-IsIdle r ev answer t h =
      let symbol = upper (or_default ev.event_symbol []) in
      on_book-IsIdle r symbol ev answer t (lookup symbol r.books) h

  synchronize_all-IsHalted :
      (r : HftRunner D) (symbols : List Text) (answers : Text → Answer D)
      → IsHalted r
      → IsHalted (synchronize_all r symbols answers).0
  unfolding synchronize_all
  synchronize_all-IsHalted r [] answers h = h
  synchronize_all-IsHalted r (symbol ∷ rest) answers h =
      synchronize_all-IsHalted (synchronize_symbol r symbol (answers symbol)).0 rest answers
        (synchronize_symbol-IsHalted r symbol (answers symbol) h)

  reconnect-IsHalted :
      (r : HftRunner D) (answers : Text → Answer D) → IsHalted r → IsHalted (reconnect r answers).0
  unfolding reconnect reset_books
  reconnect-IsHalted r answers h =
      synchronize_all-IsHalted (reset_books r) r.symbols answers
        (record { halted = h.halted; exhausted = h.exhausted })

  -- A turn of the loop that has traded nothing and left the breaker on.
  pub record IsIdleTurn (s : Turn D) : Type 0 where
    pub no_fill : s.fills ≡ []
    pub still : IsHalted s.runner

  take_item-IsIdleTurn :
      (r : HftRunner D) (item : Item D) → IsHalted r → IsIdleTurn (take_item r item)
  unfolding take_item stop
  take_item-IsIdleTurn r stream_stopped h = record { no_fill = refl; still = h }
  take_item-IsIdleTurn r stop_requested h = record {
    no_fill = refl;
    still = record { halted = h.halted; exhausted = h.exhausted };
  }
  take_item-IsIdleTurn r (connected answers) h = record {
    no_fill = refl;
    still = reconnect-IsHalted r answers h;
  }
  take_item-IsIdleTurn r (depth ev answer t) h =
      let idle = process_depth_event-IsIdle r ev answer t h in
      record { no_fill = idle.no_fill; still = idle.still }

  turn-IsIdleTurn : (r : HftRunner D) (item : Item D) → IsHalted r → IsIdleTurn (turn r item)
  turn-IsIdleTurn r item h = elim (Bool-cases r.stopped) [
    | inl over ↦ ground arith
    | inr going ↦ ground (arith, take_item-IsIdleTurn r item h)
  ]

  resume-IsHalted :
      (s : Turn D) (over : Option (Ending D)) (t : Trace D)
      → IsIdleTurn s
      → (t.fills ≡ []) × IsHalted t.runner
      → ((resume s over t).fills ≡ []) × IsHalted (resume s over t).runner
  resume-IsHalted s (some ending) t idle later = (idle.no_fill, idle.still)
  resume-IsHalted s none t idle later = (rw (idle.no_fill, later.0) refl, later.1)

  -- Once the breaker is on, and the settings' limit is not above the losses on record, the loop makes
  -- no fill, whatever items arrive, reconnections and requests to stop included; it leaves the breaker
  -- on.
  pub run_items-IsHalted :
      (r : HftRunner D) (items : List (Item D))
      → IsHalted r
      → ((run_items r items).fills ≡ []) × IsHalted (run_items r items).runner
  unfolding run_items
  run_items-IsHalted r [] h = (refl, h)
  run_items-IsHalted r (item ∷ items) h =
      let s = turn r item in
      let idle = turn-IsIdleTurn r item h in
      resume-IsHalted s s.over (run_items s.runner items) idle
        (run_items-IsHalted s.runner items idle.still)
