-- ===== src/Hft/Runner.antt =====
-- hft/runner.py: `HftRunner`. The queue's items come as a list, the clock's readings and the answers
-- of the exchange with them; the redis writes are the statuses that are published. The detail texts
-- of the statuses are left out.
pub mod Breaker
pub mod Fills
pub mod Books
use ai_coinletgo.Prelude.{
  ℕ, ◌+◌, Bool, true, false, not, ◌&&◌, ◌||◌, Option, none, some, List, [], ◌∷◌, ◌++◌,
  if◌then◌else◌, or_default, ltb, Eq, length,
}
use ai_coinletgo.Prelude.Int.{ℤ}
use ai_coinletgo.Prelude.Text.{Text, text_eq, upper}
use ai_coinletgo.Prelude.Dict.{Dict, lookup, insert}
use ai_coinletgo.Prelude.Result.{Result, ok, err}
use ai_coinletgo.Decimal.{Decimal, ◌≼◌, ◌≺◌, nought}
use ai_coinletgo.Hft.OrderBook.{
  DiffOrderBook, DepthEvent, RawSnapshot, Status, applied, stale, gap, ignored, not_ready, raised,
  init, reset, apply_snapshot, apply_event, HftBookMetrics, BookError, metrics,
}
use ai_coinletgo.Hft.Signal.{HftSignal, HftSignalEngine, evaluate}
use ai_coinletgo.Hft.Risk.{
  HftRiskManager, HftRiskDecision, update_limits, check, record_fill, record_opening_fill,
}
use ai_coinletgo.Hft.Execution.{
  HftPaperExecutor, HftFill, HftExecutionSnapshot, ExecuteError, inventory_qty, execute,
  aggregate_snapshot,
}

-- `HftState`
pub data HftState : Type 0 where
  idle connecting ready running blocked degraded : HftState

-- The settings that the runner reads, times in ticks of the clock.
pub record HftSettings (D : Type 0) : Type 0 where
  pub is_testnet : Bool
  pub dry_run : Bool
  pub imbalance_threshold : D
  pub max_spread_pct : D
  pub min_depth_usdt : D
  pub order_notional_usdt : D
  pub max_inventory_usdt : D
  pub cooldown : ℕ
  pub market_stale : ℕ
  pub event_interval : ℕ
  pub max_consecutive_losses : ℕ

pub record HftRunner (D : Type 0) : Type 0 where
  pub settings : HftSettings D
  pub symbols : List Text
  pub books : Dict Text (DiffOrderBook D)
  pub signal_engine : HftSignalEngine D
  pub risk : HftRiskManager D
  pub executor : HftPaperExecutor D
  pub last_processed : Dict Text ℕ
  pub marks : Dict Text D
  pub stopped : Bool

-- The parts of `HftStatus` that are no text.
pub record HftStatus (D : Type 0) : Type 0 where
  pub state : HftState
  pub dry_run : Bool
  pub fills : ℕ
  pub realized_pnl_usdt : D
  pub unrealized_pnl_usdt : D
  pub fees_usdt : D
  pub consecutive_losses : ℕ

-- The readings of `time.monotonic()` in one call: on receipt, for the decision, after the fill.
pub record Readings : Type 0 where
  pub received : ℕ
  pub now : ℕ
  pub traded : ℕ

-- What `process_depth_event` comes to: `None`, a fill, or an exception that leaves it.
pub data Reply (D : Type 0) : Type 0 where
  nothing : Reply D
  filled : HftFill D → Reply D
  event_raised : Reply D
  quote_raised : BookError → Reply D
  execute_raised : ExecuteError → Reply D

-- An answer of `get_order_book_snapshot`, `none` if it raises.
abbrev pub Answer : Type 0 → Type 0
Answer D = Option (RawSnapshot D)

-- What a call leaves: its reply, the runner, and the statuses that it published, in order.
pub record Step (D : Type 0) : Type 0 where
  pub reply : Reply D
  pub runner : HftRunner D
  pub published : List (HftStatus D)

-- `now - previous < min_interval` for the symbol's last decision.
abbrev pub throttled : Option ℕ → ℕ → ℕ → Bool
throttled none now interval = false
throttled (some previous) now interval = ltb now (previous + interval)

-- What the loop of `run_forever` takes: an item of its queue, or a call of `stop` in between.
pub data Item (D : Type 0) : Type 0 where
  connected : (Text → Answer D) → Item D
  stream_stopped stop_requested : Item D
  depth : DepthEvent D → Answer D → Readings → Item D

-- How a run has ended: it waits for the next item, has returned, or an exception has left it.
pub data Ending (D : Type 0) : Type 0 where
  waiting returned : Ending D
  raised_by : Reply D → Ending D

-- One turn of the loop; `over` is its end, if it ends there.
pub record Turn (D : Type 0) : Type 0 where
  pub runner : HftRunner D
  pub fills : List (HftFill D)
  pub published : List (HftStatus D)
  pub over : Option (Ending D)

pub record Trace (D : Type 0) : Type 0 where
  pub ending : Ending D
  pub runner : HftRunner D
  pub fills : List (HftFill D)
  pub published : List (HftStatus D)

module _ {D : Type 0} ⦃d : Decimal D⦄ ⦃e : Eq D⦄ where
  -- `_set_status`
  unfoldable pub status_of : HftRunner D → HftState → HftStatus D
  status_of r state =
      let s = aggregate_snapshot r.executor r.marks in
      record {
        state = state;
        dry_run = r.settings.dry_run;
        fills = s.fills;
        realized_pnl_usdt = s.realized_pnl_usdt;
        unrealized_pnl_usdt = s.unrealized_pnl_usdt;
        fees_usdt = s.fees_usdt;
        consecutive_losses = r.risk.consecutive_losses;
      }

  abbrev pub put_book : HftRunner D → Text → DiffOrderBook D → HftRunner D
  put_book r symbol b = record r { books = insert symbol b r.books }

  -- `_synchronize_symbol`, with the exchange's answer: every exception makes it `False`.
  abbrev pub put_synchronized : HftRunner D → Text → Option (DiffOrderBook D) → HftRunner D × Bool
  put_synchronized r symbol none = (r, false)
  put_synchronized r symbol (some b) = (put_book r symbol b, true)

  unfoldable pub load_book :
      HftRunner D → Text → RawSnapshot D → Option (DiffOrderBook D) → HftRunner D × Bool
  load_book r symbol answer none = (r, false)
  load_book r symbol answer (some b) = put_synchronized r symbol (apply_snapshot b answer)

  unfoldable pub synchronize_symbol : HftRunner D → Text → Answer D → HftRunner D × Bool
  unfolding load_book
  synchronize_symbol r symbol none = (r, false)
  synchronize_symbol r symbol (some answer) = load_book r symbol answer (lookup symbol r.books)

  -- `_synchronize_books`: the number of books that synchronized. The answers are of one symbol each,
  -- so the order in which they arrive does not matter.
  unfoldable pub synchronize_all : HftRunner D → List Text → (Text → Answer D) → HftRunner D × ℕ
  synchronize_all r [] answers = (r, 0)
  synchronize_all r (symbol ∷ rest) answers =
      let (r', done) = synchronize_symbol r symbol (answers symbol) in
      let (last, n) = synchronize_all r' rest answers in (last, (if done then 1 else 0) + n)

  unfoldable pub reset_all : Dict Text (DiffOrderBook D) → Dict Text (DiffOrderBook D)
  reset_all [] = []
  reset_all ((symbol, b) ∷ rest) = (symbol, reset b) ∷ reset_all rest

  -- `_reset_books`
  unfoldable pub reset_books : HftRunner D → HftRunner D
  unfolding reset_all
  reset_books r = record r { books = reset_all r.books; last_processed = [] }

  -- `_refresh_limits`
  unfoldable pub refresh_limits : HftRunner D → HftRunner D
  refresh_limits r =
      let s = r.settings in
      record r {
        signal_engine = record {
          imbalance_threshold = s.imbalance_threshold;
          max_spread_pct = s.max_spread_pct;
          min_depth_usdt = s.min_depth_usdt;
        };
        risk =
            update_limits r.risk s.max_inventory_usdt s.cooldown s.market_stale
              s.max_consecutive_losses;
      }

  -- The record of a fill with the risk manager.
  abbrev pub note_fill : HftRiskManager D → HftFill D → ℕ → HftRiskManager D
  note_fill risk f now =
      if nought ≺ f.closed_quantity
      then record_fill risk f.closed_quantity f.realized_pnl_usdt now
      else record_opening_fill risk now

  -- The end of `process_depth_event`, by what `execute` came to.
  abbrev pub booked :
      HftRunner D → Result ExecuteError (HftFill D × HftPaperExecutor D) → ℕ → Step D
  booked r (err x) now = record { reply = execute_raised x; runner = r; published = [] }
  booked r (ok (f, x)) now =
      let r' : HftRunner D = record r { executor = x; risk = note_fill r.risk f now } in
      record { reply = filled f; runner = r'; published = status_of r' running ∷ [] }

  -- The paper fill of an allowed decision.
  unfoldable pub trade : HftRunner D → HftSignal D → D → ℕ → Step D
  trade r s quantity now = booked r (execute r.executor s quantity) now

  abbrev pub decision_of : HftRunner D → Text → HftSignal D → ℕ → HftRiskDecision D
  decision_of r symbol s now =
      check r.risk s (inventory_qty r.executor symbol) r.settings.order_notional_usdt now

  -- From the signal to the decision.
  unfoldable pub decide : HftRunner D → Text → HftSignal D → Readings → Step D
  unfolding trade
  decide r symbol s t =
      let decision = decision_of r symbol s t.now in
      if decision.allowed
      then trade r s decision.quantity t.traded
      else record { reply = nothing; runner = r; published = [] }

  -- From the engine's signal, or the exception of its quote, to the decision.
  unfoldable pub on_signal : HftRunner D → Text → Result BookError (HftSignal D) → Readings → Step D
  unfolding decide
  on_signal r symbol (err x) t = record { reply = quote_raised x; runner = r; published = [] }
  on_signal r symbol (ok s) t = decide r symbol s t

  -- The runner when it turns to the signal: the symbol's last decision is now, the limits are fresh.
  unfoldable pub due : HftRunner D → Text → Readings → HftRunner D
  unfolding refresh_limits
  due r symbol t =
      refresh_limits (record r { last_processed = insert symbol t.now r.last_processed })

  -- From an applied event with a sound quote to the signal.
  unfoldable pub react : HftRunner D → Text → DiffOrderBook D → HftBookMetrics D → Readings → Step D
  unfolding on_signal due
  react r symbol b m t =
      let marked : HftRunner D = record r { marks = insert symbol m.mid_price r.marks } in
      let ready_at = due marked symbol t in
      if throttled (lookup symbol r.last_processed) t.now r.settings.event_interval
      then record { reply = nothing; runner = marked; published = [] }
      else on_signal ready_at symbol (evaluate ready_at.signal_engine b) t

  unfoldable pub on_metrics :
      HftRunner D → Text → DiffOrderBook D → Result BookError (HftBookMetrics D) → Readings → Step D
  unfolding react
  on_metrics r symbol b (err x) t = record { reply = quote_raised x; runner = r; published = [] }
  on_metrics r symbol b (ok m) t = react r symbol b m t

  -- `process_depth_event`, by the status of `apply_event`; the runner holds the event's book.
  unfoldable pub by_status :
      HftRunner D → Text → DiffOrderBook D → Answer D → Readings → Status → Step D
  unfolding on_metrics synchronize_symbol
  by_status r symbol b answer t applied = on_metrics r symbol b (metrics b) t
  by_status r symbol b answer t gap =
      let emptied = put_book r symbol (reset b) in
      record {
        reply = nothing;
        runner = (synchronize_symbol emptied symbol answer).0;
        published = status_of emptied degraded ∷ [];
      }
  by_status r symbol b answer t raised = record { reply = event_raised; runner = r; published = [] }
  by_status r symbol b answer t stale = record { reply = nothing; runner = r; published = [] }
  by_status r symbol b answer t ignored = record { reply = nothing; runner = r; published = [] }
  by_status r symbol b answer t not_ready = record { reply = nothing; runner = r; published = [] }

  -- `process_depth_event`, with the book of the event's symbol.
  unfoldable pub on_book :
      HftRunner D → Text → DepthEvent D → Answer D → Readings → Option (DiffOrderBook D) → Step D
  unfolding by_status
  on_book r symbol ev answer t none = record { reply = nothing; runner = r; published = [] }
  on_book r symbol ev answer t (some b) =
      let (status, b') = apply_event b ev t.received in
      by_status (put_book r symbol b') symbol b' answer t status

  unfoldable pub process_depth_event : HftRunner D → DepthEvent D → Answer D → Readings → Step D
  unfolding on_book
  process_depth_event r ev answer t =
      let symbol = upper (or_default ev.event_symbol []) in
      on_book r symbol ev answer t (lookup symbol r.books)

  -- `stop`
  unfoldable pub stop : HftRunner D → HftRunner D
  stop r = record r { stopped = true }

  -- The `connected` item.
  unfoldable pub reconnect : HftRunner D → (Text → Answer D) → HftRunner D × List (HftStatus D)
  unfolding reset_books synchronize_all
  reconnect r answers =
      let (r', synced) = synchronize_all (reset_books r) r.symbols answers in
      (r', status_of r' (if ltb 0 synced then ready else degraded) ∷ [])

  abbrev pub fills_of : Reply D → List (HftFill D)
  fills_of (filled f) = f ∷ []
  fills_of _ = []

  abbrev pub raises : Reply D → Bool
  raises nothing = false
  raises (filled f) = false
  raises event_raised = true
  raises (quote_raised x) = true
  raises (execute_raised x) = true

  -- What the loop makes of a step of `process_depth_event`: an exception ends it.
  abbrev pub of_step : Step D → Turn D
  of_step s = record {
    runner = s.runner;
    fills = fills_of s.reply;
    published = s.published;
    over = if raises s.reply then some (raised_by s.reply) else none;
  }

  -- One turn of the loop that is not stopped.
  unfoldable pub take_item : HftRunner D → Item D → Turn D
  unfolding reconnect stop
  take_item r stream_stopped = record {
    runner = r;
    fills = [];
    published = [];
    over = some returned;
  }
  take_item r stop_requested = record { runner = stop r; fills = []; published = []; over = none }
  take_item r (connected answers) =
      let (r', published) = reconnect r answers in
      record { runner = r'; fills = []; published = published; over = none }
  take_item r (depth ev answer t) = of_step (process_depth_event r ev answer t)

  abbrev pub turn : HftRunner D → Item D → Turn D
  turn r item =
      if r.stopped
      then record { runner = r; fills = []; published = []; over = some returned }
      else take_item r item

  -- A turn, and then the rest of the run unless the turn has ended it.
  abbrev pub resume : Turn D → Option (Ending D) → Trace D → Trace D
  resume s (some ending) t = record {
    ending = ending;
    runner = s.runner;
    fills = s.fills;
    published = s.published;
  }
  resume s none t = record t { fills = s.fills ++ t.fills; published = s.published ++ t.published }

  -- The loop, over the items that arrive.
  unfoldable pub run_items : HftRunner D → List (Item D) → Trace D
  unfolding take_item
  run_items r [] = record { ending = waiting; runner = r; fills = []; published = [] }
  run_items r (item ∷ items) =
      let s = turn r item in let t = run_items s.runner items in resume s s.over t

  -- The refusals of `run_forever`: the state that it publishes before it idles.
  abbrev pub refusal : HftRunner D → Option HftState
  refusal r =
      if not r.settings.is_testnet
      then some blocked
      else if not r.settings.dry_run
      then some blocked
      else elim r.symbols [ [] ↦ some idle | _ ∷ _ ↦ none ]

  unfoldable pub run_forever : HftRunner D → List (Item D) → Trace D
  unfolding run_items
  run_forever r items = elim (refusal r) [
    | some state ↦ record {
      ending = returned;
      runner = r;
      fills = [];
      published = status_of r state ∷ [];
    }
    | none ↦
        let t = run_items r items in record t { published = status_of r connecting ∷ t.published }
  ]
