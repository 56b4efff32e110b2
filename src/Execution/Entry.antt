-- ===== src/Execution/Entry.antt =====
-- execution/manager.py: `ExecutionManager`, which places an entry order inside the approved range,
-- places it again when it does not fill, and protects whatever fills.
pub mod Audit
pub mod Protection
pub mod Polling
pub mod Attempts
pub mod Protocol
use Prim.Native.Nat.{suc}
use ai_coinletgo.Prelude.{
  ℕ, zero, ◌+◌, ◌-◌, ◌/◌, ◌%◌, Bool, true, false, not, ◌&&◌, ◌||◌, Option, none, some, List, [],
  ◌∷◌, ◌++◌, if◌then◌else◌, ltb, leb, keep, take, nat_beq, ◌==◌,
}
use ai_coinletgo.Prelude.Text.{Text, text}
use ai_coinletgo.Prelude.Result.{Result, ok, err}
use ai_coinletgo.Decimal.{Decimal, ◌≼◌, ◌≺◌, nought, ◌⊖◌, ◌⊗◌, abs}
use ai_coinletgo.Domain.Enums.{
  OrderStatus, filled, canceled, order_rejected, expired, submitted, partially_filled, status_eq,
}
use ai_coinletgo.Domain.Account.{PositionState, is_position, fill_initial_risk_metadata}
use ai_coinletgo.Domain.Orders.{ExecutionIntent, OrderState}
use ai_coinletgo.Execution.Session.{
  ErrorInfo, Fault, exchange_error, unknown_status, other_exception, Raised, fault, not_submitted,
  protection_error, position_invalid, entries_disallowed, outside_entry_guard, never_submitted,
  diverges, Event, entry_asked, protection_set, protection_refused, emergency_close,
  order_cancelled, read, Session, Action, pure, raise, raise_if, tick, attempt, ask, ◌>>=◌, ◌>>◌,
}
use ai_coinletgo.Execution.Gateway.{Gateway}

pub record ExecutionManager : Type 0 where
  pub reprice_seconds : ℕ
  pub max_reprices : ℕ
  pub fill_poll_seconds : ℕ

-- How one attempt leaves off: with what `execute` returns, or with the last order, the quantity
-- protected and the protection orders, which the next attempt goes on from.
pub data Progress (D : Type 0) : Type 0 where
  finished : OrderState D → List (OrderState D) → Progress D
  unfinished : OrderState D → D → List (OrderState D) → Progress D

abbrev pub min_nat : ℕ → ℕ → ℕ
min_nat a b = if leb a b then a else b

-- A number below 100 in decimal digits, which `attempt` always is.
abbrev pub digits : ℕ → Text
digits n = if ltb n 10 then (n + 48) ∷ [] else (n / 10 + 48) ∷ (n % 10 + 48) ∷ []

unfoldable pub entry_client_id : Text → ℕ → Text
entry_client_id intent_id k =
    text "frc_" ++ take 18 (keep (λ c. not (nat_beq c b'-')) intent_id) ++ text "_e" ++ digits k

-- How the failure of what comes before any order is raised.
unfoldable pub preparation_failed : Fault → Raised
preparation_failed (exchange_error e) = not_submitted e
preparation_failed (unknown_status e) = fault (unknown_status e)
preparation_failed other_exception = fault other_exception

abbrev pub is_rejection : Option ℕ → Bool
is_rejection none = false
is_rejection (some h) = leb 400 h && ltb h 500

-- How the failure of the order itself is raised: only an explicit 4xx rejection is known to have
-- placed nothing.
unfoldable pub placement_failed : Fault → Raised
placement_failed (exchange_error e) =
    if is_rejection e.http_status then not_submitted e else fault (exchange_error e)
placement_failed (unknown_status e) = fault (unknown_status e)
placement_failed other_exception = fault other_exception

abbrev pub expiry : ErrorInfo
expiry = record { code = none; http_status = none; message = text "execution intent expired" }

unfoldable pub is_terminated : OrderStatus → Bool
is_terminated s = (s == canceled) || (s == order_rejected) || (s == expired)

unfoldable pub is_working : OrderStatus → Bool
is_working s = (s == submitted) || (s == partially_filled)

-- The log's note of a protection: only an exchange's refusal is answered by closing.
abbrev pub protection_note : {D A : Type 0} → D → Result Fault A → Event D
protection_note q (ok a) = protection_set q
protection_note q (err other_exception) = read
protection_note q (err (exchange_error e)) = protection_refused q
protection_note q (err (unknown_status e)) = protection_refused q

module _ {D : Type 0} ⦃d : Decimal D⦄ (i : ExecutionIntent D) where
  unfoldable pub inside_entry_guard : D → Bool
  inside_entry_guard price = (i.entry_min ≼ price) && (price ≼ i.entry_max)

  abbrev pub built_position : PositionState D → Option (PositionState D)
  built_position p = if is_position p then some (fill_initial_risk_metadata p) else none

  -- The position that an emergency close is asked to flatten; `none` where its fields are out of
  -- their bounds, as when the order filled at the stop price, and the constructor raises.
  unfoldable pub partial_position : OrderState D → Option (PositionState D)
  partial_position o =
      let entry = if nought ≺ o.average_price then o.average_price else i.limit_price in
      built_position record {
        position_id = text "partial-" ++ i.intent_id;
        symbol = i.symbol;
        side = i.side;
        quantity = o.filled_quantity;
        initial_quantity = none;
        entry_price = entry;
        mark_price = entry;
        stop_price = i.stop_price;
        tp1_price = none;
        tp2_price = none;
        tp1_completed = false;
        tp1_status_known = false;
        original_stop_price = none;
        initial_risk_usdt = o.filled_quantity ⊗ abs (entry ⊖ i.stop_price);
        unrealized_pnl = nought;
        margin_used = nought;
        current_r = nought;
        protected = false;
      }

module _ {W D : Type 0} ⦃d : Decimal D⦄ (m : ExecutionManager) (g : Gateway W D)
    (i : ExecutionIntent D) where
  unfoldable pub keep_emergency_orders : List (OrderState D) → Action W D (Unit {0})
  keep_emergency_orders orders s = (ok tt, record s { last_emergency_orders = orders })

  abbrev pub close_built : D → Option (PositionState D) → Action W D (Unit {0})
  close_built quantity none = raise position_invalid
  close_built quantity (some p) = do
    orders ← ask (g.close_position_market_orders p) (λ _. emergency_close quantity) fault
    keep_emergency_orders orders

  unfoldable pub emergency_close_partial : OrderState D → Action W D (Unit {0})
  unfolding partial_position
  emergency_close_partial o =
      if o.filled_quantity ≼ nought
      then pure tt
      else close_built o.filled_quantity (partial_position i o)

  -- What follows the exchange's answer to a protection: `except ExchangeError` closes the fill.
  unfoldable pub protected_by :
      OrderState D → Result Fault (List (OrderState D)) → Action W D (D × List (OrderState D))
  protected_by o (ok orders) = pure (o.filled_quantity, orders)
  protected_by o (err other_exception) = raise (fault other_exception)
  protected_by o (err (exchange_error e)) = do emergency_close_partial o; raise protection_error
  protected_by o (err (unknown_status e)) = do emergency_close_partial o; raise protection_error

  unfoldable pub protect_new_fills :
      OrderState D → D → List (OrderState D) → Action W D (D × List (OrderState D))
  protect_new_fills o protected orders =
      if o.filled_quantity ≼ protected then pure (protected, orders) else do
        answer ←
            attempt (g.upsert_protection i o.filled_quantity o.average_price)
              (protection_note o.filled_quantity)
        protected_by o answer

  unfoldable pub guarded : Action W D Bool
  guarded = ask g.entry_guard (λ _. read) fault

  -- `cancel_order` and the protection of what had filled by then.
  unfoldable pub cancel :
      Text → D → List (OrderState D) → Action W D (OrderState D × (D × List (OrderState D)))
  cancel client_id protected orders = do
    o ← ask (g.cancel_order i.symbol client_id) (λ _. order_cancelled client_id) fault
    kept ← protect_new_fills o protected orders
    pure (o, kept)

  unfoldable pub heed :
      Text → D × List (OrderState D) → Action W D (Progress D) → Bool → Action W D (Progress D)
  heed client_id kept again true = again
  heed client_id kept again false = do
    last ← cancel client_id kept.0 kept.1
    pure (finished last.0 last.1.1)

  -- What a look at the order leads to, `again` being the loop's next turn.
  unfoldable pub observe :
      Text
      → OrderState D
      → D × List (OrderState D)
      → Action W D (Progress D)
      → Action W D (Progress D)
  observe client_id o kept again =
      if o.status == filled
      then pure (finished o kept.1)
      else if is_terminated o.status
      then pure (unfinished o kept.0 kept.1)
      else do allowed ← guarded; heed client_id kept again allowed

  -- `while elapsed < self.reprice_seconds`, on fuel.
  unfoldable pub poll :
      ℕ → Text → ℕ → OrderState D → D → List (OrderState D) → Action W D (Progress D)
  poll zero client_id elapsed o protected orders =
      if ltb elapsed m.reprice_seconds then raise diverges else pure (unfinished o protected orders)
  poll (suc fuel) client_id elapsed o protected orders =
      if not (ltb elapsed m.reprice_seconds)
      then pure (unfinished o protected orders)
      else (let wait = min_nat m.fill_poll_seconds (m.reprice_seconds - elapsed) in
          do
            tick (λ w. (tt, g.sleep wait w))
            o' ← ask (g.get_order i.symbol client_id) (λ _. read) fault
            kept ← protect_new_fills o' protected orders
            observe client_id o' kept (poll fuel client_id (elapsed + wait) o' kept.0 kept.1))

  -- What follows the polling: the order is taken off the book, and a fill or the intent's expiry
  -- ends the attempts.
  unfoldable pub withdraw : Text → Progress D → Action W D (Progress D)
  withdraw client_id (finished o orders) = pure (finished o orders)
  withdraw client_id (unfinished o protected orders) =
      if is_working o.status
      then (do last ← cancel client_id protected orders; pure (unfinished last.0 last.1.0 last.1.1))
      else pure (unfinished o protected orders)

  unfoldable pub conclude : Progress D → Action W D (Progress D)
  conclude (finished o orders) = pure (finished o orders)
  conclude (unfinished o protected orders) =
      if nought ≺ o.filled_quantity then pure (finished o orders) else do
        now ← tick g.now
        pure (if leb i.expires_at now then finished o orders else unfinished o protected orders)

  unfoldable pub await_fill :
      Text → OrderState D → D × List (OrderState D) → Action W D (Progress D)
  await_fill client_id o kept = if o.status == filled then pure (finished o kept.1) else do
    polled ← poll m.reprice_seconds client_id 0 o kept.0 kept.1
    rest ← withdraw client_id polled
    conclude rest

  -- One turn of `for attempt in range(...)`.
  unfoldable pub attempt_entry : ℕ → D → List (OrderState D) → Action W D (Progress D)
  attempt_entry k protected orders =
      let client_id = entry_client_id i.intent_id k in
      do
        allowed ← guarded
        raise_if (not allowed) entries_disallowed
        price ← ask (g.best_entry_price i.symbol i.side) (λ _. read) preparation_failed
        raise_if (not (inside_entry_guard i price)) outside_entry_guard
        o ←
            ask (g.place_limit_entry i client_id price) (λ _. entry_asked client_id price)
              placement_failed
        kept ← protect_new_fills o protected orders
        await_fill client_id o kept

  abbrev pub follow :
      (OrderState D → D → List (OrderState D) → Action W D (OrderState D × List (OrderState D)))
      → Progress D
      → Action W D (OrderState D × List (OrderState D))
  follow next (finished o orders) = pure (o, orders)
  follow next (unfinished o protected orders) = next o protected orders

  unfoldable pub attempts :
      ℕ
      → ℕ
      → Option (OrderState D)
      → D
      → List (OrderState D)
      → Action W D (OrderState D × List (OrderState D))
  attempts zero k none protected orders = raise never_submitted
  attempts zero k (some o) protected orders = pure (o, orders)
  attempts (suc n) k last protected orders =
      attempt_entry k protected orders >>= follow (λ o p ps. attempts n (suc k) (some o) p ps)

  unfoldable pub start : Action W D (Unit {0})
  start s = (ok tt, record s { last_emergency_orders = [] })

  unfoldable pub execute : Action W D (OrderState D × List (OrderState D))
  execute = do
    start
    now ← tick g.now
    raise_if (leb i.expires_at now) (not_submitted expiry)
    ask (g.configure_symbol i.symbol i.leverage) (λ _. read) preparation_failed
    attempts (suc m.max_reprices) 0 none nought []
