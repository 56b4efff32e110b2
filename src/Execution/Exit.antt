-- ===== src/Execution/Exit.antt =====
-- execution/exit.py: `ExitExecutionManager`, which closes a part of a position by a limit order and,
-- after a deadline, by a market order for what is left. The lock of the position is left out: the
-- model is of one call.
pub mod Audit
pub mod Steps
pub mod Protocol
use ai_coinletgo.Prelude.{
  ℕ, zero, suc, ◌+◌, ◌-◌, Bool, true, false, not, ◌&&◌, ◌||◌, Option, none, some, List, [], ◌∷◌,
  ◌++◌, if◌then◌else◌, ltb, any, ◌==◌, map,
}
use ai_coinletgo.Prelude.Int.{ℤ, negsuc, int_beq}
use ai_coinletgo.Prelude.Text.{Text, text, text_eq, lower, is_within}
use ai_coinletgo.Prelude.Result.{Result, ok, err}
use ai_coinletgo.Decimal.{Decimal, ◌≼◌, ◌≺◌, nought, ◌⊕◌, ◌⊖◌, min, max, sum}
use ai_coinletgo.Domain.Enums.{side_eq, OrderStatus}
use ai_coinletgo.Domain.Account.{PositionState}
use ai_coinletgo.Domain.Orders.{OrderState}
use ai_coinletgo.Execution.Session.{
  ErrorInfo, Fault, exchange_error, unknown_status, other_exception, Raised, fault,
  exit_quantity_invalid, diverges, Event, exit_placed, exit_refused, order_seen, market_asked,
  flat_seen, take_profits_cancelled, protection_cancelled, read, Action, pure, raise, raise_if,
  tick, attempt, settle, ask, ◌>>=◌, ◌>>◌,
}
use ai_coinletgo.Execution.Gateway.{Gateway}
use ai_coinletgo.Execution.Entry.{min_nat, is_working}

pub record ExitExecutionManager : Type 0 where
  pub limit_timeout_seconds : ℕ
  pub poll_seconds : ℕ

abbrev pub is_code : Option ℤ → Bool
is_code none = false
is_code (some c) = int_beq c (negsuc 4508)

-- `_is_flat_position_rejection`: code -4509, or Binance's words for it.
unfoldable pub is_flat_position_rejection : ErrorInfo → Bool
is_flat_position_rejection e =
    is_code e.code
    || (is_within (text "time in force") (lower e.message)
        && is_within (text "open position") (lower e.message))

abbrev pub exit_note : {D : Type 0} → D → Result Fault (OrderState D) → Event D
exit_note q (ok o) = exit_placed q o.quantity o.filled_quantity
exit_note q (err x) = exit_refused q

abbrev pub look_note : {D : Type 0} → Result Fault (OrderState D) → Event D
look_note (ok o) = order_seen o.filled_quantity
look_note (err x) = read

module _ {D : Type 0} ⦃d : Decimal D⦄ where
  -- No position of the symbol and side is left.
  unfoldable pub is_flat : PositionState D → List (PositionState D) → Bool
  is_flat p held = not (
      any
        (λ (h : PositionState D).
          (h.symbol == p.symbol) && (h.side == p.side) && (nought ≺ h.quantity))
        held)

  abbrev pub flat_note : PositionState D → Result Fault (List (PositionState D)) → Event D
  flat_note p (ok held) = if is_flat p held then flat_seen else read
  flat_note p (err x) = read

  -- `max(Decimal("0"), quantity - latest.filled_quantity)`
  unfoldable pub rest_of : D → D → D
  rest_of quantity filled = max nought (quantity ⊖ filled)

module _ {W D : Type 0} ⦃d : Decimal D⦄ (m : ExitExecutionManager) (g : Gateway W D)
    (p : PositionState D) (operation_id : Text) where
  -- `_position_is_flat`: a read that fails is not flat.
  unfoldable pub position_is_flat : Action W D Bool
  position_is_flat = do
    answer ← attempt g.get_positions (flat_note p)
    pure (elim answer [ ok held ↦ is_flat p held | err x ↦ false ])

  unfoldable pub clear_protection : Bool → Action W D Bool
  clear_protection false = pure false
  clear_protection true = do
    ask (g.cancel_position_protection p) (λ _. protection_cancelled) fault
    pure true

  unfoldable pub already_flat_after_rejection : ErrorInfo → Action W D Bool
  already_flat_after_rejection e =
      if not (is_flat_position_rejection e)
      then pure false
      else do flat ← position_is_flat; clear_protection flat

  -- `except ExchangeError` round the limit order: the stale exit is a success, or is raised again.
  unfoldable pub refused : Fault → ErrorInfo → Action W D (List (OrderState D))
  refused x e = do flat ← already_flat_after_rejection e; if flat then pure [] else raise (fault x)

  -- The polling of the limit order, on fuel.
  unfoldable pub poll : ℕ → Text → ℕ → OrderState D → Action W D (OrderState D)
  poll zero client_id elapsed latest =
      if ltb elapsed m.limit_timeout_seconds && is_working latest.status
      then raise diverges
      else pure latest
  poll (suc fuel) client_id elapsed latest =
      if not (ltb elapsed m.limit_timeout_seconds && is_working latest.status)
      then pure latest
      else (let wait = min_nat m.poll_seconds (m.limit_timeout_seconds - elapsed) in
          do
            tick (λ w. (tt, g.sleep wait w))
            seen ← ask (g.get_order p.symbol client_id) look_note fault
            poll fuel client_id (elapsed + wait) seen)

  -- After `cancel_order`: an exchange's fault reads the order once more.
  unfoldable pub cancelled_or_seen : Text → Result Fault (OrderState D) → Action W D (OrderState D)
  cancelled_or_seen client_id (ok o) = pure o
  cancelled_or_seen client_id (err other_exception) = raise (fault other_exception)
  cancelled_or_seen client_id (err x) = ask (g.get_order p.symbol client_id) look_note fault

  unfoldable pub withdraw : Text → D → OrderState D → Action W D (OrderState D)
  withdraw client_id quantity latest =
      if (nought ≺ rest_of quantity latest.filled_quantity) && is_working latest.status
      then (do
        answer ← attempt (g.cancel_order p.symbol client_id) look_note
        cancelled_or_seen client_id answer)
      else pure latest

  -- The market order for the rest, with what it has filled.
  unfoldable pub fall_back : D → Action W D (D × List (OrderState D))
  fall_back rest =
      if nought ≺ rest
      then (do
        orders ←
            ask
              (g.close_position_quantity_market_orders p rest
                (operation_id ++ text ":market-fallback"))
              (λ _. market_asked rest) fault
        pure (sum (map (λ (o : OrderState D). o.filled_quantity) orders), orders))
      else pure (nought, [])

  unfoldable pub full_exit : D → D → Action W D (Unit {0})
  full_exit quantity total =
      if quantity ≼ total
      then (do flat ← position_is_flat; clear_protection flat; pure tt)
      else pure tt

  -- The protection orders, once something has filled.
  unfoldable pub tidy : D → D → Action W D (Unit {0})
  tidy quantity total =
      if total ≼ nought
      then pure tt
      else if p.quantity ≼ quantity
      then full_exit quantity total
      else ask (g.cancel_position_take_profits p) (λ _. take_profits_cancelled) fault

  -- `execute`, once the limit order stands. `total_filled` starts from the order as the polling left
  -- it, not as the cancellation did.
  unfoldable pub accepted : OrderState D → Action W D (List (OrderState D))
  accepted order = do
    polled ← poll m.limit_timeout_seconds order.client_order_id 0 order
    latest ← withdraw order.client_order_id order.quantity polled
    fallen ← fall_back (rest_of order.quantity latest.filled_quantity)
    tidy order.quantity (polled.filled_quantity ⊕ fallen.0)
    pure (latest ∷ fallen.1)

  unfoldable pub placed : Result Fault (OrderState D) → Action W D (List (OrderState D))
  placed (ok order) = accepted order
  placed (err other_exception) = raise (fault other_exception)
  placed (err (exchange_error e)) = refused (exchange_error e) e
  placed (err (unknown_status e)) = refused (unknown_status e) e

  unfoldable pub execute : D → D → Action W D (List (OrderState D))
  execute asked limit_price =
      let quantity = min asked p.quantity in
      if quantity ≼ nought then raise exit_quantity_invalid else do
        answer ←
            attempt (g.place_limit_exit p quantity limit_price operation_id) (exit_note quantity)
        placed answer
