-- ===== src/Execution/Exit/Audit.antt =====
-- What `execute` of execution/exit.py orders, as a protocol of the log.
use ai_coinletgo.Prelude.{◌≡◌, Bool, true, false, Option, none, some, List, [], ◌∷◌}
use ai_coinletgo.Decimal.{Decimal, ◌≼◌, ◌≺◌, nought}
use ai_coinletgo.Domain.Account.{PositionState}
use ai_coinletgo.Domain.Orders.{OrderState}
use ai_coinletgo.Execution.Session.{
  Raised, diverges, Event, exit_placed, exit_refused, order_seen, market_asked, flat_seen,
  take_profits_cancelled, protection_cancelled, read, Session,
}
use ai_coinletgo.Execution.Exit.{rest_of}

-- Where a call stands: no limit order was accepted, or one for a quantity, with what it had filled
-- when it was last seen, before or after the market order.
pub data Phase (D : Type 0) : Type 0 where
  unplaced : Phase D
  open_at sold_at : D → D → Phase D

abbrev pub quantity_of : {D : Type 0} → Phase D → Option D
quantity_of unplaced = none
quantity_of (open_at q f) = some q
quantity_of (sold_at q f) = some q

abbrev pub is_ending : Raised → Bool
is_ending diverges = false
is_ending _ = true

module _ {D : Type 0} ⦃d : Decimal D⦄ (p : PositionState D) where
  -- A log, newest first: one limit order, for a quantity above nought and within the position; at most
  -- one market order, for just what the limit order had left when it was last seen; the take-profits
  -- go only after a partial exit, and the protection only right after a reading without the position.
  pub data ExitAudit : Phase D → List (Event D) → Type 0 where
    idle : ExitAudit unplaced []
    limited :
        (x q f : D)
        → (nought ≺ x) ≡ true
        → (x ≼ p.quantity) ≡ true
        → ExitAudit (open_at q f) (exit_placed x q f ∷ [])
    rejected :
        (x : D)
        → (nought ≺ x) ≡ true
        → (x ≼ p.quantity) ≡ true
        → ExitAudit unplaced (exit_refused x ∷ [])
    seen :
        {q f : D} {log : List (Event D)} (f' : D)
        → ExitAudit (open_at q f) log
        → ExitAudit (open_at q f') (order_seen f' ∷ log)
    looked : {ph : Phase D} {log : List (Event D)} → ExitAudit ph log → ExitAudit ph (read ∷ log)
    flat : {ph : Phase D} {log : List (Event D)} → ExitAudit ph log → ExitAudit ph (flat_seen ∷ log)
    sold :
        {q f : D} {log : List (Event D)} (r : D)
        → (nought ≺ r) ≡ true
        → r ≡ rest_of q f
        → ExitAudit (open_at q f) log
        → ExitAudit (sold_at q f) (market_asked r ∷ log)
    trimmed :
        {ph : Phase D} {log : List (Event D)} (q : D)
        → quantity_of ph ≡ some q
        → (p.quantity ≼ q) ≡ false
        → ExitAudit ph log
        → ExitAudit ph (take_profits_cancelled ∷ log)
    cleared :
        {ph : Phase D} {log : List (Event D)}
        → ExitAudit ph log
        → ExitAudit ph (protection_cancelled ∷ flat_seen ∷ log)

  module _ {W : Type 0} where
    -- A log by the protocol, at some phase.
    abbrev pub IsAudited : Session W D → Type 0
    IsAudited s = (ph : Phase D) × ExitAudit ph s.log

    abbrev pub HasExited : List (OrderState D) → Session W D → Type 0
    HasExited orders s = IsAudited s

    -- A call that raised has kept to the protocol too, and has not run for ever.
    abbrev pub HasFailed : Raised → Session W D → Type 0
    HasFailed e s = is_ending e ≡ true × IsAudited s
