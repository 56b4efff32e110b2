-- ===== src/Execution/Exit/Protocol.antt =====
-- What `ExitExecutionManager.execute` of execution/exit.py promises of every call, whatever the
-- exchange answers.
use ai_coinletgo.Prelude.{◌<◌, ◌≡◌, refl, true, List, [], ◌∷◌, Bool-cases, inl, inr, arith}
use ai_coinletgo.Prelude.Text.{Text}
use ai_coinletgo.Prelude.Result.{Result, ok, err}
use ai_coinletgo.Decimal.{Decimal, ◌≼◌, ◌≺◌, nought, ◌⊕◌, min}
use ai_coinletgo.Decimal.Laws.{IsRounded, min-le_right}
use ai_coinletgo.Domain.Account.{PositionState}
use ai_coinletgo.Domain.Orders.{OrderState}
use ai_coinletgo.Execution.Session.{
  Fault, exchange_error, unknown_status, other_exception, Session, pure, ◌>>=◌,
}
use ai_coinletgo.Execution.Gateway.{Gateway}
use ai_coinletgo.Execution.Rules.{Holds, bind-Holds}
use ai_coinletgo.Execution.Exit.{
  ExitExecutionManager, exit_note, rest_of, poll, withdraw, fall_back, tidy, accepted, placed,
  execute,
}
use ai_coinletgo.Execution.Exit.Audit.{
  unplaced, open_at, ExitAudit, idle, limited, rejected, HasExited, HasFailed,
}
use ai_coinletgo.Execution.Exit.Steps.{
  Open, Fallen, refused-At, poll-Open, withdraw-Open, fall_back-Fallen, tidy-Fallen,
}

module _ {W D : Type 0} ⦃d : Decimal D⦄ (m : ExitExecutionManager) (g : Gateway W D)
    (p : PositionState D) (id : Text) where
  accepted-HasExited :
      0 < m.poll_seconds
      → (o : OrderState D) (s : Session W D)
      → ExitAudit p (open_at o.quantity o.filled_quantity) s.log
      → Holds (HasExited p) (HasFailed p) (accepted m g p id o s)
  unfolding accepted
  accepted-HasExited pos o s a =
      let q = o.quantity in
      let c = o.client_order_id in
      let end = λ (polled latest : OrderState D).
        fall_back m g p id (rest_of q latest.filled_quantity) >>= λ fallen.
        tidy m g p id q (polled.filled_quantity ⊕ fallen.0) >>= λ _. pure (latest ∷ fallen.1) in
      bind-Holds (Open m g p id q) (HasExited p) (HasFailed p)
        (poll m g p id m.limit_timeout_seconds c 0 o s)
        (λ polled. withdraw m g p id c q polled >>= end polled)
        (poll-Open m g p id pos m.limit_timeout_seconds q c 0 o s (omega arith) a)
        (λ polled s1 k1.
          bind-Holds (Open m g p id q) (HasExited p) (HasFailed p) (withdraw m g p id c q polled s1)
            (end polled) (withdraw-Open m g p id q c q polled s1 k1)
            (λ latest s2 k2.
              bind-Holds (Fallen m g p id q) (HasExited p) (HasFailed p)
                (fall_back m g p id (rest_of q latest.filled_quantity) s2)
                (λ fallen. tidy m g p id q (polled.filled_quantity ⊕ fallen.0) >>= λ _.
                  pure (latest ∷ fallen.1))
                (fall_back-Fallen m g p id q latest.filled_quantity s2 k2)
                (λ fallen s3 k3.
                  bind-Holds (Fallen m g p id q) (HasExited p) (HasFailed p)
                    (tidy m g p id q (polled.filled_quantity ⊕ fallen.0) s3)
                    (λ _. pure (latest ∷ fallen.1))
                    (tidy-Fallen m g p id q (polled.filled_quantity ⊕ fallen.0) s3 k3)
                    (λ _ s4 k4. (k4.0, k4.2)))))

  module _ (laws : IsRounded D) (pos : 0 < m.poll_seconds) where
    placed-HasExited :
        (x : D) (answer : Result Fault (OrderState D)) (s : Session W D)
        → s.log ≡ []
        → (nought ≺ x) ≡ true
        → (x ≼ p.quantity) ≡ true
        → Holds
            (HasExited p)
            (HasFailed p)
            (placed m g p id answer (record s { log = exit_note x answer ∷ s.log }))
    unfolding placed
    placed-HasExited x (ok o) s start positive within =
        accepted-HasExited pos o _
          (rw start (limited x o.quantity o.filled_quantity positive within))
    placed-HasExited x (err other_exception) s start positive within =
        (refl, (unplaced, rw start (rejected x positive within)))
    placed-HasExited x (err (exchange_error e)) s start positive within =
        refused-At m g p id (exchange_error e) e _ (rw start (rejected x positive within))
    placed-HasExited x (err (unknown_status e)) s start positive within =
        refused-At m g p id (unknown_status e) e _ (rw start (rejected x positive within))

  -- Whatever the exchange answers, a call of `execute` that polls at intervals of a second or more
  -- ends. It asks for one limit order at most, for a quantity above nought and within the position,
  -- and for one market order at most, for just what the limit order had left when it was last seen. It
  -- takes the take-profits off only after a partial exit, and the protection only right after a
  -- reading of the positions in which the position is gone.
  pub execute-HasExited :
      (laws : IsRounded D) (w : W) (asked limit_price : D) (emergencies : List (OrderState D))
      → 0 < m.poll_seconds
      → Holds (HasExited p) (HasFailed p) (
          execute m g p id asked limit_price
            (record { world = w; log = []; last_emergency_orders = emergencies }))
  unfolding execute
  execute-HasExited laws w asked limit_price emergencies pos =
      elim (Bool-cases (min asked p.quantity ≼ nought)) [
        | inl nothing ↦ rw nothing (refl, (unplaced, idle))
        | inr something ↦ rw something (
            placed-HasExited laws pos (min asked p.quantity)
              (g.place_limit_exit p (min asked p.quantity) limit_price id w).0
              (record {
                world = (g.place_limit_exit p (min asked p.quantity) limit_price id w).1;
                log = [];
                last_emergency_orders = emergencies;
              })
              refl (ground arith) (min-le_right laws asked p.quantity))
      ]
