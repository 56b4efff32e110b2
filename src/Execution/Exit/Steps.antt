-- ===== src/Execution/Exit/Steps.antt =====
-- Each method of execution/exit.py against the protocol of its log.
use ai_coinletgo.Prelude.{
  ℕ, zero, suc, ◌+◌, ◌-◌, ◌≤◌, ◌<◌, ◌≡◌, refl, sym, subst, Bool, true, false, ◌&&◌, some, List, [],
  ◌∷◌, ◌++◌, if◌then◌else◌, ltb, map, arith, Bool-cases, inl, inr,
}
use ai_coinletgo.Prelude.Text.{Text, text}
use ai_coinletgo.Prelude.Result.{Result, ok, err}
use ai_coinletgo.Decimal.{Decimal, ◌≼◌, ◌≺◌, nought, sum}
use ai_coinletgo.Domain.Account.{PositionState}
use ai_coinletgo.Domain.Orders.{OrderState}
use ai_coinletgo.Execution.Session.{
  ErrorInfo, Fault, exchange_error, unknown_status, other_exception, Raised, fault, Event,
  market_asked, flat_seen, take_profits_cancelled, protection_cancelled, read, Session, pure, raise,
  ask, ◌>>◌,
}
use ai_coinletgo.Execution.Gateway.{Gateway}
use ai_coinletgo.Execution.Entry.{min_nat, is_working}
use ai_coinletgo.Execution.Rules.{Holds, bind-Holds, ask-Holds}
use ai_coinletgo.Execution.Exit.{
  ExitExecutionManager, is_flat_position_rejection, look_note, is_flat, flat_note, rest_of,
  position_is_flat, clear_protection, already_flat_after_rejection, refused, poll,
  cancelled_or_seen, withdraw, fall_back, full_exit, tidy,
}
use ai_coinletgo.Execution.Exit.Audit.{
  Phase, unplaced, open_at, sold_at, quantity_of, ExitAudit, seen, looked, sold, trimmed, cleared,
  HasExited, HasFailed,
}

module _ {W D : Type 0} ⦃d : Decimal D⦄ (m : ExitExecutionManager) (g : Gateway W D)
    (p : PositionState D) (id : Text) where
  abbrev Fails : Raised → Session W D → Type 0
  Fails = HasFailed p

  -- After a look at the positions.
  abbrev Flat : Phase D → Bool → Session W D → Type 0
  Flat ph true s = (log : List (Event D)) × (s.log ≡ flat_seen ∷ log) × ExitAudit p ph log
  Flat ph false s = ExitAudit p ph s.log

  abbrev At : {A : Type 0} → Phase D → A → Session W D → Type 0
  At ph a s = ExitAudit p ph s.log

  -- The limit order for `q`, with what it had filled as the log has it.
  abbrev pub Open : D → OrderState D → Session W D → Type 0
  Open q o s = ExitAudit p (open_at q o.filled_quantity) s.log

  looked-Flat :
      (ph : Phase D) (held : List (PositionState D)) (is : Bool) (s : Session W D)
      → is_flat p held ≡ is
      → ExitAudit p ph s.log
      → Flat ph is (record s { log = (if is then flat_seen else read) ∷ s.log })
  looked-Flat ph held true s h a = (s.log, refl, a)
  looked-Flat ph held false s h a = looked a

  position_answer-Flat :
      (ph : Phase D) (answer : Result Fault (List (PositionState D))) (s : Session W D)
      → ExitAudit p ph s.log
      → Flat ph
          (elim answer [ ok held ↦ is_flat p held | err x ↦ false ])
          (record s { log = flat_note p answer ∷ s.log })
  position_answer-Flat ph (ok held) s a = looked-Flat ph held (is_flat p held) s refl a
  position_answer-Flat ph (err x) s a = looked a

  pub position_is_flat-Flat :
      (ph : Phase D) (s : Session W D)
      → ExitAudit p ph s.log
      → Holds (Flat ph) Fails (position_is_flat m g p id s)
  unfolding position_is_flat
  position_is_flat-Flat ph s a =
      position_answer-Flat ph (g.get_positions s.world).0
        (record s { world = (g.get_positions s.world).1 }) a

  pub clear_protection-At :
      (ph : Phase D) (is : Bool) (s : Session W D)
      → Flat ph is s
      → Holds (At {A = Bool} ph) Fails (clear_protection m g p id is s)
  unfolding clear_protection
  clear_protection-At ph false s a = a
  clear_protection-At ph true s a =
      let (log, at, audit) = a in
      let gone = subst (λ l. ExitAudit p ph (protection_cancelled ∷ l)) (sym at) (cleared audit) in
      bind-Holds (At {A = Unit {0}} ph) (At {A = Bool} ph) Fails
        (ask (g.cancel_position_protection p) (λ _. protection_cancelled) fault s) (λ _. pure true)
        (ask-Holds (At {A = Unit {0}} ph) Fails (g.cancel_position_protection p)
          (λ _. protection_cancelled) fault s (λ _ _. gone) (λ _ _. (refl, (ph, gone))))
        (λ _ _ k. k)

  already_flat-At :
      (e : ErrorInfo) (s : Session W D)
      → ExitAudit p unplaced s.log
      → Holds (At {A = Bool} unplaced) Fails (already_flat_after_rejection m g p id e s)
  unfolding already_flat_after_rejection
  already_flat-At e s a = elim (Bool-cases (is_flat_position_rejection e)) [
    | inr other ↦ rw other a
    | inl stale ↦ rw stale (
        bind-Holds (Flat unplaced) (At {A = Bool} unplaced) Fails (position_is_flat m g p id s)
          (λ flat. clear_protection m g p id flat) (position_is_flat-Flat unplaced s a)
          (λ flat s' k. clear_protection-At unplaced flat s' k))
  ]

  refused_by-At :
      (x : Fault) (is : Bool) (s : Session W D)
      → ExitAudit p unplaced s.log
      → Holds (HasExited p) Fails ((if is then pure [] else raise (fault x)) s)
  refused_by-At x true s a = (unplaced, a)
  refused_by-At x false s a = (refl, (unplaced, a))

  pub refused-At :
      (x : Fault) (e : ErrorInfo) (s : Session W D)
      → ExitAudit p unplaced s.log
      → Holds (HasExited p) Fails (refused m g p id x e s)
  unfolding refused
  refused-At x e s a =
      bind-Holds (At {A = Bool} unplaced) (HasExited p) Fails
        (already_flat_after_rejection m g p id e s)
        (λ flat. if flat then pure [] else raise (fault x)) (already_flat-At e s a)
        (λ flat s' k. refused_by-At x flat s' k)

  look-Open :
      (q f : D) (client_id : Text) (s : Session W D)
      → ExitAudit p (open_at q f) s.log
      → Holds (Open q) Fails (ask (g.get_order p.symbol client_id) look_note fault s)
  look-Open q f client_id s a =
      ask-Holds (Open q) Fails (g.get_order p.symbol client_id) look_note fault s
        (λ o _. seen o.filled_quantity a) (λ _ _. (refl, (open_at q f, looked a)))

  pub poll-Open :
      0 < m.poll_seconds
      → (fuel : ℕ) (q : D) (client_id : Text) (elapsed : ℕ) (o : OrderState D) (s : Session W D)
      → m.limit_timeout_seconds ≤ elapsed + fuel
      → Open q o s
      → Holds (Open q) Fails (poll m g p id fuel client_id elapsed o s)
  unfolding poll
  poll-Open pos zero q c elapsed o s enough a =
      let done : (ltb elapsed m.limit_timeout_seconds && is_working o.status) ≡ false =
        ground arith in
      rw done a
  poll-Open pos (suc fuel) q c elapsed o s enough a =
      elim (Bool-cases (ltb elapsed m.limit_timeout_seconds && is_working o.status)) [
        | inr done ↦ rw done a
        | inl more ↦
            let wait = min_nat m.poll_seconds (m.limit_timeout_seconds - elapsed) in
            let slept = record s { world = g.sleep wait s.world } in
            rw more (
              bind-Holds (Open q) (Open q) Fails
                (ask (g.get_order p.symbol c) look_note fault slept)
                (λ o'. poll m g p id fuel c (elapsed + wait) o')
                (look-Open q o.filled_quantity c slept a)
                (λ o' s' k. poll-Open pos fuel q c (elapsed + wait) o' s' (ground arith) k))
      ]

  cancelled-Open :
      (q f : D) (c : Text) (answer : Result Fault (OrderState D)) (s : Session W D)
      → ExitAudit p (open_at q f) s.log
      → Holds
          (Open q)
          Fails
          (cancelled_or_seen m g p id c answer (record s { log = look_note answer ∷ s.log }))
  unfolding cancelled_or_seen
  cancelled-Open q f c (ok o) s a = seen o.filled_quantity a
  cancelled-Open q f c (err other_exception) s a = (refl, (open_at q f, looked a))
  cancelled-Open q f c (err (exchange_error x)) s a = look-Open q f c _ (looked a)
  cancelled-Open q f c (err (unknown_status x)) s a = look-Open q f c _ (looked a)

  pub withdraw-Open :
      (q : D) (c : Text) (quantity : D) (o : OrderState D) (s : Session W D)
      → Open q o s
      → Holds (Open q) Fails (withdraw m g p id c quantity o s)
  unfolding withdraw
  withdraw-Open q c quantity o s a =
      elim (Bool-cases ((nought ≺ rest_of quantity o.filled_quantity) && is_working o.status)) [
        | inr settled ↦ rw settled a
        | inl resting ↦ rw resting (
            cancelled-Open q o.filled_quantity c (g.cancel_order p.symbol c s.world).0
              (record s { world = (g.cancel_order p.symbol c s.world).1 }) a)
      ]

  -- The phase after the market order, which keeps the limit order's quantity.
  abbrev pub Fallen : {A : Type 0} → D → A → Session W D → Type 0
  Fallen q a s = (ph : Phase D) × (quantity_of ph ≡ some q) × ExitAudit p ph s.log

  pub fall_back-Fallen :
      (q f : D) (s : Session W D)
      → ExitAudit p (open_at q f) s.log
      → Holds (Fallen {A = D × List (OrderState D)} q) Fails (fall_back m g p id (rest_of q f) s)
  unfolding fall_back
  fall_back-Fallen q f s a = elim (Bool-cases (nought ≺ rest_of q f)) [
    | inr none_left ↦ rw none_left (open_at q f, refl, a)
    | inl left ↦ rw left (
        bind-Holds (Fallen {A = List (OrderState D)} q) (Fallen {A = D × List (OrderState D)} q)
          Fails
          (ask
            (g.close_position_quantity_market_orders p (rest_of q f)
              (id ++ text ":market-fallback"))
            (λ _. market_asked (rest_of q f)) fault s)
          (λ orders. pure (sum (map (λ (o : OrderState D). o.filled_quantity) orders), orders))
          (ask-Holds (Fallen {A = List (OrderState D)} q) Fails
            (g.close_position_quantity_market_orders p (rest_of q f)
              (id ++ text ":market-fallback"))
            (λ _. market_asked (rest_of q f)) fault s
            (λ _ _. (sold_at q f, refl, sold (rest_of q f) left refl a))
            (λ _ _. (refl, (sold_at q f, sold (rest_of q f) left refl a))))
          (λ _ _ k. k))
  ]

  full_exit-Fallen :
      (q total : D) (s : Session W D)
      → Fallen q tt s
      → Holds (Fallen {A = Unit {0}} q) Fails (full_exit m g p id q total s)
  unfolding full_exit
  full_exit-Fallen q total s a =
      let (ph, of_q, audit) = a in
      elim (Bool-cases (q ≼ total)) [
        | inr part ↦ rw part a
        | inl whole ↦ rw whole (
            bind-Holds (Flat ph) (Fallen {A = Unit {0}} q) Fails (position_is_flat m g p id s)
              (λ flat. clear_protection m g p id flat >> pure tt) (position_is_flat-Flat ph s audit)
              (λ flat s1 k.
                bind-Holds (At {A = Bool} ph) (Fallen {A = Unit {0}} q) Fails
                  (clear_protection m g p id flat s1) (λ _. pure tt)
                  (clear_protection-At ph flat s1 k) (λ _ _ k2. (ph, of_q, k2))))
      ]

  pub tidy-Fallen :
      (q total : D) (s : Session W D)
      → Fallen q tt s
      → Holds (Fallen {A = Unit {0}} q) Fails (tidy m g p id q total s)
  unfolding tidy
  tidy-Fallen q total s a =
      let (ph, of_q, audit) = a in
      elim (Bool-cases (total ≼ nought)) [
        | inl nothing ↦ rw nothing a
        | inr something ↦ rw something (elim (Bool-cases (p.quantity ≼ q)) [
          | inl whole ↦ rw whole (full_exit-Fallen q total s a)
          | inr part ↦ rw part (
              ask-Holds (Fallen {A = Unit {0}} q) Fails (g.cancel_position_take_profits p)
                (λ _. take_profits_cancelled) fault s (λ _ _. (ph, of_q, trimmed q of_q part audit))
                (λ _ _. (refl, (ph, trimmed q of_q part audit))))
        ])
      ]
