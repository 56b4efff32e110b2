-- ===== src/Execution/Entry/Protection.antt =====
-- How execution/manager.py protects what fills, and how it cancels, against the protocol of the log.
use ai_coinletgo.Prelude.{
  ℕ, ◌≤◌, ◌≡◌, refl, true, false, Option, none, some, List, ◌∷◌, arith, Bool-cases, inl, inr,
}
use ai_coinletgo.Prelude.Text.{Text}
use ai_coinletgo.Prelude.Result.{Result, ok, err}
use ai_coinletgo.Decimal.{Decimal, ◌≼◌, ◌≺◌, nought}
use ai_coinletgo.Decimal.Laws.{IsRounded}
use ai_coinletgo.Domain.Enums.{status_eq}
use ai_coinletgo.Domain.Account.{PositionState, is_position}
use ai_coinletgo.Domain.Orders.{ExecutionIntent, OrderState}
use ai_coinletgo.Execution.Session.{
  Fault, exchange_error, unknown_status, other_exception, Raised, fault, protection_error, Event,
  protection_refused, order_cancelled, read, Session, pure, raise, ask, ◌>>=◌, ◌>>◌,
}
use ai_coinletgo.Execution.Gateway.{Gateway}
use ai_coinletgo.Execution.Entry.{
  ExecutionManager, partial_position, close_built, protection_note, keep_emergency_orders,
  emergency_close_partial, protected_by, protect_new_fills, cancel,
}
use ai_coinletgo.Execution.Rules.{Holds, bind-Holds, settle-Holds}
use ai_coinletgo.Execution.Entry.Audit.{
  Audit, protected, withdrawn, looked, IsStranded, early, closing, stranded, Audit-nonneg, is_early,
  HasAborted, KeptAt,
}

module _ {W D : Type 0} ⦃d : Decimal D⦄ (laws : IsRounded D) (m : ExecutionManager)
    (g : Gateway W D) (i : ExecutionIntent D) (b : ℕ) where
  abbrev Fails : Raised → Session W D → Type 0
  Fails = HasAborted i b

  abbrev Kept : ℕ → OrderState D → D × List (OrderState D) → Session W D → Type 0
  Kept = KeptAt i

  abbrev Left : ℕ → OrderState D × (D × List (OrderState D)) → Session W D → Type 0
  Left n last = Kept n last.0 last.1

  module _ (n : ℕ) (bound : n ≤ b) where
    not_nought :
        (o : OrderState D) (p : D) (log : List (Event D))
        → Audit i n p log
        → (o.filled_quantity ≼ p) ≡ false
        → (o.filled_quantity ≼ nought) ≡ false
    not_nought o p log a h =
        ground (arith, laws.le_trans o.filled_quantity nought p, Audit-nonneg i laws a)

    -- A position that cannot be built has a field out of its bounds.
    partial_position-IsStranded :
        (o : OrderState D)
        → (o.filled_quantity ≼ nought) ≡ false
        → partial_position i o ≡ none
        → IsStranded i o.filled_quantity
    unfolding partial_position is_position
    partial_position-IsStranded o filled h = elim (Bool-cases (nought ≺ o.average_price)) [
      | inl priced ↦ record {
        entry = o.average_price;
        taken_at = inr priced;
        not_positive = ground (arith, laws.le_refl nought);
      }
      | inr unpriced ↦ record {
        entry = i.limit_price;
        taken_at = inl refl;
        not_positive = ground (arith, laws.le_refl nought);
      }
    ]

    -- The answer to a refused protection, once the position is built or cannot be.
    close_built-Fails :
        (o : OrderState D) (p : D) (s : Session W D) (position : Option (PositionState D))
        → Audit i n p s.log
        → (o.filled_quantity ≼ p) ≡ false
        → partial_position i o ≡ position
        → Holds
            (λ _. Fails protection_error)
            Fails
            (close_built m g i o.filled_quantity position
              (record s { log = protection_refused o.filled_quantity ∷ s.log }))
    unfolding keep_emergency_orders
    close_built-Fails o p s none a h failed =
        stranded o.filled_quantity bound h
          (partial_position-IsStranded o (not_nought o p s.log a h) failed) a
    close_built-Fails o p s (some position) a h built =
        bind-Holds (λ _. Fails protection_error) (λ _. Fails protection_error) Fails _
          (keep_emergency_orders m g i)
          (settle-Holds (λ _. Fails protection_error) Fails fault _ _
            (λ _. closing o.filled_quantity bound refl h a)
            (λ _. closing o.filled_quantity bound refl h a))
          (λ _ _ k. k)

    -- Once a protection was refused, the close is asked for, if it can be, and the call raises.
    emergency-Fails :
        (o : OrderState D) (p : D) (s : Session W D) (x : Fault)
        → Audit i n p s.log
        → (o.filled_quantity ≼ p) ≡ false
        → Holds {A = D × List (OrderState D)} (Kept n o) Fails (
            (emergency_close_partial m g i o >> raise protection_error)
              (record s { log = protection_refused o.filled_quantity ∷ s.log }))
    unfolding emergency_close_partial
    emergency-Fails o p s x a h = rw (not_nought o p s.log a h) (
        bind-Holds (λ _. Fails protection_error) (Kept n o) Fails _ (λ _. raise protection_error)
          (close_built-Fails o p s (partial_position i o) a h refl) (λ _ _ k. k))

    -- What follows the exchange's answer to a protection, in the session it leaves.
    protected_by-Kept :
        (o : OrderState D) (p : D) (answer : Result Fault (List (OrderState D))) (s : Session W D)
        → Audit i n p s.log
        → (o.filled_quantity ≼ p) ≡ false
        → Holds (Kept n o) Fails (
            protected_by m g i o answer
              (record s { log = protection_note o.filled_quantity answer ∷ s.log }))
    unfolding protected_by
    protected_by-Kept o p (ok ps) s a h =
        (protected o.filled_quantity h a, laws.le_refl o.filled_quantity)
    protected_by-Kept o p (err other_exception) s a h = early bound refl (looked a)
    protected_by-Kept o p (err (exchange_error x)) s a h =
        emergency-Fails o p s (exchange_error x) a h
    protected_by-Kept o p (err (unknown_status x)) s a h =
        emergency-Fails o p s (unknown_status x) a h

    pub protect-Kept :
        (o : OrderState D) (p : D) (ps : List (OrderState D)) (s : Session W D)
        → Audit i n p s.log
        → Holds (Kept n o) Fails (protect_new_fills m g i o p ps s)
    unfolding protect_new_fills
    protect-Kept o p ps s a = elim (Bool-cases (o.filled_quantity ≼ p)) [
      | inl h ↦ rw h (a, h)
      | inr h ↦ rw h (protected_by-Kept o p _ (record s { world = _ }) a h)
    ]

    -- A call that orders nothing.
    pub look-Holds :
        {A : Type 0} (call : W → Result Fault A × W) (handle : Fault → Raised) (p : D)
        (s : Session W D)
        → ((x : Fault) → is_early (handle x) ≡ true)
        → Audit i n p s.log
        → Holds {A = A} (λ _ s'. Audit i n p s'.log) Fails (ask call (λ _. read) handle s)
    look-Holds call handle p s h a =
        settle-Holds (λ _ s'. Audit i n p s'.log) Fails handle _ _ (λ _. looked a)
          (λ x. early bound (h x) (looked a))

    pub cancel-Kept :
        (c : Text) (p : D) (ps : List (OrderState D)) (s : Session W D)
        → Audit i n p s.log
        → Holds (Left n) Fails (cancel m g i c p ps s)
    unfolding cancel
    cancel-Kept c p ps s a =
        bind-Holds (λ _ s'. Audit i n p s'.log) (Left n) Fails
          (ask (g.cancel_order i.symbol c) (λ _. order_cancelled c) fault s)
          (λ o. protect_new_fills m g i o p ps >>= λ kept. pure (o, kept))
          (settle-Holds (λ _ s'. Audit i n p s'.log) Fails fault
            (g.cancel_order i.symbol c s.world).0
            (record s {
              world = (g.cancel_order i.symbol c s.world).1;
              log = order_cancelled c ∷ s.log;
            })
            (λ _. withdrawn c a) (λ x. early bound refl (withdrawn c a)))
          (λ o s' a'.
            bind-Holds (Kept n o) (Left n) Fails (protect_new_fills m g i o p ps s')
              (λ kept. pure (o, kept)) (protect-Kept o p ps s' a') (λ _ _ k. k))
