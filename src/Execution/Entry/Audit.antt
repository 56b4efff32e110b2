-- ===== src/Execution/Entry/Audit.antt =====
-- What `execute` of execution/manager.py orders, as a protocol of the log.
use ai_coinletgo.Prelude.{ℕ, suc, ◌≤◌, ◌≡◌, ◌⊎◌, Bool, true, false, List, [], ◌∷◌}
use ai_coinletgo.Prelude.Text.{Text}
use ai_coinletgo.Decimal.{Decimal, ◌≼◌, ◌≺◌, nought, ◌⊖◌, ◌⊗◌, abs}
use ai_coinletgo.Decimal.Laws.{IsRounded}
use ai_coinletgo.Domain.Enums.{status_eq}
use ai_coinletgo.Domain.Orders.{ExecutionIntent, OrderState}
use ai_coinletgo.Execution.Session.{
  Raised, fault, protection_error, position_invalid, diverges, Event, entry_asked, protection_set,
  protection_refused, emergency_close, order_cancelled, read, Session,
}
use ai_coinletgo.Execution.Entry.{Progress, finished, unfinished, inside_entry_guard}

-- What raised: `early` with all that had filled protected or not yet known to be filled;
-- `closing` after a protection was refused.
abbrev pub is_early : Raised → Bool
is_early protection_error = false
is_early position_invalid = false
is_early diverges = false
is_early _ = true

abbrev pub is_closing : Raised → Bool
is_closing protection_error = true
is_closing (fault x) = true
is_closing _ = false

module _ {D : Type 0} ⦃d : Decimal D⦄ (i : ExecutionIntent D) where
  -- A log, newest first, in which every entry was asked for inside the approved range and every
  -- protection covered more than the one before it. The indices are the number of entries and the
  -- quantity last protected.
  pub data Audit : ℕ → D → List (Event D) → Type 0 where
    begun : Audit 0 nought []
    entered :
        {n : ℕ} {p : D} {log : List (Event D)} (c : Text) (price : D)
        → inside_entry_guard i price ≡ true
        → Audit n p log
        → Audit (suc n) p (entry_asked c price ∷ log)
    protected :
        {n : ℕ} {p : D} {log : List (Event D)} (q : D)
        → (q ≼ p) ≡ false
        → Audit n p log
        → Audit n q (protection_set q ∷ log)
    withdrawn :
        {n : ℕ} {p : D} {log : List (Event D)} (c : Text)
        → Audit n p log
        → Audit n p (order_cancelled c ∷ log)
    looked : {n : ℕ} {p : D} {log : List (Event D)} → Audit n p log → Audit n p (read ∷ log)

  -- The fill of an order with no position to close: the price that it is taken at, the stop price or
  -- what is at risk between the two is not positive.
  pub record IsStranded (q : D) : Type 0 where
    pub entry : D
    pub taken_at : (entry ≡ i.limit_price) ⊎ ((nought ≺ entry) ≡ true)
    pub not_positive :
        ((entry ≼ nought) ≡ true)
        ⊎ (((i.stop_price ≼ nought) ≡ true) ⊎ ((q ⊗ abs (entry ⊖ i.stop_price) ≼ nought) ≡ true))

  -- The log of an `execute` that raised, after at most `n` entries: a protection that was refused is
  -- followed, at once and last, by the request to close what it was for, or it is the last call
  -- itself, where there is no position to close.
  pub data Aborted (b : ℕ) : Raised → List (Event D) → Type 0 where
    early :
        {n : ℕ} {p : D} {e : Raised} {log : List (Event D)}
        → n ≤ b
        → is_early e ≡ true
        → Audit n p log
        → Aborted b e log
    closing :
        {n : ℕ} {p : D} {e : Raised} {log : List (Event D)} (q : D)
        → n ≤ b
        → is_closing e ≡ true
        → (q ≼ p) ≡ false
        → Audit n p log
        → Aborted b e (emergency_close q ∷ protection_refused q ∷ log)
    stranded :
        {n : ℕ} {p : D} {log : List (Event D)} (q : D)
        → n ≤ b
        → (q ≼ p) ≡ false
        → IsStranded q
        → Audit n p log
        → Aborted b position_invalid (protection_refused q ∷ log)

  -- An order whose fill is within what was last protected.
  pub record IsCovered (n : ℕ) (o : OrderState D) (log : List (Event D)) : Type 0 where
    pub kept : D
    pub audit : Audit n kept log
    pub covered : (o.filled_quantity ≼ kept) ≡ true

  pub Audit-nonneg :
      (laws : IsRounded D) {n : ℕ} {p : D} {log : List (Event D)}
      → Audit n p log
      → (nought ≼ p) ≡ true
  Audit-nonneg laws begun = laws.le_refl nought
  Audit-nonneg laws (entered c price h a) = Audit-nonneg laws a
  Audit-nonneg laws (protected {p} q h a) =
      laws.le_trans nought p q (Audit-nonneg laws a) (laws.le_total q p h)
  Audit-nonneg laws (withdrawn c a) = Audit-nonneg laws a
  Audit-nonneg laws (looked a) = Audit-nonneg laws a

module _ {W D : Type 0} ⦃d : Decimal D⦄ (i : ExecutionIntent D) (b : ℕ) where
  -- What `execute` leaves when it raises.
  abbrev pub HasAborted : Raised → Session W D → Type 0
  HasAborted e s = Aborted i b e s.log

  -- What `execute` leaves when it returns: an order that is covered, after at most `b` entries.
  abbrev pub HasReturned : OrderState D × List (OrderState D) → Session W D → Type 0
  HasReturned r s = (n : ℕ) × (n ≤ b × IsCovered i n r.0 s.log)

module _ {W D : Type 0} ⦃d : Decimal D⦄ (i : ExecutionIntent D) where
  -- What an attempt leaves: the last order is covered.
  abbrev pub StandsAt : ℕ → Progress D → Session W D → Type 0
  StandsAt n (finished o ps) s = IsCovered i n o s.log
  StandsAt n (unfinished o p ps) s = Audit i n p s.log × (o.filled_quantity ≼ p) ≡ true

  -- What `protect_new_fills` leaves: the fill is covered.
  abbrev pub KeptAt : ℕ → OrderState D → D × List (OrderState D) → Session W D → Type 0
  KeptAt n o kept s = Audit i n kept.0 s.log × (o.filled_quantity ≼ kept.0) ≡ true
