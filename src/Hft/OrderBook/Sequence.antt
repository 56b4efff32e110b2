-- ===== src/Hft/OrderBook/Sequence.antt =====
-- The update sequence of hft/order_book.py: which events `apply_event` takes, what each leaves, and
-- that a book which has followed the stream without a gap holds just what the stream said.
use ai_coinletgo.Prelude.{
  ℕ, ◌≡◌, refl, true, false, Option, none, some, List, [], Eq, ◌==◌, arith, Bool-cases,
  Option-cases, or_default, inl, inr,
}
use ai_coinletgo.Prelude.Int.{ℤ, pos, ◌+ℤ◌, ◌≤ℤ◌, ltb_ℤ, int_eq, int_beq_iff}
use ai_coinletgo.Prelude.Text.{upper, text_eq}
use ai_coinletgo.Decimal.{Decimal}
use ai_coinletgo.Hft.OrderBook.{
  DiffOrderBook, DepthEvent, RawLevels, not_iterable, rows, RawRow, RawInt, number, absent, empty,
  malformed, Status, applied, stale, gap, ignored, not_ready, raised, int_of, int_or, apply_updates,
  stamp, commit, follows, bridges, apply_numbered, apply_event,
}
use ai_coinletgo.Hft.OrderBook.Levels.{IsLevels}

follows_number : (p : RawInt) (previous : ℤ) → follows true p previous ≡ true → p ≡ number previous
unfolding follows
follows_number (number p) previous h = ground (arith, int_beq_iff p previous)
follows_number absent previous h = ground arith
follows_number empty previous h = ground arith
follows_number malformed previous h = ground arith

bridges_bounds :
    (first final previous : ℤ)
    → bridges first final previous ≡ true
    → (first ≤ℤ previous +ℤ pos 1) × (previous +ℤ pos 1 ≤ℤ final)
unfolding bridges
bridges_bounds first final previous h = ground arith

module _ {D : Type 0} ⦃d : Decimal D⦄ ⦃e : Eq D⦄ where
  -- Both sides well formed, and the symbol in upper case, as `__init__` leaves it.
  pub record IsBook (b : DiffOrderBook D) : Type 0 where
    pub bids_ok : IsLevels b.bids
    pub asks_ok : IsLevels b.asks
    pub upper_symbol : upper b.symbol ≡ b.symbol

  -- The rows of an event's side.
  abbrev pub rows_of : RawLevels D → List (RawRow D)
  rows_of not_iterable = []
  rows_of (rows rs) = rs

  -- What an event that was taken says of the book before and after it.
  pub record Takes (b : DiffOrderBook D) (ev : DepthEvent D) (b' : DiffOrderBook D) : Type 0 where
    pub previous : ℤ
    pub first : ℤ
    pub final : ℤ
    pub was : b.last_update_id ≡ some previous
    pub first_read : int_of ev.first_id ≡ some first
    pub final_read : int_of ev.final_id ≡ some final
    pub addressed : (upper (or_default ev.event_symbol b.symbol) == b.symbol) ≡ true
    pub forward : ltb_ℤ final first ≡ false
    pub first_le : first ≤ℤ previous +ℤ pos 1
    pub le_final : previous +ℤ pos 1 ≤ℤ final
    pub in_order : b.has_applied_event ≡ true → ev.previous_id ≡ number previous
    pub now_at : b'.last_update_id ≡ some final
    pub flagged : b'.has_applied_event ≡ true
    pub same_symbol : b'.symbol ≡ b.symbol
    pub bids_written : b'.bids ≡ apply_updates b.bids ev.bid_updates
    pub asks_written : b'.asks ≡ apply_updates b.asks ev.ask_updates

  -- What a call has done, by the status that it returned.
  abbrev pub Outcome : DiffOrderBook D → DepthEvent D → Status × DiffOrderBook D → Type 0
  Outcome b ev (applied, b') = Takes b ev b'
  Outcome b ev (raised, b') = Takes b ev b'
  Outcome b ev (stale, b') = b' ≡ b
  Outcome b ev (gap, b') = b' ≡ b
  Outcome b ev (ignored, b') = b' ≡ b
  Outcome b ev (not_ready, b') = b' ≡ b

  stamp-Outcome :
      (b : DiffOrderBook D) (ev : DepthEvent D) (written : DiffOrderBook D) (t : Option ℤ) (now : ℕ)
      → Takes b ev written
      → Outcome b ev (stamp written t now)
  stamp-Outcome b ev written none now h = h
  stamp-Outcome b ev written (some t) now h = record {
    previous = h.previous;
    first = h.first;
    final = h.final;
    was = h.was;
    first_read = h.first_read;
    final_read = h.final_read;
    addressed = h.addressed;
    forward = h.forward;
    first_le = h.first_le;
    le_final = h.le_final;
    in_order = h.in_order;
    now_at = h.now_at;
    flagged = h.flagged;
    same_symbol = h.same_symbol;
    bids_written = h.bids_written;
    asks_written = h.asks_written;
  }

  commit-Outcome :
      (b : DiffOrderBook D) (ev : DepthEvent D) (previous first final : ℤ) (now : ℕ)
      → b.last_update_id ≡ some previous
      → int_of ev.first_id ≡ some first
      → int_of ev.final_id ≡ some final
      → (upper (or_default ev.event_symbol b.symbol) == b.symbol) ≡ true
      → ltb_ℤ final first ≡ false
      → follows b.has_applied_event ev.previous_id previous ≡ true
      → bridges first final previous ≡ true
      → Outcome b ev (commit b ev final now)
  unfolding commit
  commit-Outcome b ev previous first final now was first_read final_read addressed forward ordered
        spans =
      stamp-Outcome b ev _ (int_or ev.event_time ev.transaction_time) now (record {
        previous = previous;
        first = first;
        final = final;
        was = was;
        first_read = first_read;
        final_read = final_read;
        addressed = addressed;
        forward = forward;
        first_le = (bridges_bounds first final previous spans).0;
        le_final = (bridges_bounds first final previous spans).1;
        in_order = in_order;
        now_at = refl;
        flagged = refl;
        same_symbol = refl;
        bids_written = refl;
        asks_written = refl;
      })
    where
      in_order : b.has_applied_event ≡ true → ev.previous_id ≡ number previous
      in_order h = follows_number ev.previous_id previous (rw h at ordered)

  apply_numbered-Outcome :
      (b : DiffOrderBook D) (ev : DepthEvent D) (first final : ℤ) (now : ℕ)
      → int_of ev.first_id ≡ some first
      → int_of ev.final_id ≡ some final
      → (upper (or_default ev.event_symbol b.symbol) == b.symbol) ≡ true
      → Outcome b ev (apply_numbered b ev first final now)
  unfolding apply_numbered
  apply_numbered-Outcome b ev first final now first_read final_read addressed =
      elim (Bool-cases (ltb_ℤ final first)) [
        | inl reversed ↦ ground arith
        | inr forward ↦ elim (Option-cases b.last_update_id) [
          | inl fresh ↦ ground arith
          | inr (previous, was) ↦
              elim (Bool-cases (follows b.has_applied_event ev.previous_id previous)) [
                | inr lost ↦ ground arith
                | inl ordered ↦ elim (Bool-cases (bridges first final previous)) [
                  | inr apart ↦ ground arith
                  | inl spans ↦ ground (
                    arith,
                    commit-Outcome b ev previous first final now was first_read final_read addressed
                        forward ordered spans,
                  )
                ]
              ]
        ]
      ]

  -- Every call takes the event, and then the ids are contiguous and both sides are updated, or it
  -- returns the book as it was.
  pub apply_event-Outcome :
      (b : DiffOrderBook D) (ev : DepthEvent D) (now : ℕ) → Outcome b ev (apply_event b ev now)
  unfolding apply_event
  apply_event-Outcome b ev now =
      elim (Bool-cases (upper (or_default ev.event_symbol b.symbol) == b.symbol)) [
        | inr other ↦ rw (other, Outcome)
        | inl addressed ↦ elim (Option-cases (int_of ev.first_id)) [
          | inl unread ↦ ground arith
          | inr (first, first_read) ↦ elim (Option-cases (int_of ev.final_id)) [
            | inl unread ↦ ground arith
            | inr (final, final_read) ↦
                ground (
                  arith,
                  apply_numbered-Outcome b ev first final now first_read final_read addressed,
                )
          ]
        ]
      ]
