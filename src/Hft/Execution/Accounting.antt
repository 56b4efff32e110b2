-- ===== src/Hft/Execution/Accounting.antt =====
-- The books of the paper executor of hft/execution.py, over any run of fills.
use ai_coinletgo.Prelude.{
  ◌+◌, ◌≡◌, ◌≢◌, ◌⊎◌, refl, true, false, List, [], ◌∷◌, map, length, if◌then◌else◌, arith,
  Bool-cases, inl, inr, ap, ◌∙◌, sym, subst, ◌==◌, keep,
}
use ai_coinletgo.Prelude.Text.{Text, text_eq, text_beq_iff, upper}
use ai_coinletgo.Prelude.Dict.{lookup-insert}
use ai_coinletgo.Prelude.Result.{ok}
use ai_coinletgo.Decimal.{Decimal, ◌≼◌, ◌≺◌, same, nought, ◌⊕◌, ◌⊗◌, minus, abs, min, ◌⊖◌, sum_from}
use ai_coinletgo.Decimal.Laws.{
  IsRounded, min-le_left, min-le_right, abs_nonneg, le-add_left, mul_nonpos, mul_pos_neg,
  mul_neg_pos,
}
use ai_coinletgo.Hft.Signal.{hold, HftSignal}
use ai_coinletgo.Hft.Risk.{price_of, signed_of}
use ai_coinletgo.Hft.Execution.{
  Position, HftFill, HftPaperExecutor, position_at, nonzero, opens, closed_of, gross_of, average_of,
  fill_of, book_fill, fill_positive, execute,
}

module _ {D : Type 0} ⦃d : Decimal D⦄ where
  -- What a call of `execute` that returned has done.
  pub record Executed (x : HftPaperExecutor D) (s : HftSignal D) (quantity : D) (f : HftFill D)
      (x' : HftPaperExecutor D) : Type 0 where
    pub acts : s.action ≢ hold
    pub positive : (nought ≺ quantity) ≡ true
    pub filled : f ≡ fill_of x s quantity
    pub booked : x' ≡ book_fill x f

  pub execute-Executed :
      (x : HftPaperExecutor D) (s : HftSignal D) (quantity : D) {f : HftFill D}
      {x' : HftPaperExecutor D}
      → execute x s quantity ≡ ok (f, x')
      → Executed x s quantity f x'
  unfolding execute fill_positive
  execute-Executed x s quantity h = ground arith

  -- The call returns for every signal that acts, at every positive quantity.
  pub execute_total :
      (x : HftPaperExecutor D) (s : HftSignal D) (quantity : D)
      → s.action ≢ hold
      → (nought ≺ quantity) ≡ true
      → execute x s quantity ≡ ok (fill_of x s quantity, book_fill x (fill_of x s quantity))
  unfolding execute fill_positive
  execute_total x s quantity acts positive = ground arith

  -- A run of calls of `execute` that returned, with their fills.
  pub data Run : HftPaperExecutor D → List (HftFill D) → HftPaperExecutor D → Type 0 where
    done : {x : HftPaperExecutor D} → Run x [] x
    next :
        {x m x' : HftPaperExecutor D} {f : HftFill D} {fs : List (HftFill D)} (s : HftSignal D)
        (quantity : D)
        → execute x s quantity ≡ ok (f, m)
        → Run m fs x'
        → Run x (f ∷ fs) x'

  abbrev pub signed_fill : HftFill D → D
  signed_fill f = signed_of f.action f.quantity

  -- The signed quantities of the symbol's fills, in order.
  abbrev pub fills_of : Text → List (HftFill D) → List D
  fills_of symbol fs = map signed_fill (keep (λ f. f.symbol == symbol) fs)

  pub record AreBooked (x : HftPaperExecutor D) (fs : List (HftFill D)) (x' : HftPaperExecutor D)
      : Type 0 where
    pub realized :
        x'.realized_pnl_usdt ≡ sum_from x.realized_pnl_usdt (map (λ f. f.realized_pnl_usdt) fs)
    pub fees : x'.fees_usdt ≡ sum_from x.fees_usdt (map (λ f. f.fee_usdt) fs)
    pub counted : x'.fill_count ≡ x.fill_count + length fs
    pub inventory :
        (symbol : Text)
        → (position_at x' symbol).quantity
          ≡ sum_from (position_at x symbol).quantity (fills_of symbol fs)

  position_at-book_fill :
      (x : HftPaperExecutor D) (f : HftFill D) (symbol : Text)
      → (position_at (book_fill x f) symbol).quantity
        ≡ (if f.symbol == symbol then f.inventory_after else (position_at x symbol).quantity)
  unfolding book_fill
  position_at-book_fill x f symbol =
      let p : Position D = record {
        quantity = f.inventory_after;
        average_entry = f.average_entry_after;
      } in
      rw (lookup-insert f.symbol symbol p x.positions) (ground arith)

  fill_of-inventory :
      (x : HftPaperExecutor D) (s : HftSignal D) (quantity : D) (symbol : Text)
      → let f = fill_of x s quantity in
        (f.symbol == symbol) ≡ true
        → f.inventory_after ≡ (position_at x symbol).quantity ⊕ signed_fill f
  unfolding fill_of
  fill_of-inventory x s quantity symbol h =
      ap (λ (k : Text). (position_at x k).quantity ⊕ signed_of s.action quantity)
        ((text_beq_iff (upper s.symbol) symbol).0 h)

  book_fill-inventory :
      (x : HftPaperExecutor D) (s : HftSignal D) (quantity : D) (symbol : Text)
      (fs : List (HftFill D))
      → let f = fill_of x s quantity in
        sum_from (position_at (book_fill x f) symbol).quantity (fills_of symbol fs)
        ≡ sum_from (position_at x symbol).quantity (fills_of symbol (f ∷ fs))
  unfolding sum_from
  book_fill-inventory x s quantity symbol fs =
      let f = fill_of x s quantity in
      elim (Bool-cases (f.symbol == symbol)) [
        | inl same_symbol ↦
            rw (position_at-book_fill x f symbol, same_symbol)
              (ap (λ (q : D). sum_from q (fills_of symbol fs))
                (fill_of-inventory x s quantity symbol same_symbol))
        | inr other ↦ rw (position_at-book_fill x f symbol, other) refl
      ]

  book_fill-AreBooked :
      (x : HftPaperExecutor D) (s : HftSignal D) (quantity : D) (fs : List (HftFill D))
      (x' : HftPaperExecutor D)
      → let f = fill_of x s quantity in AreBooked (book_fill x f) fs x' → AreBooked x (f ∷ fs) x'
  unfolding sum_from book_fill
  book_fill-AreBooked x s quantity fs x' rest = record {
    realized = rest.realized;
    fees = rest.fees;
    counted = omega (arith, rest.counted);
    inventory = λ symbol. rest.inventory symbol ∙ book_fill-inventory x s quantity symbol fs;
  }

  -- Over any run of fills the realized profit and the fees are the running sums of the fills' own,
  -- the count grows by one a fill, and the inventory of every symbol is the running sum of the signed
  -- quantities of that symbol's fills.
  pub Run-AreBooked :
      (x : HftPaperExecutor D) (fs : List (HftFill D)) (x' : HftPaperExecutor D)
      → Run x fs x'
      → AreBooked x fs x'
  unfolding sum_from
  Run-AreBooked x _ x' done = record {
    realized = refl;
    fees = refl;
    counted = omega arith;
    inventory = λ symbol. refl;
  }
  Run-AreBooked x _ x' (next {m} {f} {fs} s quantity h rest) =
      let made = execute-Executed x s quantity h in
      let booked : m ≡ book_fill x (fill_of x s quantity) =
        made.booked ∙ ap (book_fill x) made.filled in
      subst (λ f. AreBooked x (f ∷ fs) x') (sym made.filled)
        (book_fill-AreBooked x s quantity fs x'
          (subst (λ m. AreBooked m fs x') booked (Run-AreBooked m fs x' rest)))

  module _ (laws : IsRounded D) where
    open laws use {
      le_refl, le_total, le_antisymm, add_comm, add-nought, add_eq-nought, mul_neg_self, mul_nonneg,
      neg-neg,
    }

    with_position :
        (before signed : D)
        → (((nought ≼ before) ≡ true) × ((nought ≼ signed) ≡ true))
          ⊎ (((before ≼ nought) ≡ true) × ((signed ≼ nought) ≡ true))
        → (before ⊗ signed ≺ nought) ≡ false
    with_position before signed (inl (long, buys)) =
        ground (arith, mul_nonneg before signed long buys)
    with_position before signed (inr (short, sells)) =
        ground (arith, mul_nonpos laws before signed short sells)

    -- What a fill of a signed quantity closes of a position, and what that earns.
    pub record IsSettled (p : Position D) (signed price : D) : Type 0 where
      pub nonneg : (nought ≼ closed_of p.quantity signed) ≡ true
      pub within_held : (closed_of p.quantity signed ≼ abs p.quantity) ≡ true
      pub within_ordered : (closed_of p.quantity signed ≼ abs signed) ≡ true
      pub grows :
          (((nought ≼ p.quantity) ≡ true) × ((nought ≼ signed) ≡ true))
            ⊎ (((p.quantity ≼ nought) ≡ true) × ((signed ≼ nought) ≡ true))
          → (closed_of p.quantity signed ≡ nought) × (gross_of p signed price ≡ nought)
      pub long_sold :
          (nought ≺ p.quantity) ≡ true
          → (signed ≺ nought) ≡ true
          → (closed_of p.quantity signed ≡ min (abs p.quantity) (abs signed))
            × (gross_of p signed price
                ≡ (price ⊖ p.average_entry) ⊗ min (abs p.quantity) (abs signed))
      pub short_bought :
          (p.quantity ≺ nought) ≡ true
          → (nought ≺ signed) ≡ true
          → (closed_of p.quantity signed ≡ min (abs p.quantity) (abs signed))
            × (gross_of p signed price
                ≡ (p.average_entry ⊖ price) ⊗ min (abs p.quantity) (abs signed))

    -- No fill closes more than is held or more than is ordered. A fill in the direction of the position,
    -- or from flat, closes nothing and earns nothing. A sale against a long position, and a purchase
    -- against a short one, close the lesser of what is held and what is ordered, and earn, on that
    -- quantity, the price less the average entry, or the average entry less the price.
    pub closed_of_bounds : (p : Position D) (signed price : D) → IsSettled p signed price
    unfolding closed_of gross_of
    closed_of_bounds p signed price =
        let a = abs p.quantity in
        let b = abs signed in
        record {
          nonneg =
              ground (arith, abs_nonneg laws p.quantity, abs_nonneg laws signed, le_refl nought);
          within_held = ground (arith, min-le_left laws a b, abs_nonneg laws p.quantity);
          within_ordered = ground (arith, min-le_right laws a b, abs_nonneg laws signed);
          grows = λ h. rw (with_position p.quantity signed h) (ground arith);
          long_sold = λ long sells.
              let opposed = mul_pos_neg laws p.quantity signed long sells in ground arith;
          short_bought = λ short buys.
              let opposed = mul_neg_pos laws p.quantity signed short buys in
              ground (arith, le_total p.quantity nought);
        }

    -- A fill that brings the position to flat leaves no average entry behind.
    pub average_of_flat :
        (p : Position D) (signed price : D)
        → nonzero signed ≡ true
        → p.quantity ⊕ signed ≡ nought
        → average_of p signed price ≡ nought
    unfolding average_of
    average_of_flat p signed price moves ends = rw (not_opened, ends, le_refl nought) refl
      where
        against : signed ≡ minus p.quantity
        against = add_eq-nought p.quantity signed ends

        started : same p.quantity nought ≡ false
        started = ground (
          arith,
          le_antisymm p.quantity nought,
          add_comm nought signed,
          add-nought signed,
          le_refl nought,
        )

        not_opened : opens p.quantity signed ≡ false
        not_opened = rw (against, started) (mul_neg_self p.quantity)

    -- The fees never fall, as long as the fee rate is not negative.
    pub book_fill_fees_mono :
        (x : HftPaperExecutor D) (s : HftSignal D) (quantity : D)
        → (nought ≼ x.fee_rate) ≡ true
        → (x.fees_usdt ≼ (book_fill x (fill_of x s quantity)).fees_usdt) ≡ true
    unfolding book_fill fill_of
    book_fill_fees_mono x s quantity rate =
        le-add_left laws x.fees_usdt _
          (mul_nonneg _ x.fee_rate (abs_nonneg laws (price_of s ⊗ quantity)) rate)
