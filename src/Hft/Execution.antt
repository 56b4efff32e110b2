-- ===== src/Hft/Execution.antt =====
-- hft/execution.py: `HftPaperExecutor`, and `HftFill` and `HftExecutionSnapshot` of hft/models.py.
pub mod Accounting
use ai_coinletgo.Prelude.{
  ℕ, ◌+◌, Bool, true, false, not, ◌&&◌, ◌||◌, Option, none, some, List, [], ◌∷◌, if◌then◌else◌,
  or_default,
}
use ai_coinletgo.Prelude.Text.{Text, text_eq, upper}
use ai_coinletgo.Prelude.Dict.{Dict, lookup, insert}
use ai_coinletgo.Prelude.Result.{Result, ok, err}
use ai_coinletgo.Decimal.{Decimal, ◌≼◌, ◌≺◌, same, nought, ◌⊕◌, ◌⊖◌, ◌⊗◌, ◌⊘◌, minus, abs, min}
use ai_coinletgo.Hft.Signal.{HftAction, buy, sell, hold, HftSignal}
use ai_coinletgo.Hft.Risk.{price_of, signed_of}

pub record Position (D : Type 0) : Type 0 where
  pub quantity : D
  pub average_entry : D

pub record HftFill (D : Type 0) : Type 0 where
  pub symbol : Text
  pub action : HftAction
  pub quantity : D
  pub price : D
  pub notional_usdt : D
  pub fee_usdt : D
  pub closed_quantity : D
  pub gross_realized_pnl_usdt : D
  pub realized_pnl_usdt : D
  pub inventory_before : D
  pub inventory_after : D
  pub average_entry_after : D

pub record HftExecutionSnapshot (D : Type 0) : Type 0 where
  pub inventory_qty : D
  pub inventory_notional_usdt : D
  pub average_entry_price : D
  pub realized_pnl_usdt : D
  pub unrealized_pnl_usdt : D
  pub fees_usdt : D
  pub total_pnl_usdt : D
  pub fills : ℕ

pub record HftPaperExecutor (D : Type 0) : Type 0 where
  pub fee_rate : D
  pub positions : Dict Text (Position D)
  pub realized_pnl_usdt : D
  pub fees_usdt : D
  pub fill_count : ℕ

-- The `ValueError`s of `execute`.
pub data ExecuteError : Type 0 where
  hold_signal quantity_not_positive : ExecuteError

module _ {D : Type 0} ⦃d : Decimal D⦄ where
  abbrev pub flat : Position D
  flat = record { quantity = nought; average_entry = nought }

  -- `self._positions.get(symbol, _Position())`
  abbrev pub position_at : HftPaperExecutor D → Text → Position D
  position_at x symbol = or_default (lookup symbol x.positions) flat

  unfoldable pub inventory_qty : HftPaperExecutor D → Text → D
  inventory_qty x symbol = (position_at x (upper symbol)).quantity

  abbrev pub nonzero : D → Bool
  nonzero a = not (same a nought)

  -- The order goes against the position, or with it.
  abbrev pub closes : D → D → Bool
  closes before signed = nonzero before && (before ⊗ signed ≺ nought)

  abbrev pub opens : D → D → Bool
  opens before signed = same before nought || (nought ≺ before ⊗ signed)

  unfoldable pub closed_of : D → D → D
  closed_of before signed = if closes before signed then min (abs before) (abs signed) else nought

  unfoldable pub gross_of : Position D → D → D → D
  unfolding closed_of
  gross_of p signed price =
      if closes p.quantity signed
      then if nought ≺ p.quantity
        then (price ⊖ p.average_entry) ⊗ closed_of p.quantity signed
        else (p.average_entry ⊖ price) ⊗ closed_of p.quantity signed
      else nought

  -- The average entry after the fill; a position that shrinks keeps its own.
  unfoldable pub average_of : Position D → D → D → D
  average_of p signed price =
      let after = p.quantity ⊕ signed in
      if opens p.quantity signed
      then (abs p.quantity ⊗ p.average_entry ⊕ abs signed ⊗ price) ⊘ (abs p.quantity ⊕ abs signed)
      else if same after nought
      then nought
      else if after ⊗ p.quantity ≺ nought
      then price
      else p.average_entry

  -- The fill that `execute` returns, for a signal that is no HOLD.
  unfoldable pub fill_of : HftPaperExecutor D → HftSignal D → D → HftFill D
  unfolding closed_of gross_of average_of
  fill_of x s quantity =
      let symbol = upper s.symbol in
      let p = position_at x symbol in
      let price = price_of s in
      let signed = signed_of s.action quantity in
      let notional = abs (price ⊗ quantity) in
      let fee = notional ⊗ x.fee_rate in
      let gross = gross_of p signed price in
      record {
        symbol = symbol;
        action = s.action;
        quantity = quantity;
        price = price;
        notional_usdt = notional;
        fee_usdt = fee;
        closed_quantity = closed_of p.quantity signed;
        gross_realized_pnl_usdt = gross;
        realized_pnl_usdt = gross ⊖ fee;
        inventory_before = p.quantity;
        inventory_after = p.quantity ⊕ signed;
        average_entry_after = average_of p signed price;
      }

  -- The writes of `execute`.
  unfoldable pub book_fill : HftPaperExecutor D → HftFill D → HftPaperExecutor D
  book_fill x f = record x {
    positions =
        insert f.symbol
          (record { quantity = f.inventory_after; average_entry = f.average_entry_after })
          x.positions;
    realized_pnl_usdt = x.realized_pnl_usdt ⊕ f.realized_pnl_usdt;
    fees_usdt = x.fees_usdt ⊕ f.fee_usdt;
    fill_count = x.fill_count + 1;
  }

  unfoldable pub fill_positive :
      HftPaperExecutor D → HftSignal D → D → Result ExecuteError (HftFill D × HftPaperExecutor D)
  unfolding fill_of book_fill
  fill_positive x s quantity =
      if quantity ≼ nought
      then err quantity_not_positive
      else let f = fill_of x s quantity in ok (f, book_fill x f)

  unfoldable pub execute :
      HftPaperExecutor D → HftSignal D → D → Result ExecuteError (HftFill D × HftPaperExecutor D)
  unfolding fill_positive
  execute x s quantity = elim s.action [ hold ↦ err hold_signal | _ ↦ fill_positive x s quantity ]

  unfoldable pub unrealized : Position D → D → D
  unrealized p mark =
      if nought ≺ p.quantity
      then (mark ⊖ p.average_entry) ⊗ p.quantity
      else if p.quantity ≺ nought
      then (p.average_entry ⊖ mark) ⊗ abs p.quantity
      else nought

  unfoldable pub snapshot : HftPaperExecutor D → Text → D → HftExecutionSnapshot D
  unfolding unrealized
  snapshot x symbol mark =
      let p = position_at x (upper symbol) in
      let open_pnl = unrealized p mark in
      record {
        inventory_qty = p.quantity;
        inventory_notional_usdt = abs (p.quantity ⊗ mark);
        average_entry_price = p.average_entry;
        realized_pnl_usdt = x.realized_pnl_usdt;
        unrealized_pnl_usdt = open_pnl;
        fees_usdt = x.fees_usdt;
        total_pnl_usdt = x.realized_pnl_usdt ⊕ open_pnl;
        fills = x.fill_count;
      }

  -- The sums of `aggregate_snapshot`: profit, notional and quantity; a symbol without a mark is
  -- left out.
  unfoldable pub add_marked : Dict Text D → D × D × D → Dict Text (Position D) → D × D × D
  unfolding unrealized
  add_marked marks acc [] = acc
  add_marked marks (pnl, notional, qty) ((symbol, p) ∷ rest) =
      add_marked marks
        (elim (lookup symbol marks) [
          | none ↦ (pnl, notional, qty)
          | some mark ↦
              (pnl ⊕ unrealized p mark, notional ⊕ abs (p.quantity ⊗ mark), qty ⊕ p.quantity)
        ])
        rest

  unfoldable pub aggregate_snapshot : HftPaperExecutor D → Dict Text D → HftExecutionSnapshot D
  unfolding add_marked
  aggregate_snapshot x marks =
      let (pnl, notional, qty) = add_marked marks (nought, nought, nought) x.positions in
      record {
        inventory_qty = qty;
        inventory_notional_usdt = notional;
        average_entry_price = nought;
        realized_pnl_usdt = x.realized_pnl_usdt;
        unrealized_pnl_usdt = pnl;
        fees_usdt = x.fees_usdt;
        total_pnl_usdt = x.realized_pnl_usdt ⊕ pnl;
        fills = x.fill_count;
      }
