-- ===== src/Domain/Account.antt =====
-- `PositionState`, `AccountState` and `ExchangeFilters` of domain/models.py.
use ai_coinletgo.Prelude.{◌≡◌, Bool, true, ◌&&◌, Option, none, some, arith, if◌then◌else◌}
use ai_coinletgo.Prelude.Text.{Text}
use ai_coinletgo.Decimal.{Decimal, ◌≼◌, ◌≺◌, nought, ◌⊖◌, ◌⊘◌, minus}
use ai_coinletgo.Decimal.Laws.{IsRounded, neg-nought, sub_nonneg}
use ai_coinletgo.Domain.Enums.{PositionSide}

pub record PositionState (D : Type 0) : Type 0 where
  pub position_id : Text
  pub symbol : Text
  pub side : PositionSide
  pub quantity : D
  pub initial_quantity : Option D
  pub entry_price : D
  pub mark_price : D
  pub stop_price : D
  pub tp1_price : Option D
  pub tp2_price : Option D
  pub tp1_completed : Bool
  pub tp1_status_known : Bool
  pub original_stop_price : Option D
  pub initial_risk_usdt : D
  pub unrealized_pnl : D
  pub margin_used : D
  pub current_r : D
  pub protected : Bool

pub record AccountState (D : Type 0) : Type 0 where
  pub equity : D
  pub available_balance : D
  pub realized_pnl_today : D
  pub unrealized_pnl : D
  pub fees_today : D
  pub funding_today : D
  pub day_start_equity : D
  pub high_water_mark : D
  pub total_margin_used : D

pub record ExchangeFilters (D : Type 0) : Type 0 where
  pub tick_size : D
  pub step_size : D
  pub min_quantity : D
  pub min_notional : D
  pub max_quantity : Option D
  pub market_step_size : Option D
  pub market_min_quantity : Option D
  pub market_max_quantity : Option D

module _ {D : Type 0} ⦃d : Decimal D⦄ where
  abbrev pub positive_or_none : Option D → Bool
  positive_or_none none = true
  positive_or_none (some x) = nought ≺ x

  -- The validator: what was not given is filled from the position as it stands.
  unfoldable pub fill_initial_risk_metadata : PositionState D → PositionState D
  fill_initial_risk_metadata p = record p {
    initial_quantity = elim p.initial_quantity [ none ↦ some p.quantity | some q ↦ some q ];
    original_stop_price = elim p.original_stop_price [ none ↦ some p.stop_price | some s ↦ some s ];
  }

  -- The bounds of the fields, without which the constructor raises its `ValidationError`.
  unfoldable pub is_position : PositionState D → Bool
  is_position p =
      (nought ≺ p.quantity)
      && positive_or_none p.initial_quantity
      && (nought ≺ p.entry_price)
      && (nought ≺ p.mark_price)
      && (nought ≺ p.stop_price)
      && positive_or_none p.tp1_price
      && positive_or_none p.tp2_price
      && positive_or_none p.original_stop_price
      && (nought ≺ p.initial_risk_usdt)
      && (nought ≼ p.margin_used)

  pub record IsAccount (a : AccountState D) : Type 0 where
    pub equity_pos : (nought ≺ a.equity) ≡ true
    pub day_start_pos : (nought ≺ a.day_start_equity) ≡ true
    pub high_water_pos : (nought ≺ a.high_water_mark) ≡ true
    pub margin_nonneg : (nought ≼ a.total_margin_used) ≡ true

  pub record IsFilters (f : ExchangeFilters D) : Type 0 where
    pub tick_pos : (nought ≺ f.tick_size) ≡ true
    pub step_pos : (nought ≺ f.step_size) ≡ true
    pub min_quantity_pos : (nought ≺ f.min_quantity) ≡ true
    pub min_notional_pos : (nought ≺ f.min_notional) ≡ true

  unfoldable pub daily_equity_loss_pct : AccountState D → D
  daily_equity_loss_pct a =
      let change = a.equity ⊖ a.day_start_equity in
      if nought ≼ change then nought else minus change ⊘ a.day_start_equity

  unfoldable pub drawdown_pct : AccountState D → D
  drawdown_pct a =
      if a.high_water_mark ≼ a.equity
      then nought
      else (a.high_water_mark ⊖ a.equity) ⊘ a.high_water_mark

  module _ (laws : IsRounded D) where
    open laws use {le_refl, le_total, neg_anti, div_nonneg}

    -- Neither loss measure of an account is ever negative.
    pub losses_nonneg :
        (a : AccountState D)
        → IsAccount a
        → ((nought ≼ daily_equity_loss_pct a) ≡ true) × ((nought ≼ drawdown_pct a) ≡ true)
    unfolding daily_equity_loss_pct drawdown_pct
    losses_nonneg a v =
        let change = a.equity ⊖ a.day_start_equity in
        ground (
          arith,
          le_refl nought,
          neg-nought laws,
          le_total nought change,
          neg_anti change nought,
          div_nonneg (minus change) a.day_start_equity,
          le_total a.high_water_mark a.equity,
          sub_nonneg laws a.equity a.high_water_mark,
          div_nonneg (a.high_water_mark ⊖ a.equity) a.high_water_mark,
        )
