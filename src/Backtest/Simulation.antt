-- ===== src/Backtest/Simulation.antt =====
-- The position of backtest/engine.py, and the methods of `BacktestEngine` that open, manage and close it.
-- A method that changes the position returns it.
use ai_coinletgo.Prelude.{
  ℕ, ◌%◌, Bool, true, false, not, ◌&&◌, Option, none, some, if◌then◌else◌, ◌==◌, nat_eq,
}
use ai_coinletgo.Prelude.Text.{Text, text}
use ai_coinletgo.Prelude.Result.{Result, ok, err}
use ai_coinletgo.Decimal.{
  Decimal, ◌≼◌, ◌≺◌, nought, one, two, ◌⊕◌, ◌⊖◌, ◌⊗◌, ◌⊘◌, minus, abs, min, max,
}
use ai_coinletgo.Domain.Enums.{PositionSide, long, short, EntryDirection, EntryTrigger}
use ai_coinletgo.Domain.Market.{Candle}
use ai_coinletgo.Strategy.ExitPolicy.{TargetError, first_take_profit, breakeven_stop, trailing_stop}

pub record SimPosition (D : Type 0) : Type 0 where
  pub side : PositionSide
  pub quantity : D
  pub remaining : D
  pub entry : D
  pub stop : D
  pub tp1 : D
  pub tp2 : D
  pub highest : D
  pub lowest : D
  pub realized : D
  pub fees : D
  pub tp1_hit : Bool
  pub tp2_hit : Bool
  pub symbol : Text
  pub initial_risk : D
  pub margin_used : D
  pub funding : D
  pub slippage : D
  pub holding_bars : ℕ
  pub opened_at : Option ℕ

pub record BacktestConfig (D : Type 0) : Type 0 where
  pub initial_equity : D
  pub risk_pct : D
  pub stop_atr : D
  pub trailing_atr : D
  pub fee_rate : D
  pub slippage_rate : D
  pub estimated_funding_rate : D
  pub daily_loss_pct : D
  pub max_drawdown_pct : D
  pub portfolio_risk_pct : D
  pub max_leverage : ℕ
  pub max_margin_pct : D
  pub max_positions : ℕ
  pub max_same_direction : ℕ
  pub correlation_limit : D
  pub candidate_count : ℕ
  pub max_spread_pct : D
  pub max_abs_funding_rate : D
  pub max_abs_basis_pct : D
  pub min_book_depth_usdt : D
  pub min_listing_days : ℕ
  pub max_volatility_percentile : D
  pub entry_direction : EntryDirection
  pub entry_trigger : EntryTrigger
  pub min_confidence : D
  pub min_net_reward_risk : D
  pub min_stop_atr : D
  pub max_stop_atr : D
  pub manual_exit_levels_enabled : Bool
  pub manual_stop_atr : D
  pub manual_take_profit_atr : D
  pub strong_trend_entry_override_enabled : Bool
  pub strong_trend_adx_min : D
  pub trend_adx_min : D
  pub volatility_soft_limit_percentile : D
  pub volatility_hard_limit_percentile : D
  pub elevated_volatility_risk_multiplier : D
  pub high_volatility_risk_multiplier : D

-- What `_manage` returns, with the position as it leaves it.
pub record Managed (D : Type 0) : Type 0 where
  pub position : SimPosition D
  pub pnl : D
  pub closed : Bool
  pub fees : D

module _ {D : Type 0} ⦃d : Decimal D⦄ where
  -- `TP1_FRACTION` and `TP2_FRACTION` of strategy/exit_policy.py
  abbrev pub take_profit_fraction : D
  take_profit_fraction = d.lit 4 1

  abbrev pub direction_of : PositionSide → D
  direction_of long = one
  direction_of short = minus one

  -- A fill is worse than its price by the slippage: of an entry, and of an exit.
  abbrev pub entry_fill : PositionSide → D → D → D
  entry_fill long price rate = price ⊗ (one ⊕ rate)
  entry_fill short price rate = price ⊗ (one ⊖ rate)

  abbrev pub exit_fill : PositionSide → D → D → D
  exit_fill long price rate = price ⊗ (one ⊖ rate)
  exit_fill short price rate = price ⊗ (one ⊕ rate)

  abbrev pub new_position : PositionSide → D → D → D → D → D → D → D → SimPosition D
  new_position side quantity entry stop tp1 tp2 fee slip = record {
    side = side;
    quantity = quantity;
    remaining = quantity;
    entry = entry;
    stop = stop;
    tp1 = tp1;
    tp2 = tp2;
    highest = entry;
    lowest = entry;
    realized = nought;
    fees = fee;
    tp1_hit = false;
    tp2_hit = false;
    symbol = text "BACKTEST";
    initial_risk = nought;
    margin_used = nought;
    funding = nought;
    slippage = slip;
    holding_bars = 0;
    opened_at = none;
  }

  abbrev pub opened_at_target :
      PositionSide
      → D
      → D
      → D
      → D
      → D
      → D
      → Result TargetError D
      → Result TargetError (SimPosition D)
  opened_at_target side quantity entry stop tp2 fee slip (err e) = err e
  opened_at_target side quantity entry stop tp2 fee slip (ok tp1) =
      ok (new_position side quantity entry stop tp1 tp2 fee slip)

  -- `_open`
  unfoldable pub open_position :
      PositionSide → D → D → D → BacktestConfig D → Result TargetError (SimPosition D)
  open_position side raw_entry current_atr equity c =
      let entry = entry_fill side raw_entry c.slippage_rate in
      let stop_atr = if c.manual_exit_levels_enabled then c.manual_stop_atr else c.stop_atr in
      let risk_distance = current_atr ⊗ stop_atr in
      let quantity = equity ⊗ c.risk_pct ⊘ risk_distance in
      let stop = entry ⊖ direction_of side ⊗ risk_distance in
      let final_distance =
        if c.manual_exit_levels_enabled
        then current_atr ⊗ c.manual_take_profit_atr
        else risk_distance ⊗ two in
      let tp2 = entry ⊕ direction_of side ⊗ final_distance in
      opened_at_target side quantity entry stop tp2 (quantity ⊗ entry ⊗ c.fee_rate)
        (abs (entry ⊖ raw_entry) ⊗ quantity) (first_take_profit entry stop tp2 side)

  -- `_realize`, as `Managed` of a position that is not closed by it.
  unfoldable pub realize : SimPosition D → D → D → BacktestConfig D → Managed D
  realize p raw_exit asked c =
      let quantity = min asked p.remaining in
      let exit_price = exit_fill p.side raw_exit c.slippage_rate in
      let pnl = (exit_price ⊖ p.entry) ⊗ quantity ⊗ direction_of p.side in
      let fee = exit_price ⊗ quantity ⊗ c.fee_rate in
      record {
        position = record p {
          slippage = p.slippage ⊕ abs (exit_price ⊖ raw_exit) ⊗ quantity;
          realized = p.realized ⊕ pnl;
          fees = p.fees ⊕ fee;
          remaining = p.remaining ⊖ quantity;
        };
        pnl = pnl;
        closed = false;
        fees = fee;
      }

  abbrev pub stop_hit : PositionSide → Candle D → D → Bool
  stop_hit long candle stop = candle.low ≼ stop
  stop_hit short candle stop = stop ≼ candle.high

  abbrev pub target_hit : PositionSide → Candle D → D → Bool
  target_hit long candle target = target ≼ candle.high
  target_hit short candle target = candle.low ≼ target

  abbrev pub with_extremes : SimPosition D → Candle D → SimPosition D
  with_extremes p candle = record p {
    highest = max p.highest candle.high;
    lowest = min p.lowest candle.low;
  }

  -- What is realized at a target is added to what the candle has realized so far.
  abbrev pub added : Managed D → Managed D → Managed D
  added before now = record {
    position = now.position;
    pnl = before.pnl ⊕ now.pnl;
    closed = false;
    fees = before.fees ⊕ now.fees;
  }

  abbrev pub at_breakeven : BacktestConfig D → Managed D → Managed D
  at_breakeven c s =
      let p = s.position in
      record s {
        position = record p {
          tp1_hit = true;
          stop = breakeven_stop p.entry p.side (c.fee_rate ⊗ two);
        };
      }

  abbrev pub at_target : Managed D → Managed D
  at_target s = let p = s.position in record s { position = record p { tp2_hit = true } }

  -- The first target, the second and the trailing stop.
  unfoldable pub manage_first : Candle D → BacktestConfig D → Managed D → Managed D
  manage_first candle c s =
      let p = s.position in
      if not p.tp1_hit && target_hit p.side candle p.tp1
      then at_breakeven c (added s (realize p p.tp1 (p.quantity ⊗ take_profit_fraction) c))
      else s

  unfoldable pub manage_second : Candle D → BacktestConfig D → Managed D → Managed D
  manage_second candle c s =
      let p = s.position in
      if p.tp1_hit && not p.tp2_hit && target_hit p.side candle p.tp2
      then at_target
          (added s (realize p p.tp2 (min (p.quantity ⊗ take_profit_fraction) p.remaining) c))
      else s

  unfoldable pub manage_trailing : D → BacktestConfig D → Managed D → Managed D
  manage_trailing current_atr c s =
      let p = s.position in
      if p.tp2_hit && (nought ≺ p.remaining) && (nought ≺ current_atr)
      then record s {
        position = record p {
          stop =
              trailing_stop p.stop p.side
                (record { highest = p.highest; lowest = p.lowest; atr = current_atr })
                c.trailing_atr;
        };
      }
      else s

  abbrev pub concluded : Managed D → Managed D
  concluded s = let p = s.position in record s { closed = p.remaining ≼ nought }

  -- `_manage`
  unfoldable pub manage : SimPosition D → Candle D → D → BacktestConfig D → Managed D
  manage position candle current_atr c =
      let p = with_extremes position candle in
      if stop_hit p.side candle p.stop
      then record (realize p p.stop p.remaining c) { closed = true }
      else concluded (
          manage_trailing current_atr c (
            manage_second candle c (
              manage_first candle c
                (record { position = p; pnl = nought; closed = false; fees = nought }))))

  -- `_close_remaining`, with the position as it leaves it.
  unfoldable pub close_remaining : SimPosition D → D → BacktestConfig D → SimPosition D × D
  close_remaining p price c = let s = realize p price p.remaining c in (s.position, s.pnl ⊖ s.fees)

  -- `_unrealized`
  unfoldable pub unrealized_of : Option (SimPosition D) → D → D
  unrealized_of none price = nought
  unrealized_of (some p) price = (price ⊖ p.entry) ⊗ p.remaining ⊗ direction_of p.side

  -- `_apply_funding`
  unfoldable pub apply_funding : SimPosition D → ℕ → BacktestConfig D → D
  apply_funding p index c =
      if index % 32 == 0 then p.entry ⊗ p.remaining ⊗ c.estimated_funding_rate else nought
