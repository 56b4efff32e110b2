-- ===== src/Hft/Signal.antt =====
-- hft/signal.py: `HftSignalEngine`, and `HftSignal` of hft/models.py.
use ai_coinletgo.Prelude.{◌≡◌, ◌↔◌, true, ◌&&◌, if◌then◌else◌, Eq, arith}
use ai_coinletgo.Prelude.Text.{Text}
use ai_coinletgo.Prelude.Result.{Result, ok, err}
use ai_coinletgo.Decimal.{Decimal, ◌≼◌, ◌≺◌, nought, one, minus, abs, min}
use ai_coinletgo.Decimal.Laws.{IsRounded, lt-le}
use ai_coinletgo.Hft.OrderBook.{DiffOrderBook, HftBookMetrics, BookError, min_depth_usdt, metrics}

-- `Literal["BUY", "SELL", "HOLD"]`
pub data HftAction : Type 0 where
  buy sell hold : HftAction

pub data SignalReason : Type 0 where
  spread_too_wide insufficient_two_sided_depth bid_imbalance_microprice_up : SignalReason
  ask_imbalance_microprice_down imbalance_below_threshold : SignalReason

pub record HftSignal (D : Type 0) : Type 0 where
  pub symbol : Text
  pub action : HftAction
  pub score : D
  pub reason : SignalReason
  pub book : HftBookMetrics D

pub record HftSignalEngine (D : Type 0) : Type 0 where
  pub imbalance_threshold : D
  pub max_spread_pct : D
  pub min_depth_usdt : D

module _ {D : Type 0} ⦃d : Decimal D⦄ where
  -- `evaluate`, from the metrics of the book.
  unfoldable pub judge : HftSignalEngine D → HftBookMetrics D → HftSignal D
  judge engine m =
      if engine.max_spread_pct ≺ m.spread_pct
      then record {
        symbol = m.symbol;
        action = hold;
        score = nought;
        reason = spread_too_wide;
        book = m;
      }
      else if min_depth_usdt m ≺ engine.min_depth_usdt
      then record {
        symbol = m.symbol;
        action = hold;
        score = nought;
        reason = insufficient_two_sided_depth;
        book = m;
      }
      else if (engine.imbalance_threshold ≼ m.imbalance) && (m.mid_price ≺ m.microprice)
      then record {
        symbol = m.symbol;
        action = buy;
        score = min one (abs m.imbalance);
        reason = bid_imbalance_microprice_up;
        book = m;
      }
      else if (m.imbalance ≼ minus engine.imbalance_threshold) && (m.microprice ≺ m.mid_price)
      then record {
        symbol = m.symbol;
        action = sell;
        score = min one (abs m.imbalance);
        reason = ask_imbalance_microprice_down;
        book = m;
      }
      else record {
        symbol = m.symbol;
        action = hold;
        score = abs m.imbalance;
        reason = imbalance_below_threshold;
        book = m;
      }

  abbrev pub judge_quote :
      HftSignalEngine D → Result BookError (HftBookMetrics D) → Result BookError (HftSignal D)
  judge_quote engine (err x) = err x
  judge_quote engine (ok m) = ok (judge engine m)

  module _ ⦃e : Eq D⦄ where
    unfoldable pub evaluate : HftSignalEngine D → DiffOrderBook D → Result BookError (HftSignal D)
    unfolding judge metrics
    evaluate engine book = judge_quote engine (metrics book)

  -- The market is tight and deep enough for the engine to act at all.
  abbrev pub IsTradable : HftSignalEngine D → HftBookMetrics D → Type 0
  IsTradable engine m =
      ((m.spread_pct ≼ engine.max_spread_pct) ≡ true)
      × ((engine.min_depth_usdt ≼ min_depth_usdt m) ≡ true)

  -- The engine buys exactly when the market is tradable, the imbalance reaches the threshold and the
  -- microprice is above the middle; it sells exactly in the mirrored case.
  pub judge_action :
      IsRounded D
      → (engine : HftSignalEngine D) (m : HftBookMetrics D)
      → (((judge engine m).action ≡ buy) ↔ (
          IsTradable engine m
          × ((engine.imbalance_threshold ≼ m.imbalance) ≡ true)
          × ((m.mid_price ≺ m.microprice) ≡ true)))
        × (((judge engine m).action ≡ sell) ↔ (
            IsTradable engine m
            × ((m.imbalance ≼ minus engine.imbalance_threshold) ≡ true)
            × ((m.microprice ≺ m.mid_price) ≡ true)))
  unfolding judge
  judge_action laws engine m =
      ground (arith, lt-le laws m.mid_price m.microprice, lt-le laws m.microprice m.mid_price)
