-- ===== src/Backtest/Life.antt =====
-- backtest/engine.py: what every candle, and every run of candles, keeps true of a simulated position.
use ai_coinletgo.Prelude.{
  arith, ◌≡◌, refl, ◌∙◌, sym, subst, List, [], ◌∷◌, true, false, ◌↔◌, inl, inr, Bool-cases,
  if◌then◌else◌,
}
use ai_coinletgo.Decimal.{Decimal, ◌≼◌, nought}
use ai_coinletgo.Decimal.Laws.{IsRounded}
use ai_coinletgo.Domain.Market.{Candle}
use ai_coinletgo.Backtest.Simulation.{
  SimPosition, BacktestConfig, Managed, realize, stop_hit, with_extremes, manage_first,
  manage_second, manage_trailing, concluded, manage, close_remaining,
}
use ai_coinletgo.Backtest.Lifecycle.{
  Protects, IsSim, IsKept, Protects-refl, Protects_trans, realize-IsKept, manage_first-IsKept,
  manage_second-IsKept, manage_trailing-IsKept,
}

module _ {D : Type 0} ⦃d : Decimal D⦄ where
  -- A position through a run of candles, each with its ATR, until it is closed.
  abbrev pub lived : SimPosition D → BacktestConfig D → List (Candle D × D) → SimPosition D
  lived p c [] = p
  lived p c ((candle, current_atr) ∷ rest) =
      let s = manage p candle current_atr c in
      let later = lived s.position c rest in if s.closed then s.position else later

  module _ (laws : IsRounded D) where
    open laws use {le_refl, le_trans, le_antisymm, sub_self}

    extremes-IsKept :
        (p : SimPosition D) (candle : Candle D) → IsSim p → IsKept p (with_extremes p candle)
    extremes-IsKept p candle sim = record {
      sound = record {
        remaining_nonneg = sim.remaining_nonneg;
        remaining_le = sim.remaining_le;
        entry_nonneg = sim.entry_nonneg;
        hits = sim.hits;
        guarded = sim.guarded;
      };
      side = refl;
      entry = refl;
      quantity = refl;
      remaining = le_refl p.remaining;
      stop = Protects-refl laws p.side p.stop;
    }

    -- A close of all that remains leaves nothing.
    realize_all :
        (p : SimPosition D) (price : D) (c : BacktestConfig D)
        → SimPosition.remaining (Managed.position (realize p price p.remaining c)) ≡ nought
    unfolding realize
    realize_all p price c = ground (arith, le_refl p.remaining, sub_self p.remaining)

    -- What a candle leaves of a position, and when it is said to be closed.
    abbrev IsManaged : SimPosition D → Managed D → Type 0
    IsManaged start s =
        IsKept start s.position × ((s.closed ≡ true) ↔ (SimPosition.remaining s.position ≡ nought))

    concluded-IsManaged :
        (start : SimPosition D) (s : Managed D)
        → IsKept start s.position
        → IsManaged start (concluded s)
    concluded-IsManaged start s k =
        let p = s.position in
        let sim = k.sound in
        (
          k,
          (
            λ h. le_antisymm p.remaining nought h sim.remaining_nonneg,
            λ h. ground (arith, le_refl nought, h),
          ),
        )

    -- Whatever a candle brings, the engine keeps a position sound: between nothing and its quantity remains,
    -- never more than before, the second target is hit only after the first, and the stop never loosens, the
    -- move to breakeven and the trailing included. It reports the position closed exactly if nothing remains.
    -- The fee rate must not be negative.
    pub manage-IsKept :
        (p : SimPosition D) (candle : Candle D) (current_atr : D) (c : BacktestConfig D)
        → (nought ≼ c.fee_rate) ≡ true
        → IsSim p
        → IsManaged p (manage p candle current_atr c)
    unfolding manage
    manage-IsKept position candle current_atr c fee sim =
        let p = with_extremes position candle in
        let start : Managed D = record {
          position = p;
          pnl = nought;
          closed = false;
          fees = nought;
        } in
        let k = extremes-IsKept position candle sim in
        elim (Bool-cases (stop_hit p.side candle p.stop)) [
          | inl stopped ↦ rw stopped (
            realize-IsKept laws position p p.stop p.remaining c sim.remaining_nonneg k,
            (λ h. realize_all p p.stop c, λ h. refl),
          )
          | inr runs ↦
              let first = manage_first candle c start in
              let second = manage_second candle c first in
              let third = manage_trailing current_atr c second in
              rw runs (
                concluded-IsManaged position third (
                  manage_trailing-IsKept laws position current_atr c second (
                    manage_second-IsKept laws position candle c first
                      (manage_first-IsKept laws position candle c start fee k))))
        ]

    -- A close of the rest leaves nothing, and the proceeds are the realized profit less the fee.
    pub close_remaining-leaves_nothing :
        (p : SimPosition D) (price : D) (c : BacktestConfig D)
        → SimPosition.remaining (close_remaining p price c).0 ≡ nought
    unfolding close_remaining
    close_remaining-leaves_nothing p price c = realize_all p price c

    IsKept-trans : (a b e : SimPosition D) → IsKept a b → IsKept b e → IsKept a e
    IsKept-trans a b e h k = record {
      sound = k.sound;
      side = k.side ∙ h.side;
      entry = k.entry ∙ h.entry;
      quantity = k.quantity ∙ h.quantity;
      remaining = le_trans e.remaining b.remaining a.remaining k.remaining h.remaining;
      stop =
          Protects_trans laws e.side a.stop b.stop e.stop
            (subst (λ side. Protects side a.stop b.stop) (sym k.side) h.stop) k.stop;
    }

    -- Over any run of candles the position stays sound, what remains never grows and the stop never loosens.
    pub lived-IsKept :
        (p : SimPosition D) (c : BacktestConfig D) (run : List (Candle D × D))
        → (nought ≼ c.fee_rate) ≡ true
        → IsSim p
        → IsKept p (lived p c run)
    lived-IsKept p c [] fee sim = record {
      sound = sim;
      side = refl;
      entry = refl;
      quantity = refl;
      remaining = le_refl p.remaining;
      stop = Protects-refl laws p.side p.stop;
    }
    lived-IsKept p c ((candle, current_atr) ∷ rest) fee sim =
        let s = manage p candle current_atr c in
        let step = manage-IsKept p candle current_atr c fee sim in
        let k = step.0 in
        elim (Bool-cases s.closed) [
          | inl closed ↦ rw closed k
          | inr still ↦ rw still (
              IsKept-trans p s.position (lived s.position c rest) k
                (lived-IsKept s.position c rest fee k.sound))
        ]
