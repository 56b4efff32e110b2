-- ===== src/Backtest/Lifecycle.antt =====
-- backtest/engine.py: what each step of `_manage` keeps true of a simulated position.
use ai_coinletgo.Prelude.{arith, ◌≡◌, refl, true, false, not, ◌&&◌, inl, inr, Bool-cases}
use ai_coinletgo.Decimal.{Decimal, ◌≼◌, ◌≺◌, nought, two, ◌⊖◌, ◌⊗◌, min}
use ai_coinletgo.Decimal.Laws.{
  IsRounded, le-add_left, sub-le, sub_nonneg, min-le_left, min-le_right, le-max_left,
}
use ai_coinletgo.Domain.Enums.{PositionSide, long, short}
use ai_coinletgo.Domain.Market.{Candle}
use ai_coinletgo.Strategy.ExitPolicy.{Reading, breakeven_stop, trailing_stop}
use ai_coinletgo.Backtest.Simulation.{
  SimPosition, BacktestConfig, Managed, take_profit_fraction, realize, target_hit, manage_first,
  manage_second, manage_trailing,
}

module _ {D : Type 0} ⦃d : Decimal D⦄ where
  -- Of two levels, the second protects a position at least as much as the first.
  abbrev pub Protects : PositionSide → D → D → Type 0
  Protects long stop level = (stop ≼ level) ≡ true
  Protects short stop level = (level ≼ stop) ≡ true

  -- A position as the engine holds it: the stop has not crossed the entry until the first target is hit.
  pub record IsSim (p : SimPosition D) : Type 0 where
    pub remaining_nonneg : (nought ≼ p.remaining) ≡ true
    pub remaining_le : (p.remaining ≼ p.quantity) ≡ true
    pub entry_nonneg : (nought ≼ p.entry) ≡ true
    pub hits : p.tp2_hit ≡ true → p.tp1_hit ≡ true
    pub guarded : p.tp1_hit ≡ false → Protects p.side p.stop p.entry

  -- From one position to a later one: still sound, and never exposed to more.
  pub record IsKept (start p : SimPosition D) : Type 0 where
    pub sound : IsSim p
    pub side : p.side ≡ start.side
    pub entry : p.entry ≡ start.entry
    pub quantity : p.quantity ≡ start.quantity
    pub remaining : (p.remaining ≼ start.remaining) ≡ true
    pub stop : Protects p.side start.stop p.stop

  module _ (laws : IsRounded D) where
    open laws use {le_refl, le_trans, le_antisymm, lit_nonneg, mul_nonneg, sub_self}

    pub Protects-refl : (side : PositionSide) (stop : D) → Protects side stop stop
    Protects-refl long stop = le_refl stop
    Protects-refl short stop = le_refl stop

    pub Protects_trans :
        (side : PositionSide) (a b c : D)
        → Protects side a b
        → Protects side b c
        → Protects side a c
    Protects_trans long a b c h k = le_trans a b c h k
    Protects_trans short a b c h k = le_trans c b a k h

    breakeven_stop-Protects :
        (side : PositionSide) (entry rate : D)
        → (nought ≼ entry) ≡ true
        → (nought ≼ rate) ≡ true
        → Protects side entry (breakeven_stop entry side rate)
    unfolding breakeven_stop
    breakeven_stop-Protects long entry rate h k =
        le-add_left laws entry (entry ⊗ rate) (mul_nonneg entry rate h k)
    breakeven_stop-Protects short entry rate h k =
        sub-le laws entry (entry ⊗ rate) (mul_nonneg entry rate h k)

    trailing_stop-Protects :
        (side : PositionSide) (stop : D) (r : Reading D) (multiple : D)
        → Protects side stop (trailing_stop stop side r multiple)
    unfolding trailing_stop
    trailing_stop-Protects long stop r multiple = le-max_left laws stop _
    trailing_stop-Protects short stop r multiple = min-le_left laws stop _

    -- What is left after a part of it is realized.
    rest_bounds :
        (asked remaining : D)
        → (nought ≼ asked) ≡ true
        → (nought ≼ remaining) ≡ true
        → ((nought ≼ remaining ⊖ min asked remaining) ≡ true)
          × ((remaining ⊖ min asked remaining ≼ remaining) ≡ true)
    rest_bounds asked remaining h k = (
      sub_nonneg laws (min asked remaining) remaining (min-le_right laws asked remaining),
      sub-le laws remaining (min asked remaining) (ground arith),
    )

    pub realize-IsKept :
        (start p : SimPosition D) (price asked : D) (c : BacktestConfig D)
        → (nought ≼ asked) ≡ true
        → IsKept start p
        → IsKept start (Managed.position (realize p price asked c))
    unfolding realize
    realize-IsKept start p price asked c h k =
        let sim = k.sound in
        let rest = rest_bounds asked p.remaining h sim.remaining_nonneg in
        record {
          sound = record {
            remaining_nonneg = rest.0;
            remaining_le = le_trans _ p.remaining p.quantity rest.1 sim.remaining_le;
            entry_nonneg = sim.entry_nonneg;
            hits = sim.hits;
            guarded = sim.guarded;
          };
          side = k.side;
          entry = k.entry;
          quantity = k.quantity;
          remaining = le_trans _ p.remaining start.remaining rest.1 k.remaining;
          stop = k.stop;
        }

    portion_nonneg :
        (p : SimPosition D) → IsSim p → (nought ≼ p.quantity ⊗ take_profit_fraction) ≡ true
    portion_nonneg p sim =
        mul_nonneg p.quantity take_profit_fraction
          (le_trans nought p.remaining p.quantity sim.remaining_nonneg sim.remaining_le)
          (lit_nonneg 4 1)

    pub manage_first-IsKept :
        (start : SimPosition D) (candle : Candle D) (c : BacktestConfig D) (s : Managed D)
        → (nought ≼ c.fee_rate) ≡ true
        → IsKept start s.position
        → IsKept start (Managed.position (manage_first candle c s))
    unfolding manage_first realize
    manage_first-IsKept start candle c s fee k =
        let p = s.position in
        elim (Bool-cases (not p.tp1_hit && target_hit p.side candle p.tp1)) [
          | inr waits ↦ rw waits k
          | inl hit ↦
              let sim = k.sound in
              let portion = p.quantity ⊗ take_profit_fraction in
              let r = realize-IsKept start p p.tp1 portion c (portion_nonneg p sim) k in
              let after = r.sound in
              let level = breakeven_stop p.entry p.side (c.fee_rate ⊗ two) in
              let kept =
                Protects_trans p.side start.stop p.stop p.entry k.stop
                  (sim.guarded (ground (arith, hit))) in
              rw hit (record {
                sound = record {
                  remaining_nonneg = after.remaining_nonneg;
                  remaining_le = after.remaining_le;
                  entry_nonneg = sim.entry_nonneg;
                  hits = λ h. refl;
                  guarded = λ h. cc;
                };
                side = k.side;
                entry = k.entry;
                quantity = k.quantity;
                remaining = r.remaining;
                stop = Protects_trans p.side start.stop p.entry level kept (
                    breakeven_stop-Protects p.side p.entry (c.fee_rate ⊗ two) sim.entry_nonneg
                      (mul_nonneg c.fee_rate two fee (lit_nonneg 2 0)));
              })
        ]

    pub manage_second-IsKept :
        (start : SimPosition D) (candle : Candle D) (c : BacktestConfig D) (s : Managed D)
        → IsKept start s.position
        → IsKept start (Managed.position (manage_second candle c s))
    unfolding manage_second realize
    manage_second-IsKept start candle c s k =
        let p = s.position in
        elim (Bool-cases (p.tp1_hit && not p.tp2_hit && target_hit p.side candle p.tp2)) [
          | inr waits ↦ rw waits k
          | inl hit ↦
              let sim = k.sound in
              let portion = min (p.quantity ⊗ take_profit_fraction) p.remaining in
              let some_left = sim.remaining_nonneg in
              let enough = portion_nonneg p sim in
              let r =
                realize-IsKept start p p.tp2 portion c (ground (arith, enough, some_left)) k in
              let after = r.sound in
              rw hit (record {
                sound = record {
                  remaining_nonneg = after.remaining_nonneg;
                  remaining_le = after.remaining_le;
                  entry_nonneg = sim.entry_nonneg;
                  hits = λ h. ground (arith, hit);
                  guarded = sim.guarded;
                };
                side = k.side;
                entry = k.entry;
                quantity = k.quantity;
                remaining = r.remaining;
                stop = k.stop;
              })
        ]

    pub manage_trailing-IsKept :
        (start : SimPosition D) (current_atr : D) (c : BacktestConfig D) (s : Managed D)
        → IsKept start s.position
        → IsKept start (Managed.position (manage_trailing current_atr c s))
    unfolding manage_trailing
    manage_trailing-IsKept start current_atr c s k =
        let p = s.position in
        elim (Bool-cases (p.tp2_hit && (nought ≺ p.remaining) && (nought ≺ current_atr))) [
          | inr still ↦ rw still k
          | inl trails ↦
              let sim = k.sound in
              let r : Reading D = record {
                highest = p.highest;
                lowest = p.lowest;
                atr = current_atr;
              } in
              rw trails (record {
                sound = record {
                  remaining_nonneg = sim.remaining_nonneg;
                  remaining_le = sim.remaining_le;
                  entry_nonneg = sim.entry_nonneg;
                  hits = sim.hits;
                  guarded = λ h. ground (arith, trails, sim.hits);
                };
                side = k.side;
                entry = k.entry;
                quantity = k.quantity;
                remaining = k.remaining;
                stop =
                    Protects_trans p.side start.stop p.stop
                      (trailing_stop p.stop p.side r c.trailing_atr) k.stop
                      (trailing_stop-Protects p.side p.stop r c.trailing_atr);
              })
        ]
