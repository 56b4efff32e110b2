-- ===== src/Hft/Risk/Checks.antt =====
-- What an allowed decision of hft/risk.py rests on, and the loss breaker.
use ai_coinletgo.Prelude.{
  ℕ, ◌+◌, ◌≡◌, ◌≢◌, ◌⊎◌, true, false, List, [], ◌∷◌, All, length, ltb, leb, arith, ◌<◌, ap, ◌∙◌,
  refl, Bool-cases, inl, inr,
}
use native.Mathlib.Nat.{add-zero}
use ai_coinletgo.Decimal.{Decimal, ◌≼◌, ◌≺◌, nought, ◌⊕◌, ◌⊖◌, ◌⊗◌, ◌⊘◌, minus, abs}
use ai_coinletgo.Decimal.Laws.{
  IsRounded, min-le_left, min-le_right, lt-le, minus_neg, mul_negs, mul_nonneg_nonpos,
  mul_nonpos_nonneg,
}
use ai_coinletgo.Hft.Signal.{HftAction, buy, sell, hold, HftSignal}
use ai_coinletgo.Hft.Risk.{
  HftRiskManager, within, price_of, signed_of, allowable_notional, size, guarded, check,
  record_fill,
}

-- A fill as the runner records it: what it closed and what it earned, with the clock's reading.
abbrev pub Recorded : Type 0 → Type 0
Recorded D = D × D × ℕ

module _ {D : Type 0} ⦃d : Decimal D⦄ where
  -- The order adds to what is held, or is against it or meets a flat position.
  abbrev pub Adds : HftAction → D → Type 0
  Adds buy inventory = (nought ≺ inventory) ≡ true
  Adds sell inventory = (inventory ≺ nought) ≡ true
  Adds hold inventory = ⊥

  abbrev pub Reduces : HftAction → D → Type 0
  Reduces buy inventory = (inventory ≼ nought) ≡ true
  Reduces sell inventory = (nought ≼ inventory) ≡ true
  Reduces hold inventory = ⊥

  -- The quantity of a decision respects the inventory cap: the inventory after the whole order is
  -- within it; or the order adds to the inventory, and is at most what the cap leaves beside it; or it
  -- does not, and is at most the inventory and the cap together, which a fill to flat and one from
  -- there up to the cap make. The last two are in units of the product, at the order's price.
  abbrev pub IsCapped : HftRiskManager D → HftSignal D → D → D → D → Type 0
  IsCapped r s inventory notional quantity =
      let price = price_of s in
      let held = abs (inventory ⊗ price) in
      let signed = signed_of s.action (notional ⊘ price) in
      ((quantity ≡ notional ⊘ price)
        × ((abs ((inventory ⊕ signed) ⊗ price) ≼ r.max_inventory_usdt) ≡ true))
      ⊎ ((Adds s.action inventory × (quantity ≼ (r.max_inventory_usdt ⊖ held) ⊘ price) ≡ true)
          ⊎ (Reduces s.action inventory
              × (quantity ≼ (r.max_inventory_usdt ⊕ held) ⊘ price) ≡ true))

  -- The same, by the code's own allowance.
  abbrev IsAllowed : HftRiskManager D → HftSignal D → D → D → D → Type 0
  IsAllowed r s inventory notional quantity =
      let price = price_of s in
      let signed = signed_of s.action (notional ⊘ price) in
      ((quantity ≡ notional ⊘ price)
        × ((abs ((inventory ⊕ signed) ⊗ price) ≼ r.max_inventory_usdt) ≡ true))
      ⊎ ((quantity ≼ allowable_notional r s inventory signed ⊘ price) ≡ true)

  pub record IsCleared (r : HftRiskManager D) (s : HftSignal D) (inventory notional quantity : D)
      (now : ℕ) : Type 0 where
    pub acts : s.action ≢ hold
    pub running : r.halted ≡ false
    pub fresh :
        (s.book.received_monotonic ≡ 0)
        ⊎ (ltb (s.book.received_monotonic + r.market_stale) now ≡ false)
    pub cooled : within r.last_trade_monotonic now r.cooldown ≡ false
    pub positive : (nought ≺ quantity) ≡ true
    pub bounded : (quantity ≼ notional ⊘ price_of s) ≡ true
    pub capped : IsCapped r s inventory notional quantity

  module _ (laws : IsRounded D) where
    open laws use {le_refl, le_total, div_pos, mul_pos}

    size_lem :
        (r : HftRiskManager D) (s : HftSignal D) (inventory notional : D)
        → (nought ≺ price_of s) ≡ true
        → (nought ≺ notional) ≡ true
        → (size r s inventory notional).allowed ≡ true
        → let quantity = (size r s inventory notional).quantity in
          ((nought ≺ quantity) ≡ true)
          × ((quantity ≼ notional ⊘ price_of s) ≡ true)
          × IsAllowed r s inventory notional quantity
    unfolding size
    size_lem r s inventory notional price_pos notional_pos h =
        let desired = notional ⊘ price_of s in
        let allowed = allowable_notional r s inventory (signed_of s.action desired) ⊘ price_of s in
        ground (
          arith,
          le_refl desired,
          div_pos notional (price_of s) notional_pos price_pos,
          min-le_left laws desired allowed,
          min-le_right laws desired allowed,
        )

    -- What the allowance is, by the side that the order takes.
    allowable_notional_sides :
        (r : HftRiskManager D) (s : HftSignal D) (inventory desired : D) (action : HftAction)
        → action ≢ hold
        → (nought ≺ desired) ≡ true
        → let held = abs (inventory ⊗ price_of s) in
          let allowable = allowable_notional r s inventory (signed_of action desired) in
          (Adds action inventory × (allowable ≡ r.max_inventory_usdt ⊖ held))
          ⊎ (Reduces action inventory × (allowable ≡ r.max_inventory_usdt ⊕ held))
    unfolding allowable_notional
    allowable_notional_sides r s inventory desired buy acts pos =
        elim (Bool-cases (nought ≺ inventory)) [
          | inl long ↦ inl (long, ground (arith, mul_pos inventory desired long pos))
          | inr not_long ↦
              let short : (inventory ≼ nought) ≡ true = ground arith in
              inr (
                short,
                rw (mul_nonpos_nonneg laws inventory desired short (lt-le laws nought desired pos))
                    (ground arith),
              )
        ]
    allowable_notional_sides r s inventory desired sell acts pos =
        let signed_neg : (minus desired ≺ nought) ≡ true = minus_neg laws desired pos in
        elim (Bool-cases (inventory ≺ nought)) [
          | inl short ↦ inl (
            short,
            ground (
              arith,
              mul_negs laws inventory (minus desired) short signed_neg,
              le_total inventory nought,
            ),
          )
          | inr not_short ↦
              let long : (nought ≼ inventory) ≡ true = ground arith in
              inr (
                long,
                rw
                    (mul_nonneg_nonpos laws inventory (minus desired) long
                      (lt-le laws (minus desired) nought signed_neg))
                    (ground arith),
              )
        ]
    allowable_notional_sides r s inventory desired hold acts pos = absurd (acts refl)

    IsAllowed-IsCapped :
        (r : HftRiskManager D) (s : HftSignal D) (inventory notional quantity : D)
        → s.action ≢ hold
        → (nought ≺ notional ⊘ price_of s) ≡ true
        → IsAllowed r s inventory notional quantity
        → IsCapped r s inventory notional quantity
    IsAllowed-IsCapped r s inventory notional quantity acts pos (inl whole) = inl whole
    IsAllowed-IsCapped r s inventory notional quantity acts pos (inr within_allowance) =
        elim (allowable_notional_sides r s inventory (notional ⊘ price_of s) s.action acts pos) [
          | inl (adds, e) ↦ inr (inl (adds, rw e at within_allowance))
          | inr (reduces, e) ↦ inr (inr (reduces, rw e at within_allowance))
        ]

    size-IsCapped :
        (r : HftRiskManager D) (s : HftSignal D) (inventory notional : D)
        → (nought ≺ price_of s) ≡ true
        → s.action ≢ hold
        → (nought ≺ notional) ≡ true
        → (size r s inventory notional).allowed ≡ true
        → let quantity = (size r s inventory notional).quantity in
          ((nought ≺ quantity) ≡ true)
          × ((quantity ≼ notional ⊘ price_of s) ≡ true)
          × IsCapped r s inventory notional quantity
    size-IsCapped r s inventory notional price_pos acts notional_pos h =
        let (positive, bounded, allowed) =
          size_lem r s inventory notional price_pos notional_pos h in
        (
          positive,
          bounded,
          IsAllowed-IsCapped r s inventory notional (size r s inventory notional).quantity acts
              (div_pos notional (price_of s) notional_pos price_pos) allowed,
        )

    -- An allowed decision was made for an acting signal on fresh data, with the breaker off and the
    -- cooldown over; its quantity is positive and no more than the order asks for. Either that is the whole order, and the
    -- inventory after it is within the cap; or the order adds to the inventory, and the quantity is at
    -- most what the cap leaves beside it; or it does not, and the quantity is at most the cap and the
    -- inventory together, both at the price of the order.
    pub check-IsCleared :
        (r : HftRiskManager D) (s : HftSignal D) (inventory notional : D) (now : ℕ)
        → (nought ≺ price_of s) ≡ true
        → (check r s inventory notional now).allowed ≡ true
        → IsCleared r s inventory notional (check r s inventory notional now).quantity now
    unfolding check guarded
    check-IsCleared r s inventory notional now price_pos h =
        ground (arith, size-IsCapped r s inventory notional price_pos)

  abbrev pub IsLosing : Recorded D → Type 0
  IsLosing (closed, pnl, now) = ((nought ≺ closed) ≡ true) × ((pnl ≼ nought) ≡ true)

  unfoldable pub record_fills : HftRiskManager D → List (Recorded D) → HftRiskManager D
  record_fills r [] = r
  record_fills r ((closed, pnl, now) ∷ rest) = record_fills (record_fill r closed pnl now) rest

  losing_step :
      (r : HftRiskManager D) (closed pnl : D) (now : ℕ)
      → IsLosing (closed, pnl, now)
      → r.halted ≡ leb r.max_consecutive_losses r.consecutive_losses
      → let r' = record_fill r closed pnl now in
        (r'.halted ≡ leb r'.max_consecutive_losses r'.consecutive_losses)
        × (r'.consecutive_losses ≡ r.consecutive_losses + 1)
        × (r'.max_consecutive_losses ≡ r.max_consecutive_losses)
  unfolding record_fill
  losing_step r closed pnl now losing tuned = ground arith

  losing_run :
      (r : HftRiskManager D) (fills : List (Recorded D))
      → All IsLosing fills
      → r.halted ≡ leb r.max_consecutive_losses r.consecutive_losses
      → (record_fills r fills).halted
        ≡ leb r.max_consecutive_losses (r.consecutive_losses + length fills)
  unfolding record_fills
  losing_run r [] losing tuned = rw (add-zero r.consecutive_losses) tuned
  losing_run r ((closed, pnl, now) ∷ rest) losing tuned =
      let (tuned', more, kept) = losing_step r closed pnl now losing.0 tuned in
      losing_run (record_fill r closed pnl now) rest losing.1 tuned'
      ∙ rw (more, kept) (ap (leb r.max_consecutive_losses) (omega arith))

  -- From a manager that has no loss on record, a run of losing closes trips the breaker exactly when
  -- the run is as long as the limit.
  pub losing_run_halts :
      (r : HftRiskManager D) (fills : List (Recorded D))
      → r.consecutive_losses ≡ 0
      → r.halted ≡ false
      → 0 < r.max_consecutive_losses
      → All IsLosing fills
      → (record_fills r fills).halted ≡ leb r.max_consecutive_losses (length fills)
  losing_run_halts r fills fresh running positive losing =
      losing_run r fills losing (ground arith)
      ∙ rw fresh (ap (leb r.max_consecutive_losses) (omega arith))

  -- No record of a fill clears the breaker: only new limits do.
  pub record_fills_stay_halted :
      (r : HftRiskManager D) (fills : List (Recorded D))
      → r.halted ≡ true
      → (record_fills r fills).halted ≡ true
  unfolding record_fills record_fill
  record_fills_stay_halted r [] h = h
  record_fills_stay_halted r ((closed, pnl, now) ∷ rest) h =
      record_fills_stay_halted (record_fill r closed pnl now) rest (still r closed pnl now h)
    where
      still :
          (r : HftRiskManager D) (closed pnl : D) (now : ℕ)
          → r.halted ≡ true
          → (record_fill r closed pnl now).halted ≡ true
      still r closed pnl now h = ground arith
