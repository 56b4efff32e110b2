-- ===== src/Hft/Risk.antt =====
-- hft/risk.py: `HftRiskManager`, and `HftRiskDecision` of hft/models.py. Times are whole ticks of the
-- monotonic clock, and an age `now - then` is compared as `now` with a sum.
pub mod Checks
use ai_coinletgo.Prelude.{
  ℕ, ◌+◌, Bool, true, false, not, ◌&&◌, Option, none, some, if◌then◌else◌, ltb, leb,
}
use ai_coinletgo.Prelude.Text.{Text}
use ai_coinletgo.Decimal.{Decimal, ◌≼◌, ◌≺◌, same, nought, ◌⊕◌, ◌⊖◌, ◌⊗◌, ◌⊘◌, minus, abs, min}
use ai_coinletgo.Hft.Signal.{HftAction, buy, sell, hold, HftSignal}

pub data RiskReason : Type 0 where
  no_actionable_signal consecutive_loss_circuit_breaker market_data_stale : RiskReason
  cooldown_active invalid_order_notional risk_passed max_inventory_reached : RiskReason
  risk_passed_with_inventory_cap : RiskReason

pub record HftRiskDecision (D : Type 0) : Type 0 where
  pub allowed : Bool
  pub quantity : D
  pub reason : RiskReason

pub record HftRiskManager (D : Type 0) : Type 0 where
  pub max_inventory_usdt : D
  pub cooldown : ℕ
  pub market_stale : ℕ
  pub max_consecutive_losses : ℕ
  pub last_trade_monotonic : Option ℕ
  pub consecutive_losses : ℕ
  pub halted : Bool

-- `now - then < span` for a recorded trade.
abbrev pub within : Option ℕ → ℕ → ℕ → Bool
within none now span = false
within (some then_at) now span = ltb now (then_at + span)

module _ {D : Type 0} ⦃d : Decimal D⦄ where
  unfoldable pub update_limits : HftRiskManager D → D → ℕ → ℕ → ℕ → HftRiskManager D
  update_limits r inventory cooldown stale losses = record r {
    max_inventory_usdt = inventory;
    cooldown = cooldown;
    market_stale = stale;
    max_consecutive_losses = losses;
    halted = if ltb r.consecutive_losses losses then false else r.halted;
  }

  abbrev pub deny : RiskReason → HftRiskDecision D
  deny reason = record { allowed = false; quantity = nought; reason = reason }

  -- The side of the book that the order takes.
  abbrev pub price_of : HftSignal D → D
  price_of s = elim s.action [ buy ↦ s.book.best_ask | _ ↦ s.book.best_bid ]

  abbrev pub signed_of : HftAction → D → D
  signed_of buy q = q
  signed_of sell q = minus q
  signed_of hold q = minus q

  -- What the inventory cap leaves for the order, in quote units. Reducing a position is free up to
  -- flat, and only the rest counts towards the cap.
  unfoldable pub allowable_notional : HftRiskManager D → HftSignal D → D → D → D
  allowable_notional r s inventory signed =
      let current = abs (inventory ⊗ price_of s) in
      if not (same inventory nought) && (nought ≺ inventory ⊗ signed)
      then r.max_inventory_usdt ⊖ current
      else r.max_inventory_usdt ⊕ current

  -- The sizing half of `check`, below its guards.
  unfoldable pub size : HftRiskManager D → HftSignal D → D → D → HftRiskDecision D
  unfolding allowable_notional
  size r s inventory notional =
      let price = price_of s in
      let desired = notional ⊘ price in
      let signed = signed_of s.action desired in
      let allowable = allowable_notional r s inventory signed in
      let reduced = min desired (allowable ⊘ price) in
      if abs ((inventory ⊕ signed) ⊗ price) ≼ r.max_inventory_usdt
      then record { allowed = true; quantity = desired; reason = risk_passed }
      else if allowable ≼ nought
      then deny max_inventory_reached
      else if reduced ≼ nought
      then deny max_inventory_reached
      else record { allowed = true; quantity = reduced; reason = risk_passed_with_inventory_cap }

  unfoldable pub guarded : HftRiskManager D → HftSignal D → D → D → ℕ → HftRiskDecision D
  unfolding size
  guarded r s inventory notional now =
      if r.halted
      then deny consecutive_loss_circuit_breaker
      else if ltb 0 s.book.received_monotonic
          && ltb (s.book.received_monotonic + r.market_stale) now
      then deny market_data_stale
      else if within r.last_trade_monotonic now r.cooldown
      then deny cooldown_active
      else if notional ≼ nought
      then deny invalid_order_notional
      else size r s inventory notional

  unfoldable pub check : HftRiskManager D → HftSignal D → D → D → ℕ → HftRiskDecision D
  unfolding guarded
  check r s inventory notional now = elim s.action [
    | hold ↦ deny no_actionable_signal
    | _ ↦ guarded r s inventory notional now
  ]

  -- The clock is read where the source calls it.
  unfoldable pub record_fill : HftRiskManager D → D → D → ℕ → HftRiskManager D
  record_fill r closed pnl now =
      if closed ≼ nought
      then r
      else if pnl ≼ nought
      then record r {
        last_trade_monotonic = some now;
        consecutive_losses = r.consecutive_losses + 1;
        halted = if leb r.max_consecutive_losses (r.consecutive_losses + 1) then true else r.halted;
      }
      else record r { last_trade_monotonic = some now; consecutive_losses = 0 }

  unfoldable pub record_opening_fill : HftRiskManager D → ℕ → HftRiskManager D
  record_opening_fill r now = record r { last_trade_monotonic = some now }
