-- ===== src/Domain/Enums.antt =====
-- domain/enums.py, and the `Literal` types of domain/models.py. Equality goes by a code, which
-- stands for the enum's text.
use ai_coinletgo.Prelude.{ℕ, ◌≡◌, ◌↔◌, Bool, true, arith, Eq, nat_beq}

pub data SystemMode : Type 0 where
  testnet live_locked live_enabled paused risk_halted reconciliation_required : SystemMode

pub data PositionSide : Type 0 where
  long short : PositionSide

pub data SignalAction : Type 0 where
  no_trade open_long open_short : SignalAction

pub data DecisionStatus : Type 0 where
  approved rejected : DecisionStatus

pub data OrderStatus : Type 0 where
  created submitted partially_filled filled canceled order_rejected expired : OrderStatus

-- `Literal["TRENDING", "RANGING", "VOLATILE", "UNCERTAIN"]`
pub data Regime : Type 0 where
  trending ranging volatile uncertain : Regime

-- `Literal[-1, 0, 1]`
pub data Trend : Type 0 where
  down level up : Trend

-- `Literal["both", "long_only", "short_only"]`
pub data EntryDirection : Type 0 where
  both long_only short_only : EntryDirection

-- `Literal["breakout_or_pullback", "breakout_only", "pullback_only"]`
pub data EntryTrigger : Type 0 where
  breakout_or_pullback breakout_only pullback_only : EntryTrigger

-- `Literal["ACTIVE", "SHADOW", "FALLBACK", "DISABLED"]`
pub data PolicyStatus : Type 0 where
  active shadow fallback disabled : PolicyStatus

abbrev mode_code : SystemMode → ℕ
mode_code testnet = 0
mode_code live_locked = 1
mode_code live_enabled = 2
mode_code paused = 3
mode_code risk_halted = 4
mode_code reconciliation_required = 5

abbrev pub mode_beq : SystemMode → SystemMode → Bool
mode_beq a b = nat_beq (mode_code a) (mode_code b)

pub mode_beq_iff : (a b : SystemMode) → (mode_beq a b ≡ true) ↔ (a ≡ b)
mode_beq_iff a b = ground arith

instance abbrev pub mode_eq : Eq SystemMode
mode_eq = record { beq = mode_beq; beq_iff = mode_beq_iff }

abbrev side_code : PositionSide → ℕ
side_code long = 0
side_code short = 1

abbrev pub side_beq : PositionSide → PositionSide → Bool
side_beq a b = nat_beq (side_code a) (side_code b)

pub side_beq_iff : (a b : PositionSide) → (side_beq a b ≡ true) ↔ (a ≡ b)
side_beq_iff a b = ground arith

instance abbrev pub side_eq : Eq PositionSide
side_eq = record { beq = side_beq; beq_iff = side_beq_iff }

abbrev action_code : SignalAction → ℕ
action_code no_trade = 0
action_code open_long = 1
action_code open_short = 2

abbrev pub action_beq : SignalAction → SignalAction → Bool
action_beq a b = nat_beq (action_code a) (action_code b)

pub action_beq_iff : (a b : SignalAction) → (action_beq a b ≡ true) ↔ (a ≡ b)
action_beq_iff a b = ground arith

instance abbrev pub action_eq : Eq SignalAction
action_eq = record { beq = action_beq; beq_iff = action_beq_iff }

abbrev status_code : OrderStatus → ℕ
status_code created = 0
status_code submitted = 1
status_code partially_filled = 2
status_code filled = 3
status_code canceled = 4
status_code order_rejected = 5
status_code expired = 6

abbrev pub status_beq : OrderStatus → OrderStatus → Bool
status_beq a b = nat_beq (status_code a) (status_code b)

pub status_beq_iff : (a b : OrderStatus) → (status_beq a b ≡ true) ↔ (a ≡ b)
status_beq_iff a b = ground arith

instance abbrev pub status_eq : Eq OrderStatus
status_eq = record { beq = status_beq; beq_iff = status_beq_iff }

abbrev regime_code : Regime → ℕ
regime_code trending = 0
regime_code ranging = 1
regime_code volatile = 2
regime_code uncertain = 3

abbrev pub regime_beq : Regime → Regime → Bool
regime_beq a b = nat_beq (regime_code a) (regime_code b)

pub regime_beq_iff : (a b : Regime) → (regime_beq a b ≡ true) ↔ (a ≡ b)
regime_beq_iff a b = ground arith

instance abbrev pub regime_eq : Eq Regime
regime_eq = record { beq = regime_beq; beq_iff = regime_beq_iff }

abbrev trend_code : Trend → ℕ
trend_code down = 0
trend_code level = 1
trend_code up = 2

abbrev pub trend_beq : Trend → Trend → Bool
trend_beq a b = nat_beq (trend_code a) (trend_code b)

pub trend_beq_iff : (a b : Trend) → (trend_beq a b ≡ true) ↔ (a ≡ b)
trend_beq_iff a b = ground arith

instance abbrev pub trend_eq : Eq Trend
trend_eq = record { beq = trend_beq; beq_iff = trend_beq_iff }
