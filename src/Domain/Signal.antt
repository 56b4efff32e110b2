-- ===== src/Domain/Signal.antt =====
-- `TradeSignal` of domain/models.py, and its validator.
use ai_coinletgo.Prelude.{ℕ, ◌≡◌, true, ◌&&◌, Option, none, some, List, if◌then◌else◌}
use ai_coinletgo.Prelude.Text.{Text}
use ai_coinletgo.Decimal.{Decimal, ◌≺◌, nought, two, ◌⊕◌, ◌⊘◌}
use ai_coinletgo.Domain.Enums.{SignalAction, no_trade, open_long}

pub record TradeSignal (D : Type 0) : Type 0 where
  pub signal_id : Text
  pub symbol : Text
  pub action : SignalAction
  pub confidence : D
  pub entry_min : Option D
  pub entry_max : Option D
  pub invalidation_price : Option D
  pub target_price : Option D
  pub horizon_minutes : ℕ
  pub reason_codes : List Text
  pub risk_flags : List Text
  pub expires_at : ℕ

-- The messages of the validator's `ValueError`s.
pub data SignalError : Type 0 where
  prices_missing entry_range_reversed long_ordering_invalid short_ordering_invalid : SignalError

module _ {D : Type 0} ⦃d : Decimal D⦄ where
  -- The checks on the four prices of a signal that opens a position.
  unfoldable pub validate_open :
      SignalAction → Option D → Option D → Option D → Option D → Option SignalError
  validate_open action (some lo) (some hi) (some stop) (some target) =
      if hi ≺ lo then some entry_range_reversed else elim action [
        | open_long ↦
            if (stop ≺ (lo ⊕ hi) ⊘ two) && ((lo ⊕ hi) ⊘ two ≺ target)
            then none
            else some long_ordering_invalid
        | _ ↦
            if (target ≺ (lo ⊕ hi) ⊘ two) && ((lo ⊕ hi) ⊘ two ≺ stop)
            then none
            else some short_ordering_invalid
      ]
  validate_open action _ _ _ _ = some prices_missing

  -- `none` accepts the signal.
  unfoldable pub validate_trade_fields : TradeSignal D → Option SignalError
  unfolding validate_open
  validate_trade_fields s = elim s.action [
    | no_trade ↦ none
    | _ ↦ validate_open s.action s.entry_min s.entry_max s.invalidation_price s.target_price
  ]

  -- `Field(gt=0)` on an optional price.
  abbrev pub IsPriceOption : Option D → Type 0
  IsPriceOption none = Unit
  IsPriceOption (some p) = (nought ≺ p) ≡ true

  pub record IsSignal (s : TradeSignal D) : Type 0 where
    pub entry_min_pos : IsPriceOption s.entry_min
    pub entry_max_pos : IsPriceOption s.entry_max
    pub stop_pos : IsPriceOption s.invalidation_price
    pub target_pos : IsPriceOption s.target_price
    pub validated : validate_trade_fields s ≡ none
