-- ===== src/Risk/Portfolio/Room.antt =====
-- `_validate_increase` of risk/portfolio.py: the room that an accepted action leaves under every limit.
use ai_coinletgo.Prelude.{
  ◌≡◌, refl, true, Option, none, some, List, [], ◌∷◌, inl, inr, ◌⊎◌, ◌+◌, ◌≤◌, arith, if◌then◌else◌,
  ◌==◌, length, All, Bool-cases,
}
use ai_coinletgo.Prelude.Text.{Text, text_eq}
use ai_coinletgo.Prelude.Dict.{keys}
use ai_coinletgo.Prelude.Result.{Result, ok, err, ok-injective}
use ai_coinletgo.Decimal.{Decimal, ◌≼◌, nought, ◌⊕◌, ◌⊖◌, ◌⊗◌, ◌⊘◌, abs, min, max}
use ai_coinletgo.Domain.Enums.{PositionSide}
use ai_coinletgo.Domain.Market.{MarketSnapshot}
use ai_coinletgo.Domain.Account.{AccountState}
use ai_coinletgo.Domain.Limits.{RiskLimits}
use ai_coinletgo.Domain.Portfolio.{
  PortfolioPlanActionType, PortfolioAllocation, PortfolioPlanAction,
}
use ai_coinletgo.Risk.Portfolio.Pricing.{reference_price}
use ai_coinletgo.Risk.Portfolio.Validation.{
  KeyError, Positions, is_open, is_add, or_else, addition_reason, same_direction, count_reason,
  correlation_of, correlated, correlation_reason, added_quantity, whole, held_margin, margin_after,
  margin_reason, margin_checked, exposure_reason, unless_exposed, validate_sided, validate_increase,
}

or_else-none : (a b : Option Text) → or_else a b ≡ none → (a ≡ none) × (b ≡ none)
or_else-none none b h = (refl, h)
or_else-none (some reason) b h = cc

unless_exposed-none :
    (e : Option Text) (rest : Result KeyError (Option Text))
    → unless_exposed e rest ≡ ok none
    → (e ≡ none) × (rest ≡ ok none)
unless_exposed-none none rest h = (refl, h)
unless_exposed-none (some reason) rest h = cc

module _ {D : Type 0} ⦃d : Decimal D⦄ where
  -- A correlation of the pair is known, and within the limit.
  abbrev pub IsUncorrelated : (Text → Text → Option D) → RiskLimits D → Text → Text → Type 0
  IsUncorrelated correlations l symbol other =
      (c : D) × (correlation_of correlations symbol other ≡ some c)
      × ((abs c ≼ l.correlation_limit) ≡ true)

  pub record IsRoomy (x : PortfolioPlanAction D) (m : MarketSnapshot D) (projected : Positions D)
      (l : RiskLimits D) (account : AccountState D) (correlations : Text → Text → Option D)
      : Type 0 where
    pub side : PositionSide
    pub sided : x.side ≡ some side
    pub positions : length projected + (if is_open x.action then 1 else 0) ≤ l.max_positions
    pub direction :
        same_direction side projected + (if is_open x.action then 1 else 0) ≤ l.max_same_direction
    pub uncorrelated :
        All
          (λ other. ((other == x.symbol) ≡ true) ⊎ IsUncorrelated correlations l x.symbol other)
          (keys projected)
    pub added : D
    pub adds : added_quantity x projected ≡ ok added
    pub margin :
        (held_margin projected l ⊕ reference_price x m ⊗ added ⊘ whole l.max_leverage
          ≼ min account.equity l.capital_limit_usdt ⊗ l.max_margin_pct)
        ≡ true
    pub available :
        (max nought (
            held_margin projected l
            ⊕ reference_price x m ⊗ added ⊘ whole l.max_leverage
            ⊖ account.total_margin_used)
          ≼ account.available_balance)
        ≡ true

  count_reason-none :
      (kind : PortfolioPlanActionType) (side : PositionSide) (projected : Positions D)
      (l : RiskLimits D)
      → count_reason kind side projected l ≡ none
      → (length projected + (if is_open kind then 1 else 0) ≤ l.max_positions)
        × (same_direction side projected + (if is_open kind then 1 else 0) ≤ l.max_same_direction)
  unfolding count_reason
  count_reason-none kind side projected l h = ground arith

  correlated-none :
      (l : RiskLimits D) (correlations : Text → Text → Option D) (symbol other : Text)
      (found : Option D)
      → correlation_of correlations symbol other ≡ found
      → correlated l other found ≡ none
      → IsUncorrelated correlations l symbol other
  correlated-none l correlations symbol other none same h = cc
  correlated-none l correlations symbol other (some c) same h = (c, same, ground arith)

  correlation_reason-none :
      (symbol : Text) (correlations : Text → Text → Option D) (l : RiskLimits D)
      (others : List Text)
      → correlation_reason symbol correlations l others ≡ none
      → All
          (λ other. ((other == symbol) ≡ true) ⊎ IsUncorrelated correlations l symbol other)
          others
  unfolding correlation_reason
  correlation_reason-none symbol correlations l [] h = tt
  correlation_reason-none symbol correlations l (other ∷ rest) h =
      elim (Bool-cases (other == symbol)) [
        | inl own ↦ (inl own, correlation_reason-none symbol correlations l rest (rw own at h))
        | inr apart ↦
            let found = correlation_of correlations symbol other in
            let both =
              or_else-none (correlated l other found)
                (correlation_reason symbol correlations l rest) (rw apart at h) in
            (
              inr (correlated-none l correlations symbol other found refl both.0),
              correlation_reason-none symbol correlations l rest both.1,
            )
      ]

  margin_reason-none :
      (margin : D) (l : RiskLimits D) (account : AccountState D)
      → margin_reason margin l account ≡ none
      → ((margin ≼ min account.equity l.capital_limit_usdt ⊗ l.max_margin_pct) ≡ true)
        × ((max nought (margin ⊖ account.total_margin_used) ≼ account.available_balance) ≡ true)
  unfolding margin_reason
  margin_reason-none margin l account h = ground arith

  margin_checked-none :
      (x : PortfolioPlanAction D)
      → (m : MarketSnapshot D) → (projected : Positions D) → (l : RiskLimits D)
      → (account : AccountState D) → (added : Result KeyError D)
      → margin_checked x m projected l account added ≡ ok none
      → (v : D) × (added ≡ ok v) × (margin_reason (margin_after x m projected l v) l account ≡ none)
  margin_checked-none x m projected l account (ok v) h = (v, refl, ok-injective h)
  margin_checked-none x m projected l account (err e) h = cc

  validate_sided-IsRoomy :
      (x : PortfolioPlanAction D)
      → (a : PortfolioAllocation D) → (m : MarketSnapshot D) → (projected : Positions D)
      → (l : RiskLimits D) → (account : AccountState D) → (correlations : Text → Text → Option D)
      → (side : Option PositionSide) → (stop : Option D) → x.side ≡ side
      → validate_sided x a m projected l account correlations side stop ≡ ok none
      → IsRoomy x m projected l account correlations
  unfolding exposure_reason margin_after
  validate_sided-IsRoomy x a m projected l account correlations (some side) (some stop) sided h =
      let correlated = correlation_reason x.symbol correlations l (keys projected) in
      let counted = count_reason x.action side projected l in
      let added = if is_add x.action then addition_reason x a m l stop else none in
      let both =
        unless_exposed-none (exposure_reason x a m projected l correlations side stop)
          (margin_checked x m projected l account (added_quantity x projected)) h in
      let outer = or_else-none added (or_else counted correlated) both.0 in
      let inner = or_else-none counted correlated outer.1 in
      let counts = count_reason-none x.action side projected l inner.0 in
      let margins =
        margin_checked-none x m projected l account (added_quantity x projected) both.1 in
      let within =
        margin_reason-none (margin_after x m projected l margins.0) l account margins.2 in
      record {
        side = side;
        sided = sided;
        positions = counts.0;
        direction = counts.1;
        uncorrelated = correlation_reason-none x.symbol correlations l (keys projected) inner.1;
        added = margins.0;
        adds = margins.1;
        margin = within.0;
        available = within.1;
      }
  validate_sided-IsRoomy x a m projected l account correlations (some side) none sided h = cc
  validate_sided-IsRoomy x a m projected l account correlations none stop sided h = cc

  -- An action that adds risk is accepted only if, with it, the projected positions keep to the limits on
  -- their number and on their number in its direction, the correlation with every other one is known and
  -- within its limit, and the margin stays under its cap and the part of it that is not used yet within the
  -- balance.
  pub validate_increase-IsRoomy :
      (x : PortfolioPlanAction D)
      → (a : PortfolioAllocation D) → (m : MarketSnapshot D) → (projected : Positions D)
      → (l : RiskLimits D) → (account : AccountState D) → (correlations : Text → Text → Option D)
      → validate_increase x a m projected l account correlations ≡ ok none
      → IsRoomy x m projected l account correlations
  unfolding validate_increase
  validate_increase-IsRoomy x a m projected l account correlations h =
      validate_sided-IsRoomy x a m projected l account correlations x.side x.stop_price refl h
