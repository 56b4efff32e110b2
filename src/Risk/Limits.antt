-- ===== src/Risk/Limits.antt =====
-- What the engine of risk/engine.py guarantees of every order that it approves.
use ai_coinletgo.Prelude.{
  ◌≡◌, ◌≢◌, ◌⊎◌, refl, true, Option, none, some, List, [], ◌∷◌, or_default, arith, Bool-cases, inl,
  inr,
}
use ai_coinletgo.Decimal.{Decimal, ◌≼◌, ◌≺◌, nought, ◌⊖◌, ◌⊗◌, ◌⊘◌, abs, round_down, round_half_up}
use ai_coinletgo.Decimal.Laws.{IsRounded, min-le_left, min-le_right}
use ai_coinletgo.Domain.Enums.{approved, rejected}
use ai_coinletgo.Domain.Market.{MarketSnapshot}
use ai_coinletgo.Domain.Signal.{TradeSignal}
use ai_coinletgo.Domain.Account.{ExchangeFilters, daily_equity_loss_pct, drawdown_pct}
use ai_coinletgo.Domain.Limits.{RiskContext, RiskDecision, Reason}
use ai_coinletgo.Risk.Preflight.{entry_price, preflight, check_circuit_breakers}
use ai_coinletgo.Risk.Engine.{
  round_price, net_reward_risk_of, available_risk, risk_amount_of, max_notional_of, cap_quantity,
  first_quantity, below_minimum, stop_mode, unless_below, final_quantity, settle_prices, assess,
  reject_with_prices, unless_refused, evaluate,
}

module _ {D : Type 0} ⦃d : Decimal D⦄ (laws : IsRounded D) where
  -- `ExchangeFilters.max_quantity`, where there is one.
  abbrev pub IsWithin : Option D → D → Type 0
  IsWithin none q = Unit
  IsWithin (some top) q = (q ≼ top) ≡ true

  -- A decision whose order respects every limit.
  pub record IsWithinLimits (s : TradeSignal D) (m : MarketSnapshot D) (c : RiskContext D)
      (r : RiskDecision D) : Type 0 where
    pub no_objection : preflight s m c ≡ []
    pub rewarding : (c.limits.min_net_reward_risk ≼ net_reward_risk_of s m c) ≡ true
    pub risk_pos : (nought ≺ risk_amount_of m c) ≡ true
    pub risk_left : (risk_amount_of m c ≼ available_risk c) ≡ true
    pub apart : (nought ≺ abs (r.entry_price ⊖ r.stop_price)) ≡ true
    pub risked :
        (r.quantity
          ≼ round_price
              (risk_amount_of m c ⊘ abs (r.entry_price ⊖ r.stop_price))
              c.filters.step_size
              round_down)
        ≡ true
    pub margined :
        (r.quantity
          ≼ round_price (max_notional_of c ⊘ entry_price s m) c.filters.step_size round_down)
        ≡ true
    pub at_most : IsWithin c.filters.max_quantity r.quantity
    pub at_least : (c.filters.min_quantity ≼ r.quantity) ≡ true
    pub worth : (c.filters.min_notional ≼ r.quantity ⊗ r.entry_price) ≡ true

  cap-le : (o : Option D) (q : D) → (cap_quantity o q ≼ q) ≡ true
  cap-le none q = laws.le_refl q
  cap-le (some top) q = min-le_left laws q top

  cap-IsWithin : (o : Option D) (q : D) → IsWithin o (cap_quantity o q)
  cap-IsWithin none q = tt
  cap-IsWithin (some top) q = min-le_right laws q top

  first_quantity-margined :
      (c : RiskContext D) (amount entry stop : D)
      → (first_quantity c amount entry stop
          ≼ round_price (max_notional_of c ⊘ entry) c.filters.step_size round_down)
        ≡ true
  unfolding first_quantity
  first_quantity-margined c amount entry stop =
      laws.le_trans _ _ _ (cap-le c.filters.max_quantity _) (min-le_right laws _ _)

  final_quantity-le :
      (c : RiskContext D) (amount quantity distance : D)
      → (final_quantity c amount quantity distance ≼ quantity) ≡ true
  unfolding final_quantity
  final_quantity-le c amount quantity distance =
      laws.le_trans _ _ _ (cap-le c.filters.max_quantity _) (min-le_left laws _ _)

  final_quantity-risked :
      (c : RiskContext D) (amount quantity distance : D)
      → (final_quantity c amount quantity distance
          ≼ round_price (amount ⊘ distance) c.filters.step_size round_down)
        ≡ true
  unfolding final_quantity
  final_quantity-risked c amount quantity distance =
      laws.le_trans _ _ _ (cap-le c.filters.max_quantity _) (min-le_right laws _ _)

  final_quantity-IsWithin :
      (c : RiskContext D) (amount quantity distance : D)
      → IsWithin c.filters.max_quantity (final_quantity c amount quantity distance)
  unfolding final_quantity
  final_quantity-IsWithin c amount quantity distance = cap-IsWithin c.filters.max_quantity _

  abbrev IsSound : TradeSignal D → MarketSnapshot D → RiskContext D → RiskDecision D → Type 0
  IsSound s m c r = r.status ≡ approved → IsWithinLimits s m c r

  -- The exchange's minimums, and otherwise what the decision is.
  unless_below_lem :
      (s : TradeSignal D) (m : MarketSnapshot D) (c : RiskContext D) (o : Option Reason)
      (r : RiskDecision D)
      → (o ≡ none → IsSound s m c r)
      → IsSound s m c (unless_below s o r)
  unless_below_lem s m c (some reason) r h k = cc
  unless_below_lem s m c none r h k = h refl k

  below_minimum_lem :
      (f : ExchangeFilters D) (quantity entry : D)
      → below_minimum f quantity entry ≡ none
      → ((f.min_quantity ≼ quantity) ≡ true) × ((f.min_notional ≼ quantity ⊗ entry) ≡ true)
  unfolding below_minimum
  below_minimum_lem f quantity entry h = ground arith

  risk_amount-le :
      (m : MarketSnapshot D) (c : RiskContext D) → (risk_amount_of m c ≼ available_risk c) ≡ true
  unfolding risk_amount_of
  risk_amount-le m c = min-le_right laws _ _

  settle_prices-IsSound :
      (s : TradeSignal D) (m : MarketSnapshot D) (c : RiskContext D)
      → let amount = risk_amount_of m c in
        let quantity =
          first_quantity c amount (entry_price s m) (or_default s.invalidation_price nought) in
        preflight s m c ≡ []
        → (c.limits.min_net_reward_risk ≼ net_reward_risk_of s m c) ≡ true
        → (nought ≺ amount) ≡ true
        → IsSound s m c (settle_prices s m c amount quantity)
  unfolding settle_prices
  settle_prices-IsSound s m c h rr pos =
      let amount = risk_amount_of m c in
      let stop = or_default s.invalidation_price nought in
      let quantity = first_quantity c amount (entry_price s m) stop in
      let entry' = round_price (entry_price s m) c.filters.tick_size round_half_up in
      let stop' = round_price stop c.filters.tick_size (stop_mode s.action) in
      let distance = abs (entry' ⊖ stop') in
      let last = final_quantity c amount quantity distance in
      elim (Bool-cases (distance ≼ nought)) [
        | inl touching ↦ rw touching (λ k. cc)
        | inr apart ↦ rw apart (
            unless_below_lem s m c (below_minimum c.filters last entry') _ (λ enough _.
              let (least, worth) = below_minimum_lem c.filters last entry' enough in
              record {
                no_objection = h;
                rewarding = rr;
                risk_pos = pos;
                risk_left = risk_amount-le m c;
                apart = ground arith;
                risked = final_quantity-risked c amount quantity distance;
                margined =
                    laws.le_trans last quantity _ (final_quantity-le c amount quantity distance)
                      (first_quantity-margined c amount (entry_price s m) stop);
                at_most = final_quantity-IsWithin c amount quantity distance;
                at_least = least;
                worth = worth;
              }))
      ]

  assess-IsSound :
      (s : TradeSignal D) (m : MarketSnapshot D) (c : RiskContext D)
      → preflight s m c ≡ []
      → IsSound s m c (assess s m c)
  unfolding assess
  assess-IsSound s m c h =
      elim (Bool-cases (net_reward_risk_of s m c ≺ c.limits.min_net_reward_risk)) [
        | inl poor ↦ rw poor (λ k. cc)
        | inr rich ↦ rw rich (elim (Bool-cases (risk_amount_of m c ≼ nought)) [
          | inl spent ↦ rw spent (λ k. cc)
          | inr free ↦ rw free (
              unless_below_lem s m c _ _
                (λ _. settle_prices-IsSound s m c h (ground arith) (ground arith)))
        ])
      ]

  unless_refused-IsSound :
      (s : TradeSignal D) (m : MarketSnapshot D) (c : RiskContext D) (reasons : List Reason)
      → preflight s m c ≡ reasons
      → IsSound s m c (unless_refused s m c reasons)
  unfolding reject_with_prices
  unless_refused-IsSound s m c [] h k = assess-IsSound s m c h k
  unless_refused-IsSound s m c (reason ∷ reasons) h k = cc

  -- Every order that the engine approves had no objection, pays for its risk, and respects every
  -- limit at once: its quantity is at most what the risk left and the rounded stop distance allow, at
  -- most what the free margin allows, at most the exchange's maximum, and at least its two minimums.
  pub evaluate-IsWithinLimits :
      (s : TradeSignal D) (m : MarketSnapshot D) (c : RiskContext D)
      → (evaluate s m c).status ≡ approved
      → IsWithinLimits s m c (evaluate s m c)
  unfolding evaluate
  evaluate-IsWithinLimits s m c h = unless_refused-IsSound s m c (preflight s m c) refl h

  -- A rejection for the reasons found before any sizing: no order, and the reasons as they are.
  pub record IsRefused (r : RiskDecision D) : Type 0 where
    pub refused : r.status ≡ rejected
    pub nothing : r.quantity ≡ nought

  unless_refused-IsRefused :
      (s : TradeSignal D) (m : MarketSnapshot D) (c : RiskContext D) (reasons : List Reason)
      → reasons ≢ []
      → IsRefused (unless_refused s m c reasons)
  unfolding reject_with_prices
  unless_refused-IsRefused s m c [] h = absurd (h refl)
  unless_refused-IsRefused s m c (reason ∷ reasons) h = record { refused = refl; nothing = refl }

  tripped_preflight :
      (s : TradeSignal D) (m : MarketSnapshot D) (c : RiskContext D)
      → (c.limits.daily_loss_pct ≼ daily_equity_loss_pct c.account) ≡ true
        ⊎ (c.limits.max_drawdown_pct ≼ drawdown_pct c.account) ≡ true
      → preflight s m c ≢ []
  unfolding preflight check_circuit_breakers
  tripped_preflight s m c (inl lost) = rw lost (λ k. cc)
  tripped_preflight s m c (inr down) =
      elim (Bool-cases (c.limits.daily_loss_pct ≼ daily_equity_loss_pct c.account)) [
        | inl lost ↦ rw lost (λ k. cc)
        | inr fine ↦ rw (fine, down) (λ k. cc)
      ]

  -- Once the day's loss or the drawdown has reached its limit, every signal is rejected, and nothing
  -- is ordered.
  pub evaluate-IsRefused :
      (s : TradeSignal D) (m : MarketSnapshot D) (c : RiskContext D)
      → (c.limits.daily_loss_pct ≼ daily_equity_loss_pct c.account) ≡ true
        ⊎ (c.limits.max_drawdown_pct ≼ drawdown_pct c.account) ≡ true
      → IsRefused (evaluate s m c)
  unfolding evaluate
  evaluate-IsRefused s m c h =
      unless_refused-IsRefused s m c (preflight s m c) (tripped_preflight s m c h)
