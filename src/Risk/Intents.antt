-- ===== src/Risk/Intents.antt =====
-- What `build_execution_intent` of risk/engine.py guarantees of the orders that it hands on.
use ai_coinletgo.Prelude.{◌≡◌, refl, subst, true, Option, none, some, arith}
use ai_coinletgo.Prelude.Result.{Result, ok, err, ok-injective}
use ai_coinletgo.Decimal.{Decimal, ◌≼◌, ◌≺◌, nought, ◌⊖◌, abs}
use ai_coinletgo.Domain.Enums.{PositionSide, long, short, DecisionStatus, approved, rejected}
use ai_coinletgo.Domain.Signal.{TradeSignal}
use ai_coinletgo.Domain.Orders.{
  ExecutionIntent, IntentError, validate_entry_guard, validate_take_profits,
}
use ai_coinletgo.Domain.Limits.{RiskDecision}
use ai_coinletgo.Strategy.ExitPolicy.{TargetError, first_take_profit, target_at}
use ai_coinletgo.Risk.Engine.{
  rejected_decision, side_of, accepted, intended, built, build_execution_intent,
}

module _ {D : Type 0} ⦃d : Decimal D⦄ where
  -- The final target is on the profitable side of the entry.
  abbrev pub IsProfitable : PositionSide → D → D → Type 0
  IsProfitable long entry target = (entry ≺ target) ≡ true
  IsProfitable short entry target = (target ≺ entry) ≡ true

  -- The first target is met before the second.
  abbrev pub IsOrdered : PositionSide → Option D → D → Type 0
  IsOrdered side none tp2 = Unit
  IsOrdered long (some tp1) tp2 = (tp1 ≺ tp2) ≡ true
  IsOrdered short (some tp1) tp2 = (tp2 ≺ tp1) ≡ true

  pub record IsIntended (s : TradeSignal D) (r : RiskDecision D) (i : ExecutionIntent D)
      : Type 0 where
    pub acts : side_of s.action ≡ some i.side
    pub from_min : (i.entry_min ≼ i.limit_price) ≡ true
    pub to_max : (i.limit_price ≼ i.entry_max) ≡ true
    pub apart : (nought ≺ abs (r.entry_price ⊖ r.stop_price)) ≡ true
    pub profitable : IsProfitable i.side i.limit_price i.tp2_price
    pub ordered : IsOrdered i.side i.tp1_price i.tp2_price
    pub as_decided :
        (i.quantity ≡ r.quantity) × (i.limit_price ≡ r.entry_price) × (i.stop_price ≡ r.stop_price)

  validate_entry_guard_lem :
      (i : ExecutionIntent D)
      → validate_entry_guard i ≡ none
      → ((i.entry_min ≼ i.limit_price) ≡ true)
        × ((i.limit_price ≼ i.entry_max) ≡ true)
        × (validate_take_profits i.side i.tp1_price i.tp2_price ≡ none)
  unfolding validate_entry_guard
  validate_entry_guard_lem i h = ground arith

  validate_take_profits-IsOrdered :
      (side : PositionSide) (tp1 : Option D) (tp2 : D)
      → validate_take_profits side tp1 tp2 ≡ none
      → IsOrdered side tp1 tp2
  unfolding validate_take_profits
  validate_take_profits-IsOrdered long none tp2 h = tt
  validate_take_profits-IsOrdered short none tp2 h = tt
  validate_take_profits-IsOrdered long (some tp1) tp2 h = ground arith
  validate_take_profits-IsOrdered short (some tp1) tp2 h = ground arith

  first_take_profit_lem :
      (entry stop target tp1 : D) (side : PositionSide)
      → first_take_profit entry stop target side ≡ ok tp1
      → ((nought ≺ abs (entry ⊖ stop)) ≡ true) × IsProfitable side entry target
  unfolding first_take_profit target_at
  first_take_profit_lem entry stop target tp1 long h = ground arith
  first_take_profit_lem entry stop target tp1 short h = ground arith

  accepted_lem :
      (i j : ExecutionIntent D) (o : Option IntentError)
      → accepted i o ≡ ok j
      → (o ≡ none) × (i ≡ j)
  accepted_lem i j none h = (refl, ok-injective h)
  accepted_lem i j (some e) h = cc

  intended-IsIntended :
      (s : TradeSignal D) (r : RiskDecision D) (side : PositionSide) (tp : Result TargetError D)
      (j : ExecutionIntent D)
      → side_of s.action ≡ some side
      → first_take_profit r.entry_price r.stop_price r.target_price side ≡ tp
      → intended s r side tp ≡ ok j
      → IsIntended s r j
  intended-IsIntended s r side (err e) j acts tp h = cc
  intended-IsIntended s r side (ok tp1) j acts tp h =
      let (valid, is) = accepted_lem _ j _ h in
      let (low, high, geometry) = validate_entry_guard_lem _ valid in
      let (apart, profitable) =
        first_take_profit_lem r.entry_price r.stop_price r.target_price tp1 side tp in
      subst (IsIntended s r) is (record {
        acts = acts;
        from_min = low;
        to_max = high;
        apart = apart;
        profitable = profitable;
        ordered = validate_take_profits-IsOrdered side (some tp1) r.target_price geometry;
        as_decided = (refl, refl, refl);
      })

  built-IsIntended :
      (s : TradeSignal D) (r : RiskDecision D) (side : Option PositionSide) (j : ExecutionIntent D)
      → side_of s.action ≡ side
      → built s r side ≡ ok j
      → IsIntended s r j
  built-IsIntended s r none j acts h = cc
  built-IsIntended s r (some side) j acts h = intended-IsIntended s r side _ j acts refl h

  by_status-IsIntended :
      (s : TradeSignal D) (r : RiskDecision D) (status : DecisionStatus) (j : ExecutionIntent D)
      → (elim status [ rejected ↦ err rejected_decision | approved ↦ built s r (side_of s.action) ])
        ≡ ok j
      → (status ≡ approved) × IsIntended s r j
  by_status-IsIntended s r rejected j h = cc
  by_status-IsIntended s r approved j h = (refl, built-IsIntended s r (side_of s.action) j refl h)

  -- Every intent that is built comes of an approved decision and a signal that opens a position, has
  -- the decision's quantity, entry and stop, and is sound: the entry is inside the approved range and
  -- apart from the stop, the final target is on the profitable side of it, and the first target is met
  -- before the final one.
  pub build_execution_intent-IsIntended :
      (s : TradeSignal D) (r : RiskDecision D) (j : ExecutionIntent D)
      → build_execution_intent s r ≡ ok j
      → (r.status ≡ approved) × IsIntended s r j
  unfolding build_execution_intent
  build_execution_intent-IsIntended s r j h = by_status-IsIntended s r r.status j h
