-- ===== src/Execution/Entry/Attempts.antt =====
-- The loop over the attempts of `execute` of execution/manager.py.
use ai_coinletgo.Prelude.{
  ℕ, zero, suc, ◌+◌, ◌≤◌, ◌<◌, ◌≡◌, refl, Bool, true, false, not, Option, none, some, List, ◌∷◌,
  arith, Bool-cases, inl, inr,
}
use ai_coinletgo.Prelude.Text.{Text}
use ai_coinletgo.Decimal.{Decimal, ◌≼◌}
use ai_coinletgo.Decimal.Laws.{IsRounded}
use ai_coinletgo.Domain.Enums.{status_eq}
use ai_coinletgo.Domain.Orders.{ExecutionIntent, OrderState}
use ai_coinletgo.Execution.Session.{
  Fault, exchange_error, unknown_status, other_exception, Raised, entries_disallowed,
  outside_entry_guard, entry_asked, read, Session, Action, raise_if, ask, ◌>>=◌,
}
use ai_coinletgo.Execution.Gateway.{Gateway}
use ai_coinletgo.Execution.Entry.{
  ExecutionManager, Progress, finished, unfinished, entry_client_id, preparation_failed,
  placement_failed, inside_entry_guard, protect_new_fills, guarded, await_fill, attempt_entry,
  attempts, is_rejection, follow,
}
use ai_coinletgo.Execution.Rules.{Holds, bind-Holds, settle-Holds}
use ai_coinletgo.Execution.Entry.Audit.{
  Audit, entered, early, is_early, HasAborted, HasReturned, StandsAt, KeptAt,
}
use ai_coinletgo.Execution.Entry.Protection.{protect-Kept, look-Holds}
use ai_coinletgo.Execution.Entry.Polling.{guarded-Holds, await_fill-Stands}

module _ {W D : Type 0} ⦃d : Decimal D⦄ (laws : IsRounded D) (m : ExecutionManager)
    (g : Gateway W D) (i : ExecutionIntent D) (b : ℕ) where
  abbrev Fails : Raised → Session W D → Type 0
  Fails = HasAborted i b

  abbrev Stands : ℕ → Progress D → Session W D → Type 0
  Stands = StandsAt i

  abbrev Kept : ℕ → OrderState D → D × List (OrderState D) → Session W D → Type 0
  Kept = KeptAt i

  abbrev Returned : OrderState D × List (OrderState D) → Session W D → Type 0
  Returned = HasReturned i b

  placement_failed-early : (x : Fault) → is_early (placement_failed x) ≡ true
  unfolding placement_failed
  placement_failed-early (exchange_error e) = elim (Bool-cases (is_rejection e.http_status)) [
    | inl h ↦ rw h refl
    | inr h ↦ rw h refl
  ]
  placement_failed-early (unknown_status e) = refl
  placement_failed-early other_exception = refl

  pub preparation_failed-early : (x : Fault) → is_early (preparation_failed x) ≡ true
  unfolding preparation_failed
  preparation_failed-early (exchange_error e) = refl
  preparation_failed-early (unknown_status e) = refl
  preparation_failed-early other_exception = refl

  module _ (pos : 0 < m.fill_poll_seconds) where
    -- The order itself: the price is in range.
    order-Stands :
        (n : ℕ) (below : n < b) (c : Text) (price p : D) (ps : List (OrderState D))
        (s : Session W D)
        → inside_entry_guard i price ≡ true
        → Audit i n p s.log
        → Holds (Stands (suc n)) Fails (
            (ask (g.place_limit_entry i c price) (λ _. entry_asked c price) placement_failed
                >>= λ o. protect_new_fills m g i o p ps >>= λ kept. await_fill m g i c o kept)
              s)
    order-Stands n below c price p ps s inside a =
        bind-Holds (λ _ s'. Audit i (suc n) p s'.log) (Stands (suc n)) Fails
          (ask (g.place_limit_entry i c price) (λ _. entry_asked c price) placement_failed s)
          (λ o. protect_new_fills m g i o p ps >>= λ kept. await_fill m g i c o kept)
          (settle-Holds (λ _ s'. Audit i (suc n) p s'.log) Fails placement_failed
            (g.place_limit_entry i c price s.world).0
            (record s {
              world = (g.place_limit_entry i c price s.world).1;
              log = entry_asked c price ∷ s.log;
            })
            (λ _. entered c price inside a)
            (λ x. early below (placement_failed-early x) (entered c price inside a)))
          (λ o s' a'.
            bind-Holds (Kept (suc n) o) (Stands (suc n)) Fails (protect_new_fills m g i o p ps s')
              (λ kept. await_fill m g i c o kept)
              (protect-Kept laws m g i b (suc n) below o p ps s' a')
              (λ kept s2 k. await_fill-Stands laws m g i b (suc n) below pos c o kept s2 k))

    pub guard-Holds :
        (n : ℕ) (bound : n ≤ b) (p : D) (test : Bool) (e : Raised) (s : Session W D)
        → is_early e ≡ true
        → Audit i n p s.log
        → Holds (λ _ s'. Audit i n p s'.log × test ≡ false) Fails (raise_if test e s)
    guard-Holds n bound p true e s h a = early bound h a
    guard-Holds n bound p false e s h a = (a, refl)

    attempt_entry-Stands :
        (n : ℕ) (below : n < b) (p : D) (ps : List (OrderState D)) (s : Session W D)
        → Audit i n p s.log
        → Holds (Stands (suc n)) Fails (attempt_entry m g i n p ps s)
    unfolding attempt_entry
    attempt_entry-Stands n below p ps s a =
        let bound : n ≤ b = omega (arith, below) in
        let c = entry_client_id i.intent_id n in
        let place = λ (price : D).
          ask (g.place_limit_entry i c price) (λ _. entry_asked c price) placement_failed >>= λ o.
          protect_new_fills m g i o p ps >>= λ kept. await_fill m g i c o kept in
        let quote =
          ask (g.best_entry_price i.symbol i.side) (λ _. read) preparation_failed >>= λ price.
          raise_if (not (inside_entry_guard i price)) outside_entry_guard >>= λ _. place price in
        bind-Holds (λ _ s1. Audit i n p s1.log) (Stands (suc n)) Fails (guarded m g i s)
          (λ allowed. raise_if (not allowed) entries_disallowed >>= λ _. quote)
          (guarded-Holds laws m g i b n bound p s a)
          (λ allowed s1 a1.
            bind-Holds (λ _ s2. Audit i n p s2.log × not allowed ≡ false) (Stands (suc n)) Fails
              (raise_if (not allowed) entries_disallowed s1) (λ _. quote)
              (guard-Holds n bound p (not allowed) entries_disallowed s1 refl a1)
              (λ _ s2 a2.
                bind-Holds (λ _ s3. Audit i n p s3.log) (Stands (suc n)) Fails
                  (ask (g.best_entry_price i.symbol i.side) (λ _. read) preparation_failed s2)
                  (λ price. raise_if (not (inside_entry_guard i price)) outside_entry_guard >>= λ _.
                    place price)
                  (look-Holds laws m g i b n bound (g.best_entry_price i.symbol i.side)
                    preparation_failed p s2 preparation_failed-early a2.0)
                  (λ price s3 a3.
                    bind-Holds
                      (λ _ s4. Audit i n p s4.log × not (inside_entry_guard i price) ≡ false)
                      (Stands (suc n)) Fails
                      (raise_if (not (inside_entry_guard i price)) outside_entry_guard s3)
                      (λ _. place price)
                      (guard-Holds n bound p (not (inside_entry_guard i price)) outside_entry_guard
                        s3 refl a3)
                      (λ _ s4 a4. order-Stands n below c price p ps s4 (ground arith) a4.0))))

    -- What the attempts go on from.
    abbrev Reached : ℕ → Option (OrderState D) → D → Session W D → Type 0
    Reached n none p s = Audit i n p s.log
    Reached n (some o) p s = Audit i n p s.log × (o.filled_quantity ≼ p) ≡ true

    Reached-Audit :
        (n : ℕ) (last : Option (OrderState D)) (p : D) (s : Session W D)
        → Reached n last p s
        → Audit i n p s.log
    Reached-Audit n none p s h = h
    Reached-Audit n (some o) p s h = h.0

    follow-Returned :
        (n : ℕ)
        → (next : OrderState D
            → D
            → List (OrderState D)
            → Action W D (OrderState D × List (OrderState D)))
        → n ≤ b
        → ((o : OrderState D) (p : D) (ps : List (OrderState D)) (s : Session W D)
            → Kept n o (p, ps) s
            → Holds Returned Fails (next o p ps s))
        → (progress : Progress D) (s : Session W D) → Stands n progress s
        → Holds Returned Fails (follow m g i next progress s)
    follow-Returned n next bound h (finished o ps) s k = (n, (bound, k))
    follow-Returned n next bound h (unfinished o p ps) s k = h o p ps s k

    pub attempts-Returned :
        (r n : ℕ) (last : Option (OrderState D)) (p : D) (ps : List (OrderState D))
        (s : Session W D)
        → n + r ≡ b
        → Reached n last p s
        → Holds Returned Fails (attempts m g i r n last p ps s)
    unfolding attempts
    attempts-Returned zero n none p ps s h a = early (omega arith) refl a
    attempts-Returned zero n (some o) p ps s h a =
        (n, (omega arith, record { kept = p; audit = a.0; covered = a.1 }))
    attempts-Returned (suc r) n last p ps s h a =
        bind-Holds (Stands (suc n)) Returned Fails (attempt_entry m g i n p ps s)
          (follow m g i (λ o p' ps'. attempts m g i r (suc n) (some o) p' ps'))
          (attempt_entry-Stands n (omega arith) p ps s (Reached-Audit n last p s a))
          (follow-Returned (suc n) (λ o p' ps'. attempts m g i r (suc n) (some o) p' ps')
            (omega arith)
            (λ o p' ps' s' k. attempts-Returned r (suc n) (some o) p' ps' s' (omega arith) k))
