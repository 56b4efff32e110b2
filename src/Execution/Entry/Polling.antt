-- ===== src/Execution/Entry/Polling.antt =====
-- The polling of an order by `execute` of execution/manager.py, and what follows it.
use ai_coinletgo.Prelude.{
  ℕ, zero, suc, ◌+◌, ◌-◌, ◌≤◌, ◌<◌, refl, Bool, true, false, List, if◌then◌else◌, ltb, leb, ◌==◌,
  arith, Bool-cases, inl, inr,
}
use ai_coinletgo.Prelude.Text.{Text}
use ai_coinletgo.Decimal.{Decimal, ◌≺◌, nought}
use ai_coinletgo.Decimal.Laws.{IsRounded}
use ai_coinletgo.Domain.Enums.{filled, status_eq}
use ai_coinletgo.Domain.Orders.{ExecutionIntent, OrderState}
use ai_coinletgo.Execution.Session.{Raised, fault, read, Session, Action, pure, ask, ◌>>=◌}
use ai_coinletgo.Execution.Gateway.{Gateway}
use ai_coinletgo.Execution.Entry.{
  ExecutionManager, Progress, finished, unfinished, is_terminated, is_working, min_nat,
  protect_new_fills, guarded, cancel, heed, observe, poll, withdraw, conclude, await_fill,
}
use ai_coinletgo.Execution.Rules.{Holds, bind-Holds}
use ai_coinletgo.Execution.Entry.Audit.{Audit, HasAborted, StandsAt, KeptAt}
use ai_coinletgo.Execution.Entry.Protection.{protect-Kept, look-Holds, cancel-Kept}

module _ {W D : Type 0} ⦃d : Decimal D⦄ (laws : IsRounded D) (m : ExecutionManager)
    (g : Gateway W D) (i : ExecutionIntent D) (b : ℕ) where
  abbrev Fails : Raised → Session W D → Type 0
  Fails = HasAborted i b

  abbrev Stands : ℕ → Progress D → Session W D → Type 0
  Stands = StandsAt i

  abbrev Kept : ℕ → OrderState D → D × List (OrderState D) → Session W D → Type 0
  Kept = KeptAt i

  abbrev Left : ℕ → OrderState D × (D × List (OrderState D)) → Session W D → Type 0
  Left n last = Kept n last.0 last.1

  module _ (n : ℕ) (bound : n ≤ b) where
    heed-Stands :
        (c : Text) (o : OrderState D) (kept : D × List (OrderState D))
        (again : Action W D (Progress D)) (s : Session W D) (allowed : Bool)
        → Kept n o kept s
        → Holds (Stands n) Fails (again s)
        → Holds (Stands n) Fails (heed m g i c kept again allowed s)
    unfolding heed
    heed-Stands c o kept again s true a h = h
    heed-Stands c o kept again s false a h =
        bind-Holds (Left n) (Stands n) Fails _ (λ last. pure (finished last.0 last.1.1))
          (cancel-Kept laws m g i b n bound c kept.0 kept.1 s a.0)
          (λ last s' k. record { kept = last.1.0; audit = k.0; covered = k.1 })

    pub guarded-Holds :
        (p : D) (s : Session W D)
        → Audit i n p s.log
        → Holds (λ _ s'. Audit i n p s'.log) Fails (guarded m g i s)
    unfolding guarded
    guarded-Holds p s a = look-Holds laws m g i b n bound g.entry_guard fault p s (λ _. refl) a

    observe-Stands :
        (c : Text) (o : OrderState D) (kept : D × List (OrderState D))
        (again : Action W D (Progress D)) (s : Session W D)
        → Kept n o kept s
        → ((s' : Session W D) → Kept n o kept s' → Holds (Stands n) Fails (again s'))
        → Holds (Stands n) Fails (observe m g i c o kept again s)
    unfolding observe
    observe-Stands c o kept again s k h = elim (Bool-cases (o.status == filled)) [
      | inl full ↦ rw full (record { kept = kept.0; audit = k.0; covered = k.1 })
      | inr open_ ↦ rw open_ (elim (Bool-cases (is_terminated o.status)) [
        | inl over ↦ rw over k
        | inr on ↦ rw on (
            bind-Holds (λ _ s'. Audit i n kept.0 s'.log) (Stands n) Fails _
              (λ allowed. heed m g i c kept again allowed) (guarded-Holds kept.0 s k.0)
              (λ allowed s' a. heed-Stands c o kept again s' allowed (a, k.1) (h s' (a, k.1))))
      ])
    ]

    -- Polling ends, since each turn waits for a second or more.
    poll-Stands :
        0 < m.fill_poll_seconds
        → (fuel : ℕ) (c : Text) (elapsed : ℕ) (o : OrderState D) (p : D) (ps : List (OrderState D))
          (s : Session W D)
        → m.reprice_seconds ≤ elapsed + fuel
        → Kept n o (p, ps) s
        → Holds (Stands n) Fails (poll m g i fuel c elapsed o p ps s)
    unfolding poll
    poll-Stands pos zero c elapsed o p ps s enough k =
        elim (Bool-cases (ltb elapsed m.reprice_seconds)) [
          | inl more ↦ absurd (ground arith)
          | inr done ↦ rw done k
        ]
    poll-Stands pos (suc fuel) c elapsed o p ps s enough k =
        elim (Bool-cases (ltb elapsed m.reprice_seconds)) [
          | inr done ↦ rw done k
          | inl more ↦ rw more (
              let wait = min_nat m.fill_poll_seconds (m.reprice_seconds - elapsed) in
              let slept = record s { world = g.sleep wait s.world } in
              bind-Holds (λ _ s'. Audit i n p s'.log) (Stands n) Fails
                (ask (g.get_order i.symbol c) (λ _. read) fault slept)
                (λ o'. protect_new_fills m g i o' p ps >>= λ kept.
                  observe m g i c o' kept (poll m g i fuel c (elapsed + wait) o' kept.0 kept.1))
                (look-Holds laws m g i b n bound (g.get_order i.symbol c) fault p slept (λ _. refl)
                  k.0)
                (λ o' s' a.
                  bind-Holds (Kept n o') (Stands n) Fails (protect_new_fills m g i o' p ps s')
                    (λ kept.
                      observe m g i c o' kept (poll m g i fuel c (elapsed + wait) o' kept.0 kept.1))
                    (protect-Kept laws m g i b n bound o' p ps s' a)
                    (λ kept s2 k2.
                      observe-Stands c o' kept (poll m g i fuel c (elapsed + wait) o' kept.0 kept.1)
                        s2 k2
                        (λ s3 k3.
                          poll-Stands pos fuel c (elapsed + wait) o' kept.0 kept.1 s3 (ground arith)
                            k3))))
        ]

    withdraw-Stands :
        (c : Text) (r : Progress D) (s : Session W D)
        → Stands n r s
        → Holds (Stands n) Fails (withdraw m g i c r s)
    unfolding withdraw
    withdraw-Stands c (finished o ps) s h = h
    withdraw-Stands c (unfinished o p ps) s h = elim (Bool-cases (is_working o.status)) [
      | inl on ↦ rw on (
          bind-Holds (Left n) (Stands n) Fails (cancel m g i c p ps s)
            (λ last. pure (unfinished last.0 last.1.0 last.1.1))
            (cancel-Kept laws m g i b n bound c p ps s h.0) (λ last s' k. k))
      | inr off ↦ rw off h
    ]

    expire-Stands :
        (o : OrderState D) (p : D) (ps : List (OrderState D)) (late : Bool) (s : Session W D)
        → Kept n o (p, ps) s
        → Stands n (if late then finished o ps else unfinished o p ps) s
    expire-Stands o p ps true s h = record { kept = p; audit = h.0; covered = h.1 }
    expire-Stands o p ps false s h = h

    conclude-Stands :
        (r : Progress D) (s : Session W D)
        → Stands n r s
        → Holds (Stands n) Fails (conclude m g i r s)
    unfolding conclude
    conclude-Stands (finished o ps) s h = h
    conclude-Stands (unfinished o p ps) s h = elim (Bool-cases (nought ≺ o.filled_quantity)) [
      | inl some_ ↦ rw some_ (record { kept = p; audit = h.0; covered = h.1 })
      | inr none_ ↦ rw none_ (
          expire-Stands o p ps (leb i.expires_at (g.now s.world).0)
            (record s { world = (g.now s.world).1 }) h)
    ]

    pub await_fill-Stands :
        0 < m.fill_poll_seconds
        → (c : Text) (o : OrderState D) (kept : D × List (OrderState D)) (s : Session W D)
        → Kept n o kept s
        → Holds (Stands n) Fails (await_fill m g i c o kept s)
    unfolding await_fill
    await_fill-Stands pos c o kept s k = elim (Bool-cases (o.status == filled)) [
      | inl full ↦ rw full (record { kept = kept.0; audit = k.0; covered = k.1 })
      | inr part ↦ rw part (
          bind-Holds (Stands n) (Stands n) Fails
            (poll m g i m.reprice_seconds c 0 o kept.0 kept.1 s)
            (λ polled. withdraw m g i c polled >>= λ rest. conclude m g i rest)
            (poll-Stands pos m.reprice_seconds c 0 o kept.0 kept.1 s (omega arith) k)
            (λ polled s' h.
              bind-Holds (Stands n) (Stands n) Fails (withdraw m g i c polled s')
                (λ rest. conclude m g i rest) (withdraw-Stands c polled s' h)
                (λ rest s2 h2. conclude-Stands rest s2 h2)))
    ]
