-- ===== src/Execution/Rules.antt =====
-- Reasoning about a manager's method: what holds when it returns and what holds when it raises.
use ai_coinletgo.Prelude.{◌∷◌}
use ai_coinletgo.Prelude.Result.{Result, ok, err}
use ai_coinletgo.Execution.Session.{Fault, Raised, Event, Session, Action, settle, proceed, ask}

module _ {W D A : Type 0} where
  -- `Q` of what was returned, or `F` of what was raised, in the session as it was left.
  abbrev pub Holds :
      (A → Session W D → Type 0)
      → (Raised → Session W D → Type 0)
      → Result Raised A × Session W D
      → Type 0
  Holds Q F (ok a, s) = Q a s
  Holds Q F (err e, s) = F e s

module _ {W D A B : Type 0} where
  pub bind-Holds :
      (P : A → Session W D → Type 0) (Q : B → Session W D → Type 0)
      (F : Raised → Session W D → Type 0)
      → (r : Result Raised A × Session W D) → (f : A → Action W D B) → Holds P F r
      → ((a : A) (s : Session W D) → P a s → Holds Q F (f a s))
      → Holds Q F (proceed f r)
  bind-Holds P Q F (ok a, s) f h k = k a s h
  bind-Holds P Q F (err e, s) f h k = h

module _ {W D A : Type 0} where
  pub settle-Holds :
      (Q : A → Session W D → Type 0) (F : Raised → Session W D → Type 0)
      → (handle : Fault → Raised) → (r : Result Fault A) → (s : Session W D) → ((a : A) → Q a s)
      → ((x : Fault) → F (handle x) s)
      → Holds Q F (settle handle r s)
  settle-Holds Q F handle (ok a) s q f = q a
  settle-Holds Q F handle (err x) s q f = f x

  answered-Holds :
      (Q : A → Session W D → Type 0) (F : Raised → Session W D → Type 0)
      (note : Result Fault A → Event D) (handle : Fault → Raised) (s : Session W D)
      (answer : Result Fault A) (w : W)
      → ((a : A) (w : W) → Q a (record s { world = w; log = note (ok a) ∷ s.log }))
      → ((x : Fault) (w : W) → F (handle x) (record s { world = w; log = note (err x) ∷ s.log }))
      → Holds Q F (settle handle answer (record s { world = w; log = note answer ∷ s.log }))
  answered-Holds Q F note handle s (ok a) w q f = q a w
  answered-Holds Q F note handle s (err x) w q f = f x w

  -- One call of the gateway: what holds after each answer, noted.
  pub ask-Holds :
      (Q : A → Session W D → Type 0) (F : Raised → Session W D → Type 0)
      (call : W → Result Fault A × W) (note : Result Fault A → Event D) (handle : Fault → Raised)
      (s : Session W D)
      → ((a : A) (w : W) → Q a (record s { world = w; log = note (ok a) ∷ s.log }))
      → ((x : Fault) (w : W) → F (handle x) (record s { world = w; log = note (err x) ∷ s.log }))
      → Holds Q F (ask call note handle s)
  ask-Holds Q F call note handle s q f =
      answered-Holds Q F note handle s (call s.world).0 (call s.world).1 q f
