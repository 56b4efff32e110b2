-- ===== src/Execution/Session.antt =====
-- A call of an execution manager: a session with the exchange, in which it returns or raises. The
-- session's log of what was ordered is the model's, so that theorems can speak of the calls.
use ai_coinletgo.Prelude.{ℕ, Bool, true, false, Option, List, ◌∷◌}
use ai_coinletgo.Prelude.Int.{ℤ}
use ai_coinletgo.Prelude.Text.{Text}
use ai_coinletgo.Prelude.Result.{Result, ok, err}
use ai_coinletgo.Domain.Orders.{OrderState}

-- `ExchangeError`'s attributes that the managers read.
pub record ErrorInfo : Type 0 where
  pub code : Option ℤ
  pub http_status : Option ℕ
  pub message : Text

-- What a call of the gateway raises: `ExchangeError`, its subclass `ExchangeUnknownStatusError`, or
-- any other exception.
pub data Fault : Type 0 where
  exchange_error unknown_status : ErrorInfo → Fault
  other_exception : Fault

-- What a manager raises. `position_invalid` is the `ValidationError` of a `PositionState` that
-- cannot be built; `diverges` stands for a loop that does not end.
pub data Raised : Type 0 where
  fault : Fault → Raised
  not_submitted : ErrorInfo → Raised
  protection_error position_invalid : Raised
  entries_disallowed outside_entry_guard never_submitted exit_quantity_invalid : Raised
  diverges : Raised

-- The calls that matter to the theorems; `read` is any other.
pub data Event (D : Type 0) : Type 0 where
  entry_asked : Text → D → Event D
  protection_set protection_refused : D → Event D
  emergency_close : D → Event D
  order_cancelled : Text → Event D
  exit_placed : D → D → D → Event D
  exit_refused order_seen market_asked : D → Event D
  flat_seen take_profits_cancelled protection_cancelled : Event D
  read : Event D

pub record Session (W D : Type 0) : Type 0 where
  pub world : W
  pub log : List (Event D)
  pub last_emergency_orders : List (OrderState D)

-- A manager's method: it moves the session on, and returns or raises.
abbrev pub Action : Type 0 → Type 0 → Type 0 → Type 0
Action W D A = Session W D → Result Raised A × Session W D

module _ {W D A : Type 0} where
  abbrev pub pure : A → Action W D A
  pure a s = (ok a, s)

  abbrev pub raise : Raised → Action W D A
  raise e s = (err e, s)

  -- A reading of the clock, or a `sleep`: it raises nothing and orders nothing.
  abbrev pub tick : (W → A × W) → Action W D A
  tick call s = let (a, world) = call s.world in (ok a, record s { world = world })

  -- One call of the gateway, caught: it moves the world on, and is noted in the log.
  abbrev pub attempt :
      (W → Result Fault A × W) → (Result Fault A → Event D) → Action W D (Result Fault A)
  attempt call note s =
      let (answer, world) = call s.world in
      (ok answer, record s { world = world; log = note answer ∷ s.log })

module _ {W D A B : Type 0} where
  abbrev pub proceed :
      (A → Action W D B) → Result Raised A × Session W D → Result Raised B × Session W D
  proceed f (ok a, s) = f a s
  proceed f (err e, s) = (err e, s)

  infixl 5 ◌>>=◌ ◌>>◌
  abbrev pub ◌>>=◌ : Action W D A → (A → Action W D B) → Action W D B
  ◌>>=◌ m f s = proceed f (m s)

  abbrev pub ◌>>◌ : Action W D A → Action W D B → Action W D B
  m >> k = m >>= λ _. k

module _ {W D A : Type 0} where
  abbrev pub settle : (Fault → Raised) → Result Fault A → Action W D A
  settle handle (ok a) = pure a
  settle handle (err e) = raise (handle e)

  -- One call of the gateway, whose faults the manager raises as `handle` says.
  abbrev pub ask :
      (W → Result Fault A × W) → (Result Fault A → Event D) → (Fault → Raised) → Action W D A
  ask call note handle = attempt call note >>= settle handle

module _ {W D : Type 0} where
  abbrev pub raise_if : Bool → Raised → Action W D (Unit {0})
  raise_if true e = raise e
  raise_if false e = pure tt
