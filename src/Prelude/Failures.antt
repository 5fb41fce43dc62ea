-- ===== src/Prelude/Failures.antt =====
-- The exceptions of the lifecycle as values. A method that may raise returns a `Result`.
use mathlib.Core.Bool.{Bool, true, false}
use Prim.Native.Nat.{ℕ}
use mathlib.Core.Option.{Option}
use mathlib.Core.Path.{◌≡◌, refl}

-- LifecycleStateError, TimestampValidationError, DuplicateTaskError, TaskNotFoundError,
-- QueueStateError, SchedulerStateError, and the built-in and clock errors of the components.
pub data Error : Type 0 where
  lifecycle_state timestamp_validation duplicate_task task_not_found : Error
  queue_state scheduler_state route_binding : Error
  clock clock_invariant : Error
  artifact_limit artifact_write negative_size : Error
  value_error key_error analysis_assessment stage4_receiver : Error
  analyzer_configuration analyzer_infrastructure finding_formation deadline_exceeded : Error
  -- with the cleanup safety barrier that the exception carries
  analyzer_unreaped : (barrier : ℕ) → Error
  preprocessing_failed : (barrier : Option ℕ) → (resource_limit : Bool) → Error

-- What a method returns, or the exception that it raises.
pub data Result {ℓ} (Value : Type ℓ) : Type ℓ where
  err : Error → Result Value
  ok : Value → Result Value

-- `if not allowed: raise exception`
abbrev pub guard : Bool → Error → Result (Unit {0})
guard false exception = err exception
guard true exception = ok tt

module _ {ℓ κ} {Value : Type ℓ} {Next : Type κ} where
  infixl 5 ◌>>=◌
  abbrev pub ◌>>=◌ : Result Value → (Value → Result Next) → Result Next
  ◌>>=◌ (err exception) rest = err exception
  ◌>>=◌ (ok value) rest = rest value

module _ {κ} {Next : Type κ} where
  infixl 5 ◌>>◌
  abbrev pub ◌>>◌ : Result (Unit {0}) → Result Next → Result Next
  ◌>>◌ (err exception) rest = err exception
  ◌>>◌ (ok done) rest = rest

-- What a chain that returns says of its first part.
pub bind-ok {ℓ κ} :
    {Value : Type ℓ} {Next : Type κ} (first : Result Value) (rest : Value → Result Next) {b : Next}
    → first >>= rest ≡ ok b
    → (a : Value) × (first ≡ ok a) × (rest a ≡ ok b)
bind-ok (err exception) rest e = cc
bind-ok (ok a) rest e = (a, refl, e)

pub then-ok {κ} :
    {Next : Type κ} (first : Result (Unit {0})) (rest : Result Next) {b : Next}
    → first >> rest ≡ ok b
    → (first ≡ ok tt) × (rest ≡ ok b)
then-ok (err exception) rest e = cc
then-ok (ok tt) rest e = (refl, e)

pub guard-ok :
    (allowed : Bool) (exception : Error) → guard allowed exception ≡ ok tt → allowed ≡ true
guard-ok true exception e = refl
guard-ok false exception e = cc

pub ok-injective {ℓ} : {Value : Type ℓ} {a b : Value} → ok a ≡ ok b → b ≡ a
ok-injective e = cc

pub ok-bind {ℓ κ} :
    {Value : Type ℓ} {Next : Type κ} (first : Result Value) (rest : Value → Result Next) {a : Value}
    {r : Result Next}
    → first ≡ ok a
    → rest a ≡ r
    → first >>= rest ≡ r
ok-bind first rest e f = rw e f
