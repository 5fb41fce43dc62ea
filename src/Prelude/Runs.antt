-- ===== src/Prelude/Runs.antt =====
-- A method that changes a state which several objects share, and may raise half way: what it has
-- changed by then stays.
use mathlib.Core.Path.{◌≡◌, refl}
use fakedetector.Prelude.Failures.{Error, Result, ok, err}

pub data Run (World : Type 0) (Value : Type 0) : Type 0 where
  returned : Value → World → Run World Value
  raised : Error → World → Run World Value

abbrev pub Action : Type 0 → Type 0 → Type 0
Action World Value = World → Run World Value

module _ {World : Type 0} where
  abbrev pub proceed :
      {Value Next : Type 0} → Run World Value → (Value → Action World Next) → Run World Next
  proceed (returned a w) rest = rest a w
  proceed (raised exception w) rest = raised exception w

  infixl 5 ◌>>=◌
  abbrev pub ◌>>=◌ :
      {Value Next : Type 0} → Action World Value → (Value → Action World Next) → Action World Next
  ◌>>=◌ first rest w = proceed (first w) rest

  infixl 5 ◌>>◌
  abbrev pub ◌>>◌ :
      {Next : Type 0} → Action World (Unit {0}) → Action World Next → Action World Next
  ◌>>◌ first rest w = proceed (first w) (λ done. rest)

  abbrev pub give : {Value : Type 0} → Value → Action World Value
  give a w = returned a w

  abbrev pub from_result : {Value : Type 0} → Result Value → Action World Value
  from_result (ok a) w = returned a w
  from_result (err exception) w = raised exception w

  -- A property of the state wherever the method stops, and only where it raises.
  abbrev pub Everywhere : {Value : Type 0} → (World → Type 0) → Run World Value → Type 0
  Everywhere I (returned a w) = I w
  Everywhere I (raised exception w) = I w

  abbrev pub WhereRaised : {Value : Type 0} → (World → Type 0) → Run World Value → Type 0
  WhereRaised I (returned a w) = Unit
  WhereRaised I (raised exception w) = I w

  -- `I` holds where a chain raises: its first part keeps `J`, which is stronger.
  pub bind-WhereRaised :
      {Value Next : Type 0} (J I : World → Type 0) (first : Run World Value)
      (rest : Value → Action World Next)
      → ((w : World) → J w → I w)
      → Everywhere J first
      → ((a : Value) (w : World) → J w → WhereRaised I (rest a w))
      → WhereRaised I (proceed first rest)
  bind-WhereRaised J I (returned a w) rest weaken h k = k a w h
  bind-WhereRaised J I (raised exception w) rest weaken h k = weaken w h

  -- A property of what a method returns with the state, and of the exception that it raises.
  abbrev pub Returns : {Value : Type 0} → (Value → World → Type 0) → Run World Value → Type 0
  Returns P (returned a w) = P a w
  Returns P (raised exception w) = Unit

  abbrev pub Raises : {Value : Type 0} → (Error → Type 0) → Run World Value → Type 0
  Raises P (returned a w) = Unit
  Raises P (raised exception w) = P exception

  pub bind-Returns :
      {Value Next : Type 0} (P : Next → World → Type 0) (first : Run World Value)
      (rest : Value → Action World Next)
      → ((a : Value) (w : World) → Returns P (rest a w))
      → Returns P (proceed first rest)
  bind-Returns P (returned a w) rest h = h a w
  bind-Returns P (raised exception w) rest h = tt

  -- the same, where the rest relies on the answer of a pure method
  pub given-Returns :
      {Value Next : Type 0} (P : Next → World → Type 0) (given : Result Value)
      (rest : Value → Action World Next) (w : World)
      → ((a : Value) → given ≡ ok a → Returns P (rest a w))
      → Returns P (proceed (from_result given w) rest)
  given-Returns P (err exception) rest w h = tt
  given-Returns P (ok a) rest w h = h a refl

  pub given-Everywhere :
      {Value : Type 0} (I : World → Type 0) (given : Result Value) (w : World)
      → I w
      → Everywhere I (from_result given w)
  given-Everywhere I (err exception) w h = h
  given-Everywhere I (ok a) w h = h

  -- A change of the state by the value of a method, which may raise.
  pub change-WhereRaised :
      {Value : Type 0} (I : World → Type 0) (made : Result Value) (write : Value → World → World)
      (w : World)
      → I w
      → WhereRaised I (proceed (from_result made w) (λ a v. returned tt (write a v)))
  change-WhereRaised I (err exception) write w h = h
  change-WhereRaised I (ok a) write w h = tt

  pub change-Everywhere :
      {Value : Type 0} (I : World → Type 0) (made : Result Value) (write : Value → World → World)
      (w : World)
      → I w
      → ((a : Value) → made ≡ ok a → I (write a w))
      → Everywhere I (proceed (from_result made w) (λ a v. returned tt (write a v)))
  change-Everywhere I (err exception) write w h k = h
  change-Everywhere I (ok a) write w h k = k a refl

  -- A first part that is known to return, taken off a chain and put in front of it.
  pub after_step :
      {Value Next : Type 0} (first : Run World Value) (rest : Value → Action World Next) {a : Value}
      {w : World} {run : Run World Next}
      → first ≡ returned a w
      → proceed first rest ≡ run
      → rest a w ≡ run
  after_step first rest e f = rw e at f

  pub before_step :
      {Value Next : Type 0} (first : Run World Value) (rest : Value → Action World Next) {a : Value}
      {w : World} {run : Run World Next}
      → first ≡ returned a w
      → rest a w ≡ run
      → proceed first rest ≡ run
  before_step first rest e f = rw e f

  pub returned_same :
      {Value : Type 0} {a b : Value} {w v : World} → returned a w ≡ returned b v → b ≡ a
  returned_same e = cc

  -- What a chain that returns says of its first part.
  pub given-returned :
      {Value Next : Type 0} (given : Result Value) (rest : Value → Action World Next) (w : World)
      {b : Next} {v : World}
      → proceed (from_result given w) rest ≡ returned b v
      → (a : Value) × (given ≡ ok a) × (rest a w ≡ returned b v)
  given-returned (err exception) rest w e = cc
  given-returned (ok a) rest w e = (a, refl, e)

  pub answer-returned :
      {Answer Value Next : Type 0} (made : Result Answer) (answer : Answer → Value)
      (write : Answer → World → World) (rest : Value → Action World Next) (w : World) {b : Next}
      {v : World}
      → proceed (proceed (from_result made w) (λ a v. returned (answer a) (write a v))) rest
        ≡ returned b v
      → (a : Answer) × (made ≡ ok a) × (rest (answer a) (write a w) ≡ returned b v)
  answer-returned (err exception) answer write rest w e = cc
  answer-returned (ok a) answer write rest w e = (a, refl, e)

  pub change-returned :
      {Value : Type 0} (made : Result Value) (write : Value → World → World) (w : World)
      {done : Unit {0}} {v : World}
      → proceed (from_result made w) (λ a v. returned tt (write a v)) ≡ returned done v
      → (a : Value) × (made ≡ ok a) × (v ≡ write a w)
  change-returned (err exception) write w e = cc
  change-returned (ok a) write w e = (a, refl, cc)

  pub bind-returned :
      {Value Next : Type 0} (first : Run World Value) (rest : Value → Action World Next) {b : Next}
      {v : World}
      → proceed first rest ≡ returned b v
      → (a : Value) × (w : World) × (first ≡ returned a w) × (rest a w ≡ returned b v)
  bind-returned (returned a w) rest e = (a, w, refl, e)
  bind-returned (raised exception w) rest e = cc
