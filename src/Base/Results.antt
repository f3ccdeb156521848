-- ===== src/Base/Results.antt =====
-- `Result<A, E>`, and actions: code that calls an injected client and may fail or panic. An action
-- maps the calls made so far, the most recent first, to its outcome and the calls made by then.
use mathlib.Core.List.{List, ◌∷◌}
use mathlib.Core.Option.{Option, none, some}
use mathlib.Core.Path.{◌≡◌, refl}

pub data Result {ℓ κ} (E : Type ℓ) (A : Type κ) : Type (ℓ ⊔ κ) where
  ok : A → Result E A
  err : E → Result E A

-- `Option::ok_or`
abbrev pub ok_or : {E A : Type 0} → Option A → E → Result E A
ok_or none e = err e
ok_or (some a) e = ok a

-- How code ends: with a value, with an error that `?` passes on, or by a panic.
pub data Outcome (E A : Type 0) : Type 0 where
  done : A → Outcome E A
  fail : E → Outcome E A
  panic : Outcome E A

abbrev pub Action : Type 0 → Type 0 → Type 0 → Type 0
Action C E A = List C → Outcome E A × List C

abbrev pub settle : {E A : Type 0} → Result E A → Outcome E A
settle (ok a) = done a
settle (err e) = fail e

-- a call that gives a value was answered with it
pub settle-done : {E A : Type 0} (r : Result E A) (a : A) → settle r ≡ done a → r ≡ ok a
settle-done (ok x) a h = cc h
settle-done (err e) a h = cc h

abbrev pub settle_option : {E A : Type 0} → Option A → Outcome E A
settle_option (some a) = done a
settle_option none = panic

abbrev pub caught : {E A : Type 0} → Outcome E A → Outcome E (Result E A)
caught (done a) = done (ok a)
caught (fail e) = done (err e)
caught panic = panic

module _ {C E A : Type 0} where
  abbrev pub pure : A → Action C E A
  pure a log = (done a, log)

  abbrev pub raise : E → Action C E A
  raise e log = (fail e, log)

  -- `r?`
  abbrev pub lift : Result E A → Action C E A
  lift r log = (settle r, log)

  -- an expression that panics where it has no value
  abbrev pub or_panic : Option A → Action C E A
  or_panic o log = (settle_option o, log)

  -- code that calls no client
  abbrev pub returned : Outcome E A → Action C E A
  returned o log = (o, log)

  -- `match action.await { Ok(a) => .., Err(e) => .. }`: the error becomes a value
  abbrev pub attempt : Action C E A → Action C E (Result E A)
  attempt m log = let (r, log') = m log in (caught r, log')

  -- One call of a client, whose answer may depend on all the calls before it.
  abbrev pub request : C → (List C → Result E A) → Action C E A
  request c answer log = (settle (answer log), c ∷ log)

-- One call of a client that is code of this development, and may end in any way.
abbrev pub delegate : {C E A : Type 0} → C → (List C → Outcome E A) → Action C E A
delegate c answer log = (answer log, c ∷ log)

-- What `>>=` makes of how the first action ended, and of the calls made by then.
abbrev pub follow :
    {C E A B : Type 0} → (A → Action C E B) → Outcome E A × List C → Outcome E B × List C
follow {C = C} {E = E} {B = B} f r = elim r.0 as (λ _. Outcome E B × List C) [
  | done a ↦ f a r.1
  | fail e ↦ (fail e, r.1)
  | panic ↦ (panic, r.1)
]

-- a read of the clock or of the random generator
abbrev pub observe : {C E A : Type 0} → C → (List C → A) → Action C E A
observe c answer log = (done (answer log), c ∷ log)

infixl 5 ◌>>=◌ ◌>>◌
abbrev pub ◌>>=◌ : {C E A B : Type 0} → Action C E A → (A → Action C E B) → Action C E B
◌>>=◌ m f log =
    let (r, log') = m log in
    elim r [ done a ↦ f a log' | fail e ↦ (fail e, log') | panic ↦ (panic, log') ]

abbrev pub ◌>>◌ : {C E A B : Type 0} → Action C E A → Action C E B → Action C E B
m >> k = m >>= λ _. k

module _ {C E A B : Type 0} (c : C) (answer : List C → Result E A)
    (f : Result E A → Action C E B) where
  by_answer :
      (r : Result E A) (log : List C) → follow f (caught (settle r), c ∷ log) ≡ f r (c ∷ log)
  by_answer (ok a) log = refl
  by_answer (err e) log = refl

  -- A call whose error becomes a value never stops the action that uses it.
  pub attempt-request :
      (log : List C) → (attempt (request c answer) >>= f) log ≡ f (answer log) (c ∷ log)
  attempt-request log = by_answer (answer log) log
