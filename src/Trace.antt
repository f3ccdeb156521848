-- ===== src/Trace.antt =====
-- What an action may call: `Emits P m` says that every call that `m` makes satisfies `P`, whatever
-- the clients answer and however `m` ends.
use ch_chaos.Base.{
  follow, caught, returned, raise, ◌≡◌, refl, Bool, true, false, Option, none, some, or_panic, lift,
  List, ◌∷◌, Result, ok, err, Outcome, done, fail, panic, Action, settle, settle-done, pure,
  attempt, request, ◌>>=◌, if◌then◌else◌,
}

-- The second log is the first with calls that satisfy `P` on top.
pub data Extends {C : Type 0} (P : C → Type 0) (log : List C) : List C → Type 0 where
  same : Extends P log log
  more : {c : C} {l : List C} → P c → Extends P log l → Extends P log (c ∷ l)

pub Extends-trans :
    {C : Type 0} {P : C → Type 0} {a b c : List C} → Extends P a b → Extends P b c → Extends P a c
Extends-trans h same = h
Extends-trans h (more p k) = more p (Extends-trans h k)

Extends-mono :
    {C : Type 0} {P Q : C → Type 0} {a b : List C}
    → ((c : C) → P c → Q c)
    → Extends P a b
    → Extends Q a b
Extends-mono f same = same
Extends-mono f (more {c} p h) = more (f c p) (Extends-mono f h)

pub record Emits {C E A : Type 0} (P : C → Type 0) (m : Action C E A) : Type 0 where
  pub run : (log : List C) → Extends P log (m log).1

pub Emits-mono :
    {C E A : Type 0} {P Q : C → Type 0} {m : Action C E A}
    → ((c : C) → P c → Q c)
    → Emits P m
    → Emits Q m
Emits-mono f h = record { run = λ log. Extends-mono f (h.run log) }

module _ {C E : Type 0} (P : C → Type 0) where
  resume :
      {A B : Type 0} (f : A → Action C E B) (log : List C) (r : Outcome E A × List C)
      → Extends P log r.1
      → ((a : A) → r.0 ≡ done a → Emits P (f a))
      → Extends P log (follow f r).1
  resume f log (done a, l) h k = Extends-trans h ((k a refl).run l)
  resume f log (fail e, l) h k = h
  resume f log (panic, l) h k = h

  pub >>=-Emits :
      {A B : Type 0} (m : Action C E A) (f : A → Action C E B)
      → Emits P m
      → ((a : A) → Emits P (f a))
      → Emits P (m >>= f)
  >>=-Emits m f h k = record { run = λ log. resume f log (m log) (h.run log) (λ a _. k a) }

  pub attempt-Emits : {A : Type 0} (m : Action C E A) → Emits P m → Emits P (attempt m)
  attempt-Emits m h = record { run = h.run }

  pub pure-Emits : {A : Type 0} (a : A) → Emits {E = E} P (pure a)
  pure-Emits a = record { run = λ log. same }

  pub raise-Emits : {A : Type 0} (e : E) → Emits {A = A} P (raise e)
  raise-Emits e = record { run = λ log. same }

  pub request-Emits :
      {A : Type 0} (c : C) (answer : List C → Result E A) → P c → Emits P (request c answer)
  request-Emits c answer p = record { run = λ log. more p same }

  -- What follows a call may use that the client gave that answer.
  pub request->>= :
      {A B : Type 0} (c : C) (answer : List C → Result E A) (f : A → Action C E B)
      → P c
      → ((a : A) (log : List C) → answer log ≡ ok a → Emits P (f a))
      → Emits P (request c answer >>= f)
  request->>= c answer f p k = record {
    run = λ log.
        resume f log (settle (answer log), c ∷ log) (more p same)
          (λ a e. k a log (settle-done (answer log) a e));
  }

  caught-settle : {A : Type 0} (r s : Result E A) → caught (settle r) ≡ done s → r ≡ s
  caught-settle (ok x) s h = cc
  caught-settle (err e) s h = cc

  -- The same where an error of the call is a value.
  pub attempt-request->>= :
      {A B : Type 0} (c : C) (answer : List C → Result E A) (f : Result E A → Action C E B)
      → P c
      → ((r : Result E A) (log : List C) → answer log ≡ r → Emits P (f r))
      → Emits P (attempt (request c answer) >>= f)
  attempt-request->>= c answer f p k = record {
    run = λ log.
        resume f log (caught (settle (answer log)), c ∷ log) (more p same)
          (λ r e. k r log (caught-settle (answer log) r e));
  }

  -- What follows an expression that may panic may use its value.
  pub or_panic->>= :
      {A B : Type 0} (o : Option A) (f : A → Action C E B)
      → ((a : A) → o ≡ some a → Emits P (f a))
      → Emits P (or_panic o >>= f)
  or_panic->>= none f k = record { run = λ log. same }
  or_panic->>= (some a) f k = k a refl

  -- What follows `r?` may use that `r` is a value.
  pub lift->>= :
      {A B : Type 0} (r : Result E A) (f : A → Action C E B)
      → ((a : A) → r ≡ ok a → Emits P (f a))
      → Emits P (lift r >>= f)
  lift->>= (ok a) f k = k a refl
  lift->>= (err e) f k = record { run = λ log. same }

  pub returned-Emits : {A : Type 0} (o : Outcome E A) → Emits P (returned o)
  returned-Emits o = record { run = λ log. same }

  pub if-Emits :
      {A : Type 0} (b : Bool) (m n : Action C E A)
      → (b ≡ true → Emits P m)
      → (b ≡ false → Emits P n)
      → Emits P (if b then m else n)
  if-Emits true m n h k = h refl
  if-Emits false m n h k = k refl
