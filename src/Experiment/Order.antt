-- ===== src/Experiment/Order.antt =====
-- The order of the calls of a reconcile (src/operator/reconciler.rs): the writes to the experiment, and
-- all other calls before them.
pub mod Steps
pub mod Handlers
pub mod Ending
use ch_chaos.Base.{
  follow, ◌≡◌, refl, ◌⊎◌, inl, inr, Bool, true, false, List, [], ◌∷◌, Outcome, done, fail, panic,
  Action, if◌then◌else◌, ◌>>=◌, pure,
}
use ch_chaos.Trace.{Extends, Extends-trans, same, more, Emits}
use ch_chaos.Experiment.{Call}

-- the calls that change the experiment object
abbrev pub is_write : Call → Bool
is_write (Call.patch_experiment_status ns name status) = true
is_write (Call.add_finalizer ns name) = true
is_write (Call.remove_finalizer ns name) = true
is_write _ = false

abbrev pub IsQuiet : Call → Type 0
IsQuiet c = is_write c ≡ false

-- From one log to the next by calls that are no writes, and at most one write after them.
pub data WritesLast (log : List Call) : List Call → Type 0 where
  unwritten : {l : List Call} → Extends IsQuiet log l → WritesLast log l
  written :
      {c : Call} {l : List Call}
      → is_write c ≡ true
      → Extends IsQuiet log l
      → WritesLast log (c ∷ l)

-- An action that writes to the experiment at most once, as its last call.
pub record Concludes {E A : Type 0} (m : Action Call E A) : Type 0 where
  pub run : (log : List Call) → WritesLast log (m log).1

prepend : {log l end : List Call} → Extends IsQuiet log l → WritesLast l end → WritesLast log end
prepend h (unwritten k) = unwritten (Extends-trans h k)
prepend h (written w k) = written w (Extends-trans h k)

module _ {E : Type 0} where
  quiet_then :
      {A B : Type 0} (f : A → Action Call E B) (log : List Call) (r : Outcome E A × List Call)
      → Extends IsQuiet log r.1
      → ((a : A) → Concludes (f a))
      → WritesLast log (follow f r).1
  quiet_then f log (done a, l) h k = prepend h ((k a).run l)
  quiet_then f log (fail e, l) h k = unwritten h
  quiet_then f log (panic, l) h k = unwritten h

  -- Quiet calls may stand before an action that concludes.
  pub quiet->>= :
      {A B : Type 0} (m : Action Call E A) (f : A → Action Call E B)
      → Emits IsQuiet m
      → ((a : A) → Concludes (f a))
      → Concludes (m >>= f)
  quiet->>= m f h k = record { run = λ log. quiet_then f log (m log) (h.run log) k }

  then_silent :
      {A B : Type 0} (f : A → Action Call E B) (log : List Call) (r : Outcome E A × List Call)
      → WritesLast log r.1
      → ((a : A) (l : List Call) → (f a l).1 ≡ l)
      → WritesLast log (follow f r).1
  then_silent f log (done a, l) h k = rw (k a l) h
  then_silent f log (fail e, l) h k = h
  then_silent f log (panic, l) h k = h

  -- What calls nothing may stand after it.
  pub >>=-silent :
      {A B : Type 0} (m : Action Call E A) (f : A → Action Call E B)
      → Concludes m
      → ((a : A) (l : List Call) → (f a l).1 ≡ l)
      → Concludes (m >>= f)
  >>=-silent m f h k = record { run = λ log. then_silent f log (m log) (h.run log) k }

  pub quiet-Concludes : {A : Type 0} (m : Action Call E A) → Emits IsQuiet m → Concludes m
  quiet-Concludes m h = record { run = λ log. unwritten (h.run log) }

  pub if-Concludes :
      {A : Type 0} (b : Bool) (m n : Action Call E A)
      → Concludes m
      → Concludes n
      → Concludes (if b then m else n)
  if-Concludes true m n h k = h
  if-Concludes false m n h k = k
