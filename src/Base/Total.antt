-- ===== src/Base/Total.antt =====
-- How an action goes on that gives a value.
use mathlib.Core.Path.{◌≡◌, ap}
use mathlib.Core.List.{List}
use ch_chaos.Base.Results.{follow, done, Action, ◌>>=◌}

module _ {C E : Type 0} where
  -- what follows an action that gives a value
  pub done->>= :
      {A B : Type 0} (m : Action C E A) (f : A → Action C E B) {a : A} {l : List C} (log : List C)
      → m log ≡ (done a, l)
      → (m >>= f) log ≡ f a l
  done->>= {A} {B} m f log e = ap (follow f) e
