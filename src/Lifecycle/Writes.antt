-- ===== src/Lifecycle/Writes.antt =====
-- What one reconcile (src/operator/reconciler.rs) leaves behind, whichever of its calls the server takes.
use ch_chaos.Base.{◌≡◌, refl, ◌∙◌, ap, ◌⊎◌, inl, inr, List, [], Any}
use ch_chaos.Crd.{ChaosExperiment}
use ch_chaos.Trace.{Extends, same, more}
use ch_chaos.Experiment.{Call}
use ch_chaos.Experiment.Order.{IsQuiet, WritesLast, written, unwritten}
use ch_chaos.Lifecycle.{State, Applied, begun, taken, lost, effect}

effect_quiet : (c : Call) (e : ChaosExperiment) → IsQuiet c → effect c e ≡ e
unfolding effect
effect_quiet (Call.patch_experiment_status ns name status) e h = cc
effect_quiet (Call.add_finalizer ns name) e h = cc
effect_quiet (Call.remove_finalizer ns name) e h = cc
effect_quiet _ e h = refl

module _ {s : State} where
  -- calls that are no writes leave the object as it is
  pub quiet-object :
      {l : List Call} {t : State} → Extends IsQuiet [] l → Applied s l t → t.object ≡ s.object
  quiet-object same begun = refl
  quiet-object (more {c} q h) (taken {t = t} a) = effect_quiet c t.object q ∙ quiet-object h a
  quiet-object (more q h) (lost a) = quiet-object h a

  -- at most one write is left behind, on the object as it was
  pub WritesLast-object :
      {P : Call → Type 0} {l : List Call} {t : State}
      → WritesLast [] l
      → Extends P [] l
      → Applied s l t
      → (t.object ≡ s.object) ⊎ ((c : Call) × P c × (t.object ≡ effect c s.object))
  WritesLast-object (unwritten h) p a = inl (quiet-object h a)
  WritesLast-object (written {c} w h) (more p q) (taken a) =
      inr (c, p, ap (effect c) (quiet-object h a))
  WritesLast-object (written w h) (more p q) (lost a) = inl (quiet-object h a)

  -- the calls that are taken are old ones, or calls of the log
  pub Applied-history :
      {P Q : Call → Type 0} {l : List Call} {t : State}
      → Extends P [] l
      → Applied s l t
      → Any Q t.history
      → Any Q s.history ⊎ ((c : Call) × P c × Q c)
  Applied-history same begun h = inl h
  Applied-history (more {c} p k) (taken a) (inl q) = inr (c, p, q)
  Applied-history (more p k) (taken a) (inr h) = Applied-history k a h
  Applied-history (more p k) (lost a) h = Applied-history k a h
