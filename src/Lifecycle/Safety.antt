-- ===== src/Lifecycle/Safety.antt =====
-- What holds of an experiment all through its life.
use ch_chaos.Base.{◌≡◌, refl, ◌⊎◌, inl, inr, true, false, Option, [], Any}
use ch_chaos.Crd.{ChaosExperiment}
use ch_chaos.Experiment.{
  Call, KubeClient, EdgeResolver, System, ReconcilerConfig, needs_finalizer, is_being_deleted,
  current_status,
}
use ch_chaos.Experiment.Reconcile.{reconcile}
use ch_chaos.Experiment.Guard.{Allowed}
use ch_chaos.Experiment.Guard.All.{reconcile-Allowed}
use ch_chaos.Experiment.Order.Ending.{reconcile-Concludes}
use ch_chaos.Lifecycle.{
  State, Step, reconciled, deleted, edited, Reach, here, next, Applied, effect,
}
use ch_chaos.Lifecycle.Evolution.{
  Evolves, Evolves-refl, Evolves-trans, IsConsistent, merge-Evolves, merge-IsConsistent,
}
use ch_chaos.Lifecycle.Writes.{WritesLast-object, Applied-history}

abbrev pub IsInjection : Call → Type 0
IsInjection (Call.create_job ns job) = Unit
IsInjection (Call.create_virtual_service ns vs) = Unit
IsInjection _ = ⊥

-- The operator's finalizer holds the object, or its deletion is under way.
abbrev pub IsHeld : ChaosExperiment → Type 0
IsHeld e = (needs_finalizer e ≡ false) ⊎ (is_being_deleted e ≡ true)

-- A status that is marked clean is final, and an experiment that has ever injected chaos is held.
pub record Inv (s : State) : Type 0 where
  pub consistent : IsConsistent (current_status s.object)
  pub held : Any IsInjection s.history → IsHeld s.object

module _ (kube : KubeClient) (e : ChaosExperiment) where
  effect-Evolves :
      (c : Call)
      → Allowed kube e c
      → IsConsistent (current_status e)
      → Evolves (current_status e) (current_status (effect c e))
  unfolding effect current_status
  effect-Evolves (Call.patch_experiment_status ns name t) p k = merge-Evolves _ t k p.4
  effect-Evolves (Call.add_finalizer ns name) p k = Evolves-refl _
  effect-Evolves (Call.remove_finalizer ns name) p k = Evolves-refl _
  effect-Evolves _ p k = Evolves-refl _

  effect-IsConsistent :
      (c : Call)
      → Allowed kube e c
      → IsConsistent (current_status e)
      → IsConsistent (current_status (effect c e))
  unfolding effect current_status
  effect-IsConsistent (Call.patch_experiment_status ns name t) p k = merge-IsConsistent _ t k p.4
  effect-IsConsistent (Call.add_finalizer ns name) p k = k
  effect-IsConsistent (Call.remove_finalizer ns name) p k = k
  effect-IsConsistent _ p k = k

  effect-IsHeld : (c : Call) → Allowed kube e c → IsHeld e → IsHeld (effect c e)
  unfolding effect needs_finalizer is_being_deleted
  effect-IsHeld (Call.patch_experiment_status ns name t) p h = h
  effect-IsHeld (Call.add_finalizer ns name) p h = inl refl
  effect-IsHeld (Call.remove_finalizer ns name) p h = inr p.0
  effect-IsHeld _ p h = h

  injects-IsHeld : (c : Call) → Allowed kube e c → IsInjection c → IsHeld e
  injects-IsHeld (Call.create_job ns job) p i = inl p.0.protected
  injects-IsHeld (Call.create_virtual_service ns vs) p i = inl p.0.protected
  injects-IsHeld _ p i = absurd i

abbrev Good : State → State → Type 0
Good s t = Evolves (current_status s.object) (current_status t.object) × Inv t

module _ {DateTime F : Type 0} where
  module _ {s t : State} (inv : Inv s) where
    reconciled-Good :
        (sys : System DateTime) (kube : KubeClient) (resolver : Option (EdgeResolver F))
        (config : ReconcilerConfig)
        → Applied s (reconcile sys kube resolver config s.object []).1 t
        → Good s t
    reconciled-Good sys kube resolver config a =
        let allowed = (reconcile-Allowed sys kube resolver config s.object).run [] in
        let last = (reconcile-Concludes sys kube s.object resolver config).run [] in
        after (WritesLast-object last allowed a) (λ h.
          elim (Applied-history {Q = IsInjection} allowed a h) [
            | inl old ↦ inv.held old
            | inr (c, p, i) ↦ injects-IsHeld kube s.object c p i
          ])
      where
        after :
            (t.object ≡ s.object)
              ⊎ ((c : Call) × Allowed kube s.object c × (t.object ≡ effect c s.object))
            → (Any IsInjection t.history → IsHeld s.object)
            → Good s t
        after (inl e) held = (
          rw e (Evolves-refl _),
          record { consistent = rw e inv.consistent; held = λ h. rw e (held h) },
        )
        after (inr (c, p, e)) held = (
          rw e (effect-Evolves kube s.object c p inv.consistent),
          record {
            consistent = rw e (effect-IsConsistent kube s.object c p inv.consistent);
            held = λ h. rw e (effect-IsHeld kube s.object c p (held h));
          },
        )

    Step-Good : Step DateTime F s t → Good s t
    unfolding current_status needs_finalizer is_being_deleted
    Step-Good (reconciled sys kube resolver config a) = reconciled-Good sys kube resolver config a
    Step-Good (deleted time e) =
        rw e (Evolves-refl _, record { consistent = inv.consistent; held = λ h. inr refl })
    Step-Good (edited spec e) =
        rw e (Evolves-refl _, record { consistent = inv.consistent; held = inv.held })

  -- Along any life of an experiment, from a state where a status that is marked clean is final and an
  -- experiment that has injected chaos is held by the operator's finalizer or being deleted, this stays
  -- so: a Job or VirtualService is never created for an object that could vanish without the operator.
  pub Reach-Inv : {s t : State} → Inv s → Reach DateTime F s t → Inv t
  Reach-Inv v here = v
  Reach-Inv v (next r st) = (Step-Good (Reach-Inv v r) st).1

  -- And the status only moves forward: pending, running, final; a final phase is kept; the names of the
  -- Jobs, the start and the experiment's id, once the experiment has left the pending phase, are kept;
  -- a status that is marked clean does not change any more.
  pub Reach-Evolves :
      {s t : State}
      → Inv s
      → Reach DateTime F s t
      → Evolves (current_status s.object) (current_status t.object)
  Reach-Evolves v here = Evolves-refl _
  Reach-Evolves v (next r st) = Evolves-trans (Reach-Evolves v r) (Step-Good (Reach-Inv v r) st).0
