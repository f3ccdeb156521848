-- ===== src/Lifecycle/Progress.antt =====
-- Reconciles (src/operator/reconciler.rs) of an experiment, one after the other, move it towards its end.
use ch_chaos.Base.{
  ℕ, suc, ◌+◌, ◌<◌, ◌≡◌, ap, ◌⊎◌, inl, inr, true, false, Option, List, [], if◌then◌else◌, Outcome,
  done, fail, panic, arith,
}
use ch_chaos.Types.{Phase}
use ch_chaos.Errors.{OperatorError}
use ch_chaos.Crd.{ChaosExperiment, ChaosExperimentStatus}
use ch_chaos.Crd.Encoding.Patching.{merge_status}
use ch_chaos.Trace.{Extends, same, more}
use ch_chaos.Experiment.{
  Call, KubeClient, EdgeResolver, System, ReconcilerConfig, ReconcileResult, needs_finalizer,
  is_being_deleted, current_status,
}
use ch_chaos.Experiment.Advance.{Idle, HasWritten, Settles}
use ch_chaos.Experiment.Advance.All.{reconcile-Reports}
use ch_chaos.Experiment.Guard.{Allowed, IsLegal, started, refused, ended, cleaned}
use ch_chaos.Experiment.Guard.All.{reconcile-Allowed}
use ch_chaos.Experiment.Order.{is_write, WritesLast, written, unwritten}
use ch_chaos.Experiment.Order.Ending.{reconcile-Concludes}
use ch_chaos.Experiment.Reconcile.{reconcile}
use ch_chaos.Lifecycle.{State, take_all, take_all-Applied, effect}
use ch_chaos.Lifecycle.Writes.{quiet-object}

abbrev pub status_distance : ChaosExperimentStatus → ℕ
status_distance status = elim status.phase [
  | Phase.pending ↦ 3
  | Phase.running ↦ 2
  | Phase.succeeded ↦ if status.cleanup_done then 0 else 1
  | Phase.failed ↦ if status.cleanup_done then 0 else 1
]

-- the most writes that the experiment can still see: the finalizer, the start, the end, the cleanup
abbrev pub distance : ChaosExperiment → ℕ
distance e = (if needs_finalizer e then 1 else 0) + status_distance (current_status e)

status_distance-merge_status :
    (s t : ChaosExperimentStatus)
    → IsLegal s t
    → status_distance (merge_status s t) < status_distance s
status_distance-merge_status s t (started p r d) = ground arith
status_distance-merge_status s t (refused m p e) = ground arith
status_distance-merge_status s t (ended phase m time p over e) = ground arith
status_distance-merge_status s t (cleaned over dirty e) = ground arith

module _ (kube : KubeClient) (e : ChaosExperiment) where
  distance-effect :
      (c : Call)
      → Allowed kube e c
      → is_write c ≡ true
      → is_being_deleted e ≡ false
      → distance (effect c e) < distance e
  unfolding effect current_status needs_finalizer
  distance-effect (Call.patch_experiment_status ns name t) p w alive =
      let less = status_distance-merge_status (current_status e) t p.4 in omega (arith, less)
  distance-effect (Call.add_finalizer ns name) p w alive = rw p.0 (omega arith)
  distance-effect (Call.remove_finalizer ns name) p w alive = cc (p.0, alive)
  distance-effect _ p w alive = cc w

  take_all-written :
      (s : State) {l : List Call}
      → WritesLast [] l
      → HasWritten l
      → Extends (Allowed kube e) [] l
      → (c : Call) × Allowed kube e c
        × (is_write c ≡ true)
        × ((take_all s l).object ≡ effect c s.object)
  take_all-written s (unwritten same) w p = absurd w
  take_all-written s (unwritten (more q h)) w p = cc (q, w)
  take_all-written s (written {c} {l} w h) k (more p q) =
      (c, p, w, ap (effect c) (quiet-object h (take_all-Applied s l)))

module _ {DateTime F : Type 0} (sys : System DateTime) (kube : KubeClient)
    (resolver : Option (EdgeResolver F)) (config : ReconcilerConfig) where
  by_report :
      (s : State) (r : Outcome OperatorError ReconcileResult × List Call) {a : ReconcileResult}
      → Settles (Idle sys kube s.object) r
      → r.0 ≡ done a
      → WritesLast [] r.1
      → Extends (Allowed kube s.object) [] r.1
      → is_being_deleted s.object ≡ false
      → Idle sys kube s.object ⊎ (distance (take_all s r.1).object < distance s.object)
  by_report s (fail x, l) h e w p alive = cc e
  by_report s (panic, l) h e w p alive = cc e
  by_report s (done a, l) (inr idle) e w p alive = inl idle
  by_report s (done a, l) (inl hw) e w p alive =
      let (c, allowed, is_w, after) = take_all-written kube s.object s w hw p in
      inr (rw after (distance-effect kube s.object c allowed is_w alive))

  -- A reconcile of an experiment that is not being deleted, if it returns no error and the server takes
  -- its calls, brings the experiment nearer to its end, or there was a reason to leave it.
  pub reconcile-advances :
      (s : State) {a : ReconcileResult}
      → is_being_deleted s.object ≡ false
      → (reconcile sys kube resolver config s.object []).0 ≡ done a
      → Idle sys kube s.object
        ⊎ (distance (take_all s (reconcile sys kube resolver config s.object []).1).object
            < distance s.object)
  reconcile-advances s alive e =
      by_report s (reconcile sys kube resolver config s.object [])
        ((reconcile-Reports sys kube resolver config s.object).run []) e
        ((reconcile-Concludes sys kube s.object resolver config).run [])
        ((reconcile-Allowed sys kube resolver config s.object).run []) alive

module _ (DateTime F : Type 0) where
  -- Reconciles one after the other, each of which returns, sees an experiment that is not being deleted
  -- and has no reason to leave it, and whose calls the server takes.
  pub data Driven (s : State) : ℕ → State → Type 0 where
    undriven : Driven s 0 s
    driven :
        {n : ℕ} {t : State} (sys : System DateTime) (kube : KubeClient)
        (resolver : Option (EdgeResolver F)) (config : ReconcilerConfig) {a : ReconcileResult}
        → Driven s n t
        → is_being_deleted t.object ≡ false
        → ¬ Idle sys kube t.object
        → (reconcile sys kube resolver config t.object []).0 ≡ done a
        → Driven s (suc n) (take_all t (reconcile sys kube resolver config t.object []).1)
