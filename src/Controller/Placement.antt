-- ===== src/Controller/Placement.antt =====
-- Where the Jobs of a node experiment run, from the pods that the API server lists
-- (src/operator/controller.rs, reconciler.rs, kube_client.rs).
use ch_chaos.Base.{
  String, ◌≡◌, refl, inl, inr, Option, some, List, [], ◌∷◌, Result, ok, err, Any, pure,
}
use ch_chaos.Errors.{KubeError}
use ch_chaos.Objects.{Job}
use ch_chaos.Crd.{ChaosExperiment}
use ch_chaos.Float.{Float}
use ch_chaos.Trace.{Emits, Emits-mono, >>=-Emits, pure-Emits}
use ch_chaos.Experiment.{Call, System, exp_namespace, target_namespace}
use ch_chaos.Experiment.Guard.{Allowed, MayInject, IsPlaced, job_node}
use ch_chaos.Experiment.Guard.All.{reconcile-Allowed}
use ch_chaos.Client.{Api, Serde, Pod, Request, send, then_return}
use ch_chaos.Client.Methods.{node_of, target_nodes, list_target_nodes}
use ch_chaos.Client.Nodes.{target_nodes_lem}
use ch_chaos.Client.Real.{Http, real_kube_client, sent}
use ch_chaos.Controller.{operator_context, action_of, reconcile_handler}

-- The API server listed a pod of the target namespace that is scheduled on the node of the Job.
abbrev pub RunsBeside : Api → ChaosExperiment → Job → Type 0
RunsBeside api e job =
    (node : String) × (log : List Request) × (pods : List Pod) × (job_node job ≡ some node)
    × (api.list_pods (target_namespace e) log ≡ ok pods)
    × Any (λ p. node_of p ≡ some node) pods

abbrev pub Placed : Api → ChaosExperiment → Call → Type 0
Placed api e (Call.create_job ns job) = MayInject e × (ns ≡ exp_namespace e) × RunsBeside api e job
Placed api e _ = Unit

pods_of :
    (q : Request) (r : Result KubeError (List Pod)) (log : List Request) (nodes : List String)
    → (then_return (send q (λ _. r)) target_nodes log).0 ≡ ok nodes
    → (pods : List Pod) × (r ≡ ok pods) × (target_nodes pods ≡ nodes)
pods_of q (ok pods) log nodes h = (pods, refl, cc h)
pods_of q (err e) log nodes h = cc h

node_in :
    (o : Option String) (nodes : List String)
    → Any (λ n. o ≡ some n) nodes
    → (node : String) × (o ≡ some node) × Any (λ s. s ≡ node) nodes
node_in o [] h = absurd h
node_in o (n ∷ nodes) (inl h) = (n, h, inl refl)
node_in o (n ∷ nodes) (inr h) = let (m, e, a) = node_in o nodes h in (m, e, inr a)

module _ {DateTime F : Type 0} (api : Api) (serde : Serde F) (float : Float F)
    (sys : System DateTime) (http : Http api serde float Call) (env : List (String × String))
    (url : String) (e : ChaosExperiment) where
  IsPlaced-RunsBeside :
      (job : Job) → IsPlaced (real_kube_client api serde) e job → RunsBeside api e job
  unfolding real_kube_client list_target_nodes
  IsPlaced-RunsBeside job (log, nodes, listed, at) =
      let ns = target_namespace e in
      let reqs = sent api serde log in
      let (pods, answered, same) =
        pods_of (Request.list_pods ns) (api.list_pods ns reqs) reqs nodes listed in
      let (node, bound, here) = node_in (job_node job) nodes at in
      (node, reqs, pods, bound, answered, ((target_nodes_lem pods).1 node).0 (rw same here))

  allowed : (c : Call) → Allowed (real_kube_client api serde) e c → Placed api e c
  allowed (Call.create_job ns job) p = (p.0, p.2, IsPlaced-RunsBeside job p.3)
  allowed _ p = tt

  -- Whatever the API server and Prometheus answer, the controller creates Jobs only for a valid, pending
  -- experiment that has the finalizer and is not being deleted, in the experiment's namespace, and each
  -- on a node on which a pod of the target namespace was listed as scheduled.
  pub reconcile_handler-Placed :
      Emits (Placed api e) (reconcile_handler sys (operator_context api serde float http env url) e)
  unfolding reconcile_handler operator_context
  reconcile_handler-Placed =
      let ctx = operator_context api serde float http env url in
      >>=-Emits (Placed api e) _ (λ result. pure (action_of result))
        (Emits-mono allowed
          (reconcile-Allowed sys ctx.kube_client (some ctx.edge_resolver) ctx.config e))
        (λ result. pure-Emits (Placed api e) (action_of result))
