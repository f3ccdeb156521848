-- ===== src/Lib.antt =====
-- Verification of the chaos operator, a Kubernetes operator in Rust that injects faults into a cluster
-- and measures what they do.
--
-- The operator watches three custom resources. A ChaosExperiment is injected, watched and cleaned up
-- by src/operator/reconciler.rs: node chaos runs one Job on each target node (job_builder.rs), edge
-- chaos puts a VirtualService with a fault between two services (istio_injector.rs), if the edge is
-- seen in the traffic (graph_builder.rs). A ChaosAnalysis compares a metric before and during an
-- experiment (analysis_reconciler.rs), a ChaosImpactMap all services of a mesh
-- (impact_map_reconciler.rs). All read and write the specs and statuses of crd.rs with the types of
-- types.rs. The Jobs run src/runner, which reads its configuration from the variables that the
-- operator sets, and injects the fault on the node.
--
-- Which file models what:
--   Types, Errors        src/operator/types.rs: enums, errors and their texts, constants
--   Crd, Crd/Impact      src/operator/crd.rs: the resources; `calculate_impact`
--   JobBuilder           src/operator/job_builder.rs: `build_runner_job` and its parts
--   Istio                src/operator/istio_injector.rs: faults and VirtualServices as JSON (Json)
--   Experiment           src/operator/reconciler.rs: traits and helpers; in Experiment/, Kube has the
--                        calls, Handlers `handle_deletion`, `handle_running`, `handle_terminal` and the
--                        cleanup, Pending `handle_pending`, Reconcile `reconcile`
--   Lifecycle            an experiment's life: reconciles of the stored object, and what users do to it
--   Crd/Encoding         the JSON of the statuses, as their serde attributes say (in Crd/Encoding/Reports
--                        those of analyses and impact maps)
--   Json/MergePatch      the merge patch of the API server (RFC 7386), a parameter with its laws
--   Client               src/operator/kube_client.rs: the API server as a parameter; in Client/, Methods
--                        has each method of `RealKubeClient`, Real the clients that the reconcilers get
--   Controller           src/operator/controller.rs: the contexts that `run` makes, the handlers,
--                        the error policies, and what each controller does with one object
--   Graph                src/operator/graph_builder.rs: Prometheus answers, the service graph, edges; in
--                        Graph/, Http has the client's URL and `GraphBuilder`
--   Analysis, Duration   src/operator/analysis_reconciler.rs: `reconcile_analysis`, with the times of
--                        its queries in Analysis/Windows; `parse_duration_str`
--   ImpactMap            src/operator/impact_map_reconciler.rs: discovery, scores, classification,
--                        status builders; in ImpactMap/, Traversal has `reachable_from`, Queries the
--                        PromQL builders, Reconcile `reconcile_impact_map`
--   Runner               src/runner/entry.rs: `RunnerConfig::from_env`; in Runner/, Execute has
--                        `execute_scenario`, Run `run`, Pods and Real `RealPodClient`, Scenarios
--                        src/runner/scenarios: `parse_config` and `execute` of each scenario, Real
--                        `SystemCommandRunner`
--   Runner/Metrics       src/runner/metrics.rs: the metrics as a state
--   Runner/Server        src/runner/server.rs: the handlers, the routes and the start of the server
--   Main                 src/main.rs: the runner mode, and the URL for the operator mode
-- Objects holds the fields of the Kubernetes objects that the source uses. Float, Chrono, and the
-- records KubeClient, EdgeResolver and System (Experiment), Clients (Analysis, ImpactMap/Reconcile)
-- and Effects (Runner/Scenarios) are parameters: floating point, the crates chrono and uuid, and the
-- clients that the source injects. Client/Real fills KubeClient, EdgeResolver and Clients with the
-- clients that the operator really has, Runner/Real fills Effects; what is then left as a parameter is
-- the API server (Api in Client, PodApi in Runner/Pods), the HTTP requests to Prometheus (Get in
-- Graph/Http), the JSON of floating point numbers (Serde in Client), the programs of the runner's
-- container (World in Runner/Real), the routing of requests by Istio (Mesh in Istio/Routes), and the constructors, the registry and the encoder of the crate prometheus
-- (Runner/Metrics, Runner/Server).
--
-- A handler is an action (Base/Results): from the calls made so far it gives an outcome (a value, an
-- error that `?` passes on, or a panic) and the calls made by then. A client answers by all the
-- calls before, so that nothing is assumed of the cluster. A whole reconcile is one such action, and
-- Trace carries a property of each call through the code, Experiment/Order that a write comes last,
-- Experiment/Advance that there is one or a reason not to.
-- In Lifecycle each reconcile sees the object as it is stored at that time, and the server takes or
-- loses each of its calls, whatever it answers; a write with an outdated view of the object is not
-- in that model. Client/Patches ties the writes of Lifecycle to the patches that the client sends.
-- The theorems on a component stand in its child modules (Experiment/Guard, Nodes, Failure, Edge,
-- Removal, Progress, Validity, Order, Advance; Lifecycle/Evolution, Writes, Safety, Progress;
-- Crd/Encoding/Reading, Patching; Client/Nodes, Patches, Reports; Controller/Retries, Placement,
-- Evidence; ImpactMap/Reach, Scores, Order, Outcomes, Endings, Times, Metrics,
-- Classes, Reports; Graph/Edges,
-- Traffic; Analysis/Outcomes, Endings; Istio/Routes; JobBuilder/Names; Duration/Units;
-- Runner/Environment, Targets, Restored, Run/Reported, Pods/Deleted; Main/Kills), their applications
-- in Tests.
--
-- Numbers are natural numbers, with the wrap-around of `as u32`, `as u16`, `as i64` and of the `u64`
-- products written out. A slice that cuts a character is `none`, which is a panic. The search of the
-- impact map runs on fuel, one more than the number of edges: a node enters the queue once, and every
-- node but the first is the end of an edge.
-- A `HashMap` is an association list and a `HashSet` a list; the source sorts what it takes from their
-- order of iteration, or only asks for membership. Sorting is an insertion sort that keeps the order of
-- equals (Base/Sort), as `sort_by` does; Base/Order has the order of texts, Base/Ascending that a list
-- in strictly ascending order is determined by its members.
--
-- Not modelled: what the crate kube does with a controller (watching, queues, retries after the
-- action that a handler returns), the sockets of the runner's server and the choice of its route, the
-- parsing of arguments and src/bin/crd_gen.rs, logging, the schemas of the resources, and the JSON
-- that the crate kube decodes.
pub mod Base
pub mod Types
pub mod Errors
pub mod Json
pub mod Objects
pub mod Crd
pub mod JobBuilder
pub mod Istio
pub mod Experiment
pub mod Trace
pub mod Float
pub mod Graph
pub mod Analysis
pub mod ImpactMap
pub mod Chrono
pub mod Duration
pub mod Runner
pub mod Client
pub mod Controller
pub mod Lifecycle
pub mod Main
mod Tests
