-- ===== src/Tests/Model.antt =====
-- Concrete parameters and objects for the tests: floats as thousandths, a cluster that takes every
-- call, and two experiments.
use ch_chaos.Base.{
  ℕ, ◌+◌, ◌-◌, ◌*◌, ◌/◌, String, false, Option, none, some, [], ◌∷◌, ok, pos, max, min, leb, ◌==◌,
  str_eq, if◌then◌else◌, codes, parse_u64, decimal,
}
use mathlib.Core.Option
use ch_chaos.Types.{
  Phase, EdgeInfo, ScenarioType, finalizer_name, experiment_label, managed_by_label,
  managed_by_value,
}
use ch_chaos.Json.{num, object}
use ch_chaos.Objects.{ObjectMeta}
use ch_chaos.Crd.{ChaosExperiment, ChaosExperimentSpec, default_experiment_status}
use ch_chaos.Float.{Float}
use ch_chaos.JobBuilder.{default_job_builder_config, default_meta}
use ch_chaos.Experiment.{KubeClient, EdgeResolver, System, ReconcilerConfig, VirtualServiceInfo}

abbrev pub float : Float ℕ
float = record {
  literal = λ s. if str_eq s "100.0" then 100000 else if str_eq s "0.05" then 50 else 0;
  sub = λ a b. a - b;
  mul = λ a b. a * b / 1000;
  div = λ a b. a * 1000 / b;
  fmax = max;
  round = λ a. (a + 500) / 1000 * 1000;
  as_u32 = λ a. min (a / 1000) 4294967295;
  eq = ◌==◌;
  ge = λ a b. leb b a;
  is_nan = λ _. false;
  parse = λ s. Option.map (λ n. n * 1000) (parse_u64 (codes s));
  fixed = λ _ a. decimal (a / 1000);
}

abbrev pub managed : VirtualServiceInfo
managed = record {
  name = "chaos-edge-12345678";
  labels = (experiment_label, "latency") ∷ (managed_by_label, managed_by_value) ∷ [];
}

abbrev pub foreign : VirtualServiceInfo
foreign = record { name = "payments"; labels = [] }

abbrev pub cluster : KubeClient
cluster = record {
  create_job = λ _ _ _. ok tt;
  list_jobs = λ _ _ _. ok [];
  delete_job = λ _ _ _. ok tt;
  list_target_nodes = λ _ _. ok ("node-a" ∷ "node-b" ∷ []);
  get_service_selector = λ _ _ _. ok (("app", "cart") ∷ []);
  create_virtual_service = λ _ _ _. ok tt;
  list_virtual_services_for_host = λ _ _ _. ok (managed ∷ foreign ∷ []);
  delete_virtual_service = λ _ _ _. ok tt;
  patch_experiment_status = λ _ _ _ _. ok tt;
  add_finalizer = λ _ _ _. ok tt;
  remove_finalizer = λ _ _ _. ok tt;
}

abbrev pub edge_info : EdgeInfo ℕ
edge_info = record {
  source_workload = "cart";
  source_namespace = "shop";
  destination_workload = "pay-v1";
  destination_namespace = "shop";
  destination_service = "pay";
  rps = 2000;
  source_labels = [];
}

abbrev pub resolver : Option (EdgeResolver ℕ)
resolver = some (record { resolve_edge = λ _ _ _ _. ok edge_info })

-- time as a count of seconds
abbrev pub system : System ℕ
system = record {
  now = λ _. 100;
  parse_from_rfc3339 = λ s. parse_u64 (codes s);
  to_rfc3339 = decimal;
  seconds_since = λ start now. pos (now - start);
  new_v4 = λ _. "00000000-0000";
  json_text = λ _. "{}";
}

abbrev pub config : ReconcilerConfig
config = record { job_builder = default_job_builder_config }

abbrev meta : String → ObjectMeta
meta name = record default_meta {
  name = some name;
  namespace = some "chaos";
  uid = some "12345678-abcd";
  finalizers = some (finalizer_name ∷ []);
}

-- a pending experiment on the nodes
abbrev pub killer : ChaosExperiment
killer = record {
  metadata = meta "killer";
  spec = record {
    scenario = ScenarioType.pod_killer;
    duration = 60;
    target_namespace = some "shop";
    target = none;
    parameters = none;
  };
  status = none;
}

abbrev pub latency_spec : ChaosExperimentSpec
latency_spec = record {
  scenario = ScenarioType.edge_delay;
  duration = 30;
  target_namespace = some "shop";
  target = some (record {
    namespace = some "shop";
    edge = some (record { source_service = "cart"; destination_service = "pay" });
  });
  parameters = some (object (("latencyMs", num 250) ∷ []));
}

-- an experiment on an edge that has succeeded and is not cleaned up
abbrev pub latency : ChaosExperiment
latency = record {
  metadata = meta "latency";
  spec = latency_spec;
  status = some (record default_experiment_status {
    phase = Phase.succeeded;
    experiment_id = some "12345678-abcd";
  });
}
