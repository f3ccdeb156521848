-- ===== src/Objects.antt =====
-- The fields of the Kubernetes objects (crate `k8s_openapi`) that the source reads or writes. A field
-- that the source leaves at its default is left out.
use ch_chaos.Base.{ℕ, String, Bool, Option, List, ℤ}

abbrev pub Labels : Type 0
Labels = List (String × String)

pub record OwnerReference : Type 0 where
  pub api_version : String
  pub kind : String
  pub name : String
  pub uid : String
  pub controller : Option Bool
  pub block_owner_deletion : Option Bool

pub record ObjectMeta : Type 0 where
  pub name : Option String
  pub namespace : Option String
  pub uid : Option String
  pub labels : Option Labels
  pub annotations : Option Labels
  pub owner_references : Option (List OwnerReference)
  pub finalizers : Option (List String)
  pub deletion_timestamp : Option String

pub record EnvVar : Type 0 where
  pub name : String
  pub value : Option String

pub record ContainerPort : Type 0 where
  pub container_port : ℕ
  pub name : Option String

pub record SecurityContext : Type 0 where
  pub privileged : Option Bool

pub record Container : Type 0 where
  pub name : String
  pub image : Option String
  pub args : Option (List String)
  pub env : Option (List EnvVar)
  pub ports : Option (List ContainerPort)
  pub security_context : Option SecurityContext

pub record PodSpec : Type 0 where
  pub containers : List Container
  pub node_name : Option String
  pub restart_policy : Option String
  pub service_account_name : Option String

pub record PodTemplateSpec : Type 0 where
  pub metadata : Option ObjectMeta
  pub spec : Option PodSpec

pub record JobSpec : Type 0 where
  pub backoff_limit : Option ℕ
  pub ttl_seconds_after_finished : Option ℕ
  pub template : PodTemplateSpec

-- The counts are `i32`.
pub record JobStatus : Type 0 where
  pub succeeded : Option ℤ
  pub failed : Option ℤ

pub record Job : Type 0 where
  pub metadata : ObjectMeta
  pub spec : Option JobSpec
  pub status : Option JobStatus
