-- ===== src/Graph/Http.antt =====
-- src/operator/graph_builder.rs: `HttpPrometheusClient` and `GraphBuilder`, and the requests that they
-- send: the query of Prometheus' HTTP API below the base URL.
use Prim.Native.Char.{Char, code}
use Prim.Native.String.{String}
use ch_chaos.Base.{List, [], ◌∷◌, Result, if◌then◌else◌, format, ◌==◌}
use ch_chaos.Types.{EdgeInfo}
use ch_chaos.Errors.{OperatorError}
use ch_chaos.Float.{Float}
use ch_chaos.Graph.{PrometheusApiResponse, GraphBuilderConfig}
use ch_chaos.Graph

-- `str::trim_end_matches('/')`
abbrev before_end : Char → String → String
before_end c String.[] = if code c == 47 then String.[] else String.◌∷◌ c String.[]
before_end c (String.◌∷◌ d s) = String.◌∷◌ c (String.◌∷◌ d s)

unfoldable pub trim_end_slashes : String → String
trim_end_slashes String.[] = String.[]
trim_end_slashes (String.◌∷◌ c s) = before_end c (trim_end_slashes s)

pub record HttpPrometheusClient : Type 0 where
  pub base_url : String

-- `HttpPrometheusClient::new`
unfoldable pub new_client : String → HttpPrometheusClient
unfolding trim_end_slashes
new_client base_url = record { base_url = trim_end_slashes base_url }

-- `format!("{}/api/v1/query", self.base_url)`
abbrev pub query_url : HttpPrometheusClient → String
query_url client = format (client.base_url ∷ "/api/v1/query" ∷ [])

pub record GraphBuilder (F : Type 0) : Type 0 where
  pub client : HttpPrometheusClient
  pub config : GraphBuilderConfig F

-- `GraphBuilder::new`
abbrev pub new_builder : {F : Type 0} → HttpPrometheusClient → GraphBuilderConfig F → GraphBuilder F
new_builder client config = record { client = client; config = config }

-- what a GET request with these query parameters answers, by its URL
abbrev pub Get : Type 0 → Type 0
Get F = String → List (String × String) → Result String (PrometheusApiResponse F)

-- the requests of a client
abbrev pub send :
    {F : Type 0}
    → Get F
    → HttpPrometheusClient
    → List (String × String)
    → Result String (PrometheusApiResponse F)
send get client = get (query_url client)

-- `GraphBuilder::resolve_edge` over the real client
unfoldable pub resolve_edge_by :
    {F : Type 0}
    → Float F
    → Get F
    → GraphBuilder F
    → String
    → String
    → String
    → Result OperatorError (EdgeInfo F)
unfolding Graph.resolve_edge
resolve_edge_by float get builder =
    Graph.resolve_edge float (send get builder.client) builder.config
