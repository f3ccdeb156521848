-- ===== src/Runner/Server.antt =====
-- src/runner/server.rs: the HTTP server of a runner, which serves its metrics. The sockets and the text
-- encoder of the crate `prometheus` are parameters; which route answers is the router's (the crate
-- `axum`).
use ch_chaos.Base.{ℕ, String, List, [], ◌∷◌, Result, ok, err, Action, request, format, ◌>>◌}
use ch_chaos.Errors.{RunnerError, execution_failed}
use ch_chaos.Runner.Metrics.{RunnerMetrics}

-- `Registry::gather` and `TextEncoder`: the text of all metrics, and its content type
pub record Encoder (F : Type 0) : Type 0 where
  pub encode : RunnerMetrics F → Result String String
  pub format_type : String

-- what a handler answers with: status, headers that it sets, body
pub record Response : Type 0 where
  pub status : ℕ
  pub headers : List (String × String)
  pub body : String

unfoldable pub health : Response
health = record { status = 200; headers = []; body = "{\"status\":\"ok\"}" }

abbrev encoded : String → Result String String → Response
encoded format_type (ok buffer) = record {
  status = 200;
  headers = ("content-type", format_type) ∷ [];
  body = buffer;
}
encoded format_type (err e) = record { status = 500; headers = []; body = "" }

unfoldable pub metrics : {F : Type 0} → Encoder F → RunnerMetrics F → Response
metrics encoder state = encoded encoder.format_type (encoder.encode state)

-- the GET routes of the router, by their paths
unfoldable pub routes : {F : Type 0} → Encoder F → List (String × (RunnerMetrics F → Response))
unfolding metrics health
routes encoder = ("/health", λ _. health) ∷ ("/metrics", metrics encoder) ∷ []

pub data ServerCall : Type 0 where
  bind : String → ℕ → ServerCall
  serve : ServerCall

-- `TcpListener::bind` and `axum::serve`, with the text of their error
pub record Network : Type 0 where
  pub bind : String → ℕ → List ServerCall → Result String (Unit {0})
  pub serve : List ServerCall → Result String (Unit {0})

abbrev labelled : String → Result String (Unit {0}) → Result RunnerError (Unit {0})
labelled what (ok _) = ok tt
labelled what (err e) = err (execution_failed (format (what ∷ e ∷ [])))

unfoldable pub start_server : Network → ℕ → Action ServerCall RunnerError (Unit {0})
start_server net port = do
  request (ServerCall.bind "0.0.0.0" port)
      (λ log. labelled "failed to bind: " (net.bind "0.0.0.0" port log))
  request ServerCall.serve (λ log. labelled "server error: " (net.serve log))
