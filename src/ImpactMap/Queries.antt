-- ===== src/ImpactMap/Queries.antt =====
-- src/operator/impact_map_reconciler.rs: the PromQL builders.
use ch_chaos.Base.{String, List, [], ◌∷◌, format, str_eq, if◌then◌else◌}

-- `[String]::join`
abbrev pub join : String → List String → String
join separator [] = ""
join separator (s ∷ []) = s
join separator (s ∷ t ∷ rest) = format (s ∷ separator ∷ join separator (t ∷ rest) ∷ [])

unfoldable pub build_namespace_filter : List String → String
build_namespace_filter [] = ""
build_namespace_filter (n ∷ ns) =
    format ("destination_workload_namespace=~\"" ∷ join "|" (n ∷ ns) ∷ "\"" ∷ [])

abbrev pub label_filter : String → String
label_filter ns_filter = if str_eq ns_filter "" then "" else format ("{" ∷ ns_filter ∷ "}" ∷ [])

abbrev pub label_filter_with_extra : String → String → String
label_filter_with_extra ns_filter extra =
    if str_eq ns_filter ""
    then format ("{" ∷ extra ∷ "}" ∷ [])
    else format ("{" ∷ extra ∷ "," ∷ ns_filter ∷ "}" ∷ [])

unfoldable pub build_latency_query : String → String → String
build_latency_query ns_filter rate_window = format (
    "histogram_quantile(0.99, sum by (destination_workload, destination_workload_namespace, le) (rate(istio_request_duration_milliseconds_bucket"
    ∷ label_filter ns_filter
    ∷ "["
    ∷ rate_window
    ∷ "])))"
    ∷ [])

unfoldable pub build_error_rate_query : String → String → String
build_error_rate_query ns_filter rate_window = format (
    "sum by (destination_workload, destination_workload_namespace) (rate(istio_requests_total"
    ∷ label_filter_with_extra ns_filter "response_code=~\"5..\""
    ∷ "["
    ∷ rate_window
    ∷ "])) / sum by (destination_workload, destination_workload_namespace) (rate(istio_requests_total"
    ∷ label_filter ns_filter
    ∷ "["
    ∷ rate_window
    ∷ "]))"
    ∷ [])

unfoldable pub build_throughput_query : String → String → String
build_throughput_query ns_filter rate_window = format (
    "sum by (destination_workload, destination_workload_namespace) (rate(istio_requests_total"
    ∷ label_filter ns_filter
    ∷ "["
    ∷ rate_window
    ∷ "]))"
    ∷ [])
