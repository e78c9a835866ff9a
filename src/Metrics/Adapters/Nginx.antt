-- ===== src/Metrics/Adapters/Nginx.antt =====
-- metrics/adapters/nginx_gateway_fabric.py: the queries and the names of NGINX Gateway Fabric.
use samsung.Prelude.{Option, List, [], ◌∷◌, ◌++◌, Text, codes, split_from, nonempty, if◌then◌else◌}
use samsung.Metrics.Adapters.{rate, sum_all, sum_by}

zone_selector : Text → Option Text → Text
zone_selector route namespace = codes "server_zone=\"" ++ (route ++ codes "\"")

upstream_selector : Text → Option Text → Text
upstream_selector route namespace = codes "upstream=~\".*" ++ (route ++ codes ".*\"")

-- name{selector}
series : Text → Text → Text
series name selector = name ++ (codes "{" ++ (selector ++ codes "}"))

abbrev responses_5xx : Text
responses_5xx = codes ",code=\"5xx\""

abbrev percentile : Text
percentile = codes "nginxplus_http_upstream_server_response_time_percentile"

pub nginx_aggregate_queries : Text → Option Text → Text → List (Text × Text)
unfolding zone_selector upstream_selector series
nginx_aggregate_queries route namespace window =
    let zone_sel = zone_selector route namespace in
    let up_sel = upstream_selector route namespace in
    (
      codes "total_rps",
      sum_all (rate (codes "nginxplus_http_server_zone_requests") zone_sel window),
    )
    ∷ (
      codes "error_rps",
      sum_all
          (rate (codes "nginxplus_http_server_zone_responses") (zone_sel ++ responses_5xx) window),
    )
    ∷ (
      codes "p50",
      codes "avg("
          ++ (series (codes "nginxplus_http_upstream_server_response_time") up_sel ++ codes ")"),
    )
    ∷ (
      codes "p95",
      codes "avg(" ++ (series percentile (up_sel ++ codes ",quantile=\"0.95\"") ++ codes ")"),
    )
    ∷ (
      codes "p99",
      codes "avg(" ++ (series percentile (up_sel ++ codes ",quantile=\"0.99\"") ++ codes ")"),
    )
    ∷ []

pub nginx_backend_queries : Text → Option Text → Text → List (Text × Text)
unfolding upstream_selector series
nginx_backend_queries route namespace window =
    let up_sel = upstream_selector route namespace in
    let lbl = codes "upstream" in
    (codes "rps", sum_by lbl (rate (codes "nginxplus_http_upstream_server_requests") up_sel window))
    ∷ (
      codes "error_rps",
      sum_by lbl (
          rate (codes "nginxplus_http_upstream_server_responses") (up_sel ++ responses_5xx) window),
    )
    ∷ (
      codes "p99",
      codes "avg by ("
          ++ (lbl
              ++ (codes ") ("
                  ++ (series percentile (up_sel ++ codes ",quantile=\"0.99\"") ++ codes ")"))),
    )
    ∷ []

-- the middle of three parts; the text itself where there are not three
middle_part : Text → List Text → Text
middle_part whole (a ∷ b ∷ c ∷ []) = b
middle_part whole _ = whole

pub nginx_map_backend_name : Text → Text
unfolding middle_part
nginx_map_backend_name label_value =
    if nonempty label_value
    then middle_part label_value (split_from b'_' [] label_value)
    else label_value
