-- ===== src/Metrics/Adapters/Runs.antt =====
-- Runs of metrics/adapters/ at concrete inputs.
use samsung.Prelude.{◌≡◌, refl, codes}
use samsung.Actuator.Environment.{strip}
use samsung.Metrics.Adapters.{envoy_map_backend_name, starts_with}

short_name_run : envoy_map_backend_name (codes " shop/web ") ≡ codes "web"
unfolding envoy_map_backend_name starts_with strip
short_name_run = refl

path_name_run :
    envoy_map_backend_name (codes "httproute/shop/web/rule/0") ≡ codes "httproute/shop/web/rule/0"
unfolding envoy_map_backend_name starts_with strip
path_name_run = refl
