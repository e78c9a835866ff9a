-- ===== src/Metrics/Adapters/Names.antt =====
-- The identifiers of the adapters (metrics/adapters/__init__.py).
use samsung.Prelude.{◌≡◌, refl, Option, some, Text, text_eq, contains}
use samsung.Actuator.Environment.{trimmed_lower}
use samsung.Metrics.Adapters.{
  Impl, envoy_gateway, istio, nginx_gateway_fabric, impl_name, get_adapter,
}

impl_name_kept : (i : Impl) → get_adapter (some (impl_name i)) ≡ i
unfolding get_adapter impl_name trimmed_lower text_eq contains
impl_name_kept envoy_gateway = refl
impl_name_kept istio = refl
impl_name_kept nginx_gateway_fabric = refl

-- The implementation that any identifier gets, an alias, an unknown one or none at all included, is got
-- again by its own name.
pub get_adapter-impl_name :
    (impl : Option Text) → get_adapter (some (impl_name (get_adapter impl))) ≡ get_adapter impl
get_adapter-impl_name impl = impl_name_kept (get_adapter impl)
