-- ===== src/ProxyHosts/InitialConfig.antt =====
-- internal/controller/proxyhost/initial_config.go: the configuration of a host before the operator
-- changed it, and the request that restores it.
pub mod RoundTrip
use nginxpm_operator.Base.{
  Bool, ◌&&◌, Option, none, some, List, [], ◌∷◌, map, if◌then◌else◌, is_some, is_none, ℤ, pos, ◌==◌,
  int-Eq,
}
use nginxpm_operator.Api.{ProxyHost, InitialConfiguration, ProxyHostLocationConfig}
use nginxpm_operator.Npm
use nginxpm_operator.Npm.{ProxyHostLocation, ProxyHostRequestInput}

unfoldable pub capture_location : ProxyHostLocation → ProxyHostLocationConfig
capture_location loc = record {
  path = loc.path;
  advanced_config = loc.advanced_config;
  forward_scheme = loc.forward_scheme;
  forward_host = loc.forward_host;
  forward_port = loc.forward_port;
}

-- The certificate's id is captured if it is not 0. An empty list of locations stays nil.
unfoldable pub capture_initial_configuration : Option Npm.ProxyHost → Option InitialConfiguration
unfolding capture_location
capture_initial_configuration none = none
capture_initial_configuration (some h) = some (record {
  domain_names = h.domain_names;
  forward_host = h.forward_host;
  forward_port = h.forward_port;
  forward_scheme = h.forward_scheme;
  access_list_id = h.access_list_id;
  certificate_id = if h.certificate_id == pos 0 then none else some h.certificate_id;
  ssl_forced = h.ssl_forced;
  caching_enabled = h.caching_enabled;
  block_exploits = h.block_exploits;
  allow_websocket_upgrade = h.allow_websocket_upgrade;
  http2_support = h.http2_support;
  hsts_enabled = h.hsts_enabled;
  hsts_subdomains = h.hsts_subdomains;
  advanced_config = h.advanced_config;
  locations = map capture_location h.locations;
  enabled = h.enabled;
})

unfoldable pub restore_location : ProxyHostLocationConfig → ProxyHostLocation
restore_location loc = record {
  path = loc.path;
  advanced_config = loc.advanced_config;
  forward_scheme = loc.forward_scheme;
  forward_host = loc.forward_host;
  forward_port = loc.forward_port;
}

unfoldable pub build_restoration_input : Option InitialConfiguration → Option ProxyHostRequestInput
unfolding restore_location
build_restoration_input none = none
build_restoration_input (some config) = some (record {
  domain_names = config.domain_names;
  forward_host = config.forward_host;
  forward_scheme = config.forward_scheme;
  forward_port = config.forward_port;
  block_exploits = config.block_exploits;
  allow_websocket_upgrade = config.allow_websocket_upgrade;
  certificate_id = config.certificate_id;
  ssl_forced = config.ssl_forced;
  http2_support = config.http2_support;
  hsts_enabled = config.hsts_enabled;
  advanced_config = config.advanced_config;
  locations = map restore_location config.locations;
  caching_enabled = config.caching_enabled;
  hsts_subdomains = config.hsts_subdomains;
  access_list_id = config.access_list_id;
  custom_fields = [];
})

unfoldable pub should_capture_initial_config : ProxyHost → Option Npm.ProxyHost → Bool
should_capture_initial_config ph found =
    ph.spec.bind_existing && (is_some found && is_none ph.status.initial_configuration)

unfoldable pub should_restore_initial_config : ProxyHost → Bool
should_restore_initial_config ph = ph.status.bound && is_some ph.status.initial_configuration
