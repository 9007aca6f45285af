-- ===== src/ProxyHosts/Apply.antt =====
-- `createOrUpdateProxyHost` of proxyhost_controller.go: the host on the instance is found or bound,
-- its configuration is put together, and it is updated or created. The status is written last.
pub mod Body
pub mod Binding
use nginxpm_operator.Base.{
  Bool, true, false, not, ◌&&◌, Option, none, some, List, [], ◌∷◌, if◌then◌else◌, all, ℤ, pos, ◌==◌,
  text-Eq, Text, txt,
}
use nginxpm_operator.Errors.{Error, KubeError, kube}
use nginxpm_operator.Api.{
  NamespacedName, ProxyHost, ProxyHostSsl, ProxyHostAccessList, InitialConfiguration,
}
use nginxpm_operator.Npm
use nginxpm_operator.Npm.{
  Client, RequestCustomField, RequestCustomFields, ProxyHostRequestInput, ProxyHostLocation,
  custom_field_unscoped_config, find_proxy_host_by_id, find_proxy_host_by_domain, enable_proxy_host,
  create_proxy_host, update_proxy_host, NginxMeta,
}
use nginxpm_operator.Effect.{
  Env, Action, Result, ok, err, panic, ◌>>=◌, ◌>>◌, pure, fail, attempt, ignore_error,
  nil_dereference, record_event,
}
use nginxpm_operator.Controller.{
  Attempt, update_status, with_event, json_field_exists, proxy_host_fields,
}
use nginxpm_operator.Controller.Resources.{proxy_host-Resource}
use nginxpm_operator.ProxyHosts.InitialConfig.{
  should_capture_initial_config, capture_initial_configuration,
}
use nginxpm_operator.ProxyHosts.Forward.{
  ProxyHostForward, Configs, make_forward, merge_nginx_upstream_configs,
}
use nginxpm_operator.ProxyHosts.Domains.{extract_domains}
use nginxpm_operator.ProxyHosts.References.{
  make_certificate, get_access_list_by_reference, construct_custom_location,
}

-- The host on the instance, whether it is bound, and the configuration to keep in the status.
pub record Located : Type 0 where
  pub host : Option Npm.ProxyHost
  pub bound : Bool
  pub captured : Option InitialConfiguration

unfoldable pub bind_host : ProxyHost → Option Npm.ProxyHost → Located
bind_host ph none = record { host = none; bound = ph.status.bound; captured = none }
bind_host ph (some h) = record {
  host = some h;
  bound = true;
  captured =
      if should_capture_initial_config ph (some h)
      then capture_initial_configuration (some h)
      else none;
}

-- `proxyHost, _ = ...`: an error leaves nil.
abbrev found_or_nil : Result (Option Npm.ProxyHost) → Option Npm.ProxyHost
found_or_nil (ok h) = h
found_or_nil (err e) = none
found_or_nil panic = none

unfoldable pub locate_new : ProxyHost → Client → Action Located
locate_new ph client =
    if ph.spec.bind_existing
    then (do
      answer ← attempt (find_proxy_host_by_domain client (extract_domains ph))
      pure (bind_host ph (found_or_nil answer)))
    else pure (bind_host ph none)

unfoldable pub locate_by : ProxyHost → Client → Option ℤ → Action Located
unfolding locate_new
locate_by ph client none = locate_new ph client
locate_by ph client (some id) = do
  host ← with_event (txt "FindProxyHostByID") (find_proxy_host_by_id client id)
  pure (record { host = host; bound = ph.status.bound; captured = ph.status.initial_configuration })

unfoldable pub locate : ProxyHost → Client → Action Located
unfolding locate_by
locate ph client = locate_by ph client ph.status.id

-- A host that is disabled is enabled; an error of that is dropped.
unfoldable pub enable_if_disabled : Client → Option Npm.ProxyHost → Action (Unit {0})
enable_if_disabled client none = pure tt
enable_if_disabled client (some h) =
    if h.enabled then pure tt else ignore_error (enable_proxy_host client h.id)

abbrev fields_of : Option Npm.ProxyHost → Bool
fields_of none = json_field_exists none custom_field_unscoped_config
fields_of (some h) = json_field_exists (some (proxy_host_fields h)) custom_field_unscoped_config

unfoldable pub unscoped_config_supported : Option Npm.ProxyHost → Bool
unscoped_config_supported = fields_of

abbrev id_of : Option Npm.Certificate → Option ℤ
id_of none = none
id_of (some c) = some c.id

abbrev access_list_id : Option Npm.AccessList → ℤ
access_list_id none = pos 0
access_list_id (some a) = a.id

unfoldable pub certificate_id_for :
    NamespacedName → ProxyHost → Client → Option ProxyHostSsl → Action (Option ℤ)
certificate_id_for req ph client none = pure none
certificate_id_for req ph client (some ssl) = do
  certificate ← with_event (txt "MakeCertificate") (make_certificate req ph ssl client)
  pure (id_of certificate)

unfoldable pub access_list_id_for : NamespacedName → Client → Option ProxyHostAccessList → Action ℤ
access_list_id_for req client none = pure (pos 0)
access_list_id_for req client (some reference) = do
  access_list ←
      with_event (txt "GetAccessListByReference")
        (get_access_list_by_reference req reference client)
  pure (access_list_id access_list)

-- The SSL fields of the request, which are false without `ph.Spec.Ssl`.
abbrev ssl_flag : (ProxyHostSsl → Bool) → Option ProxyHostSsl → Bool
ssl_flag flag none = false
ssl_flag flag (some ssl) = flag ssl

unfoldable pub request_input :
    ProxyHost → ProxyHostForward → List ProxyHostLocation → ℤ → Option ℤ → ProxyHostRequestInput
request_input ph forward locations access_list_id certificate_id = record {
  domain_names = extract_domains ph;
  forward_host = forward.host;
  forward_scheme = forward.scheme;
  forward_port = forward.port;
  block_exploits = ph.spec.block_exploits;
  allow_websocket_upgrade = ph.spec.websocket_support;
  certificate_id = certificate_id;
  ssl_forced = ssl_flag (λ ssl. ssl.ssl_forced) ph.spec.ssl;
  http2_support = ssl_flag (λ ssl. ssl.http2_support) ph.spec.ssl;
  hsts_enabled = ssl_flag (λ ssl. ssl.hsts_enabled) ph.spec.ssl;
  advanced_config = forward.advanced_config;
  locations = locations;
  caching_enabled = ph.spec.caching_enabled;
  hsts_subdomains = ssl_flag (λ ssl. ssl.hsts_subdomains) ph.spec.ssl;
  access_list_id = access_list_id;
  custom_fields = [];
}

-- The custom fields hold one entry, whose test `Allowed` is also that of all fields.
unfoldable pub with_custom_fields :
    Configs → Option Npm.ProxyHost → ProxyHostRequestInput → Action (ProxyHostRequestInput × Bool)
with_custom_fields configs host input = do
  let supported = unscoped_config_supported host
  merged ← merge_nginx_upstream_configs configs
  pure (
    record input {
      custom_fields =
          (
            custom_field_unscoped_config,
            record {
              field_name = custom_field_unscoped_config;
              value = merged;
              allowed = supported;
            },
          )
          ∷ [];
    },
    supported,
  )

-- After the creation the request is sent again, if the fields were left out of it.
unfoldable pub add_custom_fields :
    Client → Configs → Npm.ProxyHost → ProxyHostRequestInput → Bool → Action (Unit {0})
add_custom_fields client configs host input true = pure tt
add_custom_fields client configs host input false = do
  again ← with_custom_fields configs (some host) input
  ignore_error (update_proxy_host client host.id again.0)

unfoldable pub write_host :
    Client → Configs → Option Npm.ProxyHost → ProxyHostRequestInput → Bool → Action Npm.ProxyHost
unfolding add_custom_fields
write_host client configs (some h) input supported =
    with_event (txt "UpdateProxyHost") (update_proxy_host client h.id input)
write_host client configs none input supported = do
  h ← with_event (txt "CreateProxyHost") (create_proxy_host client input)
  add_custom_fields client configs h input supported
  pure h

abbrev set_or_keep :
    Option InitialConfiguration → Option InitialConfiguration → Option InitialConfiguration
set_or_keep none old = old
set_or_keep (some config) old = some config

unfoldable pub applied_status : Located → Option ℤ → Npm.ProxyHost → ProxyHost → ProxyHost
applied_status located certificate_id h ph = record ph {
  status = record ph.status {
    id = some h.id;
    online = h.meta.nginx_online;
    certificate_id = certificate_id;
    bound = located.bound;
    initial_configuration = set_or_keep located.captured ph.status.initial_configuration;
  };
}

unfoldable pub create_or_update_proxy_host :
    NamespacedName → ProxyHost → Client → Action (Attempt ProxyHost)
create_or_update_proxy_host req ph client = do
  located ← locate ph client
  enable_if_disabled client located.host
  let supported = unscoped_config_supported located.host
  made ← with_event (txt "MakeForward") (make_forward supported ph req ph.spec.forward none)
  certificate_id ← certificate_id_for req ph client ph.spec.ssl
  acl_id ← access_list_id_for req client ph.spec.access_list
  built ←
      with_event (txt "ConstructCustomLocation") (construct_custom_location req supported ph made.0)
  let input = request_input ph built.1 built.0 acl_id certificate_id
  ready ← with_custom_fields built.1.nginx_upstream_configs located.host input
  h ← write_host client built.1.nginx_upstream_configs located.host ready.0 ready.1
  update_status req (λ env o. applied_status located certificate_id h o) ph
