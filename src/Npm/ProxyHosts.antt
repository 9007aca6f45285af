-- ===== src/Npm/ProxyHosts.antt =====
-- pkg/nginxpm/proxy_host.go
pub mod Matching
use nginxpm_operator.Base.{
  ℕ, Bool, true, false, Option, none, some, List, [], ◌∷◌, ◌++◌, ◌&&◌, if◌then◌else◌, any, all,
  find, length, ℤ, pos, ◌==◌, nat-Eq, int-Eq, text-Eq, Text, txt,
}
use nginxpm_operator.Base.Strings.{decimal, query_escape}
use nginxpm_operator.Json.{Json, Fields, bool, int, str, arr, obj, put}
use nginxpm_operator.Errors.{no_domains}
use nginxpm_operator.Effect.{
  Action, ◌>>=◌, ◌>>◌, pure, fail, dereference, json, no_body, post_method, put_method,
  delete_method,
}
use nginxpm_operator.Npm.Types.{ProxyHost, ProxyHostLocation, decode_proxy_host}
use nginxpm_operator.Npm.Requests.{
  Client, RequestCustomFields, get_list, find_by_id, do_request, read_response, check_status,
  is_success, object, items, put_custom_fields,
}

-- A nil slice of locations is replaced by an empty one before it is sent.
pub record ProxyHostRequestInput : Type 0 where
  pub domain_names : List Text
  pub forward_host : Text
  pub forward_scheme : Text
  pub forward_port : ℤ
  pub block_exploits : Bool
  pub allow_websocket_upgrade : Bool
  pub certificate_id : Option ℤ
  pub ssl_forced : Bool
  pub http2_support : Bool
  pub hsts_enabled : Bool
  pub advanced_config : Text
  pub locations : List ProxyHostLocation
  pub caching_enabled : Bool
  pub hsts_subdomains : Bool
  pub access_list_id : ℤ
  pub custom_fields : RequestCustomFields

unfoldable pub get_proxy_hosts : Client → Text → Action (List ProxyHost)
get_proxy_hosts c endpoint = get_list c endpoint decode_proxy_host

unfoldable pub find_proxy_host_by_id : Client → ℤ → Action (Option ProxyHost)
find_proxy_host_by_id c id = do
  hosts ← get_proxy_hosts c (txt "/api/nginx/proxy-hosts")
  pure (find_by_id (λ host. host.id) id hosts)

-- Two loops: every search domain is among the domains of the host.
unfoldable pub domains_match : List Text → List Text → Bool
domains_match host_domains search_domains =
    if length host_domains == length search_domains
    then all (λ search. any (λ host. host == search) host_domains) search_domains
    else false

unfoldable pub find_proxy_host_by_domain : Client → List Text → Action (Option ProxyHost)
find_proxy_host_by_domain c [] = fail no_domains
find_proxy_host_by_domain c (domain ∷ domains) = do
  hosts ← get_proxy_hosts c (txt "/api/nginx/proxy-hosts?query=" ++ query_escape domain)
  pure (find (λ host. domains_match host.domain_names (domain ∷ domains)) hosts)

abbrev pub proxy_host_path : ℤ → Text
proxy_host_path id = txt "/api/nginx/proxy-hosts/" ++ decimal id

unfoldable pub delete_existing : Client → ℤ → Option ProxyHost → Action (Unit {0})
delete_existing c id none = pure tt
delete_existing c id (some existing) = do
  resp ← do_request c delete_method (proxy_host_path id) no_body
  check_status resp

unfoldable pub delete_proxy_host : Client → ℤ → Action (Unit {0})
unfolding delete_existing
delete_proxy_host c id = do existing ← find_proxy_host_by_id c id; delete_existing c id existing

unfoldable pub switch : Client → ℤ → Text → Action (Unit {0})
switch c id verb = do
  resp ← do_request c post_method (proxy_host_path id ++ verb) no_body
  check_status resp

-- `existing.Enabled` is read without a test for nil.
unfoldable pub disable_proxy_host : Client → ℤ → Action (Unit {0})
unfolding switch
disable_proxy_host c id = do
  existing ← find_proxy_host_by_id c id
  host ← dereference existing
  if host.enabled then switch c id (txt "/disable") else pure tt

unfoldable pub enable_proxy_host : Client → ℤ → Action (Unit {0})
unfolding switch
enable_proxy_host c id = do
  existing ← find_proxy_host_by_id c id
  host ← dereference existing
  if host.enabled then pure tt else switch c id (txt "/enable")

location_json : ProxyHostLocation → Json
location_json l = obj (
    object (
      (txt "path", str l.path)
      ∷ (txt "advanced_config", str l.advanced_config)
      ∷ (txt "forward_scheme", str l.forward_scheme)
      ∷ (txt "forward_host", str l.forward_host)
      ∷ (txt "forward_port", int l.forward_port)
      ∷ []))

abbrev pub certificate_or_zero : Option ℤ → ℤ
certificate_or_zero none = pos 0
certificate_or_zero (some id) = id

-- The map before the access list and the custom fields are written to it.
unfoldable pub base_body : ProxyHostRequestInput → Fields
unfolding location_json
base_body input = object (
    (txt "domain_names", arr (items str input.domain_names))
    ∷ (txt "forward_host", str input.forward_host)
    ∷ (txt "forward_scheme", str input.forward_scheme)
    ∷ (txt "forward_port", int input.forward_port)
    ∷ (txt "block_exploits", bool input.block_exploits)
    ∷ (txt "allow_websocket_upgrade", bool input.allow_websocket_upgrade)
    ∷ (txt "access_list_id", str (txt "0"))
    ∷ (txt "certificate_id", int (certificate_or_zero input.certificate_id))
    ∷ (txt "ssl_forced", bool input.ssl_forced)
    ∷ (txt "http2_support", bool input.http2_support)
    ∷ (txt "hsts_enabled", bool input.hsts_enabled)
    ∷ (
      txt "meta",
      obj (object ((txt "letsencrypt_agree", bool false) ∷ (txt "dns_challenge", bool false) ∷ [])),
    )
    ∷ (txt "advanced_config", str input.advanced_config)
    ∷ (txt "locations", arr (items location_json input.locations))
    ∷ (txt "caching_enabled", bool input.caching_enabled)
    ∷ (txt "hsts_subdomains", bool input.hsts_subdomains)
    ∷ [])

unfoldable pub build_proxy_host_request_body : ProxyHostRequestInput → Json
unfolding base_body
build_proxy_host_request_body input =
    let body = base_body input in
    let body' =
      if input.access_list_id == pos 0
      then body
      else put (txt "access_list_id") (int input.access_list_id) body in
    obj (put_custom_fields input.custom_fields body')

unfoldable pub create_proxy_host : Client → ProxyHostRequestInput → Action ProxyHost
create_proxy_host c input = do
  let body = build_proxy_host_request_body input
  resp ← do_request c post_method (txt "/api/nginx/proxy-hosts") (json body)
  read_response is_success decode_proxy_host resp

unfoldable pub update_proxy_host : Client → ℤ → ProxyHostRequestInput → Action ProxyHost
update_proxy_host c id input = do
  let body = build_proxy_host_request_body input
  resp ← do_request c put_method (proxy_host_path id) (json body)
  read_response is_success decode_proxy_host resp
