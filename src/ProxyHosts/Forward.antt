-- ===== src/ProxyHosts/Forward.antt =====
-- internal/controller/proxyhost/proxy_forward.go: where a host, or a location of it, forwards to.
-- The pointer `UpstreamForward`, whose fields a location writes, is passed in and handed back.
pub mod Outcome
use nginxpm_operator.Base.{
  Bool, true, false, not, ◌&&◌, Option, none, some, List, [], ◌∷◌, ◌++◌, map, if◌then◌else◌,
  is_empty, is_some, length, ltb, ℤ, pos, ◌==◌, int-Eq, text-Eq, Text, txt,
}
use nginxpm_operator.Base.Strings.{has_prefix, join}
use nginxpm_operator.Errors.{no_forward, not_node_port, invalid_service_port, invalid_service_ip}
use nginxpm_operator.Api
use nginxpm_operator.Api.{NamespacedName, Service, ForwardService, ForwardHost, ProxyHost, Pod}
use nginxpm_operator.Effect.{
  Env, kind_service, kind_pod, listed, fetch, Action, ◌>>=◌, ◌>>◌, pure, fail, read, call_kube,
}
use nginxpm_operator.Controller.{
  NginxUpstreamHost, UpstreamConfig, generate_nginx_upstream_config, get_pods_host_ips,
  namespace_or,
}
use nginxpm_operator.ProxyHosts.Ports.{select_port, is_node_port, forward_when_not_node_port_type}

-- A Go map from names to texts.
abbrev pub Configs : Type 0
Configs = List (Text × Text)

-- `configs[name] = config`
unfoldable pub put_config : Text → Text → Configs → Configs
put_config name config [] = (name, config) ∷ []
put_config name config ((k, v) ∷ configs) =
    if k == name then (name, config) ∷ configs else (k, v) ∷ put_config name config configs

pub record ProxyHostForward : Type 0 where
  pub scheme : Text
  pub host : Text
  pub port : ℤ
  pub advanced_config : Text
  pub nginx_upstream_configs : Configs

pub record NodePortConfig : Type 0 where
  pub service_ip : Text
  pub service_port : ℤ
  pub nginx_upstream_name : Text
  pub nginx_upstream_config : Text

-- `$` in front of the variable, unless it is there.
dollar : Text → Text
dollar variable = if has_prefix variable (txt "$") then variable else b'$' ∷ variable

unfoldable pub assign_value_to_nginx_variable : Text → Text → Text → Text
unfolding dollar
assign_value_to_nginx_variable variable value advanced_config =
    if variable == []
    then advanced_config
    else (txt "set " ++ (dollar variable ++ (txt " " ++ (b'"' ∷ (value ++ (b'"' ∷ b';' ∷ []))))))
      ++ (10 ∷ advanced_config)

-- The texts in the order in which the map is ranged over.
unfoldable pub merge_nginx_upstream_configs : Configs → Action Text
merge_nginx_upstream_configs configs env t =
    pure (join (10 ∷ []) (map (λ entry. entry.1) (env.range_order t configs))) env t

list_pods : Service → Action (List Pod)
list_pods service =
    call_kube (listed kind_pod) (λ env t. env.list_pods t service.namespace service.selector)

abbrev first_or : Text → List Text → Text
first_or default [] = default
first_or default (ip ∷ ips) = ip

unfoldable pub forward_when_node_port_type :
    ProxyHost → Service → Api.ProxyHostForward → ForwardService → Action NodePortConfig
unfolding list_pods
forward_when_node_port_type ph service forward reference =
    if is_node_port service.type
    then (do
      pods ← list_pods service
      let port = select_port (λ p. p.node_port) service.ports reference forward.scheme
      ips ← get_pods_host_ips pods
      hash ← read (λ env. env.xxhash_hex)
      let conf =
          generate_nginx_upstream_config hash ph.metadata.name ph.metadata.namespace
            (map (λ ip. record { hostname = ip; port = port }) ips) forward.nginx_keepalive
      pure (record {
        service_ip = first_or service.cluster_ip ips;
        service_port = port;
        nginx_upstream_name = conf.name;
        nginx_upstream_config = conf.config;
      }))
    else fail not_node_port

-- A forward together with the upstream that its location may have written to.
abbrev pub Made : Type 0
Made = ProxyHostForward × Option ProxyHostForward

-- The upstream block goes into the forward's own map and into that of the upstream forward.
add_upstream : Text → Text → Option ProxyHostForward → Option ProxyHostForward
add_upstream name config none = none
add_upstream name config (some u) =
    some (record u { nginx_upstream_configs = put_config name config u.nginx_upstream_configs })

-- The variable is set in the upstream's configuration, where there is one, or else in the forward's.
unfoldable pub make : Api.ProxyHostForward → Text → ℤ → Configs → Option ProxyHostForward → Made
make forward host port configs none = (
  record {
    scheme = forward.scheme;
    host = host;
    port = port;
    advanced_config =
        assign_value_to_nginx_variable forward.nginx_variable host forward.advanced_config;
    nginx_upstream_configs = configs;
  },
  none,
)
make forward host port configs (some u) = (
  record {
    scheme = forward.scheme;
    host = host;
    port = port;
    advanced_config = forward.advanced_config;
    nginx_upstream_configs = configs;
  },
  some (record u {
    advanced_config = assign_value_to_nginx_variable forward.nginx_variable host u.advanced_config;
  }),
)

-- What a service or a list of hosts resolves to: the host and port that stand for themselves, and
-- an upstream block that may stand in for the host.
pub record Target : Type 0 where
  pub host : Text
  pub port : ℤ
  pub upstream : Option UpstreamConfig

abbrev named : Text → Text → Option UpstreamConfig
named name config = if name == [] then none else some (record { name = name; config = config })

unfoldable pub service_target :
    ProxyHost → Service → Api.ProxyHostForward → ForwardService → Action Target
service_target ph service forward reference =
    if is_node_port service.type
    then (do
      c ← forward_when_node_port_type ph service forward reference
      pure (record {
        host = c.service_ip;
        port = c.service_port;
        upstream = named c.nginx_upstream_name c.nginx_upstream_config;
      }))
    else (do
      let (ip, port) = forward_when_not_node_port_type service reference forward.scheme
      pure (record { host = ip; port = port; upstream = none }))

upstream_host : ForwardHost → NginxUpstreamHost
upstream_host h = record { hostname = h.host_name; port = h.host_port }

-- With more than one host the upstream block may stand in for the first.
hosts_target :
    (Text → Text) → ProxyHost → Api.ProxyHostForward → ForwardHost → List ForwardHost → Target
unfolding upstream_host
hosts_target hash ph forward host hosts =
    let conf =
      generate_nginx_upstream_config hash ph.metadata.name ph.metadata.namespace
        (map upstream_host (host ∷ hosts)) forward.nginx_keepalive in
    record {
      host = host.host_name;
      port = host.host_port;
      upstream = if is_empty hosts then none else named conf.name conf.config;
    }

use_upstream :
    Api.ProxyHostForward → Target → Option ProxyHostForward → Option UpstreamConfig → Made
unfolding add_upstream
use_upstream forward target u none = make forward target.host target.port [] u
use_upstream forward target u (some conf) =
    make forward conf.name target.port ((conf.name, conf.config) ∷ [])
      (add_upstream conf.name conf.config u)

-- The upstream block is used when the instance supports unscoped configurations.
unfoldable pub resolve : Bool → Api.ProxyHostForward → Target → Option ProxyHostForward → Made
unfolding use_upstream
resolve supported forward target u =
    use_upstream forward target u (if supported then target.upstream else none)

unfoldable pub forward_to_service :
    Bool
    → ProxyHost
    → NamespacedName
    → Api.ProxyHostForward
    → ForwardService
    → Option ProxyHostForward
    → Action Made
unfolding service_target
forward_to_service supported ph req forward reference u = do
  service ←
      fetch kind_service (λ env. env.services)
        (record {
          namespace = namespace_or req.namespace reference.namespace;
          name = reference.name;
        })
  target ← service_target ph service forward reference
  let made = resolve supported forward target u
  if made.0.port == pos 0
      then fail invalid_service_port
      else if made.0.host == []
      then fail invalid_service_ip
      else pure made

unfoldable pub forward_to :
    Bool
    → ProxyHost
    → NamespacedName
    → Api.ProxyHostForward
    → Option ProxyHostForward
    → List ForwardHost
    → Option ForwardService
    → Action Made
unfolding forward_to_service hosts_target
forward_to supported ph req forward u [] none = fail no_forward
forward_to supported ph req forward u [] (some reference) =
    forward_to_service supported ph req forward reference u
forward_to supported ph req forward u (host ∷ hosts) service = do
  hash ← read (λ env. env.xxhash_hex)
  pure (resolve supported forward (hosts_target hash ph forward host hosts) u)

-- A list of hosts comes before a service.
unfoldable pub make_forward :
    Bool → ProxyHost → NamespacedName → Api.ProxyHostForward → Option ProxyHostForward → Action Made
unfolding forward_to
make_forward supported ph req forward u =
    forward_to supported ph req forward u forward.hosts forward.service
