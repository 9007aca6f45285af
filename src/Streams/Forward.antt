-- ===== src/Streams/Forward.antt =====
-- internal/controller/stream/proxy_forward.go: where a stream forwards to.
pub mod NoDeletion
pub mod Outcome
use nginxpm_operator.Base.{
  Bool, true, false, Option, none, some, List, [], ◌∷◌, map, if◌then◌else◌, is_empty, ℤ, pos, ◌==◌,
  int-Eq, text-Eq, Text,
}
use nginxpm_operator.Errors.{no_forward, not_node_port, invalid_service_port, invalid_service_ip}
use nginxpm_operator.Api
use nginxpm_operator.Api.{
  NamespacedName, Service, ForwardService, ForwardHost, Stream, Pod, load_balancer,
}
use nginxpm_operator.Effect.{
  Env, kind_service, kind_pod, listed, fetch, Action, ◌>>=◌, pure, fail, read, call_kube,
}
use nginxpm_operator.Controller.{
  NginxUpstreamHost, UpstreamConfig, generate_nginx_upstream_config, get_pods_host_ips,
  namespace_or,
}
use nginxpm_operator.ProxyHosts.Ports.{is_node_port}
use nginxpm_operator.Streams.Ports.{select_port}

pub record StreamForward : Type 0 where
  pub host : Text
  pub port : ℤ
  pub nginx_upstream_configs : Text

pub record NodePortConfig : Type 0 where
  pub service_ip : Text
  pub service_port : ℤ
  pub nginx_upstream_name : Text
  pub nginx_upstream_config : Text

abbrev first_or : Text → List Text → Text
first_or default [] = default
first_or default (ip ∷ ips) = ip

service_ip : Service → Text
service_ip service = elim service.type [
  | load_balancer ↦ first_or service.cluster_ip service.ingress_ips
  | _ ↦ service.cluster_ip
]

unfoldable pub forward_when_not_node_port_type :
    Service → ForwardService → Api.StreamForward → Text × ℤ
unfolding service_ip
forward_when_not_node_port_type service reference forward =
    if is_node_port service.type then ([], pos 0) else (
      service_ip service,
      select_port (λ p. p.port) service.ports reference forward.tcp_forwarding
          forward.udp_forwarding,
    )

list_pods : Service → Action (List Pod)
list_pods service =
    call_kube (listed kind_pod) (λ env t. env.list_pods t service.namespace service.selector)

unfoldable pub forward_when_node_port_type :
    Stream → Service → ForwardService → Action NodePortConfig
unfolding list_pods
forward_when_node_port_type st service reference =
    if is_node_port service.type
    then (do
      pods ← list_pods service
      let forward = st.spec.forward
      let port =
          select_port (λ p. p.node_port) service.ports reference forward.tcp_forwarding
            forward.udp_forwarding
      ips ← get_pods_host_ips pods
      hash ← read (λ env. env.xxhash_hex)
      let conf =
          generate_nginx_upstream_config hash st.metadata.name st.metadata.namespace
            (map (λ ip. record { hostname = ip; port = port }) ips) false
      pure (record {
        service_ip = first_or service.cluster_ip ips;
        service_port = port;
        nginx_upstream_name = conf.name;
        nginx_upstream_config = conf.config;
      }))
    else fail not_node_port

-- The upstream block stands in for the host, where there is one and it is supported.
use_upstream : Bool → Text → ℤ → UpstreamConfig → StreamForward
use_upstream supported host port conf =
    if supported
    then if conf.name == []
      then record { host = host; port = port; nginx_upstream_configs = [] }
      else record { host = conf.name; port = port; nginx_upstream_configs = conf.config }
    else record { host = host; port = port; nginx_upstream_configs = [] }

service_forward : Bool → Stream → Service → ForwardService → Action StreamForward
unfolding use_upstream
service_forward supported st service reference =
    if is_node_port service.type
    then (do
      c ← forward_when_node_port_type st service reference
      pure (
          use_upstream supported c.service_ip c.service_port
            (record { name = c.nginx_upstream_name; config = c.nginx_upstream_config })))
    else (do
      let (ip, port) = forward_when_not_node_port_type service reference st.spec.forward
      pure (record { host = ip; port = port; nginx_upstream_configs = [] }))

forward_to_service : Bool → Stream → NamespacedName → ForwardService → Action StreamForward
unfolding service_forward
forward_to_service supported st req reference = do
  service ←
      fetch kind_service (λ env. env.services)
        (record {
          namespace = namespace_or req.namespace reference.namespace;
          name = reference.name;
        })
  forward ← service_forward supported st service reference
  if forward.port == pos 0
      then fail invalid_service_port
      else if forward.host == []
      then fail invalid_service_ip
      else pure forward

upstream_host : ForwardHost → NginxUpstreamHost
upstream_host h = record { hostname = h.host_name; port = h.host_port }

forward_to :
    Bool → Stream → NamespacedName → List ForwardHost → Option ForwardService → Action StreamForward
unfolding forward_to_service upstream_host
forward_to supported st req [] none = fail no_forward
forward_to supported st req [] (some reference) = forward_to_service supported st req reference
forward_to supported st req (host ∷ hosts) service = do
  hash ← read (λ env. env.xxhash_hex)
  let conf =
      generate_nginx_upstream_config hash st.metadata.name st.metadata.namespace
        (map upstream_host (host ∷ hosts)) false
  pure (
      if is_empty hosts
      then record { host = host.host_name; port = host.host_port; nginx_upstream_configs = [] }
      else use_upstream supported host.host_name host.host_port conf)

unfoldable pub make_forward : Bool → Stream → NamespacedName → Action StreamForward
unfolding forward_to
make_forward supported st req =
    forward_to supported st req st.spec.forward.hosts st.spec.forward.service
