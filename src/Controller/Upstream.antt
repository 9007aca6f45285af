-- ===== src/Controller/Upstream.antt =====
-- internal/controller/proxy_helpers.go: upstream blocks of nginx, and the addresses of pods.
use nginxpm_operator.Base.{
  Bool, true, false, Option, none, some, List, [], ◌∷◌, ◌++◌, if◌then◌else◌, contains, find, ℤ,
  text-Eq, Text, txt,
}
use nginxpm_operator.Base.Strings.{join, trim_suffix, decimal}
use nginxpm_operator.Api.{Pod, Service, Node, NodeAddress, internal_ip, other_address}
use nginxpm_operator.Effect.{Env, fetched, kind_node, Action, pure, handle, call_kube}

pub record NginxUpstreamHost : Type 0 where
  pub hostname : Text
  pub port : ℤ

pub record UpstreamConfig : Type 0 where
  pub name : Text
  pub config : Text

abbrev pub nginx_lb_server_prefix : Text
nginx_lb_server_prefix = txt "xlb"

-- `strHosts`
unfoldable pub hosts_text : List NginxUpstreamHost → Text
hosts_text [] = []
hosts_text (host ∷ hosts) = (host.hostname ++ (txt "-" ++ decimal host.port)) ++ hosts_text hosts

unfoldable pub generate_nginx_upstream_name :
    (Text → Text) → Text → Text → List NginxUpstreamHost → Text
unfolding hosts_text
generate_nginx_upstream_name hash name namespace hosts =
    let base = trim_suffix (txt "-") (join (txt "-") (name ∷ namespace ∷ [])) in
    nginx_lb_server_prefix ++ (txt "-" ++ (base ++ (txt "-" ++ hash (hosts_text hosts))))

abbrev newline : Text
newline = 10 ∷ []

unfoldable pub server_line : NginxUpstreamHost → Text
server_line host =
    txt "    server "
    ++ (host.hostname
        ++ (txt ":" ++ (decimal host.port ++ (txt " max_fails=3 fail_timeout=30s;" ++ newline))))

server_lines : List NginxUpstreamHost → Text
server_lines [] = []
server_lines (host ∷ hosts) = server_line host ++ server_lines hosts

-- `least_conn`, or the three directives of keepalive
unfoldable pub balancing : Bool → Text
balancing false = txt "    least_conn;" ++ newline
balancing true =
    (txt "    keepalive 32;" ++ newline)
    ++ ((txt "    keepalive_timeout 60s;" ++ newline)
        ++ (txt "    keepalive_requests 1000;" ++ newline))

unfoldable pub generate_nginx_upstream_config :
    (Text → Text) → Text → Text → List NginxUpstreamHost → Bool → UpstreamConfig
unfolding server_lines balancing
generate_nginx_upstream_config hash name namespace [] keepalive = record { name = []; config = [] }
generate_nginx_upstream_config hash name namespace (host ∷ hosts) keepalive =
    let upstream = generate_nginx_upstream_name hash name namespace (host ∷ hosts) in
    record {
      name = upstream;
      config =
          (txt "upstream " ++ (upstream ++ (txt " {" ++ newline)))
          ++ (balancing keepalive ++ (newline ++ (server_lines (host ∷ hosts) ++ txt "}")));
    }

is_internal : NodeAddress → Bool
is_internal a = elim a.type [ internal_ip ↦ true | other_address ↦ false ]

abbrev address_or_empty : Option NodeAddress → Text
address_or_empty none = []
address_or_empty (some a) = a.address

unfoldable pub node_ip : Node → Text
unfolding is_internal
node_ip node = address_or_empty (find is_internal node.addresses)

unfoldable pub add_ip : Text → List Text → List Text
add_ip ip ips = if contains ips ip then ips else ips ++ ip ∷ []

abbrev get_node : Text → Action Node
get_node name =
    call_kube (fetched kind_node (record { namespace = []; name = name }))
      (λ env t. env.nodes t name)

-- The loop over the pods, with the addresses found so far.
unfoldable pub collect_ips : List Text → List Pod → Action (List Text)
collect_ips ips [] = pure ips
collect_ips ips (pod ∷ pods) =
    if pod.running
    then handle (get_node pod.node_name) (λ node. collect_ips (add_ip (node_ip node) ips) pods)
        (λ _. collect_ips ips pods)
    else collect_ips ips pods

unfoldable pub get_pods_host_ips : List Pod → Action (List Text)
unfolding collect_ips
get_pods_host_ips = collect_ips []

-- `labels.SelectorFromSet(svc.Spec.Selector).Matches(pod.Labels)`, but not for a pod that is going.
unfoldable pub pod_matches_service_selector : Env → Pod → Service → Bool
pod_matches_service_selector env pod svc =
    if pod.deleting then false else env.selector_matches svc.selector pod.labels
