-- ===== src/ProxyHosts/Ports.antt =====
-- How a port is chosen from a service (internal/controller/proxyhost/proxy_forward.go). The two
-- functions of the source differ in the port that they read, `Port` or `NodePort`.
pub mod Choice
use nginxpm_operator.Base.{
  Bool, true, false, not, ◌&&◌, ◌||◌, Option, none, some, List, [], ◌∷◌, if◌then◌else◌, find, ℤ,
  pos, is_positive, ◌==◌, int-Eq, text-Eq, Text, txt,
}
use nginxpm_operator.Base.Strings.{to_lower, contains_text}
use nginxpm_operator.Api.{
  Service, ServicePort, ServiceType, node_port, load_balancer, cluster_ip, external_name,
  ForwardService, ProxyHostForward,
}

-- The test of the loop in `matchPort`, on a scheme in lower case.
unfoldable pub name_matches : Text → ServicePort → Bool
name_matches scheme port =
    let port_name = to_lower port.name in
    let named = contains_text port_name scheme in
    if scheme == txt "http" then named && not (contains_text port_name (txt "https")) else named

abbrev port_or_zero : (ServicePort → ℤ) → Option ServicePort → ℤ
port_or_zero number none = pos 0
port_or_zero number (some port) = number port

unfoldable pub match_port : (ServicePort → ℤ) → List ServicePort → Text → ℤ
unfolding name_matches
match_port number ports scheme = port_or_zero number (find (name_matches (to_lower scheme)) ports)

-- `forward.Service.PortName != nil && *forward.Service.PortName != ""`
named_port : (ServicePort → ℤ) → List ServicePort → Option Text → ℤ
named_port number ports none = pos 0
named_port number ports (some name) = if name == [] then pos 0 else match_port number ports name

given_port : Option ℤ → ℤ
given_port none = pos 0
given_port (some port) = if is_positive port then port else pos 0

-- The port of the scheme, where none is given.
scheme_port : (ServicePort → ℤ) → List ServicePort → Text → ℤ
scheme_port number ports scheme =
    let http = match_port number ports (txt "http") in
    if scheme == txt "https" || http == pos 0 then match_port number ports (txt "https") else http

first_port : (ServicePort → ℤ) → List ServicePort → ℤ
first_port number [] = pos 0
first_port number (port ∷ ports) = number port

-- `x`, and where it is 0 the next choice.
abbrev pub or_next : ℤ → ℤ → ℤ
or_next x next = if x == pos 0 then next else x

unfoldable pub select_port : (ServicePort → ℤ) → List ServicePort → ForwardService → Text → ℤ
unfolding named_port given_port scheme_port first_port
select_port number ports service scheme = or_next (named_port number ports service.port_name) (
    or_next (or_next (given_port service.port) (scheme_port number ports scheme))
      (first_port number ports))

abbrev pub is_node_port : ServiceType → Bool
is_node_port node_port = true
is_node_port load_balancer = false
is_node_port cluster_ip = false
is_node_port external_name = false

abbrev first_ingress : Text → List Text → Text
first_ingress cluster_address [] = cluster_address
first_ingress cluster_address (ip ∷ ips) = ip

-- The address of a load balancer is that of its first ingress, if it has one.
service_ip : Service → Text
service_ip service = elim service.type [
  | load_balancer ↦ first_ingress service.cluster_ip service.ingress_ips
  | _ ↦ service.cluster_ip
]

unfoldable pub forward_when_not_node_port_type : Service → ForwardService → Text → Text × ℤ
unfolding service_ip
forward_when_not_node_port_type service reference scheme =
    if is_node_port service.type
    then ([], pos 0)
    else (service_ip service, select_port (λ port. port.port) service.ports reference scheme)
