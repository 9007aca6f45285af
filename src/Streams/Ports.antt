-- ===== src/Streams/Ports.antt =====
-- How a port is chosen from a service (internal/controller/stream/proxy_forward.go).
pub mod Choice
use nginxpm_operator.Base.{
  Bool, ◌&&◌, ◌||◌, Option, none, some, List, [], ◌∷◌, if◌then◌else◌, find, ℤ, pos, is_positive,
  ◌==◌, int-Eq, text-Eq, Text, txt,
}
use nginxpm_operator.Base.Strings.{to_lower, contains_text}
use nginxpm_operator.Api.{ServicePort, ForwardService}

unfoldable pub port_matched : Text → ServicePort → Bool
port_matched scheme port =
    to_lower scheme == to_lower port.protocol
    || contains_text (to_lower port.name) (to_lower scheme)

abbrev port_or_zero : (ServicePort → ℤ) → Option ServicePort → ℤ
port_or_zero number none = pos 0
port_or_zero number (some port) = number port

-- The two loops that are passed for `MatchPort` differ in the port that they read.
unfoldable pub match_port : (ServicePort → ℤ) → List ServicePort → Text → ℤ
unfolding port_matched
match_port number ports scheme = port_or_zero number (find (port_matched scheme) ports)

given_port : Option ℤ → ℤ
given_port none = pos 0
given_port (some port) = if is_positive port then port else pos 0

-- A port that is found by its name replaces the one so far.
named_port : (ServicePort → ℤ) → List ServicePort → Option Text → ℤ → ℤ
named_port number ports none port = port
named_port number ports (some name) port =
    let found = match_port number ports name in if name == [] || found == pos 0 then port else found

-- The port of `getServiceDestination`.
unfoldable pub service_destination_port :
    (ServicePort → ℤ) → List ServicePort → ForwardService → Bool → Bool → ℤ
unfolding given_port named_port
service_destination_port number ports service tcp udp =
    let given = given_port service.port in
    let by_tcp = if tcp && given == pos 0 then match_port number ports (txt "TCP") else given in
    let by_udp = if udp && by_tcp == pos 0 then match_port number ports (txt "UDP") else by_tcp in
    named_port number ports service.port_name by_udp

first_port : (ServicePort → ℤ) → List ServicePort → ℤ
first_port number [] = pos 0
first_port number (port ∷ ports) = number port

-- Where no port is found, the first of the service.
unfoldable pub select_port : (ServicePort → ℤ) → List ServicePort → ForwardService → Bool → Bool → ℤ
unfolding first_port
select_port number ports service tcp udp =
    let port = service_destination_port number ports service tcp udp in
    if port == pos 0 then first_port number ports else port
