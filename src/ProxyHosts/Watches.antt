-- ===== src/ProxyHosts/Watches.antt =====
-- The indexes and the watches of proxyhost_controller.go: which hosts are reconciled when another
-- resource, a service or a pod changes.
pub mod Requests
pub mod Services
pub mod Pods
use nginxpm_operator.Base.{
  Bool, true, false, ◌&&◌, Option, none, some, List, [], ◌∷◌, ◌++◌, if◌then◌else◌, any, contains,
  ◌==◌, text-Eq, Text,
}
use nginxpm_operator.Api.{
  NamespacedName, ProxyHost, ProxyHostSsl, SslCustomCertificate, SslLetsEncryptCertificate,
  ProxyHostAccessList, CustomLocation, Pod,
}
use nginxpm_operator.Effect.{handle, kind_service, fetch, Action, ◌>>=◌, pure, read}
use nginxpm_operator.Controller.{pod_matches_service_selector}
use nginxpm_operator.Controller.Resources.{proxy_host-Resource}
use nginxpm_operator.Controller.Watches.{
  name_index, token_index, service_name, pod_in_service, find_objects_for_map, find_objects_for_pod,
}

abbrev custom_name : Option SslCustomCertificate → Text
custom_name none = []
custom_name (some certificate) = certificate.name

abbrev lets_encrypt_name : Option SslLetsEncryptCertificate → Text
lets_encrypt_name none = []
lets_encrypt_name (some certificate) = certificate.name

unfoldable pub host_token_index : ProxyHost → List Text
host_token_index ph = token_index ph.spec.token

unfoldable pub custom_certificate_index : Option ProxyHostSsl → List Text
custom_certificate_index none = []
custom_certificate_index (some ssl) = name_index (custom_name ssl.custom_certificate)

unfoldable pub lets_encrypt_certificate_index : Option ProxyHostSsl → List Text
lets_encrypt_certificate_index none = []
lets_encrypt_certificate_index (some ssl) =
    name_index (lets_encrypt_name ssl.lets_encrypt_certificate)

unfoldable pub access_list_index : Option ProxyHostAccessList → List Text
access_list_index none = []
access_list_index (some reference) = name_index reference.name

unfoldable pub service_index : ProxyHost → List Text
service_index ph = name_index (service_name ph.spec.forward.service)

abbrev pub add_name : Text → List Text → List Text
add_name [] names = names
add_name (b ∷ s) names = if contains names (b ∷ s) then names else names ++ (b ∷ s) ∷ []

unfoldable pub location_names : List Text → List CustomLocation → List Text
location_names names [] = names
location_names names (location ∷ locations) =
    location_names (add_name (service_name location.forward.service) names) locations

unfoldable pub custom_location_index : ProxyHost → List Text
unfolding location_names
custom_location_index ph = location_names [] ph.spec.custom_locations

-- The watches of tokens, of both kinds of certificates, and of access lists, for the name of the
-- object that changes.
unfoldable pub find_hosts_for_token : Text → Action (List NamespacedName)
find_hosts_for_token = find_objects_for_map {O = ProxyHost} host_token_index

unfoldable pub find_hosts_for_custom_certificate : Text → Action (List NamespacedName)
find_hosts_for_custom_certificate =
    find_objects_for_map {O = ProxyHost} (λ ph. custom_certificate_index ph.spec.ssl)

unfoldable pub find_hosts_for_lets_encrypt_certificate : Text → Action (List NamespacedName)
find_hosts_for_lets_encrypt_certificate =
    find_objects_for_map {O = ProxyHost} (λ ph. lets_encrypt_certificate_index ph.spec.ssl)

unfoldable pub find_hosts_for_access_list : Text → Action (List NamespacedName)
find_hosts_for_access_list =
    find_objects_for_map {O = ProxyHost} (λ ph. access_list_index ph.spec.access_list)

unfoldable pub same_request : NamespacedName → NamespacedName → Bool
same_request a b = a.name == b.name && a.namespace == b.namespace

-- The requests of the second search that are not among those so far.
unfoldable pub add_requests : List NamespacedName → List NamespacedName → List NamespacedName
add_requests requests [] = requests
add_requests requests (r ∷ rs) =
    add_requests (if any (λ e. same_request e r) requests then requests else requests ++ r ∷ []) rs

unfoldable pub find_services_for_proxy_host : Text → Action (List NamespacedName)
find_services_for_proxy_host service = do
  forward ← find_objects_for_map {O = ProxyHost} service_index service
  locations ← find_objects_for_map {O = ProxyHost} custom_location_index service
  pure (add_requests forward locations)

-- The loop over the locations, which ends at the first match.
unfoldable pub pod_in_locations : Pod → Text → List CustomLocation → Action Bool
pod_in_locations pod namespace [] = pure false
pod_in_locations pod namespace (location ∷ locations) =
    let rest = pod_in_locations pod namespace locations in
    let name = service_name location.forward.service in
    if name == []
    then rest
    else (do matches ← pod_in_service pod namespace name; if matches then pure true else rest)

-- A host without a service of its own, and one whose service is not found, is passed over with its
-- locations.
unfoldable pub pod_concerns : Pod → ProxyHost → Action Bool
unfolding pod_in_locations
pod_concerns pod ph =
    let namespace = ph.metadata.namespace in
    let name = service_name ph.spec.forward.service in
    if name == []
    then pure false
    else handle
        (fetch kind_service (λ env. env.services) (record { namespace = namespace; name = name }))
        (λ service. do
          matches ← read (λ env. pod_matches_service_selector env pod service)
          if matches then pure true else pod_in_locations pod namespace ph.spec.custom_locations)
        (λ _. pure false)

unfoldable pub find_proxy_hosts_for_pod : Pod → Action (List NamespacedName)
find_proxy_hosts_for_pod pod = find_objects_for_pod {O = ProxyHost} (pod_concerns pod)
