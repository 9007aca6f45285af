-- ===== src/ProxyHosts/NoDeletion.antt =====
-- DELETE requests in the reconciliation of a host that is not being deleted.
use nginxpm_operator.Base.{Bool, true, false, Option, none, some, List, [], ◌∷◌, ℤ, Text, All}
use nginxpm_operator.Errors.{Error}
use nginxpm_operator.Api
use nginxpm_operator.Api.{
  NamespacedName, ProxyHost, ProxyHostSsl, ProxyHostAccessList, CustomLocation, ForwardService,
  ForwardHost, Service,
}
use nginxpm_operator.Npm
use nginxpm_operator.Npm.{Client, Certificate, ProxyHostRequestInput}
use nginxpm_operator.Npm.NoDeletion.{
  find_certificate_by_domain-IsNotDelete, create_let_encrypt_certificate-IsNotDelete,
  find_access_list_by_id-IsNotDelete, find_proxy_host_by_id-IsNotDelete,
  find_proxy_host_by_domain-IsNotDelete, enable_proxy_host-IsNotDelete,
  create_proxy_host-IsNotDelete, update_proxy_host-IsNotDelete,
}
use nginxpm_operator.Effect.{Env, History, monad}
use nginxpm_operator.Effect.Emits.{Emits, emits_rules}
use nginxpm_operator.Effect.Traffic.{IsNotDelete}
use nginxpm_operator.Controller.{Attempt}
use nginxpm_operator.Controller.NoDeletion.{
  with_event-IsNotDelete, set_condition-IsNotDelete, update_status-IsNotDelete,
  get_pods_host_ips-IsNotDelete, retrieve_certificate-IsNotDelete,
}
use nginxpm_operator.ProxyHosts.Forward.{
  ProxyHostForward, Configs, merge_nginx_upstream_configs, forward_when_node_port_type,
  service_target, forward_to_service, forward_to, make_forward,
}
use nginxpm_operator.ProxyHosts.Domains.{domains_should_be_unique, no_error}
use nginxpm_operator.ProxyHosts.References.{
  found_or_created, find_or_create_certificate, make_certificate, access_list_id_of,
  get_access_list_by_reference, construct_locations, construct_custom_location,
}
use nginxpm_operator.ProxyHosts.Apply.{
  locate_by, locate, enable_if_disabled, certificate_id_for, access_list_id_for, with_custom_fields,
  add_custom_fields, write_host, create_or_update_proxy_host,
}
use nginxpm_operator.ProxyHosts.Reconcile.{report, applied, apply_resource}

no_error-IsNotDelete : (o : Option Error) → Emits IsNotDelete (no_error o)
unfolding no_error
no_error-IsNotDelete none = search emits_rules
no_error-IsNotDelete (some e) = search emits_rules

domains-IsNotDelete : (ph : ProxyHost) → Emits IsNotDelete (domains_should_be_unique ph)
unfolding domains_should_be_unique
domains-IsNotDelete ph = search (emits_rules, no_error-IsNotDelete)

node_port-IsNotDelete :
    (ph : ProxyHost) (s : Service) (f : Api.ProxyHostForward) (r : ForwardService)
    → Emits IsNotDelete (forward_when_node_port_type ph s f r)
unfolding forward_when_node_port_type
node_port-IsNotDelete ph s f r = search (emits_rules, get_pods_host_ips-IsNotDelete) depth 8

service_target-IsNotDelete :
    (ph : ProxyHost) (s : Service) (f : Api.ProxyHostForward) (r : ForwardService)
    → Emits IsNotDelete (service_target ph s f r)
unfolding service_target
service_target-IsNotDelete ph s f r = search (emits_rules, node_port-IsNotDelete)

forward_to_service-IsNotDelete :
    (b : Bool) (ph : ProxyHost) (req : NamespacedName) (f : Api.ProxyHostForward)
    (r : ForwardService) (u : Option ProxyHostForward)
    → Emits IsNotDelete (forward_to_service b ph req f r u)
unfolding forward_to_service
forward_to_service-IsNotDelete b ph req f r u =
    search (emits_rules, service_target-IsNotDelete) depth 8

forward_to-IsNotDelete :
    (b : Bool) (ph : ProxyHost) (req : NamespacedName) (f : Api.ProxyHostForward)
    (u : Option ProxyHostForward) (hs : List ForwardHost) (s : Option ForwardService)
    → Emits IsNotDelete (forward_to b ph req f u hs s)
unfolding forward_to
forward_to-IsNotDelete b ph req f u [] none = search emits_rules
forward_to-IsNotDelete b ph req f u [] (some r) = forward_to_service-IsNotDelete b ph req f r u
forward_to-IsNotDelete b ph req f u (h ∷ hs) s = search emits_rules

make_forward-IsNotDelete :
    (b : Bool) (ph : ProxyHost) (req : NamespacedName) (f : Api.ProxyHostForward)
    (u : Option ProxyHostForward)
    → Emits IsNotDelete (make_forward b ph req f u)
unfolding make_forward
make_forward-IsNotDelete b ph req f u = forward_to-IsNotDelete b ph req f u f.hosts f.service

found_or_created-IsNotDelete :
    (c : Client) (ds : List Text) (ssl : ProxyHostSsl) (o : Option Certificate)
    → Emits IsNotDelete (found_or_created c ds ssl o)
unfolding found_or_created
found_or_created-IsNotDelete c ds ssl none =
    search (emits_rules, create_let_encrypt_certificate-IsNotDelete)
found_or_created-IsNotDelete c ds ssl (some cert) = search emits_rules

find_or_create-IsNotDelete :
    (ph : ProxyHost) (ssl : ProxyHostSsl) (c : Client)
    → Emits IsNotDelete (find_or_create_certificate ph ssl c)
unfolding find_or_create_certificate
find_or_create-IsNotDelete ph ssl c =
    search (emits_rules, find_certificate_by_domain-IsNotDelete, found_or_created-IsNotDelete)

make_certificate-IsNotDelete :
    (req : NamespacedName) (ph : ProxyHost) (ssl : ProxyHostSsl) (c : Client)
    → Emits IsNotDelete (make_certificate req ph ssl c)
unfolding make_certificate
make_certificate-IsNotDelete req ph ssl c =
    search (emits_rules, retrieve_certificate-IsNotDelete, find_or_create-IsNotDelete)

access_list_id_of-IsNotDelete :
    (req : NamespacedName) (r : ProxyHostAccessList) (o : Option ℤ)
    → Emits IsNotDelete (access_list_id_of req r o)
unfolding access_list_id_of
access_list_id_of-IsNotDelete req r none = search emits_rules depth 8
access_list_id_of-IsNotDelete req r (some id) = search emits_rules

get_access_list-IsNotDelete :
    (req : NamespacedName) (r : ProxyHostAccessList) (c : Client)
    → Emits IsNotDelete (get_access_list_by_reference req r c)
unfolding get_access_list_by_reference
get_access_list-IsNotDelete req r c =
    search (emits_rules, access_list_id_of-IsNotDelete, find_access_list_by_id-IsNotDelete) depth 8

construct_locations-IsNotDelete :
    (req : NamespacedName) (b : Bool) (ph : ProxyHost) (u : ProxyHostForward)
    (ls : List CustomLocation)
    → Emits IsNotDelete (construct_locations req b ph u ls)
unfolding construct_locations
construct_locations-IsNotDelete req b ph u [] = search emits_rules
construct_locations-IsNotDelete req b ph u (l ∷ ls) =
    let rest = λ (v : ProxyHostForward). construct_locations-IsNotDelete req b ph v ls in
    search (emits_rules, make_forward-IsNotDelete, rest)

construct_custom_location-IsNotDelete :
    (req : NamespacedName) (b : Bool) (ph : ProxyHost) (u : ProxyHostForward)
    → Emits IsNotDelete (construct_custom_location req b ph u)
unfolding construct_custom_location
construct_custom_location-IsNotDelete req b ph u =
    construct_locations-IsNotDelete req b ph u ph.spec.custom_locations

ruleset step_rules = (emits_rules, with_event-IsNotDelete)

locate_by-IsNotDelete :
    (ph : ProxyHost) (c : Client) (o : Option ℤ) → Emits IsNotDelete (locate_by ph c o)
unfolding locate_by
locate_by-IsNotDelete ph c none = search (step_rules, find_proxy_host_by_domain-IsNotDelete) depth 8
locate_by-IsNotDelete ph c (some id) = search (step_rules, find_proxy_host_by_id-IsNotDelete)

locate-IsNotDelete : (ph : ProxyHost) (c : Client) → Emits IsNotDelete (locate ph c)
unfolding locate
locate-IsNotDelete ph c = locate_by-IsNotDelete ph c ph.status.id

enable-IsNotDelete :
    (c : Client) (o : Option Npm.ProxyHost) → Emits IsNotDelete (enable_if_disabled c o)
unfolding enable_if_disabled
enable-IsNotDelete c none = search emits_rules
enable-IsNotDelete c (some h) = search (emits_rules, enable_proxy_host-IsNotDelete)

certificate_id_for-IsNotDelete :
    (req : NamespacedName) (ph : ProxyHost) (c : Client) (o : Option ProxyHostSsl)
    → Emits IsNotDelete (certificate_id_for req ph c o)
unfolding certificate_id_for
certificate_id_for-IsNotDelete req ph c none = search emits_rules
certificate_id_for-IsNotDelete req ph c (some ssl) =
    search (step_rules, make_certificate-IsNotDelete)

access_list_id_for-IsNotDelete :
    (req : NamespacedName) (c : Client) (o : Option ProxyHostAccessList)
    → Emits IsNotDelete (access_list_id_for req c o)
unfolding access_list_id_for
access_list_id_for-IsNotDelete req c none = search emits_rules
access_list_id_for-IsNotDelete req c (some r) = search (step_rules, get_access_list-IsNotDelete)

merge-IsNotDelete : (configs : Configs) → Emits IsNotDelete (merge_nginx_upstream_configs configs)
unfolding merge_nginx_upstream_configs monad
merge-IsNotDelete configs = record { at = λ env t h. h }

with_custom_fields-IsNotDelete :
    (configs : Configs) (o : Option Npm.ProxyHost) (input : ProxyHostRequestInput)
    → Emits IsNotDelete (with_custom_fields configs o input)
unfolding with_custom_fields
with_custom_fields-IsNotDelete configs o input = search (emits_rules, merge-IsNotDelete)

add_custom_fields-IsNotDelete :
    (c : Client) (configs : Configs) (h : Npm.ProxyHost) (input : ProxyHostRequestInput) (b : Bool)
    → Emits IsNotDelete (add_custom_fields c configs h input b)
unfolding add_custom_fields
add_custom_fields-IsNotDelete c configs h input true = search emits_rules
add_custom_fields-IsNotDelete c configs h input false =
    search (emits_rules, with_custom_fields-IsNotDelete, update_proxy_host-IsNotDelete)

write_host-IsNotDelete :
    (c : Client) (configs : Configs) (o : Option Npm.ProxyHost) (input : ProxyHostRequestInput)
    (b : Bool)
    → Emits IsNotDelete (write_host c configs o input b)
unfolding write_host
write_host-IsNotDelete c configs none input b =
    search (step_rules, create_proxy_host-IsNotDelete, add_custom_fields-IsNotDelete)
write_host-IsNotDelete c configs (some h) input b =
    search (step_rules, update_proxy_host-IsNotDelete)

create_or_update-IsNotDelete :
    (req : NamespacedName) (ph : ProxyHost) (c : Client)
    → Emits IsNotDelete (create_or_update_proxy_host req ph c)
unfolding create_or_update_proxy_host
create_or_update-IsNotDelete req ph c =
    search
      (
        step_rules, locate-IsNotDelete, enable-IsNotDelete, make_forward-IsNotDelete,
        certificate_id_for-IsNotDelete, access_list_id_for-IsNotDelete,
        construct_custom_location-IsNotDelete, with_custom_fields-IsNotDelete,
        write_host-IsNotDelete, update_status-IsNotDelete,
      )
      depth 12

report-IsNotDelete :
    (req : NamespacedName) (reason : Text) (ph : ProxyHost) (e : Error)
    → Emits IsNotDelete (report req reason ph e)
unfolding report
report-IsNotDelete req reason ph e = search (emits_rules, set_condition-IsNotDelete)

applied-IsNotDelete :
    (req : NamespacedName) (a : Attempt ProxyHost) → Emits IsNotDelete (applied req a)
unfolding applied
applied-IsNotDelete req (ph, none) = search (emits_rules, set_condition-IsNotDelete)
applied-IsNotDelete req (ph, some e) = report-IsNotDelete req _ ph _

apply_resource-Emits :
    (req : NamespacedName) (ph : ProxyHost) (c : Client)
    → Emits IsNotDelete (apply_resource req ph c)
unfolding apply_resource
apply_resource-Emits req ph c =
    search
      (
        emits_rules, domains-IsNotDelete, create_or_update-IsNotDelete, applied-IsNotDelete,
        report-IsNotDelete,
      )
      depth 8

-- What follows once the client is made, from the check of the domains to the status at the end, adds
-- no DELETE request to the history.
pub apply_resource-IsNotDelete :
    (req : NamespacedName) (ph : ProxyHost) (c : Client) (env : Env) (t : History)
    → All IsNotDelete t
    → All IsNotDelete (apply_resource req ph c env t).1
apply_resource-IsNotDelete req ph c = (apply_resource-Emits req ph c).at
