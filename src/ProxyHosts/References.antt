-- ===== src/ProxyHosts/References.antt =====
-- The resources that a host refers to (proxyhost_controller.go): its certificate, which may be
-- requested, its access list, and the services of its locations.
use nginxpm_operator.Base.{
  Bool, true, false, ◌&&◌, Option, none, some, List, [], ◌∷◌, ◌++◌, if◌then◌else◌, is_none, ℤ, ◌==◌,
  text-Eq, Text, txt,
}
use nginxpm_operator.Errors.{no_access_list_id}
use nginxpm_operator.Api
use nginxpm_operator.Api.{
  NamespacedName, ProxyHost, ProxyHostSsl, ProxyHostAccessList, CustomLocation,
}
use nginxpm_operator.Npm.{
  Client, Certificate, AccessList, ProxyHostLocation, find_certificate_by_domain,
  create_let_encrypt_certificate, find_access_list_by_id,
}
use nginxpm_operator.Effect.{Action, ◌>>=◌, pure, or_fail, dereference}
use nginxpm_operator.Controller.{retrieve_certificate, namespace_or}
use nginxpm_operator.Controller.Resources.{get_object, access_list-Resource}
use nginxpm_operator.ProxyHosts.Forward.{ProxyHostForward, make_forward}
use nginxpm_operator.ProxyHosts.Domains.{extract_domains_without_ports}

abbrev pub default_email : Text
default_email = txt "support@nginxpm-operator.io"

abbrev pub email_of : Option Text → Text
email_of none = default_email
email_of (some email) = if email == [] then default_email else email

-- The fields that are copied from the new certificate; `Bound` is not among them.
copy_certificate : Certificate → Certificate
copy_certificate c = record c { bound = false }

-- The certificate of the domains, or a new one.
unfoldable pub found_or_created :
    Client → List Text → ProxyHostSsl → Option Certificate → Action (Option Certificate)
unfolding copy_certificate
found_or_created client domains ssl (some certificate) = pure (some certificate)
found_or_created client domains ssl none = do
  created ← create_let_encrypt_certificate client (record {
    domain_names = domains;
    meta = record {
      dns_challenge = false;
      dns_provider = [];
      dns_provider_credentials = [];
      lets_encrypt_agree = true;
      lets_encrypt_email = email_of ssl.lets_encrypt_email;
    };
  })
  pure (some (copy_certificate created))

unfoldable pub find_or_create_certificate :
    ProxyHost → ProxyHostSsl → Client → Action (Option Certificate)
unfolding found_or_created
find_or_create_certificate ph ssl client = do
  let domains = extract_domains_without_ports ph
  certificate ← find_certificate_by_domain client domains
  found_or_created client domains ssl certificate

-- `ssl` is `ph.Spec.Ssl`, which the caller has found to be there.
unfoldable pub make_certificate :
    NamespacedName → ProxyHost → ProxyHostSsl → Client → Action (Option Certificate)
make_certificate req ph ssl client = do
  certificate ← retrieve_certificate (record {
    req = req;
    client = client;
    lets_encrypt_certificate = ssl.lets_encrypt_certificate;
    custom_certificate = ssl.custom_certificate;
    certificate_id = ssl.certificate_id;
  })
  if ssl.auto_certificate_request && is_none certificate
      then find_or_create_certificate ph ssl client
      else pure certificate

-- The id of the reference, or that of the resource that it names.
unfoldable pub access_list_id_of :
    NamespacedName → ProxyHostAccessList → Option ℤ → Action (Option ℤ)
access_list_id_of req reference (some id) = pure (some id)
access_list_id_of req reference none = if reference.name == [] then pure none else (do
  acl ←
      get_object {O = Api.AccessList} (record {
        namespace = namespace_or req.namespace reference.namespace;
        name = reference.name;
      })
  id ← or_fail acl.status.id no_access_list_id
  pure (some id))

unfoldable pub get_access_list_by_reference :
    NamespacedName → ProxyHostAccessList → Client → Action (Option AccessList)
unfolding access_list_id_of
get_access_list_by_reference req reference client =
    if reference.name == [] && is_none reference.access_list_id then pure none else (do
      remote ← access_list_id_of req reference reference.access_list_id
      id ← dereference remote
      find_access_list_by_id client id)

abbrev root_if_empty : Text → Text
root_if_empty path = if path == [] then txt "/" else path

location_of : CustomLocation → ProxyHostForward → ProxyHostLocation
location_of location forward = record {
  path = location.location_path;
  advanced_config = location.forward.advanced_config;
  forward_scheme = forward.scheme;
  forward_host = forward.host ++ root_if_empty location.forward.path;
  forward_port = forward.port;
}

abbrev upstream_or : ProxyHostForward → Option ProxyHostForward → ProxyHostForward
upstream_or u none = u
upstream_or u (some u') = u'

-- The loop over the locations. Each may write to the forward of the host, which goes along.
unfoldable pub construct_locations :
    NamespacedName
    → Bool
    → ProxyHost
    → ProxyHostForward
    → List CustomLocation
    → Action (List ProxyHostLocation × ProxyHostForward)
unfolding location_of
construct_locations req supported ph u [] = pure ([], u)
construct_locations req supported ph u (location ∷ locations) = do
  made ← make_forward supported ph req location.forward (some u)
  rest ← construct_locations req supported ph (upstream_or u made.1) locations
  pure (location_of location made.0 ∷ rest.0, rest.1)

unfoldable pub construct_custom_location :
    NamespacedName
    → Bool
    → ProxyHost
    → ProxyHostForward
    → Action (List ProxyHostLocation × ProxyHostForward)
unfolding construct_locations
construct_custom_location req supported ph u =
    construct_locations req supported ph u ph.spec.custom_locations
