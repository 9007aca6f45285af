-- ===== src/ProxyHosts/InitialConfig/RoundTrip.antt =====
-- Capturing a configuration and restoring it.
use nginxpm_operator.Base.{
  false, Text, text-Eq, ◌≡◌, refl, ap, inl, inr, arith, some, none, ◌∙◌, text_eq, List, [], ◌∷◌,
  map, ℤ, pos, ◌==◌, int-Eq, int_eq_iff, txt, Bool-cases, if◌then◌else◌,
}
use nginxpm_operator.Json.{Fields, get, put, int, null, obj}
use nginxpm_operator.Json.Laws.{get-put}
use nginxpm_operator.Npm
use nginxpm_operator.Npm.{
  ProxyHostLocation, ProxyHostRequestInput, base_body, certificate_or_zero,
  build_proxy_host_request_body, put_custom_fields, RequestCustomFields,
  custom_field_unscoped_config,
}
use nginxpm_operator.ProxyHosts.InitialConfig.{
  capture_location, restore_location, capture_initial_configuration, build_restoration_input,
}

-- The request leaves a key out of its body.
abbrev pub IsUnsent : Text → ProxyHostRequestInput → Type 0
IsUnsent key input =
    (fields : Fields) × (build_proxy_host_request_body input ≡ obj fields) × (get key fields ≡ null)

-- The request has the settings of the host that the captured configuration keeps. It has neither
-- the unscoped configuration of the host nor whether the host is enabled.
pub record Restores (h : Npm.ProxyHost) (input : ProxyHostRequestInput) : Type 0 where
  pub domain_names : input.domain_names ≡ h.domain_names
  pub forward_host : input.forward_host ≡ h.forward_host
  pub forward_scheme : input.forward_scheme ≡ h.forward_scheme
  pub forward_port : input.forward_port ≡ h.forward_port
  pub block_exploits : input.block_exploits ≡ h.block_exploits
  pub allow_websocket_upgrade : input.allow_websocket_upgrade ≡ h.allow_websocket_upgrade
  pub certificate_id : get (txt "certificate_id") (base_body input) ≡ int h.certificate_id
  pub ssl_forced : input.ssl_forced ≡ h.ssl_forced
  pub http2_support : input.http2_support ≡ h.http2_support
  pub hsts_enabled : input.hsts_enabled ≡ h.hsts_enabled
  pub hsts_subdomains : input.hsts_subdomains ≡ h.hsts_subdomains
  pub advanced_config : input.advanced_config ≡ h.advanced_config
  pub locations : input.locations ≡ h.locations
  pub caching_enabled : input.caching_enabled ≡ h.caching_enabled
  pub access_list_id : input.access_list_id ≡ h.access_list_id
  pub no_unscoped_config : IsUnsent custom_field_unscoped_config input
  pub no_enabled : IsUnsent (txt "enabled") input

unscoped_config-base_body :
    (input : ProxyHostRequestInput) → get custom_field_unscoped_config (base_body input) ≡ null
unfolding base_body get text_eq
unscoped_config-base_body input = refl

enabled-base_body : (input : ProxyHostRequestInput) → get (txt "enabled") (base_body input) ≡ null
unfolding base_body get text_eq
enabled-base_body input = refl

with_access_list :
    (key : Text) (acl : ℤ) (fields : Fields)
    → get key fields ≡ null
    → (txt "access_list_id" == key) ≡ false
    → get key (if acl == pos 0 then fields else put (txt "access_list_id") (int acl) fields) ≡ null
with_access_list key acl fields unset other = elim (Bool-cases (acl == pos 0)) [
  | inl e ↦ rw e unset
  | inr e ↦ rw e (get-put (txt "access_list_id") key (int acl) fields ∙ rw other unset)
]

no_custom_fields :
    (customs : RequestCustomFields) (fields : Fields)
    → customs ≡ []
    → put_custom_fields customs fields ≡ fields
unfolding put_custom_fields
no_custom_fields customs fields e = rw e refl

IsUnsent-without :
    (key : Text) (input : ProxyHostRequestInput)
    → input.custom_fields ≡ []
    → get key (base_body input) ≡ null
    → (txt "access_list_id" == key) ≡ false
    → IsUnsent key input
unfolding build_proxy_host_request_body
IsUnsent-without key input no_custom unset other = (
  _,
  refl,
  ap (λ (fs : Fields). get key fs) (no_custom_fields input.custom_fields _ no_custom)
      ∙ with_access_list key input.access_list_id (base_body input) unset other,
)

locations_restored :
    (locs : List ProxyHostLocation) → map restore_location (map capture_location locs) ≡ locs
unfolding restore_location capture_location
locations_restored [] = refl
locations_restored (l ∷ locs) =
    ap (λ (ls : List ProxyHostLocation). l ∷ ls) (locations_restored locs)

certificate_id-base_body :
    (input : ProxyHostRequestInput)
    → get (txt "certificate_id") (base_body input) ≡ int (certificate_or_zero input.certificate_id)
unfolding base_body get text_eq
certificate_id-base_body input = refl

certificate_restored : (id : ℤ) → certificate_or_zero (if id == pos 0 then none else some id) ≡ id
certificate_restored id = elim (Bool-cases (id == pos 0)) [
  | inl e ↦ ground (arith, int_eq_iff id (pos 0))
  | inr e ↦ rw e
]

-- For every host on the instance, the request that is built from the configuration captured of it
-- has the domains, the forward with its scheme and port, the advanced configuration, the locations,
-- the access list, and the switches for exploits, websockets, TLS, HTTP/2, HSTS and caching that the
-- host had, and its certificate in the body that is sent. The body has no unscoped configuration, and
-- nothing on whether the host is enabled.
pub restoration-capture :
    (h : Npm.ProxyHost)
    → (input : ProxyHostRequestInput) × (build_restoration_input
          (capture_initial_configuration (some h))
        ≡ some input)
      × Restores h input
unfolding build_restoration_input capture_initial_configuration
restoration-capture h = (
  _,
  refl,
  record {
    domain_names = refl;
    forward_host = refl;
    forward_scheme = refl;
    forward_port = refl;
    block_exploits = refl;
    allow_websocket_upgrade = refl;
    certificate_id =
        certificate_id-base_body _ ∙ ap (λ (z : ℤ). int z) (certificate_restored h.certificate_id);
    ssl_forced = refl;
    http2_support = refl;
    hsts_enabled = refl;
    hsts_subdomains = refl;
    advanced_config = refl;
    locations = locations_restored h.locations;
    caching_enabled = refl;
    access_list_id = refl;
    no_unscoped_config =
        IsUnsent-without custom_field_unscoped_config _ refl (unscoped_config-base_body _)
          (unfold text_eq in refl);
    no_enabled =
        IsUnsent-without (txt "enabled") _ refl (enabled-base_body _) (unfold text_eq in refl);
  },
)
