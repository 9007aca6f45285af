-- ===== src/Npm/Types.antt =====
-- The structs of pkg/nginxpm that the API answers with, and how their JSON is decoded.
use nginxpm_operator.Base.{Bool, Option, none, some, List, Text, txt, ℤ, pos}
use nginxpm_operator.Json.{
  null, str, get, Decoder, decode_int, decode_text, decode_bool, decode_pointer, decode_fields,
  decode_list, ◌>>=◌, ◌>>◌,
}

-- The zero value of `time.Time`.
abbrev pub zero_time : ℤ
zero_time = pos 0

pub record TokenResponse : Type 0 where
  pub token : Text
  pub expires : ℤ

decode_time : (Text → Option ℤ) → Decoder ℤ
decode_time parse null = some zero_time
decode_time parse (str s) = parse s
decode_time parse j = none

unfoldable pub decode_token_response : (Text → Option ℤ) → Decoder TokenResponse
unfolding decode_time
decode_token_response parse j = do
  fs ← decode_fields j
  token ← decode_text (get (txt "token") fs)
  expires ← decode_time parse (get (txt "expires") fs)
  some (record { token = token; expires = expires })

pub record NginxMeta : Type 0 where
  pub nginx_err : Option Text
  pub nginx_online : Bool

unfoldable pub decode_nginx_meta : Decoder NginxMeta
decode_nginx_meta j = do
  fs ← decode_fields j
  nginx_err ← decode_pointer decode_text (get (txt "nginx_err") fs)
  nginx_online ← decode_bool (get (txt "nginx_online") fs)
  some (record { nginx_err = nginx_err; nginx_online = nginx_online })

pub record ProxyHostLocation : Type 0 where
  pub path : Text
  pub advanced_config : Text
  pub forward_scheme : Text
  pub forward_host : Text
  pub forward_port : ℤ

unfoldable pub decode_location : Decoder ProxyHostLocation
decode_location j = do
  fs ← decode_fields j
  path ← decode_text (get (txt "path") fs)
  advanced_config ← decode_text (get (txt "advanced_config") fs)
  forward_scheme ← decode_text (get (txt "forward_scheme") fs)
  forward_host ← decode_text (get (txt "forward_host") fs)
  forward_port ← decode_int (get (txt "forward_port") fs)
  some (record {
    path = path;
    advanced_config = advanced_config;
    forward_scheme = forward_scheme;
    forward_host = forward_host;
    forward_port = forward_port;
  })

pub record ProxyHost : Type 0 where
  pub id : ℤ
  pub created_on : Text
  pub modified_on : Text
  pub owner_user_id : ℤ
  pub domain_names : List Text
  pub forward_host : Text
  pub forward_port : ℤ
  pub access_list_id : ℤ
  pub certificate_id : ℤ
  pub ssl_forced : Bool
  pub caching_enabled : Bool
  pub block_exploits : Bool
  pub advanced_config : Text
  pub meta : NginxMeta
  pub allow_websocket_upgrade : Bool
  pub http2_support : Bool
  pub forward_scheme : Text
  pub enabled : Bool
  pub locations : List ProxyHostLocation
  pub hsts_enabled : Bool
  pub hsts_subdomains : Bool
  pub unscoped_config : Option Text

unfoldable pub decode_proxy_host : Decoder ProxyHost
unfolding decode_nginx_meta decode_location
decode_proxy_host j = do
  fs ← decode_fields j
  id ← decode_int (get (txt "id") fs)
  created_on ← decode_text (get (txt "created_on") fs)
  modified_on ← decode_text (get (txt "modified_on") fs)
  owner_user_id ← decode_int (get (txt "owner_user_id") fs)
  domain_names ← decode_list decode_text (get (txt "domain_names") fs)
  forward_host ← decode_text (get (txt "forward_host") fs)
  forward_port ← decode_int (get (txt "forward_port") fs)
  access_list_id ← decode_int (get (txt "access_list_id") fs)
  certificate_id ← decode_int (get (txt "certificate_id") fs)
  ssl_forced ← decode_bool (get (txt "ssl_forced") fs)
  caching_enabled ← decode_bool (get (txt "caching_enabled") fs)
  block_exploits ← decode_bool (get (txt "block_exploits") fs)
  advanced_config ← decode_text (get (txt "advanced_config") fs)
  meta ← decode_nginx_meta (get (txt "meta") fs)
  allow_websocket_upgrade ← decode_bool (get (txt "allow_websocket_upgrade") fs)
  http2_support ← decode_bool (get (txt "http2_support") fs)
  forward_scheme ← decode_text (get (txt "forward_scheme") fs)
  enabled ← decode_bool (get (txt "enabled") fs)
  locations ← decode_list decode_location (get (txt "locations") fs)
  hsts_enabled ← decode_bool (get (txt "hsts_enabled") fs)
  hsts_subdomains ← decode_bool (get (txt "hsts_subdomains") fs)
  unscoped_config ← decode_pointer decode_text (get (txt "unscoped_config") fs)
  some (record {
    id = id;
    created_on = created_on;
    modified_on = modified_on;
    owner_user_id = owner_user_id;
    domain_names = domain_names;
    forward_host = forward_host;
    forward_port = forward_port;
    access_list_id = access_list_id;
    certificate_id = certificate_id;
    ssl_forced = ssl_forced;
    caching_enabled = caching_enabled;
    block_exploits = block_exploits;
    advanced_config = advanced_config;
    meta = meta;
    allow_websocket_upgrade = allow_websocket_upgrade;
    http2_support = http2_support;
    forward_scheme = forward_scheme;
    enabled = enabled;
    locations = locations;
    hsts_enabled = hsts_enabled;
    hsts_subdomains = hsts_subdomains;
    unscoped_config = unscoped_config;
  })

pub record Stream : Type 0 where
  pub id : ℤ
  pub unscoped_config : Option Text
  pub meta : NginxMeta

unfoldable pub decode_stream : Decoder Stream
unfolding decode_nginx_meta
decode_stream j = do
  fs ← decode_fields j
  id ← decode_int (get (txt "id") fs)
  unscoped_config ← decode_pointer decode_text (get (txt "unscoped_config") fs)
  meta ← decode_nginx_meta (get (txt "meta") fs)
  some (record { id = id; unscoped_config = unscoped_config; meta = meta })

pub record AccessList : Type 0 where
  pub id : ℤ
  pub proxy_host_count : ℤ

unfoldable pub decode_access_list : Decoder AccessList
decode_access_list j = do
  fs ← decode_fields j
  id ← decode_int (get (txt "id") fs)
  proxy_host_count ← decode_int (get (txt "proxy_host_count") fs)
  some (record { id = id; proxy_host_count = proxy_host_count })

-- `certificate[K]` without its `Meta`, which no function reads. `Certificate`,
-- `LetsEncryptCertificate` and `CustomCertificate` are instances of it.
pub record Certificate : Type 0 where
  pub id : ℤ
  pub created_on : Text
  pub modified_on : Text
  pub provider : Text
  pub nice_name : Text
  pub domain_names : List Text
  pub expires_on : Text
  pub bound : Bool

-- `meta` is the test that the JSON of the metadata decodes.
unfoldable pub decode_certificate : Decoder (Unit {0}) → Decoder Certificate
decode_certificate meta j = do
  fs ← decode_fields j
  id ← decode_int (get (txt "id") fs)
  created_on ← decode_text (get (txt "created_on") fs)
  modified_on ← decode_text (get (txt "modified_on") fs)
  provider ← decode_text (get (txt "provider") fs)
  nice_name ← decode_text (get (txt "nice_name") fs)
  domain_names ← decode_list decode_text (get (txt "domain_names") fs)
  expires_on ← decode_text (get (txt "expires_on") fs)
  meta (get (txt "meta") fs)
  bound ← decode_bool (get (txt "bound") fs)
  some (record {
    id = id;
    created_on = created_on;
    modified_on = modified_on;
    provider = provider;
    nice_name = nice_name;
    domain_names = domain_names;
    expires_on = expires_on;
    bound = bound;
  })

-- `interface{}` takes any value.
unfoldable pub any_meta : Decoder (Unit {0})
any_meta j = some tt

unfoldable pub lets_encrypt_meta : Decoder (Unit {0})
lets_encrypt_meta j = do
  fs ← decode_fields j
  agree ← decode_bool (get (txt "letsencrypt_agree") fs)
  dns_challenge ← decode_bool (get (txt "dns_challenge") fs)
  nginx_online ← decode_bool (get (txt "nginx_online") fs)
  nginx_err ← decode_pointer decode_text (get (txt "nginx_err") fs)
  email ← decode_text (get (txt "letsencrypt_email") fs)
  some tt

unfoldable pub custom_meta : Decoder (Unit {0})
custom_meta j = do
  fs ← decode_fields j
  certificate ← decode_text (get (txt "certificate") fs)
  certificate_key ← decode_text (get (txt "certificate_key") fs)
  some tt
