-- ===== src/Api/ProxyHosts.antt =====
-- api/v1/proxyhost_types.go
use nginxpm_operator.Base.{Bool, Option, List, Text, ℤ}
use nginxpm_operator.Api.Meta.{ObjectMeta, Condition}
use nginxpm_operator.Api.Tokens.{TokenName}

pub record SslCustomCertificate : Type 0 where
  pub name : Text
  pub namespace : Option Text

pub record SslLetsEncryptCertificate : Type 0 where
  pub name : Text
  pub namespace : Option Text

pub record ProxyHostSsl : Type 0 where
  pub auto_certificate_request : Bool
  pub lets_encrypt_certificate : Option SslLetsEncryptCertificate
  pub custom_certificate : Option SslCustomCertificate
  pub certificate_id : Option ℤ
  pub lets_encrypt_email : Option Text
  pub ssl_forced : Bool
  pub http2_support : Bool
  pub hsts_enabled : Bool
  pub hsts_subdomains : Bool

pub record ForwardHost : Type 0 where
  pub host_name : Text
  pub host_port : ℤ

pub record ForwardService : Type 0 where
  pub name : Text
  pub namespace : Option Text
  pub port : Option ℤ
  pub port_name : Option Text

pub record ProxyHostForward : Type 0 where
  pub scheme : Text
  pub service : Option ForwardService
  pub nginx_keepalive : Bool
  pub nginx_variable : Text
  pub hosts : List ForwardHost
  pub path : Text
  pub advanced_config : Text

pub record CustomLocation : Type 0 where
  pub location_path : Text
  pub forward : ProxyHostForward

pub record ProxyHostAccessList : Type 0 where
  pub access_list_id : Option ℤ
  pub name : Text
  pub namespace : Option Text

pub record ProxyHostSpec : Type 0 where
  pub token : Option TokenName
  pub domain_names : List Text
  pub bind_existing : Bool
  pub caching_enabled : Bool
  pub block_exploits : Bool
  pub websocket_support : Bool
  pub access_list : Option ProxyHostAccessList
  pub ssl : Option ProxyHostSsl
  pub forward : ProxyHostForward
  pub custom_locations : List CustomLocation

pub record ProxyHostLocationConfig : Type 0 where
  pub path : Text
  pub advanced_config : Text
  pub forward_scheme : Text
  pub forward_host : Text
  pub forward_port : ℤ

pub record InitialConfiguration : Type 0 where
  pub domain_names : List Text
  pub forward_host : Text
  pub forward_port : ℤ
  pub forward_scheme : Text
  pub access_list_id : ℤ
  pub certificate_id : Option ℤ
  pub ssl_forced : Bool
  pub caching_enabled : Bool
  pub block_exploits : Bool
  pub allow_websocket_upgrade : Bool
  pub http2_support : Bool
  pub hsts_enabled : Bool
  pub hsts_subdomains : Bool
  pub advanced_config : Text
  pub locations : List ProxyHostLocationConfig
  pub enabled : Bool

pub record ProxyHostStatus : Type 0 where
  pub id : Option ℤ
  pub certificate_id : Option ℤ
  pub bound : Bool
  pub online : Bool
  pub initial_configuration : Option InitialConfiguration
  pub conditions : List Condition

pub record ProxyHost : Type 0 where
  pub metadata : ObjectMeta
  pub spec : ProxyHostSpec
  pub status : ProxyHostStatus
