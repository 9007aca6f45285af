-- ===== src/Api/Streams.antt =====
-- api/v1/stream_types.go
use nginxpm_operator.Base.{Bool, Option, List, ℤ}
use nginxpm_operator.Api.Meta.{ObjectMeta, Condition}
use nginxpm_operator.Api.Tokens.{TokenName}
use nginxpm_operator.Api.ProxyHosts.{
  SslCustomCertificate, SslLetsEncryptCertificate, ForwardService, ForwardHost,
}

pub record StreamForward : Type 0 where
  pub tcp_forwarding : Bool
  pub udp_forwarding : Bool
  pub service : Option ForwardService
  pub hosts : List ForwardHost

pub record StreamSsl : Type 0 where
  pub lets_encrypt_certificate : Option SslLetsEncryptCertificate
  pub custom_certificate : Option SslCustomCertificate
  pub certificate_id : Option ℤ

pub record StreamSpec : Type 0 where
  pub token : Option TokenName
  pub incoming_port : ℤ
  pub overwrite_incoming_port_with_forward_port : Bool
  pub forward : StreamForward
  pub ssl : Option StreamSsl

pub record StreamStatus : Type 0 where
  pub id : Option ℤ
  pub incoming_port : Option ℤ
  pub forwarding_port : Option ℤ
  pub online : Bool
  pub conditions : List Condition

pub record Stream : Type 0 where
  pub metadata : ObjectMeta
  pub spec : StreamSpec
  pub status : StreamStatus
