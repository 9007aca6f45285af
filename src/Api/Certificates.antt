-- ===== src/Api/Certificates.antt =====
-- api/v1/letsencryptcertificate_types.go and api/v1/customcertificate_types.go
use nginxpm_operator.Base.{Bool, Option, List, ℤ, Text}
use nginxpm_operator.Api.Meta.{ObjectMeta, Condition}
use nginxpm_operator.Api.Tokens.{TokenName}

pub record DnsChallengeProviderCredentialsSecret : Type 0 where
  pub name : Text

pub record DnsChallengeProviderCredentials : Type 0 where
  pub secret : DnsChallengeProviderCredentialsSecret

pub record DnsChallenge : Type 0 where
  pub provider : Text
  pub provider_credentials : DnsChallengeProviderCredentials
  pub propagation_seconds : ℤ

pub record LetsEncryptCertificateSpec : Type 0 where
  pub token : Option TokenName
  pub domain_names : List Text
  pub lets_encrypt_email : Text
  pub dns_challenge : Option DnsChallenge

pub record LetsEncryptCertificateStatus : Type 0 where
  pub id : Option ℤ
  pub bound : Bool
  pub domain_names : List Text
  pub expires_on : Option Text
  pub conditions : List Condition

pub record LetsEncryptCertificate : Type 0 where
  pub metadata : ObjectMeta
  pub spec : LetsEncryptCertificateSpec
  pub status : LetsEncryptCertificateStatus

pub record CustomCertificateCredentialsSecret : Type 0 where
  pub name : Text

pub record CustomCertificateCredentials : Type 0 where
  pub secret : CustomCertificateCredentialsSecret

pub record CustomCertificateSpec : Type 0 where
  pub token : Option TokenName
  pub nice_name : Option Text
  pub certificate : CustomCertificateCredentials

pub record CustomCertificateStatus : Type 0 where
  pub id : Option ℤ
  pub expires_on : Option Text
  pub status : Option Text
  pub conditions : List Condition

pub record CustomCertificate : Type 0 where
  pub metadata : ObjectMeta
  pub spec : CustomCertificateSpec
  pub status : CustomCertificateStatus
