-- ===== src/Controller/Certificates.antt =====
-- internal/controller/certificate.go: the certificate that a resource refers to.
use nginxpm_operator.Base.{Option, none, some, ℤ, Text}
use nginxpm_operator.Errors.{no_certificate_id}
use nginxpm_operator.Api.{
  SslLetsEncryptCertificate, SslCustomCertificate, NamespacedName, LetsEncryptCertificate,
  CustomCertificate,
}
use nginxpm_operator.Npm.{Client, Certificate, find_certificate_by_id}
use nginxpm_operator.Effect.{Action, ◌>>=◌, pure, or_fail}
use nginxpm_operator.Controller.Resources.{
  get_object, lets_encrypt_certificate-Resource, custom_certificate-Resource,
}

pub record RetrieveCertificateOption : Type 0 where
  pub req : NamespacedName
  pub client : Client
  pub lets_encrypt_certificate : Option SslLetsEncryptCertificate
  pub custom_certificate : Option SslCustomCertificate
  pub certificate_id : Option ℤ

-- The namespace of the reference, or that of the resource.
abbrev pub namespace_or : Text → Option Text → Text
namespace_or default none = default
namespace_or default (some namespace) = namespace

unfoldable pub get_lets_encrypt_certificate_by_reference :
    NamespacedName → SslLetsEncryptCertificate → Client → Action (Option Certificate)
get_lets_encrypt_certificate_by_reference req reference client = do
  lec ←
      get_object {O = LetsEncryptCertificate} (record {
        namespace = namespace_or req.namespace reference.namespace;
        name = reference.name;
      })
  id ← or_fail lec.status.id no_certificate_id
  find_certificate_by_id client id

unfoldable pub get_custom_certificate_by_reference :
    NamespacedName → SslCustomCertificate → Client → Action (Option Certificate)
get_custom_certificate_by_reference req reference client = do
  custom ←
      get_object {O = CustomCertificate} (record {
        namespace = namespace_or req.namespace reference.namespace;
        name = reference.name;
      })
  id ← or_fail custom.status.id no_certificate_id
  find_certificate_by_id client id

-- `if ref != nil { certificate, err = get(ref) }`: without a reference the certificate stays.
unfoldable pub override :
    {R : Type 0}
    → Option R
    → (R → Action (Option Certificate))
    → Option Certificate
    → Action (Option Certificate)
override none get certificate = pure certificate
override (some reference) get certificate = get reference

unfoldable pub retrieve_certificate : RetrieveCertificateOption → Action (Option Certificate)
retrieve_certificate o = do
  first ←
      override o.lets_encrypt_certificate
        (λ r. get_lets_encrypt_certificate_by_reference o.req r o.client) none
  second ←
      override o.custom_certificate (λ r. get_custom_certificate_by_reference o.req r o.client)
        first
  override o.certificate_id (λ id. find_certificate_by_id o.client id) second
