-- ===== src/Certificates/LetsEncrypt.antt =====
-- internal/controller/letsencryptcertificate/letsencryptcertificate_controller.go: the creation of the
-- certificate. The statement after both tests of the id is not reached.
pub mod Lifecycle
pub mod Creation
pub mod Deletion
use nginxpm_operator.Base.{true, Option, none, some, [], ◌++◌, is_some, if◌then◌else◌, ℤ, Text, txt}
use nginxpm_operator.Errors.{kube, missing_secret_field}
use nginxpm_operator.Api.{
  NamespacedName, LetsEncryptCertificate, LetsEncryptCertificateStatus, DnsChallenge,
}
use nginxpm_operator.Npm.{
  Client, Certificate, CreateLetEncryptCertificateRequest, find_let_encrypt_certificate_by_id,
  create_let_encrypt_certificate,
}
use nginxpm_operator.Effect.{
  handle, Action, ◌>>=◌, ◌>>◌, pure, or_fail, record_event, fetch, kind_secret,
}
use nginxpm_operator.Controller.{
  update_status, with_event, secret_value, ReconcileResult, done, retry_after, succeeded, Attempt,
}
use nginxpm_operator.Controller.Resources.{lets_encrypt_certificate-Resource}
use nginxpm_operator.Certificates.Reconcile.{Certificates}

abbrev pub lets_encrypt_certificate_finalizer : Text
lets_encrypt_certificate_finalizer = txt "letsencryptcertificate.nginxpm-operator.io/finalizers"

-- The result of a status update that ends the creation.
abbrev pub with_result : {O : Type 0} → Attempt O → O × ReconcileResult
with_result (o, none) = (o, done)
with_result (o, some e) = (o, record { requeue_after = 0; error = some (kube e) })

unfoldable pub get_dns_challenge_provider_credentials :
    NamespacedName → Option DnsChallenge → Action Text
get_dns_challenge_provider_credentials req none = pure []
get_dns_challenge_provider_credentials req (some challenge) = do
  values ← with_event (txt "GetDnsChallengeProviderCredentials") (
      fetch kind_secret (λ env. env.secrets)
        (record { namespace = req.namespace; name = challenge.provider_credentials.secret.name }))
  or_fail (secret_value (txt "credentials") values) missing_secret_field

abbrev provider_name : Option DnsChallenge → Text
provider_name none = []
provider_name (some challenge) = challenge.provider

unfoldable pub certificate_request :
    LetsEncryptCertificate → Text → CreateLetEncryptCertificateRequest
certificate_request lec credentials = record {
  domain_names = lec.spec.domain_names;
  meta = record {
    dns_challenge = is_some lec.spec.dns_challenge;
    dns_provider = provider_name lec.spec.dns_challenge;
    dns_provider_credentials = credentials;
    lets_encrypt_agree = true;
    lets_encrypt_email = lec.spec.lets_encrypt_email;
  };
}

unfoldable pub created_status :
    Certificate → LetsEncryptCertificateStatus → LetsEncryptCertificateStatus
created_status certificate status = record status {
  bound = certificate.bound;
  id = some certificate.id;
  domain_names = certificate.domain_names;
  expires_on = some certificate.expires_on;
}

unfoldable pub save_certificate :
    NamespacedName
    → LetsEncryptCertificate
    → Certificate
    → Action (LetsEncryptCertificate × ReconcileResult)
save_certificate req lec certificate = do
  record_event (txt "CreatedLetsEncryptCertificate")
  saved ← update_status req (λ env o. record o { status = created_status certificate o.status }) lec
  pure (with_result saved)

-- An error of the instance leaves the result without an error.
unfoldable pub request_certificate :
    NamespacedName
    → LetsEncryptCertificate
    → Client
    → Text
    → Action (LetsEncryptCertificate × ReconcileResult)
unfolding save_certificate
request_certificate req lec client credentials = do
  record_event (txt "CreatingLetsEncryptCertificate")
  handle (create_let_encrypt_certificate client (certificate_request lec credentials))
      (save_certificate req lec)
      (λ e. do
        record_event (txt "CreateLetsEncryptCertificate")
        pure (lec, record { requeue_after = 120; error = none }))

unfoldable pub create_or_find :
    NamespacedName
    → LetsEncryptCertificate
    → Client
    → Option ℤ
    → Action (LetsEncryptCertificate × ReconcileResult)
create_or_find req lec client (some id) =
    handle (find_let_encrypt_certificate_by_id client id) (λ certificate. pure (lec, done))
      (λ e. pure (lec, retry_after 60 e))
create_or_find req lec client none =
    handle (get_dns_challenge_provider_credentials req lec.spec.dns_challenge)
      (request_certificate req lec client) (λ e. pure (lec, retry_after 60 e))

unfoldable pub create_certificate :
    NamespacedName
    → LetsEncryptCertificate
    → Client
    → Action (LetsEncryptCertificate × ReconcileResult)
create_certificate req lec client = create_or_find req lec client lec.status.id

-- A certificate that was bound, not created, is not the resource's to delete.
abbrev pub lets_encrypt_certificates : Certificates LetsEncryptCertificate
lets_encrypt_certificates = record {
  finalizer = lets_encrypt_certificate_finalizer;
  token = λ lec. lec.spec.token;
  owned_id = λ lec. if lec.status.bound then none else lec.status.id;
  create_certificate = create_certificate;
  ready_condition = λ name.
      succeeded (txt "createCertificate")
        (txt "Certificate created or bound, ResourceName: " ++ name);
}
