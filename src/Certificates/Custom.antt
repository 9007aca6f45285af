-- ===== src/Certificates/Custom.antt =====
-- internal/controller/customcertificate/customcertificate_controller.go: the creation of the
-- certificate from the keys of a secret.
pub mod Creation
use nginxpm_operator.Base.{ℕ, zero, suc, Option, none, some, [], ◌∷◌, ◌++◌, ℤ, Text, txt}
use nginxpm_operator.Errors.{KubeError, missing_secret_field}
use nginxpm_operator.Api.{NamespacedName, CustomCertificate, CustomCertificateStatus}
use nginxpm_operator.Npm.{
  Client, Certificate, CreateCustomCertificateRequest, custom_provider,
  find_custom_certificate_by_id, create_custom_certificate,
}
use nginxpm_operator.Effect.{
  Retry, returns, calls, found, failed, fetched, ok, panic, kind_custom_certificate, handle, Action,
  ◌>>=◌, ◌>>◌, pure, or_fail, record_event, fetch, kind_secret,
}
use nginxpm_operator.Controller.{
  update_status, with_event, secret_value, ReconcileResult, done, retry_after, succeeded, Attempt,
}
use nginxpm_operator.Controller.Resources.{custom_certificate-Resource}
use nginxpm_operator.Certificates.Reconcile.{Certificates}
use nginxpm_operator.Certificates.LetsEncrypt.{with_result}

abbrev pub custom_certificate_finalizer : Text
custom_certificate_finalizer = txt "customcertificate.nginxpm-operator.io/finalizers"

pub record CustomCertificateKeys : Type 0 where
  pub certificate : Text
  pub certificate_key : Text

unfoldable pub get_certificate_keys :
    NamespacedName → CustomCertificate → Action CustomCertificateKeys
get_certificate_keys req cc = do
  values ← with_event (txt "getCertificateKeys") (
      fetch kind_secret (λ env. env.secrets)
        (record { namespace = req.namespace; name = cc.spec.certificate.secret.name }))
  certificate ← or_fail (secret_value (txt "certificate") values) missing_secret_field
  key ← or_fail (secret_value (txt "certificate_key") values) missing_secret_field
  pure (record { certificate = certificate; certificate_key = key })

-- The name in the spec, if it is given and not empty.
unfoldable pub nice_name : NamespacedName → Option Text → Text
nice_name req none = req.name
nice_name req (some []) = req.name
nice_name req (some (b ∷ s)) = b ∷ s

unfoldable pub certificate_request :
    NamespacedName → CustomCertificate → CustomCertificateKeys → CreateCustomCertificateRequest
certificate_request req cc keys = record {
  nice_name = nice_name req cc.spec.nice_name;
  provider = custom_provider;
  certificate = keys.certificate;
  certificate_key = keys.certificate_key;
}

-- `cc.Status.Status = &msg`, with the error of the update dropped
unfoldable pub set_status_text :
    NamespacedName → Text → CustomCertificate → Action CustomCertificate
set_status_text req message cc = do
  saved ←
      update_status req (λ env o. record o { status = record o.status { status = some message } })
        cc
  pure saved.0

unfoldable pub created_status : Certificate → CustomCertificateStatus → CustomCertificateStatus
created_status certificate status = record status {
  id = some certificate.id;
  expires_on = some certificate.expires_on;
  status = some (txt "Certificate ready");
}

-- The update of the status from a certificate that the instance did not list: once the resource is
-- fetched, the id of no certificate is read.
unfoldable pub save_missing :
    Retry → NamespacedName → CustomCertificate → Action (Attempt CustomCertificate)
save_missing (returns e) req cc env t = (ok (cc, e), t)
save_missing (calls next) req cc env t = elim (env.custom_certificates.get t req) [
  | found o ↦ (panic, fetched kind_custom_certificate req ∷ t)
  | failed e ↦ save_missing (next (some e)) req cc env (fetched kind_custom_certificate req ∷ t)
]

unfoldable pub save_certificate :
    NamespacedName → CustomCertificate → Option Certificate → Action (Attempt CustomCertificate)
save_certificate req cc none env t = save_missing (env.retry_on_conflict t) req cc env t
save_certificate req cc (some certificate) env t =
    update_status req (λ env o. record o { status = created_status certificate o.status }) cc env t

-- An error of the instance leaves the result without an error.
unfoldable pub request_certificate :
    NamespacedName
    → CustomCertificate
    → Client
    → CustomCertificateKeys
    → Action (CustomCertificate × ReconcileResult)
request_certificate req cc client keys = do
  record_event (txt "CreatingCustomCertificate")
  handle (create_custom_certificate client (certificate_request req cc keys))
      (λ certificate. do
        record_event (txt "CreatedCustomCertificate")
        saved ← save_certificate req cc certificate
        pure (with_result saved))
      (λ e. do
        record_event (txt "CreateCustomCertificate")
        cc' ← set_status_text req (txt "Failed to create CustomCertificate") cc
        pure (cc', record { requeue_after = 60; error = none }))

unfoldable pub create_or_find :
    NamespacedName
    → CustomCertificate
    → Client
    → Option ℤ
    → Action (CustomCertificate × ReconcileResult)
create_or_find req cc client (some id) =
    handle (find_custom_certificate_by_id client id) (λ certificate. pure (cc, done))
      (λ e. do
        cc' ← set_status_text req (txt "Failed to find CustomCertificate by ID") cc
        pure (cc', retry_after 60 e))
create_or_find req cc client none =
    handle (get_certificate_keys req cc) (request_certificate req cc client) (λ e. do
      cc' ← set_status_text req (txt "Failed to retrieve certificate and certificate key") cc
      pure (cc', retry_after 60 e))

unfoldable pub create_certificate :
    NamespacedName → CustomCertificate → Client → Action (CustomCertificate × ReconcileResult)
create_certificate req cc client = create_or_find req cc client cc.status.id

abbrev pub custom_certificates : Certificates CustomCertificate
custom_certificates = record {
  finalizer = custom_certificate_finalizer;
  token = λ cc. cc.spec.token;
  owned_id = λ cc. cc.status.id;
  create_certificate = create_certificate;
  ready_condition = λ name.
      succeeded (txt "CreateCertificate") (txt "Certificate created, ResourceName: " ++ name);
}
