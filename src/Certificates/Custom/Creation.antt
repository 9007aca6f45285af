-- ===== src/Certificates/Custom/Creation.antt =====
-- When a custom certificate is uploaded, and how its creation ends.
use nginxpm_operator.Base.{◌≡◌, refl, Option, none, some, ◌∷◌, ℤ, Text, txt}
use nginxpm_operator.Errors.{Error}
use nginxpm_operator.Api.{NamespacedName, CustomCertificate}
use nginxpm_operator.Npm.{Client, create_custom_certificate}
use nginxpm_operator.Npm.ReadOnly.{find_custom_certificate_by_id-IsRead}
use nginxpm_operator.Effect.{
  Env, History, Retry, returns, calls, IsRetry, found, fetched, kind_custom_certificate, ok, panic,
  recorded, monad,
}
use nginxpm_operator.Effect.Emits.{Emits, emits_rules}
use nginxpm_operator.Effect.Traffic.{IsRead}
use nginxpm_operator.Controller.{ReconcileResult}
use nginxpm_operator.Controller.Resources.{custom_certificate-Resource}
use nginxpm_operator.Controller.ReadOnly.{set_condition-IsRead, update_status-IsRead}
use nginxpm_operator.Certificates.Reconcile.{apply_resource, conclude}
use nginxpm_operator.Certificates.Custom.{
  CustomCertificateKeys, get_certificate_keys, certificate_request, save_missing, save_certificate,
  set_status_text, request_certificate, create_or_find, create_certificate, custom_certificates,
}

conclude-IsRead :
    (req : NamespacedName) (cc : CustomCertificate) (result : ReconcileResult) (o : Option Error)
    → Emits IsRead (conclude custom_certificates req cc result o)
unfolding conclude
conclude-IsRead req cc result none = search (emits_rules, set_condition-IsRead)
conclude-IsRead req cc result (some e) = search (emits_rules, set_condition-IsRead)

set_status_text-IsRead :
    (req : NamespacedName) (message : Text) (cc : CustomCertificate)
    → Emits IsRead (set_status_text req message cc)
unfolding set_status_text
set_status_text-IsRead req message cc = search (emits_rules, update_status-IsRead)

found-IsRead :
    (req : NamespacedName) (cc : CustomCertificate) (c : Client) (o : Option ℤ) (id : ℤ)
    → o ≡ some id
    → Emits IsRead (create_or_find req cc c o)
unfolding create_or_find
found-IsRead req cc c o id e =
    rw e (search (emits_rules, find_custom_certificate_by_id-IsRead, set_status_text-IsRead))

-- Once a custom certificate has an id and a client is made, applying it sends nothing but GET
-- requests.
apply_resource-Emits :
    (req : NamespacedName) (cc : CustomCertificate) (c : Client) (id : ℤ)
    → cc.status.id ≡ some id
    → Emits IsRead (apply_resource custom_certificates req cc c)
unfolding apply_resource create_certificate
apply_resource-Emits req cc c id e =
    let creation = found-IsRead req cc c cc.status.id id e in
    search (emits_rules, creation, conclude-IsRead)

save_missing-panics :
    (retry : Retry) (req : NamespacedName) (cc o : CustomCertificate) (env : Env) (t : History)
    → IsRetry retry
    → env.custom_certificates.get t req ≡ found o
    → save_missing retry req cc env t ≡ (panic, fetched kind_custom_certificate req ∷ t)
unfolding save_missing
save_missing-panics (returns e) req c o env t is_retry is_found = absurd is_retry
save_missing-panics (calls next) req c o env t is_retry is_found = rw (save_missing, is_found) refl

-- The history at the status update of a certificate that was created.
abbrev pub after_creation :
    NamespacedName → CustomCertificate → Client → CustomCertificateKeys → Env → History → History
after_creation req cc c keys env t =
    recorded (txt "CreatedCustomCertificate")
    ∷ (create_custom_certificate c (certificate_request req cc keys) env
        (recorded (txt "CreatingCustomCertificate") ∷ t)).1

creation-panics :
    (req : NamespacedName) (cc o : CustomCertificate) (c : Client) (id : Option ℤ)
    (keys : CustomCertificateKeys) (env : Env) (t t' : History)
    → id ≡ none
    → get_certificate_keys req cc env t ≡ (ok keys, t')
    → (create_custom_certificate c
        (certificate_request req cc keys)
        env
        (recorded (txt "CreatingCustomCertificate") ∷ t')).0
      ≡ ok none
    → IsRetry (env.retry_on_conflict (after_creation req cc c keys env t'))
    → env.custom_certificates.get (after_creation req cc c keys env t') req ≡ found o
    → (create_or_find req cc c id env t).0 ≡ panic
unfolding create_or_find request_certificate save_certificate monad
creation-panics req cc o c id keys env t t' no_id granted missing is_retry is_found = rw no_id (
    rw granted (
      rw missing (
        rw
          (save_missing-panics (env.retry_on_conflict (after_creation req cc c keys env t')) req cc
            o env (after_creation req cc c keys env t') is_retry is_found)
          refl)))

-- When the instance takes the keys of a new certificate but then does not list it as one of its own
-- provider, client-go's RetryOnConflict calls its function, and the resource can be fetched for the
-- update of its status, the reconciliation, once its client is made, ends in a nil dereference.
pub apply_resource-panics_custom :
    (req : NamespacedName) (cc o : CustomCertificate) (c : Client) (keys : CustomCertificateKeys)
    (env : Env) (t t' : History)
    → cc.status.id ≡ none
    → get_certificate_keys req cc env t ≡ (ok keys, t')
    → (create_custom_certificate c
        (certificate_request req cc keys)
        env
        (recorded (txt "CreatingCustomCertificate") ∷ t')).0
      ≡ ok none
    → IsRetry (env.retry_on_conflict (after_creation req cc c keys env t'))
    → env.custom_certificates.get (after_creation req cc c keys env t') req ≡ found o
    → (apply_resource custom_certificates req cc c env t).0 ≡ panic
unfolding apply_resource create_certificate monad
apply_resource-panics_custom req cc o c keys env t t' no_id granted missing is_retry is_found =
    rw
      (creation-panics req cc o c cc.status.id keys env t t' no_id granted missing is_retry
        is_found)
      refl
