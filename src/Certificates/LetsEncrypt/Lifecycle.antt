-- ===== src/Certificates/LetsEncrypt/Lifecycle.antt =====
-- How a reconciliation of a Let's Encrypt certificate ends.
use nginxpm_operator.Base.{◌≡◌, Option, none, some, ℤ, Text}
use nginxpm_operator.Api.{NamespacedName, LetsEncryptCertificate, DnsChallenge}
use nginxpm_operator.Npm.{Client, Certificate}
use nginxpm_operator.Npm.Certificates.Settling.{
  find_let_encrypt_certificate_by_id-Settles, create_let_encrypt_certificate-Settles,
}
use nginxpm_operator.Effect.{Env, History, ok}
use nginxpm_operator.Effect.Returns.{Settles, Answers, answers_rules}
use nginxpm_operator.Controller.{ReconcileResult}
use nginxpm_operator.Controller.Resources.{lets_encrypt_certificate-Resource}
use nginxpm_operator.Controller.Settling.{with_event-Settles, update_status-Answers}
use nginxpm_operator.Certificates.Reconcile
use nginxpm_operator.Certificates.Reconcile.Lifecycle.{reconcile-Answers_certificate}
use nginxpm_operator.Certificates.LetsEncrypt.{
  get_dns_challenge_provider_credentials, save_certificate, request_certificate, create_or_find,
  create_certificate, lets_encrypt_certificates,
}

ruleset step_rules = (answers_rules, with_event-Settles, update_status-Answers)

credentials-Settles :
    (req : NamespacedName) (o : Option DnsChallenge)
    → Settles (get_dns_challenge_provider_credentials req o)
unfolding get_dns_challenge_provider_credentials
credentials-Settles req none = search step_rules
credentials-Settles req (some challenge) = search step_rules

save_certificate-Answers :
    (req : NamespacedName) (lec : LetsEncryptCertificate) (cert : Certificate)
    → Answers (save_certificate req lec cert)
unfolding save_certificate
save_certificate-Answers req lec cert = search step_rules

request_certificate-Answers :
    (req : NamespacedName) (lec : LetsEncryptCertificate) (c : Client) (credentials : Text)
    → Answers (request_certificate req lec c credentials)
unfolding request_certificate
request_certificate-Answers req lec c credentials =
    search (step_rules, save_certificate-Answers, create_let_encrypt_certificate-Settles)

create_or_find-Answers :
    (req : NamespacedName) (lec : LetsEncryptCertificate) (c : Client) (o : Option ℤ)
    → Answers (create_or_find req lec c o)
unfolding create_or_find
create_or_find-Answers req lec c none =
    search (step_rules, credentials-Settles, request_certificate-Answers)
create_or_find-Answers req lec c (some id) =
    search (step_rules, find_let_encrypt_certificate_by_id-Settles)

create_certificate-Answers :
    (req : NamespacedName) (lec : LetsEncryptCertificate) (c : Client)
    → Answers (create_certificate req lec c)
unfolding create_certificate
create_certificate-Answers req lec c = create_or_find-Answers req lec c lec.status.id

-- Whatever the API server and the instance answer, a reconciliation of a Let's Encrypt certificate
-- ends with a result, neither with an error that nothing handles nor with a nil dereference.
pub reconcile-Answers_lets_encrypt :
    (req : NamespacedName) (env : Env) (t : History)
    → (result : ReconcileResult) × ((Reconcile.reconcile lets_encrypt_certificates req env t).0
        ≡ ok result)
reconcile-Answers_lets_encrypt req =
    (reconcile-Answers_certificate lets_encrypt_certificates create_certificate-Answers req).at
