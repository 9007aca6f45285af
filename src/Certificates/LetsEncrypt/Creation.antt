-- ===== src/Certificates/LetsEncrypt/Creation.antt =====
-- When a Let's Encrypt certificate is asked for, and what becomes of a refusal.
use nginxpm_operator.Base.{
  ◌≡◌, refl, Option, none, some, ◌∷◌, ℤ, Text, txt, All, false, true, is_empty,
}
use nginxpm_operator.Errors.{Error}
use nginxpm_operator.Api.{NamespacedName, LetsEncryptCertificate}
use nginxpm_operator.Npm.{Client, create_let_encrypt_certificate}
use nginxpm_operator.Npm.ReadOnly.{find_let_encrypt_certificate_by_id-IsRead}
use nginxpm_operator.Effect.{Env, History, found, ok, err, recorded, monad}
use nginxpm_operator.Effect.Emits.{Emits, emits_rules}
use nginxpm_operator.Effect.Traffic.{IsRead}
use nginxpm_operator.Controller.{ReconcileResult, done, set_condition, update_status}
use nginxpm_operator.Controller.Resources.{lets_encrypt_certificate-Resource}
use nginxpm_operator.Controller.ReadOnly.{set_condition-IsRead, init_nginxpm_client-IsRead}
use nginxpm_operator.Certificates.Reconcile.{apply_resource, conclude, no_client, reconcile}
use nginxpm_operator.Certificates.Reconcile.Steady.{reconcile-emits}
use nginxpm_operator.Certificates.LetsEncrypt.{
  get_dns_challenge_provider_credentials, certificate_request, request_certificate, create_or_find,
  create_certificate, lets_encrypt_certificates,
}

-- The history once the instance has refused the certificate.
abbrev pub after_refusal : LetsEncryptCertificate → Client → Text → Env → History → History
after_refusal lec c credentials env t =
    recorded (txt "CreateLetsEncryptCertificate")
    ∷ (create_let_encrypt_certificate c (certificate_request lec credentials) env
        (recorded (txt "CreatingLetsEncryptCertificate") ∷ t)).1

creation-refused :
    (req : NamespacedName) (lec : LetsEncryptCertificate) (c : Client) (o : Option ℤ)
    (credentials : Text) (e : Error) (env : Env) (t t' : History)
    → o ≡ none
    → get_dns_challenge_provider_credentials req lec.spec.dns_challenge env t ≡ (ok credentials, t')
    → (create_let_encrypt_certificate c
        (certificate_request lec credentials)
        env
        (recorded (txt "CreatingLetsEncryptCertificate") ∷ t')).0
      ≡ err e
    → create_or_find req lec c o env t ≡ (
      ok (lec, record { requeue_after = 120; error = none }),
      after_refusal lec c credentials env t',
    )
unfolding create_or_find request_certificate monad
creation-refused req lec c o credentials e env t t' no_id granted refused =
    rw no_id (rw granted (rw refused refl))

-- When the instance refuses to create a certificate whose credentials are there, the reconciliation
-- sets the condition of a certificate that is ready, and asks for no other reconciliation.
pub apply_resource-refused :
    (req : NamespacedName) (lec : LetsEncryptCertificate) (c : Client) (credentials : Text)
    (e : Error) (env : Env) (t t' : History)
    → lec.status.id ≡ none
    → get_dns_challenge_provider_credentials req lec.spec.dns_challenge env t ≡ (ok credentials, t')
    → (create_let_encrypt_certificate c
        (certificate_request lec credentials)
        env
        (recorded (txt "CreatingLetsEncryptCertificate") ∷ t')).0
      ≡ err e
    → apply_resource lets_encrypt_certificates req lec c env t ≡ (
      ok done,
      (set_condition req
          (lets_encrypt_certificates.ready_condition req.name)
          lec
          env
          (after_refusal lec c credentials env t')).1,
    )
unfolding apply_resource create_certificate conclude set_condition update_status monad
apply_resource-refused req lec c credentials e env t t' no_id granted refused =
    rw (creation-refused req lec c lec.status.id credentials e env t t' no_id granted refused) refl

conclude-IsRead :
    (req : NamespacedName) (lec : LetsEncryptCertificate) (result : ReconcileResult)
    (o : Option Error)
    → Emits IsRead (conclude lets_encrypt_certificates req lec result o)
unfolding conclude
conclude-IsRead req lec result none = search (emits_rules, set_condition-IsRead)
conclude-IsRead req lec result (some e) = search (emits_rules, set_condition-IsRead)

found-IsRead :
    (req : NamespacedName) (lec : LetsEncryptCertificate) (c : Client) (o : Option ℤ) (id : ℤ)
    → o ≡ some id
    → Emits IsRead (create_or_find req lec c o)
unfolding create_or_find
found-IsRead req lec c o id e =
    rw e (search (emits_rules, find_let_encrypt_certificate_by_id-IsRead))

apply_resource-Emits :
    (req : NamespacedName) (lec : LetsEncryptCertificate) (c : Client) (id : ℤ)
    → lec.status.id ≡ some id
    → Emits IsRead (apply_resource lets_encrypt_certificates req lec c)
unfolding apply_resource create_certificate
apply_resource-Emits req lec c id e =
    let creation = found-IsRead req lec c lec.status.id id e in
    search (emits_rules, creation, conclude-IsRead)

no_client-IsRead :
    (req : NamespacedName) (lec : LetsEncryptCertificate) (e : Error)
    → Emits IsRead (no_client lets_encrypt_certificates req false lec e)
unfolding no_client
no_client-IsRead req lec e = search (emits_rules, set_condition-IsRead)

-- The reconciliation of a Let's Encrypt certificate that is not being deleted, and that has its
-- finalizer, conditions and an id, writes nothing to the instance: every request that it adds to the
-- history is a GET, whatever the instance answers.
pub reconcile-IsRead_lets_encrypt :
    (req : NamespacedName) (lec : LetsEncryptCertificate) (id : ℤ) (env : Env) (t : History)
    → env.lets_encrypt_certificates.get t req ≡ found lec
    → lec.metadata.deleting ≡ false
    → env.contains_finalizer lec.metadata.finalizers lets_encrypt_certificates.finalizer ≡ true
    → is_empty lec.status.conditions ≡ false
    → lec.status.id ≡ some id
    → All IsRead t
    → All IsRead (reconcile lets_encrypt_certificates req env t).1
reconcile-IsRead_lets_encrypt req lec id env t is_found stays present has_conditions has_id =
    reconcile-emits lets_encrypt_certificates req lec IsRead
      (init_nginxpm_client-IsRead req.namespace lec.spec.token)
      (λ c. apply_resource-Emits req lec c id has_id) (no_client-IsRead req lec) has_conditions env
      t is_found stays present tt
