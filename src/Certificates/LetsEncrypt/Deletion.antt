-- ===== src/Certificates/LetsEncrypt/Deletion.antt =====
-- What the deletion of a Let's Encrypt certificate sends to the instance.
use nginxpm_operator.Base.{Bool, true, false, ◌≡◌, refl, none, some, ◌++◌, ◌∷◌, if◌then◌else◌, ℤ}
use nginxpm_operator.Api.{LetsEncryptCertificate}
use nginxpm_operator.Npm.{Client, certificate_path}
use nginxpm_operator.Npm.Deletion.{deletion}
use nginxpm_operator.Effect.{Env, History, ok, sent, monad}
use nginxpm_operator.Controller.Resources.{lets_encrypt_certificate-Resource}
use nginxpm_operator.Certificates.Reconcile.{delete_resource, delete_remote, let_go}
use nginxpm_operator.Certificates.Reconcile.Deletion.{delete_remote-sent}
use nginxpm_operator.Certificates.LetsEncrypt.{
  lets_encrypt_certificates, lets_encrypt_certificate_finalizer,
}

-- What the deletion of the certificate with an id sends: nothing, if it was bound.
owned-sent :
    (c : Client) (bound : Bool) (id : ℤ) (env : Env) (t : History)
    → env.valid_url (c.endpoint ++ certificate_path id) ≡ true
    → delete_remote c (if bound then none else some id) env t
      ≡ (ok tt, if bound then t else sent (deletion c (certificate_path id)) ∷ t)
unfolding monad delete_remote
owned-sent c true id env t valid = refl
owned-sent c false id env t valid = delete_remote-sent c id env t valid

-- The deletion of a Let's Encrypt certificate that has the finalizer and an id, at an endpoint that
-- parses, asks the instance for nothing if the certificate was bound, and sends the DELETE of that
-- id if it was created; then, whatever the instance answers, it goes on to take off the finalizer.
pub delete_resource-let_go_lets_encrypt :
    (lec : LetsEncryptCertificate) (c : Client) (id : ℤ) (env : Env) (t : History)
    → env.contains_finalizer lec.metadata.finalizers lets_encrypt_certificate_finalizer ≡ true
    → lec.status.id ≡ some id
    → env.valid_url (c.endpoint ++ certificate_path id) ≡ true
    → delete_resource lets_encrypt_certificates lec c env t
      ≡ let_go lets_encrypt_certificates lec env
          (if lec.status.bound then t else sent (deletion c (certificate_path id)) ∷ t)
unfolding delete_resource monad
delete_resource-let_go_lets_encrypt lec c id env t present has_id valid =
    rw present (rw has_id (rw (owned-sent c lec.status.bound id env t valid) refl))
