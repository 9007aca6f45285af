-- ===== src/Lifecycle.antt =====
-- How the reconciliations end, of the kinds of resources that have no nil dereference.
use nginxpm_operator.Base.{◌≡◌}
use nginxpm_operator.Api.{NamespacedName}
use nginxpm_operator.Effect.{Env, History, ok}
use nginxpm_operator.Controller.{ReconcileResult}
use nginxpm_operator.Controller.Resources.{lets_encrypt_certificate-Resource}
use nginxpm_operator.Streams.Reconcile as StreamReconcile
use nginxpm_operator.Streams.Reconcile.Lifecycle.{reconcile-Answers_stream}
use nginxpm_operator.AccessLists
use nginxpm_operator.AccessLists.Lifecycle.{reconcile-Answers}
use nginxpm_operator.Tokens
use nginxpm_operator.Tokens.{TokenResult}
use nginxpm_operator.Tokens.Lifecycle.{reconcile-Answers_token}
use nginxpm_operator.Certificates.Reconcile
use nginxpm_operator.Certificates.LetsEncrypt.{lets_encrypt_certificates}
use nginxpm_operator.Certificates.LetsEncrypt.Lifecycle.{reconcile-Answers_lets_encrypt}

-- Whatever the API server and the instance answer, a reconciliation of a stream, of an access list, of
-- a token and of a Let's Encrypt certificate ends with a result, neither with an error that nothing
-- handles nor with a nil dereference.
pub reconcile-Answers_all :
    (req : NamespacedName) (env : Env) (t : History)
    → ((result : ReconcileResult) × ((StreamReconcile.reconcile req env t).0 ≡ ok result))
      × ((result : ReconcileResult) × ((AccessLists.reconcile req env t).0 ≡ ok result))
      × ((result : TokenResult) × ((Tokens.reconcile req env t).0 ≡ ok result))
      × ((result : ReconcileResult) × ((Reconcile.reconcile lets_encrypt_certificates req env t).0
            ≡ ok result))
reconcile-Answers_all req env t = (
  reconcile-Answers_stream req env t,
  reconcile-Answers req env t,
  reconcile-Answers_token req env t,
  reconcile-Answers_lets_encrypt req env t,
)
