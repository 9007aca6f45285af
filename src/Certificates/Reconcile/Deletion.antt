-- ===== src/Certificates/Reconcile/Deletion.antt =====
-- The deletion of a certificate: what is sent to the instance, and the finalizer.
use nginxpm_operator.Base.{
  Bool, true, false, ◌≡◌, refl, Option, none, some, ◌++◌, ◌∷◌, is_empty, if◌then◌else◌, ℤ,
}
use nginxpm_operator.Errors.{KubeError, kube}
use nginxpm_operator.Api.{NamespacedName}
use nginxpm_operator.Npm.{Client, certificate_path, delete_certificate}
use nginxpm_operator.Npm.Deletion.{deletion, delete_certificate-History}
use nginxpm_operator.Npm.Certificates.Settling.{delete_certificate-Settles}
use nginxpm_operator.Effect.{
  Env, History, Action, Result, ok, found, failed, sent, fetched, updated, monad,
}
use nginxpm_operator.Effect.Ends.{handle-ends}
use nginxpm_operator.Effect.Returns.{ignore_error-runs}
use nginxpm_operator.Controller.{remove_finalizer, done, retry_after, ReconcileResult}
use nginxpm_operator.Controller.Resources.{Resource}
use nginxpm_operator.Controller.Settling.{init_nginxpm_client-Settles}
use nginxpm_operator.Certificates.Reconcile.{
  Certificates, delete_remote, let_go, delete_resource, no_client, with_status, reconcile_from,
  reconcile_fetched, reconcile,
}

delete_remote-runs :
    (c : Client) (o : Option ℤ) (env : Env) (t : History)
    → (h : History) × (delete_remote c o env t ≡ (ok tt, h))
unfolding delete_remote monad
delete_remote-runs c none env t = (t, refl)
delete_remote-runs c (some id) env t =
    (_, ignore_error-runs (delete_certificate c id) env t (delete_certificate-Settles c id))

-- The one request of the deletion of an id.
pub delete_remote-sent :
    (c : Client) (id : ℤ) (env : Env) (t : History)
    → env.valid_url (c.endpoint ++ certificate_path id) ≡ true
    → delete_remote c (some id) env t ≡ (ok tt, sent (deletion c (certificate_path id)) ∷ t)
unfolding delete_remote
delete_remote-sent c id env t valid =
    rw (ignore_error-runs (delete_certificate c id) env t (delete_certificate-Settles c id))
      (rw (delete_certificate-History c id env t valid) refl)

if-true :
    {A : Type 0} (Q : A → Type 0) (b : Bool) (x y : A) → b ≡ true → Q x → Q (if b then x else y)
if-true Q b x y e q = rw e q

module _ {O : Type 0} ⦃r : Resource O⦄ (k : Certificates O) (env : Env) (o : O) where
  -- The resource without the finalizer, as it is sent to the API server.
  abbrev pub without_finalizer : O
  without_finalizer =
      r.with_finalizers o (env.remove_finalizer (r.metadata o).finalizers k.finalizer)

  -- The run ends with the update that takes the finalizer off, and is not repeated.
  abbrev pub EndsReleased : Result ReconcileResult × History → Type 0
  EndsReleased run = (h : History) × (run ≡ (ok done, updated (r.embed without_finalizer) ∷ h))

  -- The run ends with an error of the API server, and is repeated in a minute.
  abbrev pub EndsRefused : Result ReconcileResult × History → Type 0
  EndsRefused run = (h : History) × (e : KubeError) × (run ≡ (ok (retry_after 60 (kube e)), h))

  module _ (present : env.contains_finalizer (r.metadata o).finalizers k.finalizer ≡ true) where
    pub let_go-released :
        (t : History) (y : O)
        → (r.store env).update t without_finalizer ≡ found y
        → EndsReleased (let_go k o env t)
    unfolding let_go remove_finalizer monad
    let_go-released t y e = (t, rw present (rw e refl))

    pub let_go-refused :
        (t : History) (e : KubeError)
        → (r.store env).update t without_finalizer ≡ failed e
        → EndsRefused (let_go k o env t)
    unfolding let_go remove_finalizer monad
    let_go-refused t e q = (updated (r.embed without_finalizer) ∷ t, e, rw present (rw q refl))

    -- A property that the end of `let_go` has whatever the history is one of the whole deletion.
    module _ (P : Result ReconcileResult × History → Type 0)
        (ends : (t : History) → P (let_go k o env t)) where
      delete_resource-ends : (c : Client) (t : History) → P (delete_resource k o c env t)
      unfolding delete_resource monad
      delete_resource-ends c t =
          let (h, e) = delete_remote-runs c (k.owned_id o) env t in rw present (rw e (ends h))

      from-ends :
          (req : NamespacedName) (t : History)
          → is_empty (r.conditions o) ≡ false
          → P (reconcile_from k req true o env t)
      unfolding reconcile_from with_status no_client monad
      from-ends req t has_conditions = rw has_conditions (
          handle-ends P env _ _ _ t (init_nginxpm_client-Settles req.namespace (k.token o))
            (λ c t'. delete_resource-ends c t') (λ e t'. ends t'))

      pub reconcile-ends :
          (req : NamespacedName) (t : History)
          → is_empty (r.conditions o) ≡ false
          → (r.metadata o).deleting ≡ true
          → (r.store env).get t req ≡ found o
          → P (reconcile k req env t)
      unfolding reconcile reconcile_fetched monad
      reconcile-ends req t has_conditions deleting is_found =
          let t' = fetched r.kind req ∷ t in
          rw is_found (
            if-true (λ (m : Action ReconcileResult). P (m env t')) _ _ _ deleting
              (from-ends req t' has_conditions))
