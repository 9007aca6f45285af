-- ===== src/ProxyHosts/Reconcile/Finalizer.antt =====
-- What a reconciliation does when the finalizer cannot be stored.
use nginxpm_operator.Base.{Bool, false, ◌≡◌, refl, ap, ◌∙◌, ◌∷◌, if◌then◌else◌}
use nginxpm_operator.Errors.{KubeError, kube}
use nginxpm_operator.Api.{NamespacedName, ProxyHost}
use nginxpm_operator.Effect.{
  Env, History, found, failed, ok, err, Action, fetched, updated, kind_proxy_host, proxy_host,
  monad,
}
use nginxpm_operator.Controller.{add_finalizer, retry_after, ReconcileResult}
use nginxpm_operator.Controller.Resources.{proxy_host-Resource}
use nginxpm_operator.ProxyHosts.Reconcile.{reconcile, reconcile_fetched, proxy_host_finalizer}

-- The resource with the finalizer, as it is sent to the API server.
abbrev pub with_finalizer : Env → ProxyHost → ProxyHost
with_finalizer env ph =
    proxy_host-Resource.with_finalizers ph
      (env.add_finalizer ph.metadata.finalizers proxy_host_finalizer)

if-false : {A : Type 0} (b : Bool) (x y : A) → b ≡ false → (if b then x else y) ≡ y
if-false b x y e = rw e refl

refused_finalizer :
    (ph : ProxyHost) (e : KubeError) (env : Env) (t : History)
    → env.contains_finalizer ph.metadata.finalizers proxy_host_finalizer ≡ false
    → env.proxy_hosts.update t (with_finalizer env ph) ≡ failed e
    → add_finalizer proxy_host_finalizer ph env t
      ≡ (err (kube e), updated (proxy_host (with_finalizer env ph)) ∷ t)
unfolding add_finalizer monad
refused_finalizer ph e env t lacks refused = rw lacks (rw refused refl)

-- When the finalizer cannot be stored on a resource that lacks it, the reconciliation ends there:
-- nothing is asked of the instance, no status is written, and it is repeated in a minute.
pub reconcile-no_finalizer :
    (req : NamespacedName) (ph : ProxyHost) (e : KubeError) (env : Env) (t : History)
    → env.proxy_hosts.get t req ≡ found ph
    → ph.metadata.deleting ≡ false
    → env.contains_finalizer ph.metadata.finalizers proxy_host_finalizer ≡ false
    → env.proxy_hosts.update (fetched kind_proxy_host req ∷ t) (with_finalizer env ph) ≡ failed e
    → reconcile req env t ≡ (
      ok (retry_after 60 (kube e)),
      updated (proxy_host (with_finalizer env ph)) ∷ fetched kind_proxy_host req ∷ t,
    )
unfolding reconcile reconcile_fetched monad
reconcile-no_finalizer req ph e env t is_found kept lacks refused =
    let t' = fetched kind_proxy_host req ∷ t in
    rw is_found (
      ap (λ (m : Action ReconcileResult). m env t') (if-false ph.metadata.deleting _ _ kept)
      ∙ rw (refused_finalizer ph e env t' lacks refused) refl)
