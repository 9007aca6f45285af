-- ===== src/Certificates/Reconcile/Steady.antt =====
-- The events of the reconciliation of a certificate that stays, and that has its finalizer and
-- conditions.
use nginxpm_operator.Base.{Bool, true, false, ◌≡◌, ◌∷◌, All, if◌then◌else◌, is_empty}
use nginxpm_operator.Errors.{Error}
use nginxpm_operator.Api.{NamespacedName}
use nginxpm_operator.Npm.{Client}
use nginxpm_operator.Effect.{Env, Event, History, Action, found, fetched, handle, pure, monad}
use nginxpm_operator.Effect.Emits.{Emits, Emits-handle}
use nginxpm_operator.Controller.{init_nginxpm_client, add_finalizer, ReconcileResult, retry_after}
use nginxpm_operator.Controller.Resources.{Resource}
use nginxpm_operator.Certificates.Reconcile.{
  Certificates, apply_resource, no_client, with_status, reconcile_from, reconcile_fetched,
  reconcile,
}

if-false :
    {A : Type 0} (Q : A → Type 0) (b : Bool) (x y : A) → b ≡ false → Q y → Q (if b then x else y)
if-false Q b x y e q = rw e q

module _ {O : Type 0} ⦃r : Resource O⦄ (k : Certificates O) (req : NamespacedName) (o : O)
    (P : Event → Type 0) (opening : Emits P (init_nginxpm_client req.namespace (k.token o)))
    (applying : (c : Client) → Emits P (apply_resource k req o c))
    (failing : (e : Error) → Emits P (no_client k req false o e))
    (has_conditions : is_empty (r.conditions o) ≡ false) where
  from-Emits : Emits P (reconcile_from k req false o)
  unfolding reconcile_from with_status monad
  from-Emits = record {
    at = λ env t h. rw has_conditions ((Emits-handle _ _ _ opening applying failing).at env t h);
  }

  kept :
      (env : Env) (t : History)
      → env.contains_finalizer (r.metadata o).finalizers k.finalizer ≡ true
      → All P t
      → All P
          (handle
            (add_finalizer k.finalizer o)
            (reconcile_from k req false)
            (λ e. pure (retry_after 60 e))
            env
            t).1
  unfolding add_finalizer monad
  kept env t present h = rw present (from-Emits.at env t h)

  pub reconcile-emits :
      (env : Env) (t : History)
      → (r.store env).get t req ≡ found o
      → (r.metadata o).deleting ≡ false
      → env.contains_finalizer (r.metadata o).finalizers k.finalizer ≡ true
      → P (fetched r.kind req)
      → All P t
      → All P (reconcile k req env t).1
  unfolding reconcile reconcile_fetched monad
  reconcile-emits env t is_found stays present p h =
      let t' = fetched r.kind req ∷ t in
      rw is_found (
        if-false (λ (m : Action ReconcileResult). All P (m env t').1) _ _ _ stays
          (kept env t' present (p, h)))
