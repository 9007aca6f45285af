-- ===== src/Certificates/Reconcile/Liveness.antt =====
-- The reconciliations of a certificate that is being deleted, one after the other.
use nginxpm_operator.Base.{
  Bool, true, false, ◌||◌, not, ◌==◌, nat-Eq, ◌≡◌, refl, ◌⊎◌, inl, inr, List, [], ◌∷◌, All, In,
  Text, if◌then◌else◌, is_some, is_empty,
}
use nginxpm_operator.Api.{NamespacedName}
use nginxpm_operator.Effect.{Env, History, Action, Result, ok, err, panic, found, Kube-cases}
use nginxpm_operator.Controller.{ReconcileResult}
use nginxpm_operator.Controller.Resources.{Resource}
use nginxpm_operator.Certificates.Reconcile.{Certificates, reconcile}
use nginxpm_operator.Certificates.Reconcile.Deletion.{
  without_finalizer, EndsReleased, EndsRefused, let_go-released, let_go-refused, reconcile-ends,
}

-- A result with an error or a delay asks for another reconciliation.
abbrev pub asks_again : Result ReconcileResult → Bool
asks_again (ok result) = is_some result.error || not (result.requeue_after == 0)
asks_again (err e) = true
asks_again panic = false

-- An action in one environment after the other, for as long as its result asks for it.
unfoldable pub repeated :
    Action ReconcileResult → Env → List Env → History → Result ReconcileResult × History
repeated m env [] t = m env t
repeated m env (next ∷ envs) t =
    let run = m env t in
    let rest = repeated m next envs run.1 in if asks_again run.0 then rest else run

abbrev pub last_env : Env → List Env → Env
last_env env [] = env
last_env env (next ∷ envs) = last_env next envs

module _ {O : Type 0} ⦃r : Resource O⦄ (k : Certificates O) (req : NamespacedName) (o : O) where
  -- The resource is there, with its finalizer, and controller-runtime's RemoveFinalizer leaves lists
  -- without it.
  pub record Holds (env : Env) : Type 0 where
    pub is_found : (t : History) → (r.store env).get t req ≡ found o
    pub present : env.contains_finalizer (r.metadata o).finalizers k.finalizer ≡ true
    pub removes :
        (fs : List Text)
        → env.contains_finalizer (env.remove_finalizer fs k.finalizer) k.finalizer ≡ false

  -- The API server accepts the update that takes the finalizer off.
  abbrev pub Accepts : Env → Type 0
  Accepts env =
      (t : History) → (y : O) × ((r.store env).update t (without_finalizer k env o) ≡ found y)

  -- In one of the environments the run ends with the update to the resource as it was fetched there
  -- but for its finalizers, which do not contain the one of the operator any more.
  abbrev pub EndsReleasedIn : List Env → Result ReconcileResult × History → Type 0
  EndsReleasedIn envs run =
      (env : Env) × In env envs
      × EndsReleased k env o run
      × (env.contains_finalizer (r.metadata (without_finalizer k env o)).finalizers k.finalizer
          ≡ false)

  taken_off :
      (env : Env)
      → Holds env
      → env.contains_finalizer (r.metadata (without_finalizer k env o)).finalizers k.finalizer
        ≡ false
  taken_off env h =
      let fs = (r.metadata o).finalizers in
      rw (r.with_finalizers_lem o (env.remove_finalizer fs k.finalizer)) (h.removes fs)

  module _ (has_conditions : is_empty (r.conditions o) ≡ false)
      (deleting : (r.metadata o).deleting ≡ true) where
    accepted :
        (env : Env) (t : History)
        → Holds env
        → Accepts env
        → EndsReleased k env o (reconcile k req env t)
    accepted env t h accepts =
        reconcile-ends k env o h.present (EndsReleased k env o)
          (λ t'. let (y, e) = accepts t' in let_go-released k env o h.present t' y e) req t
          has_conditions deleting (h.is_found t)

    answered :
        (env : Env) (t : History)
        → Holds env
        → EndsReleased k env o (reconcile k req env t) ⊎ EndsRefused k env o (reconcile k req env t)
    answered env t h =
        reconcile-ends k env o h.present (λ run. EndsReleased k env o run ⊎ EndsRefused k env o run)
          (λ t'. elim (Kube-cases ((r.store env).update t' (without_finalizer k env o))) [
            | inl (y, e) ↦ inl (let_go-released k env o h.present t' y e)
            | inr (x, e) ↦ inr (let_go-refused k env o h.present t' x e)
          ])
          req t has_conditions deleting (h.is_found t)

    -- A certificate that is being deleted is let go, whatever the instance answers. The conditions are
    -- that all the environments have the resource with its finalizer and conditions, that
    -- controller-runtime's RemoveFinalizer removes it, and that the API server accepts the update of
    -- the resource in the last of them. Then the reconciliations, each repeated while its result asks
    -- for it, end in one of the environments with the update of the resource to one that does not
    -- have the finalizer, and ask for no other.
    pub repeated-released :
        (env : Env) (envs : List Env) (t : History)
        → All Holds (env ∷ envs)
        → Accepts (last_env env envs)
        → EndsReleasedIn (env ∷ envs) (repeated (reconcile k req) env envs t)
    unfolding repeated
    repeated-released env [] t hs accepts =
        (env, inl refl, accepted env t hs.0 accepts, taken_off env hs.0)
    repeated-released env (next ∷ envs) t hs accepts = elim (answered env t hs.0) [
      | inl (h, e) ↦ rw e (env, inl refl, (h, refl), taken_off env hs.0)
      | inr (h, x, e) ↦
          let (env', is_in, released, gone) = repeated-released next envs h hs.1 accepts in
          rw e (env', inr is_in, released, gone)
    ]
