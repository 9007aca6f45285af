-- ===== src/Controller/Watches/Pods.antt =====
-- The loop over the resources that a pod may concern, while the API server answers on services always
-- the same.
use nginxpm_operator.Base.{
  Bool, false, ◌≡◌, refl, inl, inr, List, [], ◌∷◌, map, filter, Bool-cases, Text,
}
use nginxpm_operator.Api.{NamespacedName, Pod, Service}
use nginxpm_operator.Effect.{
  Env, History, Action, Kube, found, failed, Kube-cases, ok, listed, monad,
}
use nginxpm_operator.Controller.Resources.{Resource}
use nginxpm_operator.Controller.Upstream.{pod_matches_service_selector}
use nginxpm_operator.Controller.Watches.{
  request_of, pod_in_service, concerned, find_objects_for_pod,
}

-- The service is there, and its selector matches the pod.
abbrev pub selects : Env → Pod → Kube Service → Bool
selects env pod (found service) = pod_matches_service_selector env pod service
selects env pod (failed e) = false

-- The action answers with the value and may add to the history.
abbrev pub AnswersWith : {A : Type 0} → Action A → Env → A → Type 0
AnswersWith m env a = (t : History) → (h : History) × (m env t ≡ (ok a, h))

pub pod_in_service-AnswersWith :
    (pod : Pod) (namespace name : Text) (env : Env) (services : NamespacedName → Kube Service)
    → ((h : History) (key : NamespacedName) → env.services h key ≡ services key)
    → AnswersWith
        (pod_in_service pod namespace name)
        env
        (selects env pod (services (record { namespace = namespace; name = name })))
unfolding pod_in_service monad
pod_in_service-AnswersWith pod namespace name env services steady t =
    let key : NamespacedName = record { namespace = namespace; name = name } in
    rw (steady t key) (elim (Kube-cases (services key)) [
      | inl (service, e) ↦ rw e (_, refl)
      | inr (x, e) ↦ rw e (_, refl)
    ])

module _ {O : Type 0} ⦃r : Resource O⦄ (concerns : O → Action Bool) (p : O → Bool) (env : Env) where
  concerned-filter :
      (items : List O)
      → ((o : O) → AnswersWith (concerns o) env (p o))
      → AnswersWith (concerned concerns items) env (map request_of (filter p items))
  unfolding concerned monad filter
  concerned-filter [] each t = (t, refl)
  concerned-filter (o ∷ items) each t =
      let (h, e) = each o t in
      let (h', e') = concerned-filter items each h in
      rw e (rw e' (elim (Bool-cases (p o)) [ inl q ↦ (h', rw q refl) | inr q ↦ (h', rw q refl) ]))

  pub find_objects_for_pod-filter :
      (items : List O)
      → ((h : History) → (r.store env).list h ≡ found items)
      → ((o : O) → AnswersWith (concerns o) env (p o))
      → AnswersWith (find_objects_for_pod concerns) env (map request_of (filter p items))
  unfolding find_objects_for_pod monad
  find_objects_for_pod-filter items lists each t =
      rw (lists t) (concerned-filter items each (listed r.kind ∷ t))
