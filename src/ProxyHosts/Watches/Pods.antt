-- ===== src/ProxyHosts/Watches/Pods.antt =====
-- Which hosts a change of a pod reconciles.
use nginxpm_operator.Base.{
  Bool, false, not, ◌&&◌, ◌||◌, ◌≡◌, refl, inl, inr, List, [], ◌∷◌, map, filter, any, Bool-cases,
  Text, ◌==◌, text-Eq,
}
use nginxpm_operator.Api.{NamespacedName, ProxyHost, CustomLocation, Pod, Service}
use nginxpm_operator.Effect.{Env, History, Kube, Kube-cases, found, failed, ok, monad}
use nginxpm_operator.Controller.{pod_matches_service_selector}
use nginxpm_operator.Controller.Resources.{proxy_host-Resource}
use nginxpm_operator.Controller.Watches.{service_name, request_of}
use nginxpm_operator.Controller.Watches.Pods.{
  selects, AnswersWith, pod_in_service-AnswersWith, find_objects_for_pod-filter,
}
use nginxpm_operator.ProxyHosts.Watches.{pod_in_locations, pod_concerns, find_proxy_hosts_for_pod}

-- A service of that name in the namespace selects the pod.
abbrev pub selected : Env → (NamespacedName → Kube Service) → Pod → Text → Text → Bool
selected env services pod namespace name =
    not (name == []) && selects env pod (services (record { namespace = namespace; name = name }))

abbrev pub with_locations : Kube Service → Bool → Bool
with_locations (found service) b = b
with_locations (failed e) b = false

-- The host names a service that is in its own namespace, and that service or the one of a location
-- selects the pod.
abbrev pub host_concerned : Env → (NamespacedName → Kube Service) → Pod → ProxyHost → Bool
host_concerned env services pod ph =
    let namespace = ph.metadata.namespace in
    let name = service_name ph.spec.forward.service in
    not (name == [])
    && with_locations (services (record { namespace = namespace; name = name })) (
        selected env services pod namespace name
        || any
            (λ location.
              selected env services pod namespace (service_name location.forward.service))
            ph.spec.custom_locations)

module _ (env : Env) (services : NamespacedName → Kube Service)
    (steady : (h : History) (key : NamespacedName) → env.services h key ≡ services key)
    (pod : Pod) where
  in_locations-AnswersWith :
      (namespace : Text) (locations : List CustomLocation)
      → AnswersWith (pod_in_locations pod namespace locations) env (
          any
            (λ location.
              selected env services pod namespace (service_name location.forward.service))
            locations)
  unfolding pod_in_locations monad any
  in_locations-AnswersWith namespace [] t = (t, refl)
  in_locations-AnswersWith namespace (location ∷ locations) t =
      let name = service_name location.forward.service in
      elim (Bool-cases (name == [])) [
        | inl e ↦ rw e (in_locations-AnswersWith namespace locations t)
        | inr e ↦
            let (h, q) = pod_in_service-AnswersWith pod namespace name env services steady t in
            rw e (
              rw q
                (elim (Bool-cases
                  (selects env pod (services (record { namespace = namespace; name = name })))) [
                    | inl s ↦ rw s (h, refl)
                    | inr s ↦ rw s (in_locations-AnswersWith namespace locations h)
                  ]))
      ]

  concerns-AnswersWith :
      (ph : ProxyHost) → AnswersWith (pod_concerns pod ph) env (host_concerned env services pod ph)
  unfolding pod_concerns monad
  concerns-AnswersWith ph t =
      let namespace = ph.metadata.namespace in
      let name = service_name ph.spec.forward.service in
      let key : NamespacedName = record { namespace = namespace; name = name } in
      elim (Bool-cases (name == [])) [
        | inl e ↦ rw e (t, refl)
        | inr e ↦ rw e (
            rw (steady t key) (elim (Kube-cases (services key)) [
              | inr (x, q) ↦ rw q (_, refl)
              | inl (service, q) ↦
                  rw q (elim (Bool-cases (pod_matches_service_selector env pod service)) [
                    | inl m ↦ rw m (_, refl)
                    | inr m ↦ rw m (in_locations-AnswersWith namespace ph.spec.custom_locations _)
                  ])
            ]))
      ]

-- While the API server lists the same hosts and answers on services always the same, a change of a
-- pod reconciles, in the order of the list, those hosts that name a service which is there, where
-- that service or the one of a location selects the pod, all services being those of the host's own
-- namespace; a host without a service of its own, or with one that is not there, is passed over
-- whatever its locations name.
pub find_proxy_hosts_for_pod-filter :
    (pod : Pod) (items : List ProxyHost) (env : Env) (services : NamespacedName → Kube Service)
    (t : History)
    → ((h : History) → env.proxy_hosts.list h ≡ found items)
    → ((h : History) (key : NamespacedName) → env.services h key ≡ services key)
    → (find_proxy_hosts_for_pod pod env t).0
      ≡ ok (map request_of (filter (host_concerned env services pod) items))
unfolding find_proxy_hosts_for_pod
find_proxy_hosts_for_pod-filter pod items env services t lists steady =
    let (h, e) =
      find_objects_for_pod-filter (pod_concerns pod) (host_concerned env services pod) env items
        lists (λ ph. concerns-AnswersWith env services steady pod ph) t in
    rw e refl
