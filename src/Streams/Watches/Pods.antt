-- ===== src/Streams/Watches/Pods.antt =====
-- Which streams a change of a pod reconciles.
use nginxpm_operator.Base.{
  Bool, not, ◌&&◌, ◌≡◌, refl, inl, inr, List, [], map, filter, Bool-cases, ◌==◌, text-Eq,
}
use nginxpm_operator.Api.{NamespacedName, Stream, Pod, Service}
use nginxpm_operator.Effect.{Env, History, Kube, found, ok, monad}
use nginxpm_operator.Controller.Resources.{stream-Resource}
use nginxpm_operator.Controller.Watches.{service_name, request_of}
use nginxpm_operator.Controller.Watches.Pods.{
  selects, AnswersWith, pod_in_service-AnswersWith, find_objects_for_pod-filter,
}
use nginxpm_operator.Streams.Watches.{pod_concerns, find_streams_for_pod}

-- The stream names a service, and the service of that name in the stream's own namespace selects the
-- pod.
abbrev pub stream_concerned : Env → (NamespacedName → Kube Service) → Pod → Stream → Bool
stream_concerned env services pod st =
    let name = service_name st.spec.forward.service in
    not (name == [])
    && selects env pod (services (record { namespace = st.metadata.namespace; name = name }))

pod_concerns-AnswersWith :
    (pod : Pod) (st : Stream) (env : Env) (services : NamespacedName → Kube Service)
    → ((h : History) (key : NamespacedName) → env.services h key ≡ services key)
    → AnswersWith (pod_concerns pod st) env (stream_concerned env services pod st)
unfolding pod_concerns monad
pod_concerns-AnswersWith pod st env services steady t =
    let name = service_name st.spec.forward.service in
    elim (Bool-cases (name == [])) [
      | inl e ↦ rw e (t, refl)
      | inr e ↦
          rw e (pod_in_service-AnswersWith pod st.metadata.namespace name env services steady t)
    ]

-- While the API server lists the same streams and answers on services always the same, a change of a
-- pod reconciles, in the order of the list, those streams that name a service such that the service
-- of that name in the stream's own namespace selects the pod; a namespace that a reference gives has
-- no part in it.
pub find_streams_for_pod-filter :
    (pod : Pod) (items : List Stream) (env : Env) (services : NamespacedName → Kube Service)
    (t : History)
    → ((h : History) → env.streams.list h ≡ found items)
    → ((h : History) (key : NamespacedName) → env.services h key ≡ services key)
    → (find_streams_for_pod pod env t).0
      ≡ ok (map request_of (filter (stream_concerned env services pod) items))
unfolding find_streams_for_pod
find_streams_for_pod-filter pod items env services t lists steady =
    let (h, e) =
      find_objects_for_pod-filter (pod_concerns pod) (stream_concerned env services pod) env items
        lists (λ st. pod_concerns-AnswersWith pod st env services steady) t in
    rw e refl
