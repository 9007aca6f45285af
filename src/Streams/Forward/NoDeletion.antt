-- ===== src/Streams/Forward/NoDeletion.antt =====
-- DELETE requests in the search for the forward of a stream.
use nginxpm_operator.Base.{Bool, Option, none, some, List, [], ◌∷◌}
use nginxpm_operator.Api.{NamespacedName, Stream, Service, ForwardService, ForwardHost}
use nginxpm_operator.Effect.Emits.{Emits, emits_rules}
use nginxpm_operator.Effect.Traffic.{IsNotDelete}
use nginxpm_operator.Controller.NoDeletion.{get_pods_host_ips-IsNotDelete}
use nginxpm_operator.Streams.Forward.{
  forward_when_node_port_type, service_forward, forward_to_service, forward_to, make_forward,
}

node_port-IsNotDelete :
    (st : Stream) (s : Service) (r : ForwardService)
    → Emits IsNotDelete (forward_when_node_port_type st s r)
unfolding forward_when_node_port_type
node_port-IsNotDelete st s r = search (emits_rules, get_pods_host_ips-IsNotDelete) depth 8

service_forward-IsNotDelete :
    (b : Bool) (st : Stream) (s : Service) (r : ForwardService)
    → Emits IsNotDelete (service_forward b st s r)
unfolding service_forward
service_forward-IsNotDelete b st s r = search (emits_rules, node_port-IsNotDelete)

forward_to_service-IsNotDelete :
    (b : Bool) (st : Stream) (req : NamespacedName) (r : ForwardService)
    → Emits IsNotDelete (forward_to_service b st req r)
unfolding forward_to_service
forward_to_service-IsNotDelete b st req r =
    search (emits_rules, service_forward-IsNotDelete) depth 8

forward_to-IsNotDelete :
    (b : Bool) (st : Stream) (req : NamespacedName) (hs : List ForwardHost)
    (o : Option ForwardService)
    → Emits IsNotDelete (forward_to b st req hs o)
unfolding forward_to
forward_to-IsNotDelete b st req [] none = search emits_rules
forward_to-IsNotDelete b st req [] (some r) = forward_to_service-IsNotDelete b st req r
forward_to-IsNotDelete b st req (h ∷ hs) o = search emits_rules

pub make_forward-IsNotDelete :
    (b : Bool) (st : Stream) (req : NamespacedName) → Emits IsNotDelete (make_forward b st req)
unfolding make_forward
make_forward-IsNotDelete b st req =
    forward_to-IsNotDelete b st req st.spec.forward.hosts st.spec.forward.service
