-- ===== src/Streams/Forward/Outcome.antt =====
-- What the forward of a stream is when there is one.
use nginxpm_operator.Base.{
  Bool, true, false, ◌≡◌, refl, ◌⊎◌, ℤ, Text, Option, none, some, List, [], ◌∷◌, pos, ◌==◌, int-Eq,
  text-Eq, if◌then◌else◌, inl, inr, Bool-cases,
}
use nginxpm_operator.Errors.{Error}
use nginxpm_operator.Api.{NamespacedName, Service, ForwardService, ForwardHost, Stream}
use nginxpm_operator.Effect.{Env, History, ok, pure, fail}
use nginxpm_operator.Effect.Returns.{
  Settles, Returns, Returns-if, Returns-bind, Returns-pure, Returns-fail, Returns-any,
  settles_rules, Answers→Settles,
}
use nginxpm_operator.Controller.Settling.{get_pods_host_ips-Answers}
use nginxpm_operator.Controller.{UpstreamConfig}
use nginxpm_operator.ProxyHosts.Ports.{is_node_port}
use nginxpm_operator.Streams.Forward.{
  StreamForward, forward_when_node_port_type, service_forward, use_upstream, forward_to_service,
  forward_to, make_forward,
}

node_port-Settles :
    (st : Stream) (s : Service) (r : ForwardService) → Settles (forward_when_node_port_type st s r)
unfolding forward_when_node_port_type
node_port-Settles st s r =
    search (settles_rules, get_pods_host_ips-Answers, Answers→Settles) depth 10

service_forward-Settles :
    (b : Bool) (st : Stream) (s : Service) (r : ForwardService) → Settles (service_forward b st s r)
unfolding service_forward
service_forward-Settles b st s r = search (settles_rules, node_port-Settles)

forward_to_service-Settles :
    (b : Bool) (st : Stream) (req : NamespacedName) (r : ForwardService)
    → Settles (forward_to_service b st req r)
unfolding forward_to_service
forward_to_service-Settles b st req r = search (settles_rules, service_forward-Settles) depth 8

forward_to-Settles :
    (b : Bool) (st : Stream) (req : NamespacedName) (hs : List ForwardHost)
    (o : Option ForwardService)
    → Settles (forward_to b st req hs o)
unfolding forward_to
forward_to-Settles b st req [] none = search settles_rules
forward_to-Settles b st req [] (some r) = forward_to_service-Settles b st req r
forward_to-Settles b st req (h ∷ hs) o = search settles_rules

pub make_forward-Settles :
    (b : Bool) (st : Stream) (req : NamespacedName) → Settles (make_forward b st req)
unfolding make_forward
make_forward-Settles b st req =
    forward_to-Settles b st req st.spec.forward.hosts st.spec.forward.service

-- Without support of unscoped configurations there is no upstream block to stand in for the host.
abbrev IsPlain : Bool → StreamForward → Type 0
IsPlain b f = (b ≡ true) ⊎ (f.nginx_upstream_configs ≡ [])

-- Neither the port nor the host field is missing.
abbrev pub IsTarget : Bool → StreamForward → Type 0
IsTarget b f = ((f.port == pos 0) ≡ false) × ((f.host == []) ≡ false) × IsPlain b f

checked :
    (b : Bool) (f : StreamForward)
    → IsPlain b f
    → Returns (IsTarget b) (
        if f.port == pos 0
        then fail Error.invalid_service_port
        else if f.host == []
        then fail Error.invalid_service_ip
        else pure f)
checked b f plain = elim (Bool-cases (f.port == pos 0)) [
  | inl e ↦ rw e (Returns-fail _)
  | inr e ↦ elim (Bool-cases (f.host == [])) [
    | inl e' ↦ rw e (rw e' (Returns-fail _))
    | inr e' ↦ rw e (rw e' (Returns-pure f (e, e', plain)))
  ]
]

use_upstream-IsPlain :
    (b : Bool) (host : Text) (port : ℤ) (conf : UpstreamConfig)
    → IsPlain b (use_upstream b host port conf)
unfolding use_upstream
use_upstream-IsPlain true host port conf = inl refl
use_upstream-IsPlain false host port conf = inr refl

service_forward-IsPlain :
    (b : Bool) (st : Stream) (s : Service) (r : ForwardService)
    → Returns (IsPlain b) (service_forward b st s r)
unfolding service_forward
service_forward-IsPlain b st s r =
    Returns-if (is_node_port s.type) _ _
      (λ e.
        Returns-bind _ _ (Returns-any _) (λ c any. Returns-pure _ (use_upstream-IsPlain b _ _ _)))
      (λ e. Returns-pure _ (inr refl))

service-IsTarget :
    (b : Bool) (st : Stream) (req : NamespacedName) (r : ForwardService)
    → Returns (IsTarget b) (forward_to_service b st req r)
unfolding forward_to_service
service-IsTarget b st req r = Returns-bind _ _ (Returns-any _) (λ service any.
    Returns-bind _ _ (service_forward-IsPlain b st service r) (λ f plain. checked b f plain))

to_service :
    (b : Bool) (st : Stream) (req : NamespacedName) (r : ForwardService) (hs : List ForwardHost)
    (o : Option ForwardService)
    → hs ≡ []
    → o ≡ some r
    → Returns (IsTarget b) (forward_to b st req hs o)
unfolding forward_to
to_service b st req r hs o no_hosts given = rw no_hosts (rw given (service-IsTarget b st req r))

-- When the forward of a stream that names a service and no hosts is made, its port is not 0 and its
-- host field is not empty, whatever the service, its pods and their nodes are; and if the instance
-- supports no unscoped configuration, there is no upstream block whose name the field could be. It
-- does not say that the servers inside an upstream block have addresses.
pub make_forward-IsTarget_stream :
    (b : Bool) (st : Stream) (req : NamespacedName) (r : ForwardService) (env : Env) (t : History)
    (forward : StreamForward)
    → st.spec.forward.hosts ≡ []
    → st.spec.forward.service ≡ some r
    → (make_forward b st req env t).0 ≡ ok forward
    → IsTarget b forward
unfolding make_forward
make_forward-IsTarget_stream b st req r env t forward no_hosts given =
    (to_service b st req r st.spec.forward.hosts st.spec.forward.service no_hosts given).at env t
      forward
