-- ===== src/ProxyHosts/Forward/Outcome.antt =====
-- What the forward of a host is when there is one.
use nginxpm_operator.Base.{
  Bool, true, false, ◌≡◌, refl, Option, none, some, List, [], ◌∷◌, ℤ, pos, Text, ◌==◌, int-Eq,
  text-Eq, if◌then◌else◌, ◌⊎◌, inl, inr, Bool-cases,
}
use nginxpm_operator.Errors.{Error}
use nginxpm_operator.Api
use nginxpm_operator.Api.{NamespacedName, Service, ForwardService, ForwardHost, ProxyHost}
use nginxpm_operator.Effect.{Env, History, ok, pure, fail, monad}
use nginxpm_operator.Effect.Returns.{Returns, Returns-bind, Returns-pure, Returns-fail, Returns-any}
use nginxpm_operator.Controller.{UpstreamConfig}
use nginxpm_operator.ProxyHosts.Forward.{
  ProxyHostForward, Made, Target, make, use_upstream, resolve, hosts_target, forward_to_service,
  forward_to, make_forward, Configs,
}

-- Without support of unscoped configurations there is no upstream block to stand in for the host.
abbrev IsPlain : Bool → Made → Type 0
IsPlain b made = (b ≡ true) ⊎ (made.0.nginx_upstream_configs ≡ [])

-- Neither the port nor the host field is missing.
abbrev pub IsTarget : Bool → Made → Type 0
IsTarget b made = ((made.0.port == pos 0) ≡ false) × ((made.0.host == []) ≡ false) × IsPlain b made

checked :
    (b : Bool) (made : Made)
    → IsPlain b made
    → Returns (IsTarget b) (
        if made.0.port == pos 0
        then fail Error.invalid_service_port
        else if made.0.host == []
        then fail Error.invalid_service_ip
        else pure made)
checked b made plain = elim (Bool-cases (made.0.port == pos 0)) [
  | inl e ↦ rw e (Returns-fail _)
  | inr e ↦ elim (Bool-cases (made.0.host == [])) [
    | inl e' ↦ rw e (rw e' (Returns-fail _))
    | inr e' ↦ rw e (rw e' (Returns-pure made (e, e', plain)))
  ]
]

resolve-IsPlain :
    (b : Bool) (f : Api.ProxyHostForward) (target : Target) (u : Option ProxyHostForward)
    → IsPlain b (resolve b f target u)
unfolding resolve use_upstream make
resolve-IsPlain true f target u = inl refl
resolve-IsPlain false f target none = inr refl
resolve-IsPlain false f target (some u) = inr refl

module _ (b : Bool) (ph : ProxyHost) (req : NamespacedName) (f : Api.ProxyHostForward)
    (u : Option ProxyHostForward) where
  service-IsTarget : (r : ForwardService) → Returns (IsTarget b) (forward_to_service b ph req f r u)
  unfolding forward_to_service
  service-IsTarget r = Returns-bind _ _ (Returns-any _) (λ service any.
      Returns-bind _ _ (Returns-any _)
        (λ target any'. checked b (resolve b f target u) (resolve-IsPlain b f target u)))

  to_service :
      (r : ForwardService) (hs : List ForwardHost) (o : Option ForwardService)
      → hs ≡ []
      → o ≡ some r
      → Returns (IsTarget b) (forward_to b ph req f u hs o)
  unfolding forward_to
  to_service r hs o no_hosts given = rw no_hosts (rw given (service-IsTarget r))

-- When a forward that names a service and no hosts is made, its port is not 0 and its host field is
-- not empty, whatever the service, its pods and their nodes are; and if the instance supports no
-- unscoped configuration, there is no upstream block whose name the field could be. It does not say
-- that the servers inside an upstream block have addresses.
pub make_forward-IsTarget :
    (b : Bool) (ph : ProxyHost) (req : NamespacedName) (f : Api.ProxyHostForward)
    (u : Option ProxyHostForward) (r : ForwardService) (env : Env) (t : History) (made : Made)
    → f.hosts ≡ []
    → f.service ≡ some r
    → (make_forward b ph req f u env t).0 ≡ ok made
    → IsTarget b made
unfolding make_forward
make_forward-IsTarget b ph req f u r env t made no_hosts given =
    (to_service b ph req f u r f.hosts f.service no_hosts given).at env t made

make_port :
    (f : Api.ProxyHostForward) (host : Text) (port : ℤ) (cs : Configs) (u : Option ProxyHostForward)
    → (make f host port cs u).0.port ≡ port
unfolding make
make_port f host port cs none = refl
make_port f host port cs (some u) = refl

make_host :
    (f : Api.ProxyHostForward) (host : Text) (port : ℤ) (cs : Configs) (u : Option ProxyHostForward)
    → (make f host port cs u).0.host ≡ host
unfolding make
make_host f host port cs none = refl
make_host f host port cs (some u) = refl

resolve_port :
    (f : Api.ProxyHostForward) (t : Target) (u : Option ProxyHostForward)
    (o : Option UpstreamConfig)
    → (use_upstream f t u o).0.port ≡ t.port
unfolding use_upstream
resolve_port f t u none = make_port f t.host t.port [] u
resolve_port f t u (some conf) = make_port f conf.name t.port _ _

resolve-host :
    (f : Api.ProxyHostForward) (t : Target) (u : Option ProxyHostForward)
    → (resolve false f t u).0.host ≡ t.host
unfolding resolve use_upstream
resolve-host f t u = make_host f t.host t.port [] u

-- Where a forward lists hosts, the port is that of the first host, and so is the host itself if the
-- instance supports no unscoped configuration; the service is not looked at, and no call is made.
pub make_forward-hosts :
    (b : Bool) (ph : ProxyHost) (req : NamespacedName) (f : Api.ProxyHostForward)
    (u : Option ProxyHostForward) (h : ForwardHost) (hs : List ForwardHost) (env : Env)
    (t : History)
    → f.hosts ≡ h ∷ hs
    → (made : Made) × (make_forward b ph req f u env t ≡ (ok made, t))
      × (made.0.port ≡ h.host_port)
      × ((b ≡ true) ⊎ (made.0.host ≡ h.host_name))
unfolding make_forward forward_to monad
make_forward-hosts b ph req f u h hs env t listed =
    let target = hosts_target env.xxhash_hex ph f h hs in
    (
      resolve b f target u,
      rw listed refl,
      unfold resolve hosts_target in resolve_port f target u _,
      elim (Bool-cases b) [
        | inl e ↦ inl e
        | inr e ↦ inr (rw e (unfold hosts_target in resolve-host f target u))
      ],
    )
