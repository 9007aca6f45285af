-- ===== src/ProxyHosts/Reconcile/Restoration.antt =====
-- The requests of the deletion of a resource that is bound to a host with a captured configuration.
use nginxpm_operator.Base.{
  Bool, true, false, ◌≡◌, refl, ◌∙◌, ap, Option, some, List, ◌∷◌, ◌++◌, if◌then◌else◌, ℤ, Text,
}
use nginxpm_operator.Api.{NamespacedName, ProxyHost, InitialConfiguration}
use nginxpm_operator.Npm
use nginxpm_operator.Npm.{
  Client, ProxyHostRequestInput, find_proxy_host_by_id, update_proxy_host, enable_proxy_host,
}
use nginxpm_operator.Npm.Settling.{update_proxy_host-Settles}
use nginxpm_operator.Npm.Sending.Hosts.{
  update_request, hosts_request, enable_request, requests-update_proxy_host,
  requests-enable_proxy_host,
}
use nginxpm_operator.Effect.{Env, History, ok, Request, ignore_error, when, monad}
use nginxpm_operator.Effect.Returns.{ignore_error-runs}
use nginxpm_operator.Effect.Sending.{
  requests, IsSilent, requests-bind, requests-ignore_error, silent_rules,
}
use nginxpm_operator.Controller.Sending.{get_object-IsSilent, remove_finalizer-IsSilent}
use nginxpm_operator.Controller.Resources.{proxy_host-Resource}
use nginxpm_operator.ProxyHosts.InitialConfig.{
  should_restore_initial_config, build_restoration_input, capture_initial_configuration,
}
use nginxpm_operator.ProxyHosts.InitialConfig.RoundTrip.{Restores, restoration-capture}
use nginxpm_operator.ProxyHosts.Reconcile.{
  restore_with, release, release_if_created, let_go, delete_resource, proxy_host_finalizer,
}

-- A host that was enabled at first is enabled again, if the list shows that it is not.
abbrev pub enabling : Client → ℤ → Bool → Npm.ProxyHost → List Request → List Request
enabling c id false existing rs = rs
enabling c id true existing rs =
    if existing.enabled then hosts_request c ∷ rs else enable_request c id ∷ hosts_request c ∷ rs

let_go-IsSilent : (req : NamespacedName) → IsSilent (let_go req)
unfolding let_go
let_go-IsSilent req = search (silent_rules, get_object-IsSilent, remove_finalizer-IsSilent)

module _ (c : Client) (id : ℤ) (existing : Npm.ProxyHost) (env : Env)
    (valid : (path : Text) → env.valid_url (c.endpoint ++ path) ≡ true)
    (is_listed : (t : History) → (find_proxy_host_by_id c id env t).0 ≡ ok (some existing)) where
  requests-enable :
      (enabled : Bool) (input : ProxyHostRequestInput) (t : History)
      → requests
          (when enabled
            (ignore_error (enable_proxy_host c id))
            env
            (update_proxy_host c id input env t).1).1
        ≡ enabling c id enabled existing (update_request c id input ∷ requests t)
  unfolding monad
  requests-enable false input t = requests-update_proxy_host c id env valid input t
  requests-enable true input t =
      let t' = (update_proxy_host c id input env t).1 in
      requests-ignore_error (enable_proxy_host c id) env t'
      ∙ (requests-enable_proxy_host c id env valid existing t' (is_listed t')
          ∙ ap (λ (rs : List Request). enabling c id true existing rs)
              (requests-update_proxy_host c id env valid input t))

  requests-restore_with :
      (enabled : Bool) (input : ProxyHostRequestInput) (t : History)
      → requests (restore_with c id enabled (some input) env t).1
        ≡ enabling c id enabled existing (update_request c id input ∷ requests t)
  unfolding restore_with monad
  requests-restore_with enabled input t =
      rw
        (ignore_error-runs (update_proxy_host c id input) env t
          (update_proxy_host-Settles c id input))
        (requests-enable enabled input t)

  requests-release :
      (ph : ProxyHost) (config : InitialConfiguration) (input : ProxyHostRequestInput) (t : History)
      → ph.status.bound ≡ true
      → ph.status.initial_configuration ≡ some config
      → build_restoration_input (some config) ≡ some input
      → requests (release c ph id env t).1
        ≡ enabling c id config.enabled existing (update_request c id input ∷ requests t)
  unfolding release should_restore_initial_config
  requests-release ph config input t bound captured restored =
      rw bound (rw captured (rw restored (requests-restore_with config.enabled input t)))

  requests-release_if_created :
      (ph : ProxyHost) (o : Option ℤ) (t : History)
      → o ≡ some id
      → requests (release_if_created c ph o env t).1 ≡ requests (release c ph id env t).1
  unfolding release_if_created
  requests-release_if_created ph o t has_id = rw has_id refl

  requests-delete_resource :
      (req : NamespacedName) (ph : ProxyHost) (t : History)
      → env.contains_finalizer ph.metadata.finalizers proxy_host_finalizer ≡ true
      → ph.status.id ≡ some id
      → requests (delete_resource req ph c env t).1 ≡ requests (release c ph id env t).1
  unfolding delete_resource monad
  requests-delete_resource req ph t present has_id = rw present (
      requests-bind (release_if_created c ph ph.status.id) _ env t (λ _. let_go-IsSilent req)
      ∙ requests-release_if_created ph ph.status.id t has_id)

-- The deletion of a resource that is bound to a host, and that keeps the configuration which was
-- captured of the host before the operator changed it, sends the PUT of a request with the settings
-- that the configuration keeps (domains, forward, certificate, access list, switches, advanced
-- configuration and locations), each as the host had it, and with neither an unscoped configuration
-- nor a value for enabled; and, if the host was enabled then, what it takes to enable it: the GET of
-- the list and, if the host is disabled in it, a POST. It sends nothing else; so what the operator
-- wrote into the unscoped configuration is not taken back, and a host that was disabled at first is
-- not disabled again. The conditions are that the finalizer is there, that URLs parse, and that the
-- instance lists the host whenever it is asked.
pub delete_resource-requests_bound :
    (req : NamespacedName) (ph : ProxyHost) (c : Client) (id : ℤ) (h existing : Npm.ProxyHost)
    (env : Env) (t : History)
    → ((path : Text) → env.valid_url (c.endpoint ++ path) ≡ true)
    → ((t' : History) → (find_proxy_host_by_id c id env t').0 ≡ ok (some existing))
    → env.contains_finalizer ph.metadata.finalizers proxy_host_finalizer ≡ true
    → ph.status.id ≡ some id
    → ph.status.bound ≡ true
    → ph.status.initial_configuration ≡ capture_initial_configuration (some h)
    → (input : ProxyHostRequestInput) × Restores h input
      × (requests (delete_resource req ph c env t).1
          ≡ enabling c id h.enabled existing (update_request c id input ∷ requests t))
unfolding capture_initial_configuration
delete_resource-requests_bound req ph c id h existing env t valid is_listed present has_id bound
      captured =
    let (input, built, restores) = restoration-capture h in
    (
      input,
      restores,
      requests-delete_resource c id existing env valid is_listed req ph t present has_id
          ∙ requests-release c id existing env valid is_listed ph _ input t bound captured built,
    )
