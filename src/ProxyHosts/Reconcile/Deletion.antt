-- ===== src/ProxyHosts/Reconcile/Deletion.antt =====
-- How the deletion of a host goes: for a host that the operator created, and for one that it is
-- bound to and that the instance no longer lists.
use nginxpm_operator.Base.{
  true, false, ◌≡◌, refl, ap, ◌∙◌, Option, none, some, is_some, if◌then◌else◌, ◌∷◌, ◌++◌, ℤ,
}
use nginxpm_operator.Api.{NamespacedName, ProxyHost, InitialConfiguration}
use nginxpm_operator.Npm
use nginxpm_operator.Npm.Deletion.{deletion, delete_proxy_host-History}
use nginxpm_operator.Npm.{
  proxy_host_path, Client, ProxyHostRequestInput, find_proxy_host_by_id, disable_proxy_host,
  enable_proxy_host, delete_proxy_host, update_proxy_host,
}
use nginxpm_operator.Npm.Settling.{delete_proxy_host-Settles}
use nginxpm_operator.Effect.{
  Env, History, sent, Action, Result, ok, err, panic, ignore_error, ◌>>=◌, ◌>>◌, monad,
}
use nginxpm_operator.Effect.Returns.{ignore_error-runs}
use nginxpm_operator.ProxyHosts.InitialConfig.{
  should_restore_initial_config, build_restoration_input,
}
use nginxpm_operator.ProxyHosts.Reconcile.{
  restore_with, release, release_if_created, let_go, delete_resource, proxy_host_finalizer,
}

released :
    (req : NamespacedName) (ph : ProxyHost) (c : Client) (id : ℤ) (env : Env) (t : History)
    → env.contains_finalizer ph.metadata.finalizers proxy_host_finalizer ≡ true
    → ph.status.id ≡ some id
    → ph.status.bound ≡ false
    → delete_resource req ph c env t ≡ let_go req env (delete_proxy_host c id env t).1
unfolding delete_resource release_if_created release should_restore_initial_config monad
released req ph c id env t present has_id created = rw present (
    rw has_id (
      rw created (
        rw (ignore_error-runs (delete_proxy_host c id) env t (delete_proxy_host-Settles c id))
          refl)))

-- The deletion of a resource that has the finalizer, an id, and is not bound asks for the list of
-- the hosts and, if the id is in it, sends the DELETE of that id; then, whatever the instance
-- answers to it, it goes on to take off the finalizer. The conditions are that the list is received
-- and that the URL of the host parses.
pub delete_resource-created :
    (req : NamespacedName) (ph : ProxyHost) (c : Client) (id : ℤ) (host : Option Npm.ProxyHost)
    (env : Env) (t : History)
    → env.contains_finalizer ph.metadata.finalizers proxy_host_finalizer ≡ true
    → ph.status.id ≡ some id
    → ph.status.bound ≡ false
    → (find_proxy_host_by_id c id env t).0 ≡ ok host
    → env.valid_url (c.endpoint ++ proxy_host_path id) ≡ true
    → delete_resource req ph c env t
      ≡ let_go req env (
          if is_some host
          then sent (deletion c (proxy_host_path id)) ∷ (find_proxy_host_by_id c id env t).1
          else (find_proxy_host_by_id c id env t).1)
delete_resource-created req ph c id host env t present has_id created listed valid =
    released req ph c id env t present has_id created
    ∙ ap (λ (h : History). let_go req env h)
        (delete_proxy_host-History c id host env t listed valid)

-- An action that panics in this environment, whatever has happened so far.
abbrev Panics : {A : Type 0} → Env → Action A → Type 0
Panics env m = (t : History) → (m env t).0 ≡ panic

module _ {A : Type 0} (env : Env) where
  Panics-ignore_error : (m : Action A) → Panics env m → Panics env (ignore_error m)
  unfolding monad
  Panics-ignore_error m h t = rw (h t) refl

module _ {A B : Type 0} (env : Env) where
  Panics-bind : (m : Action A) (f : A → Action B) → Panics env m → Panics env (m >>= f)
  unfolding monad
  Panics-bind m f h t = rw (h t) refl

  -- A call whose error is dropped does not keep what follows from panicking.
  Panics-after : (m : Action A) (k : Action B) → Panics env k → Panics env (ignore_error m >> k)
  unfolding monad
  Panics-after m k h t = go (m env t).0 (m env t).1
    where
      go : (r : Result A) (t' : History) → ((ignore_error (λ env t. (r, t')) >> k) env t).0 ≡ panic
      go (ok a) t' = h t'
      go (err e) t' = h t'
      go panic t' = refl

module _ (env : Env) (c : Client) (id : ℤ)
    (gone : (t : History) → (find_proxy_host_by_id c id env t).0 ≡ ok none) where
  disable-Panics : Panics env (disable_proxy_host c id)
  unfolding disable_proxy_host monad
  disable-Panics t = rw (gone t) refl

  enable-Panics : Panics env (enable_proxy_host c id)
  unfolding enable_proxy_host monad
  enable-Panics t = rw (gone t) refl

  restore_with-Panics :
      (input : ProxyHostRequestInput) → Panics env (restore_with c id true (some input))
  unfolding restore_with
  restore_with-Panics input =
      Panics-after env (update_proxy_host c id input) (ignore_error (enable_proxy_host c id))
        (Panics-ignore_error env _ enable-Panics)

  release-Panics :
      (ph : ProxyHost) (o : Option InitialConfiguration)
      → ph.status.bound ≡ true
      → ph.status.initial_configuration ≡ o
      → ((config : InitialConfiguration) → o ≡ some config → config.enabled ≡ true)
      → Panics env (release c ph id)
  unfolding release should_restore_initial_config build_restoration_input
  release-Panics ph none bound captured enabled =
      rw bound (rw captured (Panics-ignore_error env _ disable-Panics))
  release-Panics ph (some config) bound captured enabled =
      rw bound (rw captured (rw (enabled config refl) (restore_with-Panics _)))

  Panics-release_if_created :
      (ph : ProxyHost) (o : Option ℤ)
      → o ≡ some id
      → Panics env (release c ph id)
      → Panics env (release_if_created c ph o)
  unfolding release_if_created
  Panics-release_if_created ph o has_id h = rw has_id h

  -- The deletion of a resource that has the finalizer and an id, and is bound to a host which was
  -- enabled when it was found (or of which nothing was captured), ends in a nil dereference if
  -- the instance does not list the host any more.
  pub delete_resource-host_gone :
      (req : NamespacedName) (ph : ProxyHost)
      → env.contains_finalizer ph.metadata.finalizers proxy_host_finalizer ≡ true
      → ph.status.id ≡ some id
      → ph.status.bound ≡ true
      → ((config : InitialConfiguration)
          → ph.status.initial_configuration ≡ some config
          → config.enabled ≡ true)
      → (t : History) → (delete_resource req ph c env t).0 ≡ panic
  unfolding delete_resource release_if_created monad
  delete_resource-host_gone req ph present has_id bound enabled t =
      let release_panics = release-Panics ph ph.status.initial_configuration bound refl enabled in
      rw present (rw (Panics-release_if_created ph ph.status.id has_id release_panics t) refl)
