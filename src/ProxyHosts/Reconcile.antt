-- ===== src/ProxyHosts/Reconcile.antt =====
-- `Reconcile` of proxyhost_controller.go. The checks of the API server's answers stand where the
-- source has them; a step that only logs is left out.
pub mod Deletion
pub mod Ownership
pub mod Finalizer
pub mod Restoration
pub mod Staying
use nginxpm_operator.Base.{
  Bool, true, false, not, Option, none, some, List, [], ◌∷◌, ◌++◌, if◌then◌else◌, is_empty, ℤ, Text,
  txt,
}
use nginxpm_operator.Errors.{Error, KubeError, not_found, conflict, other, kube}
use nginxpm_operator.Api.{NamespacedName, ProxyHost, InitialConfiguration}
use nginxpm_operator.Npm.{
  Client, ProxyHostRequestInput, update_proxy_host, enable_proxy_host, disable_proxy_host,
  delete_proxy_host,
}
use nginxpm_operator.Effect.{
  handle, Action, ◌>>=◌, ◌>>◌, pure, fail, ignore_error, record_event, read, when,
}
use nginxpm_operator.Controller.{
  init_nginxpm_client, add_finalizer, remove_finalizer, set_condition, ReconcileResult, done,
  retry_after, starting, failed_with, succeeded, Attempt,
}
use nginxpm_operator.Controller.Resources.{get_object, proxy_host-Resource}
use nginxpm_operator.ProxyHosts.InitialConfig.{
  should_restore_initial_config, build_restoration_input,
}
use nginxpm_operator.ProxyHosts.Domains.{domains_should_be_unique}
use nginxpm_operator.ProxyHosts.Apply.{create_or_update_proxy_host}

abbrev pub proxy_host_finalizer : Text
proxy_host_finalizer = txt "proxyhost.nginxpm-operator.io/finalizers"

abbrev was_enabled : Option InitialConfiguration → Bool
was_enabled none = false
was_enabled (some config) = config.enabled

-- The request is sent, and then the host is enabled if it was so at first.
restore_with : Client → ℤ → Bool → Option ProxyHostRequestInput → Action (Unit {0})
restore_with client id enabled none = pure tt
restore_with client id enabled (some input) = do
  ignore_error (update_proxy_host client id input)
  when enabled (ignore_error (enable_proxy_host client id))

-- What happens to the host on the instance: it is restored, disabled or deleted.
unfoldable pub release : Client → ProxyHost → ℤ → Action (Unit {0})
unfolding restore_with
release client ph id =
    if should_restore_initial_config ph
    then restore_with client id (was_enabled ph.status.initial_configuration)
        (build_restoration_input ph.status.initial_configuration)
    else if ph.status.bound
    then ignore_error (disable_proxy_host client id)
    else ignore_error (delete_proxy_host client id)

release_if_created : Client → ProxyHost → Option ℤ → Action (Unit {0})
release_if_created client ph none = pure tt
release_if_created client ph (some id) = release client ph id

refetch_failed : Error → ReconcileResult
refetch_failed (kube not_found) = done
refetch_failed e = retry_after 10 e

removal_failed : Error → ReconcileResult
removal_failed (kube conflict) = record { requeue_after = 2; error = none }
removal_failed e = retry_after 60 e

-- The finalizer is taken off the latest version of the resource.
unfoldable pub let_go : NamespacedName → Action ReconcileResult
unfolding refetch_failed removal_failed
let_go req =
    handle (get_object {O = ProxyHost} req)
      (λ latest.
        handle (remove_finalizer proxy_host_finalizer latest) (λ _. pure done)
          (λ e. pure (removal_failed e)))
      (λ e. pure (refetch_failed e))

unfoldable pub delete_resource : NamespacedName → ProxyHost → Client → Action ReconcileResult
unfolding release_if_created let_go
delete_resource req ph client = do
  present ← read (λ env. env.contains_finalizer ph.metadata.finalizers proxy_host_finalizer)
  if present then release_if_created client ph ph.status.id >> let_go req else pure done

-- A step failed: the status says so, and the reconciliation is repeated in a minute.
unfoldable pub report : NamespacedName → Text → ProxyHost → Error → Action ReconcileResult
report req reason ph e = do
  ph' ← set_condition req (failed_with reason e) ph
  pure (retry_after 60 e)

unfoldable pub applied : NamespacedName → Attempt ProxyHost → Action ReconcileResult
unfolding report
applied req (ph, some e) = report req (txt "CreateOrUpdateProxyHost") ph (kube e)
applied req (ph, none) = do
  ph' ←
      set_condition req
        (succeeded (txt "CreateOrUpdateProxyHost")
          (txt "Proxy host created or updated, ResourceName: " ++ req.name))
        ph
  pure done

unfoldable pub apply_resource : NamespacedName → ProxyHost → Client → Action ReconcileResult
unfolding applied
apply_resource req ph client =
    handle (domains_should_be_unique ph)
      (λ _.
        handle (create_or_update_proxy_host req ph client) (applied req)
          (report req (txt "CreateOrUpdateProxyHost") ph))
      (report req (txt "DomainsShouldBeUnique") ph)

no_client : NamespacedName → Bool → ProxyHost → Error → Action ReconcileResult
unfolding let_go report
no_client req deleting ph e =
    if deleting
    then let_go req
    else (record_event (txt "InitNginxPMClient") >> report req (txt "InitNginxPMClient") ph e)

with_status : NamespacedName → ProxyHost → Action ProxyHost
with_status req ph =
    if is_empty ph.status.conditions then set_condition req starting ph else pure ph

-- `deleting` is read before the status is written, as `isMarkedToBeDeleted`.
reconcile_from : NamespacedName → Bool → ProxyHost → Action ReconcileResult
unfolding with_status no_client
reconcile_from req deleting fetched = do
  ph ← with_status req fetched
  handle (init_nginxpm_client req.namespace ph.spec.token)
      (λ client. if deleting then delete_resource req ph client else apply_resource req ph client)
      (no_client req deleting ph)

reconcile_fetched : NamespacedName → ProxyHost → Action ReconcileResult
unfolding reconcile_from
reconcile_fetched req ph =
    if ph.metadata.deleting
    then reconcile_from req true ph
    else handle (add_finalizer proxy_host_finalizer ph) (reconcile_from req false)
        (λ e. pure (retry_after 60 e))

get_failed : Error → ReconcileResult
get_failed (kube not_found) = done
get_failed e = retry_after 60 e

unfoldable pub reconcile : NamespacedName → Action ReconcileResult
unfolding reconcile_fetched get_failed
reconcile req =
    handle (get_object {O = ProxyHost} req) (reconcile_fetched req) (λ e. pure (get_failed e))
