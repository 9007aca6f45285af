-- ===== src/AccessLists.antt =====
-- internal/controller/accesslist/accesslist_controller.go: the reconciler of the AccessList resource.
pub mod Lifecycle
pub mod NoDeletion
pub mod Watches
pub mod Requests
use nginxpm_operator.Base.{
  Bool, true, false, Option, none, some, List, map, ◌++◌, if◌then◌else◌, is_empty, ℤ, Text, txt,
}
use nginxpm_operator.Errors.{Error, not_found, kube}
use nginxpm_operator.Api.{NamespacedName, AccessList}
use nginxpm_operator.Npm
use nginxpm_operator.Npm.{
  Client, AccessListRequestInput, find_access_list_by_id, create_access_list, update_access_list,
  delete_access_list,
}
use nginxpm_operator.Effect.{handle, Action, ◌>>=◌, ◌>>◌, pure, ignore_error, record_event, read}
use nginxpm_operator.Controller.{
  init_nginxpm_client, add_finalizer, remove_finalizer, set_condition, update_status, with_event,
  ReconcileResult, done, retry_after, starting, failed_with, succeeded, Attempt,
}
use nginxpm_operator.Controller.Resources.{get_object, access_list-Resource}

abbrev pub access_list_finalizer : Text
access_list_finalizer = txt "accesslist.nginxpm-operator.io/finalizers"

find_existing : Client → Option ℤ → Action (Option Npm.AccessList)
find_existing client none = pure none
find_existing client (some id) =
    with_event (txt "FindAccessListByID") (find_access_list_by_id client id)

unfoldable pub access_list_input : AccessList → AccessListRequestInput
access_list_input acl = record {
  name = acl.metadata.name;
  satisfy_any = acl.spec.satisfy_any;
  pass_auth = acl.spec.pass_auth;
  items_of =
      map (λ a. record { username = a.username; password = a.password }) acl.spec.authorizations;
  clients = map (λ c. record { address = c.address; directive = c.directive }) acl.spec.clients;
}

write_access_list : Client → AccessListRequestInput → Option Npm.AccessList → Action Npm.AccessList
write_access_list client input none =
    with_event (txt "CreateAccessList") (create_access_list client input)
write_access_list client input (some existing) =
    with_event (txt "UpdateAccessList") (update_access_list client existing.id input)

unfoldable pub create_or_update_access_list :
    NamespacedName → AccessList → Client → Action (Attempt AccessList)
unfolding find_existing write_access_list
create_or_update_access_list req acl client = do
  existing ← find_existing client acl.status.id
  remote ← write_access_list client (access_list_input acl) existing
  update_status req
      (λ env o. record o {
        status = record o.status {
          id = some remote.id;
          proxy_host_count = remote.proxy_host_count;
        };
      })
      acl

-- The finalizer is taken off the resource as it was fetched.
unfoldable pub let_go : AccessList → Action ReconcileResult
let_go acl =
    handle (remove_finalizer access_list_finalizer acl) (λ _. pure done)
      (λ e. pure (retry_after 60 e))

delete_remote : Client → Option ℤ → Action (Unit {0})
delete_remote client none = pure tt
delete_remote client (some id) = ignore_error (delete_access_list client id)

unfoldable pub delete_resource : AccessList → Client → Action ReconcileResult
unfolding delete_remote let_go
delete_resource acl client = do
  present ← read (λ env. env.contains_finalizer acl.metadata.finalizers access_list_finalizer)
  if present then delete_remote client acl.status.id >> let_go acl else pure done

report : NamespacedName → Text → AccessList → Error → Action ReconcileResult
report req reason acl e = do
  acl' ← set_condition req (failed_with reason e) acl
  pure (retry_after 60 e)

applied : NamespacedName → Attempt AccessList → Action ReconcileResult
unfolding report
applied req (acl, some e) = report req (txt "createOrUpdateAccessList") acl (kube e)
applied req (acl, none) = do
  acl' ←
      set_condition req
        (succeeded (txt "createOrUpdateAccessList")
          (txt "access list created or updated, ResourceName: " ++ req.name))
        acl
  pure done

unfoldable pub apply_resource : NamespacedName → AccessList → Client → Action ReconcileResult
unfolding applied
apply_resource req acl client =
    handle (create_or_update_access_list req acl client) (applied req)
      (report req (txt "createOrUpdateAccessList") acl)

no_client : NamespacedName → Bool → AccessList → Error → Action ReconcileResult
unfolding let_go report
no_client req deleting acl e =
    if deleting
    then let_go acl
    else (record_event (txt "InitNginxPMClient") >> report req (txt "InitNginxPMClient") acl e)

with_status : NamespacedName → AccessList → Action AccessList
with_status req acl =
    if is_empty acl.status.conditions then set_condition req starting acl else pure acl

reconcile_from : NamespacedName → Bool → AccessList → Action ReconcileResult
unfolding with_status no_client
reconcile_from req deleting fetched = do
  acl ← with_status req fetched
  handle (init_nginxpm_client req.namespace acl.spec.token)
      (λ client. if deleting then delete_resource acl client else apply_resource req acl client)
      (no_client req deleting acl)

reconcile_fetched : NamespacedName → AccessList → Action ReconcileResult
unfolding reconcile_from
reconcile_fetched req acl =
    if acl.metadata.deleting
    then reconcile_from req true acl
    else handle (add_finalizer access_list_finalizer acl) (reconcile_from req false)
        (λ e. pure (retry_after 60 e))

get_failed : Error → ReconcileResult
get_failed (kube not_found) = done
get_failed e = retry_after 60 e

unfoldable pub reconcile : NamespacedName → Action ReconcileResult
unfolding reconcile_fetched get_failed
reconcile req =
    handle (get_object {O = AccessList} req) (reconcile_fetched req) (λ e. pure (get_failed e))
