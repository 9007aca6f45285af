-- ===== src/AccessLists/NoDeletion.antt =====
-- DELETE requests in the reconciliation of an access list that is not being deleted.
use nginxpm_operator.Base.{◌≡◌, false, Option, none, some, ℤ, Text, All}
use nginxpm_operator.Errors.{Error}
use nginxpm_operator.Api.{NamespacedName, AccessList}
use nginxpm_operator.Npm
use nginxpm_operator.Npm.{Client, AccessListRequestInput}
use nginxpm_operator.Npm.NoDeletion.{
  find_access_list_by_id-IsNotDelete, create_access_list-IsNotDelete,
  update_access_list-IsNotDelete,
}
use nginxpm_operator.Effect.{Env, History, found}
use nginxpm_operator.Effect.Emits.{Emits, emits_rules}
use nginxpm_operator.Effect.Traffic.{IsNotDelete}
use nginxpm_operator.Controller.{Attempt}
use nginxpm_operator.Controller.Fetching.{Emits-else, fetched-emits}
use nginxpm_operator.Controller.Resources.{access_list-Resource}
use nginxpm_operator.Controller.NoDeletion.{
  with_event-IsNotDelete, init_nginxpm_client-IsNotDelete, add_finalizer-IsNotDelete,
  set_condition-IsNotDelete, update_status-IsNotDelete,
}
use nginxpm_operator.AccessLists.{
  find_existing, write_access_list, create_or_update_access_list, report, applied, apply_resource,
  with_status, no_client, reconcile_from, reconcile_fetched, reconcile,
}

ruleset step_rules =
    (emits_rules, with_event-IsNotDelete, set_condition-IsNotDelete, update_status-IsNotDelete)

find_existing-IsNotDelete : (c : Client) (o : Option ℤ) → Emits IsNotDelete (find_existing c o)
unfolding find_existing
find_existing-IsNotDelete c none = search step_rules
find_existing-IsNotDelete c (some id) = search (step_rules, find_access_list_by_id-IsNotDelete)

write_access_list-IsNotDelete :
    (c : Client) (input : AccessListRequestInput) (o : Option Npm.AccessList)
    → Emits IsNotDelete (write_access_list c input o)
unfolding write_access_list
write_access_list-IsNotDelete c input none = search (step_rules, create_access_list-IsNotDelete)
write_access_list-IsNotDelete c input (some a) = search (step_rules, update_access_list-IsNotDelete)

create_or_update-IsNotDelete :
    (req : NamespacedName) (acl : AccessList) (c : Client)
    → Emits IsNotDelete (create_or_update_access_list req acl c)
unfolding create_or_update_access_list
create_or_update-IsNotDelete req acl c =
    search (step_rules, find_existing-IsNotDelete, write_access_list-IsNotDelete)

report-IsNotDelete :
    (req : NamespacedName) (reason : Text) (acl : AccessList) (e : Error)
    → Emits IsNotDelete (report req reason acl e)
unfolding report
report-IsNotDelete req reason acl e = search step_rules

applied-IsNotDelete :
    (req : NamespacedName) (a : Attempt AccessList) → Emits IsNotDelete (applied req a)
unfolding applied
applied-IsNotDelete req (acl, none) = search step_rules
applied-IsNotDelete req (acl, some e) = report-IsNotDelete req _ acl _

apply_resource-Emits :
    (req : NamespacedName) (acl : AccessList) (c : Client)
    → Emits IsNotDelete (apply_resource req acl c)
unfolding apply_resource
apply_resource-Emits req acl c =
    search (step_rules, create_or_update-IsNotDelete, applied-IsNotDelete, report-IsNotDelete)

from-IsNotDelete :
    (req : NamespacedName) (acl : AccessList) → Emits IsNotDelete (reconcile_from req false acl)
unfolding reconcile_from with_status no_client
from-IsNotDelete req acl = search (
  emits_rules, set_condition-IsNotDelete, init_nginxpm_client-IsNotDelete, report-IsNotDelete,
  apply_resource-Emits,
)

fetched-IsNotDelete :
    (req : NamespacedName) (acl : AccessList)
    → acl.metadata.deleting ≡ false
    → Emits IsNotDelete (reconcile_fetched req acl)
unfolding reconcile_fetched
fetched-IsNotDelete req acl stays =
    Emits-else _ _ _ stays (search (emits_rules, add_finalizer-IsNotDelete, from-IsNotDelete))

-- The whole reconciliation of a resource that is not being deleted.
pub reconcile-IsNotDelete_access_list :
    (req : NamespacedName) (acl : AccessList) (env : Env) (t : History)
    → env.access_lists.get t req ≡ found acl
    → acl.metadata.deleting ≡ false
    → All IsNotDelete t
    → All IsNotDelete (reconcile req env t).1
unfolding reconcile
reconcile-IsNotDelete_access_list req acl env t is_found stays =
    fetched-emits req acl (reconcile_fetched req) _ env t is_found tt
      (fetched-IsNotDelete req acl stays)
