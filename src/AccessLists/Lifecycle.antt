-- ===== src/AccessLists/Lifecycle.antt =====
-- How a reconciliation of an access list ends, and how its deletion goes.
use nginxpm_operator.Base.{Bool, true, ◌≡◌, refl, Option, none, some, ◌++◌, ◌∷◌, ℤ, Text}
use nginxpm_operator.Errors.{Error}
use nginxpm_operator.Api.{NamespacedName, AccessList}
use nginxpm_operator.Npm
use nginxpm_operator.Npm.{
  Client, AccessListRequestInput, delete_access_list, access_list_path, authorization, do_request,
  receive, check_status, Response, is_ok,
}
use nginxpm_operator.Npm.Settling.{
  find_access_list_by_id-Settles, create_access_list-Settles, update_access_list-Settles,
  delete_access_list-Settles,
}
use nginxpm_operator.Effect.{Env, History, sent, ok, monad}
use nginxpm_operator.Npm.Deletion.{deletion, delete_access_list-History}
use nginxpm_operator.Effect.Returns.{
  ignore_error-runs, Settles, Answers, answers_rules, Answers→Settles,
}
use nginxpm_operator.Controller.{Attempt, ReconcileResult}
use nginxpm_operator.Controller.Resources.{access_list-Resource}
use nginxpm_operator.Controller.Settling.{
  with_event-Settles, set_condition-Answers, update_status-Answers, init_nginxpm_client-Settles,
  add_finalizer-Settles, remove_finalizer-Settles,
}
use nginxpm_operator.AccessLists.{
  find_existing, write_access_list, create_or_update_access_list, let_go, delete_remote,
  delete_resource, report, applied, apply_resource, no_client, with_status, reconcile_from,
  reconcile_fetched, reconcile, access_list_finalizer,
}

ruleset step_rules = (
  answers_rules, with_event-Settles, set_condition-Answers, init_nginxpm_client-Settles,
  add_finalizer-Settles, remove_finalizer-Settles,
)

find_existing-Settles : (c : Client) (o : Option ℤ) → Settles (find_existing c o)
unfolding find_existing
find_existing-Settles c none = search step_rules
find_existing-Settles c (some id) = search (step_rules, find_access_list_by_id-Settles)

write_access_list-Settles :
    (c : Client) (input : AccessListRequestInput) (o : Option Npm.AccessList)
    → Settles (write_access_list c input o)
unfolding write_access_list
write_access_list-Settles c input none = search (step_rules, create_access_list-Settles)
write_access_list-Settles c input (some a) = search (step_rules, update_access_list-Settles)

create_or_update-Settles :
    (req : NamespacedName) (acl : AccessList) (c : Client)
    → Settles (create_or_update_access_list req acl c)
unfolding create_or_update_access_list
create_or_update-Settles req acl c =
    let finish =
      λ (f : Env → AccessList → AccessList). Answers→Settles _ (update_status-Answers req f acl) in
    search (step_rules, find_existing-Settles, write_access_list-Settles, finish)

let_go-Answers : (acl : AccessList) → Answers (let_go acl)
unfolding let_go
let_go-Answers acl = search step_rules

delete_remote-Answers : (c : Client) (o : Option ℤ) → Answers (delete_remote c o)
unfolding delete_remote
delete_remote-Answers c none = search step_rules
delete_remote-Answers c (some id) = search (step_rules, delete_access_list-Settles)

delete_resource-Answers : (acl : AccessList) (c : Client) → Answers (delete_resource acl c)
unfolding delete_resource
delete_resource-Answers acl c = search (step_rules, delete_remote-Answers, let_go-Answers)

report-Answers :
    (req : NamespacedName) (reason : Text) (acl : AccessList) (e : Error)
    → Answers (report req reason acl e)
unfolding report
report-Answers req reason acl e = search step_rules

applied-Answers : (req : NamespacedName) (a : Attempt AccessList) → Answers (applied req a)
unfolding applied
applied-Answers req (acl, none) = search step_rules
applied-Answers req (acl, some e) = report-Answers req _ acl _

apply_resource-Answers :
    (req : NamespacedName) (acl : AccessList) (c : Client) → Answers (apply_resource req acl c)
unfolding apply_resource
apply_resource-Answers req acl c =
    search (step_rules, create_or_update-Settles, applied-Answers, report-Answers)

no_client-Answers :
    (req : NamespacedName) (b : Bool) (acl : AccessList) (e : Error)
    → Answers (no_client req b acl e)
unfolding no_client
no_client-Answers req b acl e = search (step_rules, let_go-Answers, report-Answers)

with_status-Answers : (req : NamespacedName) (acl : AccessList) → Answers (with_status req acl)
unfolding with_status
with_status-Answers req acl = search step_rules

reconcile_from-Answers :
    (req : NamespacedName) (b : Bool) (acl : AccessList) → Answers (reconcile_from req b acl)
unfolding reconcile_from
reconcile_from-Answers req b acl = search (
  step_rules, with_status-Answers, delete_resource-Answers, apply_resource-Answers,
  no_client-Answers,
)

reconcile_fetched-Answers :
    (req : NamespacedName) (acl : AccessList) → Answers (reconcile_fetched req acl)
unfolding reconcile_fetched
reconcile_fetched-Answers req acl = search (step_rules, reconcile_from-Answers)

every_reconcile-Answers : (req : NamespacedName) → Answers (reconcile req)
unfolding reconcile
every_reconcile-Answers req = search (step_rules, reconcile_fetched-Answers)

-- Whatever the API server and the instance answer, a reconciliation of an access list ends with a result,
-- neither with an error that nothing handles nor with a nil dereference.
pub reconcile-Answers :
    (req : NamespacedName) (env : Env) (t : History)
    → (result : ReconcileResult) × ((reconcile req env t).0 ≡ ok result)
reconcile-Answers req = (every_reconcile-Answers req).at

-- The deletion of an access list that has the finalizer and an id, at an endpoint that parses,
-- sends one request, the DELETE of that id; then, whatever the instance answers, it goes on to
-- take off the finalizer.
pub delete_resource-let_go :
    (acl : AccessList) (c : Client) (id : ℤ) (env : Env) (t : History)
    → env.contains_finalizer acl.metadata.finalizers access_list_finalizer ≡ true
    → acl.status.id ≡ some id
    → env.valid_url (c.endpoint ++ access_list_path id) ≡ true
    → delete_resource acl c env t ≡ let_go acl env (sent (deletion c (access_list_path id)) ∷ t)
unfolding delete_resource delete_remote monad
delete_resource-let_go acl c id env t present has_id valid = rw present (
    rw has_id (
      rw (ignore_error-runs (delete_access_list c id) env t (delete_access_list-Settles c id))
        (rw (delete_access_list-History c id env t valid) refl)))
