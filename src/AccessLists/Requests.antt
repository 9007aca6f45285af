-- ===== src/AccessLists/Requests.antt =====
-- The requests of the reconciliation of an access list that has an id.
use nginxpm_operator.Base.{
  is_empty, false, refl, Bool, if◌then◌else◌, ◌≡◌, ◌∙◌, ap, true, Option, none, some, List, ◌∷◌,
  ◌++◌, ℤ, Text, txt,
}
use nginxpm_operator.Errors.{Error}
use nginxpm_operator.Api.{NamespacedName, AccessList}
use nginxpm_operator.Npm
use nginxpm_operator.Npm.{
  Client, AccessListRequestInput, access_list_path, access_list_json, find_access_list_by_id,
}
use nginxpm_operator.Npm.Sending.{
  request_to, requests-find_access_list_by_id, requests-create_access_list,
  requests-update_access_list,
}
use nginxpm_operator.Effect.{
  fetched, found, kind_access_list, handle, pure, monad, Action, Env, History, Result, ok, Request,
  json, no_body, get_method, post_method, put_method,
}
use nginxpm_operator.Effect.Sending.{
  requests, IsSilent, bind-runs, requests-bind, requests-handle, silent_rules,
}
use nginxpm_operator.Controller.{
  Attempt, init_nginxpm_client, add_finalizer, retry_after, ReconcileResult,
}
use nginxpm_operator.Controller.Resources.{access_list-Resource}
use nginxpm_operator.Controller.Sending.{
  token_request, requests-init_nginxpm_client, requests-with_event, with_event-ok,
  update_status-IsSilent, set_condition-IsSilent,
}
use nginxpm_operator.AccessLists.{
  with_status, reconcile_from, reconcile_fetched, reconcile, access_list_finalizer, find_existing,
  write_access_list, create_or_update_access_list, access_list_input, report, applied,
  apply_resource,
}

ruleset step_rules = (silent_rules, update_status-IsSilent, set_condition-IsSilent)

-- The GET of the list.
abbrev pub list_request : Client → Request
list_request c = request_to c get_method (txt "/api/nginx/access-lists") no_body

-- The PUT of the access list that is there, or the POST of a new one.
abbrev pub write_request : Client → AccessList → Option Npm.AccessList → Request
write_request c acl none =
    request_to c post_method (txt "/api/nginx/access-lists")
      (json (access_list_json (access_list_input acl)))
write_request c acl (some existing) =
    request_to c put_method (access_list_path existing.id)
      (json (access_list_json (access_list_input acl)))

report-IsSilent :
    (req : NamespacedName) (reason : Text) (acl : AccessList) (e : Error)
    → IsSilent (report req reason acl e)
unfolding report
report-IsSilent req reason acl e = search step_rules

applied-IsSilent : (req : NamespacedName) (a : Attempt AccessList) → IsSilent (applied req a)
unfolding applied
applied-IsSilent req (acl, none) = search step_rules
applied-IsSilent req (acl, some e) = report-IsSilent req _ acl _

module _ (req : NamespacedName) (acl : AccessList) (c : Client) (env : Env)
    (valid : (path : Text) → env.valid_url (c.endpoint ++ path) ≡ true) where
  requests-write :
      (o : Option Npm.AccessList) (t : History)
      → requests (write_access_list c (access_list_input acl) o env t).1
        ≡ write_request c acl o ∷ requests t
  unfolding write_access_list
  requests-write none t =
      requests-with_event _ _ env t
      ∙ requests-create_access_list c (access_list_input acl) env t (valid _)
  requests-write (some existing) t =
      requests-with_event _ _ env t
      ∙ requests-update_access_list c existing.id (access_list_input acl) env t (valid _)

  requests-find :
      (o : Option ℤ) (id : ℤ) (t : History)
      → o ≡ some id
      → requests (find_existing c o env t).1 ≡ list_request c ∷ requests t
  unfolding find_existing
  requests-find o id t e =
      rw e (requests-with_event _ _ env t ∙ requests-find_access_list_by_id c id env t (valid _))

  find_existing-ok :
      (o : Option ℤ) (id : ℤ) (existing : Option Npm.AccessList) (t : History)
      → o ≡ some id
      → (find_access_list_by_id c id env t).0 ≡ ok existing
      → (find_existing c o env t).0 ≡ ok existing
  unfolding find_existing
  find_existing-ok o id existing t e e' = rw e (with_event-ok _ _ existing env t e')

  requests-create_or_update :
      (id : ℤ) (existing : Option Npm.AccessList) (t : History)
      → acl.status.id ≡ some id
      → (find_access_list_by_id c id env t).0 ≡ ok existing
      → requests (create_or_update_access_list req acl c env t).1
        ≡ write_request c acl existing ∷ list_request c ∷ requests t
  unfolding create_or_update_access_list
  requests-create_or_update id existing t e e' =
      let first = find_existing c acl.status.id in
      ap (λ (x : Result (Attempt AccessList) × History). requests x.1)
        (bind-runs first _ existing env t (find_existing-ok acl.status.id id existing t e e'))
      ∙ (requests-bind _ _ env (first env t).1 (λ remote. search step_rules)
          ∙ (requests-write existing (first env t).1
              ∙ ap (λ (rs : List Request). write_request c acl existing ∷ rs)
                  (requests-find acl.status.id id t e)))

-- What comes once the client is made.
apply_resource-requests :
    (req : NamespacedName) (acl : AccessList) (c : Client) (id : ℤ)
    (existing : Option Npm.AccessList) (env : Env) (t : History)
    → ((path : Text) → env.valid_url (c.endpoint ++ path) ≡ true)
    → acl.status.id ≡ some id
    → (find_access_list_by_id c id env t).0 ≡ ok existing
    → requests (apply_resource req acl c env t).1
      ≡ write_request c acl existing ∷ list_request c ∷ requests t
unfolding apply_resource
apply_resource-requests req acl c id existing env t valid e e' =
    requests-handle _ _ _ env t (applied-IsSilent req)
      (report-IsSilent req (txt "createOrUpdateAccessList") acl)
    ∙ requests-create_or_update req acl c env valid id existing t e e'

if-false : {A : Type 0} (b : Bool) (x y : A) → b ≡ false → (if b then x else y) ≡ y
if-false b x y e = rw e refl

module _ (req : NamespacedName) (acl : AccessList) (c : Client) (id : ℤ)
    (existing : Option Npm.AccessList) (env : Env)
    (valid : (path : Text) → env.valid_url (c.endpoint ++ path) ≡ true)
    (has_conditions : is_empty acl.status.conditions ≡ false)
    (has_id : acl.status.id ≡ some id) where
  opening : Action Client
  opening = init_nginxpm_client req.namespace acl.spec.token

  applied_after :
      (t : History)
      → (opening env t).0 ≡ ok c
      → (find_access_list_by_id c id env (opening env t).1).0 ≡ ok existing
      → requests (reconcile_from req false acl env t).1
        ≡ write_request c acl existing ∷ list_request c ∷ token_request c ∷ requests t
  unfolding reconcile_from with_status opening monad
  applied_after t opened listed = rw has_conditions (
      rw opened (
        apply_resource-requests req acl c id existing env (opening env t).1 valid has_id listed
        ∙ ap (λ (rs : List Request). write_request c acl existing ∷ list_request c ∷ rs)
            (requests-init_nginxpm_client req.namespace acl.spec.token c env t valid opened)))

  kept :
      (t : History)
      → env.contains_finalizer acl.metadata.finalizers access_list_finalizer ≡ true
      → handle
          (add_finalizer access_list_finalizer acl)
          (reconcile_from req false)
          (λ e. pure (retry_after 60 e))
          env
          t
        ≡ reconcile_from req false acl env t
  unfolding add_finalizer monad
  kept t present = rw present refl

  fetched_requests :
      (t : History)
      → acl.metadata.deleting ≡ false
      → env.contains_finalizer acl.metadata.finalizers access_list_finalizer ≡ true
      → (opening env t).0 ≡ ok c
      → (find_access_list_by_id c id env (opening env t).1).0 ≡ ok existing
      → requests (reconcile_fetched req acl env t).1
        ≡ write_request c acl existing ∷ list_request c ∷ token_request c ∷ requests t
  unfolding reconcile_fetched
  fetched_requests t stays present opened listed =
      ap (λ (m : Action ReconcileResult). requests (m env t).1)
        (if-false acl.metadata.deleting _ _ stays)
      ∙ (ap (λ (x : Result ReconcileResult × History). requests x.1) (kept t present)
          ∙ applied_after t opened listed)

-- The reconciliation of an access list that is not being deleted, and that has its finalizer,
-- conditions and an id, sends three requests, once a client is made and the instance has answered
-- with its list: the GET that tests the token, the GET of that list, and then one write with the body
-- of the resource, which is a PUT if the list holds the id and a POST if it does not, whatever the
-- instance answers to it. URLs are taken to parse.
pub reconcile-requests :
    (req : NamespacedName) (acl : AccessList) (c : Client) (id : ℤ)
    (existing : Option Npm.AccessList) (env : Env) (t : History)
    → ((path : Text) → env.valid_url (c.endpoint ++ path) ≡ true)
    → is_empty acl.status.conditions ≡ false
    → acl.status.id ≡ some id
    → env.access_lists.get t req ≡ found acl
    → acl.metadata.deleting ≡ false
    → env.contains_finalizer acl.metadata.finalizers access_list_finalizer ≡ true
    → (init_nginxpm_client req.namespace acl.spec.token env (fetched kind_access_list req ∷ t)).0
      ≡ ok c
    → (find_access_list_by_id c id env
        (init_nginxpm_client req.namespace acl.spec.token env
          (fetched kind_access_list req ∷ t)).1).0
      ≡ ok existing
    → requests (reconcile req env t).1
      ≡ write_request c acl existing ∷ list_request c ∷ token_request c ∷ requests t
unfolding reconcile opening monad
reconcile-requests req acl c id existing env t valid has_conditions has_id is_found stays present
      opened listed =
    rw is_found (
      fetched_requests req acl c id existing env valid has_conditions has_id
        (fetched kind_access_list req ∷ t) stays present opened listed)
