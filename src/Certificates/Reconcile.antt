-- ===== src/Certificates/Reconcile.antt =====
-- `Reconcile` of internal/controller/letsencryptcertificate/letsencryptcertificate_controller.go and
-- of internal/controller/customcertificate/customcertificate_controller.go. The two functions have
-- the same statements; what they differ in is the record.
pub mod Lifecycle
pub mod Deletion
pub mod Liveness
pub mod Steady
use nginxpm_operator.Base.{
  Bool, true, false, Option, none, some, if◌then◌else◌, is_empty, ℤ, Text, txt,
}
use nginxpm_operator.Errors.{Error, not_found, kube}
use nginxpm_operator.Api.{NamespacedName, TokenName, Condition}
use nginxpm_operator.Npm.{Client, delete_certificate}
use nginxpm_operator.Effect.{handle, Action, ◌>>=◌, ◌>>◌, pure, ignore_error, record_event, read}
use nginxpm_operator.Controller.{
  init_nginxpm_client, add_finalizer, remove_finalizer, set_condition, ReconcileResult, done,
  retry_after, starting, failed_with,
}
use nginxpm_operator.Controller.Resources.{Resource, get_object}

-- `owned_id` is the id of the certificate that goes with the resource, and `create_certificate`
-- returns the resource as it then is with its result and error.
pub record Certificates (O : Type 0) : Type 0 where
  pub finalizer : Text
  pub token : O → Option TokenName
  pub owned_id : O → Option ℤ
  pub create_certificate : NamespacedName → O → Client → Action (O × ReconcileResult)
  pub ready_condition : Text → Condition

abbrev pub get_failed : Error → ReconcileResult
get_failed (kube not_found) = done
get_failed e = retry_after 60 e

unfoldable pub delete_remote : Client → Option ℤ → Action (Unit {0})
delete_remote client none = pure tt
delete_remote client (some id) = ignore_error (delete_certificate client id)

module _ {O : Type 0} ⦃r : Resource O⦄ where
  -- The finalizer is taken off the resource as it was fetched.
  unfoldable pub let_go : Certificates O → O → Action ReconcileResult
  let_go k o =
      handle (remove_finalizer k.finalizer o) (λ _. pure done) (λ e. pure (retry_after 60 e))

  unfoldable pub delete_resource : Certificates O → O → Client → Action ReconcileResult
  delete_resource k o client = do
    present ← read (λ env. env.contains_finalizer (r.metadata o).finalizers k.finalizer)
    if present then delete_remote client (k.owned_id o) >> let_go k o else pure done

  -- A result without an error is dropped.
  unfoldable pub conclude :
      Certificates O → NamespacedName → O → ReconcileResult → Option Error → Action ReconcileResult
  conclude k req o result (some e) = do
    o' ← set_condition req (failed_with (txt "CreateCertificate") e) o
    pure result
  conclude k req o result none = do o' ← set_condition req (k.ready_condition req.name) o; pure done

  unfoldable pub apply_resource :
      Certificates O → NamespacedName → O → Client → Action ReconcileResult
  apply_resource k req o client = do
    created ← k.create_certificate req o client
    conclude k req created.0 created.1 created.1.error

  unfoldable pub no_client :
      Certificates O → NamespacedName → Bool → O → Error → Action ReconcileResult
  no_client k req deleting o e = if deleting then let_go k o else (do
    record_event (txt "InitNginxPMClient")
    o' ← set_condition req (failed_with (txt "InitNginxPMClient") e) o
    pure (retry_after 60 e))

  unfoldable pub with_status : NamespacedName → O → Action O
  with_status req o = if is_empty (r.conditions o) then set_condition req starting o else pure o

  unfoldable pub reconcile_from :
      Certificates O → NamespacedName → Bool → O → Action ReconcileResult
  reconcile_from k req deleting fetched = do
    o ← with_status req fetched
    handle (init_nginxpm_client req.namespace (k.token o))
        (λ client. if deleting then delete_resource k o client else apply_resource k req o client)
        (no_client k req deleting o)

  unfoldable pub reconcile_fetched : Certificates O → NamespacedName → O → Action ReconcileResult
  reconcile_fetched k req o =
      if (r.metadata o).deleting
      then reconcile_from k req true o
      else handle (add_finalizer k.finalizer o) (reconcile_from k req false)
          (λ e. pure (retry_after 60 e))

  unfoldable pub reconcile : Certificates O → NamespacedName → Action ReconcileResult
  reconcile k req =
      handle (get_object {O = O} req) (reconcile_fetched k req) (λ e. pure (get_failed e))
