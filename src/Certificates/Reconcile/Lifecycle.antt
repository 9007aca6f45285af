-- ===== src/Certificates/Reconcile/Lifecycle.antt =====
-- How a reconciliation of a certificate ends, from how its creation ends.
use nginxpm_operator.Base.{Bool, Option, none, some, ℤ}
use nginxpm_operator.Errors.{Error}
use nginxpm_operator.Api.{NamespacedName}
use nginxpm_operator.Npm.{Client}
use nginxpm_operator.Npm.Certificates.Settling.{delete_certificate-Settles}
use nginxpm_operator.Effect.Returns.{Answers, answers_rules}
use nginxpm_operator.Controller.{ReconcileResult}
use nginxpm_operator.Controller.Resources.{Resource}
use nginxpm_operator.Controller.Settling.{
  set_condition-Answers, init_nginxpm_client-Settles, add_finalizer-Settles,
  remove_finalizer-Settles,
}
use nginxpm_operator.Certificates.Reconcile.{
  Certificates, delete_remote, let_go, delete_resource, conclude, apply_resource, no_client,
  with_status, reconcile_from, reconcile_fetched, reconcile,
}

ruleset step_rules = (
  answers_rules, set_condition-Answers, init_nginxpm_client-Settles, add_finalizer-Settles,
  remove_finalizer-Settles,
)

delete_remote-Answers : (c : Client) (o : Option ℤ) → Answers (delete_remote c o)
unfolding delete_remote
delete_remote-Answers c none = search step_rules
delete_remote-Answers c (some id) = search (step_rules, delete_certificate-Settles)

module _ {O : Type 0} ⦃r : Resource O⦄ (k : Certificates O) where
  pub let_go-Answers : (o : O) → Answers (let_go k o)
  unfolding let_go
  let_go-Answers o = search step_rules

  delete_resource-Answers : (o : O) (c : Client) → Answers (delete_resource k o c)
  unfolding delete_resource
  delete_resource-Answers o c = search (step_rules, delete_remote-Answers, let_go-Answers)

  conclude-Answers :
      (req : NamespacedName) (o : O) (result : ReconcileResult) (e : Option Error)
      → Answers (conclude k req o result e)
  unfolding conclude
  conclude-Answers req o result none = search step_rules
  conclude-Answers req o result (some e) = search step_rules

  no_client-Answers :
      (req : NamespacedName) (b : Bool) (o : O) (e : Error) → Answers (no_client k req b o e)
  unfolding no_client
  no_client-Answers req b o e = search (step_rules, let_go-Answers)

  with_status-Answers : (req : NamespacedName) (o : O) → Answers (with_status req o)
  unfolding with_status
  with_status-Answers req o = search step_rules

  module _
      (creation : (req : NamespacedName) (o : O) (c : Client)
        → Answers (k.create_certificate req o c)) where
    apply_resource-Answers :
        (req : NamespacedName) (o : O) (c : Client) → Answers (apply_resource k req o c)
    unfolding apply_resource
    apply_resource-Answers req o c = search (step_rules, creation, conclude-Answers)

    reconcile_from-Answers :
        (req : NamespacedName) (b : Bool) (o : O) → Answers (reconcile_from k req b o)
    unfolding reconcile_from
    reconcile_from-Answers req b o = search (
      step_rules, with_status-Answers, delete_resource-Answers, apply_resource-Answers,
      no_client-Answers,
    )

    reconcile_fetched-Answers : (req : NamespacedName) (o : O) → Answers (reconcile_fetched k req o)
    unfolding reconcile_fetched
    reconcile_fetched-Answers req o = search (step_rules, reconcile_from-Answers)

    pub reconcile-Answers_certificate : (req : NamespacedName) → Answers (reconcile k req)
    unfolding reconcile
    reconcile-Answers_certificate req = search (step_rules, reconcile_fetched-Answers)
