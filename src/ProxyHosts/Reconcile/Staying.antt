-- ===== src/ProxyHosts/Reconcile/Staying.antt =====
-- DELETE requests in the reconciliation of a proxy host that is not being deleted, as a whole.
use nginxpm_operator.Base.{false, ◌≡◌, All, Text}
use nginxpm_operator.Errors.{Error}
use nginxpm_operator.Api.{NamespacedName, ProxyHost}
use nginxpm_operator.Npm.{Client}
use nginxpm_operator.Effect.{Env, History, found}
use nginxpm_operator.Effect.Emits.{Emits, emits_rules}
use nginxpm_operator.Effect.Traffic.{IsNotDelete}
use nginxpm_operator.Controller.Fetching.{Emits-else, fetched-emits}
use nginxpm_operator.Controller.Resources.{proxy_host-Resource}
use nginxpm_operator.Controller.NoDeletion.{
  init_nginxpm_client-IsNotDelete, add_finalizer-IsNotDelete, set_condition-IsNotDelete,
}
use nginxpm_operator.ProxyHosts.NoDeletion.{apply_resource-IsNotDelete}
use nginxpm_operator.ProxyHosts.Reconcile.{
  report, apply_resource, with_status, no_client, reconcile_from, reconcile_fetched, reconcile,
}

report-IsNotDelete :
    (req : NamespacedName) (reason : Text) (ph : ProxyHost) (e : Error)
    → Emits IsNotDelete (report req reason ph e)
unfolding report
report-IsNotDelete req reason ph e = search (emits_rules, set_condition-IsNotDelete)

apply_resource-Emits :
    (req : NamespacedName) (ph : ProxyHost) (c : Client)
    → Emits IsNotDelete (apply_resource req ph c)
apply_resource-Emits req ph c = record { at = apply_resource-IsNotDelete req ph c }

from-IsNotDelete :
    (req : NamespacedName) (ph : ProxyHost) → Emits IsNotDelete (reconcile_from req false ph)
unfolding reconcile_from with_status no_client
from-IsNotDelete req ph = search (
  emits_rules, set_condition-IsNotDelete, init_nginxpm_client-IsNotDelete, report-IsNotDelete,
  apply_resource-Emits,
)

fetched-IsNotDelete :
    (req : NamespacedName) (ph : ProxyHost)
    → ph.metadata.deleting ≡ false
    → Emits IsNotDelete (reconcile_fetched req ph)
unfolding reconcile_fetched
fetched-IsNotDelete req ph stays =
    Emits-else _ _ _ stays (search (emits_rules, add_finalizer-IsNotDelete, from-IsNotDelete))

-- The whole reconciliation of a resource that is not being deleted.
pub reconcile-IsNotDelete :
    (req : NamespacedName) (ph : ProxyHost) (env : Env) (t : History)
    → env.proxy_hosts.get t req ≡ found ph
    → ph.metadata.deleting ≡ false
    → All IsNotDelete t
    → All IsNotDelete (reconcile req env t).1
unfolding reconcile
reconcile-IsNotDelete req ph env t is_found stays =
    fetched-emits req ph (reconcile_fetched req) _ env t is_found tt
      (fetched-IsNotDelete req ph stays)
