-- ===== src/NoDeletion.antt =====
-- What the reconciliations of resources that stay leave in place on the instance.
use nginxpm_operator.Base.{◌≡◌, false, All}
use nginxpm_operator.Api
use nginxpm_operator.Api.{NamespacedName}
use nginxpm_operator.Effect.{Env, History, found}
use nginxpm_operator.Effect.Traffic.{IsNotDelete}
use nginxpm_operator.ProxyHosts.Reconcile as HostReconcile
use nginxpm_operator.ProxyHosts.Reconcile.Staying.{reconcile-IsNotDelete}
use nginxpm_operator.Streams.Reconcile as StreamReconcile
use nginxpm_operator.Streams.Reconcile.NoDeletion.{reconcile-IsNotDelete_stream}
use nginxpm_operator.AccessLists
use nginxpm_operator.AccessLists.NoDeletion.{reconcile-IsNotDelete_access_list}

-- Whatever the instance and the API server answer otherwise, the reconciliation of a proxy host, of a
-- stream and of an access list which the API server answers with and which is not being deleted adds
-- no DELETE request to the history, from the fetch of the resource to the end.
pub reconcile-IsNotDelete_each :
    (req : NamespacedName) (ph : Api.ProxyHost) (st : Api.Stream) (acl : Api.AccessList) (env : Env)
    (t : History)
    → env.proxy_hosts.get t req ≡ found ph
    → ph.metadata.deleting ≡ false
    → env.streams.get t req ≡ found st
    → st.metadata.deleting ≡ false
    → env.access_lists.get t req ≡ found acl
    → acl.metadata.deleting ≡ false
    → All IsNotDelete t
    → All IsNotDelete (HostReconcile.reconcile req env t).1
      × All IsNotDelete (StreamReconcile.reconcile req env t).1
      × All IsNotDelete (AccessLists.reconcile req env t).1
reconcile-IsNotDelete_each req ph st acl env t is_ph ph_stays is_st st_stays is_acl acl_stays h = (
  reconcile-IsNotDelete req ph env t is_ph ph_stays h,
  reconcile-IsNotDelete_stream req st env t is_st st_stays h,
  reconcile-IsNotDelete_access_list req acl env t is_acl acl_stays h,
)
