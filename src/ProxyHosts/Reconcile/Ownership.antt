-- ===== src/ProxyHosts/Reconcile/Ownership.antt =====
-- What the reconciler may do to a host on the instance that it did not create.
use nginxpm_operator.Base.{Bool, true, ◌≡◌, Option, none, some, ℤ, Text, All}
use nginxpm_operator.Api.{NamespacedName, ProxyHost}
use nginxpm_operator.Npm.{Client, ProxyHostRequestInput}
use nginxpm_operator.Npm.NoDeletion.{
  update_proxy_host-IsNotDelete, enable_proxy_host-IsNotDelete, disable_proxy_host-IsNotDelete,
}
use nginxpm_operator.Effect.{Env, History}
use nginxpm_operator.Effect.Emits.{Emits, emits_rules}
use nginxpm_operator.Effect.Traffic.{IsNotDelete}
use nginxpm_operator.Controller.{remove_finalizer}
use nginxpm_operator.Controller.Resources.{proxy_host-Resource}
use nginxpm_operator.ProxyHosts.Reconcile.{
  release, restore_with, release_if_created, let_go, delete_resource,
}

ruleset bound_rules = (
  emits_rules, update_proxy_host-IsNotDelete, enable_proxy_host-IsNotDelete,
  disable_proxy_host-IsNotDelete,
)

restore_with-IsNotDelete :
    (c : Client) (id : ℤ) (enabled : Bool) (o : Option ProxyHostRequestInput)
    → Emits IsNotDelete (restore_with c id enabled o)
unfolding restore_with
restore_with-IsNotDelete c id enabled none = search bound_rules
restore_with-IsNotDelete c id enabled (some input) = search bound_rules depth 8

-- A bound host is restored, or else disabled.
release-bound :
    (c : Client) (ph : ProxyHost) (id : ℤ)
    → ph.status.bound ≡ true
    → Emits IsNotDelete (release c ph id)
unfolding release
release-bound c ph id bound = rw bound (search (bound_rules, restore_with-IsNotDelete))

remove_finalizer-IsNotDelete :
    (f : Text) (ph : ProxyHost) → Emits IsNotDelete (remove_finalizer f ph)
unfolding remove_finalizer
remove_finalizer-IsNotDelete f ph = search emits_rules

let_go-IsNotDelete : (req : NamespacedName) → Emits IsNotDelete (let_go req)
unfolding let_go
let_go-IsNotDelete req = search (emits_rules, remove_finalizer-IsNotDelete)

release_if_created-bound :
    (c : Client) (ph : ProxyHost) (o : Option ℤ)
    → ph.status.bound ≡ true
    → Emits IsNotDelete (release_if_created c ph o)
unfolding release_if_created
release_if_created-bound c ph none bound = search emits_rules
release_if_created-bound c ph (some id) bound = release-bound c ph id bound

delete_resource-Emits :
    (req : NamespacedName) (ph : ProxyHost) (c : Client)
    → ph.status.bound ≡ true
    → Emits IsNotDelete (delete_resource req ph c)
unfolding delete_resource
delete_resource-Emits req ph c bound =
    search (emits_rules, release_if_created-bound, let_go-IsNotDelete, bound)

-- Whatever the instance and the API server answer, the deletion of a resource that is bound to a
-- host which it did not create adds no DELETE request to the history.
pub delete_resource-bound :
    (req : NamespacedName) (ph : ProxyHost) (c : Client) (env : Env) (t : History)
    → ph.status.bound ≡ true
    → All IsNotDelete t
    → All IsNotDelete (delete_resource req ph c env t).1
delete_resource-bound req ph c env t bound = (delete_resource-Emits req ph c bound).at env t
