-- ===== src/Streams/Reconcile/NoDeletion.antt =====
-- DELETE requests in the reconciliation of a stream that is not being deleted.
use nginxpm_operator.Base.{◌≡◌, Bool, true, false, Option, none, some, ℤ, Text, All}
use nginxpm_operator.Errors.{Error}
use nginxpm_operator.Api.{NamespacedName, Stream, StreamSsl}
use nginxpm_operator.Npm
use nginxpm_operator.Npm.{Client, StreamRequestInput}
use nginxpm_operator.Npm.NoDeletion.{
  find_stream_by_id-IsNotDelete, create_stream-IsNotDelete, update_stream-IsNotDelete,
}
use nginxpm_operator.Effect.{Env, History, found}
use nginxpm_operator.Effect.Emits.{Emits, emits_rules}
use nginxpm_operator.Effect.Traffic.{IsNotDelete}
use nginxpm_operator.Controller.{Attempt}
use nginxpm_operator.Controller.Fetching.{Emits-else, fetched-emits}
use nginxpm_operator.Controller.Resources.{stream-Resource}
use nginxpm_operator.Controller.NoDeletion.{
  with_event-IsNotDelete, init_nginxpm_client-IsNotDelete, add_finalizer-IsNotDelete,
  set_condition-IsNotDelete, update_status-IsNotDelete, retrieve_certificate-IsNotDelete,
}
use nginxpm_operator.Streams.Forward.{StreamForward}
use nginxpm_operator.Streams.Forward.NoDeletion.{make_forward-IsNotDelete}
use nginxpm_operator.Streams.Reconcile.{
  find_existing, certificate_id_for, add_custom_fields, write_stream, create_or_update_stream,
  report, applied, apply_resource, with_status, no_client, reconcile_from, reconcile_fetched,
  reconcile,
}

ruleset step_rules =
    (emits_rules, with_event-IsNotDelete, set_condition-IsNotDelete, update_status-IsNotDelete)

find_existing-IsNotDelete : (c : Client) (o : Option ℤ) → Emits IsNotDelete (find_existing c o)
unfolding find_existing
find_existing-IsNotDelete c none = search step_rules
find_existing-IsNotDelete c (some id) = search (step_rules, find_stream_by_id-IsNotDelete)

certificate_id_for-IsNotDelete :
    (req : NamespacedName) (c : Client) (o : Option StreamSsl)
    → Emits IsNotDelete (certificate_id_for req c o)
unfolding certificate_id_for
certificate_id_for-IsNotDelete req c none = search step_rules
certificate_id_for-IsNotDelete req c (some ssl) =
    search (step_rules, retrieve_certificate-IsNotDelete)

add_custom_fields-IsNotDelete :
    (c : Client) (f : StreamForward) (s : Npm.Stream) (input : StreamRequestInput) (b : Bool)
    → Emits IsNotDelete (add_custom_fields c f s input b)
unfolding add_custom_fields
add_custom_fields-IsNotDelete c f s input true = search step_rules
add_custom_fields-IsNotDelete c f s input false = search (step_rules, update_stream-IsNotDelete)

write_stream-IsNotDelete :
    (c : Client) (f : StreamForward) (o : Option Npm.Stream) (input : StreamRequestInput) (b : Bool)
    → Emits IsNotDelete (write_stream c f o input b)
unfolding write_stream
write_stream-IsNotDelete c f none input b =
    search (step_rules, create_stream-IsNotDelete, add_custom_fields-IsNotDelete)
write_stream-IsNotDelete c f (some s) input b = search (step_rules, update_stream-IsNotDelete)

create_or_update-IsNotDelete :
    (req : NamespacedName) (st : Stream) (c : Client)
    → Emits IsNotDelete (create_or_update_stream req st c)
unfolding create_or_update_stream
create_or_update-IsNotDelete req st c =
    search
      (
        step_rules, find_existing-IsNotDelete, make_forward-IsNotDelete,
        certificate_id_for-IsNotDelete, write_stream-IsNotDelete,
      )
      depth 10

report-IsNotDelete :
    (req : NamespacedName) (reason : Text) (st : Stream) (e : Error)
    → Emits IsNotDelete (report req reason st e)
unfolding report
report-IsNotDelete req reason st e = search step_rules

applied-IsNotDelete :
    (req : NamespacedName) (a : Attempt Stream) → Emits IsNotDelete (applied req a)
unfolding applied
applied-IsNotDelete req (st, none) = search step_rules
applied-IsNotDelete req (st, some e) = report-IsNotDelete req _ st _

apply_resource-Emits :
    (req : NamespacedName) (st : Stream) (c : Client) → Emits IsNotDelete (apply_resource req st c)
unfolding apply_resource
apply_resource-Emits req st c =
    search (step_rules, create_or_update-IsNotDelete, applied-IsNotDelete, report-IsNotDelete)

from-IsNotDelete :
    (req : NamespacedName) (st : Stream) → Emits IsNotDelete (reconcile_from req false st)
unfolding reconcile_from with_status no_client
from-IsNotDelete req st = search (
  emits_rules, set_condition-IsNotDelete, init_nginxpm_client-IsNotDelete, report-IsNotDelete,
  apply_resource-Emits,
)

fetched-IsNotDelete :
    (req : NamespacedName) (st : Stream)
    → st.metadata.deleting ≡ false
    → Emits IsNotDelete (reconcile_fetched req st)
unfolding reconcile_fetched
fetched-IsNotDelete req st stays =
    Emits-else _ _ _ stays (search (emits_rules, add_finalizer-IsNotDelete, from-IsNotDelete))

-- The whole reconciliation of a resource that is not being deleted.
pub reconcile-IsNotDelete_stream :
    (req : NamespacedName) (st : Stream) (env : Env) (t : History)
    → env.streams.get t req ≡ found st
    → st.metadata.deleting ≡ false
    → All IsNotDelete t
    → All IsNotDelete (reconcile req env t).1
unfolding reconcile
reconcile-IsNotDelete_stream req st env t is_found stays =
    fetched-emits req st (reconcile_fetched req) _ env t is_found tt
      (fetched-IsNotDelete req st stays)
