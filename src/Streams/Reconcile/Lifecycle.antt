-- ===== src/Streams/Reconcile/Lifecycle.antt =====
-- How a reconciliation of a stream ends, and how its deletion goes.
use nginxpm_operator.Base.{Bool, true, false, ◌≡◌, refl, Option, none, some, ◌++◌, ◌∷◌, ℤ, Text}
use nginxpm_operator.Errors.{Error}
use nginxpm_operator.Api.{NamespacedName, Stream, StreamSsl}
use nginxpm_operator.Npm
use nginxpm_operator.Npm.{
  Client, StreamRequestInput, delete_stream, stream_path, authorization, do_request, receive,
  check_status, Response, is_ok,
}
use nginxpm_operator.Npm.Settling.{
  find_stream_by_id-Settles, create_stream-Settles, update_stream-Settles, delete_stream-Settles,
}
use nginxpm_operator.Effect.{Env, History, sent, ok, monad}
use nginxpm_operator.Npm.Deletion.{deletion, delete_stream-History}
use nginxpm_operator.Effect.Returns.{
  ignore_error-runs, Settles, Answers, answers_rules, Answers→Settles,
}
use nginxpm_operator.Controller.{Attempt, ReconcileResult}
use nginxpm_operator.Controller.Resources.{stream-Resource}
use nginxpm_operator.Controller.Settling.{
  with_event-Settles, set_condition-Answers, update_status-Answers, init_nginxpm_client-Settles,
  add_finalizer-Settles, remove_finalizer-Settles, retrieve_certificate-Settles,
}
use nginxpm_operator.Streams.Forward.{StreamForward}
use nginxpm_operator.Streams.Forward.Outcome.{make_forward-Settles}
use nginxpm_operator.Streams.Reconcile.{
  certificate_id_for, add_custom_fields, find_existing, write_stream, create_or_update_stream,
  let_go, delete_remote, delete_resource, report, applied, apply_resource, no_client, with_status,
  reconcile_from, reconcile_fetched, reconcile, stream_finalizer,
}

ruleset step_rules = (
  answers_rules, with_event-Settles, set_condition-Answers, init_nginxpm_client-Settles,
  add_finalizer-Settles, remove_finalizer-Settles,
)

find_existing-Settles : (c : Client) (o : Option ℤ) → Settles (find_existing c o)
unfolding find_existing
find_existing-Settles c none = search step_rules
find_existing-Settles c (some id) = search (step_rules, find_stream_by_id-Settles)

certificate_id_for-Settles :
    (req : NamespacedName) (c : Client) (o : Option StreamSsl)
    → Settles (certificate_id_for req c o)
unfolding certificate_id_for
certificate_id_for-Settles req c none = search step_rules
certificate_id_for-Settles req c (some ssl) = search (step_rules, retrieve_certificate-Settles)

add_custom_fields-Answers :
    (c : Client) (f : StreamForward) (s : Npm.Stream) (input : StreamRequestInput) (b : Bool)
    → Answers (add_custom_fields c f s input b)
unfolding add_custom_fields
add_custom_fields-Answers c f s input true = search step_rules
add_custom_fields-Answers c f s input false = search (step_rules, update_stream-Settles)

write_stream-Settles :
    (c : Client) (f : StreamForward) (o : Option Npm.Stream) (input : StreamRequestInput) (b : Bool)
    → Settles (write_stream c f o input b)
unfolding write_stream
write_stream-Settles c f none input b =
    search (step_rules, create_stream-Settles, add_custom_fields-Answers, Answers→Settles)
write_stream-Settles c f (some s) input b = search (step_rules, update_stream-Settles)

create_or_update-Settles :
    (req : NamespacedName) (st : Stream) (c : Client) → Settles (create_or_update_stream req st c)
unfolding create_or_update_stream
create_or_update-Settles req st c =
    let finish =
      λ (f : Env → Stream → Stream). Answers→Settles _ (update_status-Answers req f st) in
    search
      (
        step_rules, find_existing-Settles, make_forward-Settles, certificate_id_for-Settles,
        write_stream-Settles, finish,
      )
      depth 10

let_go-Answers : (st : Stream) → Answers (let_go st)
unfolding let_go
let_go-Answers st = search step_rules

delete_remote-Answers : (c : Client) (o : Option ℤ) → Answers (delete_remote c o)
unfolding delete_remote
delete_remote-Answers c none = search step_rules
delete_remote-Answers c (some id) = search (step_rules, delete_stream-Settles)

delete_resource-Answers : (st : Stream) (c : Client) → Answers (delete_resource st c)
unfolding delete_resource
delete_resource-Answers st c = search (step_rules, delete_remote-Answers, let_go-Answers)

report-Answers :
    (req : NamespacedName) (reason : Text) (st : Stream) (e : Error)
    → Answers (report req reason st e)
unfolding report
report-Answers req reason st e = search step_rules

applied-Answers : (req : NamespacedName) (a : Attempt Stream) → Answers (applied req a)
unfolding applied
applied-Answers req (st, none) = search step_rules
applied-Answers req (st, some e) = report-Answers req _ st _

apply_resource-Answers :
    (req : NamespacedName) (st : Stream) (c : Client) → Answers (apply_resource req st c)
unfolding apply_resource
apply_resource-Answers req st c =
    search (step_rules, create_or_update-Settles, applied-Answers, report-Answers)

no_client-Answers :
    (req : NamespacedName) (b : Bool) (st : Stream) (e : Error) → Answers (no_client req b st e)
unfolding no_client
no_client-Answers req b st e = search (step_rules, let_go-Answers, report-Answers)

with_status-Answers : (req : NamespacedName) (st : Stream) → Answers (with_status req st)
unfolding with_status
with_status-Answers req st = search step_rules

reconcile_from-Answers :
    (req : NamespacedName) (b : Bool) (st : Stream) → Answers (reconcile_from req b st)
unfolding reconcile_from
reconcile_from-Answers req b st = search (
  step_rules, with_status-Answers, delete_resource-Answers, apply_resource-Answers,
  no_client-Answers,
)

reconcile_fetched-Answers :
    (req : NamespacedName) (st : Stream) → Answers (reconcile_fetched req st)
unfolding reconcile_fetched
reconcile_fetched-Answers req st = search (step_rules, reconcile_from-Answers)

every_reconcile-Answers : (req : NamespacedName) → Answers (reconcile req)
unfolding reconcile
every_reconcile-Answers req = search (step_rules, reconcile_fetched-Answers)

-- Whatever the API server and the instance answer, a reconciliation of a stream ends with a result,
-- neither with an error that nothing handles nor with a nil dereference.
pub reconcile-Answers_stream :
    (req : NamespacedName) (env : Env) (t : History)
    → (result : ReconcileResult) × ((reconcile req env t).0 ≡ ok result)
reconcile-Answers_stream req = (every_reconcile-Answers req).at

-- The deletion of a stream that has the finalizer and an id, at an endpoint that parses, sends
-- one request, the DELETE of that id; then, whatever the instance answers, it goes on to take off
-- the finalizer.
pub delete_resource-let_go_stream :
    (st : Stream) (c : Client) (id : ℤ) (env : Env) (t : History)
    → env.contains_finalizer st.metadata.finalizers stream_finalizer ≡ true
    → st.status.id ≡ some id
    → env.valid_url (c.endpoint ++ stream_path id) ≡ true
    → delete_resource st c env t ≡ let_go st env (sent (deletion c (stream_path id)) ∷ t)
unfolding delete_resource delete_remote monad
delete_resource-let_go_stream st c id env t present has_id valid = rw present (
    rw has_id (
      rw (ignore_error-runs (delete_stream c id) env t (delete_stream-Settles c id))
        (rw (delete_stream-History c id env t valid) refl)))
