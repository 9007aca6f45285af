-- ===== src/Streams/Reconcile.antt =====
-- internal/controller/stream/stream_controller.go: `createOrUpdateStream` and `Reconcile`.
pub mod Body
pub mod Lifecycle
pub mod NoDeletion
use nginxpm_operator.Base.{
  Bool, true, false, Option, none, some, List, [], ◌∷◌, ◌++◌, if◌then◌else◌, is_empty, ℤ, pos, Text,
  txt,
}
use nginxpm_operator.Errors.{Error, not_found, kube}
use nginxpm_operator.Api.{NamespacedName, Stream, StreamSsl}
use nginxpm_operator.Npm
use nginxpm_operator.Npm.{
  Client, StreamRequestInput, custom_field_unscoped_config, find_stream_by_id, create_stream,
  update_stream, delete_stream,
}
use nginxpm_operator.Effect.{handle, Action, ◌>>=◌, ◌>>◌, pure, ignore_error, record_event, read}
use nginxpm_operator.Controller.{
  init_nginxpm_client, add_finalizer, remove_finalizer, set_condition, update_status, with_event,
  ReconcileResult, done, retry_after, starting, failed_with, succeeded, Attempt, json_field_exists,
  stream_fields, retrieve_certificate,
}
use nginxpm_operator.Controller.Resources.{get_object, stream-Resource}
use nginxpm_operator.Streams.Forward.{StreamForward, make_forward}

abbrev pub stream_finalizer : Text
stream_finalizer = txt "stream.nginxpm-operator.io/finalizers"

find_existing : Client → Option ℤ → Action (Option Npm.Stream)
find_existing client none = pure none
find_existing client (some id) = with_event (txt "FindStreamByID") (find_stream_by_id client id)

abbrev fields_of : Option Npm.Stream → Bool
fields_of none = json_field_exists none custom_field_unscoped_config
fields_of (some s) = json_field_exists (some (stream_fields s)) custom_field_unscoped_config

unfoldable pub unscoped_config_supported : Option Npm.Stream → Bool
unscoped_config_supported = fields_of

abbrev id_of : Option Npm.Certificate → ℤ
id_of none = pos 0
id_of (some c) = c.id

unfoldable pub certificate_id_for : NamespacedName → Client → Option StreamSsl → Action ℤ
certificate_id_for req client none = pure (pos 0)
certificate_id_for req client (some ssl) = do
  certificate ← with_event (txt "MakeCertificate") (
      retrieve_certificate (record {
        req = req;
        client = client;
        lets_encrypt_certificate = ssl.lets_encrypt_certificate;
        custom_certificate = ssl.custom_certificate;
        certificate_id = ssl.certificate_id;
      }))
  pure (id_of certificate)

unfoldable pub incoming_port : Stream → StreamForward → ℤ
incoming_port st forward =
    if st.spec.overwrite_incoming_port_with_forward_port
    then forward.port
    else st.spec.incoming_port

unfoldable pub request_input : Stream → StreamForward → ℤ → StreamRequestInput
request_input st forward certificate_id = record {
  incoming_port = incoming_port st forward;
  forwarding_host = forward.host;
  forwarding_port = forward.port;
  tcp_forwarding = st.spec.forward.tcp_forwarding;
  certificate_id = certificate_id;
  udp_forwarding = st.spec.forward.udp_forwarding;
  custom_fields = [];
}

-- One custom field, whose test `Allowed` is also that of all fields.
unfoldable pub with_custom_fields :
    StreamForward → Option Npm.Stream → StreamRequestInput → StreamRequestInput × Bool
with_custom_fields forward stream input =
    let supported = unscoped_config_supported stream in
    (
      record input {
        custom_fields =
            (
              custom_field_unscoped_config,
              record {
                field_name = custom_field_unscoped_config;
                value = forward.nginx_upstream_configs;
                allowed = supported;
              },
            )
            ∷ [];
      },
      supported,
    )

add_custom_fields :
    Client → StreamForward → Npm.Stream → StreamRequestInput → Bool → Action (Unit {0})
add_custom_fields client forward stream input true = pure tt
add_custom_fields client forward stream input false =
    ignore_error (update_stream client stream.id (with_custom_fields forward (some stream) input).0)

unfoldable pub write_stream :
    Client → StreamForward → Option Npm.Stream → StreamRequestInput → Bool → Action Npm.Stream
unfolding add_custom_fields
write_stream client forward (some s) input supported =
    with_event (txt "UpdateStream") (update_stream client s.id input)
write_stream client forward none input supported = do
  s ← with_event (txt "CreateStream") (create_stream client input)
  add_custom_fields client forward s input supported
  pure s

unfoldable pub applied_status : StreamForward → Npm.Stream → ℤ → Stream → Stream
applied_status forward s incoming st = record st {
  status = record st.status {
    id = some s.id;
    online = s.meta.nginx_online;
    incoming_port = some incoming;
    forwarding_port = some forward.port;
  };
}

unfoldable pub create_or_update_stream : NamespacedName → Stream → Client → Action (Attempt Stream)
unfolding find_existing
create_or_update_stream req st client = do
  existing ← find_existing client st.status.id
  forward ←
      with_event (txt "MakeForward") (make_forward (unscoped_config_supported existing) st req)
  certificate_id ← certificate_id_for req client st.spec.ssl
  let input = with_custom_fields forward existing (request_input st forward certificate_id)
  s ← write_stream client forward existing input.0 input.1
  update_status req (λ env o. applied_status forward s (incoming_port st forward) o) st

-- The finalizer is taken off the resource as it was fetched.
unfoldable pub let_go : Stream → Action ReconcileResult
let_go st =
    handle (remove_finalizer stream_finalizer st) (λ _. pure done) (λ e. pure (retry_after 60 e))

delete_remote : Client → Option ℤ → Action (Unit {0})
delete_remote client none = pure tt
delete_remote client (some id) = ignore_error (delete_stream client id)

unfoldable pub delete_resource : Stream → Client → Action ReconcileResult
unfolding delete_remote let_go
delete_resource st client = do
  present ← read (λ env. env.contains_finalizer st.metadata.finalizers stream_finalizer)
  if present then delete_remote client st.status.id >> let_go st else pure done

report : NamespacedName → Text → Stream → Error → Action ReconcileResult
report req reason st e = do
  st' ← set_condition req (failed_with reason e) st
  pure (retry_after 60 e)

applied : NamespacedName → Attempt Stream → Action ReconcileResult
unfolding report
applied req (st, some e) = report req (txt "createOrUpdateStream") st (kube e)
applied req (st, none) = do
  st' ←
      set_condition req
        (succeeded (txt "createOrUpdateStream")
          (txt "Stream created or updated, ResourceName: " ++ req.name))
        st
  pure done

unfoldable pub apply_resource : NamespacedName → Stream → Client → Action ReconcileResult
unfolding applied
apply_resource req st client =
    handle (create_or_update_stream req st client) (applied req)
      (report req (txt "createOrUpdateStream") st)

no_client : NamespacedName → Bool → Stream → Error → Action ReconcileResult
unfolding let_go report
no_client req deleting st e =
    if deleting
    then let_go st
    else (record_event (txt "InitNginxPMClient") >> report req (txt "InitNginxPMClient") st e)

with_status : NamespacedName → Stream → Action Stream
with_status req st =
    if is_empty st.status.conditions then set_condition req starting st else pure st

reconcile_from : NamespacedName → Bool → Stream → Action ReconcileResult
unfolding with_status no_client
reconcile_from req deleting fetched = do
  st ← with_status req fetched
  handle (init_nginxpm_client req.namespace st.spec.token)
      (λ client. if deleting then delete_resource st client else apply_resource req st client)
      (no_client req deleting st)

reconcile_fetched : NamespacedName → Stream → Action ReconcileResult
unfolding reconcile_from
reconcile_fetched req st =
    if st.metadata.deleting
    then reconcile_from req true st
    else handle (add_finalizer stream_finalizer st) (reconcile_from req false)
        (λ e. pure (retry_after 60 e))

get_failed : Error → ReconcileResult
get_failed (kube not_found) = done
get_failed e = retry_after 60 e

unfoldable pub reconcile : NamespacedName → Action ReconcileResult
unfolding reconcile_fetched get_failed
reconcile req =
    handle (get_object {O = Stream} req) (reconcile_fetched req) (λ e. pure (get_failed e))
