-- ===== src/Streams/Watches.antt =====
-- The indexes and the watches of stream_controller.go: which streams are reconciled when another
-- resource, a service or a pod changes.
pub mod Pods
use nginxpm_operator.Base.{
  Bool, false, Option, none, some, List, [], ◌∷◌, if◌then◌else◌, ◌==◌, text-Eq, Text,
}
use nginxpm_operator.Api.{
  NamespacedName, Stream, StreamSsl, SslCustomCertificate, SslLetsEncryptCertificate, Pod,
}
use nginxpm_operator.Effect.{Action, pure}
use nginxpm_operator.Controller.Resources.{stream-Resource}
use nginxpm_operator.Controller.Watches.{
  name_index, token_index, service_name, pod_in_service, find_objects_for_map, find_objects_for_pod,
}

abbrev custom_name : Option SslCustomCertificate → Text
custom_name none = []
custom_name (some certificate) = certificate.name

abbrev lets_encrypt_name : Option SslLetsEncryptCertificate → Text
lets_encrypt_name none = []
lets_encrypt_name (some certificate) = certificate.name

unfoldable pub stream_token_index : Stream → List Text
stream_token_index st = token_index st.spec.token

unfoldable pub custom_certificate_index : Option StreamSsl → List Text
custom_certificate_index none = []
custom_certificate_index (some ssl) = name_index (custom_name ssl.custom_certificate)

unfoldable pub lets_encrypt_certificate_index : Option StreamSsl → List Text
lets_encrypt_certificate_index none = []
lets_encrypt_certificate_index (some ssl) =
    name_index (lets_encrypt_name ssl.lets_encrypt_certificate)

unfoldable pub service_index : Stream → List Text
service_index st = name_index (service_name st.spec.forward.service)

unfoldable pub find_streams_for_token : Text → Action (List NamespacedName)
find_streams_for_token = find_objects_for_map {O = Stream} stream_token_index

unfoldable pub find_streams_for_custom_certificate : Text → Action (List NamespacedName)
find_streams_for_custom_certificate =
    find_objects_for_map {O = Stream} (λ st. custom_certificate_index st.spec.ssl)

unfoldable pub find_streams_for_lets_encrypt_certificate : Text → Action (List NamespacedName)
find_streams_for_lets_encrypt_certificate =
    find_objects_for_map {O = Stream} (λ st. lets_encrypt_certificate_index st.spec.ssl)

unfoldable pub find_streams_for_service : Text → Action (List NamespacedName)
find_streams_for_service = find_objects_for_map {O = Stream} service_index

-- The service is looked for in the namespace of the stream, whatever the reference says.
unfoldable pub pod_concerns : Pod → Stream → Action Bool
pod_concerns pod st =
    let name = service_name st.spec.forward.service in
    if name == [] then pure false else pod_in_service pod st.metadata.namespace name

unfoldable pub find_streams_for_pod : Pod → Action (List NamespacedName)
find_streams_for_pod pod = find_objects_for_pod {O = Stream} (pod_concerns pod)
