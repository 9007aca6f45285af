-- ===== src/Streams/Reconcile/Body.antt =====
-- The body of the request that creates or updates a stream.
use nginxpm_operator.Base.{
  Bool, false, ◌&&◌, ◌≡◌, refl, ◌∙◌, Option, none, some, is_some, if◌then◌else◌, ◌==◌, text-Eq,
  Text, ℤ,
}
use nginxpm_operator.Json.{Fields, obj, str, get}
use nginxpm_operator.Api.{Stream}
use nginxpm_operator.Npm
use nginxpm_operator.Npm.{
  custom_field_unscoped_config, build_stream_request_body, put_custom_fields,
}
use nginxpm_operator.Npm.CustomFields.{get-put_custom_field}
use nginxpm_operator.Controller.{json_field_exists}
use nginxpm_operator.Controller.Reflection.Fields.{unscoped_config-stream}
use nginxpm_operator.Streams.Forward.{StreamForward}
use nginxpm_operator.Streams.Reconcile.{
  unscoped_config_supported, request_input, with_custom_fields,
}

-- The stream on the instance has the field, be it empty.
abbrev pub has_unscoped_config : Option Npm.Stream → Bool
has_unscoped_config none = false
has_unscoped_config (some s) = is_some s.unscoped_config

supported-has : (o : Option Npm.Stream) → unscoped_config_supported o ≡ has_unscoped_config o
unfolding unscoped_config_supported json_field_exists
supported-has none = refl
supported-has (some s) = unscoped_config-stream s

-- The custom field of a stream adds to the body that is sent the key `unscoped_config`, with the
-- upstream block, exactly if the stream on the instance has that field, and changes no other key.
pub with_custom_fields-body_stream :
    (st : Stream) (forward : StreamForward) (certificate_id : ℤ) (stream : Option Npm.Stream)
    → (body : Fields) × (plain : Fields) × (build_stream_request_body
          (with_custom_fields forward stream (request_input st forward certificate_id)).0
        ≡ obj body)
      × (build_stream_request_body (request_input st forward certificate_id) ≡ obj plain)
      × ((k : Text)
          → get k body ≡ (
              if has_unscoped_config stream && custom_field_unscoped_config == k
              then str forward.nginx_upstream_configs
              else get k plain))
unfolding with_custom_fields build_stream_request_body request_input put_custom_fields
with_custom_fields-body_stream st forward certificate_id stream = (
  _,
  _,
  refl,
  refl,
  λ k.
      get-put_custom_field custom_field_unscoped_config forward.nginx_upstream_configs k
        (unscoped_config_supported stream) _
      ∙ rw (supported-has stream) refl,
)
