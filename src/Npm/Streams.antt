-- ===== src/Npm/Streams.antt =====
-- pkg/nginxpm/stream.go
use nginxpm_operator.Base.{Bool, true, false, Option, [], ◌∷◌, ◌++◌, ℤ, Text, txt}
use nginxpm_operator.Base.Strings.{decimal}
use nginxpm_operator.Json.{Json, bool, int, str, obj}
use nginxpm_operator.Effect.{
  Action, ◌>>=◌, pure, json, no_body, post_method, put_method, delete_method,
}
use nginxpm_operator.Npm.Types.{Stream, decode_stream}
use nginxpm_operator.Npm.Requests.{
  Client, RequestCustomFields, get_list, find_by_id, do_request, read_response, check_status,
  is_success, object, put_custom_fields,
}

pub record StreamRequestInput : Type 0 where
  pub incoming_port : ℤ
  pub forwarding_host : Text
  pub forwarding_port : ℤ
  pub tcp_forwarding : Bool
  pub certificate_id : ℤ
  pub udp_forwarding : Bool
  pub custom_fields : RequestCustomFields

abbrev pub stream_path : ℤ → Text
stream_path id = txt "/api/nginx/streams/" ++ decimal id

unfoldable pub delete_stream : Client → ℤ → Action (Unit {0})
delete_stream c id = do
  resp ← do_request c delete_method (stream_path id) no_body
  check_status resp

unfoldable pub find_stream_by_id : Client → ℤ → Action (Option Stream)
find_stream_by_id c id = do
  streams ← get_list c (txt "/api/nginx/streams") decode_stream
  pure (find_by_id (λ stream. stream.id) id streams)

unfoldable pub build_stream_request_body : StreamRequestInput → Json
build_stream_request_body input = obj (
    put_custom_fields input.custom_fields (
      object (
        (txt "incoming_port", int input.incoming_port)
        ∷ (txt "forwarding_host", str input.forwarding_host)
        ∷ (txt "forwarding_port", int input.forwarding_port)
        ∷ (txt "tcp_forwarding", bool input.tcp_forwarding)
        ∷ (txt "udp_forwarding", bool input.udp_forwarding)
        ∷ (txt "certificate_id", int input.certificate_id)
        ∷ (
          txt "meta",
          obj (
              object (
                (txt "letsencrypt_agree", bool false)
                ∷ (txt "dns_challenge", bool true)
                ∷ (txt "dns_provider_credentials", str [])
                ∷ [])),
        )
        ∷ [])))

unfoldable pub create_stream : Client → StreamRequestInput → Action Stream
create_stream c input = do
  let body = build_stream_request_body input
  resp ← do_request c post_method (txt "/api/nginx/streams") (json body)
  read_response is_success decode_stream resp

unfoldable pub update_stream : Client → ℤ → StreamRequestInput → Action Stream
update_stream c id input = do
  let body = build_stream_request_body input
  resp ← do_request c put_method (stream_path id) (json body)
  read_response is_success decode_stream resp
